-- ===== src/Worker.antt =====
-- src/worker.cc, src/worker.h and `acceptcb` of src/server.cc: how connections reach a worker, and which of its
-- streams are alive. The queue between the threads is a library of its own, the record FdQueue.
pub mod Laws
pub mod Handoff
pub mod Rounds
pub mod Serials
mod Tests
use harmony_http.Prelude.{
  ℕ, zero, suc, ◌+◌, ◌%◌, ◌^◌, List, [], ◌∷◌, ◌++◌, Bool, true, false, Option, none, some, ◌==◌,
  ◌||◌, not, if◌then◌else◌,
}

-- `emplace` and `try_dequeue` of the queue.
pub record FdQueue (Q : Type 0) : Type 0 where
  pub emplace : ℕ → Q → Q
  pub try_dequeue : Q → Option ℕ × Q

-- A session of the list, as the number that stands for its place there and its descriptor.
pub record HttpSession : Type 0 where
  pub itr : ℕ
  pub fd : ℕ

-- `async_sent` is whether the watcher async_watcher_ has been sent to since its callback was last
-- called, `in_accept` whether that callback runs, `made` how many sessions there were, and `closed`
-- the descriptors that were closed.
pub record Worker (Q : Type 0) : Type 0 where
  pub queued_fds : Q
  pub async_sent : Bool
  pub in_accept : Bool
  pub sessions : List HttpSession
  pub made : ℕ
  pub closed : List ℕ
  pub next_stream_serial : ℕ
  pub alive_streams : List ℕ

module _ {Q : Type 0} (queue : FdQueue Q) where
  -- The constructor, on an empty queue.
  unfoldable pub new_worker : Q → Worker Q
  new_worker q = record {
    queued_fds = q;
    async_sent = false;
    in_accept = false;
    sessions = [];
    made = 0;
    closed = [];
    next_stream_serial = 0;
    alive_streams = [];
  }

  -- The two halves of `add_connection`, which the main thread calls.
  unfoldable pub put_fd : ℕ → Worker Q → Worker Q
  put_fd fd w = record w { queued_fds = queue.emplace fd w.queued_fds }

  unfoldable pub send_async : Worker Q → Worker Q
  send_async w = record w { async_sent = true }

  unfoldable pub add_connection : ℕ → Worker Q → Worker Q
  unfolding put_fd send_async
  add_connection fd w = send_async (put_fd fd w)

  -- `creates` is whether `create_ssl_session` gives a session of TLS for a descriptor.
  unfoldable pub accept_connection : (ℕ → Bool) → ℕ → Worker Q → Worker Q
  accept_connection creates fd w =
      if creates fd
      then record w {
        sessions = (record { itr = w.made; fd = fd }) ∷ w.sessions;
        made = w.made + 1;
      }
      else record w { closed = w.closed ++ fd ∷ [] }

  -- The loop of libev calls `async_acceptcb`.
  unfoldable pub enter_accept : Worker Q → Worker Q
  enter_accept w = record w { async_sent = false; in_accept = true }

  -- One evaluation of the loop's condition in `async_acceptcb`, with the body if it holds.
  unfoldable pub after_dequeue : (ℕ → Bool) → Option ℕ × Q → Worker Q → Worker Q
  unfolding accept_connection
  after_dequeue creates (none, q) w = record w { queued_fds = q; in_accept = false }
  after_dequeue creates (some fd, q) w = accept_connection creates fd (record w { queued_fds = q })

  unfoldable pub accept_turn : (ℕ → Bool) → Worker Q → Worker Q
  unfolding after_dequeue
  accept_turn creates w = after_dequeue creates (queue.try_dequeue w.queued_fds) w

  -- `sessions_.erase(session->itr_)`; the destructor closes the descriptor.
  unfoldable pub erase : ℕ → List HttpSession → List HttpSession × List ℕ
  erase itr [] = ([], [])
  erase itr (s ∷ ss) =
      let (rest, fds) = erase itr ss in if s.itr == itr then (ss, s.fd ∷ []) else (s ∷ rest, fds)

  unfoldable pub remove_session : ℕ → Worker Q → Worker Q
  unfolding erase
  remove_session itr w =
      let (rest, fds) = erase itr w.sessions in
      record w { sessions = rest; closed = w.closed ++ fds }

  unfoldable pub contains : List ℕ → ℕ → Bool
  contains [] serial = false
  contains (s ∷ ss) serial = let rest = contains ss serial in (s == serial) || rest

  unfoldable pub is_stream_alive : Worker Q → ℕ → Bool
  unfolding contains
  is_stream_alive w serial = contains w.alive_streams serial

  unfoldable pub insert : ℕ → List ℕ → List ℕ
  unfolding contains
  insert serial ss = if contains ss serial then ss else serial ∷ ss

  -- `stream->serial_ = next_stream_serial_++`, with the insertion; the serial is the stream's.
  unfoldable pub add_stream : Worker Q → ℕ × Worker Q
  unfolding insert
  add_stream w = (
    w.next_stream_serial,
    record w {
      next_stream_serial = (w.next_stream_serial + 1) % 2 ^ 64;
      alive_streams = insert w.next_stream_serial w.alive_streams;
    },
  )

  unfoldable pub without : ℕ → List ℕ → List ℕ
  without serial [] = []
  without serial (s ∷ ss) = let rest = without serial ss in if s == serial then rest else s ∷ rest

  unfoldable pub remove_stream : ℕ → Worker Q → Worker Q
  unfolding without
  remove_stream serial w = record w { alive_streams = without serial w.alive_streams }

  -- `f` at an index of the vector; none where there is no such element.
  unfoldable pub at : ℕ → (Worker Q → Worker Q) → List (Worker Q) → Option (List (Worker Q))
  at i f [] = none
  at zero f (w ∷ ws) = some (f w ∷ ws)
  at (suc i) f (w ∷ ws) = elim (at i f ws) [ none ↦ none | some ws' ↦ some (w ∷ ws') ]

-- The members of Server that `acceptcb` uses.
pub record Server (Q : Type 0) : Type 0 where
  pub workers : List (Worker Q)
  pub next_worker : ℕ
  pub num_threads : ℕ

module _ {Q : Type 0} (queue : FdQueue Q) where
  abbrev pub advanced : Server Q → Option (List (Worker Q)) → Option (Server Q)
  advanced s none = none
  advanced s (some ws) =
      some (record s { workers = ws; next_worker = (s.next_worker + 1) % s.num_threads })

  -- One round of `acceptcb` with a descriptor; none is an index past the vector's end.
  unfoldable pub give : ℕ → Server Q → Option (Server Q)
  unfolding at add_connection
  give fd s = advanced s (at queue s.next_worker (add_connection queue fd) s.workers)

  abbrev pub bind : Option (Server Q) → (Server Q → Option (Server Q)) → Option (Server Q)
  bind none f = none
  bind (some s) f = f s

  -- `acceptcb` on the descriptors that accept4 gives before it fails.
  unfoldable pub acceptcb : List ℕ → Server Q → Option (Server Q)
  unfolding give
  acceptcb [] s = some s
  acceptcb (fd ∷ fds) s = bind (give fd s) (acceptcb fds)

-- ===== src/Worker/Tests.antt =====
-- A list for the queue, and runs of a server with two workers.
use harmony_http.Prelude.{
  ℕ, ◌+◌, ◌%◌, ◌≡◌, refl, arith, List, [], ◌∷◌, ◌++◌, Bool, false, not, Option, none, some, leb,
}
use harmony_http.Worker
use harmony_http.Worker.{
  FdQueue, HttpSession, Worker, Server, new_worker, put_fd, send_async, enter_accept, accept_turn,
  is_stream_alive, add_stream, acceptcb,
}
use harmony_http.Worker.Laws.{IsFifo, Hands}
use harmony_http.Worker.Handoff.{
  Handoff, put, sent, entered, turned, Reach, start, next, IsHandled, Reach-IsHandled,
}
use harmony_http.Worker.Rounds.{share, Grows, acceptcb-share}
use harmony_http.Worker.Serials.{added, dropped, apply_all, drops, is_stream_alive-add_stream}

abbrev pop : List ℕ → Option ℕ × List ℕ
pop [] = (none, [])
pop (x ∷ xs) = (some x, xs)

abbrev queue : FdQueue (List ℕ)
queue = record { emplace = λ fd q. q ++ fd ∷ []; try_dequeue = pop }

abbrev held : List ℕ → List ℕ
held q = q

pop-Hands : (q : List ℕ) → Hands held q (pop q)
pop-Hands [] = (refl, refl)
pop-Hands (x ∷ xs) = refl

fifo : IsFifo queue held
fifo = record { puts = λ fd q. refl; takes = pop-Hands }

-- Sessions of TLS can be made for descriptors under 100.
abbrev creates : ℕ → Bool
creates fd = leb fd 99

-- Two descriptors, the second put in while the callback for the first runs.
abbrev begun : Handoff (List ℕ)
begun = record { worker = new_worker queue []; main_sending = false; given = []; taken = [] }

abbrev ended_state : Handoff (List ℕ)
ended_state = record {
  worker = record {
    queued_fds = [];
    async_sent = false;
    in_accept = false;
    sessions = (record { itr = 0; fd = 7 }) ∷ [];
    made = 1;
    closed = 300 ∷ [];
    next_stream_serial = 0;
    alive_streams = [];
  };
  main_sending = false;
  given = 7 ∷ 300 ∷ [];
  taken = 7 ∷ 300 ∷ [];
}

ended-Reach : Reach queue creates [] ended_state
unfolding new_worker put_fd send_async enter_accept accept_turn Worker.after_dequeue
    Worker.accept_connection
ended-Reach =
    next
      (next
        (next
          (next
            (next
              (next
                (next (next (next (next start (put _ 7 refl)) (sent _ refl)) (entered _ refl refl))
                  (put _ 300 refl))
                (turned _ refl))
              (turned _ refl))
            (sent _ refl))
          (turned _ refl))
        (entered _ refl refl))
      (turned _ refl)

Reach-IsHandled_example : IsHandled held ended_state
Reach-IsHandled_example = Reach-IsHandled fifo creates refl ended-Reach

abbrev two_workers : Server (List ℕ)
two_workers = record {
  workers = new_worker queue [] ∷ new_worker queue (5 ∷ []) ∷ [];
  next_worker = 1;
  num_threads = 2;
}

acceptcb-share_example :
    (s' : Server (List ℕ)) × (acceptcb queue (11 ∷ 12 ∷ 13 ∷ []) two_workers ≡ some s')
    × Grows held (λ i. share 2 i 3 (11 ∷ 12 ∷ 13 ∷ [])) 0 two_workers.workers s'.workers
    × (s'.next_worker ≡ (3 + 3) % 2)
    × (s'.num_threads ≡ 2)
acceptcb-share_example =
    acceptcb-share fifo 3 (11 ∷ 12 ∷ 13 ∷ []) two_workers (omega arith) refl refl

is_stream_alive-add_stream_example :
    is_stream_alive queue
      (apply_all queue (added ∷ dropped 0 ∷ added ∷ []) (add_stream queue (new_worker queue [])).1)
      (add_stream queue (new_worker queue [])).0
    ≡ not (drops (add_stream queue (new_worker queue [])).0 (added ∷ dropped 0 ∷ added ∷ []))
unfolding new_worker
is_stream_alive-add_stream_example =
    is_stream_alive-add_stream queue (added ∷ dropped 0 ∷ added ∷ []) (new_worker queue [])
      (omega arith)

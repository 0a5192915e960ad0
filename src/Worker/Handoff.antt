-- ===== src/Worker/Handoff.antt =====
-- src/server.cc and src/worker.cc: the main thread hands descriptors to a worker's thread. The steps of the two
-- threads are interleaved in any order; `add_connection` is two steps, the loop of `async_acceptcb` one for
-- each evaluation of its condition.
use harmony_http.Prelude.{
  ℕ, ◌+◌, ◌≡◌, refl, sym, ap, ◌∙◌, arith, List, [], ◌∷◌, ◌++◌, append_assoc, append-nil, Bool, true,
  false, Bool-cases, inl, inr, Option, none, some, ◌==◌, if◌then◌else◌,
}
use harmony_http.Worker.{
  FdQueue, HttpSession, Worker, new_worker, put_fd, send_async, accept_connection, enter_accept,
  after_dequeue, accept_turn, erase, remove_session,
}
use harmony_http.Worker.Laws.{IsFifo, Hands}

-- `main_sending`: the main thread has put a descriptor and not yet sent the event. `given` and `taken` record
-- the descriptors put in and those that `accept_connection` was called with, in order.
pub record Handoff (Q : Type 0) : Type 0 where
  pub worker : Worker Q
  pub main_sending : Bool
  pub given : List ℕ
  pub taken : List ℕ

abbrev pub listed : Option ℕ → List ℕ
listed none = []
listed (some fd) = fd ∷ []

module _ {Q : Type 0} (queue : FdQueue Q) (creates : ℕ → Bool) where
  pub data Step : Handoff Q → Handoff Q → Type 0 where
    put :
        (h : Handoff Q) (fd : ℕ)
        → h.main_sending ≡ false
        → Step h (record h {
          worker = put_fd queue fd h.worker;
          main_sending = true;
          given = h.given ++ fd ∷ [];
        })
    sent :
        (h : Handoff Q)
        → h.main_sending ≡ true
        → Step h (record h { worker = send_async queue h.worker; main_sending = false })
    entered :
        (h : Handoff Q)
        → h.worker.async_sent ≡ true
        → h.worker.in_accept ≡ false
        → Step h (record h { worker = enter_accept queue h.worker })
    turned :
        (h : Handoff Q)
        → h.worker.in_accept ≡ true
        → Step h (record h {
          worker = accept_turn queue creates h.worker;
          taken = h.taken ++ listed (queue.try_dequeue h.worker.queued_fds).0;
        })
    ended :
        (h : Handoff Q) (itr : ℕ)
        → h.worker.in_accept ≡ false
        → Step h (record h { worker = remove_session queue itr h.worker })

  -- From a new worker with the queue `q`.
  pub data Reach (q : Q) : Handoff Q → Type 0 where
    start :
        Reach q
          (record { worker = new_worker queue q; main_sending = false; given = []; taken = [] })
    next : {h k : Handoff Q} → Reach q h → Step h k → Reach q k

-- How often a descriptor occurs.
unfoldable pub occurrences : ℕ → List ℕ → ℕ
occurrences fd [] = 0
occurrences fd (x ∷ xs) = let rest = occurrences fd xs in if x == fd then rest + 1 else rest

unfoldable pub session_occurrences : ℕ → List HttpSession → ℕ
session_occurrences fd [] = 0
session_occurrences fd (s ∷ ss) =
    let rest = session_occurrences fd ss in if s.fd == fd then rest + 1 else rest

occurrences-append :
    (fd : ℕ) (xs ys : List ℕ) → occurrences fd (xs ++ ys) ≡ occurrences fd xs + occurrences fd ys
unfolding occurrences
occurrences-append fd [] ys = omega arith
occurrences-append fd (x ∷ xs) ys = ground (arith, occurrences-append fd xs ys)

-- Everything put in was taken out in this order or is still in the queue; each descriptor taken has a
-- session or was closed, as often as it was taken; and where nobody is about to look, nothing waits.
pub record IsHandled {Q : Type 0} (held : Q → List ℕ) (h : Handoff Q) : Type 0 where
  pub order : h.given ≡ h.taken ++ held h.worker.queued_fds
  pub kept :
      (fd : ℕ)
      → occurrences fd h.taken
        ≡ session_occurrences fd h.worker.sessions + occurrences fd h.worker.closed
  pub awake :
      h.main_sending ≡ false
      → h.worker.async_sent ≡ false
      → h.worker.in_accept ≡ false
      → held h.worker.queued_fds ≡ []

module _ {Q : Type 0} {queue : FdQueue Q} {held : Q → List ℕ} (fifo : IsFifo queue held)
    (creates : ℕ → Bool) where
  accept-kept :
      (fd k : ℕ) (w : Worker Q) (taken : List ℕ)
      → occurrences k taken ≡ session_occurrences k w.sessions + occurrences k w.closed
      → occurrences k (taken ++ fd ∷ [])
        ≡ session_occurrences k (accept_connection queue creates fd w).sessions
          + occurrences k (accept_connection queue creates fd w).closed
  unfolding accept_connection occurrences session_occurrences
  accept-kept fd k w taken h =
      ground (arith, occurrences-append k taken (fd ∷ []), occurrences-append k w.closed (fd ∷ []))

  accept_same :
      (fd : ℕ) (w : Worker Q)
      → ((accept_connection queue creates fd w).queued_fds ≡ w.queued_fds)
        × ((accept_connection queue creates fd w).in_accept ≡ w.in_accept)
  unfolding accept_connection
  accept_same fd w = elim (Bool-cases (creates fd)) [
    | inl good ↦ rw good (refl, refl)
    | inr bad ↦ rw bad (refl, refl)
  ]

  erase-kept :
      (k itr : ℕ) (ss : List HttpSession)
      → session_occurrences k ss
        ≡ session_occurrences k (erase queue itr ss).0 + occurrences k (erase queue itr ss).1
  unfolding erase session_occurrences occurrences
  erase-kept k itr [] = refl
  erase-kept k itr (s ∷ ss) = ground (arith, erase-kept k itr ss)

  turn-IsHandled :
      (h : Handoff Q) (r : Option ℕ × Q)
      → Hands held (held h.worker.queued_fds) r
      → h.worker.in_accept ≡ true
      → IsHandled held h
      → IsHandled held (record h {
        worker = after_dequeue queue creates r h.worker;
        taken = h.taken ++ listed r.0;
      })
  unfolding after_dequeue
  turn-IsHandled h (none, q) (gone, empty) busy k = record {
    order =
        k.order
        ∙ ap (λ t. h.taken ++ t) (gone ∙ sym empty)
        ∙ ap (λ t. t ++ held q) (sym (append-nil h.taken));
    kept = λ fd. rw append-nil (k.kept fd);
    awake = λ a b c. empty;
  }
  turn-IsHandled h (some fd, q) front busy k =
      let w = record h.worker { queued_fds = q } in
      let (same, going) = accept_same fd w in
      record {
        order =
            k.order
            ∙ ap (λ t. h.taken ++ t) front
            ∙ sym (append_assoc h.taken (fd ∷ []) (held q))
            ∙ ap (λ t. (h.taken ++ fd ∷ []) ++ held t) (sym same);
        kept = λ x. accept-kept fd x w h.taken (k.kept x);
        awake = λ a b c. let no = sym c ∙ going ∙ busy in cc;
      }

  pub Step-IsHandled :
      {h k : Handoff Q} → Step queue creates h k → IsHandled held h → IsHandled held k
  unfolding put_fd send_async enter_accept accept_turn remove_session
  Step-IsHandled (put h fd idle) k = record {
    order =
        ap (λ t. t ++ fd ∷ []) k.order
        ∙ append_assoc h.taken (held h.worker.queued_fds) (fd ∷ [])
        ∙ ap (λ t. h.taken ++ t) (sym (fifo.puts fd h.worker.queued_fds));
    kept = k.kept;
    awake = λ a b c. cc;
  }
  Step-IsHandled (sent h busy) k = record { order = k.order; kept = k.kept; awake = λ a b c. cc }
  Step-IsHandled (entered h due idle) k = record {
    order = k.order;
    kept = k.kept;
    awake = λ a b c. cc;
  }
  Step-IsHandled (turned h busy) k =
      turn-IsHandled h (queue.try_dequeue h.worker.queued_fds) (fifo.takes h.worker.queued_fds) busy
        k
  Step-IsHandled (ended h itr idle) k = record {
    order = k.order;
    kept = λ fd. omega (
      arith,
      k.kept fd,
      erase-kept fd itr h.worker.sessions,
      occurrences-append fd h.worker.closed (erase queue itr h.worker.sessions).1,
    );
    awake = k.awake;
  }

  -- With a queue that hands out what was put in once and in order, and which was empty at first: however
  -- the steps of the main thread and of the worker's thread are interleaved, the descriptors put in
  -- are those that `accept_connection` was called with, in order, and then those in the queue; each
  -- has a session or was closed, as often as it was accepted; and while nobody is about to
  -- look, the queue is empty.
  pub Reach-IsHandled :
      {q : Q} {h : Handoff Q} → held q ≡ [] → Reach queue creates q h → IsHandled held h
  unfolding new_worker occurrences session_occurrences
  Reach-IsHandled empty start = record {
    order = sym empty;
    kept = λ fd. refl;
    awake = λ a b c. empty;
  }
  Reach-IsHandled empty (next r s) = Step-IsHandled s (Reach-IsHandled empty r)

  -- Under the same conditions, when the main thread is not between putting a descriptor and sending
  -- the event, no event is due and the callback does not run, `accept_connection` has been called
  -- with every descriptor that was put in, once for each time and in order.
  pub Reach-taken :
      {q : Q} {h : Handoff Q}
      → held q ≡ []
      → Reach queue creates q h
      → h.main_sending ≡ false
      → h.worker.async_sent ≡ false
      → h.worker.in_accept ≡ false
      → h.taken ≡ h.given
  Reach-taken {h = h} empty r a b c =
      let k = Reach-IsHandled empty r in
      sym (k.order ∙ ap (λ t. h.taken ++ t) (k.awake a b c) ∙ append-nil h.taken)

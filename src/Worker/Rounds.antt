-- ===== src/Worker/Rounds.antt =====
-- src/server.cc: how `acceptcb` deals descriptors out to the workers.
use native.Mathlib.Nat.{mod-lt, mod-add-mod}
use harmony_http.Prelude.{
  ℕ, zero, suc, ◌+◌, ◌%◌, ◌≤◌, ◌<◌, ◌≡◌, refl, sym, ap, ◌∙◌, arith, List, [], ◌∷◌, ◌++◌,
  append_assoc, append-nil, length, some, ◌==◌, if◌then◌else◌,
}
use harmony_http.Worker.{
  FdQueue, Worker, Server, add_connection, at, advanced, bind, give, acceptcb,
}
use harmony_http.Worker.Laws.{IsFifo}

-- Of descriptors numbered from `pos` on, those that are worker i's turn among n.
unfoldable pub share : ℕ → ℕ → ℕ → List ℕ → List ℕ
share n i pos [] = []
share n i pos (fd ∷ fds) =
    let rest = share n i (pos + 1) fds in if pos % n == i then fd ∷ rest else rest

-- From index i on, the queue of worker j holds `f j` behind what it held, and the vector is as long.
abbrev pub Grows :
    {Q : Type 0} → (Q → List ℕ) → (ℕ → List ℕ) → ℕ → List (Worker Q) → List (Worker Q) → Type 0
Grows held f i [] [] = Unit
Grows held f i [] (w ∷ ws') = ⊥
Grows held f i (w ∷ ws) [] = ⊥
Grows held f i (w ∷ ws) (w' ∷ ws') =
    (held w'.queued_fds ≡ held w.queued_fds ++ f i) × Grows held f (i + 1) ws ws'

module _ {Q : Type 0} {queue : FdQueue Q} {held : Q → List ℕ} (fifo : IsFifo queue held) where
  Grows-none :
      (f : ℕ → List ℕ) (i : ℕ) (ws : List (Worker Q))
      → ((j : ℕ) → i ≤ j → f j ≡ [])
      → Grows held f i ws ws
  Grows-none f i [] h = tt
  Grows-none f i (w ∷ ws) h = (
    sym (append-nil _) ∙ ap (λ t. held w.queued_fds ++ t) (sym (h i (omega arith))),
    Grows-none f (i + 1) ws (λ j le. h j (omega arith)),
  )

  Grows-append :
      (f g k : ℕ → List ℕ) (i : ℕ) (xs ys zs : List (Worker Q))
      → ((j : ℕ) → f j ++ g j ≡ k j)
      → Grows held f i xs ys
      → Grows held g i ys zs
      → Grows held k i xs zs
  Grows-append f g k i [] [] [] e p q = tt
  Grows-append f g k i [] [] (c ∷ zs) e p q = elim q [ ]
  Grows-append f g k i [] (b ∷ ys) zs e p q = elim p [ ]
  Grows-append f g k i (a ∷ xs) [] zs e p q = elim p [ ]
  Grows-append f g k i (a ∷ xs) (b ∷ ys) [] e p q = elim q [ ]
  Grows-append f g k i (a ∷ xs) (b ∷ ys) (c ∷ zs) e (p, ps) (q, qs) = (
    q
        ∙ ap (λ t. t ++ g i) p
        ∙ append_assoc (held a.queued_fds) (f i) (g i)
        ∙ ap (λ t. held a.queued_fds ++ t) (e i),
    Grows-append f g k (i + 1) xs ys zs e ps qs,
  )

  -- What one descriptor for worker k adds.
  one : ℕ → ℕ → ℕ → List ℕ
  one fd k j = if k == j then fd ∷ [] else []

  at-Grows :
      (fd k i m : ℕ) (ws : List (Worker Q))
      → k < length ws
      → i + k ≡ m
      → (ws' : List (Worker Q)) × (at queue k (add_connection queue fd) ws ≡ some ws')
        × Grows held (one fd m) i ws ws'
  unfolding at one add_connection
  at-Grows fd k i m [] h e = absurd (omega arith)
  at-Grows fd zero i m (w ∷ ws) h e = (
    add_connection queue fd w ∷ ws,
    refl,
    (
      fifo.puts fd w.queued_fds ∙ ap (λ t. held w.queued_fds ++ t) (ground arith),
      Grows-none (one fd m) (i + 1) ws (λ j le. ground arith),
    ),
  )
  at-Grows fd (suc k) i m (w ∷ ws) h e =
      let (ws', same, grows) = at-Grows fd k (i + 1) m ws (omega arith) (omega arith) in
      (
        w ∷ ws',
        rw same refl,
        (sym (append-nil _) ∙ ap (λ t. held w.queued_fds ++ t) (ground arith), grows),
      )

  length-Grows :
      (f : ℕ → List ℕ) (i : ℕ) (xs ys : List (Worker Q))
      → Grows held f i xs ys
      → length ys ≡ length xs
  length-Grows f i [] [] h = refl
  length-Grows f i [] (b ∷ ys) h = elim h [ ]
  length-Grows f i (a ∷ xs) [] h = elim h [ ]
  length-Grows f i (a ∷ xs) (b ∷ ys) h = ap suc (length-Grows f (i + 1) xs ys h.1)

  -- For a server with one worker or more, as many as `num_threads`, whose `next_worker` is `pos` modulo that
  -- number: `acceptcb` never indexes past the vector, worker i gets behind what its queue held, in
  -- order, exactly the descriptors whose number, counted from `pos`, is i modulo the number of
  -- workers, and `next_worker` goes on by the number of descriptors.
  pub acceptcb-share :
      (pos : ℕ) (fds : List ℕ) (s : Server Q)
      → 0 < s.num_threads
      → length s.workers ≡ s.num_threads
      → s.next_worker ≡ pos % s.num_threads
      → (s' : Server Q) × (acceptcb queue fds s ≡ some s')
        × Grows held (λ i. share s.num_threads i pos fds) 0 s.workers s'.workers
        × (s'.next_worker ≡ (pos + length fds) % s.num_threads)
        × (s'.num_threads ≡ s.num_threads)
  unfolding acceptcb give share one
  acceptcb-share pos [] s some_threads all_there here = (
    s,
    refl,
    Grows-none (λ i. []) 0 s.workers (λ j le. refl),
    here ∙ ap (λ t. t % s.num_threads) (omega arith),
    refl,
  )
  acceptcb-share pos (fd ∷ fds) s some_threads all_there here =
      let below : s.next_worker < length s.workers =
        omega (arith, here, all_there, mod-lt pos some_threads) in
      let (ws, same, grows) =
        at-Grows fd s.next_worker 0 s.next_worker s.workers below (omega arith) in
      let s₁ : Server Q = record s {
        workers = ws;
        next_worker = (s.next_worker + 1) % s.num_threads;
      } in
      let (s', runs, rest, there, threads) =
        acceptcb-share (pos + 1) fds s₁ some_threads
          (length-Grows _ 0 s.workers ws grows ∙ all_there)
          (ap (λ t. (t + 1) % s.num_threads) here ∙ mod-add-mod pos s.num_threads 1) in
      (
        s',
        ap (λ o. bind queue (advanced queue s o) (acceptcb queue fds)) same ∙ runs,
        Grows-append (one fd s.next_worker) (λ i. share s.num_threads i (pos + 1) fds) _ 0 s.workers
            ws s'.workers (λ j. ground (arith, here)) grows rest,
        there ∙ ap (λ t. t % s.num_threads) (omega arith),
        threads,
      )

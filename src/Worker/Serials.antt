-- ===== src/Worker/Serials.antt =====
-- src/worker.cc: the serials by which a late answer finds out whether its stream is still there.
use native.Mathlib.Nat.{mod-eq_of_lt}
use harmony_http.Prelude.{
  ℕ, ◌+◌, ◌%◌, ◌^◌, ◌<◌, ◌≡◌, refl, ap, ◌∙◌, arith, List, [], ◌∷◌, length, Bool, true, false, not,
  ◌&&◌, ◌||◌, Bool-cases, inl, inr, ◌==◌,
}
use harmony_http.Worker.{
  FdQueue, Worker, contains, is_stream_alive, insert, add_stream, without, remove_stream,
}

-- A stream of the worker is made, or one with a serial is destroyed.
pub data Op : Type 0 where
  added : Op
  dropped : ℕ → Op

module _ {Q : Type 0} (queue : FdQueue Q) where
  unfoldable pub apply : Op → Worker Q → Worker Q
  apply added w = (add_stream queue w).1
  apply (dropped serial) w = remove_stream queue serial w

  unfoldable pub apply_all : List Op → Worker Q → Worker Q
  unfolding apply
  apply_all [] w = w
  apply_all (o ∷ os) w = apply_all os (apply o w)

-- Whether a serial is dropped.
unfoldable pub drops : ℕ → List Op → Bool
drops k [] = false
drops k (added ∷ os) = drops k os
drops k (dropped serial ∷ os) = let rest = drops k os in (serial == k) || rest

module _ {Q : Type 0} (queue : FdQueue Q) where
  contains-insert :
      (s k : ℕ) (ss : List ℕ)
      → contains queue (insert queue s ss) k ≡ ((s == k) || contains queue ss k)
  unfolding insert contains
  contains-insert s k ss = elim (Bool-cases (contains queue ss s)) [
    | inl there ↦ rw there (elim (Bool-cases (s == k)) [
      | inl same ↦ let e : s ≡ k = ground arith in rw same (rw (← e) there)
      | inr other ↦ rw other refl
    ])
    | inr new ↦ rw new refl
  ]

  contains-without :
      (s k : ℕ) (ss : List ℕ)
      → contains queue (without queue s ss) k ≡ (not (s == k) && contains queue ss k)
  unfolding without contains
  contains-without s k [] = ground arith
  contains-without s k (x ∷ ss) = ground (arith, contains-without s k ss)

  alive_lem :
      (os : List Op) (w : Worker Q) (k : ℕ)
      → k < w.next_stream_serial
      → w.next_stream_serial + length os < 2 ^ 64
      → is_stream_alive queue (apply_all queue os w) k
        ≡ (is_stream_alive queue w k && not (drops k os))
  unfolding apply_all apply drops is_stream_alive add_stream remove_stream
  alive_lem [] w k below small = ground arith
  alive_lem (added ∷ os) w k below small =
      let next : (w.next_stream_serial + 1) % 2 ^ 64 ≡ w.next_stream_serial + 1 =
        mod-eq_of_lt (omega arith) in
      let other : (w.next_stream_serial == k) ≡ false = ground arith in
      alive_lem os (add_stream queue w).1 k (omega (arith, next)) (omega (arith, next))
      ∙ ap (λ b. b && not (drops k os))
          (contains-insert w.next_stream_serial k w.alive_streams
            ∙ ap (λ b. b || contains queue w.alive_streams k) other)
  alive_lem (dropped s ∷ os) w k below small =
      alive_lem os (remove_stream queue s w) k below (omega arith)
      ∙ ap (λ b. b && not (drops k os)) (contains-without s k w.alive_streams)
      ∙ ground arith

  -- While fewer than 2^64 streams are made: a stream that was just added is alive by its serial, after
  -- any streams made and destroyed since, exactly until it is removed itself; afterwards no stream that is
  -- made answers to its serial.
  pub is_stream_alive-add_stream :
      (os : List Op) (w : Worker Q)
      → w.next_stream_serial + 1 + length os < 2 ^ 64
      → is_stream_alive queue (apply_all queue os (add_stream queue w).1) (add_stream queue w).0
        ≡ not (drops (add_stream queue w).0 os)
  unfolding add_stream is_stream_alive
  is_stream_alive-add_stream os w small =
      let next : (w.next_stream_serial + 1) % 2 ^ 64 ≡ w.next_stream_serial + 1 =
        mod-eq_of_lt (omega arith) in
      let self : (w.next_stream_serial == w.next_stream_serial) ≡ true = ground arith in
      alive_lem os (add_stream queue w).1 w.next_stream_serial (omega (arith, next))
        (omega (arith, next))
      ∙ ap (λ b. b && not (drops w.next_stream_serial os))
          (contains-insert w.next_stream_serial w.next_stream_serial w.alive_streams
            ∙ ap (λ b. b || contains queue w.alive_streams w.next_stream_serial) self)

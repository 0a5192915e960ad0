-- ===== src/Db/Total.antt =====
-- src/dbsession.cc: the rounds that `write` takes.
use harmony_http.Prelude.{
  ℕ, zero, suc, ◌-◌, ◌≤◌, ◌<◌, ◌≡◌, ◌≢◌, refl, ap, arith, List, [], ◌∷◌, Bool, true, false, Option,
  some, none, length,
}
use harmony_http.Wire.{zero_rc, minus_one}
use harmony_http.Db.{
  Query, Libpq, Flush, flushed, would_block, flush_failed, DbSession, Outcome, returned, assertion,
  out_of_fuel, undefined, submit, sync_after, move_front, after_sync, after_submit, send_front,
  batch, after_batch, after_flush, stop_or_go, write,
}

module _ {P R : Type 0} (libpq : Libpq P R) where
  -- A call that ends, and leaves at most `k` queries where it returns 0.
  abbrev Shortens : ℕ → Outcome × DbSession P R → Type 0
  Shortens k r = (r.0 ≢ out_of_fuel) × (r.0 ≡ returned zero_rc → length r.1.queued ≤ k)

  module _ (more : DbSession P R → Outcome × DbSession P R)
      (ends : (t : DbSession P R) → Shortens (length t.queued) (more t)) where
    after_sync-Shortens :
        (q : Query) (qs : List Query) (s : DbSession P R) (r : Bool × P)
        → Shortens (length qs) (after_sync libpq more q qs s r)
    unfolding after_sync
    after_sync-Shortens q qs s (false, p) = (λ e. cc, λ e. cc)
    after_sync-Shortens q qs s (true, p) = ends (move_front libpq q qs p s)

    after_submit-Shortens :
        (q : Query) (qs : List Query) (s : DbSession P R) (r : Option (Bool × P))
        → Shortens (length qs) (after_submit libpq more q qs s r)
    unfolding after_submit
    after_submit-Shortens q qs s none = (λ e. cc, λ e. cc)
    after_submit-Shortens q qs s (some (false, p)) = (λ e. cc, λ e. cc)
    after_submit-Shortens q qs s (some (true, p)) =
        after_sync-Shortens q qs s (sync_after libpq q.is_sync_point p)

    send_front-Shortens :
        (qs : List Query) (s : DbSession P R)
        → s.queued ≡ qs
        → Shortens (length s.queued - 1) (send_front libpq more qs s)
    unfolding send_front
    send_front-Shortens [] s e = (λ e. cc, λ h. omega (arith, ap length e))
    send_front-Shortens (q ∷ qs) s e =
        let (ended, left) = after_submit-Shortens q qs s (submit libpq q.arg s.conn) in
        (ended, λ h. omega (arith, left h, ap length e))

  batch-Shortens : (n : ℕ) (s : DbSession P R) → Shortens (length s.queued) (batch libpq n s)
  unfolding batch
  batch-Shortens zero s = (λ e. cc, λ h. omega arith)
  batch-Shortens (suc n) s =
      let (ended, left) = send_front-Shortens (batch libpq n) (batch-Shortens n) s.queued s refl in
      (ended, λ h. omega (arith, left h))

  -- A whole batch takes a query from a queue that has one.
  batch_20-Shortens : (s : DbSession P R) → Shortens (length s.queued - 1) (batch libpq 20 s)
  unfolding batch
  batch_20-Shortens s = send_front-Shortens (batch libpq 19) (batch-Shortens 19) s.queued s refl

  module _ (more : DbSession P R → Outcome × DbSession P R) (k : ℕ)
      (ends : (t : DbSession P R) → length t.queued < k → (more t).0 ≢ out_of_fuel) where
    stop_or_go_ends :
        (t : DbSession P R) (qs : List Query)
        → t.queued ≡ qs
        → length t.queued ≤ k - 1
        → (stop_or_go libpq more qs t).0 ≢ out_of_fuel
    unfolding stop_or_go
    stop_or_go_ends t [] e h = λ o. cc
    stop_or_go_ends t (q ∷ qs) e h = ends t (omega (arith, ap length e))

    after_batch_ends :
        (r : Outcome × DbSession P R)
        → Shortens (k - 1) r
        → (after_batch libpq more r).0 ≢ out_of_fuel
    unfolding after_batch
    after_batch_ends (returned zero_rc, t) (e, left) = stop_or_go_ends t t.queued refl (left refl)
    after_batch_ends (returned minus_one, t) (e, left) = λ o. cc
    after_batch_ends (assertion, t) (e, left) = λ o. cc
    after_batch_ends (out_of_fuel, t) (e, left) = e
    after_batch_ends (undefined, t) (e, left) = λ o. cc

    after_flush_ends :
        (s : DbSession P R) (r : Flush × P)
        → length s.queued ≤ k
        → (after_flush libpq more s r).0 ≢ out_of_fuel
    unfolding after_flush
    after_flush_ends s (would_block, p) h = λ o. cc
    after_flush_ends s (flush_failed, p) h = λ o. cc
    after_flush_ends s (flushed, p) h =
        let s' = record s { conn = p } in
        let (ended, left) = batch_20-Shortens s' in
        after_batch_ends (batch libpq 20 s') (ended, λ e. omega (arith, left e))

  -- `write` ends, whatever libpq answers: a round for each query of the queue and one more are
  -- enough.
  pub write_ends :
      (fuel : ℕ) (s : DbSession P R) → length s.queued < fuel → (write libpq fuel s).0 ≢ out_of_fuel
  unfolding write
  write_ends zero s h = absurd (omega arith)
  write_ends (suc fuel) s h =
      after_flush_ends (write libpq fuel) fuel (write_ends fuel) s (libpq.flush s.conn)
        (omega arith)

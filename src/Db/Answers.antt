-- ===== src/Db/Answers.antt =====
-- src/dbsession.cc: the answers that `read` matches to the dispatched queries.
use harmony_http.Prelude.{
  ℕ, ◌≡◌, refl, sym, ap, ◌∙◌, ◌⊎◌, inr, List, [], ◌∷◌, ◌++◌, map, append_assoc, append-nil, Bool,
  true, false, ◌||◌, Option, some, none, if◌then◌else◌,
}
use harmony_http.Wire.{Rc, zero_rc, minus_one}
use harmony_http.Db.{
  DispatchedQuery, Delivery, Status, pipeline_sync, Libpq, DbSession, Outcome, returned,
}
use harmony_http.Db.Read.{Client, check_notif}
use harmony_http.Db.Replies.{Replies, NoSync, any_broken, calls}

-- What the server answers to a query: results, and the mark behind them if it is a sync point.
pub record Answer (R : Type 0) : Type 0 where
  pub asked : DispatchedQuery
  pub given : List (Status × R)
  pub mark : R

module _ {R : Type 0} where
  abbrev pub asked_of : Answer R → DispatchedQuery
  asked_of a = a.asked

  abbrev pub mark_of : Answer R → Option R
  mark_of a = if a.asked.is_sync_point then some a.mark else none

  abbrev pub marked : Option R → List (Option (Status × R))
  marked none = []
  marked (some r) = some (pipeline_sync, r) ∷ []

  -- All that PQgetResult returns for the answers, with the null pointer behind each.
  abbrev pub replies_of : List (Answer R) → List (Option (Status × R))
  replies_of [] = []
  replies_of (a ∷ answers) = map some a.given ++ none ∷ (marked (mark_of a) ++ replies_of answers)

  abbrev pub Unmarked : List (Answer R) → Type 0
  Unmarked [] = Unit
  Unmarked (a ∷ answers) = NoSync a.given × Unmarked answers

  abbrev pub breaks : List (Answer R) → Bool
  breaks [] = false
  breaks (a ∷ answers) = any_broken a.given || breaks answers

  -- What the handlers of live streams are given, one answer after another; whether a stream is
  -- alive is asked again for each.
  abbrev pub all_calls :
      Client R
      → (List (Delivery R) → ℕ → Bool)
      → List (Delivery R)
      → List (Answer R)
      → List (Delivery R)
  all_calls client alive past [] = []
  all_calls client alive past (a ∷ answers) =
      let now = calls client past a.asked (alive past a.asked.stream_serial) a.given in
      now ++ all_calls client alive (past ++ now) answers

abbrev pub code_of : Bool → Rc
code_of true = minus_one
code_of false = zero_rc

module _ {P R : Type 0} {libpq : Libpq P R} {coming : P → List (Option (Status × R))}
    (replies : Replies libpq coming) (alive : List (Delivery R) → ℕ → Bool)
    (client : Client R) where
  -- The session waits for the answers, possibly behind a mark of the query before.
  abbrev pub Awaits : Option R → List (Answer R) → DbSession P R → Type 0
  Awaits lead answers s =
      (coming s.conn ≡ marked lead ++ replies_of answers) × (s.dispatched ≡ map asked_of answers)

  -- Answers at the front were handed over, in their order; the others are awaited still. The call
  -- stopped at a broken one, with -1, or with 0 when no more was there or libpq is busy.
  abbrev pub Serves : List (Answer R) → DbSession P R → Outcome × DbSession P R → Type 0
  Serves answers s r =
      (done : List (Answer R)) × (rest : List (Answer R)) × (lead : Option R) × (answers
        ≡ done ++ rest)
      × (r.1.delivered ≡ s.delivered ++ all_calls client alive s.delivered done)
      × Awaits lead rest r.1
      × (r.0 ≡ returned (code_of (breaks done)))
      × ((breaks done ≡ true) ⊎ ((rest ≡ []) ⊎ (libpq.is_busy r.1.conn ≡ true)))

  -- Nothing done yet.
  pub Serves-none :
      (lead : Option R) (answers : List (Answer R)) (s : DbSession P R)
      → Awaits lead answers s
      → (answers ≡ []) ⊎ (libpq.is_busy s.conn ≡ true)
      → Serves answers s (returned zero_rc, s)
  Serves-none lead answers s waits why =
      ([], answers, lead, refl, sym (append-nil s.delivered), waits, refl, inr why)

  pub Serves-more :
      (a : Answer R) (answers : List (Answer R)) (s t : DbSession P R) (r : Outcome × DbSession P R)
      → any_broken a.given ≡ false
      → t.delivered
        ≡ s.delivered
          ++ calls client s.delivered a.asked (alive s.delivered a.asked.stream_serial) a.given
      → Serves answers t r
      → Serves (a ∷ answers) s r
  Serves-more a answers s t r sound got (done, rest, lead, split, delivered, waits, code, why) = (
    a ∷ done,
    rest,
    lead,
    ap (λ l. a ∷ l) split,
    delivered
        ∙ ap (λ past. past ++ all_calls client alive past done) got
        ∙ append_assoc s.delivered _ _,
    waits,
    code ∙ ap (λ b. returned (code_of (b || breaks done))) (sym sound),
    rw sound why,
  )

  pub Serves-from :
      (answers : List (Answer R)) (t s : DbSession P R) (r : Outcome × DbSession P R)
      → t.delivered ≡ s.delivered
      → Serves answers t r
      → Serves answers s r
  Serves-from answers t s r e (done, rest, lead, split, delivered, waits, code, why) = (
    done,
    rest,
    lead,
    split,
    delivered ∙ ap (λ past. past ++ all_calls client alive past done) e,
    waits,
    code,
    why,
  )

  pub check_notif-same :
      (s : DbSession P R)
      → (coming (check_notif libpq alive client s).conn ≡ coming s.conn)
        × ((check_notif libpq alive client s).dispatched ≡ s.dispatched)
        × ((check_notif libpq alive client s).delivered ≡ s.delivered)
  unfolding check_notif
  check_notif-same s = (replies.replies_notifies s.conn, refl, refl)

-- ===== src/Db/Matching.antt =====
-- src/dbsession.cc: the outer loop of `read`, which matches answers to the dispatched queries.
use harmony_http.Prelude.{
  ℕ, zero, suc, ◌+◌, ◌<◌, ◌≡◌, ◌≢◌, refl, sym, ap, ◌∙◌, inl, inr, arith, List, [], ◌∷◌, ◌++◌, map,
  append-nil, Bool, true, false, Bool-cases, Option, some, none, length, length-append, length-map,
}
use harmony_http.Wire.{zero_rc}
use harmony_http.Db.{
  DispatchedQuery, Delivery, Status, pipeline_sync, Libpq, DbSession, Outcome, returned,
}
use harmony_http.Db.Read.{
  Client, Batch, no_fuel, ended, check_notif, after_result, round_end, drop_front, results,
  after_results, read_front, read_loop, after_consume, read, pop_unless,
}
use harmony_http.Db.Answers.{
  Answer, asked_of, mark_of, marked, replies_of, Unmarked, Awaits, Serves, Serves-none, Serves-more,
  Serves-from, check_notif-same,
}
use harmony_http.Db.Replies.{
  Replies, any_broken, calls, Ended, results-Finished, some-eq, cons-head,
}

answer_length :
    {R : Type 0} (rs : List (Status × R)) (l : List (Option (Status × R)))
    → length (map some rs ++ none ∷ l) ≡ length rs + suc (length l)
answer_length rs l =
    length-append (map some rs) (none ∷ l) ∙ ap (λ n. n + suc (length l)) (length-map rs some)

ended-flag : {b c e f : Bool} → ended b e ≡ ended c f → e ≡ f
ended-flag h = cc

module _ {P R : Type 0} {libpq : Libpq P R} {coming : P → List (Option (Status × R))}
    (replies : Replies libpq coming) (alive : List (Delivery R) → ℕ → Bool)
    (client : Client R) where
  abbrev Marked : List (Option (Status × R)) → DbSession P R → Batch × DbSession P R → Type 0
  Marked l s r =
      (r.0 ≡ ended true false)
      × (coming r.1.conn ≡ l)
      × (r.1.dispatched ≡ s.dispatched)
      × (r.1.delivered ≡ s.delivered)

  after_result_synced :
      (next : Bool → DbSession P R → Batch × DbSession P R) (query : DispatchedQuery) (b : Bool)
      (x : R) (l : List (Option (Status × R))) (s : DbSession P R) (r : Option (Status × R) × P)
      → (r.0 ≡ some (pipeline_sync, x)) × (coming r.1 ≡ l)
      → Marked l s (after_result libpq alive client next query b false s r)
  unfolding after_result
  after_result_synced next query b x l s (none, p) (f, g) = cc
  after_result_synced next query b x l s (some (st, y), p) (f, g) =
      rw (ap (λ z. z.0) (some-eq f)) (refl, g, refl, refl)

  -- A mark alone makes a round that pops nothing.
  results_synced :
      (fuel : ℕ) (query : DispatchedQuery) (b : Bool) (r : R) (l : List (Option (Status × R)))
      (s : DbSession P R)
      → zero < fuel
      → coming s.conn ≡ some (pipeline_sync, r) ∷ l
      → Marked l s (results libpq alive client fuel query b false s)
  unfolding results
  results_synced zero query b r l s h e = absurd (omega arith)
  results_synced (suc fuel) query b r l s h e =
      after_result_synced (results libpq alive client fuel query b) query b r l s
        (libpq.get_result s.conn) (replies.replies_result s.conn (some (pipeline_sync, r)) l e)

  round_end_stops :
      (next : DbSession P R → Outcome × DbSession P R) (s : DbSession P R)
      → s.dispatched ≡ []
      → round_end libpq alive client next s ≡ (returned zero_rc, s)
  round_end_stops next s e = rw e refl

  round_end_goes :
      (next : DbSession P R → Outcome × DbSession P R) (s : DbSession P R) (q : DispatchedQuery)
      (qs : List DispatchedQuery)
      → s.dispatched ≡ q ∷ qs
      → round_end libpq alive client next s ≡ next s
  round_end_goes next s q qs e = rw e refl

  module _ (fuel inner : ℕ) (next : DbSession P R → Outcome × DbSession P R)
      (serves : (lead : Option R) (answers : List (Answer R)) (s : DbSession P R)
        → answers ≢ []
        → Unmarked answers
        → length (coming s.conn) < fuel
        → length (coming s.conn) < inner
        → Awaits replies alive client lead answers s
        → Serves replies alive client answers s (next s)) where
    round_end-Serves :
        (lead : Option R) (answers : List (Answer R)) (s : DbSession P R)
        → Unmarked answers
        → length (coming s.conn) < fuel
        → length (coming s.conn) < inner
        → Awaits replies alive client lead answers s
        → Serves replies alive client answers s (round_end libpq alive client next s)
    round_end-Serves lead [] s n h i w =
        rw (round_end_stops next s w.1) (Serves-none replies alive client lead [] s w (inl refl))
    round_end-Serves lead (a ∷ answers) s n h i w =
        rw (round_end_goes next s a.asked (map asked_of answers) w.1)
          (serves lead (a ∷ answers) s (λ e. cc) n h i w)

    -- What follows a round: the notifications, then the next round from `t`.
    after_round-Serves :
        (lead : Option R) (answers : List (Answer R)) (t : DbSession P R)
        → Unmarked answers
        → length (coming t.conn) < fuel
        → length (coming t.conn) < inner
        → Awaits replies alive client lead answers t
        → Serves replies alive client answers t
            (round_end libpq alive client next (check_notif libpq alive client t))
    after_round-Serves lead answers t n h i w =
        let (c, d, g) = check_notif-same replies alive client t in
        let u = check_notif libpq alive client t in
        Serves-from replies alive client answers u t (round_end libpq alive client next u) g
          (round_end-Serves lead answers u n (rw c h) (rw c i) (c ∙ w.0, d ∙ w.1))

    after_mark-Serves :
        (answers : List (Answer R)) (s : DbSession P R) (r : Batch × DbSession P R)
        → Unmarked answers
        → length (replies_of answers) < fuel
        → length (replies_of answers) < inner
        → s.dispatched ≡ map asked_of answers
        → Marked (replies_of answers) s r
        → Serves replies alive client answers s (after_results libpq alive client next r)
    unfolding after_results
    after_mark-Serves answers s (no_fuel, t) n h i w (o, c, d, g) = cc
    after_mark-Serves answers s (ended false error, t) n h i w (o, c, d, g) = cc
    after_mark-Serves answers s (ended true true, t) n h i w (o, c, d, g) = cc
    after_mark-Serves answers s (ended true false, t) n h i w (o, c, d, g) =
        Serves-from replies alive client answers t s
          (round_end libpq alive client next (check_notif libpq alive client t)) g
          (after_round-Serves none answers t n (rw c h) (rw c i) (c, d ∙ w))

    after_answer-Serves :
        (a : Answer R) (answers : List (Answer R)) (s : DbSession P R) (r : Batch × DbSession P R)
        → Unmarked answers
        → length (marked (mark_of a) ++ replies_of answers) < fuel
        → length (marked (mark_of a) ++ replies_of answers) < inner
        → s.dispatched ≡ a.asked ∷ map asked_of answers
        → Ended replies alive client a.asked
            (alive s.delivered a.asked.stream_serial)
            (marked (mark_of a) ++ replies_of answers)
            (calls client s.delivered a.asked (alive s.delivered a.asked.stream_serial) a.given)
            (any_broken a.given)
            s
            r
        → Serves replies alive client (a ∷ answers) s (after_results libpq alive client next r)
    unfolding after_results
    after_answer-Serves a answers s (no_fuel, t) n h i w (o, c, d, g) = cc
    after_answer-Serves a answers s (ended true error, t) n h i w (o, c, d, g) = cc
    after_answer-Serves a answers s (ended false true, t) n h i w (o, c, d, g) =
        let broke = sym (ended-flag o) in
        (
          a ∷ [],
          answers,
          mark_of a,
          refl,
          g
              ∙ ap (λ l. s.delivered ++ l)
                  (sym (
                    append-nil (
                      calls client s.delivered a.asked (alive s.delivered a.asked.stream_serial)
                        a.given))),
          (c, ap (drop_front libpq alive client) (d ∙ w)),
          rw broke refl,
          inl (rw broke refl),
        )
    after_answer-Serves a answers s (ended false false, t) n h i w (o, c, d, g) =
        let u = pop_unless libpq alive client false t in
        Serves-more replies alive client a answers s u
          (round_end libpq alive client next (check_notif libpq alive client u))
          (sym (ended-flag o)) g
          (after_round-Serves (mark_of a) answers u n (rw c h) (rw c i)
            (c, ap (drop_front libpq alive client) (d ∙ w)))

    read_front-Serves :
        (lead : Option R) (answers : List (Answer R)) (qs : List DispatchedQuery)
        (s : DbSession P R)
        → answers ≢ []
        → Unmarked answers
        → length (coming s.conn) < suc fuel
        → length (coming s.conn) < inner
        → qs ≡ map asked_of answers
        → Awaits replies alive client lead answers s
        → Serves replies alive client answers s (read_front libpq alive client inner next qs s)
    unfolding read_front
    read_front-Serves lead [] qs s k n h i e w = absurd (k refl)
    read_front-Serves lead (a ∷ answers) [] s k n h i e w = cc
    read_front-Serves (some r) (a ∷ answers) (q ∷ qs) s k n h i e w =
        after_mark-Serves (a ∷ answers) s
          (results libpq alive client inner q (alive s.delivered q.stream_serial) false s) n
          (omega (arith, ap length w.0)) (omega (arith, ap length w.0)) w.1
          (results_synced inner q (alive s.delivered q.stream_serial) r (replies_of (a ∷ answers)) s
            (omega arith) w.0)
    read_front-Serves none (a ∷ answers) (q ∷ qs) s k n h i e w =
        let short = answer_length a.given (marked (mark_of a) ++ replies_of answers) in
        rw (cons-head e) (
          after_answer-Serves a answers s
            (results libpq alive client inner a.asked (alive s.delivered a.asked.stream_serial)
              false s)
            n.1 (omega (arith, short, ap length w.0)) (omega (arith, short, ap length w.0)) w.1
            (results-Finished replies alive client a.asked (alive s.delivered a.asked.stream_serial)
              (marked (mark_of a) ++ replies_of answers) inner a.given false s
              (omega (arith, short, ap length w.0)) n.0 w.0))

  read_loop-Serves :
      (fuel inner : ℕ) (lead : Option R) (answers : List (Answer R)) (s : DbSession P R)
      → answers ≢ []
      → Unmarked answers
      → length (coming s.conn) < fuel
      → length (coming s.conn) < inner
      → Awaits replies alive client lead answers s
      → Serves replies alive client answers s (read_loop libpq alive client fuel inner s)
  unfolding read_loop
  read_loop-Serves zero inner lead answers s k n h i w = absurd (omega arith)
  read_loop-Serves (suc fuel) inner lead answers s k n h i w =
      elim (Bool-cases (libpq.is_busy s.conn)) [
        | inl b ↦ rw b (Serves-none replies alive client lead answers s w (inr b))
        | inr b ↦ rw b (
            read_front-Serves fuel inner (read_loop libpq alive client fuel inner)
              (read_loop-Serves fuel inner) lead answers s.dispatched s k n h i w.1 w)
      ]

  after_consume-Serves :
      (fuel inner : ℕ) (lead : Option R) (answers : List (Answer R)) (s : DbSession P R)
      (r : Bool × P)
      → answers ≢ []
      → Unmarked answers
      → length (coming s.conn) < fuel
      → length (coming s.conn) < inner
      → Awaits replies alive client lead answers s
      → r.0 ≡ true
      → coming r.1 ≡ coming s.conn
      → Serves replies alive client answers s (after_consume libpq alive client fuel inner s r)
  after_consume-Serves fuel inner lead answers s (false, p) k n h i w ok same = cc
  after_consume-Serves fuel inner lead answers s (true, p) k n h i w ok same =
      let t = record s { conn = p } in
      let (c, d, g) = check_notif-same replies alive client t in
      let u = check_notif libpq alive client t in
      Serves-from replies alive client answers u s (read_loop libpq alive client fuel inner u) g (
        read_loop-Serves fuel inner lead answers u k n (rw (c, same) h) (rw (c, same) i)
          (c ∙ same ∙ w.0, d ∙ w.1))

  -- When input was read and answers are awaited, `read` gives the handlers of answers at the front,
  -- in their order, each the results of its own query, if that query's stream is alive when its
  -- turn comes, and pops exactly these queries. A callback runs for every result that it is given, a
  -- coroutine only while it is not done. `read` returns -1 if one of the answers was broken,
  -- otherwise 0, and then every query is answered or libpq is busy. Fuel above the number of
  -- results to come is enough.
  pub read-Serves :
      (fuel inner : ℕ) (lead : Option R) (answers : List (Answer R)) (s : DbSession P R)
      → answers ≢ []
      → Unmarked answers
      → length (coming s.conn) < fuel
      → length (coming s.conn) < inner
      → Awaits replies alive client lead answers s
      → (libpq.consume_input s.conn).0 ≡ true
      → Serves replies alive client answers s (read libpq alive client fuel inner s)
  unfolding read
  read-Serves fuel inner lead answers s k n h i w ok =
      after_consume-Serves fuel inner lead answers s (libpq.consume_input s.conn) k n h i w ok
        (replies.replies_consume s.conn)

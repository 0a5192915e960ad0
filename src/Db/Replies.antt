-- ===== src/Db/Replies.antt =====
-- src/dbsession.cc: the inner loop of `read` on the answer of one query.
use harmony_http.Prelude.{
  ℕ, zero, suc, ◌<◌, ◌≡◌, ◌≢◌, refl, sym, ap, ◌∙◌, arith, List, [], ◌∷◌, ◌++◌, map, append_assoc,
  append-nil, Bool, true, false, ◌||◌, Option, some, none, length, if◌then◌else◌,
}
use harmony_http.Db.{
  DispatchedQuery, Handler, coroutine, callback, Delivery, Status, Libpq, DbSession,
}
use harmony_http.Db.Read.{
  Treatment, treatment, handled, cleared, synced, broken, Batch, ended, handle_result,
  after_treatment, after_result, results, Client, runs,
}

-- `coming` is all that PQgetResult will return; the calls for input and notifications leave it.
pub record Replies {P R : Type 0} (libpq : Libpq P R) (coming : P → List (Option (Status × R)))
    : Type 0 where
  pub replies_result :
      (p : P) (x : Option (Status × R)) (l : List (Option (Status × R)))
      → coming p ≡ x ∷ l
      → ((libpq.get_result p).0 ≡ x) × (coming (libpq.get_result p).1 ≡ l)
  pub replies_notifies : (p : P) → coming (libpq.notifies p).1 ≡ coming p
  pub replies_consume : (p : P) → coming (libpq.consume_input p).1 ≡ coming p

abbrev pub is_broken : Treatment → Bool
is_broken handled = false
is_broken cleared = false
is_broken synced = false
is_broken broken = true

module _ {R : Type 0} where
  -- No result of an answer is the mark of a synchronisation.
  abbrev pub NoSync : List (Status × R) → Type 0
  NoSync [] = Unit
  NoSync ((status, r) ∷ rs) = (treatment status ≢ synced) × NoSync rs

  abbrev pub any_broken : List (Status × R) → Bool
  any_broken [] = false
  any_broken ((status, r) ∷ rs) = is_broken (treatment status) || any_broken rs

  -- A callback runs, and a coroutine that is not done.
  abbrev pub running : Client R → List (Delivery R) → Handler → Bool
  running client past (coroutine c) = if client.is_done past c then false else true
  running client past (callback f) = true

  -- What the handler of a query is given, if its stream is alive; `past` was delivered before.
  abbrev pub call :
      Client R
      → List (Delivery R)
      → DispatchedQuery
      → Treatment
      → Bool
      → Status × R
      → List (Delivery R)
  call client past query handled true result =
      let h = query.completion_handler in (h, result.0, result.1, running client past h) ∷ []
  call client past query handled false result = []
  call client past query cleared stream_alive result = []
  call client past query synced stream_alive result = []
  call client past query broken stream_alive result = []

  abbrev pub calls :
      Client R → List (Delivery R) → DispatchedQuery → Bool → List (Status × R) → List (Delivery R)
  calls client past query stream_alive [] = []
  calls client past query stream_alive ((status, r) ∷ rs) =
      let now = call client past query (treatment status) stream_alive (status, r) in
      now ++ calls client (past ++ now) query stream_alive rs

pub some-eq : {A : Type 0} {x y : A} → some x ≡ some y → x ≡ y
some-eq e = cc

pub cons-head : {A : Type 0} {x y : A} {xs ys : List A} → x ∷ xs ≡ y ∷ ys → x ≡ y
cons-head e = cc

pub cons-tail : {A : Type 0} {x y : A} {xs ys : List A} → x ∷ xs ≡ y ∷ ys → xs ≡ ys
cons-tail e = cc

or_false : (b : Bool) → b || false ≡ b
or_false true = refl
or_false false = refl

or_true : (b : Bool) → b || true ≡ true
or_true true = refl
or_true false = refl

module _ {P R : Type 0} {libpq : Libpq P R} {coming : P → List (Option (Status × R))}
    (replies : Replies libpq coming) (alive : List (Delivery R) → ℕ → Bool) (client : Client R)
    (query : DispatchedQuery) (stream_alive : Bool) (tail : List (Option (Status × R))) where
  -- The loop has ended at the null pointer, and the handler has got `got`.
  abbrev pub Ended : List (Delivery R) → Bool → DbSession P R → Batch × DbSession P R → Type 0
  Ended got error s r =
      (r.0 ≡ ended false error)
      × (coming r.1.conn ≡ tail)
      × (r.1.dispatched ≡ s.dispatched)
      × (r.1.delivered ≡ s.delivered ++ got)

  abbrev pub Finished : List (Status × R) → Bool → DbSession P R → Batch × DbSession P R → Type 0
  Finished rs error s r =
      Ended (calls client s.delivered query stream_alive rs) (error || any_broken rs) s r

  runs-running :
      (past : List (Delivery R)) (h : Handler)
      → runs libpq alive client past h ≡ running client past h
  runs-running past (coroutine c) = ground arith
  runs-running past (callback f) = refl

  handle_result-delivered :
      (alive_now : Bool) (result : Status × R) (s : DbSession P R)
      → (handle_result libpq alive client query alive_now result s).delivered
        ≡ s.delivered ++ call client s.delivered query handled alive_now result
  unfolding handle_result
  handle_result-delivered true result s =
      ap (λ b. s.delivered ++ (query.completion_handler, result.0, result.1, b) ∷ [])
        (runs-running s.delivered query.completion_handler)
  handle_result-delivered false result s = sym (append-nil s.delivered)

  handle_result-dispatched :
      (alive_now : Bool) (result : Status × R) (s : DbSession P R)
      → (handle_result libpq alive client query alive_now result s).dispatched ≡ s.dispatched
  unfolding handle_result
  handle_result-dispatched true result s = refl
  handle_result-dispatched false result s = refl

  -- What follows a session `t` that has given `now` since `s`.
  Ended-after :
      (now : List (Delivery R)) (rs : List (Status × R)) (error : Bool) (s t : DbSession P R)
      (r : Batch × DbSession P R)
      → t.dispatched ≡ s.dispatched
      → t.delivered ≡ s.delivered ++ now
      → Ended (calls client t.delivered query stream_alive rs) error t r
      → Ended (now ++ calls client (s.delivered ++ now) query stream_alive rs) error s r
  Ended-after now rs error s t r kept given (o, c, d, g) = (
    o,
    c,
    d ∙ kept,
    g
        ∙ ap (λ past. past ++ calls client past query stream_alive rs) given
        ∙ append_assoc s.delivered now (calls client (s.delivered ++ now) query stream_alive rs),
  )

  handle_result-conn :
      (alive_now : Bool) (result : Status × R) (s : DbSession P R)
      → (handle_result libpq alive client query alive_now result s).conn ≡ s.conn
  unfolding handle_result
  handle_result-conn true result s = refl
  handle_result-conn false result s = refl

  module _ (fuel : ℕ) (next : Bool → DbSession P R → Batch × DbSession P R)
      (finishes : (rs : List (Status × R)) (error : Bool) (s : DbSession P R)
        → length rs < fuel
        → NoSync rs
        → coming s.conn ≡ map some rs ++ none ∷ tail
        → Finished rs error s (next error s)) where
    after_treatment-Ended :
        (t : Treatment) (result : Status × R) (rs : List (Status × R)) (error : Bool)
        (s : DbSession P R)
        → length rs < fuel
        → NoSync rs
        → t ≢ synced
        → coming s.conn ≡ map some rs ++ none ∷ tail
        → Ended
            (let now = call client s.delivered query t stream_alive result in
              now ++ calls client (s.delivered ++ now) query stream_alive rs)
            (error || (is_broken t || any_broken rs))
            s
            (after_treatment libpq alive client next query stream_alive error s result t)
    unfolding after_treatment
    after_treatment-Ended handled result rs error s h n k e =
        let t = handle_result libpq alive client query stream_alive result s in
        Ended-after (call client s.delivered query handled stream_alive result) rs
          (error || any_broken rs) s t (next error t)
          (handle_result-dispatched stream_alive result s)
          (handle_result-delivered stream_alive result s)
          (finishes rs error t h n (ap coming (handle_result-conn stream_alive result s) ∙ e))
    after_treatment-Ended cleared result rs error s h n k e =
        Ended-after [] rs (error || any_broken rs) s s (next error s) refl
          (sym (append-nil s.delivered)) (finishes rs error s h n e)
    after_treatment-Ended synced result rs error s h n k e = absurd (k refl)
    after_treatment-Ended broken result rs error s h n k e =
        let (o, c, d, g) =
          Ended-after [] rs true s s (next true s) refl (sym (append-nil s.delivered))
            (finishes rs true s h n e) in
        (o ∙ ap (λ b. ended false b) (sym (or_true error)), c, d, g)

    after_result-Finished :
        (rs : List (Status × R)) (error : Bool) (s : DbSession P R) (r : Option (Status × R) × P)
        (x : Option (Status × R)) (l : List (Option (Status × R)))
        → length rs < suc fuel
        → NoSync rs
        → x ∷ l ≡ map some rs ++ none ∷ tail
        → (r.0 ≡ x) × (coming r.1 ≡ l)
        → Finished rs error s (after_result libpq alive client next query stream_alive error s r)
    unfolding after_result
    after_result-Finished [] error s (none, p) x l h n e (f, g) =
        (ap (λ b. ended false b) (sym (or_false error)), g ∙ cc, refl, sym (append-nil s.delivered))
    after_result-Finished [] error s (some res, p) x l h n e (f, g) = cc
    after_result-Finished ((st, v) ∷ rs) error s (none, p) x l h n e (f, g) = cc
    after_result-Finished ((st, v) ∷ rs) error s (some (st', v'), p) x l h n e (f, g) =
        let same = some-eq (f ∙ cons-head e) in
        rw (ap (λ z. z.0) same, ap (λ z. z.1) same)
          (after_treatment-Ended (treatment st) (st, v) rs error (record s { conn = p })
            (omega arith) n.1 n.0 (g ∙ cons-tail e))

  pub results-Finished :
      (fuel : ℕ) (rs : List (Status × R)) (error : Bool) (s : DbSession P R)
      → length rs < fuel
      → NoSync rs
      → coming s.conn ≡ map some rs ++ none ∷ tail
      → Finished rs error s (results libpq alive client fuel query stream_alive error s)
  unfolding results
  results-Finished zero rs error s h n e = absurd (omega arith)
  results-Finished (suc fuel) [] error s h n e =
      after_result-Finished fuel (results libpq alive client fuel query stream_alive)
        (results-Finished fuel) [] error s (libpq.get_result s.conn) none tail h n refl
        (replies.replies_result s.conn none tail e)
  results-Finished (suc fuel) (r ∷ rs) error s h n e =
      after_result-Finished fuel (results libpq alive client fuel query stream_alive)
        (results-Finished fuel) (r ∷ rs) error s (libpq.get_result s.conn) (some r)
        (map some rs ++ none ∷ tail) h n refl
        (replies.replies_result s.conn (some r) (map some rs ++ none ∷ tail) e)

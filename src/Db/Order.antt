-- ===== src/Db/Order.antt =====
-- src/dbsession.cc: what `write` hands to libpq, and how queries move between the two deques.
use harmony_http.Prelude.{
  ℕ, zero, suc, ◌≡◌, refl, sym, ap, ◌∙◌, List, [], ◌∷◌, ◌++◌, map, append_assoc, append-nil, Bytes,
  Bool, true, false, Bool-cases, inl, inr, Option, some, none, leb, if◌then◌else◌, length,
}
use mathlib.Core.List.{map-append}
use harmony_http.Wire.{zero_rc, minus_one}
use harmony_http.Db.{
  Arg, query_arg, query_param_arg, prepare_text_arg, prepare_file_arg, query_prepared_arg, Query,
  Libpq, Flush, flushed, would_block, flush_failed, DbSession, Outcome, returned, assertion,
  out_of_fuel, undefined, dispatch, submit, sync_after, move_front, after_sync, after_submit,
  send_front, batch, after_batch, after_flush, stop_or_go, write,
}

-- What a session asks of the server.
pub data Command : Type 0 where
  query : Bytes → Command
  query_params query_prepared : Bytes → List Bytes → Command
  prepare : Bytes → Bytes → Command
  sync : Command

-- libpq keeps what it is given in the order of the calls; `sent` is all that it was given.
pub record Keeps {P R : Type 0} (libpq : Libpq P R) (sent : P → List Command) : Type 0 where
  pub keeps_query :
      (c : Bytes) (p p' : P) → libpq.send_query c p ≡ (true, p') → sent p' ≡ sent p ++ query c ∷ []
  pub keeps_params :
      (c : Bytes) (vs : List Bytes) (p p' : P)
      → libpq.send_query_params c vs p ≡ (true, p')
      → sent p' ≡ sent p ++ query_params c vs ∷ []
  pub keeps_prepare :
      (c t : Bytes) (p p' : P)
      → libpq.send_prepare c t p ≡ (true, p')
      → sent p' ≡ sent p ++ prepare c t ∷ []
  pub keeps_prepared :
      (c : Bytes) (vs : List Bytes) (p p' : P)
      → libpq.send_query_prepared c vs p ≡ (true, p')
      → sent p' ≡ sent p ++ query_prepared c vs ∷ []
  pub keeps_sync : (p p' : P) → libpq.send_sync p ≡ (true, p') → sent p' ≡ sent p ++ sync ∷ []
  pub keeps_flush : (p : P) → sent (libpq.flush p).1 ≡ sent p

some-eq : {A : Type 0} {x y : A} → some x ≡ some y → x ≡ y
some-eq e = cc

none-some : {A : Type 0} {x : A} → none ≡ some x → ⊥
none-some e = cc

module _ {P R : Type 0} {libpq : Libpq P R} {sent : P → List Command}
    (keeps : Keeps libpq sent) where
  abbrev pub command : Arg → Command
  command (query_arg c) = query c
  command (query_param_arg c vs) = query_params c vs
  command (prepare_text_arg c t) = prepare c t
  command (prepare_file_arg c fd) = prepare c (libpq.file_text fd)
  command (query_prepared_arg c vs) = query_prepared c vs

  -- A query, and a synchronisation behind it if it is a sync point.
  abbrev pub commands_of : Query → List Command
  commands_of q = command q.arg ∷ (if q.is_sync_point then sync ∷ [] else [])

  abbrev pub commands : List Query → List Command
  commands [] = []
  commands (q ∷ qs) = commands_of q ++ commands qs

  -- Some queries at the front of the queue are moved and sent, in their order, and nothing else.
  abbrev pub Moves : DbSession P R → DbSession P R → Type 0
  Moves s s' =
      (taken : List Query) × (s.queued ≡ taken ++ s'.queued)
      × (s'.dispatched ≡ s.dispatched ++ map dispatch taken)
      × (sent s'.conn ≡ sent s.conn ++ commands taken)

  Moves-refl : (s : DbSession P R) → Moves s s
  Moves-refl s = ([], refl, sym (append-nil s.dispatched), sym (append-nil (sent s.conn)))

  -- A call that returns 0 has moved queries.
  abbrev Good : DbSession P R → Outcome × DbSession P R → Type 0
  Good s r = r.0 ≡ returned zero_rc → Moves s r.1

  submit-sent :
      (arg : Arg) (p p' : P)
      → submit libpq arg p ≡ some (true, p')
      → sent p' ≡ sent p ++ command arg ∷ []
  unfolding submit
  submit-sent (query_arg c) p p' e = keeps.keeps_query c p p' (some-eq e)
  submit-sent (query_param_arg c vs) p p' e = elim (Bool-cases (leb (length vs) 20)) [
    | inl h ↦ keeps.keeps_params c vs p p' (some-eq (rw h at e))
    | inr h ↦ absurd (none-some (rw h at e))
  ]
  submit-sent (prepare_text_arg c t) p p' e = keeps.keeps_prepare c t p p' (some-eq e)
  submit-sent (prepare_file_arg c fd) p p' e =
      keeps.keeps_prepare c (libpq.file_text fd) p p' (some-eq e)
  submit-sent (query_prepared_arg c vs) p p' e = elim (Bool-cases (leb (length vs) 20)) [
    | inl h ↦ keeps.keeps_prepared c vs p p' (some-eq (rw h at e))
    | inr h ↦ absurd (none-some (rw h at e))
  ]

  sync_after-sent :
      (flag : Bool) (p p' : P)
      → sync_after libpq flag p ≡ (true, p')
      → sent p' ≡ sent p ++ (if flag then sync ∷ [] else [])
  unfolding sync_after
  sync_after-sent true p p' e = keeps.keeps_sync p p' e
  sync_after-sent false p p' e = ap sent (sym (ap (λ r. r.1) e)) ∙ sym (append-nil (sent p))

  -- One query moved, then what the rest of the batch moves.
  Moves-front :
      (q : Query) (qs : List Query) (p : P) (s s' : DbSession P R)
      → s.queued ≡ q ∷ qs
      → sent p ≡ sent s.conn ++ commands_of q
      → Moves (move_front libpq q qs p s) s'
      → Moves s s'
  Moves-front q qs p s s' front out (taken, queue, moved, wire) = (
    q ∷ taken,
    front ∙ ap (λ l. q ∷ l) queue,
    moved ∙ append_assoc s.dispatched (dispatch q ∷ []) (map dispatch taken),
    wire
        ∙ ap (λ l. l ++ commands taken) out
        ∙ append_assoc (sent s.conn) (commands_of q) (commands taken),
  )

  module _ (more : DbSession P R → Outcome × DbSession P R)
      (good : (t : DbSession P R) → Good t (more t)) (q : Query) (qs : List Query)
      (s : DbSession P R) (front : s.queued ≡ q ∷ qs) where
    after_sync-Good :
        (p : P) (r : Bool × P)
        → sent p ≡ sent s.conn ++ command q.arg ∷ []
        → sync_after libpq q.is_sync_point p ≡ r
        → Good s (after_sync libpq more q qs s r)
    unfolding after_sync
    after_sync-Good p (false, p') out e h = cc
    after_sync-Good p (true, p') out e h =
        Moves-front q qs p' s (more (move_front libpq q qs p' s)).1 front
          (sync_after-sent q.is_sync_point p p' e
            ∙ ap (λ l. l ++ (if q.is_sync_point then sync ∷ [] else [])) out
            ∙ append_assoc (sent s.conn) (command q.arg ∷ [])
                (if q.is_sync_point then sync ∷ [] else []))
          (good (move_front libpq q qs p' s) h)

    after_submit-Good :
        (r : Option (Bool × P))
        → submit libpq q.arg s.conn ≡ r
        → Good s (after_submit libpq more q qs s r)
    unfolding after_submit
    after_submit-Good none e h = cc
    after_submit-Good (some (false, p)) e h = cc
    after_submit-Good (some (true, p)) e h =
        after_sync-Good p (sync_after libpq q.is_sync_point p) (submit-sent q.arg s.conn p e) refl h

  send_front-Good :
      (more : DbSession P R → Outcome × DbSession P R)
      → ((t : DbSession P R) → Good t (more t))
      → (qs : List Query) (s : DbSession P R) → s.queued ≡ qs
      → Good s (send_front libpq more qs s)
  unfolding send_front
  send_front-Good more good [] s e h = Moves-refl s
  send_front-Good more good (q ∷ qs) s e h =
      after_submit-Good more good q qs s e (submit libpq q.arg s.conn) refl h

  batch-Good : (n : ℕ) (s : DbSession P R) → Good s (batch libpq n s)
  unfolding batch
  batch-Good zero s h = Moves-refl s
  batch-Good (suc n) s h = send_front-Good (batch libpq n) (batch-Good n) s.queued s refl h

  commands-append : (xs ys : List Query) → commands xs ++ commands ys ≡ commands (xs ++ ys)
  commands-append [] ys = refl
  commands-append (q ∷ xs) ys =
      append_assoc (commands_of q) (commands xs) (commands ys)
      ∙ ap (λ l. commands_of q ++ l) (commands-append xs ys)

  -- Moving on from a state that differs in what was flushed, or after some were moved.
  Moves-trans : (s t u : DbSession P R) → Moves s t → Moves t u → Moves s u
  Moves-trans s t u (xs, queue, moved, wire) (ys, queue', moved', wire') = (
    xs ++ ys,
    queue ∙ ap (λ l. xs ++ l) queue' ∙ sym (append_assoc xs ys u.queued),
    moved'
        ∙ ap (λ l. l ++ map dispatch ys) moved
        ∙ append_assoc s.dispatched (map dispatch xs) (map dispatch ys)
        ∙ ap (λ l. s.dispatched ++ l) (sym (map-append dispatch xs ys)),
    wire'
        ∙ ap (λ l. l ++ commands ys) wire
        ∙ append_assoc (sent s.conn) (commands xs) (commands ys)
        ∙ ap (λ l. sent s.conn ++ l) (commands-append xs ys),
  )

  module _ (more : DbSession P R → Outcome × DbSession P R)
      (good : (t : DbSession P R) → Good t (more t)) where
    stop_or_go-Good :
        (s t : DbSession P R) (qs : List Query) → Moves s t → Good s (stop_or_go libpq more qs t)
    unfolding stop_or_go
    stop_or_go-Good s t [] m h = m
    stop_or_go-Good s t (q ∷ qs) m h = Moves-trans s t (more t).1 m (good t h)

    after_batch-Good :
        (s : DbSession P R) (r : Outcome × DbSession P R)
        → Good s r
        → Good s (after_batch libpq more r)
    unfolding after_batch
    after_batch-Good s (returned zero_rc, t) g h = stop_or_go-Good s t t.queued (g refl) h
    after_batch-Good s (returned minus_one, t) g h = cc
    after_batch-Good s (assertion, t) g h = cc
    after_batch-Good s (out_of_fuel, t) g h = cc
    after_batch-Good s (undefined, t) g h = cc

    after_flush-Good :
        (s : DbSession P R) (r : Flush × P)
        → sent r.1 ≡ sent s.conn
        → Good s (after_flush libpq more s r)
    unfolding after_flush
    after_flush-Good s (would_block, p) e h =
        ([], refl, sym (append-nil s.dispatched), e ∙ sym (append-nil (sent s.conn)))
    after_flush-Good s (flush_failed, p) e h = cc
    after_flush-Good s (flushed, p) e h =
        let s' = record s { conn = p } in
        let (taken, queue, moved, wire) =
          after_batch-Good s' (batch libpq 20 s') (batch-Good 20 s') h in
        (taken, queue, moved, wire ∙ ap (λ l. l ++ commands taken) e)

  -- When `write` returns 0, it has moved some queries from the front of the queue behind those that
  -- were dispatched, in their order, and given libpq exactly their commands in this order, each with
  -- its synchronisation.
  pub write-Moves :
      (fuel : ℕ) (s : DbSession P R)
      → (write libpq fuel s).0 ≡ returned zero_rc
      → Moves s (write libpq fuel s).1
  unfolding write
  write-Moves zero s h = cc
  write-Moves (suc fuel) s h =
      after_flush-Good (write libpq fuel) (write-Moves fuel) s (libpq.flush s.conn)
        (keeps.keeps_flush s.conn) h

-- ===== src/Db/Read.antt =====
-- src/dbsession.cc: `handle_result`, `check_notif` and `read`. What completion handlers do is a
-- parameter, and so is which streams are alive, by all that was delivered until then.
use harmony_http.Prelude.{
  ℕ, zero, suc, List, [], ◌∷◌, ◌++◌, Bool, true, false, not, Option, some, none, if◌then◌else◌,
}
use harmony_http.Wire.{zero_rc, minus_one}
use harmony_http.Db.{
  Query, DispatchedQuery, Handler, coroutine, callback, Delivery, Status, command_ok, tuples_ok,
  single_tuple, nonfatal_error, fatal_error, pipeline_aborted, empty_query, bad_response,
  pipeline_sync, copy_in, copy_out, copy_both, Libpq, DbSession, Outcome, returned, out_of_fuel,
  undefined,
}

-- What the switch of `read` does with a result.
pub data Treatment : Type 0 where
  handled cleared synced broken : Treatment

abbrev pub treatment : Status → Treatment
treatment command_ok = handled
treatment tuples_ok = handled
treatment single_tuple = handled
treatment nonfatal_error = handled
treatment fatal_error = handled
treatment pipeline_aborted = handled
treatment empty_query = cleared
treatment bad_response = broken
treatment pipeline_sync = synced
treatment copy_in = broken
treatment copy_out = broken
treatment copy_both = broken

-- How the inner loop ends: no fuel, or with what it knows then.
pub data Batch : Type 0 where
  no_fuel : Batch
  ended : Bool → Bool → Batch

abbrev pub no_queries : List Query → Bool
no_queries [] = true
no_queries (q ∷ qs) = false

-- What the handlers of the program do, by all that was delivered before: whether the coroutine at
-- an address is done, and what a handler that runs queues.
pub record Client (R : Type 0) : Type 0 where
  pub is_done : List (Delivery R) → ℕ → Bool
  pub queues : List (Delivery R) → Handler → Status × R → List Query

module _ {P R : Type 0} (libpq : Libpq P R) (alive : List (Delivery R) → ℕ → Bool)
    (client : Client R) where
  -- A callback is called. A coroutine's promise is given the result, and it is resumed unless it is
  -- done; `resume` is true at the only call.
  abbrev pub runs : List (Delivery R) → Handler → Bool
  runs past (coroutine c) = not (client.is_done past c)
  runs past (callback f) = true

  -- A handler that queues queries starts the write watcher.
  unfoldable pub handle_result : DispatchedQuery → Bool → Status × R → DbSession P R → DbSession P R
  handle_result query stream_alive result s =
      let h = query.completion_handler in
      let ran = runs s.delivered h in
      let more = if ran then client.queues s.delivered h result else [] in
      if stream_alive
      then record s {
        delivered = s.delivered ++ (h, result.0, result.1, ran) ∷ [];
        queued = s.queued ++ more;
        wev = if no_queries more then s.wev else true;
      }
      else s

  -- Every notification is dispatched as an event.
  unfoldable pub check_notif : DbSession P R → DbSession P R
  check_notif s =
      let (notifs, p) = libpq.notifies s.conn in
      record s { conn = p; notified = s.notified ++ notifs }

  -- The inner loop: results of the query until a null pointer or a synchronisation.
  unfoldable pub after_treatment :
      (Bool → DbSession P R → Batch × DbSession P R)
      → DispatchedQuery
      → Bool
      → Bool
      → DbSession P R
      → Status × R
      → Treatment
      → Batch × DbSession P R
  unfolding handle_result
  after_treatment next query stream_alive error s result handled =
      next error (handle_result query stream_alive result s)
  after_treatment next query stream_alive error s result cleared = next error s
  after_treatment next query stream_alive error s result synced = (ended true error, s)
  after_treatment next query stream_alive error s result broken = next true s

  unfoldable pub after_result :
      (Bool → DbSession P R → Batch × DbSession P R)
      → DispatchedQuery
      → Bool
      → Bool
      → DbSession P R
      → Option (Status × R) × P
      → Batch × DbSession P R
  unfolding after_treatment
  after_result next query stream_alive error s (none, p) =
      (ended false error, record s { conn = p })
  after_result next query stream_alive error s (some (status, r), p) =
      after_treatment next query stream_alive error (record s { conn = p }) (status, r)
        (treatment status)

  unfoldable pub results : ℕ → DispatchedQuery → Bool → Bool → DbSession P R → Batch × DbSession P R
  unfolding after_result
  results zero query stream_alive error s = (no_fuel, s)
  results (suc fuel) query stream_alive error s =
      after_result (results fuel query stream_alive) query stream_alive error s
        (libpq.get_result s.conn)

  -- `if (!pipeline_sync && !dispatched_.empty()) dispatched_.pop_front();`
  abbrev pub drop_front : List DispatchedQuery → List DispatchedQuery
  drop_front [] = []
  drop_front (q ∷ qs) = qs

  abbrev pub pop_unless : Bool → DbSession P R → DbSession P R
  pop_unless true s = s
  pop_unless false s = record s { dispatched = drop_front s.dispatched }

  -- The end of a round of the outer loop.
  abbrev pub round_end :
      (DbSession P R → Outcome × DbSession P R) → DbSession P R → Outcome × DbSession P R
  round_end next s = elim s.dispatched [ [] ↦ (returned zero_rc, s) | q ∷ qs ↦ next s ]

  unfoldable pub after_results :
      (DbSession P R → Outcome × DbSession P R) → Batch × DbSession P R → Outcome × DbSession P R
  unfolding check_notif
  after_results next (no_fuel, s) = (out_of_fuel, s)
  after_results next (ended sync_seen true, s) = (returned minus_one, pop_unless sync_seen s)
  after_results next (ended sync_seen false, s) =
      round_end next (check_notif (pop_unless sync_seen s))

  -- A round reads the front of `dispatched_`, whether there is one or not.
  unfoldable pub read_front :
      ℕ
      → (DbSession P R → Outcome × DbSession P R)
      → List DispatchedQuery
      → DbSession P R
      → Outcome × DbSession P R
  unfolding after_results results
  read_front fuel next [] s = (undefined, s)
  read_front fuel next (query ∷ qs) s =
      after_results next (results fuel query (alive s.delivered query.stream_serial) false s)

  -- The outer loop; `inner` is the fuel of the loops inside.
  unfoldable pub read_loop : ℕ → ℕ → DbSession P R → Outcome × DbSession P R
  unfolding read_front
  read_loop zero inner s = (out_of_fuel, s)
  read_loop (suc fuel) inner s =
      let more = read_front inner (read_loop fuel inner) s.dispatched s in
      if libpq.is_busy s.conn then (returned zero_rc, s) else more

  abbrev pub after_consume : ℕ → ℕ → DbSession P R → Bool × P → Outcome × DbSession P R
  after_consume fuel inner s (false, p) = (returned minus_one, record s { conn = p })
  after_consume fuel inner s (true, p) = read_loop fuel inner (check_notif (record s { conn = p }))

  unfoldable pub read : ℕ → ℕ → DbSession P R → Outcome × DbSession P R
  unfolding read_loop check_notif
  read fuel inner s = after_consume fuel inner s (libpq.consume_input s.conn)

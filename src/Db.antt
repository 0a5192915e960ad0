-- ===== src/Db.antt =====
-- src/dbquery.h and src/dbsession.cc: the queries of a database session, from the queue to libpq. The
-- functions of libpq are the fields of a record; a completion handler is a number.
pub mod Connect
pub mod Read
pub mod Callbacks
pub mod Results
pub mod Owners
pub mod Iterate
pub mod Order
pub mod Total
pub mod Replies
pub mod Answers
pub mod Matching
mod Tests
use harmony_http.Prelude.{
  ℕ, zero, suc, ◌+◌, ◌-◌, List, [], ◌∷◌, ◌++◌, Bytes, Bool, true, false, ◌||◌, Option, some, none,
  leb, bytes_eq, if◌then◌else◌, length,
}
use harmony_http.Wire.{Rc, zero_rc, minus_one}

-- The four alternatives of `Query::arg`; a prepared statement's text is given or read from a file.
pub data Arg : Type 0 where
  query_arg : Bytes → Arg
  query_param_arg : Bytes → List Bytes → Arg
  prepare_text_arg : Bytes → Bytes → Arg
  prepare_file_arg : Bytes → ℕ → Arg
  query_prepared_arg : Bytes → List Bytes → Arg

pub data Handler : Type 0 where
  coroutine callback : ℕ → Handler

pub record Query : Type 0 where
  pub stream_serial : ℕ
  pub is_sync_point : Bool
  pub arg : Arg
  pub completion_handler : Handler

pub record DispatchedQuery : Type 0 where
  pub stream_serial : ℕ
  pub is_sync_point : Bool
  pub completion_handler : Handler

-- PQresultStatus
pub data Status : Type 0 where
  command_ok tuples_ok single_tuple nonfatal_error fatal_error pipeline_aborted : Status
  empty_query bad_response pipeline_sync copy_in copy_out copy_both : Status

-- PQconnectPoll
pub data Polling : Type 0 where
  active reading writing ok failed : Polling

-- PQflush: 0, 1 and -1.
pub data Flush : Type 0 where
  flushed would_block flush_failed : Flush

-- A call of libpq that may fail returns false then. `file_text` is what `pread` reads, and
-- `notifies` what the calls of PQnotifies return up to the first null pointer.
pub record Libpq (P R : Type 0) : Type 0 where
  pub connect_poll : P → Polling × P
  pub socket : P → ℕ
  pub set_nonblocking : P → Bool × P
  pub enter_pipeline_mode : P → Bool × P
  pub flush : P → Flush × P
  pub send_query : Bytes → P → Bool × P
  pub send_query_params : Bytes → List Bytes → P → Bool × P
  pub send_prepare : Bytes → Bytes → P → Bool × P
  pub send_query_prepared : Bytes → List Bytes → P → Bool × P
  pub send_sync : P → Bool × P
  pub consume_input : P → Bool × P
  pub is_busy : P → Bool
  pub get_result : P → Option (Status × R) × P
  pub notifies : P → List (Bytes × Bytes) × P
  pub file_text : ℕ → Bytes

-- What a completion handler was given, and whether it ran then.
abbrev pub Delivery : Type 0 → Type 0
Delivery R = Handler × Status × R × Bool

-- `running` is whether read_fn_ and write_fn_ are `read` and `write`; before that both are
-- `poll_connection`. A watcher is whether it is started. `delivered` is what completion handlers
-- were given, and `notified` the notifications that were dispatched.
pub record DbSession (P R : Type 0) : Type 0 where
  pub conn : P
  pub connected : Bool
  pub running : Bool
  pub fd : Option ℕ
  pub rev : Bool
  pub wev : Bool
  pub queued : List Query
  pub dispatched : List DispatchedQuery
  pub prepared_queries : List Bytes
  pub delivered : List (Delivery R)
  pub notified : List (Bytes × Bytes)

-- What a call comes to: a returned code, a failed assertion, no fuel, or the front of an empty
-- deque.
pub data Outcome : Type 0 where
  returned : Rc → Outcome
  assertion : Outcome
  out_of_fuel : Outcome
  undefined : Outcome

abbrev pub dispatch : Query → DispatchedQuery
dispatch q = record {
  stream_serial = q.stream_serial;
  is_sync_point = q.is_sync_point;
  completion_handler = q.completion_handler;
}

unfoldable pub contains_text : Bytes → List Bytes → Bool
contains_text statement [] = false
contains_text statement (t ∷ ts) = bytes_eq t statement || contains_text statement ts

module _ {P R : Type 0} where
  -- The common end of the five functions that queue a query.
  unfoldable pub enqueue : ℕ → Arg → Handler → DbSession P R → DbSession P R
  enqueue serial arg handler s = record s {
    queued =
        s.queued
        ++ record {
          stream_serial = serial;
          is_sync_point = true;
          arg = arg;
          completion_handler = handler;
        }
          ∷ [];
    wev = true;
  }

  unfoldable pub add_prepared_query : Bytes → DbSession P R → DbSession P R
  add_prepared_query statement s = record s { prepared_queries = statement ∷ s.prepared_queries }

  unfoldable pub check_prepared_query : Bytes → DbSession P R → Bool
  unfolding contains_text
  check_prepared_query statement s = contains_text statement s.prepared_queries

  unfoldable pub send_query : ℕ → Bytes → Handler → DbSession P R → DbSession P R
  unfolding enqueue
  send_query serial command cb s = enqueue serial (query_arg command) cb s

  unfoldable pub send_query_params :
      ℕ → Bytes → List Bytes → Handler → DbSession P R → DbSession P R
  unfolding enqueue
  send_query_params serial command params cb s =
      enqueue serial (query_param_arg command params) cb s

  unfoldable pub send_prepared : ℕ → Bytes → Bytes → Handler → DbSession P R → DbSession P R
  unfolding enqueue add_prepared_query
  send_prepared serial statement command cb s =
      enqueue serial (prepare_text_arg statement command) cb (add_prepared_query statement s)

  unfoldable pub send_prepared_file : ℕ → Bytes → ℕ → Handler → DbSession P R → DbSession P R
  unfolding enqueue add_prepared_query
  send_prepared_file serial statement file_fd cb s =
      enqueue serial (prepare_file_arg statement file_fd) cb (add_prepared_query statement s)

  unfoldable pub send_query_prepared :
      ℕ → Bytes → List Bytes → Handler → DbSession P R → DbSession P R
  unfolding enqueue
  send_query_prepared serial statement params cb s =
      enqueue serial (query_prepared_arg statement params) cb s

module _ {P R : Type 0} (libpq : Libpq P R) where
  -- `send_query(db::Query &)`: none is a failed assertion.
  unfoldable pub submit : Arg → P → Option (Bool × P)
  submit (query_arg command) p = some (libpq.send_query command p)
  submit (query_param_arg command params) p =
      if leb (length params) 20 then some (libpq.send_query_params command params p) else none
  submit (prepare_text_arg statement query) p = some (libpq.send_prepare statement query p)
  submit (prepare_file_arg statement file_fd) p =
      some (libpq.send_prepare statement (libpq.file_text file_fd) p)
  submit (query_prepared_arg statement params) p =
      if leb (length params) 20 then some (libpq.send_query_prepared statement params p) else none

  -- The synchronisation behind a query.
  unfoldable pub sync_after : Bool → P → Bool × P
  sync_after true p = libpq.send_sync p
  sync_after false p = (true, p)

  -- The query moves from one deque to the other.
  abbrev pub move_front : Query → List Query → P → DbSession P R → DbSession P R
  move_front q qs p s = record s {
    conn = p;
    queued = qs;
    dispatched = s.dispatched ++ dispatch q ∷ [];
  }

  -- A batch of at most `n` queries; true where no call failed.
  unfoldable pub after_sync :
      (DbSession P R → Outcome × DbSession P R)
      → Query
      → List Query
      → DbSession P R
      → Bool × P
      → Outcome × DbSession P R
  after_sync next q qs s (false, p) = (returned minus_one, record s { conn = p })
  after_sync next q qs s (true, p) = next (move_front q qs p s)

  unfoldable pub after_submit :
      (DbSession P R → Outcome × DbSession P R)
      → Query
      → List Query
      → DbSession P R
      → Option (Bool × P)
      → Outcome × DbSession P R
  unfolding after_sync sync_after
  after_submit next q qs s none = (assertion, s)
  after_submit next q qs s (some (false, p)) = (returned minus_one, record s { conn = p })
  after_submit next q qs s (some (true, p)) = after_sync next q qs s (sync_after q.is_sync_point p)

  unfoldable pub send_front :
      (DbSession P R → Outcome × DbSession P R)
      → List Query
      → DbSession P R
      → Outcome × DbSession P R
  unfolding after_submit submit
  send_front next [] s = (returned zero_rc, s)
  send_front next (q ∷ qs) s = after_submit next q qs s (submit q.arg s.conn)

  unfoldable pub batch : ℕ → DbSession P R → Outcome × DbSession P R
  unfolding send_front
  batch zero s = (returned zero_rc, s)
  batch (suc n) s = send_front (batch n) s.queued s

  -- `write`: the end of a round of its loop, what the batch comes to, and what PQflush says.
  unfoldable pub stop_or_go :
      (DbSession P R → Outcome × DbSession P R)
      → List Query
      → DbSession P R
      → Outcome × DbSession P R
  stop_or_go next [] s = (returned zero_rc, record s { wev = false })
  stop_or_go next (q ∷ qs) s = next s

  unfoldable pub after_batch :
      (DbSession P R → Outcome × DbSession P R) → Outcome × DbSession P R → Outcome × DbSession P R
  unfolding stop_or_go
  after_batch next (returned zero_rc, s) = stop_or_go next s.queued s
  after_batch next (returned minus_one, s) = (returned minus_one, s)
  after_batch next (assertion, s) = (assertion, s)
  after_batch next (out_of_fuel, s) = (out_of_fuel, s)
  after_batch next (undefined, s) = (undefined, s)

  unfoldable pub after_flush :
      (DbSession P R → Outcome × DbSession P R)
      → DbSession P R
      → Flush × P
      → Outcome × DbSession P R
  unfolding after_batch batch
  after_flush next s (would_block, p) = (returned zero_rc, record s { conn = p })
  after_flush next s (flush_failed, p) = (returned minus_one, record s { conn = p })
  after_flush next s (flushed, p) = after_batch next (batch 20 (record s { conn = p }))

  unfoldable pub write : ℕ → DbSession P R → Outcome × DbSession P R
  unfolding after_flush
  write zero s = (out_of_fuel, s)
  write (suc fuel) s = after_flush (write fuel) s (libpq.flush s.conn)

-- ===== src/Db/Connect.antt =====
-- src/dbsession.cc: the connection before and while it is made, and the two watchers' callbacks.
use harmony_http.Prelude.{
  ℕ, zero, suc, [], Bool, true, false, ◌==◌, Option, some, none, if◌then◌else◌,
}
use harmony_http.Wire.{zero_rc, minus_one}
use harmony_http.Db.{
  Libpq, DbSession, Polling, active, reading, writing, ok, failed, Outcome, returned, out_of_fuel,
}

module _ {P R : Type 0} (libpq : Libpq P R) where
  abbrev pub same_socket : ℕ → Option ℕ → Bool
  same_socket fd none = false
  same_socket fd (some old) = fd == old

  abbrev pub after_pipeline : DbSession P R → Bool × P → Outcome × DbSession P R
  after_pipeline s (false, p) = (returned minus_one, record s { conn = p })
  after_pipeline s (true, p) = (returned zero_rc, record s { conn = p; connected = true })

  abbrev pub after_nonblocking : DbSession P R → Bool × P → Outcome × DbSession P R
  after_nonblocking s (false, p) = (returned minus_one, record s { conn = p })
  after_nonblocking s (true, p) =
      after_pipeline (record s { conn = p }) (libpq.enter_pipeline_mode p)

  unfoldable pub connection_made : DbSession P R → Outcome × DbSession P R
  connection_made s =
      let s' = record s { running = true } in after_nonblocking s' (libpq.set_nonblocking s'.conn)

  -- The three cases that end `poll_connection`, on the state with libpq's new state in it.
  unfoldable pub poll_reading : DbSession P R → Outcome × DbSession P R
  poll_reading s =
      (returned zero_rc, record s { fd = some (libpq.socket s.conn); rev = true; wev = false })

  unfoldable pub poll_writing : DbSession P R → Outcome × DbSession P R
  poll_writing s =
      let new_fd = libpq.socket s.conn in
      let s' = if same_socket new_fd s.fd then s else record s { fd = some new_fd; rev = false } in
      (returned zero_rc, record s' { wev = true })

  unfoldable pub after_poll :
      (DbSession P R → Outcome × DbSession P R)
      → DbSession P R
      → Polling × P
      → Outcome × DbSession P R
  unfolding poll_reading poll_writing connection_made
  after_poll again s (active, p) = again (record s { conn = p })
  after_poll again s (reading, p) = poll_reading (record s { conn = p })
  after_poll again s (writing, p) = poll_writing (record s { conn = p })
  after_poll again s (ok, p) = connection_made (record s { conn = p })
  after_poll again s (failed, p) = (returned minus_one, record s { conn = p })

  -- It calls itself on PGRES_POLLING_ACTIVE, as often as the fuel allows.
  unfoldable pub poll_connection : ℕ → DbSession P R → Outcome × DbSession P R
  unfolding after_poll
  poll_connection zero s = (out_of_fuel, s)
  poll_connection (suc fuel) s = after_poll (poll_connection fuel) s (libpq.connect_poll s.conn)

-- A session as the constructor leaves it before it polls.
abbrev pub new_session : {P R : Type 0} → P → DbSession P R
new_session p = record {
  conn = p;
  connected = false;
  running = false;
  fd = none;
  rev = false;
  wev = false;
  queued = [];
  dispatched = [];
  prepared_queries = [];
  delivered = [];
  notified = [];
}

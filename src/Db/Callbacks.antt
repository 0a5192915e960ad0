-- ===== src/Db/Callbacks.antt =====
-- src/dbsession.cc and src/worker.cc: the callbacks of the two watchers, the creation of a session, and
-- the new session that a worker starts after an error.
use harmony_http.Prelude.{ℕ, List, Bool, Option, some, none, if◌then◌else◌}
use harmony_http.Wire.{zero_rc, minus_one}
use harmony_http.Db.{
  Delivery, Libpq, DbSession, Outcome, returned, assertion, out_of_fuel, undefined, write,
}
use harmony_http.Db.Connect.{new_session, poll_connection}
use harmony_http.Db.Read.{Client, read}

-- How a callback leaves the worker: with its session, or with a new one, or cancelled if there is none.
-- `stuck` is an assertion that failed, the front of an empty deque, or no fuel.
pub data After (P R : Type 0) : Type 0 where
  kept restarted : DbSession P R → After P R
  cancelled stuck : After P R

module _ {P R : Type 0} (libpq : Libpq P R) where
  -- Session::create; `conn` is what PQconnectStart returned, and `bad` whether PQstatus says that the
  -- connection is bad. What `poll_connection` returns is dropped.
  unfoldable pub create : ℕ → (P → Bool) → Option P → Option (DbSession P R)
  unfolding poll_connection
  create fuel bad none = none
  create fuel bad (some conn) =
      if bad conn then none else some (poll_connection libpq fuel (new_session conn)).1

  -- Worker::start_db_session
  abbrev pub start_db_session : Option (DbSession P R) → After P R
  start_db_session none = cancelled
  start_db_session (some s) = restarted s

  -- The end of both callbacks; the session that is replaced is destroyed with its queries.
  unfoldable pub after_callback : Option (DbSession P R) → Outcome × DbSession P R → After P R
  after_callback fresh (returned zero_rc, s) = kept s
  after_callback fresh (returned minus_one, s) = start_db_session fresh
  after_callback fresh (assertion, s) = stuck
  after_callback fresh (out_of_fuel, s) = stuck
  after_callback fresh (undefined, s) = stuck

  -- `write_fn_` and `read_fn_` are `poll_connection` until the connection is made.
  unfoldable pub on_write : ℕ → DbSession P R → Outcome × DbSession P R
  unfolding write poll_connection
  on_write fuel s = if s.running then write libpq fuel s else poll_connection libpq fuel s

  unfoldable pub write_cb : ℕ → (P → Bool) → Option P → DbSession P R → After P R
  unfolding on_write after_callback create
  write_cb fuel bad conn s = after_callback (create fuel bad conn) (on_write fuel s)

  module _ (alive : List (Delivery R) → ℕ → Bool) (client : Client R) where
    unfoldable pub on_read : ℕ → ℕ → DbSession P R → Outcome × DbSession P R
    unfolding read poll_connection
    on_read fuel inner s =
        if s.running then read libpq alive client fuel inner s else poll_connection libpq fuel s

    unfoldable pub read_cb : ℕ → ℕ → (P → Bool) → Option P → DbSession P R → After P R
    unfolding on_read after_callback create
    read_cb fuel inner bad conn s = after_callback (create fuel bad conn) (on_read fuel inner s)

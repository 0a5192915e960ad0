-- ===== src/Db/Tests.antt =====
-- src/dbsession.cc: runs of `write` and `read` on a libpq that keeps two lists.
use harmony_http.Prelude.{
  ℕ, length, ltb, ◌≡◌, ◌≢◌, ◌==◌, map, refl, List, [], ◌∷◌, ◌++◌, Bytes, Bool, true, false, Option,
  none, arith,
}
use harmony_http.Db.{
  Delivery, coroutine, callback, Status, command_ok, tuples_ok, fatal_error, ok, flushed, Libpq,
  DbSession, out_of_fuel, send_query, send_prepared, write,
}
use harmony_http.Db.Connect.{new_session}
use harmony_http.Db.Order.{
  Command, query, query_params, prepare, query_prepared, sync, Keeps, Moves, write-Moves,
}
use harmony_http.Db.Total.{write_ends}
use harmony_http.Db.Read.{Client, read}
use harmony_http.Db.Replies.{Replies}
use harmony_http.Db.Answers.{Answer, asked_of, Serves, replies_of}
use harmony_http.Db.Matching.{read-Serves}

-- Texts of commands.
abbrev one : Bytes
one = b'1' ∷ []

abbrev two : Bytes
two = b'2' ∷ []

abbrev by_id : Bytes
by_id = b'i' ∷ b'd' ∷ []

-- What is still to come, and what was sent.
abbrev Conn : Type 0
Conn = List (Option (Status × ℕ)) × List Command

abbrev give : Command → Conn → Bool × Conn
give c (l, sent) = (true, (l, sent ++ c ∷ []))

abbrev take_result : List (Option (Status × ℕ)) → List Command → Option (Status × ℕ) × Conn
take_result [] sent = (none, ([], sent))
take_result (x ∷ l) sent = (x, (l, sent))

abbrev nothing_left : List (Option (Status × ℕ)) → Bool
nothing_left [] = true
nothing_left (x ∷ l) = false

abbrev libpq : Libpq Conn ℕ
libpq = record {
  connect_poll = λ p. (ok, p);
  socket = λ p. 5;
  set_nonblocking = λ p. (true, p);
  enter_pipeline_mode = λ p. (true, p);
  flush = λ p. (flushed, p);
  send_query = λ c. give (query c);
  send_query_params = λ c vs. give (query_params c vs);
  send_prepare = λ c t. give (prepare c t);
  send_query_prepared = λ c vs. give (query_prepared c vs);
  send_sync = give sync;
  consume_input = λ p. (true, p);
  is_busy = λ p. nothing_left p.0;
  get_result = λ p. take_result p.0 p.1;
  notifies = λ p. ([], p);
  file_text = λ fd. one;
}

sent-cong : (c : Command) (p p' : Conn) → give c p ≡ (true, p') → p'.1 ≡ p.1 ++ c ∷ []
sent-cong c p p' e = cc

keeps : Keeps libpq (λ p. p.1)
keeps = record {
  keeps_query = λ c. sent-cong (query c);
  keeps_params = λ c vs. sent-cong (query_params c vs);
  keeps_prepare = λ c t. sent-cong (prepare c t);
  keeps_prepared = λ c vs. sent-cong (query_prepared c vs);
  keeps_sync = sent-cong sync;
  keeps_flush = λ p. refl;
}

take_result_lem :
    (rest : List (Option (Status × ℕ))) (sent : List Command) (x : Option (Status × ℕ))
    (l : List (Option (Status × ℕ)))
    → rest ≡ x ∷ l
    → ((take_result rest sent).0 ≡ x) × ((take_result rest sent).1.0 ≡ l)
take_result_lem [] sent x l e = cc
take_result_lem (y ∷ ys) sent x l e = (cc, cc)

replies : Replies libpq (λ p. p.0)
replies = record {
  replies_result = λ p x l e. take_result_lem p.0 p.1 x l e;
  replies_notifies = λ p. refl;
  replies_consume = λ p. refl;
}

-- Two queries wait, one of them a prepared statement.
abbrev waiting : DbSession Conn ℕ
unfolding send_query send_prepared
waiting =
    send_query 7 one (coroutine 3) (send_prepared 8 by_id two (callback 4) (new_session ([], [])))

write-Moves_example : Moves keeps waiting (write libpq 3 waiting).1
unfolding write send_query send_prepared
write-Moves_example = write-Moves keeps 3 waiting refl

write_ends_example : (write libpq 3 waiting).0 ≢ out_of_fuel
unfolding send_query send_prepared
write_ends_example = write_ends libpq 3 waiting (omega arith)

all_sent : (write libpq 3 waiting).1.conn.1 ≡ prepare by_id two ∷ sync ∷ query one ∷ sync ∷ []
unfolding write send_query send_prepared
all_sent = refl

-- The answers to them; the stream of the second has gone.
abbrev answers : List (Answer ℕ)
answers =
    record {
      asked = record { stream_serial = 7; is_sync_point = true; completion_handler = coroutine 3 };
      given = (tuples_ok, 100) ∷ [];
      mark = 0;
    }
    ∷ record {
      asked = record { stream_serial = 8; is_sync_point = true; completion_handler = callback 4 };
      given = (command_ok, 101) ∷ (fatal_error, 102) ∷ [];
      mark = 1;
    }
    ∷ []

abbrev is_alive : List (Delivery ℕ) → ℕ → Bool
is_alive past serial = serial == 7

-- A coroutine is done once anything was delivered.
abbrev no_more : Client ℕ
no_more = record { is_done = λ past c. ltb 0 (length past); queues = λ past handler result. [] }

abbrev asking : DbSession Conn ℕ
asking = record (new_session (replies_of answers, [])) { dispatched = map asked_of answers }

read-Serves_example :
    Serves replies is_alive no_more answers asking (read libpq is_alive no_more 9 9 asking)
read-Serves_example =
    read-Serves replies is_alive no_more 9 9 none answers asking (λ e. cc)
      ((λ e. cc, tt), ((λ e. cc, (λ e. cc, tt)), tt)) (omega arith) (omega arith) (refl, refl) refl

one_delivered :
    (read libpq is_alive no_more 9 9 asking).1.delivered ≡ (coroutine 3, tuples_ok, 100, true) ∷ []
unfolding read
one_delivered = refl

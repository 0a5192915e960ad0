-- ===== src/Rows.antt =====
-- src/util.cc: `to_json`, a result of PostgreSQL as JSON. What libpq says of the result is a record.
pub mod Print
mod Tests
use harmony_http.Prelude.{
  ℕ, zero, suc, ◌+◌, ◌-◌, List, [], ◌∷◌, ◌++◌, Bytes, Bool, true, false, ◌||◌, Option, some, none,
  ltb, ◌==◌, if◌then◌else◌, codes,
}
use harmony_http.Json.{Value, null_value, number, text, append_value}
use harmony_http.Db.{
  Status, command_ok, tuples_ok, single_tuple, nonfatal_error, fatal_error, pipeline_aborted,
  empty_query, bad_response, pipeline_sync, copy_in, copy_out, copy_both,
}

-- PQresultStatus, PQntuples, PQnfields, PQftype, PQfname, PQgetvalue and PQgetisnull; a null pointer of
-- PQgetvalue is none.
pub record PgResult : Type 0 where
  pub status : Status
  pub n_tuples : ℕ
  pub n_fields : ℕ
  pub type_of : ℕ → ℕ
  pub name_of : ℕ → Bytes
  pub value_of : ℕ → ℕ → Option Bytes
  pub is_null : ℕ → ℕ → Bool

abbrev pub bool_oid : ℕ
bool_oid = 16

-- INT2, INT4, INT8, FLOAT4, FLOAT8 and NUMERIC
unfoldable pub is_pg_num_type : ℕ → Bool
is_pg_num_type oid =
    (oid == 21)
    || ((oid == 23) || ((oid == 20) || ((oid == 700) || ((oid == 701) || (oid == 1700)))))

-- `val[0] == 't'`; the value ends with a null byte.
abbrev pub is_t : Bytes → Bool
is_t [] = false
is_t (c ∷ s) = c == b't'

abbrev pub typed_value : ℕ → Bytes → Value
typed_value oid val =
    if oid == bool_oid
    then number (if is_t val then codes "true" else codes "false")
    else if is_pg_num_type oid
    then number val
    else text val

abbrev pub value_or_null : ℕ → Option Bytes → Value
value_or_null oid none = null_value
value_or_null oid (some val) = typed_value oid val

-- The value that the branches append, which are those of the JSON writer.
unfoldable pub field_value : PgResult → ℕ → ℕ → Value
unfolding is_pg_num_type
field_value res i j =
    if res.is_null i j then null_value else value_or_null (res.type_of j) (res.value_of i j)

unfoldable pub append_comma : Bool → Bytes → Bytes
append_comma more ret = if more then ret ++ b',' ∷ [] else ret

unfoldable pub append_field : PgResult → ℕ → ℕ → Bytes → Bytes
unfolding field_value
append_field res i j ret =
    append_value (field_value res i j)
      ((((ret ++ codes "\"") ++ res.name_of j) ++ codes "\"") ++ codes ":")

-- The loop over the columns; `left` are left, from column `j` on.
unfoldable pub append_fields : PgResult → ℕ → ℕ → ℕ → Bytes → Bytes
unfolding append_field append_comma
append_fields res i zero j ret = ret
append_fields res i (suc left) j ret =
    append_fields res i left (j + 1)
      (append_comma (ltb j (res.n_fields - 1)) (append_field res i j ret))

unfoldable pub jsonify_row : PgResult → ℕ → Bytes → Bytes
unfolding append_fields
jsonify_row res row out = append_fields res row res.n_fields 0 (out ++ codes "{") ++ codes "}"

unfoldable pub append_rows : PgResult → ℕ → ℕ → Bytes → Bytes
unfolding jsonify_row append_comma
append_rows res zero i ret = ret
append_rows res (suc left) i ret =
    append_rows res left (i + 1) (append_comma (ltb i (res.n_tuples - 1)) (jsonify_row res i ret))

-- `to_json`; none is the failed assertion.
abbrev pub json_of : PgResult → Status → Option Bytes
json_of res tuples_ok = some (append_rows res res.n_tuples 0 (codes "[") ++ codes "]")
json_of res single_tuple = some (jsonify_row res 0 [])
json_of res command_ok = some (codes "{}")
json_of res nonfatal_error = none
json_of res fatal_error = none
json_of res pipeline_aborted = none
json_of res empty_query = none
json_of res bad_response = none
json_of res pipeline_sync = none
json_of res copy_in = none
json_of res copy_out = none
json_of res copy_both = none

unfoldable pub to_json : PgResult → Option Bytes
unfolding append_rows jsonify_row
to_json res = json_of res res.status

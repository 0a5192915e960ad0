-- ===== src/Rows/Tests.antt =====
-- src/util.cc: a result of two rows.
use harmony_http.Prelude.{ℕ, zero, suc, ◌≡◌, refl, Bytes, Bool, true, false, Option, some, codes}
use harmony_http.Db.{tuples_ok}
use harmony_http.Json.{append_value}
use harmony_http.Rows.{
  PgResult, to_json, field_value, append_field, append_fields, append_comma, jsonify_row,
  append_rows, is_pg_num_type,
}
use harmony_http.Rows.Print.{json_value, text_of, to_json-json_text}

abbrev column_name : ℕ → Bytes
column_name zero = codes "id"
column_name (suc j) = codes "ok"

abbrev column_type : ℕ → ℕ
column_type zero = 23
column_type (suc j) = 16

abbrev cell : ℕ → ℕ → Option Bytes
cell i zero = some (codes "7")
cell i (suc j) = some (codes "t")

abbrev null_cell : ℕ → ℕ → Bool
null_cell zero j = false
null_cell (suc i) zero = false
null_cell (suc i) (suc j) = true

abbrev result : PgResult
result = record {
  status = tuples_ok;
  n_tuples = 2;
  n_fields = 2;
  type_of = column_type;
  name_of = column_name;
  value_of = cell;
  is_null = null_cell;
}

to_json-json_text_example : to_json result ≡ text_of (json_value result tuples_ok)
to_json-json_text_example = to_json-json_text result

result_text : to_json result ≡ some (codes "[{\"id\":7,\"ok\":true},{\"id\":7,\"ok\":null}]")
unfolding to_json append_rows append_comma jsonify_row append_fields append_field field_value
    append_value is_pg_num_type
result_text = refl

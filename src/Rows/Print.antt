-- ===== src/Rows/Print.antt =====
-- src/util.cc: the JSON text of a result is that of the JSON writer for its rows.
use harmony_http.Prelude.{
  ℕ, zero, suc, ◌+◌, ◌-◌, ◌≡◌, refl, sym, ap, ◌∙◌, arith, [], ◌∷◌, ◌++◌, append_assoc, append-nil,
  Bytes, Bool, true, false, Option, some, none, ltb, codes, List, ◌==◌, if◌then◌else◌, Bool-cases,
  inl, inr,
}
use harmony_http.Json.{
  Value, null_value, number, unquoted, text, append_value, Json, scalar, holds, Container, array,
  object, Containers, no_more, next, Members, no_member, member,
}
use harmony_http.Json.Quote.{append_quoted_string-quoted}
use harmony_http.Json.Print.{
  value_text, key_text, json_text, container_text, all_text, members_text,
}
use harmony_http.Db.{
  Status, command_ok, tuples_ok, single_tuple, nonfatal_error, fatal_error, pipeline_aborted,
  empty_query, bad_response, pipeline_sync, copy_in, copy_out, copy_both,
}
use harmony_http.Rows.{
  PgResult, is_t, typed_value, value_or_null, is_pg_num_type, field_value, append_comma,
  append_field, append_fields, jsonify_row, append_rows, json_of, to_json,
}

-- How PostgreSQL's types are shown, by the ids of its catalogue: bool, int8, int2, int4, float4,
-- float8 and numeric, and every other as text.
pub data Kind : Type 0 where
  truth numeric quoted_text : Kind

abbrev kinds : List (ℕ × Kind)
kinds =
    (16, truth)
    ∷ (20, numeric)
    ∷ (21, numeric)
    ∷ (23, numeric)
    ∷ (700, numeric)
    ∷ (701, numeric)
    ∷ (1700, numeric)
    ∷ []

abbrev kind_in : List (ℕ × Kind) → ℕ → Kind
kind_in [] oid = quoted_text
kind_in ((id, kind) ∷ ks) oid = if oid == id then kind else kind_in ks oid

abbrev shown : Kind → Bytes → Value
shown truth [] = number (codes "false")
shown truth (c ∷ s) = if c == b't' then number (codes "true") else number (codes "false")
shown numeric val = number val
shown quoted_text val = text val

-- The value of a cell: null, or what its column's type says of the text that libpq gives for it.
unfoldable pub cell : Bool → ℕ → Option Bytes → Value
cell true oid val = null_value
cell false oid none = null_value
cell false oid (some val) = shown (kind_in kinds oid) val

is_t-shown :
    (val : Bytes) → number (if is_t val then codes "true" else codes "false") ≡ shown truth val
is_t-shown [] = refl
is_t-shown (c ∷ s) = ground arith

typed_value-shown : (oid : ℕ) (val : Bytes) → typed_value oid val ≡ shown (kind_in kinds oid) val
unfolding is_pg_num_type
typed_value-shown oid val = elim (Bool-cases (oid == 16)) [
  | inl h ↦ rw h (is_t-shown val)
  | inr h ↦ rw h (ground arith)
]

abbrev pub cell_at : PgResult → ℕ → ℕ → Value
cell_at res i j = cell (res.is_null i j) (res.type_of j) (res.value_of i j)

value_or_null-cell :
    (null : Bool) (oid : ℕ) (val : Option Bytes)
    → (if null then null_value else value_or_null oid val) ≡ cell null oid val
unfolding cell
value_or_null-cell true oid val = refl
value_or_null-cell false oid none = refl
value_or_null-cell false oid (some val) = typed_value-shown oid val

field_value-cell : (res : PgResult) (i j : ℕ) → field_value res i j ≡ cell_at res i j
unfolding field_value
field_value-cell res i j = value_or_null-cell (res.is_null i j) (res.type_of j) (res.value_of i j)

-- A row as an object with the columns from `j` on, and the rows from `i` on as an array.
abbrev pub row_members : PgResult → ℕ → ℕ → ℕ → Members
row_members res i zero j = no_member
row_members res i (suc left) j =
    member (res.name_of j) (scalar (cell_at res i j)) (row_members res i left (j + 1))

abbrev pub row : PgResult → ℕ → Container
row res i = object (row_members res i res.n_fields 0)

abbrev pub rows : PgResult → ℕ → ℕ → Containers
rows res zero i = no_more
rows res (suc left) i = next (row res i) (rows res left (i + 1))

-- The JSON value of a result, where it has one.
abbrev pub json_value : PgResult → Status → Option Json
json_value res tuples_ok = some (holds (array (rows res res.n_tuples 0)))
json_value res single_tuple = some (holds (row res 0))
json_value res command_ok = some (holds (object no_member))
json_value res nonfatal_error = none
json_value res fatal_error = none
json_value res pipeline_aborted = none
json_value res empty_query = none
json_value res bad_response = none
json_value res pipeline_sync = none
json_value res copy_in = none
json_value res copy_out = none
json_value res copy_both = none

abbrev pub text_of : Option Json → Option Bytes
text_of none = none
text_of (some j) = some (json_text j)

append_value_lem : (v : Value) (ret : Bytes) → append_value v ret ≡ ret ++ value_text v
unfolding append_value
append_value_lem null_value ret = refl
append_value_lem (number digits) ret = refl
append_value_lem (unquoted content) ret = refl
append_value_lem (text sv) ret = append_quoted_string-quoted sv ret

append_field_lem :
    (res : PgResult) (i j : ℕ) (ret : Bytes)
    → append_field res i j ret ≡ ret ++ (key_text (res.name_of j) ++ value_text (cell_at res i j))
unfolding append_field
append_field_lem res i j ret =
    append_value_lem (field_value res i j)
      ((((ret ++ codes "\"") ++ res.name_of j) ++ codes "\"") ++ codes ":")
    ∙ ap (λ l. l ++ value_text (field_value res i j))
        (append_assoc ((ret ++ codes "\"") ++ res.name_of j) (codes "\"") (codes ":")
          ∙ append_assoc (ret ++ codes "\"") (res.name_of j) (codes "\":")
          ∙ append_assoc ret (codes "\"") (res.name_of j ++ codes "\":"))
    ∙ append_assoc ret (key_text (res.name_of j)) (value_text (field_value res i j))
    ∙ ap (λ v. ret ++ (key_text (res.name_of j) ++ value_text v)) (field_value-cell res i j)

append_comma-last : (j n : ℕ) (ret : Bytes) → j + 1 ≡ n → append_comma (ltb j (n - 1)) ret ≡ ret
unfolding append_comma
append_comma-last j n ret e = let last : ltb j (n - 1) ≡ false = ground arith in rw last refl

append_comma-more :
    (j n k : ℕ) (ret : Bytes)
    → j + suc (suc k) ≡ n
    → append_comma (ltb j (n - 1)) ret ≡ ret ++ b',' ∷ []
unfolding append_comma
append_comma-more j n k ret e = let more : ltb j (n - 1) ≡ true = ground arith in rw more refl

append_fields_lem :
    (res : PgResult) (i left j : ℕ) (ret : Bytes)
    → j + left ≡ res.n_fields
    → append_fields res i left j ret ≡ ret ++ members_text (row_members res i left j)
unfolding append_fields members_text json_text
append_fields_lem res i zero j ret e = sym (append-nil ret)
append_fields_lem res i (suc zero) j ret e =
    append_comma-last j res.n_fields (append_field res i j ret) e ∙ append_field_lem res i j ret
append_fields_lem res i (suc (suc left)) j ret e =
    let cell = key_text (res.name_of j) ++ value_text (cell_at res i j) in
    ap (append_fields res i (suc left) (j + 1)) (
      append_comma-more j res.n_fields left (append_field res i j ret) e
      ∙ ap (λ l. l ++ b',' ∷ []) (append_field_lem res i j ret))
    ∙ append_fields_lem res i (suc left) (j + 1) ((ret ++ cell) ++ b',' ∷ []) (omega arith)
    ∙ append_assoc (ret ++ cell) (b',' ∷ []) (members_text (row_members res i (suc left) (j + 1)))
    ∙ append_assoc ret cell (b',' ∷ members_text (row_members res i (suc left) (j + 1)))

jsonify_row_lem :
    (res : PgResult) (i : ℕ) (out : Bytes)
    → jsonify_row res i out ≡ out ++ container_text (row res i)
unfolding jsonify_row container_text
jsonify_row_lem res i out =
    let fields = members_text (row_members res i res.n_fields 0) in
    ap (λ l. l ++ codes "}")
      (append_fields_lem res i res.n_fields 0 (out ++ codes "{") (omega arith))
    ∙ append_assoc (out ++ codes "{") fields (codes "}")
    ∙ append_assoc out (codes "{") (fields ++ codes "}")

append_rows_lem :
    (res : PgResult) (left i : ℕ) (ret : Bytes)
    → i + left ≡ res.n_tuples
    → append_rows res left i ret ≡ ret ++ all_text (rows res left i)
unfolding append_rows all_text
append_rows_lem res zero i ret e = sym (append-nil ret)
append_rows_lem res (suc zero) i ret e =
    append_comma-last i res.n_tuples (jsonify_row res i ret) e ∙ jsonify_row_lem res i ret
append_rows_lem res (suc (suc left)) i ret e =
    let object_text = container_text (row res i) in
    ap (append_rows res (suc left) (i + 1)) (
      append_comma-more i res.n_tuples left (jsonify_row res i ret) e
      ∙ ap (λ l. l ++ b',' ∷ []) (jsonify_row_lem res i ret))
    ∙ append_rows_lem res (suc left) (i + 1) ((ret ++ object_text) ++ b',' ∷ []) (omega arith)
    ∙ append_assoc (ret ++ object_text) (b',' ∷ []) (all_text (rows res (suc left) (i + 1)))
    ∙ append_assoc ret object_text (b',' ∷ all_text (rows res (suc left) (i + 1)))

-- `to_json` makes the text of a JSON value, as the JSON writer's text is defined: of the array of all
-- rows, of the one row of a single tuple, or of an empty object for a command, each row an object
-- with its columns in their order. A cell is null, or true or false in a column of truth values, or
-- libpq's text as it stands, whatever it is, in a column of numbers, or a quoted string in a column of
-- any other type. For every other status the assertion of `to_json` fails.
pub to_json-json_text : (res : PgResult) → to_json res ≡ text_of (json_value res res.status)
unfolding to_json json_text container_text members_text
to_json-json_text res = elim res.status as (λ s. json_of res s ≡ text_of (json_value res s)) [
  | tuples_ok ↦
      ap (λ l. some (l ++ codes "]")) (append_rows_lem res res.n_tuples 0 (codes "[") (omega arith))
  | single_tuple ↦ ap some (jsonify_row_lem res 0 [])
  | command_ok ↦ refl
  | nonfatal_error ↦ refl
  | fatal_error ↦ refl
  | pipeline_aborted ↦ refl
  | empty_query ↦ refl
  | bad_response ↦ refl
  | pipeline_sync ↦ refl
  | copy_in ↦ refl
  | copy_out ↦ refl
  | copy_both ↦ refl
]

-- ===== src/Db/Results.antt =====
-- src/dbresult.h and src/dbresult.cc: `ResultBase`, what a handler gets of a result. The functions of
-- libpq are a record. A failed assertion is none, and members that a constructor leaves uninitialised
-- hold what they are given. The pointers that own a result are not modelled.
use harmony_http.Prelude.{
  ℕ, ◌≡◌, ◌≤◌, arith, refl, Bytes, Bool, true, false, not, ◌&&◌, ◌||◌, Option, some, none, ltb,
  ◌==◌, if◌then◌else◌, codes,
}
use harmony_http.Db.{
  Status, command_ok, tuples_ok, single_tuple, nonfatal_error, fatal_error, pipeline_aborted,
  empty_query, bad_response, pipeline_sync, copy_in, copy_out, copy_both,
}

-- ResultBase::Status
pub data Kind : Type 0 where
  error empty single many : Kind

pub record Results (P : Type 0) : Type 0 where
  pub result_status : P → Status
  pub n_tuples : P → ℕ
  pub n_fields : P → ℕ
  pub field_name : P → ℕ → Bytes
  pub field_value : P → ℕ → ℕ → Bytes
  pub field_number : P → Bytes → Option ℕ
  pub message_of : Option P → Bytes

pub record ResultBase (P : Type 0) : Type 0 where
  pub pg_result : Option P
  pub kind : Kind
  pub n_rows : ℕ
  pub n_cols : ℕ
  pub message : Option Bytes

abbrev pub is_error_kind : Kind → Bool
is_error_kind error = true
is_error_kind empty = false
is_error_kind single = false
is_error_kind many = false

abbrev pub is_single_kind : Kind → Bool
is_single_kind error = false
is_single_kind empty = false
is_single_kind single = true
is_single_kind many = false

abbrev pub is_many_kind : Kind → Bool
is_many_kind error = false
is_many_kind empty = false
is_many_kind single = false
is_many_kind many = true

abbrev pub is_empty_kind : Kind → Bool
is_empty_kind error = false
is_empty_kind empty = true
is_empty_kind single = false
is_empty_kind many = false

abbrev pub kind_of : Status → Kind
kind_of command_ok = empty
kind_of tuples_ok = many
kind_of single_tuple = single
kind_of nonfatal_error = error
kind_of fatal_error = error
kind_of pipeline_aborted = error
kind_of empty_query = error
kind_of bad_response = error
kind_of pipeline_sync = error
kind_of copy_in = error
kind_of copy_out = error
kind_of copy_both = error

module _ {P : Type 0} where
  abbrev pub is_error : ResultBase P → Bool
  is_error r = is_error_kind r.kind

  -- The constructors of a result that is not set, and of one with a message.
  unfoldable pub unset_result : ℕ → ℕ → ResultBase P
  unset_result rows cols = record {
    pg_result = none;
    kind = error;
    n_rows = rows;
    n_cols = cols;
    message = some (codes "Result class in unitialised state");
  }

  unfoldable pub error_result : ℕ → ℕ → Bytes → ResultBase P
  error_result rows cols text = record {
    pg_result = none;
    kind = error;
    n_rows = rows;
    n_cols = cols;
    message = some text;
  }

  -- `assign`, which takes the number of rows for both.
  unfoldable pub assign : ResultBase P → ResultBase P
  assign b = record {
    pg_result = b.pg_result;
    kind = b.kind;
    n_rows = b.n_rows;
    n_cols = b.n_rows;
    message = b.message;
  }

  -- The move constructor and assignment: the new result, and what is left of the old one.
  unfoldable pub move_result : ResultBase P → ResultBase P × ResultBase P
  unfolding assign
  move_result b = (assign b, record b { pg_result = none })

  unfoldable pub exists : ResultBase P → Bool
  exists r = not (is_error r) && ltb 0 r.n_rows

  -- `operator bool`
  unfoldable pub to_bool : ResultBase P → Bool
  to_bool r = not (is_error r) && (is_empty_kind r.kind || ltb 0 r.n_rows)

  module _ (libpq : Results P) where
    abbrev pub set_counts : P → ResultBase P → ResultBase P
    set_counts p r =
        if is_error r then r else record r { n_rows = libpq.n_tuples p; n_cols = libpq.n_fields p }

    -- The constructor of a PGresult.
    unfoldable pub from_pg : ℕ → ℕ → P → ResultBase P
    from_pg rows cols p = set_counts p (record {
      pg_result = some p;
      kind = kind_of (libpq.result_status p);
      n_rows = rows;
      n_cols = cols;
      message = none;
    })

    abbrev pub at_cell : ℕ → ℕ → Option P → Option Bytes
    at_cell row col none = none
    at_cell row col (some p) = some (libpq.field_value p row col)

    unfoldable pub value_at : ResultBase P → ℕ → ℕ → Option Bytes
    value_at r row col =
        if is_many_kind r.kind && (ltb row r.n_rows && ltb col r.n_cols)
        then at_cell row col r.pg_result
        else none

    abbrev pub name_of_col : ℕ → Option P → Option Bytes
    name_of_col col none = none
    name_of_col col (some p) = some (libpq.field_name p col)

    unfoldable pub name_at : ResultBase P → ℕ → Option Bytes
    name_at r col =
        if is_many_kind r.kind && ltb col r.n_cols then name_of_col col r.pg_result else none

    -- `get`: the outer option is the assertions, the inner one the result.
    abbrev pub found : Option Bytes → Option (Option Bytes)
    found none = none
    found (some v) = some (some v)

    abbrev pub number_in : Option P → Bytes → Option ℕ
    number_in none name = none
    number_in (some p) name = libpq.field_number p name

    abbrev pub get_col : ResultBase P → ℕ → Option ℕ → Option (Option Bytes)
    unfolding value_at
    get_col r row none = some none
    get_col r row (some col) = found (value_at r row col)

    unfoldable pub get : ResultBase P → ℕ → Bytes → Option (Option Bytes)
    get r row name =
        if is_many_kind r.kind then get_col r row (number_in r.pg_result name) else none

    -- `get(name)`
    unfoldable pub get_first : ResultBase P → Bytes → Option (Option Bytes)
    unfolding get
    get_first r name = if is_single_kind r.kind || (r.n_rows == 1) then get r 0 name else none

    abbrev pub message_or : ResultBase P → Bytes
    message_or r =
        if is_error r
        then libpq.message_of r.pg_result
        else if not (is_empty_kind r.kind) && (r.n_rows == 0)
        then codes "No record matched query"
        else codes "Success"

    -- `error_message`
    abbrev pub own_message : ResultBase P → Option Bytes → Option Bytes
    own_message r none = some (message_or r)
    own_message r (some text) = if is_error r then some text else none

    unfoldable pub error_message : ResultBase P → Option Bytes
    error_message r = own_message r r.message

-- `get(name)` asks for a result that is single or has one row, and then for one that is not single.
single_has_no_field :
    {P : Type 0} (libpq : Results P) (r : ResultBase P) (name : Bytes)
    → r.kind ≡ single
    → get_first libpq r name ≡ none
unfolding get_first get
single_has_no_field libpq r name e = rw e refl

-- After a copy or a move, a column whose number is not below that of the rows is refused.
assign_loses_columns :
    {P : Type 0} (libpq : Results P) (r : ResultBase P) (row col : ℕ)
    → r.n_rows ≤ col
    → value_at libpq (assign r) row col ≡ none
unfolding value_at assign
assign_loses_columns libpq r row col h =
    let closed : (is_many_kind r.kind && (ltb row r.n_rows && ltb col r.n_rows)) ≡ false =
      ground arith in
    rw closed refl

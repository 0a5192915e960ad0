-- ===== src/Db/Iterate.antt =====
-- src/dbresult.h: rows of a result and the iterator over them. A result is known by its address, a number, with
-- what ResultBase holds. Reading a cell is that of Db/Results.
use harmony_http.Prelude.{
  ℕ, zero, suc, ◌+◌, ◌≡◌, refl, ap, arith, min, List, [], ◌∷◌, Bytes, Bool, true, false, ◌&&◌,
  Option, ◌==◌, if◌then◌else◌,
}
use harmony_http.Db.Results.{Results, ResultBase, value_at, name_at, get}

pub record Row (P : Type 0) : Type 0 where
  pub row_index : ℕ
  pub address : ℕ
  pub result : ResultBase P

-- What an iteration gives: the rows that it visits, or no fuel.
pub data Visited (P : Type 0) : Type 0 where
  visited : List (Row P) → Visited P
  out_of_fuel : Visited P

module _ {P : Type 0} where
  -- `operator+`, for a count that is not negative.
  unfoldable pub advance : ℕ → Row P → Row P
  advance n it = record it { row_index = min (it.row_index + n) it.result.n_rows }

  unfoldable pub next : Row P → Row P
  unfolding advance
  next it = advance 1 it

  unfoldable pub same_place : Row P → Row P → Bool
  same_place a b = (a.address == b.address) && (a.row_index == b.row_index)

  unfoldable pub begin_rows : ℕ → ResultBase P → Row P
  begin_rows address r = record { row_index = 0; address = address; result = r }

  unfoldable pub end_rows : ℕ → ResultBase P → Row P
  end_rows address r = record { row_index = r.n_rows; address = address; result = r }

  abbrev pub cons_row : Row P → Visited P → Visited P
  cons_row it (visited rows) = visited (it ∷ rows)
  cons_row it out_of_fuel = out_of_fuel

  -- `for (auto &row : result)`
  unfoldable pub iterate : ℕ → Row P → Row P → Visited P
  unfolding next same_place
  iterate zero it stop = out_of_fuel
  iterate (suc fuel) it stop =
      let rest = iterate fuel (next it) stop in
      if same_place it stop then visited [] else cons_row it rest

  module _ (libpq : Results P) where
    unfoldable pub row_value : Row P → ℕ → Option Bytes
    row_value it col = value_at libpq it.result it.row_index col

    unfoldable pub row_name : Row P → ℕ → Option Bytes
    row_name it col = name_at libpq it.result col

    unfoldable pub row_get : Row P → Bytes → Option (Option Bytes)
    row_get it name = get libpq it.result it.row_index name

  -- The rows from an index on, as many as are said.
  abbrev pub rows_from : ℕ → ℕ → ResultBase P → ℕ → List (Row P)
  rows_from address zero r i = []
  rows_from address (suc n) r i =
      (record { row_index = i; address = address; result = r }) ∷ rows_from address n r (i + 1)

  iterate_from :
      (address n i : ℕ) (r : ResultBase P)
      → i + n ≡ r.n_rows
      → iterate
          (suc n)
          (record { row_index = i; address = address; result = r })
          (end_rows address r)
        ≡ visited (rows_from address n r i)
  unfolding iterate next advance same_place end_rows
  iterate_from address zero i r e =
      let here : ((address == address) && (i == r.n_rows)) ≡ true = ground arith in rw here refl
  iterate_from address (suc n) i r e =
      let more : ((address == address) && (i == r.n_rows)) ≡ false = ground arith in
      let step : min (i + 1) r.n_rows ≡ i + 1 = omega arith in
      rw (more, step) (ap (cons_row _) (iterate_from address n (i + 1) r (omega arith)))

  -- A loop over a result visits each row once, in order, and ends after one more round than there are
  -- rows.
  pub iterate_lem :
      (address : ℕ) (r : ResultBase P)
      → iterate (suc r.n_rows) (begin_rows address r) (end_rows address r)
        ≡ visited (rows_from address r.n_rows r 0)
  unfolding begin_rows
  iterate_lem address r = iterate_from address r.n_rows 0 r (omega arith)

-- ===== src/Router/Table.antt =====
-- src/httprouter.h and .cc: `HttpRouter`, its `add_route` and `dispatch_route`.
-- `H` is the type of handlers; running one is not modelled, only which one is run.
use harmony_http.Prelude.{
  ℕ, suc, ◌≡◌, List, [], ◌∷◌, ◌++◌, Bytes, some, none, length, get_elem?, map,
}
use harmony_http.Router.{
  Method, Node, Memory, Inserted, ok, aborted, out_of_fuel, map_insert, empty_root, insert_path,
  Answer, npos, found, failed, Vars, match,
}
use harmony_http.Router.Level.{parse_level}
use harmony_http.Router.Routes.{Routed}
use harmony_http.Router.Paths.{AllLevels, path_of}

pub record HttpRouter (H : Type 0) : Type 0 where
  pub root_node : Node
  pub handlers : List H
  pub route_paths : List Bytes

-- What `dispatch_route` does: return false, run a handler with the captured variables, read
-- `handlers_` out of range, or stop at an assertion.
pub data Dispatch (H : Type 0) : Type 0 where
  unhandled : Dispatch H
  invoke : ℕ → H → Vars → Dispatch H
  no_handler : Dispatch H
  assertion : Dispatch H

module _ {H : Type 0} where
  abbrev pub empty_router : Memory → HttpRouter H
  empty_router memory = record { root_node = empty_root memory; handlers = []; route_paths = [] }

  -- The fuel is the length of the path and one more; each level takes a byte of it at least.
  unfoldable pub add_route :
      (ℕ → ℕ → Memory) → Method → Bytes → H → HttpRouter H → Inserted (HttpRouter H)
  add_route memory m path handler r =
      let handler_index = length r.handlers in
      map_insert
        (λ n. record {
          root_node = n;
          handlers = r.handlers ++ handler ∷ [];
          route_paths = r.route_paths ++ path ∷ [];
        })
        (insert_path (memory handler_index) m handler_index (suc (length path)) path r.root_node)

  unfoldable pub run_handler : List H → ℕ → Vars → Dispatch H
  run_handler handlers index vars = elim (get_elem? handlers index) [
    | none ↦ no_handler
    | some h ↦ invoke index h vars
  ]

  unfoldable pub after_match : List H → Answer × Vars → Dispatch H
  after_match handlers (npos, vars) = unhandled
  after_match handlers (found i, vars) = run_handler handlers i vars
  after_match handlers (failed, vars) = assertion

  unfoldable pub dispatch_route : Method → Bytes → HttpRouter H → Dispatch H
  unfolding after_match run_handler
  dispatch_route m path r = after_match r.handlers (match m r.root_node path [])

-- A call of `add_route` with a path given by its levels.
pub record Route (H : Type 0) : Type 0 where
  pub method : Method
  pub levels : List Bytes
  pub handler : H

-- The new nodes of each call have memory of their own.
module _ {H : Type 0} (memory : ℕ → ℕ → Memory) where
  unfoldable pub register : HttpRouter H → List (Route H) → Inserted (HttpRouter H)
  register r [] = ok r
  register r (x ∷ xs) = elim (add_route memory x.method (path_of x.levels) x.handler r) [
    | ok r' ↦ register r' xs
    | aborted ↦ aborted
    | out_of_fuel ↦ out_of_fuel
  ]

abbrev pub AllProper : {H : Type 0} → List (Route H) → Type 0
AllProper [] = Unit {0}
AllProper (x ∷ xs) = AllLevels x.levels × AllProper xs

-- Every route of the list is in the tree.
abbrev pub AllRouted : {H : Type 0} → List (Route H) → Node → Type 0
AllRouted [] n = Unit {0}
AllRouted (x ∷ xs) n = Routed x.method (map parse_level x.levels) n × AllRouted xs n

abbrev pub AllOf : {H : Type 0} → Method → List (Route H) → Type 0
AllOf m [] = Unit {0}
AllOf m (x ∷ xs) = (x.method ≡ m) × AllOf m xs

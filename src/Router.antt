-- ===== src/Router.antt =====
-- src/httprouter.cc and src/httprouter.h: the tree of routes, `insert_path` and `match`.
-- A path is its bytes. A constructor that leaves members uninitialised takes them from `Memory`.
pub mod Level
pub mod Methods
pub mod Routes
pub mod Bits
pub mod Paths
pub mod Adding
pub mod Complete
pub mod Table
pub mod Indexed
pub mod Found
pub mod AddRoutes
pub mod Registered
pub mod Vars
mod Tests
use harmony_http.Prelude.{
  ℕ, zero, suc, ◌+◌, ◌*◌, ◌/◌, ◌%◌, ◌^◌, ◌≡◌, List, [], ◌∷◌, ◌++◌, Bool, true, false, ◌&&◌, ◌||◌,
  not, ◌==◌, if◌then◌else◌, length, set, get_or, take, drop, Bytes, codes, bytes_eq,
}
use harmony_http.Router.Level.{
  Kind, root, constant, NodeData, parse_level, data_eq, fits, captures, starts_slash, split_path,
}

-- `enum class HttpMethod`, in its order.
pub data Method : Type 0 where
  get post put head patch delete options : Method

abbrev pub number : Method → ℕ
number get = 0
number post = 1
number put = 2
number head = 3
number patch = 4
number delete = 5
number options = 6

-- `methods & (1 << m)` and `methods | (1 << m)`.
unfoldable pub has_bit : ℕ → ℕ → Bool
has_bit x m = (x / 2 ^ m) % 2 == 1

unfoldable pub or_bit : ℕ → ℕ → ℕ
unfolding has_bit
or_bit x m = if has_bit x m then x else x + 2 ^ m

-- RouteNode, and the vector of its children.
mutual
  pub data Node : Type 0 where
    node : NodeData → Bool → ℕ → List ℕ → Nodes → Node

  pub data Nodes : Type 0 where
    nil : Nodes
    cons : Node → Nodes → Nodes

-- The bytes that `methods` and `route_index` of a node hold before anything is written to them.
pub record Memory : Type 0 where
  pub methods : ℕ
  pub route_index : List ℕ

abbrev pub data_of : Node → NodeData
data_of (node d terminal methods index children) = d

-- `insert_path` ends with a tree, or in a failed assertion.
pub data Inserted {ℓ} (A : Type ℓ) : Type ℓ where
  ok : A → Inserted A
  aborted : Inserted A
  out_of_fuel : Inserted A

abbrev pub map_insert : {A B : Type 0} → (A → B) → Inserted A → Inserted B
map_insert f (ok a) = ok (f a)
map_insert f aborted = aborted
map_insert f out_of_fuel = out_of_fuel

module _ (memory : Memory) where
  -- RouteNode::RouteNode, and the node that `emplace_back(new_data)` makes.
  abbrev pub empty_root : Node
  empty_root = node (record { kind = root; label = [] }) false memory.methods memory.route_index nil

  abbrev pub fresh : NodeData → Node
  fresh d = node d false memory.methods memory.route_index nil

module _ (m : Method) (handler_index : ℕ) where
  -- `route_index[m] = handler_index`, into an array of uint16_t.
  abbrev pub store : List ℕ → List ℕ
  store index = set index (number m) (handler_index % 2 ^ 16)

  -- The end of a route at a child that was there, and at one just made.
  unfoldable pub mark : Node → Node
  mark (node d terminal methods index children) =
      node d true (or_bit methods (number m)) (store index) children

  unfoldable pub mark_new : Node → Node
  mark_new (node d terminal methods index children) =
      node d true (2 ^ number m) (store index) children

-- `std::find` over the children, then the branch for a new child or for the one found.
unfoldable pub place : NodeData → (Node → Inserted Node) → Inserted Node → Nodes → Inserted Nodes
place d old new nil = map_insert (λ c. cons c nil) new
place d old new (cons c cs) =
    let rest = map_insert (cons c) (place d old new cs) in
    if data_eq (data_of c) d then map_insert (λ c'. cons c' cs) (old c) else rest

-- A level may be empty at the root only.
abbrev pub only_root : Kind → Node → Inserted Node
only_root root n = ok n
only_root _ n = aborted

module _ (memory : Memory) (m : Method) (handler_index : ℕ) where
  -- The branch for a child that was found, and that for a child just made.
  abbrev pub reach_old : Bool → (Node → Inserted Node) → Node → Inserted Node
  reach_old is_terminal descend c = if is_terminal then ok (mark m handler_index c) else descend c

  abbrev pub reach_new : Bool → (Node → Inserted Node) → NodeData → Inserted Node
  reach_new is_terminal descend d =
      if is_terminal
      then ok (mark_new m handler_index (fresh memory d))
      else descend (fresh memory d)

  -- `insert_path` below its assertion; `descend` is the recursive call on `next_path`.
  unfoldable pub insert_level : (Node → Inserted Node) → Bytes → Bytes → Node → Inserted Node
  insert_level descend [] next (node d terminal methods index children) =
      only_root d.kind
        (node d true (or_bit methods (number m)) (store m handler_index index) children)
  insert_level descend (x ∷ xs) next (node d terminal methods index children) =
      let new_data = parse_level (x ∷ xs) in
      let is_terminal = bytes_eq next (codes "/") in
      map_insert (node d terminal (or_bit methods (number m)) index) (
        place new_data (reach_old is_terminal descend) (reach_new is_terminal descend new_data)
          children)

-- A call makes at most one node on each level, in memory of its own: `memory` gives it by the fuel.
module _ (memory : ℕ → Memory) (m : Method) (handler_index : ℕ) where
  unfoldable pub insert_path : ℕ → Bytes → Node → Inserted Node
  insert_path zero path n = out_of_fuel
  insert_path (suc fuel) path n =
      let (level, next) = split_path path in
      let inserted =
        insert_level (memory fuel) m handler_index (insert_path fuel next) level next n in
      if starts_slash path then inserted else aborted

-- What `match` returns: `RouteNode::npos`, a handler's index, or a failed assertion.
pub data Answer : Type 0 where
  npos : Answer
  found : ℕ → Answer
  failed : Answer

abbrev pub Vars : Type 0
Vars = List Bytes

-- `vars.pop_back()`
unfoldable pub pop_back : Vars → Vars
pop_back [] = []
pop_back (v ∷ []) = []
pop_back (v ∷ w ∷ vs) = v ∷ pop_back (w ∷ vs)

-- The end of `match`: the node's own handler, or giving up.
unfoldable pub at_node : Method → Bool → List ℕ → Kind → Vars → Answer × Vars
at_node m true index kind vars = (found (get_or index (number m) 0), vars)
at_node m false index kind vars = (npos, if captures kind then pop_back vars else vars)

-- The loop over the children goes on after `npos` only.
unfoldable pub or_else : Answer × Vars → (Vars → Answer × Vars) → Answer × Vars
or_else (npos, vars) k = k vars
or_else (found i, vars) k = (found i, vars)
or_else (failed, vars) k = (failed, vars)

-- A root passes the whole path on to its children.
abbrev pub next_of : Kind → Bytes → Bytes → Bytes
next_of root path rest = path
next_of _ path rest = rest

-- `match` after the test of the method: the level against the node, then the children.
unfoldable pub match_level :
    Method
    → NodeData
    → Bool
    → List ℕ
    → (Bytes → Vars → Answer × Vars)
    → Bytes
    → Vars
    → Answer × Vars
match_level m d terminal index children path vars =
    let (level, rest) = split_path path in
    let next = next_of d.kind path rest in
    let vars' = if captures d.kind then vars ++ level ∷ [] else vars in
    let deeper = or_else (children next vars') (at_node m terminal index d.kind) in
    if not (fits d level)
    then (npos, vars)
    else if bytes_eq next (codes "/")
    then at_node m terminal index d.kind vars'
    else deeper

unfoldable mutual
  pub match : Method → Node → Bytes → Vars → Answer × Vars
  match m (node d terminal methods index children) path vars =
      if not (has_bit methods (number m))
      then (npos, vars)
      else if starts_slash path
      then match_level m d terminal index (match_children m children) path vars
      else (failed, vars)

  pub match_children : Method → Nodes → Bytes → Vars → Answer × Vars
  match_children m nil path vars = (npos, vars)
  match_children m (cons c cs) path vars = or_else (match m c path vars) (match_children m cs path)

-- ===== src/Router/Routes.antt =====
-- src/httprouter.cc: which routes a tree holds, before and after `insert_path`.
use harmony_http.Prelude.{
  ℕ, zero, suc, ◌≡◌, refl, List, [], ◌∷◌, Bytes, Bool, true, false, Bool-cases, inl, inr, codes,
  bytes_eq,
}
use mathlib.Core.Path.{subst}
use harmony_http.Router.{
  Method, Node, node, Nodes, cons, number, has_bit, or_bit, Memory, data_of, Inserted, ok, aborted,
  out_of_fuel, map_insert, store, mark, place, reach_old, reach_new, insert_level, insert_path,
  only_root,
}
use harmony_http.Router.Level.{Kind, root, NodeData, data_eq, parse_level, split_path, starts_slash}
use harmony_http.Router.Bits.{has_bit-or_bit_keep}

pub data Child (c : Node) : Nodes → Type 0 where
  here : (cs : Nodes) → Child c (cons c cs)
  there : (b : Node) {cs : Nodes} → Child c cs → Child c (cons b cs)

-- The tree below a node has a way down the levels `ds` to the end of a route of method `m`, and
-- every node on the way has the bit of `m`.
pub data Routed (m : Method) : List NodeData → Node → Type 0 where
  stop :
      (d : NodeData) (methods : ℕ) (index : List ℕ) (cs : Nodes)
      → has_bit methods (number m) ≡ true
      → Routed m [] (node d true methods index cs)
  step :
      (d : NodeData) (terminal : Bool) (methods : ℕ) (index : List ℕ) {cs : Nodes} {c : Node}
      {ds : List NodeData}
      → has_bit methods (number m) ≡ true
      → Child c cs
      → Routed m ds c
      → Routed m (data_of c ∷ ds) (node d terminal methods index cs)

-- A change of a node that loses no route.
pub record Keeps (n n' : Node) : Type 0 where
  pub same_data : data_of n' ≡ data_of n
  pub routes : (k : Method) (ds : List NodeData) → Routed k ds n → Routed k ds n'

pub Keeps-refl : (n : Node) → Keeps n n
Keeps-refl n = record { same_data = refl; routes = λ k ds r. r }

pub map_insert_inv :
    {A B : Type 0} (f : A → B) (r : Inserted A) {b : B}
    → map_insert f r ≡ ok b
    → (a : A) × (r ≡ ok a) × (f a ≡ b)
map_insert_inv f (ok a) h = (a, refl, cc)
map_insert_inv f aborted h = cc
map_insert_inv f out_of_fuel h = cc

-- Every child has its successor among the children after `place`.
place-Keeps :
    (d : NodeData) (old : Node → Inserted Node) (new : Inserted Node) {c : Node} {cs cs' : Nodes}
    → ((a b : Node) → old a ≡ ok b → Keeps a b)
    → Child c cs
    → place d old new cs ≡ ok cs'
    → (c' : Node) × Child c' cs' × Keeps c c'
unfolding place
place-Keeps d old new {c} {cs' = cs'} h (here cs) e = elim (Bool-cases (data_eq (data_of c) d)) [
  | inl same ↦
      let (c', made, eq) = map_insert_inv (λ x. cons x cs) (old c) (rw same at e) in
      (c', subst (Child c') eq (here cs), h c c' made)
  | inr other ↦
      let (tail, made, eq) = map_insert_inv (cons c) (place d old new cs) (rw other at e) in
      (c, subst (Child c) eq (here tail), Keeps-refl c)
]
place-Keeps d old new {c} {cs' = cs'} h (there b {cs} ch) e =
    elim (Bool-cases (data_eq (data_of b) d)) [
      | inl same ↦
          let (b', made, eq) = map_insert_inv (λ x. cons x cs) (old b) (rw same at e) in
          (c, subst (Child c) eq (there b' ch), Keeps-refl c)
      | inr other ↦
          let (tail, made, eq) = map_insert_inv (cons b) (place d old new cs) (rw other at e) in
          let (c', ch', k) = place-Keeps d old new h ch made in
          (c', subst (Child c') eq (there b ch'), k)
    ]

-- A node that is at least as terminal, at least as open, and whose children are kept.
routes-node :
    (d : NodeData) (t t' : Bool) (ms ms' : ℕ) (ix ix' : List ℕ) (cs cs' : Nodes)
    → (t ≡ true → t' ≡ true)
    → ((k : Method) → has_bit ms (number k) ≡ true → has_bit ms' (number k) ≡ true)
    → ((c : Node) → Child c cs → (c' : Node) × Child c' cs' × Keeps c c')
    → (k : Method) (ds : List NodeData) → Routed k ds (node d t ms ix cs)
    → Routed k ds (node d t' ms' ix' cs')
routes-node d t t' ms ms' ix ix' cs cs' ht hm hc k ds (stop _ _ _ _ bit) =
    rw (ht refl) (stop d ms' ix' cs' (hm k bit))
routes-node d t t' ms ms' ix ix' cs cs' ht hm hc k ds (step _ _ _ _ {c = c} {ds = es} bit ch r) =
    let (c', ch', keeps) = hc c ch in
    rw (← keeps.same_data) (step d t' ms' ix' (hm k bit) ch' (keeps.routes k es r))

node-Keeps :
    (d : NodeData) (t t' : Bool) (ms ms' : ℕ) (ix ix' : List ℕ) (cs cs' : Nodes)
    → (t ≡ true → t' ≡ true)
    → ((k : Method) → has_bit ms (number k) ≡ true → has_bit ms' (number k) ≡ true)
    → ((c : Node) → Child c cs → (c' : Node) × Child c' cs' × Keeps c c')
    → Keeps (node d t ms ix cs) (node d t' ms' ix' cs')
node-Keeps d t t' ms ms' ix ix' cs cs' ht hm hc = record {
  same_data = refl;
  routes = routes-node d t t' ms ms' ix ix' cs cs' ht hm hc;
}

unchanged : (cs : Nodes) (c : Node) → Child c cs → (c' : Node) × Child c' cs × Keeps c c'
unchanged cs c ch = (c, ch, Keeps-refl c)

mark-Keeps : (m : Method) (h : ℕ) (n : Node) → Keeps n (mark m h n)
unfolding mark
mark-Keeps m h (node d t ms ix cs) =
    node-Keeps d t true ms (or_bit ms (number m)) ix (store m h ix) cs cs (λ _. refl)
      (λ k. has_bit-or_bit_keep k m ms) (unchanged cs)

only_root_inv : (k : Kind) (n n' : Node) → only_root k n ≡ ok n' → n ≡ n'
only_root_inv root n n' e = cc
only_root_inv _ n n' e = cc

reach_old-Keeps :
    (memory : Memory) (m : Method) (h : ℕ) (last : Bool) (descend : Node → Inserted Node)
    → ((a b : Node) → descend a ≡ ok b → Keeps a b)
    → (a b : Node) → reach_old memory m h last descend a ≡ ok b
    → Keeps a b
reach_old-Keeps memory m h true descend keep a b e =
    let same : mark m h a ≡ b = cc in subst (Keeps a) same (mark-Keeps m h a)
reach_old-Keeps memory m h false descend keep a b e = keep a b e

insert_level-Keeps :
    (memory : Memory) (m : Method) (h : ℕ) (descend : Node → Inserted Node) (level next : Bytes)
    (n n' : Node)
    → ((a b : Node) → descend a ≡ ok b → Keeps a b)
    → insert_level memory m h descend level next n ≡ ok n'
    → Keeps n n'
unfolding insert_level
insert_level-Keeps memory m h descend [] next (node d t ms ix cs) n' keep e =
    subst (Keeps (node d t ms ix cs)) (only_root_inv d.kind _ n' e) (
      node-Keeps d t true ms (or_bit ms (number m)) ix (store m h ix) cs cs (λ _. refl)
        (λ k. has_bit-or_bit_keep k m ms) (unchanged cs))
insert_level-Keeps memory m h descend (x ∷ xs) next (node d t ms ix cs) n' keep e =
    let new_data = parse_level (x ∷ xs) in
    let last = bytes_eq next (codes "/") in
    let old = reach_old memory m h last descend in
    let new = reach_new memory m h last descend new_data in
    let (cs', placed, eq) =
      map_insert_inv (node d t (or_bit ms (number m)) ix) (place new_data old new cs) e in
    subst (Keeps (node d t ms ix cs)) eq (
      node-Keeps d t t ms (or_bit ms (number m)) ix ix cs cs' (λ p. p)
        (λ k. has_bit-or_bit_keep k m ms)
        (λ c ch.
          place-Keeps new_data old new (reach_old-Keeps memory m h last descend keep) ch placed))

not_ok : {n : Node} → aborted ≡ ok n → ⊥
not_ok e = cc

pub insert_path-Keeps :
    (memory : ℕ → Memory) (m : Method) (h fuel : ℕ) (path : Bytes) (n n' : Node)
    → insert_path memory m h fuel path n ≡ ok n'
    → Keeps n n'
unfolding insert_path
insert_path-Keeps memory m h zero path n n' e = cc
insert_path-Keeps memory m h (suc fuel) path n n' e = elim (Bool-cases (starts_slash path)) [
  | inr bad ↦ absurd (not_ok (rw bad at e))
  | inl good ↦
      let (level, next) = split_path path in
      insert_level-Keeps (memory fuel) m h (insert_path memory m h fuel next) level next n n'
        (insert_path-Keeps memory m h fuel next) (rw good at e)
]

-- Where `insert_path` ends with a tree, it holds every route that the tree before held, whatever
-- the method, path and handler.
pub insert_path-Routed_keep :
    (memory : ℕ → Memory) (m : Method) (h fuel : ℕ) (path : Bytes) (n n' : Node) (k : Method)
    (ds : List NodeData)
    → insert_path memory m h fuel path n ≡ ok n'
    → Routed k ds n
    → Routed k ds n'
insert_path-Routed_keep memory m h fuel path n n' k ds e =
    (insert_path-Keeps memory m h fuel path n n' e).routes k ds

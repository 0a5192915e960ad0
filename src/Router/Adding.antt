-- ===== src/Router/Adding.antt =====
-- src/httprouter.cc: `insert_path` of a route with proper levels.
use mathlib.Core.Path.{subst}
use mathlib.Core.Bool.{and-eq-true_iff}
use harmony_http.Prelude.{
  ℕ, zero, suc, ◌^◌, ◌<◌, ◌≡◌, refl, ap, ◌∙◌, arith, List, [], ◌∷◌, Bytes, true, false, Bool-cases,
  inl, inr, codes, bytes_eq, bytes_eq_sound, map, length,
}
use harmony_http.Router.{
  Method, Node, node, Nodes, nil, cons, number, or_bit, Memory, data_of, Inserted, ok, fresh, store,
  mark, mark_new, place, reach_old, reach_new, insert_level, insert_path,
}
use harmony_http.Router.Level.{
  Kind, root, constant, param_int, param_float, param_string, NodeData, same_kind, data_eq,
  parse_level,
}
use harmony_http.Router.Bits.{has_bit-or_bit, has_bit-one}
use harmony_http.Router.Routes.{Child, here, there, Routed, stop, step}
use harmony_http.Router.Paths.{
  IsLevel, AllLevels, join, path_of, split_path-join, split_path-root, starts_slash-path_of,
  path_of-ne_root,
}

-- A level of a route never makes a root.
pub kind-parse_level : (l : Bytes) → same_kind (parse_level l).kind root ≡ false
unfolding parse_level
kind-parse_level l = ground arith

same_kind_sound : (j k : Kind) → same_kind j k ≡ true → j ≡ k
same_kind_sound root root h = refl
same_kind_sound constant constant h = refl
same_kind_sound param_int param_int h = refl
same_kind_sound param_float param_float h = refl
same_kind_sound param_string param_string h = refl
same_kind_sound _ _ h = cc

pub data_eq_sound : (a d : NodeData) → same_kind d.kind root ≡ false → data_eq a d ≡ true → a ≡ d
unfolding data_eq
data_eq_sound a d h e =
    let (kinds, rest) = (and-eq-true_iff _ _).0 e in
    let k = same_kind_sound a.kind d.kind kinds in
    let not_root : same_kind a.kind root ≡ false = ap (λ t. same_kind t root) k ∙ h in
    let l = bytes_eq_sound a.label d.label (rw not_root at rest) in
    λ i. record { kind = k i; label = l i }

-- The child that `place` makes or changes.
place-adds :
    (P : Node → Type 0) (d : NodeData) (old : Node → Inserted Node) (new : Inserted Node)
    (cs : Nodes)
    → ((c : Node) → data_eq (data_of c) d ≡ true → (c' : Node) × (old c ≡ ok c') × P c')
    → (c' : Node) × (new ≡ ok c') × P c'
    → (cs' : Nodes) × (place d old new cs ≡ ok cs') × ((c' : Node) × Child c' cs' × P c')
unfolding place
place-adds P d old new nil h (c', made, p) = (cons c' nil, rw made refl, (c', here nil, p))
place-adds P d old new (cons c cs) h k = elim (Bool-cases (data_eq (data_of c) d)) [
  | inl same ↦ let (c', made, p) = h c same in (cons c' cs, rw (same, made) refl, (c', here cs, p))
  | inr other ↦
      let (cs', made, (c', ch, p)) = place-adds P d old new cs h k in
      (cons c cs', rw (other, made) refl, (c', there c ch, p))
]

module _ (memory : Memory) (m : Method) (h : ℕ) where
  mark-Routed : (n : Node) → Routed m [] (mark m h n)
  unfolding mark
  mark-Routed (node d t ms ix cs) =
      stop d (or_bit ms (number m)) (store m h ix) cs (has_bit-or_bit m ms)

  mark_new-Routed : (n : Node) → Routed m [] (mark_new m h n)
  unfolding mark_new
  mark_new-Routed (node d t ms ix cs) = stop d (2 ^ number m) (store m h ix) cs (has_bit-one m)

  data_of-mark : (n : Node) → data_of (mark m h n) ≡ data_of n
  unfolding mark
  data_of-mark (node d t ms ix cs) = refl

  data_of-mark_new : (n : Node) → data_of (mark_new m h n) ≡ data_of n
  unfolding mark_new
  data_of-mark_new (node d t ms ix cs) = refl

  -- A node that is the child for `d` and holds the rest `ds` of the route.
  abbrev Reached : NodeData → List NodeData → Node → Type 0
  Reached d ds n = (data_of n ≡ d) × Routed m ds n

  -- A call ends with such a node.
  abbrev Reaches : NodeData → List NodeData → Inserted Node → Type 0
  Reaches d ds r = (b : Node) × (r ≡ ok b) × Reached d ds b

  last_old :
      (d : NodeData) (descend : Node → Inserted Node) (a : Node)
      → data_of a ≡ d
      → Reaches d [] (reach_old memory m h true descend a)
  last_old d descend a e = (mark m h a, refl, (data_of-mark a ∙ e, mark-Routed a))

  last_new :
      (d : NodeData) (descend : Node → Inserted Node)
      → Reaches d [] (reach_new memory m h true descend d)
  last_new d descend =
      let a = fresh memory d in (mark_new m h a, refl, (data_of-mark_new a, mark_new-Routed a))

  insert_level-Routed :
      (descend : Node → Inserted Node) (c : ℕ) (l next : Bytes) (ds : List NodeData) (n : Node)
      → ((a : Node)
          → data_of a ≡ parse_level (c ∷ l)
          → Reaches
              (parse_level (c ∷ l))
              ds
              (reach_old memory m h (bytes_eq next (codes "/")) descend a))
      → Reaches
          (parse_level (c ∷ l))
          ds
          (reach_new memory m h (bytes_eq next (codes "/")) descend (parse_level (c ∷ l)))
      → (n' : Node) × (insert_level memory m h descend (c ∷ l) next n ≡ ok n')
        × (data_of n' ≡ data_of n)
        × Routed m (parse_level (c ∷ l) ∷ ds) n'
  unfolding insert_level
  insert_level-Routed descend c l next ds (node d t ms ix cs) old_ok new_ok =
      let nd = parse_level (c ∷ l) in
      let last = bytes_eq next (codes "/") in
      let ms' = or_bit ms (number m) in
      let (cs', placed, (c', ch, (same, r))) =
        place-adds (Reached nd ds) nd (reach_old memory m h last descend)
          (reach_new memory m h last descend nd) cs
          (λ a e. old_ok a (data_eq_sound (data_of a) nd (kind-parse_level (c ∷ l)) e)) new_ok in
      (
        node d t ms' ix cs',
        rw placed refl,
        refl,
        subst (λ x. Routed m (x ∷ ds) (node d t ms' ix cs')) same
            (step d t ms' ix (has_bit-or_bit m ms) ch r),
      )

module _ (memory : ℕ → Memory) (m : Method) (h : ℕ) where
  -- A path of one or more levels, at any node.
  insert_levels :
      (ls : List Bytes) (l : Bytes) (fuel : ℕ) (n : Node)
      → IsLevel l
      → AllLevels ls
      → length ls < fuel
      → (n' : Node) × (insert_path memory m h fuel (join (l ∷ ls)) n ≡ ok n')
        × (data_of n' ≡ data_of n)
        × Routed m (map parse_level (l ∷ ls)) n'
  unfolding insert_path
  insert_levels ls l zero n p ps f = absurd (omega arith)
  insert_levels ls [] (suc fuel) n p ps f = absurd p
  insert_levels [] (c ∷ l) (suc fuel) n p ps f =
      rw (split_path-join (c ∷ l) [] p, starts_slash-path_of ((c ∷ l) ∷ []))
        (unfold bytes_eq in
          insert_level-Routed (memory fuel) m h (insert_path memory m h fuel (codes "/")) c l
            (codes "/") [] n
            (last_old (memory fuel) m h (parse_level (c ∷ l))
              (insert_path memory m h fuel (codes "/")))
            (last_new (memory fuel) m h (parse_level (c ∷ l))
              (insert_path memory m h fuel (codes "/"))))
  insert_levels (k ∷ ks) (c ∷ l) (suc fuel) n p (q, qs) f =
      let nd = parse_level (c ∷ l) in
      let next = path_of (k ∷ ks) in
      let more = path_of-ne_root k ks q in
      let smaller : length ks < fuel = omega arith in
      rw (split_path-join (c ∷ l) (k ∷ ks) p, starts_slash-path_of ((c ∷ l) ∷ k ∷ ks))
        (insert_level-Routed (memory fuel) m h (insert_path memory m h fuel next) c l next
          (map parse_level (k ∷ ks)) n
          (λ a e.
            let (b, made, same, r) = insert_levels ks k fuel a q qs smaller in
            rw more (b, made, (same ∙ e, r)))
          (let (b, made, same, r) = insert_levels ks k fuel (fresh (memory fuel) nd) q qs smaller in
            rw more (b, made, (same, r))))

  -- The route "/" ends at the root itself.
  insert_root :
      (fuel : ℕ) (n : Node)
      → 0 < fuel
      → (data_of n).kind ≡ root
      → (n' : Node) × (insert_path memory m h fuel (codes "/") n ≡ ok n')
        × (data_of n' ≡ data_of n)
        × Routed m [] n'
  unfolding insert_path insert_level
  insert_root zero n f e = absurd (omega arith)
  insert_root (suc fuel) (node d t ms ix cs) f e = (
    node d true (or_bit ms (number m)) (store m h ix) cs,
    rw (split_path-root, starts_slash-path_of []) (rw e refl),
    refl,
    stop d (or_bit ms (number m)) (store m h ix) cs (has_bit-or_bit m ms),
  )

  -- At a root, with fuel above the number of levels, every path of levels that are non-empty and
  -- hold no slash is inserted; the root keeps its data, and the tree then holds the route.
  pub insert_path-Routed :
      (ls : List Bytes) (fuel : ℕ) (n : Node)
      → AllLevels ls
      → length ls < fuel
      → (data_of n).kind ≡ root
      → (n' : Node) × (insert_path memory m h fuel (path_of ls) n ≡ ok n')
        × (data_of n' ≡ data_of n)
        × Routed m (map parse_level ls) n'
  insert_path-Routed [] fuel n ps f e = insert_root fuel n f e
  insert_path-Routed (l ∷ ls) fuel n (p, ps) f e = insert_levels ls l fuel n p ps (omega arith)

-- ===== src/Router/Indexed.antt =====
-- src/httprouter.cc: the handler indices in a tree whose routes are all of one method.
use mathlib.Core.Path.{subst}
use harmony_http.Prelude.{
  ℕ, zero, suc, ◌%◌, ◌^◌, ◌<◌, ◌≡◌, refl, sym, ap, ◌∙◌, arith, List, [], ◌∷◌, ◌++◌, append_assoc,
  Bytes, Bool, true, false, Bool-cases, inl, inr, codes, bytes_eq, set, get_or, map, length,
  length-set,
}
use harmony_http.Router.{
  Method, get, post, put, head, patch, delete, options, number, Node, Nodes, node, nil, cons,
  Memory, Inserted, ok, aborted, out_of_fuel, map_insert, data_of, fresh, store, mark, mark_new,
  place, reach_old, reach_new, insert_level, insert_path, or_bit,
}
use harmony_http.Router.Level.{root, NodeData, same_kind, data_eq, parse_level}
use harmony_http.Router.Adding.{kind-parse_level, data_eq_sound}
use harmony_http.Router.Paths.{
  IsLevel, AllLevels, join, path_of, split_path-join, split_path-root, starts_slash-path_of,
  path_of-ne_root,
}

number-lt : (m : Method) → number m < 8
number-lt get = omega arith
number-lt post = omega arith
number-lt put = omega arith
number-lt head = omega arith
number-lt patch = omega arith
number-lt delete = omega arith
number-lt options = omega arith

get_or-set_same : (l : List ℕ) (i v : ℕ) → i < length l → get_or (set l i v) i 0 ≡ v
get_or-set_same [] i v h = absurd (omega arith)
get_or-set_same (x ∷ l) zero v h = refl
get_or-set_same (x ∷ l) (suc i) v h = get_or-set_same l i v (omega arith)

-- `P ds i` says that `i` may be the index of a route with the levels `ds`.
module _ (m : Method) (P : List NodeData → ℕ → Type 0) where
  abbrev pub Own : List NodeData → Bool → List ℕ → Type 0
  Own pre true index = P pre (get_or index (number m) 0)
  Own pre false index = Unit {0}

  -- Below the levels `pre`: a terminal node has the index of a route that ends there, and no node
  -- but the root of the tree is a root.
  unfoldable mutual
    pub Indexed : List NodeData → Node → Type 0
    Indexed pre (node d terminal methods index children) =
        (length index ≡ 8) × Own pre terminal index × AllIndexed pre children

    pub AllIndexed : List NodeData → Nodes → Type 0
    AllIndexed pre nil = Unit {0}
    AllIndexed pre (cons c cs) =
        (same_kind (data_of c).kind root ≡ false)
        × Indexed (pre ++ data_of c ∷ []) c
        × AllIndexed pre cs

  abbrev Result : NodeData → List NodeData → Inserted Node → Type 0
  unfolding Indexed
  Result d pre (ok n) = (data_of n ≡ d) × Indexed pre n
  Result d pre _ = Unit {0}

  abbrev Results : List NodeData → Inserted Nodes → Type 0
  unfolding Indexed
  Results pre (ok cs) = AllIndexed pre cs
  Results pre _ = Unit {0}

  first-Results :
      (d : NodeData) (pre : List NodeData) (r : Inserted Node) (cs : Nodes)
      → same_kind d.kind root ≡ false
      → Result d (pre ++ d ∷ []) r
      → AllIndexed pre cs
      → Results pre (map_insert (λ c. cons c cs) r)
  unfolding Indexed Result Results
  first-Results d pre (ok c) cs inner (same, i) all = (
    ap (λ x. same_kind x.kind root) same ∙ inner,
    subst (λ x. Indexed (pre ++ x ∷ []) c) (sym same) i,
    all,
  )
  first-Results d pre aborted cs inner i all = tt
  first-Results d pre out_of_fuel cs inner i all = tt

  others-Results :
      (pre : List NodeData) (r : Inserted Nodes) (c : Node)
      → Results pre r
      → (same_kind (data_of c).kind root ≡ false) × Indexed (pre ++ data_of c ∷ []) c
      → Results pre (map_insert (cons c) r)
  unfolding Indexed Results
  others-Results pre (ok cs) c all (inner, i) = (inner, i, all)
  others-Results pre aborted c all i = tt
  others-Results pre out_of_fuel c all i = tt

  parent-Result :
      (pre : List NodeData) (r : Inserted Nodes) (d : NodeData) (t : Bool) (ms : ℕ) (ix : List ℕ)
      → Results pre r
      → (length ix ≡ 8) × Own pre t ix
      → Result d pre (map_insert (node d t ms ix) r)
  unfolding Indexed Result Results
  parent-Result pre (ok cs) d t ms ix all (size, own) = (refl, (size, own, all))
  parent-Result pre aborted d t ms ix all own = tt
  parent-Result pre out_of_fuel d t ms ix all own = tt

  place-Results :
      (pre : List NodeData) (d : NodeData) (old : Node → Inserted Node) (new : Inserted Node)
      (cs : Nodes)
      → same_kind d.kind root ≡ false
      → ((c : Node) → data_of c ≡ d → Indexed (pre ++ d ∷ []) c → Result d (pre ++ d ∷ []) (old c))
      → Result d (pre ++ d ∷ []) new
      → AllIndexed pre cs
      → Results pre (place d old new cs)
  unfolding place Indexed
  place-Results pre d old new nil inner h k all = first-Results d pre new nil inner k tt
  place-Results pre d old new (cons c cs) inner h k (kind, i, all) =
      elim (Bool-cases (data_eq (data_of c) d)) [
        | inl found ↦
            let same = data_eq_sound (data_of c) d inner found in
            rw found (
              first-Results d pre (old c) cs inner
                (h c same (subst (λ x. Indexed (pre ++ x ∷ []) c) same i)) all)
        | inr other ↦ rw other (
            others-Results pre (place d old new cs) c (place-Results pre d old new cs inner h k all)
              (kind, i))
      ]

  module _ (h : ℕ) where
    store-Own :
        (pre : List NodeData) (ix : List ℕ)
        → P pre (h % 2 ^ 16)
        → length ix ≡ 8
        → (length (store m h ix) ≡ 8) × Own pre true (store m h ix)
    store-Own pre ix p size = (
      length-set ix (number m) (h % 2 ^ 16) ∙ size,
      subst (P pre) (sym (get_or-set_same ix (number m) (h % 2 ^ 16) (omega (arith, number-lt m))))
          p,
    )

    mark-Result :
        (pre : List NodeData) (n : Node)
        → P pre (h % 2 ^ 16)
        → Indexed pre n
        → Result (data_of n) pre (ok (mark m h n))
    unfolding mark Indexed Result
    mark-Result pre (node d t ms ix cs) p (size, own, all) =
        let (size', own') = store-Own pre ix p size in (refl, (size', own', all))

    mark_new-Result :
        (pre : List NodeData) (n : Node)
        → P pre (h % 2 ^ 16)
        → Indexed pre n
        → Result (data_of n) pre (ok (mark_new m h n))
    unfolding mark_new Indexed Result
    mark_new-Result pre (node d t ms ix cs) p (size, own, all) =
        let (size', own') = store-Own pre ix p size in (refl, (size', own', all))

    insert_level-Result :
        (memory : Memory) (descend : Node → Inserted Node) (c : ℕ) (l next : Bytes)
        (pre : List NodeData) (n : Node)
        → let nd = parse_level (c ∷ l) in
          let last = bytes_eq next (codes "/") in
          ((a : Node)
            → data_of a ≡ nd
            → Indexed (pre ++ nd ∷ []) a
            → Result nd (pre ++ nd ∷ []) (reach_old memory m h last descend a))
          → Result nd (pre ++ nd ∷ []) (reach_new memory m h last descend nd)
          → Indexed pre n
          → Result (data_of n) pre (insert_level memory m h descend (c ∷ l) next n)
    unfolding insert_level Indexed
    insert_level-Result memory descend c l next pre (node d t ms ix cs) old new (size, own, all) =
        let nd = parse_level (c ∷ l) in
        let last = bytes_eq next (codes "/") in
        parent-Result pre
          (place nd (reach_old memory m h last descend) (reach_new memory m h last descend nd) cs) d
          t (or_bit ms (number m)) ix
          (place-Results pre nd (reach_old memory m h last descend)
            (reach_new memory m h last descend nd) cs (kind-parse_level (c ∷ l)) old new all)
          (size, own)

    module _ (memory : ℕ → Memory) (sized : (n : ℕ) → length (memory n).route_index ≡ 8) where
      fresh-Indexed :
          (n : ℕ) (pre : List NodeData) (d : NodeData) → Indexed pre (fresh (memory n) d)
      unfolding Indexed
      fresh-Indexed n pre d = (sized n, tt, tt)

      insert_levels-Result :
          (ls : List Bytes) (l : Bytes) (fuel : ℕ) (pre : List NodeData) (n : Node)
          → IsLevel l
          → AllLevels ls
          → P (pre ++ map parse_level (l ∷ ls)) (h % 2 ^ 16)
          → Indexed pre n
          → Result (data_of n) pre (insert_path memory m h fuel (join (l ∷ ls)) n)
      unfolding insert_path Result
      insert_levels-Result ls l zero pre n q qs p i = tt
      insert_levels-Result ls [] (suc fuel) pre n q qs p i = absurd q
      insert_levels-Result [] (c ∷ l) (suc fuel) pre n q qs p i =
          let nd = parse_level (c ∷ l) in
          let new =
            mark_new-Result (pre ++ nd ∷ []) (fresh (memory fuel) nd) p
              (fresh-Indexed fuel (pre ++ nd ∷ []) nd) in
          rw (split_path-join (c ∷ l) [] q, starts_slash-path_of ((c ∷ l) ∷ []))
            (insert_level-Result (memory fuel) (insert_path memory m h fuel (codes "/")) c l
              (codes "/") pre n
              (unfold bytes_eq in
                λ a e j. let (d, k) = mark-Result (pre ++ nd ∷ []) a p j in (d ∙ e, k))
              (unfold bytes_eq in new) i)
      insert_levels-Result (k ∷ ks) (c ∷ l) (suc fuel) pre n q (r, rs) p i =
          let nd = parse_level (c ∷ l) in
          let next = path_of (k ∷ ks) in
          let more = path_of-ne_root k ks r in
          let p' =
            subst (λ ds. P ds (h % 2 ^ 16))
              (sym (append_assoc pre (nd ∷ []) (map parse_level (k ∷ ks)))) p in
          let deeper = λ (a : Node) (j : Indexed (pre ++ nd ∷ []) a).
            insert_levels-Result ks k fuel (pre ++ nd ∷ []) a r rs p' j in
          rw (split_path-join (c ∷ l) (k ∷ ks) q, starts_slash-path_of ((c ∷ l) ∷ k ∷ ks))
            (insert_level-Result (memory fuel) (insert_path memory m h fuel next) c l next pre n
              (λ a e j. rw more (
                subst (λ x. Result x (pre ++ nd ∷ []) (insert_path memory m h fuel next a)) e
                  (deeper a j)))
              (rw more (deeper (fresh (memory fuel) nd) (fresh-Indexed fuel (pre ++ nd ∷ []) nd)))
              i)

      insert_root-Result :
          (fuel : ℕ) (n : Node)
          → P [] (h % 2 ^ 16)
          → (data_of n).kind ≡ root
          → Indexed [] n
          → Result (data_of n) [] (insert_path memory m h fuel (codes "/") n)
      unfolding insert_path insert_level Indexed Result
      insert_root-Result zero n p e i = tt
      insert_root-Result (suc fuel) (node d t ms ix cs) p e (size, own, all) =
          let (size', own') = store-Own [] ix p size in
          rw (split_path-root, starts_slash-path_of []) (rw e (refl, (size', own', all)))

      -- A route inserted at the root, whose index may be its own, keeps the tree as it is to be.
      pub insert_path-Indexed :
          (ls : List Bytes) (fuel : ℕ) (n n' : Node)
          → AllLevels ls
          → P (map parse_level ls) (h % 2 ^ 16)
          → (data_of n).kind ≡ root
          → insert_path memory m h fuel (path_of ls) n ≡ ok n'
          → Indexed [] n
          → Indexed [] n'
      unfolding Result
      insert_path-Indexed [] fuel n n' qs p e made i =
          (subst (Result (data_of n) []) made (insert_root-Result fuel n p e i)).1
      insert_path-Indexed (l ∷ ls) fuel n n' (q, qs) p e made i =
          (subst (Result (data_of n) []) made (insert_levels-Result ls l fuel [] n q qs p i)).1

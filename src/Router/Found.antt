-- ===== src/Router/Found.antt =====
-- src/httprouter.cc: what the index that `match` finds says of the request.
use mathlib.Core.Path.{subst}
use harmony_http.Prelude.{
  ℕ, ◌≡◌, sym, List, [], ◌∷◌, ◌++◌, append_assoc, append-nil, Bytes, Bool, true, false, Bool-cases,
  inl, inr, codes, bytes_eq, get_or, if◌then◌else◌,
}
use harmony_http.Router.{
  Method, number, Node, Nodes, node, nil, cons, data_of, has_bit, Answer, npos, found, failed, Vars,
  at_node, or_else, match_level, match, match_children,
}
use harmony_http.Router.Level.{root, Kind, NodeData, same_kind, fits}
use harmony_http.Router.Indexed.{Own, Indexed, AllIndexed}
use harmony_http.Router.Complete.{next_of-child, next_of-root, fits-root}
use harmony_http.Router.Paths.{
  IsLevel, AllLevels, NoSlash-IsLevel, join, path_of, split_path-join, split_path-root,
  starts_slash-path_of, path_of-ne_root,
}

-- The levels of a route fit the first levels of a request.
abbrev pub FitsFront : List NodeData → List Bytes → Type 0
FitsFront [] ls = Unit {0}
FitsFront (d ∷ ds) [] = ⊥
FitsFront (d ∷ ds) (l ∷ ls) = (fits d l ≡ true) × FitsFront ds ls

module _ (m : Method) (P : List NodeData → ℕ → Type 0) where
  -- Below the levels `pre`, with the levels `ls` of the request left: no assertion fails, and an
  -- index that is found is that of a route that goes on with levels that fit.
  abbrev pub Found : List NodeData → List Bytes → Answer → Type 0
  Found pre ls npos = Unit {0}
  Found pre ls (found i) = (ds : List NodeData) × P (pre ++ ds) i × FitsFront ds ls
  Found pre ls failed = ⊥

  or_else-Found :
      (pre : List NodeData) (ls : List Bytes) (r : Answer × Vars) (k : Vars → Answer × Vars)
      → Found pre ls r.0
      → ((v : Vars) → Found pre ls (k v).0)
      → Found pre ls (or_else r k).0
  unfolding or_else
  or_else-Found pre ls (npos, v) k h g = g v
  or_else-Found pre ls (found i, v) k h g = h
  or_else-Found pre ls (failed, v) k h g = h

  at_node-Found :
      (pre : List NodeData) (t : Bool) (ix : List ℕ) (k : Kind) (v : Vars)
      → Own m P pre t ix
      → Found pre [] (at_node m t ix k v).0
  unfolding at_node
  at_node-Found pre true ix k v own =
      ([], subst (λ ds. P ds (get_or ix (number m) 0)) (sym (append-nil pre)) own, tt)
  at_node-Found pre false ix k v own = tt

  -- What is found below a level that fits is found at the level.
  Found-level :
      (pre : List NodeData) (d : NodeData) (l : Bytes) (ls : List Bytes) (a : Answer)
      → fits d l ≡ true
      → Found (pre ++ d ∷ []) ls a
      → Found pre (l ∷ ls) a
  Found-level pre d l ls npos fit f = tt
  Found-level pre d l ls (found i) fit (ds, p, front) =
      (d ∷ ds, subst (λ x. P x i) (append_assoc pre (d ∷ []) ds) p, (fit, front))
  Found-level pre d l ls failed fit f = f

  -- A terminal node answers for whatever is left.
  Found-front :
      (pre : List NodeData) (ls : List Bytes) (a : Answer) → Found pre [] a → Found pre ls a
  Found-front pre ls npos f = tt
  Found-front pre ls (found i) ([], p, front) = ([], p, tt)
  Found-front pre ls (found i) (d ∷ ds, p, front) = absurd front
  Found-front pre ls failed f = f

  -- The levels behind the first, at the children.
  abbrev Deeper : List NodeData → (Bytes → Vars → Answer × Vars) → Type 0
  Deeper pre children =
      (k : Bytes) (ks : List Bytes) (v : Vars)
      → IsLevel k
      → AllLevels ks
      → Found pre (k ∷ ks) (children (join (k ∷ ks)) v).0

  match_level-Found :
      (pre : List NodeData) (d : NodeData) (t : Bool) (ix : List ℕ)
      (children : Bytes → Vars → Answer × Vars) (l : Bytes) (ls : List Bytes) (v : Vars)
      → same_kind d.kind root ≡ false
      → IsLevel l
      → AllLevels ls
      → Own m P (pre ++ d ∷ []) t ix
      → Deeper (pre ++ d ∷ []) children
      → Found pre (l ∷ ls) (match_level m d t ix children (join (l ∷ ls)) v).0
  unfolding match_level
  match_level-Found pre d t ix children l ls v inner p ps own deeper =
      elim (Bool-cases (fits d l)) [
        | inr other ↦ rw (split_path-join l ls (NoSlash-IsLevel l p), other) tt
        | inl fit ↦
            rw
              (
                split_path-join l ls (NoSlash-IsLevel l p),
                fit,
                next_of-child d.kind (join (l ∷ ls)) (path_of ls) inner,
              )
              (Found-level pre d l ls _ fit (rest ls ps _))
      ]
    where
      rest :
          (ls' : List Bytes)
          → AllLevels ls'
          → (w : Vars)
          → Found
              (pre ++ d ∷ [])
              ls'
              (if bytes_eq (path_of ls') (codes "/")
                then at_node m t ix d.kind w
                else or_else (children (path_of ls') w) (at_node m t ix d.kind)).0
      rest [] qs w = unfold bytes_eq in at_node-Found (pre ++ d ∷ []) t ix d.kind w own
      rest (k ∷ ks) (q, qs) w = rw (path_of-ne_root k ks q) (
          or_else-Found (pre ++ d ∷ []) (k ∷ ks) (children (join (k ∷ ks)) w)
            (at_node m t ix d.kind) (deeper k ks w q qs)
            (λ u.
              Found-front (pre ++ d ∷ []) (k ∷ ks) _
                (at_node-Found (pre ++ d ∷ []) t ix d.kind u own)))

mutual
  unfolding match Indexed

  match-Found :
      (m : Method) (P : List NodeData → ℕ → Type 0) (pre : List NodeData) (n : Node) (l : Bytes)
      (ls : List Bytes) (v : Vars)
      → same_kind (data_of n).kind root ≡ false
      → IsLevel l
      → AllLevels ls
      → Indexed m P (pre ++ data_of n ∷ []) n
      → Found m P pre (l ∷ ls) (match m n (join (l ∷ ls)) v).0
  match-Found m P pre (node d t ms ix cs) l ls v inner p ps (size, own, all) =
      elim (Bool-cases (has_bit ms (number m))) [
        | inr none_of ↦ rw none_of tt
        | inl bit ↦
            rw (bit, starts_slash-path_of (l ∷ ls))
              (match_level-Found m P pre d t ix (match_children m cs) l ls v inner p ps own
                (λ k ks w q qs. match_children-Found m P (pre ++ d ∷ []) cs k ks w q qs all))
      ]

  match_children-Found :
      (m : Method) (P : List NodeData → ℕ → Type 0) (pre : List NodeData) (cs : Nodes) (l : Bytes)
      (ls : List Bytes) (v : Vars)
      → IsLevel l
      → AllLevels ls
      → AllIndexed m P pre cs
      → Found m P pre (l ∷ ls) (match_children m cs (join (l ∷ ls)) v).0
  match_children-Found m P pre nil l ls v p ps all = tt
  match_children-Found m P pre (cons c cs) l ls v p ps (inner, i, all) =
      or_else-Found m P pre (l ∷ ls) (match m c (join (l ∷ ls)) v)
        (match_children m cs (join (l ∷ ls))) (match-Found m P pre c l ls v inner p ps i)
        (λ w. match_children-Found m P pre cs l ls w p ps all)

-- From the root of the router on.
pub root-Found :
    (m : Method) (P : List NodeData → ℕ → Type 0) (n : Node) (ls : List Bytes) (v : Vars)
    → (data_of n).kind ≡ root
    → AllLevels ls
    → Indexed m P [] n
    → Found m P [] ls (match m n (path_of ls) v).0
unfolding match match_level Indexed
root-Found m P (node d t ms ix cs) [] v e ps (size, own, all) =
    elim (Bool-cases (has_bit ms (number m))) [
      | inr none_of ↦ rw none_of tt
      | inl bit ↦
          rw
            (
              bit,
              starts_slash-path_of [],
              split_path-root,
              fits-root d [] e,
              next_of-root d.kind (codes "/") (codes "/") e,
            )
            (unfold bytes_eq in at_node-Found m P [] t ix d.kind _ own)
    ]
root-Found m P (node d t ms ix cs) (l ∷ ls) v e (p, ps) (size, own, all) =
    elim (Bool-cases (has_bit ms (number m))) [
      | inr none_of ↦ rw none_of tt
      | inl bit ↦
          rw
            (
              bit,
              starts_slash-path_of (l ∷ ls),
              split_path-join l ls (NoSlash-IsLevel l p),
              fits-root d l e,
              next_of-root d.kind (path_of (l ∷ ls)) (path_of ls) e,
              path_of-ne_root l ls p,
            )
            (or_else-Found m P [] (l ∷ ls) _ (at_node m t ix d.kind)
              (match_children-Found m P [] cs l ls _ p ps all)
              (λ w. Found-front m P [] (l ∷ ls) _ (at_node-Found m P [] t ix d.kind w own)))
    ]

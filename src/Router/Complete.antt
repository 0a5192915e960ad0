-- ===== src/Router/Complete.antt =====
-- src/httprouter.cc: `match` on a request that fits a route of the tree.
use harmony_http.Prelude.{
  ℕ, ◌≡◌, ◌≢◌, refl, List, [], ◌∷◌, Bytes, Bool, true, false, codes, bytes_eq,
}
use harmony_http.Router.{
  Method, Node, Nodes, Answer, npos, found, failed, Vars, data_of, at_node, or_else, next_of,
  match_level, match, match_children,
}
use harmony_http.Router.Level.{Kind, root, NodeData, same_kind, fits}
use harmony_http.Router.Routes.{Child, here, there, Routed, stop, step}
use harmony_http.Router.Paths.{
  IsLevel, NoSlash-IsLevel, join, path_of, split_path-join, split_path-root, starts_slash-path_of,
  path_of-ne_root,
}

-- The levels of a request against those of a route, none of which is a root.
abbrev pub Fit : List NodeData → List Bytes → Type 0
Fit [] [] = Unit {0}
Fit [] (l ∷ ls) = ⊥
Fit (d ∷ ds) [] = ⊥
Fit (d ∷ ds) (l ∷ ls) = (same_kind d.kind root ≡ false) × (fits d l ≡ true) × IsLevel l × Fit ds ls

abbrev pub Answers : Answer × Vars → Type 0
Answers r = r.0 ≢ npos

or_else-first : (r : Answer × Vars) (k : Vars → Answer × Vars) → Answers r → Answers (or_else r k)
unfolding or_else
or_else-first (npos, v) k h = absurd (h refl)
or_else-first (found i, v) k h = λ e. cc
or_else-first (failed, v) k h = λ e. cc

or_else-second :
    (r : Answer × Vars) (k : Vars → Answer × Vars)
    → ((v : Vars) → Answers (k v))
    → Answers (or_else r k)
unfolding or_else
or_else-second (npos, v) k h = h v
or_else-second (found i, v) k h = λ e. cc
or_else-second (failed, v) k h = λ e. cc

at_node-Answers : (m : Method) (ix : List ℕ) (k : Kind) (v : Vars) → Answers (at_node m true ix k v)
unfolding at_node
at_node-Answers m ix k v = λ e. cc

pub next_of-child : (k : Kind) (p r : Bytes) → same_kind k root ≡ false → next_of k p r ≡ r
next_of-child root p r h = cc
next_of-child _ p r h = refl

-- A child that answers makes the loop over the children answer.
children-Answers :
    (m : Method) (path : Bytes) {c : Node} {cs : Nodes}
    → Child c cs
    → ((v : Vars) → Answers (match m c path v))
    → (v : Vars) → Answers (match_children m cs path v)
unfolding match
children-Answers m path {c} (here cs) h v =
    or_else-first (match m c path v) (match_children m cs path) (h v)
children-Answers m path (there b {cs} ch) h v =
    or_else-second (match m b path v) (match_children m cs path) (children-Answers m path ch h)

-- The last level of a request, at the end of a route.
level-Answers_last :
    (m : Method) (d : NodeData) (ix : List ℕ) (k : Bytes → Vars → Answer × Vars) (l : Bytes)
    (v : Vars)
    → same_kind d.kind root ≡ false
    → fits d l ≡ true
    → IsLevel l
    → Answers (match_level m d true ix k (join (l ∷ [])) v)
unfolding match_level
level-Answers_last m d ix k l v inner fit p =
    rw
      (
        split_path-join l [] (NoSlash-IsLevel l p),
        fit,
        next_of-child d.kind (join (l ∷ [])) (codes "/") inner,
      )
      (unfold bytes_eq in at_node-Answers m ix d.kind _)

-- A level with others behind it, where the children answer for those.
level-Answers_more :
    (m : Method) (d : NodeData) (t : Bool) (ix : List ℕ) (k : Bytes → Vars → Answer × Vars)
    (l l' : Bytes) (ls : List Bytes) (v : Vars)
    → same_kind d.kind root ≡ false
    → fits d l ≡ true
    → IsLevel l
    → IsLevel l'
    → ((v : Vars) → Answers (k (path_of (l' ∷ ls)) v))
    → Answers (match_level m d t ix k (join (l ∷ l' ∷ ls)) v)
unfolding match_level
level-Answers_more m d t ix k l l' ls v inner fit p p' h =
    rw
      (
        split_path-join l (l' ∷ ls) (NoSlash-IsLevel l p),
        fit,
        next_of-child d.kind (join (l ∷ l' ∷ ls)) (path_of (l' ∷ ls)) inner,
        path_of-ne_root l' ls p',
      )
      (or_else-first _ _ (h _))

below-Answers :
    (m : Method) {ds : List NodeData} {n : Node} (l : Bytes) (ls : List Bytes) (v : Vars)
    → Routed m ds n
    → same_kind (data_of n).kind root ≡ false
    → fits (data_of n) l ≡ true
    → IsLevel l
    → Fit ds ls
    → Answers (match m n (join (l ∷ ls)) v)
unfolding match
below-Answers m l [] v (stop d ms ix cs bit) inner fit p f =
    rw (bit, starts_slash-path_of (l ∷ []))
      (level-Answers_last m d ix (match_children m cs) l v inner fit p)
below-Answers m l (k ∷ ks) v (stop d ms ix cs bit) inner fit p f = absurd f
below-Answers m l [] v (step d t ms ix bit ch r) inner fit p f = absurd f
below-Answers m l (k ∷ ks) v (step d t ms ix {cs = cs} {c = c} bit ch r) inner fit p
      (i', f', p', fs) =
    rw (bit, starts_slash-path_of (l ∷ k ∷ ks))
      (level-Answers_more m d t ix (match_children m cs) l k ks v inner fit p p'
        (children-Answers m (join (k ∷ ks)) ch (λ v'. below-Answers m k ks v' r i' f' p' fs)))

pub fits-root : (d : NodeData) (l : Bytes) → d.kind ≡ root → fits d l ≡ true
unfolding fits
fits-root d l e = rw e

pub next_of-root : (k : Kind) (p r : Bytes) → k ≡ root → next_of k p r ≡ p
next_of-root k p r e = rw e

root-level_last :
    (m : Method) (d : NodeData) (ix : List ℕ) (k : Bytes → Vars → Answer × Vars) (v : Vars)
    → d.kind ≡ root
    → Answers (match_level m d true ix k (codes "/") v)
unfolding match_level
root-level_last m d ix k v e =
    rw (split_path-root, fits-root d [] e, next_of-root d.kind (codes "/") (codes "/") e)
      (unfold bytes_eq in at_node-Answers m ix d.kind _)

root-level_more :
    (m : Method) (d : NodeData) (t : Bool) (ix : List ℕ) (k : Bytes → Vars → Answer × Vars)
    (l : Bytes) (ls : List Bytes) (v : Vars)
    → d.kind ≡ root
    → IsLevel l
    → ((v : Vars) → Answers (k (path_of (l ∷ ls)) v))
    → Answers (match_level m d t ix k (path_of (l ∷ ls)) v)
unfolding match_level
root-level_more m d t ix k l ls v e p h =
    rw
      (
        split_path-join l ls (NoSlash-IsLevel l p),
        fits-root d l e,
        next_of-root d.kind (path_of (l ∷ ls)) (path_of ls) e,
        path_of-ne_root l ls p,
      )
      (or_else-first _ _ (h _))

-- From the root of the router on.
pub root-Answers :
    (m : Method) {ds : List NodeData} {n : Node} (ls : List Bytes) (v : Vars)
    → Routed m ds n
    → (data_of n).kind ≡ root
    → Fit ds ls
    → Answers (match m n (path_of ls) v)
unfolding match
root-Answers m [] v (stop d ms ix cs bit) e f =
    rw (bit, starts_slash-path_of []) (root-level_last m d ix (match_children m cs) v e)
root-Answers m (l ∷ ls) v (stop d ms ix cs bit) e f = absurd f
root-Answers m [] v (step d t ms ix bit ch r) e f = absurd f
root-Answers m (l ∷ ls) v (step d t ms ix {cs = cs} bit ch r) e (i, fit, p, fs) =
    rw (bit, starts_slash-path_of (l ∷ ls))
      (root-level_more m d t ix (match_children m cs) l ls v e p
        (children-Answers m (join (l ∷ ls)) ch (λ v'. below-Answers m l ls v' r i fit p fs)))

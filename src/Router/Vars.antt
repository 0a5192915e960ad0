-- ===== src/Router/Vars.antt =====
-- src/httprouter.cc: the variables that `match` captures.
use harmony_http.Prelude.{
  ℕ, ◌≡◌, refl, ap, List, [], ◌∷◌, ◌++◌, Bytes, Bool, true, false, Bool-cases, inl, inr, codes,
  bytes_eq, if◌then◌else◌,
}
use harmony_http.Router.{
  Method, Node, node, Nodes, nil, cons, number, has_bit, Answer, npos, found, failed, Vars,
  pop_back, at_node, or_else, next_of, match_level, match, match_children,
}
use harmony_http.Router.Level.{NodeData, captures, fits, split_path, starts_slash}

pub pop_back-append : (vs : Vars) (v : Bytes) → pop_back (vs ++ v ∷ []) ≡ vs
unfolding pop_back
pop_back-append [] v = refl
pop_back-append (w ∷ []) v = refl
pop_back-append (w ∷ u ∷ vs) v = ap (λ t. w ∷ t) (pop_back-append (u ∷ vs) v)

-- An answer that is no match comes with the variables `vars`.
abbrev pub Restores : Vars → Answer × Vars → Type 0
Restores vars r = r.0 ≡ npos → r.1 ≡ vars

or_else-Restores :
    (vars : Vars) (r : Answer × Vars) (k : Vars → Answer × Vars)
    → Restores vars r
    → Restores vars (k vars)
    → Restores vars (or_else r k)
unfolding or_else
or_else-Restores vars (npos, vars') k h g = rw (h refl) g
or_else-Restores vars (found i, vars') k h g = λ e. cc
or_else-Restores vars (failed, vars') k h g = λ e. cc

-- The variables that a node hands on, and what giving up at it returns.
abbrev pushed : NodeData → Bytes → Vars → Vars
pushed d level vars = if captures d.kind then vars ++ level ∷ [] else vars

at_node-Restores :
    (m : Method) (terminal : Bool) (index : List ℕ) (d : NodeData) (level : Bytes) (vars : Vars)
    → Restores vars (at_node m terminal index d.kind (pushed d level vars))
unfolding at_node
at_node-Restores m true index d level vars = λ e. cc
at_node-Restores m false index d level vars = λ _. elim (Bool-cases (captures d.kind)) [
  | inl yes_it ↦ rw yes_it (pop_back-append vars level)
  | inr no_it ↦ rw no_it refl
]

-- Deeper answers restore what they were given, which is then given up.
deeper-Restores :
    (m : Method) (terminal : Bool) (index : List ℕ) (d : NodeData) (level : Bytes) (vars : Vars)
    (r : Answer × Vars)
    → Restores (pushed d level vars) r
    → Restores vars (or_else r (at_node m terminal index d.kind))
unfolding or_else
deeper-Restores m terminal index d level vars (npos, vars') h =
    rw (h refl) (at_node-Restores m terminal index d level vars)
deeper-Restores m terminal index d level vars (found i, vars') h = λ e. cc
deeper-Restores m terminal index d level vars (failed, vars') h = λ e. cc

match_level-Restores :
    (m : Method) (d : NodeData) (terminal : Bool) (index : List ℕ)
    (children : Bytes → Vars → Answer × Vars) (path : Bytes) (vars : Vars)
    → ((next : Bytes) (v : Vars) → Restores v (children next v))
    → Restores vars (match_level m d terminal index children path vars)
unfolding match_level
match_level-Restores m d terminal index children path vars h =
    let (level, rest) = split_path path in
    let next = next_of d.kind path rest in
    elim (Bool-cases (fits d level)) [
      | inr misfit ↦ rw misfit (λ _. refl)
      | inl fit ↦ elim (Bool-cases (bytes_eq next (codes "/"))) [
        | inl last ↦ rw (fit, last) (at_node-Restores m terminal index d level vars)
        | inr more ↦
            rw (fit, more)
              (deeper-Restores m terminal index d level vars _ (h next (pushed d level vars)))
      ]
    ]

mutual
  unfolding match

  match-Restores :
      (m : Method) (n : Node) (path : Bytes) (vars : Vars) → Restores vars (match m n path vars)
  match-Restores m (node d terminal methods index children) path vars =
      elim (Bool-cases (has_bit methods (number m))) [
        | inr off ↦ rw off (λ _. refl)
        | inl on ↦ elim (Bool-cases (starts_slash path)) [
          | inr bad ↦ rw (on, bad) (λ e. cc)
          | inl good ↦
              rw (on, good)
                (match_level-Restores m d terminal index (match_children m children) path vars
                  (match_children-Restores m children))
        ]
      ]

  match_children-Restores :
      (m : Method) (cs : Nodes) (path : Bytes) (vars : Vars)
      → Restores vars (match_children m cs path vars)
  match_children-Restores m nil path vars = λ _. refl
  match_children-Restores m (cons c cs) path vars =
      or_else-Restores vars (match m c path vars) (match_children m cs path)
        (match-Restores m c path vars) (match_children-Restores m cs path vars)

-- Where `match` returns npos, on any tree and any path, it leaves the vector of variables as it
-- found it.
pub match_restores_vars :
    (m : Method) (n : Node) (path : Bytes) (vars : Vars)
    → (match m n path vars).0 ≡ npos
    → (match m n path vars).1 ≡ vars
match_restores_vars m n path vars = match-Restores m n path vars

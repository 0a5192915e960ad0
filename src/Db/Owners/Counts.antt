-- ===== src/Db/Owners/Counts.antt =====
-- src/dbresult.cc and src/dbnotify.cc: owners and frees, counted.
use harmony_http.Prelude.{
  ℕ, zero, suc, ◌+◌, ◌≤◌, ◌<◌, ◌≡◌, ◌⊎◌, arith, inl, inr, List, [], ◌∷◌, ◌++◌, length, get_or, set,
  Option, none, some, ◌==◌, if◌then◌else◌,
}
use harmony_http.Db.Owners.{Owner, Heap, nothing, owns, owners, let_go}

-- How often a pointer was freed.
unfoldable pub frees : List ℕ → ℕ → ℕ
frees [] p = 0
frees (q ∷ qs) p = let rest = frees qs p in if q == p then rest + 1 else rest

-- The pointer of the base is null or the one that the object owns.
abbrev pub IsTied : Owner → Type 0
IsTied o = (p : ℕ) → o.base ≡ some p → o.ptr ≡ some p

abbrev pub AllTied : List Owner → Type 0
AllTied [] = Unit {0}
AllTied (o ∷ os) = IsTied o × AllTied os

-- Of what was allocated, each is owned and not freed, or was freed once and has no owner.
pub record IsSettled (h : Heap) : Type 0 where
  pub tied : AllTied h.objects
  pub once :
      (p : ℕ)
      → ((p < h.made) × (0 < owners h.objects p) × (frees h.freed p ≡ 0))
        ⊎ (((p < h.made) × (owners h.objects p ≡ 0) × (frees h.freed p ≡ 1))
            ⊎ ((h.made ≤ p) × (owners h.objects p ≡ 0) × (frees h.freed p ≡ 0)))

pub frees-append : (qs : List ℕ) (q p : ℕ) → frees (qs ++ q ∷ []) p ≡ frees qs p + owns (some q) p
unfolding frees owns
frees-append [] q p = ground arith
frees-append (x ∷ qs) q p = ground (arith, frees-append qs q p)

pub owners-append :
    (os : List Owner) (o : Owner) (p : ℕ) → owners (os ++ o ∷ []) p ≡ owners os p + owns o.ptr p
unfolding owners
owners-append [] o p = omega arith
owners-append (x ∷ os) o p = omega (arith, owners-append os o p)

pub owners-set :
    (os : List Owner) (i : ℕ) (o : Owner) (p : ℕ)
    → i < length os
    → owners (set os i o) p + owns (get_or os i nothing).ptr p ≡ owners os p + owns o.ptr p
unfolding owners
owners-set [] i o p h = absurd (omega arith)
owners-set (x ∷ os) zero o p h = omega arith
owners-set (x ∷ os) (suc i) o p h = omega (arith, owners-set os i o p (omega arith))

pub owns-le-owners : (os : List Owner) (i p : ℕ) → owns (get_or os i nothing).ptr p ≤ owners os p
unfolding owners owns
owns-le-owners [] i p = omega arith
owns-le-owners (x ∷ os) zero p = omega arith
owns-le-owners (x ∷ os) (suc i) p = omega (arith, owns-le-owners os i p)

pub AllTied-get : (os : List Owner) (i : ℕ) → AllTied os → IsTied (get_or os i nothing)
AllTied-get [] i h = λ p e. cc
AllTied-get (o ∷ os) zero (t, h) = t
AllTied-get (o ∷ os) (suc i) (t, h) = AllTied-get os i h

pub AllTied-set :
    (os : List Owner) (i : ℕ) (o : Owner) → AllTied os → IsTied o → AllTied (set os i o)
AllTied-set [] i o h t = tt
AllTied-set (x ∷ os) zero o (tx, h) t = (t, h)
AllTied-set (x ∷ os) (suc i) o (tx, h) t = (tx, AllTied-set os i o h t)

pub AllTied-append : (os : List Owner) (o : Owner) → AllTied os → IsTied o → AllTied (os ++ o ∷ [])
AllTied-append [] o h t = (t, tt)
AllTied-append (x ∷ os) o (tx, h) t = (tx, AllTied-append os o h t)

pub frees-let_go :
    (q : Option ℕ) (os : List Owner) (freed : List ℕ) (p : ℕ)
    → ((owners os p ≡ 0) × (frees (let_go q os freed) p ≡ frees freed p + owns q p))
      ⊎ ((0 < owners os p) × (frees (let_go q os freed) p ≡ frees freed p))
unfolding let_go owns
frees-let_go none os freed p = ground arith
frees-let_go (some q) os freed p = ground (arith, frees-append freed q p)

pub owns_le_one : (q : Option ℕ) (p : ℕ) → owns q p ≤ 1
unfolding owns
owns_le_one none p = omega arith
owns_le_one (some q) p = ground arith

-- What is known of a pointer, by the number of its owners and of its frees.
abbrev pub Fate : ℕ → ℕ → ℕ → ℕ → Type 0
Fate made n freed p =
    ((p < made) × (0 < n) × (freed ≡ 0))
    ⊎ (((p < made) × (n ≡ 0) × (freed ≡ 1)) ⊎ ((made ≤ p) × (n ≡ 0) × (freed ≡ 0)))

-- The owners of a pointer before and after an object lets go of `q`, `extra` of them in another's place.
pub record Exchange (before after q extra : ℕ) : Type 0 where
  pub balance : after + q ≡ before + extra
  pub extra_before : extra ≤ before
  pub extra_after : extra ≤ after

pub let_go-Fate :
    (made : ℕ) (os os' : List Owner) (freed : List ℕ) (q : Option ℕ) (p extra : ℕ)
    → Exchange (owners os p) (owners os' p) (owns q p) extra
    → Fate made (owners os p) (frees freed p) p
    → Fate made (owners os' p) (frees (let_go q os' freed) p) p
let_go-Fate made os os' freed q p extra x (inl (below, owned, none_freed)) =
    elim (frees-let_go q os' freed p) [
      | inl (gone, count) ↦ inr (
          inl
            (below, gone, omega (arith, x.balance, x.extra_before, x.extra_after, owns_le_one q p)))
      | inr (kept, count) ↦ inl (below, kept, omega arith)
    ]
let_go-Fate made os os' freed q p extra x (inr (inl (below, gone, once))) =
    elim (frees-let_go q os' freed p) [
      | inl (still, count) ↦
          inr (inl (below, still, omega (arith, x.balance, x.extra_before, x.extra_after)))
      | inr (kept, count) ↦ absurd (omega (arith, x.balance, x.extra_before, x.extra_after))
    ]
let_go-Fate made os os' freed q p extra x (inr (inr (above, gone, none_freed))) =
    elim (frees-let_go q os' freed p) [
      | inl (still, count) ↦
          inr (inr (above, still, omega (arith, x.balance, x.extra_before, x.extra_after)))
      | inr (kept, count) ↦ absurd (omega (arith, x.balance, x.extra_before, x.extra_after))
    ]

-- More owners of what is owned, and no frees.
pub more-Fate :
    (made n m freed p : ℕ) → n ≤ m → (n ≡ 0 → m ≡ 0) → Fate made n freed p → Fate made m freed p
more-Fate made n m freed p le zero_too (inl (b, o, f)) = inl (b, omega arith, f)
more-Fate made n m freed p le zero_too (inr (inl (b, o, f))) = inr (inl (b, zero_too o, f))
more-Fate made n m freed p le zero_too (inr (inr (b, o, f))) = inr (inr (b, zero_too o, f))

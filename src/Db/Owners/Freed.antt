-- ===== src/Db/Owners/Freed.antt =====
-- src/dbresult.cc and src/dbnotify.cc: what libpq allocated is freed once, after its last owner.
use harmony_http.Prelude.{
  ℕ, zero, suc, ◌+◌, ◌<◌, ◌≡◌, refl, ap, arith, inl, inr, List, [], ◌∷◌, ◌++◌, length, get_or, set,
  length-set, false, Bool-cases, ◌&&◌, none, some, ltb, ◌==◌,
}
use harmony_http.Db.Owners.{
  Owner, Heap, Op, created, move_made, copy_made, destroyed, move_assigned, copy_assigned, new_heap,
  nothing, owns, owners, let_go, create, move_make, copy_make, destroy, move_assign, copy_assign,
  apply, run,
}
use harmony_http.Db.Owners.Counts.{
  frees, IsTied, IsSettled, Fate, Exchange, owners-append, owners-set, owns-le-owners, AllTied-get,
  AllTied-set, AllTied-append, let_go-Fate, more-Fate,
}

nothing-IsTied : IsTied nothing
nothing-IsTied p e = cc

create-Fate :
    (made n m freed p : ℕ)
    → m ≡ n + owns (some made) p
    → Fate made n freed p
    → Fate (made + 1) m freed p
unfolding owns
create-Fate made n m freed p e (inl (b, o, f)) = inl (omega arith, omega arith, f)
create-Fate made n m freed p e (inr (inl (b, o, f))) =
    let other : (made == p) ≡ false = ground arith in
    let same : m ≡ n + 0 = rw other at e in inr (inl (omega arith, omega arith, f))
create-Fate made n m freed p e (inr (inr (b, o, f))) = elim (Bool-cases (made == p)) [
  | inl new ↦ let one : m ≡ n + 1 = rw new at e in inl (ground arith, omega arith, f)
  | inr other ↦ let same : m ≡ n + 0 = rw other at e in inr (inr (ground arith, omega arith, f))
]

create-IsSettled : (h : Heap) → IsSettled h → IsSettled (create h)
unfolding create
create-IsSettled h s = record {
  tied = AllTied-append h.objects _ s.tied (λ p e. e);
  once = λ p.
      create-Fate h.made (owners h.objects p) _ (frees h.freed p) p
        (owners-append h.objects (record { base = some h.made; ptr = some h.made }) p) (s.once p);
}

-- Object i takes the place of `o` and lets go of what it had.
replaced :
    (h : Heap) (i extra p : ℕ) (os : List Owner)
    → IsSettled h
    → Exchange (owners h.objects p) (owners os p) (owns (get_or h.objects i nothing).ptr p) extra
    → Fate h.made (owners os p) (frees (let_go (get_or h.objects i nothing).ptr os h.freed) p) p
replaced h i extra p os s x =
    let_go-Fate h.made h.objects os h.freed (get_or h.objects i nothing).ptr p extra x (s.once p)

destroy-IsSettled : (i : ℕ) (h : Heap) → IsSettled h → IsSettled (destroy i h)
unfolding destroy owns
destroy-IsSettled i h s = elim (Bool-cases (ltb i (length h.objects))) [
  | inr out ↦ rw out s
  | inl within ↦ rw within (record {
    tied = AllTied-set h.objects i nothing s.tied nothing-IsTied;
    once = λ p. replaced h i 0 p (set h.objects i nothing) s (record {
      balance = owners-set h.objects i nothing p (ground arith);
      extra_before = omega arith;
      extra_after = omega arith;
    });
  })
]

move_make-IsSettled : (i : ℕ) (h : Heap) → IsSettled h → IsSettled (move_make i h)
unfolding move_make owns
move_make-IsSettled i h s = elim (Bool-cases (ltb i (length h.objects))) [
  | inr out ↦ rw out s
  | inl within ↦
      let o = get_or h.objects i nothing in
      rw within (record {
        tied =
            AllTied-append (set h.objects i nothing) o
              (AllTied-set h.objects i nothing s.tied nothing-IsTied)
              (AllTied-get h.objects i s.tied);
        once = λ p.
            let same : owners (set h.objects i nothing ++ o ∷ []) p ≡ owners h.objects p = omega (
              arith,
              owners-append (set h.objects i nothing) o p,
              owners-set h.objects i nothing p (ground arith),
            ) in
            more-Fate h.made (owners h.objects p) _ (frees h.freed p) p (omega arith)
              (λ z. omega arith) (s.once p);
      })
]

copy_make-IsSettled : (i : ℕ) (h : Heap) → IsSettled h → IsSettled (copy_make i h)
unfolding copy_make
copy_make-IsSettled i h s = elim (Bool-cases (ltb i (length h.objects))) [
  | inr out ↦ rw out s
  | inl within ↦
      let o = get_or h.objects i nothing in
      rw within (record {
        tied = AllTied-append h.objects o s.tied (AllTied-get h.objects i s.tied);
        once = λ p.
            let more = owners-append h.objects o p in
            let few = owns-le-owners h.objects i p in
            more-Fate h.made (owners h.objects p) _ (frees h.freed p) p (omega arith)
              (λ z. omega arith) (s.once p);
      })
]

get_or-set_ne :
    (os : List Owner) (i j : ℕ) (o : Owner)
    → (i ≡ j → ⊥)
    → get_or (set os i o) j nothing ≡ get_or os j nothing
get_or-set_ne [] i j o h = refl
get_or-set_ne (x ∷ os) zero zero o h = absurd (h refl)
get_or-set_ne (x ∷ os) zero (suc j) o h = refl
get_or-set_ne (x ∷ os) (suc i) zero o h = refl
get_or-set_ne (x ∷ os) (suc i) (suc j) o h = get_or-set_ne os i j o (λ e. h (ap suc e))

move_assign-IsSettled : (i j : ℕ) (h : Heap) → IsSettled h → IsSettled (move_assign i j h)
unfolding move_assign owns
move_assign-IsSettled i j h s =
    elim (Bool-cases (ltb i (length h.objects) && ltb j (length h.objects))) [
      | inr out ↦ rw out s
      | inl within ↦
          let b = get_or h.objects j nothing in
          let o = get_or h.objects i nothing in
          elim (Bool-cases (i == j)) [
            | inl self ↦
                rw (within, self)
                  (record {
                    tied = AllTied-set h.objects i (record o { base = none }) s.tied (λ p e. cc);
                    once = λ p.
                        let same =
                          owners-set h.objects i (record o { base = none }) p (ground arith) in
                        more-Fate h.made (owners h.objects p) _ (frees h.freed p) p (omega arith)
                          (λ z. omega arith) (s.once p);
                  })
            | inr apart ↦
                rw (within, apart)
                  (record {
                    tied =
                        AllTied-set (set h.objects i b) j nothing
                          (AllTied-set h.objects i b s.tied (AllTied-get h.objects j s.tied))
                          nothing-IsTied;
                    once = λ p.
                        let there = get_or-set_ne h.objects i j b (ground arith) in
                        let owned = ap (λ x. owns x.ptr p) there in
                        let first = owners-set h.objects i b p (ground arith) in
                        let second =
                          owners-set (set h.objects i b) j nothing p
                            (ground (arith, length-set h.objects i b)) in
                        replaced h i 0 p (set (set h.objects i b) j nothing) s (record {
                          balance = omega arith;
                          extra_before = omega arith;
                          extra_after = omega arith;
                        });
                  })
          ]
    ]

get_or-set_same :
    (os : List Owner) (i j : ℕ)
    → i < length os
    → get_or (set os i (get_or os j nothing)) j nothing ≡ get_or os j nothing
get_or-set_same [] i j h = refl
get_or-set_same (x ∷ os) zero zero h = refl
get_or-set_same (x ∷ os) zero (suc j) h = refl
get_or-set_same (x ∷ os) (suc i) zero h = refl
get_or-set_same (x ∷ os) (suc i) (suc j) h = get_or-set_same os i j (omega arith)

copy_assign-IsSettled : (i j : ℕ) (h : Heap) → IsSettled h → IsSettled (copy_assign i j h)
unfolding copy_assign
copy_assign-IsSettled i j h s =
    elim (Bool-cases (ltb i (length h.objects) && ltb j (length h.objects))) [
      | inr out ↦ rw out s
      | inl within ↦
          let b = get_or h.objects j nothing in
          rw within (record {
            tied = AllTied-set h.objects i b s.tied (AllTied-get h.objects j s.tied);
            once = λ p.
                let there = get_or-set_same h.objects i j (ground arith) in
                let owned = ap (λ x. owns x.ptr p) there in
                let still = owns-le-owners (set h.objects i b) j p in
                replaced h i (owns b.ptr p) p (set h.objects i b) s (record {
                  balance = owners-set h.objects i b p (ground arith);
                  extra_before = owns-le-owners h.objects j p;
                  extra_after = omega arith;
                });
          })
    ]

apply-IsSettled : (op : Op) (h : Heap) → IsSettled h → IsSettled (apply op h)
unfolding apply
apply-IsSettled created h s = create-IsSettled h s
apply-IsSettled (move_made i) h s = move_make-IsSettled i h s
apply-IsSettled (copy_made i) h s = copy_make-IsSettled i h s
apply-IsSettled (destroyed i) h s = destroy-IsSettled i h s
apply-IsSettled (move_assigned i j) h s = move_assign-IsSettled i j h s
apply-IsSettled (copy_assigned i j) h s = copy_assign-IsSettled i j h s

run-from : (ops : List Op) (h : Heap) → IsSettled h → IsSettled (run ops h)
unfolding run
run-from [] h s = s
run-from (op ∷ ops) h s = run-from ops (apply op h) (apply-IsSettled op h s)

-- After any constructions, copies, moves, assignments and destructions, of a unique class without the
-- copies or of a shared one: whatever libpq allocated is owned by an object and was not freed, or
-- has no owner and was freed once; and the pointer that the base of an object holds is null or
-- the one that this object owns, so that it was not freed.
pub run-IsSettled : (ops : List Op) → IsSettled (run ops new_heap)
unfolding owners frees
run-IsSettled ops =
    run-from ops new_heap (record { tied = tt; once = λ p. inr (inr (omega arith, refl, refl)) })

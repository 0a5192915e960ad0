-- ===== src/Header/Case.antt =====
-- src/util.cc: `streq_l` and `lookup_header`, and letter case.
use harmony_http.Prelude.{
  ℕ, zero, suc, ◌-◌, ◌≡◌, refl, ap, ap₂, ◌∙◌, arith, [], ◌∷◌, Bytes, true, ◌&&◌, ◌==◌, length, take,
  ◌↔◌,
}
use harmony_http.Header.{to_lower, same_lower, streq_l, lookup_sized, last_byte, lookup_header}

-- Two strings of one length, byte by byte equal but for case.
abbrev pub SameCase : Bytes → Bytes → Type 0
SameCase [] [] = Unit {0}
SameCase [] (b ∷ bs) = ⊥
SameCase (a ∷ as_) [] = ⊥
SameCase (a ∷ as_) (b ∷ bs) = (to_lower a ≡ to_lower b) × SameCase as_ bs

length-SameCase : (a b : Bytes) → SameCase a b → length a ≡ length b
length-SameCase [] [] h = refl
length-SameCase [] (b ∷ bs) h = absurd h
length-SameCase (a ∷ as_) [] h = absurd h
length-SameCase (a ∷ as_) (b ∷ bs) (p, h) = ap suc (length-SameCase as_ bs h)

take-SameCase : (n : ℕ) (a b : Bytes) → SameCase a b → SameCase (take n a) (take n b)
take-SameCase zero a b h = tt
take-SameCase (suc n) [] [] h = tt
take-SameCase (suc n) [] (b ∷ bs) h = absurd h
take-SameCase (suc n) (a ∷ as_) [] h = absurd h
take-SameCase (suc n) (a ∷ as_) (b ∷ bs) (p, h) = (p, take-SameCase n as_ bs h)

same_lower-SameCase : (lit a b : Bytes) → SameCase a b → same_lower lit a ≡ same_lower lit b
unfolding same_lower
same_lower-SameCase [] a b h = refl
same_lower-SameCase (l ∷ lit) [] [] h = refl
same_lower-SameCase (l ∷ lit) [] (b ∷ bs) h = absurd h
same_lower-SameCase (l ∷ lit) (a ∷ as_) [] h = absurd h
same_lower-SameCase (l ∷ lit) (a ∷ as_) (b ∷ bs) (p, h) =
    ap₂ (λ x y. (to_lower l == x) && y) p (same_lower-SameCase lit as_ bs h)

streq_l-SameCase : (lit a b : Bytes) → SameCase a b → streq_l lit a ≡ streq_l lit b
unfolding streq_l
streq_l-SameCase lit a b h =
    ap₂ (λ n y. (length lit == n) && y) (length-SameCase a b h) (same_lower-SameCase lit a b h)

streq_l_sound : (a b : Bytes) → streq_l a b ≡ true → SameCase a b
unfolding streq_l same_lower
streq_l_sound [] [] h = tt
streq_l_sound [] (b ∷ bs) h = ground arith
streq_l_sound (a ∷ as_) [] h = ground arith
streq_l_sound (a ∷ as_) (b ∷ bs) h = (ground arith, streq_l_sound as_ bs (ground arith))

streq_l_complete : (a b : Bytes) → SameCase a b → streq_l a b ≡ true
unfolding streq_l same_lower
streq_l_complete [] [] h = refl
streq_l_complete [] (b ∷ bs) h = absurd h
streq_l_complete (a ∷ as_) [] h = absurd h
streq_l_complete (a ∷ as_) (b ∷ bs) (p, h) = ground (arith, streq_l_complete as_ bs h)

-- `streq_l` returns true exactly for strings of one length that are equal, byte by byte, once the
-- ASCII letters are put in lower case.
pub streq_l_iff : (a b : Bytes) → (streq_l a b ≡ true) ↔ SameCase a b
streq_l_iff a b = (streq_l_sound a b, streq_l_complete a b)

-- Names that are equal but for case, and whose last bytes are the same, are looked up alike.
pub lookup_header-SameCase :
    (a b : Bytes) → SameCase a b → last_byte a ≡ last_byte b → lookup_header a ≡ lookup_header b
unfolding lookup_header
lookup_header-SameCase a b h last = λ i. lookup_sized (length-SameCase a b h i) (last i) (λ lit.
    (ap (λ n. streq_l lit (take (n - 1) a)) (length-SameCase a b h)
        ∙ streq_l-SameCase lit _ _ (take-SameCase (length b - 1) a b h))
      i)

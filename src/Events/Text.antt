-- ===== src/Events/Text.antt =====
-- src/eventstream.cc: the text that `send` cuts into pieces.
use harmony_http.Prelude.{
  ℕ, zero, suc, ◌+◌, ◌-◌, ◌≤◌, ◌<◌, ◌≡◌, refl, sym, ap, ap₂, ◌∙◌, inl, inr, arith, [], ◌∷◌, ◌++◌,
  append_assoc, append-nil, Bytes, true, false, Bool-cases, ltb, ◌==◌, length, take, drop, min,
  length-append, length-take, length-drop, take-append_le, drop-append_le, drop-append_add,
  drop-drop, take_all, drop_all,
}
use harmony_http.Buffer.{Buffer, wleft, contents}
use harmony_http.Buffer.Refine.{IsValid, write_full_lem}
use harmony_http.Events.{Event}
use harmony_http.Events.Stream.{Send, event_label, data_label, ext_pre, piece, write_prefix}

-- An event as text/event-stream: what stands before its payload, and all of it.
abbrev pub event_head : Event → Bytes
event_head ev = event_label ++ (ev.name ++ (b'\n' ∷ data_label))

abbrev pub event_text : Event → Bytes
event_text ev = event_head ev ++ (ev.content ++ (b'\n' ∷ b'\n' ∷ []))

pub length-event_head : (ev : Event) → length (event_head ev) ≡ ext_pre ev
length-event_head ev = omega (
  arith,
  length-append event_label (ev.name ++ (b'\n' ∷ data_label)),
  length-append ev.name (b'\n' ∷ data_label),
)

-- A slice of a part is a slice of the whole.
pub slice_length : (n i : ℕ) (xs : Bytes) → length (take n (drop i xs)) ≡ min n (length xs - i)
slice_length n i xs = omega (arith, length-take n (drop i xs), length-drop i xs)

pub take_of_take : (n : ℕ) (xs : Bytes) → take (length (take n xs)) xs ≡ take n xs
take_of_take zero xs = refl
take_of_take (suc n) [] = refl
take_of_take (suc n) (x ∷ xs) = ap (λ l. x ∷ l) (take_of_take n xs)

slice-append :
    (front seg zs : Bytes) (p i n : ℕ)
    → p ≡ length front + i
    → i ≤ length seg
    → let s = take n (drop i seg) in take (length s) (drop p (front ++ (seg ++ zs))) ≡ s
slice-append front seg zs p i n e h =
    let s = take n (drop i seg) in
    let short : length s ≤ length (drop i seg) =
      omega (arith, slice_length n i seg, length-drop i seg) in
    ap (take (length s)) (drop-append_add p front (seg ++ zs) i e ∙ drop-append_le i seg zs h)
    ∙ take-append_le (length s) (drop i seg) zs short
    ∙ take_of_take n (drop i seg)

-- What a round writes is the next part of the head, and not nothing.
abbrev Pieced : Event → ℕ → ℕ → Bytes → Type 0
Pieced ev pos n s =
    (take (length s) (drop pos (event_head ev)) ≡ s)
    × (1 ≤ length s)
    × (length s ≤ n)
    × (pos + length s ≤ ext_pre ev)

part-Pieced :
    (ev : Event) (front seg zs : Bytes) (pos i n : ℕ)
    → event_head ev ≡ front ++ (seg ++ zs)
    → pos ≡ length front + i
    → i < length seg
    → 1 ≤ n
    → Pieced ev pos n (take n (drop i seg))
part-Pieced ev front seg zs pos i n split e h k = (
  ap (λ l. take (length (take n (drop i seg))) (drop pos l)) split
      ∙ slice-append front seg zs pos i n e (omega arith),
  omega (arith, slice_length n i seg),
  omega (arith, slice_length n i seg),
  omega (
    arith,
    slice_length n i seg,
    length-event_head ev,
    ap length split,
    length-append front (seg ++ zs),
    length-append seg zs,
  ),
)

pub ltb-lt : {a b : ℕ} → ltb a b ≡ true → a < b
ltb-lt h = ground arith

pub ltb-ge : {a b : ℕ} → ltb a b ≡ false → b ≤ a
ltb-ge h = ground arith

newline-Pieced :
    (ev : Event) (pos n : ℕ) → pos ≡ 7 + length ev.name → 1 ≤ n → Pieced ev pos n (b'\n' ∷ [])
newline-Pieced ev pos n e k =
    let (text, some_text, short, inside) =
      part-Pieced ev (event_label ++ ev.name) (b'\n' ∷ []) data_label pos 0 1
        (sym (append_assoc event_label ev.name (b'\n' ∷ data_label)))
        (omega (arith, e, length-append event_label ev.name)) (omega arith) (omega arith) in
    (text, some_text, omega arith, inside)

label-Pieced :
    (ev : Event) (pos n : ℕ)
    → 7 + length ev.name < pos
    → pos < ext_pre ev
    → 1 ≤ n
    → Pieced ev pos n (take n (drop (pos - (7 + length ev.name + 1)) data_label))
label-Pieced ev pos n e h k =
    part-Pieced ev (event_label ++ (ev.name ++ b'\n' ∷ [])) data_label [] pos
      (pos - (7 + length ev.name + 1)) n
      (sym (
        append_assoc event_label (ev.name ++ b'\n' ∷ []) data_label
        ∙ ap (λ l. event_label ++ l) (append_assoc ev.name (b'\n' ∷ []) data_label)))
      (omega (
        arith,
        e,
        length-append event_label (ev.name ++ b'\n' ∷ []),
        length-append ev.name (b'\n' ∷ []),
      ))
      (omega arith) k

piece-Pieced :
    (ev : Event) (pos n : ℕ) → pos < ext_pre ev → 1 ≤ n → Pieced ev pos n (piece ev pos n)
unfolding piece
piece-Pieced ev pos n h k = elim (Bool-cases (ltb pos 7)) [
  | inl a ↦ rw a (
      part-Pieced ev [] event_label (ev.name ++ (b'\n' ∷ data_label)) pos pos n refl (omega arith)
        (ltb-lt a) k)
  | inr a ↦ rw a (elim (Bool-cases (ltb pos (7 + length ev.name))) [
    | inl b ↦ rw b (
        part-Pieced ev event_label ev.name (b'\n' ∷ data_label) pos (pos - 7) n refl
          (omega (arith, ltb-ge a)) (omega (arith, ltb-ge a, ltb-lt b)) k)
    | inr b ↦ rw b (elim (Bool-cases (pos == 7 + length ev.name)) [
      | inl c ↦ rw c (newline-Pieced ev pos n (ground arith) k)
      | inr c ↦
          let inside : ltb pos (7 + length ev.name + 1 + 6) ≡ true = ground arith in
          let above : 7 + length ev.name < pos = ground arith in
          rw (c, inside) (label-Pieced ev pos n above h k)
    ])
  ])
]

-- A slice in two parts.
pub take-add : (m n k : ℕ) (xs : Bytes) → k ≡ m + n → take k xs ≡ take m xs ++ take n (drop m xs)
take-add zero n k xs e = let same : k ≡ n = omega arith in ap (λ i. take i xs) same
take-add (suc m) n zero xs e = absurd (omega arith)
take-add (suc m) zero (suc k) [] e = refl
take-add (suc m) (suc n) (suc k) [] e = refl
take-add (suc m) n (suc k) (x ∷ xs) e = ap (λ l. x ∷ l) (take-add m n k xs (omega arith))

-- The prefix is written up to what `n` allows, and the rest is left to `next`.
abbrev pub Reaches : (ℕ → ℕ → Buffer → Send) → ℕ → ℕ → Bytes → Buffer → Send → Type 0
Reaches next pos n text wb r =
    (wb' : Buffer) × (r ≡ next (pos + length text) (n - length text) wb')
    × (contents wb' ≡ contents wb ++ text)
    × (wleft wb' + length text ≡ wleft wb)
    × IsValid wb'

Reaches-none :
    (next : ℕ → ℕ → Buffer → Send) (pos n : ℕ) (text : Bytes) (wb : Buffer)
    → IsValid wb
    → text ≡ []
    → Reaches next pos n text wb (next pos n wb)
Reaches-none next pos n text wb v e = rw e (
  wb,
  ap₂ (λ p m. next p m wb) (omega arith) (omega arith),
  sym (append-nil (contents wb)),
  omega arith,
  v,
)

Reaches-more :
    (next : ℕ → ℕ → Buffer → Send) (pos n : ℕ) (s text rest : Bytes) (wb wb₁ : Buffer) (r : Send)
    → text ≡ s ++ rest
    → contents wb₁ ≡ contents wb ++ s
    → wleft wb₁ + length s ≡ wleft wb
    → Reaches next (pos + length s) (n - length s) rest wb₁ r
    → Reaches next pos n text wb r
Reaches-more next pos n s text rest wb wb₁ r e same room (wb₂, made, same₂, room₂, v₂) =
    let size : length text ≡ length s + length rest =
      omega (arith, ap length e, length-append s rest) in
    (
      wb₂,
      made ∙ ap₂ (λ p m. next p m wb₂) (omega (arith, size)) (omega (arith, size)),
      same₂
          ∙ ap (λ l. l ++ rest) same
          ∙ append_assoc (contents wb) s rest
          ∙ ap (λ l. contents wb ++ l) (sym e),
      omega (arith, size, room, room₂),
      v₂,
    )

pub write_prefix-Reaches :
    (fuel : ℕ) (ev : Event) (next : ℕ → ℕ → Buffer → Send) (pos n : ℕ) (wb : Buffer)
    → n < fuel
    → n ≤ wleft wb
    → IsValid wb
    → Reaches next pos n (take n (drop pos (event_head ev))) wb (write_prefix fuel ev next pos n wb)
unfolding write_prefix
write_prefix-Reaches zero ev next pos n wb h room v = absurd (omega arith)
write_prefix-Reaches (suc fuel) ev next pos n wb h room v = elim (Bool-cases (ltb 0 n)) [
  | inl some_left ↦ rw some_left (elim (Bool-cases (ltb pos (ext_pre ev))) [
    | inl inside ↦ rw inside (
        let s = piece ev pos n in
        let (is_part, long, short, part_inside) =
          piece-Pieced ev pos n (ltb-lt inside) (ltb-lt some_left) in
        let (wb₁, made, same, read_left, left, v₁) = write_full_lem wb s v (omega arith) in
        rw made (
          Reaches-more next pos n s (take n (drop pos (event_head ev)))
            (take (n - length s) (drop (pos + length s) (event_head ev))) wb wb₁
            (write_prefix fuel ev next (pos + length s) (n - length s) wb₁)
            (take-add (length s) (n - length s) n (drop pos (event_head ev)) (omega arith)
              ∙ ap₂ (λ x y. x ++ take (n - length s) y) is_part
                  (drop-drop pos (length s) (pos + length s) (event_head ev) refl))
            same (omega arith)
            (write_prefix-Reaches fuel ev next (pos + length s) (n - length s) wb₁ (omega arith)
              (omega arith) v₁)))
    | inr outside ↦ rw outside (
        Reaches-none next pos n (take n (drop pos (event_head ev))) wb v (
          ap (take n)
            (drop_all pos (event_head ev) (omega (arith, ltb-ge outside, length-event_head ev)))
          ∙ take_all n [] (omega arith)))
  ])
  | inr none_left ↦ rw none_left (
      let zero_left : n ≡ 0 = omega (arith, ltb-ge none_left) in
      Reaches-none next pos n (take n (drop pos (event_head ev))) wb v
        (ap (λ m. take m (drop pos (event_head ev))) zero_left))
]

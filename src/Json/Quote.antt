-- ===== src/Json/Quote.antt =====
-- src/util.cc and src/json.cc: `append_quoted_string`, and how JSON reads what stands in quotes.
use harmony_http.Prelude.{
  ℕ, zero, suc, ◌+◌, ◌-◌, ◌*◌, ◌/◌, ◌%◌, ◌<◌, ◌≡◌, refl, sym, ap, ◌∙◌, arith, [], ◌∷◌, ◌++◌,
  append_assoc, append-nil, Bytes, every, every_at, Bool, true, false, ltb, leb, ◌==◌, ==_iff,
  if◌then◌else◌, get_or, Bool-cases, inl, inr, Option, some, none, ◌&&◌, ◌||◌,
}
use harmony_http.Json.{
  must_escape, any_escape, hexchars, escape_char, escape_loop, append_quoted_string,
}

unfoldable pub escape : Bytes → Bytes
escape [] = []
escape (c ∷ s) = escape_char c ++ escape s

-- RFC 8259: what the characters of a string stand for; none where it allows no such character.
abbrev unhex : ℕ → Option ℕ
unhex c =
    if leb b'0' c && leb c b'9'
    then some (c - b'0')
    else if leb b'a' c && leb c b'f'
    then some (c - b'a' + 10)
    else if leb b'A' c && leb c b'F'
    then some (c - b'A' + 10)
    else none

abbrev short_escape : ℕ → Option ℕ
short_escape c =
    if (c == b'"') || (c == b'\\') || (c == b'/')
    then some c
    else if c == b'b'
    then some 8
    else if c == b'f'
    then some 12
    else if c == b'n'
    then some 10
    else if c == b'r'
    then some 13
    else if c == b't'
    then some 9
    else none

-- Inside a string: after a plain character, after a backslash, or in the digits of a code, with
-- how many follow the next one and what those read so far stand for.
pub data State : Type 0 where
  plain slash : State
  digits : ℕ → ℕ → State

abbrev prepend : Option ℕ → Option (Bytes × Bytes) → Option (Bytes × Bytes)
prepend (some c) (some (s, rest)) = some (c ∷ s, rest)
prepend _ _ = none

-- The string up to its closing quote, and what follows the quote. A quote that is not escaped ends
-- it, a control character is refused, and so is a code that is not one byte of ASCII.
unfoldable pub read : State → Bytes → Option (Bytes × Bytes)
read state [] = none
read plain (c ∷ s) =
    let escaped = read slash s in
    let rest = read plain s in
    if c == b'\\'
    then escaped
    else if c == b'"'
    then some ([], s)
    else if ltb c 32
    then none
    else prepend (some c) rest
read slash (c ∷ s) =
    let code = read (digits 3 0) s in
    let rest = read plain s in if c == b'u' then code else prepend (short_escape c) rest
read (digits zero acc) (c ∷ s) =
    let rest = read plain s in
    elim (unhex c) [
      | some d ↦ if ltb (acc * 16 + d) 128 then prepend (some (acc * 16 + d)) rest else none
      | none ↦ none
    ]
read (digits (suc n) acc) (c ∷ s) = elim (unhex c) [
  | some d ↦ read (digits n (acc * 16 + d)) s
  | none ↦ none
]

-- A string and what follows it: a quote, the characters, a quote.
unfoldable pub read_string : Bytes → Option (Bytes × Bytes)
unfolding read
read_string [] = none
read_string (c ∷ s) = let inside = read plain s in if c == b'"' then inside else none

abbrev is_digit : ℕ → Option ℕ → Bool
is_digit n (some d) = d == n
is_digit n none = false

is_digit-eq : (n : ℕ) (d : Option ℕ) → is_digit n d ≡ true → d ≡ some n
is_digit-eq n (some d) h = ap some ((==_iff d n).0 h)
is_digit-eq n none h = ground arith

hex_table : every (λ n. is_digit n (unhex (get_or hexchars n 0))) 16 ≡ true
unfolding every
hex_table = refl

unhex-hexchars : (n : ℕ) → n < 16 → unhex (get_or hexchars n 0) ≡ some n
unhex-hexchars n h =
    is_digit-eq n _ (every_at (λ m. is_digit m (unhex (get_or hexchars m 0))) 16 h hex_table)

-- The two digits that `escape_char` writes for a control character are read as that character.
read-digits :
    (c : ℕ) (s : Bytes)
    → c < 32
    → read (digits 1 0) (get_or hexchars (c / 16 % 16) 0 ∷ get_or hexchars (c % 16) 0 ∷ s)
      ≡ prepend (some c) (read plain s)
unfolding read
read-digits c s h =
    let code : (0 * 16 + c / 16 % 16) * 16 + c % 16 ≡ c = omega arith in
    let small : ltb c 128 ≡ true = ground arith in
    rw
      (
        unhex-hexchars (c / 16 % 16) (omega arith),
        unhex-hexchars (c % 16) (omega arith),
        read,
        code,
        small,
      )
      refl

below_32 : (c : ℕ) → ltb c 32 ≡ true → c < 32
below_32 c h = ground arith

read-escape_char :
    (c : ℕ) (s : Bytes) → read plain (escape_char c ++ s) ≡ prepend (some c) (read plain s)
unfolding escape_char read
read-escape_char c s = elim (Bool-cases (c == b'"')) [
  | inl h ↦ rw h (ap (λ d. prepend (some d) (read plain s)) (sym ((==_iff c b'"').0 h)))
  | inr h1 ↦ elim (Bool-cases (c == b'\\')) [
    | inl h ↦ rw (h1, h) (ground arith)
    | inr h2 ↦ elim (Bool-cases (c == 8)) [
      | inl h ↦ rw (h1, h2, h) (ground arith)
      | inr h3 ↦ elim (Bool-cases (c == 12)) [
        | inl h ↦ rw (h1, h2, h3, h) (ground arith)
        | inr h4 ↦ elim (Bool-cases (c == 10)) [
          | inl h ↦ rw (h1, h2, h3, h4, h) (ground arith)
          | inr h5 ↦ elim (Bool-cases (c == 13)) [
            | inl h ↦ rw (h1, h2, h3, h4, h5, h) (ground arith)
            | inr h6 ↦ elim (Bool-cases (c == 9)) [
              | inl h ↦ rw (h1, h2, h3, h4, h5, h6, h) (ground arith)
              | inr h7 ↦ elim (Bool-cases (ltb c 32)) [
                | inl h ↦ rw (h1, h2, h3, h4, h5, h6, h7, h) (read-digits c s (below_32 c h))
                | inr h ↦ rw (h1, h2, h3, h4, h5, h6, h7, h, h2, h1, h) refl
              ]
            ]
          ]
        ]
      ]
    ]
  ]
]

read-escape : (s rest : Bytes) → read plain (escape s ++ b'"' ∷ rest) ≡ some (s, rest)
unfolding escape
read-escape [] rest = unfold read in refl
read-escape (c ∷ s) rest =
    ap (read plain) (append_assoc (escape_char c) (escape s) (b'"' ∷ rest))
    ∙ read-escape_char c (escape s ++ b'"' ∷ rest)
    ∙ ap (prepend (some c)) (read-escape s rest)

escape_loop-eq : (s ret : Bytes) → escape_loop s ret ≡ ret ++ escape s
unfolding escape_loop escape
escape_loop-eq [] ret = sym (append-nil ret)
escape_loop-eq (c ∷ s) ret =
    escape_loop-eq s (ret ++ escape_char c) ∙ append_assoc ret (escape_char c) (escape s)

escape_char-plain : (c : ℕ) → must_escape c ≡ false → escape_char c ≡ c ∷ []
unfolding escape_char
escape_char-plain c h = ground arith

escape-plain : (s : Bytes) → any_escape s ≡ false → escape s ≡ s
unfolding escape any_escape
escape-plain [] h = refl
escape-plain (c ∷ s) h =
    ap (λ l. l ++ escape s) (escape_char-plain c (ground arith))
    ∙ ap (λ l. c ∷ l) (escape-plain s (ground arith))

-- The text of a string.
abbrev pub quoted : Bytes → Bytes
quoted sv = b'"' ∷ (escape sv ++ b'"' ∷ [])

-- The fast path writes what the loop would.
pub append_quoted_string-quoted : (sv ret : Bytes) → append_quoted_string sv ret ≡ ret ++ quoted sv
unfolding append_quoted_string
append_quoted_string-quoted sv ret = elim (Bool-cases (any_escape sv)) [
  | inl h ↦
      rw (h, escape_loop-eq sv (ret ++ b'"' ∷ []))
        (append_assoc (ret ++ b'"' ∷ []) (escape sv) (b'"' ∷ [])
          ∙ append_assoc ret (b'"' ∷ []) (escape sv ++ b'"' ∷ []))
  | inr h ↦
      rw (h, escape-plain sv h)
        (append_assoc (ret ++ b'"' ∷ []) sv (b'"' ∷ [])
          ∙ append_assoc ret (b'"' ∷ []) (sv ++ b'"' ∷ []))
]

-- `append_quoted_string` leaves what was written and appends, on its fast path as on its loop, a
-- text that a strict reader of JSON strings, whatever follows the text, reads up to its closing
-- quote and as exactly the bytes of the string. The reader takes a quote that is not escaped as the
-- end, refuses control characters, unknown escapes and digits that are not hexadecimal, and lets
-- every byte from 128 on stand for itself.
pub append_quoted_string_lem :
    (sv ret rest : Bytes)
    → (append_quoted_string sv ret ≡ ret ++ quoted sv)
      × (read_string (quoted sv ++ rest) ≡ some (sv, rest))
unfolding read_string
append_quoted_string_lem sv ret rest = (
  append_quoted_string-quoted sv ret,
  ap (read plain) (append_assoc (escape sv) (b'"' ∷ []) rest) ∙ read-escape sv rest,
)

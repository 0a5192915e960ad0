-- ===== src/Request/Params.antt =====
-- src/httprequest.h: `get_param`, the value of a variable of the route. `vars` is the vector of variables of the
-- router, which `dispatch_route` fills.
use harmony_http.Prelude.{
  ℕ, zero, suc, ◌+◌, ◌≤◌, ◌<◌, ◌≡◌, ◌≢◌, refl, sym, ap, ◌∙◌, arith, List, [], ◌∷◌, ◌++◌,
  append_assoc, length, length-append, take, Bytes, bytes_eq, bytes_eq_refl, true, false, Option,
  none, some, get_elem?, map, ◌==◌, if◌then◌else◌,
}
use harmony_http.Router.Paths.{join, path_of}

-- `route.substr(route.find('{') + 1)`; none for npos.
unfoldable pub after_brace : Bytes → Option Bytes
after_brace [] = none
after_brace (c ∷ s) = let rest = after_brace s in if c == b'{' then some s else rest

-- What `get_param` comes to; `out_of_range` is an index past the vector's end.
pub data Param : Type 0 where
  value : Bytes → Param
  nullopt out_of_range out_of_fuel : Param

abbrev pub at_index : Option Bytes → Param
at_index none = out_of_range
at_index (some v) = value v

-- The body of the loop on what is behind a brace, and the loop's next round.
unfoldable pub try_label : Bytes → List Bytes → ℕ → Bytes → Param → Param
try_label label vars index rest go_on =
    if bytes_eq (take (length label) rest) label then at_index (get_elem? vars index) else go_on

abbrev pub on_brace : Option Bytes → (Bytes → Param) → Param
on_brace none f = nullopt
on_brace (some rest) f = f rest

unfoldable pub param_loop : ℕ → Bytes → List Bytes → ℕ → Bytes → Param
unfolding after_brace try_label
param_loop zero label vars index route = out_of_fuel
param_loop (suc fuel) label vars index route =
    on_brace (after_brace route)
      (λ rest. try_label label vars index rest (param_loop fuel label vars (index + 1) rest))

-- Each round takes a byte of the route at least.
unfoldable pub get_param : Bytes → Bytes → List Bytes → Param
unfolding param_loop
get_param route label vars = param_loop (suc (length route)) label vars 0 route

-- A level of a route: a text without braces, or an opening brace and what follows it.
pub data Segment : Type 0 where
  static variable : Bytes → Segment

abbrev pub text : Segment → Bytes
text (static s) = s
text (variable s) = b'{' ∷ s

abbrev pub NoBrace : Bytes → Type 0
NoBrace [] = Unit {0}
NoBrace (c ∷ s) = (c ≢ b'{') × NoBrace s

abbrev pub body : Segment → Bytes
body (static s) = s
body (variable s) = s

abbrev pub AllPlain : List Segment → Type 0
AllPlain [] = Unit {0}
AllPlain (s ∷ ss) = NoBrace (body s) × AllPlain ss

-- The label is no prefix of a variable, whatever follows that.
abbrev pub Misses : Bytes → List Segment → Type 0
Misses label [] = Unit {0}
Misses label (static s ∷ ss) = Misses label ss
Misses label (variable s ∷ ss) =
    ((rest : Bytes) → bytes_eq (take (length label) (s ++ rest)) label ≡ false) × Misses label ss

abbrev pub variables : List Segment → ℕ
variables [] = 0
variables (static s ∷ ss) = variables ss
variables (variable s ∷ ss) = suc (variables ss)

NoBrace-append : (x y : Bytes) → NoBrace x → NoBrace y → NoBrace (x ++ b'/' ∷ y)
NoBrace-append [] y p q = (ground arith, q)
NoBrace-append (c ∷ x) y (p, ps) q = (p, NoBrace-append x y ps q)

after_brace-append : (x rest : Bytes) → NoBrace x → after_brace (x ++ rest) ≡ after_brace rest
unfolding after_brace
after_brace-append [] rest p = refl
after_brace-append (c ∷ x) rest (p, ps) =
    let other : (c == b'{') ≡ false = ground arith in rw other (after_brace-append x rest ps)

-- The text behind the first brace, with a level of the route before it.
after_brace-join :
    (x y rest : Bytes)
    → NoBrace x
    → after_brace (x ++ b'/' ∷ ((b'{' ∷ y) ++ rest)) ≡ some (y ++ rest)
unfolding after_brace
after_brace-join x y rest p = after_brace-append x (b'/' ∷ ((b'{' ∷ y) ++ rest)) p ∙ refl

take-label : (label e rest : Bytes) → take (length label) ((label ++ e) ++ rest) ≡ label
take-label [] e rest = refl
take-label (c ∷ label) e rest = ap (λ t. c ∷ t) (take-label label e rest)

module _ (label e : Bytes) (vars : List Bytes) (post : List Segment) where
  abbrev route_of : List Segment → List Bytes
  route_of pre = map text (pre ++ variable (label ++ e) ∷ post)

  loop_found :
      (pre : List Segment) (fuel index : ℕ) (x : Bytes)
      → AllPlain pre
      → Misses label pre
      → NoBrace x
      → variables pre < fuel
      → param_loop fuel label vars index (x ++ join (route_of pre))
        ≡ at_index (get_elem? vars (index + variables pre))
  unfolding param_loop try_label
  loop_found pre zero index x plain misses clear enough = absurd (omega arith)
  loop_found [] (suc fuel) index x plain misses clear enough =
      let rest = join (map text post) in
      let hit : bytes_eq (take (length label) ((label ++ e) ++ rest)) label ≡ true =
        rw (take-label label e rest) (bytes_eq_refl label) in
      let here : index + 0 ≡ index = omega arith in
      rw (after_brace-join x (label ++ e) rest clear, hit, here) refl
  loop_found (static y ∷ pre) (suc fuel) index x (p, plain) misses clear enough =
      ap (param_loop (suc fuel) label vars index)
        (sym (append_assoc x (b'/' ∷ y) (join (route_of pre))))
      ∙ loop_found pre (suc fuel) index (x ++ b'/' ∷ y) plain misses (NoBrace-append x y clear p)
          enough
  loop_found (variable y ∷ pre) (suc fuel) index x (p, plain) (miss, misses) clear enough =
      let rest = join (route_of pre) in
      let next : index + 1 + variables pre ≡ index + suc (variables pre) = omega arith in
      rw (after_brace-join x y rest clear, miss rest)
        (loop_found pre fuel (index + 1) y plain misses p (omega arith)
          ∙ ap (λ t. at_index (get_elem? vars t)) next)

  variables-le : (pre : List Segment) → variables pre ≤ length (join (route_of pre))
  variables-le [] = omega arith
  variables-le (static y ∷ pre) =
      omega (arith, variables-le pre, length-append y (join (route_of pre)))
  variables-le (variable y ∷ pre) =
      omega (arith, variables-le pre, length-append y (join (route_of pre)))

  path_of-join : (pre : List Segment) → path_of (route_of pre) ≡ join (route_of pre)
  path_of-join [] = refl
  path_of-join (s ∷ pre) = refl

  -- On a route of levels that are texts without an opening brace, or such a brace and a text without
  -- another, `get_param` ends and gives the element of the router's vector whose number is that of the
  -- first variable that begins with the label: none before it begins so, whatever follows.
  pub get_param_lem :
      (pre : List Segment)
      → AllPlain pre
      → Misses label pre
      → get_param (path_of (map text (pre ++ variable (label ++ e) ∷ post))) label vars
        ≡ at_index (get_elem? vars (variables pre))
  unfolding get_param
  get_param_lem pre plain misses =
      ap (λ t. param_loop (suc (length t)) label vars 0 t) (path_of-join pre)
      ∙ loop_found pre (suc (length (join (route_of pre)))) 0 [] plain misses tt
          (omega (arith, variables-le pre))
      ∙ ap (λ t. at_index (get_elem? vars t)) (omega arith)

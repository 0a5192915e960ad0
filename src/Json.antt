-- ===== src/Json.antt =====
-- src/json.cc and src/json.h, and `append_quoted_string` of src/util.cc, which is the same code:
-- the JSON writer, as functions on the string that its nodes append to. The text of a number is
-- what `snprintf` made of it.
pub mod Quote
pub mod Print
mod Tests
use harmony_http.Prelude.{
  ℕ, ◌/◌, ◌%◌, List, [], ◌∷◌, ◌++◌, Bytes, Bool, true, false, ◌||◌, ltb, ◌==◌, if◌then◌else◌, codes,
  get_or,
}

-- The condition of `any_of`.
abbrev pub must_escape : ℕ → Bool
must_escape c = (c == b'\\') || (c == b'"') || ltb c 32

unfoldable pub any_escape : Bytes → Bool
any_escape [] = false
any_escape (c ∷ s) = must_escape c || any_escape s

abbrev pub hexchars : Bytes
hexchars = codes "0123456789abcdef"

-- What the switch appends for a byte.
unfoldable pub escape_char : ℕ → Bytes
escape_char c =
    if c == b'"'
    then b'\\' ∷ b'"' ∷ []
    else if c == b'\\'
    then b'\\' ∷ b'\\' ∷ []
    else if c == 8
    then b'\\' ∷ b'b' ∷ []
    else if c == 12
    then b'\\' ∷ b'f' ∷ []
    else if c == 10
    then b'\\' ∷ b'n' ∷ []
    else if c == 13
    then b'\\' ∷ b'r' ∷ []
    else if c == 9
    then b'\\' ∷ b't' ∷ []
    else if ltb c 32
    then b'\\'
      ∷ b'u'
      ∷ b'0'
      ∷ b'0'
      ∷ get_or hexchars (c / 16 % 16) 0
      ∷ get_or hexchars (c % 16) 0
      ∷ []
    else c ∷ []

-- The loop over the bytes.
unfoldable pub escape_loop : Bytes → Bytes → Bytes
escape_loop [] ret = ret
escape_loop (c ∷ s) ret = escape_loop s (ret ++ escape_char c)

unfoldable pub append_quoted_string : Bytes → Bytes → Bytes
unfolding any_escape escape_loop
append_quoted_string sv ret =
    if any_escape sv
    then escape_loop sv (ret ++ b'"' ∷ []) ++ b'"' ∷ []
    else ((ret ++ b'"' ∷ []) ++ sv) ++ b'"' ∷ []

-- `ret_.back()` and `ret_.pop_back()`
abbrev pub last_char : Bytes → ℕ
last_char [] = 0
last_char (c ∷ []) = c
last_char (c ∷ d ∷ s) = last_char (d ∷ s)

abbrev pub but_last : Bytes → Bytes
but_last [] = []
but_last (c ∷ []) = []
but_last (c ∷ d ∷ s) = c ∷ but_last (d ∷ s)

-- The branches of `Node::operator=`; a bool is integral, and takes the branch of the numbers.
pub data Value : Type 0 where
  null_value : Value
  number unquoted text : Bytes → Value

unfoldable pub append_value : Value → Bytes → Bytes
append_value null_value ret = ret ++ codes "null"
append_value (number digits) ret = ret ++ digits
append_value (unquoted content) ret = ret ++ content
append_value (text sv) ret = append_quoted_string sv ret

unfoldable pub assign : Value → Bytes → Bytes
unfolding append_value
assign v ret = append_value v ret ++ b',' ∷ []

-- The ends of Array::~Array and Object::~Object.
unfoldable pub close : ℕ → Bytes → Bytes
close c ret = if last_char ret == b',' then but_last ret ++ c ∷ b',' ∷ [] else ret ++ c ∷ b',' ∷ []

unfoldable pub open_array : Bytes → Bytes
open_array ret = ret ++ b'[' ∷ []

unfoldable pub close_array : Bytes → Bytes
unfolding close
close_array ret = close b']' ret

unfoldable pub open_object : Bytes → Bytes
open_object ret = ret ++ b'{' ∷ []

unfoldable pub close_object : Bytes → Bytes
unfolding close
close_object ret = close b'}' ret

-- Object::operator[]
unfoldable pub member_key : Bytes → Bytes → Bytes
member_key key ret = ((ret ++ b'"' ∷ []) ++ key) ++ codes "\":"

-- Writer::string
unfoldable pub string : Bytes → Bytes
string ret = if last_char ret == b',' then but_last ret else ret

-- What a program can write: an Array holds arrays and objects only, and a member is a scalar, an
-- Array or an Object.
mutual
  pub data Json : Type 0 where
    scalar : Value → Json
    holds : Container → Json

  pub data Container : Type 0 where
    array : Containers → Container
    object : Members → Container

  pub data Containers : Type 0 where
    no_more : Containers
    next : Container → Containers → Containers

  pub data Members : Type 0 where
    no_member : Members
    member : Bytes → Json → Members → Members

-- The calls that write it, the destructors' included.
unfoldable mutual
  pub put_json : Json → Bytes → Bytes
  put_json (scalar v) ret = assign v ret
  put_json (holds c) ret = put c ret

  pub put : Container → Bytes → Bytes
  put (array cs) ret = close_array (put_all cs (open_array ret))
  put (object ms) ret = close_object (put_members ms (open_object ret))

  pub put_all : Containers → Bytes → Bytes
  put_all no_more ret = ret
  put_all (next c cs) ret = put_all cs (put c ret)

  pub put_members : Members → Bytes → Bytes
  put_members no_member ret = ret
  put_members (member k v ms) ret = put_members ms (put_json v (member_key k ret))

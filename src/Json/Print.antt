-- ===== src/Json/Print.antt =====
-- src/json.cc: the text that the JSON writer leaves.
use harmony_http.Prelude.{
  ℕ, ◌≡◌, refl, sym, ap, ◌∙◌, [], ◌∷◌, ◌++◌, append_assoc, append-nil, Bytes, false, ◌==◌, codes,
}
use harmony_http.Json.{
  Value, null_value, number, unquoted, text, append_value, assign, close, open_array, close_array,
  open_object, close_object, member_key, string, last_char, but_last, Json, scalar, holds,
  Container, array, object, Containers, no_more, next, Members, no_member, member, put_json, put,
  put_all, put_members,
}
use harmony_http.Json.Quote.{append_quoted_string-quoted, escape}

-- The text of a value, with commas between the elements of an array or an object only.
abbrev pub value_text : Value → Bytes
value_text null_value = codes "null"
value_text (number digits) = digits
value_text (unquoted content) = content
value_text (text sv) = b'"' ∷ (escape sv ++ b'"' ∷ [])

abbrev pub key_text : Bytes → Bytes
key_text k = b'"' ∷ (k ++ codes "\":")

unfoldable mutual
  pub json_text : Json → Bytes
  json_text (scalar v) = value_text v
  json_text (holds c) = container_text c

  pub container_text : Container → Bytes
  container_text (array cs) = b'[' ∷ (all_text cs ++ b']' ∷ [])
  container_text (object ms) = b'{' ∷ (members_text ms ++ b'}' ∷ [])

  pub all_text : Containers → Bytes
  all_text no_more = []
  all_text (next c no_more) = container_text c
  all_text (next c (next d cs)) = container_text c ++ b',' ∷ all_text (next d cs)

  pub members_text : Members → Bytes
  members_text no_member = []
  members_text (member k v no_member) = key_text k ++ json_text v
  members_text (member k v (member l w ms)) =
      (key_text k ++ json_text v) ++ b',' ∷ members_text (member l w ms)

last_char-snoc : (xs : Bytes) (c : ℕ) → last_char (xs ++ c ∷ []) ≡ c
last_char-snoc [] c = refl
last_char-snoc (x ∷ []) c = refl
last_char-snoc (x ∷ y ∷ xs) c = last_char-snoc (y ∷ xs) c

but_last-snoc : (xs : Bytes) (c : ℕ) → but_last (xs ++ c ∷ []) ≡ xs
but_last-snoc [] c = refl
but_last-snoc (x ∷ []) c = refl
but_last-snoc (x ∷ y ∷ xs) c = ap (λ l. x ∷ l) (but_last-snoc (y ∷ xs) c)

close-comma : (c : ℕ) (ret : Bytes) → close c (ret ++ b',' ∷ []) ≡ ret ++ c ∷ b',' ∷ []
unfolding close
close-comma c ret = rw (last_char-snoc ret b',', but_last-snoc ret b',') refl

close-open :
    (c o : ℕ) (ret : Bytes)
    → (o == b',') ≡ false
    → close c (ret ++ o ∷ []) ≡ (ret ++ o ∷ []) ++ c ∷ b',' ∷ []
unfolding close
close-open c o ret h = rw (last_char-snoc ret o, h) refl

assign-eq : (v : Value) (ret : Bytes) → assign v ret ≡ (ret ++ value_text v) ++ b',' ∷ []
unfolding assign append_value
assign-eq null_value ret = refl
assign-eq (number digits) ret = refl
assign-eq (unquoted content) ret = refl
assign-eq (text sv) ret = ap (λ l. l ++ b',' ∷ []) (append_quoted_string-quoted sv ret)

member_key-eq : (k ret : Bytes) → member_key k ret ≡ ret ++ key_text k
unfolding member_key
member_key-eq k ret =
    append_assoc (ret ++ b'"' ∷ []) k (codes "\":")
    ∙ append_assoc ret (b'"' ∷ []) (k ++ codes "\":")

-- What `close` makes of an open bracket and the elements written behind it.
wrap :
    (o c : ℕ) (ret inner : Bytes)
    → ((ret ++ o ∷ []) ++ inner) ++ c ∷ b',' ∷ [] ≡ (ret ++ o ∷ (inner ++ c ∷ [])) ++ b',' ∷ []
wrap o c ret inner =
    append_assoc (ret ++ o ∷ []) inner (c ∷ b',' ∷ [])
    ∙ append_assoc ret (o ∷ []) (inner ++ c ∷ b',' ∷ [])
    ∙ ap (λ l. ret ++ o ∷ l) (sym (append_assoc inner (c ∷ []) (b',' ∷ [])))
    ∙ sym (append_assoc ret (o ∷ (inner ++ c ∷ [])) (b',' ∷ []))

shift : (ret a rest : Bytes) → ((ret ++ a) ++ b',' ∷ []) ++ rest ≡ ret ++ (a ++ b',' ∷ rest)
shift ret a rest = append_assoc (ret ++ a) (b',' ∷ []) rest ∙ append_assoc ret a (b',' ∷ rest)

behind_key :
    (k ret v : Bytes)
    → (member_key k ret ++ v) ++ b',' ∷ [] ≡ (ret ++ (key_text k ++ v)) ++ b',' ∷ []
behind_key k ret v =
    ap (λ l. (l ++ v) ++ b',' ∷ []) (member_key-eq k ret)
    ∙ ap (λ l. l ++ b',' ∷ []) (append_assoc ret (key_text k) v)

-- The elements of an array or an object, each with the comma that is written behind it.
abbrev ended : Containers → Bytes
ended no_more = []
ended (next c cs) = container_text c ++ b',' ∷ ended cs

abbrev ended_members : Members → Bytes
ended_members no_member = []
ended_members (member k v ms) = (key_text k ++ json_text v) ++ b',' ∷ ended_members ms

ended-eq : (c : Container) (cs : Containers) → ended (next c cs) ≡ all_text (next c cs) ++ b',' ∷ []
unfolding json_text
ended-eq c no_more = refl
ended-eq c (next d cs) =
    ap (λ l. container_text c ++ b',' ∷ l) (ended-eq d cs)
    ∙ sym (append_assoc (container_text c) (b',' ∷ all_text (next d cs)) (b',' ∷ []))

ended_members-eq :
    (k : Bytes) (v : Json) (ms : Members)
    → ended_members (member k v ms) ≡ members_text (member k v ms) ++ b',' ∷ []
unfolding json_text
ended_members-eq k v no_member = refl
ended_members-eq k v (member l w ms) =
    ap (λ t. (key_text k ++ json_text v) ++ b',' ∷ t) (ended_members-eq l w ms)
    ∙ sym
        (append_assoc (key_text k ++ json_text v) (b',' ∷ members_text (member l w ms)) (b',' ∷ []))

-- What a destructor makes of elements that end in a comma.
close-ended :
    (o c : ℕ) (ret all elements : Bytes)
    → all ≡ elements ++ b',' ∷ []
    → close c ((ret ++ o ∷ []) ++ all) ≡ (ret ++ o ∷ (elements ++ c ∷ [])) ++ b',' ∷ []
close-ended o c ret all elements e =
    ap (λ l. close c ((ret ++ o ∷ []) ++ l)) e
    ∙ ap (close c) (sym (append_assoc (ret ++ o ∷ []) elements (b',' ∷ [])))
    ∙ close-comma c ((ret ++ o ∷ []) ++ elements)
    ∙ wrap o c ret elements

close-empty :
    (o c : ℕ) (ret : Bytes)
    → (o == b',') ≡ false
    → close c ((ret ++ o ∷ []) ++ []) ≡ (ret ++ o ∷ c ∷ []) ++ b',' ∷ []
close-empty o c ret h =
    ap (close c) (append-nil (ret ++ o ∷ []))
    ∙ close-open c o ret h
    ∙ ap (λ l. l ++ c ∷ b',' ∷ []) (sym (append-nil (ret ++ o ∷ [])))
    ∙ wrap o c ret []

close_array-eq :
    (cs : Containers) (ret : Bytes)
    → close_array ((ret ++ b'[' ∷ []) ++ ended cs) ≡ (ret ++ container_text (array cs)) ++ b',' ∷ []
unfolding close_array json_text
close_array-eq no_more ret = close-empty b'[' b']' ret refl
close_array-eq (next c cs) ret =
    close-ended b'[' b']' ret (ended (next c cs)) (all_text (next c cs)) (ended-eq c cs)

close_object-eq :
    (ms : Members) (ret : Bytes)
    → close_object ((ret ++ b'{' ∷ []) ++ ended_members ms)
      ≡ (ret ++ container_text (object ms)) ++ b',' ∷ []
unfolding close_object json_text
close_object-eq no_member ret = close-empty b'{' b'}' ret refl
close_object-eq (member k v ms) ret =
    close-ended b'{' b'}' ret (ended_members (member k v ms)) (members_text (member k v ms))
      (ended_members-eq k v ms)

mutual
  unfolding put json_text open_array open_object

  put_json-eq : (j : Json) (ret : Bytes) → put_json j ret ≡ (ret ++ json_text j) ++ b',' ∷ []
  put_json-eq (scalar v) ret = assign-eq v ret
  put_json-eq (holds c) ret = put-eq c ret

  put-eq : (c : Container) (ret : Bytes) → put c ret ≡ (ret ++ container_text c) ++ b',' ∷ []
  put-eq (array cs) ret = ap close_array (put_all-eq cs (ret ++ b'[' ∷ [])) ∙ close_array-eq cs ret
  put-eq (object ms) ret =
      ap close_object (put_members-eq ms (ret ++ b'{' ∷ [])) ∙ close_object-eq ms ret

  put_all-eq : (cs : Containers) (ret : Bytes) → put_all cs ret ≡ ret ++ ended cs
  put_all-eq no_more ret = sym (append-nil ret)
  put_all-eq (next c cs) ret =
      put_all-eq cs (put c ret)
      ∙ ap (λ l. l ++ ended cs) (put-eq c ret)
      ∙ shift ret (container_text c) (ended cs)

  put_members-eq : (ms : Members) (ret : Bytes) → put_members ms ret ≡ ret ++ ended_members ms
  put_members-eq no_member ret = sym (append-nil ret)
  put_members-eq (member k v ms) ret =
      put_members-eq ms (put_json v (member_key k ret))
      ∙ ap (λ l. l ++ ended_members ms)
          (put_json-eq v (member_key k ret) ∙ behind_key k ret (json_text v))
      ∙ shift ret (key_text k ++ json_text v) (ended_members ms)

-- What the writer's string is after a scalar, an array or an object was written at its root: the
-- JSON text of it, with a comma between two elements and none after the last, at every depth.
pub string-put_json : (j : Json) → string (put_json j []) ≡ json_text j
unfolding string
string-put_json j =
    rw (put_json-eq j [], last_char-snoc (json_text j) b',', but_last-snoc (json_text j) b',') refl

-- ===== src/Header.antt =====
-- src/util.cc: header names. `lookup_header` picks a name by its length and its last byte, and
-- compares what stands before that byte, ignoring case.
pub mod Case
pub mod Lookup
mod Tests
use harmony_http.Prelude.{
  ℕ, suc, ◌+◌, ◌-◌, ◌≡◌, List, [], ◌∷◌, Bytes, Bool, true, false, ◌&&◌, ◌||◌, leb, ◌==◌,
  if◌then◌else◌, length, take, codes,
}

unfoldable pub is_alpha : ℕ → Bool
is_alpha c = (leb b'a' c && leb c b'z') || (leb b'A' c && leb c b'Z')

unfoldable pub is_upper : ℕ → Bool
is_upper c = leb b'A' c && leb c b'Z'

-- The byte that `c - 'A' + 'a'` is.
unfoldable pub to_lower : ℕ → ℕ
unfolding is_alpha is_upper
to_lower c = if is_alpha c then (if is_upper c then c - b'A' + b'a' else c) else c

-- The loop of `streq_l`, over two strings of one length.
unfoldable pub same_lower : Bytes → Bytes → Bool
unfolding to_lower
same_lower [] bs = true
same_lower (a ∷ as_) [] = true
same_lower (a ∷ as_) (b ∷ bs) = (to_lower a == to_lower b) && same_lower as_ bs

unfoldable pub streq_l : Bytes → Bytes → Bool
unfolding same_lower
streq_l a b = (length a == length b) && same_lower a b

-- `enum class HttpHeader`; the names of pseudo headers have their prefix written out.
pub data HttpHeader : Type 0 where
  pseudo_authority pseudo_host pseudo_method pseudo_path pseudo_protocol pseudo_scheme : HttpHeader
  pseudo_status accept_encoding accept_language alt_svc cache_control connection : HttpHeader
  content_length content_type cookie date early_data expect forwarded host http2_settings :
      HttpHeader
  if_modified_since keep_alive link location proxy_connection sec_websocket_accept : HttpHeader
  sec_websocket_key server te trailer transfer_encoding upgrade user_agent via : HttpHeader
  x_forwarded_for x_forwarded_proto max_idx not_found : HttpHeader

-- The cases of the outer switch, one function for each length: `last` is the last byte of the
-- name, and `eq` compares a literal with the bytes before it.
unfoldable pub header_2 : ℕ → (Bytes → Bool) → HttpHeader
header_2 last eq = if last == b'e' then (if eq (codes "t") then te else not_found) else not_found

unfoldable pub header_3 : ℕ → (Bytes → Bool) → HttpHeader
header_3 last eq = if last == b'a' then (if eq (codes "vi") then via else not_found) else not_found

unfoldable pub header_4 : ℕ → (Bytes → Bool) → HttpHeader
header_4 last eq =
    if last == b'e'
    then (if eq (codes "dat") then date else not_found)
    else if last == b'k'
    then (if eq (codes "lin") then link else not_found)
    else if last == b't'
    then (if eq (codes "hos") then host else not_found)
    else not_found

unfoldable pub header_5 : ℕ → (Bytes → Bool) → HttpHeader
header_5 last eq =
    if last == b'h'
    then (if eq (codes ":pat") then pseudo_path else not_found)
    else if last == b't'
    then (if eq (codes ":hos") then host else not_found)
    else not_found

unfoldable pub header_6 : ℕ → (Bytes → Bool) → HttpHeader
header_6 last eq =
    if last == b'e'
    then (if eq (codes "cooki") then cookie else not_found)
    else if last == b'r'
    then (if eq (codes "serve") then server else not_found)
    else if last == b't'
    then (if eq (codes "expec") then expect else not_found)
    else not_found

unfoldable pub header_7 : ℕ → (Bytes → Bool) → HttpHeader
header_7 last eq =
    if last == b'c'
    then (if eq (codes "alt-sv") then alt_svc else not_found)
    else if last == b'd'
    then (if eq (codes ":metho") then pseudo_method else not_found)
    else if last == b'e'
    then (if eq (codes ":schem")
        then pseudo_scheme
        else if eq (codes "upgrad")
        then upgrade
        else not_found)
    else if last == b'r'
    then (if eq (codes "traile") then trailer else not_found)
    else if last == b's'
    then (if eq (codes ":statu") then pseudo_status else not_found)
    else not_found

unfoldable pub header_8 : ℕ → (Bytes → Bool) → HttpHeader
header_8 last eq =
    if last == b'n' then (if eq (codes "locatio") then location else not_found) else not_found

unfoldable pub header_9 : ℕ → (Bytes → Bool) → HttpHeader
header_9 last eq =
    if last == b'd'
    then (if eq (codes "forwarde") then forwarded else not_found)
    else if last == b'l'
    then (if eq (codes ":protoco") then pseudo_protocol else not_found)
    else not_found

unfoldable pub header_10 : ℕ → (Bytes → Bool) → HttpHeader
header_10 last eq =
    if last == b'a'
    then (if eq (codes "early-dat") then early_data else not_found)
    else if last == b'e'
    then (if eq (codes "keep-aliv") then keep_alive else not_found)
    else if last == b'n'
    then (if eq (codes "connectio") then connection else not_found)
    else if last == b't'
    then (if eq (codes "user-agen") then user_agent else not_found)
    else if last == b'y'
    then (if eq (codes ":authorit") then pseudo_authority else not_found)
    else not_found

unfoldable pub header_12 : ℕ → (Bytes → Bool) → HttpHeader
header_12 last eq =
    if last == b'e'
    then (if eq (codes "content-typ") then content_type else not_found)
    else not_found

unfoldable pub header_13 : ℕ → (Bytes → Bool) → HttpHeader
header_13 last eq =
    if last == b'l'
    then (if eq (codes "cache-contro") then cache_control else not_found)
    else not_found

unfoldable pub header_14 : ℕ → (Bytes → Bool) → HttpHeader
header_14 last eq =
    if last == b'h'
    then (if eq (codes "content-lengt") then content_length else not_found)
    else if last == b's'
    then (if eq (codes "http2-setting") then http2_settings else not_found)
    else not_found

unfoldable pub header_15 : ℕ → (Bytes → Bool) → HttpHeader
header_15 last eq =
    if last == b'e'
    then (if eq (codes "accept-languag") then accept_language else not_found)
    else if last == b'g'
    then (if eq (codes "accept-encodin") then accept_encoding else not_found)
    else if last == b'r'
    then (if eq (codes "x-forwarded-fo") then x_forwarded_for else not_found)
    else not_found

unfoldable pub header_16 : ℕ → (Bytes → Bool) → HttpHeader
header_16 last eq =
    if last == b'n'
    then (if eq (codes "proxy-connectio") then proxy_connection else not_found)
    else not_found

unfoldable pub header_17 : ℕ → (Bytes → Bool) → HttpHeader
header_17 last eq =
    if last == b'e'
    then (if eq (codes "if-modified-sinc") then if_modified_since else not_found)
    else if last == b'g'
    then (if eq (codes "transfer-encodin") then transfer_encoding else not_found)
    else if last == b'o'
    then (if eq (codes "x-forwarded-prot") then x_forwarded_proto else not_found)
    else if last == b'y'
    then (if eq (codes "sec-websocket-ke") then sec_websocket_key else not_found)
    else not_found

unfoldable pub header_20 : ℕ → (Bytes → Bool) → HttpHeader
header_20 last eq =
    if last == b't'
    then (if eq (codes "sec-websocket-accep") then sec_websocket_accept else not_found)
    else not_found

-- The outer switch.
unfoldable pub lookup_sized : ℕ → ℕ → (Bytes → Bool) → HttpHeader
lookup_sized size last eq =
    if size == 2
    then header_2 last eq
    else if size == 3
    then header_3 last eq
    else if size == 4
    then header_4 last eq
    else if size == 5
    then header_5 last eq
    else if size == 6
    then header_6 last eq
    else if size == 7
    then header_7 last eq
    else if size == 8
    then header_8 last eq
    else if size == 9
    then header_9 last eq
    else if size == 10
    then header_10 last eq
    else if size == 12
    then header_12 last eq
    else if size == 13
    then header_13 last eq
    else if size == 14
    then header_14 last eq
    else if size == 15
    then header_15 last eq
    else if size == 16
    then header_16 last eq
    else if size == 17
    then header_17 last eq
    else if size == 20
    then header_20 last eq
    else not_found

-- `name[name.size() - 1]`, which only names of two bytes and more are asked for.
abbrev pub last_byte : Bytes → ℕ
last_byte [] = 0
last_byte (c ∷ []) = c
last_byte (c ∷ d ∷ s) = last_byte (d ∷ s)

unfoldable pub lookup_header : Bytes → HttpHeader
unfolding streq_l
lookup_header name =
    lookup_sized (length name) (last_byte name) (λ lit. streq_l lit (take (length name - 1) name))

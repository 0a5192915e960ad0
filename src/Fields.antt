-- ===== src/Fields.antt =====
-- src/stream.h and src/stream.cc: `Stream::Headers`, the header fields of a request. The fields
-- that the server itself reads have members of their own; of the others ten stand in an array and
-- the rest in a vector.
pub mod Lookup
mod Tests
use harmony_http.Prelude.{
  ℕ, zero, suc, ◌+◌, List, [], ◌∷◌, ◌++◌, Bytes, Bool, Option, some, none, ltb, ◌==◌, if◌then◌else◌,
  length, codes,
}
use harmony_http.Header.{
  HttpHeader, lookup_header, streq_l, pseudo_method, pseudo_scheme, pseudo_authority, pseudo_host,
  pseudo_path, expect, if_modified_since,
}
use harmony_http.Router.{Method}
use harmony_http.Router.Methods.{method_from_string}

abbrev pub max_nva_len : ℕ
max_nva_len = 10

-- nghttp2_rcbuf: a counted buffer, known by its address.
pub record Rcbuf : Type 0 where
  pub address : ℕ
  pub base : Bytes

abbrev pub RcbufPair : Type 0
RcbufPair = Rcbuf × Rcbuf

-- The calls of nghttp2_rcbuf_incref and nghttp2_rcbuf_decref.
pub data Count : Type 0 where
  incref decref : Rcbuf → Count

-- The used part of `nva` is its list, and `nvlen` the list's length.
pub record Headers : Type 0 where
  pub method : Option Method
  pub scheme : Option Rcbuf
  pub authority : Option Rcbuf
  pub host_buf : Option Rcbuf
  pub path : Option Rcbuf
  pub expect_buf : Option Rcbuf
  pub ims : Option Rcbuf
  pub nva : List RcbufPair
  pub additional : List RcbufPair
  pub counts : List Count

-- RCBuf::RCBuf; `method` is not set.
abbrev pub empty : Headers
empty = record {
  method = none;
  scheme = none;
  authority = none;
  host_buf = none;
  path = none;
  expect_buf = none;
  ims = none;
  nva = [];
  additional = [];
  counts = [];
}

abbrev pub get_string_view : Option Rcbuf → Option Bytes
get_string_view none = none
get_string_view (some b) = some b.base

-- The default case of the switch.
unfoldable pub add_other : Rcbuf → Rcbuf → Headers → Headers
add_other name value h =
    let counts = h.counts ++ incref value ∷ incref name ∷ [] in
    if ltb (length h.nva) max_nva_len
    then record h { nva = h.nva ++ (name, value) ∷ []; counts = counts }
    else record h { additional = h.additional ++ (name, value) ∷ []; counts = counts }

-- The switch; a member that was set is written over.
unfoldable pub add_case : HttpHeader → Rcbuf → Rcbuf → Headers → Headers
unfolding add_other
add_case pseudo_method name value h = record h {
  method = some (method_from_string value.base);
  counts = h.counts ++ incref value ∷ decref value ∷ [];
}
add_case pseudo_scheme name value h = record h {
  scheme = some value;
  counts = h.counts ++ incref value ∷ [];
}
add_case pseudo_authority name value h = record h {
  authority = some value;
  counts = h.counts ++ incref value ∷ [];
}
add_case pseudo_host name value h = record h {
  host_buf = some value;
  counts = h.counts ++ incref value ∷ [];
}
add_case pseudo_path name value h = record h {
  path = some value;
  counts = h.counts ++ incref value ∷ [];
}
add_case expect name value h = record h {
  expect_buf = some value;
  counts = h.counts ++ incref value ∷ [];
}
add_case if_modified_since name value h = record h {
  ims = some value;
  counts = h.counts ++ incref value ∷ [];
}
add_case _ name value h = add_other name value h

unfoldable pub add_header : Rcbuf → Rcbuf → Headers → Headers
add_header name value h = add_case (lookup_header name.base) name value h

-- The loops of `get_header`: the first pair whose name is the one asked for.
unfoldable pub find_pair : Bytes → List RcbufPair → Option Bytes
find_pair header_name [] = none
find_pair header_name ((name, value) ∷ ps) =
    let rest = find_pair header_name ps in
    if streq_l header_name name.base then some value.base else rest

unfoldable pub get_header : Bytes → Headers → Option Bytes
get_header header_name h =
    if streq_l header_name (codes "expect")
    then get_string_view h.expect_buf
    else if streq_l header_name (codes "if-modified-since")
    then get_string_view h.ims
    else elim (find_pair header_name h.nva) [
      | some v ↦ some v
      | none ↦ if length h.nva == max_nva_len then find_pair header_name h.additional else none
    ]

-- RCBuf::~RCBuf: every buffer that is held is given back.
unfoldable pub release_pairs : List RcbufPair → List Count
release_pairs [] = []
release_pairs ((name, value) ∷ ps) = decref name ∷ decref value ∷ release_pairs ps

abbrev pub release_one : Option Rcbuf → List Count
release_one none = []
release_one (some b) = decref b ∷ []

unfoldable pub release : Headers → List Count
unfolding release_pairs
release h =
    release_one h.scheme
    ++ release_one h.authority
    ++ release_one h.host_buf
    ++ release_one h.path
    ++ release_one h.expect_buf
    ++ release_one h.ims
    ++ release_pairs h.nva
    ++ (if length h.nva == max_nva_len then release_pairs h.additional else [])

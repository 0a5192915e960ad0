-- ===== src/Response.antt =====
-- src/stream.h: `Stream::ResponseHeader`, the name-value pairs of a response. The first ten stand in
-- an array whose first slot is kept for :status; from the eleventh on all are in a vector.
-- `N` is the type of nghttp2_nv.
pub mod Order
mod Tests
use harmony_http.Prelude.{
  ℕ, suc, ◌+◌, List, [], ◌∷◌, ◌++◌, ltb, leb, ◌==◌, if◌then◌else◌, set, take,
}

abbrev pub max_nva_len : ℕ
max_nva_len = 10

abbrev pub reserved_response_headers_len : ℕ
reserved_response_headers_len = 1

pub record ResponseHeader (N : Type 0) : Type 0 where
  pub nva : List N
  pub nvector : List N
  pub nvlen : ℕ

module _ {N : Type 0} where
  -- The constructor; the array holds what it held.
  abbrev pub fresh : List N → ResponseHeader N
  fresh slots = record { nva = slots; nvector = []; nvlen = reserved_response_headers_len }

  unfoldable pub push_header : N → ResponseHeader N → ResponseHeader N
  push_header nv r =
      if ltb r.nvlen max_nva_len
      then record r { nva = set r.nva r.nvlen nv; nvlen = suc r.nvlen }
      else record r {
        nvector = (if r.nvlen == max_nva_len then r.nvector ++ r.nva else r.nvector) ++ nv ∷ [];
        nvlen = suc r.nvlen;
      }

  -- `nv` is the pair of ":status" and the status.
  unfoldable pub set_status : N → ResponseHeader N → ResponseHeader N
  set_status nv r =
      if leb r.nvlen max_nva_len
      then record r { nva = set r.nva 0 nv }
      else record r { nvector = set r.nvector 0 nv }

  -- What a reader of `nvlen` pairs from the pointer finds.
  unfoldable pub get_buffer : ResponseHeader N → List N
  get_buffer r = if leb r.nvlen max_nva_len then take r.nvlen r.nva else take r.nvlen r.nvector

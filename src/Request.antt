-- ===== src/Request.antt =====
-- src/httprequest.cc: how the body of a request reaches its handler. A coroutine handle is whether
-- one is registered; `delivered` is what callbacks were called with and coroutines resumed with.
pub mod Delivery
pub mod Params
mod Tests
use harmony_http.Prelude.{
  List, [], ◌∷◌, ◌++◌, Bytes, Bool, true, false, not, ◌||◌, Option, some, none, if◌then◌else◌,
}

pub data Delivered : Type 0 where
  data_callback body_callback data_resumed body_resumed : Bytes → Delivered

pub record HttpRequest : Type 0 where
  pub body : Bytes
  pub data_chunk : Bytes
  pub data_chunk_mode : Bool
  pub data_ready : Bool
  pub buffered : Bool
  pub on_body_cb : Bool
  pub on_data_cb : Bool
  pub body_coro : Bool
  pub data_coro : Bool
  pub delivered : List Delivered

abbrev pub new_request : HttpRequest
new_request = record {
  body = [];
  data_chunk = [];
  data_chunk_mode = false;
  data_ready = false;
  buffered = false;
  on_body_cb = false;
  on_data_cb = false;
  body_coro = false;
  data_coro = false;
  delivered = [];
}

unfoldable pub deliver : Delivered → HttpRequest → HttpRequest
deliver d r = record r { delivered = r.delivered ++ d ∷ [] }

unfoldable pub on_body : HttpRequest → HttpRequest
on_body r = record r { data_chunk_mode = false; on_body_cb = true }

unfoldable pub on_data : HttpRequest → HttpRequest
unfolding deliver
on_data r =
    let r' = record r { data_chunk_mode = true; on_data_cb = true } in
    if r.buffered then record (deliver (data_callback r.body) r') { buffered = false } else r'

-- `body()` and `data()` up to their result, or none where they suspend.
unfoldable pub await_body : HttpRequest → HttpRequest × Option Bytes
await_body r = (
  record r { data_chunk_mode = false; body_coro = true },
  if r.data_ready then some r.body else none,
)

unfoldable pub await_data : HttpRequest → HttpRequest × Option Bytes
await_data r =
    let r' = record r { data_chunk_mode = true; data_coro = true } in
    if r.buffered
    then (record r' { buffered = false }, some r.body)
    else (record r' { body = [] }, if r.data_ready then some [] else none)

unfoldable pub add_to_body : Bytes → HttpRequest → HttpRequest
add_to_body str r = record r { body = r.body ++ str }

abbrev pub is_empty : Bytes → Bool
is_empty [] = true
is_empty (c ∷ s) = false

-- The assertion in it, that a chunk at the end of file is empty, holds at both calls.
unfoldable pub handle_data : Bytes → Bool → HttpRequest → HttpRequest
unfolding deliver add_to_body
handle_data str eof r =
    let keep = λ (q : HttpRequest). add_to_body str (record q { buffered = true }) in
    let r' = record r { data_chunk = str } in
    if not (is_empty str) || eof
    then if r.data_chunk_mode
      then if r.data_coro
        then deliver (data_resumed str) r'
        else if r.on_data_cb
        then deliver (data_callback str) r'
        else keep r'
      else keep r
    else r

unfoldable pub handle_body : HttpRequest → HttpRequest
unfolding handle_data deliver
handle_body r =
    if r.data_chunk_mode
    then handle_data [] true r
    else if r.body_coro
    then deliver (body_resumed r.body) r
    else if r.on_body_cb
    then deliver (body_callback r.body) r
    else record r { data_ready = true }

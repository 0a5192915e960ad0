-- ===== src/Request/Delivery.antt =====
-- src/httprequest.cc: handlers that are called back, registered before or while the body arrives.
use mathlib.Core.Path.{subst}
use harmony_http.Prelude.{
  ◌≡◌, refl, sym, ap, ◌∙◌, List, [], ◌∷◌, ◌++◌, append_assoc, append-nil, Bytes, Bool, true, false,
  not,
}
use harmony_http.Request.{
  HttpRequest, Delivered, data_callback, body_callback, new_request, deliver, on_body, on_data,
  add_to_body, is_empty, handle_data, handle_body,
}

-- The chunks of DATA frames, handled one after another.
unfoldable pub receive : List Bytes → HttpRequest → HttpRequest
receive [] r = r
receive (c ∷ cs) r = receive cs (handle_data c false r)

abbrev pub join : List Bytes → Bytes
join [] = []
join (c ∷ cs) = c ++ join cs

-- The callback for chunks is called with each of the parts, and nothing else is called or resumed.
abbrev chunk_calls : List Bytes → List Delivered
chunk_calls [] = []
chunk_calls (c ∷ cs) = data_callback c ∷ chunk_calls cs

abbrev pub ChunkCalls : List Delivered → Bytes → Type 0
ChunkCalls ds s = (parts : List Bytes) × (ds ≡ chunk_calls parts) × (join parts ≡ s)

chunk_calls-append :
    (xs : List Bytes) (c : Bytes)
    → chunk_calls (xs ++ c ∷ []) ≡ chunk_calls xs ++ data_callback c ∷ []
chunk_calls-append [] c = refl
chunk_calls-append (x ∷ xs) c = ap (λ l. data_callback x ∷ l) (chunk_calls-append xs c)

join-append : (xs : List Bytes) (c : Bytes) → join (xs ++ c ∷ []) ≡ join xs ++ c
join-append [] c = append-nil c
join-append (x ∷ xs) c = ap (λ l. x ++ l) (join-append xs c) ∙ sym (append_assoc x (join xs) c)

-- A request that buffers its body.
record Buffers (cb : Bool) (r : HttpRequest) (s : Bytes) : Type 0 where
  called : r.on_body_cb ≡ cb
  whole : r.data_chunk_mode ≡ false
  no_body_coro : r.body_coro ≡ false
  no_data_coro : r.data_coro ≡ false
  none_yet : r.delivered ≡ []
  held : r.body ≡ s
  unbuffered : r.buffered ≡ not (is_empty s)

is_empty-append : (s c : Bytes) → is_empty c ≡ false → is_empty (s ++ c) ≡ false
is_empty-append [] c h = h
is_empty-append (x ∷ s) c h = refl

handle_data-Buffers :
    {cb : Bool} (c : Bytes) (r : HttpRequest) (s : Bytes)
    → Buffers cb r s
    → Buffers cb (handle_data c false r) (s ++ c)
unfolding handle_data add_to_body
handle_data-Buffers [] r s b = rw (append-nil s) b
handle_data-Buffers (x ∷ c) r s b = rw b.whole (record {
  whole = refl;
  called = b.called;
  no_body_coro = b.no_body_coro;
  no_data_coro = b.no_data_coro;
  none_yet = b.none_yet;
  held = ap (λ l. l ++ x ∷ c) b.held;
  unbuffered = ap not (sym (is_empty-append s (x ∷ c) refl));
})

receive-Buffers :
    {cb : Bool} (cs : List Bytes) (r : HttpRequest) (s : Bytes)
    → Buffers cb r s
    → Buffers cb (receive cs r) (s ++ join cs)
unfolding receive
receive-Buffers [] r s b = rw (append-nil s) b
receive-Buffers (c ∷ cs) r s b =
    rw (sym (append_assoc s c (join cs)))
      (receive-Buffers cs (handle_data c false r) (s ++ c) (handle_data-Buffers c r s b))

new-Buffers : Buffers false new_request []
new-Buffers = record {
  called = refl;
  whole = refl;
  no_body_coro = refl;
  no_data_coro = refl;
  none_yet = refl;
  held = refl;
  unbuffered = refl;
}

on_body-Buffers : (r : HttpRequest) (s : Bytes) → Buffers false r s → Buffers true (on_body r) s
unfolding on_body
on_body-Buffers r s b = record {
  called = refl;
  whole = refl;
  no_body_coro = b.no_body_coro;
  no_data_coro = b.no_data_coro;
  none_yet = b.none_yet;
  held = b.held;
  unbuffered = b.unbuffered;
}

handle_body-Buffers :
    (r : HttpRequest) (s : Bytes)
    → Buffers true r s
    → (handle_body r).delivered ≡ body_callback s ∷ []
unfolding handle_body deliver
handle_body-Buffers r s b =
    rw (b.whole, b.no_body_coro, b.called, b.held) (ap (λ l. l ++ body_callback s ∷ []) b.none_yet)

-- A callback for the whole body, registered after any number of chunks and before the end, is called
-- once, at the end, with every byte of the chunks before and after it in their order.
pub on_body_lem :
    (before after : List Bytes)
    → (handle_body (receive after (on_body (receive before new_request)))).delivered
      ≡ body_callback (join before ++ join after) ∷ []
on_body_lem before after =
    let early = receive-Buffers before new_request [] new-Buffers in
    let there = on_body-Buffers (receive before new_request) (join before) early in
    handle_body-Buffers (receive after (on_body (receive before new_request)))
      (join before ++ join after)
      (receive-Buffers after (on_body (receive before new_request)) (join before) there)

-- A request whose chunks are handed on, with the bytes delivered so far.
record Streams (r : HttpRequest) (s : Bytes) : Type 0 where
  chunked : r.data_chunk_mode ≡ true
  no_coro : r.data_coro ≡ false
  has_cb : r.on_data_cb ≡ true
  sent : ChunkCalls r.delivered s

deliver-sent :
    (d : List Delivered) (c s : Bytes)
    → ChunkCalls d s
    → ChunkCalls (d ++ data_callback c ∷ []) (s ++ c)
deliver-sent d c s (parts, e, whole) = (
  parts ++ c ∷ [],
  ap (λ l. l ++ data_callback c ∷ []) e ∙ sym (chunk_calls-append parts c),
  join-append parts c ∙ ap (λ l. l ++ c) whole,
)

handle_data-Streams :
    (c : Bytes) (eof : Bool) (r : HttpRequest) (s : Bytes)
    → Streams r s
    → Streams (handle_data c eof r) (s ++ c)
unfolding handle_data deliver
handle_data-Streams [] false r s b = rw (append-nil s) b
handle_data-Streams [] true r s b =
    rw (b.chunked, b.no_coro, b.has_cb)
      (record {
        chunked = refl;
        no_coro = refl;
        has_cb = refl;
        sent = deliver-sent r.delivered [] s b.sent;
      })
handle_data-Streams (x ∷ c) eof r s b =
    rw (b.chunked, b.no_coro, b.has_cb)
      (record {
        chunked = refl;
        no_coro = refl;
        has_cb = refl;
        sent = deliver-sent r.delivered (x ∷ c) s b.sent;
      })

receive-Streams :
    (cs : List Bytes) (r : HttpRequest) (s : Bytes)
    → Streams r s
    → Streams (receive cs r) (s ++ join cs)
unfolding receive
receive-Streams [] r s b = rw (append-nil s) b
receive-Streams (c ∷ cs) r s b =
    rw (sym (append_assoc s c (join cs)))
      (receive-Streams cs (handle_data c false r) (s ++ c) (handle_data-Streams c false r s b))

on_data-Streams : (r : HttpRequest) (s : Bytes) → Buffers false r s → Streams (on_data r) s
unfolding on_data deliver
on_data-Streams r [] b = rw b.unbuffered (record {
  chunked = refl;
  no_coro = b.no_data_coro;
  has_cb = refl;
  sent = ([], b.none_yet, refl);
})
on_data-Streams r (x ∷ s) b = rw b.unbuffered (record {
  chunked = refl;
  no_coro = b.no_data_coro;
  has_cb = refl;
  sent = (
    r.body ∷ [],
    ap (λ l. l ++ data_callback r.body ∷ []) b.none_yet,
    append-nil r.body ∙ b.held,
  );
})

handle_body-Streams :
    (r : HttpRequest) (s : Bytes) → Streams r s → ChunkCalls (handle_body r).delivered s
unfolding handle_body deliver
handle_body-Streams r s b =
    rw (b.chunked, b.no_coro, b.has_cb)
      (subst (ChunkCalls (r.delivered ++ data_callback [] ∷ [])) (append-nil s)
        (deliver-sent r.delivered [] s b.sent))

-- A callback for the chunks, registered after any number of chunks and before the end, is called
-- with parts that together are every byte of the body once and in order, what came before it was
-- registered and then the rest; and nothing else is called or resumed.
pub on_data_lem :
    (before after : List Bytes)
    → ChunkCalls
        (handle_body (receive after (on_data (receive before new_request)))).delivered
        (join before ++ join after)
on_data_lem before after =
    let early = receive-Buffers before new_request [] new-Buffers in
    let there = on_data-Streams (receive before new_request) (join before) early in
    handle_body-Streams (receive after (on_data (receive before new_request)))
      (join before ++ join after)
      (receive-Streams after (on_data (receive before new_request)) (join before) there)

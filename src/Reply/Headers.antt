-- ===== src/Reply/Headers.antt =====
-- src/stream.cc: the header list and the body of a response with a string.
use harmony_http.Prelude.{
  ℕ, ◌≡◌, refl, ap, ◌∙◌, List, [], ◌∷◌, ◌++◌, append_assoc, append-nil, Bytes, Option, some, length,
  codes,
}
use mathlib.Core.Path.{subst}
use harmony_http.Response.{set_status}
use harmony_http.Response.Order.{Holds, push_header-Holds, set_status-Holds, get_buffer-Holds}
use harmony_http.Reply.{
  Header, DataStream, string_stream, Reply, Submission, or_ok, submit_response, set_header,
  add_string_stream, submit_text, submit_string_response, submit_html_response,
  submit_json_response,
}

-- A reply whose header list is `hs`, behind the slot of the status.
abbrev pub Lists : Reply → List Header → Type 0
Lists r hs = (h : Header) × Holds r.headers h hs

-- The headers of a list, set one after the other.
abbrev pub set_all : List Header → Reply → Reply
set_all [] r = r
set_all ((name, value) ∷ l) r = set_all l (set_header name value r)

pub set_all-Lists :
    (l : List Header) (r : Reply) (hs : List Header) → Lists r hs → Lists (set_all l r) (hs ++ l)
set_all-Lists [] r hs v = rw (append-nil hs) v
set_all-Lists ((name, value) ∷ l) r hs (h, v) =
    subst (Lists (set_all ((name, value) ∷ l) r)) (append_assoc hs ((name, value) ∷ []) l) (
      set_all-Lists l (set_header name value r) (hs ++ (name, value) ∷ [])
        (h, push_header-Holds (name, value) r.headers h hs v))

-- A submission with these headers and this body.
abbrev pub Submits : Submission → Bytes → List Header → Option DataStream → Type 0
Submits s status hs body = (s.nva ≡ (codes ":status", status) ∷ hs) × (s.provider ≡ body)

pub submit_response-Submits :
    (body : Option DataStream) (r : Reply) (hs : List Header)
    → Lists r hs
    → Submits (submit_response body r).0 (or_ok r.status) hs body
unfolding submit_response
submit_response-Submits body r hs (h, v) =
    let nv : Header = (codes ":status", or_ok r.status) in
    (get_buffer-Holds (set_status nv r.headers) nv hs (set_status-Holds nv r.headers h hs v), refl)

set_all-status : (l : List Header) (r : Reply) → (set_all l r).status ≡ r.status
set_all-status [] r = refl
set_all-status ((name, value) ∷ l) r = set_all-status l (set_header name value r)

pub submit_all-Submits :
    (l : List Header) (body : Option DataStream) (r : Reply) (hs : List Header)
    → Lists r hs
    → Submits (submit_response body (set_all l r)).0 (or_ok r.status) (hs ++ l) body
submit_all-Submits l body r hs v =
    let (nva, source) =
      submit_response-Submits body (set_all l r) (hs ++ l) (set_all-Lists l r hs v) in
    (nva ∙ ap (λ s. (codes ":status", or_ok s) ∷ (hs ++ l)) (set_all-status l r), source)

module _ (decimal : ℕ → Bytes) where
  abbrev pub framing : Bytes → Header
  framing text = (codes "content-length", decimal (length text))

  submit_text-Submits :
      (text : Bytes) (r : Reply) (hs : List Header)
      → Lists r hs
      → Submits
          (submit_text decimal text r).0
          (or_ok r.status)
          (hs ++ framing text ∷ [])
          (some (string_stream (add_string_stream text)))
  unfolding submit_text
  submit_text-Submits text r hs v =
      let ss = string_stream (add_string_stream text) in
      submit_response-Submits (some ss)
        (set_all (framing text ∷ []) (record r { data_stream = some ss })) (hs ++ framing text ∷ [])
        (set_all-Lists (framing text ∷ []) (record r { data_stream = some ss }) hs v)

  abbrev pub typed : Bytes → Bytes → List Header
  typed content_type text = (codes "content-type", content_type) ∷ framing text ∷ []

  submit_typed-Submits :
      (content_type text : Bytes) (r : Reply) (hs : List Header)
      → Lists r hs
      → Submits
          (submit_text decimal text (set_header (codes "content-type") content_type r)).0
          (or_ok r.status)
          (hs ++ typed content_type text)
          (some (string_stream (add_string_stream text)))
  submit_typed-Submits content_type text r hs v =
      let header : Header = (codes "content-type", content_type) in
      let (nva, body) =
        submit_text-Submits text (set_all (header ∷ []) r) (hs ++ header ∷ [])
          (set_all-Lists (header ∷ []) r hs v) in
      (
        nva
            ∙ ap (λ l. (codes ":status", or_ok r.status) ∷ l)
                (append_assoc hs (header ∷ []) (framing text ∷ [])),
        body,
      )

  -- Whatever headers were set before, a response with a string submits the status, which is 200 where
  -- none was set, then these headers in their order, then its content type if it has one, then a content
  -- length that is the length of the whole string, and as its body the string from its first byte.
  pub submit_string-Submits :
      (text : Bytes) (r : Reply) (hs : List Header)
      → Lists r hs
      → let body = some (string_stream (add_string_stream text)) in
        Submits
          (submit_string_response decimal text r).0
          (or_ok r.status)
          (hs ++ framing text ∷ [])
          body
        × Submits
            (submit_html_response decimal text r).0
            (or_ok r.status)
            (hs ++ typed (codes "text/html; charset=utf-8") text)
            body
        × Submits
            (submit_json_response decimal text r).0
            (or_ok r.status)
            (hs ++ typed (codes "application/json") text)
            body
  unfolding submit_string_response submit_html_response submit_json_response
  submit_string-Submits text r hs v = (
    submit_text-Submits text r hs v,
    submit_typed-Submits (codes "text/html; charset=utf-8") text r hs v,
    submit_typed-Submits (codes "application/json") text r hs v,
  )

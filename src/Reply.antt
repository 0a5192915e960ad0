-- ===== src/Reply.antt =====
-- src/stream.cc and src/httpresponse.cc: the responses that a stream submits. A header is a name and a
-- value; the flags for nghttp2's copying are not modelled. `decimal` is what snprintf writes.
pub mod Headers
pub mod Fresh
pub mod FileBody
mod Tests
use harmony_http.Prelude.{
  ℕ, ◌+◌, List, [], ◌∷◌, ◌++◌, Bytes, bytes_eq, Bool, true, false, Option, some, none, leb,
  if◌then◌else◌, length, codes, replicate, ◌&&◌,
}
use harmony_http.Response.{ResponseHeader, push_header, set_status, get_buffer}
use harmony_http.Session.Data.{StringStream}
use harmony_http.Dates.{Tm, ℤ, pos, negsuc, parse_http_date, http_date}
use harmony_http.Files.{
  FileInfo, FileEntry, Disk, FileTable, Answer, exception, answered, get_static_file, read_info,
}

abbrev pub Header : Type 0
Header = Bytes × Bytes

-- FileStream: the length it had when the stream was made, and the offset.
pub record FileStream : Type 0 where
  pub file : FileEntry
  pub length : ℕ
  pub pos : ℕ

pub data DataStream : Type 0 where
  string_stream : StringStream → DataStream
  file_stream : FileStream → DataStream

-- `remaining().first` before anything was sent.
abbrev pub body_length : DataStream → ℕ
body_length (string_stream ss) = length ss.text
body_length (file_stream fs) = fs.length

-- The members of a stream that a response is made of.
pub record Reply : Type 0 where
  pub status : Option Bytes
  pub headers : ResponseHeader Header
  pub data_stream : Option DataStream

-- What nghttp2_submit_response is called with.
pub record Submission : Type 0 where
  pub nva : List Header
  pub provider : Option DataStream

abbrev pub or_ok : Option Bytes → Bytes
or_ok none = codes "200"
or_ok (some status) = status

unfoldable pub submit_response : Option DataStream → Reply → Submission × Reply
submit_response data_stream r =
    let status = or_ok r.status in
    let headers = set_status (codes ":status", status) r.headers in
    (
      record { nva = get_buffer headers; provider = data_stream },
      record r { status = some status; headers = headers },
    )

abbrev pub set_header : Bytes → Bytes → Reply → Reply
set_header name value r = record r { headers = push_header (name, value) r.headers }

abbrev pub add_string_stream : Bytes → StringStream
add_string_stream text = record { text = text; last = 0 }

abbrev pub not_found : Bytes
not_found = codes "<html><h1>404</h1><p>Content not found.</p></html>"

-- The condition for 304: a date was given, and the file is not newer.
abbrev pub not_newer : ℕ → Option ℤ → Bool
not_newer mtime none = false
not_newer mtime (some (pos last_mod)) = leb mtime last_mod
not_newer mtime (some (negsuc n)) = false

abbrev pub parse_ims : (Bytes → Option Tm) → Option Bytes → Option ℤ
parse_ims strptime none = none
parse_ims strptime (some ims) = some (parse_http_date strptime ims)

abbrev pub set_encoding : FileEntry → Reply → Reply
set_encoding f r = if f.compressed then set_header (codes "content-encoding") f.encoding r else r

-- A request for "/" gets the index.
abbrev pub path_or_index : Bytes → Bytes
path_or_index path = if bytes_eq path (codes "/") then codes "/index.html" else path

module _ (decimal : ℕ → Bytes) where
  -- The common end of the responses with a string.
  unfoldable pub submit_text : Bytes → Reply → Submission × Reply
  unfolding submit_response
  submit_text response r =
      let ss = string_stream (add_string_stream response) in
      submit_response (some ss) (
        set_header (codes "content-length") (decimal (length response))
          (record r { data_stream = some ss }))

  unfoldable pub submit_string_response : Bytes → Reply → Submission × Reply
  unfolding submit_text
  submit_string_response response r = submit_text response r

  unfoldable pub submit_html_response : Bytes → Reply → Submission × Reply
  unfolding submit_text
  submit_html_response response r =
      submit_text response (set_header (codes "content-type") (codes "text/html; charset=utf-8") r)

  unfoldable pub submit_json_response : Bytes → Reply → Submission × Reply
  unfolding submit_text
  submit_json_response response r =
      submit_text response (set_header (codes "content-type") (codes "application/json") r)

  -- HttpResponse::send_status_response
  unfoldable pub send_status_response : Bytes → Bytes → Reply → Submission × Reply
  unfolding submit_html_response
  send_status_response status message r =
      submit_html_response
        (codes "<html> <h1>"
          ++ (status ++ (codes "</h1> <p>" ++ (message ++ codes "</p> </html>"))))
        (record r { status = some status })

  abbrev pub file_headers : (ℕ → Option Tm) → Bytes → FileEntry → FileInfo → Reply → Reply
  file_headers gmtime_r date f info r =
      set_header (codes "last-modified") (http_date gmtime_r info.mtime (replicate 29 0)) (
        set_header (codes "date") date (
          set_header (codes "cache-control") (codes "max-age=0") (
            set_encoding f (
              set_header (codes "content-length") (decimal info.size)
                (set_header (codes "content-type") f.mime_type r)))))

  -- `date` is the worker's cached date.
  unfoldable pub submit_file :
      (Bytes → Option Tm)
      → (ℕ → Option Tm)
      → Bytes
      → Option Bytes
      → FileEntry
      → Reply
      → Submission × Reply
  unfolding submit_response
  submit_file strptime gmtime_r date ims f r =
      let (first, f₁) = read_info f in
      let fs = file_stream (record { file = f₁; length = first.size; pos = 0 }) in
      let r₁ = record r { data_stream = some fs } in
      let (info, f₂) = read_info f₁ in
      if not_newer info.mtime (parse_ims strptime ims)
      then submit_response none
          (record (set_header (codes "date") date r₁) { status = some (codes "304") })
      else submit_response (some fs) (file_headers gmtime_r date f₂ info r₁)

  -- What `submit_file_response` comes to: none is the exception of a file's constructor. The entry in
  -- the table is left as it was, for `info` gives the same again until the next update.
  abbrev pub file_answer :
      (Bytes → Option Tm)
      → (ℕ → Option Tm)
      → Bytes
      → Option Bytes
      → Reply
      → Answer
      → Option ((Submission × Reply) × FileTable)
  file_answer strptime gmtime_r date ims r exception = none
  file_answer strptime gmtime_r date ims r (answered none w) =
      some (submit_json_response not_found (record r { status = some (codes "404") }), w)
  file_answer strptime gmtime_r date ims r (answered (some f) w) =
      some (submit_file strptime gmtime_r date ims f r, w)

  unfoldable pub submit_file_response :
      (Bytes → Option Tm)
      → (ℕ → Option Tm)
      → Bytes
      → Option Bytes
      → Disk
      → Bytes
      → Bool
      → Bool
      → FileTable
      → Reply
      → Option ((Submission × Reply) × FileTable)
  unfolding submit_json_response submit_file
  submit_file_response strptime gmtime_r date ims disk path prefer relative w r =
      file_answer strptime gmtime_r date ims r (get_static_file disk path prefer relative w)

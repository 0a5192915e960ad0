-- ===== src/Reply/Fresh.antt =====
-- src/stream.cc: a file, and the answer to a request that has its date.
use harmony_http.Prelude.{
  ℕ, ◌≡◌, refl, sym, ap, ◌∙◌, arith, List, [], ◌∷◌, ◌++◌, Bytes, true, false, Bool-cases, inl, inr,
  leb, Option, some, none, codes, replicate, if◌then◌else◌,
}
use mathlib.Core.Path.{subst}
use harmony_http.Dates.{Tm, pos, parse_http_date, http_date}
use harmony_http.Dates.Calendar.{seconds}
use harmony_http.Dates.Format.{IsTime, fixdate, parse_http_date-http_date}
use harmony_http.Files.{FileInfo, FileEntry, read_info}
use harmony_http.Reply.{
  Header, DataStream, file_stream, Reply, or_ok, submit_response, not_newer, file_headers,
  submit_file,
}
use harmony_http.Reply.Headers.{Lists, set_all, Submits, submit_all-Submits}

leb_refl : (n : ℕ) → leb n n ≡ true
leb_refl n = ground arith

-- The information that `info` gives of a file.
abbrev pub info_of : FileEntry → FileInfo
info_of f = if f.updated then f.new_info else f.info

-- The headers of a file's response.
abbrev pub encoding_headers : FileEntry → List Header
encoding_headers f = if f.compressed then (codes "content-encoding", f.encoding) ∷ [] else []

module _ (decimal : ℕ → Bytes) (gmtime_r : ℕ → Option Tm) (strptime : Bytes → Option Tm) where
  abbrev pub last_modified : FileInfo → Bytes
  last_modified info = http_date gmtime_r info.mtime (replicate 29 0)

  abbrev pub headers_of : Bytes → FileEntry → List Header
  headers_of date f =
      (codes "content-type", f.mime_type)
      ∷ (codes "content-length", decimal (info_of f).size)
      ∷ (encoding_headers f
          ++ (codes "cache-control", codes "max-age=0")
            ∷ (codes "date", date)
            ∷ (codes "last-modified", last_modified (info_of f))
            ∷ [])

  file_headers-set_all :
      (date : Bytes) (f : FileEntry) (info : FileInfo) (r : Reply)
      → info ≡ info_of f
      → file_headers decimal gmtime_r date f info r ≡ set_all (headers_of date f) r
  file_headers-set_all date f info r e =
      ap (λ i. file_headers decimal gmtime_r date f i r) e
      ∙ elim (Bool-cases f.compressed) [ inl packed ↦ rw packed refl | inr plain ↦ rw plain refl ]

  -- The file after `info` was asked.
  abbrev pub known : FileEntry → FileEntry
  known f = record f { info = info_of f; updated = false }

  abbrev pub stream_of : FileEntry → DataStream
  stream_of f = file_stream (record { file = known f; length = (info_of f).size; pos = 0 })

  -- A file's response without a date from the client has, behind the headers set before, the file's
  -- own, with its size as the content length, and the file as its body. When the same request comes
  -- with the Last-Modified date of that response, where gmtime_r makes a calendar time of the file's
  -- time and strptime reads this date back, the response is 304 with the date alone and no body.
  pub submit_file-Submits :
      (date : Bytes) (f : FileEntry) (r : Reply) (hs : List Header) (tm : Tm)
      → Lists r hs
      → gmtime_r (info_of f).mtime ≡ some tm
      → IsTime tm
      → seconds tm ≡ (info_of f).mtime
      → strptime (fixdate tm) ≡ some tm
      → Submits
          (submit_file decimal strptime gmtime_r date none f r).0
          (or_ok r.status)
          (hs ++ headers_of date f)
          (some (stream_of f))
        × Submits
            (submit_file decimal strptime gmtime_r date (some (last_modified (info_of f))) f r).0
            (codes "304")
            (hs ++ (codes "date", date) ∷ [])
            none
  unfolding submit_file read_info
  submit_file-Submits date f r hs tm v made time same reads =
      let body = stream_of f in
      let r₁ = record r { data_stream = some body } in
      let mtime = (info_of f).mtime in
      let read_back : parse_http_date strptime (last_modified (info_of f)) ≡ pos mtime =
        (parse_http_date-http_date gmtime_r strptime mtime tm (replicate 29 0) made time same refl
          reads).0 in
      let old : not_newer mtime (some (parse_http_date strptime (last_modified (info_of f))))
          ≡ true =
        ap (λ z. not_newer mtime (some z)) read_back ∙ leb_refl mtime in
      (
        subst
            (λ x.
              Submits (submit_response (some body) x).0 (or_ok r.status) (hs ++ headers_of date f)
                (some body))
            (sym (file_headers-set_all date (known f) (info_of f) r₁ refl))
            (submit_all-Submits (headers_of date f) (some body) r₁ hs v),
        rw old (
            submit_all-Submits ((codes "date", date) ∷ []) none
              (record r₁ { status = some (codes "304") }) hs v),
      )

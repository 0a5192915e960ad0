-- ===== src/Reply/Tests.antt =====
-- src/stream.cc: a string response, and a file that is asked for twice.
use harmony_http.Prelude.{
  ℕ, refl, arith, [], ◌∷◌, Bytes, Option, some, none, codes, replicate, take, drop, min,
}
use harmony_http.Response.{fresh}
use harmony_http.Response.Order.{fresh-Holds}
use harmony_http.Dates.{Tm, is_leap_year}
use harmony_http.Dates.Format.{IsTime}
use harmony_http.Files.{FileEntry, bare_entry}
use harmony_http.Buffer.{Buffer, wleft}
use harmony_http.Buffer.Refine.{IsValid}
use harmony_http.Events.Text.{take_of_take, slice_length}
use harmony_http.Reply.FileBody.{Pread, got, Reads, Puts, send_file, send_file-Puts}
use harmony_http.Reply.{
  FileStream, Header, Reply, string_stream, add_string_stream, submit_string_response,
  submit_html_response, submit_json_response, submit_file,
}
use harmony_http.Reply.Headers.{Lists, Submits, framing, typed, submit_string-Submits}
use harmony_http.Reply.Fresh.{headers_of, last_modified, info_of, stream_of, submit_file-Submits}

abbrev decimal : ℕ → Bytes
decimal n = replicate n b'1'

abbrev slot : Header
slot = ([], [])

abbrev new_reply : Reply
new_reply = record { status = none; headers = fresh (replicate 10 slot); data_stream = none }

new_reply-Lists : Lists new_reply []
new_reply-Lists = (slot, fresh-Holds slot (replicate 9 slot) refl)

submit_string-Submits_example :
    Submits
      (submit_string_response decimal (codes "hi") new_reply).0
      (codes "200")
      (framing decimal (codes "hi") ∷ [])
      (some (string_stream (add_string_stream (codes "hi"))))
    × Submits
        (submit_html_response decimal (codes "hi") new_reply).0
        (codes "200")
        (typed decimal (codes "text/html; charset=utf-8") (codes "hi"))
        (some (string_stream (add_string_stream (codes "hi"))))
    × Submits
        (submit_json_response decimal (codes "hi") new_reply).0
        (codes "200")
        (typed decimal (codes "application/json") (codes "hi"))
        (some (string_stream (add_string_stream (codes "hi"))))
submit_string-Submits_example =
    submit_string-Submits decimal (codes "hi") new_reply [] new_reply-Lists

abbrev sample : Tm
sample = record { year = 2014; mon = 8; mday = 27; wday = 6; hour = 6; min = 31; sec = 15 }

sample-IsTime : IsTime sample
sample-IsTime = omega arith

abbrev always : {A : Type 0} → A → Option Tm
always x = some sample

abbrev page : FileEntry
page = bare_entry (codes "www/") 3 (record { mtime = 1411799475; size = 20 }) (codes "www/a.txt")

submit_file-Submits_example :
    Submits
      (submit_file decimal always always (codes "now") none page new_reply).0
      (codes "200")
      (headers_of decimal always always (codes "now") page)
      (some (stream_of decimal always always page))
    × Submits
        (submit_file decimal always always
          (codes "now")
          (some (last_modified decimal always always (info_of page)))
          page
          new_reply).0
        (codes "304")
        ((codes "date", codes "now") ∷ [])
        none
unfolding is_leap_year
submit_file-Submits_example =
    submit_file-Submits decimal always always (codes "now") page new_reply [] sample new_reply-Lists
      refl sample-IsTime refl refl

-- A pread that gives two bytes at most, and a buffer for six.
abbrev file_text : Bytes
file_text = codes "hello"

abbrev pread : ℕ → ℕ → ℕ → Pread
pread fd n offset = got (take (min n 2) (drop offset file_text))

reads : Reads pread 3 file_text
reads = record {
  reads_part = λ n offset h k. (
    take (min n 2) (drop offset file_text),
    refl,
    take_of_take (min n 2) (drop offset file_text),
    omega (arith, slice_length (min n 2) offset file_text),
    omega (arith, slice_length (min n 2) offset file_text),
  );
}

abbrev body : FileStream
body = record { file = page; length = 5; pos = 1 }

abbrev six : Buffer
six = record { buf = replicate 6 0; pos = 0; last = 1 }

six-IsValid : IsValid six
six-IsValid = omega arith

send_file-Puts_example : Puts reads 4 body six (send_file pread 5 4 body six)
unfolding wleft
send_file-Puts_example =
    send_file-Puts reads 5 4 body six (omega arith) (omega arith) (omega arith) (omega arith)
      (omega arith) refl six-IsValid

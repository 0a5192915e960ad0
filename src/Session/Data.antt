-- ===== src/Session/Data.antt =====
-- src/httpsession.cc: `data_read_cb` and `send_data_cb`; src/stringstream.h and .cc: StringStream.
pub mod Sent
use harmony_http.Prelude.{
  ℕ, ◌+◌, ◌-◌, min, List, [], ◌∷◌, Bytes, Bool, true, false, not, ◌&&◌, ◌||◌, Option, some, none,
  ltb, leb, ◌==◌, if◌then◌else◌, length, take, drop,
}
use harmony_http.Buffer.{Buffer, wleft, write_full, write_byte, fill}

-- `last` is how far `last_` is behind `beg_`.
pub record StringStream : Type 0 where
  pub text : Bytes
  pub last : ℕ

-- `remaining()`: what is left, and whether the stream ends behind it.
abbrev pub remaining : StringStream → ℕ × Bool
remaining ds = (length ds.text - ds.last, true)

-- StringStream::send; none is a failed assertion.
unfoldable pub send : Buffer → ℕ → StringStream → Option (Buffer × StringStream)
send wb n ds =
    if leb (ds.last + n) (length ds.text)
    then elim (write_full wb (take n (drop ds.last ds.text))) [
      | none ↦ none
      | some wb' ↦ some (wb', record ds { last = ds.last + n })
    ]
    else none

-- What `data_read_cb` tells nghttp2: to wait, or to send a number of bytes, with the EOF flag or
-- without it, after a submitted RST_STREAM or not.
pub data ReadResult : Type 0 where
  deferred : ReadResult
  read : ℕ → Bool → Bool → ReadResult

-- `remote_open` is whether nghttp2 says that the peer has not closed its side.
unfoldable pub data_read_cb : ℕ → Bool → ℕ → Bool → ReadResult
data_read_cb left should_close length_max remote_open =
    let nread = min left length_max in
    let at_end = should_close && ((nread == 0) || (left == nread)) in
    if (left == 0) && not should_close then deferred else read nread at_end (at_end && remote_open)

-- `null_stream` is a call of `send` with a null stream, whose buffer it reads.
pub data SendResult (D : Type 0) : Type 0 where
  would_block failed_assertion null_stream : SendResult D
  sent : Buffer → D → SendResult D

-- `has_stream` is whether `get_stream` finds the stream of the frame.
module _ {D : Type 0} (send_payload : Buffer → ℕ → D → Option (Buffer × D))
    (has_stream : Bool) where
  abbrev pub end_frame : D → Option Buffer → SendResult D
  end_frame ds none = failed_assertion
  end_frame ds (some wb) = sent wb ds

  abbrev pub pad_after : ℕ → Option (Buffer × D) → SendResult D
  pad_after padlen none = failed_assertion
  pad_after padlen (some (wb, ds)) =
      end_frame ds (if padlen == 0 then some wb else fill wb 0 (padlen - 1))

  abbrev pub payload_after : ℕ → ℕ → D → Option Buffer → SendResult D
  payload_after n padlen ds none = failed_assertion
  payload_after n padlen ds (some wb) =
      let written = pad_after padlen (send_payload wb n ds) in
      if has_stream then written else null_stream

  abbrev pub pad_length_after : ℕ → ℕ → D → Option Buffer → SendResult D
  pad_length_after n padlen ds none = failed_assertion
  pad_length_after n padlen ds (some wb) =
      payload_after n padlen ds (if padlen == 0 then some wb else write_byte wb (padlen - 1))

  unfoldable pub send_data_cb : Buffer → Bytes → ℕ → ℕ → D → SendResult D
  send_data_cb wb framehd n padlen ds =
      if ltb (wleft wb) (9 + n + padlen)
      then would_block
      else pad_length_after n padlen ds (write_full wb framehd)

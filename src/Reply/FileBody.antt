-- ===== src/Reply/FileBody.antt =====
-- src/filestream.h and src/filestream.cc: what FileStream::send puts into the write buffer.
use harmony_http.Prelude.{
  ℕ, zero, suc, ◌+◌, ◌-◌, ◌≤◌, ◌<◌, ◌≡◌, refl, sym, ap, ap₂, ◌∙◌, arith, ◌++◌, append_assoc,
  append-nil, Bytes, true, leb, min, length, take, drop, drop-drop, if◌then◌else◌,
}
use harmony_http.Buffer.{Buffer, wleft, contents, advance, copy_to}
use harmony_http.Buffer.Copy.{length-copy_to}
use harmony_http.Buffer.Refine.{IsValid, contents-copy_to, IsValid-copy_to}
use harmony_http.Events.Text.{take-add}
use harmony_http.Reply.{FileStream}

-- What pread comes to, called again while it is interrupted.
pub data Pread : Type 0 where
  read_failed : Pread
  got : Bytes → Pread

-- What a call of `send` comes to; `temporal_failure` is NGHTTP2_ERR_TEMPORAL_CALLBACK_FAILURE.
pub data FileSend : Type 0 where
  all_sent temporal_failure : FileStream → Buffer → FileSend
  failed_assertion no_fuel : FileSend

-- pread writes to `last()`, and `write(nread)` moves the cursor.
unfoldable pub take_in : Bytes → Buffer → Buffer
take_in bytes wb = (advance (record wb { buf = copy_to wb.buf wb.last bytes }) (length bytes)).0

module _ (pread : ℕ → ℕ → ℕ → Pread) where
  unfoldable pub after_pread :
      (ℕ → FileStream → Buffer → FileSend) → ℕ → FileStream → Buffer → Pread → FileSend
  unfolding take_in
  after_pread next n fs wb read_failed = temporal_failure fs wb
  after_pread next n fs wb (got bytes) =
      next (n - length bytes) (record fs { pos = fs.pos + length bytes }) (take_in bytes wb)

  unfoldable pub send_loop : ℕ → ℕ → FileStream → Buffer → FileSend
  unfolding after_pread
  send_loop zero n fs wb = no_fuel
  send_loop (suc fuel) zero fs wb = all_sent fs wb
  send_loop (suc fuel) (suc n) fs wb =
      after_pread (send_loop fuel) (suc n) fs wb (pread fs.file.fd (suc n) fs.pos)

  unfoldable pub send_file : ℕ → ℕ → FileStream → Buffer → FileSend
  unfolding send_loop
  send_file fuel wlen fs wb =
      if leb wlen (fs.length - fs.pos) then send_loop fuel wlen fs wb else failed_assertion

-- pread gives a part of the file's text from the offset on, not empty where the file has bytes there.
pub record Reads (pread : ℕ → ℕ → ℕ → Pread) (fd : ℕ) (text : Bytes) : Type 0 where
  pub reads_part :
      (n offset : ℕ)
      → 1 ≤ n
      → offset + n ≤ length text
      → (bytes : Bytes) × (pread fd n offset ≡ got bytes)
        × (take (length bytes) (drop offset text) ≡ bytes)
        × (1 ≤ length bytes)
        × (length bytes ≤ n)

take_in_lem :
    (bytes : Bytes) (wb : Buffer)
    → IsValid wb
    → length bytes ≤ wleft wb
    → (contents (take_in bytes wb) ≡ contents wb ++ bytes)
      × (wleft (take_in bytes wb) + length bytes ≡ wleft wb)
      × IsValid (take_in bytes wb)
unfolding take_in advance wleft
take_in_lem bytes wb v room =
    let size = length-copy_to wb.buf wb.last bytes in
    let moved : wb.last + min (length bytes) (length (copy_to wb.buf wb.last bytes) - wb.last)
        ≡ wb.last + length bytes =
      omega (arith, size) in
    let inside : wb.last + min (length bytes) (length (copy_to wb.buf wb.last bytes) - wb.last)
        ≤ length wb.buf =
      omega (arith, size) in
    let n = wb.last + min (length bytes) (length (copy_to wb.buf wb.last bytes) - wb.last) in
    (
      contents-copy_to wb bytes n v moved inside,
      omega (arith, size),
      IsValid-copy_to wb bytes n v moved inside,
    )

module _ {pread : ℕ → ℕ → ℕ → Pread} {fd : ℕ} {text : Bytes} (reads : Reads pread fd text) where
  -- The buffer gets `n` bytes of the text from the offset on.
  abbrev pub Puts : ℕ → FileStream → Buffer → FileSend → Type 0
  Puts n fs wb r =
      (wb' : Buffer) × (r ≡ all_sent (record fs { pos = fs.pos + n }) wb')
      × (contents wb' ≡ contents wb ++ take n (drop fs.pos text))
      × IsValid wb'

  send_loop-Puts :
      (fuel n : ℕ) (fs : FileStream) (wb : Buffer)
      → n < fuel
      → n ≤ wleft wb
      → fs.pos + n ≤ length text
      → fs.file.fd ≡ fd
      → IsValid wb
      → Puts n fs wb (send_loop pread fuel n fs wb)
  unfolding send_loop after_pread
  send_loop-Puts zero n fs wb h room inside same v = absurd (omega arith)
  send_loop-Puts (suc fuel) zero fs wb h room inside same v = (
    wb,
    ap (λ p. all_sent (record fs { pos = p }) wb) (omega arith),
    sym (append-nil (contents wb)),
    v,
  )
  send_loop-Puts (suc fuel) (suc n) fs wb h room inside same v =
      let (bytes, given, part, long, short) =
        reads.reads_part (suc n) fs.pos (omega arith) inside in
      let (put, left, v₁) = take_in_lem bytes wb v (omega arith) in
      let fs₁ = record fs { pos = fs.pos + length bytes } in
      let (wb₂, made, put₂, v₂) =
        send_loop-Puts fuel (suc n - length bytes) fs₁ (take_in bytes wb) (omega arith)
          (omega arith) (omega arith) same v₁ in
      let rest = take (suc n - length bytes) (drop (fs.pos + length bytes) text) in
      (
        wb₂,
        ap (after_pread pread (send_loop pread fuel) (suc n) fs wb)
              (ap (λ d. pread d (suc n) fs.pos) same ∙ given)
            ∙ made
            ∙ ap (λ p. all_sent (record fs { pos = p }) wb₂) (omega arith),
        put₂
            ∙ ap (λ l. l ++ rest) put
            ∙ append_assoc (contents wb) bytes rest
            ∙ ap₂ (λ x y. contents wb ++ (x ++ take (suc n - length bytes) y)) (sym part)
                (sym (drop-drop fs.pos (length bytes) (fs.pos + length bytes) text refl))
            ∙ ap (λ l. contents wb ++ l)
                (sym (
                  take-add (length bytes) (suc n - length bytes) (suc n) (drop fs.pos text)
                    (omega arith))),
        v₂,
      )

  -- On a valid buffer with room for `wlen` bytes, when pread reads parts of the file's text, not empty
  -- where the file has bytes, and the file is still as long as the stream takes it to be: a call for at
  -- most what remains ends, with the `wlen` bytes of the text from the offset on in the buffer, however
  -- many calls of pread they take, and the offset moved by `wlen`. One round more than bytes is enough.
  pub send_file-Puts :
      (fuel wlen : ℕ) (fs : FileStream) (wb : Buffer)
      → wlen < fuel
      → wlen ≤ wleft wb
      → wlen ≤ fs.length - fs.pos
      → fs.pos ≤ fs.length
      → fs.length ≤ length text
      → fs.file.fd ≡ fd
      → IsValid wb
      → Puts wlen fs wb (send_file pread fuel wlen fs wb)
  unfolding send_file
  send_file-Puts fuel wlen fs wb h room left behind long same v =
      let ok : leb wlen (fs.length - fs.pos) ≡ true = ground arith in
      rw ok (send_loop-Puts fuel wlen fs wb h room (omega arith) same v)

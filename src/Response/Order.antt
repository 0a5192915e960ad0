-- ===== src/Response/Order.antt =====
-- src/stream.h: sequences of calls on `ResponseHeader`.
use harmony_http.Prelude.{
  suc, ◌+◌, ◌<◌, ◌≡◌, refl, sym, ap, ◌∙◌, arith, List, [], ◌∷◌, ◌++◌, append_assoc, append-nil,
  length, length-append, set, take_all, take-append_le, ltb, leb, ◌==◌, true, false,
}
use mathlib.Core.Path.{subst}
use harmony_http.Response.{ResponseHeader, fresh, push_header, set_status, get_buffer}

pub data Op (N : Type 0) : Type 0 where
  push status : N → Op N

module _ {N : Type 0} where
  unfoldable pub run : List (Op N) → ResponseHeader N → ResponseHeader N
  run [] r = r
  run (push nv ∷ ops) r = run ops (push_header nv r)
  run (status nv ∷ ops) r = run ops (set_status nv r)

  -- The status set last, or `h`, and the pairs pushed.
  abbrev pub last_status : N → List (Op N) → N
  last_status h [] = h
  last_status h (push nv ∷ ops) = last_status h ops
  last_status h (status nv ∷ ops) = last_status nv ops

  abbrev pub pushed : List (Op N) → List N
  pushed [] = []
  pushed (push nv ∷ ops) = nv ∷ pushed ops
  pushed (status nv ∷ ops) = pushed ops

  -- Where the pairs `h ∷ hs` stand.
  pub data Holds : ResponseHeader N → N → List N → Type 0 where
    small :
        (h : N) (hs rest : List N)
        → length hs + length rest ≡ 9
        → Holds (record { nva = h ∷ (hs ++ rest); nvector = []; nvlen = suc (length hs) }) h hs
    large :
        (nva : List N) (h : N) (hs : List N)
        → 9 < length hs
        → Holds (record { nva = nva; nvector = h ∷ hs; nvlen = suc (length hs) }) h hs

  set-append_length :
      (xs : List N) (y v : N) (ys : List N)
      → set (xs ++ y ∷ ys) (length xs) v ≡ (xs ++ v ∷ []) ++ ys
  set-append_length [] y v ys = refl
  set-append_length (x ∷ xs) y v ys = ap (λ l. x ∷ l) (set-append_length xs y v ys)

  length-snoc : (xs : List N) (v : N) → length (xs ++ v ∷ []) ≡ suc (length xs)
  length-snoc xs v = omega (arith, length-append {0} xs (v ∷ []))

  pub fresh-Holds : (h : N) (rest : List N) → length rest ≡ 9 → Holds (fresh (h ∷ rest)) h []
  fresh-Holds h rest e = small h [] rest (omega arith)

  pub push_header-Holds :
      (nv : N) (r : ResponseHeader N) (h : N) (hs : List N)
      → Holds r h hs
      → Holds (push_header nv r) h (hs ++ nv ∷ [])
  unfolding push_header
  push_header-Holds nv r h hs (small _ _ [] e) =
      let full : length hs ≡ 9 = omega arith in
      rw (full, append-nil hs)
        (subst
          (λ n.
            Holds (record { nva = h ∷ hs; nvector = h ∷ (hs ++ nv ∷ []); nvlen = n }) h
              (hs ++ nv ∷ []))
          (omega (arith, length-snoc hs nv))
          (large (h ∷ hs) h (hs ++ nv ∷ []) (omega (arith, length-snoc hs nv))))
  push_header-Holds nv r h hs (small _ _ (y ∷ ys) e) =
      let room : ltb (suc (length hs)) 10 ≡ true = ground arith in
      rw (room, set-append_length hs y nv ys, sym (length-snoc hs nv))
        (small h (hs ++ nv ∷ []) ys (omega (arith, length-snoc hs nv)))
  push_header-Holds nv r h hs (large nva _ _ e) =
      let past : ltb (suc (length hs)) 10 ≡ false = ground arith in
      let over : (suc (length hs) == 10) ≡ false = ground arith in
      rw (past, over, sym (length-snoc hs nv))
        (large nva h (hs ++ nv ∷ []) (omega (arith, length-snoc hs nv)))

  pub set_status-Holds :
      (nv : N) (r : ResponseHeader N) (h : N) (hs : List N)
      → Holds r h hs
      → Holds (set_status nv r) nv hs
  unfolding set_status
  set_status-Holds nv r h hs (small _ _ rest e) =
      let room : leb (suc (length hs)) 10 ≡ true = ground arith in rw room (small nv hs rest e)
  set_status-Holds nv r h hs (large nva _ _ e) =
      let past : leb (suc (length hs)) 10 ≡ false = ground arith in rw past (large nva nv hs e)

  pub get_buffer-Holds :
      (r : ResponseHeader N) (h : N) (hs : List N) → Holds r h hs → get_buffer r ≡ h ∷ hs
  unfolding get_buffer
  get_buffer-Holds r h hs (small _ _ rest e) =
      let room : leb (suc (length hs)) 10 ≡ true = ground arith in
      rw room (
        ap (λ l. h ∷ l)
          (take-append_le (length hs) hs rest (omega arith)
            ∙ take_all (length hs) hs (omega arith)))
  get_buffer-Holds r h hs (large nva _ _ e) =
      let past : leb (suc (length hs)) 10 ≡ false = ground arith in
      rw past (ap (λ l. h ∷ l) (take_all (length hs) hs (omega arith)))

  get_buffer-run :
      (ops : List (Op N)) (r : ResponseHeader N) (h : N) (hs : List N)
      → Holds r h hs
      → get_buffer (run ops r) ≡ last_status h ops ∷ (hs ++ pushed ops)
  unfolding run
  get_buffer-run [] r h hs v = get_buffer-Holds r h hs v ∙ ap (λ l. h ∷ l) (sym (append-nil hs))
  get_buffer-run (push nv ∷ ops) r h hs v =
      get_buffer-run ops (push_header nv r) h (hs ++ nv ∷ []) (push_header-Holds nv r h hs v)
      ∙ ap (λ l. last_status h ops ∷ l) (append_assoc hs (nv ∷ []) (pushed ops))
  get_buffer-run (status nv ∷ ops) r h hs v =
      get_buffer-run ops (set_status nv r) nv hs (set_status-Holds nv r h hs v)

  -- From a new response header with its ten slots, for any sequence of pushes and settings of
  -- the status, the buffer handed to nghttp2 is the status set last, or what its slot held where
  -- none was set, and behind it every pair in the order of the calls.
  pub get_buffer-fresh :
      (h : N) (rest : List N) (ops : List (Op N))
      → length rest ≡ 9
      → get_buffer (run ops (fresh (h ∷ rest))) ≡ last_status h ops ∷ pushed ops
  get_buffer-fresh h rest ops e = get_buffer-run ops (fresh (h ∷ rest)) h [] (fresh-Holds h rest e)

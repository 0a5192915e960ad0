-- ===== src/Header/Lookup.antt =====
-- src/util.cc: `lookup_header` and the pseudo header HOST.
use harmony_http.Prelude.{ℕ, ◌≢◌, arith, Bytes, Bool, true, false, ◌==◌, if◌then◌else◌}
use harmony_http.Header.{
  HttpHeader, pseudo_host, lookup_sized, lookup_header, header_2, header_3, header_4, header_5,
  header_6, header_7, header_8, header_9, header_10, header_12, header_13, header_14, header_15,
  header_16, header_17, header_20,
}

header_2-ne_host : (last : ℕ) (eq : Bytes → Bool) → header_2 last eq ≢ pseudo_host
unfolding header_2
header_2-ne_host last eq = ground arith

header_3-ne_host : (last : ℕ) (eq : Bytes → Bool) → header_3 last eq ≢ pseudo_host
unfolding header_3
header_3-ne_host last eq = ground arith

header_4-ne_host : (last : ℕ) (eq : Bytes → Bool) → header_4 last eq ≢ pseudo_host
unfolding header_4
header_4-ne_host last eq = ground arith

header_5-ne_host : (last : ℕ) (eq : Bytes → Bool) → header_5 last eq ≢ pseudo_host
unfolding header_5
header_5-ne_host last eq = ground arith

header_6-ne_host : (last : ℕ) (eq : Bytes → Bool) → header_6 last eq ≢ pseudo_host
unfolding header_6
header_6-ne_host last eq = ground arith

header_7-ne_host : (last : ℕ) (eq : Bytes → Bool) → header_7 last eq ≢ pseudo_host
unfolding header_7
header_7-ne_host last eq = ground arith

header_8-ne_host : (last : ℕ) (eq : Bytes → Bool) → header_8 last eq ≢ pseudo_host
unfolding header_8
header_8-ne_host last eq = ground arith

header_9-ne_host : (last : ℕ) (eq : Bytes → Bool) → header_9 last eq ≢ pseudo_host
unfolding header_9
header_9-ne_host last eq = ground arith

header_10-ne_host : (last : ℕ) (eq : Bytes → Bool) → header_10 last eq ≢ pseudo_host
unfolding header_10
header_10-ne_host last eq = ground arith

header_12-ne_host : (last : ℕ) (eq : Bytes → Bool) → header_12 last eq ≢ pseudo_host
unfolding header_12
header_12-ne_host last eq = ground arith

header_13-ne_host : (last : ℕ) (eq : Bytes → Bool) → header_13 last eq ≢ pseudo_host
unfolding header_13
header_13-ne_host last eq = ground arith

header_14-ne_host : (last : ℕ) (eq : Bytes → Bool) → header_14 last eq ≢ pseudo_host
unfolding header_14
header_14-ne_host last eq = ground arith

header_15-ne_host : (last : ℕ) (eq : Bytes → Bool) → header_15 last eq ≢ pseudo_host
unfolding header_15
header_15-ne_host last eq = ground arith

header_16-ne_host : (last : ℕ) (eq : Bytes → Bool) → header_16 last eq ≢ pseudo_host
unfolding header_16
header_16-ne_host last eq = ground arith

header_17-ne_host : (last : ℕ) (eq : Bytes → Bool) → header_17 last eq ≢ pseudo_host
unfolding header_17
header_17-ne_host last eq = ground arith

header_20-ne_host : (last : ℕ) (eq : Bytes → Bool) → header_20 last eq ≢ pseudo_host
unfolding header_20
header_20-ne_host last eq = ground arith

if_ne : (b : Bool) {x y h : HttpHeader} → x ≢ h → y ≢ h → (if b then x else y) ≢ h
if_ne true p q = p
if_ne false p q = q

lookup_sized-ne_host : (size last : ℕ) (eq : Bytes → Bool) → lookup_sized size last eq ≢ pseudo_host
unfolding lookup_sized
lookup_sized-ne_host size last eq = if_ne (size == 2) (header_2-ne_host last eq) (
    if_ne (size == 3) (header_3-ne_host last eq) (
      if_ne (size == 4) (header_4-ne_host last eq) (
        if_ne (size == 5) (header_5-ne_host last eq) (
          if_ne (size == 6) (header_6-ne_host last eq) (
            if_ne (size == 7) (header_7-ne_host last eq) (
              if_ne (size == 8) (header_8-ne_host last eq) (
                if_ne (size == 9) (header_9-ne_host last eq) (
                  if_ne (size == 10) (header_10-ne_host last eq) (
                    if_ne (size == 12) (header_12-ne_host last eq) (
                      if_ne (size == 13) (header_13-ne_host last eq) (
                        if_ne (size == 14) (header_14-ne_host last eq) (
                          if_ne (size == 15) (header_15-ne_host last eq) (
                            if_ne (size == 16) (header_16-ne_host last eq) (
                              if_ne (size == 17) (header_17-ne_host last eq) (
                                if_ne (size == 20) (header_20-ne_host last eq)
                                  (λ e. cc))))))))))))))))

-- No name at all is looked up as the pseudo header HOST.
pub lookup_header-ne_host : (name : Bytes) → lookup_header name ≢ pseudo_host
unfolding lookup_header
lookup_header-ne_host name = lookup_sized-ne_host _ _ _

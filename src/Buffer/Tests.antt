-- ===== src/Buffer/Tests.antt =====
-- Runs and instances of the buffer's theorems on a buffer of four bytes.
use harmony_http.Prelude.{◌≡◌, refl, arith, List, [], ◌∷◌}
use harmony_http.Buffer.{Buffer, init, write}
use harmony_http.Buffer.Refine.{IsValid}
use harmony_http.Buffer.Calls.{Op, put, put_full, put_byte, get, shift, run, fifo_run, view}
use harmony_http.Buffer.Fifo.{run_refines}

abbrev four : Buffer
unfolding init
four = init (9 ∷ 9 ∷ 9 ∷ 9 ∷ [])

abbrev sample : Buffer
sample = record { buf = 1 ∷ 2 ∷ 3 ∷ 9 ∷ []; pos = 1; last = 3 }

abbrev script : List Op
script =
    put (5 ∷ 6 ∷ 7 ∷ [])
    ∷ get 1
    ∷ shift 1
    ∷ put_byte 4
    ∷ shift 1
    ∷ put_full (8 ∷ [])
    ∷ put_full (8 ∷ 9 ∷ [])
    ∷ []

sample-IsValid : IsValid sample
sample-IsValid = omega arith

write_short : (write sample (5 ∷ 6 ∷ [])).1 ≡ 1
unfolding write
write_short = refl

run_refines_example : run sample script ≡ fifo_run (view sample) script
run_refines_example = run_refines sample script sample-IsValid

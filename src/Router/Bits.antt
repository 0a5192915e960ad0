-- ===== src/Router/Bits.antt =====
-- src/httprouter.cc: the method mask of a node.
use harmony_http.Prelude.{ℕ, ◌^◌, ◌≡◌, ◌≢◌, refl, arith, true}
use harmony_http.Router.{Method, get, number, has_bit, or_bit}

pub has_bit-or_bit : (m : Method) (x : ℕ) → has_bit (or_bit x (number m)) (number m) ≡ true
unfolding or_bit
has_bit-or_bit get x = ground arith
has_bit-or_bit m x = ground arith

pub has_bit-or_bit_keep :
    (k m : Method) (x : ℕ)
    → has_bit x (number k) ≡ true
    → has_bit (or_bit x (number m)) (number k) ≡ true
unfolding or_bit
has_bit-or_bit_keep get get x h = ground arith
has_bit-or_bit_keep k m x h = ground arith

-- The mask that a new last child gets holds its method only.
pub has_bit-one : (m : Method) → has_bit (2 ^ number m) (number m) ≡ true
unfolding has_bit
has_bit-one get = refl
has_bit-one m = refl

-- A bit that is not set stays so, unless it is the one that is set.
pub has_bit-or_bit_other :
    (k m : Method) (x : ℕ) → k ≢ m → has_bit (or_bit x (number m)) (number k) ≡ has_bit x (number k)
unfolding or_bit
has_bit-or_bit_other get get x h = absurd (h refl)
has_bit-or_bit_other k m x h = ground arith

-- ===== src/Random/Range.antt =====
-- The generator draws no negative number, so that a draw below a bound can serve as an index.
use Prim.Native.Nat.{bit_xor}
use native.Mathlib.Nat.{mod-lt}
use mongo_cxx_driver.Base.{ℕ, ◌/◌, ◌%◌, ◌^◌, ◌<◌, ◌≡◌, arith}
use mongo_cxx_driver.Base.Int.{pos}
use mongo_cxx_driver.Random.{PseudoRandom, seeded, next_int32, next_int32_below, shl, sar}
use mongo_cxx_driver.Random.Bits.{
  sign-sar-8, sign-sar-19, bit_xor-lt, bit_xor-same_sign, bit_xor-non_negative,
}

-- Each of the four words fits in 32 bits.
pub record IsWords (r : PseudoRandom) : Type 0 where
  pub x : r.x < 2 ^ 32
  pub y : r.y < 2 ^ 32
  pub z : r.z < 2 ^ 32
  pub w : r.w < 2 ^ 32

pub seeded-IsWords : (seed : ℕ) → IsWords (seeded seed)
unfolding seeded
seeded-IsWords seed = record {
  x = bit_xor-lt (seed / 2 ^ 32 % 2 ^ 32) (seed % 2 ^ 32) (omega arith) (omega arith);
  y = omega arith;
  z = omega arith;
  w = omega arith;
}

shl-lt : (v k : ℕ) → shl v k < 2 ^ 32
unfolding shl
shl-lt v k = omega arith

-- The raw 32-bit draw has its sign bit clear: each of its halves is a word mixed with an arithmetic
-- shift of itself, which has the same sign.
pub next_int32-lt : (r : PseudoRandom) → IsWords r → (next_int32 r).w < 2 ^ 31
unfolding next_int32
next_int32-lt r v =
    let t = bit_xor r.x (shl r.x 11) in
    let ht : t < 2 ^ 32 = bit_xor-lt r.x (shl r.x 11) v.x (shl-lt r.x 11) in
    bit_xor-non_negative (bit_xor r.w (sar r.w 19)) (bit_xor t (sar t 8))
      (bit_xor-same_sign r.w (sar r.w 19) v.w (sign-sar-19 r.w v.w))
      (bit_xor-same_sign t (sar t 8) ht (sign-sar-8 t ht))

weaken : (n : ℕ) → n < 2 ^ 31 → n < 2 ^ 32
weaken n h = omega arith

pub next_int32-IsWords : (r : PseudoRandom) → IsWords r → IsWords (next_int32 r)
unfolding next_int32
next_int32-IsWords r v = record { x = v.y; y = v.z; z = v.w; w = weaken _ (next_int32-lt r v) }

-- From any state of four words, `nextInt32(max)` for a positive `max` draws a number from 0 up to, and
-- without, `max`, and leaves four words.
pub next_int32_below-InRange :
    (max : ℕ) (r : PseudoRandom)
    → 0 < max
    → IsWords r
    → (n : ℕ) × ((next_int32_below max r).1 ≡ pos n)
      × (n < max)
      × IsWords (next_int32_below max r).0
unfolding next_int32_below
next_int32_below-InRange max r h v =
    let lt = next_int32-lt r v in
    ((next_int32 r).w % max, ground arith, mod-lt (next_int32 r).w h, next_int32-IsWords r v)

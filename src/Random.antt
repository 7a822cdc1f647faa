-- ===== src/Random.antt =====
-- src/mongo/platform/random.cpp and random.h: `PseudoRandom`, a 32-bit xorshift. An `int32_t` is its
-- bit pattern; `signed` is the number that it stands for.
mod Bits
pub mod Range
mod Tests
use Prim.Native.Nat.{bit_xor}
use mongo_cxx_driver.Base.{ℕ, zero, suc, ◌+◌, ◌-◌, ◌*◌, ◌/◌, ◌%◌, ◌^◌, Bool, ltb, if◌then◌else◌}
use mongo_cxx_driver.Base.Int.{ℤ, pos, negsuc, sub_ℕ}

pub record PseudoRandom : Type 0 where
  pub x : ℕ
  pub y : ℕ
  pub z : ℕ
  pub w : ℕ

abbrev pub signed : ℕ → ℤ
signed v = if ltb v (2 ^ 31) then pos v else negsuc (2 ^ 32 - v - 1)

-- `v << k`.
unfoldable pub shl : ℕ → ℕ → ℕ
shl v k = v * 2 ^ k % 2 ^ 32

-- `v >> k` on a signed value copies the sign bit.
unfoldable pub sar : ℕ → ℕ → ℕ
sar v k = if ltb v (2 ^ 31) then v / 2 ^ k else v / 2 ^ k + (2 ^ 32 - 2 ^ (32 - k))

-- `PseudoRandom(int64_t seed)`, from the pattern of the seed.
unfoldable pub seeded : ℕ → PseudoRandom
seeded seed = record {
  x = bit_xor (seed / 2 ^ 32 % 2 ^ 32) (seed % 2 ^ 32);
  y = 362436069;
  z = 521288629;
  w = 88675123;
}

-- `nextInt32()`: the new state, whose `w` is the number drawn.
unfoldable pub next_int32 : PseudoRandom → PseudoRandom
unfolding shl sar
next_int32 r =
    let t = bit_xor r.x (shl r.x 11) in
    record {
      x = r.y;
      y = r.z;
      z = r.w;
      w = bit_xor (bit_xor r.w (sar r.w 19)) (bit_xor t (sar t 8));
    }

-- C++ `a % max` takes the sign of `a`.
unfoldable pub remainder : ℤ → ℕ → ℤ
remainder (pos a) max = pos (a % max)
remainder (negsuc a) max = sub_ℕ 0 (suc a % max)

-- `nextInt32(max)`: the new state and the result.
unfoldable pub next_int32_below : ℕ → PseudoRandom → PseudoRandom × ℤ
unfolding remainder
next_int32_below max r = let r' = next_int32 r in (r', remainder (signed r'.w) max)

-- ===== src/Bson/Numbers.antt =====
-- src/mongo/base/compare_numbers.h. A double is a NaN, an infinity, or the integer that counts how many of
-- the smallest positive double it is; how many of these a one has is `unit`. A comparison's result is its
-- sign, which is all that a caller reads.
pub mod Exact
use Prim.Native.Nat.{Ordering, lt, eq, gt, compare}
use mongo_cxx_driver.Base.{
  ℕ, zero, suc, ◌+◌, ◌*◌, ◌/◌, ◌≤◌, ◌<◌, ◌≡◌, Bool, true, false, not, leb, flip, if◌then◌else◌,
}
use mongo_cxx_driver.Base.Int.{ℤ, pos, negsuc, pos_part, neg_part, ◌≤ℤ◌}

pub data Double : Type 0 where
  nan minus_inf plus_inf : Double
  finite : ℤ → Double

abbrev pub negated : ℕ → ℤ
negated zero = pos 0
negated (suc n) = negsuc n

-- An integer as a multiple of the smallest double.
abbrev pub scaled : ℕ → ℤ → ℤ
scaled u (pos n) = pos (n * u)
scaled u (negsuc n) = negated (suc n * u)

abbrev pub magnitude : ℤ → ℕ
magnitude z = pos_part z + neg_part z

-- The doubles of a platform, and its conversion of a `long long` to one: a double of 2 ^ 53 or more is a whole
-- number, an integer that is a double is converted to it, and all integers up to 2 ^ 53 are doubles.
pub record Doubles : Type 1 where
  pub unit : ℕ
  pub unit_pos : 0 < unit
  pub Representable : Double → Type 0
  pub to_double : ℤ → Double
  pub whole :
      (z : ℤ)
      → Representable (finite z)
      → 9007199254740992 * unit ≤ magnitude z
      → magnitude z ≡ magnitude z / unit * unit
  pub small_integers :
      (l : ℤ) → magnitude l ≤ 9007199254740992 → Representable (finite (scaled unit l))
  pub converted :
      (l : ℤ) → Representable (finite (scaled unit l)) → to_double l ≡ finite (scaled unit l)

-- `compareInts` and `compareLongs`.
unfoldable pub compare_longs : ℤ → ℤ → Ordering
compare_longs a b = compare (pos_part a + neg_part b) (pos_part b + neg_part a)

-- `compareDoubles`.
unfoldable pub compare_doubles : Double → Double → Ordering
unfolding compare_longs
compare_doubles nan nan = eq
compare_doubles nan minus_inf = lt
compare_doubles nan plus_inf = lt
compare_doubles nan (finite b) = lt
compare_doubles minus_inf nan = gt
compare_doubles minus_inf minus_inf = eq
compare_doubles minus_inf plus_inf = lt
compare_doubles minus_inf (finite b) = lt
compare_doubles plus_inf nan = gt
compare_doubles plus_inf minus_inf = gt
compare_doubles plus_inf plus_inf = eq
compare_doubles plus_inf (finite b) = gt
compare_doubles (finite a) nan = gt
compare_doubles (finite a) minus_inf = gt
compare_doubles (finite a) plus_inf = lt
compare_doubles (finite a) (finite b) = compare_longs a b

-- The conversion of a double in the range of `long long`, which drops the fraction.
unfoldable pub truncated : ℕ → Double → ℤ
truncated u nan = pos 0
truncated u minus_inf = pos 0
truncated u plus_inf = pos 0
truncated u (finite (pos n)) = pos (n / u)
truncated u (finite (negsuc n)) = negated (suc n / u)

abbrev pub is_nan : Double → Bool
is_nan nan = true
is_nan minus_inf = false
is_nan plus_inf = false
is_nan (finite z) = false

abbrev pub is_lt : Ordering → Bool
is_lt lt = true
is_lt eq = false
is_lt gt = false

module _ (D : Doubles) where
  -- `kBoundOfLongRange`, 2 ^ 63, and its negative.
  abbrev pub bound : Double
  bound = finite (pos (9223372036854775808 * D.unit))

  abbrev pub lower_bound : Double
  lower_bound = finite (negated (9223372036854775808 * D.unit))

  -- `compareLongToDouble`; `kEndOfPreciseDoubles` is 2 ^ 53.
  unfoldable pub compare_long_to_double : ℤ → Double → Ordering
  unfolding compare_doubles compare_longs truncated
  compare_long_to_double lhs rhs =
      if is_nan rhs
      then gt
      else if leb (magnitude lhs) 9007199254740992
      then compare_doubles (D.to_double lhs) rhs
      else if not (is_lt (compare_doubles rhs bound))
      then lt
      else if is_lt (compare_doubles rhs lower_bound)
      then gt
      else compare_longs lhs (truncated D.unit rhs)

  -- `compareDoubleToLong`.
  unfoldable pub compare_double_to_long : Double → ℤ → Ordering
  unfolding compare_long_to_double
  compare_double_to_long lhs rhs = flip (compare_long_to_double rhs lhs)

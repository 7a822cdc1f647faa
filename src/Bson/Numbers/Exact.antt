-- ===== src/Bson/Numbers/Exact.antt =====
-- The comparisons of src/mongo/base/compare_numbers.h are those of the numbers themselves.
use Prim.Native.Nat.{lt, eq, gt, compare}
use native.Mathlib.Nat.{
  zero-mul, add-mul, mul-lt-mul_of_pos_right, mul-le-mul_right, div-lt_iff_lt-mul,
}
use mongo_cxx_driver.Base.{
  ℕ, zero, suc, ◌+◌, ◌*◌, ◌/◌, ◌≤◌, ◌<◌, ◌≡◌, ◌≢◌, refl, sym, ap, ◌∙◌, true, false, arith, leb,
  leb→le, Bool-cases, inl, inr, flip, compare-flip,
}
use mongo_cxx_driver.Base.Int.{ℤ, pos, negsuc, pos_part, neg_part}
use mongo_cxx_driver.Bson.Numbers.{
  Double, nan, minus_inf, plus_inf, finite, negated, scaled, magnitude, Doubles, compare_longs,
  compare_doubles, truncated, compare_long_to_double,
}

-- A splitting of two numbers by their order.
data Ordered (a b : ℕ) : Type 0 where
  less : a < b → Ordered a b
  same : a ≡ b → Ordered a b
  more : b < a → Ordered a b

order : (a b : ℕ) → Ordered a b
order zero zero = same refl
order zero (suc b) = less (omega arith)
order (suc a) zero = more (omega arith)
order (suc a) (suc b) = elim (order a b) [
  | less h ↦ less (omega arith)
  | same h ↦ same (omega arith)
  | more h ↦ more (omega arith)
]

compare_less : (a b : ℕ) → a < b → compare a b ≡ lt
compare_less a b h = ground arith

compare_same : (a b : ℕ) → a ≡ b → compare a b ≡ eq
compare_same a b h = ground arith

compare_more : (a b : ℕ) → b < a → compare a b ≡ gt
compare_more a b h = ground arith

compare_mul : (u a b : ℕ) → 0 < u → compare (a * u) (b * u) ≡ compare a b
compare_mul u a b h = elim (order a b) [
  | less l ↦ compare_less (a * u) (b * u) (mul-lt-mul_of_pos_right l h) ∙ sym (compare_less a b l)
  | same e ↦ rw e (compare_same (b * u) (b * u) refl ∙ sym (compare_same b b refl))
  | more l ↦ compare_more (a * u) (b * u) (mul-lt-mul_of_pos_right l h) ∙ sym (compare_more a b l)
]

-- Dropping the fraction does not change the comparison with a number that is beyond 2 ^ 53.
compare_quotient :
    (u n m : ℕ)
    → 0 < u
    → 9007199254740992 < n
    → (9007199254740992 * u ≤ m → m ≡ m / u * u)
    → compare n (m / u) ≡ compare (n * u) m
compare_quotient u n m h big whole = elim (order m (9007199254740992 * u)) [
  | less l ↦
      compare_more n (m / u) (omega (arith, (div-lt_iff_lt-mul h).1 l))
      ∙ sym (compare_more (n * u) m (omega (arith, mul-lt-mul_of_pos_right big h)))
  | same e ↦ compare_whole (omega arith)
  | more l ↦ compare_whole (omega arith)
]
  where
    compare_whole : 9007199254740992 * u ≤ m → compare n (m / u) ≡ compare (n * u) m
    compare_whole l = sym (compare_mul u n (m / u) h) ∙ ap (λ k. compare (n * u) k) (sym (whole l))

quotient_compare :
    (u n m : ℕ)
    → 0 < u
    → 9007199254740992 < n
    → (9007199254740992 * u ≤ m → m ≡ m / u * u)
    → compare (m / u) n ≡ compare m (n * u)
quotient_compare u n m h big whole =
    compare-flip n (m / u)
    ∙ ap flip (compare_quotient u n m h big whole)
    ∙ sym (compare-flip (n * u) m)

pub compare_longs-flip : (a b : ℤ) → compare_longs b a ≡ flip (compare_longs a b)
unfolding compare_longs
compare_longs-flip a b = ground arith

pub compare_doubles-flip : (a b : Double) → compare_doubles b a ≡ flip (compare_doubles a b)
unfolding compare_doubles
compare_doubles-flip nan nan = refl
compare_doubles-flip (finite a) (finite b) = compare_longs-flip a b
compare_doubles-flip nan b = ground arith
compare_doubles-flip minus_inf b = ground arith
compare_doubles-flip plus_inf b = ground arith
compare_doubles-flip (finite a) b = ground arith

pub pos_part-negated : (k : ℕ) → pos_part (negated k) ≡ 0
pos_part-negated zero = refl
pos_part-negated (suc k) = refl

pub neg_part-negated : (k : ℕ) → neg_part (negated k) ≡ k
neg_part-negated zero = refl
neg_part-negated (suc k) = refl

module _ (D : Doubles) where
  -- A range of `long long`.
  pub record IsLong (l : ℤ) : Type 0 where
    pub above : pos_part l < 9223372036854775808
    pub below : neg_part l ≤ 9223372036854775808

  abbrev pub exactly : ℤ → Double
  exactly l = finite (scaled D.unit l)

  pos_part-scaled : (a : ℤ) → pos_part (scaled D.unit a) ≡ pos_part a * D.unit
  pos_part-scaled (pos n) = refl
  pos_part-scaled (negsuc n) = pos_part-negated (suc n * D.unit) ∙ sym (zero-mul D.unit)

  neg_part-scaled : (a : ℤ) → neg_part (scaled D.unit a) ≡ neg_part a * D.unit
  neg_part-scaled (pos n) = sym (zero-mul D.unit)
  neg_part-scaled (negsuc n) = neg_part-negated (suc n * D.unit)

  pub compare_longs-exact : (a b : ℤ) → compare_longs a b ≡ compare_doubles (exactly a) (exactly b)
  unfolding compare_doubles compare_longs
  compare_longs-exact a b = sym (
      rw (pos_part-scaled, neg_part-scaled, pos_part-scaled, neg_part-scaled)
        (rw (← add-mul, ← add-mul)
          (compare_mul D.unit (pos_part a + neg_part b) (pos_part b + neg_part a) D.unit_pos)))

  to_double-small : (l : ℤ) → leb (magnitude l) 9007199254740992 ≡ true → D.to_double l ≡ exactly l
  to_double-small l h = D.converted l (D.small_integers l (leb→le (magnitude l) 9007199254740992 h))

  small_lem :
      (l : ℤ) (d : Double)
      → leb (magnitude l) 9007199254740992 ≡ true
      → compare_long_to_double D l d ≡ compare_doubles (exactly l) d
  unfolding compare_long_to_double compare_doubles
  small_lem l nan h = refl
  small_lem l minus_inf h = rw (h, to_double-small l h) refl
  small_lem l plus_inf h = rw (h, to_double-small l h) refl
  small_lem l (finite z) h = rw (h, to_double-small l h) refl

  -- Beyond 2 ^ 53, by the signs.
  pos_pos :
      (n m : ℕ)
      → 9007199254740992 < n
      → n < 9223372036854775808
      → (9007199254740992 * D.unit ≤ m → m ≡ m / D.unit * D.unit)
      → compare_long_to_double D (pos n) (finite (pos m))
        ≡ compare_doubles (exactly (pos n)) (finite (pos m))
  unfolding compare_long_to_double compare_doubles compare_longs truncated
  pos_pos n m big range whole = ground (
    arith,
    compare_quotient D.unit n m D.unit_pos big whole,
    mul-lt-mul_of_pos_right range D.unit_pos,
    neg_part-negated (9223372036854775808 * D.unit),
    pos_part-negated (9223372036854775808 * D.unit),
  )

  pos_neg :
      (n m : ℕ)
      → 9007199254740992 < n
      → compare_long_to_double D (pos n) (finite (negsuc m))
        ≡ compare_doubles (exactly (pos n)) (finite (negsuc m))
  unfolding compare_long_to_double compare_doubles compare_longs truncated
  pos_neg n m big = ground (
    arith,
    neg_part-negated (9223372036854775808 * D.unit),
    pos_part-negated (9223372036854775808 * D.unit),
    neg_part-negated (suc m / D.unit),
    pos_part-negated (suc m / D.unit),
  )

  neg_pos :
      (n m : ℕ)
      → 9007199254740992 < suc n
      → compare_long_to_double D (negsuc n) (finite (pos m))
        ≡ compare_doubles (exactly (negsuc n)) (finite (pos m))
  unfolding compare_long_to_double compare_doubles compare_longs truncated
  neg_pos n m big = ground (
    arith,
    mul-lt-mul_of_pos_right big D.unit_pos,
    neg_part-negated (9223372036854775808 * D.unit),
    pos_part-negated (9223372036854775808 * D.unit),
    neg_part-negated (suc n * D.unit),
    pos_part-negated (suc n * D.unit),
  )

  neg_neg :
      (n m : ℕ)
      → 9007199254740992 < suc n
      → suc n ≤ 9223372036854775808
      → (9007199254740992 * D.unit ≤ suc m → suc m ≡ suc m / D.unit * D.unit)
      → compare_long_to_double D (negsuc n) (finite (negsuc m))
        ≡ compare_doubles (exactly (negsuc n)) (finite (negsuc m))
  unfolding compare_long_to_double compare_doubles compare_longs truncated
  neg_neg n m big range whole = ground (
    arith,
    quotient_compare D.unit (suc n) (suc m) D.unit_pos big whole,
    mul-le-mul_right D.unit range,
    neg_part-negated (9223372036854775808 * D.unit),
    pos_part-negated (9223372036854775808 * D.unit),
    neg_part-negated (suc n * D.unit),
    pos_part-negated (suc n * D.unit),
    neg_part-negated (suc m / D.unit),
    pos_part-negated (suc m / D.unit),
  )

  big_lem :
      (l z : ℤ)
      → IsLong l
      → D.Representable (finite z)
      → 9007199254740992 < magnitude l
      → compare_long_to_double D l (finite z) ≡ compare_doubles (exactly l) (finite z)
  big_lem (pos n) (pos m) range r big =
      pos_pos n m (omega arith) range.above (λ h. ground (arith, D.whole (pos m) r))
  big_lem (pos n) (negsuc m) range r big = pos_neg n m (omega arith)
  big_lem (negsuc n) (pos m) range r big = neg_pos n m (omega arith)
  big_lem (negsuc n) (negsuc m) range r big =
      neg_neg n m (omega arith) range.below (λ h. ground (arith, D.whole (negsuc m) r))

  big_infinite :
      (l : ℤ) (d : Double)
      → leb (magnitude l) 9007199254740992 ≡ false
      → ((z : ℤ) → d ≢ finite z)
      → compare_long_to_double D l d ≡ compare_doubles (exactly l) d
  unfolding compare_long_to_double compare_doubles
  big_infinite l nan h inf = refl
  big_infinite l minus_inf h inf = rw h
  big_infinite l plus_inf h inf = rw h
  big_infinite l (finite z) h inf = absurd (inf z refl)

  -- compareLongToDouble compares as the numbers do, for every `long long` and every double.
  pub compare_long_to_double-exact :
      (l : ℤ) (d : Double)
      → IsLong l
      → D.Representable d
      → compare_long_to_double D l d ≡ compare_doubles (exactly l) d
  compare_long_to_double-exact l d range r =
      elim (Bool-cases (leb (magnitude l) 9007199254740992)) [
        | inl small ↦ small_lem l d small
        | inr big ↦ at d r big
      ]
    where
      at :
          (d : Double)
          → D.Representable d
          → leb (magnitude l) 9007199254740992 ≡ false
          → compare_long_to_double D l d ≡ compare_doubles (exactly l) d
      at (finite z) r big = big_lem l z range r (ground arith)
      at nan r big = big_infinite l nan big (λ z e. cc)
      at minus_inf r big = big_infinite l minus_inf big (λ z e. cc)
      at plus_inf r big = big_infinite l plus_inf big (λ z e. cc)

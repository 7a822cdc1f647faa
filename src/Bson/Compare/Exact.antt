-- ===== src/Bson/Compare/Exact.antt =====
-- `compareElementValues` of src/mongo/bson/bsonelement.cpp on numbers of the three types.
use mongo_cxx_driver.Base.{◌≤◌, ◌≡◌, refl, sym, ap, ◌∙◌, some, arith, flip}
use mongo_cxx_driver.Base.Int.{ℤ}
use mongo_cxx_driver.Bson.Numbers.{
  Double, Doubles, magnitude, compare_doubles, compare_double_to_long,
}
use mongo_cxx_driver.Bson.Numbers.Exact.{
  exactly, IsLong, compare_long_to_double-exact, compare_longs-exact, compare_doubles-flip,
}
use mongo_cxx_driver.Bson.Compare.{Value, int32, int64, double, compare_element_values}

-- A number of one of the three types.
pub data Number : Type 0 where
  int long : ℤ → Number
  real : Double → Number

abbrev pub value_of : Number → Value
value_of (int n) = int32 n
value_of (long n) = int64 n
value_of (real d) = double d

module _ (D : Doubles) where
  -- It is in the range of its type.
  abbrev pub IsInRange : Number → Type 0
  IsInRange (int n) = magnitude n ≤ 2147483648
  IsInRange (long n) = IsLong D n
  IsInRange (real d) = D.Representable d

  -- The number itself.
  abbrev pub exact : Number → Double
  exact (int n) = exactly D n
  exact (long n) = exactly D n
  exact (real d) = d

  to_double-int : (n : ℤ) → magnitude n ≤ 2147483648 → D.to_double n ≡ exactly D n
  to_double-int n h = D.converted n (D.small_integers n (omega arith))

  -- Two numbers of any of the three types, each in its type's range, compare as the numbers do: nothing is lost
  -- where a long is compared with a double.
  pub compare_element_values-exact :
      (x y : Number)
      → IsInRange x
      → IsInRange y
      → compare_element_values D (value_of x) (value_of y)
        ≡ some (compare_doubles (exact x) (exact y))
  unfolding compare_element_values compare_double_to_long
  compare_element_values-exact (int a) (int b) h k = ap some (compare_longs-exact D a b)
  compare_element_values-exact (int a) (long b) h k = ap some (compare_longs-exact D a b)
  compare_element_values-exact (int a) (real b) h k =
      ap (λ x. some (compare_doubles x b)) (to_double-int a h)
  compare_element_values-exact (long a) (int b) h k = ap some (compare_longs-exact D a b)
  compare_element_values-exact (long a) (long b) h k = ap some (compare_longs-exact D a b)
  compare_element_values-exact (long a) (real b) h k =
      ap some (compare_long_to_double-exact D a b h k)
  compare_element_values-exact (real a) (int b) h k =
      ap (λ x. some (compare_doubles a x)) (to_double-int b k)
  compare_element_values-exact (real a) (long b) h k =
      ap (λ x. some (flip x)) (compare_long_to_double-exact D b a k h)
      ∙ ap some (sym (compare_doubles-flip (exactly D b) a))
  compare_element_values-exact (real a) (real b) h k = refl

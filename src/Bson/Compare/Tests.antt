-- ===== src/Bson/Compare/Tests.antt =====
-- Comparisons and hashes of BSON values, and the theorems about them at values that they apply to.
use Prim.Native.Nat.{Ordering, lt, eq, gt}
use mongo_cxx_driver.Base.{
  ℕ, suc, ◌+◌, ◌*◌, ◌/◌, ◌≤◌, ◌≡◌, refl, true, false, some, [], ◌∷◌, bytes, arith, flip,
}
use mongo_cxx_driver.Base.Int.{ℤ, pos, negsuc}
use mongo_cxx_driver.Net.HostAndPort.{compare_text}
use mongo_cxx_driver.Bson.Numbers.{
  Double, nan, minus_inf, plus_inf, finite, Doubles, scaled, magnitude, compare_longs,
  compare_doubles, compare_long_to_double,
}
use mongo_cxx_driver.Bson.Numbers.Exact.{pos_part-negated, neg_part-negated}
use mongo_cxx_driver.Bson.Compare.{
  Value, double, string, symbol, int32, int64, Fields, no_fields, field, canonical_type,
  compare_bytes, compare_element_values, wo_compare, wo_compare_object,
}
use mongo_cxx_driver.Bson.Compare.Opposite.{wo_compare_object-opposite}
use mongo_cxx_driver.Bson.Compare.Exact.{
  Number, long, value_of, exact, compare_element_values-exact,
}
use mongo_cxx_driver.Bson.Compare.Hash.{Hasher, Piece, number, truth, bits, hash, hash_element}
use mongo_cxx_driver.Bson.Compare.Hash.Agree.{IsValid, hash_element-agrees}

-- Doubles that count halves.
abbrev IsHalves : Double → Type 0
IsHalves nan = Unit
IsHalves minus_inf = Unit
IsHalves plus_inf = Unit
IsHalves (finite z) = 9007199254740992 * 2 ≤ magnitude z → magnitude z ≡ magnitude z / 2 * 2

small-IsHalves : (l : ℤ) → magnitude l ≤ 9007199254740992 → IsHalves (finite (scaled 2 l))
small-IsHalves (pos n) h big = omega arith
small-IsHalves (negsuc n) h big =
    omega (arith, pos_part-negated (suc n * 2), neg_part-negated (suc n * 2))

abbrev halves : Doubles
halves = record {
  unit = 2;
  unit_pos = omega arith;
  Representable = IsHalves;
  to_double = λ l. finite (scaled 2 l);
  whole = λ z r h. r h;
  small_integers = small-IsHalves;
  converted = λ l r. refl;
}

abbrev big_long : ℤ
big_long = pos 9007199254740993

-- 2 ^ 53 as a double, in halves.
abbrev big_double : Double
big_double = finite (pos 18014398509481984)

long_above_double : compare_element_values halves (int64 big_long) (double big_double) ≡ some gt
unfolding compare_element_values compare_long_to_double
long_above_double = refl

abbrev person : Fields
person = field (bytes "n") (int32 (pos 2)) (field (bytes "s") (string (bytes "ab")) no_fields)

abbrev other_person : Fields
other_person =
    field (bytes "n") (double (finite (pos 4))) (field (bytes "s") (symbol (bytes "b")) no_fields)

person_first : wo_compare_object halves [] true person other_person ≡ some lt
unfolding wo_compare_object compare_longs canonical_type compare_text compare_doubles compare_bytes
person_first = refl

person_last : wo_compare_object halves (false ∷ true ∷ []) true person other_person ≡ some gt
unfolding wo_compare_object compare_longs canonical_type compare_text compare_doubles compare_bytes
person_last = refl

wo_compare_object-opposite_example :
    (o : Ordering) × (wo_compare_object halves [] true person other_person ≡ some o)
    × (wo_compare_object halves [] true other_person person ≡ some (flip o))
wo_compare_object-opposite_example = wo_compare_object-opposite halves [] true person other_person

compare_element_values-exact_example :
    compare_element_values halves (value_of (long big_long)) (value_of (Number.real big_double))
    ≡ some (compare_doubles (exact halves (long big_long)) (exact halves (Number.real big_double)))
compare_element_values-exact_example =
    compare_element_values-exact halves (long big_long) (Number.real big_double)
      record { above = omega arith; below = omega arith } (λ h. omega arith)

-- A hash that forgets much.
abbrev kind : Piece → ℕ
kind (number z) = 1
kind (truth b) = 2
kind (bits n) = 3
kind (Piece.real d) = 4
kind (hash n) = n

abbrev sum_hash : Hasher
sum_hash = record {
  combine = λ h p. 2 * h + kind p;
  text_hash = λ s. 7;
  combine_object_id = λ h i. h + 1;
}

abbrev two_long : Value
two_long = int64 (pos 2)

abbrev two_double : Value
two_double = double (finite (pos 4))

two_equal : wo_compare halves true (bytes "n") two_long (bytes "n") two_double ≡ some eq
unfolding wo_compare compare_longs canonical_type compare_text compare_long_to_double
two_equal = refl

two_long-IsValid : IsValid halves sum_hash two_long
unfolding IsValid
two_long-IsValid = record { above = omega arith; below = omega arith }

two_double-IsValid : IsValid halves sum_hash two_double
unfolding IsValid
two_double-IsValid = λ h. omega arith

hash_element-agrees_example :
    hash_element halves sum_hash (bytes "n") two_long
    ≡ hash_element halves sum_hash (bytes "n") two_double
hash_element-agrees_example =
    hash_element-agrees halves sum_hash (bytes "n") two_long (bytes "n") two_double two_equal
      two_long-IsValid two_double-IsValid

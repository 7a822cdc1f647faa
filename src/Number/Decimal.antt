-- ===== src/Number/Decimal.antt =====
-- The decimal form of a number, which src/mongo/bson/util/builder.h and bsonobjbuilder.h write.
use mongo_cxx_driver.Base.{
  ℕ, zero, suc, ◌+◌, ◌*◌, ◌/◌, ◌%◌, ◌≤◌, ◌<◌, ◌≡◌, ◌≢◌, refl, sym, subst, ◌∙◌, false, List, [], ◌∷◌,
  ltb, ltb→lt, ap, if◌then◌else◌, arith, Bool-cases, inl, inr,
}
use mongo_cxx_driver.Base.Int.{pos}
use mongo_cxx_driver.Number.Parse.{
  digit_value, is_empty, extract_sign, extract_base, parse_number, int_limits, ok,
}
use mongo_cxx_driver.Number.Parse.Value.{value_from, AllDigits, DenotesRest, parse_number_parts_iff}

-- The digits of a number, before others.
unfoldable pub digits_from : ℕ → ℕ → List ℕ → List ℕ
digits_from zero n tail = tail
digits_from (suc fuel) n tail =
    let longer = digits_from fuel (n / 10) ((b'0' + n % 10) ∷ tail) in
    if ltb n 10 then (b'0' + n) ∷ tail else longer

unfoldable pub decimal : ℕ → List ℕ
unfolding digits_from
decimal n = digits_from (suc n) n []

digit_value_lem : (d : ℕ) → d < 10 → digit_value (b'0' + d) ≡ d
unfolding digit_value
digit_value_lem d h = ground arith

abbrev pub IsDecimal : ℕ → Type 0
IsDecimal c = (b'0' ≤ c) × (c ≤ b'9')

abbrev pub AllDecimal : List ℕ → Type 0
AllDecimal [] = Unit
AllDecimal (c ∷ s) = IsDecimal c × AllDecimal s

step : (n : ℕ) → n / 10 * 10 + digit_value (b'0' + n % 10) ≡ n
step n = omega (arith, digit_value_lem (n % 10) (omega arith))

digits_from-value :
    (fuel n : ℕ) (tail : List ℕ)
    → n < fuel
    → value_from 10 (digits_from fuel n tail) 0 ≡ value_from 10 tail n
unfolding digits_from value_from
digits_from-value zero n tail h = elim h [ ]
digits_from-value (suc fuel) n tail h = elim (Bool-cases (ltb n 10)) [
  | inl short ↦
      rw short (ap (value_from 10 tail) (omega (arith, digit_value_lem n (ltb→lt n 10 short))))
  | inr long ↦ rw long (
      digits_from-value fuel (n / 10) ((b'0' + n % 10) ∷ tail) (ground arith)
      ∙ ap (value_from 10 tail) (step n))
]

digits_from-AllDecimal :
    (fuel n : ℕ) (tail : List ℕ) → AllDecimal tail → AllDecimal (digits_from fuel n tail)
unfolding digits_from
digits_from-AllDecimal zero n tail h = h
digits_from-AllDecimal (suc fuel) n tail h = elim (Bool-cases (ltb n 10)) [
  | inl short ↦ rw short ((omega arith, ground arith), h)
  | inr long ↦ rw long (
      digits_from-AllDecimal fuel (n / 10) ((b'0' + n % 10) ∷ tail) ((omega arith, omega arith), h))
]

digits_from-ne-nil : (fuel n : ℕ) (tail : List ℕ) → n < fuel → digits_from fuel n tail ≢ []
unfolding digits_from
digits_from-ne-nil zero n tail h = elim h [ ]
digits_from-ne-nil (suc fuel) n tail h = elim (Bool-cases (ltb n 10)) [
  | inl short ↦ rw short (λ e. cc)
  | inr long ↦ rw long (digits_from-ne-nil fuel (n / 10) ((b'0' + n % 10) ∷ tail) (ground arith))
]

AllDecimal-AllDigits : (s : List ℕ) → AllDecimal s → AllDigits 10 s
unfolding digit_value
AllDecimal-AllDigits [] h = tt
AllDecimal-AllDigits (c ∷ s) h = (ground (arith, h.0), AllDecimal-AllDigits s h.1)

-- The digits denote the number, and nothing but digits is written.
pub record IsDecimalOf (n : ℕ) (s : List ℕ) : Type 0 where
  pub some_digits : s ≢ []
  pub decimal_digits : AllDecimal s
  pub digits : AllDigits 10 s
  pub value : value_from 10 s 0 ≡ n

pub decimal-IsDecimalOf : (n : ℕ) → IsDecimalOf n (decimal n)
unfolding decimal value_from
decimal-IsDecimalOf n =
    let all = digits_from-AllDecimal (suc n) n [] tt in
    record {
      some_digits = digits_from-ne-nil (suc n) n [] (omega arith);
      decimal_digits = all;
      digits = AllDecimal-AllDigits (digits_from (suc n) n []) all;
      value = digits_from-value (suc n) n [] (omega arith);
    }

no_sign : (s : List ℕ) → AllDecimal s → extract_sign s ≡ (s, false)
unfolding extract_sign
no_sign [] h = refl
no_sign (c ∷ s) h = ground (arith, h.0)

same_base : (s : List ℕ) → extract_base s 10 ≡ (s, 10)
unfolding extract_base
same_base s = refl

not_empty : (s : List ℕ) → s ≢ [] → is_empty s ≡ false
not_empty [] h = absurd (h refl)
not_empty (c ∷ s) h = refl

-- `parseNumberFromString` reads what was written.
pub parse_number-decimal :
    (n : ℕ) → n ≤ 2147483647 → parse_number int_limits (decimal n) (pos 10) ≡ ok (pos n)
parse_number-decimal n h =
    let d = decimal-IsDecimalOf n in
    let bare = no_sign (decimal n) d.decimal_digits in
    (parse_number_parts_iff int_limits (decimal n) 10 (pos n) (omega arith) (omega arith)).1 (
      subst (λ x. DenotesRest int_limits x.1 (extract_base x.0 10) (pos n)) (sym bare)
        (subst (λ y. DenotesRest int_limits false y (pos n)) (sym (same_base (decimal n)))
          (
            not_empty (decimal n) d.some_digits,
            d.digits,
            omega (arith, d.value),
            ap pos (sym d.value),
          )))

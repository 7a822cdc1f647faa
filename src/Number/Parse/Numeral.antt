-- ===== src/Number/Parse/Numeral.antt =====
-- What a text denotes as a number, said without the functions of src/mongo/base/parse_number.cpp.
pub mod Prefix
pub mod Found
use mongo_cxx_driver.Base.{
  ℕ, zero, suc, ◌+◌, ◌-◌, ◌*◌, ◌≤◌, ◌<◌, ◌≡◌, ◌≢◌, refl, sym, subst, ◌∙◌, ◌↔◌, ◌⊎◌, inl, inr, Bool,
  true, false, ◌&&◌, ◌||◌, List, [], ◌∷◌, ltb, leb, ◌==◌, length, arith, Bool-cases, ap,
}
use mongo_cxx_driver.Base.Int.{ℤ, pos, sub_ℕ}
use mongo_cxx_driver.Number.Parse.{
  Limits, ok, parse_number, extract_sign, extract_base, digit_value, is_empty, negated,
  has_hex_prefix, starts_with_zero,
}
use mongo_cxx_driver.Number.Parse.Value.{value_from, AllDigits, DenotesRest, parse_number_parts_iff}

-- The byte is a decimal digit, or a letter of either case that stands for 10 and more.
abbrev pub IsDigit : ℕ → ℕ → Type 0
IsDigit c d =
    ((d < 10) × (c ≡ b'0' + d))
    ⊎ ((10 ≤ d) × (d < 36) × ((c + 10 ≡ b'a' + d) ⊎ (c + 10 ≡ b'A' + d)))

-- The digits of a base, behind the number `n`, are the number `m`.
abbrev pub HasValue : ℕ → List ℕ → ℕ → ℕ → Type 0
HasValue base [] n m = m ≡ n
HasValue base (c ∷ s) n m = (d : ℕ) × (d < base) × IsDigit c d × HasValue base s (n * base + d) m

-- Whether there is a minus sign, and what is behind the sign.
abbrev pub NoSign : List ℕ → Type 0
NoSign [] = Unit
NoSign (c ∷ s) = (c ≢ b'-') × (c ≢ b'+')

pub data IsSigned : List ℕ → Bool → List ℕ → Type 0 where
  minus : {c : ℕ} (s : List ℕ) → c ≡ b'-' → IsSigned (c ∷ s) true s
  plus : {c : ℕ} (s : List ℕ) → c ≡ b'+' → IsSigned (c ∷ s) false s
  bare : (s : List ℕ) → NoSign s → IsSigned s false s

abbrev pub IsX : ℕ → Type 0
IsX c = (c ≡ b'x') ⊎ (c ≡ b'X')

abbrev pub NoZero : List ℕ → Type 0
NoZero (a ∷ b ∷ s) = a ≢ b'0'
NoZero _ = Unit

abbrev pub NoHex : List ℕ → Type 0
NoHex (a ∷ b ∷ s) = (a ≢ b'0') ⊎ ((b ≢ b'x') × (b ≢ b'X'))
NoHex _ = Unit

-- The base that is meant, and the digits. Base 0 leaves it to the text: `0x` and more is hexadecimal, another 0
-- in front of something octal, and all else decimal. In base 16 the `0x` may be there.
pub data IsBased : ℕ → List ℕ → ℕ → List ℕ → Type 0 where
  hex_found :
      {a x : ℕ} (y : ℕ) (t : List ℕ) → a ≡ b'0' → IsX x → IsBased 0 (a ∷ x ∷ y ∷ t) 16 (y ∷ t)
  octal :
      {a : ℕ} (x : ℕ) (t : List ℕ)
      → a ≡ b'0'
      → (t ≡ []) ⊎ ((x ≢ b'x') × (x ≢ b'X'))
      → IsBased 0 (a ∷ x ∷ t) 8 (a ∷ x ∷ t)
  plain_base : (s : List ℕ) → NoZero s → IsBased 0 s 10 s
  hex_given :
      {base a x : ℕ} (t : List ℕ) → base ≡ 16 → a ≡ b'0' → IsX x → IsBased base (a ∷ x ∷ t) 16 t
  given : {base : ℕ} (s : List ℕ) → base ≢ 0 → (base ≡ 16 → NoHex s) → IsBased base s base s

-- The number is in the range of the type.
abbrev pub Fits : Limits → Bool → ℕ → ℤ → Type 0
Fits l true m z = (l.is_signed ≡ true) × (m ≤ l.neg_min) × (z ≡ sub_ℕ 0 m)
Fits l false m z = (m ≤ l.max) × (z ≡ pos m)

-- The digits denote a number of that sign.
abbrev pub DigitsDenote : Limits → Bool → ℕ → List ℕ → ℤ → Type 0
DigitsDenote l negative b t z = (t ≢ []) × (m : ℕ) × HasValue b t 0 m × Fits l negative m z

-- The text denotes the number: an optional sign, an optional prefix, and digits.
abbrev pub Denotes : Limits → List ℕ → ℕ → ℤ → Type 0
Denotes l text base z =
    (negative : Bool) × (s : List ℕ) × (b : ℕ) × (t : List ℕ) × IsSigned text negative s
    × IsBased base s b t
    × DigitsDenote l negative b t z

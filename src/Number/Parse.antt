-- ===== src/Number/Parse.antt =====
-- src/mongo/base/parse_number.cpp, for the integer types. Text is the list of its bytes.
pub mod Value
pub mod Numeral
mod Tests
use mongo_cxx_driver.Base.{
  ℕ, zero, suc, ◌+◌, ◌-◌, ◌*◌, ◌/◌, Bool, true, false, ◌&&◌, ◌||◌, List, [], ◌∷◌, ltb, leb, ◌==◌,
  length, drop, if◌then◌else◌,
}
use mongo_cxx_driver.Base.Int.{ℤ, pos, negsuc, sub_ℕ}

pub data Reason : Type 0 where
  invalid_base no_digits bad_digit underflow overflow negative_value : Reason

pub data Parsed {ℓ} (A : Type ℓ) : Type ℓ where
  ok : A → Parsed A
  err : Reason → Parsed A

-- `numeric_limits<NumberType>`: `is_signed`, `max()`, and `-min()`.
pub record Limits : Type 0 where
  pub is_signed : Bool
  pub max : ℕ
  pub neg_min : ℕ

-- `_digitValue`.
unfoldable pub digit_value : ℕ → ℕ
digit_value c =
    if leb b'0' c && leb c b'9'
    then c - b'0'
    else if leb b'a' c && leb c b'z'
    then c - b'a' + 10
    else if leb b'A' c && leb c b'Z'
    then c - b'A' + 10
    else 36

-- `_extractSign`: the rest of the text, and whether it was negative.
unfoldable pub extract_sign : List ℕ → List ℕ × Bool
extract_sign [] = ([], false)
extract_sign (c ∷ s) =
    if c == b'-' then (s, true) else if c == b'+' then (s, false) else (c ∷ s, false)

unfoldable pub has_hex_prefix : List ℕ → Bool
has_hex_prefix (a ∷ b ∷ s) = a == b'0' && (b == b'x' || b == b'X')
has_hex_prefix _ = false

unfoldable pub starts_with_zero : List ℕ → Bool
starts_with_zero [] = false
starts_with_zero (c ∷ s) = c == b'0'

-- `_extractBase`: the rest of the text, and the base to use.
unfoldable pub extract_base : List ℕ → ℕ → List ℕ × ℕ
unfolding has_hex_prefix starts_with_zero
extract_base s base =
    if base == 0
    then (if ltb 2 (length s) && has_hex_prefix s
        then (drop 2 s, 16)
        else if ltb 1 (length s) && starts_with_zero s
        then (s, 8)
        else (s, 10))
    else if base == 16 && has_hex_prefix s
    then (drop 2 s, 16)
    else (s, base)

-- The loop over the digits. `n` is the magnitude: for a negative number the source keeps `-n`, so
-- that `limits::min() / base > -n` reads `neg_min / base < n`, and likewise for the second test.
unfoldable pub accumulate : ℕ → Reason → ℕ → List ℕ → ℕ → Parsed ℕ
accumulate limit reason base [] n = ok n
accumulate limit reason base (c ∷ s) n =
    let digit = digit_value c in
    let rest = accumulate limit reason base s (n * base + digit) in
    if leb base digit
    then err bad_digit
    else if ltb (limit / base) n || ltb (limit - n * base) digit
    then err reason
    else rest

abbrev pub map_parsed {ℓ κ} : {A : Type ℓ} {B : Type κ} → (A → B) → Parsed A → Parsed B
map_parsed f (ok a) = ok (f a)
map_parsed f (err e) = err e

-- `-n`.
abbrev pub negated : ℕ → ℤ
negated n = sub_ℕ 0 n

abbrev pub is_empty {ℓ} : {A : Type ℓ} → List A → Bool
is_empty [] = true
is_empty (x ∷ xs) = false

unfoldable pub parse_magnitude : Limits → Bool → List ℕ × ℕ → Parsed ℤ
parse_magnitude l negative (s, base) =
    if is_empty s
    then err no_digits
    else if negative
    then (if l.is_signed
        then map_parsed negated (accumulate l.neg_min underflow base s 0)
        else err negative_value)
    else map_parsed pos (accumulate l.max overflow base s 0)

-- `parseNumberFromStringWithBase<NumberType>`.
unfoldable pub parse_number : Limits → List ℕ → ℤ → Parsed ℤ
unfolding parse_magnitude
parse_number l text (negsuc b) = err invalid_base
parse_number l text (pos b) =
    if b == 1 || ltb 36 b
    then err invalid_base
    else let (s, negative) = extract_sign text in parse_magnitude l negative (extract_base s b)

-- `int` and `long long`.
abbrev pub int_limits : Limits
int_limits = record { is_signed = true; max = 2147483647; neg_min = 2147483648 }

-- ===== src/Random/Bits.antt =====
-- The leading bit of an exclusive or, from the recursion over digits that `bit_xor` stands for.
use Prim.Native.Nat.{bit_xor, digits, differ, bit_xor-bitwise}
use mongo_cxx_driver.Base.{ℕ, zero, suc, ◌/◌, ◌%◌, ◌^◌, ◌≤◌, ◌<◌, ◌≡◌, refl, sym, ap, ◌∙◌, arith}
use mongo_cxx_driver.Random.{sar}

abbrev xor_digits : ℕ → ℕ → ℕ → ℕ
xor_digits = digits (λ b. b) differ

xor_digits_fuel : (n m a b : ℕ) → a ≤ n → a ≤ m → xor_digits n a b ≡ xor_digits m a b
xor_digits_fuel zero zero a b p q = refl
xor_digits_fuel zero (suc m) zero b p q = refl
xor_digits_fuel zero (suc m) (suc a) b p q = absurd (omega arith)
xor_digits_fuel (suc n) zero zero b p q = refl
xor_digits_fuel (suc n) zero (suc a) b p q = absurd (omega arith)
xor_digits_fuel (suc n) (suc m) zero b p q = refl
xor_digits_fuel (suc n) (suc m) (suc a) b p q =
    omega (arith, xor_digits_fuel n m (suc a / 2) (b / 2) (omega arith) (omega arith))

differ-lt : (x y : ℕ) → x < 2 → y < 2 → differ x y < 2
differ-lt zero y h k = k
differ-lt (suc x) zero h k = h
differ-lt (suc zero) (suc y) h k = omega arith
differ-lt (suc (suc x)) (suc y) h k = absurd (omega arith)

-- Halving an exclusive or halves its operands.
half-bit_xor : (a b : ℕ) → bit_xor a b / 2 ≡ bit_xor (a / 2) (b / 2)
half-bit_xor zero b = omega (arith, bit_xor-bitwise 0 b, bit_xor-bitwise 0 (b / 2))
half-bit_xor (suc a) b = omega (
  arith,
  bit_xor-bitwise (suc a) b,
  bit_xor-bitwise (suc a / 2) (b / 2),
  xor_digits_fuel a (suc a / 2) (suc a / 2) (b / 2) (omega arith) (omega arith),
  differ-lt (suc a % 2) (b % 2) (omega arith) (omega arith),
)

halves : ℕ → ℕ → ℕ
halves zero x = x
halves (suc k) x = halves k (x / 2)

halves-bit_xor : (k a b : ℕ) → halves k (bit_xor a b) ≡ bit_xor (halves k a) (halves k b)
unfolding halves
halves-bit_xor zero a b = refl
halves-bit_xor (suc k) a b = ap (halves k) (half-bit_xor a b) ∙ halves-bit_xor k (a / 2) (b / 2)

halves-31 : (x : ℕ) → halves 31 x ≡ x / 2 ^ 31
unfolding halves
halves-31 x = omega arith

-- The sign bit of a word.
abbrev pub sign : ℕ → ℕ
sign v = v / 2 ^ 31

pub sign-bit_xor : (a b : ℕ) → sign (bit_xor a b) ≡ bit_xor (sign a) (sign b)
sign-bit_xor a b =
    sym (halves-31 (bit_xor a b))
    ∙ halves-bit_xor 31 a b
    ∙ ap (λ t. bit_xor t (halves 31 b)) (halves-31 a)
    ∙ ap (bit_xor (sign a)) (halves-31 b)

pub sign-sar-19 : (v : ℕ) → v < 2 ^ 32 → sign (sar v 19) ≡ sign v
unfolding sar
sign-sar-19 v h = ground arith

pub sign-sar-8 : (v : ℕ) → v < 2 ^ 32 → sign (sar v 8) ≡ sign v
unfolding sar
sign-sar-8 v h = ground arith

bit_xor-lt_table : (a b : ℕ) → a < 2 → b < 2 → bit_xor a b < 2
bit_xor-lt_table zero zero h k = omega arith
bit_xor-lt_table zero (suc zero) h k = omega arith
bit_xor-lt_table (suc zero) zero h k = omega arith
bit_xor-lt_table (suc zero) (suc zero) h k = omega arith
bit_xor-lt_table zero (suc (suc b)) h k = absurd (omega arith)
bit_xor-lt_table (suc zero) (suc (suc b)) h k = absurd (omega arith)
bit_xor-lt_table (suc (suc a)) b h k = absurd (omega arith)

bit_xor-self_table : (a : ℕ) → a < 2 → bit_xor a a ≡ 0
bit_xor-self_table zero h = refl
bit_xor-self_table (suc zero) h = refl
bit_xor-self_table (suc (suc a)) h = absurd (omega arith)

pub bit_xor-lt : (a b : ℕ) → a < 2 ^ 32 → b < 2 ^ 32 → bit_xor a b < 2 ^ 32
bit_xor-lt a b h k =
    omega (arith, sign-bit_xor a b, bit_xor-lt_table (sign a) (sign b) (omega arith) (omega arith))

-- Words with one sign bit have a non-negative exclusive or.
pub bit_xor-same_sign : (a b : ℕ) → a < 2 ^ 32 → sign b ≡ sign a → bit_xor a b < 2 ^ 31
bit_xor-same_sign a b h e =
    omega
      (arith, sign-bit_xor a b, ap (bit_xor (sign a)) e, bit_xor-self_table (sign a) (omega arith))

pub bit_xor-non_negative : (a b : ℕ) → a < 2 ^ 31 → b < 2 ^ 31 → bit_xor a b < 2 ^ 31
bit_xor-non_negative a b h k = bit_xor-same_sign a b (omega arith) (omega arith)

-- ===== src/Encoding/Base64/RoundTrip.antt =====
-- Base64 loses nothing: what was encoded is decoded.
use mongo_cxx_driver.Base.{
  ℕ, zero, suc, ◌+◌, ◌*◌, ◌/◌, ◌%◌, ◌<◌, ◌≡◌, refl, sym, ap, ◌∙◌, Bool, true, false, ◌&&◌, some,
  List, [], ◌∷◌, length, ◌==◌, not, inl, inr, Bool-cases, arith,
}
use mongo_cxx_driver.Encoding.Base64.{
  at_or_zero, alphabet, e, decode_letter, encode, group, decode_groups, decode,
}

-- A test of every number below a bound, to be evaluated.
abbrev all_below : ℕ → (ℕ → Bool) → Bool
all_below zero p = true
all_below (suc n) p = p n && all_below n p

all_below_lem : (n : ℕ) (p : ℕ → Bool) (k : ℕ) → all_below n p ≡ true → k < n → p k ≡ true
all_below_lem zero p k h l = elim l [ ]
all_below_lem (suc n) p k h l = elim (Bool-cases (k == n)) [
  | inl q ↦ ap p (equal k n q) ∙ first (p n) (all_below n p) h
  | inr q ↦ all_below_lem n p k (second (p n) (all_below n p) h) (ground (arith, q))
]
  where
    equal : (a b : ℕ) → a == b ≡ true → a ≡ b
    equal a b q = ground arith

    first : (a b : Bool) → (a && b) ≡ true → a ≡ true
    first a b q = ground arith

    second : (a b : Bool) → (a && b) ≡ true → b ≡ true
    second a b q = ground arith

letters-ok : all_below 64 (λ x. decode_letter (e x) == x && not (e x == b'=')) ≡ true
unfolding decode_letter e
letters-ok = refl

abbrev pub AllBytes : List ℕ → Type 0
AllBytes [] = Unit
AllBytes (x ∷ xs) = (x < 256) × AllBytes xs

e_mod : (x : ℕ) → e (x % 64) ≡ e x
unfolding e
e_mod x = let q : x % 64 % 64 ≡ x % 64 = omega arith in ap (at_or_zero alphabet) q

-- A letter stands for its six bits.
letter-decoded : (x : ℕ) → decode_letter (e x) ≡ x % 64
letter-decoded x =
    let h =
      all_below_lem 64 (λ y. decode_letter (e y) == y && not (e y == b'=')) (x % 64) letters-ok
        (omega arith) in
    ap decode_letter (sym (e_mod x))
    ∙ same (decode_letter (e (x % 64))) (x % 64) (not (e (x % 64) == b'=')) h
  where
    same : (a b : ℕ) (c : Bool) → (a == b && c) ≡ true → a ≡ b
    same a b c q = ground arith

-- No letter is the padding.
letter-unpadded : (x : ℕ) → e x == b'=' ≡ false
letter-unpadded x =
    let h =
      all_below_lem 64 (λ y. decode_letter (e y) == y && not (e y == b'=')) (x % 64) letters-ok
        (omega arith) in
    ap (λ c. c == b'=') (sym (e_mod x))
    ∙ other (decode_letter (e (x % 64)) == x % 64) (e (x % 64) == b'=') h
  where
    other : (a b : Bool) → (a && not b) ≡ true → b ≡ false
    other a b q = ground arith

length-encode : (s : List ℕ) → length (encode s) % 4 ≡ 0
unfolding encode
length-encode [] = refl
length-encode (a ∷ []) = refl
length-encode (a ∷ b ∷ []) = refl
length-encode (a ∷ b ∷ c ∷ rest) = omega (arith, length-encode rest)

cons_eq {ℓ} : {A : Type ℓ} {x y : A} {xs ys : List A} → x ≡ y → xs ≡ ys → x ∷ xs ≡ y ∷ ys
cons_eq p q = cc

-- The bytes of a group whose letters are `x0` to `x3`.
group-letters :
    (x0 x1 x2 x3 : ℕ)
    → group (e x0) (e x1) (e x2) (e x3)
      ≡ (x0 % 64 * 4 % 256 + x1 % 64 / 16 % 4)
        ∷ (x1 % 64 * 16 % 256 + x2 % 64 / 4 % 16)
        ∷ (x2 % 64 * 64 % 256 + x3 % 64 % 64)
        ∷ []
unfolding group
group-letters x0 x1 x2 x3 =
    rw
      (
        letter-unpadded x3,
        letter-decoded x0,
        letter-decoded x1,
        letter-decoded x2,
        letter-decoded x3,
      )
      refl

group-two :
    (x0 x1 x2 : ℕ)
    → group (e x0) (e x1) (e x2) b'='
      ≡ (x0 % 64 * 4 % 256 + x1 % 64 / 16 % 4) ∷ (x1 % 64 * 16 % 256 + x2 % 64 / 4 % 16) ∷ []
unfolding group
group-two x0 x1 x2 =
    rw (letter-unpadded x2, letter-decoded x0, letter-decoded x1, letter-decoded x2) refl

group-one :
    (x0 x1 : ℕ) → group (e x0) (e x1) b'=' b'=' ≡ (x0 % 64 * 4 % 256 + x1 % 64 / 16 % 4) ∷ []
unfolding group
group-one x0 x1 = rw (letter-decoded x0, letter-decoded x1) refl

decode_groups-encode : (s : List ℕ) → AllBytes s → decode_groups (encode s) ≡ s
unfolding encode decode_groups
decode_groups-encode [] h = refl
decode_groups-encode (a ∷ []) h =
    rw (group-one (a / 4) (a * 16 % 256)) (cons_eq (omega (arith, h.0)) refl)
decode_groups-encode (a ∷ b ∷ []) h =
    rw (group-two (a / 4) (a * 16 % 256 + b / 16 % 16) (b % 16 * 4))
      (cons_eq (omega (arith, h.0, h.1.0)) (cons_eq (omega (arith, h.0, h.1.0)) refl))
decode_groups-encode (a ∷ b ∷ c ∷ rest) h =
    rw (group-letters (a / 4) (a * 16 % 256 + b / 16 % 16) (b % 16 * 4 + c / 64 % 4) (c % 64)) (
      cons_eq (omega (arith, h.0, h.1.0)) (
        cons_eq (omega (arith, h.1.0, h.1.1.0))
          (cons_eq (omega (arith, h.1.0, h.1.1.0)) (decode_groups-encode rest h.1.1.1))))

-- Decoding the encoding of any list of bytes gives the bytes back.
pub decode-encode : (s : List ℕ) → AllBytes s → decode (encode s) ≡ some s
unfolding decode
decode-encode s h = rw (length-encode s, decode_groups-encode s h) refl

-- ===== src/Number/Parse/Numeral/Prefix.antt =====
-- `_extractSign` and `_extractBase` of src/mongo/base/parse_number.cpp find the sign, the base and the digits.
use mongo_cxx_driver.Base.{
  ℕ, zero, suc, ◌≤◌, ◌≡◌, ◌≢◌, refl, sym, subst, ◌⊎◌, inl, inr, Bool, ◌&&◌, List, [], ◌∷◌, ◌==◌,
  arith, Bool-cases,
}
use mongo_cxx_driver.Number.Parse.{extract_sign, extract_base, has_hex_prefix, starts_with_zero}
use mongo_cxx_driver.Number.Parse.Numeral.{
  IsSigned, minus, plus, bare, IsX, IsBased, hex_found, octal, plain_base, hex_given, given,
}

pub signed_lem : (text : List ℕ) → IsSigned text (extract_sign text).1 (extract_sign text).0
unfolding extract_sign
signed_lem [] = bare [] tt
signed_lem (c ∷ s) = elim (Bool-cases (c == b'-')) [
  | inl e ↦ rw e (minus s (ground arith))
  | inr e ↦ elim (Bool-cases (c == b'+')) [
    | inl f ↦ rw (e, f) (plus s (ground arith))
    | inr f ↦ rw (e, f) (bare (c ∷ s) (ground arith, ground arith))
  ]
]

pub signed_unique :
    {text : List ℕ} {negative : Bool} {s : List ℕ}
    → IsSigned text negative s
    → extract_sign text ≡ (s, negative)
unfolding extract_sign
signed_unique (minus s e) = ground arith
signed_unique (plus s e) = ground arith
signed_unique (bare [] n) = refl
signed_unique (bare (c ∷ s) n) = ground (arith, n.0, n.1)

pub based_unique :
    {base : ℕ} {s : List ℕ} {b : ℕ} {t : List ℕ} → IsBased base s b t → extract_base s base ≡ (t, b)
unfolding extract_base has_hex_prefix starts_with_zero
based_unique (hex_found y t z (inl x)) = ground arith
based_unique (hex_found y t z (inr x)) = ground arith
based_unique (octal x [] z h) = ground arith
based_unique (octal x (y ∷ t) z (inl h)) = absurd (cc h)
based_unique (octal x (y ∷ t) z (inr (h, k))) = ground (arith, h, k)
based_unique (plain_base [] h) = refl
based_unique (plain_base (a ∷ []) h) = refl
based_unique (plain_base (a ∷ x ∷ []) h) = ground (arith, h)
based_unique (plain_base (a ∷ x ∷ y ∷ t) h) = ground (arith, h)
based_unique (hex_given t b z (inl x)) = ground arith
based_unique (hex_given t b z (inr x)) = ground arith
based_unique (given [] b h) = ground (arith, b)
based_unique (given (a ∷ []) b h) = ground (arith, b)
based_unique {base} (given (a ∷ x ∷ t) b h) = elim (Bool-cases (base == 16)) [
  | inl e ↦
      (let n = h (ground arith) in
        elim n [ inl k ↦ ground (arith, b, k) | inr k ↦ ground (arith, b, k.0, k.1) ])
  | inr e ↦ ground (arith, b)
]

abbrev Found : ℕ → List ℕ → Type 0
Found base s = (b : ℕ) × (t : List ℕ) × IsBased base s b t

IsX-cases : (x : ℕ) → IsX x ⊎ ((x ≢ b'x') × (x ≢ b'X'))
IsX-cases x = elim (Bool-cases (x == b'x')) [
  | inl e ↦ inl (inl (ground arith))
  | inr e ↦ elim (Bool-cases (x == b'X')) [
    | inl f ↦ inl (inr (ground arith))
    | inr f ↦ inr (ground arith, ground arith)
  ]
]

base-Found : (base : ℕ) (s : List ℕ) → Found base s
base-Found zero [] = (10, [], plain_base [] tt)
base-Found zero (a ∷ []) = (10, a ∷ [], plain_base (a ∷ []) tt)
base-Found zero (a ∷ x ∷ t) = elim (Bool-cases (a == b'0')) [
  | inl e ↦ zero_first t (IsX-cases x) (ground arith)
  | inr e ↦ (10, a ∷ x ∷ t, plain_base (a ∷ x ∷ t) (ground arith))
]
  where
    zero_first :
        (t : List ℕ) → IsX x ⊎ ((x ≢ b'x') × (x ≢ b'X')) → a ≡ b'0' → Found zero (a ∷ x ∷ t)
    zero_first [] h z = (8, a ∷ x ∷ [], octal x [] z (inl refl))
    zero_first (y ∷ t) (inl h) z = (16, y ∷ t, hex_found y t z h)
    zero_first (y ∷ t) (inr h) z = (8, a ∷ x ∷ y ∷ t, octal x (y ∷ t) z (inr h))
base-Found (suc base) (a ∷ x ∷ t) = elim (Bool-cases (suc base == 16 && a == b'0')) [
  | inl e ↦ elim (IsX-cases x) [
    | inl h ↦ (16, t, hex_given t (ground arith) (ground arith) h)
    | inr h ↦ (suc base, a ∷ x ∷ t, given (a ∷ x ∷ t) (omega arith) (λ b. inr h))
  ]
  | inr e ↦ (suc base, a ∷ x ∷ t, given (a ∷ x ∷ t) (omega arith) (λ b. inl (ground arith)))
]
base-Found (suc base) [] = (suc base, [], given [] (omega arith) (λ b. tt))
base-Found (suc base) (a ∷ []) = (suc base, a ∷ [], given (a ∷ []) (omega arith) (λ b. tt))

pub based_lem :
    (base : ℕ) (s : List ℕ) → IsBased base s (extract_base s base).1 (extract_base s base).0
based_lem base s =
    let (b, t, w) = base-Found base s in
    subst (λ r. IsBased base s r.1 r.0) (sym (based_unique w)) w

pub based_small : (s : List ℕ) (base : ℕ) → base ≤ 36 → (extract_base s base).1 ≤ 36
unfolding extract_base
based_small s base h = ground arith

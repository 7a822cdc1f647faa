-- ===== src/Number/Parse/Value.antt =====
-- The digit loop computes the value of the text, and fails exactly where that value does not fit.
use mongo_cxx_driver.Base.{
  ℕ, ◌+◌, ◌-◌, ◌*◌, ◌/◌, ◌≤◌, ◌<◌, ◌≡◌, ◌≢◌, refl, ◌↔◌, inl, inr, Bool, true, false, ◌||◌, List, [],
  ◌∷◌, ltb, leb, ◌==◌, arith, Bool-cases,
}
use mongo_cxx_driver.Number.Parse.{
  Parsed, Reason, Limits, ok, err, underflow, overflow, accumulate, digit_value, is_empty, negated,
  map_parsed, parse_magnitude, parse_number, extract_sign, extract_base,
}
use mongo_cxx_driver.Base.Int.{ℤ, pos}

-- The number that digits stand for in a base, after `n`.
unfoldable pub value_from : ℕ → List ℕ → ℕ → ℕ
value_from base [] n = n
value_from base (c ∷ s) n = value_from base s (n * base + digit_value c)

abbrev pub AllDigits : ℕ → List ℕ → Type 0
AllDigits base [] = Unit {0}
AllDigits base (c ∷ s) = (digit_value c < base) × AllDigits base s

pub le-value_from : (base : ℕ) (s : List ℕ) (n : ℕ) → 0 < base → n ≤ value_from base s n
unfolding value_from
le-value_from base [] n h = omega arith
le-value_from base (c ∷ s) n h = grind (arith, le-value_from base s (n * base + digit_value c) h)

-- The two overflow tests are the test that the next value fits.
mul_le : (limit base n : ℕ) → 0 < base → n ≤ limit / base → n * base ≤ limit
mul_le limit base n h p = grind arith

lt_mul : (limit base n : ℕ) → 0 < base → limit / base < n → limit < n * base
lt_mul limit base n h p = grind arith

fits_iff :
    (limit base n digit : ℕ)
    → 0 < base
    → ((ltb (limit / base) n || ltb (limit - n * base) digit) ≡ false) ↔ (n * base + digit ≤ limit)
fits_iff limit base n digit h =
    (λ e. ground (arith, mul_le limit base n h), λ e. ground (arith, lt_mul limit base n h))

-- The loop succeeds exactly on digits of the base whose value is within the limit, with that value.
pub accumulate_iff :
    (limit : ℕ) (reason : Reason) (base : ℕ) (s : List ℕ) (n m : ℕ)
    → 0 < base
    → n ≤ limit
    → (accumulate limit reason base s n ≡ ok m)
      ↔ (AllDigits base s × (value_from base s n ≤ limit) × (m ≡ value_from base s n))
unfolding accumulate value_from
accumulate_iff limit reason base [] n m h le = (λ e. (tt, le, cc e), λ (u, w, e). cc e)
accumulate_iff limit reason base (c ∷ s) n m h le =
    let (fits, fits') = fits_iff limit base n (digit_value c) h in
    elim (Bool-cases (leb base (digit_value c))) [
      | inl bad ↦ (λ e. cc (rw bad at e), λ (d, w, e). absurd (ground (arith, d.0)))
      | inr good ↦
          elim (Bool-cases (ltb (limit / base) n || ltb (limit - n * base) (digit_value c))) [
            | inl over ↦ (
              λ e. cc (rw (good, over) at e),
              λ (d, w, e).
                  let le' = le-value_from base s (n * base + digit_value c) h in
                  cc (over, fits' (omega (arith, le', w))),
            )
            | inr room ↦
                let (to, from) =
                  accumulate_iff limit reason base s (n * base + digit_value c) m h (fits room) in
                (
                  λ e.
                      let (d, w, q) = to (rw (good, room) at e) in
                      ((ground (arith, good), d), w, q),
                  λ (d, w, q). rw (good, room) (from (d.1, w, q)),
                )
          ]
    ]

-- The text and base that are left after the sign and the prefix denote the integer `z`.
abbrev pub DenotesRest : Limits → Bool → List ℕ × ℕ → ℤ → Type 0
DenotesRest l true (s, base) z =
    (is_empty s ≡ false)
    × AllDigits base s
    × (l.is_signed ≡ true)
    × (value_from base s 0 ≤ l.neg_min)
    × (z ≡ negated (value_from base s 0))
DenotesRest l false (s, base) z =
    (is_empty s ≡ false)
    × AllDigits base s
    × (value_from base s 0 ≤ l.max)
    × (z ≡ pos (value_from base s 0))

map_parsed-ok :
    (f : ℕ → ℤ) (r : Parsed ℕ) (z : ℤ) → map_parsed f r ≡ ok z → (m : ℕ) × (r ≡ ok m) × (z ≡ f m)
map_parsed-ok f (ok a) z h = (a, refl, cc h)
map_parsed-ok f (err e) z h = cc h

parse_magnitude_iff :
    (l : Limits) (negative : Bool) (s : List ℕ) (base : ℕ) (z : ℤ)
    → 0 < base
    → (parse_magnitude l negative (s, base) ≡ ok z) ↔ DenotesRest l negative (s, base) z
unfolding parse_magnitude
parse_magnitude_iff l true [] base z h = ((λ e. cc), (λ (e, d, t, w, q). cc))
parse_magnitude_iff l false [] base z h = ((λ e. cc), (λ (e, d, w, q). cc))
parse_magnitude_iff l true (c ∷ s) base z h = elim (Bool-cases l.is_signed) [
  | inl signed ↦ (
    λ e.
        let (m, e', q) =
          map_parsed-ok negated (accumulate l.neg_min underflow base (c ∷ s) 0) z
            (rw signed at e) in
        let (d, w, v) =
          (accumulate_iff l.neg_min underflow base (c ∷ s) 0 m h (omega arith)).0 e' in
        (refl, d, signed, w, cc),
    λ (e, d, t, w, q).
        rw (t, (accumulate_iff l.neg_min underflow base (c ∷ s) 0 _ h (omega arith)).1 (d, w, refl))
          (cc),
  )
  | inr unsigned ↦ (λ e. cc (rw unsigned at e), λ (e, d, t, w, q). cc)
]
parse_magnitude_iff l false (c ∷ s) base z h = (
  λ e.
      let (m, e', q) = map_parsed-ok pos (accumulate l.max overflow base (c ∷ s) 0) z e in
      let (d, w, v) = (accumulate_iff l.max overflow base (c ∷ s) 0 m h (omega arith)).0 e' in
      (refl, d, w, cc),
  λ (e, d, w, q).
      rw ((accumulate_iff l.max overflow base (c ∷ s) 0 _ h (omega arith)).1 (d, w, refl)) (cc),
)

extract_base-pos : (s : List ℕ) (base : ℕ) → 0 < (extract_base s base).1
unfolding extract_base
extract_base-pos s base = ground arith

valid_base : (base : ℕ) → base ≢ 1 → base ≤ 36 → (base == 1 || ltb 36 base) ≡ false
valid_base base h le = ground arith

-- In a base that the code accepts, `parse_number` returns `z` exactly if, behind a sign and a prefix,
-- the text is a nonempty string of digits of the base that denotes `z`, and `z` fits the type.
pub parse_number_parts_iff :
    (l : Limits) (text : List ℕ) (base : ℕ) (z : ℤ)
    → base ≢ 1
    → base ≤ 36
    → (parse_number l text (pos base) ≡ ok z)
      ↔ DenotesRest l (extract_sign text).1 (extract_base (extract_sign text).0 base) z
unfolding parse_number
parse_number_parts_iff l text base z h le =
    let (s, b) = extract_base (extract_sign text).0 base in
    rw (valid_base base h le) (
      parse_magnitude_iff l (extract_sign text).1 s b z
        (extract_base-pos (extract_sign text).0 base))

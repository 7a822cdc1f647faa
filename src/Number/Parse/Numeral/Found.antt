-- ===== src/Number/Parse/Numeral/Found.antt =====
-- `parseNumberFromStringWithBase` of src/mongo/base/parse_number.cpp returns what its text denotes.
use mongo_cxx_driver.Base.{
  ℕ, ◌+◌, ◌*◌, ◌≤◌, ◌<◌, ◌≡◌, ◌≢◌, refl, sym, subst, ◌∙◌, ◌↔◌, inl, inr, Bool, true, false, ◌&&◌,
  List, [], ◌∷◌, leb, arith, Bool-cases, ap,
}
use mongo_cxx_driver.Base.Int.{ℤ, pos, sub_ℕ}
use mongo_cxx_driver.Number.Parse.{
  Limits, ok, parse_number, extract_sign, extract_base, digit_value, is_empty,
}
use mongo_cxx_driver.Number.Parse.Value.{value_from, AllDigits, DenotesRest, parse_number_parts_iff}
use mongo_cxx_driver.Number.Parse.Numeral.{IsDigit, HasValue, DigitsDenote, Denotes}
use mongo_cxx_driver.Number.Parse.Numeral.Prefix.{
  signed_lem, signed_unique, based_unique, based_lem, based_small,
}

digit_value-IsDigit : (c : ℕ) → digit_value c < 36 → IsDigit c (digit_value c)
unfolding digit_value
digit_value-IsDigit c h = elim (Bool-cases (leb b'0' c && leb c b'9')) [
  | inl e ↦ rw e (inl (ground arith, ground arith))
  | inr e ↦ elim (Bool-cases (leb b'a' c && leb c b'z')) [
    | inl f ↦ rw (e, f) (inr (omega arith, ground arith, inl (ground arith)))
    | inr f ↦ elim (Bool-cases (leb b'A' c && leb c b'Z')) [
      | inl g ↦ rw (e, f, g) (inr (omega arith, ground arith, inr (ground arith)))
      | inr g ↦ absurd (ground arith)
    ]
  ]
]

IsDigit-value : (c d : ℕ) → IsDigit c d → digit_value c ≡ d
unfolding digit_value
IsDigit-value c d (inl (l, e)) = ground arith
IsDigit-value c d (inr (h, l, inl e)) = ground arith
IsDigit-value c d (inr (h, l, inr e)) = ground arith

to_value :
    (base : ℕ) (s : List ℕ) (n : ℕ)
    → base ≤ 36
    → AllDigits base s
    → HasValue base s n (value_from base s n)
unfolding value_from
to_value base [] n h a = refl
to_value base (c ∷ s) n h (d, a) = (
  digit_value c,
  d,
  digit_value-IsDigit c (omega (arith, d)),
  to_value base s (n * base + digit_value c) h a,
)

of_value :
    (base : ℕ) (s : List ℕ) (n m : ℕ)
    → base ≤ 36
    → HasValue base s n m
    → AllDigits base s × (m ≡ value_from base s n)
unfolding value_from
of_value base [] n m h e = (tt, e)
of_value base (c ∷ s) n m h (d, l, i, v) =
    let e = IsDigit-value c d i in
    let (a, w) = of_value base s (n * base + d) m h v in
    ((omega arith, a), w ∙ ap (λ k. value_from base s (n * base + k)) (sym e))

some_text : (t : List ℕ) → t ≢ [] → is_empty t ≡ false
some_text [] h = absurd (h refl)
some_text (c ∷ t) h = refl

-- What is left of the text after the sign and the prefix.
rest_iff :
    (l : Limits) (negative : Bool) (b : ℕ) (t : List ℕ) (z : ℤ)
    → b ≤ 36
    → DenotesRest l negative (t, b) z ↔ DigitsDenote l negative b t z
rest_iff l true b t z h = (
  λ (e, a, u, w, q). ((λ k. cc), value_from b t 0, to_value b t 0 h a, (u, w, q)),
  λ (k, m, v, (u, w, q)).
      let (a, r) = of_value b t 0 m h v in
      (some_text t k, a, u, omega (arith, w), q ∙ ap (sub_ℕ 0) r),
)
rest_iff l false b t z h = (
  λ (e, a, w, q). ((λ k. cc), value_from b t 0, to_value b t 0 h a, (w, q)),
  λ (k, m, v, (w, q)).
      let (a, r) = of_value b t 0 m h v in (some_text t k, a, omega (arith, w), q ∙ ap pos r),
)

-- In a base that the code accepts, `parse_number` returns `z` exactly if the text denotes `z` in that base: a sign
-- or none, a prefix where the base allows one, and at least one digit of the base, with a value that
-- fits the type. What a sign, a prefix and a digit are is said without the code.
pub parse_number_iff :
    (l : Limits) (text : List ℕ) (base : ℕ) (z : ℤ)
    → base ≢ 1
    → base ≤ 36
    → (parse_number l text (pos base) ≡ ok z) ↔ Denotes l text base z
parse_number_iff l text base z h small =
    let parts = parse_number_parts_iff l text base z h small in
    let rest = (extract_sign text).0 in
    (
      λ e. (
        (extract_sign text).1,
        rest,
        (extract_base rest base).1,
        (extract_base rest base).0,
        signed_lem text,
        based_lem base rest,
        (rest_iff l (extract_sign text).1 (extract_base rest base).1 (extract_base rest base).0 z
              (based_small rest base small)).0
            (parts.0 e),
      ),
      λ (negative, s, b, t, sign, prefix, digits). parts.1 (
          subst (λ x. DenotesRest l x.1 (extract_base x.0 base) z) (sym (signed_unique sign))
            (subst (λ y. DenotesRest l negative y z) (sym (based_unique prefix))
              ((rest_iff l negative b t z
                  (subst (λ r. r.1 ≤ 36) (based_unique prefix) (based_small s base small))).1
                digits))),
    )

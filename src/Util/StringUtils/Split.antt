-- ===== src/Util/StringUtils/Split.antt =====
-- `splitStringDelim` and `joinStringDelim` of src/mongo/util/stringutils.cpp, one after the other.
use mongo_cxx_driver.Base.{
  ℕ, ◌≡◌, ◌≢◌, refl, ap, ◌==◌, ==_iff, Bool, true, false, ◌||◌, List, [], ◌∷◌, if◌then◌else◌,
}
use mongo_cxx_driver.Util.StringUtils.{extend, pieces_of, split_string_delim, join_string_delim}

abbrev pub has : ℕ → List ℕ → Bool
has delim [] = false
has delim (c ∷ s) = c == delim || has delim s

abbrev pub some_has : ℕ → List (List ℕ) → Bool
some_has delim [] = false
some_has delim (piece ∷ pieces) = has delim piece || some_has delim pieces

abbrev Splits : ℕ → List ℕ → List (List ℕ) → Type 0
Splits delim s pieces = (join_string_delim pieces delim ≡ s) × (some_has delim pieces ≡ false)

behind-Splits :
    (delim c : ℕ) (s : List ℕ) (pieces : List (List ℕ))
    → (c == delim) ≡ true
    → pieces ≢ []
    → Splits delim s pieces
    → Splits delim (c ∷ s) ([] ∷ pieces)
unfolding join_string_delim
behind-Splits delim c s [] e differs h = elim (differs refl) [ ]
behind-Splits delim c s (p ∷ ps) e differs (join, free) =
    let same = (==_iff c delim).0 e in (rw (same, join), free)

extend-Splits :
    (delim c : ℕ) (s : List ℕ) (pieces : List (List ℕ))
    → (c == delim) ≡ false
    → pieces ≢ []
    → Splits delim s pieces
    → Splits delim (c ∷ s) (extend c pieces)
unfolding join_string_delim
extend-Splits delim c s [] e differs h = elim (differs refl) [ ]
extend-Splits delim c s (p ∷ []) e differs (join, free) = (ap (λ t. c ∷ t) join, rw e free)
extend-Splits delim c s (p ∷ q ∷ ps) e differs (join, free) = (ap (λ t. c ∷ t) join, rw e free)

extend_some : (c : ℕ) (pieces : List (List ℕ)) → extend c pieces ≢ []
extend_some c [] e = cc
extend_some c (p ∷ ps) e = cc

pieces_of_some : (delim : ℕ) (s : List ℕ) → pieces_of delim s ≢ []
unfolding pieces_of
pieces_of_some delim [] e = cc
pieces_of_some delim (c ∷ s) e = choose (c == delim) e
  where
    choose : (b : Bool) → (if b then [] ∷ pieces_of delim s else extend c (pieces_of delim s)) ≢ []
    choose true e = cc
    choose false e = extend_some c (pieces_of delim s) e

pieces_of-Splits : (delim : ℕ) (s : List ℕ) → Splits delim s (pieces_of delim s)
unfolding pieces_of join_string_delim
pieces_of-Splits delim [] = (refl, refl)
pieces_of-Splits delim (c ∷ s) = choose (c == delim) refl (pieces_of-Splits delim s)
  where
    choose :
        (b : Bool)
        → (c == delim) ≡ b
        → Splits delim s (pieces_of delim s)
        → Splits delim (c ∷ s) (if b then [] ∷ pieces_of delim s else extend c (pieces_of delim s))
    choose true e h = behind-Splits delim c s (pieces_of delim s) e (pieces_of_some delim s) h
    choose false e h = extend-Splits delim c s (pieces_of delim s) e (pieces_of_some delim s) h

-- The pieces of every text, joined with the delimiter, are the text, and no piece has the delimiter.
pub join_string_delim-split_string_delim :
    (s : List ℕ) (delim : ℕ)
    → (join_string_delim (split_string_delim s delim) delim ≡ s)
      × (some_has delim (split_string_delim s delim) ≡ false)
unfolding split_string_delim join_string_delim
join_string_delim-split_string_delim [] delim = (refl, refl)
join_string_delim-split_string_delim (c ∷ s) delim = pieces_of-Splits delim (c ∷ s)

-- ===== src/Json/Token/Laws.antt =====
-- When `readTokenImpl` of src/mongo/db/json.cpp finds a token.
use mongo_cxx_driver.Base.{
  ℕ, ◌≡◌, refl, sym, ap, ◌∙◌, ◌↔◌, Bool, true, false, not, ◌&&◌, List, [], ◌∷◌, ◌++◌, some,
  if◌then◌else◌, arith,
}
use mongo_cxx_driver.Json.Token.{is_space, skip_spaces, strip, read_token_impl}

abbrev all_spaces : List ℕ → Bool
all_spaces [] = true
all_spaces (c ∷ s) = is_space c && all_spaces s

abbrev no_space : List ℕ → Bool
no_space [] = true
no_space (c ∷ s) = not (is_space c)

-- The white space at the front of an input, and what is behind it.
pub record IsSkipped (input rest : List ℕ) : Type 0 where
  pub spaces : List ℕ
  pub parts : spaces ++ rest ≡ input
  pub white : all_spaces spaces ≡ true
  pub stops : no_space rest ≡ true

skip_spaces-IsSkipped : (input : List ℕ) → IsSkipped input (skip_spaces input)
unfolding skip_spaces
skip_spaces-IsSkipped [] = record { spaces = []; parts = refl; white = refl; stops = refl }
skip_spaces-IsSkipped (c ∷ s) = choose (is_space c) refl (skip_spaces-IsSkipped s)
  where
    choose :
        (b : Bool)
        → is_space c ≡ b
        → IsSkipped s (skip_spaces s)
        → IsSkipped (c ∷ s) (if b then skip_spaces s else c ∷ s)
    choose true e h = record {
      spaces = c ∷ h.spaces;
      parts = ap (λ t. c ∷ t) h.parts;
      white = rw e h.white;
      stops = h.stops;
    }
    choose false e h = record { spaces = []; parts = refl; white = refl; stops = rw e refl }

strip-append : (token input rest : List ℕ) → strip token input ≡ some rest → token ++ rest ≡ input
unfolding strip
strip-append [] input rest h = ground arith
strip-append (t ∷ token) [] rest h = cc
strip-append (t ∷ token) (c ∷ s) rest h = ground (arith, strip-append token s rest)

append-strip : (token rest : List ℕ) → strip token (token ++ rest) ≡ some rest
unfolding strip
append-strip [] rest = refl
append-strip (t ∷ token) rest = ground (arith, append-strip token rest)

-- For every token and input: the input is white space, as much as there is, and the text behind it; and the
-- token is found, with this rest, just if the text behind the space is the token and then the rest.
pub read_token_impl_iff :
    (token input rest : List ℕ)
    → IsSkipped input (skip_spaces input)
      × ((read_token_impl token input ≡ some rest) ↔ (token ++ rest ≡ skip_spaces input))
unfolding read_token_impl
read_token_impl_iff token input rest = (
  skip_spaces-IsSkipped input,
  (
    strip-append token (skip_spaces input) rest,
    λ h. ap (strip token) (sym h) ∙ append-strip token rest,
  ),
)

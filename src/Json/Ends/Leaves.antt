-- ===== src/Json/Ends/Leaves.antt =====
-- The tokens, texts and fields of src/mongo/db/json.cpp end inside the input.
use Prim.Native.String.{String}
use mongo_cxx_driver.Base.{
  ℕ, zero, suc, Bool, true, false, not, ◌||◌, Option, none, some, List, [], ◌∷◌, length, ◌≤◌, ◌<◌,
  ◌==◌, bytes, leb, ◌≡◌, arith,
}
use mongo_cxx_driver.Net.HostAndPort.{text_eq}
use mongo_cxx_driver.Json.Result.{Input, Result, Parser, bind, require, ◌>>=◌, ◌>>◌}
use mongo_cxx_driver.Json.Token.{
  is_space, skip_spaces, strip, read_token_impl, peek_token, advance, read_token, expect, match_set,
  match, is_nil,
}
use mongo_cxx_driver.Json.Text.{
  piece, bad, unit_of, chars_from, chars, of_chars, push, Chars, read, refused, quoted_by,
  single_quoted, double_quoted, name_start, name_chars, quoted_string, unquoted_name, field_name,
  is_field, expect_field, Piece,
}
use mongo_cxx_driver.Json.Ends.{
  IsRest, all_left, passed, IsRest-trans, IsRest-length, Ends, Ends_at, Ends_from, Runs, bind-Runs,
  pure-Runs, require-Runs, parse_error-Runs, if-Runs, if_lem, if-Ends, returns, fails, throws,
}

skip_spaces-IsRest : (input : Input) → IsRest (skip_spaces input) input
unfolding skip_spaces
skip_spaces-IsRest [] = all_left []
skip_spaces-IsRest (c ∷ rest) =
    if_lem (λ left. IsRest left (c ∷ rest)) (is_space c) (passed c (skip_spaces-IsRest rest))
      (all_left (c ∷ rest))

-- What is behind a token, as far as it was found.
abbrev pub Behind : Option Input → Input → Type 0
Behind none input = Unit {0}
Behind (some rest) input = IsRest rest input

Behind-from :
    {rest input : Input} (o : Option Input) → IsRest rest input → Behind o rest → Behind o input
Behind-from none h k = tt
Behind-from (some left) h k = IsRest-trans k h

strip-Behind : (token input : List ℕ) → Behind (strip token input) input
unfolding strip
strip-Behind [] input = all_left input
strip-Behind (t ∷ token) [] = tt
strip-Behind (t ∷ token) (c ∷ rest) =
    if_lem (λ o. Behind o (c ∷ rest)) (t == c)
      (Behind-from (strip token rest) (passed c (all_left rest)) (strip-Behind token rest)) tt

pub read_token_impl-Behind : (token input : List ℕ) → Behind (read_token_impl token input) input
unfolding read_token_impl
read_token_impl-Behind token input =
    Behind-from (read_token_impl token input) (skip_spaces-IsRest input)
      (strip-Behind token (skip_spaces input))

advance-Ends : (o : Option Input) (input : Input) → Behind o input → Ends input (advance o input)
advance-Ends none input h = returns (all_left input)
advance-Ends (some rest) input h = returns h

pub read_token-Runs : {n : ℕ} (token : String) → Runs n (read_token token)
read_token-Runs token = record {
  run = λ input l.
      advance-Ends (read_token_impl (bytes token) input) input
        (read_token_impl-Behind (bytes token) input);
}

pub expect-Runs : {n : ℕ} (token msg : String) → Runs n (expect token msg)
expect-Runs token msg = bind-Runs (read_token-Runs token) (λ found. require-Runs found msg [])

-- A token that is not empty takes a byte.
abbrev Fewer : Option Input → Input → Type 0
Fewer none input = Unit {0}
Fewer (some rest) input = length rest < length input

Fewer-from :
    (rest input : Input) (o : Option Input)
    → length rest ≤ length input
    → Fewer o rest
    → Fewer o input
Fewer-from rest input none h k = tt
Fewer-from rest input (some left) h k = omega arith

Fewer-Behind : (c : ℕ) (rest : Input) (o : Option Input) → Behind o rest → Fewer o (c ∷ rest)
Fewer-Behind c rest none h = tt
Fewer-Behind c rest (some left) h = let shorter = IsRest-length h in omega arith

strip-Fewer : (token input : List ℕ) → is_nil token ≡ false → Fewer (strip token input) input
unfolding strip
strip-Fewer [] input h = cc
strip-Fewer (t ∷ token) [] h = tt
strip-Fewer (t ∷ token) (c ∷ rest) h =
    if_lem (λ o. Fewer o (c ∷ rest)) (t == c)
      (Fewer-Behind c rest (strip token rest) (strip-Behind token rest)) tt

read_token_impl-Fewer :
    (token input : List ℕ) → is_nil token ≡ false → Fewer (read_token_impl token input) input
unfolding read_token_impl
read_token_impl-Fewer token input h =
    Fewer-from (skip_spaces input) input (strip token (skip_spaces input))
      (IsRest-length (skip_spaces-IsRest input)) (strip-Fewer token (skip_spaces input) h)

module _ {ℓ} {A : Type ℓ} {n : ℕ} where
  advance_then :
      (q : Bool → Parser A) (input : Input) (o : Option Input)
      → Behind o input
      → Fewer o input
      → length input ≤ n
      → Runs n (q false)
      → ((j : ℕ) → j < n → Runs j (q true))
      → Ends input (bind (advance o input) q)
  advance_then q input none h f l k m = k.run input l
  advance_then q input (some rest) h f l k m =
      Ends_from h ((m (length rest) (omega arith)).run rest (omega arith))

  -- What runs behind a token has fewer bytes.
  pub read_then :
      (token : String) (q : Bool → Parser A)
      → is_nil (bytes token) ≡ false
      → Runs n (q false)
      → ((j : ℕ) → j < n → Runs j (q true))
      → Runs n (read_token token >>= q)
  read_then token q h k m = record {
    run = λ input l.
        advance_then q input (read_token_impl (bytes token) input)
          (read_token_impl-Behind (bytes token) input) (read_token_impl-Fewer (bytes token) input h)
          l k m;
  }

  expected :
      (q : Parser A) (msg : String) (input : Input) (o : Option Input)
      → Behind o input
      → Fewer o input
      → length input ≤ n
      → ((j : ℕ) → j < n → Runs j q)
      → Ends input (bind (bind (advance o input) (λ found. require found msg [])) (λ u. q))
  expected q msg input none h f l k = fails (all_left input)
  expected q msg input (some rest) h f l k =
      Ends_from h ((k (length rest) (omega arith)).run rest (omega arith))

  pub expect_then :
      (token msg : String) {q : Parser A}
      → is_nil (bytes token) ≡ false
      → ((j : ℕ) → j < n → Runs j q)
      → Runs n (expect token msg >> q)
  expect_then token msg {q} h k = record {
    run = λ input l.
        expected q msg input (read_token_impl (bytes token) input)
          (read_token_impl-Behind (bytes token) input) (read_token_impl-Fewer (bytes token) input h)
          l k;
  }

abbrev Stops : Chars → Input → Type 0
Stops (read bs rest) input = IsRest rest input
Stops (refused msg) input = Unit {0}

Stops-passed : (c : ℕ) (input : Input) (r : Chars) → Stops r input → Stops r (c ∷ input)
Stops-passed c input (read bs rest) h = passed c h
Stops-passed c input (refused msg) h = tt

Stops-push : (input : Input) (bs : List ℕ) (r : Chars) → Stops r input → Stops (push bs r) input
Stops-push input bs (read cs rest) h = h
Stops-push input bs (refused msg) h = tt

unit-Stops :
    (terminals : List ℕ) (allowed : Option (List ℕ)) (c : ℕ) (rest : Input) (u : Piece)
    → ((k : ℕ) → Stops (chars_from terminals allowed k rest) rest)
    → Stops
        (elim u [
          | bad msg ↦ refused msg
          | piece bs k ↦ push bs (chars_from terminals allowed k rest)
        ])
        (c ∷ rest)
unit-Stops terminals allowed c rest (bad msg) h = tt
unit-Stops terminals allowed c rest (piece bs k) h =
    Stops-push (c ∷ rest) bs (chars_from terminals allowed k rest)
      (Stops-passed c rest (chars_from terminals allowed k rest) (h k))

chars_from-Stops :
    (terminals : List ℕ) (allowed : Option (List ℕ)) (skip : ℕ) (input : Input)
    → Stops (chars_from terminals allowed skip input) input
unfolding chars_from
chars_from-Stops terminals allowed skip [] = tt
chars_from-Stops terminals allowed (suc k) (c ∷ rest) =
    Stops-passed c rest (chars_from terminals allowed k rest)
      (chars_from-Stops terminals allowed k rest)
chars_from-Stops terminals allowed zero (c ∷ rest) =
    if_lem (λ r. Stops r (c ∷ rest)) (match_set c terminals || not (match c allowed))
      (all_left (c ∷ rest))
      (if_lem (λ r. Stops r (c ∷ rest)) (leb c 31) tt
        (unit-Stops terminals allowed c rest (unit_of c rest)
          (λ k. chars_from-Stops terminals allowed k rest)))

of_chars-Ends : (r : Chars) (input : Input) → Stops r input → Ends input (of_chars r input)
of_chars-Ends (read bs rest) input h = returns h
of_chars-Ends (refused msg) input h = fails (all_left input)

pub chars-Runs :
    {n : ℕ} (terminals : List ℕ) (allowed : Option (List ℕ)) → Runs n (chars terminals allowed)
unfolding chars
chars-Runs terminals allowed = record {
  run = λ input l.
      of_chars-Ends (chars_from terminals allowed 0 input) input
        (chars_from-Stops terminals allowed 0 input);
}

pub quoted_by-Runs : {n : ℕ} (quote msg : String) → Runs n (quoted_by quote msg)
unfolding quoted_by
quoted_by-Runs quote msg =
    bind-Runs (chars-Runs (bytes quote) none)
      (λ s. bind-Runs (expect-Runs quote msg) (λ u. pure-Runs))

single_quoted-Runs : {n : ℕ} (found : Bool) → Runs n (single_quoted found)
single_quoted-Runs true = quoted_by-Runs "'" "Expecting '''"
single_quoted-Runs false = parse_error-Runs "Expecting quoted string"

double_quoted-Runs : {n : ℕ} (found : Bool) → Runs n (double_quoted found)
double_quoted-Runs true = quoted_by-Runs "\"" "Expecting '\"'"
double_quoted-Runs false = bind-Runs (read_token-Runs "'") single_quoted-Runs

pub quoted_string-Runs : {n : ℕ} → Runs n quoted_string
unfolding quoted_string
quoted_string-Runs = bind-Runs (read_token-Runs "\"") double_quoted-Runs

unquoted_name-Ends : (input : Input) → Ends input (unquoted_name input)
unfolding unquoted_name
unquoted_name-Ends [] = fails (all_left [])
unquoted_name-Ends (c ∷ rest) =
    if-Ends (match_set c name_start) (Ends_at (c ∷ rest) (chars-Runs [] (some name_chars)))
      (fails (all_left (c ∷ rest)))

pub field_name-Runs : {n : ℕ} → Runs n field_name
unfolding field_name
field_name-Runs =
    if-Runs (λ input. peek_token "\"" input || peek_token "'" input) quoted_string-Runs
      record {
        run = λ input l.
            Ends_from (skip_spaces-IsRest input) (unquoted_name-Ends (skip_spaces input));
      }

is_field-Ends :
    (name : List ℕ) (msg : String) {input : Input} {r : Result (List ℕ)}
    → Ends input r
    → Ends input (is_field name r msg)
is_field-Ends name msg (returns {a = found} {rest = rest} h) =
    Ends_from h (Ends_at rest (require-Runs (text_eq name found) msg []))
is_field-Ends name msg (fails h) = fails h
is_field-Ends name msg throws = throws

pub expect_field-Runs : {n : ℕ} (name msg : String) → Runs n (expect_field name msg)
unfolding expect_field
expect_field-Runs name msg = record {
  run = λ input l. is_field-Ends (bytes name) msg (field_name-Runs.run input l);
}

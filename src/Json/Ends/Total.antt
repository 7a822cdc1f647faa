-- ===== src/Json/Ends/Total.antt =====
-- `value` and `parse` of src/mongo/db/json.cpp: the fuel is enough, and they end inside the input.
use mongo_cxx_driver.Base.{
  ℕ, zero, suc, false, Option, none, some, List, [], ◌∷◌, length, bytes, ◌≤◌, ◌<◌, arith,
}
use mongo_cxx_driver.Json.Result.{Input}
use mongo_cxx_driver.Json.Token.{peek_token, read_token_impl}
use mongo_cxx_driver.Json.Scalar.{Callees, StaysInside}
use mongo_cxx_driver.Json.Start.{Lead, leads, chosen, start_of}
use mongo_cxx_driver.Json.Parser.{value, parse}
use mongo_cxx_driver.Json.Ends.{
  IsRest, all_left, IsRest-length, Ends, Ends_from, Runs, if-Runs, if_lem,
}
use mongo_cxx_driver.Json.Ends.Leaves.{Behind, read_token_impl-Behind}
use mongo_cxx_driver.Json.Ends.Values.{array_value-Runs, object-Runs, value_of-Runs}

choice-Ends : (table : List Lead) (input : Input) → IsRest (start_of table input).1 input
unfolding start_of
choice-Ends [] input = all_left input
choice-Ends (lead ∷ more) input =
    lead-Ends (read_token_impl lead.token input) (read_token_impl-Behind lead.token input)
      (choice-Ends more input)
  where
    lead-Ends :
        (o : Option Input)
        → Behind o input
        → IsRest (start_of more input).1 input
        → IsRest (chosen lead input (start_of more input) o).1 input
    lead-Ends none h k = k
    lead-Ends (some rest) h k = if_lem (λ left. IsRest left input) lead.reads h (all_left input)

pub value-Runs :
    (callees : Callees) (bounded : StaysInside callees) (k n : ℕ)
    → n < k
    → (name : List ℕ) → Runs n (value callees k name)
unfolding value
value-Runs callees bounded zero n h name = elim h [ ]
value-Runs callees bounded (suc k) n h name = record {
  run = λ input l.
      let rest = choice-Ends leads input in
      let shorter = IsRest-length rest in
      Ends_from rest (
        (value_of-Runs (value callees k) k
            (λ j less inner_name. value-Runs callees bounded k j less inner_name) callees bounded
            (length (start_of leads input).1) name (start_of leads input).0 (omega arith)).run
          (start_of leads input).1 (omega arith));
}

-- With at least as much fuel as the input has bytes, the parser does not run out of it, and where it stands
-- when it returns or fails is behind some bytes of the input, never outside of it. The functions of the
-- C library that it calls read no further than the text that they are given.
pub parse-Ends :
    (callees : Callees) (fuel : ℕ) (input : Input)
    → StaysInside callees
    → length input ≤ fuel
    → Ends input (parse callees fuel input)
unfolding parse
parse-Ends callees fuel input bounded enough =
    (if-Runs (peek_token "[")
        (array_value-Runs (value callees fuel) fuel
          (λ j less name. value-Runs callees bounded fuel j less name) fuel (bytes "UNUSED") false
          (omega arith))
        (object-Runs (value callees fuel) fuel
          (λ j less name. value-Runs callees bounded fuel j less name) callees bounded fuel
          (bytes "UNUSED") false (omega arith))).run
      input enough

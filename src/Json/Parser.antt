-- ===== src/Json/Parser.antt =====
-- `value`, `object`, `array`, `dbRef`, `dbRefObject`, `parse` and `fromjson` of src/mongo/db/json.cpp. The
-- functions that call each other take fuel.
use Prim.Native.String.{String}
use mongo_cxx_driver.Base.{
  ℕ, zero, suc, ◌+◌, ◌-◌, Bool, true, false, not, Option, none, some, List, [], ◌∷◌, length, bytes,
  if◌then◌else◌,
}
use mongo_cxx_driver.Json.Syntax.{
  Value, Fields, no_fields, field, then_fields, text, document, array, undefined,
}
use mongo_cxx_driver.Json.Result.{
  Input, Parser, Result, Failure, ok, failed, thrown, outside, out_of_fuel, pure, require, ◌>>=◌,
  ◌>>◌,
}
use mongo_cxx_driver.Json.Token.{peek_token, read_token, expect}
use mongo_cxx_driver.Json.Text.{quoted_string, field_name, expect_field}
use mongo_cxx_driver.Json.Scalar.{
  Callees, append, check_field_name, object_id_call, regex_literal, date_call, constructor_call,
  timestamp_call, number_long_call, number_int_call, number,
}
use mongo_cxx_driver.Json.Scalar.Special.{
  object_id_object, binary_object, date_object, timestamp_object, regex_object, undefined_object,
  number_long_object, min_key_object, max_key_object,
}
use mongo_cxx_driver.Json.Start.{
  Start, object_start, array_start, constructor_start, date_start, timestamp_start, object_id_start,
  number_long_start, number_int_start, db_ref_start, regex_start, text_start, undefined_start,
  number_start, literal, leads, start_of, Special, oid_special, binary_special, date_special,
  timestamp_special, regex_special, ref_special, undefined_special, number_long_special,
  min_key_special, max_key_special, reserved, special_in, num_str,
}

-- The name of a subobject is written when it is started.
abbrev pub check_nested : Bool → List ℕ → Parser (Unit {0})
check_nested true name = check_field_name name
check_nested false name = pure tt

abbrev pub nested : Bool → (Fields → Value) → List ℕ → Fields → Fields
nested true container name fs = field name (container fs) no_fields
nested false container name fs = fs

-- The optional `$db` of a reference: `more` is whether there was a comma.
abbrev pub db_call : Bool → Parser Fields
db_call true = quoted_string >>= λ db. append (bytes "$db") (text db)
db_call false = pure no_fields

abbrev pub db_field : Bool → Parser Fields
db_field true = do
  expect_field "$db" "DBRef: Expected field name: \"$db\" in \"$ref\" object"
  expect ":" "DBRef: Expecting ':'"
  db ← quoted_string
  append (bytes "$db") (text db)
db_field false = pure no_fields

abbrev pub namespace : Parser Fields
namespace = quoted_string >>= λ ns. append (bytes "$ref") (text ns)

abbrev pub reference : List ℕ → Fields → Fields → Fields → Fields
reference name ns id db = field name (document (then_fields ns (then_fields id db))) no_fields

abbrev pub text_value : List ℕ → Parser Fields
text_value name = quoted_string >>= λ s. append name (text s)

-- `value` on less fuel is a parameter of what calls it; `n` is the fuel of a loop.
module _ (value : List ℕ → Parser Fields) where
  -- The loop of `object`; the flag is whether there was a comma.
  unfoldable pub members : ℕ → Bool → Parser Fields
  unfolding field_name
  members n false = pure no_fields
  members zero true = λ input. out_of_fuel
  members (suc n) true = do
    name ← field_name
    expect ":" "Expecting ':'"
    v ← value name
    more ← read_token ","
    rest ← members n more
    pure (then_fields v rest)

  -- The loop of `array`, from the element with this index on, if there is one.
  unfoldable pub elements : ℕ → ℕ → Bool → Parser Fields
  elements n index false = pure no_fields
  elements zero index true = λ input. out_of_fuel
  elements (suc n) index true = do
    v ← value (num_str index)
    more ← read_token ","
    rest ← elements n (index + 1) more
    pure (then_fields v rest)

  abbrev pub first_elements : ℕ → Parser Fields
  first_elements n input = elements n 0 (not (peek_token "]" input)) input

  -- `array`.
  unfoldable pub array_value : ℕ → List ℕ → Bool → Parser Fields
  unfolding elements
  array_value n name sub = do
    expect "[" "Expecting '['"
    check_nested sub name
    fs ← first_elements n
    expect "]" "Expecting ']' or ','"
    pure (nested sub array name fs)

  -- `dbRef`.
  unfoldable pub db_ref : List ℕ → Parser Fields
  unfolding quoted_string
  db_ref name = do
    check_field_name name
    expect "(" "Expecting '('"
    ns ← namespace
    expect "," "Expecting ','"
    id ← value (bytes "$id")
    more ← read_token ","
    db ← db_call more
    expect ")" "Expecting ')'"
    pure (reference name ns id db)

  -- `dbRefObject`.
  unfoldable pub db_ref_object : List ℕ → Parser Fields
  unfolding quoted_string expect_field
  db_ref_object name = do
    check_field_name name
    expect ":" "DBRef: Expecting ':'"
    ns ← namespace
    expect "," "DBRef: Expecting ','"
    expect_field "$id" "DBRef: Expected field name: \"$id\" in \"$ref\" object"
    expect ":" "DBRef: Expecting ':'"
    id ← value (bytes "$id")
    more ← read_token ","
    db ← db_field more
    pure (reference name ns id db)

  module _ (callees : Callees) where
    -- The branches of `object` with a reserved name.
    unfoldable pub special_of : List ℕ → Special → Parser Fields
    unfolding object_id_object binary_object date_object timestamp_object regex_object
        undefined_object number_long_object min_key_object max_key_object db_ref_object
    special_of name oid_special = object_id_object name
    special_of name binary_special = binary_object name
    special_of name date_special = date_object callees name
    special_of name timestamp_special = timestamp_object callees name
    special_of name regex_special = regex_object name
    special_of name ref_special = db_ref_object name
    special_of name undefined_special = undefined_object name
    special_of name number_long_special = number_long_object callees name
    special_of name min_key_special = min_key_object name
    special_of name max_key_special = max_key_object name

    unfoldable pub object_of : ℕ → List ℕ → Bool → List ℕ → Option Special → Parser Fields
    unfolding special_of members
    object_of n name sub first (some special) =
        require sub "Reserved field name in base object: " first >> special_of name special
    object_of n name sub first none = do
      check_nested sub name
      expect ":" "Expecting ':'"
      v ← value first
      more ← read_token ","
      rest ← members n more
      pure (nested sub document name (then_fields v rest))

    -- `object` behind its brace; the flag is whether it closes at once.
    unfoldable pub object_rest : ℕ → List ℕ → Bool → Bool → Parser Fields
    unfolding field_name special_in object_of
    object_rest n name sub true = check_nested sub name >> pure (nested sub document name no_fields)
    object_rest n name sub false = do
      first ← field_name
      fs ← object_of n name sub first (special_in reserved first)
      expect "}" "Expecting '}' or ','"
      pure fs

    -- `object`.
    unfoldable pub object : ℕ → List ℕ → Bool → Parser Fields
    unfolding object_rest
    object n name sub = do
      expect "{" "Expecting '{'"
      empty ← read_token "}"
      object_rest n name sub empty

    -- The branches of `value`.
    unfoldable pub value_of : ℕ → List ℕ → Start → Parser Fields
    unfolding object array_value constructor_call date_call timestamp_call object_id_call
        number_long_call number_int_call db_ref regex_literal quoted_string number
    value_of n name object_start = object n name true
    value_of n name array_start = array_value n name true
    value_of n name constructor_start = constructor_call callees name
    value_of n name date_start = date_call callees name
    value_of n name timestamp_start = timestamp_call callees name
    value_of n name object_id_start = object_id_call name
    value_of n name number_long_start = number_long_call callees name
    value_of n name number_int_start = number_int_call callees name
    value_of n name db_ref_start = db_ref name
    value_of n name regex_start = regex_literal name
    value_of n name text_start = text_value name
    value_of n name (literal v) = append name v
    value_of n name undefined_start = pure (field name undefined no_fields)
    value_of n name number_start = number callees name

module _ (callees : Callees) where
  -- `value`.
  unfoldable pub value : ℕ → List ℕ → Parser Fields
  unfolding start_of value_of
  value zero name input = out_of_fuel
  value (suc n) name input =
      let (start, rest) = start_of leads input in value_of (value n) callees n name start rest

  -- `isArray` and `parse`.
  unfoldable pub parse : ℕ → Parser Fields
  unfolding array_value object value
  parse n input =
      if peek_token "[" input
      then array_value (value n) n (bytes "UNUSED") false input
      else object (value n) callees n (bytes "UNUSED") false input

  abbrev pub enough : Input → ℕ
  enough input = length input

  -- What `fromjson` leaves: the document and `*len`, or assertion 16619 or 17031.
  pub data Document : Type 0 where
    parsed : Fields → ℕ → Document
    refused : Failure → Document
    caught : String → Document
    endless astray : Document

  abbrev pub document_of : Input → Result Fields → Document
  document_of input (ok fs rest) = parsed fs (length input - length rest)
  document_of input (failed e rest) = refused e
  document_of input (thrown e) = caught e
  document_of input outside = astray
  document_of input out_of_fuel = endless

  -- `fromjson`, on the bytes before the terminator.
  unfoldable pub from_json : Input → Document
  unfolding parse
  from_json [] = parsed no_fields 0
  from_json (c ∷ cs) = document_of (c ∷ cs) (parse (enough (c ∷ cs)) (c ∷ cs))

-- ===== src/Json/Ends/Values.antt =====
-- The values, objects and arrays of src/mongo/db/json.cpp: the fuel is enough, and they end inside the input.
use mongo_cxx_driver.Base.{
  ℕ, zero, suc, ◌+◌, Bool, true, false, not, Option, none, some, List, length, bytes, refl, ◌≤◌,
  ◌<◌, arith,
}
use mongo_cxx_driver.Json.Syntax.{Fields, then_fields, text, document}
use mongo_cxx_driver.Json.Result.{Input, Parser}
use mongo_cxx_driver.Json.Token.{peek_token}
use mongo_cxx_driver.Json.Scalar.{Callees, StaysInside}
use mongo_cxx_driver.Json.Start.{
  Start, object_start, array_start, constructor_start, date_start, timestamp_start, object_id_start,
  number_long_start, number_int_start, db_ref_start, regex_start, text_start, undefined_start,
  number_start, literal, Special, oid_special, binary_special, date_special, timestamp_special,
  regex_special, ref_special, undefined_special, number_long_special, min_key_special,
  max_key_special, reserved, special_in, num_str,
}
use mongo_cxx_driver.Json.Parser.{
  check_nested, nested, db_call, db_field, namespace, members, elements, first_elements,
  array_value, db_ref, db_ref_object, special_of, object_of, object_rest, object, value_of,
}
use mongo_cxx_driver.Json.Ends.{Ends, Runs, bind-Runs, pure-Runs, require-Runs}
use mongo_cxx_driver.Json.Ends.Leaves.{
  read_then, expect_then, read_token-Runs, expect-Runs, quoted_string-Runs, field_name-Runs,
  expect_field-Runs,
}
use mongo_cxx_driver.Json.Ends.Scalars.{
  append-Runs, check_field_name-Runs, regex_literal-Runs, object_id_call-Runs, date_call-Runs,
  constructor_call-Runs, timestamp_call-Runs, number_long_call-Runs, number_int_call-Runs,
  number-Runs,
}
use mongo_cxx_driver.Json.Ends.Specials.{
  object_id_object-Runs, binary_object-Runs, date_object-Runs, timestamp_object-Runs,
  regex_object-Runs, undefined_object-Runs, number_long_object-Runs, min_key_object-Runs,
  max_key_object-Runs,
}

check_nested-Runs : {n : ℕ} (sub : Bool) (name : List ℕ) → Runs n (check_nested sub name)
check_nested-Runs true name = check_field_name-Runs name
check_nested-Runs false name = pure-Runs

namespace-Runs : {n : ℕ} → Runs n namespace
namespace-Runs = bind-Runs quoted_string-Runs (λ ns. append-Runs (bytes "$ref") (text ns))

db_call-Runs : {n : ℕ} (more : Bool) → Runs n (db_call more)
db_call-Runs true = bind-Runs quoted_string-Runs (λ db. append-Runs (bytes "$db") (text db))
db_call-Runs false = pure-Runs

db_field-Runs : {n : ℕ} (more : Bool) → Runs n (db_field more)
db_field-Runs true = bind-Runs (expect_field-Runs "$db" _) (λ u.
    bind-Runs (expect-Runs ":" _)
      (λ u. bind-Runs quoted_string-Runs (λ db. append-Runs (bytes "$db") (text db))))
db_field-Runs false = pure-Runs

-- The inner `value` on fewer than `fuel` bytes.
module _ (value : List ℕ → Parser Fields) (fuel : ℕ)
    (inner : (j : ℕ) → j < fuel → (name : List ℕ) → Runs j (value name)) where
  no_members-Runs : (k n : ℕ) → Runs n (members value k false)
  unfolding members
  no_members-Runs zero n = pure-Runs
  no_members-Runs (suc k) n = pure-Runs

  members-Runs : (k n : ℕ) → n < k → n < fuel → Runs n (members value k true)
  unfolding members
  members-Runs zero n h l = elim h [ ]
  members-Runs (suc k) n h l = bind-Runs field_name-Runs (λ name. expect_then ":" _ refl (λ j less.
      bind-Runs (inner j (omega arith) name) (λ v.
        read_then "," _ refl
          (bind-Runs (no_members-Runs k j) (λ rest. pure-Runs {a = then_fields v rest}))
          (λ i fewer.
            bind-Runs (members-Runs k i (omega arith) (omega arith)) (λ rest. pure-Runs)))))

  no_elements-Runs : (k index n : ℕ) → Runs n (elements value k index false)
  unfolding elements
  no_elements-Runs zero index n = pure-Runs
  no_elements-Runs (suc k) index n = pure-Runs

  elements-Runs : (k index n : ℕ) → n < k → n < fuel → Runs n (elements value k index true)
  unfolding elements
  elements-Runs zero index n h l = elim h [ ]
  elements-Runs (suc k) index n h l = bind-Runs (inner n l (num_str index)) (λ v.
      read_then "," _ refl
        (bind-Runs (no_elements-Runs k (index + 1) n) (λ rest. pure-Runs {a = then_fields v rest}))
        (λ i fewer.
          bind-Runs (elements-Runs k (index + 1) i (omega arith) (omega arith))
            (λ rest. pure-Runs)))

  first-Runs : (n : ℕ) → n < fuel → Runs n (first_elements value fuel)
  first-Runs n l = record { run = λ input m. first-Ends (not (peek_token "]" input)) input m }
    where
      first-Ends :
          (b : Bool) (input : Input) → length input ≤ n → Ends input (elements value fuel 0 b input)
      first-Ends true input m = (elements-Runs fuel 0 n l l).run input m
      first-Ends false input m = (no_elements-Runs fuel 0 n).run input m

  pub array_value-Runs :
      (n : ℕ) (name : List ℕ) (sub : Bool) → n ≤ fuel → Runs n (array_value value fuel name sub)
  unfolding array_value
  array_value-Runs n name sub l = expect_then "[" _ refl (λ j less.
      bind-Runs (check_nested-Runs sub name) (λ u.
        bind-Runs (first-Runs j (omega arith))
          (λ fs. bind-Runs (expect-Runs "]" _) (λ u. pure-Runs))))

  db_ref-Runs : (n : ℕ) (name : List ℕ) → n ≤ fuel → Runs n (db_ref value name)
  unfolding db_ref
  db_ref-Runs n name l = bind-Runs (check_field_name-Runs name) (λ u.
      expect_then "(" _ refl (λ j less. bind-Runs namespace-Runs (λ ns.
        bind-Runs (expect-Runs "," _) (λ u. bind-Runs (inner j (omega arith) (bytes "$id")) (λ id.
          bind-Runs (read_token-Runs ",") (λ more.
            bind-Runs (db_call-Runs more)
              (λ db. bind-Runs (expect-Runs ")" _) (λ u. pure-Runs))))))))

  db_ref_object-Runs : (n : ℕ) (name : List ℕ) → n ≤ fuel → Runs n (db_ref_object value name)
  unfolding db_ref_object
  db_ref_object-Runs n name l = bind-Runs (check_field_name-Runs name) (λ u.
      expect_then ":" _ refl (λ j less. bind-Runs namespace-Runs (λ ns.
        bind-Runs (expect-Runs "," _) (λ u. bind-Runs (expect_field-Runs "$id" _) (λ u.
          bind-Runs (expect-Runs ":" _) (λ u. bind-Runs (inner j (omega arith) (bytes "$id")) (λ id.
            bind-Runs (read_token-Runs ",")
              (λ more. bind-Runs (db_field-Runs more) (λ db. pure-Runs)))))))))

  module _ (callees : Callees) (bounded : StaysInside callees) where
    special_of-Runs :
        (n : ℕ) (name : List ℕ) (special : Special)
        → n ≤ fuel
        → Runs n (special_of value callees name special)
    unfolding special_of
    special_of-Runs n name oid_special l = object_id_object-Runs name
    special_of-Runs n name binary_special l = binary_object-Runs name
    special_of-Runs n name date_special l = date_object-Runs callees bounded name
    special_of-Runs n name timestamp_special l = timestamp_object-Runs callees bounded name
    special_of-Runs n name regex_special l = regex_object-Runs name
    special_of-Runs n name ref_special l = db_ref_object-Runs n name l
    special_of-Runs n name undefined_special l = undefined_object-Runs name
    special_of-Runs n name number_long_special l = number_long_object-Runs callees bounded name
    special_of-Runs n name min_key_special l = min_key_object-Runs name
    special_of-Runs n name max_key_special l = max_key_object-Runs name

    object_of-Runs :
        (n : ℕ) (name : List ℕ) (sub : Bool) (first : List ℕ) (special : Option Special)
        → n ≤ fuel
        → Runs n (object_of value callees fuel name sub first special)
    unfolding object_of
    object_of-Runs n name sub first (some special) l =
        bind-Runs (require-Runs sub _ _) (λ u. special_of-Runs n name special l)
    object_of-Runs n name sub first none l = bind-Runs (check_nested-Runs sub name) (λ u.
        expect_then ":" _ refl (λ j less. bind-Runs (inner j (omega arith) first) (λ v.
          read_then "," _ refl
            (bind-Runs (no_members-Runs fuel j)
              (λ rest. pure-Runs {a = nested sub document name (then_fields v rest)}))
            (λ i fewer.
              bind-Runs (members-Runs fuel i (omega arith) (omega arith)) (λ rest. pure-Runs)))))

    object_rest-Runs :
        (n : ℕ) (name : List ℕ) (sub empty : Bool)
        → n ≤ fuel
        → Runs n (object_rest value callees fuel name sub empty)
    unfolding object_rest
    object_rest-Runs n name sub true l = bind-Runs (check_nested-Runs sub name) (λ u. pure-Runs)
    object_rest-Runs n name sub false l = bind-Runs field_name-Runs (λ first.
        bind-Runs (object_of-Runs n name sub first (special_in reserved first) l)
          (λ fs. bind-Runs (expect-Runs "}" _) (λ u. pure-Runs)))

    pub object-Runs :
        (n : ℕ) (name : List ℕ) (sub : Bool)
        → n ≤ fuel
        → Runs n (object value callees fuel name sub)
    unfolding object
    object-Runs n name sub l =
        bind-Runs (expect-Runs "{" _)
          (λ u. bind-Runs (read_token-Runs "}") (λ empty. object_rest-Runs n name sub empty l))

    pub value_of-Runs :
        (n : ℕ) (name : List ℕ) (start : Start)
        → n ≤ fuel
        → Runs n (value_of value callees fuel name start)
    unfolding value_of
    value_of-Runs n name object_start l = object-Runs n name true l
    value_of-Runs n name array_start l = array_value-Runs n name true l
    value_of-Runs n name constructor_start l = constructor_call-Runs callees bounded name
    value_of-Runs n name date_start l = date_call-Runs callees bounded name
    value_of-Runs n name timestamp_start l = timestamp_call-Runs callees bounded name
    value_of-Runs n name object_id_start l = object_id_call-Runs name
    value_of-Runs n name number_long_start l = number_long_call-Runs callees bounded name
    value_of-Runs n name number_int_start l = number_int_call-Runs callees bounded name
    value_of-Runs n name db_ref_start l = db_ref-Runs n name l
    value_of-Runs n name regex_start l = regex_literal-Runs name
    value_of-Runs n name text_start l = bind-Runs quoted_string-Runs (λ s. append-Runs name _)
    value_of-Runs n name (literal v) l = append-Runs name v
    value_of-Runs n name undefined_start l = pure-Runs
    value_of-Runs n name number_start l = number-Runs callees bounded name

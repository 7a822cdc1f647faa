-- ===== src/Json/Start.antt =====
-- The tests at the start of a value and of an object: the conditions of `JParse::value` and
-- `JParse::object` in src/mongo/db/json.cpp, as tables.
use Prim.Native.String.{String}
use mongo_cxx_driver.Number.Decimal.{decimal}
use mongo_cxx_driver.Base.{
  ℕ, Bool, true, false, Option, none, some, List, [], ◌∷◌, if◌then◌else◌, bytes,
}
use mongo_cxx_driver.Net.HostAndPort.{text_eq}
use mongo_cxx_driver.Json.Syntax.{Value, double, null}
use mongo_cxx_driver.Json.Syntax
use mongo_cxx_driver.Json.Result.{Input}
use mongo_cxx_driver.Json.Token.{read_token_impl}

-- The branches of `value`.
pub data Start : Type 0 where
  object_start array_start constructor_start date_start timestamp_start object_id_start
        number_long_start number_int_start db_ref_start regex_start text_start undefined_start
        number_start :
      Start
  literal : Value → Start

-- A test: its token, whether it is `readToken`, and the branch.
pub record Lead : Type 0 where
  pub token : List ℕ
  pub reads : Bool
  pub branch : Start

abbrev peeks : String → Start → Lead
peeks t s = record { token = bytes t; reads = false; branch = s }

abbrev takes : String → Start → Lead
takes t s = record { token = bytes t; reads = true; branch = s }

abbrev quiet_nan : ℕ
quiet_nan = 9221120237041090560

abbrev infinity : ℕ
infinity = 9218868437227405312

abbrev minus_infinity : ℕ
minus_infinity = 18442240474082181120

-- The tests of `value` in their order.
abbrev pub leads : List Lead
leads =
    peeks "{" object_start
    ∷ peeks "[" array_start
    ∷ takes "new" constructor_start
    ∷ takes "Date" date_start
    ∷ takes "Timestamp" timestamp_start
    ∷ takes "ObjectId" object_id_start
    ∷ takes "NumberLong" number_long_start
    ∷ takes "NumberInt" number_int_start
    ∷ takes "Dbref" db_ref_start
    ∷ takes "DBRef" db_ref_start
    ∷ peeks "/" regex_start
    ∷ peeks "\"" text_start
    ∷ peeks "'" text_start
    ∷ takes "true" (literal (Syntax.bool true))
    ∷ takes "false" (literal (Syntax.bool false))
    ∷ takes "null" (literal null)
    ∷ takes "undefined" undefined_start
    ∷ takes "NaN" (literal (double quiet_nan))
    ∷ takes "Infinity" (literal (double infinity))
    ∷ takes "-Infinity" (literal (double minus_infinity))
    ∷ []

abbrev pub chosen : Lead → Input → Start × Input → Option Input → Start × Input
chosen lead input others none = others
chosen lead input others (some rest) = (lead.branch, (if lead.reads then rest else input))

-- The branch of the first test that succeeds, and the input that it leaves.
unfoldable pub start_of : List Lead → Input → Start × Input
unfolding read_token_impl
start_of [] input = (number_start, input)
start_of (lead ∷ more) input =
    chosen lead input (start_of more input) (read_token_impl lead.token input)

-- The reserved names of `object`.
pub data Special : Type 0 where
  oid_special binary_special date_special timestamp_special regex_special ref_special
        undefined_special number_long_special min_key_special max_key_special :
      Special

abbrev pub reserved : List (List ℕ × Special)
reserved =
    (bytes "$oid", oid_special)
    ∷ (bytes "$binary", binary_special)
    ∷ (bytes "$date", date_special)
    ∷ (bytes "$timestamp", timestamp_special)
    ∷ (bytes "$regex", regex_special)
    ∷ (bytes "$ref", ref_special)
    ∷ (bytes "$undefined", undefined_special)
    ∷ (bytes "$numberLong", number_long_special)
    ∷ (bytes "$minKey", min_key_special)
    ∷ (bytes "$maxKey", max_key_special)
    ∷ []

-- The comparisons of the first field name with the reserved ones.
unfoldable pub special_in : List (List ℕ × Special) → List ℕ → Option Special
unfolding text_eq
special_in [] name = none
special_in ((word, special) ∷ more) name =
    let rest = special_in more name in if text_eq name word then some special else rest

-- `numStr`.
abbrev pub num_str : ℕ → List ℕ
num_str n = decimal n

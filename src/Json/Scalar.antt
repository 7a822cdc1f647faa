-- ===== src/Json/Scalar.antt =====
-- The values without parts: the constructors and the special objects of src/mongo/db/json.cpp.
pub mod Special
pub mod ObjectId
use Prim.Native.String.{String}
use mongo_cxx_driver.Base.{
  ℕ, zero, suc, ◌+◌, ◌-◌, ◌*◌, ◌%◌, ◌^◌, ◌≤◌, Bool, true, false, not, ◌&&◌, ◌||◌, Option, none,
  some, List, [], ◌∷◌, ltb, leb, ◌==◌, drop, length, if◌then◌else◌, bytes,
}
use mongo_cxx_driver.Base.Int.{ℤ, pos, negsuc, ltb_ℤ}
use mongo_cxx_driver.Net.HostAndPort.{int_eq}
use mongo_cxx_driver.Json.Syntax.{
  Value, Fields, no_fields, field, object_id, date, regex, int32, timestamp, int64, double,
}
use mongo_cxx_driver.Json.Result.{
  Input, Parser, Result, Failure, message, ok, failed, thrown, outside, out_of_fuel, move_input,
  pure, parse_error, require, assert, ◌>>=◌, ◌>>◌,
}
use mongo_cxx_driver.Json.Token.{read_token, expect, elem, match_set, is_hex_string, from_hex}
use mongo_cxx_driver.Json.Text.{chars, quoted_string}

-- What a call of `strtoll` and the like reports: how far the end pointer is, the value, and `ERANGE`.
pub record Scan : Type 0 where
  pub consumed : ℕ
  pub value : ℤ
  pub out_of_range : Bool

-- The functions of the C library, on a text that ends where the input does; the value of `strtod` is the
-- pattern of its double. `date_from_iso` is `dateFromISOString`.
pub record Callees : Type 0 where
  pub strtol : List ℕ → Scan
  pub strtoll : List ℕ → Scan
  pub strtoul : List ℕ → Scan
  pub strtoull : List ℕ → Scan
  pub strtod : List ℕ → ℕ × (ℕ × Bool)
  pub double_of : ℤ → ℕ
  pub date_from_iso : List ℕ → Option ℕ

-- They read no further than their text.
pub record StaysInside (callees : Callees) : Type 0 where
  pub strtol : (s : List ℕ) → (callees.strtol s).consumed ≤ length s
  pub strtoll : (s : List ℕ) → (callees.strtoll s).consumed ≤ length s
  pub strtoul : (s : List ℕ) → (callees.strtoul s).consumed ≤ length s
  pub strtoull : (s : List ℕ) → (callees.strtoull s).consumed ≤ length s
  pub strtod : (s : List ℕ) → (callees.strtod s).0 ≤ length s

-- A conversion to an unsigned type of `w` values.
unfoldable pub wrap : ℕ → ℤ → ℕ
wrap w (pos n) = n % w
wrap w (negsuc n) = w - 1 - n % w

-- A conversion to `int32_t`, where `long` has 64 bits.
unfoldable pub to_int32 : ℤ → ℤ
unfolding wrap
to_int32 z = let u = wrap (2 ^ 32) z in if ltb u (2 ^ 31) then pos u else negsuc (2 ^ 32 - u - 1)

abbrev pub has_nul : List ℕ → Bool
has_nul [] = false
has_nul (c ∷ cs) = c == 0 || has_nul cs

abbrev pub check_field_name : List ℕ → Parser (Unit {0})
check_field_name name = assert (not (has_nul name)) "field name cannot contain null bytes"

-- `builder.append(fieldName, value)`.
abbrev pub append : List ℕ → Value → Parser Fields
append name v = check_field_name name >> pure (field name v no_fields)

-- `appendRegex` also tests the pattern.
abbrev pub append_regex : List ℕ → List ℕ → List ℕ → Parser Fields
append_regex name pat opt = do
  check_field_name name
  assert (not (has_nul pat)) "regex cannot contain null bytes"
  pure (field name (regex pat opt) no_fields)

-- The twelve bytes of `OID(id)`.
abbrev pub hex_pairs : List ℕ → List ℕ
hex_pairs (a ∷ b ∷ rest) = from_hex a b ∷ hex_pairs rest
hex_pairs _ = []

-- The tests on the text of an object id, and `OID(id)`.
unfoldable pub append_object_id : List ℕ → List ℕ → Parser Fields
append_object_id name id = do
  require (length id == 24) "Expecting 24 hex digits: " id
  require (is_hex_string id) "Expecting hex digits: " id
  append name (object_id (hex_pairs id))

-- `objectId`.
unfoldable pub object_id_call : List ℕ → Parser Fields
unfolding append_object_id
object_id_call name = do
  expect "(" "Expecting '('"
  id ← quoted_string
  expect ")" "Expecting ')'"
  append_object_id name id

abbrev pub regex_options : List ℕ
regex_options = bytes "gims"

-- `regexOptCheck`.
unfoldable pub regex_opt_check : List ℕ → Parser (Unit {0})
regex_opt_check [] input = ok tt input
regex_opt_check (c ∷ cs) input =
    let rest = regex_opt_check cs input in
    if match_set c regex_options then rest else failed (message "Bad regex option: " (c ∷ [])) input

-- `regex`, with `regexPat` and `regexOpt`.
unfoldable pub regex_literal : List ℕ → Parser Fields
unfolding chars regex_opt_check
regex_literal name = do
  expect "/" "Expecting '/'"
  pat ← chars (bytes "/") none
  expect "/" "Expecting '/'"
  opt ← chars [] (some regex_options)
  regex_opt_check opt
  append_regex name pat opt

-- A call of `strtoll` or the like; `ERANGE` is tested first.
unfoldable pub integer_by : (List ℕ → Scan) → String → String → Parser ℤ
integer_by scan too_far nothing input =
    if (scan input).out_of_range
    then failed (message too_far []) input
    else if (scan input).consumed == 0
    then failed (message nothing []) input
    else (move_input (scan input).consumed >> pure (scan input).value) input

module _ (callees : Callees) where
  -- The milliseconds of a date, which may need the unsigned range.
  unfoldable pub milliseconds : Parser ℕ
  milliseconds input =
      let s = callees.strtoll input in
      let u = callees.strtoull input in
      if s.consumed == 0
      then failed (message "Date expecting integer milliseconds" []) input
      else if not s.out_of_range
      then (move_input s.consumed >> pure (wrap (2 ^ 64) s.value)) input
      else if u.out_of_range
      then failed (message "Date milliseconds overflow" []) input
      else (move_input u.consumed >> pure (wrap (2 ^ 64) u.value)) input

  -- `date`.
  unfoldable pub date_call : List ℕ → Parser Fields
  unfolding milliseconds
  date_call name = do
    expect "(" "Expecting '('"
    millis ← milliseconds
    expect ")" "Expecting ')'"
    append name (date millis)

  abbrev pub ignore_status : Result Fields → Result Fields
  ignore_status (ok fs rest) = ok fs rest
  ignore_status (failed e rest) = ok no_fields rest
  ignore_status (thrown e) = thrown e
  ignore_status outside = outside
  ignore_status out_of_fuel = out_of_fuel

  -- `constructor`, which drops the status that `date` returns.
  unfoldable pub constructor_call : List ℕ → Parser Fields
  unfolding date_call
  constructor_call name = do
    expect "Date" "\"new\" keyword not followed by Date constructor"
    λ input. ignore_status (date_call name input)

  -- One of the two numbers of a timestamp.
  unfoldable pub timestamp_part : String → String → String → Parser ℕ
  timestamp_part negative too_far nothing = do
    minus ← read_token "-"
    require (not minus) negative []
    n ← integer_by callees.strtoul too_far nothing
    pure (wrap (2 ^ 32) n)

  -- `timestamp`.
  unfoldable pub timestamp_call : List ℕ → Parser Fields
  unfolding timestamp_part integer_by
  timestamp_call name = do
    expect "(" "Expecting '('"
    seconds ←
        timestamp_part "Negative seconds in \"$timestamp\"" "Timestamp seconds overflow"
          "Expecting unsigned integer seconds in \"$timestamp\""
    expect "," "Expecting ','"
    count ←
        timestamp_part "Negative seconds in \"$timestamp\"" "Timestamp increment overflow"
          "Expecting unsigned integer increment in \"$timestamp\""
    expect ")" "Expecting ')'"
    append name (timestamp seconds count)

  -- `BSONObjBuilder::appendNumber(fieldName, long long)`.
  unfoldable pub append_number : List ℕ → ℤ → Parser Fields
  append_number name n =
      if ltb_ℤ (negsuc (2 ^ 30 - 1)) n && ltb_ℤ n (pos (2 ^ 30))
      then append name (int32 n)
      else if ltb_ℤ (negsuc (2 ^ 40 - 1)) n && ltb_ℤ n (pos (2 ^ 40))
      then append name (double (callees.double_of n))
      else append name (int64 n)

  -- `numberLong`.
  unfoldable pub number_long_call : List ℕ → Parser Fields
  unfolding integer_by append_number
  number_long_call name = do
    expect "(" "Expecting '('"
    n ← integer_by callees.strtoll "NumberLong out of range" "Expecting number in NumberLong"
    expect ")" "Expecting ')'"
    append_number name n

  -- `numberInt`.
  unfoldable pub number_int_call : List ℕ → Parser Fields
  unfolding integer_by to_int32
  number_int_call name = do
    expect "(" "Expecting '('"
    n ← integer_by callees.strtol "NumberInt out of range" "Expecting unsigned number in NumberInt"
    expect ")" "Expecting ')'"
    append name (int32 (to_int32 n))

  -- The type that `number` gives to a number: `length` is how far `strtod` read.
  unfoldable pub number_value : ℕ → ℕ → Scan → Value
  unfolding to_int32
  number_value length bits l =
      if ltb l.consumed length || l.out_of_range
      then double bits
      else if int_eq l.value (to_int32 l.value)
      then int32 l.value
      else int64 l.value

  abbrev pub not_at_end : Parser (Unit {0})
  not_at_end [] = failed (message "Trailing number at end of input" []) []
  not_at_end (c ∷ rest) = ok tt (c ∷ rest)

  -- `number`.
  unfoldable pub number : List ℕ → Parser Fields
  unfolding number_value
  number name input =
      let (consumed, (bits, out_of_range)) = callees.strtod input in
      if consumed == 0
      then failed (message "Bad characters in value" []) input
      else if out_of_range
      then failed (message "Value cannot fit in double" []) input
      else (append name (number_value consumed bits (callees.strtoll input)) >>= λ fs.
            move_input consumed >> not_at_end >> pure fs)
          input

-- ===== src/Json/Scalar/Special.antt =====
-- The special objects of src/mongo/db/json.cpp, behind their first field name.
use mongo_cxx_driver.Base.{
  ℕ, ◌-◌, ◌%◌, ◌^◌, Bool, true, false, ◌&&◌, Option, none, some, List, [], ◌∷◌, ◌++◌, ◌==◌, length,
  if◌then◌else◌, bytes,
}
use mongo_cxx_driver.Base.Int.{ℤ, pos}
use mongo_cxx_driver.Net.HostAndPort.{text_eq}
use mongo_cxx_driver.Number.Parse.{Limits, Parsed, ok, err, parse_number}
use mongo_cxx_driver.Encoding.Base64.{alphabet, decode}
use mongo_cxx_driver.Json.Syntax.{
  Fields, no_fields, field, bin_data, undefined, date, timestamp, min_key, max_key,
}
use mongo_cxx_driver.Json.Result.{
  Parser, bad_number, bad_date, ok, failed, thrown, pure, require, ◌>>=◌, ◌>>◌,
}
use mongo_cxx_driver.Json.Token.{peek_token, read_token, expect, match_set, is_hex_string, from_hex}
use mongo_cxx_driver.Json.Text.{quoted_string, field_name, expect_field}
use mongo_cxx_driver.Json.Scalar.{
  Callees, wrap, append, append_regex, append_object_id, regex_opt_check, milliseconds,
  timestamp_part, append_number,
}

-- `numeric_limits<long long>`.
abbrev pub long_limits : Limits
long_limits = record { is_signed = true; max = 2 ^ 63 - 1; neg_min = 2 ^ 63 }

abbrev pub of_parsed : Parsed ℤ → Parser ℤ
of_parsed (ok z) input = ok z input
of_parsed (err reason) input = failed (bad_number reason) input

-- A quoted number and `parseNumberFromString` on it.
unfoldable pub quoted_long : Parser ℤ
unfolding quoted_string parse_number
quoted_long = quoted_string >>= λ s. of_parsed (parse_number long_limits s (pos 0))

-- `objectIdObject`.
unfoldable pub object_id_object : List ℕ → Parser Fields
unfolding quoted_string append_object_id
object_id_object name = expect ":" "Expected ':'" >> quoted_string >>= append_object_id name

abbrev base64_chars : List ℕ
base64_chars = alphabet ++ bytes "="

-- `isBase64String`.
unfoldable pub is_base64_string : List ℕ → Bool
unfolding match_set
is_base64_string [] = true
is_base64_string (c ∷ cs) = match_set c base64_chars && is_base64_string cs

abbrev type_of : List ℕ → ℕ
type_of (a ∷ b ∷ rest) = from_hex a b
type_of _ = 0

abbrev pub of_decoded : Option (List ℕ) → Parser (List ℕ)
of_decoded none input = thrown "invalid base64"
of_decoded (some decoded) input = ok decoded input

-- `binaryObject`.
unfoldable pub binary_object : List ℕ → Parser Fields
unfolding quoted_string is_base64_string decode expect_field is_hex_string
binary_object name = do
  expect ":" "Expected ':'"
  s ← quoted_string
  require (length s % 4 == 0) "Invalid length base64 encoded string" []
  require (is_base64_string s) "Invalid character in base64 encoded string" []
  decoded ← of_decoded (decode s)
  expect "," "Expected ','"
  expect_field "$type" "Expected second field name: \"$type\", in \"$binary\" object"
  expect ":" "Expected ':'"
  t ← quoted_string
  require (length t == 2 && is_hex_string t)
      "Argument of $type in $bindata object must be a hex string representation of a single byte" []
  append name (bin_data (type_of t) decoded)

-- `undefinedObject`; `appendUndefined` does not look at the name.
unfoldable pub undefined_object : List ℕ → Parser Fields
undefined_object name = do
  expect ":" "Expecting ':'"
  expect "true" "Reserved field \"$undefined\" requires value of true"
  pure (field name undefined no_fields)

-- `minKeyObject`.
unfoldable pub min_key_object : List ℕ → Parser Fields
min_key_object name = do
  expect ":" "Expecting ':'"
  expect "1" "Reserved field \"$minKey\" requires value of 1"
  append name min_key

-- `maxKeyObject`.
unfoldable pub max_key_object : List ℕ → Parser Fields
max_key_object name = do
  expect ":" "Expecting ':'"
  expect "1" "Reserved field \"$maxKey\" requires value of 1"
  append name max_key

abbrev pub regex_options_of : List ℕ → List ℕ → Bool → Parser Fields
regex_options_of name pat false = append_regex name pat []
regex_options_of name pat true = do
  expect_field "$options" "Expected field name: \"$options\" in \"$regex\" object"
  expect ":" "Expecting ':'"
  opt ← quoted_string
  regex_opt_check opt
  append_regex name pat opt

-- `regexObject`.
unfoldable pub regex_object : List ℕ → Parser Fields
unfolding quoted_string expect_field regex_opt_check
regex_object name = do
  expect ":" "Expecting ':'"
  pat ← quoted_string
  more ← read_token ","
  regex_options_of name pat more

abbrev pub of_date : Option ℕ → Parser ℕ
of_date none input = failed bad_date input
of_date (some millis) input = ok millis input

module _ (callees : Callees) where
  -- The number in `{ $numberLong : "..." }`, of which the closing brace is not read.
  abbrev pub long_millis : Parser ℕ
  long_millis = do
    found ← field_name
    require (text_eq found (bytes "$numberLong"))
        "Expected field name: $numberLong for $date value object" []
    expect ":" "Expecting ':'"
    n ← quoted_long
    pure (wrap (2 ^ 64) n)

  abbrev pub unquoted_date : Bool → Parser ℕ
  unquoted_date true = long_millis
  unquoted_date false = milliseconds callees

  abbrev pub date_value : Parser ℕ
  date_value input =
      if peek_token "\"" input
      then (quoted_string >>= λ s. of_date (callees.date_from_iso s)) input
      else (read_token "{" >>= unquoted_date) input

  -- `dateObject`.
  unfoldable pub date_object : List ℕ → Parser Fields
  unfolding quoted_string field_name text_eq quoted_long wrap milliseconds
  date_object name = do expect ":" "Expected ':'"; millis ← date_value; append name (date millis)

  -- `timestampObject`.
  unfoldable pub timestamp_object : List ℕ → Parser Fields
  unfolding expect_field timestamp_part
  timestamp_object name = do
    expect ":" "Expecting ':'"
    expect "{" "Expecting '{' to start \"$timestamp\" object"
    expect_field "t" "Expected field name \"t\" in \"$timestamp\" sub object"
    expect ":" "Expecting ':'"
    seconds ←
        timestamp_part callees "Negative seconds in \"$timestamp\"" "Timestamp seconds overflow"
          "Expecting unsigned integer seconds in \"$timestamp\""
    expect "," "Expecting ','"
    expect_field "i" "Expected field name \"i\" in \"$timestamp\" sub object"
    expect ":" "Expecting ':'"
    count ←
        timestamp_part callees "Negative increment in \"$timestamp\"" "Timestamp increment overflow"
          "Expecting unsigned integer increment in \"$timestamp\""
    expect "}" "Expecting '}'"
    append name (timestamp seconds count)

  -- `numberLongObject`.
  unfoldable pub number_long_object : List ℕ → Parser Fields
  unfolding quoted_long append_number
  number_long_object name = expect ":" "Expecting ':'" >> quoted_long >>= append_number callees name

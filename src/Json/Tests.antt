-- ===== src/Json/Tests.antt =====
-- Runs of the JSON parser of src/mongo/db/json.cpp on small inputs.
use mongo_cxx_driver.Base.{
  ℕ, suc, ◌+◌, ◌-◌, ◌*◌, true, false, ◌&&◌, if◌then◌else◌, leb, none, List, [], ◌∷◌, ◌++◌, bytes,
  ◌≡◌, ◌≤◌, length, refl, arith,
}
use mongo_cxx_driver.Base.Int.{pos}
use mongo_cxx_driver.Json.Syntax.{no_fields, field, text, document, array, int32, date, then_fields}
use mongo_cxx_driver.Net.HostAndPort.{int_eq}
use mongo_cxx_driver.Number.Decimal.{decimal as decimal_text}
use mongo_cxx_driver.Number.Parse.{extract_base, extract_sign, accumulate, digit_value}
use mongo_cxx_driver.Json.Result.{ok}
use mongo_cxx_driver.Json.Text.{quoted_string}
use mongo_cxx_driver.Json.Text.Escape.{escape, quoted_string-escape}
use mongo_cxx_driver.Json.Scalar.{Callees, Scan, StaysInside}
use mongo_cxx_driver.Json.Scalar.{append, object_id_call}
use mongo_cxx_driver.Json.Scalar.ObjectId.{to_string, object_id_call-to_string}
use mongo_cxx_driver.Json.Syntax.{object_id}
use mongo_cxx_driver.Base.{◌↔◌, some, ◌++◌}
use mongo_cxx_driver.Json.Token.{skip_spaces, read_token_impl}
use mongo_cxx_driver.Json.Token.Laws.{IsSkipped, read_token_impl_iff}
use mongo_cxx_driver.Json.Text.{encode_utf8}
use mongo_cxx_driver.Json.Text.Utf8.{code_point, code_point-encode_utf8}
use mongo_cxx_driver.Json.Parser.{from_json, parsed, parse}
use mongo_cxx_driver.Json.Ends.{Ends}
use mongo_cxx_driver.Json.Ends.Total.{parse-Ends}

-- Decimal digits: how many, and their value.
abbrev decimal : ℕ → List ℕ → ℕ × ℕ
decimal value [] = (0, value)
decimal value (c ∷ rest) =
    let more = decimal (value * 10 + (c - b'0')) rest in
    if leb b'0' c && leb c b'9' then (suc more.0, more.1) else (0, value)

abbrev scan : List ℕ → Scan
scan input = record {
  consumed = (decimal 0 input).0;
  value = pos (decimal 0 input).1;
  out_of_range = false;
}

abbrev library : Callees
library = record {
  strtol = scan;
  strtoll = scan;
  strtoul = scan;
  strtoull = scan;
  strtod = λ input. ((decimal 0 input).0, (0, false));
  double_of = λ z. 0;
  date_from_iso = λ s. none;
}

nested_text :
    from_json library (bytes "{a: [1, 'x'], \"b\": {}}")
    ≡ parsed
        (field
          (bytes "a")
          (array
            (field (bytes "0") (int32 (pos 1)) (field (bytes "1") (text (bytes "x")) no_fields)))
          (field (bytes "b") (document no_fields) no_fields))
        22
unfolding from_json then_fields int_eq extract_base extract_sign accumulate digit_value decimal_text
nested_text = refl

-- The text behind a date of this form is dropped: its brace is not read.
date_brace :
    from_json library (bytes "{a: {$date: {$numberLong: '5'}}, b: 1}")
    ≡ parsed (field (bytes "a") (date 5) no_fields) 31
unfolding from_json then_fields int_eq extract_base extract_sign accumulate digit_value
date_brace = refl

-- The number is missing, and no error is reported.
new_date : from_json library (bytes "{a: new Date(}") ≡ parsed no_fields 14
unfolding from_json then_fields int_eq extract_base extract_sign accumulate digit_value
new_date = refl

-- Decimal digits are no longer than their text.
decimal-length : (value : ℕ) (s : List ℕ) → (decimal value s).0 ≤ length s
decimal-length value [] = omega arith
decimal-length value (c ∷ rest) = ground (arith, decimal-length (value * 10 + (c - b'0')) rest)

library-StaysInside : StaysInside library
library-StaysInside = record {
  strtol = decimal-length 0;
  strtoll = decimal-length 0;
  strtoul = decimal-length 0;
  strtoull = decimal-length 0;
  strtod = decimal-length 0;
}

parse-Ends_example : Ends (bytes "{a: 12, b}") (parse library 10 (bytes "{a: 12, b}"))
parse-Ends_example = parse-Ends library 10 (bytes "{a: 12, b}") library-StaysInside (omega arith)

abbrev odd_text : List ℕ
odd_text = bytes "a/\"b\"" ++ (10 ∷ 1 ∷ 31 ∷ 200 ∷ [])

quoted_string-escape_example :
    quoted_string (b'"' ∷ (escape true odd_text ++ b'"' ∷ bytes ", b")) ≡ ok odd_text (bytes ", b")
quoted_string-escape_example = quoted_string-escape true odd_text (bytes ", b")

abbrev twelve : List ℕ
twelve = 84 ∷ 10 ∷ 255 ∷ 0 ∷ 1 ∷ 2 ∷ 3 ∷ 160 ∷ 16 ∷ 9 ∷ 171 ∷ 7 ∷ []

object_id_call-to_string_example :
    object_id_call (bytes "a") (b'(' ∷ b'"' ∷ (to_string twelve ++ b'"' ∷ b')' ∷ bytes "}"))
    ≡ append (bytes "a") (object_id twelve) (bytes "}")
object_id_call-to_string_example = object_id_call-to_string (bytes "a") twelve (bytes "}") refl (
  omega arith,
  (
    omega arith,
    (
      omega arith,
      (
        omega arith,
        (
          omega arith,
          (
            omega arith,
            (
              omega arith,
              (omega arith, (omega arith, (omega arith, (omega arith, (omega arith, tt))))),
            ),
          ),
        ),
      ),
    ),
  ),
)

code_point-encode_utf8_example : code_point (encode_utf8 32 172) ≡ some 8364
code_point-encode_utf8_example = code_point-encode_utf8 32 172 (omega arith) (omega arith)

read_token_impl_iff_example :
    IsSkipped (bytes "  null}") (skip_spaces (bytes "  null}"))
    × ((read_token_impl (bytes "null") (bytes "  null}") ≡ some (bytes "}"))
        ↔ (bytes "null" ++ bytes "}" ≡ skip_spaces (bytes "  null}")))
read_token_impl_iff_example = read_token_impl_iff (bytes "null") (bytes "  null}") (bytes "}")

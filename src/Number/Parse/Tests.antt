-- ===== src/Number/Parse/Tests.antt =====
-- Tests of src/mongo/base/parse_number.cpp.
use mongo_cxx_driver.Base.{ℕ, ◌≡◌, ◌↔◌, refl, List, [], ◌∷◌, arith}
use mongo_cxx_driver.Base.Int.{pos}
use mongo_cxx_driver.Number.Parse.{
  ok, parse_number, int_limits, extract_sign, extract_base, parse_magnitude, accumulate,
  digit_value, has_hex_prefix,
}
use mongo_cxx_driver.Number.Parse.Numeral.{Denotes}
use mongo_cxx_driver.Number.Parse.Numeral.Found.{parse_number_iff}

-- `0x1F`, whose prefix tells the base.
abbrev hexadecimal : List ℕ
hexadecimal = b'0' ∷ b'x' ∷ b'1' ∷ b'F' ∷ []

parse_number_iff_example :
    (parse_number int_limits hexadecimal (pos 0) ≡ ok (pos 31))
    ↔ Denotes int_limits hexadecimal 0 (pos 31)
parse_number_iff_example =
    parse_number_iff int_limits hexadecimal 0 (pos 31) (omega arith) (omega arith)

hexadecimal-parsed : parse_number int_limits hexadecimal (pos 0) ≡ ok (pos 31)
unfolding parse_number extract_sign extract_base parse_magnitude accumulate digit_value
    has_hex_prefix
hexadecimal-parsed = refl

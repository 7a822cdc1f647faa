-- ===== src/Json/Text.antt =====
-- Texts and field names: `chars`, `quotedString`, `field` and `encodeUTF8` of src/mongo/db/json.cpp.
pub mod Escape
pub mod Utf8
use Prim.Native.String.{String}
use mongo_cxx_driver.Base.{
  ℕ, zero, suc, ◌+◌, ◌*◌, ◌/◌, ◌%◌, Bool, true, false, not, ◌&&◌, ◌||◌, Option, none, some, List,
  [], ◌∷◌, ◌++◌, ltb, leb, ◌==◌, if◌then◌else◌, bytes,
}
use mongo_cxx_driver.Net.HostAndPort.{text_eq}
use mongo_cxx_driver.Json.Result.{
  Input, Parser, Result, Failure, message, ok, failed, thrown, outside, out_of_fuel, pure,
  parse_error, require, ◌>>=◌, ◌>>◌, bind,
}
use mongo_cxx_driver.Json.Token.{
  skip_spaces, peek_token, read_token, expect, match, match_set, is_hex_string, from_hex,
}

-- `encodeUTF8(first, second)` on two bytes; `|` joins numbers without a common bit.
unfoldable pub encode_utf8 : ℕ → ℕ → List ℕ
encode_utf8 first second =
    if first == 0 && ltb second 128
    then second ∷ []
    else if ltb first 8
    then (192 + (first * 4 + second / 64)) ∷ (128 + second % 64) ∷ []
    else (224 + first / 16) ∷ (128 + (first * 4 + second / 64) % 64) ∷ (128 + second % 64) ∷ []

-- One unit of a text: the bytes that it stands for, and how many bytes behind its first it takes.
pub data Piece : Type 0 where
  piece : List ℕ → ℕ → Piece
  bad : String → Piece

-- `\u` and what follows it: four digits, and a byte behind them.
unfoldable pub unicode : List ℕ → Piece
unicode (h0 ∷ h1 ∷ h2 ∷ h3 ∷ next ∷ rest) =
    if is_hex_string (h0 ∷ h1 ∷ h2 ∷ h3 ∷ [])
    then piece (encode_utf8 (from_hex h0 h1) (from_hex h2 h3)) 5
    else bad "Expecting 4 hex digits"
unicode _ = bad "Expecting 4 hex digits"

-- The `switch` on the character behind a backslash.
unfoldable pub escaped : ℕ → List ℕ → Piece
unfolding unicode
escaped d rest =
    if d == b'b'
    then piece (8 ∷ []) 1
    else if d == b'f'
    then piece (12 ∷ []) 1
    else if d == b'n'
    then piece (10 ∷ []) 1
    else if d == b'r'
    then piece (13 ∷ []) 1
    else if d == b't'
    then piece (9 ∷ []) 1
    else if d == b'u'
    then unicode rest
    else if d == b'v'
    then piece (11 ∷ []) 1
    else if d == b'x'
    then bad "Hex escape not supported"
    else if leb b'0' d && leb d b'7'
    then bad "Octal escape not supported"
    else piece (d ∷ []) 1

abbrev pub escape_at : List ℕ → Piece
escape_at [] = piece (92 ∷ []) 0
escape_at (d ∷ rest) = escaped d rest

unfoldable pub unit_of : ℕ → List ℕ → Piece
unfolding escaped
unit_of c rest = if c == 92 then escape_at rest else piece (c ∷ []) 0

pub data Chars : Type 0 where
  read : List ℕ → Input → Chars
  refused : String → Chars

abbrev pub push : List ℕ → Chars → Chars
push bs (read result rest) = read (bs ++ result) rest
push bs (refused msg) = refused msg

-- The loop of `chars`; the number counts the bytes of the last unit that are still to be passed.
unfoldable pub chars_from : List ℕ → Option (List ℕ) → ℕ → List ℕ → Chars
chars_from terminals allowed skip [] = refused "Unexpected end of input"
chars_from terminals allowed (suc k) (c ∷ rest) = chars_from terminals allowed k rest
chars_from terminals allowed zero (c ∷ rest) =
    if match_set c terminals || not (match c allowed)
    then read [] (c ∷ rest)
    else if leb c 31
    then refused "Invalid control character"
    else (elim (unit_of c rest) [
      | bad msg ↦ refused msg
      | piece bs k ↦ push bs (chars_from terminals allowed k rest)
    ])

abbrev pub of_chars : Chars → Parser (List ℕ)
of_chars (read result rest) input = ok result rest
of_chars (refused msg) input = failed (message msg []) input

-- `chars(result, terminalSet, allowedSet)`.
unfoldable pub chars : List ℕ → Option (List ℕ) → Parser (List ℕ)
unfolding chars_from unit_of match_set
chars terminals allowed input = of_chars (chars_from terminals allowed 0 input) input

-- One of the two branches of `quotedString`, behind its quote.
unfoldable pub quoted_by : String → String → Parser (List ℕ)
unfolding chars
quoted_by quote msg = do result ← chars (bytes quote) none; expect quote msg; pure result

abbrev pub single_quoted : Bool → Parser (List ℕ)
single_quoted true = quoted_by "'" "Expecting '''"
single_quoted false = parse_error "Expecting quoted string"

abbrev pub double_quoted : Bool → Parser (List ℕ)
double_quoted true = quoted_by "\"" "Expecting '\"'"
double_quoted false = read_token "'" >>= single_quoted

-- `quotedString`.
unfoldable pub quoted_string : Parser (List ℕ)
unfolding quoted_by
quoted_string = read_token "\"" >>= double_quoted

abbrev pub letters : List ℕ
letters = bytes "ABCDEFGHIJKLMNOPQRSTUVWXYZabcdefghijklmnopqrstuvwxyz"

abbrev pub name_start : List ℕ
name_start = letters ++ bytes "_$"

abbrev pub name_chars : List ℕ
name_chars = letters ++ bytes "0123456789_$"

unfoldable pub unquoted_name : Parser (List ℕ)
unfolding chars
unquoted_name [] = failed (message "Field name expected" []) []
unquoted_name (c ∷ rest) =
    if match_set c name_start
    then chars [] (some name_chars) (c ∷ rest)
    else failed (message "First character in field must be [A-Za-z$_]" []) (c ∷ rest)

-- `field`.
unfoldable pub field_name : Parser (List ℕ)
unfolding quoted_string unquoted_name
field_name input =
    if peek_token "\"" input || peek_token "'" input
    then quoted_string input
    else unquoted_name (skip_spaces input)

-- `if (!readField(name)) return parseError(msg)`.
abbrev pub is_field : List ℕ → Result (List ℕ) → String → Result (Unit {0})
is_field name (ok found rest) msg = require (text_eq name found) msg [] rest
is_field name (failed e rest) msg = failed (message msg []) rest
is_field name (thrown e) msg = thrown e
is_field name outside msg = outside
is_field name out_of_fuel msg = out_of_fuel

unfoldable pub expect_field : String → String → Parser (Unit {0})
unfolding field_name
expect_field name msg input = is_field (bytes name) (field_name input) msg

-- ===== src/Json/Token.antt =====
-- Tokens: `readTokenImpl`, `match` and the character classes of src/mongo/db/json.cpp.
pub mod Laws
use Prim.Native.String.{String}
use mongo_cxx_driver.Base.{
  ℕ, ◌-◌, ◌+◌, ◌*◌, Bool, true, false, not, ◌&&◌, ◌||◌, Option, none, some, List, [], ◌∷◌, leb,
  ◌==◌, if◌then◌else◌, bytes,
}
use mongo_cxx_driver.Json.Result.{Input, Parser, ok, require, ◌>>=◌}

-- `isspace` in the C locale.
unfoldable pub is_space : ℕ → Bool
is_space c = c == 32 || (leb 9 c && leb c 13)

unfoldable pub skip_spaces : List ℕ → List ℕ
unfolding is_space
skip_spaces [] = []
skip_spaces (c ∷ rest) = let after = skip_spaces rest in if is_space c then after else c ∷ rest

-- The input behind the token, if it starts with it.
unfoldable pub strip : List ℕ → List ℕ → Option Input
strip [] input = some input
strip (t ∷ token) [] = none
strip (t ∷ token) (c ∷ rest) = if t == c then strip token rest else none

unfoldable pub read_token_impl : List ℕ → List ℕ → Option Input
unfolding skip_spaces strip
read_token_impl token input = strip token (skip_spaces input)

abbrev pub is_some {ℓ} : {A : Type ℓ} → Option A → Bool
is_some none = false
is_some (some a) = true

-- `peekToken`.
abbrev pub peek_token : String → List ℕ → Bool
peek_token token input = is_some (read_token_impl (bytes token) input)

abbrev pub advance : Option Input → Parser Bool
advance none input = ok false input
advance (some rest) input = ok true rest

-- `readToken`: whether the token was there; the input moves behind it if so.
abbrev pub read_token : String → Parser Bool
read_token token input = advance (read_token_impl (bytes token) input) input

-- `if (!readToken(token)) return parseError(msg)`.
abbrev pub expect : String → String → Parser (Unit {0})
expect token msg = read_token token >>= λ found. require found msg []

unfoldable pub elem : ℕ → List ℕ → Bool
elem c [] = false
elem c (x ∷ xs) = c == x || elem c xs

abbrev pub is_nil : List ℕ → Bool
is_nil [] = true
is_nil (x ∷ xs) = false

-- `match` with a set; `strchr` finds the terminator of every set that is not empty.
unfoldable pub match_set : ℕ → List ℕ → Bool
unfolding elem
match_set c set = not (is_nil set) && (c == 0 || elem c set)

-- `match`, where NULL matches everything.
abbrev pub match : ℕ → Option (List ℕ) → Bool
match c none = true
match c (some set) = match_set c set

-- `isxdigit`.
unfoldable pub is_hex_digit : ℕ → Bool
is_hex_digit c =
    (leb b'0' c && leb c b'9') || ((leb b'a' c && leb c b'f') || (leb b'A' c && leb c b'F'))

unfoldable pub is_hex_string : List ℕ → Bool
unfolding is_hex_digit
is_hex_string [] = true
is_hex_string (c ∷ cs) = is_hex_digit c && is_hex_string cs

-- `fromHex(char)`; 255 stands for the failed `verify`.
unfoldable pub hex_digit : ℕ → ℕ
hex_digit c =
    if leb b'0' c && leb c b'9'
    then c - b'0'
    else if leb b'a' c && leb c b'f'
    then c - b'a' + 10
    else if leb b'A' c && leb c b'F'
    then c - b'A' + 10
    else 255

-- `fromHex(const char*)`, on digits.
abbrev pub from_hex : ℕ → ℕ → ℕ
from_hex hi lo = hex_digit hi * 16 + hex_digit lo

-- ===== src/Json/Text/Escape.antt =====
-- `escape` of src/mongo/bson/bsonelement.cpp, which writes the texts that src/mongo/db/json.cpp reads.
use mongo_cxx_driver.Base.{
  ℕ, ◌+◌, ◌/◌, ◌%◌, ◌<◌, ◌≤◌, Bool, true, false, none, List, [], ◌∷◌, ◌++◌, ltb, leb, ◌==◌,
  if◌then◌else◌, bytes, ◌≡◌, refl, ap, ◌∙◌, arith, ==_iff, leb→le, append_assoc,
}
use mongo_cxx_driver.Json.Result.{Input, ok}
use mongo_cxx_driver.Json.Token.{
  is_nil, match_set, elem, read_token_impl, is_hex_digit, is_hex_string, hex_digit, from_hex,
}
use mongo_cxx_driver.Json.Text.{
  encode_utf8, piece, unicode, escaped, unit_of, Chars, read, push, chars_from, quoted_string,
}

-- `hexchars[d]` of `toHexLower`.
unfoldable pub hex_char : ℕ → ℕ
hex_char d = if ltb d 10 then b'0' + d else 87 + d

-- `toHexLower` of one byte.
unfoldable pub hex_lower : ℕ → List ℕ
unfolding hex_char
hex_lower c = hex_char (c / 16 % 16) ∷ hex_char (c % 16) ∷ []

-- The `switch` of `escape`.
unfoldable pub escape_byte : Bool → ℕ → List ℕ
unfolding hex_lower
escape_byte slash c =
    if c == b'"'
    then 92 ∷ b'"' ∷ []
    else if c == 92
    then 92 ∷ 92 ∷ []
    else if c == b'/'
    then (if slash then 92 ∷ b'/' ∷ [] else b'/' ∷ [])
    else if c == 8
    then 92 ∷ b'b' ∷ []
    else if c == 12
    then 92 ∷ b'f' ∷ []
    else if c == 10
    then 92 ∷ b'n' ∷ []
    else if c == 13
    then 92 ∷ b'r' ∷ []
    else if c == 9
    then 92 ∷ b't' ∷ []
    else if leb c 31
    then 92 ∷ b'u' ∷ b'0' ∷ b'0' ∷ hex_lower c
    else c ∷ []

-- `escape`.
unfoldable pub escape : Bool → List ℕ → List ℕ
unfolding escape_byte
escape slash [] = []
escape slash (c ∷ s) = escape_byte slash c ++ escape slash s

-- The loop of `chars` on a text in double quotes.
abbrev reading : Input → Chars
reading = chars_from (bytes "\"") none 0

-- The units that stand for a byte.
record StandsFor (c : ℕ) (unit : List ℕ) : Type 0 where
  stands : (n : ℕ) (rest : Input) → reading (unit ++ n ∷ rest) ≡ push (c ∷ []) (reading (n ∷ rest))

pub hex_char_lem :
    (d : ℕ) → d < 16 → (is_hex_digit (hex_char d) ≡ true) × (hex_digit (hex_char d) ≡ d)
unfolding hex_char is_hex_digit hex_digit
hex_char_lem d h = (ground arith, ground arith)

unit_step :
    (c k : ℕ) (bs rest : List ℕ)
    → match_set c (bytes "\"") ≡ false
    → leb c 31 ≡ false
    → unit_of c rest ≡ piece bs k
    → reading (c ∷ rest) ≡ push bs (chars_from (bytes "\"") none k rest)
unfolding chars_from
unit_step c k bs rest h1 h2 h3 = rw (h1, h2, h3)

lower-hex :
    (a b : ℕ) → a < 16 → b < 16 → is_hex_string (b'0' ∷ b'0' ∷ hex_char a ∷ hex_char b ∷ []) ≡ true
unfolding is_hex_string is_hex_digit
lower-hex a b h k = let hi = (hex_char_lem a h).0 in let lo = (hex_char_lem b k).0 in rw (hi, lo)

encode_utf8-low : (c : ℕ) → c < 128 → encode_utf8 0 c ≡ c ∷ []
unfolding encode_utf8
encode_utf8-low c h = ground arith

from_hex-char : (c : ℕ) → c ≤ 31 → from_hex (hex_char (c / 16 % 16)) (hex_char (c % 16)) ≡ c
from_hex-char c h =
    let hi = (hex_char_lem (c / 16 % 16) (omega arith)).1 in
    let lo = (hex_char_lem (c % 16) (omega arith)).1 in rw (hi, lo) (omega arith)

unicode-control :
    (c n : ℕ) (rest : Input)
    → c ≤ 31
    → unicode (b'0' ∷ b'0' ∷ (hex_lower c ++ n ∷ rest)) ≡ piece (c ∷ []) 5
unfolding unicode hex_lower hex_digit
unicode-control c n rest h =
    let hex = lower-hex (c / 16 % 16) (c % 16) (omega arith) (omega arith) in
    let value = from_hex-char c h in
    let utf8 = encode_utf8-low c (omega arith) in rw (hex, value, utf8)

control-StandsFor : (c : ℕ) → c ≤ 31 → StandsFor c (92 ∷ b'u' ∷ b'0' ∷ b'0' ∷ hex_lower c)
unfolding hex_lower unit_of match_set chars_from
control-StandsFor c h = record {
  stands = λ n rest.
      unit_step 92 5 (c ∷ []) (b'u' ∷ b'0' ∷ b'0' ∷ (hex_lower c ++ n ∷ rest)) refl refl
        (unicode-control c n rest h);
}

raw-StandsFor : (c : ℕ) → 31 < c → (c == b'"') ≡ false → (c == 92) ≡ false → StandsFor c (c ∷ [])
unfolding unit_of match_set elem
raw-StandsFor c h p q = record {
  stands = λ n rest. unit_step c 0 (c ∷ []) (n ∷ rest) (ground arith) (ground arith) (ground arith);
}

named-StandsFor :
    (c d letter : ℕ)
    → (c == d) ≡ true
    → ((n : ℕ) (rest : Input) → escaped letter (n ∷ rest) ≡ piece (d ∷ []) 1)
    → StandsFor c (92 ∷ letter ∷ [])
unfolding unit_of chars_from match_set
named-StandsFor c d letter e h =
    let same = (==_iff c d).0 e in
    record {
      stands = λ n rest. unit_step 92 1 (c ∷ []) (letter ∷ n ∷ rest) refl refl (rw same (h n rest));
    }

slash-StandsFor :
    (slash : Bool) (c : ℕ)
    → (c == b'/') ≡ true
    → StandsFor c (if slash then 92 ∷ b'/' ∷ [] else b'/' ∷ [])
unfolding escaped
slash-StandsFor true c e = named-StandsFor c b'/' b'/' e (λ n rest. refl)
slash-StandsFor false c e =
    let same = (==_iff c b'/').0 e in rw same (raw-StandsFor b'/' (omega arith) refl refl)

escape_byte-StandsFor : (slash : Bool) (c : ℕ) → StandsFor c (escape_byte slash c)
unfolding escape_byte escaped
escape_byte-StandsFor slash c =
    split (c == b'"') (λ e. named-StandsFor c b'"' b'"' e (λ n rest. refl))
      (λ p.
        split (c == 92) (λ e. named-StandsFor c 92 92 e (λ n rest. refl))
          (λ q. split (c == b'/') (slash-StandsFor slash c) (λ u.
            split (c == 8) (λ e. named-StandsFor c 8 b'b' e (λ n rest. refl))
              (λ u.
                split (c == 12) (λ e. named-StandsFor c 12 b'f' e (λ n rest. refl))
                  (λ u.
                    split (c == 10) (λ e. named-StandsFor c 10 b'n' e (λ n rest. refl))
                      (λ u.
                        split (c == 13) (λ e. named-StandsFor c 13 b'r' e (λ n rest. refl))
                          (λ u.
                            split (c == 9) (λ e. named-StandsFor c 9 b't' e (λ n rest. refl))
                              (λ u.
                                split (leb c 31) (λ e. control-StandsFor c (leb→le c 31 e))
                                  (λ e. raw-StandsFor c (above e) p q)))))))))
  where
    split :
        (b : Bool) {x y : List ℕ}
        → (b ≡ true → StandsFor c x)
        → (b ≡ false → StandsFor c y)
        → StandsFor c (if b then x else y)
    split true h k = h refl
    split false h k = k refl

    above : leb c 31 ≡ false → 31 < c
    above e = ground arith

stands_before :
    {c : ℕ} {unit : List ℕ}
    → StandsFor c unit
    → (tail : Input) → is_nil tail ≡ false
    → reading (unit ++ tail) ≡ push (c ∷ []) (reading tail)
stands_before h [] e = cc
stands_before h (n ∷ rest) e = h.stands n rest

quote_behind : (s rest : List ℕ) → is_nil (s ++ b'"' ∷ rest) ≡ false
quote_behind [] rest = refl
quote_behind (c ∷ s) rest = refl

reading-escape :
    (slash : Bool) (s : List ℕ) (rest : Input)
    → reading (escape slash s ++ b'"' ∷ rest) ≡ read s (b'"' ∷ rest)
unfolding escape chars_from match_set
reading-escape slash [] rest = refl
reading-escape slash (c ∷ s) rest =
    ap reading (append_assoc (escape_byte slash c) (escape slash s) (b'"' ∷ rest))
    ∙ stands_before (escape_byte-StandsFor slash c) (escape slash s ++ b'"' ∷ rest)
        (quote_behind (escape slash s) rest)
    ∙ ap (push (c ∷ [])) (reading-escape slash s rest)

-- The text that `escape` writes for any bytes, between double quotes, is read by `quotedString` as these
-- bytes, and the input then stands behind the closing quote, whether slashes are escaped or not.
pub quoted_string-escape :
    (slash : Bool) (s : List ℕ) (rest : Input)
    → quoted_string (b'"' ∷ (escape slash s ++ b'"' ∷ rest)) ≡ ok s rest
unfolding quoted_string read_token_impl
quoted_string-escape slash s rest = rw (reading-escape slash s rest) refl

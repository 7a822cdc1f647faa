-- ===== src/Encoding/Base64.antt =====
-- src/mongo/util/base64.cpp and base64.h. A byte is a number below 256; `x << k` on an `unsigned char` is
-- `x * 2 ^ k % 256`, and `|` of numbers without a common bit is their sum.
pub mod RoundTrip
mod Tests
use mongo_cxx_driver.Base.{
  ℕ, zero, suc, ◌+◌, ◌*◌, ◌/◌, ◌%◌, Bool, Option, none, some, List, [], ◌∷◌, ◌++◌, length, ◌==◌,
  if◌then◌else◌,
}

-- `Alphabet::encode`, in its three lines.
abbrev pub upper : List ℕ
upper =
    b'A' ∷ b'B' ∷ b'C' ∷ b'D' ∷ b'E' ∷ b'F' ∷ b'G' ∷ b'H' ∷ b'I' ∷ b'J' ∷ b'K' ∷ b'L' ∷ b'M' ∷ b'N'
    ∷ b'O' ∷ b'P' ∷ b'Q' ∷ b'R' ∷ b'S' ∷ b'T' ∷ b'U' ∷ b'V' ∷ b'W' ∷ b'X' ∷ b'Y' ∷ b'Z' ∷ []

abbrev pub lower : List ℕ
lower =
    b'a' ∷ b'b' ∷ b'c' ∷ b'd' ∷ b'e' ∷ b'f' ∷ b'g' ∷ b'h' ∷ b'i' ∷ b'j' ∷ b'k' ∷ b'l' ∷ b'm' ∷ b'n'
    ∷ b'o' ∷ b'p' ∷ b'q' ∷ b'r' ∷ b's' ∷ b't' ∷ b'u' ∷ b'v' ∷ b'w' ∷ b'x' ∷ b'y' ∷ b'z' ∷ []

abbrev pub digits : List ℕ
digits = b'0' ∷ b'1' ∷ b'2' ∷ b'3' ∷ b'4' ∷ b'5' ∷ b'6' ∷ b'7' ∷ b'8' ∷ b'9' ∷ b'+' ∷ b'/' ∷ []

abbrev pub alphabet : List ℕ
alphabet = upper ++ lower ++ digits

abbrev pub at_or_zero : List ℕ → ℕ → ℕ
at_or_zero [] i = 0
at_or_zero (c ∷ cs) zero = c
at_or_zero (c ∷ cs) (suc i) = at_or_zero cs i

-- `Alphabet::e`.
unfoldable pub e : ℕ → ℕ
e x = at_or_zero alphabet (x % 64)

-- The loop that fills `Alphabet::decode`, read at one place: the last index whose letter is `c`, or 0.
unfoldable pub decode_from : List ℕ → ℕ → ℕ → ℕ → ℕ
decode_from [] i found c = found
decode_from (x ∷ xs) i found c = decode_from xs (i + 1) (if x == c then i else found) c

unfoldable pub decode_letter : ℕ → ℕ
unfolding decode_from
decode_letter c = decode_from alphabet 0 0 c

-- `encode`, three bytes at a time, with the padding.
unfoldable pub encode : List ℕ → List ℕ
encode [] = []
encode (a ∷ []) = e (a / 4) ∷ e (a * 16 % 256) ∷ b'=' ∷ b'=' ∷ []
encode (a ∷ b ∷ []) = e (a / 4) ∷ e (a * 16 % 256 + b / 16 % 16) ∷ e (b % 16 * 4) ∷ b'=' ∷ []
encode (a ∷ b ∷ c ∷ rest) =
    e (a / 4)
    ∷ e (a * 16 % 256 + b / 16 % 16)
    ∷ e (b % 16 * 4 + c / 64 % 4)
    ∷ e (c % 64)
    ∷ encode rest

-- The three bytes of one group, and those of them that are written.
unfoldable pub group : ℕ → ℕ → ℕ → ℕ → List ℕ
group s0 s1 s2 s3 =
    let d0 = decode_letter s0 in
    let d1 = decode_letter s1 in
    let d2 = decode_letter s2 in
    let d3 = decode_letter s3 in
    let byte0 = d0 * 4 % 256 + d1 / 16 % 4 in
    let byte1 = d1 * 16 % 256 + d2 / 4 % 16 in
    let byte2 = d2 * 64 % 256 + d3 % 64 in
    if s3 == b'='
    then (if s2 == b'=' then byte0 ∷ [] else byte0 ∷ byte1 ∷ [])
    else byte0 ∷ byte1 ∷ byte2 ∷ []

-- The loop of `decode`; its text has whole groups.
unfoldable pub decode_groups : List ℕ → List ℕ
decode_groups (a ∷ b ∷ c ∷ d ∷ rest) = group a b c d ++ decode_groups rest
decode_groups _ = []

-- `decode`; `none` is assertion 10270.
unfoldable pub decode : List ℕ → Option (List ℕ)
decode s = if length s % 4 == 0 then some (decode_groups s) else none

-- ===== src/Json/Text/Utf8.antt =====
-- What `encodeUTF8` of src/mongo/db/json.cpp writes, against the definition of UTF-8.
use mongo_cxx_driver.Base.{
  ℕ, ◌+◌, ◌-◌, ◌*◌, ◌<◌, ◌≡◌, not, Bool, ◌&&◌, List, [], ◌∷◌, Option, none, some, if◌then◌else◌,
  ltb, leb, arith,
}
use mongo_cxx_driver.Json.Text.{encode_utf8}

-- A byte that continues a code point.
abbrev continues : ℕ → Bool
continues b = leb 128 b && ltb b 192

-- The numbers that are no characters: they make up characters in UTF-16, two by two.
abbrev pub is_surrogate : ℕ → Bool
is_surrogate n = leb 55296 n && ltb n 57344

-- The code point that one, two or three bytes stand for, in the shortest form. A surrogate has no UTF-8
-- form.
unfoldable pub code_point : List ℕ → Option ℕ
code_point (a ∷ []) = if ltb a 128 then some a else none
code_point (a ∷ b ∷ []) =
    let n = (a - 192) * 64 + (b - 128) in
    if (leb 192 a && ltb a 224) && (continues b && leb 128 n) then some n else none
code_point (a ∷ b ∷ c ∷ []) =
    let n = (a - 224) * 4096 + (b - 128) * 64 + (c - 128) in
    if (leb 224 a && ltb a 240)
      && (continues b && (continues c && (leb 2048 n && not (is_surrogate n))))
    then some n
    else none
code_point _ = none

-- The two bytes of a 16-bit number are written as the UTF-8 form of the number, in the shortest form, just if
-- it is no surrogate. What is written for a surrogate is no UTF-8.
pub code_point-encode_utf8 :
    (first second : ℕ)
    → first < 256
    → second < 256
    → code_point (encode_utf8 first second)
      ≡ (if is_surrogate (first * 256 + second) then none else some (first * 256 + second))
unfolding code_point encode_utf8
code_point-encode_utf8 first second h k = ground arith

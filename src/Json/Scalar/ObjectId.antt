-- ===== src/Json/Scalar/ObjectId.antt =====
-- `OID::toString` of src/mongo/bson/oid.cpp, and how src/mongo/db/json.cpp reads what it writes.
use mongo_cxx_driver.Base.{
  ℕ, ◌+◌, ◌*◌, ◌/◌, ◌%◌, ◌<◌, ◌≡◌, refl, sym, ap, ◌∙◌, ◌==◌, true, false, List, [], ◌∷◌, ◌++◌,
  length, arith, ==_iff,
}
use mongo_cxx_driver.Json.Syntax.{object_id}
use mongo_cxx_driver.Json.Result.{ok}
use mongo_cxx_driver.Json.Token.{is_hex_string, hex_digit, read_token_impl}
use mongo_cxx_driver.Json.Text.{quoted_string}
use mongo_cxx_driver.Json.Text.Escape.{
  hex_char, hex_lower, hex_char_lem, escape_byte, escape, quoted_string-escape,
}
use mongo_cxx_driver.Json.Scalar.{append, hex_pairs, append_object_id, object_id_call}

-- `toHexLower` of the bytes, which is `OID::toString`.
unfoldable pub to_string : List ℕ → List ℕ
unfolding hex_lower
to_string [] = []
to_string (b ∷ bs) = hex_lower b ++ to_string bs

abbrev pub AllBytes : List ℕ → Type 0
AllBytes [] = Unit {0}
AllBytes (b ∷ bs) = (b < 256) × AllBytes bs

escape_byte-hex : (d : ℕ) → d < 16 → escape_byte false (hex_char d) ≡ hex_char d ∷ []
unfolding escape_byte hex_char
escape_byte-hex d h = ground arith

escape-to_string : (bs : List ℕ) → escape false (to_string bs) ≡ to_string bs
unfolding to_string escape
escape-to_string [] = refl
escape-to_string (b ∷ bs) =
    let hi = escape_byte-hex (b / 16 % 16) (omega arith) in
    let lo = escape_byte-hex (b % 16) (omega arith) in
    rw (hi, lo) (ap (λ t. hex_char (b / 16 % 16) ∷ hex_char (b % 16) ∷ t) (escape-to_string bs))

is_hex_string-to_string : (bs : List ℕ) → is_hex_string (to_string bs) ≡ true
unfolding to_string is_hex_string
is_hex_string-to_string [] = refl
is_hex_string-to_string (b ∷ bs) =
    let hi = (hex_char_lem (b / 16 % 16) (omega arith)).0 in
    let lo = (hex_char_lem (b % 16) (omega arith)).0 in rw (hi, lo) (is_hex_string-to_string bs)

length-to_string : (bs : List ℕ) → length (to_string bs) ≡ length bs * 2
unfolding to_string
length-to_string [] = refl
length-to_string (b ∷ bs) = let rest = length-to_string bs in omega arith

hex_pairs-to_string : (bs : List ℕ) → AllBytes bs → hex_pairs (to_string bs) ≡ bs
unfolding to_string
hex_pairs-to_string [] h = refl
hex_pairs-to_string (b ∷ bs) (h, k) =
    let hi = (hex_char_lem (b / 16 % 16) (omega arith)).1 in
    let lo = (hex_char_lem (b % 16) (omega arith)).1 in
    let value : hex_digit (hex_char (b / 16 % 16)) * 16 + hex_digit (hex_char (b % 16)) ≡ b =
      rw (hi, lo) (omega arith) in
    rw (value, hex_pairs-to_string bs k)

quoted_string-to_string :
    (bs rest : List ℕ)
    → quoted_string (b'"' ∷ (to_string bs ++ b'"' ∷ rest)) ≡ ok (to_string bs) rest
quoted_string-to_string bs rest =
    ap (λ t. quoted_string (b'"' ∷ (t ++ b'"' ∷ rest))) (sym (escape-to_string bs))
    ∙ quoted_string-escape false (to_string bs) rest

-- What `OID::toString` writes for twelve bytes, in `("...")`, is read by `objectId` as these bytes, and the
-- input then stands behind the parenthesis.
pub object_id_call-to_string :
    (name oid rest : List ℕ)
    → length oid ≡ 12
    → AllBytes oid
    → object_id_call name (b'(' ∷ b'"' ∷ (to_string oid ++ b'"' ∷ b')' ∷ rest))
      ≡ append name (object_id oid) rest
unfolding object_id_call append_object_id read_token_impl
object_id_call-to_string name oid rest size all =
    let text = quoted_string-to_string oid (b')' ∷ rest) in
    let long : (length (to_string oid) == 24) ≡ true =
      (let twice = length-to_string oid in (==_iff (length (to_string oid)) 24).1 (omega arith)) in
    rw (text, long, is_hex_string-to_string oid, hex_pairs-to_string oid all) refl

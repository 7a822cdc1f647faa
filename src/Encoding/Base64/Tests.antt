-- ===== src/Encoding/Base64/Tests.antt =====
-- Tests of src/mongo/util/base64.cpp.
use mongo_cxx_driver.Base.{ℕ, ◌≡◌, refl, some, List, [], ◌∷◌, arith}
use mongo_cxx_driver.Encoding.Base64.{e, encode, decode}
use mongo_cxx_driver.Encoding.Base64.RoundTrip.{decode-encode}

abbrev two_bytes : List ℕ
two_bytes = 255 ∷ 0 ∷ []

two_bytes-encoded : encode two_bytes ≡ b'/' ∷ b'w' ∷ b'A' ∷ b'=' ∷ []
unfolding encode e
two_bytes-encoded = refl

decode-encode_example : decode (encode two_bytes) ≡ some two_bytes
decode-encode_example = decode-encode two_bytes (omega arith, (omega arith, tt))

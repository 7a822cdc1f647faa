-- ===== src/Bson/Compare/Hash.antt =====
-- `BSONElement::Hasher` of src/mongo/bson/bsonelement.cpp and `BSONObj::Hasher` of src/mongo/bson/bsonobj.cpp.
-- `boost::hash_combine`, the hash of a text and that of an object id are any functions; that of a
-- double is one of the number, so that both zeros have the same.
pub mod Equal
pub mod Agree
use mongo_cxx_driver.Base.{
  ℕ, ◌+◌, ◌/◌, ◌%◌, Bool, true, false, not, List, [], ◌∷◌, ◌++◌, length, take, ◌==◌,
}
use mongo_cxx_driver.Base.Int.{ℤ, pos, negsuc}
use mongo_cxx_driver.Bson.Numbers.{Double, nan, minus_inf, plus_inf, finite, Doubles}
use mongo_cxx_driver.Bson.Compare.{
  Value, eoo, undefined, null, min_key, max_key, double, string, symbol, code, object, array,
  bin_data, object_id, boolean, date, regex, db_ref, code_w_scope, int32, int64, timestamp, Fields,
  no_fields, field, canonical_type, terminated,
}

-- What `hash_combine` is called with: an integer, a Boolean, the bits of a timestamp, a double, or a hash.
pub data Piece : Type 0 where
  number : ℤ → Piece
  truth : Bool → Piece
  bits : ℕ → Piece
  real : Double → Piece
  hash : ℕ → Piece

pub record Hasher : Type 0 where
  pub combine : ℕ → Piece → ℕ
  pub text_hash : List ℕ → ℕ
  pub combine_object_id : ℕ → List ℕ → ℕ

-- The bytes of an `int`, and the value of binary data with its length and subtype.
abbrev pub int_bytes : ℕ → List ℕ
int_bytes n = n % 256 ∷ n / 256 % 256 ∷ n / 65536 % 256 ∷ n / 16777216 % 256 ∷ []

abbrev pub bin_data_value : ℕ → List ℕ → List ℕ
bin_data_value t d = int_bytes (length d) ++ t ∷ d

-- `BSONElement::boolean`.
abbrev pub is_true : ℤ → Bool
is_true (pos n) = not (n == 0)
is_true (negsuc n) = true

module _ (D : Doubles) (H : Hasher) where
  -- The type and the name, if it has one.
  abbrev pub start_hash : List ℕ → ℤ → ℕ
  start_hash [] t = H.combine 0 (number t)
  start_hash (c ∷ n) t = H.combine (H.combine 0 (number t)) (hash (H.text_hash (c ∷ n)))

  unfoldable mutual
    -- The `switch` of `BSONElement::Hasher`.
    pub hash_value : ℕ → Value → ℕ
    hash_value h eoo = h
    hash_value h undefined = h
    hash_value h null = h
    hash_value h max_key = h
    hash_value h min_key = h
    hash_value h (boolean b) = H.combine h (truth (is_true b))
    hash_value h (timestamp t) = H.combine h (bits t)
    hash_value h (date d) = H.combine h (number d)
    hash_value h (double d) = H.combine h (real d)
    hash_value h (int64 n) = H.combine h (real (D.to_double n))
    hash_value h (int32 n) = H.combine h (real (D.to_double n))
    hash_value h (object_id i) = H.combine_object_id h (take 12 i)
    hash_value h (code s) = H.combine h (hash (H.text_hash s))
    hash_value h (symbol s) = H.combine h (hash (H.text_hash s))
    hash_value h (string s) = H.combine h (hash (H.text_hash s))
    hash_value h (object d) = H.combine h (hash (hash_object 0 d))
    hash_value h (array d) = H.combine h (hash (hash_object 0 d))
    hash_value h (db_ref r) = H.combine h (hash (H.text_hash r))
    hash_value h (bin_data t d) = H.combine h (hash (H.text_hash (bin_data_value t d)))
    hash_value h (regex p f) = H.combine (H.combine h (hash (H.text_hash p))) (hash (H.text_hash f))
    hash_value h (code_w_scope s d) =
        H.combine (H.combine h (hash (H.text_hash (terminated s)))) (hash (hash_object 0 d))

    -- `BSONObj::Hasher`, from the hash of the elements before.
    pub hash_object : ℕ → Fields → ℕ
    hash_object h no_fields = h
    hash_object h (field n v rest) =
        hash_object (H.combine h (hash (hash_value (start_hash n (canonical_type v)) v))) rest

  -- `BSONElement::Hasher`.
  unfoldable pub hash_element : List ℕ → Value → ℕ
  unfolding hash_value
  hash_element n v = hash_value (start_hash n (canonical_type v)) v

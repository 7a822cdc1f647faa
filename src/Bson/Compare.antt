-- ===== src/Bson/Compare.antt =====
-- The order of BSON values: `woCompare` and `compareElementValues` of src/mongo/bson/bsonelement.cpp,
-- `woCompare` of src/mongo/bson/bsonobj.cpp and `canonicalizeBSONType` of src/mongo/bson/bsontypes.h. A
-- comparison's result is its sign, which is all that a caller reads; it is `none` where an assertion
-- fails, or where a value would be read as one of another type.
pub mod Opposite
pub mod Exact
pub mod Hash
mod Tests
use Prim.Native.Nat.{Ordering, lt, eq, gt, compare}
use mongo_cxx_driver.Base.{
  ℕ, suc, ◌+◌, Bool, true, false, not, ◌&&◌, Option, none, some, List, [], ◌∷◌, ◌++◌, length, take,
  leb, opposite, if◌then◌else◌,
}
use mongo_cxx_driver.Base.Int.{ℤ, pos, negsuc}
use mongo_cxx_driver.Net.HostAndPort.{compare_text}
use mongo_cxx_driver.Bson.Numbers.{
  Double, Doubles, compare_longs, compare_doubles, compare_long_to_double, compare_double_to_long,
}

-- An element's value. A text is without its terminator, a Boolean is the `char` that it is stored in, and a
-- database reference the bytes of its value. `eoo` is what an iterator returns behind the last element.
mutual
  pub data Value : Type 0 where
    eoo undefined null min_key max_key : Value
    double : Double → Value
    string symbol code : List ℕ → Value
    object array : Fields → Value
    bin_data : ℕ → List ℕ → Value
    object_id : List ℕ → Value
    boolean : ℤ → Value
    date : ℤ → Value
    regex : List ℕ → List ℕ → Value
    db_ref : List ℕ → Value
    code_w_scope : List ℕ → Fields → Value
    int32 int64 : ℤ → Value
    timestamp : ℕ → Value

  pub data Fields : Type 0 where
    no_fields : Fields
    field : List ℕ → Value → Fields → Fields

-- `canonicalizeBSONType`.
unfoldable pub canonical_type : Value → ℤ
canonical_type min_key = negsuc 0
canonical_type max_key = pos 127
canonical_type eoo = pos 0
canonical_type undefined = pos 0
canonical_type null = pos 5
canonical_type (double d) = pos 10
canonical_type (int32 n) = pos 10
canonical_type (int64 n) = pos 10
canonical_type (string s) = pos 15
canonical_type (symbol s) = pos 15
canonical_type (object d) = pos 20
canonical_type (array d) = pos 25
canonical_type (bin_data t d) = pos 30
canonical_type (object_id i) = pos 35
canonical_type (boolean b) = pos 40
canonical_type (date d) = pos 45
canonical_type (timestamp t) = pos 47
canonical_type (regex p f) = pos 50
canonical_type (db_ref r) = pos 55
canonical_type (code s) = pos 60
canonical_type (code_w_scope s d) = pos 65

-- `BSONElement::isNumber`.
unfoldable pub is_number : Value → Bool
is_number (double d) = true
is_number (int32 n) = true
is_number (int64 n) = true
is_number v = false

-- `memcmp` on so many bytes.
unfoldable pub memcmp : ℕ → List ℕ → List ℕ → Ordering
unfolding compare_text
memcmp n a b = compare_text (take n a) (take n b)

abbrev pub then_by : Ordering → Ordering → Ordering
then_by lt k = lt
then_by eq k = k
then_by gt k = gt

-- The bytes that both have, then the lengths: texts with their terminators, and `StringData::compare`.
unfoldable pub compare_bytes : List ℕ → List ℕ → Ordering
unfolding memcmp
compare_bytes a b =
    let common = if leb (length a) (length b) then length a else length b in
    then_by (memcmp common a b) (compare (length a) (length b))

abbrev pub terminated : List ℕ → List ℕ
terminated s = s ++ 0 ∷ []

-- The lengths, then the bytes: binary data behind its subtype, and references.
unfoldable pub compare_sized : List ℕ → List ℕ → Ordering
unfolding memcmp
compare_sized a b = then_by (compare (length a) (length b)) (memcmp (length a) a b)

-- What is read of the right value, by the type of the left one.
abbrev pub text_of : Value → Option (List ℕ)
text_of (string s) = some s
text_of (symbol s) = some s
text_of (code s) = some s
text_of v = none

abbrev pub document_of : Value → Option Fields
document_of (object d) = some d
document_of (array d) = some d
document_of v = none

abbrev pub bin_data_of : Value → Option (List ℕ)
bin_data_of (bin_data t d) = some (t ∷ d)
bin_data_of v = none

abbrev pub object_id_of : Value → Option (List ℕ)
object_id_of (object_id i) = some i
object_id_of v = none

abbrev pub boolean_of : Value → Option ℤ
boolean_of (boolean b) = some b
boolean_of v = none

abbrev pub date_of : Value → Option ℤ
date_of (date d) = some d
date_of v = none

abbrev pub timestamp_of : Value → Option ℕ
timestamp_of (timestamp t) = some t
timestamp_of v = none

abbrev pub db_ref_of : Value → Option (List ℕ)
db_ref_of (db_ref r) = some r
db_ref_of v = none

abbrev pub regex_of : Value → Option (List ℕ × List ℕ)
regex_of (regex p f) = some (p, f)
regex_of v = none

abbrev pub code_w_scope_of : Value → Option (List ℕ × Fields)
code_w_scope_of (code_w_scope s d) = some (s, d)
code_w_scope_of v = none

abbrev pub read {ℓ} : {A : Type ℓ} → Option A → (A → Option Ordering) → Option Ordering
read none f = none
read (some a) f = f a

-- What follows a comparison is looked at only if that found no difference.
abbrev pub or_else : Option Ordering → Option Ordering → Option Ordering
or_else none k = none
or_else (some lt) k = some lt
or_else (some eq) k = k
or_else (some gt) k = some gt

-- The test of the canonical types.
abbrev pub by_type : Ordering → Bool → Option Ordering → Option Ordering
by_type lt numbers rest = if numbers then rest else some lt
by_type eq numbers rest = rest
by_type gt numbers rest = if numbers then rest else some gt

-- An element of the sort key whose number is negative reverses the order; behind its end none does.
abbrev pub first_descends : List Bool → Bool
first_descends [] = false
first_descends (b ∷ bs) = b

abbrev pub next_key : List Bool → List Bool
next_key [] = []
next_key (b ∷ bs) = bs

abbrev pub directed : Bool → Option Ordering → Option Ordering
directed false r = r
directed true r = opposite r

-- `BSONElement::woCompare`, on the comparison of the values.
abbrev pub wo_compare_by :
    Bool → List ℕ → Value → List ℕ → Value → Option Ordering → Option Ordering
wo_compare_by consider_field_name n v m w values =
    by_type (compare_longs (canonical_type v) (canonical_type w)) (is_number v && is_number w)
      (or_else (some (if consider_field_name then compare_text n m else eq)) values)

module _ (D : Doubles) where
  -- The three `switch` statements on the type of the right number.
  abbrev pub compare_int32 : ℤ → Value → Option Ordering
  compare_int32 a (int32 b) = some (compare_longs a b)
  compare_int32 a (int64 b) = some (compare_longs a b)
  compare_int32 a (double b) = some (compare_doubles (D.to_double a) b)
  compare_int32 a v = none

  abbrev pub compare_int64 : ℤ → Value → Option Ordering
  compare_int64 a (int64 b) = some (compare_longs a b)
  compare_int64 a (int32 b) = some (compare_longs a b)
  compare_int64 a (double b) = some (compare_long_to_double D a b)
  compare_int64 a v = none

  abbrev pub compare_double : Double → Value → Option Ordering
  compare_double a (double b) = some (compare_doubles a b)
  compare_double a (int32 b) = some (compare_doubles a (D.to_double b))
  compare_double a (int64 b) = some (compare_double_to_long D a b)
  compare_double a v = none

  unfoldable mutual
    -- `compareElementValues`.
    pub compare_element_values : Value → Value → Option Ordering
    compare_element_values eoo r = some (compare_longs (canonical_type eoo) (canonical_type r))
    compare_element_values undefined r =
        some (compare_longs (canonical_type undefined) (canonical_type r))
    compare_element_values null r = some (compare_longs (canonical_type null) (canonical_type r))
    compare_element_values min_key r =
        some (compare_longs (canonical_type min_key) (canonical_type r))
    compare_element_values max_key r =
        some (compare_longs (canonical_type max_key) (canonical_type r))
    compare_element_values (boolean b) r = read (boolean_of r) (λ c. some (compare_longs b c))
    compare_element_values (timestamp t) r = read (timestamp_of r) (λ u. some (compare t u))
    compare_element_values (date d) r = read (date_of r) (λ e. some (compare_longs d e))
    compare_element_values (int32 n) r = compare_int32 n r
    compare_element_values (int64 n) r = compare_int64 n r
    compare_element_values (double d) r = compare_double d r
    compare_element_values (object_id i) r = read (object_id_of r) (λ j. some (memcmp 12 i j))
    compare_element_values (code s) r =
        read (text_of r) (λ t. some (compare_bytes (terminated s) (terminated t)))
    compare_element_values (symbol s) r =
        read (text_of r) (λ t. some (compare_bytes (terminated s) (terminated t)))
    compare_element_values (string s) r =
        read (text_of r) (λ t. some (compare_bytes (terminated s) (terminated t)))
    compare_element_values (object d) r = read (document_of r) (wo_compare_object [] true d)
    compare_element_values (array d) r = read (document_of r) (wo_compare_object [] true d)
    compare_element_values (db_ref a) r = read (db_ref_of r) (λ b. some (compare_sized a b))
    compare_element_values (bin_data t d) r =
        read (bin_data_of r) (λ b. some (compare_sized (t ∷ d) b))
    compare_element_values (regex p f) r =
        read (regex_of r) (λ (q, g). some (then_by (compare_text p q) (compare_text f g)))
    compare_element_values (code_w_scope s d) r =
        read (code_w_scope_of r)
          (λ (t, e). or_else (some (compare_bytes s t)) (wo_compare_object [] true d e))

    -- `BSONObj::woCompare`, by the directions of the sort key.
    pub wo_compare_object : List Bool → Bool → Fields → Fields → Option Ordering
    wo_compare_object key consider no_fields no_fields = some eq
    wo_compare_object key consider no_fields (field m w r) = some lt
    wo_compare_object key consider (field n v l) no_fields = some gt
    wo_compare_object key consider (field n v l) (field m w r) =
        or_else
          (directed (first_descends key)
            (wo_compare_by consider n v m w (compare_element_values v w)))
          (wo_compare_object (next_key key) consider l r)

  -- `BSONElement::woCompare`.
  unfoldable pub wo_compare : Bool → List ℕ → Value → List ℕ → Value → Option Ordering
  unfolding compare_element_values
  wo_compare consider_field_name n v m w =
      wo_compare_by consider_field_name n v m w (compare_element_values v w)

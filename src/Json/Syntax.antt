-- ===== src/Json/Syntax.antt =====
-- What the JSON parser of src/mongo/db/json.cpp appends to its `BSONObjBuilder`: the elements of
-- src/mongo/bson/bsonobjbuilder.h. A double is its 64-bit pattern, a date and an `int64_t` of it too.
use mongo_cxx_driver.Base.{ℕ, Bool, List}
use mongo_cxx_driver.Base.Int.{ℤ}

mutual
  pub data Value : Type 0 where
    double : ℕ → Value
    text : List ℕ → Value
    document : Fields → Value
    array : Fields → Value
    bin_data : ℕ → List ℕ → Value
    undefined : Value
    object_id : List ℕ → Value
    bool : Bool → Value
    date : ℕ → Value
    null : Value
    regex : List ℕ → List ℕ → Value
    int32 : ℤ → Value
    timestamp : ℕ → ℕ → Value
    int64 : ℤ → Value
    min_key : Value
    max_key : Value

  pub data Fields : Type 0 where
    no_fields : Fields
    field : List ℕ → Value → Fields → Fields

-- What was appended first, then the rest.
unfoldable pub then_fields : Fields → Fields → Fields
then_fields no_fields more = more
then_fields (field name v rest) more = field name v (then_fields rest more)

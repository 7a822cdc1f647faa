-- ===== src/Json/Result.antt =====
-- `JParse` of src/mongo/db/json.cpp as functions on the bytes that are left of the input. A failed status
-- says where the parser stood, as its message does; an exception of a callee is `thrown`. A step behind the
-- end of the input, which nothing in the code refuses, is `outside`.
use Prim.Native.String.{String}
use mongo_cxx_driver.Base.{ℕ, Bool, true, false, List, [], ltb, length, drop, if◌then◌else◌}
use mongo_cxx_driver.Number.Parse.{Reason}

abbrev pub Input : Type 0
Input = List ℕ

pub data Failure : Type 0 where
  message : String → List ℕ → Failure
  bad_number : Reason → Failure
  bad_date : Failure

pub data Result {ℓ} (A : Type ℓ) : Type ℓ where
  ok : A → Input → Result A
  failed : Failure → Input → Result A
  thrown : String → Result A
  outside out_of_fuel : Result A

abbrev pub Parser {ℓ} : Type ℓ → Type ℓ
Parser A = Input → Result A

abbrev pub pure {ℓ} : {A : Type ℓ} → A → Parser A
pure a input = ok a input

abbrev pub bind {ℓ κ} : {A : Type ℓ} {B : Type κ} → Result A → (A → Parser B) → Result B
bind (ok a rest) f = f a rest
bind (failed e rest) f = failed e rest
bind (thrown e) f = thrown e
bind outside f = outside
bind out_of_fuel f = out_of_fuel

module _ {ℓ κ} {A : Type ℓ} {B : Type κ} where
  infixl 1 ◌>>=◌ ◌>>◌
  abbrev pub ◌>>=◌ : Parser A → (A → Parser B) → Parser B
  p >>= f = λ input. bind (p input) f

  abbrev pub ◌>>◌ : Parser A → Parser B → Parser B
  p >> q = p >>= λ _. q

-- `_input = endptr`, that many bytes on.
abbrev pub move_input : ℕ → Parser (Unit {0})
move_input k input = if ltb (length input) k then outside else ok tt (drop k input)

-- `return parseError(msg)`.
abbrev pub parse_error {ℓ} : {A : Type ℓ} → String → Parser A
parse_error msg input = failed (message msg []) input

-- `if (!test) return parseError(msg + detail)`.
abbrev pub require : Bool → String → List ℕ → Parser (Unit {0})
require true msg detail input = ok tt input
require false msg detail input = failed (message msg detail) input

-- `uassert(0, msg, test)` of the builder.
abbrev pub assert : Bool → String → Parser (Unit {0})
assert true msg input = ok tt input
assert false msg input = thrown msg

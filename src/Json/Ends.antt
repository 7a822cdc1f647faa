-- ===== src/Json/Ends.antt =====
-- How a parser of src/mongo/db/json.cpp ends: where `_input` stands then.
pub mod Leaves
pub mod Scalars
pub mod Specials
pub mod Values
pub mod Total
use Prim.Native.String.{String}
use mongo_cxx_driver.Base.{
  ℕ, zero, suc, ◌+◌, Bool, true, false, List, [], ◌∷◌, length, drop, ◌≡◌, ◌≤◌, arith, if◌then◌else◌,
}
use mongo_cxx_driver.Json.Result.{
  Input, Result, Parser, Failure, ok, failed, thrown, out_of_fuel, move_input, pure, bind, require,
  assert, parse_error, ◌>>=◌, ◌>>◌,
}

-- The rest of an input is what is left of it behind some bytes.
pub data IsRest : Input → Input → Type 0 where
  all_left : (input : Input) → IsRest input input
  passed : (c : ℕ) {rest input : Input} → IsRest rest input → IsRest rest (c ∷ input)

pub drop-IsRest : (k : ℕ) (input : Input) → IsRest (drop k input) input
drop-IsRest zero input = all_left input
drop-IsRest (suc k) [] = all_left []
drop-IsRest (suc k) (c ∷ rest) = passed c (drop-IsRest k rest)

pub IsRest-trans : {a b c : Input} → IsRest a b → IsRest b c → IsRest a c
IsRest-trans h (all_left input) = h
IsRest-trans h (passed c k) = passed c (IsRest-trans h k)

pub IsRest-length : {rest input : Input} → IsRest rest input → length rest ≤ length input
IsRest-length (all_left input) = omega arith
IsRest-length (passed c h) = let shorter = IsRest-length h in omega arith

-- A result or an error stands somewhere in the input; an exception needs no place.
pub data Ends {ℓ} {A : Type ℓ} (input : Input) : Result A → Type ℓ where
  returns : {a : A} {rest : Input} → IsRest rest input → Ends input (ok a rest)
  fails : {e : Failure} {rest : Input} → IsRest rest input → Ends input (failed e rest)
  throws : {e : String} → Ends input (thrown e)

pub Ends_from {ℓ} :
    {A : Type ℓ} {rest input : Input} {r : Result A}
    → IsRest rest input
    → Ends rest r
    → Ends input r
Ends_from h (returns k) = returns (IsRest-trans k h)
Ends_from h (fails k) = fails (IsRest-trans k h)
Ends_from h throws = throws

-- A parser that ends so on every input of at most `n` bytes.
pub record Runs {ℓ} {A : Type ℓ} (n : ℕ) (p : Parser A) : Type ℓ where
  pub run : (input : Input) → length input ≤ n → Ends input (p input)

module _ {ℓ κ} {A : Type ℓ} {B : Type κ} {n : ℕ} where
  bind-Ends :
      {input : Input} {r : Result A} (q : A → Parser B)
      → Ends input r
      → length input ≤ n
      → ((a : A) → Runs n (q a))
      → Ends input (bind r q)
  bind-Ends q (returns {a} {rest} h) l k =
      Ends_from h ((k a).run rest (let shorter = IsRest-length h in omega arith))
  bind-Ends q (fails h) l k = fails h
  bind-Ends q throws l k = throws

  pub bind-Runs :
      {p : Parser A} {q : A → Parser B} → Runs n p → ((a : A) → Runs n (q a)) → Runs n (p >>= q)
  bind-Runs {p = p} {q = q} h k = record { run = λ input l. bind-Ends q (h.run input l) l k }

pub Ends_at {ℓ} :
    {A : Type ℓ} {p : Parser A} (input : Input) → Runs (length input) p → Ends input (p input)
Ends_at input h = h.run input (omega arith)

pub pure-Runs {ℓ} : {A : Type ℓ} {n : ℕ} {a : A} → Runs n (pure a)
pure-Runs = record { run = λ input l. returns (all_left input) }

pub require-Runs :
    {n : ℕ} (b : Bool) (msg : String) (detail : List ℕ) → Runs n (require b msg detail)
require-Runs true msg detail = pure-Runs
require-Runs false msg detail = record { run = λ input l. fails (all_left input) }

pub assert-Runs : {n : ℕ} (b : Bool) (msg : String) → Runs n (assert b msg)
assert-Runs true msg = pure-Runs
assert-Runs false msg = record { run = λ input l. throws }

-- Either branch.
pub if_lem {ℓ κ} :
    {A : Type ℓ} (P : A → Type κ) (b : Bool) {x y : A} → P x → P y → P (if b then x else y)
if_lem P true h k = h
if_lem P false h k = k

pub if-Ends {ℓ} :
    {A : Type ℓ} {input : Input} (b : Bool) {x y : Result A}
    → Ends input x
    → Ends input y
    → Ends input (if b then x else y)
if-Ends true h k = h
if-Ends false h k = k

pub parse_error-Runs {ℓ} : {A : Type ℓ} {n : ℕ} (msg : String) → Runs n (parse_error {A = A} msg)
parse_error-Runs msg = record { run = λ input l. fails (all_left input) }

pub move_input-inside :
    (k : ℕ) (input : Input) → k ≤ length input → move_input k input ≡ ok tt (drop k input)
move_input-inside k input h = ground arith

pub move_input-Ends : (k : ℕ) (input : Input) → k ≤ length input → Ends input (move_input k input)
move_input-Ends k input h = rw (move_input-inside k input h) (returns (drop-IsRest k input))

-- The choice of a parser by what the input starts with.
pub if-Runs {ℓ} :
    {A : Type ℓ} {n : ℕ} (b : Input → Bool) {p q : Parser A}
    → Runs n p
    → Runs n q
    → Runs n (λ input. if b input then p input else q input)
if-Runs b {p} {q} h k = record {
  run = λ input l. if-Ends (b input) (h.run input l) (k.run input l);
}

pub choose-Runs {ℓ} :
    {A : Type ℓ} {n : ℕ} (b : Bool) {p q : Parser A}
    → Runs n p
    → Runs n q
    → Runs n (if b then p else q)
choose-Runs true h k = h
choose-Runs false h k = k

-- ===== src/Bson/Validate.antt =====
-- src/mongo/bson/bson_validate.cpp, the buffer: the validator that runs over untrusted bytes before any element is read.
-- A buffer is the list of its bytes. An `int` is its 32-bit pattern, a `uint64_t` wraps at 2 ^ 64.
-- `fault` is a load at an address that the caller did not hand over.
pub mod Reads
pub mod Element
pub mod Machine
pub mod Progress
pub mod Turns
pub mod Total
mod Tests
use mongo_cxx_driver.Base.{
  ℕ, zero, suc, ◌+◌, ◌-◌, ◌*◌, ◌%◌, ◌^◌, Bool, true, false, ◌||◌, not, Option, none, some, List, [],
  ◌∷◌, get_elem?, drop, ltb, leb, ◌==◌, if◌then◌else◌,
}

abbrev pub u64_mod : ℕ
u64_mod = 2 ^ 64

abbrev pub u32_mod : ℕ
u32_mod = 2 ^ 32

abbrev pub sign_bit : ℕ
sign_bit = 2 ^ 31

-- The texts that `makeError` is called with.
pub data Message : Type 0 where
  too_short invalid_bson no_end_of_c_string not_null_terminated invalid_size invalid_type : Message
  size_larger_than_buffer length_mismatch invalid_code_w_scope_size : Message
  code_w_scope_length_mismatch unnested_code_w_scope : Message

-- `Status` with code InvalidBSON: the text, and where the `_id` element that it names begins.
pub record Error : Type 0 where
  pub message : Message
  pub id_elem : Option ℕ

pub data Outcome {ℓ} (A : Type ℓ) : Type ℓ where
  ok : A → Outcome A
  err : Error → Outcome A
  fault : Outcome A
  out_of_fuel : Outcome A

infixl 5 ◌>>=◌
abbrev pub ◌>>=◌ {ℓ κ} : {A : Type ℓ} {B : Type κ} → Outcome A → (A → Outcome B) → Outcome B
ok a >>= f = f a
err e >>= f = err e
fault >>= f = fault
out_of_fuel >>= f = out_of_fuel

-- What `makeError` is called with. Its text of an `_id` is that of `BSONElement::toString`, whose loads are not part
-- of the model.
abbrev pub make_error : Message → Option ℕ → Error
make_error m id_elem = record { message = m; id_elem = id_elem }

pub record Buffer : Type 0 where
  pub bytes : List ℕ
  pub position : ℕ
  pub max_length : ℕ
  pub id_elem : Option ℕ

abbrev pub of_load : Option ℕ → Outcome ℕ
of_load none = fault
of_load (some c) = ok c

-- `ConstDataView(buffer).readLE<char>` and `readLE<int>`.
unfoldable pub load8 : List ℕ → ℕ → Outcome ℕ
load8 bytes p = of_load (get_elem? bytes p)

unfoldable pub load32 : List ℕ → ℕ → Outcome ℕ
unfolding load8
load32 bytes p = do
  a ← load8 bytes p
  b ← load8 bytes (p + 1)
  c ← load8 bytes (p + 2)
  d ← load8 bytes (p + 3)
  ok (a + 256 * b + 65536 * c + 16777216 * d)

-- `readNumber<char>` and `readNumber<int>`: no value, and no move, if the number does not fit.
unfoldable pub read_char : Buffer → Outcome (Option (ℕ × Buffer))
read_char b =
    let n = (b.position + 1) % u64_mod in
    if ltb b.max_length n
    then ok none
    else (do c ← load8 b.bytes b.position; ok (some (c, record b { position = n })))

unfoldable pub read_int : Buffer → Outcome (Option (ℕ × Buffer))
read_int b =
    let n = (b.position + 4) % u64_mod in
    if ltb b.max_length n
    then ok none
    else (do c ← load32 b.bytes b.position; ok (some (c, record b { position = n })))

-- `if (!readNumber(..)) return makeError(..)`.
abbrev pub required {ℓ} : {A : Type ℓ} → Outcome (Option A) → Error → Outcome A
required (ok none) e = err e
required (ok (some a)) e = ok a
required (err x) e = err x
required fault e = fault
required out_of_fuel e = out_of_fuel

-- `memchr(p, 0, n)`: the index of the first zero among `n` bytes.
unfoldable pub memchr : List ℕ → ℕ → Outcome (Option ℕ)
memchr bytes zero = ok none
memchr [] (suc n) = fault
memchr (c ∷ bytes) (suc n) =
    let rest = (do r ← memchr bytes n; elim r [ none ↦ ok none | some k ↦ ok (some (suc k)) ]) in
    if c == 0 then ok (some 0) else rest

unfoldable pub read_c_string : Buffer → Outcome Buffer
read_c_string b = do
  len ←
      required (memchr (drop b.position b.bytes) ((b.max_length + u64_mod - b.position) % u64_mod))
        (make_error no_end_of_c_string b.id_elem)
  ok (record b { position = (b.position + (len + 1)) % u64_mod })

unfoldable pub skip : ℕ → Buffer → Buffer × Bool
skip sz b = let p = (b.position + sz) % u64_mod in (record b { position = p }, ltb p b.max_length)

-- `if (!skip(sz)) return makeError(..)`.
unfoldable pub skip_or : ℕ → Error → Buffer → Outcome Buffer
unfolding skip
skip_or sz e b = let (b', fits) = skip sz b in if fits then ok b' else err e

abbrev pub guard : Bool → Error → Outcome (Unit {0})
guard true e = ok tt
guard false e = err e

infixl 5 ◌>>◌
abbrev pub ◌>>◌ {ℓ} : {B : Type ℓ} → Outcome (Unit {0}) → Outcome B → Outcome B
m >> k = m >>= λ _. k

-- `sz <= 0` on the pattern of a signed `int`.
abbrev pub not_positive : ℕ → Bool
not_positive sz = sz == 0 || leb sign_bit sz

unfoldable pub read_utf8_string : Buffer → Outcome Buffer
read_utf8_string b = do
  (sz, b1) ← required (read_int b) (make_error invalid_bson b.id_elem)
  guard (not (not_positive sz)) (make_error invalid_bson b.id_elem)
  b2 ← skip_or (sz - 1) (make_error invalid_bson b.id_elem) b1
  (c, b3) ← required (read_char b2) (make_error invalid_bson b.id_elem)
  guard (c == 0) (make_error not_null_terminated b.id_elem)
  ok b3

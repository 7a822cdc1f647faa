-- ===== src/Net/HostAndPort.antt =====
-- src/mongo/util/net/hostandport.cpp: parsing, printing and comparing addresses.
pub mod Order
pub mod Named
pub mod Print
mod Tests
use Prim.Native.Nat.{compare, Ordering, lt, eq, gt}
use mongo_cxx_driver.Base.{
  ℕ, zero, suc, ◌+◌, ◌-◌, ◌*◌, ◌/◌, ◌%◌, ◌^◌, Bool, true, false, not, ◌&&◌, ◌||◌, List, [], ◌∷◌,
  ◌++◌, ltb, leb, ◌==◌, take, drop, if◌then◌else◌,
}
use mongo_cxx_driver.Base.Int.{ℤ, pos, negsuc, ltb_ℤ}
use mongo_cxx_driver.Number.Parse
use mongo_cxx_driver.Number.Parse.{Parsed, Reason, parse_number, int_limits}

-- `_port` is negative where no port was given.
pub record HostAndPort : Type 0 where
  pub host : List ℕ
  pub port_field : ℤ

abbrev pub no_host : HostAndPort
no_host = record { host = []; port_field = negsuc 0 }

-- `client::Options::kDbServer`.
abbrev pub default_port : ℕ
default_port = 27017

abbrev pub non_negative : ℤ → Bool
non_negative (pos n) = true
non_negative (negsuc n) = false

unfoldable pub port : HostAndPort → ℤ
port h = if non_negative h.port_field then h.port_field else pos default_port

unfoldable pub is_empty : HostAndPort → Bool
is_empty h = Parse.is_empty h.host && not (non_negative h.port_field)

-- `std::string::compare`, by unsigned bytes.
unfoldable pub compare_text : List ℕ → List ℕ → Ordering
compare_text [] [] = eq
compare_text [] (b ∷ bs) = lt
compare_text (a ∷ as') [] = gt
compare_text (a ∷ as') (b ∷ bs) =
    let rest = compare_text as' bs in elim (compare a b) [ lt ↦ lt | eq ↦ rest | gt ↦ gt ]

abbrev pub lt_by : List ℕ → ℤ → List ℕ → ℤ → Bool
lt_by h p k q = elim (compare_text h k) [ lt ↦ true | eq ↦ ltb_ℤ p q | gt ↦ false ]

-- `operator<`.
unfoldable pub host_lt : HostAndPort → HostAndPort → Bool
host_lt a b = lt_by a.host (port a) b.host (port b)

unfoldable pub text_eq : List ℕ → List ℕ → Bool
text_eq [] [] = true
text_eq [] (b ∷ bs) = false
text_eq (a ∷ as') [] = false
text_eq (a ∷ as') (b ∷ bs) = a == b && text_eq as' bs

unfoldable pub int_eq : ℤ → ℤ → Bool
int_eq (pos a) (pos b) = a == b
int_eq (negsuc a) (negsuc b) = a == b
int_eq _ _ = false

-- `operator==`.
unfoldable pub host_eq : HostAndPort → HostAndPort → Bool
host_eq a b = text_eq a.host b.host && int_eq (port a) (port b)

-- `size_t` positions, with the value that means "not found".
abbrev pub npos : ℕ
npos = 2 ^ 64 - 1

unfoldable pub find_from : ℕ → List ℕ → ℕ → ℕ
find_from c [] i = npos
find_from c (x ∷ xs) i = let rest = find_from c xs (i + 1) in if x == c then i else rest

unfoldable pub find : List ℕ → ℕ → ℕ
unfolding find_from
find s c = find_from c s 0

unfoldable pub rfind_from : ℕ → List ℕ → ℕ → ℕ → ℕ
rfind_from c [] i last = last
rfind_from c (x ∷ xs) i last = rfind_from c xs (i + 1) (if x == c then i else last)

unfoldable pub rfind : List ℕ → ℕ → ℕ
unfolding rfind_from
rfind s c = rfind_from c s 0 npos

pub data Failure : Type 0 where
  bracket_not_first missing_close_bracket extraneous_characters close_without_open : Failure
  more_than_one_colon empty_host port_out_of_range : Failure
  bad_port : Reason → Failure

pub data Result {ℓ} (A : Type ℓ) : Type ℓ where
  ok : A → Result A
  err : Failure → Result A

infixl 5 ◌>>=◌
abbrev pub ◌>>=◌ {ℓ κ} : {A : Type ℓ} {B : Type κ} → Result A → (A → Result B) → Result B
ok a >>= f = f a
err e >>= f = err e

-- The host part, and where the colon before the port is.
unfoldable pub split_host : List ℕ → Result (List ℕ × ℕ)
split_host s =
    let colon_pos = rfind s b':' in
    let open_pos = find s b'[' in
    let close_pos = find s b']' in
    if not (open_pos == npos)
    then (if not (open_pos == 0)
        then err bracket_not_first
        else if close_pos == npos
        then err missing_close_bracket
        else (let host_part = take (close_pos - open_pos - 1) (drop (open_pos + 1) s) in
            if ltb colon_pos close_pos
            then ok (host_part, npos)
            else if not (colon_pos == close_pos + 1)
            then err extraneous_characters
            else ok (host_part, colon_pos)))
    else if not (close_pos == npos)
    then err close_without_open
    else if not (find s b':' == colon_pos)
    then err more_than_one_colon
    else ok (take colon_pos s, colon_pos)

abbrev pub positive : ℤ → Bool
positive (pos n) = ltb 0 n
positive (negsuc n) = false

abbrev pub checked_port : Parsed ℤ → Result ℤ
checked_port (Parse.ok p) = if positive p then ok p else err port_out_of_range
checked_port (Parse.err e) = err (bad_port e)

unfoldable pub parse_port : List ℕ → ℕ → Result ℤ
parse_port s colon_pos =
    if not (colon_pos == npos)
    then checked_port (parse_number int_limits (drop (colon_pos + 1) s) (pos 10))
    else ok (negsuc 0)

-- From the test for an empty host on.
unfoldable pub address_of : List ℕ → List ℕ × ℕ → Result HostAndPort
address_of s (host_part, colon_pos) =
    if Parse.is_empty host_part
    then err empty_host
    else do p ← parse_port s colon_pos; ok (record { host = host_part; port_field = p })

-- `HostAndPort::initialize`.
unfoldable pub initialize : List ℕ → Result HostAndPort
initialize s = do parts ← split_host s; address_of s parts

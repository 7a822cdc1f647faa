-- ===== src/Client/ConnectionString.antt =====
-- `ConnectionString` of src/mongo/client/dbclientinterface.h and src/mongo/client/dbclient.cpp: its constructors
-- and `parseDeprecated`. The user, the password, the database and the options, which only a URL has, are left out.
pub mod RoundTrip
mod Tests
use mongo_cxx_driver.Base.{
  ℕ, zero, suc, ◌+◌, Bool, true, false, not, ◌&&◌, ◌||◌, Option, none, some, List, [], ◌∷◌, ◌++◌,
  ◌==◌, ltb, length, take, drop, map, bytes, if◌then◌else◌,
}
use mongo_cxx_driver.Net.HostAndPort.{
  HostAndPort, Result, ok, err, Failure, find, npos, initialize, host_eq, text_eq,
}
use mongo_cxx_driver.Net.HostAndPort.Print.{to_string}
use mongo_cxx_driver.Util.StringUtils.{pieces_of, join_string_delim}

pub data ConnectionType : Type 0 where
  invalid master pair set custom : ConnectionType

pub record ConnectionString : Type 0 where
  pub kind : ConnectionType
  pub servers : List HostAndPort
  pub set_name : List ℕ
  pub text : List ℕ

-- `ConnectionString()`.
abbrev pub invalid_string : ConnectionString
invalid_string = record { kind = invalid; servers = []; set_name = []; text = [] }

-- What a constructor ends with: the value, an address that does not parse, or a `verify` that fails.
pub data Made {ℓ} (A : Type ℓ) : Type ℓ where
  made : A → Made A
  bad_address : Failure → Made A
  not_verified : Made A

infixl 5 ◌>>=◌
abbrev pub ◌>>=◌ {ℓ κ} : {A : Type ℓ} {B : Type κ} → Made A → (A → Made B) → Made B
made a >>= f = f a
bad_address e >>= f = bad_address e
not_verified >>= f = not_verified

-- `HostAndPort(text)`.
abbrev pub from_result {ℓ} : {A : Type ℓ} → Result A → Made A
from_result (ok a) = made a
from_result (err e) = bad_address e

abbrev pub is_custom : ConnectionType → Bool
is_custom custom = true
is_custom k = false

abbrev pub is_invalid : ConnectionType → Bool
is_invalid invalid = true
is_invalid k = false

abbrev pub is_set : ConnectionType → Bool
is_set set = true
is_set k = false

abbrev pub is_master : ConnectionType → Bool
is_master master = true
is_master k = false

-- The type and the set's name that `_fillServers` finds, and the text that is left for the servers.
abbrev pub Front : Type 0
Front = ConnectionType × List ℕ × List ℕ

unfoldable pub set_front : ConnectionType → List ℕ → List ℕ → Front
unfolding find
set_front kind set_name s =
    let idx = find s b'/' in
    if not (idx == npos) && not (idx == 0)
    then (if is_custom kind then custom else set, take idx s, drop (idx + 1) s)
    else (kind, set_name, s)

unfoldable pub front_of : Bool → ConnectionType → List ℕ → List ℕ → Front
unfolding set_front
front_of legacy kind set_name s =
    let kind' = if find s b'$' == 0 then custom else kind in
    if legacy then set_front kind' set_name s else (kind', set_name, s)

-- The addresses between the commas.
unfoldable pub read_servers : List (List ℕ) → Made (List HostAndPort)
read_servers [] = made []
read_servers (s ∷ rest) =
    from_result (initialize s) >>= λ h. read_servers rest >>= λ hs. made (h ∷ hs)

-- `_fillServers`.
unfoldable pub fill_servers : Bool → ConnectionType → List ℕ → List ℕ → Made ConnectionString
unfolding front_of read_servers
fill_servers legacy kind set_name s =
    let (kind', name, rest) = front_of legacy kind set_name s in
    read_servers (pieces_of b',' rest) >>= λ hs.
    made (record { kind = kind'; servers = hs; set_name = name; text = [] })

abbrev pub first_is_custom : List HostAndPort → Bool
first_is_custom [] = false
first_is_custom (h ∷ hs) = find h.host b'$' == 0

-- `_finishInit`.
unfoldable pub finish_init : ConnectionString → ConnectionString
unfolding join_string_delim find
finish_init c =
    let kind' = if is_master c.kind && first_is_custom c.servers then custom else c.kind in
    let addresses = join_string_delim (map to_string c.servers) b',' in
    record c {
      kind = kind';
      text = if is_set kind' then c.set_name ++ b'/' ∷ addresses else addresses;
    }

-- The `switch` of the constructors, which verifies by type.
abbrev pub is_verified : ConnectionType → ConnectionString → Bool
is_verified master c = length c.servers == 1
is_verified set c = ltb 0 (length c.set_name) && ltb 0 (length c.servers)
is_verified pair c = length c.servers == 2
is_verified k c = ltb 0 (length c.servers)

-- `ConnectionString(server)`, and `ConnectionString(type, s, setName)`.
unfoldable pub of_server : HostAndPort → ConnectionString
unfolding finish_init
of_server h = finish_init record { kind = master; servers = h ∷ []; set_name = []; text = [] }

unfoldable pub of_type : ConnectionType → List ℕ → List ℕ → Made ConnectionString
unfolding fill_servers finish_init
of_type kind s set_name = fill_servers true kind set_name s >>= λ c.
    if is_verified c.kind c then made (finish_init c) else not_verified

-- `ConnectionString(s, favoredMultipleType)`.
abbrev pub favored : ConnectionType → ConnectionString → Made ConnectionString
favored kind c =
    if not (is_invalid c.kind)
    then made c
    else if length c.servers == 1
    then made (record c { kind = master })
    else if is_set kind
    then made (record c { kind = kind })
    else not_verified

unfoldable pub of_favored : List ℕ → ConnectionType → Made ConnectionString
unfolding fill_servers finish_init
of_favored s kind =
    fill_servers true invalid [] s >>= λ c. favored kind c >>= λ d. made (finish_init d)

-- `str::count`.
unfoldable pub count_byte : ℕ → List ℕ → ℕ
count_byte c [] = 0
count_byte c (x ∷ xs) = (if x == c then 1 else 0) + count_byte c xs

-- `parseDeprecated`, of a text with fewer than 2 ^ 31 commas. The message of an invalid string is not kept.
unfoldable pub parse_deprecated : List ℕ → Made ConnectionString
unfolding of_type of_server count_byte find
parse_deprecated address =
    let i = find address b'/' in
    let commas = count_byte b',' address in
    if not (i == npos) && not (i == 0)
    then of_type set (drop (i + 1) address) (take i address)
    else if commas == 0
    then (from_result (initialize address) >>= λ h. made (of_server h))
    else if commas == 1
    then of_type pair address []
    else made invalid_string

-- `sameLogicalEndpoint`; `none` is a read behind the end of `_servers`.
abbrev pub same_pair : List HostAndPort → List HostAndPort → Option Bool
same_pair (a ∷ b ∷ as') (c ∷ d ∷ ds) =
    some (if host_eq a c then host_eq b d else (host_eq a d && host_eq b c))
same_pair x y = none

abbrev pub same_first : List HostAndPort → List HostAndPort → Option Bool
same_first (a ∷ as') (c ∷ cs) = some (host_eq a c)
same_first x y = none

abbrev pub same_as :
    ConnectionType → ConnectionType → ConnectionString → ConnectionString → Option Bool
same_as invalid invalid a b = some true
same_as master master a b = same_first a.servers b.servers
same_as pair pair a b = same_pair a.servers b.servers
same_as set set a b = some (text_eq a.set_name b.set_name)
same_as custom custom a b = some (text_eq a.text b.text)
same_as k k' a b = some false

unfoldable pub same_logical_endpoint : ConnectionString → ConnectionString → Option Bool
same_logical_endpoint a b = same_as a.kind b.kind a b

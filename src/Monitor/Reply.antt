-- ===== src/Monitor/Reply.antt =====
-- `IsMasterReply` of src/mongo/client/replica_set_monitor_internal.h, and its `parse`.
pub mod WellFormed
mod Tests
use mongo_cxx_driver.Base.{
  ℕ, Bool, true, false, not, ◌&&◌, Option, none, some, List, [], ◌∷◌, ◌++◌, ltb, if◌then◌else◌,
}
use mongo_cxx_driver.Base.Int.{ℤ, pos, negsuc}
use mongo_cxx_driver.Number.Parse
use mongo_cxx_driver.Net.HostAndPort
use mongo_cxx_driver.Net.HostAndPort.{HostAndPort, no_host, initialize}
use mongo_cxx_driver.Monitor.Hosts.{set_insert}

-- A tag is a name and a value, both as bytes; two values are the same if their bytes are.
abbrev pub Tags : Type 0
Tags = List (List ℕ × List ℕ)

-- The fields of the isMaster reply, as the accessors of `BSONObj` read them: a flag by `trueValue`,
-- a text by `str` (empty if it is no string), an array by `getObjectField` (empty if it is none).
-- An element of an array that is no string is `none`; `String()` throws on it.
pub record Document : Type 0 where
  pub ok : Bool
  pub set_name : List ℕ
  pub hidden : Bool
  pub secondary : Bool
  pub is_master : Bool
  pub primary : List ℕ
  pub hosts : List (Option (List ℕ))
  pub passives : List (Option (List ℕ))
  pub tags : Tags

-- `host` and `latency_micros` are not part of the reply; the caller knows them.
pub record IsMasterReply : Type 0 where
  pub ok : Bool
  pub set_name : List ℕ
  pub is_master : Bool
  pub secondary : Bool
  pub hidden : Bool
  pub primary : HostAndPort
  pub normal_hosts : List HostAndPort
  pub tags : Tags
  pub host : HostAndPort
  pub latency_micros : ℤ

-- `HostAndPort(text)` and `host.String()` throw; `none` is the exception.
unfoldable pub to_host : List ℕ → Option HostAndPort
to_host text = elim (initialize text) [ HostAndPort.ok h ↦ some h | HostAndPort.err e ↦ none ]

unfoldable pub add_hosts : List (Option (List ℕ)) → List HostAndPort → Option (List HostAndPort)
add_hosts [] hosts = some hosts
add_hosts (none ∷ rest) hosts = none
add_hosts (some text ∷ rest) hosts = elim (to_host text) [
  | none ↦ none
  | some h ↦ add_hosts rest (set_insert h hosts)
]

unfoldable pub primary_of : List ℕ → Option HostAndPort
primary_of text = if Parse.is_empty text then some no_host else to_host text

infixl 5 ◌>>=◌
abbrev pub ◌>>=◌ {ℓ κ} : {A : Type ℓ} {B : Type κ} → Option A → (A → Option B) → Option B
none >>= f = none
some a >>= f = f a

abbrev pub reply_of : HostAndPort → ℤ → Document → HostAndPort → List HostAndPort → IsMasterReply
reply_of from latency d primary normal_hosts = record {
  ok = true;
  set_name = d.set_name;
  is_master = not d.hidden && d.is_master;
  secondary = d.secondary;
  hidden = d.hidden;
  primary = primary;
  normal_hosts = normal_hosts;
  tags = d.tags;
  host = from;
  latency_micros = latency;
}

-- The body of the `try` block, past the test of `ok`.
unfoldable pub parse_fields : HostAndPort → ℤ → Document → Option IsMasterReply
parse_fields from latency d = do
  primary ← primary_of d.primary
  hosts ← add_hosts d.hosts []
  all ← add_hosts d.passives hosts
  some (reply_of from latency d primary all)

-- `IsMasterReply(host, latencyMicros, reply)` with its `parse`, which catches every exception. `none` is an
-- object whose `ok` is false: its fields other than `host` and `latencyMicros` were not initialised, or
-- hold what was read before an exception, and no code reads them.
unfoldable pub parse : HostAndPort → ℤ → Document → Option IsMasterReply
unfolding parse_fields
parse from latency d = let fields = parse_fields from latency d in if d.ok then fields else none

-- ===== src/Monitor/Nodes.antt =====
-- `Node` and the sorted vector of nodes of `SetState`, src/mongo/client/replica_set_monitor.cpp.
pub mod Laws
mod Tests
use mongo_cxx_driver.Base.{
  ℕ, zero, suc, ◌+◌, ◌-◌, ◌/◌, ◌^◌, Bool, true, false, not, ◌&&◌, ◌||◌, Option, none, some, List,
  [], ◌∷◌, map, if◌then◌else◌,
}
use mongo_cxx_driver.Base.Int.{ℤ, pos, negsuc, sub_ℕ, ◌+ℤ◌, ◌-ℤ◌}
use mongo_cxx_driver.Net.HostAndPort.{HostAndPort, host_lt, host_eq, int_eq, text_eq}
use mongo_cxx_driver.Monitor.Reply.{IsMasterReply, Tags}

-- `Node::unknownLatency`, the largest `int64_t`.
abbrev pub unknown_latency : ℤ
unknown_latency = pos (2 ^ 63 - 1)

pub record Node : Type 0 where
  pub host : HostAndPort
  pub is_up : Bool
  pub is_master : Bool
  pub latency_micros : ℤ
  pub tags : Tags

-- `Node::markFailed`.
unfoldable pub mark_failed : Node → Node
mark_failed n = record n { is_up = false; is_master = false }

-- `Node(host)`.
unfoldable pub new_node : HostAndPort → Node
new_node h = record {
  host = h;
  is_up = false;
  is_master = false;
  latency_micros = unknown_latency;
  tags = [];
}

pub data ReadPreference : Type 0 where
  primary_only primary_preferred secondary_only secondary_preferred nearest : ReadPreference

-- `Node::matches(pref)`.
unfoldable pub matches_pref : ReadPreference → Node → Bool
matches_pref primary_only n = n.is_up && n.is_master
matches_pref secondary_only n = n.is_up && not n.is_master
matches_pref _ n = n.is_up

abbrev pub tag_value : List ℕ → Tags → Option (List ℕ)
tag_value name [] = none
tag_value name ((k, v) ∷ tags) = if text_eq k name then some v else tag_value name tags

abbrev pub same_tag : Option (List ℕ) → List ℕ → Bool
same_tag none v = false
same_tag (some w) v = text_eq w v

-- `Node::matches(tag)`: the node has every criterion of the tag.
unfoldable pub matches_tag : Tags → Node → Bool
matches_tag [] n = true
matches_tag ((name, v) ∷ rest) n = same_tag (tag_value name n.tags) v && matches_tag rest n

abbrev pub non_negative : ℤ → Bool
non_negative (pos n) = true
non_negative (negsuc n) = false

-- C++ division by four, towards zero.
unfoldable pub quarter : ℤ → ℤ
quarter (pos n) = pos (n / 4)
quarter (negsuc n) = sub_ℕ 0 (suc n / 4)

-- The latency after a reply that took `sample`: a moving average by a quarter of the difference.
unfoldable pub smoothed : ℤ → ℤ → ℤ
unfolding quarter ◌+ℤ◌ ◌-ℤ◌
smoothed old sample =
    if not (non_negative sample)
    then old
    else if int_eq old unknown_latency
    then sample
    else old +ℤ quarter (sample -ℤ old)

-- `Node::update`.
unfoldable pub update : IsMasterReply → Node → Node
update r n = record n {
  is_up = not r.hidden && (r.is_master || r.secondary);
  is_master = r.is_master;
  tags = r.tags;
  latency_micros = smoothed n.latency_micros r.latency_micros;
}

abbrev pub hosts_of : List Node → List HostAndPort
hosts_of = map λ n. n.host

-- `findNode`: the first node not below the host, if it has that host.
unfoldable pub find_node : HostAndPort → List Node → Option Node
find_node h [] = none
find_node h (n ∷ ns) =
    if host_lt n.host h then find_node h ns else if host_eq n.host h then some n else none

-- A change made through the pointer that `findNode` returns; nothing if it returns NULL.
unfoldable pub modify_node : (Node → Node) → HostAndPort → List Node → List Node
modify_node f h [] = []
modify_node f h (n ∷ ns) =
    if host_lt n.host h
    then n ∷ modify_node f h ns
    else if host_eq n.host h
    then f n ∷ ns
    else n ∷ ns

-- `findOrCreateNode`: a missing node goes where the order wants it.
unfoldable pub find_or_create_node : HostAndPort → List Node → List Node
find_or_create_node h [] = new_node h ∷ []
find_or_create_node h (n ∷ ns) =
    if host_lt n.host h
    then n ∷ find_or_create_node h ns
    else if host_eq n.host h
    then n ∷ ns
    else new_node h ∷ n ∷ ns

-- `updateNodeIfInNodes`.
unfoldable pub update_node_if_in_nodes : IsMasterReply → List Node → List Node
update_node_if_in_nodes r ns = modify_node (update r) r.host ns

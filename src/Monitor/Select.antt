-- ===== src/Monitor/Select.antt =====
-- `SetState::getMatchingHost` of src/mongo/client/replica_set_monitor.cpp. `std::sort` is a parameter, and
-- so are `useDeterministicHostSelection` and `latencyThresholdMicros`.
pub mod Sound
pub mod Selected
pub mod Offered
mod Tests
use mongo_cxx_driver.Base.{
  ℕ, zero, suc, ◌+◌, ◌%◌, ◌^◌, Bool, true, false, ◌&&◌, not, Option, none, some, List, [], ◌∷◌,
  length, get_elem?, if◌then◌else◌,
}
use mongo_cxx_driver.Base.Int.{ℤ, pos, negsuc, ltb_ℤ, ◌-ℤ◌}
use mongo_cxx_driver.Random.{PseudoRandom, next_int32_below}
use mongo_cxx_driver.Net.HostAndPort
use mongo_cxx_driver.Net.HostAndPort.{HostAndPort, no_host}
use mongo_cxx_driver.Monitor.Reply.{Tags}
use mongo_cxx_driver.Monitor.Nodes.{
  Node, ReadPreference, primary_only, primary_preferred, secondary_only, secondary_preferred,
  nearest, matches_pref, matches_tag,
}

-- The mutable fields that the choice of a host uses.
pub record Draw : Type 0 where
  pub rand : PseudoRandom
  pub round_robin : ℕ

-- The host returned, with the fields afterwards; assertion 16358; or an index outside the vector.
pub data Choice : Type 0 where
  chosen : HostAndPort → Draw → Choice
  bad_tags : Choice
  fault : Choice

abbrev pub suits : ReadPreference → Tags → Node → Bool
suits pref tag n = matches_pref pref n && matches_tag tag n

-- The nodes that match the preference and the tag.
unfoldable pub matching_nodes : ReadPreference → Tags → List Node → List Node
matching_nodes pref tag [] = []
matching_nodes pref tag (n ∷ ns) =
    let rest = matching_nodes pref tag ns in if suits pref tag n then n ∷ rest else rest

-- The nodes up to the first whose distance from the closest reaches the threshold.
unfoldable pub near : ℤ → ℤ → List Node → List Node
near closest threshold [] = []
near closest threshold (n ∷ ns) =
    let rest = near closest threshold ns in
    if ltb_ℤ (n.latency_micros -ℤ closest) threshold then n ∷ rest else []

unfoldable pub drop_far : ℤ → List Node → List Node
drop_far threshold [] = []
drop_far threshold (n ∷ ns) = n ∷ near n.latency_micros threshold ns

abbrev pub host_of : Option Node → Draw → Choice
host_of none d = fault
host_of (some n) d = chosen n.host d

-- `matchingNodes[i]`.
abbrev pub host_at : List Node → ℤ → Draw → Choice
host_at ns (negsuc i) d = fault
host_at ns (pos i) d = host_of (get_elem? ns i) d

-- "of the remaining nodes, pick one at random (or use round-robin)".
unfoldable pub pick : Bool → List Node → Draw → Choice
pick deterministic ns d =
    let (r, i) = next_int32_below (length ns) d.rand in
    if deterministic
    then host_at ns (pos (d.round_robin % length ns)) (record d { round_robin = d.round_robin + 1 })
    else host_at ns i (record d { rand = r })

unfoldable pub primary_host : List Node → HostAndPort
primary_host [] = no_host
primary_host (n ∷ ns) = let rest = primary_host ns in if n.is_master then n.host else rest

-- `if (!out.empty()) return out;`, and otherwise the second choice.
abbrev pub or_else : Choice → (Draw → Choice) → Choice
or_else (chosen h d) second = if HostAndPort.is_empty h then second d else chosen h d
or_else bad_tags second = bad_tags
or_else fault second = fault

module _ (sort : List Node → List Node) (deterministic : Bool) (threshold : ℤ) where
  -- One turn of the loop over the tags; `rest` are the turns after it.
  unfoldable pub among : List Node → Choice → Draw → Choice
  among [] rest d = rest
  among (n ∷ []) rest d = chosen n.host d
  among (n ∷ m ∷ ns) rest d = pick deterministic (drop_far threshold (sort (n ∷ m ∷ ns))) d

  -- The loop over the tags; an element that is no object is `none`.
  unfoldable pub by_tags : ReadPreference → List (Option Tags) → List Node → Draw → Choice
  by_tags pref [] ns d = chosen no_host d
  by_tags pref (none ∷ tags) ns d = bad_tags
  by_tags pref (some tag ∷ tags) ns d =
      among (matching_nodes pref tag ns) (by_tags pref tags ns d) d

  -- `getMatchingHost(criteria)`.
  unfoldable pub get_matching_host : ReadPreference → List (Option Tags) → List Node → Draw → Choice
  get_matching_host primary_only tags ns d = chosen (primary_host ns) d
  get_matching_host primary_preferred tags ns d =
      or_else (chosen (primary_host ns) d) (by_tags secondary_only tags ns)
  get_matching_host secondary_only tags ns d = by_tags secondary_only tags ns d
  get_matching_host secondary_preferred tags ns d =
      or_else (by_tags secondary_only tags ns d) λ d'. chosen (primary_host ns) d'
  get_matching_host nearest tags ns d = by_tags nearest tags ns d

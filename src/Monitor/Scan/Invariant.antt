-- ===== src/Monitor/Scan/Invariant.antt =====
-- The invariant of a monitored set: what `checkInvariants` tests, and what makes it hold.
use mongo_cxx_driver.Base.{ℕ, ◌+◌, ◌≤◌, ◌≡◌, true, false, not, ◌||◌, Option, none, some, List}
use mongo_cxx_driver.Number.Parse
use mongo_cxx_driver.Net.HostAndPort.{HostAndPort}
use mongo_cxx_driver.Monitor.Hosts.{count, IsSorted}
use mongo_cxx_driver.Monitor.Reply.{IsMasterReply}
use mongo_cxx_driver.Monitor.Reply.WellFormed.{NoUnnamed}
use mongo_cxx_driver.Monitor.Nodes.{Node, hosts_of}
use mongo_cxx_driver.Monitor.Nodes.Laws.{All, IsConsistent, IsUsable}
use mongo_cxx_driver.Monitor.Scan.{ScanState, SetState}

-- The nodes are sorted and consistent, and cover the seeds.
pub record NodesInv (last_seen : HostAndPort) (seeds : List HostAndPort) (nodes : List Node)
    : Type 0 where
  pub sorted : IsSorted (hosts_of nodes)
  pub consistent : All (IsConsistent last_seen) nodes
  pub members : (h : HostAndPort) → count h seeds ≤ count h (hosts_of nodes)

-- A reply that waits for a master's confirmation is no master's own.
pub record IsPending (r : IsMasterReply) : Type 0 where
  pub usable : IsUsable r
  pub no_master : r.is_master ≡ false

pub record ScanInv (scan : ScanState) : Type 0 where
  pub once : (h : HostAndPort) → count h scan.hosts_to_scan + count h scan.tried_hosts ≤ 1
  pub waiting : (h : HostAndPort) → count h scan.waiting_for ≤ count h scan.tried_hosts
  pub possible : (h : HostAndPort) → count h scan.possible_nodes ≤ 1
  pub queue_named : NoUnnamed scan.hosts_to_scan
  pub tried_named : NoUnnamed scan.tried_hosts
  pub possible_named : NoUnnamed scan.possible_nodes
  pub pending : All IsPending scan.unconfirmed_replies
  pub settled : (not scan.found_up_master || Parse.is_empty scan.unconfirmed_replies) ≡ true

abbrev pub CurrentInv : Option (ℕ × ScanState) → Type 0
CurrentInv none = Unit
CurrentInv (some (id, scan)) = ScanInv scan

pub record SetInv (s : SetState) : Type 0 where
  pub nodes : NodesInv s.last_seen_master s.seed_nodes s.nodes
  pub current : CurrentInv s.current_scan

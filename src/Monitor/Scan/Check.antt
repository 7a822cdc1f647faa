-- ===== src/Monitor/Scan/Check.antt =====
-- `SetState::checkInvariants` of src/mongo/client/replica_set_monitor.cpp: false where an `invariant`
-- of the code would abort.
use mongo_cxx_driver.Base.{ℕ, Bool, true, false, not, ◌&&◌, ◌||◌, Option, none, some, List, [], ◌∷◌}
use mongo_cxx_driver.Number.Parse
use mongo_cxx_driver.Net.HostAndPort
use mongo_cxx_driver.Net.HostAndPort.{HostAndPort, host_eq, host_lt}
use mongo_cxx_driver.Monitor.Hosts.{contains, set_insert, includes}
use mongo_cxx_driver.Monitor.Nodes.{Node, hosts_of, non_negative}
use mongo_cxx_driver.Monitor.Scan.{ScanState, SetState}

-- The test that a node is above the one before it.
abbrev pub ordered : Option HostAndPort → HostAndPort → Bool
ordered none h = true
ordered (some p) h = host_lt p h

-- The body of the loop over `nodes`; `found_master` and the previous host are its state.
unfoldable pub check_node : HostAndPort → Bool → Option HostAndPort → Node → Bool
check_node last_seen found_master prev n =
    not (HostAndPort.is_empty n.host)
    && ((not n.is_master || (n.is_up && (not found_master && host_eq n.host last_seen)))
        && (non_negative n.latency_micros && ordered prev n.host))

unfoldable pub check_nodes : HostAndPort → Bool → Option HostAndPort → List Node → Bool
check_nodes last_seen found_master prev [] = true
check_nodes last_seen found_master prev (n ∷ ns) =
    check_node last_seen found_master prev n
    && check_nodes last_seen (found_master || n.is_master) (some n.host) ns

-- "hostsToScan can't have dups or hosts already in triedHosts".
unfoldable pub check_queue : List HostAndPort → List HostAndPort → Bool
check_queue cant_see [] = true
check_queue cant_see (h ∷ hs) = not (contains h cant_see) && check_queue (set_insert h cant_see) hs

unfoldable pub check_scan : ScanState → Bool
unfolding check_queue
check_scan scan =
    check_queue scan.tried_hosts scan.hosts_to_scan
    && (includes scan.tried_hosts scan.waiting_for
        && (not scan.found_up_master || Parse.is_empty scan.unconfirmed_replies))

abbrev pub check_current : Option (ℕ × ScanState) → Bool
check_current none = true
check_current (some (id, scan)) = check_scan scan

unfoldable pub check_invariants : SetState → Bool
unfolding check_nodes
check_invariants s =
    check_nodes s.last_seen_master false none s.nodes
    && (includes (hosts_of s.nodes) s.seed_nodes && check_current s.current_scan)

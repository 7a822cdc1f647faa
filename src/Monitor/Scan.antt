-- ===== src/Monitor/Scan.antt =====
-- `ScanState` and `SetState` of src/mongo/client/replica_set_monitor.cpp, and the parts of `Refresher`
-- that draw no random order. A scan is told from the next by a number, where the code compares pointers.
pub mod Refresher
pub mod Check
pub mod Invariant
pub mod Members
pub mod Enqueue
pub mod Queue
pub mod Start
pub mod Master
pub mod Received
pub mod Runs
mod Tests
pub mod Sound
use mongo_cxx_driver.Base.{
  ℕ, zero, suc, ◌+◌, Bool, true, false, not, ◌&&◌, ◌||◌, Option, none, some, List, [], ◌∷◌, ◌++◌,
  ◌==◌, if◌then◌else◌,
}
use mongo_cxx_driver.Base.Int.{ℤ}
use mongo_cxx_driver.Random.{PseudoRandom}
use mongo_cxx_driver.Number.Parse
use mongo_cxx_driver.Net.HostAndPort
use mongo_cxx_driver.Net.HostAndPort.{HostAndPort, no_host, text_eq}
use mongo_cxx_driver.Monitor.Hosts.{
  contains, set_insert, set_insert_all, set_erase, keep, set_intersection, move_to_front,
  sets_equal,
}
use mongo_cxx_driver.Monitor.Reply.{IsMasterReply, Document, parse}
use mongo_cxx_driver.Monitor.Nodes.{
  Node, new_node, mark_failed, update, hosts_of, modify_node, find_or_create_node,
  update_node_if_in_nodes,
}

pub record ScanState : Type 0 where
  pub found_up_master : Bool
  pub found_any_up_nodes : Bool
  pub hosts_to_scan : List HostAndPort
  pub possible_nodes : List HostAndPort
  pub waiting_for : List HostAndPort
  pub tried_hosts : List HostAndPort
  pub unconfirmed_replies : List IsMasterReply

-- Without the mutex, the condition variable, the connections, and the threshold that only the choice
-- of a host reads.
pub record SetState : Type 0 where
  pub name : List ℕ
  pub consecutive_failed_scans : ℕ
  pub seed_nodes : List HostAndPort
  pub last_seen_master : HostAndPort
  pub nodes : List Node
  pub current_scan : Option (ℕ × ScanState)
  pub next_scan : ℕ
  pub rand : PseudoRandom
  pub round_robin : ℕ

unfoldable pub seed_nodes_of : List HostAndPort → List Node
seed_nodes_of [] = []
seed_nodes_of (h ∷ hs) = new_node h ∷ seed_nodes_of hs

-- `SetState(name, seedNodes)`; `none` is the failed assertion 13642 on an empty list.
unfoldable pub new_set_state : List ℕ → List HostAndPort → PseudoRandom → Option SetState
unfolding seed_nodes_of
new_set_state name seeds rand =
    if Parse.is_empty seeds
    then none
    else some (record {
      name = name;
      consecutive_failed_scans = 0;
      seed_nodes = seeds;
      last_seen_master = no_host;
      nodes = seed_nodes_of seeds;
      current_scan = none;
      next_scan = 0;
      rand = rand;
      round_robin = 0;
    })

-- `ReplicaSetMonitor::failedHost`, from outside a scan.
unfoldable pub monitor_failed_host : HostAndPort → SetState → SetState
monitor_failed_host h s = record s { nodes = modify_node mark_failed h s.nodes }

pub data NextStep : Type 0 where
  done wait : NextStep
  contact_host : HostAndPort → NextStep

abbrev pub Shuffle : Type 0
Shuffle = PseudoRandom → List HostAndPort → List HostAndPort × PseudoRandom

abbrev pub no_hosts : List HostAndPort → Bool
no_hosts xs = Parse.is_empty xs

abbrev pub empty_scan : ScanState
empty_scan = record {
  found_up_master = false;
  found_any_up_nodes = false;
  hosts_to_scan = [];
  possible_nodes = [];
  waiting_for = [];
  tried_hosts = [];
  unconfirmed_replies = [];
}

-- The loop of `startNewScan`: hosts that are up to the front, the others to the back.
unfoldable pub queue_nodes :
    List Node → List HostAndPort → List HostAndPort → List HostAndPort × List HostAndPort
queue_nodes [] up down = (up, down)
queue_nodes (n ∷ ns) up down =
    queue_nodes ns (if n.is_up then n.host ∷ up else up)
      (if n.is_up then down else down ++ n.host ∷ [])

-- "mark all nodes as not master".
unfoldable pub clear_masters : List Node → List Node
clear_masters [] = []
clear_masters (n ∷ ns) = record n { is_master = false } ∷ clear_masters ns

-- `remove_if(hostNotIn(hosts))`.
unfoldable pub keep_members : List HostAndPort → List Node → List Node
keep_members hosts [] = []
keep_members hosts (n ∷ ns) =
    let rest = keep_members hosts ns in if contains n.host hosts then n ∷ rest else rest

unfoldable pub add_members : List HostAndPort → List Node → List Node
add_members [] ns = ns
add_members (h ∷ hs) ns = add_members hs (find_or_create_node h ns)

unfoldable pub confirm_replies : List IsMasterReply → List Node → List Node
confirm_replies [] ns = ns
confirm_replies (r ∷ rs) ns = confirm_replies rs (update_node_if_in_nodes r ns)

-- `findOrCreateNode(it->host)->update(*it)` for each unconfirmed reply.
unfoldable pub accept_replies : List IsMasterReply → List Node → List Node
accept_replies [] ns = ns
accept_replies (r ∷ rs) ns =
    accept_replies rs (modify_node (update r) r.host (find_or_create_node r.host ns))

-- `Refresher::failedHost`.
unfoldable pub failed_host : HostAndPort → ScanState → List Node → ScanState × List Node
failed_host h scan ns =
    (record scan { waiting_for = set_erase h scan.waiting_for }, modify_node mark_failed h ns)

-- "If this node thinks the primary is someone we haven't tried, make that the next hostToScan".
unfoldable pub put_primary_first :
    HostAndPort → List HostAndPort → List HostAndPort → List HostAndPort
put_primary_first primary tried queue =
    if not (HostAndPort.is_empty primary) && not (contains primary tried)
    then (if contains primary queue then move_to_front primary queue else primary ∷ queue)
    else queue

-- `receivedIsMasterBeforeFoundMaster`.
unfoldable pub before_found_master : IsMasterReply → ScanState → ScanState
before_found_master r scan = record scan {
  possible_nodes = set_insert_all r.normal_hosts scan.possible_nodes;
  hosts_to_scan = put_primary_first r.primary scan.tried_hosts scan.hosts_to_scan;
}

-- The last case of `getNextStep`: "pop and return the next hostToScan".
unfoldable pub pop_host : HostAndPort → List HostAndPort → ScanState → ScanState
pop_host h rest scan = record scan {
  hosts_to_scan = rest;
  waiting_for = set_insert h scan.waiting_for;
  tried_hosts = set_insert h scan.tried_hosts;
}

-- "We've tried all hosts we can, so nothing more to do in this round".
unfoldable pub finish_scan : ScanState → SetState → SetState
finish_scan scan s = record s {
  nodes = if scan.found_up_master then s.nodes else accept_replies scan.unconfirmed_replies s.nodes;
  consecutive_failed_scans = if scan.found_any_up_nodes then 0 else s.consecutive_failed_scans + 1;
  current_scan = none;
}

abbrev pub put_scan : ℕ → ScanState → SetState → SetState
put_scan id scan s = record s { current_scan = some (id, scan) }

unfoldable pub dispatch_next : List HostAndPort → ℕ → ScanState → SetState → NextStep × SetState
dispatch_next [] id scan s = (done, finish_scan scan s)
dispatch_next (h ∷ rest) id scan s = (contact_host h, put_scan id (pop_host h rest scan) s)

-- From `if (_scan->foundUpMaster)` to the end of `receivedIsMaster`.
unfoldable pub record_reply : IsMasterReply → ScanState → SetState → ScanState × SetState
record_reply r scan s =
    if scan.found_up_master
    then (
      record scan { found_any_up_nodes = true },
      record s { nodes = update_node_if_in_nodes r s.nodes },
    )
    else (let scan' = before_found_master r scan in
        (
          record scan' {
            unconfirmed_replies = scan'.unconfirmed_replies ++ r ∷ [];
            found_any_up_nodes = true;
          },
          s,
        ))

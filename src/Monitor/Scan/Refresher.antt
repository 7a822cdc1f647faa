-- ===== src/Monitor/Scan/Refresher.antt =====
-- `Refresher` of src/mongo/client/replica_set_monitor.cpp: starting a scan, choosing its next step, and
-- receiving a reply. `std::random_shuffle` is the parameter of the section.
use mongo_cxx_driver.Base.{
  ℕ, ◌+◌, Bool, true, false, not, ◌&&◌, ◌||◌, Option, none, some, List, [], ◌++◌, ◌==◌,
  if◌then◌else◌,
}
use mongo_cxx_driver.Base.Int.{ℤ}
use mongo_cxx_driver.Random.{PseudoRandom}
use mongo_cxx_driver.Net.HostAndPort
use mongo_cxx_driver.Net.HostAndPort.{HostAndPort, no_host, text_eq}
use mongo_cxx_driver.Monitor.Hosts.{
  contains, set_erase, keep, set_intersection, move_to_front, sets_equal,
}
use mongo_cxx_driver.Monitor.Reply.{IsMasterReply, Document, parse}
use mongo_cxx_driver.Monitor.Nodes.{hosts_of}
use mongo_cxx_driver.Monitor.Scan.{
  ScanState, SetState, NextStep, Shuffle, no_hosts, empty_scan, queue_nodes, clear_masters,
  keep_members, add_members, confirm_replies, failed_host, put_scan, dispatch_next, record_reply,
  done, wait,
}

module _ (shuffle : Shuffle) where
  -- `ScanState::enqueAllUntriedHosts`. Its `invariant`, that the queue is empty, is tested or made so at both calls.
  unfoldable pub enqueue_all_untried :
      List HostAndPort → ScanState → PseudoRandom → ScanState × PseudoRandom
  enqueue_all_untried hosts scan rand =
      let untried = keep (λ h. not (contains h scan.tried_hosts)) hosts in
      let (queue, rand') = shuffle rand (scan.hosts_to_scan ++ untried) in
      (record scan { hosts_to_scan = queue }, rand')

  -- `Refresher::startNewScan`.
  unfoldable pub start_new_scan : SetState → ScanState × PseudoRandom
  start_new_scan s =
      let (up, down) = queue_nodes s.nodes [] [] in
      let (up', r1) = shuffle s.rand up in
      let (down', r2) = shuffle r1 down in
      let queue = up' ++ down' in
      (
        record empty_scan {
          hosts_to_scan =
              if HostAndPort.is_empty s.last_seen_master
              then queue
              else move_to_front s.last_seen_master queue;
        },
        r2,
      )

  unfoldable pub refresher_of : Option (ℕ × ScanState) → SetState → (ℕ × Bool) × SetState
  refresher_of (some (id, scan)) s = ((id, false), s)
  refresher_of none s =
      let (scan, r) = start_new_scan s in
      (
        (s.next_scan, true),
        record s { current_scan = some (s.next_scan, scan); next_scan = s.next_scan + 1; rand = r },
      )

  -- `Refresher(setState)`: joins the scan in progress or starts one; the number of the scan, and
  -- whether it is new.
  unfoldable pub refresher : SetState → (ℕ × Bool) × SetState
  unfolding refresher_of
  refresher s = refresher_of s.current_scan s

  -- "If we haven't yet found a master, try contacting unconfirmed hosts".
  unfoldable pub enqueue_possible : ScanState → PseudoRandom → ScanState × PseudoRandom
  enqueue_possible scan rand =
      if no_hosts scan.hosts_to_scan && not scan.found_up_master
      then (let (scan', r) = enqueue_all_untried scan.possible_nodes scan rand in
          (record scan' { possible_nodes = [] }, r))
      else (scan, rand)

  unfoldable pub next_step_of : ℕ → ScanState → SetState → NextStep × SetState
  next_step_of id scan s =
      if no_hosts scan.hosts_to_scan && not (no_hosts scan.waiting_for)
      then (wait, s)
      else (let (scan', r) = enqueue_possible scan s.rand in
          dispatch_next scan'.hosts_to_scan id scan' (record s { rand = r }))

  unfoldable pub get_next_step_of : ℕ → Option (ℕ × ScanState) → SetState → NextStep × SetState
  get_next_step_of mine none s = (done, s)
  get_next_step_of mine (some (id, scan)) s =
      if mine == id then next_step_of id scan s else (done, s)

  -- `Refresher::getNextStep`, for the refresher of scan `mine`.
  unfoldable pub get_next_step : ℕ → SetState → NextStep × SetState
  unfolding get_next_step_of
  get_next_step mine s = get_next_step_of mine s.current_scan s

  -- The nodes and the queue after a master's list of members replaced ours.
  unfoldable pub adjust_members : IsMasterReply → ScanState → SetState → ScanState × SetState
  adjust_members r scan s =
      let (scan', rand) =
        enqueue_all_untried r.normal_hosts (record scan { hosts_to_scan = [] }) s.rand in
      (
        record scan' {
          waiting_for =
              if no_hosts scan'.waiting_for
              then scan'.waiting_for
              else set_intersection r.normal_hosts scan'.waiting_for;
        },
        record s {
          nodes = add_members r.normal_hosts (keep_members r.normal_hosts s.nodes);
          rand = rand;
        },
      )

  -- The rest of `receivedIsMasterFromMaster`.
  unfoldable pub confirm_master : IsMasterReply → ScanState → SetState → ScanState × SetState
  confirm_master r scan s = (
    record scan { unconfirmed_replies = []; found_up_master = true },
    record s {
      seed_nodes = if sets_equal r.normal_hosts s.seed_nodes then s.seed_nodes else r.normal_hosts;
      nodes = confirm_replies scan.unconfirmed_replies s.nodes;
      last_seen_master = r.host;
    },
  )

  -- `Refresher::receivedIsMasterFromMaster`.
  unfoldable pub from_master : IsMasterReply → ScanState → SetState → ScanState × SetState
  from_master r scan s0 =
      let s = record s0 { nodes = clear_masters s0.nodes } in
      let adjusted = adjust_members r scan s in
      if sets_equal (hosts_of s.nodes) r.normal_hosts
      then confirm_master r scan s
      else confirm_master r adjusted.0 adjusted.1

  unfoldable pub received_reply : IsMasterReply → ScanState → SetState → ScanState × SetState
  received_reply r scan s =
      if not r.ok || not (text_eq r.set_name s.name)
      then (let (scan', ns) = failed_host r.host scan s.nodes in (scan', record s { nodes = ns }))
      else if r.is_master
      then (let (scan', s') = from_master r scan s in record_reply r scan' s')
      else record_reply r scan s

  -- The test of `ok`, for a reply whose `ok` is false.
  abbrev pub received_parsed :
      HostAndPort → Option IsMasterReply → ScanState → SetState → ScanState × SetState
  received_parsed from none scan s =
      let (scan', ns) = failed_host from scan s.nodes in (scan', record s { nodes = ns })
  received_parsed from (some r) scan s = received_reply r scan s

  -- `Refresher::receivedIsMaster`.
  unfoldable pub received_is_master :
      HostAndPort → ℤ → Document → ScanState → SetState → ScanState × SetState
  received_is_master from latency d scan s =
      received_parsed from (parse from latency d)
        (record scan { waiting_for = set_erase from scan.waiting_for }) s

  -- An empty reply stands for a failed call.
  unfoldable pub handle_reply :
      HostAndPort → ℤ → Option Document → ScanState → SetState → ScanState × SetState
  handle_reply from latency none scan s =
      let (scan', ns) = failed_host from scan s.nodes in (scan', record s { nodes = ns })
  handle_reply from latency (some d) scan s = received_is_master from latency d scan s

  unfoldable pub deliver_to :
      ℕ → HostAndPort → ℤ → Option Document → Option (ℕ × ScanState) → SetState → SetState
  deliver_to mine from latency reply none s = s
  deliver_to mine from latency reply (some (id, scan)) s =
      let (scan', s') = handle_reply from latency reply scan s in
      if mine == id then put_scan id scan' s' else s

  -- `_refreshUntilMatches` once the call to a host has come back: "ignore the reply [...] if we are no
  -- longer the current scan".
  unfoldable pub deliver : ℕ → HostAndPort → ℤ → Option Document → SetState → SetState
  unfolding deliver_to
  deliver mine from latency reply s = deliver_to mine from latency reply s.current_scan s

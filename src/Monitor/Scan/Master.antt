-- ===== src/Monitor/Scan/Master.antt =====
-- A reply, from a master or from another member, keeps the invariant of the set.
use mongo_cxx_driver.Base.{
  some, ◌^◌, ◌≤◌, ◌<◌, ◌≡◌, ◌≢◌, refl, inl, inr, false, List, [], arith, Bool-cases,
}
use mongo_cxx_driver.Base.Int.{ℤ, pos_part}
use mongo_cxx_driver.Net.HostAndPort
use mongo_cxx_driver.Net.HostAndPort.{HostAndPort, host_eq, text_eq}
use mongo_cxx_driver.Monitor.Hosts.{count, sets_equal, IsSorted}
use mongo_cxx_driver.Monitor.Hosts.Counts.{count-sets_equal, count-IsSorted}
use mongo_cxx_driver.Monitor.Reply.{IsMasterReply, Document, parse}
use mongo_cxx_driver.Monitor.Reply.WellFormed.{IsHostSet, parse-IsParsed}
use mongo_cxx_driver.Monitor.Nodes.{Node, hosts_of}
use mongo_cxx_driver.Monitor.Nodes.Laws.{All, IsConsistent, IsUsable}
use mongo_cxx_driver.Monitor.Scan.{ScanState, SetState, Shuffle, clear_masters, keep_members}
use mongo_cxx_driver.Monitor.Scan.Refresher.{adjust_members, confirm_master, from_master}
use mongo_cxx_driver.Monitor.Scan.Invariant.{NodesInv, ScanInv}
use mongo_cxx_driver.Monitor.Scan.Members.{
  clear_masters-IsConsistent, hosts_of-clear_masters, keep_members-IsSorted, add_members-IsSorted,
  count-add_members, members-IsConsistent, confirm_replies-IsConsistent, hosts_of-confirm_replies,
}
use mongo_cxx_driver.Monitor.Scan.Enqueue.{Permutes, enqueue-ScanInv}
use mongo_cxx_driver.Monitor.Scan.Queue.{intersect-ScanInv}

-- What is known of a reply that the monitor accepts.
pub record IsGoodReply (r : IsMasterReply) : Type 0 where
  pub usable : IsUsable r
  pub members : IsHostSet r.normal_hosts
  pub primary : HostAndPort.is_empty r.primary ≡ false → r.primary.host ≢ []

pub parse-IsGoodReply :
    (from : HostAndPort) (latency : ℤ) (d : Document) (r : IsMasterReply)
    → from.host ≢ []
    → pos_part latency < 2 ^ 63
    → parse from latency d ≡ some r
    → IsGoodReply r
parse-IsGoodReply from latency d r n h e =
    let p = (parse-IsParsed from latency d r e).0 in
    record {
      usable = record {
        named = rw p.host n;
        not_hidden = p.not_hidden;
        latency = rw p.latency_micros h;
      };
      members = p.members;
      primary = p.primary;
    }

-- The scan and the set as a pair of values; the set's own copy of the scan is replaced afterwards.
abbrev pub BothInv : ScanState × SetState → Type 0
BothInv (scan, s) = ScanInv scan × NodesInv s.last_seen_master s.seed_nodes s.nodes

-- Nodes without a master that cover a list of members.
record Covers (m : HostAndPort) (hosts : List HostAndPort) (ns : List Node) : Type 0 where
  sorted : IsSorted (hosts_of ns)
  consistent : All (IsConsistent m) ns
  covers : (h : HostAndPort) → count h hosts ≤ count h (hosts_of ns)

confirm_master-BothInv :
    (shuffle : Shuffle) (r : IsMasterReply) (scan : ScanState) (s : SetState)
    → ScanInv scan
    → Covers r.host r.normal_hosts s.nodes
    → BothInv (confirm_master shuffle r scan s)
unfolding confirm_master
confirm_master-BothInv shuffle r scan s v c =
    let same = hosts_of-confirm_replies scan.unconfirmed_replies s.nodes in
    (
      record {
        once = v.once;
        waiting = v.waiting;
        possible = v.possible;
        queue_named = v.queue_named;
        tried_named = v.tried_named;
        possible_named = v.possible_named;
        pending = tt;
        settled = refl;
      },
      record {
        sorted = rw same c.sorted;
        consistent =
            confirm_replies-IsConsistent r.host scan.unconfirmed_replies s.nodes v.pending
              c.consistent;
        members = λ h.
            rw same (ground (arith, c.covers h, count-sets_equal h r.normal_hosts s.seed_nodes));
      },
    )

unqueued-ScanInv : (scan : ScanState) → ScanInv scan → ScanInv (record scan { hosts_to_scan = [] })
unfolding count
unqueued-ScanInv scan v = record {
  once = λ h. omega (arith, v.once h);
  waiting = v.waiting;
  possible = v.possible;
  queue_named = λ h e. refl;
  tried_named = v.tried_named;
  possible_named = v.possible_named;
  pending = v.pending;
  settled = v.settled;
}

module _ (shuffle : Shuffle) (ok : Permutes shuffle) where
  adjusted-ScanInv :
      (r : IsMasterReply) (scan : ScanState) (s : SetState)
      → IsHostSet r.normal_hosts
      → ScanInv scan
      → ScanInv (adjust_members shuffle r scan s).0
  unfolding adjust_members
  adjusted-ScanInv r scan s m v = intersect-ScanInv r.normal_hosts _ m (
      enqueue-ScanInv shuffle ok r.normal_hosts (record scan { hosts_to_scan = [] }) s.rand refl
        (λ h. count-IsSorted h r.normal_hosts m.sorted) m.named (unqueued-ScanInv scan v))

  adjusted-Covers :
      (m : HostAndPort) (r : IsMasterReply) (scan : ScanState) (s : SetState)
      → IsHostSet r.normal_hosts
      → IsSorted (hosts_of s.nodes)
      → All (IsConsistent m) s.nodes
      → Covers m r.normal_hosts (adjust_members shuffle r scan s).1.nodes
  unfolding adjust_members
  adjusted-Covers m r scan s h o c =
      let kept = keep_members-IsSorted r.normal_hosts s.nodes o in
      record {
        sorted = add_members-IsSorted r.normal_hosts (keep_members r.normal_hosts s.nodes) kept;
        consistent = members-IsConsistent m r.normal_hosts s.nodes h.named c;
        covers = λ g. ground (
          arith,
          count-add_members g r.normal_hosts (keep_members r.normal_hosts s.nodes) kept,
          count-IsSorted g r.normal_hosts h.sorted,
        );
      }

  -- If `random_shuffle` permutes, taking over the members of a good reply keeps the invariants of the
  -- scan and of the nodes, with the reply's sender as the master last seen.
  pub from_master-BothInv :
      (r : IsMasterReply) (scan : ScanState) (s : SetState)
      → IsGoodReply r
      → BothInv (scan, s)
      → BothInv (from_master shuffle r scan s)
  unfolding from_master
  from_master-BothInv r scan s g v =
      let cleared = record s { nodes = clear_masters s.nodes } in
      let same = hosts_of-clear_masters s.nodes in
      let sorted : IsSorted (hosts_of cleared.nodes) = rw same v.1.sorted in
      let consistent =
        clear_masters-IsConsistent s.last_seen_master r.host s.nodes v.1.consistent in
      elim (Bool-cases (sets_equal (hosts_of (clear_masters s.nodes)) r.normal_hosts)) [
        | inl e ↦ rw e (
            confirm_master-BothInv shuffle r scan cleared v.0 (record {
              sorted = sorted;
              consistent = consistent;
              covers = λ h.
                  omega
                    (arith, count-sets_equal h (hosts_of (clear_masters s.nodes)) r.normal_hosts e);
            }))
        | inr e ↦ rw e (
            confirm_master-BothInv shuffle r (adjust_members shuffle r scan cleared).0
              (adjust_members shuffle r scan cleared).1
              (adjusted-ScanInv r scan cleared g.members v.0)
              (adjusted-Covers r.host r scan cleared g.members sorted consistent))
      ]

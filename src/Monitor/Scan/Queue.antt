-- ===== src/Monitor/Scan/Queue.antt =====
-- The scan keeps its invariant: no host is queued twice or after it was tried.
use mongo_cxx_driver.Base.{
  ◌+◌, ◌≤◌, ◌≡◌, ◌≢◌, ap, ◌∙◌, inl, inr, false, List, [], ◌∷◌, arith, if◌then◌else◌, Bool-cases,
}
use mongo_cxx_driver.Net.HostAndPort
use mongo_cxx_driver.Net.HostAndPort.{HostAndPort, host_eq}
use mongo_cxx_driver.Net.HostAndPort.Order.{host_eq-Same}
use mongo_cxx_driver.Monitor.Hosts.{count, contains, set_erase, set_intersection}
use mongo_cxx_driver.Monitor.Hosts.Counts.{
  count-Same, count-set_insert, count-set_erase, count-move_to_front, count-IsSorted,
}
use mongo_cxx_driver.Monitor.Reply.{IsMasterReply}
use mongo_cxx_driver.Monitor.Reply.WellFormed.{NoUnnamed, IsHostSet}
use mongo_cxx_driver.Monitor.Scan.{
  ScanState, before_found_master, put_primary_first, pop_host, no_hosts,
}
use mongo_cxx_driver.Monitor.Scan.Invariant.{ScanInv}
use mongo_cxx_driver.Monitor.Scan.Enqueue.{
  count-set_insert_all-le, set_insert_all-named, count-cons, count-set_intersection, contains_lem,
}

put_primary_first-once :
    (p : HostAndPort) (tried queue : List HostAndPort) (h : HostAndPort)
    → ((g : HostAndPort) → count g queue + count g tried ≤ 1)
    → count h (put_primary_first p tried queue) + count h tried ≤ 1
unfolding put_primary_first contains count
put_primary_first-once p tried queue h once =
    ground
      (arith, once h, count-move_to_front h p queue, count-Same p h queue, count-Same p h tried)

put_primary_first-named :
    (p : HostAndPort) (tried queue : List HostAndPort)
    → (HostAndPort.is_empty p ≡ false → p.host ≢ [])
    → NoUnnamed queue
    → NoUnnamed (put_primary_first p tried queue)
put_primary_first-named p tried queue k l h e = elim (Bool-cases (host_eq p h)) [
  | inl q ↦ elim (Bool-cases (HostAndPort.is_empty p)) [
    | inl n ↦ unfold put_primary_first in rw n (l h e)
    | inr n ↦ absurd (k n ((host_eq-Same p h q).host ∙ e))
  ]
  | inr q ↦
      unfold put_primary_first count in ground (arith, q, l h e, count-move_to_front h p queue)
]

-- Before a master is known, a reply keeps the invariant of the scan: its members are a set of addresses
-- with host parts, and its primary, if it names one, has a host part.
pub before_found-ScanInv :
    (r : IsMasterReply) (scan : ScanState)
    → IsHostSet r.normal_hosts
    → (HostAndPort.is_empty r.primary ≡ false → r.primary.host ≢ [])
    → ScanInv scan
    → ScanInv (before_found_master r scan)
unfolding before_found_master
before_found-ScanInv r scan m p v = record {
  once = λ h. put_primary_first-once r.primary scan.tried_hosts scan.hosts_to_scan h v.once;
  waiting = v.waiting;
  possible = λ h. count-set_insert_all-le h r.normal_hosts scan.possible_nodes (v.possible h);
  queue_named =
      put_primary_first-named r.primary scan.tried_hosts scan.hosts_to_scan p v.queue_named;
  tried_named = v.tried_named;
  possible_named = set_insert_all-named r.normal_hosts scan.possible_nodes m.named v.possible_named;
  pending = v.pending;
  settled = v.settled;
}

-- Handing out the first host of the queue marks it as tried and as waited for.
pub pop_host-ScanInv :
    (h : HostAndPort) (rest : List HostAndPort) (scan : ScanState)
    → scan.hosts_to_scan ≡ h ∷ rest
    → ScanInv scan
    → ScanInv (pop_host h rest scan)
unfolding pop_host
pop_host-ScanInv h rest scan e v = record {
  once = λ g. ground (
    arith,
    popped g,
    v.once g,
    count-set_insert g h scan.tried_hosts,
    count-Same h g scan.tried_hosts,
  );
  waiting = λ g. ground (
    arith,
    v.waiting g,
    popped g,
    v.once g,
    count-set_insert g h scan.tried_hosts,
    count-set_insert g h scan.waiting_for,
  );
  possible = v.possible;
  queue_named = λ g k. omega (arith, popped g, v.queue_named g k);
  tried_named = λ g k. ground (
    arith,
    popped g,
    v.queue_named g k,
    v.tried_named g k,
    count-set_insert g h scan.tried_hosts,
  );
  possible_named = v.possible_named;
  pending = v.pending;
  settled = v.settled;
}
  where
    popped :
        (g : HostAndPort)
        → count g scan.hosts_to_scan ≡ (if host_eq h g then 1 else 0) + count g rest
    popped g = ap (count g) e ∙ count-cons g h rest

pub erase-ScanInv :
    (h : HostAndPort) (scan : ScanState)
    → ScanInv scan
    → ScanInv (record scan { waiting_for = set_erase h scan.waiting_for })
erase-ScanInv h scan v = record {
  once = v.once;
  waiting = λ g. ground (arith, v.waiting g, count-set_erase g h scan.waiting_for);
  possible = v.possible;
  queue_named = v.queue_named;
  tried_named = v.tried_named;
  possible_named = v.possible_named;
  pending = v.pending;
  settled = v.settled;
}

-- Dropping hosts that are no members from the hosts waited for.
pub intersect-ScanInv :
    (hosts : List HostAndPort) (scan : ScanState)
    → IsHostSet hosts
    → ScanInv scan
    → ScanInv (record scan {
      waiting_for =
          if no_hosts scan.waiting_for
          then scan.waiting_for
          else set_intersection hosts scan.waiting_for;
    })
intersect-ScanInv hosts scan m v = record {
  once = v.once;
  waiting = λ g. elim (Bool-cases (no_hosts scan.waiting_for)) [
    | inl e ↦ rw e (v.waiting g)
    | inr e ↦ rw e (common g)
  ];
  possible = v.possible;
  queue_named = v.queue_named;
  tried_named = v.tried_named;
  possible_named = v.possible_named;
  pending = v.pending;
  settled = v.settled;
}
  where
    common :
        (g : HostAndPort)
        → count g (set_intersection hosts scan.waiting_for) ≤ count g scan.tried_hosts
    common g = ground (
      arith,
      count-set_intersection g hosts scan.waiting_for,
      count-IsSorted g hosts m.sorted,
      v.waiting g,
      contains_lem g scan.waiting_for,
    )

-- ===== src/Monitor/Scan/Sound.antt =====
-- The invariant is what `SetState::checkInvariants` tests, and every run keeps it.
use mongo_cxx_driver.Base.{
  ℕ, ◌+◌, ◌≤◌, ◌≡◌, ◌≢◌, refl, Bool, true, false, not, ◌||◌, Option, none, some, List, [], ◌∷◌,
  arith,
}
use mongo_cxx_driver.Base.Int.{ℤ, pos, negsuc}
use mongo_cxx_driver.Number.Parse
use mongo_cxx_driver.Net.HostAndPort
use mongo_cxx_driver.Net.HostAndPort.{HostAndPort, host_eq, host_lt, no_host}
use mongo_cxx_driver.Monitor.Hosts.{count, contains, set_insert, includes, Above, IsSorted}
use mongo_cxx_driver.Monitor.Hosts.Counts.{host_eq_self, count-Same, count-Above, count-set_insert}
use mongo_cxx_driver.Monitor.Nodes.{Node, hosts_of, non_negative}
use mongo_cxx_driver.Monitor.Nodes.Laws.{All, IsConsistent, InInt64}
use mongo_cxx_driver.Monitor.Scan.{ScanState, SetState}
use mongo_cxx_driver.Monitor.Scan.Check.{
  ordered, check_node, check_nodes, check_queue, check_scan, check_current, check_invariants,
}
use mongo_cxx_driver.Monitor.Scan.Invariant.{CurrentInv, SetInv}

nonempty : (xs : List ℕ) → xs ≢ [] → Parse.is_empty xs ≡ false
nonempty [] n = absurd (n refl)
nonempty (x ∷ xs) n = refl

is_empty-named : (h : HostAndPort) → h.host ≢ [] → HostAndPort.is_empty h ≡ false
unfolding HostAndPort.is_empty
is_empty-named h n = rw (nonempty h.host n) refl

non_negative_lem : (z : ℤ) → InInt64 z → non_negative z ≡ true
non_negative_lem (pos n) i = refl
non_negative_lem (negsuc n) i = absurd (omega (arith, i.non_negative))

-- The previous host of the loop is below the rest.
abbrev BelowRest : Option HostAndPort → List HostAndPort → Type 0
BelowRest none hs = Unit
BelowRest (some p) hs = Above p hs

ordered-Above :
    (prev : Option HostAndPort) (h : HostAndPort) (hs : List HostAndPort)
    → BelowRest prev (h ∷ hs)
    → ordered prev h ≡ true
ordered-Above none h hs b = refl
ordered-Above (some p) h hs b = b

-- Past a master no other node has its address.
one_master :
    (m : HostAndPort) (found : Bool) (n : Node) (ns : List Node)
    → IsSorted (hosts_of (n ∷ ns))
    → IsConsistent m n
    → (found ≡ true → count m (hosts_of (n ∷ ns)) ≡ 0)
    → found || n.is_master ≡ true
    → count m (hosts_of ns) ≡ 0
unfolding count
one_master m true n ns s c f e = omega (arith, f refl)
one_master m false n ns s c f e = ground (
  arith,
  e,
  c.master_seen,
  count-Above n.host (hosts_of ns) s.1 s.0,
  count-Same n.host m (hosts_of ns),
)

first_master :
    (m : HostAndPort) (found : Bool) (n : Node) (ns : List Node)
    → IsConsistent m n
    → (found ≡ true → count m (hosts_of (n ∷ ns)) ≡ 0)
    → (not n.is_master || not found) ≡ true
unfolding count
first_master m false n ns c f = ground arith
first_master m true n ns c f = ground (arith, c.master_seen, f refl)

check_nodes-true :
    (m : HostAndPort) (found : Bool) (prev : Option HostAndPort) (ns : List Node)
    → IsSorted (hosts_of ns)
    → All (IsConsistent m) ns
    → (found ≡ true → count m (hosts_of ns) ≡ 0)
    → BelowRest prev (hosts_of ns)
    → check_nodes m found prev ns ≡ true
unfolding check_nodes check_node count
check_nodes-true m found prev [] s a f b = refl
check_nodes-true m found prev (n ∷ ns) s a f b = ground (
  arith,
  is_empty-named n.host a.0.named,
  first_master m found n ns a.0 f,
  a.0.master_up,
  a.0.master_seen,
  non_negative_lem n.latency_micros a.0.latency,
  ordered-Above prev n.host (hosts_of ns) b,
  check_nodes-true m (found || n.is_master) (some n.host) ns s.1 a.1
      (one_master m found n ns s a.0 f) s.0,
)

check_queue-true :
    (tried queue : List HostAndPort)
    → ((h : HostAndPort) → count h queue + count h tried ≤ 1)
    → check_queue tried queue ≡ true
unfolding check_queue contains count
check_queue-true tried [] once = refl
check_queue-true tried (h ∷ hs) once = ground (
  arith,
  once h,
  host_eq_self h,
  check_queue-true (set_insert h tried) hs
      (λ g. ground (arith, once g, count-set_insert g h tried, count-Same h g tried)),
)

includes-true :
    (xs ys : List HostAndPort)
    → ((h : HostAndPort) → count h ys ≤ count h xs)
    → includes xs ys ≡ true
unfolding includes contains count
includes-true xs [] k = refl
includes-true xs (y ∷ ys) k =
    ground (arith, k y, host_eq_self y, includes-true xs ys (λ h. omega (arith, k h)))

check_current-true : (c : Option (ℕ × ScanState)) → CurrentInv c → check_current c ≡ true
unfolding check_scan
check_current-true none k = refl
check_current-true (some (id, scan)) k =
    rw
      (
        check_queue-true scan.tried_hosts scan.hosts_to_scan k.once,
        includes-true scan.tried_hosts scan.waiting_for k.waiting,
      )
      k.settled

-- No `invariant` of `checkInvariants` fails on a set that satisfies the invariant.
pub check_invariants-true : (s : SetState) → SetInv s → check_invariants s ≡ true
unfolding check_invariants
check_invariants-true s v =
    rw
      (
        check_nodes-true s.last_seen_master false none s.nodes v.nodes.sorted v.nodes.consistent
            (λ e. cc) tt,
        includes-true (hosts_of s.nodes) s.seed_nodes v.nodes.members,
      )
      (check_current-true s.current_scan v.current)

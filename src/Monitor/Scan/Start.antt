-- ===== src/Monitor/Scan/Start.antt =====
-- Every step of a refresher keeps the invariant of the set.
use mongo_cxx_driver.Base.{
  ℕ, ◌+◌, ◌≤◌, ◌≡◌, refl, ◌∙◌, inl, inr, Bool, true, false, not, ◌&&◌, Option, none, some, List, [],
  ◌∷◌, ◌++◌, arith, ◌==◌, if◌then◌else◌, Bool-cases,
}
use mongo_cxx_driver.Net.HostAndPort
use mongo_cxx_driver.Net.HostAndPort.{HostAndPort, host_eq}
use mongo_cxx_driver.Net.HostAndPort.Order.{host_eq-Same}
use mongo_cxx_driver.Monitor.Hosts.{count}
use mongo_cxx_driver.Monitor.Hosts.Counts.{count-append, count-move_to_front, count-IsSorted}
use mongo_cxx_driver.Monitor.Reply.WellFormed.{NoUnnamed}
use mongo_cxx_driver.Monitor.Nodes.{Node, mark_failed, hosts_of, modify_node}
use mongo_cxx_driver.Monitor.Nodes.Laws.{
  All, IsConsistent, mark_failed-IsConsistent, hosts_of-modify_node, All-modify_node,
}
use mongo_cxx_driver.Monitor.Scan.{
  ScanState, SetState, Shuffle, empty_scan, queue_nodes, accept_replies, finish_scan, dispatch_next,
  monitor_failed_host, no_hosts,
}
use mongo_cxx_driver.Monitor.Scan.Refresher.{
  enqueue_possible, start_new_scan, refresher, refresher_of, next_step_of, get_next_step,
  get_next_step_of,
}
use mongo_cxx_driver.Monitor.Scan.Invariant.{NodesInv, ScanInv, CurrentInv, SetInv}
use mongo_cxx_driver.Monitor.Scan.Members.{accept_replies-Accepted}
use mongo_cxx_driver.Monitor.Scan.Enqueue.{Permutes, Perm-count, enqueue_possible-ScanInv}
use mongo_cxx_driver.Monitor.Scan.Queue.{pop_host-ScanInv}

pub mark_failed-NodesInv :
    (m h : HostAndPort) (seeds : List HostAndPort) (ns : List Node)
    → NodesInv m seeds ns
    → NodesInv m seeds (modify_node mark_failed h ns)
mark_failed-NodesInv m h seeds ns v =
    let same = hosts_of-modify_node mark_failed h ns mark_failed-host in
    record {
      sorted = rw same v.sorted;
      consistent =
          All-modify_node (IsConsistent m) mark_failed h ns
            (λ n _ c. mark_failed-IsConsistent m n c) v.consistent;
      members = λ g. rw same (v.members g);
    }
  where
    mark_failed-host : (n : Node) → (mark_failed n).host ≡ n.host
    mark_failed-host n = unfold mark_failed in refl

-- `ReplicaSetMonitor::failedHost` keeps the invariant of the set.
pub monitor_failed_host-SetInv :
    (h : HostAndPort) (s : SetState) → SetInv s → SetInv (monitor_failed_host h s)
unfolding monitor_failed_host
monitor_failed_host-SetInv h s v = record {
  nodes = mark_failed-NodesInv s.last_seen_master h s.seed_nodes s.nodes v.nodes;
  current = v.current;
}

finish_scan-SetInv :
    (scan : ScanState) (s : SetState) → ScanInv scan → SetInv s → SetInv (finish_scan scan s)
unfolding finish_scan
finish_scan-SetInv scan s c v = record { nodes = accepted scan.found_up_master; current = tt }
  where
    accepted :
        (b : Bool)
        → NodesInv s.last_seen_master s.seed_nodes
            (if b then s.nodes else accept_replies scan.unconfirmed_replies s.nodes)
    accepted true = v.nodes
    accepted false =
        let a =
          accept_replies-Accepted s.last_seen_master scan.unconfirmed_replies s.nodes c.pending
            v.nodes.sorted v.nodes.consistent in
        record {
          sorted = a.sorted;
          consistent = a.consistent;
          members = λ h. omega (arith, a.grows h, v.nodes.members h);
        }

dispatch_next-SetInv :
    (queue : List HostAndPort) (id : ℕ) (scan : ScanState) (s : SetState)
    → scan.hosts_to_scan ≡ queue
    → ScanInv scan
    → SetInv s
    → SetInv (dispatch_next queue id scan s).1
unfolding dispatch_next
dispatch_next-SetInv [] id scan s e c v = finish_scan-SetInv scan s c v
dispatch_next-SetInv (h ∷ rest) id scan s e c v = record {
  nodes = v.nodes;
  current = pop_host-ScanInv h rest scan e c;
}

-- The nodes' hosts have no empty name.
consistent-named :
    (m : HostAndPort) (ns : List Node) → All (IsConsistent m) ns → NoUnnamed (hosts_of ns)
unfolding count
consistent-named m [] a h e = refl
consistent-named m (n ∷ ns) a h e = elim (Bool-cases (host_eq n.host h)) [
  | inl q ↦ absurd (a.0.named ((host_eq-Same n.host h q).host ∙ e))
  | inr q ↦ rw q (omega (arith, consistent-named m ns a.1 h e))
]

count-nil : (h : HostAndPort) → count h [] ≡ 0
unfolding count
count-nil h = refl

count-queue_nodes :
    (h : HostAndPort) (ns : List Node) (up down : List HostAndPort)
    → count h (queue_nodes ns up down).0 + count h (queue_nodes ns up down).1
      ≡ count h (hosts_of ns) + count h up + count h down
unfolding queue_nodes count
count-queue_nodes h [] up down = omega arith
count-queue_nodes h (n ∷ ns) up down = elim (Bool-cases n.is_up) [
  | inl e ↦ rw e (omega (arith, count-queue_nodes h ns (n.host ∷ up) down))
  | inr e ↦ rw e (
      omega
        (arith, count-queue_nodes h ns up (down ++ n.host ∷ []), count-append h down (n.host ∷ [])))
]

fresh-ScanInv :
    (queue : List HostAndPort)
    → ((h : HostAndPort) → count h queue ≤ 1)
    → NoUnnamed queue
    → ScanInv (record empty_scan { hosts_to_scan = queue })
unfolding count
fresh-ScanInv queue one named = record {
  once = λ h. omega (arith, one h);
  waiting = λ h. omega arith;
  possible = λ h. omega arith;
  queue_named = named;
  tried_named = λ h e. refl;
  possible_named = λ h e. refl;
  pending = tt;
  settled = refl;
}

module _ (shuffle : Shuffle) (ok : Permutes shuffle) where
  start_new_scan-ScanInv : (s : SetState) → SetInv s → ScanInv (start_new_scan shuffle s).0
  unfolding start_new_scan
  start_new_scan-ScanInv s v =
      fresh-ScanInv _
        (λ h. omega (arith, whole h, count-IsSorted h (hosts_of s.nodes) v.nodes.sorted))
        (λ h e. whole h ∙ consistent-named s.last_seen_master s.nodes v.nodes.consistent h e)
    where
      parts :
          (h : HostAndPort)
          → count h (
              (shuffle s.rand (queue_nodes s.nodes [] []).0).0
              ++ (shuffle
                  (shuffle s.rand (queue_nodes s.nodes [] []).0).1
                  (queue_nodes s.nodes [] []).1).0)
            ≡ count h (hosts_of s.nodes)
      parts h = omega (
        arith,
        count-append h (shuffle s.rand (queue_nodes s.nodes [] []).0).0
            (shuffle (shuffle s.rand (queue_nodes s.nodes [] []).0).1
              (queue_nodes s.nodes [] []).1).0,
        Perm-count h _ _ (ok.permutes s.rand (queue_nodes s.nodes [] []).0),
        Perm-count h _ _ (
            ok.permutes (shuffle s.rand (queue_nodes s.nodes [] []).0).1
              (queue_nodes s.nodes [] []).1),
        count-queue_nodes h s.nodes [] [],
        count-nil h,
      )

      whole :
          (h : HostAndPort)
          → count h (start_new_scan shuffle s).0.hosts_to_scan ≡ count h (hosts_of s.nodes)
      whole h = elim (Bool-cases (HostAndPort.is_empty s.last_seen_master)) [
        | inl e ↦ rw e (parts h)
        | inr e ↦ rw e (count-move_to_front h s.last_seen_master _ ∙ parts h)
      ]

  refresher_of-SetInv :
      (c : Option (ℕ × ScanState)) (s : SetState) → SetInv s → SetInv (refresher_of shuffle c s).1
  unfolding refresher_of
  refresher_of-SetInv (some (id, scan)) s v = v
  refresher_of-SetInv none s v = record { nodes = v.nodes; current = start_new_scan-ScanInv s v }

  -- If `random_shuffle` permutes, a refresher that joins a scan or starts one keeps the invariant.
  pub refresher-SetInv : (s : SetState) → SetInv s → SetInv (refresher shuffle s).1
  unfolding refresher
  refresher-SetInv s v = refresher_of-SetInv s.current_scan s v

  next_step_of-SetInv :
      (id : ℕ) (scan : ScanState) (s : SetState)
      → ScanInv scan
      → SetInv s
      → SetInv (next_step_of shuffle id scan s).1
  unfolding next_step_of
  next_step_of-SetInv id scan s c v =
      elim (Bool-cases (no_hosts scan.hosts_to_scan && not (no_hosts scan.waiting_for))) [
        | inl e ↦ rw e v
        | inr e ↦ rw e (
            dispatch_next-SetInv _ id (enqueue_possible shuffle scan s.rand).0 _ refl
              (enqueue_possible-ScanInv shuffle ok scan s.rand c)
              (record { nodes = v.nodes; current = v.current }))
      ]

  get_next_step_of-SetInv :
      (mine : ℕ) (c : Option (ℕ × ScanState)) (s : SetState)
      → CurrentInv c
      → SetInv s
      → SetInv (get_next_step_of shuffle mine c s).1
  unfolding get_next_step_of
  get_next_step_of-SetInv mine none s k v = v
  get_next_step_of-SetInv mine (some (id, scan)) s k v = elim (Bool-cases (mine == id)) [
    | inl e ↦ rw e (next_step_of-SetInv id scan s k v)
    | inr e ↦ rw e v
  ]

  -- If `random_shuffle` permutes, `getNextStep` of any refresher keeps the invariant, also where it ends
  -- the scan without a master.
  pub get_next_step-SetInv :
      (mine : ℕ) (s : SetState) → SetInv s → SetInv (get_next_step shuffle mine s).1
  unfolding get_next_step
  get_next_step-SetInv mine s v = get_next_step_of-SetInv mine s.current_scan s v.current v

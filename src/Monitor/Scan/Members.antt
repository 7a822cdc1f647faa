-- ===== src/Monitor/Scan/Members.antt =====
-- The nodes keep their invariant when a master changes the list of members.
use mongo_cxx_driver.Base.{
  ◌≤◌, ◌≡◌, ◌≢◌, refl, ap, ◌∙◌, inl, inr, true, false, not, ◌||◌, List, [], ◌∷◌, ltb, arith,
  if◌then◌else◌, Bool-cases,
}
use mongo_cxx_driver.Net.HostAndPort.{HostAndPort, host_eq}
use mongo_cxx_driver.Monitor.Hosts.{count, contains, keep, IsSorted}
use mongo_cxx_driver.Monitor.Hosts.Counts.{host_eq_self, count-IsSorted}
use mongo_cxx_driver.Monitor.Reply.{IsMasterReply}
use mongo_cxx_driver.Monitor.Reply.WellFormed.{NoUnnamed}
use mongo_cxx_driver.Monitor.Nodes.{
  Node, update, hosts_of, modify_node, find_or_create_node, update_node_if_in_nodes,
}
use mongo_cxx_driver.Monitor.Nodes.Laws.{
  All, IsConsistent, IsUsable, new_node-IsConsistent, update-IsConsistent, update-host,
  hosts_of-modify_node, All-modify_node, All-find_or_create_node, IsSorted-find_or_create_node,
  count-find_or_create_node, IsSorted-keep,
}
use mongo_cxx_driver.Monitor.Scan.{
  clear_masters, keep_members, add_members, confirm_replies, accept_replies,
}
use mongo_cxx_driver.Monitor.Scan.Invariant.{IsPending}

pub head-named : (h : HostAndPort) (hs : List HostAndPort) → NoUnnamed (h ∷ hs) → h.host ≢ []
unfolding count
head-named h hs k e = absurd (ground (arith, k h e, host_eq_self h))

pub tail-named : (h : HostAndPort) (hs : List HostAndPort) → NoUnnamed (h ∷ hs) → NoUnnamed hs
unfolding count
tail-named h hs k g e = omega (arith, k g e)

pub hosts_of-clear_masters : (ns : List Node) → hosts_of (clear_masters ns) ≡ hosts_of ns
unfolding clear_masters
hosts_of-clear_masters [] = refl
hosts_of-clear_masters (n ∷ ns) = ap (◌∷◌ n.host) (hosts_of-clear_masters ns)

-- With no master left, the nodes are consistent whoever is seen as master next.
pub clear_masters-IsConsistent :
    (m m' : HostAndPort) (ns : List Node)
    → All (IsConsistent m) ns
    → All (IsConsistent m') (clear_masters ns)
unfolding clear_masters
clear_masters-IsConsistent m m' [] h = tt
clear_masters-IsConsistent m m' (n ∷ ns) h = (
  record { named = h.0.named; master_up = refl; master_seen = refl; latency = h.0.latency },
  clear_masters-IsConsistent m m' ns h.1,
)

hosts_of-keep_members :
    (hs : List HostAndPort) (ns : List Node)
    → hosts_of (keep_members hs ns) ≡ keep (λ x. contains x hs) (hosts_of ns)
unfolding keep_members keep
hosts_of-keep_members hs [] = refl
hosts_of-keep_members hs (n ∷ ns) = elim (Bool-cases (contains n.host hs)) [
  | inl e ↦ rw e (ap (◌∷◌ n.host) (hosts_of-keep_members hs ns))
  | inr e ↦ rw e (hosts_of-keep_members hs ns)
]

All-keep_members :
    (P : Node → Type 0) (hs : List HostAndPort) (ns : List Node)
    → All P ns
    → All P (keep_members hs ns)
unfolding keep_members
All-keep_members P hs [] a = tt
All-keep_members P hs (n ∷ ns) a = elim (Bool-cases (contains n.host hs)) [
  | inl e ↦ rw e (a.0, All-keep_members P hs ns a.1)
  | inr e ↦ rw e (All-keep_members P hs ns a.1)
]

pub keep_members-IsSorted :
    (hs : List HostAndPort) (ns : List Node)
    → IsSorted (hosts_of ns)
    → IsSorted (hosts_of (keep_members hs ns))
keep_members-IsSorted hs ns s =
    rw (hosts_of-keep_members hs ns) (IsSorted-keep (λ x. contains x hs) (hosts_of ns) s)

pub add_members-IsSorted :
    (hs : List HostAndPort) (ns : List Node)
    → IsSorted (hosts_of ns)
    → IsSorted (hosts_of (add_members hs ns))
unfolding add_members
add_members-IsSorted [] ns s = s
add_members-IsSorted (h ∷ hs) ns s =
    add_members-IsSorted hs (find_or_create_node h ns) (IsSorted-find_or_create_node h ns s)

-- Every host of the list has a node afterwards.
pub count-add_members :
    (g : HostAndPort) (hs : List HostAndPort) (ns : List Node)
    → IsSorted (hosts_of ns)
    → count g (hosts_of (add_members hs ns))
      ≡ (if ltb 0 (count g hs) then 1 else count g (hosts_of ns))
unfolding add_members count
count-add_members g [] ns s = refl
count-add_members g (h ∷ hs) ns s = ground (
  arith,
  count-add_members g hs (find_or_create_node h ns) (IsSorted-find_or_create_node h ns s),
  count-find_or_create_node g h ns s,
)

add_members-IsConsistent :
    (m : HostAndPort) (hs : List HostAndPort) (ns : List Node)
    → NoUnnamed hs
    → All (IsConsistent m) ns
    → All (IsConsistent m) (add_members hs ns)
unfolding add_members
add_members-IsConsistent m [] ns k a = a
add_members-IsConsistent m (h ∷ hs) ns k a =
    add_members-IsConsistent m hs (find_or_create_node h ns) (tail-named h hs k) (
      All-find_or_create_node (IsConsistent m) h ns (new_node-IsConsistent m h (head-named h hs k))
        a)

pub members-IsConsistent :
    (m : HostAndPort) (hs : List HostAndPort) (ns : List Node)
    → NoUnnamed hs
    → All (IsConsistent m) ns
    → All (IsConsistent m) (add_members hs (keep_members hs ns))
members-IsConsistent m hs ns k a =
    add_members-IsConsistent m hs (keep_members hs ns) k (All-keep_members (IsConsistent m) hs ns a)

pub hosts_of-update_node :
    (r : IsMasterReply) (ns : List Node) → hosts_of (update_node_if_in_nodes r ns) ≡ hosts_of ns
unfolding update_node_if_in_nodes
hosts_of-update_node r ns = hosts_of-modify_node (update r) r.host ns (update-host r)

pub update_node-IsConsistent :
    (m : HostAndPort) (r : IsMasterReply) (ns : List Node)
    → IsUsable r
    → ((n : Node) → host_eq n.host r.host ≡ true → (not r.is_master || host_eq n.host m) ≡ true)
    → All (IsConsistent m) ns
    → All (IsConsistent m) (update_node_if_in_nodes r ns)
unfolding update_node_if_in_nodes
update_node-IsConsistent m r ns u k a =
    All-modify_node (IsConsistent m) (update r) r.host ns
      (λ n e c. update-IsConsistent m r n u (k n e) c) a

-- A reply of no master may be applied whoever the master is.
pub pending-any :
    (m : HostAndPort) (r : IsMasterReply) (n : Node)
    → r.is_master ≡ false
    → (not r.is_master || host_eq n.host m) ≡ true
pending-any m r n e = ground arith

pub hosts_of-confirm_replies :
    (rs : List IsMasterReply) (ns : List Node) → hosts_of (confirm_replies rs ns) ≡ hosts_of ns
unfolding confirm_replies
hosts_of-confirm_replies [] ns = refl
hosts_of-confirm_replies (r ∷ rs) ns =
    hosts_of-confirm_replies rs (update_node_if_in_nodes r ns) ∙ hosts_of-update_node r ns

pub confirm_replies-IsConsistent :
    (m : HostAndPort) (rs : List IsMasterReply) (ns : List Node)
    → All IsPending rs
    → All (IsConsistent m) ns
    → All (IsConsistent m) (confirm_replies rs ns)
unfolding confirm_replies
confirm_replies-IsConsistent m [] ns p a = a
confirm_replies-IsConsistent m (r ∷ rs) ns p a =
    confirm_replies-IsConsistent m rs (update_node_if_in_nodes r ns) p.1
      (update_node-IsConsistent m r ns p.0.usable (λ n _. pending-any m r n p.0.no_master) a)

-- What the bootstrap without a master does to the nodes: hosts are only added.
pub record Accepted (m : HostAndPort) (ns ns' : List Node) : Type 0 where
  pub sorted : IsSorted (hosts_of ns')
  pub consistent : All (IsConsistent m) ns'
  pub grows : (h : HostAndPort) → count h (hosts_of ns) ≤ count h (hosts_of ns')

accept_reply :
    (m : HostAndPort) (r : IsMasterReply) (ns : List Node)
    → IsPending r
    → IsSorted (hosts_of ns)
    → All (IsConsistent m) ns
    → Accepted m ns (modify_node (update r) r.host (find_or_create_node r.host ns))
accept_reply m r ns p s a =
    let found = find_or_create_node r.host ns in
    let same = hosts_of-modify_node (update r) r.host found (update-host r) in
    record {
      sorted = rw same (IsSorted-find_or_create_node r.host ns s);
      consistent =
          All-modify_node (IsConsistent m) (update r) r.host found
            (λ n e c. update-IsConsistent m r n p.usable (pending-any m r n p.no_master) c)
            (All-find_or_create_node (IsConsistent m) r.host ns
              (new_node-IsConsistent m r.host p.usable.named) a);
      grows = λ h. rw same (
          ground
            (arith, count-find_or_create_node h r.host ns s, count-IsSorted h (hosts_of ns) s));
    }

pub accept_replies-Accepted :
    (m : HostAndPort) (rs : List IsMasterReply) (ns : List Node)
    → All IsPending rs
    → IsSorted (hosts_of ns)
    → All (IsConsistent m) ns
    → Accepted m ns (accept_replies rs ns)
unfolding accept_replies
accept_replies-Accepted m [] ns p s a = record {
  sorted = s;
  consistent = a;
  grows = λ h. omega arith;
}
accept_replies-Accepted m (r ∷ rs) ns p s a =
    let one = accept_reply m r ns p.0 s a in
    let rest =
      accept_replies-Accepted m rs (modify_node (update r) r.host (find_or_create_node r.host ns))
        p.1 one.sorted one.consistent in
    record {
      sorted = rest.sorted;
      consistent = rest.consistent;
      grows = λ h. omega (arith, one.grows h, rest.grows h);
    }

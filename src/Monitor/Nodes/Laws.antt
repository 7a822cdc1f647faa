-- ===== src/Monitor/Nodes/Laws.antt =====
-- The vector of nodes stays sorted, and each node stays consistent, under every change.
use mongo_cxx_driver.Base.{
  ◌^◌, ◌<◌, ◌≡◌, ◌≢◌, refl, ap, inl, inr, Bool, true, not, ◌||◌, List, [], ◌∷◌, arith,
  if◌then◌else◌, Bool-cases,
}
use mongo_cxx_driver.Base.Int.{ℤ, pos_part, neg_part}
use mongo_cxx_driver.Net.HostAndPort.{HostAndPort, host_lt, host_eq}
use mongo_cxx_driver.Monitor.Hosts.{count, keep, Above, IsSorted}
use mongo_cxx_driver.Monitor.Hosts.Counts.{
  count-Above, count-Same, lt-not_eq, not_lt-eq, Above-trans, host_eq-sym, host_eq-left,
}
use mongo_cxx_driver.Monitor.Reply.{IsMasterReply}
use mongo_cxx_driver.Monitor.Nodes.{
  Node, new_node, mark_failed, update, hosts_of, modify_node, find_or_create_node, smoothed,
}

abbrev pub All {ℓ} : {A : Type ℓ} → (A → Type 0) → List A → Type 0
All P [] = Unit
All P (x ∷ xs) = P x × All P xs

pub All-map {ℓ} :
    {A : Type ℓ} (P Q : A → Type 0) (xs : List A) → ((a : A) → P a → Q a) → All P xs → All Q xs
All-map P Q [] f h = tt
All-map P Q (x ∷ xs) f h = (f x h.0, All-map P Q xs f h.1)

-- An `int64_t` that is not negative.
pub record InInt64 (z : ℤ) : Type 0 where
  pub non_negative : neg_part z ≡ 0
  pub small : pos_part z < 2 ^ 63

-- If the old latency is an `int64_t` that is not negative and the sample is below 2 to the 63, the
-- moving average is again an `int64_t` that is not negative.
pub smoothed-InInt64 :
    (old sample : ℤ) → InInt64 old → pos_part sample < 2 ^ 63 → InInt64 (smoothed old sample)
unfolding smoothed
smoothed-InInt64 old sample h k = ground arith

-- A node of a set whose master was last seen at `m`: a master is up and is `m`.
pub record IsConsistent (m : HostAndPort) (n : Node) : Type 0 where
  pub named : n.host.host ≢ []
  pub master_up : (not n.is_master || n.is_up) ≡ true
  pub master_seen : (not n.is_master || host_eq n.host m) ≡ true
  pub latency : InInt64 n.latency_micros

pub new_node-IsConsistent : (m h : HostAndPort) → h.host ≢ [] → IsConsistent m (new_node h)
unfolding new_node
new_node-IsConsistent m h k = record {
  named = k;
  master_up = refl;
  master_seen = refl;
  latency = omega arith;
}

pub mark_failed-IsConsistent :
    (m : HostAndPort) (n : Node) → IsConsistent m n → IsConsistent m (mark_failed n)
unfolding mark_failed
mark_failed-IsConsistent m n h = record {
  named = h.named;
  master_up = refl;
  master_seen = refl;
  latency = h.latency;
}

-- What the monitor relies on in a reply that it applies to a node.
pub record IsUsable (r : IsMasterReply) : Type 0 where
  pub named : r.host.host ≢ []
  pub not_hidden : (not r.is_master || not r.hidden) ≡ true
  pub latency : pos_part r.latency_micros < 2 ^ 63

pub update-IsConsistent :
    (m : HostAndPort) (r : IsMasterReply) (n : Node)
    → IsUsable r
    → (not r.is_master || host_eq n.host m) ≡ true
    → IsConsistent m n
    → IsConsistent m (update r n)
unfolding update
update-IsConsistent m r n u e h = record {
  named = h.named;
  master_up = ground (arith, u.not_hidden);
  master_seen = e;
  latency = smoothed-InInt64 n.latency_micros r.latency_micros h.latency u.latency;
}

pub update-host : (r : IsMasterReply) (n : Node) → (update r n).host ≡ n.host
unfolding update
update-host r n = refl

pub hosts_of-modify_node :
    (f : Node → Node) (h : HostAndPort) (ns : List Node)
    → ((n : Node) → (f n).host ≡ n.host)
    → hosts_of (modify_node f h ns) ≡ hosts_of ns
unfolding modify_node
hosts_of-modify_node f h [] k = refl
hosts_of-modify_node f h (n ∷ ns) k = elim (Bool-cases (host_lt n.host h)) [
  | inl e ↦ rw e (ap (◌∷◌ n.host) (hosts_of-modify_node f h ns k))
  | inr e ↦ elim (Bool-cases (host_eq n.host h)) [
    | inl q ↦ rw (e, q) (ap (λ x. x ∷ hosts_of ns) (k n))
    | inr q ↦ rw (e, q)
  ]
]

pub All-modify_node :
    (P : Node → Type 0) (f : Node → Node) (h : HostAndPort) (ns : List Node)
    → ((n : Node) → host_eq n.host h ≡ true → P n → P (f n))
    → All P ns
    → All P (modify_node f h ns)
unfolding modify_node
All-modify_node P f h [] k a = tt
All-modify_node P f h (n ∷ ns) k a = elim (Bool-cases (host_lt n.host h)) [
  | inl e ↦ rw e (a.0, All-modify_node P f h ns k a.1)
  | inr e ↦ elim (Bool-cases (host_eq n.host h)) [
    | inl q ↦ rw (e, q) (k n q a.0, a.1)
    | inr q ↦ rw (e, q) a
  ]
]

pub All-find_or_create_node :
    (P : Node → Type 0) (h : HostAndPort) (ns : List Node)
    → P (new_node h)
    → All P ns
    → All P (find_or_create_node h ns)
unfolding find_or_create_node
All-find_or_create_node P h [] k a = (k, tt)
All-find_or_create_node P h (n ∷ ns) k a = elim (Bool-cases (host_lt n.host h)) [
  | inl e ↦ rw e (a.0, All-find_or_create_node P h ns k a.1)
  | inr e ↦ elim (Bool-cases (host_eq n.host h)) [ inl q ↦ rw (e, q) a | inr q ↦ rw (e, q) (k, a) ]
]

Above-find_or_create_node :
    (a h : HostAndPort) (ns : List Node)
    → host_lt a h ≡ true
    → Above a (hosts_of ns)
    → Above a (hosts_of (find_or_create_node h ns))
unfolding find_or_create_node new_node
Above-find_or_create_node a h [] l k = l
Above-find_or_create_node a h (n ∷ ns) l k = elim (Bool-cases (host_lt n.host h)) [
  | inl e ↦ rw e k
  | inr e ↦ elim (Bool-cases (host_eq n.host h)) [ inl q ↦ rw (e, q) k | inr q ↦ rw (e, q) l ]
]

-- `findOrCreateNode` keeps a vector whose hosts ascend strictly in that order.
pub IsSorted-find_or_create_node :
    (h : HostAndPort) (ns : List Node)
    → IsSorted (hosts_of ns)
    → IsSorted (hosts_of (find_or_create_node h ns))
unfolding find_or_create_node new_node
IsSorted-find_or_create_node h [] s = (tt, tt)
IsSorted-find_or_create_node h (n ∷ ns) s = elim (Bool-cases (host_lt n.host h)) [
  | inl e ↦
      rw e (Above-find_or_create_node n.host h ns e s.0, IsSorted-find_or_create_node h ns s.1)
  | inr e ↦ elim (Bool-cases (host_eq n.host h)) [
    | inl q ↦ rw (e, q) s
    | inr q ↦ rw (e, q) (not_lt-eq n.host h e q, s)
  ]
]

-- After `findOrCreateNode(h)` on a vector whose hosts ascend strictly there is one node for `h`, and as
-- many for each other host as before.
pub count-find_or_create_node :
    (g h : HostAndPort) (ns : List Node)
    → IsSorted (hosts_of ns)
    → count g (hosts_of (find_or_create_node h ns))
      ≡ (if host_eq h g then 1 else count g (hosts_of ns))
unfolding find_or_create_node new_node count
count-find_or_create_node g h [] s = ground arith
count-find_or_create_node g h (n ∷ ns) s = elim (Bool-cases (host_lt n.host h)) [
  | inl e ↦ rw e (
      ground (
        arith,
        count-find_or_create_node g h ns s.1,
        lt-not_eq n.host h e,
        host_eq-left h g n.host,
        host_eq-sym n.host h,
        host_eq-sym n.host g,
      ))
  | inr e ↦ elim (Bool-cases (host_eq n.host h)) [
    | inl q ↦
        rw (e, q)
          (ground (
            arith,
            count-Above n.host (hosts_of ns) s.1 s.0,
            count-Same n.host g (hosts_of ns),
            host_eq-left n.host h g q,
          ))
    | inr q ↦
        let none_above = count-Above h (hosts_of (n ∷ ns)) s (not_lt-eq n.host h e q) in
        rw (e, q) (ground (arith, none_above, count-Same h g (hosts_of (n ∷ ns))))
  ]
]

Above-keep :
    (a : HostAndPort) (p : HostAndPort → Bool) (xs : List HostAndPort)
    → IsSorted xs
    → Above a xs
    → Above a (keep p xs)
unfolding keep
Above-keep a p [] s h = tt
Above-keep a p (x ∷ xs) s h = elim (Bool-cases (p x)) [
  | inl e ↦ rw e h
  | inr e ↦ rw e (Above-keep a p xs s.1 (Above-trans a x xs h s.0))
]

pub IsSorted-keep :
    (p : HostAndPort → Bool) (xs : List HostAndPort) → IsSorted xs → IsSorted (keep p xs)
unfolding keep
IsSorted-keep p [] s = tt
IsSorted-keep p (x ∷ xs) s = elim (Bool-cases (p x)) [
  | inl e ↦ rw e (Above-keep x p xs s.1 s.0, IsSorted-keep p xs s.1)
  | inr e ↦ rw e (IsSorted-keep p xs s.1)
]

-- ===== src/Monitor/Scan/Runs.antt =====
-- Every interleaving of refreshers, replies and failures that a set can go through.
use mongo_cxx_driver.Base.{
  ℕ, ◌^◌, ◌<◌, ◌≡◌, ◌≢◌, refl, ap, true, Option, some, List, [], ◌∷◌, arith,
}
use mathlib.Core.Path.{subst}
use mongo_cxx_driver.Base.Int.{ℤ, pos_part}
use mongo_cxx_driver.Random.{PseudoRandom}
use mongo_cxx_driver.Net.HostAndPort.{HostAndPort, no_host}
use mongo_cxx_driver.Monitor.Reply.{Document}
use mongo_cxx_driver.Monitor.Reply.WellFormed.{NoUnnamed, IsHostSet}
use mongo_cxx_driver.Monitor.Nodes.{hosts_of, new_node}
use mongo_cxx_driver.Monitor.Nodes.Laws.{All, IsConsistent, new_node-IsConsistent}
use mongo_cxx_driver.Monitor.Scan.{
  SetState, Shuffle, seed_nodes_of, new_set_state, monitor_failed_host,
}
use mongo_cxx_driver.Monitor.Scan.Refresher.{refresher, get_next_step, deliver}
use mongo_cxx_driver.Monitor.Scan.Check.{check_invariants}
use mongo_cxx_driver.Monitor.Scan.Invariant.{NodesInv, SetInv}
use mongo_cxx_driver.Monitor.Scan.Members.{head-named, tail-named}
use mongo_cxx_driver.Monitor.Scan.Enqueue.{Permutes}
use mongo_cxx_driver.Monitor.Scan.Start.{
  monitor_failed_host-SetInv, refresher-SetInv, get_next_step-SetInv,
}
use mongo_cxx_driver.Monitor.Scan.Received.{deliver-SetInv}
use mongo_cxx_driver.Monitor.Scan.Sound.{check_invariants-true}

-- One change of the set under its mutex. Threads run in any order, a reply may arrive at any time, and
-- from a scan that is over; the address contacted has a host part, and the time measured by the timer
-- fits an `int64_t`.
pub data Step (shuffle : Shuffle) : SetState → SetState → Type 0 where
  refresh : (s : SetState) → Step shuffle s (refresher shuffle s).1
  next : (s : SetState) (mine : ℕ) → Step shuffle s (get_next_step shuffle mine s).1
  reply :
      (s : SetState) (mine : ℕ) (from : HostAndPort) (latency : ℤ) (document : Option Document)
      → from.host ≢ []
      → pos_part latency < 2 ^ 63
      → Step shuffle s (deliver shuffle mine from latency document s)
  failed : (s : SetState) (h : HostAndPort) → Step shuffle s (monitor_failed_host h s)

-- The states of a set that was made from seeds.
pub data Reachable (shuffle : Shuffle) (name : List ℕ) (seeds : List HostAndPort)
    (rand : PseudoRandom) : SetState → Type 0 where
  start :
      (s : SetState) → new_set_state name seeds rand ≡ some s → Reachable shuffle name seeds rand s
  step :
      (s t : SetState)
      → Reachable shuffle name seeds rand s
      → Step shuffle s t
      → Reachable shuffle name seeds rand t

hosts_of-seed_nodes : (hs : List HostAndPort) → hosts_of (seed_nodes_of hs) ≡ hs
unfolding seed_nodes_of new_node
hosts_of-seed_nodes [] = refl
hosts_of-seed_nodes (h ∷ hs) = ap (◌∷◌ h) (hosts_of-seed_nodes hs)

seed_nodes-IsConsistent :
    (m : HostAndPort) (hs : List HostAndPort)
    → NoUnnamed hs
    → All (IsConsistent m) (seed_nodes_of hs)
unfolding seed_nodes_of
seed_nodes-IsConsistent m [] n = tt
seed_nodes-IsConsistent m (h ∷ hs) n = (
  new_node-IsConsistent m h (head-named h hs n),
  seed_nodes-IsConsistent m hs (tail-named h hs n),
)

seed_nodes-NodesInv :
    (hs : List HostAndPort) → IsHostSet hs → NodesInv no_host hs (seed_nodes_of hs)
seed_nodes-NodesInv hs h =
    let same = hosts_of-seed_nodes hs in
    record {
      sorted = rw same h.sorted;
      consistent = seed_nodes-IsConsistent no_host hs h.named;
      members = λ g. rw same (omega arith);
    }

some_inj {ℓ} : {A : Type ℓ} {a b : A} → some a ≡ some b → a ≡ b
some_inj e = cc

-- A set made from a set of seeds that have host parts satisfies the invariant.
pub new_set_state-SetInv :
    (name : List ℕ) (seeds : List HostAndPort) (rand : PseudoRandom) (s : SetState)
    → IsHostSet seeds
    → new_set_state name seeds rand ≡ some s
    → SetInv s
unfolding new_set_state
new_set_state-SetInv name [] rand s h e = cc
new_set_state-SetInv name (x ∷ xs) rand s h e =
    subst SetInv (some_inj e) (record { nodes = seed_nodes-NodesInv (x ∷ xs) h; current = tt })

module _ (shuffle : Shuffle) (ok : Permutes shuffle) where
  step-SetInv : (s t : SetState) → Step shuffle s t → SetInv s → SetInv t
  step-SetInv _ _ (refresh s) v = refresher-SetInv shuffle ok s v
  step-SetInv _ _ (next s mine) v = get_next_step-SetInv shuffle ok mine s v
  step-SetInv _ _ (reply s mine from latency document n l) v =
      deliver-SetInv shuffle ok mine from latency document s n l v
  step-SetInv _ _ (failed s h) v = monitor_failed_host-SetInv h s v

  module _ (name : List ℕ) (seeds : List HostAndPort) (rand : PseudoRandom)
      (hosts : IsHostSet seeds) where
    reachable-SetInv : (s : SetState) → Reachable shuffle name seeds rand s → SetInv s
    reachable-SetInv s (start _ e) = new_set_state-SetInv name seeds rand s hosts e
    reachable-SetInv s (step t _ r k) = step-SetInv t s k (reachable-SetInv t r)

    -- If `random_shuffle` permutes and the seeds are a set of addresses with host parts, no `invariant`
    -- of `checkInvariants` fails in any state that the set reaches.
    pub reachable-check_invariants :
        (s : SetState) → Reachable shuffle name seeds rand s → check_invariants s ≡ true
    reachable-check_invariants s r = check_invariants-true s (reachable-SetInv s r)

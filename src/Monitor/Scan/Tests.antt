-- ===== src/Monitor/Scan/Tests.antt =====
-- Tests of the monitor on a set of two seeds, src/mongo/client/replica_set_monitor.cpp.
use mathlib.Core.List.Perm
use mongo_cxx_driver.Base.{
  ◌≡◌, ◌≢◌, refl, ◌∙◌, inl, inr, true, false, none, some, List, [], ◌∷◌, arith, Bool-cases,
}
use mongo_cxx_driver.Base.Int.{pos}
use mongo_cxx_driver.Random.{PseudoRandom, seeded}
use mongo_cxx_driver.Net.HostAndPort.{HostAndPort, no_host, host_eq, host_lt, compare_text}
use mongo_cxx_driver.Net.HostAndPort.Order.{host_eq-Same}
use mongo_cxx_driver.Monitor.Hosts.{count}
use mongo_cxx_driver.Monitor.Nodes.{new_node}
use mongo_cxx_driver.Monitor.Reply.{Document}
use mongo_cxx_driver.Monitor.Reply.WellFormed.{NoUnnamed, IsHostSet}
use mongo_cxx_driver.Monitor.Scan.{SetState, Shuffle, seed_nodes_of, new_set_state, empty_scan}
use mongo_cxx_driver.Monitor.Scan.Refresher.{refresher, get_next_step, deliver}
use mongo_cxx_driver.Monitor.Scan.Check.{check_invariants}
use mongo_cxx_driver.Monitor.Scan.Invariant.{SetInv, ScanInv}
use mongo_cxx_driver.Monitor.Scan.Enqueue.{Permutes}
use mongo_cxx_driver.Monitor.Scan.Start.{refresher-SetInv, get_next_step-SetInv}
use mongo_cxx_driver.Monitor.Scan.Received.{deliver-SetInv}
use mongo_cxx_driver.Monitor.Scan.Runs.{
  Step, Reachable, new_set_state-SetInv, reachable-check_invariants,
}

abbrev in_order : Shuffle
in_order r hosts = (hosts, r)

in_order-Permutes : Permutes in_order
in_order-Permutes = record { permutes = λ r xs. Perm.refl xs }

abbrev host_a : HostAndPort
host_a = record { host = (b'a' ∷ []); port_field = pos 27017 }

abbrev host_b : HostAndPort
host_b = record { host = (b'b' ∷ []); port_field = pos 27018 }

abbrev seeds : List HostAndPort
seeds = host_a ∷ host_b ∷ []

abbrev seed_rand : PseudoRandom
seed_rand = seeded 42

-- The state that `SetState` starts with.
abbrev initial : SetState
initial = record {
  name = b'r' ∷ b's' ∷ [];
  consecutive_failed_scans = 0;
  seed_nodes = seeds;
  last_seen_master = no_host;
  nodes = new_node host_a ∷ new_node host_b ∷ [];
  current_scan = none;
  next_scan = 0;
  rand = seed_rand;
  round_robin = 0;
}

initial-made : new_set_state (b'r' ∷ b's' ∷ []) seeds seed_rand ≡ some initial
unfolding new_set_state seed_nodes_of
initial-made = refl

-- A master `b` that lists itself and `c`.
abbrev master_reply : Document
master_reply = record {
  ok = true;
  set_name = (b'r' ∷ b's' ∷ []);
  hidden = false;
  secondary = false;
  is_master = true;
  primary = (b'b' ∷ b':' ∷ b'2' ∷ b'7' ∷ b'0' ∷ b'1' ∷ b'8' ∷ []);
  hosts =
      some (b'b' ∷ b':' ∷ b'2' ∷ b'7' ∷ b'0' ∷ b'1' ∷ b'8' ∷ [])
      ∷ some (b'c' ∷ b':' ∷ b'2' ∷ b'7' ∷ b'0' ∷ b'1' ∷ b'7' ∷ [])
      ∷ [];
  passives = [];
  tags = [];
}

host_a-named : host_a.host ≢ []
host_a-named e = cc

host_b-named : host_b.host ≢ []
host_b-named e = cc

seeds-named : NoUnnamed seeds
unfolding count
seeds-named h e = elim (Bool-cases (host_eq host_a h)) [
  | inl q ↦ absurd (host_a-named ((host_eq-Same host_a h q).host ∙ e))
  | inr p ↦ elim (Bool-cases (host_eq host_b h)) [
    | inl q ↦ absurd (host_b-named ((host_eq-Same host_b h q).host ∙ e))
    | inr q ↦ ground (arith, p, q)
  ]
]

seeds-IsHostSet : IsHostSet seeds
unfolding host_lt compare_text
seeds-IsHostSet = record { sorted = (refl, (tt, tt)); named = seeds-named }

initial-SetInv : SetInv initial
initial-SetInv = new_set_state-SetInv _ seeds seed_rand initial seeds-IsHostSet initial-made

-- A refresher starts a scan and hands out a host.
abbrev scanning : SetState
scanning = (refresher in_order initial).1

abbrev asked : SetState
asked = (get_next_step in_order 0 scanning).1

-- Then the master `b` answers in a millisecond.
abbrev answered : SetState
answered = deliver in_order 0 host_b (pos 1000) (some master_reply) asked

answered-Reachable : Reachable in_order (b'r' ∷ b's' ∷ []) seeds seed_rand answered
answered-Reachable =
    Reachable.step asked answered
      (Reachable.step scanning asked
        (Reachable.step initial scanning (Reachable.start initial initial-made)
          (Step.refresh initial))
        (Step.next scanning 0))
      (Step.reply asked 0 host_b (pos 1000) (some master_reply) host_b-named (omega arith))

reachable-check_invariants_example : check_invariants answered ≡ true
reachable-check_invariants_example =
    reachable-check_invariants in_order in_order-Permutes (b'r' ∷ b's' ∷ []) seeds seed_rand
      seeds-IsHostSet answered answered-Reachable

scanning-SetInv : SetInv scanning
scanning-SetInv = refresher-SetInv in_order in_order-Permutes initial initial-SetInv

asked-SetInv : SetInv asked
asked-SetInv = get_next_step-SetInv in_order in_order-Permutes 0 scanning scanning-SetInv

get_next_step-SetInv_example : SetInv (get_next_step in_order 0 scanning).1
get_next_step-SetInv_example =
    get_next_step-SetInv in_order in_order-Permutes 0 scanning scanning-SetInv

deliver-SetInv_example : SetInv (deliver in_order 0 host_b (pos 1000) (some master_reply) asked)
deliver-SetInv_example =
    deliver-SetInv in_order in_order-Permutes 0 host_b (pos 1000) (some master_reply) asked
      host_b-named (omega arith) asked-SetInv

empty_scan-ScanInv : ScanInv empty_scan
unfolding count
empty_scan-ScanInv = record {
  once = λ h. omega arith;
  waiting = λ h. omega arith;
  possible = λ h. omega arith;
  queue_named = λ h e. refl;
  tried_named = λ h e. refl;
  possible_named = λ h e. refl;
  pending = tt;
  settled = refl;
}

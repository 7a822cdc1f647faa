-- ===== src/Monitor/Scan/Enqueue.antt =====
-- Enqueueing hosts that were not tried keeps the scan's invariant, however the queue is shuffled.
use mathlib.Core.Logic.{∥∥₁_elim}
use mathlib.Core.List.{Perm, Permᴰ}
use native.Mathlib.Nat.{ℕ_set}
use mongo_cxx_driver.Base.{
  ℕ, ◌+◌, ◌≤◌, ◌≡◌, refl, ap, ◌∙◌, inl, inr, Bool, true, not, ◌&&◌, List, [], ◌∷◌, ◌++◌, ltb, arith,
  if◌then◌else◌, Bool-cases,
}
use mongo_cxx_driver.Random.{PseudoRandom}
use mongo_cxx_driver.Net.HostAndPort.{HostAndPort, host_eq}
use mongo_cxx_driver.Net.HostAndPort.Order.{host_eq-Same}
use mongo_cxx_driver.Monitor.Hosts.{
  count, contains, keep, set_insert, set_insert_all, set_intersection,
}
use mongo_cxx_driver.Monitor.Hosts.Counts.{
  count-set_insert, count-keep, contains-Respects, Respects,
}
use mongo_cxx_driver.Monitor.Reply.WellFormed.{NoUnnamed}
use mongo_cxx_driver.Monitor.Scan.{ScanState, Shuffle, no_hosts}
use mongo_cxx_driver.Monitor.Scan.Refresher.{enqueue_all_untried, enqueue_possible}
use mongo_cxx_driver.Monitor.Scan.Invariant.{ScanInv}
use mongo_cxx_driver.Monitor.Scan.Members.{head-named, tail-named}

-- The documented behaviour of `std::random_shuffle`.
pub record Permutes (shuffle : Shuffle) : Type 0 where
  pub permutes : (r : PseudoRandom) (xs : List HostAndPort) → Perm (shuffle r xs).0 xs

permuted-count :
    (h : HostAndPort) {xs ys : List HostAndPort} → Permᴰ xs ys → count h xs ≡ count h ys
unfolding count
permuted-count h Permᴰ.nil = refl
permuted-count h (Permᴰ.cons e d) = cc (e, permuted-count h d)
permuted-count h (Permᴰ.swap {a} {b} {a'} {b'} {l} e f) = omega (
  arith,
  ap {B = ℕ} (λ x. if host_eq x h then 1 else 0) e,
  ap {B = ℕ} (λ x. if host_eq x h then 1 else 0) f,
)
permuted-count h (Permᴰ.trans d e) = permuted-count h d ∙ permuted-count h e

pub Perm-count : (h : HostAndPort) (xs ys : List HostAndPort) → Perm xs ys → count h xs ≡ count h ys
Perm-count h xs ys p = ∥∥₁_elim p (ℕ_set _ _) (permuted-count h)

pub count-set_insert_all-le :
    (h : HostAndPort) (xs ys : List HostAndPort)
    → count h ys ≤ 1
    → count h (set_insert_all xs ys) ≤ 1
unfolding set_insert_all
count-set_insert_all-le h [] ys k = k
count-set_insert_all-le h (x ∷ xs) ys k =
    count-set_insert_all-le h xs (set_insert x ys) (ground (arith, count-set_insert h x ys))

pub set_insert_all-named :
    (xs ys : List HostAndPort) → NoUnnamed xs → NoUnnamed ys → NoUnnamed (set_insert_all xs ys)
unfolding set_insert_all
set_insert_all-named [] ys k l = l
set_insert_all-named (x ∷ xs) ys k l =
    set_insert_all-named xs (set_insert x ys) (tail-named x xs k) λ h e.
      elim (Bool-cases (host_eq x h)) [
        | inl q ↦ absurd (head-named x xs k ((host_eq-Same x h q).host ∙ e))
        | inr q ↦ rw (count-set_insert h x ys, q) (l h e)
      ]

pub count-cons :
    (g h : HostAndPort) (rest : List HostAndPort)
    → count g (h ∷ rest) ≡ (if host_eq h g then 1 else 0) + count g rest
unfolding count
count-cons g h rest = refl

pub count-set_intersection :
    (g : HostAndPort) (xs ys : List HostAndPort)
    → count g (set_intersection xs ys) ≡ (if contains g ys then count g xs else 0)
unfolding set_intersection
count-set_intersection g xs ys = count-keep (λ x. contains x ys) g xs (contains-Respects ys)

untried-Respects : (tried : List HostAndPort) → Respects (λ h. not (contains h tried))
untried-Respects tried a b e = ap not (contains-Respects tried a b e)

no_hosts-nil : (xs : List HostAndPort) (b : Bool) → (no_hosts xs && not b) ≡ true → xs ≡ []
no_hosts-nil [] b e = refl
no_hosts-nil (x ∷ xs) b e = cc

forget_possible : (scan : ScanState) → ScanInv scan → ScanInv (record scan { possible_nodes = [] })
unfolding count
forget_possible scan v = record {
  once = v.once;
  waiting = v.waiting;
  possible = λ h. omega arith;
  queue_named = v.queue_named;
  tried_named = v.tried_named;
  possible_named = λ h e. refl;
  pending = v.pending;
  settled = v.settled;
}

pub contains_lem : (h : HostAndPort) (xs : List HostAndPort) → contains h xs ≡ ltb 0 (count h xs)
unfolding contains
contains_lem h xs = refl

module _ (shuffle : Shuffle) (ok : Permutes shuffle) where
  count-enqueue :
      (hosts : List HostAndPort) (scan : ScanState) (rand : PseudoRandom) (h : HostAndPort)
      → scan.hosts_to_scan ≡ []
      → count h (enqueue_all_untried shuffle hosts scan rand).0.hosts_to_scan
        ≡ (if not (contains h scan.tried_hosts) then count h hosts else 0)
  unfolding enqueue_all_untried
  count-enqueue hosts scan rand h e =
      Perm-count h _ _ (ok.permutes rand _)
      ∙ ap (λ q. count h (q ++ keep (λ x. not (contains x scan.tried_hosts)) hosts)) e
      ∙ count-keep (λ x. not (contains x scan.tried_hosts)) h hosts
          (untried-Respects scan.tried_hosts)

  tried-enqueue :
      (hosts : List HostAndPort) (scan : ScanState) (rand : PseudoRandom)
      → (enqueue_all_untried shuffle hosts scan rand).0.tried_hosts ≡ scan.tried_hosts
  unfolding enqueue_all_untried
  tried-enqueue hosts scan rand = refl

  -- Enqueueing a set of hosts into an empty queue keeps the scan's invariant.
  pub enqueue-ScanInv :
      (hosts : List HostAndPort) (scan : ScanState) (rand : PseudoRandom)
      → scan.hosts_to_scan ≡ []
      → ((h : HostAndPort) → count h hosts ≤ 1)
      → NoUnnamed hosts
      → ScanInv scan
      → ScanInv (enqueue_all_untried shuffle hosts scan rand).0
  enqueue-ScanInv hosts scan rand e one named v = record {
    once = λ h. ground (
      arith,
      tried-enqueue hosts scan rand,
      count-enqueue hosts scan rand h e,
      one h,
      v.once h,
      contains_lem h scan.tried_hosts,
    );
    waiting = unfold enqueue_all_untried in v.waiting;
    possible = unfold enqueue_all_untried in v.possible;
    queue_named = λ h k. ground (arith, count-enqueue hosts scan rand h e, named h k);
    tried_named = unfold enqueue_all_untried in v.tried_named;
    possible_named = unfold enqueue_all_untried in v.possible_named;
    pending = unfold enqueue_all_untried in v.pending;
    settled = unfold enqueue_all_untried in v.settled;
  }

  pub enqueue_possible-ScanInv :
      (scan : ScanState) (rand : PseudoRandom)
      → ScanInv scan
      → ScanInv (enqueue_possible shuffle scan rand).0
  unfolding enqueue_possible
  enqueue_possible-ScanInv scan rand v =
      elim (Bool-cases (no_hosts scan.hosts_to_scan && not scan.found_up_master)) [
        | inl e ↦ rw e (
            forget_possible (enqueue_all_untried shuffle scan.possible_nodes scan rand).0 (
              enqueue-ScanInv scan.possible_nodes scan rand
                (no_hosts-nil scan.hosts_to_scan scan.found_up_master e) v.possible v.possible_named
                v))
        | inr e ↦ rw e v
      ]

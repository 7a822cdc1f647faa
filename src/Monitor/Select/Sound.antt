-- ===== src/Monitor/Select/Sound.antt =====
-- What `getMatchingHost` guarantees of the host that it returns.
use mathlib.Core.Logic.Or
use mathlib.Core.Path.{subst}
use mathlib.Core.Bool.{Bool-set}
use mathlib.Core.List.{Mem, Mem-prop, Perm, mem-cons, mem-cons_self, mem-cons_of_mem, not-mem-nil}
use mongo_cxx_driver.Base.{
  ℕ, ◌<◌, ◌≡◌, refl, sym, ap, ◌∙◌, inl, inr, Bool, true, false, some, List, [], ◌∷◌, zero, suc,
  arith, length, get_elem?, get_elem?-some, Bool-cases,
}
use mongo_cxx_driver.Base.Int.{ℤ, pos, ltb_ℤ, ◌-ℤ◌, ◌+ℤ◌}
use native.Mathlib.Nat.{mod-lt}
use mongo_cxx_driver.Random.Range.{IsWords, next_int32_below-InRange}
use mongo_cxx_driver.Net.HostAndPort.{HostAndPort}
use mongo_cxx_driver.Monitor.Reply.{Tags}
use mongo_cxx_driver.Monitor.Nodes.{Node, ReadPreference}
use mongo_cxx_driver.Monitor.Nodes.Laws.{All, All-map}
use mongo_cxx_driver.Monitor.Select.{
  Draw, Choice, chosen, bad_tags, fault, suits, matching_nodes, near, drop_far, host_at, pick,
}

-- In ascending order of latency.
abbrev pub Ascending : List Node → Type 0
Ascending [] = Unit
Ascending (n ∷ ns) = All (λ m. ltb_ℤ m.latency_micros n.latency_micros ≡ false) ns × Ascending ns

-- The documented behaviour of `std::sort` with `compareLatencies`.
pub record Sorts (sort : List Node → List Node) : Type 0 where
  pub permutes : (ns : List Node) → Perm (sort ns) ns
  pub ascending : (ns : List Node) → Ascending (sort ns)

pub Mem-All :
    {n : Node} (P : Node → Bool) (b : Bool) (ns : List Node)
    → All (λ m. P m ≡ b) ns
    → Mem n ns
    → P n ≡ b
Mem-All P b [] a m = absurd (not-mem-nil m)
Mem-All P b (x ∷ xs) a m =
    Or.elim (Bool-set _ _) (mem-cons.0 m) (λ e. ap P e ∙ a.0) (Mem-All P b xs a.1)

pub Mem-Among : {n : Node} (ns xs : List Node) → All (λ m. Mem m ns) xs → Mem n xs → Mem n ns
Mem-Among ns [] a m = absurd (not-mem-nil m)
Mem-Among ns (x ∷ xs) a m =
    Or.elim Mem-prop (mem-cons.0 m) (λ e. subst (λ y. Mem y ns) (sym e) a.0) (Mem-Among ns xs a.1)

pub matching-suits :
    (pref : ReadPreference) (tag : Tags) (ns : List Node)
    → All (λ n. suits pref tag n ≡ true) (matching_nodes pref tag ns)
unfolding matching_nodes
matching-suits pref tag [] = tt
matching-suits pref tag (n ∷ ns) = elim (Bool-cases (suits pref tag n)) [
  | inl e ↦ rw e (e, matching-suits pref tag ns)
  | inr e ↦ rw e (matching-suits pref tag ns)
]

pub matching-among :
    (pref : ReadPreference) (tag : Tags) (ns : List Node)
    → All (λ n. Mem n ns) (matching_nodes pref tag ns)
unfolding matching_nodes
matching-among pref tag [] = tt
matching-among pref tag (n ∷ ns) =
    let rest =
      All-map (λ m. Mem m ns) (λ m. Mem m (n ∷ ns)) (matching_nodes pref tag ns)
        (λ m h. mem-cons_of_mem n h) (matching-among pref tag ns) in
    elim (Bool-cases (suits pref tag n)) [ inl e ↦ rw e (mem-cons_self, rest) | inr e ↦ rw e rest ]

pub Mem-matching :
    (pref : ReadPreference) (tag : Tags) (n : Node) (ns : List Node)
    → Mem n ns
    → suits pref tag n ≡ true
    → Mem n (matching_nodes pref tag ns)
unfolding matching_nodes
Mem-matching pref tag n [] m e = absurd (not-mem-nil m)
Mem-matching pref tag n (x ∷ xs) m e = elim (Bool-cases (suits pref tag x)) [
  | inl s ↦ rw s (
      Or.elim Mem-prop (mem-cons.0 m)
        (λ q. subst (λ y. Mem y (x ∷ matching_nodes pref tag xs)) (sym q) mem-cons_self)
        (λ k. mem-cons_of_mem x (Mem-matching pref tag n xs k e)))
  | inr s ↦ rw s (
      Or.elim Mem-prop (mem-cons.0 m) (λ q. absurd (ground (arith, s, e, ap (suits pref tag) q)))
        (λ k. Mem-matching pref tag n xs k e))
]

some_inj {ℓ} : {A : Type ℓ} {a b : A} → some a ≡ some b → a ≡ b
some_inj e = cc

pub get_elem?-Mem : (ns : List Node) (k : ℕ) (n : Node) → get_elem? ns k ≡ some n → Mem n ns
get_elem?-Mem [] k n e = cc
get_elem?-Mem (x ∷ xs) zero n e = subst (λ y. Mem y (x ∷ xs)) (some_inj e) mem-cons_self
get_elem?-Mem (x ∷ xs) (suc k) n e = mem-cons_of_mem x (get_elem?-Mem xs k n e)

-- What is left after the far nodes are dropped is a prefix, and near the closest.
get_elem?-near :
    (c t : ℤ) (ns : List Node) (k : ℕ) (n : Node)
    → get_elem? (near c t ns) k ≡ some n
    → (get_elem? ns k ≡ some n) × (ltb_ℤ (n.latency_micros -ℤ c) t ≡ true)
unfolding near
get_elem?-near c t [] k n e = cc
get_elem?-near c t (x ∷ xs) zero n e = elim (Bool-cases (ltb_ℤ (x.latency_micros -ℤ c) t)) [
  | inl q ↦
      let e' = rw q at e in
      (e', subst (λ y. ltb_ℤ (y.latency_micros -ℤ c) t ≡ true) (some_inj e') q)
  | inr q ↦ cc (rw q at e)
]
get_elem?-near c t (x ∷ xs) (suc k) n e = elim (Bool-cases (ltb_ℤ (x.latency_micros -ℤ c) t)) [
  | inl q ↦ get_elem?-near c t xs k n (rw q at e)
  | inr q ↦ cc (rw q at e)
]

pub self_near : (a t : ℤ) → ltb_ℤ (pos 0) t ≡ true → ltb_ℤ (a -ℤ a) t ≡ true
unfolding ◌-ℤ◌ ◌+ℤ◌
self_near a t h = ground arith

pub nearer : (a b c t : ℤ) → ltb_ℤ (a -ℤ b) t ≡ true → ltb_ℤ c b ≡ false → ltb_ℤ (a -ℤ c) t ≡ true
unfolding ◌-ℤ◌ ◌+ℤ◌
nearer a b c t h k = ground arith

pub get_elem?-drop_far :
    (t : ℤ) (x : Node) (xs : List Node) (k : ℕ) (n : Node)
    → ltb_ℤ (pos 0) t ≡ true
    → get_elem? (drop_far t (x ∷ xs)) k ≡ some n
    → (get_elem? (x ∷ xs) k ≡ some n) × (ltb_ℤ (n.latency_micros -ℤ x.latency_micros) t ≡ true)
unfolding drop_far
get_elem?-drop_far t x xs zero n h e = (
  e,
  subst (λ y. ltb_ℤ (y.latency_micros -ℤ x.latency_micros) t ≡ true) (some_inj e)
      (self_near x.latency_micros t h),
)
get_elem?-drop_far t x xs (suc k) n h e = get_elem?-near x.latency_micros t xs k n e

-- The choice is a host of which `P` holds.
abbrev pub Chosen : (HostAndPort → Draw → Type 0) → Choice → Type 0
Chosen P (chosen h d) = P h d
Chosen P bad_tags = ⊥
Chosen P fault = ⊥

-- The host of one of the nodes is returned, with the generator's words kept.
abbrev pub HostOf : List Node → HostAndPort → Draw → Type 0
HostOf ns h d = IsWords d.rand × (k : ℕ) × (n : Node) × (get_elem? ns k ≡ some n) × (n.host ≡ h)

host_at-Chosen :
    (ns : List Node) (k : ℕ) (d : Draw)
    → IsWords d.rand
    → k < length ns
    → Chosen (HostOf ns) (host_at ns (pos k) d)
host_at-Chosen ns k d w h = let (n, e) = get_elem?-some ns k h in rw e (w, k, n, e, refl)

-- An index is drawn within a vector that is not empty.
pub pick-Chosen :
    (deterministic : Bool) (ns : List Node) (d : Draw)
    → 0 < length ns
    → IsWords d.rand
    → Chosen (HostOf ns) (pick deterministic ns d)
unfolding pick
pick-Chosen true ns d h w = host_at-Chosen ns _ _ w (mod-lt d.round_robin h)
pick-Chosen false ns d h w =
    let (k, e, lt, w') = next_int32_below-InRange (length ns) d.rand h w in
    rw e (host_at-Chosen ns k _ w' lt)

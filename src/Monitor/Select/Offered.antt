-- ===== src/Monitor/Select/Offered.antt =====
-- Under every read preference `getMatchingHost` offers only hosts of nodes that match the preference.
use mathlib.Core.List.{Mem, mem-cons_self, mem-cons_of_mem}
use mongo_cxx_driver.Base.{
  ◌≡◌, ◌≢◌, refl, ◌⊎◌, inl, inr, Bool, true, false, ◌&&◌, some, List, [], ◌∷◌, map, arith,
  if◌then◌else◌, Bool-cases,
}
use mongo_cxx_driver.Base.Int.{ℤ, pos, ltb_ℤ}
use mongo_cxx_driver.Random.Range.{IsWords}
use mongo_cxx_driver.Net.HostAndPort
use mongo_cxx_driver.Net.HostAndPort.{HostAndPort, no_host}
use mongo_cxx_driver.Monitor.Reply.{Tags}
use mongo_cxx_driver.Monitor.Nodes.{
  Node, ReadPreference, primary_only, primary_preferred, secondary_only, secondary_preferred,
  nearest, matches_pref, matches_tag,
}
use mongo_cxx_driver.Monitor.Nodes.Laws.{All, IsConsistent}
use mongo_cxx_driver.Monitor.Select.{
  Draw, Choice, chosen, bad_tags, fault, by_tags, primary_host, or_else, get_matching_host,
}
use mongo_cxx_driver.Monitor.Select.Sound.{Sorts, Chosen}
use mongo_cxx_driver.Monitor.Select.Selected.{Chosen-weaken, by_tags-Chosen, Selected}

-- No host, or the host of a node that matches the preference.
abbrev pub Offered : ReadPreference → List Node → HostAndPort → Draw → Type 0
Offered pref ns h d =
    IsWords d.rand
    × ((h ≡ no_host) ⊎ ((n : Node) × Mem n ns × (matches_pref pref n ≡ true) × (n.host ≡ h)))

Selected-Offered :
    (pref : ReadPreference) (t : ℤ) (tags : List Tags) (ns : List Node) (h : HostAndPort) (d : Draw)
    → Selected pref t tags ns h d
    → Offered pref ns h d
Selected-Offered pref t tags ns h d (inl (w, e, a)) = (w, inl e)
Selected-Offered pref t tags ns h d (inr (before, tag, after, e, a, (w, n, s, q))) =
    (w, inr (n, s.member, and-left (matches_pref pref n) (matches_tag tag n) s.matches, q))
  where
    and-left : (a b : Bool) → (a && b) ≡ true → a ≡ true
    and-left a b e = ground arith

-- Every preference but `SecondaryOnly` allows the master, which is up.
primary-matches :
    (m : HostAndPort) (pref : ReadPreference) (n : Node)
    → IsConsistent m n
    → n.is_master ≡ true
    → pref ≢ secondary_only
    → matches_pref pref n ≡ true
unfolding matches_pref
primary-matches m primary_only n c e k = ground (arith, c.master_up)
primary-matches m primary_preferred n c e k = ground (arith, c.master_up)
primary-matches m secondary_only n c e k = absurd (k refl)
primary-matches m secondary_preferred n c e k = ground (arith, c.master_up)
primary-matches m nearest n c e k = ground (arith, c.master_up)

either-way :
    (b : Bool) (P : HostAndPort → Type 0) (x y : HostAndPort)
    → (b ≡ true → P x)
    → (b ≡ false → P y)
    → P (if b then x else y)
either-way true P x y f g = f refl
either-way false P x y f g = g refl

primary_host-Offered :
    (m : HostAndPort) (pref : ReadPreference) (ns : List Node) (d : Draw)
    → All (IsConsistent m) ns
    → pref ≢ secondary_only
    → IsWords d.rand
    → Offered pref ns (primary_host ns) d
unfolding primary_host
primary_host-Offered m pref [] d a k w = (w, inl refl)
primary_host-Offered m pref (n ∷ ns) d a k w =
    either-way n.is_master (λ h. Offered pref (n ∷ ns) h d) n.host (primary_host ns)
      (λ e. (w, inr (n, mem-cons_self, primary-matches m pref n a.0 e k, refl)))
      (λ e. (w, further (primary_host-Offered m pref ns d a.1 k w).1))
  where
    further :
        {h : HostAndPort}
        → (h ≡ no_host) ⊎ ((o : Node) × Mem o ns × (matches_pref pref o ≡ true) × (o.host ≡ h))
        → (h ≡ no_host)
          ⊎ ((o : Node) × Mem o (n ∷ ns) × (matches_pref pref o ≡ true) × (o.host ≡ h))
    further (inl e) = inl e
    further (inr (o, i, s, q)) = inr (o, mem-cons_of_mem n i, s, q)

or_else-Chosen :
    (pref : ReadPreference) (ns : List Node) (c : Choice) (second : Draw → Choice)
    → Chosen (Offered pref ns) c
    → ((d : Draw) → IsWords d.rand → Chosen (Offered pref ns) (second d))
    → Chosen (Offered pref ns) (or_else c second)
or_else-Chosen pref ns (chosen h d) second k f = elim (Bool-cases (HostAndPort.is_empty h)) [
  | inl e ↦ rw e (f d k.0)
  | inr e ↦ rw e k
]
or_else-Chosen pref ns bad_tags second k f = k
or_else-Chosen pref ns fault second k f = k

-- A secondary matches the preferences that fall back on one.
secondary-Offered :
    (pref : ReadPreference) (ns : List Node) (h : HostAndPort) (d : Draw)
    → ((n : Node) → matches_pref secondary_only n ≡ true → matches_pref pref n ≡ true)
    → Offered secondary_only ns h d
    → Offered pref ns h d
secondary-Offered pref ns h d f (w, inl e) = (w, inl e)
secondary-Offered pref ns h d f (w, inr (n, m, s, q)) = (w, inr (n, m, f n s, q))

up-preferred :
    (n : Node)
    → matches_pref secondary_only n ≡ true
    → (matches_pref primary_preferred n ≡ true) × (matches_pref secondary_preferred n ≡ true)
unfolding matches_pref
up-preferred n e = ground arith

module _ (sort : List Node → List Node) (deterministic : Bool) (t : ℤ) (ok : Sorts sort)
    (positive : ltb_ℤ (pos 0) t ≡ true) where
  tagged-Offered :
      (pref : ReadPreference) (tags : List Tags) (ns : List Node) (d : Draw)
      → IsWords d.rand
      → Chosen (Offered pref ns) (by_tags sort deterministic t pref (map some tags) ns d)
  tagged-Offered pref tags ns d w =
      Chosen-weaken (Selected pref t tags ns) (Offered pref ns) _ (Selected-Offered pref t tags ns)
        (by_tags-Chosen deterministic t positive pref ns sort ok tags d w)

  fallback-Offered :
      (pref : ReadPreference) (tags : List Tags) (ns : List Node) (d : Draw)
      → ((n : Node) → matches_pref secondary_only n ≡ true → matches_pref pref n ≡ true)
      → IsWords d.rand
      → Chosen (Offered pref ns) (by_tags sort deterministic t secondary_only (map some tags) ns d)
  fallback-Offered pref tags ns d f w =
      Chosen-weaken (Offered secondary_only ns) (Offered pref ns) _
        (λ h d' o. secondary-Offered pref ns h d' f o) (tagged-Offered secondary_only tags ns d w)

  -- If `std::sort` sorts by latency, the threshold is positive, the nodes are consistent and the generator
  -- holds four words, then under every preference, with tags that are objects, `getMatchingHost` indexes
  -- no vector outside its bounds and returns no host or that of a node that matches the preference.
  pub get_matching_host-Offered :
      (m : HostAndPort) (pref : ReadPreference) (tags : List Tags) (ns : List Node) (d : Draw)
      → All (IsConsistent m) ns
      → IsWords d.rand
      → Chosen (Offered pref ns) (get_matching_host sort deterministic t pref (map some tags) ns d)
  unfolding get_matching_host
  get_matching_host-Offered m primary_only tags ns d a w =
      primary_host-Offered m primary_only ns d a (λ e. cc) w
  get_matching_host-Offered m primary_preferred tags ns d a w =
      or_else-Chosen primary_preferred ns (chosen (primary_host ns) d) _
        (primary_host-Offered m primary_preferred ns d a (λ e. cc) w)
        λ d' w'. fallback-Offered primary_preferred tags ns d' (λ n s. (up-preferred n s).0) w'
  get_matching_host-Offered m secondary_only tags ns d a w =
      tagged-Offered secondary_only tags ns d w
  get_matching_host-Offered m secondary_preferred tags ns d a w =
      or_else-Chosen secondary_preferred ns _ _
        (fallback-Offered secondary_preferred tags ns d (λ n s. (up-preferred n s).1) w)
        λ d' w'. primary_host-Offered m secondary_preferred ns d' a (λ e. cc) w'
  get_matching_host-Offered m nearest tags ns d a w = tagged-Offered nearest tags ns d w

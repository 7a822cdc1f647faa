-- ===== src/Monitor/Select/Selected.antt =====
-- `getMatchingHost` returns a close host that matches, if there is one.
use mathlib.Core.Logic.Or
use mathlib.Core.Bool.{Bool-set}
use mathlib.Core.List.{Mem, Perm, mem-cons, mem-cons_self, not-mem-nil}
use mathlib.Core.List.Perm
use mongo_cxx_driver.Base.{
  ◌<◌, ◌≡◌, refl, ap, ◌∙◌, ◌⊎◌, inl, inr, Bool, true, false, some, List, [], ◌∷◌, ◌++◌, map, arith,
  length, Bool-cases,
}
use mongo_cxx_driver.Base.Int.{ℤ, pos, ltb_ℤ, ◌-ℤ◌}
use mongo_cxx_driver.Random.Range.{IsWords}
use mongo_cxx_driver.Net.HostAndPort.{HostAndPort, no_host}
use mongo_cxx_driver.Monitor.Reply.{Tags}
use mongo_cxx_driver.Monitor.Nodes.{
  Node, ReadPreference, primary_only, primary_preferred, secondary_only, secondary_preferred,
  nearest,
}
use mongo_cxx_driver.Monitor.Nodes.Laws.{All}
use mongo_cxx_driver.Monitor.Select.{
  Draw, Choice, chosen, bad_tags, fault, suits, matching_nodes, drop_far, pick, among, by_tags,
  get_matching_host,
}
use mongo_cxx_driver.Monitor.Select.Sound.{
  Ascending, Sorts, Mem-All, Mem-Among, matching-suits, matching-among, Mem-matching, get_elem?-Mem,
  self_near, nearer, get_elem?-drop_far, Chosen, HostOf, pick-Chosen,
}

-- A node of the set that matches, and is by less than the threshold slower than any other that does.
pub record Suitable (pref : ReadPreference) (tag : Tags) (threshold : ℤ) (ns : List Node) (n : Node)
    : Type 0 where
  pub member : Mem n ns
  pub matches : suits pref tag n ≡ true
  pub close :
      (m : Node)
      → Mem m ns
      → suits pref tag m ≡ true
      → ltb_ℤ (n.latency_micros -ℤ m.latency_micros) threshold ≡ true

abbrev pub SuitableHost : ReadPreference → Tags → ℤ → List Node → HostAndPort → Draw → Type 0
SuitableHost pref tag t ns h d =
    IsWords d.rand × (n : Node) × Suitable pref tag t ns n × (n.host ≡ h)

abbrev pub NoneSuits : ReadPreference → List Node → Tags → Type 0
NoneSuits pref ns tag = (n : Node) → Mem n ns → suits pref tag n ≡ false

-- The first tag that some node matches decides; without one there is no host.
abbrev pub Selected : ReadPreference → ℤ → List Tags → List Node → HostAndPort → Draw → Type 0
Selected pref t tags ns h d =
    (IsWords d.rand × (h ≡ no_host) × All (NoneSuits pref ns) tags)
    ⊎ ((before : List Tags) × (tag : Tags) × (after : List Tags) × (tags ≡ before ++ tag ∷ after)
        × All (NoneSuits pref ns) before
        × SuitableHost pref tag t ns h d)

pub Chosen-weaken :
    (P Q : HostAndPort → Draw → Type 0) (c : Choice)
    → ((h : HostAndPort) (d : Draw) → P h d → Q h d)
    → Chosen P c
    → Chosen Q c
Chosen-weaken P Q (chosen h d) f k = f h d k
Chosen-weaken P Q bad_tags f k = k
Chosen-weaken P Q fault f k = k

-- What `matching_nodes` finds, as one list.
record Matches (pref : ReadPreference) (tag : Tags) (ns xs : List Node) : Type 0 where
  sound : (n : Node) → Mem n xs → Mem n ns
  suit : (n : Node) → Mem n xs → suits pref tag n ≡ true
  whole : (n : Node) → Mem n ns → suits pref tag n ≡ true → Mem n xs

matching_nodes-Matches :
    (pref : ReadPreference) (tag : Tags) (ns : List Node)
    → Matches pref tag ns (matching_nodes pref tag ns)
matching_nodes-Matches pref tag ns = record {
  sound = λ n m. Mem-Among ns (matching_nodes pref tag ns) (matching-among pref tag ns) m;
  suit = λ n m.
      Mem-All (suits pref tag) true (matching_nodes pref tag ns) (matching-suits pref tag ns) m;
  whole = λ n m e. Mem-matching pref tag n ns m e;
}

-- The first of an ascending list is the closest of it.
first-closest :
    (x : Node) (xs : List Node) (m : Node)
    → Ascending (x ∷ xs)
    → Mem m (x ∷ xs)
    → ltb_ℤ m.latency_micros x.latency_micros ≡ false
first-closest x xs m a k =
    Or.elim (Bool-set _ _) (mem-cons.0 k)
      (λ e. ap (λ y. ltb_ℤ y.latency_micros x.latency_micros) e ∙ ground arith)
      (λ r. Mem-All (λ y. ltb_ℤ y.latency_micros x.latency_micros) false xs a.0 r)

drop_far-length : (t : ℤ) (x : Node) (xs : List Node) → 0 < length (drop_far t (x ∷ xs))
unfolding drop_far
drop_far-length t x xs = omega arith

module _ (deterministic : Bool) (t : ℤ) (positive : ltb_ℤ (pos 0) t ≡ true) (pref : ReadPreference)
    (ns : List Node) where
  sorted-Chosen :
      (tag : Tags) (sorted xs : List Node) (y : Node) (d : Draw)
      → Perm sorted xs
      → Ascending sorted
      → Mem y xs
      → Matches pref tag ns xs
      → IsWords d.rand
      → Chosen (SuitableHost pref tag t ns) (pick deterministic (drop_far t sorted) d)
  sorted-Chosen tag [] xs y d p a m k w = absurd (not-mem-nil ((Perm.mem_iff p).1 m))
  sorted-Chosen tag (x ∷ rest) xs y d p a m k w =
      Chosen-weaken (HostOf (drop_far t (x ∷ rest))) (SuitableHost pref tag t ns) _
        (λ h d' (w', i, n, e, q).
          let (e', near_x) = get_elem?-drop_far t x rest i n positive e in
          let among_xs = (Perm.mem_iff p).0 (get_elem?-Mem (x ∷ rest) i n e') in
          (
            w',
            n,
            record {
              member = k.sound n among_xs;
              matches = k.suit n among_xs;
              close = λ o l s.
                  nearer n.latency_micros x.latency_micros o.latency_micros t near_x
                    (first-closest x rest o a ((Perm.mem_iff p).1 (k.whole o l s)));
            },
            q,
          ))
        (pick-Chosen deterministic (drop_far t (x ∷ rest)) d (drop_far-length t x rest) w)

  module _ (sort : List Node → List Node) (ok : Sorts sort) where
    -- One tag: a suitable host, or what the other tags give if no node matches it.
    among-Chosen :
        (P : HostAndPort → Draw → Type 0) (tag : Tags) (xs : List Node) (rest : Choice) (d : Draw)
        → Matches pref tag ns xs
        → IsWords d.rand
        → ((h : HostAndPort) (d' : Draw) → SuitableHost pref tag t ns h d' → P h d')
        → (NoneSuits pref ns tag → Chosen P rest)
        → Chosen P (among sort deterministic t xs rest d)
    unfolding among
    among-Chosen P tag [] rest d k w f g = g λ n m. elim (Bool-cases (suits pref tag n)) [
      | inl e ↦ absurd (not-mem-nil (k.whole n m e))
      | inr e ↦ e
    ]
    among-Chosen P tag (x ∷ []) rest d k w f g = f x.host d (
      w,
      x,
      record {
        member = k.sound x mem-cons_self;
        matches = k.suit x mem-cons_self;
        close = λ o l s.
            Or.elim (Bool-set _ _) (mem-cons.0 (k.whole o l s))
              (λ e.
                ap (λ y. ltb_ℤ (x.latency_micros -ℤ y.latency_micros) t) e
                ∙ self_near x.latency_micros t positive)
              (λ r. absurd (not-mem-nil r));
      },
      refl,
    )
    among-Chosen P tag (x ∷ y ∷ xs) rest d k w f g =
        Chosen-weaken (SuitableHost pref tag t ns) P _ f (
          sorted-Chosen tag (sort (x ∷ y ∷ xs)) (x ∷ y ∷ xs) x d (ok.permutes (x ∷ y ∷ xs))
            (ok.ascending (x ∷ y ∷ xs)) mem-cons_self k w)

    later :
        (tag : Tags) (tags : List Tags) (h : HostAndPort) (d : Draw)
        → NoneSuits pref ns tag
        → Selected pref t tags ns h d
        → Selected pref t (tag ∷ tags) ns h d
    later tag tags h d miss (inl (w, e, a)) = inl (w, e, (miss, a))
    later tag tags h d miss (inr (before, one, after, e, a, s)) =
        inr (tag ∷ before, one, after, ap (◌∷◌ tag) e, (miss, a), s)

    pub by_tags-Chosen :
        (tags : List Tags) (d : Draw)
        → IsWords d.rand
        → Chosen (Selected pref t tags ns) (by_tags sort deterministic t pref (map some tags) ns d)
    unfolding by_tags
    by_tags-Chosen [] d w = inl (w, refl, tt)
    by_tags-Chosen (tag ∷ tags) d w =
        among-Chosen (Selected pref t (tag ∷ tags) ns) tag (matching_nodes pref tag ns) _ d
          (matching_nodes-Matches pref tag ns) w (λ h d' s. inr ([], tag, tags, refl, tt, s))
          (λ miss.
            Chosen-weaken (Selected pref t tags ns) (Selected pref t (tag ∷ tags) ns) _
              (λ h d' s. later tag tags h d' miss s) (by_tags-Chosen tags d w))

-- The preferences that `getMatchingHost` does not define by others.
abbrev pub is_direct : ReadPreference → Bool
is_direct secondary_only = true
is_direct nearest = true
is_direct _ = false

-- If `std::sort` sorts by latency, the threshold is positive and the generator holds four words, then for
-- `SecondaryOnly` and `Nearest`, with tags that are objects, `getMatchingHost` indexes no vector outside
-- its bounds, and decides by the first tag that some node matches: it returns the host of a node that
-- matches and is within the threshold of every node that does; without such a tag it returns no host.
pub get_matching_host-Selected :
    (sort : List Node → List Node) (deterministic : Bool) (t : ℤ) (pref : ReadPreference)
    (tags : List Tags) (ns : List Node) (d : Draw)
    → Sorts sort
    → ltb_ℤ (pos 0) t ≡ true
    → is_direct pref ≡ true
    → IsWords d.rand
    → Chosen
        (Selected pref t tags ns)
        (get_matching_host sort deterministic t pref (map some tags) ns d)
unfolding get_matching_host
get_matching_host-Selected sort b t secondary_only tags ns d ok p e w =
    by_tags-Chosen b t p secondary_only ns sort ok tags d w
get_matching_host-Selected sort b t nearest tags ns d ok p e w =
    by_tags-Chosen b t p nearest ns sort ok tags d w
get_matching_host-Selected sort b t primary_only tags ns d ok p e w = cc
get_matching_host-Selected sort b t primary_preferred tags ns d ok p e w = cc
get_matching_host-Selected sort b t secondary_preferred tags ns d ok p e w = cc

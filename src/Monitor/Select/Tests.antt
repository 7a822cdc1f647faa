-- ===== src/Monitor/Select/Tests.antt =====
-- Tests of `getMatchingHost`, with an insertion sort for `std::sort`.
use mathlib.Core.List.{Perm}
use mathlib.Core.List.Perm as Permutation
use mongo_cxx_driver.Base.{
  ℕ, ◌^◌, ◌<◌, ◌≡◌, ◌≢◌, refl, inl, inr, Bool, true, false, some, List, [], ◌∷◌, map, arith,
  if◌then◌else◌, Bool-cases,
}
use mongo_cxx_driver.Base.Int.{pos, ltb_ℤ}
use mongo_cxx_driver.Random.{seeded}
use mongo_cxx_driver.Random.Range.{seeded-IsWords}
use mongo_cxx_driver.Net.HostAndPort.{HostAndPort, no_host}
use mongo_cxx_driver.Monitor.Nodes.{Node, nearest, secondary_preferred}
use mongo_cxx_driver.Monitor.Nodes.Laws.{All, All-map, IsConsistent}
use mongo_cxx_driver.Monitor.Select.{Draw, get_matching_host}
use mongo_cxx_driver.Monitor.Select.Sound.{Ascending, Sorts, Chosen}
use mongo_cxx_driver.Monitor.Select.Selected.{Selected, get_matching_host-Selected}
use mongo_cxx_driver.Monitor.Select.Offered.{Offered, get_matching_host-Offered}

abbrev before : Node → Node → Bool
before a b = ltb_ℤ a.latency_micros b.latency_micros

abbrev insert : Node → List Node → List Node
insert n [] = n ∷ []
insert n (x ∷ xs) = let rest = insert n xs in if before x n then x ∷ rest else n ∷ x ∷ xs

abbrev insertion_sort : List Node → List Node
insertion_sort [] = []
insertion_sort (n ∷ ns) = insert n (insertion_sort ns)

insert-Perm : (n : Node) (xs : List Node) → Perm (insert n xs) (n ∷ xs)
insert-Perm n [] = Permutation.refl (n ∷ [])
insert-Perm n (x ∷ xs) = elim (Bool-cases (before x n)) [
  | inl e ↦
      rw e (Permutation.trans (Permutation.cons x (insert-Perm n xs)) (Permutation.swap n x xs))
  | inr e ↦ rw e (Permutation.refl (n ∷ x ∷ xs))
]

insertion_sort-Perm : (xs : List Node) → Perm (insertion_sort xs) xs
insertion_sort-Perm [] = Permutation.refl []
insertion_sort-Perm (n ∷ ns) =
    Permutation.trans (insert-Perm n (insertion_sort ns))
      (Permutation.cons n (insertion_sort-Perm ns))

insert-All : (P : Node → Type 0) (n : Node) (xs : List Node) → P n → All P xs → All P (insert n xs)
insert-All P n [] p a = (p, tt)
insert-All P n (x ∷ xs) p a = elim (Bool-cases (before x n)) [
  | inl e ↦ rw e (a.0, insert-All P n xs p a.1)
  | inr e ↦ rw e (p, a)
]

insert-Ascending : (n : Node) (xs : List Node) → Ascending xs → Ascending (insert n xs)
insert-Ascending n [] a = (tt, tt)
insert-Ascending n (x ∷ xs) a = elim (Bool-cases (before x n)) [
  | inl e ↦ rw e (
    insert-All (λ m. ltb_ℤ m.latency_micros x.latency_micros ≡ false) n xs (ground (arith, e)) a.0,
    insert-Ascending n xs a.1,
  )
  | inr e ↦ rw e ((e, All-map _ _ xs (λ m h. ground (arith, e, h)) a.0), a)
]

insertion_sort-Ascending : (xs : List Node) → Ascending (insertion_sort xs)
insertion_sort-Ascending [] = tt
insertion_sort-Ascending (n ∷ ns) =
    insert-Ascending n (insertion_sort ns) (insertion_sort-Ascending ns)

insertion_sort-Sorts : Sorts insertion_sort
insertion_sort-Sorts = record {
  permutes = insertion_sort-Perm;
  ascending = insertion_sort-Ascending;
}

abbrev node_at : List ℕ → Bool → ℕ → Node
node_at host is_master latency = record {
  host = record { host = host; port_field = pos 27017 };
  is_up = true;
  is_master = is_master;
  latency_micros = pos latency;
  tags = [];
}

-- The last node is too far from the first two.
abbrev three_nodes : List Node
three_nodes =
    node_at (b'a' ∷ []) false 9000
    ∷ node_at (b'b' ∷ []) false 1000
    ∷ node_at (b'c' ∷ []) false 40000
    ∷ []

abbrev draw : Draw
draw = record { rand = seeded 42; round_robin = 5 }

get_matching_host-Selected_example : Chosen (Selected nearest (pos 15000) ([] ∷ []) three_nodes) (
    get_matching_host insertion_sort false
      (pos 15000)
      nearest
      (map some ([] ∷ []))
      three_nodes
      draw)
get_matching_host-Selected_example =
    get_matching_host-Selected insertion_sort false (pos 15000) nearest ([] ∷ []) three_nodes draw
      insertion_sort-Sorts refl refl (seeded-IsWords 42)

node_at-IsConsistent :
    (host : List ℕ) (latency : ℕ) (m : HostAndPort)
    → host ≢ []
    → latency < 2 ^ 63
    → IsConsistent m (node_at host false latency)
node_at-IsConsistent host latency m n l = record {
  named = n;
  master_up = refl;
  master_seen = refl;
  latency = record { non_negative = refl; small = l };
}

get_matching_host-Offered_example : Chosen (Offered secondary_preferred three_nodes) (
    get_matching_host insertion_sort true
      (pos 15000)
      secondary_preferred
      (map some ([] ∷ []))
      three_nodes
      draw)
get_matching_host-Offered_example =
    get_matching_host-Offered insertion_sort true (pos 15000) insertion_sort-Sorts refl no_host
      secondary_preferred ([] ∷ []) three_nodes draw
      (
        node_at-IsConsistent (b'a' ∷ []) 9000 no_host (λ e. cc) (omega arith),
        (
          node_at-IsConsistent (b'b' ∷ []) 1000 no_host (λ e. cc) (omega arith),
          (node_at-IsConsistent (b'c' ∷ []) 40000 no_host (λ e. cc) (omega arith), tt),
        ),
      )
      (seeded-IsWords 42)

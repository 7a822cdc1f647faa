-- ===== src/Monitor/Hosts.antt =====
-- The containers of addresses of src/mongo/client/replica_set_monitor.cpp: `std::set<HostAndPort>`
-- as the sorted list of its elements, `std::deque<HostAndPort>` as a list. How often an address
-- occurs says all that the monitor's invariants need of either.
pub mod Counts
use mongo_cxx_driver.Base.{
  ℕ, zero, suc, ◌+◌, ◌≤◌, ◌<◌, ◌≡◌, Bool, true, false, not, ◌&&◌, ◌||◌, List, [], ◌∷◌, ◌++◌, ltb,
  if◌then◌else◌,
}
use mongo_cxx_driver.Net.HostAndPort.{HostAndPort, host_eq, host_lt}

-- How often an address occurs, by `operator==`.
unfoldable pub count : HostAndPort → List HostAndPort → ℕ
count h [] = 0
count h (x ∷ xs) = (if host_eq x h then 1 else 0) + count h xs

-- `set.count(h)`.
unfoldable pub contains : HostAndPort → List HostAndPort → Bool
unfolding count
contains h xs = ltb 0 (count h xs)

unfoldable pub insert_sorted : HostAndPort → List HostAndPort → List HostAndPort
insert_sorted h [] = h ∷ []
insert_sorted h (x ∷ xs) = if host_lt x h then x ∷ insert_sorted h xs else h ∷ x ∷ xs

-- `set.insert(h)`.
unfoldable pub set_insert : HostAndPort → List HostAndPort → List HostAndPort
set_insert h xs = if contains h xs then xs else insert_sorted h xs

-- `set.insert(begin, end)`.
unfoldable pub set_insert_all : List HostAndPort → List HostAndPort → List HostAndPort
set_insert_all [] ys = ys
set_insert_all (x ∷ xs) ys = set_insert_all xs (set_insert x ys)

-- `set.erase(h)`.
unfoldable pub set_erase : HostAndPort → List HostAndPort → List HostAndPort
set_erase h [] = []
set_erase h (x ∷ xs) = let rest = set_erase h xs in if host_eq x h then rest else x ∷ rest

-- The elements that a test keeps, in order.
unfoldable pub keep : (HostAndPort → Bool) → List HostAndPort → List HostAndPort
keep p [] = []
keep p (x ∷ xs) = let rest = keep p xs in if p x then x ∷ rest else rest

-- `std::set_intersection(a, b)` keeps the elements of `a` that are in `b`.
unfoldable pub set_intersection : List HostAndPort → List HostAndPort → List HostAndPort
set_intersection xs ys = keep (λ x. contains x ys) xs

-- `std::stable_partition(begin, end, hostIs(h))`.
unfoldable pub move_to_front : HostAndPort → List HostAndPort → List HostAndPort
unfolding keep
move_to_front h xs = keep (λ x. host_eq x h) xs ++ keep (λ x. not (host_eq x h)) xs

-- `operator==` of two sets.
unfoldable pub sets_equal : List HostAndPort → List HostAndPort → Bool
sets_equal [] [] = true
sets_equal [] (y ∷ ys) = false
sets_equal (x ∷ xs) [] = false
sets_equal (x ∷ xs) (y ∷ ys) = host_eq x y && sets_equal xs ys

-- `std::includes(xs, ys)`.
unfoldable pub includes : List HostAndPort → List HostAndPort → Bool
includes xs [] = true
includes xs (y ∷ ys) = contains y xs && includes xs ys

-- Strictly ascending, as every `std::set` is.
abbrev pub Above : HostAndPort → List HostAndPort → Type 0
Above h [] = Unit {0}
Above h (x ∷ xs) = host_lt h x ≡ true

abbrev pub IsSorted : List HostAndPort → Type 0
IsSorted [] = Unit {0}
IsSorted (x ∷ xs) = Above x xs × IsSorted xs

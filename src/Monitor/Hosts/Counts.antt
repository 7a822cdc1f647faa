-- ===== src/Monitor/Hosts/Counts.antt =====
-- How the set operations change the number of times that an address occurs.
use mongo_cxx_driver.Base.{
  ◌+◌, ◌≤◌, ◌≡◌, refl, sym, ◌∙◌, inl, inr, Bool, true, false, not, List, [], ◌∷◌, ◌++◌, ltb,
  if◌then◌else◌, arith, Bool-cases,
}
use mongo_cxx_driver.Net.HostAndPort.{HostAndPort, host_eq, host_lt}
use mongo_cxx_driver.Net.HostAndPort.Order.{
  host_eq-Same, Same-host_eq, Same-refl, Same-sym, Same-trans, host_lt_connex, host_lt_trans,
  host_lt_irrefl,
}
use mongo_cxx_driver.Monitor.Hosts.{
  count, contains, insert_sorted, set_insert, set_insert_all, set_erase, keep, move_to_front,
  sets_equal, Above, IsSorted,
}

pub host_eq_self : (h : HostAndPort) → host_eq h h ≡ true
host_eq_self h = Same-host_eq h h (Same-refl h)

pub host_eq-sym : (a b : HostAndPort) → host_eq a b ≡ host_eq b a
host_eq-sym a b = elim (Bool-cases (host_eq a b)) [
  | inl e ↦ e ∙ sym (Same-host_eq b a (Same-sym a b (host_eq-Same a b e)))
  | inr n ↦ elim (Bool-cases (host_eq b a)) [
    | inl e ↦ cc (Same-host_eq a b (Same-sym b a (host_eq-Same b a e)))
    | inr m ↦ n ∙ sym m
  ]
]

-- Addresses that compare equal are equal to the same addresses.
pub host_eq-left : (a b c : HostAndPort) → host_eq a b ≡ true → host_eq a c ≡ host_eq b c
host_eq-left a b c e = elim (Bool-cases (host_eq a c)) [
  | inl f ↦
      f
      ∙ sym (
          Same-host_eq b c
            (Same-trans b a c (Same-sym a b (host_eq-Same a b e)) (host_eq-Same a c f)))
  | inr n ↦ elim (Bool-cases (host_eq b c)) [
    | inl f ↦ cc (Same-host_eq a c (Same-trans a b c (host_eq-Same a b e) (host_eq-Same b c f)))
    | inr m ↦ n ∙ sym m
  ]
]

pub count-Same :
    (a b : HostAndPort) (xs : List HostAndPort) → host_eq a b ≡ true → count a xs ≡ count b xs
unfolding count
count-Same a b [] e = refl
count-Same a b (x ∷ xs) e =
    ground (arith, count-Same a b xs e, host_eq-left a b x e, host_eq-sym a x, host_eq-sym b x)

pub count-append :
    (h : HostAndPort) (xs ys : List HostAndPort) → count h (xs ++ ys) ≡ count h xs + count h ys
unfolding count
count-append h [] ys = omega arith
count-append h (x ∷ xs) ys = omega (arith, count-append h xs ys)

count-insert_sorted :
    (h x : HostAndPort) (xs : List HostAndPort)
    → count h (insert_sorted x xs) ≡ (if host_eq x h then 1 else 0) + count h xs
unfolding count insert_sorted
count-insert_sorted h x [] = refl
count-insert_sorted h x (y ∷ ys) = ground (arith, count-insert_sorted h x ys)

pub count-set_insert :
    (h x : HostAndPort) (xs : List HostAndPort)
    → count h (set_insert x xs)
      ≡ (if host_eq x h then (if ltb 0 (count h xs) then count h xs else 1) else count h xs)
unfolding set_insert contains
count-set_insert h x xs = elim (Bool-cases (host_eq x h)) [
  | inl e ↦ rw (e, count-Same x h xs e) (ground (arith, e, count-insert_sorted h x xs))
  | inr n ↦ rw n (ground (arith, n, count-insert_sorted h x xs))
]

pub count-set_erase :
    (h x : HostAndPort) (xs : List HostAndPort)
    → count h (set_erase x xs) ≡ (if host_eq x h then 0 else count h xs)
unfolding count set_erase
count-set_erase h x [] = ground arith
count-set_erase h x (y ∷ ys) = ground (
  arith,
  count-set_erase h x ys,
  host_eq-left x h y,
  host_eq-sym x y,
  host_eq-sym h y,
  host_eq-left y x h,
)

-- A test that does not tell equal addresses apart.
abbrev pub Respects : (HostAndPort → Bool) → Type 0
Respects p = (a b : HostAndPort) → host_eq a b ≡ true → p a ≡ p b

pub count-keep :
    (p : HostAndPort → Bool) (h : HostAndPort) (xs : List HostAndPort)
    → Respects p
    → count h (keep p xs) ≡ (if p h then count h xs else 0)
unfolding count keep
count-keep p h [] r = ground arith
count-keep p h (x ∷ xs) r = ground (arith, count-keep p h xs r, r x h)

pub contains-Respects : (xs : List HostAndPort) → Respects (λ x. contains x xs)
unfolding contains
contains-Respects xs a b e = rw (count-Same a b xs e)

pub count-move_to_front :
    (h x : HostAndPort) (xs : List HostAndPort) → count h (move_to_front x xs) ≡ count h xs
unfolding move_to_front
count-move_to_front h x xs =
    rw (count-append h (keep (λ y. host_eq y x) xs) (keep (λ y. not (host_eq y x)) xs)) (
      ground (
        arith,
        count-keep (λ y. host_eq y x) h xs (λ a b e. host_eq-left a b x e),
        count-keep (λ y. not (host_eq y x)) h xs (λ a b e. ground (arith, host_eq-left a b x e)),
      ))

pub count-sets_equal :
    (h : HostAndPort) (xs ys : List HostAndPort) → sets_equal xs ys ≡ true → count h xs ≡ count h ys
unfolding count sets_equal
count-sets_equal h [] [] e = refl
count-sets_equal h [] (y ∷ ys) e = cc
count-sets_equal h (x ∷ xs) [] e = cc
count-sets_equal h (x ∷ xs) (y ∷ ys) e =
    ground (arith, count-sets_equal h xs ys, host_eq-left x y h)

pub lt-not_eq : (a b : HostAndPort) → host_lt a b ≡ true → host_eq a b ≡ false
lt-not_eq a b h = elim (Bool-cases (host_eq a b)) [
  | inl e ↦ cc (host_lt_irrefl a b (host_eq-Same a b e))
  | inr n ↦ n
]

pub Above-trans :
    (a b : HostAndPort) (xs : List HostAndPort) → host_lt a b ≡ true → Above b xs → Above a xs
Above-trans a b [] h k = tt
Above-trans a b (x ∷ xs) h k = host_lt_trans a b x h k

-- An address below the first of a sorted list is not in it.
pub count-Above :
    (h : HostAndPort) (xs : List HostAndPort) → IsSorted xs → Above h xs → count h xs ≡ 0
unfolding count
count-Above h [] s a = refl
count-Above h (x ∷ xs) s a =
    ground (arith, host_eq-sym x h, lt-not_eq h x, count-Above h xs s.1 (Above-trans h x xs a s.0))

pub not_lt-eq : (a b : HostAndPort) → host_lt a b ≡ false → host_eq a b ≡ false → host_lt b a ≡ true
not_lt-eq a b h n = elim (Bool-cases (host_lt b a)) [
  | inl e ↦ e
  | inr m ↦ cc (Same-host_eq a b (host_lt_connex a b h m))
]

-- A sorted list holds an address once at most.
pub count-IsSorted : (h : HostAndPort) (xs : List HostAndPort) → IsSorted xs → count h xs ≤ 1
unfolding count
count-IsSorted h [] s = omega arith
count-IsSorted h (x ∷ xs) s =
    ground (arith, count-IsSorted h xs s.1, count-Above x xs s.1 s.0, count-Same x h xs)

Above-insert_sorted :
    (a h : HostAndPort) (xs : List HostAndPort)
    → host_lt a h ≡ true
    → Above a xs
    → Above a (insert_sorted h xs)
unfolding insert_sorted
Above-insert_sorted a h [] l k = l
Above-insert_sorted a h (x ∷ xs) l k = elim (Bool-cases (host_lt x h)) [
  | inl e ↦ rw e k
  | inr e ↦ rw e l
]

pub IsSorted-insert_sorted :
    (h : HostAndPort) (xs : List HostAndPort)
    → count h xs ≡ 0
    → IsSorted xs
    → IsSorted (insert_sorted h xs)
unfolding insert_sorted count
IsSorted-insert_sorted h [] c s = (tt, tt)
IsSorted-insert_sorted h (x ∷ xs) c s = elim (Bool-cases (host_lt x h)) [
  | inl e ↦ rw e (Above-insert_sorted x h xs e s.0, IsSorted-insert_sorted h xs (ground arith) s.1)
  | inr e ↦ rw e (not_lt-eq x h e (ground arith), s)
]

pub IsSorted-set_insert :
    (h : HostAndPort) (xs : List HostAndPort) → IsSorted xs → IsSorted (set_insert h xs)
unfolding set_insert contains
IsSorted-set_insert h xs s = elim (Bool-cases (ltb 0 (count h xs))) [
  | inl e ↦ rw e s
  | inr e ↦ rw e (IsSorted-insert_sorted h xs (ground arith) s)
]

pub IsSorted-set_insert_all :
    (xs ys : List HostAndPort) → IsSorted ys → IsSorted (set_insert_all xs ys)
unfolding set_insert_all
IsSorted-set_insert_all [] ys s = s
IsSorted-set_insert_all (x ∷ xs) ys s =
    IsSorted-set_insert_all xs (set_insert x ys) (IsSorted-set_insert x ys s)

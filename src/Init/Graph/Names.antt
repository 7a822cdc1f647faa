-- ===== src/Init/Graph/Names.antt =====
-- The lists of names of src/mongo/base/initializer_dependency_graph.cpp.
use mongo_cxx_driver.Base.{
  ◌≡◌, refl, ap, true, false, ◌||◌, some, ◌⊎◌, List, [], ◌∷◌, ◌++◌, arith, Bool-cases, inl, inr,
}
use mongo_cxx_driver.Net.HostAndPort.{text_eq}
use mongo_cxx_driver.Net.HostAndPort.Order.{text_eq_iff}
use mongo_cxx_driver.Init.Graph.{Name, contains, find_name, back, pop_back}

pub text_eq_self : (n : Name) → text_eq n n ≡ true
text_eq_self n = (text_eq_iff n n).1 refl

-- A name is in a list that is put together just if it is in one of the parts.
pub contains-append :
    (xs ys : List Name) (n : Name) → contains (xs ++ ys) n ≡ (contains xs n || contains ys n)
unfolding contains
contains-append [] ys n = refl
contains-append (x ∷ xs) ys n = ground (arith, contains-append xs ys n)

pub contains_last : (xs : List Name) (n : Name) → contains (xs ++ n ∷ []) n ≡ true
unfolding contains
contains_last xs n = ground (arith, contains-append xs (n ∷ []) n, text_eq_self n)

pub contains_old :
    (xs : List Name) (n m : Name) → contains xs m ≡ true → contains (xs ++ n ∷ []) m ≡ true
contains_old xs n m h = ground (arith, contains-append xs (n ∷ []) m)

pub contains_append_cases :
    (xs : List Name) (n m : Name) → contains (xs ++ n ∷ []) m ≡ (contains xs m || text_eq n m)
unfolding contains
contains_append_cases xs n m = ground (arith, contains-append xs (n ∷ []) m)

pub back-append : (xs : List Name) (n : Name) → back (xs ++ n ∷ []) ≡ some n
unfolding back
back-append [] n = refl
back-append (x ∷ []) n = refl
back-append (x ∷ y ∷ ys) n = back-append (y ∷ ys) n

pub pop_back-append : (xs : List Name) (n : Name) → pop_back (xs ++ n ∷ []) ≡ xs
unfolding pop_back
pop_back-append [] n = refl
pop_back-append (x ∷ []) n = refl
pop_back-append (x ∷ y ∷ ys) n = ap (λ l. x ∷ l) (pop_back-append (y ∷ ys) n)

pub find_name-new :
    (xs : List Name) (n : Name) → contains xs n ≡ false → find_name n (xs ++ n ∷ []) ≡ n ∷ []
unfolding contains find_name
find_name-new [] n h = ground (arith, text_eq_self n)
find_name-new (x ∷ xs) n h = ground (arith, find_name-new xs n)

-- A name that is in the list already begins what is found, and ends it.
pub find_name-old :
    (xs : List Name) (n : Name)
    → contains xs n ≡ true
    → (before between : List Name) × (xs ≡ before ++ n ∷ between)
      × (find_name n (xs ++ n ∷ []) ≡ n ∷ between ++ n ∷ [])
unfolding contains find_name
find_name-old [] n h = cc
find_name-old (x ∷ xs) n h = elim (Bool-cases (text_eq x n)) [
  | inl e ↦ ([], xs, ground (arith, text_eq_iff x n), ground (arith, text_eq_iff x n))
  | inr e ↦
      let (before, between, p, q) = find_name-old xs n (ground arith) in
      (x ∷ before, between, ground arith, ground arith)
]

pub contains_cons :
    (p : Name) (ps : List Name) (m : Name)
    → contains (p ∷ ps) m ≡ true
    → (contains (p ∷ []) m ≡ true) ⊎ (contains ps m ≡ true)
unfolding contains
contains_cons p ps m h = ground arith

pub contains_nil : (xs : List Name) → (m : Name) → contains [] m ≡ true → contains xs m ≡ true
unfolding contains
contains_nil xs m h = cc

pub contains_head : (n : Name) (ns : List Name) → contains (n ∷ ns) n ≡ true
unfolding contains
contains_head n ns = ground (arith, text_eq_self n)

pub contains_tail :
    (n : Name) (ns : List Name) (m : Name) → contains ns m ≡ true → contains (n ∷ ns) m ≡ true
unfolding contains
contains_tail n ns m h = ground arith

pub contains_one :
    (xs : List Name) (n : Name)
    → contains xs n ≡ true
    → (m : Name) → contains (n ∷ []) m ≡ true
    → contains xs m ≡ true
unfolding contains
contains_one xs n h m e = ground (arith, text_eq_iff n m)

-- ===== src/Init/Graph/Order.antt =====
-- What a sort of the graph of src/mongo/base/initializer_dependency_graph.cpp is to find: an order in which
-- each node stands behind its prerequisites, or the reason that there is none.
use mongo_cxx_driver.Base.{
  ℕ, suc, ◌<◌, ◌≤◌, ◌≡◌, sym, subst, append_assoc, ◌⊎◌, true, false, none, some, List, [], ◌∷◌,
  ◌++◌, arith, length,
}
use mathlib.Core.List.{append-nil}
use mongo_cxx_driver.Net.HostAndPort.Order.{text_eq_iff}
use mongo_cxx_driver.Init.Graph.{Name, NodeData, Graph, contains, find}
use mongo_cxx_driver.Init.Graph.Names.{contains_append_cases, text_eq_self}

-- Every name of one list is in the other.
abbrev pub Includes : List Name → List Name → Type 0
Includes xs ps = (m : Name) → contains ps m ≡ true → contains xs m ≡ true

module _ {F : Type 0} (g : Graph F) where
  -- A node with a function, whose prerequisites are in the list.
  pub record IsReady (before : List Name) (n : Name) : Type 0 where
    pub node : NodeData F
    pub found : find n g ≡ some node
    pub fn : F
    pub has_fn : node.fn ≡ some fn
    pub satisfied : Includes before node.prerequisites

  -- Each name is new, names a node with a function, and stands behind all its prerequisites.
  abbrev pub IsOrdered : List Name → List Name → Type 0
  IsOrdered before [] = Unit
  IsOrdered before (n ∷ ns) =
      (contains before n ≡ false) × IsReady before n × IsOrdered (before ++ n ∷ []) ns

  pub IsOrdered-concat :
      (before xs : List Name) (n : Name)
      → IsOrdered before xs
      → contains (before ++ xs) n ≡ false
      → IsReady (before ++ xs) n
      → IsOrdered before (xs ++ n ∷ [])
  IsOrdered-concat before [] n o new r =
      (rw append-nil at new, subst (λ b. IsReady b n) (append-nil before) r, tt)
  IsOrdered-concat before (x ∷ xs) n o new r =
      let e = append_assoc before (x ∷ []) xs in
      (
        o.0,
        o.1,
        IsOrdered-concat (before ++ x ∷ []) xs n o.2 (rw e new)
            (subst (λ b. IsReady b n) (sym e) r),
      )

  -- One node has another as a prerequisite.
  pub record IsEdge (n p : Name) : Type 0 where
    pub node : NodeData F
    pub found : find n g ≡ some node
    pub needs : contains node.prerequisites p ≡ true

  -- Each name has the next as a prerequisite.
  abbrev pub IsChain : List Name → Type 0
  IsChain [] = Unit
  IsChain (n ∷ []) = Unit
  IsChain (n ∷ p ∷ ps) = IsEdge n p × IsChain (p ∷ ps)

  pub IsChain-suffix : (xs ys : List Name) → IsChain (xs ++ ys) → IsChain ys
  IsChain-suffix [] ys c = c
  IsChain-suffix (x ∷ []) [] c = tt
  IsChain-suffix (x ∷ []) (y ∷ ys) c = c.1
  IsChain-suffix (x ∷ z ∷ xs) ys c = IsChain-suffix (z ∷ xs) ys c.1

  pub IsChain-concat :
      (xs : List Name) (n p : Name)
      → IsChain (xs ++ n ∷ [])
      → IsEdge n p
      → IsChain ((xs ++ n ∷ []) ++ p ∷ [])
  IsChain-concat [] n p c e = (e, tt)
  IsChain-concat (x ∷ []) n p c e = (c.0, (e, tt))
  IsChain-concat (x ∷ z ∷ xs) n p c e = (c.0, IsChain-concat (z ∷ xs) n p c.1 e)

  -- A chain that ends where it begins.
  pub record IsCycle (names : List Name) : Type 0 where
    pub start : Name
    pub between : List Name
    pub closed : names ≡ start ∷ between ++ start ∷ []
    pub chain : IsChain names

  -- A name without a function, which is a node or which a node has as a prerequisite.
  abbrev pub IsNeeded : Name → Type 0
  IsNeeded m = ((d : NodeData F) × (find m g ≡ some d)) ⊎ ((n : Name) × IsEdge n m)

module _ {F : Type 0} where
  -- No name has two entries.
  abbrev pub IsMap : Graph F → Type 0
  IsMap [] = Unit
  IsMap ((n, d) ∷ g) = (find n g ≡ none) × IsMap g

  -- The nodes that are not in progress.
  abbrev pub idle : List Name → Graph F → ℕ
  idle xs [] = 0
  idle xs ((n, d) ∷ g) =
      let rest = idle xs g in elim (contains xs n) [ true ↦ rest | false ↦ suc rest ]

  pub idle_le : (xs : List Name) (g : Graph F) → idle xs g ≤ length g
  idle_le xs [] = omega arith
  idle_le xs ((n, d) ∷ g) = ground (arith, idle_le xs g)

  pub idle_grows : (xs : List Name) (n : Name) (g : Graph F) → idle (xs ++ n ∷ []) g ≤ idle xs g
  idle_grows xs n [] = omega arith
  idle_grows xs n ((m, d) ∷ g) = ground (arith, idle_grows xs n g, contains_append_cases xs n m)

  -- A name that goes into progress is one node less.
  pub idle_less :
      (xs : List Name) (n : Name) (g : Graph F) (d : NodeData F)
      → find n g ≡ some d
      → contains xs n ≡ false
      → idle (xs ++ n ∷ []) g < idle xs g
  unfolding find
  idle_less xs n [] d f new = cc
  idle_less xs n ((m, e) ∷ g) d f new = ground (
    arith,
    idle_less xs n g d,
    idle_grows xs n g,
    contains_append_cases xs n m,
    text_eq_iff m n,
    text_eq_iff n m,
    text_eq_self n,
  )

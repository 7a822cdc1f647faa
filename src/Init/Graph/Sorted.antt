-- ===== src/Init/Graph/Sorted.antt =====
-- `topSort` of src/mongo/base/initializer_dependency_graph.cpp.
use mongo_cxx_driver.Base.{
  ℕ, suc, ◌<◌, ◌≡◌, refl, subst, ◌∙◌, ◌≢◌, some, none, List, [], ◌∷◌, ◌++◌, arith, length,
}
use mongo_cxx_driver.Net.HostAndPort.Order.{text_eq_iff}
use mongo_cxx_driver.Init.Graph.{
  Name, NodeData, Graph, contains, find, get_initializer_function, Sort, no_sort, Outcome, returned,
  out_of_fuel, fault, status_ok, status_of, bad_value, duplicate_key, internal_error, other_code,
  graph_contains_cycle, cycle_message, sort_nodes, recursive_top_sort, top_sort,
}
use mongo_cxx_driver.Init.Graph.Names.{text_eq_self, contains_cons, contains_nil}
use mongo_cxx_driver.Init.Graph.Order.{
  Includes, IsOrdered, IsEdge, IsChain, IsCycle, IsNeeded, IsMap, idle_le,
}
use mongo_cxx_driver.Init.Graph.Search.{Inv, Found, go_on-Found, self_Visited}
use mongo_cxx_driver.Init.Graph.Visit.{recursive_top_sort-Found}

module _ {F : Type 0} where
  abbrev pub names : Graph F → List Name
  names [] = []
  names ((n, d) ∷ g) = n ∷ names g

  -- Every entry of the list is what `find` finds.
  abbrev Entries : Graph F → Graph F → Type 0
  Entries g [] = Unit
  Entries g ((n, d) ∷ rest) = (find n g ≡ some d) × Entries g rest

  Entries-grow :
      (n : Name) (d : NodeData F) (g rest : Graph F)
      → find n g ≡ none
      → Entries g rest
      → Entries ((n, d) ∷ g) rest
  unfolding find
  Entries-grow n d g [] new es = tt
  Entries-grow n d g ((m, e) ∷ rest) new es =
      (ground (arith, es.0, text_eq_iff n m), Entries-grow n d g rest new es.1)

  IsMap-Entries : (g : Graph F) → IsMap g → Entries g g
  unfolding find
  IsMap-Entries [] h = tt
  IsMap-Entries ((n, d) ∷ g) h = (rw text_eq_self, Entries-grow n d g g h.0 (IsMap-Entries g h.1))

module _ {F : Type 0} (g : Graph F) where
  -- What `topSort` is to answer: an order of all nodes, a cycle, or a name that has no function.
  abbrev pub IsAnswer : Outcome → Type 0
  IsAnswer (returned status_ok t) = IsOrdered g [] t.sorted × Includes t.sorted (names g)
  IsAnswer (returned (status_of bad_value m) t) =
      (get_initializer_function m g ≡ none) × IsNeeded g m
  IsAnswer (returned (status_of graph_contains_cycle m) t) =
      IsCycle g t.sorted × (m ≡ cycle_message t.sorted)
  IsAnswer (returned (status_of duplicate_key m) t) = ⊥
  IsAnswer (returned (status_of internal_error m) t) = ⊥
  IsAnswer (returned (status_of (other_code c) m) t) = ⊥
  IsAnswer out_of_fuel = ⊥
  IsAnswer fault = ⊥

  Found-IsAnswer : (o : Outcome) → Found g (names g) no_sort o → IsAnswer o
  Found-IsAnswer (returned status_ok t) v =
      (v.inv.ordered, subst (λ l. Includes l (names g)) v.inv.same v.done)
  Found-IsAnswer (returned (status_of bad_value m) t) f = f
  Found-IsAnswer (returned (status_of graph_contains_cycle m) t) f = f
  Found-IsAnswer (returned (status_of duplicate_key m) t) f = f
  Found-IsAnswer (returned (status_of internal_error m) t) f = f
  Found-IsAnswer (returned (status_of (other_code c) m) t) f = f
  Found-IsAnswer out_of_fuel f = f
  Found-IsAnswer fault f = f

  -- The loop over the nodes, between two of which none is in progress.
  sort_nodes-Found :
      (rest : Graph F) (s : Sort)
      → Entries g rest
      → Inv g s
      → s.in_progress ≡ []
      → Found g (names rest) s (sort_nodes (recursive_top_sort (suc (length g)) g) rest s)
  unfolding sort_nodes
  sort_nodes-Found [] s es i e = self_Visited g s [] i (contains_nil s.visited)
  sort_nodes-Found ((n, d) ∷ rest) s es i e =
      go_on-Found g (n ∷ []) (names rest) (n ∷ names rest) s
        (recursive_top_sort (suc (length g)) g n d s)
        (sort_nodes (recursive_top_sort (suc (length g)) g) rest)
        (recursive_top_sort-Found g (suc (length g)) n d s record {
          inv = i;
          found = es.0;
          chain = rw e tt;
          enough = omega (arith, idle_le s.in_progress g);
        })
        (contains_cons n (names rest)) (λ t v. sort_nodes-Found rest t es.1 v.inv (v.stack ∙ e))

  no_sort-Inv : Inv g no_sort
  unfolding contains
  no_sort-Inv = record { ordered = tt; same = refl; apart = λ n h. refl }

  -- The sort of a graph always ends with an answer. If it returns OK, the names are those of all nodes, each of
  -- them once, with a function, and behind all its prerequisites. If it returns a cycle, the names are one, from
  -- a node along prerequisites back to the node, and the message lists them. If it returns a bad value,
  -- the name is that of a node, or of a prerequisite of a node, that has no function. It returns nothing else.
  pub top_sort-IsAnswer : IsMap g → IsAnswer (top_sort g)
  unfolding top_sort
  top_sort-IsAnswer h =
      Found-IsAnswer (top_sort g) (sort_nodes-Found g no_sort (IsMap-Entries g h) no_sort-Inv refl)

  module _ (rank : Name → ℕ) (falls : (n p : Name) → IsEdge g n p → rank p < rank n) where
    chain_falls :
        (n p : Name) (between : List Name) → IsChain g (n ∷ between ++ p ∷ []) → rank p < rank n
    chain_falls n p [] c = falls n p c.0
    chain_falls n p (q ∷ qs) c = omega (arith, falls n q c.0, chain_falls q p qs c.1)

    no-IsCycle : (xs : List Name) → ¬ IsCycle g xs
    no-IsCycle xs c =
        absurd (
          omega (arith, chain_falls c.start c.start c.between (subst (IsChain g) c.closed c.chain)))

    answer_sorted :
        (o : Outcome)
        → ((m : Name) → IsNeeded g m → get_initializer_function m g ≢ none)
        → IsAnswer o
        → (t : Sort) × (o ≡ returned status_ok t)
          × IsOrdered g [] t.sorted
          × Includes t.sorted (names g)
    answer_sorted (returned status_ok t) all a = (t, refl, a.0, a.1)
    answer_sorted (returned (status_of bad_value m) t) all a = absurd (all m a.1 a.0)
    answer_sorted (returned (status_of graph_contains_cycle m) t) all a =
        absurd (no-IsCycle t.sorted a.0)
    answer_sorted (returned (status_of duplicate_key m) t) all a = absurd a
    answer_sorted (returned (status_of internal_error m) t) all a = absurd a
    answer_sorted (returned (status_of (other_code c) m) t) all a = absurd a
    answer_sorted out_of_fuel all a = absurd a
    answer_sorted fault all a = absurd a

    -- A graph without cycles, as the ranks show, in which all nodes and all prerequisites have functions, is
    -- sorted: `topSort` returns OK, with each node behind its prerequisites.
    pub top_sort-sorts :
        IsMap g
        → ((m : Name) → IsNeeded g m → get_initializer_function m g ≢ none)
        → (t : Sort) × (top_sort g ≡ returned status_ok t)
          × IsOrdered g [] t.sorted
          × Includes t.sorted (names g)
    top_sort-sorts h all = answer_sorted (top_sort g) all (top_sort-IsAnswer h)

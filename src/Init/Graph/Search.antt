-- ===== src/Init/Graph/Search.antt =====
-- `recursiveTopSort` of src/mongo/base/initializer_dependency_graph.cpp, one call of it.
use mongo_cxx_driver.Base.{
  ℕ, ◌<◌, ◌≡◌, refl, sym, subst, ◌∙◌, true, false, some, none, List, [], ◌∷◌, ◌++◌, Option-cases,
  inl, inr, ◌⊎◌,
}
use mongo_cxx_driver.Init.Graph.{
  Name, NodeData, Graph, contains, find, get_initializer_function, Sort, Outcome, returned,
  out_of_fuel, fault, go_on, status_ok, status_of, bad_value, graph_contains_cycle, duplicate_key,
  internal_error, other_code, cycle_message, sort_each,
}
use mongo_cxx_driver.Init.Graph.Names.{contains_cons, contains_nil, contains_head, contains_tail}
use mongo_cxx_driver.Init.Graph.Order.{
  Includes, IsOrdered, IsEdge, IsChain, IsChain-concat, IsCycle, IsNeeded, idle,
}

module _ {F : Type 0} (g : Graph F) where
  -- Between two calls: what was visited is what was sorted, in order, and none of it is in progress.
  pub record Inv (s : Sort) : Type 0 where
    pub ordered : IsOrdered g [] s.sorted
    pub same : s.visited ≡ s.sorted
    pub apart : (n : Name) → contains s.in_progress n ≡ true → contains s.visited n ≡ false

  -- The names were visited, and what was visited before still is.
  pub record Visited (ns : List Name) (s t : Sort) : Type 0 where
    pub inv : Inv t
    pub stack : t.in_progress ≡ s.in_progress
    pub grown : Includes t.visited s.visited
    pub done : Includes t.visited ns

  abbrev pub Found : List Name → Sort → Outcome → Type 0
  Found ns s (returned status_ok t) = Visited ns s t
  Found ns s (returned (status_of bad_value m) t) =
      (get_initializer_function m g ≡ none) × IsNeeded g m
  Found ns s (returned (status_of graph_contains_cycle m) t) =
      IsCycle g t.sorted × (m ≡ cycle_message t.sorted)
  Found ns s (returned (status_of duplicate_key m) t) = ⊥
  Found ns s (returned (status_of internal_error m) t) = ⊥
  Found ns s (returned (status_of (other_code c) m) t) = ⊥
  Found ns s out_of_fuel = ⊥
  Found ns s fault = ⊥

  Visited-trans :
      {ns ms ls : List Name} {s t u : Sort}
      → Visited ns s t
      → Visited ms t u
      → ((m : Name) → contains ls m ≡ true → (contains ns m ≡ true) ⊎ (contains ms m ≡ true))
      → Visited ls s u
  Visited-trans v w parts = record {
    inv = w.inv;
    stack = w.stack ∙ v.stack;
    grown = λ m h. w.grown m (v.grown m h);
    done = λ m h. elim (parts m h) [ inl a ↦ w.grown m (v.done m a) | inr b ↦ w.done m b ];
  }

  Found-trans :
      (ns ms ls : List Name) (s t : Sort) (o : Outcome)
      → Visited ns s t
      → ((m : Name) → contains ls m ≡ true → (contains ns m ≡ true) ⊎ (contains ms m ≡ true))
      → Found ms t o
      → Found ls s o
  Found-trans ns ms ls s t (returned status_ok u) v parts w = Visited-trans v w parts
  Found-trans ns ms ls s t (returned (status_of bad_value m) u) v parts w = w
  Found-trans ns ms ls s t (returned (status_of graph_contains_cycle m) u) v parts w = w
  Found-trans ns ms ls s t (returned (status_of duplicate_key m) u) v parts w = w
  Found-trans ns ms ls s t (returned (status_of internal_error m) u) v parts w = w
  Found-trans ns ms ls s t (returned (status_of (other_code c) m) u) v parts w = w
  Found-trans ns ms ls s t out_of_fuel v parts w = w
  Found-trans ns ms ls s t fault v parts w = w

  -- A failure is passed on, and so it does not matter where it comes from.
  pub go_on_lem :
      (ns ls : List Name) (s r : Sort) (o : Outcome) (k : Sort → Outcome)
      → Found ns s o
      → ((t : Sort) → Visited ns s t → Found ls r (k t))
      → Found ls r (go_on o k)
  go_on_lem ns ls s r (returned status_ok t) k f next = next t f
  go_on_lem ns ls s r (returned (status_of bad_value m) t) k f next = f
  go_on_lem ns ls s r (returned (status_of graph_contains_cycle m) t) k f next = f
  go_on_lem ns ls s r (returned (status_of duplicate_key m) t) k f next = f
  go_on_lem ns ls s r (returned (status_of internal_error m) t) k f next = f
  go_on_lem ns ls s r (returned (status_of (other_code c) m) t) k f next = f
  go_on_lem ns ls s r out_of_fuel k f next = f
  go_on_lem ns ls s r fault k f next = f

  -- The steps of a loop one after another.
  pub go_on-Found :
      (ns ms ls : List Name) (s : Sort) (o : Outcome) (k : Sort → Outcome)
      → Found ns s o
      → ((m : Name) → contains ls m ≡ true → (contains ns m ≡ true) ⊎ (contains ms m ≡ true))
      → ((t : Sort) → Visited ns s t → Found ms t (k t))
      → Found ls s (go_on o k)
  go_on-Found ns ms ls s o k f parts next =
      go_on_lem ns ls s s o k f (λ t v. Found-trans ns ms ls s t (k t) v parts (next t v))

  -- What a call relies on.
  pub record IsCalled (fuel : ℕ) (n : Name) (d : NodeData F) (s : Sort) : Type 0 where
    pub inv : Inv s
    pub found : find n g ≡ some d
    pub chain : IsChain g (s.in_progress ++ n ∷ [])
    pub enough : idle s.in_progress g < fuel

  pub self_Visited : (s : Sort) (ns : List Name) → Inv s → Includes s.visited ns → Visited ns s s
  self_Visited s ns i h = record { inv = i; stack = refl; grown = λ m e. e; done = h }

  sort_each-missing :
      (call : Name → NodeData F → Sort → Outcome) (p : Name) (ps : List Name) (s : Sort)
      → find p g ≡ none
      → sort_each call g (p ∷ ps) s ≡ returned (status_of bad_value p) s
  unfolding sort_each
  sort_each-missing call p ps s h = rw (h, sort_each)

  sort_each-found :
      (call : Name → NodeData F → Sort → Outcome) (p : Name) (ps : List Name) (s : Sort)
      (d : NodeData F)
      → find p g ≡ some d
      → sort_each call g (p ∷ ps) s ≡ go_on (call p d s) (sort_each call g ps)
  unfolding sort_each
  sort_each-found call p ps s d h = rw (h, sort_each)

  no_function : (n : Name) → find n g ≡ none → get_initializer_function n g ≡ none
  unfolding get_initializer_function
  no_function n h = rw h

  -- The loop over the prerequisites of the node that went into progress last.
  pub sort_each-Found :
      (call : Name → NodeData F → Sort → Outcome) (fuel : ℕ) (xs : List Name) (n : Name)
      → ((p : Name) (d : NodeData F) (s : Sort)
          → IsCalled fuel p d s
          → Found (p ∷ []) s (call p d s))
      → IsChain g (xs ++ n ∷ [])
      → idle (xs ++ n ∷ []) g < fuel
      → (ps : List Name) (s : Sort) → ((p : Name) → contains ps p ≡ true → IsEdge g n p)
      → Inv s
      → s.in_progress ≡ xs ++ n ∷ []
      → Found ps s (sort_each call g ps s)
  sort_each-Found call fuel xs n spec c f [] s edges i e =
      unfold sort_each in self_Visited s [] i (contains_nil s.visited)
  sort_each-Found call fuel xs n spec c f (p ∷ ps) s edges i e =
      let edge = edges p (contains_head p ps) in
      elim (Option-cases (find p g)) [
        | inl missing ↦
            subst (Found (p ∷ ps) s) (sym (sort_each-missing call p ps s missing))
              (no_function p missing, inr (n, edge))
        | inr (d, found) ↦
            let chain =
              subst (λ l. IsChain g (l ++ p ∷ [])) (sym e) (IsChain-concat g xs n p c edge) in
            let enough = subst (λ l. idle l g < fuel) (sym e) f in
            subst (Found (p ∷ ps) s) (sym (sort_each-found call p ps s d found)) (
              go_on-Found (p ∷ []) ps (p ∷ ps) s (call p d s) (sort_each call g ps)
                (spec p d s record { inv = i; found = found; chain = chain; enough = enough })
                (contains_cons p ps)
                (λ t v.
                  sort_each-Found call fuel xs n spec c f ps t
                    (λ q h. edges q (contains_tail p ps q h)) v.inv (v.stack ∙ e)))
      ]

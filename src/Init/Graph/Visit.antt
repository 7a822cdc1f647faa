-- ===== src/Init/Graph/Visit.antt =====
-- `recursiveTopSort` of src/mongo/base/initializer_dependency_graph.cpp, whole.
use mongo_cxx_driver.Base.{
  ℕ, zero, suc, ◌≡◌, refl, sym, subst, ap, append_assoc, true, false, some, none, List, [], ◌∷◌,
  ◌++◌, arith, Bool-cases, Option-cases, inl, inr, length-append,
}
use mongo_cxx_driver.Net.HostAndPort.Order.{text_eq_iff}
use mongo_cxx_driver.Init.Graph.{
  Name, NodeData, Graph, contains, find, find_name, back, get_initializer_function, insert_name,
  Sort, returned, go_on, status_ok, status_of, bad_value, graph_contains_cycle, cycle_message,
  finish, sort_each, recursive_top_sort,
}
use mongo_cxx_driver.Init.Graph.Names.{
  contains_append_cases, contains_last, contains_old, text_eq_self, find_name-new, find_name-old,
  back-append, pop_back-append, contains_one,
}
use mongo_cxx_driver.Init.Graph.Order.{
  Includes, IsOrdered-concat, IsChain, IsChain-suffix, idle, idle_less,
}
use mongo_cxx_driver.Init.Graph.Search.{
  Inv, Visited, Found, IsCalled, go_on_lem, sort_each-Found, self_Visited,
}

-- The node goes into progress.
abbrev pub begin : Name → Sort → Sort
begin n s = record s { in_progress = s.in_progress ++ n ∷ [] }

-- The node at the end of its call.
abbrev pub ended : Name → Sort → Sort → Sort
ended n s t = record {
  in_progress = s.in_progress;
  visited = t.visited ++ n ∷ [];
  sorted = t.sorted ++ n ∷ [];
}

module _ {F : Type 0} (g : Graph F) (n : Name) (s : Sort) where
  begin-Inv :
      Inv g s → contains s.visited n ≡ false → contains s.in_progress n ≡ false → Inv g (begin n s)
  begin-Inv i new idle = record {
    ordered = i.ordered;
    same = i.same;
    apart =
        λ m h. ground (arith, i.apart m, contains_append_cases s.in_progress n m, text_eq_iff n m);
  }

  finish_lem :
      (t : Sort)
      → t.in_progress ≡ s.in_progress ++ n ∷ []
      → contains t.visited n ≡ false
      → finish n (back t.in_progress) t ≡ returned status_ok (ended n s t)
  unfolding finish insert_name
  finish_lem t e new =
      rw (e, back-append s.in_progress n, text_eq_self n, new, pop_back-append s.in_progress n)

  ended-Inv :
      (d : NodeData F) (f : F) (t : Sort)
      → Inv g s
      → contains s.in_progress n ≡ false
      → find n g ≡ some d
      → d.fn ≡ some f
      → Visited g d.prerequisites (begin n s) t
      → contains t.visited n ≡ false
      → Inv g (ended n s t)
  ended-Inv d f t i idle found has_fn v new = record {
    ordered =
        IsOrdered-concat g [] t.sorted n v.inv.ordered
          (subst (λ l. contains l n ≡ false) v.inv.same new)
          record {
            node = d;
            found = found;
            fn = f;
            has_fn = has_fn;
            satisfied = subst (λ l. Includes l d.prerequisites) v.inv.same v.done;
          };
    same = ap (λ l. l ++ n ∷ []) v.inv.same;
    apart = λ m h. ground (
      arith,
      v.inv.apart m,
      subst (λ l. contains l m ≡ true) (sym v.stack) (contains_old s.in_progress n m h),
      contains_append_cases t.visited n m,
      text_eq_iff n m,
    );
  }

  -- The part behind the loop over the prerequisites.
  finish-Found :
      (d : NodeData F) (f : F) (t : Sort)
      → Inv g s
      → contains s.in_progress n ≡ false
      → find n g ≡ some d
      → d.fn ≡ some f
      → Visited g d.prerequisites (begin n s) t
      → Found g (n ∷ []) s (finish n (back t.in_progress) t)
  finish-Found d f t i idle found has_fn v =
      let new : contains t.visited n ≡ false =
        v.inv.apart n
          (subst (λ l. contains l n ≡ true) (sym v.stack) (contains_last s.in_progress n)) in
      subst (Found g (n ∷ []) s) (sym (finish_lem t v.stack new)) record {
        inv = ended-Inv d f t i idle found has_fn v new;
        stack = refl;
        grown = λ m h. contains_old t.visited n m (v.grown m h);
        done = contains_one (t.visited ++ n ∷ []) n (contains_last t.visited n);
      }

module _ {F : Type 0} (g : Graph F) (fuel : ℕ) (n : Name) (d : NodeData F) (s : Sort) where
  -- The four ways through a call.
  was_visited :
      contains s.visited n ≡ true → recursive_top_sort (suc fuel) g n d s ≡ returned status_ok s
  unfolding recursive_top_sort
  was_visited h = rw h

  no_fn :
      contains s.visited n ≡ false
      → d.fn ≡ none
      → recursive_top_sort (suc fuel) g n d s ≡ returned (status_of bad_value n) s
  unfolding recursive_top_sort
  no_fn h e = ground arith

  in_cycle :
      (f : F) (between : List Name)
      → contains s.visited n ≡ false
      → d.fn ≡ some f
      → find_name n (s.in_progress ++ n ∷ []) ≡ n ∷ between ++ n ∷ []
      → recursive_top_sort (suc fuel) g n d s
        ≡ returned
            (status_of graph_contains_cycle (cycle_message (n ∷ between ++ n ∷ [])))
            record (begin n s) { sorted = n ∷ between ++ n ∷ [] }
  unfolding recursive_top_sort
  in_cycle f between h e c = ground (arith, length-append between (n ∷ []))

  goes_on :
      (f : F)
      → contains s.visited n ≡ false
      → d.fn ≡ some f
      → find_name n (s.in_progress ++ n ∷ []) ≡ n ∷ []
      → recursive_top_sort (suc fuel) g n d s
        ≡ go_on
            (sort_each (recursive_top_sort fuel g) g d.prerequisites (begin n s))
            (λ t. finish n (back t.in_progress) t)
  unfolding recursive_top_sort
  goes_on f h e c = ground arith

module _ {F : Type 0} (g : Graph F) where
  lacks_fn :
      (n : Name) (d : NodeData F)
      → find n g ≡ some d
      → d.fn ≡ none
      → get_initializer_function n g ≡ none
  unfolding get_initializer_function
  lacks_fn n d found e = rw found e

  in_cycle-Found :
      (fuel : ℕ) (n : Name) (d : NodeData F) (s : Sort) (f : F)
      → IsCalled g (suc fuel) n d s
      → contains s.visited n ≡ false
      → d.fn ≡ some f
      → contains s.in_progress n ≡ true
      → Found g (n ∷ []) s (recursive_top_sort (suc fuel) g n d s)
  in_cycle-Found fuel n d s f c new has_fn old =
      let (before, between, parts, cycle) = find_name-old s.in_progress n old in
      let whole = subst (λ l. IsChain g (l ++ n ∷ [])) parts c.chain in
      subst (Found g (n ∷ []) s) (sym (in_cycle g fuel n d s f between new has_fn cycle)) (
        record {
          start = n;
          between = between;
          closed = refl;
          chain =
              IsChain-suffix g before (n ∷ between ++ n ∷ [])
                (subst (IsChain g) (append_assoc before (n ∷ between) (n ∷ [])) whole);
        },
        refl,
      )

  -- A call with enough fuel visits its node, or returns the reason that there is no order.
  pub recursive_top_sort-Found :
      (fuel : ℕ) (n : Name) (d : NodeData F) (s : Sort)
      → IsCalled g fuel n d s
      → Found g (n ∷ []) s (recursive_top_sort fuel g n d s)
  recursive_top_sort-Found zero n d s c = absurd (omega (arith, c.enough))
  recursive_top_sort-Found (suc fuel) n d s c = elim (Bool-cases (contains s.visited n)) [
    | inl old ↦
        subst (Found g (n ∷ []) s) (sym (was_visited g fuel n d s old))
          (self_Visited g s (n ∷ []) c.inv (contains_one s.visited n old))
    | inr new ↦ elim (Option-cases d.fn) [
      | inl e ↦
          subst (Found g (n ∷ []) s) (sym (no_fn g fuel n d s new e))
            (lacks_fn n d c.found e, inl (d, c.found))
      | inr (f, e) ↦ elim (Bool-cases (contains s.in_progress n)) [
        | inl old ↦ in_cycle-Found fuel n d s f c new e old
        | inr fresh ↦
            subst (Found g (n ∷ []) s)
              (sym (goes_on g fuel n d s f new e (find_name-new s.in_progress n fresh)))
              (go_on_lem g d.prerequisites (n ∷ []) (begin n s) s
                (sort_each (recursive_top_sort fuel g) g d.prerequisites (begin n s))
                (λ t. finish n (back t.in_progress) t)
                (sort_each-Found g (recursive_top_sort fuel g) fuel s.in_progress n
                  (recursive_top_sort-Found fuel) c.chain
                  (omega (arith, c.enough, idle_less s.in_progress n g d c.found fresh))
                  d.prerequisites (begin n s)
                  (λ p h. record { node = d; found = c.found; needs = h })
                  (begin-Inv g n s c.inv new fresh) refl)
                (λ t v. finish-Found g n s d f t c.inv fresh c.found e v))
      ]
    ]
  ]

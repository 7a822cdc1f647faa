-- ===== src/Init/Execute/Laws.antt =====
-- In which order `execute` of src/mongo/base/initializer.cpp runs the initializers, and when it stops.
use mongo_cxx_driver.Base.{ℕ, ◌≡◌, refl, sym, subst, ap, Option, some, List, [], ◌∷◌, ◌++◌}
use mongo_cxx_driver.Init.Graph.{
  Name, Graph, Status, status_ok, status_of, ErrorCode, Sort, Outcome, returned, out_of_fuel, fault,
  get_initializer_function, top_sort,
}
use mongo_cxx_driver.Init.Graph.Order.{Includes, IsReady, IsOrdered, IsMap}
use mongo_cxx_driver.Init.Graph.Sorted.{names, IsAnswer, top_sort-IsAnswer}
use mongo_cxx_driver.Init.Execute.{
  Ended, finished, threw, Function, call_node, after_call, run_nodes, run_sorted, execute,
}

module _ {S : Type 0} (g : Graph (Function S)) where
  -- The initializers with these names were called in this order, each in the state that the one before it left;
  -- all but the last succeeded, and the status is that of the last.
  pub data Runs : S → List Name → S → Status → Type 0 where
    nothing : {c : S} → Runs c [] c status_ok
    more :
        {n : Name} {ns : List Name} {f : Function S} {c c' c'' : S} {st : Status}
        → get_initializer_function n g ≡ some f
        → f c ≡ (c', finished status_ok)
        → Runs c' ns c'' st
        → Runs c (n ∷ ns) c'' st
    failed :
        {n : Name} {f : Function S} {c c' : S} {e : ErrorCode} {m : List ℕ}
        → get_initializer_function n g ≡ some f
        → f c ≡ (c', finished (status_of e m))
        → Runs c (n ∷ []) c' (status_of e m)
    raised :
        {n : Name} {f : Function S} {c c' : S} {e : ErrorCode} {m : List ℕ}
        → get_initializer_function n g ≡ some f
        → f c ≡ (c', threw e m)
        → Runs c (n ∷ []) c' (status_of e m)

  -- Some front of the names was run, and all of them if the status is OK.
  pub record Ran (c : S) (all : List Name) (r : S × Status) : Type 0 where
    pub front : List Name
    pub back : List Name
    pub parts : all ≡ front ++ back
    pub runs : Runs c front r.0 r.1
    pub whole : r.1 ≡ status_ok → back ≡ []

  Ran-cons :
      (c c' : S) (n : Name) (ns : List Name) (f : Function S) (r : S × Status)
      → get_initializer_function n g ≡ some f
      → f c ≡ (c', finished status_ok)
      → Ran c' ns r
      → Ran c (n ∷ ns) r
  Ran-cons c c' n ns f r has e ran = record {
    front = n ∷ ran.front;
    back = ran.back;
    parts = ap (λ l. n ∷ l) ran.parts;
    runs = more has e ran.runs;
    whole = ran.whole;
  }

  after_call-Ran :
      (c : S) (n : Name) (ns : List Name) (f : Function S) (x : S × Ended)
      → get_initializer_function n g ≡ some f
      → f c ≡ x
      → ((c' : S) → Ran c' ns (run_nodes g ns c'))
      → Ran c (n ∷ ns) (after_call x (run_nodes g ns))
  after_call-Ran c n ns f (c', finished status_ok) has e rest =
      Ran-cons c c' n ns f (run_nodes g ns c') has e (rest c')
  after_call-Ran c n ns f (c', finished (status_of k m)) has e rest = record {
    front = n ∷ [];
    back = ns;
    parts = refl;
    runs = failed has e;
    whole = λ h. cc;
  }
  after_call-Ran c n ns f (c', threw k m) has e rest = record {
    front = n ∷ [];
    back = ns;
    parts = refl;
    runs = raised has e;
    whole = λ h. cc;
  }

  has_function :
      (before : List Name) (n : Name)
      → IsReady g before n
      → (f : Function S) × (get_initializer_function n g ≡ some f)
  unfolding get_initializer_function
  has_function before n r = (r.fn, rw r.found r.has_fn)

  run_nodes-Ran :
      (before ns : List Name) (c : S) → IsOrdered g before ns → Ran c ns (run_nodes g ns c)
  unfolding run_nodes
  run_nodes-Ran before [] c o = record {
    front = [];
    back = [];
    parts = refl;
    runs = nothing;
    whole = λ h. refl;
  }
  run_nodes-Ran before (n ∷ ns) c o =
      let (f, has) = has_function before n o.1 in
      subst (λ x. Ran c (n ∷ ns) (call_node x n c (run_nodes g ns))) (sym has)
        (after_call-Ran c n ns f (f c) has refl (λ c'. run_nodes-Ran (before ++ n ∷ []) ns c' o.2))

  -- What `execute` may return: the error of the sort, with no initializer run, or what a run of the sorted
  -- names leaves.
  pub data IsExecuted (c : S) : Option (S × Status) → Type 0 where
    unsorted :
        {e : ErrorCode} {m : List ℕ} {t : Sort}
        → top_sort g ≡ returned (status_of e m) t
        → IsExecuted c (some (c, status_of e m))
    sorted :
        {r : S × Status} (order : List Name)
        → IsOrdered g [] order
        → Includes order (names g)
        → Ran c order r
        → IsExecuted c (some r)

  run_sorted-IsExecuted :
      (c : S) (o : Outcome) → top_sort g ≡ o → IsAnswer g o → IsExecuted c (run_sorted g o c)
  run_sorted-IsExecuted c (returned status_ok t) e a =
      sorted t.sorted a.0 a.1 (run_nodes-Ran [] t.sorted c a.0)
  run_sorted-IsExecuted c (returned (status_of k m) t) e a = unsorted e
  run_sorted-IsExecuted c out_of_fuel e a = absurd a
  run_sorted-IsExecuted c fault e a = absurd a

  -- The initializers are run one after another in an order of all nodes in which each stands behind its
  -- prerequisites, up to the first that fails, whose status is returned with what the calls did; if none
  -- fails all of them are run. If there is no such order none is run, and the status is the sort's.
  pub execute-IsExecuted : IsMap g → (c : S) → IsExecuted c (execute g c)
  execute-IsExecuted h c =
      unfold execute in run_sorted-IsExecuted c (top_sort g) refl (top_sort-IsAnswer g h)

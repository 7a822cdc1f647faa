-- ===== src/Init/Graph/Added.antt =====
-- `addInitializer` of src/mongo/base/initializer_dependency_graph.cpp: the nodes and prerequisites that it adds.
use mongo_cxx_driver.Base.{
  ◌≡◌, refl, sym, subst, ◌∙◌, ap, inl, inr, Bool-cases, Option-cases, Bool, false, ◌&&◌, ◌||◌,
  Option, none, some, List, [], ◌∷◌, arith, if◌then◌else◌,
}
use mongo_cxx_driver.Net.HostAndPort.{text_eq}
use mongo_cxx_driver.Net.HostAndPort.Order.{text_eq_iff}
use mongo_cxx_driver.Init.Graph.{
  Name, NodeData, Graph, contains, insert_name, insert_names, find, update_node, add_dependents,
  function_of, get_initializer_function, add_initializer, status_ok, status_of, duplicate_key,
}
use mongo_cxx_driver.Init.Graph.Names.{text_eq_self, contains_append_cases}
use mongo_cxx_driver.Init.Graph.Order.{IsMap}

insert_name_lem :
    (n : Name) (xs : List Name) (m : Name)
    → contains (insert_name n xs) m ≡ (contains xs m || text_eq n m)
unfolding insert_name
insert_name_lem n xs m = ground (arith, contains_append_cases xs n m, text_eq_iff n m)

insert_names_lem :
    (ns xs : List Name) (m : Name)
    → contains (insert_names ns xs) m ≡ (contains xs m || contains ns m)
unfolding insert_names contains
insert_names_lem [] xs m = ground arith
insert_names_lem (n ∷ ns) xs m =
    ground (arith, insert_names_lem ns (insert_name n xs) m, insert_name_lem n xs m)

module _ {F : Type 0} where
  abbrev node_or_new : Option (NodeData F) → NodeData F
  node_or_new none = record { fn = none; prerequisites = [] }
  node_or_new (some d) = d

  find-update_node :
      (n : Name) (change : NodeData F → NodeData F) (g : Graph F) (m : Name)
      → find m (update_node n change g)
        ≡ (if text_eq n m then some (change (node_or_new (find n g))) else find m g)
  unfolding find update_node
  find-update_node n change [] m = refl
  find-update_node n change ((k, d) ∷ g) m = ground (
    arith,
    find-update_node n change g m,
    text_eq_iff k n,
    text_eq_iff k m,
    text_eq_iff n m,
    text_eq_self n,
  )

  update_node-IsMap :
      (n : Name) (change : NodeData F → NodeData F) (g : Graph F)
      → IsMap g
      → IsMap (update_node n change g)
  unfolding update_node find
  update_node-IsMap n change [] h = (refl, tt)
  update_node-IsMap n change ((k, d) ∷ g) h = ground (
    arith,
    update_node-IsMap n change g,
    find-update_node n change g k,
    text_eq_iff n k,
    text_eq_iff k n,
  )

  abbrev needs_of : Option (NodeData F) → Name → Bool
  needs_of none p = false
  needs_of (some d) p = contains d.prerequisites p

  -- The node named first has the second name as a prerequisite.
  abbrev pub needs : Graph F → Name → Name → Bool
  needs g n p = needs_of (find n g) p

  function_new : (o : Option (NodeData F)) → (node_or_new o).fn ≡ function_of o
  function_new none = refl
  function_new (some d) = refl

  needs_new :
      (o : Option (NodeData F)) (p : Name) → contains (node_or_new o).prerequisites p ≡ needs_of o p
  unfolding contains
  needs_new none p = refl
  needs_new (some d) p = refl

  -- A step of the loop over the dependents adds one prerequisite, and no function.
  depend_lem :
      (n k : Name) (g : Graph F) (m p : Name)
      → let g' =
          update_node k (λ d. record d { prerequisites = insert_name n d.prerequisites }) g in
        (needs g' m p ≡ (needs g m p || text_eq k m && text_eq n p))
        × (get_initializer_function m g' ≡ get_initializer_function m g)
  unfolding get_initializer_function
  depend_lem n k g m p = elim (Bool-cases (text_eq k m)) [
    | inl e ↦
        let same : k ≡ m = (text_eq_iff k m).0 e in
        let at = subst (λ x. find x g ≡ find m g) (sym same) refl in
        (
          rw (find-update_node, e, at)
              (insert_name_lem n (node_or_new (find m g)).prerequisites p
                ∙ ap (λ b. b || text_eq n p) (needs_new (find m g) p)),
          rw (find-update_node, e, at) (function_new (find m g)),
        )
    | inr e ↦ (rw (find-update_node, e) (ground arith), rw (find-update_node, e) refl)
  ]

  add_dependents_lem :
      (n : Name) (ks : List Name) (g : Graph F) (m p : Name)
      → (needs (add_dependents n ks g) m p ≡ (needs g m p || contains ks m && text_eq n p))
        × (get_initializer_function m (add_dependents n ks g) ≡ get_initializer_function m g)
  unfolding add_dependents contains
  add_dependents_lem n [] g m p = (ground arith, refl)
  add_dependents_lem n (k ∷ ks) g m p =
      let g' = update_node k (λ d. record d { prerequisites = insert_name n d.prerequisites }) g in
      let (edge, fn) = depend_lem n k g m p in
      let (edges, fns) = add_dependents_lem n ks g' m p in (ground arith, fns ∙ fn)

  add_dependents-IsMap :
      (n : Name) (ks : List Name) (g : Graph F) → IsMap g → IsMap (add_dependents n ks g)
  unfolding add_dependents
  add_dependents-IsMap n [] g h = h
  add_dependents-IsMap n (k ∷ ks) g h =
      add_dependents-IsMap n ks _
        (update_node-IsMap k (λ d. record d { prerequisites = insert_name n d.prerequisites }) g h)

  -- The graph that `addInitializer` leaves if it returns OK.
  pub record IsAdded (name : Name) (f : F) (pre dep : List Name) (g g' : Graph F) : Type 0 where
    pub map_kept : IsMap g → IsMap g'
    pub functions :
        (m : Name)
        → get_initializer_function m g'
          ≡ (if text_eq name m then some f else get_initializer_function m g)
    pub edges :
        (m p : Name)
        → needs g' m p
          ≡ ((needs g m p || text_eq name m && contains pre p) || contains dep m && text_eq name p)
    pub was_new : get_initializer_function name g ≡ none

  node_lem :
      (name : Name) (f : F) (pre : List Name) (g : Graph F) (m p : Name)
      → let g' =
          update_node name
            (λ d. record { fn = some f; prerequisites = insert_names pre d.prerequisites })
            g in
        (needs g' m p ≡ (needs g m p || text_eq name m && contains pre p))
        × (get_initializer_function m g'
            ≡ (if text_eq name m then some f else get_initializer_function m g))
  unfolding get_initializer_function
  node_lem name f pre g m p = elim (Bool-cases (text_eq name m)) [
    | inl e ↦
        let same : name ≡ m = (text_eq_iff name m).0 e in
        let at = subst (λ x. find x g ≡ find m g) (sym same) refl in
        (
          rw (find-update_node, e, at)
              (insert_names_lem pre (node_or_new (find m g)).prerequisites p
                ∙ ap (λ b. b || contains pre p) (needs_new (find m g) p)),
          rw (find-update_node, e) refl,
        )
    | inr e ↦ (rw (find-update_node, e) (ground arith), rw (find-update_node, e) refl)
  ]

  add_initializer-IsAdded :
      (name : Name) (f : F) (pre dep : List Name) (g : Graph F)
      → get_initializer_function name g ≡ none
      → (g' : Graph F) × (add_initializer name (some f) pre dep g ≡ (status_ok, g'))
        × IsAdded name f pre dep g g'
  unfolding add_initializer
  add_initializer-IsAdded name f pre dep g new =
      let change : NodeData F → NodeData F =
        λ d. record { fn = some f; prerequisites = insert_names pre d.prerequisites } in
      let g1 = update_node name change g in
      (
        add_dependents name dep g1,
        ground (arith, new),
        record {
          map_kept = λ h. add_dependents-IsMap name dep g1 (update_node-IsMap name change g h);
          functions = λ m. (add_dependents_lem name dep g1 m m).1 ∙ (node_lem name f pre g m m).1;
          edges = λ m p.
              (add_dependents_lem name dep g1 m p).0
              ∙ ap (λ b. b || contains dep m && text_eq name p) (node_lem name f pre g m p).0;
          was_new = new;
        },
      )

  refused :
      (name : Name) (f f' : F) (pre dep : List Name) (g : Graph F)
      → get_initializer_function name g ≡ some f'
      → add_initializer name (some f) pre dep g ≡ (status_of duplicate_key name, g)
  unfolding add_initializer
  refused name f f' pre dep g old = ground (arith, old)

  -- It returns OK only for a function and a name that had none.
  pub add_initializer_ok :
      (name : Name) (o : Option F) (pre dep : List Name) (g g' : Graph F)
      → add_initializer name o pre dep g ≡ (status_ok, g')
      → (f : F) × (o ≡ some f) × IsAdded name f pre dep g g'
  unfolding add_initializer
  add_initializer_ok name none pre dep g g' h = cc
  add_initializer_ok name (some f) pre dep g g' h =
      elim (Option-cases (get_initializer_function name g)) [
        | inl new ↦
            let (added, e, a) = add_initializer-IsAdded name f pre dep g new in
            let same : added ≡ g' = cc in (f, refl, subst (IsAdded name f pre dep g) same a)
        | inr (f', old) ↦ cc (refused name f f' pre dep g old)
      ]

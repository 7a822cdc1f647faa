-- ===== src/Init/Execute/Registered.antt =====
-- The graph that the registerers of src/mongo/base/global_initializer_registerer.cpp build.
use mongo_cxx_driver.Base.{
  ◌≡◌, refl, subst, Bool, false, ◌&&◌, ◌||◌, Option, none, some, List, [], ◌∷◌, arith,
  if◌then◌else◌,
}
use mongo_cxx_driver.Net.HostAndPort.{text_eq}
use mongo_cxx_driver.Net.HostAndPort.Order.{text_eq_iff}
use mongo_cxx_driver.Init.Graph.{
  Name, Graph, contains, get_initializer_function, add_initializer, Status, status_ok, status_of,
  find,
}
use mongo_cxx_driver.Init.Graph.Order.{IsMap}
use mongo_cxx_driver.Init.Graph.Added.{needs, IsAdded, add_initializer_ok}
use mongo_cxx_driver.Init.Execute.{Registration, register_next, register_all}

no_needs : (F : Type 0) (n p : Name) → needs {F = F} [] n p ≡ false
unfolding find
no_needs F n p = refl

no_functions : (F : Type 0) (n : Name) → get_initializer_function {F = F} n [] ≡ none
unfolding get_initializer_function find
no_functions F n = refl

module _ {F : Type 0} where
  -- Some registration makes the second name a prerequisite of the first.
  abbrev pub declared : List (Registration F) → Name → Name → Bool
  declared [] n p = false
  declared (r ∷ rs) n p =
      (text_eq r.name n && contains r.prerequisites p
        || contains r.dependents n && text_eq r.name p)
      || declared rs n p

  -- The function of the first registration of the name.
  abbrev pub registered : List (Registration F) → Name → Option F
  registered [] n = none
  registered (r ∷ rs) n = if text_eq r.name n then r.fn else registered rs n

  pub record IsBuilt (rs : List (Registration F)) (g g' : Graph F) : Type 0 where
    pub is_map : IsMap g → IsMap g'
    pub edges : (n p : Name) → needs g' n p ≡ (needs g n p || declared rs n p)
    pub kept :
        (n : Name) (f : F)
        → get_initializer_function n g ≡ some f
        → get_initializer_function n g' ≡ some f
    pub fresh :
        (n : Name)
        → get_initializer_function n g ≡ none
        → get_initializer_function n g' ≡ registered rs n

  first_ok :
      (rs : List (Registration F)) (x : Status × Graph F) {g' : Graph F}
      → register_next x (register_all rs) ≡ some g'
      → (g1 : Graph F) × (x ≡ (status_ok, g1)) × (register_all rs g1 ≡ some g')
  first_ok rs (status_ok, g1) h = (g1, refl, h)
  first_ok rs (status_of e m, g1) h = cc

  cons-IsBuilt :
      (r : Registration F) (rs : List (Registration F)) (f : F) (g g1 g' : Graph F)
      → r.fn ≡ some f
      → IsAdded r.name f r.prerequisites r.dependents g g1
      → IsBuilt rs g1 g'
      → IsBuilt (r ∷ rs) g g'
  cons-IsBuilt r rs f g g1 g' has a b = record {
    is_map = λ h. b.is_map (a.map_kept h);
    edges = λ n p. ground (arith, a.edges n p, b.edges n p);
    kept = λ n k h. ground (arith, a.functions n, b.kept n k, text_eq_iff r.name n, a.was_new);
    fresh = λ n h. ground (arith, a.functions n, b.fresh n, b.kept n f);
  }

  register_all-IsBuilt :
      (rs : List (Registration F)) (g g' : Graph F) → register_all rs g ≡ some g' → IsBuilt rs g g'
  unfolding register_all
  register_all-IsBuilt [] g g' h =
      let same : g ≡ g' = cc in
      subst (IsBuilt [] g) same
        record { is_map = λ h. h; edges = λ n p. ground arith; kept = λ n f e. e; fresh = λ n e. e }
  register_all-IsBuilt (r ∷ rs) g g' h =
      let (g1, ok, rest) =
        first_ok rs (add_initializer r.name r.fn r.prerequisites r.dependents g) h in
      let (f, has, added) = add_initializer_ok r.name r.fn r.prerequisites r.dependents g g1 ok in
      cons-IsBuilt r rs f g g1 g' has added (register_all-IsBuilt rs g1 g' rest)

  -- If every registration succeeds, the graph has one node for each name, whose function is that of
  -- its registration; and a node has a name as a prerequisite exactly if its registration lists the
  -- name under the prerequisites, or the name's registration lists the node under the dependents.
  pub register_all-IsDeclared :
      (rs : List (Registration F)) (g : Graph F)
      → register_all rs [] ≡ some g
      → IsMap g
        × ((n p : Name) → needs g n p ≡ declared rs n p)
        × ((n : Name) → get_initializer_function n g ≡ registered rs n)
  register_all-IsDeclared rs g h =
      let b = register_all-IsBuilt rs [] g h in
      (
        b.is_map tt,
        λ n p. ground (arith, b.edges n p, no_needs F n p),
        λ n. b.fresh n (no_functions F n),
      )

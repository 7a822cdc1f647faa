-- ===== src/Init/Tests.antt =====
-- Runs of the initializers of src/mongo/base, and the theorems about them at graphs that they apply to.
use mongo_cxx_driver.Base.{
  ℕ, ◌<◌, ◌≡◌, ◌≢◌, inl, inr, refl, none, some, List, [], ◌∷◌, ◌++◌, bytes, arith, if◌then◌else◌,
}
use mongo_cxx_driver.Net.HostAndPort.{text_eq}
use mongo_cxx_driver.Net.HostAndPort.Order.{text_eq_iff}
use mongo_cxx_driver.Init.Graph.{
  Name, Graph, status_ok, status_of, graph_contains_cycle, bad_value, Sort, returned, find,
  add_initializer, add_dependents, update_node, insert_name, insert_names, get_initializer_function,
  top_sort, contains,
}
use mongo_cxx_driver.Init.Graph.Order.{IsOrdered, IsEdge, IsNeeded, IsMap, Includes}
use mongo_cxx_driver.Init.Graph.Sorted.{names, IsAnswer, top_sort-IsAnswer, top_sort-sorts}
use mongo_cxx_driver.Init.Graph.Added.{needs}
use mongo_cxx_driver.Init.Execute.{
  finished, threw, Function, run_nodes, execute, Registration, register_all,
}
use mongo_cxx_driver.Init.Execute.Laws.{IsExecuted, execute-IsExecuted}
use mongo_cxx_driver.Init.Execute.Registered.{declared, registered, register_all-IsDeclared}

abbrev a_name : Name
a_name = bytes "a"

abbrev b_name : Name
b_name = bytes "b"

-- An initializer that logs a number, and one that fails.
abbrev logs : ℕ → Function (List ℕ)
logs n log = (log ++ n ∷ [], finished status_ok)

abbrev fails : Function (List ℕ)
fails log = (log ++ 0 ∷ [], threw bad_value (bytes "no"))

-- `b` has `a` as a prerequisite.
abbrev pair : Function (List ℕ) → Graph (Function (List ℕ))
pair f =
    (b_name, record { fn = some (logs 2); prerequisites = a_name ∷ [] })
    ∷ (a_name, record { fn = some f; prerequisites = [] })
    ∷ []

abbrev cyclic : Graph (Function (List ℕ))
cyclic =
    (b_name, record { fn = some (logs 2); prerequisites = a_name ∷ [] })
    ∷ (a_name, record { fn = some (logs 1); prerequisites = b_name ∷ [] })
    ∷ []

pair_runs : execute (pair (logs 1)) [] ≡ some (1 ∷ 2 ∷ [], status_ok)
unfolding execute top_sort text_eq find run_nodes get_initializer_function
pair_runs = refl

pair_stops : execute (pair fails) [] ≡ some (0 ∷ [], status_of bad_value (bytes "no"))
unfolding execute top_sort text_eq find run_nodes get_initializer_function
pair_stops = refl

cycle_found :
    execute cyclic []
    ≡ some ([], status_of graph_contains_cycle (bytes "Cycle in dependendcy graph: b -> a -> b"))
unfolding execute top_sort text_eq find
cycle_found = refl

abbrev registrations : List (Registration (Function (List ℕ)))
registrations =
    record { name = b_name; fn = some (logs 2); prerequisites = []; dependents = [] }
    ∷ record { name = a_name; fn = some (logs 1); prerequisites = []; dependents = b_name ∷ [] }
    ∷ []

built : register_all registrations [] ≡ some (pair (logs 1))
unfolding register_all add_initializer find add_dependents update_node text_eq insert_name
    insert_names contains
built = refl

pair-IsMap : IsMap (pair (logs 1))
unfolding find text_eq
pair-IsMap = (refl, (refl, tt))

cyclic-IsMap : IsMap cyclic
unfolding find text_eq
cyclic-IsMap = (refl, (refl, tt))

top_sort-IsAnswer_example : IsAnswer cyclic (top_sort cyclic)
top_sort-IsAnswer_example = top_sort-IsAnswer cyclic cyclic-IsMap

abbrev rank : Name → ℕ
rank n = if text_eq n b_name then 1 else 0

pair_falls : (n p : Name) → IsEdge (pair (logs 1)) n p → rank p < rank n
unfolding find contains
pair_falls n p e = grind (arith, e.found, e.needs, text_eq_iff)

pair_complete :
    (m : Name) → IsNeeded (pair (logs 1)) m → get_initializer_function m (pair (logs 1)) ≢ none
unfolding get_initializer_function find contains
pair_complete m (inl (d, e)) = grind (arith, e)
pair_complete m (inr (n, e)) = grind (arith, e.found, e.needs, text_eq_iff)

top_sort-sorts_example :
    (t : Sort) × (top_sort (pair (logs 1)) ≡ returned status_ok t)
    × IsOrdered (pair (logs 1)) [] t.sorted
    × Includes t.sorted (names (pair (logs 1)))
top_sort-sorts_example = top_sort-sorts (pair (logs 1)) rank pair_falls pair-IsMap pair_complete

execute-IsExecuted_example : IsExecuted (pair (logs 1)) [] (execute (pair (logs 1)) [])
execute-IsExecuted_example = execute-IsExecuted (pair (logs 1)) pair-IsMap []

register_all-IsDeclared_example :
    IsMap (pair (logs 1))
    × ((n p : Name) → needs (pair (logs 1)) n p ≡ declared registrations n p)
    × ((n : Name) → get_initializer_function n (pair (logs 1)) ≡ registered registrations n)
register_all-IsDeclared_example = register_all-IsDeclared registrations (pair (logs 1)) built

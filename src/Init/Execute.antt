-- ===== src/Init/Execute.antt =====
-- `execute` of src/mongo/base/initializer.cpp, and `GlobalInitializerRegisterer` of
-- src/mongo/base/global_initializer_registerer.cpp. The initializers are any functions of a state, which
-- stands for all that they change; an exception is the status that it is turned into, whose code is not 0.
pub mod Laws
pub mod Registered
use mongo_cxx_driver.Base.{ℕ, Option, none, some, List, [], ◌∷◌, ◌++◌, bytes}
use mongo_cxx_driver.Init.Graph.{
  Name, Graph, Status, status_ok, status_of, ErrorCode, internal_error, Sort, Outcome, returned,
  out_of_fuel, fault, get_initializer_function, add_initializer, top_sort,
}

-- How a call of an `InitializerFunction` ends.
pub data Ended : Type 0 where
  finished : Status → Ended
  threw : ErrorCode → List ℕ → Ended

abbrev pub Function : Type 0 → Type 0
Function S = S → S × Ended

module _ {S : Type 0} where
  -- The loop of `execute`, on the names that are left. A call that succeeds goes on with the rest.
  abbrev pub after_call : S × Ended → (S → S × Status) → S × Status
  after_call (c, finished status_ok) rest = rest c
  after_call (c, finished (status_of e m)) rest = (c, status_of e m)
  after_call (c, threw e m) rest = (c, status_of e m)

  abbrev pub call_node : Option (Function S) → Name → S → (S → S × Status) → S × Status
  call_node none n c rest = (
    c,
    status_of internal_error
        (bytes "topSort returned a node that has no associated function: \"" ++ (n ++ bytes "\"")),
  )
  call_node (some f) n c rest = after_call (f c) rest

  unfoldable pub run_nodes : Graph (Function S) → List Name → S → S × Status
  run_nodes g [] c = (c, status_ok)
  run_nodes g (n ∷ ns) c = call_node (get_initializer_function n g) n c (run_nodes g ns)

  -- `Initializer::execute`. There is no result if the sort has none.
  abbrev pub run_sorted : Graph (Function S) → Outcome → S → Option (S × Status)
  run_sorted g (returned status_ok t) c = some (run_nodes g t.sorted c)
  run_sorted g (returned (status_of e m) t) c = some (c, status_of e m)
  run_sorted g out_of_fuel c = none
  run_sorted g fault c = none

  unfoldable pub execute : Graph (Function S) → S → Option (S × Status)
  execute g c = run_sorted g (top_sort g) c

-- A global initializer: its name, function, prerequisites and dependents.
pub record Registration (F : Type 0) : Type 0 where
  pub name : Name
  pub fn : Option F
  pub prerequisites : List Name
  pub dependents : List Name

module _ {F : Type 0} where
  -- The registerers of a program, in the order of their construction. The first that fails ends the
  -- process.
  abbrev pub register_next : Status × Graph F → (Graph F → Option (Graph F)) → Option (Graph F)
  register_next (status_ok, g) rest = rest g
  register_next (status_of e m, g) rest = none

  unfoldable pub register_all : List (Registration F) → Graph F → Option (Graph F)
  register_all [] g = some g
  register_all (r ∷ rs) g =
      register_next (add_initializer r.name r.fn r.prerequisites r.dependents g) (register_all rs)

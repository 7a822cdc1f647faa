-- ===== src/Init/Graph.antt =====
-- src/mongo/base/initializer_dependency_graph.cpp and its header. The map of nodes is the list of its
-- entries in the order of iteration, which is any order, and a set of names the list of its elements in
-- the order of insertion.
pub mod Names
pub mod Order
pub mod Search
pub mod Visit
pub mod Added
pub mod Sorted
use mongo_cxx_driver.Base.{
  ℕ, zero, suc, ◌==◌, ◌≡◌, Bool, true, false, not, Option, none, some, List, [], ◌∷◌, ◌++◌, length,
  bytes, if◌then◌else◌,
}
use mongo_cxx_driver.Net.HostAndPort.{text_eq}

-- A name is the text of its bytes.
abbrev pub Name : Type 0
Name = List ℕ

-- The codes of `ErrorCodes` that the initializers use, and a `Status` with its reason.
pub data ErrorCode : Type 0 where
  bad_value duplicate_key graph_contains_cycle internal_error : ErrorCode
  other_code : ℕ → ErrorCode

pub data Status : Type 0 where
  status_ok : Status
  status_of : ErrorCode → List ℕ → Status

-- `NodeData`; a null function is `none`.
pub record NodeData (F : Type 0) : Type 0 where
  pub fn : Option F
  pub prerequisites : List Name

abbrev pub Graph : Type 0 → Type 0
Graph F = List (Name × NodeData F)

-- `count` of a set, and of `std::find`'s range.
unfoldable pub contains : List Name → Name → Bool
contains [] n = false
contains (x ∷ xs) n = if text_eq x n then true else contains xs n

-- `insert` of a set.
unfoldable pub insert_name : Name → List Name → List Name
insert_name n xs = if contains xs n then xs else xs ++ n ∷ []

unfoldable pub insert_names : List Name → List Name → List Name
insert_names [] xs = xs
insert_names (n ∷ ns) xs = insert_names ns (insert_name n xs)

-- What `std::find` leaves of its range.
unfoldable pub find_name : Name → List Name → List Name
find_name n [] = []
find_name n (x ∷ xs) = if text_eq x n then x ∷ xs else find_name n xs

-- `vector::back`, and `pop_back`.
unfoldable pub back : List Name → Option Name
back [] = none
back (x ∷ []) = some x
back (x ∷ y ∷ ys) = back (y ∷ ys)

unfoldable pub pop_back : List Name → List Name
pop_back [] = []
pop_back (x ∷ []) = []
pop_back (x ∷ y ∷ ys) = x ∷ pop_back (y ∷ ys)

module _ {F : Type 0} where
  -- `_nodes.find(name)`.
  unfoldable pub find : Name → Graph F → Option (NodeData F)
  find n [] = none
  find n ((m, d) ∷ g) = if text_eq m n then some d else find n g

  -- A change of `_nodes[name]`, which makes the node if there is none.
  unfoldable pub update_node : Name → (NodeData F → NodeData F) → Graph F → Graph F
  update_node n change [] = (n, change (record { fn = none; prerequisites = [] })) ∷ []
  update_node n change ((m, d) ∷ g) =
      if text_eq m n then (m, change d) ∷ g else (m, d) ∷ update_node n change g

  -- The second loop of `addInitializer`.
  unfoldable pub add_dependents : Name → List Name → Graph F → Graph F
  add_dependents n [] g = g
  add_dependents n (m ∷ ms) g =
      add_dependents n ms
        (update_node m (λ d. record d { prerequisites = insert_name n d.prerequisites }) g)

  abbrev pub function_of : Option (NodeData F) → Option F
  function_of none = none
  function_of (some d) = d.fn

  -- `getInitializerFunction`.
  unfoldable pub get_initializer_function : Name → Graph F → Option F
  get_initializer_function n g = function_of (find n g)

  -- `addInitializer`.
  unfoldable pub add_initializer :
      Name → Option F → List Name → List Name → Graph F → Status × Graph F
  unfolding get_initializer_function
  add_initializer name none prerequisites dependents g =
      (status_of bad_value (bytes "Illegal to supply a NULL function"), g)
  add_initializer name (some fn) prerequisites dependents g =
      elim (get_initializer_function name g) [
        | some _ ↦ (status_of duplicate_key name, g)
        | none ↦ (
          status_ok,
          add_dependents name dependents (
              update_node name
                (λ d. record {
                  fn = some fn;
                  prerequisites = insert_names prerequisites d.prerequisites;
                })
                g),
        )
      ]

-- What `topSort` hands on to `recursiveTopSort` by pointers.
pub record Sort : Type 0 where
  pub in_progress : List Name
  pub visited : List Name
  pub sorted : List Name

abbrev pub no_sort : Sort
no_sort = record { in_progress = []; visited = []; sorted = [] }

-- A return, or one of two that the code does not have: no fuel, and `back` of an empty vector.
pub data Outcome : Type 0 where
  returned : Status → Sort → Outcome
  out_of_fuel fault : Outcome

-- The loops go on as long as the status is OK.
abbrev pub go_on : Outcome → (Sort → Outcome) → Outcome
go_on (returned status_ok s) k = k s
go_on (returned (status_of c m) s) k = returned (status_of c m) s
go_on out_of_fuel k = out_of_fuel
go_on fault k = fault

-- The names of a cycle, as its message has them.
unfoldable pub arrows : List Name → List ℕ
arrows [] = []
arrows (n ∷ ns) = bytes " -> " ++ (n ++ arrows ns)

unfoldable pub cycle_message : List Name → List ℕ
unfolding arrows
cycle_message [] = []
cycle_message (n ∷ ns) = bytes "Cycle in dependendcy graph: " ++ (n ++ arrows ns)

-- The end of `recursiveTopSort`, with the back of the stack.
unfoldable pub finish : Name → Option Name → Sort → Outcome
unfolding pop_back insert_name
finish n none s = fault
finish n (some last) s =
    let pushed = record s { sorted = s.sorted ++ n ∷ [] } in
    if text_eq last n
    then returned status_ok record {
      in_progress = pop_back s.in_progress;
      visited = insert_name n s.visited;
      sorted = pushed.sorted;
    }
    else returned (status_of internal_error (bytes "inProgressNodeNames stack corrupt")) pushed

module _ {F : Type 0} where
  -- The loop over the prerequisites of a node, on the recursive call.
  unfoldable pub sort_each :
      (Name → NodeData F → Sort → Outcome) → Graph F → List Name → Sort → Outcome
  sort_each call g [] s = returned status_ok s
  sort_each call g (p ∷ ps) s = elim (find p g) [
    | none ↦ returned (status_of bad_value p) s
    | some d ↦ go_on (call p d s) (sort_each call g ps)
  ]

  -- `recursiveTopSort`.
  unfoldable pub recursive_top_sort : ℕ → Graph F → Name → NodeData F → Sort → Outcome
  unfolding contains find_name back cycle_message finish sort_each
  recursive_top_sort zero g n d s = out_of_fuel
  recursive_top_sort (suc fuel) g n d s =
      let begun = record s { in_progress = s.in_progress ++ n ∷ [] } in
      let cycle = find_name n begun.in_progress in
      let found =
        returned (status_of graph_contains_cycle (cycle_message cycle))
          record begun { sorted = cycle } in
      let rest =
        go_on (sort_each (recursive_top_sort fuel g) g d.prerequisites begun)
          (λ t. finish n (back t.in_progress) t) in
      if contains s.visited n then returned status_ok s else elim d.fn [
        | none ↦ returned (status_of bad_value n) s
        | some _ ↦ if length cycle == 1 then rest else found
      ]

  -- The loop of `topSort` over the nodes.
  unfoldable pub sort_nodes :
      (Name → NodeData F → Sort → Outcome) → List (Name × NodeData F) → Sort → Outcome
  sort_nodes call [] s = returned status_ok s
  sort_nodes call ((n, d) ∷ rest) s = go_on (call n d s) (sort_nodes call rest)

  -- `topSort`.
  unfoldable pub top_sort : Graph F → Outcome
  unfolding recursive_top_sort sort_nodes
  top_sort g = sort_nodes (recursive_top_sort (suc (length g)) g) g no_sort

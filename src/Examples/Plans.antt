-- ===== src/Examples/Plans.antt =====
-- The dependency graphs of two plans: one with a chain of three items, and one that runs in a circle.
use orch_kit.Prelude.{String, List, [], ◌∷◌, ◌≡◌, ◌⊎◌, refl, true, find, any, put}
use orch_kit.Result.{ok, err, dependency_cycle}
use orch_kit.Planning.{PlanItem, item_key}
use orch_kit.Planning.Graph.{
  validate_dependency_graph, search, visit, each, inner, ids_of, dependencies_of, colour_of,
  set_colour,
}
use orch_kit.Planning.Graph.Search.{IsGrounded}
use orch_kit.Planning.Graph.Cycle.{HasCycle, validate_dependency_graph_ends}
use orch_kit.Examples.Data.{item_of}
use orch_kit.Prelude.{has_key}

abbrev chain : List PlanItem
chain = item_of "a" [] ∷ item_of "c" ("b" ∷ "a" ∷ []) ∷ item_of "b" ("a" ∷ "earlier" ∷ []) ∷ []

abbrev circle : List PlanItem
circle = item_of "a" ("c" ∷ []) ∷ item_of "b" ("a" ∷ []) ∷ item_of "c" ("b" ∷ []) ∷ []

test_circle : validate_dependency_graph circle ≡ err dependency_cycle
unfolding validate_dependency_graph search visit each inner ids_of dependencies_of colour_of
    set_colour find any put
test_circle = refl

test_chain : validate_dependency_graph chain ≡ ok tt
unfolding validate_dependency_graph search visit each inner ids_of dependencies_of colour_of
    set_colour find any put
test_chain = refl

validate_dependency_graph_ends_example :
    ((validate_dependency_graph circle ≡ ok tt)
      × ((k : String) → has_key item_key k circle ≡ true → IsGrounded circle k))
    ⊎ ((validate_dependency_graph circle ≡ err dependency_cycle) × HasCycle circle)
validate_dependency_graph_ends_example = validate_dependency_graph_ends circle

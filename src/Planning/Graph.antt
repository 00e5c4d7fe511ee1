-- ===== src/Planning/Graph.antt =====
-- `validate_dependency_graph` of orch/core.py: a depth-first search that meets a cycle or closes each
-- item. The dictionary `state` is a table of marks; an item without a mark has the state 0.
pub mod Marks
pub mod Search
pub mod Cycle
pub mod Closed
use orch_kit.Prelude.{
  ℕ, zero, suc, ◌+◌, String, Bool, true, false, Option, none, some, List, [], ◌∷◌, ◌==◌, find, put,
  any, has_key, length, if◌then◌else◌,
}
use orch_kit.Planning.Item.{PlanItem, item_key}
use orch_kit.Result.{Result, ok, err, dependency_cycle, out_of_fuel}

pub data Colour : Type 0 where
  fresh opened closed : Colour

pub record Mark : Type 0 where
  pub id : String
  pub colour : Colour

abbrev pub mark_key : Mark → String
mark_key m = m.id

-- `state.get(task_id, 0)`
unfoldable pub colour_of : List Mark → String → Colour
unfolding find
colour_of marks id = elim (find mark_key id marks) [ none ↦ Colour.fresh | some m ↦ m.colour ]

-- `state[task_id] = colour`
unfoldable pub set_colour : String → Colour → List Mark → List Mark
unfolding put
set_colour id c marks = put mark_key (record { id = id; colour = c }) marks

-- `graph[task_id]`. Of two items with one id the dictionary has the last and this finds the first; the
-- caller's `has_repeat` lets no such list through.
unfoldable pub dependencies_of : List PlanItem → String → List String
unfolding find
dependencies_of items id = elim (find item_key id items) [
  | none ↦ []
  | some i ↦ i.payload.dependencies
]

-- A loop that visits one item after the other, until a visit raises.
unfoldable pub each :
    (String → List Mark → Result (List Mark)) → List String → List Mark → Result (List Mark)
each f [] marks = ok marks
each f (d ∷ ds) marks = elim (f d marks) [ err e ↦ err e | ok next ↦ each f ds next ]

module _ (items : List PlanItem) where
  -- The dependencies that are items of the plan.
  unfoldable pub inner : List String → List String
  unfolding any
  inner [] = []
  inner (d ∷ ds) = let rest = inner ds in if has_key item_key d items then d ∷ rest else rest

  -- `visit`, with the depth of the recursion as fuel.
  unfoldable pub visit : ℕ → String → List Mark → Result (List Mark)
  unfolding each inner colour_of set_colour dependencies_of
  visit zero id marks = err out_of_fuel
  visit (suc depth) id marks = elim (colour_of marks id) [
    | Colour.opened ↦ err dependency_cycle
    | Colour.closed ↦ ok marks
    | Colour.fresh ↦
        elim (each (visit depth) (inner (dependencies_of items id))
          (set_colour id Colour.opened marks)) [
            | err e ↦ err e
            | ok next ↦ ok (set_colour id Colour.closed next)
          ]
  ]

unfoldable pub ids_of : List PlanItem → List String
ids_of [] = []
ids_of (i ∷ is) = i.id ∷ ids_of is

-- Each visit of an unmarked item marks one more, so the depth stays below the number of items.
unfoldable pub search : List PlanItem → Result (List Mark)
unfolding visit ids_of
search items = each (visit items (length items + 1)) (ids_of items) []

unfoldable pub validate_dependency_graph : List PlanItem → Result (Unit {0})
unfolding search
validate_dependency_graph items = elim (search items) [ err e ↦ err e | ok marks ↦ ok tt ]

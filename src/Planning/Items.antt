-- ===== src/Planning/Items.antt =====
-- Where the dependencies of an item are found, and which item a new task comes from.
use mathlib.Core.Path.{subst}
use orch_kit.Prelude.{
  is_in, ℕ, ◌+◌, String, ◌≡◌, ◌⊎◌, true, false, not, ◌&&◌, some, none, Option-cases, Bool-cases,
  inl, inr, ◌==◌, eq_iff, List, [], ◌∷◌, arith, find, any, has_key,
}
use orch_kit.Result.{ok}
use orch_kit.Ledger.{TaskStatus, Task, Ledger, task_key, find_task}
use orch_kit.Planning.Item.{PlanItem, item_key}
use orch_kit.Planning.Graph.{dependencies_of}
use orch_kit.Planning.Defs.{is_none, missing_of, check_dependencies, new_tasks}

abbrev pub IsStored : Ledger → String → Type 0
IsStored l d = (t : Task) × (find_task l d ≡ some t)

missing_of-is_in :
    (l : Ledger) (items : List PlanItem) (deps : List String) (d : String)
    → missing_of l items deps ≡ none
    → is_in d deps ≡ true
    → (has_key item_key d items ≡ true) ⊎ IsStored l d
unfolding missing_of any
missing_of-is_in l items [] d h m = cc
missing_of-is_in l items (x ∷ deps) d h m = elim (Bool-cases (x == d)) [
  | inl e ↦
      here (Bool-cases (has_key item_key d items)) (Option-cases (find_task l d))
        (first ((eq_iff x d).0 e))
  | inr e ↦ missing_of-is_in l items deps d (ground (arith, h)) (ground (arith, m, e))
]
  where
    first : x ≡ d → (not (has_key item_key d items) && is_none (find_task l d)) ≡ false
    first e =
        subst (λ y. (not (has_key item_key y items) && is_none (find_task l y)) ≡ false) e
          (ground (arith, h))

    here :
        ((has_key item_key d items ≡ true) ⊎ (has_key item_key d items ≡ false))
        → ((find_task l d ≡ none) ⊎ IsStored l d)
        → (not (has_key item_key d items) && is_none (find_task l d)) ≡ false
        → (has_key item_key d items ≡ true) ⊎ IsStored l d
    here (inl a) s e = inl a
    here (inr a) (inr s) e = inr s
    here (inr a) (inl s) e = ground (arith, a, s, e)

pub check_dependencies-is_in :
    (l : Ledger) (items is : List PlanItem) (d j : String)
    → check_dependencies l items is ≡ ok tt
    → is_in d (dependencies_of is j) ≡ true
    → (has_key item_key d items ≡ true) ⊎ IsStored l d
unfolding check_dependencies dependencies_of find any
check_dependencies-is_in l items [] d j h m = cc
check_dependencies-is_in l items (i ∷ is) d j h m =
    let all : missing_of l items i.payload.dependencies ≡ none = ground (arith, h) in
    elim (Bool-cases (i.id == j)) [
      | inl e ↦ missing_of-is_in l items i.payload.dependencies d all (ground (arith, m, e))
      | inr e ↦ check_dependencies-is_in l items is d j (ground (arith, h)) (ground (arith, m, e))
    ]

pub both : (l : Ledger) (j : String) (u : Task) → find_task l j ≡ some u → find_task l j ≡ none → ⊥
both l j u a b = cc

-- The item that a new task comes from.
pub record Item (l : Ledger) (items : List PlanItem) (j : String) (t : Task) : Type 0 where
  pub absent : find_task l j ≡ none
  pub dependencies : dependencies_of items j ≡ t.payload.dependencies
  pub planned : has_key item_key j items ≡ true

module _ (l : Ledger) (revision : String) (now : ℕ) where
  Item-behind :
      (i : PlanItem) (is : List PlanItem) (j : String) (t : Task)
      → (i.id == j) ≡ false
      → Item l is j t
      → Item l (i ∷ is) j t
  unfolding dependencies_of find any
  Item-behind i is j t e item = record {
    absent = item.absent;
    dependencies = ground (arith, item.dependencies, e);
    planned = ground (arith, item.planned);
  }

  -- A new task is that of the first item under its key, and has that item's dependencies.
  pub new_tasks-Item :
      (ordinal next : ℕ) (items : List PlanItem) (j : String) (t : Task)
      → find task_key j (new_tasks l revision now ordinal next items) ≡ some t
      → Item l items j t
  unfolding new_tasks dependencies_of find any
  new_tasks-Item ordinal next [] j t h = cc
  new_tasks-Item ordinal next (i ∷ is) j t h = elim (Bool-cases (i.id == j)) [
    | inl e ↦ elim (Option-cases (find_task l i.id)) [
      | inl f ↦ record {
        absent = subst (λ k. find_task l k ≡ none) ((eq_iff i.id j).0 e) f;
        dependencies = ground (arith, h, e, f);
        planned = ground (arith, e);
      }
      | inr (u, f) ↦
          let item = new_tasks-Item (ordinal + 1) next is j t (ground (arith, h, f)) in
          absurd
            (both l j u (subst (λ k. find_task l k ≡ some u) ((eq_iff i.id j).0 e) f) item.absent)
    ]
    | inr e ↦ elim (Option-cases (find_task l i.id)) [
      | inl f ↦
          Item-behind i is j t e
            (new_tasks-Item (ordinal + 1) (next + 1) is j t (ground (arith, h, e, f)))
      | inr (u, f) ↦
          Item-behind i is j t e
            (new_tasks-Item (ordinal + 1) next is j t (ground (arith, h, e, f)))
    ]
  ]

  abbrev made : ℕ → ℕ → PlanItem → Task
  made ordinal next i = record {
    task_id = i.id;
    plan_revision = revision;
    ordinal = ordinal;
    project_id = i.project_id;
    writer_key = i.writer_key;
    queue_seq = next + 1;
    status = TaskStatus.planned;
    payload = i.payload;
    updated_at = now;
  }

  -- An item whose task is not there gives one.
  pub item-new_tasks :
      (ordinal next : ℕ) (items : List PlanItem) (j : String)
      → find_task l j ≡ none
      → has_key item_key j items ≡ true
      → (t : Task) × (find task_key j (new_tasks l revision now ordinal next items) ≡ some t)
  unfolding new_tasks find any
  item-new_tasks ordinal next [] j h m = cc
  item-new_tasks ordinal next (i ∷ is) j h m = elim (Option-cases (find_task l i.id)) [
    | inl f ↦ elim (Bool-cases (i.id == j)) [
      | inl e ↦ (made ordinal next i, ground (arith, f, e))
      | inr e ↦
          let (t, found) = item-new_tasks (ordinal + 1) (next + 1) is j h (ground (arith, m, e)) in
          (t, ground (arith, found, f, e))
    ]
    | inr (u, f) ↦ elim (Bool-cases (i.id == j)) [
      | inl e ↦ absurd (both l j u (subst (λ k. find_task l k ≡ some u) ((eq_iff i.id j).0 e) f) h)
      | inr e ↦
          let (t, found) = item-new_tasks (ordinal + 1) next is j h (ground (arith, m, e)) in
          (t, ground (arith, found, f))
    ]
  ]

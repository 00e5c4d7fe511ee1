-- ===== src/Planning/Grounds.antt =====
-- A plan that is loaded keeps the dependencies of all tasks grounded.
use mathlib.Core.Option
use mathlib.Core.Path.{sym, ap}
use mathlib.Core.WellFounded.{Acc}
use orch_kit.Prelude.{
  is_in, ℕ, String, ◌≡◌, ◌∙◌, ◌⊎◌, refl, true, some, none, Option, Option-cases, inl, inr, find,
  find-append, or_else, has_key,
}
use orch_kit.Result.{ok}
use orch_kit.Ledger.{Task, Ledger, task_key, find_task}
use orch_kit.Lifecycle.{TaskView, DependsOn, Grounded}
use orch_kit.Lifecycle.Refinement.{view, task_view, map-eq-some}
use orch_kit.Planning.Item.{Document, item_key}
use orch_kit.Planning.Graph.{dependencies_of}
use orch_kit.Planning.Graph.Search.{IsGrounded}
use orch_kit.Planning.Defs.{check_dependencies, max_queue, fresh_tasks, with_plan}
use orch_kit.Planning.Items.{check_dependencies-is_in, both, Item, new_tasks-Item, item-new_tasks}

module _ (l : Ledger) (d : Document) (now : ℕ) where
  abbrev loaded : Ledger
  loaded = with_plan l d now

  loaded-find :
      (j : String)
      → find_task loaded j ≡ or_else (find_task l j) (find task_key j (fresh_tasks l d now))
  loaded-find j = find-append task_key j l.tasks (fresh_tasks l d now)

  kept : (j : String) (t : Task) → find_task l j ≡ some t → find_task loaded j ≡ some t
  kept j t e = loaded-find j ∙ ap (λ o. or_else o (find task_key j (fresh_tasks l d now))) e

  -- A dependency of the loaded ledger is one of the ledger before, or stands in an item.
  loaded-DependsOn :
      (x j : String)
      → DependsOn (view loaded) x j
      → DependsOn (view l) x j
        ⊎ ((t : Task) × Item l d.items j t × (is_in x (dependencies_of d.items j) ≡ true))
  loaded-DependsOn x j need =
      let (row, found, same) = map-eq-some task_view (find_task loaded j) need.row need.found in
      let listed : is_in x row.payload.dependencies ≡ true =
        ap (λ (v : TaskView). is_in x v.dependencies) same ∙ need.listed in
      go row listed (find_task l j) refl (sym (loaded-find j) ∙ found)
    where
      go :
          (row : Task)
          → is_in x row.payload.dependencies ≡ true
          → (o : Option Task) → find_task l j ≡ o
          → or_else o (find task_key j (fresh_tasks l d now)) ≡ some row
          → DependsOn (view l) x j
            ⊎ ((t : Task) × Item l d.items j t × (is_in x (dependencies_of d.items j) ≡ true))
      go row listed (some t) e f = inl (record {
        row = task_view row;
        found = ap (Option.map task_view) (e ∙ f);
        listed = listed;
      })
      go row listed none e f =
          let item = new_tasks-Item l d.plan_revision now 0 (max_queue l.tasks) d.items j row f in
          inr (row, item, ap (is_in x) item.dependencies ∙ listed)

  module _ (stored : Grounded (view l)) (named : check_dependencies l d.items d.items ≡ ok tt)
      (ends : (k : String) → has_key item_key k d.items ≡ true → IsGrounded d.items k) where
    loaded-known :
        (x j : String)
        → DependsOn (view loaded) x j
        → (t : TaskView) × ((view loaded).task x ≡ some t)
    loaded-known x j need = elim (loaded-DependsOn x j need) [
      | inl old ↦
          let (v, e) = stored.known x j old in
          let (t, f, same) = map-eq-some task_view (find_task l x) v e in
          (task_view t, ap (Option.map task_view) (kept x t f))
      | inr (row, item, listed) ↦ elim (Option-cases (find_task l x)) [
        | inr (t, f) ↦ (task_view t, ap (Option.map task_view) (kept x t f))
        | inl f ↦ elim (check_dependencies-is_in l d.items d.items x j named listed) [
          | inr (t, g) ↦ absurd (both l x t g f)
          | inl planned ↦
              let (t, g) =
                item-new_tasks l d.plan_revision now 0 (max_queue l.tasks) d.items x f planned in
              (
                task_view t,
                ap (Option.map task_view) (
                    loaded-find x
                    ∙ ap (λ o. or_else o (find task_key x (fresh_tasks l d now))) f
                    ∙ g),
              )
        ]
      ]
    ]

    -- The chains that start at a task of the ledger before.
    old_chain :
        (j : String) (t : Task)
        → Acc (DependsOn (view l)) j
        → find_task l j ≡ some t
        → Acc (DependsOn (view loaded)) j
    old_chain j t (Acc.intro j' h) e = Acc.intro j (λ x need. elim (loaded-DependsOn x j need) [
      | inl old ↦
          let (v, f) = stored.known x j old in
          let (u, g, same) = map-eq-some task_view (find_task l x) v f in old_chain x u (h x old) g
      | inr (row, item, listed) ↦ absurd (both l j t e item.absent)
    ])

    -- And those that start at an item.
    new_chain :
        (j : String) → IsGrounded d.items j → find_task l j ≡ none → Acc (DependsOn (view loaded)) j
    new_chain j (Acc.intro j' h) e = Acc.intro j (λ x need. elim (loaded-DependsOn x j need) [
      | inl old ↦
          let (u, g, same) = map-eq-some task_view (find_task l j) old.row old.found in
          absurd (both l j u g e)
      | inr (row, item, listed) ↦ elim (Option-cases (find_task l x)) [
        | inr (t, f) ↦ old_chain x t (stored.ends x) f
        | inl f ↦ elim (check_dependencies-is_in l d.items d.items x j named listed) [
          | inr (t, g) ↦ absurd (both l x t g f)
          | inl planned ↦ new_chain x (h x (record { named = listed; planned = planned })) f
        ]
      ]
    ])

    chain_inv :
        (x j : String)
        → Acc (DependsOn (view loaded)) j
        → DependsOn (view loaded) x j
        → Acc (DependsOn (view loaded)) x
    chain_inv x j (Acc.intro j' h) need = h x need

    chain : (j : String) → Acc (DependsOn (view loaded)) j
    chain j = elim (Option-cases (find_task l j)) [
      | inr (t, e) ↦ old_chain j t (stored.ends j) e
      | inl e ↦ Acc.intro j (λ x need. elim (loaded-DependsOn x j need) [
        | inl old ↦
            let (u, g, same) = map-eq-some task_view (find_task l j) old.row old.found in
            absurd (both l j u g e)
        | inr (row, item, listed) ↦ chain_inv x j (new_chain j (ends j item.planned) e) need
      ])
    ]

    pub loaded-Grounded : Grounded (view loaded)
    loaded-Grounded = record { known = loaded-known; ends = chain }

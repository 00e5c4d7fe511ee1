-- ===== src/Planning/Defs.antt =====
-- `load_plan` of orch/core.py on a prepared document. `checked` is the outcome of the checks of single
-- items.
use orch_kit.Prelude.{
  ℕ, String, ◌+◌, Bool, true, false, not, ◌&&◌, ◌||◌, Option, none, some, List, [], ◌∷◌, ◌++◌, ◌==◌,
  leb, find, any, has_key, length, if◌then◌else◌,
}
use orch_kit.Result.{
  Result, ok, err, ◌>>=◌, ◌>>◌, guard, plan_revision_digest_conflict, empty_plan,
  plan_too_many_tasks, invalid_task_ids, invalid_dependency, task_id_conflict,
}
use orch_kit.Planning.Item.{PlanItem, Document, item_key}
use orch_kit.Planning.Graph.{validate_dependency_graph}
use orch_kit.Ledger.{TaskStatus, Task, Plan, EventKind, Ledger, find_task, add_event}

-- PLAN_MAX_TASKS
abbrev pub plan_max_tasks : ℕ
plan_max_tasks = 512

unfoldable pub has_repeat : List PlanItem → Bool
unfolding any
has_repeat [] = false
has_repeat (i ∷ is) = has_key item_key i.id is || has_repeat is

abbrev pub is_none {ℓ} : {A : Type ℓ} → Option A → Bool
is_none none = true
is_none (some a) = false

-- The first dependency that is neither in the plan nor in the ledger.
unfoldable pub missing_of : Ledger → List PlanItem → List String → Option String
unfolding any
missing_of l items [] = none
missing_of l items (d ∷ ds) =
    if not (has_key item_key d items) && is_none (find_task l d)
    then some d
    else missing_of l items ds

unfoldable pub check_dependencies : Ledger → List PlanItem → List PlanItem → Result (Unit {0})
unfolding missing_of
check_dependencies l items [] = ok tt
check_dependencies l items (i ∷ is) = elim (missing_of l items i.payload.dependencies) [
  | some d ↦ err (invalid_dependency d)
  | none ↦ check_dependencies l items is
]

-- An item whose task stands in the ledger belongs to the same revision.
unfoldable pub check_conflicts : Ledger → String → List PlanItem → Result (Unit {0})
check_conflicts l revision [] = ok tt
check_conflicts l revision (i ∷ is) = elim (find_task l i.id) [
  | none ↦ check_conflicts l revision is
  | some t ↦
      if t.plan_revision == revision
      then check_conflicts l revision is
      else err (task_id_conflict i.id)
]

-- SELECT COALESCE(MAX(queue_seq),0) FROM tasks
unfoldable pub max_queue : List Task → ℕ
max_queue [] = 0
max_queue (t ∷ ts) = let rest = max_queue ts in if leb rest t.queue_seq then t.queue_seq else rest

-- The rows that the loop over the items inserts: those whose task is not there yet.
unfoldable pub new_tasks : Ledger → String → ℕ → ℕ → ℕ → List PlanItem → List Task
new_tasks l revision now ordinal next [] = []
new_tasks l revision now ordinal next (i ∷ is) = elim (find_task l i.id) [
  | some t ↦ new_tasks l revision now (ordinal + 1) next is
  | none ↦
      record {
        task_id = i.id;
        plan_revision = revision;
        ordinal = ordinal;
        project_id = i.project_id;
        writer_key = i.writer_key;
        queue_seq = next + 1;
        status = TaskStatus.planned;
        payload = i.payload;
        updated_at = now;
      }
      ∷ new_tasks l revision now (ordinal + 1) (next + 1) is
]

-- INSERT OR IGNORE INTO plans, or the digest of the plan that is there.
abbrev pub same_digest : Option Plan → String → Bool
same_digest none digest = true
same_digest (some p) digest = p.source_digest == digest

abbrev pub plan_key : Plan → String
plan_key p = p.plan_revision

abbrev pub insert_plan : Document → ℕ → List Plan → List Plan
insert_plan d now plans = elim (find plan_key d.plan_revision plans) [
  | some p ↦ plans
  | none ↦
      plans
      ++ record { plan_revision = d.plan_revision; source_digest = d.digest; loaded_at = now } ∷ []
]

abbrev pub fresh_tasks : Ledger → Document → ℕ → List Task
fresh_tasks l d now = new_tasks l d.plan_revision now 0 (max_queue l.tasks) d.items

abbrev pub with_plan : Ledger → Document → ℕ → Ledger
with_plan l d now =
    add_event now (EventKind.plan_loaded d.plan_revision (length (fresh_tasks l d now))) none none
      (record l { plans = insert_plan d now l.plans; tasks = l.tasks ++ fresh_tasks l d now })

abbrev pub has_items : List PlanItem → Bool
has_items [] = false
has_items (i ∷ is) = true

-- The second result is `queued_count`.
unfoldable pub load_plan : Ledger → Result Document → Result (Unit {0}) → ℕ → Result (Ledger × ℕ)
unfolding has_repeat validate_dependency_graph check_dependencies check_conflicts max_queue
    new_tasks
load_plan l parsed checked now = do
  d ← parsed
  guard (has_items d.items) empty_plan
  guard (leb (length d.items) plan_max_tasks) plan_too_many_tasks
  guard (not (has_repeat d.items)) invalid_task_ids
  checked
  validate_dependency_graph d.items
  guard (same_digest (find plan_key d.plan_revision l.plans) d.digest) plan_revision_digest_conflict
  check_dependencies l d.items d.items
  check_conflicts l d.plan_revision d.items
  ok (with_plan l d now, length (fresh_tasks l d now))

-- ===== src/Planning/Order.antt =====
-- The places in the queue that a plan's tasks get.
use mathlib.Core.Path.{sym}
use orch_kit.Prelude.{
  ℕ, String, ◌+◌, ◌<◌, ◌≤◌, ◌≡◌, ap, none, some, List, [], ◌∷◌, ◌++◌, All, All-map, Option, arith,
}
use orch_kit.Result.{Result, ok}
use orch_kit.Ledger.{TaskStatus, Task, Ledger, find_task}
use orch_kit.Planning.Item.{PlanItem, Document}
use orch_kit.Planning.Defs.{max_queue, new_tasks, fresh_tasks, load_plan}
use orch_kit.Planning.Refines.{load_plan-Loaded}

max_queue-All : (ts : List Task) → All (λ (t : Task). t.queue_seq ≤ max_queue ts) ts
unfolding max_queue
max_queue-All [] = tt
max_queue-All (t ∷ ts) = (
  ground arith,
  All-map (λ (u : Task). u.queue_seq ≤ max_queue ts) _ ts (λ u h. ground arith) (max_queue-All ts),
)

new_tasks-behind :
    (l : Ledger) (revision : String) (now ordinal next : ℕ) (items : List PlanItem)
    → All (λ (t : Task). next < t.queue_seq) (new_tasks l revision now ordinal next items)
unfolding new_tasks
new_tasks-behind l revision now ordinal next [] = tt
new_tasks-behind l revision now ordinal next (i ∷ is) =
    go (find_task l i.id) (new_tasks-behind l revision now (ordinal + 1) next is) (
      All-map (λ (t : Task). next + 1 < t.queue_seq) (λ (t : Task). next < t.queue_seq)
        (new_tasks l revision now (ordinal + 1) (next + 1) is) (λ t h. ground arith)
        (new_tasks-behind l revision now (ordinal + 1) (next + 1) is))
  where
    row : Task
    row = record {
      task_id = i.id;
      plan_revision = revision;
      ordinal = ordinal;
      project_id = i.project_id;
      writer_key = i.writer_key;
      queue_seq = next + 1;
      status = TaskStatus.planned;
      payload = i.payload;
      updated_at = now;
    }

    go :
        (o : Option Task)
        → All (λ (t : Task). next < t.queue_seq) (new_tasks l revision now (ordinal + 1) next is)
        → All
            (λ (t : Task). next < t.queue_seq)
            (new_tasks l revision now (ordinal + 1) (next + 1) is)
        → All
            (λ (t : Task). next < t.queue_seq)
            (elim o as (λ x. List Task) [
              | some t ↦ new_tasks l revision now (ordinal + 1) next is
              | none ↦ row ∷ new_tasks l revision now (ordinal + 1) (next + 1) is
            ])
    go (some t) a b = a
    go none a b = (ground arith, b)

-- A plan that is loaded keeps every task, and puts its own new tasks behind all of them in the queue.
pub load_plan-behind :
    (l m : Ledger) (parsed : Result Document) (checked : Result (Unit {0})) (now n : ℕ)
    → load_plan l parsed checked now ≡ ok (m, n)
    → (new : List Task) × (m.tasks ≡ l.tasks ++ new)
      × All (λ (t : Task). All (λ (u : Task). u.queue_seq < t.queue_seq) l.tasks) new
load_plan-behind l m parsed checked now n h =
    let p = load_plan-Loaded l m parsed checked now n h in
    let d = p.document in
    (
      fresh_tasks l d p.now,
      ap (λ (x : Ledger). x.tasks) (sym p.is),
      All-map (λ (t : Task). max_queue l.tasks < t.queue_seq) _ (fresh_tasks l d p.now)
          (λ t b.
            All-map (λ (u : Task). u.queue_seq ≤ max_queue l.tasks) _ l.tasks (λ u a. ground arith)
              (max_queue-All l.tasks))
          (new_tasks-behind l d.plan_revision p.now 0 (max_queue l.tasks) d.items),
    )

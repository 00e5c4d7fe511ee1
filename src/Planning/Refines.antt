-- ===== src/Planning/Refines.antt =====
-- A plan that is loaded adds planned tasks with new keys.
use mathlib.Core.Path.{subst}
use orch_kit.Prelude.{
  true, not, leb, length, ap, inl, inr, ℕ, String, ◌+◌, ◌≡◌, refl, false, Option, none, some, List,
  [], ◌∷◌, find, any, has_key, find-has_key, Distinct, Distinct-append, All, arith,
}
use orch_kit.Result.{
  Result, ok, err, guard, >>-eq-ok, guard-eq-ok, ok-eq-ok, empty_plan, plan_too_many_tasks,
  invalid_task_ids, plan_revision_digest_conflict,
}
use orch_kit.Planning.Graph.{validate_dependency_graph}
use orch_kit.Planning.Graph.Search.{IsGrounded}
use orch_kit.Planning.Graph.Cycle.{validate_dependency_graph_ends}
use orch_kit.Planning.Grounds.{loaded-Grounded}
use orch_kit.Ledger.{TaskStatus, Task, Ledger, task_key, find_task}
use orch_kit.Lifecycle.Refinement.{Refine, Step-load}
use orch_kit.Planning.Item.{PlanItem, Document, item_key}
use orch_kit.Planning.Defs.{
  has_repeat, has_items, plan_max_tasks, same_digest, plan_key, check_dependencies, check_conflicts,
  new_tasks, fresh_tasks, with_plan, load_plan, max_queue,
}

module _ (l : Ledger) (revision : String) (now : ℕ) where
  new_tasks-planned :
      (ordinal next : ℕ) (items : List PlanItem) (j : String) (t : Task)
      → find task_key j (new_tasks l revision now ordinal next items) ≡ some t
      → t.status ≡ TaskStatus.planned
  unfolding new_tasks find
  new_tasks-planned ordinal next [] j t h = cc
  new_tasks-planned ordinal next (i ∷ is) j t h = ground (
    arith,
    h,
    new_tasks-planned (ordinal + 1) next is j t,
    new_tasks-planned (ordinal + 1) (next + 1) is j t,
  )

  has_key-new_tasks :
      (ordinal next : ℕ) (items : List PlanItem) (k : String)
      → has_key item_key k items ≡ false
      → has_key task_key k (new_tasks l revision now ordinal next items) ≡ false
  unfolding new_tasks any
  has_key-new_tasks ordinal next [] k h = refl
  has_key-new_tasks ordinal next (i ∷ is) k h = ground (
    arith,
    h,
    has_key-new_tasks (ordinal + 1) next is k,
    has_key-new_tasks (ordinal + 1) (next + 1) is k,
  )

  new_tasks-Distinct :
      (ordinal next : ℕ) (items : List PlanItem)
      → has_repeat items ≡ false
      → Distinct task_key (new_tasks l revision now ordinal next items)
  unfolding new_tasks has_repeat any
  new_tasks-Distinct ordinal next [] h = tt
  new_tasks-Distinct ordinal next (i ∷ is) h =
      go (find_task l i.id) (new_tasks-Distinct (ordinal + 1) next is (ground arith))
        (has_key-new_tasks (ordinal + 1) (next + 1) is i.id (ground arith))
        (new_tasks-Distinct (ordinal + 1) (next + 1) is (ground arith))
    where
      go :
          (o : Option Task)
          → Distinct task_key (new_tasks l revision now (ordinal + 1) next is)
          → has_key task_key i.id (new_tasks l revision now (ordinal + 1) (next + 1) is) ≡ false
          → Distinct task_key (new_tasks l revision now (ordinal + 1) (next + 1) is)
          → Distinct task_key (elim o as (λ x. List Task) [
            | some t ↦ new_tasks l revision now (ordinal + 1) next is
            | none ↦
                record {
                  task_id = i.id;
                  plan_revision = revision;
                  ordinal = ordinal;
                  project_id = i.project_id;
                  writer_key = i.writer_key;
                  queue_seq = next + 1;
                  status = TaskStatus.planned;
                  payload = i.payload;
                  updated_at = now;
                }
                ∷ new_tasks l revision now (ordinal + 1) (next + 1) is
          ])
      go (some t) a b c = a
      go none a b c = (b, c)

  new_tasks-apart :
      (ordinal next : ℕ) (items : List PlanItem)
      → All
          (λ t. has_key task_key t.task_id l.tasks ≡ false)
          (new_tasks l revision now ordinal next items)
  unfolding new_tasks
  new_tasks-apart ordinal next [] = tt
  new_tasks-apart ordinal next (i ∷ is) =
      go (find_task l i.id) refl (new_tasks-apart (ordinal + 1) next is)
        (new_tasks-apart (ordinal + 1) (next + 1) is)
    where
      go :
          (o : Option Task)
          → find_task l i.id ≡ o
          → All
              (λ t. has_key task_key t.task_id l.tasks ≡ false)
              (new_tasks l revision now (ordinal + 1) next is)
          → All
              (λ t. has_key task_key t.task_id l.tasks ≡ false)
              (new_tasks l revision now (ordinal + 1) (next + 1) is)
          → All
              (λ t. has_key task_key t.task_id l.tasks ≡ false)
              (elim o as (λ x. List Task) [
                | some t ↦ new_tasks l revision now (ordinal + 1) next is
                | none ↦
                    record {
                      task_id = i.id;
                      plan_revision = revision;
                      ordinal = ordinal;
                      project_id = i.project_id;
                      writer_key = i.writer_key;
                      queue_seq = next + 1;
                      status = TaskStatus.planned;
                      payload = i.payload;
                      updated_at = now;
                    }
                    ∷ new_tasks l revision now (ordinal + 1) (next + 1) is
              ])
      go (some t) e a b = a
      go none e a b = (find-has_key task_key i.id l.tasks e, b)

-- From an accepted plan every chain of dependencies inside of it ends.
accepted :
    (items : List PlanItem)
    → validate_dependency_graph items ≡ ok tt
    → (k : String) → has_key item_key k items ≡ true
    → IsGrounded items k
accepted items h = elim (validate_dependency_graph_ends items) [
  | inl (e, all) ↦ all
  | inr (e, found) ↦ cc
]

pub record Loaded (l m : Ledger) : Type 0 where
  pub document : Document
  pub now : ℕ
  pub once : has_repeat document.items ≡ false
  pub acyclic : validate_dependency_graph document.items ≡ ok tt
  pub named : check_dependencies l document.items document.items ≡ ok tt
  pub is : with_plan l document now ≡ m

pub load_plan-Loaded :
    (l m : Ledger) (parsed : Result Document) (checked : Result (Unit {0})) (now n : ℕ)
    → load_plan l parsed checked now ≡ ok (m, n)
    → Loaded l m
unfolding load_plan
load_plan-Loaded l m (err e) checked now n h = cc
load_plan-Loaded l m (ok d) checked now n h =
    let (a1, h1) = >>-eq-ok (guard (has_items d.items) empty_plan) _ h in
    let (a2, h2) =
      >>-eq-ok (guard (leb (length d.items) plan_max_tasks) plan_too_many_tasks) _ h1 in
    let (a3, h3) = >>-eq-ok (guard (not (has_repeat d.items)) invalid_task_ids) _ h2 in
    let (a4, h4) = >>-eq-ok checked _ h3 in
    let (a5, h5) = >>-eq-ok (validate_dependency_graph d.items) _ h4 in
    let digest = same_digest (find plan_key d.plan_revision l.plans) d.digest in
    let (a6, h6) = >>-eq-ok (guard digest plan_revision_digest_conflict) _ h5 in
    let (a7, h7) = >>-eq-ok (check_dependencies l d.items d.items) _ h6 in
    let (a8, h8) = >>-eq-ok (check_conflicts l d.plan_revision d.items) _ h7 in
    let new = guard-eq-ok (not (has_repeat d.items)) invalid_task_ids a3 in
    record {
      document = d;
      now = now;
      once = ground (arith, new);
      acyclic = a5;
      named = a7;
      is = ap (λ (p : Ledger × ℕ). p.0) (ok-eq-ok h8);
    }

pub load_plan-Step :
    (l m : Ledger) (parsed : Result Document) (checked : Result (Unit {0})) (now n : ℕ)
    → load_plan l parsed checked now ≡ ok (m, n)
    → Refine l m
load_plan-Step l m parsed checked now n h =
    let p = load_plan-Loaded l m parsed checked now n h in
    let d = p.document in
    let new = fresh_tasks l d p.now in
    subst (λ x. Refine l x) p.is
      (Step-load l (with_plan l d p.now) new
        (λ j t e f. new_tasks-planned l d.plan_revision p.now 0 (max_queue l.tasks) d.items j t f)
        refl
        (λ apart.
          Distinct-append task_key l.tasks new apart
            (new_tasks-Distinct l d.plan_revision p.now 0 (max_queue l.tasks) d.items p.once)
            (new_tasks-apart l d.plan_revision p.now 0 (max_queue l.tasks) d.items))
        refl (λ stored. loaded-Grounded l d p.now stored p.named (accepted d.items p.acyclic)))

-- ===== src/Bridge/Session/Live.antt =====
-- What a session that is let through stands on, and that one writer has at most one such session.
use mathlib.Core.Path.{sym, ap}
use orch_kit.Prelude.{ℕ, String, true, ◌&&◌, some, ◌==◌, ◌≡◌, ◌∙◌, refl, nat_eq, eq_iff, arith}
use orch_kit.Result.{
  Result, ok, err, guard, require, >>-eq-ok, >>=-eq-ok, guard-eq-ok, require-eq-ok,
  worker_operation_invalid, bridge_capability_denied, bridge_run_unknown, bridge_run_scope_mismatch,
  bridge_run_not_active, bridge_stale_attempt, bridge_writer_not_exclusive,
}
use orch_kit.Ledger.{RunState, TaskStatus, Task, Run, Ledger, find_run, find_task, is_running}
use orch_kit.Worker.{RunBinding, validate_binding, same_binding}
use orch_kit.Bridge.Session.{
  ProjectProbe, latest_attempt, writers, is_only, is_in_progress, denied, expected_binding,
  require_live_run,
}

pub record Live (l : Ledger) (b : RunBinding) (capability : Result String) : Type 0 where
  pub run : Run
  pub task : Task
  pub found : find_run l b.run_id ≡ some run
  pub joined : find_task l run.task_id ≡ some task
  pub of_project : task.project_id ≡ some b.project_id
  pub of_writer : task.writer_key ≡ b.writer_key
  pub of_task : run.task_id ≡ b.task_id
  pub of_attempt : run.attempt ≡ b.attempt
  pub running : run.state ≡ RunState.running
  pub in_progress : task.status ≡ TaskStatus.in_progress
  pub leased : capability ≡ ok run.lease_token
  pub newest : latest_attempt b.task_id l.runs ≡ b.attempt
  pub sole : is_only b.run_id (writers l.tasks b.writer_key l.runs) ≡ true

denied-eq : (r : Result String) (lease : String) → denied r ≡ ok lease → r ≡ ok lease
denied-eq (ok x) lease h = h
denied-eq (err e) lease h = cc

is_running-eq : (s : RunState) → is_running s ≡ true → s ≡ RunState.running
is_running-eq RunState.running h = refl
is_running-eq _ h = cc

is_in_progress-eq : (s : TaskStatus) → is_in_progress s ≡ true → s ≡ TaskStatus.in_progress
is_in_progress-eq TaskStatus.in_progress h = refl
is_in_progress-eq _ h = cc

-- Two bindings that pass the test have the same five parts.
pub same_binding-eq : (a b : RunBinding) → same_binding a b ≡ true → a ≡ b
same_binding-eq a b h = ground (
  arith,
  h,
  eq_iff a.project_id b.project_id,
  eq_iff a.writer_key b.writer_key,
  eq_iff a.task_id b.task_id,
  eq_iff a.run_id b.run_id,
)

nat_eq-eq : (a b : ℕ) → nat_eq a b ≡ true → a ≡ b
nat_eq-eq a b h = ground (arith, h)

-- A run that is let through is in the ledger under the binding's project, writer, task and number, it runs,
-- its task is in progress, the capability holds its lease, no later run of the task is there, and it is the
-- only run that locks the writer.
pub require_live_run-Live :
    (l : Ledger) (b : RunBinding) (capability : Result String) (project : Result ProjectProbe)
    → require_live_run l b capability project ≡ ok tt
    → Live l b capability
unfolding require_live_run
require_live_run-Live l b capability project h =
    let (lease, a1, h1) = >>=-eq-ok (denied capability) _ h in
    let (r, a2, h2) = >>=-eq-ok (require (find_run l b.run_id) bridge_run_unknown) _ h1 in
    let (t, a3, h3) = >>=-eq-ok (require (find_task l r.task_id) bridge_run_unknown) _ h2 in
    let (p, a4, h4) =
      >>=-eq-ok (require t.project_id (worker_operation_invalid "project_id")) _ h3 in
    let e = expected_binding b.run_id r t p in
    let (a5, h5) = >>-eq-ok (validate_binding e) _ h4 in
    let (a6, h6) = >>-eq-ok (guard (same_binding e b) bridge_run_scope_mismatch) _ h5 in
    let (a7, h7) =
      >>-eq-ok (guard (is_running r.state && is_in_progress t.status) bridge_run_not_active) _ h6 in
    let (a8, h8) = >>-eq-ok (guard (r.lease_token == lease) bridge_capability_denied) _ h7 in
    let (a9, h9) =
      >>-eq-ok (guard (nat_eq (latest_attempt b.task_id l.runs) b.attempt) bridge_stale_attempt) _
        h8 in
    let (a10, h10) =
      >>-eq-ok
        (guard (is_only b.run_id (writers l.tasks b.writer_key l.runs)) bridge_writer_not_exclusive)
        _ h9 in
    let same = same_binding-eq e b (guard-eq-ok (same_binding e b) bridge_run_scope_mismatch a6) in
    let active : (is_running r.state && is_in_progress t.status) ≡ true =
      guard-eq-ok _ bridge_run_not_active a7 in
    let lease_same : (r.lease_token == lease) ≡ true = guard-eq-ok _ bridge_capability_denied a8 in
    record {
      run = r;
      task = t;
      found = require-eq-ok (find_run l b.run_id) bridge_run_unknown a2;
      joined = require-eq-ok (find_task l r.task_id) bridge_run_unknown a3;
      of_project =
          require-eq-ok t.project_id (worker_operation_invalid "project_id") a4
          ∙ ap (λ (x : RunBinding). some x.project_id) same;
      of_writer = ap (λ (x : RunBinding). x.writer_key) same;
      of_task = ap (λ (x : RunBinding). x.task_id) same;
      of_attempt = ap (λ (x : RunBinding). x.attempt) same;
      running = is_running-eq r.state (ground (arith, active));
      in_progress = is_in_progress-eq t.status (ground (arith, active));
      leased =
          denied-eq capability lease a1 ∙ ap ok (sym ((eq_iff r.lease_token lease).0 lease_same));
      newest = nat_eq-eq _ _ (guard-eq-ok _ bridge_stale_attempt a9);
      sole = guard-eq-ok _ bridge_writer_not_exclusive a10;
    }

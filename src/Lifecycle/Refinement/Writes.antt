-- ===== src/Lifecycle/Refinement/Writes.antt =====
-- Each way in which the operations write rows is a move of the view.
use mathlib.Core.Option
use mathlib.Core.Path.{subst, sym}
use orch_kit.Prelude.{
  ℕ, String, ◌+◌, ◌<◌, ◌≡◌, refl, ap, true, Option, some, none, List, [], ◌∷◌, ◌++◌, ◌==◌, All,
  Distinct, Distinct-update, or_else, count, find-update, find-append, count-update, count-append,
  update, find, eq_iff, arith, if◌then◌else◌,
}
use orch_kit.Ledger.{
  RunState, TaskStatus, Run, Task, Ledger, run_key, task_key, find_run, find_task, with_status,
  attempts,
}
use orch_kit.Lifecycle.Moves.{
  Grounded, TaskView, Edge, Retire, Step, IsDone, Holds, is_startable, new_status,
}
use orch_kit.Lifecycle.Invariant.{Inv, retire-Holds}
use orch_kit.Lifecycle.Refinement.Defs.{run_view, task_view, view, map-eq-some, map-eq-none}

-- A write to a run that keeps its keys and its number.
pub record KeepsRun (f : Run → Run) : Type 0 where
  pub key : (r : Run) → (f r).run_id ≡ r.run_id
  pub task : (r : Run) → (f r).task_id ≡ r.task_id
  pub number : (r : Run) → (f r).attempt ≡ r.attempt

abbrev pub write_status : Option TaskStatus → ℕ → String → List Task → List Task
write_status none now id tasks = tasks
write_status (some s) now id tasks = update task_key id (with_status s now) tasks

find_task-write :
    (l m : Ledger) (s : Option TaskStatus) (now : ℕ) (id j : String) (t : Task)
    → find_task l id ≡ some t
    → m.tasks ≡ write_status s now id l.tasks
    → (view m).task j ≡ (
        if id == j
        then some (record (task_view t) { status = new_status s t.status })
        else (view l).task j)
find_task-write l m none now id j t found e = rw e (ground (arith, eq_iff id j, found))
find_task-write l m (some s) now id j t found e =
    rw (e, find-update task_key j id (with_status s now) l.tasks (λ x. refl))
      (ground (arith, found))

-- A step of the view under which the task table keeps its primary key.
pub record Refine (l m : Ledger) : Type 0 where
  pub step : Step (view l) (view m)
  pub distinct : Distinct task_key l.tasks → Distinct task_key m.tasks

Distinct-write :
    (s : Option TaskStatus) (now : ℕ) (id : String) (tasks : List Task)
    → Distinct task_key tasks
    → Distinct task_key (write_status s now id tasks)
Distinct-write none now id tasks d = d
Distinct-write (some s) now id tasks d =
    Distinct-update task_key id (with_status s now) tasks (λ x. refl) d

-- An UPDATE of one run, with or without one of its task's status.
pub Step-move :
    (l m : Ledger) (id : String) (r : Run) (t : Task) (f : Run → Run) (status : Option TaskStatus)
    (now : ℕ)
    → find_run l id ≡ some r
    → find_task l r.task_id ≡ some t
    → KeepsRun f
    → Edge r.state (f r).state status
    → m.runs ≡ update run_key id f l.runs
    → m.tasks ≡ write_status status now r.task_id l.tasks
    → Refine l m
Step-move l m id r t f status now found joined keeps edge runs tasks = record {
  step =
      Step.move id (run_view r) (task_view t) (f r).state status (rw found) (rw joined) edge
        (λ i.
          rw (runs, find-update run_key i id f l.runs keeps.key)
            (ground (arith, found, keeps.task r, keeps.number r)))
        (λ j. find_task-write l m status now r.task_id j t joined tasks)
        (λ j.
          unfold attempts in
          rw runs (
            count-update run_key (λ (x : Run). x.task_id == j) id f l.runs
              (λ x. ap (λ (k : String). k == j) (keeps.task x))));
  distinct = λ d. rw tasks (Distinct-write status now r.task_id l.tasks d);
}

-- A write that touches neither table.
pub Step-stay : (l m : Ledger) → m.runs ≡ l.runs → m.tasks ≡ l.tasks → Refine l m
Step-stay l m e f = record {
  step = Step.stay (λ i. rw e) (λ j. rw f) (λ j. unfold attempts in rw e);
  distinct = λ d. rw f d;
}

pub Step-Retire :
    (l m : Ledger) (id : String) (t : Task) (s : TaskStatus) (now : ℕ)
    → find_task l id ≡ some t
    → Retire t.status s
    → m.runs ≡ l.runs
    → m.tasks ≡ update task_key id (with_status s now) l.tasks
    → Refine l m
Step-Retire l m id t s now found out runs tasks = record {
  step =
      Step.retire id (task_view t) s (rw found) out (λ i. rw runs)
        (λ j. find_task-write l m (some s) now id j t found tasks)
        (λ j. unfold attempts in rw runs);
  distinct = λ d. rw tasks (Distinct-write (some s) now id l.tasks d);
}

-- An INSERT of a run and the UPDATE of its task.
pub Step-start :
    (l m : Ledger) (r : Run) (t : Task) (now : ℕ)
    → find_run l r.run_id ≡ none
    → find_task l r.task_id ≡ some t
    → is_startable t.status ≡ true
    → All (IsDone (view l)) t.payload.dependencies
    → attempts l r.task_id < t.payload.max_attempts
    → ((i : String) → ¬ Holds (view l) i t.writer_key)
    → r.state ≡ RunState.running
    → r.attempt ≡ attempts l r.task_id + 1
    → m.runs ≡ l.runs ++ r ∷ []
    → m.tasks ≡ update task_key r.task_id (with_status TaskStatus.in_progress now) l.tasks
    → Refine l m
Step-start l m r t now free found ready deps room alone is_run numbered runs tasks = record {
  step =
      Step.start r.run_id r.task_id (task_view t) (rw free) (rw found) ready deps room alone
        (λ i.
          rw (runs, find-append run_key i l.runs (r ∷ []))
            (unfold find in ground (arith, free, eq_iff r.run_id i, is_run, numbered)))
        (λ j. find_task-write l m (some TaskStatus.in_progress) now r.task_id j t found tasks)
        (λ j.
          unfold attempts in
          rw (runs, count-append (λ (x : Run). x.task_id == j) l.runs (r ∷ []))
            (unfold count in ground arith));
  distinct = λ d. rw tasks (Distinct-write (some TaskStatus.in_progress) now r.task_id l.tasks d);
}

-- No run comes to hold a writer by a retirement.
pub Retire-free :
    (l m : Ledger) (id : String) (t : Task) (s : TaskStatus) (now : ℕ)
    → Inv (view l)
    → find_task l id ≡ some t
    → Retire t.status s
    → m.runs ≡ l.runs
    → m.tasks ≡ update task_key id (with_status s now) l.tasks
    → (i k : String) → Holds (view m) i k
    → Holds (view l) i k
Retire-free l m id t s now inv found out runs tasks =
    retire-Holds (view l) (view m) id (task_view t) s (rw found) out (λ i. rw runs)
      (λ j. find_task-write l m (some s) now id j t found tasks) (λ j. unfold attempts in rw runs)
      inv

-- A plan adds tasks behind those that are there.
pub Step-load :
    (l m : Ledger) (new : List Task)
    → ((j : String) (t : Task)
        → find_task l j ≡ none
        → find task_key j new ≡ some t
        → t.status ≡ TaskStatus.planned)
    → m.runs ≡ l.runs
    → (Distinct task_key l.tasks → Distinct task_key (l.tasks ++ new))
    → m.tasks ≡ l.tasks ++ new
    → (Grounded (view l) → Grounded (view m))
    → Refine l m
Step-load l m new fresh runs apart tasks grounded = record {
  distinct = λ d. rw tasks (apart d);
  step =
      Step.load (λ i. rw runs)
        (λ j t h. rw (tasks, find-append task_key j l.tasks new) (ground (arith, h)))
        (λ j t h k. load_status j t h (rw (tasks, find-append task_key j l.tasks new) at k))
        (λ j. unfold attempts in rw runs) grounded;
}
  where
    load_status :
        (j : String) (t : TaskView)
        → (view l).task j ≡ none
        → Option.map task_view (or_else (find_task l j) (find task_key j new)) ≡ some t
        → t.status ≡ TaskStatus.planned
    load_status j t h k =
        let none_old : find_task l j ≡ none = map-eq-none task_view (find_task l j) h in
        let (row, e, same) = map-eq-some task_view (find task_key j new) t (rw none_old at k) in
        rw (← same) (fresh j row none_old e)

-- The task of a run, in a ledger that keeps the invariant.
pub task_of_run :
    (l : Ledger) (id : String) (r : Run)
    → Inv (view l)
    → find_run l id ≡ some r
    → (t : Task) × (find_task l r.task_id ≡ some t)
task_of_run l id r inv found =
    let (t, e) = inv.owned id (run_view r) (rw found) in
    let (row, f, g) = map-eq-some task_view (find_task l r.task_id) t e in (row, f)

-- What an operation that moves one run does to the two tables: run `id` was in state `from`.
pub record Updates (l m : Ledger) (id : String) (f : Run → Run) (status : Option TaskStatus)
    (now : ℕ) (from : RunState) (r : Run) : Type 0 where
  pub found : find_run l id ≡ some r
  pub state : r.state ≡ from
  pub runs : m.runs ≡ update run_key id f l.runs
  pub tasks : m.tasks ≡ write_status status now r.task_id l.tasks

pub Step-update :
    {l m : Ledger} {id : String} {f : Run → Run} {status : Option TaskStatus} {now : ℕ}
    {from : RunState} {r : Run}
    → Inv (view l)
    → Updates l m id f status now from r
    → KeepsRun f
    → Edge from (f r).state status
    → Refine l m
Step-update {l} {m} {id} {f} {status} {now} {from} {r} inv u keeps edge =
    let (t, joined) = task_of_run l id r inv u.found in
    Step-move l m id r t f status now u.found joined keeps
      (subst (λ s. Edge s (f r).state status) (sym u.state) edge) u.runs u.tasks

-- What an operation does that writes the status of a run's task alone.
pub record Restates (l m : Ledger) (id : String) (status : TaskStatus) (now : ℕ) (from : RunState)
    (r : Run) : Type 0 where
  pub found : find_run l id ≡ some r
  pub state : r.state ≡ from
  pub runs : m.runs ≡ l.runs
  pub tasks : m.tasks ≡ update task_key r.task_id (with_status status now) l.tasks

pub Step-restate :
    {l m : Ledger} {id : String} {status : TaskStatus} {now : ℕ} {from : RunState} {r : Run}
    → Inv (view l)
    → Restates l m id status now from r
    → Edge from from (some status)
    → Refine l m
Step-restate {l} {m} {id} {status} {now} {from} {r} inv w edge =
    let (t, joined) = task_of_run l id r inv w.found in
    record {
      step =
          Step.move id (run_view r) (task_view t) from (some status) (rw w.found) (rw joined)
            (subst (λ s. Edge s from (some status)) (sym w.state) edge)
            (λ i. rw w.runs (ground (arith, w.found, w.state, eq_iff id i)))
            (λ j. find_task-write l m (some status) now r.task_id j t joined w.tasks)
            (λ j. unfold attempts in rw w.runs);
      distinct = λ d. rw w.tasks (Distinct-write (some status) now r.task_id l.tasks d);
    }

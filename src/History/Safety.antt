-- ===== src/History/Safety.antt =====
-- What every history of commands from an empty ledger keeps.
use orch_kit.Prelude.{
  ℕ, String, ◌≡◌, refl, ◌≤◌, Bool, true, false, some, List, All, Distinct, find, count,
}
use orch_kit.Ledger.{Run, Task, task_key, find_run, find_task, attempts, empty, locks_writer}
use orch_kit.Lifecycle.{TaskView, IsDone}
use orch_kit.Lifecycle.Invariant.{Inv, Steps-Inv, fits}
use orch_kit.Lifecycle.Terminal.{Steps-closed, Steps-ended, IsClosed, HasStatus}
use orch_kit.Lifecycle.Refinement.{view, run_view, task_view}
use orch_kit.History.Defs.{Command, history}
use orch_kit.History.Keep.{history-Advance}

pub Inv-empty : Inv (view empty)
unfolding attempts find count
Inv-empty = record {
  owned = λ i r h. cc;
  exclusive = λ i j k a b. cc a.found;
  status_fits = λ i r t h k. cc;
  numbered = λ i r h. cc;
  distinct = λ i j r s h k e f. cc;
  capped = λ j t h. cc;
  absent = λ j h. refl;
  ordered = λ i r t h k. cc;
}

module _ (fnmatch : String → String → Bool) (cs : List (Command × ℕ)) where
  pub history-Inv : Inv (view (history fnmatch empty cs))
  history-Inv = Steps-Inv (history-Advance fnmatch empty cs Inv-empty tt).steps Inv-empty

  pub history-Distinct : Distinct task_key (history fnmatch empty cs).tasks
  history-Distinct = (history-Advance fnmatch empty cs Inv-empty tt).distinct tt

  -- After any commands from an empty ledger, two runs in a state that locks a writer, with tasks of
  -- the same writer key, are the same run.
  pub history-exclusive :
      (i j : String) (r s : Run) (t u : Task)
      → find_run (history fnmatch empty cs) i ≡ some r
      → find_run (history fnmatch empty cs) j ≡ some s
      → find_task (history fnmatch empty cs) r.task_id ≡ some t
      → find_task (history fnmatch empty cs) s.task_id ≡ some u
      → locks_writer r.state ≡ true
      → locks_writer s.state ≡ true
      → t.writer_key ≡ u.writer_key
      → i ≡ j
  history-exclusive i j r s t u e f g h a b same =
      history-Inv.exclusive i j u.writer_key
        (record {
          row = run_view r;
          owner = task_view t;
          found = rw e refl;
          joined = rw g refl;
          locked = a;
          keyed = same;
        })
        (record {
          row = run_view s;
          owner = task_view u;
          found = rw f refl;
          joined = rw h refl;
          locked = b;
          keyed = refl;
        })

  -- After any commands from an empty ledger, no task has more runs than its `max_attempts`.
  pub history-capped :
      (t : Task)
      → find_task (history fnmatch empty cs) t.task_id ≡ some t
      → attempts (history fnmatch empty cs) t.task_id ≤ t.payload.max_attempts
  history-capped t h = history-Inv.capped t.task_id (task_view t) (rw h refl)

  -- After any commands from an empty ledger, each run belongs to a task of the ledger, and every
  -- dependency of that task is a finished task.
  pub history-ordered :
      (i : String) (r : Run)
      → find_run (history fnmatch empty cs) i ≡ some r
      → (t : TaskView) × ((view (history fnmatch empty cs)).task r.task_id ≡ some t)
        × All (IsDone (view (history fnmatch empty cs))) t.dependencies
  history-ordered i r h =
      let (t, e) = history-Inv.owned i (run_view r) (rw h refl) in
      (t, e, history-Inv.ordered i (run_view r) t (rw h refl) e)

  -- After any commands from an empty ledger, the status of a task fits the state of each of its runs:
  -- in progress from the claim to the verification, waiting for review under review, and ready to
  -- publish or waiting for the owner when verified.
  pub history-fits :
      (i : String) (r : Run) (t : Task)
      → find_run (history fnmatch empty cs) i ≡ some r
      → find_task (history fnmatch empty cs) r.task_id ≡ some t
      → fits r.state t.status ≡ true
  history-fits i r t h k =
      history-Inv.status_fits i (run_view r) (task_view t) (rw h refl) (rw k refl)

  -- After any commands from an empty ledger, the attempt number of a run is from one to the number of
  -- its task's runs.
  pub history-numbered :
      (i : String) (r : Run)
      → find_run (history fnmatch empty cs) i ≡ some r
      → (1 ≤ r.attempt) × (r.attempt ≤ attempts (history fnmatch empty cs) r.task_id)
  history-numbered i r h = history-Inv.numbered i (run_view r) (rw h refl)

  -- After any commands from an empty ledger, two runs of one task with the same attempt number are the
  -- same run.
  pub history-distinct :
      (i j : String) (r s : Run)
      → find_run (history fnmatch empty cs) i ≡ some r
      → find_run (history fnmatch empty cs) j ≡ some s
      → r.task_id ≡ s.task_id
      → r.attempt ≡ s.attempt
      → i ≡ j
  history-distinct i j r s h k e f =
      history-Inv.distinct i j (run_view r) (run_view s) (rw h refl) (rw k refl) e f

  -- A task that is done or cancelled after some commands from an empty ledger has that status after any
  -- further commands.
  pub history-closed :
      (ds : List (Command × ℕ)) (id : String) (t : Task)
      → find_task (history fnmatch empty cs) id ≡ some t
      → IsClosed t.status
      → HasStatus (view (history fnmatch (history fnmatch empty cs) ds)) id t.status
  history-closed ds id t h closed =
      Steps-closed id t.status
        (history-Advance fnmatch (history fnmatch empty cs) ds history-Inv history-Distinct).steps
        history-Inv closed (task_view t, rw h refl, refl)

  -- A run that does not lock its writer after some commands from an empty ledger keeps its state, its
  -- task and its number through any further commands.
  pub history-ended :
      (ds : List (Command × ℕ)) (i : String) (r : Run)
      → find_run (history fnmatch empty cs) i ≡ some r
      → locks_writer r.state ≡ false
      → (view (history fnmatch (history fnmatch empty cs) ds)).run i ≡ some (run_view r)
  history-ended ds i r h ended =
      Steps-ended i (run_view r)
        (history-Advance fnmatch (history fnmatch empty cs) ds history-Inv history-Distinct).steps
        (rw h refl) ended

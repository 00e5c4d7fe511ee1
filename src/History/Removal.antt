-- ===== src/History/Removal.antt =====
-- What a project has left when its removal is safe.
use orch_kit.Prelude.{
  ℕ, String, ◌≡◌, ◌⊎◌, Bool, true, false, not, ◌&&◌, ◌||◌, some, List, select-nothing, All, arith,
  text_refl, find, find-All,
}
use orch_kit.Ledger.{
  RunState, TaskStatus, Task, Run, Lock, Publication, PublicationStatus, Ledger, empty, task_key,
  lock_key, find_run, find_task, locks_writer, is_done, is_cancelled, same_text,
  active_writer_locks,
}
use orch_kit.Publication.{publication_key}
use orch_kit.Control.{is_of_project, is_safe, is_settled, project_removal_guard, run_in_project}
use orch_kit.Lifecycle.Invariant.{fits}
use orch_kit.History.{Command, history}
use orch_kit.History.Safety.{history-fits}

-- The three lists of the guard are empty where it is safe.
record Nothing (l : Ledger) (project_id : String) : Type 0 where
  pub tasks :
      All
        (λ (t : Task).
          (is_of_project project_id t && not (is_done t.status || is_cancelled t.status)) ≡ false)
        l.tasks
  pub locks :
      All (λ (k : Lock). same_text k.project_id (some project_id) ≡ false) (active_writer_locks l)
  pub publications :
      All
        (λ (p : Publication).
          (not (is_settled p.status) && run_in_project l project_id p.run_id) ≡ false)
        l.publications

is_safe-Nothing :
    (l : Ledger) (project_id : String)
    → is_safe (project_removal_guard l project_id) ≡ true
    → Nothing l project_id
unfolding is_safe project_removal_guard
is_safe-Nothing l project_id h = record {
  tasks = select-nothing _ l.tasks (ground arith);
  locks = select-nothing _ (active_writer_locks l) (ground arith);
  publications = select-nothing _ l.publications (ground arith);
}

-- What is left of a project whose removal is safe.
pub record IsSettled (l : Ledger) (project_id : String) : Type 0 where
  pub tasks :
      (id : String) (t : Task)
      → find_task l id ≡ some t
      → t.project_id ≡ some project_id
      → (t.status ≡ TaskStatus.done) ⊎ (t.status ≡ TaskStatus.cancelled)
  pub runs :
      (id : String) (r : Run) (t : Task)
      → find_run l id ≡ some r
      → find_task l r.task_id ≡ some t
      → t.project_id ≡ some project_id
      → locks_writer r.state ≡ false
  pub locks :
      (key : String) (k : Lock)
      → find lock_key key (active_writer_locks l) ≡ some k
      → ¬ (k.project_id ≡ some project_id)
  pub publications :
      (p : Publication) (r : Run) (t : Task)
      → find publication_key p.run_id l.publications ≡ some p
      → find_run l p.run_id ≡ some r
      → find_task l r.task_id ≡ some t
      → t.project_id ≡ some project_id
      → (p.status ≡ PublicationStatus.complete) ⊎ (p.status ≡ PublicationStatus.abandoned)

closed-task :
    (s : TaskStatus)
    → (is_done s || is_cancelled s) ≡ true
    → (s ≡ TaskStatus.done) ⊎ (s ≡ TaskStatus.cancelled)
closed-task s h = ground arith

settled-publication :
    (s : PublicationStatus)
    → is_settled s ≡ true
    → (s ≡ PublicationStatus.complete) ⊎ (s ≡ PublicationStatus.abandoned)
settled-publication s h = ground arith

not-fits :
    (r : RunState) (s : TaskStatus)
    → (s ≡ TaskStatus.done) ⊎ (s ≡ TaskStatus.cancelled)
    → fits r s ≡ true
    → locks_writer r ≡ false
not-fits r s h e = ground (arith, h, e)

module _ (l : Ledger) (project_id : String) (left : Nothing l project_id) where
  tasks-settled :
      (id : String) (t : Task)
      → find_task l id ≡ some t
      → t.project_id ≡ some project_id
      → (t.status ≡ TaskStatus.done) ⊎ (t.status ≡ TaskStatus.cancelled)
  tasks-settled id t found member =
      let here = find-All task_key _ id l.tasks left.tasks found in
      closed-task t.status (ground (arith, here, member, text_refl project_id))

  locks-settled :
      (key : String) (k : Lock)
      → find lock_key key (active_writer_locks l) ≡ some k
      → ¬ (k.project_id ≡ some project_id)
  locks-settled key k found member =
      let here = find-All lock_key _ key (active_writer_locks l) left.locks found in
      ground (arith, here, member, text_refl project_id)

  publications-settled :
      (p : Publication) (r : Run) (t : Task)
      → find publication_key p.run_id l.publications ≡ some p
      → find_run l p.run_id ≡ some r
      → find_task l r.task_id ≡ some t
      → t.project_id ≡ some project_id
      → (p.status ≡ PublicationStatus.complete) ⊎ (p.status ≡ PublicationStatus.abandoned)
  publications-settled p r t found ran joined member =
      let here = find-All publication_key _ p.run_id l.publications left.publications found in
      settled-publication p.status (ground (arith, here, ran, joined, member, text_refl project_id))

-- After any commands from an empty ledger, where the guard says that a project may be removed, each of its
-- tasks is done or cancelled, no run of one of its tasks locks a writer, no writer lock is listed for the
-- project, and each publication of one of its runs is complete or abandoned.
pub project_removal_guard-IsSettled :
    (fnmatch : String → String → Bool) (cs : List (Command × ℕ)) (project_id : String)
    → is_safe (project_removal_guard (history fnmatch empty cs) project_id) ≡ true
    → IsSettled (history fnmatch empty cs) project_id
project_removal_guard-IsSettled fnmatch cs project_id safe =
    let l : Ledger = history fnmatch empty cs in
    let left : Nothing l project_id = is_safe-Nothing l project_id safe in
    record {
      tasks = tasks-settled l project_id left;
      runs = λ id r t found joined member.
          not-fits r.state t.status (tasks-settled l project_id left r.task_id t joined member)
            (history-fits fnmatch cs id r t found joined);
      locks = locks-settled l project_id left;
      publications = publications-settled l project_id left;
    }

-- ===== src/Lifecycle/Invariant/Defs.antt =====
-- The invariant, and the facts about single states that its proof uses.
use orch_kit.Prelude.{String, ◌≤◌, ◌≡◌, refl, Bool, true, false, Option, some, none, All, arith}
use orch_kit.Ledger.{RunState, TaskStatus, locks_writer}
use orch_kit.Lifecycle.Moves.{
  RunView, TaskView, View, Edge, Retire, Holds, IsDone, new_status, is_startable,
}

-- A run that locks its writer has a task of this status.
abbrev pub fits : RunState → TaskStatus → Bool
fits RunState.running TaskStatus.in_progress = true
fits RunState.result_submitted TaskStatus.in_progress = true
fits RunState.quiescing TaskStatus.in_progress = true
fits RunState.verifying TaskStatus.in_progress = true
fits RunState.reviewing TaskStatus.waiting_review = true
fits RunState.verified TaskStatus.ready_to_publish = true
fits RunState.verified TaskStatus.waiting_owner = true
fits RunState.needs_fix _ = true
fits RunState.blocked _ = true
fits RunState.complete _ = true
fits RunState.aborted _ = true
fits _ _ = false

pub record Inv (v : View) : Type 0 where
  pub owned :
      (i : String) (r : RunView) → v.run i ≡ some r → (t : TaskView) × (v.task r.task_id ≡ some t)
  pub exclusive : (i j k : String) → Holds v i k → Holds v j k → i ≡ j
  pub status_fits :
      (i : String) (r : RunView) (t : TaskView)
      → v.run i ≡ some r
      → v.task r.task_id ≡ some t
      → fits r.state t.status ≡ true
  pub numbered :
      (i : String) (r : RunView)
      → v.run i ≡ some r
      → (1 ≤ r.attempt) × (r.attempt ≤ v.attempts r.task_id)
  pub distinct :
      (i j : String) (r s : RunView)
      → v.run i ≡ some r
      → v.run j ≡ some s
      → r.task_id ≡ s.task_id
      → r.attempt ≡ s.attempt
      → i ≡ j
  pub capped : (j : String) (t : TaskView) → v.task j ≡ some t → v.attempts j ≤ t.max_attempts
  pub absent : (j : String) → v.task j ≡ none → v.attempts j ≡ 0
  pub ordered :
      (i : String) (r : RunView) (t : TaskView)
      → v.run i ≡ some r
      → v.task r.task_id ≡ some t
      → All (IsDone v) t.dependencies

pub Edge-locks : {a b : RunState} {s : Option TaskStatus} → Edge a b s → locks_writer a ≡ true
Edge-locks Edge.beat = refl
Edge-locks _ = refl

pub Edge-fits :
    {a b : RunState} {s : Option TaskStatus} (status : TaskStatus)
    → Edge a b s
    → fits a status ≡ true
    → fits b (new_status s status) ≡ true
Edge-fits status Edge.beat h = h
Edge-fits status Edge.submit h = ground arith
Edge-fits status Edge.quiesce h = ground arith
Edge-fits status _ h = refl

pub Edge-open :
    {a b : RunState} {s : Option TaskStatus} (status : TaskStatus)
    → Edge a b s
    → fits a status ≡ true
    → (status ≡ TaskStatus.done → ⊥) × (status ≡ TaskStatus.cancelled → ⊥)
Edge-open status Edge.beat h = ground arith
Edge-open status _ h = ground arith

pub fits-unlocked :
    (a : RunState) (status : TaskStatus) → locks_writer a ≡ false → fits a status ≡ true
fits-unlocked a status h = ground arith

-- A task that a retirement or a start may take has no run that locks its writer.
pub fits-startable :
    (a : RunState) (status : TaskStatus)
    → fits a status ≡ true
    → is_startable status ≡ true
    → locks_writer a ≡ false
fits-startable a status h k = ground arith

pub Retire-startable : {a b : TaskStatus} → Retire a b → is_startable a ≡ true
Retire-startable (Retire.block s h) = ground arith
Retire-startable (Retire.cancel s h) = ground arith
Retire-startable Retire.cancel_blocked = refl

pub startable_open :
    (s : TaskStatus)
    → is_startable s ≡ true
    → (s ≡ TaskStatus.done → ⊥) × (s ≡ TaskStatus.cancelled → ⊥)
startable_open s h = ground arith

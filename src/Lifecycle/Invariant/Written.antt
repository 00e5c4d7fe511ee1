-- ===== src/Lifecycle/Invariant/Written.antt =====
-- What carries over when one task's status is written.
use orch_kit.Prelude.{
  String, ◌≡◌, refl, some, inl, inr, ◌==◌, Bool-cases, eq_iff, arith, if◌then◌else◌,
}
use mathlib.Core.Path.{subst}
use orch_kit.Ledger.{TaskStatus}
use orch_kit.Lifecycle.Moves.{RunView, TaskView, View, IsDone}
use orch_kit.Lifecycle.Invariant.Rows.{split_row, SameTask, SameRun}

pub SameTask-refl : (t : TaskView) → SameTask t t
SameTask-refl t = record { writer = refl; cap = refl; deps = refl }

pub SameRun-refl : (r : RunView) → SameRun r r
SameRun-refl r = record { task = refl; number = refl; lock = λ h. h }

-- A task after a write of one task's status.
module _ (v w : View) (id : String) (t : TaskView) (to : TaskStatus) (found : v.task id ≡ some t)
    (tasks : (j : String)
      → w.task j ≡ (if id == j then some (record t { status = to }) else v.task j)) where
  pub written_old :
      (j : String) (u : TaskView)
      → w.task j ≡ some u
      → (s : TaskView) × (v.task j ≡ some s) × SameTask s u
  written_old j u h = elim (split_row id j u (tasks j) h) [
    | inl (e, f) ↦ (t, subst (λ k. v.task k ≡ some t) e found, ground arith)
    | inr (n, f) ↦ (u, f, SameTask-refl u)
  ]

  pub written_new :
      (j : String) (s : TaskView) → v.task j ≡ some s → (u : TaskView) × (w.task j ≡ some u)
  written_new j s h = elim (Bool-cases (id == j)) [
    | inl e ↦ (record t { status = to }, rw (tasks j, e))
    | inr n ↦ (s, rw (tasks j, n) h)
  ]

  pub written_done : (t.status ≡ TaskStatus.done → ⊥) → (d : String) → IsDone v d → IsDone w d
  written_done open_task d (u, h, e) = elim (Bool-cases (id == d)) [
    | inl y ↦ absurd (
        open_task
          (ground (arith, eq_iff id d, subst (λ k. v.task k ≡ some t) ((eq_iff id d).0 y) found)))
    | inr n ↦ (u, rw (tasks d, n) h, e)
  ]

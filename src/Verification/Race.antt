-- ===== src/Verification/Race.antt =====
-- `verify` reads its run in one transaction and writes in another one. `_block_verification` reads the
-- run's state again; the last transaction of `verify` does not.
use orch_kit.Prelude.{
  ℕ, String, ◌≡◌, ◌∙◌, refl, true, false, some, ◌==◌, find-update, Bool-cases, eq_iff, inl, inr,
  text_refl, arith,
}
use orch_kit.Ledger.{
  TaskStatus, Run, Task, Manifest, Ledger, run_key, task_key, find_run, find_task, with_status,
  locks_writer,
}
use orch_kit.Lifecycle.{Holds}
use orch_kit.Lifecycle.Refinement.{view, run_view, task_view}
use orch_kit.Verification.Defs.{Outcome, commit_verification, verified_as}

module _ (l : Ledger) (run : Run) (manifest : Manifest) (id : String) (now : ℕ) where
  task_after :
      (j : String) (t : Task)
      → find_task l j ≡ some t
      → (u : Task) × (find_task (commit_verification l run manifest id Outcome.verified now) j
          ≡ some u)
        × (u.writer_key ≡ t.writer_key)
  unfolding commit_verification
  task_after j t h = elim (Bool-cases (run.task_id == j)) [
    | inl e ↦ (
      with_status TaskStatus.ready_to_publish now t,
      rw
          (
            find-update task_key j run.task_id (with_status TaskStatus.ready_to_publish now) l.tasks
                (λ x. refl),
            e,
          )
          (ground (arith, h, eq_iff run.task_id j)),
      refl,
    )
    | inr e ↦ (
      t,
      rw
          (
            find-update task_key j run.task_id (with_status TaskStatus.ready_to_publish now) l.tasks
                (λ x. refl),
            e,
          )
          h,
      refl,
    )
  ]

  -- Whatever the state of the run has become since the first transaction of `verify` read it, the last
  -- one makes the run verified: its task's writer key is then held by the run, and still by any other
  -- run that holds it.
  pub commit_verification-revives :
      (old other : Run) (t u : Task) (j : String)
      → find_run l run.run_id ≡ some old
      → find_task l old.task_id ≡ some t
      → find_run l j ≡ some other
      → find_task l other.task_id ≡ some u
      → (run.run_id == j) ≡ false
      → u.writer_key ≡ t.writer_key
      → locks_writer other.state ≡ true
      → Holds
          (view (commit_verification l run manifest id Outcome.verified now))
          run.run_id
          t.writer_key
        × Holds (view (commit_verification l run manifest id Outcome.verified now)) j t.writer_key
  unfolding commit_verification
  commit_verification-revives old other t u j at_run joined at_other joined' apart same locked =
      let (t', e, f) = task_after old.task_id t joined in
      let (u', g, k) = task_after other.task_id u joined' in
      (
        record {
          row = run_view (verified_as Outcome.verified id old);
          owner = task_view t';
          found =
              rw
                (
                  find-update run_key run.run_id run.run_id (verified_as Outcome.verified id) l.runs
                      (λ x. refl),
                  text_refl run.run_id,
                  at_run,
                )
                refl;
          joined = rw e refl;
          locked = refl;
          keyed = f;
        },
        record {
          row = run_view other;
          owner = task_view u';
          found =
              rw
                (
                  find-update run_key j run.run_id (verified_as Outcome.verified id) l.runs
                      (λ x. refl),
                  apart,
                  at_other,
                )
                refl;
          joined = rw g refl;
          locked = locked;
          keyed = k ∙ same;
        },
      )

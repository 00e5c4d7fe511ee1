-- ===== src/History/Keep.antt =====
-- A history is a sequence of moves.
use orch_kit.Prelude.{ℕ, String, ◌≡◌, refl, Bool, List, [], ◌∷◌, Distinct, arith}
use orch_kit.Result.{Result, ok, err}
use orch_kit.Ledger.{Ledger, task_key}
use orch_kit.Lifecycle.Invariant.{Inv, Steps-Inv}
use orch_kit.Lifecycle.Refinement.{view, Refine, Step-stay}
use orch_kit.Planning.Refines.{load_plan-Step}
use orch_kit.Claim.{Advance, Advance-refl, Advance-trans, Advance-Refine, claim-Advance}
use orch_kit.Attempt.Refines.{heartbeat-Step, checkpoint-Step, submit-Step, quiesce-Step}
use orch_kit.Verification.Refines.{verify-Step}
use orch_kit.Review.Refines.{import_review-Step}
use orch_kit.Completion.Refines.{complete-Step, approve-Step}
use orch_kit.Publication.Refines.{publish-Step}
use orch_kit.Control.Refines.{cancel_task-Step, abort-Step}
use orch_kit.Control.{pause, resume, pause_project, resume_project, record_project_removed}
use orch_kit.History.Defs.{Command, settle, settle_only, perform, history}

settle-Advance {ℓ} :
    {A : Type ℓ} (l : Ledger) (r : Result (Ledger × A))
    → ((m : Ledger) (a : A) → r ≡ ok (m, a) → Refine l m)
    → Advance l (settle l r)
settle-Advance l (ok (m, a)) f = Advance-Refine (f m a refl)
settle-Advance l (err e) f = Advance-refl l

settle_only-Advance :
    (l : Ledger) (r : Result Ledger)
    → ((m : Ledger) → r ≡ ok m → Refine l m)
    → Advance l (settle_only l r)
settle_only-Advance l (ok m) f = Advance-Refine (f m refl)
settle_only-Advance l (err e) f = Advance-refl l

settle_claim :
    {A : Type 0} (l : Ledger) (r : Result (Ledger × A))
    → ((m : Ledger) (a : A) → r ≡ ok (m, a) → Advance l m)
    → Advance l (settle l r)
settle_claim l (ok (m, a)) f = f m a refl
settle_claim l (err e) f = Advance-refl l

record Unmoved (l m : Ledger) : Type 0 where
  pub runs : m.runs ≡ l.runs
  pub tasks : m.tasks ≡ l.tasks

pause_project-Unmoved :
    (l m : Ledger) (project_id reason : String) (now : ℕ)
    → pause_project l project_id reason now ≡ ok m
    → Unmoved l m
unfolding pause_project
pause_project-Unmoved l m project_id reason now h = record {
  runs = ground arith;
  tasks = ground arith;
}

resume_project-Unmoved :
    (l : Ledger) (project_id : String) (now : ℕ) → Unmoved l (resume_project l project_id now).0
unfolding resume_project
resume_project-Unmoved l project_id now = record { runs = ground arith; tasks = ground arith }

unmoved : {l m : Ledger} → Unmoved l m → Refine l m
unmoved {l} {m} u = Step-stay l m u.runs u.tasks

module _ (fnmatch : String → String → Bool) where
  pub perform-Advance :
      (l : Ledger) (c : Command) (now : ℕ)
      → Inv (view l)
      → Distinct task_key l.tasks
      → Advance l (perform fnmatch l c now)
  unfolding perform pause resume record_project_removed
  perform-Advance l (Command.loads parsed checked) now inv d =
      settle-Advance l _ (λ m n h. load_plan-Step l m parsed checked now n h)
  perform-Advance l (Command.claims q probe) now inv d =
      settle_claim l _ (λ m reply h. claim-Advance l m q probe now reply inv d h)
  perform-Advance l (Command.beats run_id token) now inv d =
      settle-Advance l _ (λ m at h. heartbeat-Step l m inv run_id token now at h)
  perform-Advance l (Command.checkpoints run_id token reason active) now inv d =
      settle-Advance l _ (λ m c h. checkpoint-Step l m inv run_id token now reason active c h)
  perform-Advance l (Command.submits run_id token loaded execution processes) now inv d =
      settle-Advance l _
        (λ m r h. submit-Step l m inv run_id token now loaded execution processes r h)
  perform-Advance l (Command.quiesces run_id token execution processes) now inv d =
      settle-Advance l _ (λ m r h. quiesce-Step l m inv run_id token now execution processes r h)
  perform-Advance l (Command.verifies run_id o) now inv d =
      settle-Advance l _ (λ m out h. verify-Step fnmatch l m run_id o now out inv h)
  perform-Advance l (Command.reviews run_id loaded) now inv d =
      settle-Advance l _ (λ m v h. import_review-Step l m run_id loaded now v inv h)
  perform-Advance l (Command.approves run_id note current) now inv d =
      settle_only-Advance l _ (λ m h. approve-Step l m run_id note current now inv h)
  perform-Advance l (Command.completes run_id current) now inv d =
      settle-Advance l _ (λ m c h. complete-Step l m run_id current now c inv h)
  perform-Advance l (Command.publishes run_id current p) now inv d =
      Advance-Refine (publish-Step l run_id p now current inv)
  perform-Advance l (Command.cancels task_id reason) now inv d =
      settle-Advance l _ (λ m c h. cancel_task-Step l m task_id reason now c h)
  perform-Advance l (Command.aborts run_id reason retry confirmed execution processes) now inv d =
      settle-Advance l _
        (λ m s h. abort-Step l m run_id reason retry confirmed execution processes now s inv h)
  perform-Advance l (Command.pauses reason) now inv d = Advance-Refine (Step-stay l _ refl refl)
  perform-Advance l Command.resumes now inv d = Advance-Refine (Step-stay l _ refl refl)
  perform-Advance l (Command.pauses_project project_id reason) now inv d =
      settle_only-Advance l _ (λ m h. unmoved (pause_project-Unmoved l m project_id reason now h))
  perform-Advance l (Command.resumes_project project_id) now inv d =
      Advance-Refine (unmoved (resume_project-Unmoved l project_id now))
  perform-Advance l (Command.removes_project project_id) now inv d =
      Advance-Refine (Step-stay l _ refl refl)

  -- In a ledger that keeps the invariant and whose task table has no repeated key, any commands make
  -- moves of the lifecycle only, and leave the task table without a repeated key.
  pub history-Advance :
      (l : Ledger) (cs : List (Command × ℕ))
      → Inv (view l)
      → Distinct task_key l.tasks
      → Advance l (history fnmatch l cs)
  unfolding history
  history-Advance l [] inv d = Advance-refl l
  history-Advance l ((c, now) ∷ cs) inv d =
      let a = perform-Advance l c now inv d in
      Advance-trans a
        (history-Advance (perform fnmatch l c now) cs (Steps-Inv a.steps inv) (a.distinct d))

-- ===== src/Verification/Refines.antt =====
-- A verification, made of its two transactions with nothing between them, is one move of its run.
use orch_kit.Prelude.{ℕ, String, ◌≡◌, refl, some, arith, find-key}
use mathlib.Core.Path.{subst, sym}
use mathlib.Core.Bool.{Bool}
use orch_kit.Result.{ok, >>=-eq-ok}
use orch_kit.Ledger.{RunState, TaskStatus, Run, Task, Manifest, Ledger, run_key, find_run}
use orch_kit.Lifecycle.{Edge}
use orch_kit.Lifecycle.Invariant.{Inv}
use orch_kit.Lifecycle.Refinement.{view, Refine, Step-update, KeepsRun, Updates}
use orch_kit.Verification.Defs.{
  Observation, Gate, Outcome, blocked_by, block_verification, begin_verification, judge, gate,
  commit_verification, verified_as, verified_status, conclude, verify,
}

block_verification-Updates :
    (l m : Ledger) (run_id reason : String) (now : ℕ) (o : Outcome)
    → block_verification l run_id reason now ≡ ok (m, o)
    → (r : Run) × Updates l m run_id
        (blocked_by reason now)
        (some TaskStatus.blocked)
        now
        RunState.verifying
        r
unfolding block_verification
block_verification-Updates l m run_id reason now o h = ground arith

pub block_verification-Step :
    (l m : Ledger) (run_id reason : String) (now : ℕ) (o : Outcome)
    → Inv (view l)
    → block_verification l run_id reason now ≡ ok (m, o)
    → Refine l m
block_verification-Step l m run_id reason now o inv h =
    let (r, u) = block_verification-Updates l m run_id reason now o h in
    Step-update inv u (record { key = λ x. refl; task = λ x. refl; number = λ x. refl })
      Edge.verify_block

record Begun (l : Ledger) (run_id : String) (r : Run) : Type 0 where
  pub found : find_run l run_id ≡ some r
  pub state : r.state ≡ RunState.verifying

begin_verification-Begun :
    (l : Ledger) (run_id : String) (r : Run) (t : Task)
    → begin_verification l run_id ≡ ok (r, t)
    → Begun l run_id r
unfolding begin_verification
begin_verification-Begun l run_id r t h = ground arith

verified_as-KeepsRun : (o : Outcome) (id : String) → KeepsRun (verified_as o id)
verified_as-KeepsRun Outcome.needs_fix id = record {
  key = λ x. refl;
  task = λ x. refl;
  number = λ x. refl;
}
verified_as-KeepsRun Outcome.reviewing id = record {
  key = λ x. refl;
  task = λ x. refl;
  number = λ x. refl;
}
verified_as-KeepsRun _ id = record { key = λ x. refl; task = λ x. refl; number = λ x. refl }

verified_as-Edge :
    (o : Outcome) (id : String) (r : Run)
    → Edge RunState.verifying (verified_as o id r).state (some (verified_status o))
verified_as-Edge Outcome.needs_fix id r = Edge.verify_fail
verified_as-Edge Outcome.reviewing id r = Edge.verify_review
verified_as-Edge Outcome.verified id r = Edge.verify_pass
verified_as-Edge (Outcome.blocked reason) id r = Edge.verify_pass

pub commit_verification-Step :
    (l : Ledger) (r : Run) (manifest : Manifest) (id : String) (o : Outcome) (now : ℕ)
    → Inv (view l)
    → find_run l r.run_id ≡ some r
    → r.state ≡ RunState.verifying
    → Refine l (commit_verification l r manifest id o now)
unfolding commit_verification
commit_verification-Step l r manifest id o now inv found state =
    Step-update {status = some (verified_status o)} {now = now} inv
      (record { found = found; state = state; runs = refl; tasks = refl })
      (verified_as-KeepsRun o id) (verified_as-Edge o id r)

conclude-Step :
    (fnmatch : String → String → Bool) (l m : Ledger) (r : Run) (t : Task) (o : Observation)
    (now : ℕ) (out : Outcome) (g : Gate)
    → Inv (view l)
    → find_run l r.run_id ≡ some r
    → r.state ≡ RunState.verifying
    → conclude fnmatch l r t o now g ≡ ok (m, out)
    → Refine l m
conclude-Step fnmatch l m r t o now out (Gate.stop reason) inv found state h =
    block_verification-Step l m r.run_id reason now out inv h
conclude-Step fnmatch l m r t o now out (Gate.raised reason) inv found state h = cc
conclude-Step fnmatch l m r t o now out (Gate.admit manifest) inv found state h =
    let same : commit_verification l r manifest o.snapshot_id
          (judge fnmatch t.payload r manifest o.checks) now
        ≡ m =
      ground arith in
    subst (λ x. Refine l x) same
      (commit_verification-Step l r manifest o.snapshot_id
        (judge fnmatch t.payload r manifest o.checks) now inv found state)

pub verify-Step :
    (fnmatch : String → String → Bool) (l m : Ledger) (run_id : String) (o : Observation) (now : ℕ)
    (out : Outcome)
    → Inv (view l)
    → verify fnmatch l run_id o now ≡ ok (m, out)
    → Refine l m
unfolding verify
verify-Step fnmatch l m run_id o now out inv h =
    let ((r, t), e, f) = >>=-eq-ok (begin_verification l run_id) _ h in
    let begun = begin_verification-Begun l run_id r t e in
    let key : r.run_id ≡ run_id = find-key run_key run_id l.runs begun.found in
    conclude-Step fnmatch l m r t o now out (gate t.payload r o) inv
      (subst (λ k. find_run l k ≡ some r) (sym key) begun.found) begun.state f

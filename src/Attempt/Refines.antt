-- ===== src/Attempt/Refines.antt =====
-- Each operation of a worker is one move of its run.
use orch_kit.Prelude.{ℕ, String, ◌≡◌, refl, sym, Bool, none, arith}
use mathlib.Core.Path.{subst}
use orch_kit.Result.{Result, ok}
use orch_kit.Ledger.{RunState, Run, Ledger, Receipt, Checkpoint}
use orch_kit.Lifecycle.{Edge}
use orch_kit.Lifecycle.Invariant.{Inv}
use orch_kit.Lifecycle.Refinement.{view, Refine, Step-update, KeepsRun, Updates}
use orch_kit.Attempt.Defs.{
  leased_run, beat_at, heartbeat, checkpoint, submit, submitted, quiesced, quiesce,
}

heartbeat-Updates :
    (l m : Ledger) (run_id lease_token : String) (now at : ℕ)
    → heartbeat l run_id lease_token now ≡ ok (m, at)
    → (r : Run) × Updates l m run_id (beat_at now) none now RunState.running r
unfolding heartbeat leased_run
heartbeat-Updates l m run_id lease_token now at h = ground arith

checkpoint-Updates :
    (l m : Ledger) (run_id lease_token reason : String) (active : Bool) (now : ℕ) (c : Checkpoint)
    → checkpoint l run_id lease_token reason active now ≡ ok (m, c)
    → (r : Run) × Updates l m run_id (beat_at now) none now RunState.running r
unfolding checkpoint leased_run
checkpoint-Updates l m run_id lease_token reason active now c h = ground arith

submit-Updates :
    (l m : Ledger) (run_id lease_token : String) (loaded : Result Receipt)
    (execution : Result (Unit {0})) (processes : Result Bool) (now : ℕ) (receipt : Receipt)
    → submit l run_id lease_token loaded execution processes now ≡ ok (m, receipt)
    → (r : Run) × Updates l m run_id (submitted receipt now) none now RunState.running r
unfolding submit leased_run
submit-Updates l m run_id lease_token loaded execution processes now receipt h = ground arith

quiesce-Updates :
    (l m : Ledger) (run_id lease_token : String) (execution : Result (Unit {0}))
    (processes : Result Bool) (now : ℕ) (r : Run)
    → quiesce l run_id lease_token execution processes now ≡ ok (m, r)
    → Updates l m run_id (quiesced now) none now RunState.result_submitted r
unfolding quiesce leased_run
quiesce-Updates l m run_id lease_token execution processes now r h = ground arith

beat_at-KeepsRun : (now : ℕ) → KeepsRun (beat_at now)
beat_at-KeepsRun now = record { key = λ r. refl; task = λ r. refl; number = λ r. refl }

submitted-KeepsRun : (receipt : Receipt) (now : ℕ) → KeepsRun (submitted receipt now)
submitted-KeepsRun receipt now = record { key = λ r. refl; task = λ r. refl; number = λ r. refl }

quiesced-KeepsRun : (now : ℕ) → KeepsRun (quiesced now)
quiesced-KeepsRun now = record { key = λ r. refl; task = λ r. refl; number = λ r. refl }

module _ (l m : Ledger) (inv : Inv (view l)) (run_id lease_token : String) (now : ℕ) where
  pub heartbeat-Step : (at : ℕ) → heartbeat l run_id lease_token now ≡ ok (m, at) → Refine l m
  heartbeat-Step at h =
      let (r, u) = heartbeat-Updates l m run_id lease_token now at h in
      Step-update inv u (beat_at-KeepsRun now)
        (subst (λ s. Edge RunState.running s none) (sym u.state) Edge.beat)

  pub checkpoint-Step :
      (reason : String) (active : Bool) (c : Checkpoint)
      → checkpoint l run_id lease_token reason active now ≡ ok (m, c)
      → Refine l m
  checkpoint-Step reason active c h =
      let (r, u) = checkpoint-Updates l m run_id lease_token reason active now c h in
      Step-update inv u (beat_at-KeepsRun now)
        (subst (λ s. Edge RunState.running s none) (sym u.state) Edge.beat)

  pub submit-Step :
      (loaded : Result Receipt) (execution : Result (Unit {0})) (processes : Result Bool)
      (receipt : Receipt)
      → submit l run_id lease_token loaded execution processes now ≡ ok (m, receipt)
      → Refine l m
  submit-Step loaded execution processes receipt h =
      let (r, u) = submit-Updates l m run_id lease_token loaded execution processes now receipt h in
      Step-update inv u (submitted-KeepsRun receipt now) Edge.submit

  pub quiesce-Step :
      (execution : Result (Unit {0})) (processes : Result Bool) (r : Run)
      → quiesce l run_id lease_token execution processes now ≡ ok (m, r)
      → Refine l m
  quiesce-Step execution processes r h =
      Step-update inv (quiesce-Updates l m run_id lease_token execution processes now r h)
        (quiesced-KeepsRun now) Edge.quiesce

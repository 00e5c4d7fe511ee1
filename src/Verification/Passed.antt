-- ===== src/Verification/Passed.antt =====
-- What a verification that passes has shown.
use orch_kit.Prelude.{ℕ, String, ◌≡◌, refl, Bool, true, false, Option, none, some, arith}
use orch_kit.Result.{Result, ok, err, observed, >>=-eq-ok}
use orch_kit.Ledger.{Run, Task, Payload, Manifest, Receipt, Ledger}
use orch_kit.Review.{decide_review}
use orch_kit.Verification.Scope.{Scope, workspace_scope_evidence, is_scope_blocked, scope_head}
use orch_kit.Verification.Inside.{IsInside, workspace_scope_evidence-IsInside}
use orch_kit.Verification.Defs.{
  Observation, Gate, Outcome, Taken, base_reason, late_gate, gate, scoped_gate, all_passed, judge,
  block_verification, begin_verification, conclude, verify,
}

-- What is known of the observation, and of the review decision.
pub record IsPassed (fnmatch : String → String → Bool) (r : Run) (t : Task) (o : Observation)
    (manifest : Manifest) : Type 0 where
  pub receipt : Receipt
  pub scope : Scope
  pub submitted : r.receipt ≡ some receipt
  pub inside : IsInside t receipt.changed_paths o.worktree
  pub evidence : workspace_scope_evidence t.payload receipt.changed_paths o.worktree ≡ ok scope
  pub based : base_reason t.payload r (scope_head scope) ≡ none
  pub trusted : o.authority ≡ none
  pub snapshot : o.snapshot ≡ Taken.taken manifest
  pub unchanged : o.authority_after ≡ none
  pub current : o.stale ≡ none
  pub checks : all_passed o.checks ≡ true
  pub unreviewed : (decide_review fnmatch t.payload.review manifest r.attempt).is_required ≡ false

scoped_gate-admit :
    (payload : Payload) (r : Run) (o : Observation) (scope : Scope) (manifest : Manifest)
    → scoped_gate payload r o scope ≡ Gate.admit manifest
    → (is_scope_blocked scope ≡ false)
      × (base_reason payload r (scope_head scope) ≡ none)
      × (o.authority ≡ none)
      × (o.snapshot ≡ Taken.taken manifest)
      × (o.authority_after ≡ none)
      × (o.stale ≡ none)
unfolding scoped_gate late_gate
scoped_gate-admit payload r o scope manifest h = ground arith

-- The receipt and the census behind a gate that admits.
gate-scoped :
    (payload : Payload) (r : Run) (o : Observation) (manifest : Manifest)
    → gate payload r o ≡ Gate.admit manifest
    → (receipt : Receipt) × (r.receipt ≡ some receipt)
      × ((scope : Scope) × (workspace_scope_evidence payload receipt.changed_paths o.worktree
            ≡ ok scope)
          × (scoped_gate payload r o scope ≡ Gate.admit manifest))
unfolding gate
gate-scoped payload r o manifest h = go r.receipt refl h
  where
    by_scope : Result Scope → Gate
    by_scope e = elim e [ err e ↦ Gate.raised e | ok scope ↦ scoped_gate payload r o scope ]

    scoped :
        (receipt : Receipt) (e : Result Scope)
        → workspace_scope_evidence payload receipt.changed_paths o.worktree ≡ e
        → r.receipt ≡ some receipt
        → by_scope e ≡ Gate.admit manifest
        → (receipt : Receipt) × (r.receipt ≡ some receipt)
          × ((scope : Scope) × (workspace_scope_evidence payload receipt.changed_paths o.worktree
                ≡ ok scope)
              × (scoped_gate payload r o scope ≡ Gate.admit manifest))
    scoped receipt (err x) e f k = cc
    scoped receipt (ok scope) e f k = (receipt, f, (scope, e, k))

    go :
        (x : Option Receipt)
        → r.receipt ≡ x
        → elim x as (λ y. Gate) [
          | none ↦ Gate.raised (observed "TypeError")
          | some receipt ↦
              by_scope (workspace_scope_evidence payload receipt.changed_paths o.worktree)
        ]
          ≡ Gate.admit manifest
        → (receipt : Receipt) × (r.receipt ≡ some receipt)
          × ((scope : Scope) × (workspace_scope_evidence payload receipt.changed_paths o.worktree
                ≡ ok scope)
              × (scoped_gate payload r o scope ≡ Gate.admit manifest))
    go none f k = cc
    go (some receipt) f k =
        scoped receipt (workspace_scope_evidence payload receipt.changed_paths o.worktree) refl f k

judge-verified :
    (fnmatch : String → String → Bool) (t : Task) (r : Run) (o : Observation) (manifest : Manifest)
    → judge fnmatch t.payload r manifest o.checks ≡ Outcome.verified
    → (all_passed o.checks ≡ true)
      × ((decide_review fnmatch t.payload.review manifest r.attempt).is_required ≡ false)
unfolding judge
judge-verified fnmatch t r o manifest h = ground arith

conclude-IsPassed :
    (fnmatch : String → String → Bool) (l m : Ledger) (r : Run) (t : Task) (o : Observation)
    (now : ℕ) (g : Gate)
    → gate t.payload r o ≡ g
    → conclude fnmatch l r t o now g ≡ ok (m, Outcome.verified)
    → (manifest : Manifest) × IsPassed fnmatch r t o manifest
conclude-IsPassed fnmatch l m r t o now (Gate.stop reason) e h =
    unfold block_verification in ground arith
conclude-IsPassed fnmatch l m r t o now (Gate.raised x) e h = cc
conclude-IsPassed fnmatch l m r t o now (Gate.admit manifest) e h =
    let (receipt, submitted, (scope, evidence, k)) = gate-scoped t.payload r o manifest e in
    let (a, b, c, d, f, g) = scoped_gate-admit t.payload r o scope manifest k in
    let (p, q) = judge-verified fnmatch t r o manifest (ground arith) in
    (
      manifest,
      record {
        receipt = receipt;
        scope = scope;
        submitted = submitted;
        inside =
            workspace_scope_evidence-IsInside t receipt.changed_paths o.worktree scope evidence a;
        evidence = evidence;
        based = b;
        trusted = c;
        snapshot = d;
        unchanged = f;
        current = g;
        checks = p;
        unreviewed = q;
      },
    )

-- A verification ends with `verified` only if the workspace is no git work tree, or each path that git
-- lists there is protected, or allowed by the task and declared in the receipt, and each declared path is
-- listed and not protected; for a publication by git, that census has a head commit, which is the base of
-- the claim or else of the policy, where one is known; the check authority is as expected before and after
-- the checks; the snapshot was taken and is still current; all checks passed; and the review policy asks
-- for no review.
pub verify-IsPassed :
    (fnmatch : String → String → Bool) (l m : Ledger) (run_id : String) (o : Observation) (now : ℕ)
    → verify fnmatch l run_id o now ≡ ok (m, Outcome.verified)
    → (r : Run) × (t : Task) × (begin_verification l run_id ≡ ok (r, t))
      × (manifest : Manifest) × IsPassed fnmatch r t o manifest
unfolding verify
verify-IsPassed fnmatch l m run_id o now h =
    let ((r, t), e, f) = >>=-eq-ok (begin_verification l run_id) _ h in
    let (manifest, passed) = conclude-IsPassed fnmatch l m r t o now (gate t.payload r o) refl f in
    (r, t, e, manifest, passed)

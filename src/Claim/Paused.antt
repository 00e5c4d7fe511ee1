-- ===== src/Claim/Paused.antt =====
-- A claim against a pause.
use orch_kit.Prelude.{
  is_optional, is_run_id, true, ℕ, String, ◌≡◌, refl, none, some, find-put, strip, truncate, arith,
}
use orch_kit.Result.{ok}
use orch_kit.Ledger.{Task, ProjectPause, Ledger}
use orch_kit.Control.{pause_key, pause_project}
use orch_kit.Claim.Start.{claim_unpaused, ClaimRequest, ClaimProbe, ClaimReply, claim}

-- Behind a pause of a project, where the queue is not paused, each claim for the project, with a run to
-- repair that is left out or has the form of a run id, is answered with that project's pause, and leaves
-- the ledger.
pub pause_project-claim :
    (l m : Ledger) (project_id reason : String) (at : ℕ) (q : ClaimRequest)
    (probe : Task → ClaimProbe) (now : ℕ)
    → pause_project l project_id reason at ≡ ok m
    → l.paused ≡ none
    → q.project_id ≡ some project_id
    → is_optional is_run_id q.repair_from ≡ true
    → (p : ProjectPause) × (p.project_id ≡ project_id)
      × (claim m q probe now ≡ ok (m, ClaimReply.project_paused p))
unfolding claim claim_unpaused pause_project
pause_project-claim l m project_id reason at q probe now h running asked named =
    let saved : ProjectPause = record {
      project_id = project_id;
      reason = truncate 500 (strip reason);
      paused_at = at;
    } in
    (
      saved,
      refl,
      ground (arith, h, running, asked, named, find-put pause_key saved l.project_pauses),
    )

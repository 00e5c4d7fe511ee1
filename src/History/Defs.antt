-- ===== src/History/Defs.antt =====
-- A command line invocation is one operation on the ledger. One that raises leaves the ledger.
use orch_kit.Prelude.{ℕ, String, Bool, List, [], ◌∷◌}
use orch_kit.Result.{Result, ok, err}
use orch_kit.Ledger.{Task, Receipt, Ledger}
use orch_kit.Planning.{Document, load_plan}
use orch_kit.Claim.{ClaimRequest, ClaimProbe, claim}
use orch_kit.Attempt.{heartbeat, checkpoint, submit, quiesce}
use orch_kit.Verification.{Observation, verify}
use orch_kit.Review.{Report, import_review}
use orch_kit.Completion.{complete, approve}
use orch_kit.Publication.{PublishProbe, publish}
use orch_kit.Control.{
  cancel_task, abort, pause, resume, pause_project, resume_project, record_project_removed,
}

pub data Command : Type 0 where
  loads : Result Document → Result (Unit {0}) → Command
  claims : ClaimRequest → (Task → ClaimProbe) → Command
  beats : String → String → Command
  checkpoints : String → String → String → Bool → Command
  submits : String → String → Result Receipt → Result (Unit {0}) → Result Bool → Command
  quiesces : String → String → Result (Unit {0}) → Result Bool → Command
  verifies : String → Observation → Command
  reviews : String → Result Report → Command
  approves : String → String → Result (Unit {0}) → Command
  completes : String → Result (Unit {0}) → Command
  publishes : String → Result (Unit {0}) → PublishProbe → Command
  cancels : String → String → Command
  aborts : String → String → Bool → Bool → Result (Unit {0}) → Result Bool → Command
  pauses : String → Command
  resumes : Command
  pauses_project : String → String → Command
  resumes_project : String → Command
  removes_project : String → Command

-- An error rolls the transaction back.
abbrev pub settle {ℓ} : {A : Type ℓ} → Ledger → Result (Ledger × A) → Ledger
settle l (ok (m, a)) = m
settle l (err e) = l

abbrev pub settle_only : Ledger → Result Ledger → Ledger
settle_only l (ok m) = m
settle_only l (err e) = l

module _ (fnmatch : String → String → Bool) where
  unfoldable pub perform : Ledger → Command → ℕ → Ledger
  unfolding load_plan claim heartbeat checkpoint submit quiesce verify import_review complete
      approve cancel_task abort pause resume pause_project resume_project record_project_removed
  perform l (Command.loads parsed checked) now = settle l (load_plan l parsed checked now)
  perform l (Command.claims q probe) now = settle l (claim l q probe now)
  perform l (Command.beats run_id token) now = settle l (heartbeat l run_id token now)
  perform l (Command.checkpoints run_id token reason active) now =
      settle l (checkpoint l run_id token reason active now)
  perform l (Command.submits run_id token loaded execution processes) now =
      settle l (submit l run_id token loaded execution processes now)
  perform l (Command.quiesces run_id token execution processes) now =
      settle l (quiesce l run_id token execution processes now)
  perform l (Command.verifies run_id o) now = settle l (verify fnmatch l run_id o now)
  perform l (Command.reviews run_id loaded) now = settle l (import_review l run_id loaded now)
  perform l (Command.approves run_id note current) now =
      settle_only l (approve l run_id note current now)
  perform l (Command.completes run_id current) now = settle l (complete l run_id current now)
  perform l (Command.publishes run_id current p) now = (publish l run_id current p now).0
  perform l (Command.cancels task_id reason) now = settle l (cancel_task l task_id reason now)
  perform l (Command.aborts run_id reason retry confirmed execution processes) now =
      settle l (abort l run_id reason retry confirmed execution processes now)
  perform l (Command.pauses reason) now = pause l reason now
  perform l Command.resumes now = resume l now
  perform l (Command.pauses_project project_id reason) now =
      settle_only l (pause_project l project_id reason now)
  perform l (Command.resumes_project project_id) now = (resume_project l project_id now).0
  perform l (Command.removes_project project_id) now = (record_project_removed l project_id now).0

  -- The commands one after the other, each at its own time.
  unfoldable pub history : Ledger → List (Command × ℕ) → Ledger
  unfolding perform
  history l [] = l
  history l ((c, now) ∷ cs) = history (perform l c now) cs

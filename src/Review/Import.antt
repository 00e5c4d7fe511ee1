-- ===== src/Review/Import.antt =====
-- `import_review`. The report is what `_load_review_report` returned or raised.
use orch_kit.Prelude.{ℕ, String, some, ◌==◌, ◌&&◌}
use orch_kit.Result.{Result, ok, ◌>>=◌, ◌>>◌, guard, require, run_not_reviewing, stale_review}
use orch_kit.Ledger.{
  RunState, TaskStatus, Run, Verdict, Feedback, EventKind, Ledger, find_run, set_run, set_status,
  add_event, is_reviewing, same_text,
}

pub record Report : Type 0 where
  pub run_id : String
  pub snapshot_id : String
  pub verdict : Verdict

abbrev pub reviewed : Verdict → Run → Run
reviewed Verdict.pass r = record r { state = RunState.verified; review_status = some Verdict.pass }
reviewed v r = record r {
  state = RunState.needs_fix;
  review_status = some v;
  feedback = some (Feedback.review v r.snapshot_id);
}

abbrev pub reviewed_status : Verdict → TaskStatus
reviewed_status Verdict.pass = TaskStatus.ready_to_publish
reviewed_status Verdict.needs_fix = TaskStatus.needs_fix
reviewed_status Verdict.blocked = TaskStatus.blocked

unfoldable pub import_review : Ledger → String → Result Report → ℕ → Result (Ledger × Verdict)
import_review l run_id loaded now = do
  report ← loaded
  run ← require (find_run l run_id) run_not_reviewing
  guard (is_reviewing run.state) run_not_reviewing
  guard (report.run_id == run_id && same_text (some report.snapshot_id) run.snapshot_id)
      stale_review
  ok (
    add_event now (EventKind.review_imported report.verdict run.snapshot_id) (some run.task_id)
        (some run_id)
        (set_status run.task_id (reviewed_status report.verdict) now
          (set_run run_id (reviewed report.verdict) l)),
    report.verdict,
  )

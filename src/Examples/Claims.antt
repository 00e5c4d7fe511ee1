-- ===== src/Examples/Claims.antt =====
-- What the histories of a plan of two tasks keep.
use mathlib.Core.List.{◌++◌}
use orch_kit.Prelude.{ℕ, String, List, refl, true, some, ◌≡◌, ◌≤◌, All, inl}
use orch_kit.Ledger.{Ledger, TaskStatus, empty, attempts}
use orch_kit.Lifecycle.{TaskView, IsDone}
use orch_kit.Lifecycle.Terminal.{HasStatus}
use orch_kit.Lifecycle.Refinement.{view, run_view}
use orch_kit.Claim.{Advance}
use orch_kit.History.{Command, history}
use orch_kit.History.Keep.{history-Advance}
use orch_kit.History.Safety.{
  Inv-empty, history-exclusive, history-ordered, history-capped, history-closed, history-fits,
  history-ended, history-distinct, history-numbered,
}
use orch_kit.Examples.Data.{
  ledger_after, no_match, started, verifying, verified, finished, run_of, task_of,
}

abbrev whole : List (Command × ℕ)
whole = started ++ verifying ++ verified ++ finished

abbrev end : Ledger
unfolding ledger_after
end = ledger_after whole

history-exclusive_example : ◌≡◌ {A = String} "r2" "r2"
unfolding ledger_after
history-exclusive_example =
    history-exclusive no_match whole "r2" "r2" (run_of end "r2") (run_of end "r2") (task_of end "b")
      (task_of end "b") refl refl refl refl refl refl refl

history-ordered_example :
    (t : TaskView) × ((view (history no_match empty whole)).task "b" ≡ some t)
    × All (IsDone (view (history no_match empty whole))) t.dependencies
unfolding ledger_after
history-ordered_example = history-ordered no_match whole "r2" (run_of end "r2") refl

history-capped_example : attempts (history no_match empty whole) "b" ≤ 2
unfolding ledger_after
history-capped_example = history-capped no_match whole (task_of end "b") refl

history-closed_example :
    HasStatus
      (view (
        history no_match
          (history no_match empty (started ++ verifying ++ verified ++ finished))
          verified))
      "a"
      TaskStatus.done
unfolding ledger_after
history-closed_example =
    history-closed no_match whole verified "a" (task_of end "a") refl (inl refl)

history-fits_example : true ≡ true
unfolding ledger_after
history-fits_example =
    history-fits no_match whole "r2" (run_of end "r2") (task_of end "b") refl refl

history-ended_example :
    (view (history no_match (history no_match empty whole) verified)).run "r1"
    ≡ some (run_view (run_of end "r1"))
unfolding ledger_after
history-ended_example = history-ended no_match whole verified "r1" (run_of end "r1") refl refl

history-distinct_example : ◌≡◌ {A = String} "r2" "r2"
unfolding ledger_after
history-distinct_example =
    history-distinct no_match whole "r2" "r2" (run_of end "r2") (run_of end "r2") refl refl refl
      refl

history-numbered_example : (1 ≤ 1) × (1 ≤ attempts (history no_match empty whole) "b")
unfolding ledger_after
history-numbered_example = history-numbered no_match whole "r2" (run_of end "r2") refl

history-Advance_example : Advance empty (history no_match empty whole)
history-Advance_example = history-Advance no_match empty whole Inv-empty tt

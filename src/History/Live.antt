-- ===== src/History/Live.antt =====
-- Work goes on: what a history of commands leaves for the next claim.
use orch_kit.Prelude.{ℕ, String, ◌≡◌, ◌⊎◌, Bool, true, false, none, List, [], All, find}
use mathlib.Core.WellFounded.{Acc}
use orch_kit.Ledger.{Run, Task, empty, locks_writer, is_done}
use orch_kit.Lifecycle.{DependsOn, Grounded}
use orch_kit.Lifecycle.Grounds.{Steps-Grounded}
use orch_kit.Lifecycle.Refinement.{view}
use orch_kit.Claim.{NextWork, next_work}
use orch_kit.Claim.Progress.{IsServed, next_work_progress}
use orch_kit.History.Defs.{Command, history}
use orch_kit.History.Keep.{history-Advance}
use orch_kit.History.Safety.{Inv-empty, history-Distinct}

Grounded-empty : Grounded (view empty)
unfolding find
Grounded-empty = record {
  known = λ d j need. absurd (nothing d j need);
  ends = λ j. Acc.intro j (λ d need. absurd (nothing d j need));
}
  where
    nothing : (d j : String) → DependsOn (view empty) d j → ⊥
    nothing d j need = cc need.found

module _ (fnmatch : String → String → Bool) (cs : List (Command × ℕ)) where
  -- After any commands from an empty ledger, each dependency of a task is a task of the ledger, and from
  -- no task does a chain of dependencies go on without end.
  pub history-Grounded : Grounded (view (history fnmatch empty cs))
  history-Grounded =
      Steps-Grounded (history-Advance fnmatch empty cs Inv-empty tt).steps Grounded-empty

  -- After any commands from an empty ledger the queue is not stuck: where nothing is paused, no run locks a
  -- writer, and each task is finished or waits with an attempt left, either every task is finished, or
  -- `next_work` finds one that is ready.
  pub history-progress :
      (history fnmatch empty cs).paused ≡ none
      → (history fnmatch empty cs).project_pauses ≡ []
      → All (λ (r : Run). locks_writer r.state ≡ false) (history fnmatch empty cs).runs
      → All (IsServed (history fnmatch empty cs)) (history fnmatch empty cs).tasks
      → All (λ (t : Task). is_done t.status ≡ true) (history fnmatch empty cs).tasks
        ⊎ ((t : Task) × (n : ℕ) × (next_work (history fnmatch empty cs) none ≡ NextWork.ready t n))
  history-progress running unpaused idle served =
      next_work_progress (history fnmatch empty cs) history-Grounded (history-Distinct fnmatch cs)
        running unpaused idle served

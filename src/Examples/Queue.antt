-- ===== src/Examples/Queue.antt =====
-- What the queue, its pauses and the removal of a project show.
use orch_kit.Prelude.{
  true, arith, inr, ℕ, List, [], ◌∷◌, ◌++◌, refl, none, some, ◌≡◌, ◌<◌, ◌⊎◌, All,
}
use orch_kit.Result.{ok}
use orch_kit.Ledger.{Task, ProjectPause, Ledger, empty, attempts, active_writer_locks, is_done}
use orch_kit.Claim.{NextWork, next_work, look, scan, queue_order, claim, ClaimReply}
use orch_kit.Claim.Agrees.{scan-agrees}
use orch_kit.Claim.Fifo.{look-first}
use orch_kit.Claim.Eligible.{IsEligible}
use orch_kit.Claim.Paused.{pause_project-claim}
use orch_kit.Control.{is_safe, project_removal_guard, cancel_found, active_run_of}
use orch_kit.Planning.Order.{load_plan-behind}
use orch_kit.Planning.{Document}
use orch_kit.History.{Command, history, perform}
use orch_kit.History.Removal.{IsSettled, project_removal_guard-IsSettled}
use orch_kit.History.Live.{history-progress, history-Grounded}
use orch_kit.Lifecycle.{Grounded}
use orch_kit.Lifecycle.Refinement.{view}
use orch_kit.History.Safety.{history-Inv, history-Distinct}
use orch_kit.Examples.Data.{
  ledger_after, no_match, verifying, verified, document, item_of, request, probe_of, task_of,
}

abbrev plan : List (Command × ℕ)
plan = (Command.loads (ok document) (ok tt), 1) ∷ []

abbrev loaded : Ledger
unfolding ledger_after
loaded = ledger_after plan

-- The first task is finished and the second cancelled.
abbrev closing : List (Command × ℕ)
closing =
    plan
    ++ (Command.claims request (probe_of "r1"), 2) ∷ []
    ++ verifying
    ++ verified
    ++ (Command.completes "r1" (ok tt), 6) ∷ (Command.cancels "b" "late", 7) ∷ []

scan-agrees_example :
    (scan none []
      (active_writer_locks (history no_match empty plan))
      2
      (history no_match empty plan)
      []
      []
      (queue_order (history no_match empty plan).tasks)).selected
    ≡ (look none []
        (active_writer_locks (history no_match empty plan))
        0
        (history no_match empty plan)
        []
        []
        (queue_order (history no_match empty plan).tasks)).selected
scan-agrees_example =
    scan-agrees (history no_match empty plan) none [] 2 (history-Inv no_match plan)
      (history-Distinct no_match plan)

look-first_example :
    (xs : List Task) × (ys : List Task) × (loaded.tasks ≡ xs ++ task_of loaded "a" ∷ ys)
    × IsEligible none [] [] loaded (task_of loaded "a")
    × (0 ≡ attempts loaded "a")
    × All (λ u. ¬ IsEligible none [] [] loaded u) xs
unfolding ledger_after look
look-first_example =
    look-first none [] [] loaded [] [] loaded.tasks
      (record { task = task_of loaded "a"; attempts = 0 }) refl

project_removal_guard-IsSettled_example : IsSettled (history no_match empty closing) "p"
unfolding ledger_after is_safe project_removal_guard cancel_found active_run_of
project_removal_guard-IsSettled_example = project_removal_guard-IsSettled no_match closing "p" refl

pause_project-claim_example :
    (p : ProjectPause) × (p.project_id ≡ "p")
    × (claim
          (perform no_match loaded (Command.pauses_project "p" "hold") 2)
          (record { worker_id = "me"; project_id = some "p"; repair_from = none })
          (probe_of "r1")
          3
        ≡ ok (
          perform no_match loaded (Command.pauses_project "p" "hold") 2,
          ClaimReply.project_paused p,
        ))
unfolding ledger_after
pause_project-claim_example =
    pause_project-claim loaded (perform no_match loaded (Command.pauses_project "p" "hold") 2) "p"
      "hold" 2 (record { worker_id = "me"; project_id = some "p"; repair_from = none })
      (probe_of "r1") 3 refl refl refl refl

-- A second plan, whose task is behind one of the first.
abbrev second : Document
second = record { plan_revision = "rev2"; digest = "e"; items = item_of "c" ("b" ∷ []) ∷ [] }

load_plan-behind_example :
    (new : List Task) × ((perform no_match loaded (Command.loads (ok second) (ok tt)) 2).tasks
      ≡ loaded.tasks ++ new)
    × All (λ (t : Task). All (λ (u : Task). u.queue_seq < t.queue_seq) loaded.tasks) new
unfolding ledger_after
load_plan-behind_example =
    load_plan-behind loaded (perform no_match loaded (Command.loads (ok second) (ok tt)) 2)
      (ok second) (ok tt) 2 1 refl

history-progress_example :
    All (λ (t : Task). is_done t.status ≡ true) loaded.tasks
    ⊎ ((t : Task) × (n : ℕ) × (next_work loaded none ≡ NextWork.ready t n))
unfolding ledger_after
history-progress_example =
    history-progress no_match plan refl refl tt
      (inr (refl, omega arith), (inr (refl, omega arith), tt))

history-Grounded_example : Grounded (view loaded)
unfolding ledger_after
history-Grounded_example = history-Grounded no_match plan

-- ===== src/Attempt/Allowed.antt =====
-- What a submission that is accepted has shown.
use mathlib.Core.List.{map}
use orch_kit.Prelude.{ℕ, String, ◌≡◌, Bool, true, some, List, [], ◌∷◌, All, codes, ◌==◌, arith}
use orch_kit.Result.{Result, ok, >>-eq-ok, guard-eq-ok, guard, path_not_allowed}
use orch_kit.Path.{path_allowed}
use orch_kit.Ledger.{RunState, Run, Task, Receipt, Ledger, find_run, find_task}
use orch_kit.Attempt.Defs.{require_paths_allowed, leased_run, submit}

abbrev pub IsAllowed : Task → String → Type 0
IsAllowed t p = path_allowed (codes p) (map codes t.payload.allowed_paths) ≡ true

require_paths_allowed-All :
    (ps : List String) (allowlist : List String)
    → require_paths_allowed ps allowlist ≡ ok tt
    → All (λ p. path_allowed (codes p) (map codes allowlist) ≡ true) ps
unfolding require_paths_allowed
require_paths_allowed-All [] allowlist h = tt
require_paths_allowed-All (p ∷ ps) allowlist h =
    let (a, b) =
      >>-eq-ok (guard (path_allowed (codes p) (map codes allowlist)) (path_not_allowed p))
        (require_paths_allowed ps allowlist) h in
    (guard-eq-ok _ _ a, require_paths_allowed-All ps allowlist b)

-- What is known of the run and the task of an accepted submission.
pub record IsAccepted (l : Ledger) (run_id lease_token : String) (receipt : Receipt) (r : Run)
    (t : Task) : Type 0 where
  pub found : find_run l run_id ≡ some r
  pub leased : (r.lease_token == lease_token) ≡ true
  pub state : r.state ≡ RunState.running
  pub joined : find_task l r.task_id ≡ some t
  pub of_run : (receipt.run_id == run_id) ≡ true
  pub of_task : (receipt.task_id == r.task_id) ≡ true
  pub checked : require_paths_allowed receipt.changed_paths t.payload.allowed_paths ≡ ok tt

submit-Accepted :
    (l m : Ledger) (run_id lease_token : String) (loaded : Result Receipt)
    (execution : Result (Unit {0})) (processes : Result Bool) (now : ℕ) (receipt : Receipt)
    → submit l run_id lease_token loaded execution processes now ≡ ok (m, receipt)
    → (r : Run) × (t : Task) × IsAccepted l run_id lease_token receipt r t
unfolding submit leased_run
submit-Accepted l m run_id lease_token loaded execution processes now receipt h = ground arith

-- A submission is accepted only from the holder of the lease of a running run, with a receipt that names
-- this run and its task, and every changed path of the receipt is allowed by the task.
pub submit-IsAllowed :
    (l m : Ledger) (run_id lease_token : String) (loaded : Result Receipt)
    (execution : Result (Unit {0})) (processes : Result Bool) (now : ℕ) (receipt : Receipt)
    → submit l run_id lease_token loaded execution processes now ≡ ok (m, receipt)
    → (r : Run) × (t : Task) × IsAccepted l run_id lease_token receipt r t
      × All (IsAllowed t) receipt.changed_paths
submit-IsAllowed l m run_id lease_token loaded execution processes now receipt h =
    let (r, t, a) =
      submit-Accepted l m run_id lease_token loaded execution processes now receipt h in
    (r, t, a, require_paths_allowed-All receipt.changed_paths t.payload.allowed_paths a.checked)

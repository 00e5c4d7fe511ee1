-- ===== src/Examples/Guards.antt =====
-- What single operations of the same histories show.
use mathlib.Core.List.{◌++◌, map}
use orch_kit.Prelude.{ℕ, List, [], ◌∷◌, refl, true, false, ◌≡◌, All, codes, some, find}
use orch_kit.Result.{ok}
use orch_kit.Ledger.{Run, Task, Manifest, Ledger, PublicationKind, is_approved}
use orch_kit.Lifecycle.{Holds}
use orch_kit.Lifecycle.Refinement.{view}
use orch_kit.Path.{starts_with_slash, normalize_relative_path, path_allowed}
use orch_kit.Path.Absolute.{normalize_relative_path-absolute}
use orch_kit.Path.Allowlist.{Covers, path_allowed-covered, path_allowed_complete}
use orch_kit.Attempt.Allowed.{IsAccepted, IsAllowed, submit-IsAllowed}
use orch_kit.Verification.{Outcome, begin_verification, commit_verification}
use orch_kit.Verification.Passed.{IsPassed, verify-IsPassed}
use orch_kit.Verification.Race.{commit_verification-revives}
use orch_kit.Completion.Approved.{IsCompletable, complete-approved}
use orch_kit.Publication.{happens, PublishProbe, Published, publish}
use orch_kit.Publication.Refines.{Publishes, publish-Publishes}
use orch_kit.Review.Decision.{IsQuiet, decide_review-IsQuiet}
use orch_kit.History.{Command, perform}
use orch_kit.Examples.Data.{
  ledger_after, no_match, started, verifying, verified, claimed_again, manifest, receipt,
  observation, risk_review, run_of, task_of,
}

abbrev running : Ledger
unfolding ledger_after
running = ledger_after started

abbrev submitted : Ledger
unfolding ledger_after
submitted =
    perform no_match running (Command.submits "r1" "lease" (ok receipt) (ok tt) (ok false)) 3

abbrev quiet : Ledger
unfolding ledger_after
quiet = ledger_after (started ++ verifying)

abbrev pub passed : Ledger
unfolding ledger_after
passed = ledger_after (started ++ verifying ++ verified)

abbrev completed : Ledger
unfolding ledger_after
completed = perform no_match passed (Command.completes "r1" (ok tt)) 6

abbrev contested : Ledger
unfolding ledger_after
contested = ledger_after (started ++ verifying ++ claimed_again)

submit-IsAllowed_example :
    (r : Run) × (t : Task) × IsAccepted running "r1" "lease" receipt r t
    × All (IsAllowed t) ("src/x.py" ∷ [])
unfolding ledger_after
submit-IsAllowed_example =
    submit-IsAllowed running submitted "r1" "lease" (ok receipt) (ok tt) (ok false) 3 receipt refl

verify-IsPassed_example :
    (r : Run) × (t : Task) × (begin_verification quiet "r1" ≡ ok (r, t))
    × (m : Manifest) × IsPassed no_match r t observation m
unfolding ledger_after
verify-IsPassed_example = verify-IsPassed no_match quiet passed "r1" observation 5 refl

complete-approved_example :
    (r : Run) × (t : Task) × (m : Manifest) × IsCompletable passed "r1" (ok tt) r t m
unfolding ledger_after
complete-approved_example = complete-approved passed completed "r1" (ok tt) 6 refl

commit_verification-revives_example :
    Holds
      (view (commit_verification contested (run_of quiet "r1") manifest "snap" Outcome.verified 7))
      "r1"
      "w"
    × Holds
        (view
          (commit_verification contested (run_of quiet "r1") manifest "snap" Outcome.verified 7))
        "r2"
        "w"
unfolding ledger_after
commit_verification-revives_example =
    commit_verification-revives contested (run_of quiet "r1") manifest "snap" 7
      (run_of contested "r1") (run_of contested "r2") (task_of contested "a")
      (task_of contested "a") "r2" refl refl refl refl refl refl refl

path_allowed-covered_example :
    (path : List ℕ) × (entry : List ℕ) × (ys : List (List ℕ)) × (zs : List (List ℕ))
    × (normalize_relative_path (codes "src//x.py") ≡ ok path)
    × (codes "a" ∷ codes "src/" ∷ [] ≡ ys ++ entry ∷ zs)
    × Covers entry path
unfolding ledger_after
path_allowed-covered_example =
    path_allowed-covered (codes "src//x.py") (codes "a" ∷ codes "src/" ∷ []) refl

path_allowed_complete_example :
    path_allowed (codes "./src/x.py") (codes "a" ∷ codes "src/" ∷ []) ≡ true
unfolding ledger_after
path_allowed_complete_example =
    path_allowed_complete (codes "./src/x.py") (codes "src/x.py") (codes "src/") (codes "a" ∷ []) []
      refl (Covers.below (codes "src") (codes "x.py") refl refl refl)

normalize_relative_path-absolute_example :
    (p : List ℕ) × (normalize_relative_path (codes ".//etc/passwd") ≡ ok p)
    × (starts_with_slash p ≡ true)
unfolding ledger_after
normalize_relative_path-absolute_example =
    normalize_relative_path-absolute (codes "etc/passwd") refl refl

decide_review-IsQuiet_example : IsQuiet no_match risk_review manifest 1
unfolding ledger_after
decide_review-IsQuiet_example = decide_review-IsQuiet no_match risk_review manifest 1 refl refl

-- The verified run again, with a task that is published by git.
abbrev as_git : Task → Task
as_git t = record t {
  payload = record (t.payload) {
    publication = record {
      kind = PublicationKind.git;
      branch = some "work";
      expected_base = some "base";
      remote_url = some "url";
    };
  };
}

abbrev pub publishable : Ledger
publishable = record passed { tasks = map as_git passed.tasks }

abbrev pub publish_probe : PublishProbe
publish_probe = record {
  unfiltered = ok tt;
  branch = some "work";
  head = some "base";
  staging_empty = true;
  workspace = ok tt;
  operation_id = "op";
  add = happens tt;
  commit = happens "c1";
  move_branch = happens tt;
  push = happens tt;
  remote_commit = some "c1";
}

publish_finishes :
    (publish publishable "r1" (ok tt) publish_probe 6).1
    ≡ Published.finished (some "c1") (some "c1")
unfolding ledger_after publish find is_approved
publish_finishes = refl

publish-Publishes_example :
    Publishes publishable "r1" publish_probe 6 (publish publishable "r1" (ok tt) publish_probe 6)
publish-Publishes_example = publish-Publishes publishable "r1" publish_probe 6 (ok tt)

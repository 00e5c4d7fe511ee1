-- ===== src/Review/Refines.antt =====
-- An imported review is one move of its run.
use orch_kit.Prelude.{ℕ, String, ◌≡◌, refl, some, arith}
use orch_kit.Result.{Result, ok}
use orch_kit.Ledger.{RunState, Run, Verdict, Ledger}
use orch_kit.Lifecycle.{Edge}
use orch_kit.Lifecycle.Invariant.{Inv}
use orch_kit.Lifecycle.Refinement.{view, Refine, Step-update, KeepsRun, Updates}
use orch_kit.Review.Import.{Report, reviewed, reviewed_status, import_review}

pub import_review-Updates :
    (l m : Ledger) (run_id : String) (loaded : Result Report) (now : ℕ) (v : Verdict)
    → import_review l run_id loaded now ≡ ok (m, v)
    → (r : Run) × Updates l m run_id
        (reviewed v)
        (some (reviewed_status v))
        now
        RunState.reviewing
        r
unfolding import_review
import_review-Updates l m run_id loaded now v h = ground arith

reviewed-KeepsRun : (v : Verdict) → KeepsRun (reviewed v)
reviewed-KeepsRun Verdict.pass = record { key = λ r. refl; task = λ r. refl; number = λ r. refl }
reviewed-KeepsRun _ = record { key = λ r. refl; task = λ r. refl; number = λ r. refl }

reviewed-Edge :
    (v : Verdict) (r : Run)
    → Edge RunState.reviewing (reviewed v r).state (some (reviewed_status v))
reviewed-Edge Verdict.pass r = Edge.review_pass
reviewed-Edge Verdict.needs_fix r = Edge.review_fix
reviewed-Edge Verdict.blocked r = Edge.review_block

pub import_review-Step :
    (l m : Ledger) (run_id : String) (loaded : Result Report) (now : ℕ) (v : Verdict)
    → Inv (view l)
    → import_review l run_id loaded now ≡ ok (m, v)
    → Refine l m
import_review-Step l m run_id loaded now v inv h =
    let (r, u) = import_review-Updates l m run_id loaded now v h in
    Step-update inv u (reviewed-KeepsRun v) (reviewed-Edge v r)

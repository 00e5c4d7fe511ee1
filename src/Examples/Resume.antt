-- ===== src/Examples/Resume.antt =====
-- A publication that loses its push, and its reconciliation.
use orch_kit.Prelude.{true, false, none, some, ◌≡◌, ◌==◌, refl, find, update, put, delete}
use orch_kit.Result.{ok}
use orch_kit.Ledger.{RunState, Ledger, is_approved}
use orch_kit.Publication.{raises, happens, publish}
use orch_kit.Publication.Reconcile.{ReconcileProbe, Reconciled, reconcile_publication}
use orch_kit.Publication.Reconciles.{Reconciles, reconcile_publication-Reconciles}
use orch_kit.Examples.Data.{ledger_after, run_of}
use orch_kit.Examples.Guards.{publishable, publish_probe}

abbrev interrupted : Ledger
unfolding ledger_after publish
interrupted =
    (publish publishable "r1" (ok tt) (record publish_probe { push = raises "timeout" }) 6).0

abbrev observed : ReconcileProbe
observed = record {
  head = some "c1";
  staged = true;
  staging_empty = false;
  matches = λ commit. commit == "c1";
  guard_staged = happens tt;
  prepare = happens "c1";
  guard_prepared = happens tt;
  move_branch = happens tt;
  remote_before = none;
  push = happens tt;
  remote_after = some "c1";
}

-- Without `resume` it says what is missing, and with it the push is made again.
test_waits :
    (reconcile_publication interrupted "r1" false observed 7).1
    ≡ Reconciled.remote_pending "c1" none
unfolding ledger_after publish find is_approved update put delete reconcile_publication
test_waits = refl

test_finishes :
    (reconcile_publication interrupted "r1" true observed 7).1
    ≡ Reconciled.finished (some "c1") (some "c1")
unfolding ledger_after publish find is_approved update put delete reconcile_publication
test_finishes = refl

test_complete :
    (run_of (reconcile_publication interrupted "r1" true observed 7).0 "r1").state
    ≡ RunState.complete
unfolding ledger_after publish find is_approved update put delete reconcile_publication
test_complete = refl

reconcile_publication-Reconciles_example :
    Reconciles interrupted "r1" observed 7
      (reconcile_publication interrupted "r1" true observed 7).0
reconcile_publication-Reconciles_example =
    reconcile_publication-Reconciles interrupted "r1" observed 7 true

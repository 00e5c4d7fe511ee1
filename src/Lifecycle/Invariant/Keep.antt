-- ===== src/Lifecycle/Invariant/Keep.antt =====
-- Every move keeps the invariant.
use mathlib.Core.Path.{fun_ext, subst}
use orch_kit.Prelude.{String, ◌≡◌, sym}
use orch_kit.Lifecycle.Moves.{View, Step, Steps}
use orch_kit.Lifecycle.Invariant.Defs.{Inv}
use orch_kit.Lifecycle.Invariant.Move.{move-Inv}
use orch_kit.Lifecycle.Invariant.Retire.{retire-Inv, load-Inv}
use orch_kit.Lifecycle.Invariant.Start.{start-Inv}

View-path :
    {v w : View}
    → ((i : String) → w.run i ≡ v.run i)
    → ((j : String) → w.task j ≡ v.task j)
    → ((j : String) → w.attempts j ≡ v.attempts j)
    → v ≡ w
View-path f g h = λ i. record {
  run = fun_ext (λ a. sym (f a)) i;
  task = fun_ext (λ a. sym (g a)) i;
  attempts = fun_ext (λ a. sym (h a)) i;
}

pub Step-Inv : {v w : View} → Step v w → Inv v → Inv w
Step-Inv {v} {w} (Step.stay f g h) inv = subst Inv (View-path f g h) inv
Step-Inv {v} {w} (Step.move id r t to status e f edge runs tasks same) inv =
    move-Inv v w id r t to status e f edge runs tasks same inv
Step-Inv {v} {w} (Step.retire id t status e out runs tasks same) inv =
    retire-Inv v w id t status e out runs tasks same inv
Step-Inv {v} {w} (Step.start id task_id t free found ready done room alone runs tasks more) inv =
    start-Inv v w id task_id t free found ready done room alone runs tasks more inv
Step-Inv {v} {w} (Step.load runs kept fresh same grounded) inv = load-Inv v w runs kept same inv

pub Steps-Inv : {v w : View} → Steps v w → Inv v → Inv w
Steps-Inv Steps.here inv = inv
Steps-Inv (Steps.next s t) inv = Step-Inv t (Steps-Inv s inv)

-- ===== src/Lifecycle/Refinement/Defs.antt =====
-- The view of a ledger's rows.
use mathlib.Core.Option
use orch_kit.Prelude.{◌≡◌, Option, some, none, refl, arith}
use orch_kit.Ledger.{Run, Task, Ledger, find_run, find_task, attempts}
use orch_kit.Lifecycle.Moves.{RunView, TaskView, View}

abbrev pub run_view : Run → RunView
run_view r = record { task_id = r.task_id; attempt = r.attempt; state = r.state }

abbrev pub task_view : Task → TaskView
task_view t = record {
  writer_key = t.writer_key;
  status = t.status;
  max_attempts = t.payload.max_attempts;
  dependencies = t.payload.dependencies;
}

abbrev pub view : Ledger → View
view l = record {
  run = λ i. Option.map run_view (find_run l i);
  task = λ j. Option.map task_view (find_task l j);
  attempts = attempts l;
}

-- Reading a view back as the row that it shows.
pub map-eq-some {ℓ κ} :
    {A : Type ℓ} {B : Type κ} (f : A → B) (o : Option A) (b : B)
    → Option.map f o ≡ some b
    → (a : A) × (o ≡ some a) × (f a ≡ b)
map-eq-some f none b h = cc
map-eq-some f (some a) b h = (a, refl, ground arith)

pub map-eq-none {ℓ κ} :
    {A : Type ℓ} {B : Type κ} (f : A → B) (o : Option A) → Option.map f o ≡ none → o ≡ none
map-eq-none f none h = refl
map-eq-none f (some a) h = cc

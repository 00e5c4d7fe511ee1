-- ===== src/Lifecycle/Terminal.antt =====
-- What never changes back: finished and cancelled tasks, ended attempts.
use orch_kit.Prelude.{
  String, ◌≡◌, ◌∙◌, ◌≢◌, ◌⊎◌, inl, inr, false, some, none, ◌==◌, Bool-cases, eq_iff, arith,
  if◌then◌else◌,
}
use mathlib.Core.Path.{subst}
use orch_kit.Ledger.{TaskStatus, locks_writer}
use orch_kit.Lifecycle.Moves.{RunView, TaskView, View, Step, Steps}
use orch_kit.Lifecycle.Invariant.{
  Inv, Steps-Inv, Edge-locks, Edge-open, Retire-startable, startable_open,
}

abbrev pub HasStatus : View → String → TaskStatus → Type 0
HasStatus v d s = (t : TaskView) × (v.task d ≡ some t) × (t.status ≡ s)

abbrev pub IsClosed : TaskStatus → Type 0
IsClosed s = (s ≡ TaskStatus.done) ⊎ (s ≡ TaskStatus.cancelled)

-- A write to a task whose status is another one keeps this status.
write_keeps :
    (v w : View) (id d : String) (t new : TaskView) (s : TaskStatus)
    → v.task id ≡ some t
    → w.task d ≡ (if id == d then some new else v.task d)
    → t.status ≢ s
    → HasStatus v d s
    → HasStatus w d s
write_keeps v w id d t new s found e other (u, h, k) = elim (Bool-cases (id == d)) [
  | inl y ↦
      let at_d : v.task d ≡ some t = subst (λ k. v.task k ≡ some t) ((eq_iff id d).0 y) found in
      absurd (other (ground (arith, at_d, h, k)))
  | inr n ↦ (u, rw (e, n) h, k)
]

closed_ne :
    (a s : TaskStatus)
    → IsClosed s
    → (a ≡ TaskStatus.done → ⊥) × (a ≡ TaskStatus.cancelled → ⊥)
    → a ≢ s
closed_ne a s (inl e) open_task f = open_task.0 (f ∙ e)
closed_ne a s (inr e) open_task f = open_task.1 (f ∙ e)

pub Step-closed :
    {v w : View} (d : String) (s : TaskStatus)
    → Step v w
    → Inv v
    → IsClosed s
    → HasStatus v d s
    → HasStatus w d s
Step-closed d s (Step.stay f g h) inv c (u, e, k) = (u, rw (g d) e, k)
Step-closed {v} {w} d s (Step.move id r t to status e f edge runs tasks same) inv c h =
    write_keeps v w r.task_id d t _ s f (tasks d)
      (closed_ne t.status s c (Edge-open t.status edge (inv.status_fits id r t e f))) h
Step-closed {v} {w} d s (Step.retire id t status e out runs tasks same) inv c h =
    write_keeps v w id d t _ s e (tasks d)
      (closed_ne t.status s c (startable_open t.status (Retire-startable out))) h
Step-closed {v} {w} d s (Step.start id j t free e ready deps room alone runs tasks more) inv c h =
    write_keeps v w j d t _ s e (tasks d) (closed_ne t.status s c (startable_open t.status ready)) h
Step-closed d s (Step.load runs kept fresh same grounded) inv c (u, e, k) = (u, kept d u e, k)

pub Steps-closed :
    {v w : View} (d : String) (s : TaskStatus)
    → Steps v w
    → Inv v
    → IsClosed s
    → HasStatus v d s
    → HasStatus w d s
Steps-closed d s Steps.here inv c h = h
Steps-closed d s (Steps.next ss st) inv c h =
    Step-closed d s st (Steps-Inv ss inv) c (Steps-closed d s ss inv c h)

-- An ended attempt keeps its state, its task and its number.
pub Step-ended :
    {v w : View} (i : String) (r : RunView)
    → Step v w
    → v.run i ≡ some r
    → locks_writer r.state ≡ false
    → w.run i ≡ some r
Step-ended i r (Step.stay f g h) e k = rw (f i) e
Step-ended {v} i r (Step.move id s t to status e' f edge runs tasks same) e k =
    elim (Bool-cases (id == i)) [
      | inl y ↦
          let at_i : v.run i ≡ some s = subst (λ j. v.run j ≡ some s) ((eq_iff id i).0 y) e' in
          ground (arith, Edge-locks edge, at_i)
      | inr n ↦ rw (runs i, n) e
    ]
Step-ended i r (Step.retire id t status e' out runs tasks same) e k = rw (runs i) e
Step-ended {v} i r (Step.start id j t free e' ready deps room alone runs tasks more) e k =
    elim (Bool-cases (id == i)) [
      | inl y ↦ cc (subst (λ j. v.run j ≡ none) ((eq_iff id i).0 y) free)
      | inr n ↦ rw (runs i, n) e
    ]
Step-ended i r (Step.load runs kept fresh same grounded) e k = rw (runs i) e

pub Steps-ended :
    {v w : View} (i : String) (r : RunView)
    → Steps v w
    → v.run i ≡ some r
    → locks_writer r.state ≡ false
    → w.run i ≡ some r
Steps-ended i r Steps.here e k = e
Steps-ended i r (Steps.next ss st) e k = Step-ended i r st (Steps-ended i r ss e k) k

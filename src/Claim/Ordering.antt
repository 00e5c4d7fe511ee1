-- ===== src/Claim/Ordering.antt =====
-- The rows that the loop sees are the rows of the table.
use orch_kit.Prelude.{
  String, ◌≡◌, refl, Bool, true, false, ◌||◌, some, List, [], ◌∷◌, ◌==◌, All, Distinct, has_key,
  any, find-rows, eq_iff, arith, if◌then◌else◌,
}
use orch_kit.Ledger.{Task, Ledger, task_key, find_task}
use orch_kit.Lifecycle.Invariant.{Inv}
use orch_kit.Lifecycle.Refinement.{view}
use orch_kit.Claim.Queue.{before, insert_task, queue_order}
use orch_kit.Claim.Scanning.{CanScan}
use orch_kit.Claim.Eligible.{not-Holds}
use orch_kit.Ledger.{active_writer_locks}

of_either {ℓ κ} :
    {A : Type ℓ} (Q : A → Type κ) {x y : A} (b : Bool) → Q x → Q y → Q (if b then x else y)
of_either Q true p q = p
of_either Q false p q = q

All-insert_task {ℓ} :
    (P : Task → Type ℓ) (t : Task) (us : List Task) → P t → All P us → All P (insert_task t us)
unfolding insert_task
All-insert_task P t [] p a = (p, tt)
All-insert_task P t (u ∷ us) p a =
    of_either (All P) {x = u ∷ insert_task t us} {y = t ∷ u ∷ us} (before u t)
      (a.0, All-insert_task P t us p a.1) (p, a)

pub All-queue_order {ℓ} : (P : Task → Type ℓ) (ts : List Task) → All P ts → All P (queue_order ts)
unfolding queue_order
All-queue_order P [] a = tt
All-queue_order P (t ∷ ts) a = All-insert_task P t (queue_order ts) a.0 (All-queue_order P ts a.1)

has_key-insert_task :
    (k : String) (t : Task) (us : List Task)
    → has_key task_key k (insert_task t us) ≡ ((t.task_id == k) || has_key task_key k us)
unfolding insert_task any
has_key-insert_task k t [] = ground arith
has_key-insert_task k t (u ∷ us) = ground (arith, has_key-insert_task k t us)

has_key-queue_order :
    (k : String) (ts : List Task) → has_key task_key k (queue_order ts) ≡ has_key task_key k ts
unfolding queue_order any
has_key-queue_order k [] = refl
has_key-queue_order k (t ∷ ts) =
    ground (arith, has_key-insert_task k t (queue_order ts), has_key-queue_order k ts)

not_under :
    (k : String) (u : Task) (us : List Task)
    → has_key task_key k (u ∷ us) ≡ false
    → has_key task_key k us ≡ false
unfolding any
not_under k u us h = ground (arith, h)

Distinct-insert_task :
    (t : Task) (us : List Task)
    → has_key task_key t.task_id us ≡ false
    → Distinct task_key us
    → Distinct task_key (insert_task t us)
unfolding insert_task
Distinct-insert_task t [] h d = (h, tt)
Distinct-insert_task t (u ∷ us) h d =
    of_either (Distinct task_key) {x = u ∷ insert_task t us} {y = t ∷ u ∷ us} (before u t)
      (
        rw (has_key-insert_task u.task_id t us) (
            unfold any in
            ground (arith, eq_iff t.task_id u.task_id, eq_iff u.task_id t.task_id, h, d.0)),
        Distinct-insert_task t us (not_under t.task_id u us h) d.1,
      )
      (h, d)

pub Distinct-queue_order :
    (ts : List Task) → Distinct task_key ts → Distinct task_key (queue_order ts)
unfolding queue_order
Distinct-queue_order [] d = tt
Distinct-queue_order (t ∷ ts) d =
    Distinct-insert_task t (queue_order ts) (rw (has_key-queue_order t.task_id ts) (d.0))
      (Distinct-queue_order ts d.1)

pub CanScan-start :
    (l : Ledger)
    → Inv (view l)
    → Distinct task_key l.tasks
    → CanScan (active_writer_locks l) l (queue_order l.tasks)
CanScan-start l inv d = record {
  inv = inv;
  found =
      All-queue_order (λ row. find_task l row.task_id ≡ some row) l.tasks
        (find-rows task_key l.tasks d);
  apart = Distinct-queue_order l.tasks d;
  free = λ k i free h. not-Holds l k i free h;
}

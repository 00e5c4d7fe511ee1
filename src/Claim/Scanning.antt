-- ===== src/Claim/Scanning.antt =====
-- The loop of a claim blocks exhausted tasks and selects an eligible one.
use orch_kit.Prelude.{
  String, ◌≡◌, refl, ℕ, false, Option, none, some, List, [], ◌∷◌, ◌++◌, ◌==◌, find, All, Distinct,
  other_key, find-update, arith,
}
use orch_kit.Ledger.{
  TaskStatus, Task, ProjectPause, Ledger, Lock, lock_key, task_key, find_task, with_status,
  attempts,
}
use orch_kit.Lifecycle.{View, Holds, Retire, Steps}
use orch_kit.Lifecycle.Invariant.{Inv, Step-Inv}
use orch_kit.Lifecycle.Refinement.{view, Refine, Step-Retire, Retire-free}
use orch_kit.Claim.Queue.{Verdict, Candidate, Scan, consider, scan, block_exhausted}
use orch_kit.Claim.Eligible.{IsEligible, consider-take, consider-exhausted}

-- Several steps of the view under which the task table keeps its primary key.
pub record Advance (l m : Ledger) : Type 0 where
  pub steps : Steps (view l) (view m)
  pub distinct : Distinct task_key l.tasks → Distinct task_key m.tasks

pub Advance-refl : (l : Ledger) → Advance l l
Advance-refl l = record { steps = Steps.here; distinct = λ d. d }

Steps-trans : {u v w : View} → Steps u v → Steps v w → Steps u w
Steps-trans s Steps.here = s
Steps-trans s (Steps.next t st) = Steps.next (Steps-trans s t) st

pub Advance-trans : {k l m : Ledger} → Advance k l → Advance l m → Advance k m
Advance-trans a b = record {
  steps = Steps-trans a.steps b.steps;
  distinct = λ d. b.distinct (a.distinct d);
}

pub Advance-Refine : {l m : Ledger} → Refine l m → Advance l m
Advance-Refine r = record { steps = Steps.next Steps.here r.step; distinct = r.distinct }

-- What holds of the ledger and of the rows that the loop has still to see.
pub record CanScan (locks : List Lock) (l : Ledger) (rows : List Task) : Type 0 where
  pub inv : Inv (view l)
  pub found : All (λ row. find_task l row.task_id ≡ some row) rows
  pub apart : Distinct task_key rows
  pub free : (k i : String) → find lock_key k locks ≡ none → Holds (view l) i k → ⊥

pub record Selected (locks : List Lock) (project_id : Option String) (pauses : List ProjectPause)
    (l : Ledger) (c : Candidate) : Type 0 where
  pub inv : Inv (view l)
  pub found : find_task l c.task.task_id ≡ some c.task
  pub eligible : IsEligible project_id pauses locks l c.task
  pub counted : c.attempts ≡ attempts l c.task.task_id
  pub free : (k i : String) → find lock_key k locks ≡ none → Holds (view l) i k → ⊥

module _ (locks : List Lock) (l : Ledger) (row : Task) (rows : List Task) (n now : ℕ) where
  block-Refine :
      CanScan locks l (row ∷ rows)
      → Retire row.status TaskStatus.blocked
      → Refine l (block_exhausted l row n now)
  unfolding block_exhausted
  block-Refine c out =
      Step-Retire l (block_exhausted l row n now) row.task_id row TaskStatus.blocked now c.found.0
        out refl refl

  block-found :
      (us : List Task)
      → All (λ u. (row.task_id == u.task_id) ≡ false) us
      → All (λ u. find_task l u.task_id ≡ some u) us
      → All (λ u. find_task (block_exhausted l row n now) u.task_id ≡ some u) us
  unfolding block_exhausted
  block-found [] a b = tt
  block-found (u ∷ us) a b = (
    rw
        (
          find-update task_key u.task_id row.task_id (with_status TaskStatus.blocked now) l.tasks
              (λ x. refl),
          a.0,
        )
        (b.0),
    block-found us a.1 b.1,
  )

  pub block-CanScan :
      CanScan locks l (row ∷ rows)
      → Retire row.status TaskStatus.blocked
      → CanScan locks (block_exhausted l row n now) rows
  unfolding block_exhausted
  block-CanScan c out = record {
    inv = Step-Inv (block-Refine c out).step c.inv;
    found = block-found rows (other_key task_key row.task_id rows c.apart.0) c.found.1;
    apart = c.apart.1;
    free = λ k i free h. c.free k i free (
        Retire-free l (block_exhausted l row n now) row.task_id row TaskStatus.blocked now c.inv
          c.found.0 out refl refl i k h);
  }

pub record Scanned (locks : List Lock) (project_id : Option String) (pauses : List ProjectPause)
    (l : Ledger) (s : Scan) : Type 0 where
  pub advance : Advance l s.ledger
  pub chosen : (c : Candidate) → s.selected ≡ some c → Selected locks project_id pauses s.ledger c

module _ (project_id : Option String) (pauses : List ProjectPause) (locks : List Lock)
    (now : ℕ) where
  pub scan-Scanned :
      (l : Ledger) (held : List Lock) (stopped : List ProjectPause) (rows : List Task)
      → CanScan locks l rows
      → Scanned locks project_id pauses l (scan project_id pauses locks now l held stopped rows)
  unfolding scan
  scan-Scanned l held stopped [] c = record { advance = Advance-refl l; chosen = λ d h. cc }
  scan-Scanned l held stopped (row ∷ rows) c =
      go (consider project_id pauses locks l row) refl (scan-Scanned l held stopped rows rest)
        (λ p. scan-Scanned l held (stopped ++ p ∷ []) rows rest)
        (λ k. scan-Scanned l (held ++ k ∷ []) stopped rows rest)
        (λ n out.
          scan-Scanned (block_exhausted l row n now) held stopped rows
            (block-CanScan locks l row rows n now c out))
    where
      rest : CanScan locks l rows
      rest = record { inv = c.inv; found = c.found.1; apart = c.apart.1; free = c.free }

      next : Verdict → Scan
      next v = elim v [
        | Verdict.skip ↦ scan project_id pauses locks now l held stopped rows
        | Verdict.paused p ↦ scan project_id pauses locks now l held (stopped ++ p ∷ []) rows
        | Verdict.exhausted n ↦
            scan project_id pauses locks now (block_exhausted l row n now) held stopped rows
        | Verdict.busy k ↦ scan project_id pauses locks now l (held ++ k ∷ []) stopped rows
        | Verdict.take n ↦ record {
          ledger = l;
          busy = held;
          paused = stopped;
          selected = some (record { task = row; attempts = n });
        }
      ]

      go :
          (v : Verdict)
          → consider project_id pauses locks l row ≡ v
          → Scanned locks project_id pauses l (scan project_id pauses locks now l held stopped rows)
          → ((p : ProjectPause)
              → Scanned locks project_id pauses l
                  (scan project_id pauses locks now l held (stopped ++ p ∷ []) rows))
          → ((k : Lock)
              → Scanned locks project_id pauses l
                  (scan project_id pauses locks now l (held ++ k ∷ []) stopped rows))
          → ((n : ℕ)
              → Retire row.status TaskStatus.blocked
              → Scanned locks project_id pauses (block_exhausted l row n now) (
                  scan project_id pauses locks now (block_exhausted l row n now) held stopped rows))
          → Scanned locks project_id pauses l (next v)
      go Verdict.skip e a b d f = a
      go (Verdict.paused p) e a b d f = b p
      go (Verdict.busy k) e a b d f = d k
      go (Verdict.exhausted n) e a b d f =
          let (ready, full, count) = consider-exhausted project_id pauses locks l row n e in
          let out : Retire row.status TaskStatus.blocked = Retire.block row.status ready in
          let s = f n out in
          record {
            advance =
                Advance-trans (Advance-Refine (block-Refine locks l row rows n now c out))
                  s.advance;
            chosen = s.chosen;
          }
      go (Verdict.take n) e a b d f = record {
        advance = Advance-refl l;
        chosen = λ d h.
            let (eligible, count) = consider-take project_id pauses locks l row n e in
            let same : d ≡ record { task = row; attempts = n } = ground arith in
            rw same (record {
              inv = c.inv;
              found = c.found.0;
              eligible = eligible;
              counted = count;
              free = c.free;
            });
      }

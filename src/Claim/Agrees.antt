-- ===== src/Claim/Agrees.antt =====
-- The loop of `claim`, which writes, against that of `next_work`, which does not.
use mathlib.Core.Option
use orch_kit.Prelude.{
  ℕ, String, ◌≡◌, ◌∙◌, refl, true, Option, some, List, [], ◌∷◌, ◌++◌, ◌==◌, Distinct, find-update,
  eq_iff, arith, if◌then◌else◌,
}
use orch_kit.Ledger.{
  TaskStatus, Task, ProjectPause, Ledger, Lock, task_key, find_task, with_status,
  active_writer_locks, attempts, dependencies_done, is_ready,
}
use orch_kit.Lifecycle.{Retire}
use orch_kit.Lifecycle.Invariant.{Inv}
use orch_kit.Lifecycle.Refinement.{view}
use orch_kit.Claim.Ordering.{CanScan-start}
use orch_kit.Claim.Queue.{Verdict, Scan, consider, queue_order, scan, look, block_exhausted}
use orch_kit.Claim.Eligible.{consider-exhausted}
use orch_kit.Claim.Scanning.{CanScan, block-CanScan}

module _ (l : Ledger) (row : Task) (n now : ℕ) where
  find_task-blocked :
      (d : String)
      → find_task (block_exhausted l row n now) d ≡ (
          if row.task_id == d
          then Option.map (with_status TaskStatus.blocked now) (find_task l row.task_id)
          else find_task l d)
  unfolding block_exhausted
  find_task-blocked d =
      find-update task_key d row.task_id (with_status TaskStatus.blocked now) l.tasks (λ x. refl)

  -- Blocking a task of the queue finishes no dependency, and unfinishes none.
  dependencies_done-blocked :
      (deps : List String)
      → find_task l row.task_id ≡ some row
      → is_ready row.status ≡ true
      → dependencies_done (block_exhausted l row n now) deps ≡ dependencies_done l deps
  unfolding dependencies_done
  dependencies_done-blocked [] found ready = refl
  dependencies_done-blocked (d ∷ ds) found ready = ground (
    arith,
    find_task-blocked d,
    found,
    eq_iff row.task_id d,
    dependencies_done-blocked ds found ready,
  )

  attempts-blocked : (id : String) → attempts (block_exhausted l row n now) id ≡ attempts l id
  unfolding attempts block_exhausted
  attempts-blocked id = refl

  consider-blocked :
      (project_id : Option String) (pauses : List ProjectPause) (locks : List Lock) (u : Task)
      → find_task l row.task_id ≡ some row
      → is_ready row.status ≡ true
      → consider project_id pauses locks (block_exhausted l row n now) u
        ≡ consider project_id pauses locks l u
  unfolding consider
  consider-blocked project_id pauses locks u found ready = ground (
    arith,
    dependencies_done-blocked u.payload.dependencies found ready,
    attempts-blocked u.task_id,
  )

module _ (project_id : Option String) (pauses : List ProjectPause) (locks : List Lock)
    (now : ℕ) where
  look-blocked :
      (l : Ledger) (row : Task) (n : ℕ) (held : List Lock) (stopped : List ProjectPause)
      (rows : List Task)
      → find_task l row.task_id ≡ some row
      → is_ready row.status ≡ true
      → (look project_id pauses locks 0 (block_exhausted l row n now) held stopped rows).selected
        ≡ (look project_id pauses locks 0 l held stopped rows).selected
  unfolding look
  look-blocked l row n held stopped [] found ready = refl
  look-blocked l row n held stopped (u ∷ us) found ready =
      let same = consider-blocked l row n now project_id pauses locks u found ready in
      rw (look, same)
        (go (consider project_id pauses locks l u)
          (look-blocked l row n held stopped us found ready)
          (λ p. look-blocked l row n held (stopped ++ p ∷ []) us found ready)
          (λ k. look-blocked l row n (held ++ k ∷ []) stopped us found ready))
    where
      next : Ledger → Verdict → Scan
      next m v = elim v [
        | Verdict.skip ↦ look project_id pauses locks 0 m held stopped us
        | Verdict.paused p ↦ look project_id pauses locks 0 m held (stopped ++ p ∷ []) us
        | Verdict.exhausted k ↦ look project_id pauses locks 0 m held stopped us
        | Verdict.busy k ↦ look project_id pauses locks 0 m (held ++ k ∷ []) stopped us
        | Verdict.take k ↦ record {
          ledger = m;
          busy = held;
          paused = stopped;
          selected = some (record { task = u; attempts = k });
        }
      ]

      go :
          (v : Verdict)
          → (look project_id pauses locks 0 (block_exhausted l row n now) held stopped us).selected
            ≡ (look project_id pauses locks 0 l held stopped us).selected
          → ((p : ProjectPause)
              → (look project_id pauses locks 0
                  (block_exhausted l row n now)
                  held
                  (stopped ++ p ∷ [])
                  us).selected
                ≡ (look project_id pauses locks 0 l held (stopped ++ p ∷ []) us).selected)
          → ((k : Lock)
              → (look project_id pauses locks 0
                  (block_exhausted l row n now)
                  (held ++ k ∷ [])
                  stopped
                  us).selected
                ≡ (look project_id pauses locks 0 l (held ++ k ∷ []) stopped us).selected)
          → (next (block_exhausted l row n now) v).selected ≡ (next l v).selected
      go Verdict.skip a b c = a
      go (Verdict.paused p) a b c = b p
      go (Verdict.exhausted k) a b c = a
      go (Verdict.busy k) a b c = c k
      go (Verdict.take k) a b c = refl

  scan-look :
      (l : Ledger) (held : List Lock) (stopped : List ProjectPause) (rows : List Task)
      → CanScan locks l rows
      → (scan project_id pauses locks now l held stopped rows).selected
        ≡ (look project_id pauses locks 0 l held stopped rows).selected
  unfolding scan look
  scan-look l held stopped [] c = refl
  scan-look l held stopped (row ∷ rows) c =
      go (consider project_id pauses locks l row) refl (scan-look l held stopped rows rest)
        (λ p. scan-look l held (stopped ++ p ∷ []) rows rest)
        (λ k. scan-look l (held ++ k ∷ []) stopped rows rest)
        (λ n ready.
          scan-look (block_exhausted l row n now) held stopped rows
            (block-CanScan locks l row rows n now c (Retire.block row.status ready))
          ∙ look-blocked l row n held stopped rows c.found.0 ready)
    where
      rest : CanScan locks l rows
      rest = record { inv = c.inv; found = c.found.1; apart = c.apart.1; free = c.free }

      taken : ℕ → Scan
      taken n = record {
        ledger = l;
        busy = held;
        paused = stopped;
        selected = some (record { task = row; attempts = n });
      }

      scans : Verdict → Scan
      scans v = elim v [
        | Verdict.skip ↦ scan project_id pauses locks now l held stopped rows
        | Verdict.paused p ↦ scan project_id pauses locks now l held (stopped ++ p ∷ []) rows
        | Verdict.exhausted n ↦
            scan project_id pauses locks now (block_exhausted l row n now) held stopped rows
        | Verdict.busy k ↦ scan project_id pauses locks now l (held ++ k ∷ []) stopped rows
        | Verdict.take n ↦ taken n
      ]

      looks : Verdict → Scan
      looks v = elim v [
        | Verdict.skip ↦ look project_id pauses locks 0 l held stopped rows
        | Verdict.paused p ↦ look project_id pauses locks 0 l held (stopped ++ p ∷ []) rows
        | Verdict.exhausted n ↦ look project_id pauses locks 0 l held stopped rows
        | Verdict.busy k ↦ look project_id pauses locks 0 l (held ++ k ∷ []) stopped rows
        | Verdict.take n ↦ taken n
      ]

      go :
          (v : Verdict)
          → consider project_id pauses locks l row ≡ v
          → (scan project_id pauses locks now l held stopped rows).selected
            ≡ (look project_id pauses locks 0 l held stopped rows).selected
          → ((p : ProjectPause)
              → (scan project_id pauses locks now l held (stopped ++ p ∷ []) rows).selected
                ≡ (look project_id pauses locks 0 l held (stopped ++ p ∷ []) rows).selected)
          → ((k : Lock)
              → (scan project_id pauses locks now l (held ++ k ∷ []) stopped rows).selected
                ≡ (look project_id pauses locks 0 l (held ++ k ∷ []) stopped rows).selected)
          → ((n : ℕ)
              → is_ready row.status ≡ true
              → (scan project_id pauses locks now
                  (block_exhausted l row n now)
                  held
                  stopped
                  rows).selected
                ≡ (look project_id pauses locks 0 l held stopped rows).selected)
          → (scans v).selected ≡ (looks v).selected
      go Verdict.skip e a b d f = a
      go (Verdict.paused p) e a b d f = b p
      go (Verdict.busy k) e a b d f = d k
      go (Verdict.exhausted n) e a b d f =
          let (ready, full, count) = consider-exhausted project_id pauses locks l row n e in
          f n ready
      go (Verdict.take n) e a b d f = refl

-- In a ledger that keeps the invariant and whose task table has no repeated key, the loop of `claim`,
-- which blocks exhausted tasks on its way, selects the task and the attempt number that the loop of
-- `next_work`, which writes nothing, selects; or both select none.
pub scan-agrees :
    (l : Ledger) (project_id : Option String) (pauses : List ProjectPause) (now : ℕ)
    → Inv (view l)
    → Distinct task_key l.tasks
    → (scan project_id pauses (active_writer_locks l) now l [] [] (queue_order l.tasks)).selected
      ≡ (look project_id pauses (active_writer_locks l) 0 l [] [] (queue_order l.tasks)).selected
scan-agrees l project_id pauses now inv d =
    scan-look project_id pauses (active_writer_locks l) now l [] [] (queue_order l.tasks)
      (CanScan-start l inv d)

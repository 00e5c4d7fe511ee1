-- ===== src/Claim/Fifo.antt =====
-- The order in which the loop over the queue selects.
use orch_kit.Prelude.{
  ℕ, String, ◌≡◌, ap, ◌∙◌, sym, refl, Option, some, List, [], ◌∷◌, ◌++◌, All, arith,
}
use orch_kit.Ledger.{Task, ProjectPause, Ledger, Lock, attempts}
use mathlib.Core.Path.{subst}
use orch_kit.Claim.Queue.{Verdict, Candidate, Scan, consider, look}
use orch_kit.Claim.Eligible.{consider-take, consider-eligible, IsEligible}

module _ (project_id : Option String) (pauses : List ProjectPause) (locks : List Lock) where
  -- The task that the loop of `next_work` selects is eligible, with its number of attempts, and no task
  -- before it in the queue is eligible.
  pub look-first :
      (l : Ledger) (held : List Lock) (stopped : List ProjectPause) (rows : List Task)
      (c : Candidate)
      → (look project_id pauses locks 0 l held stopped rows).selected ≡ some c
      → (xs : List Task) × (ys : List Task) × (rows ≡ xs ++ c.task ∷ ys)
        × IsEligible project_id pauses locks l c.task
        × (c.attempts ≡ attempts l c.task.task_id)
        × All (λ u. ¬ IsEligible project_id pauses locks l u) xs
  unfolding look
  look-first l held stopped [] c h = cc
  look-first l held stopped (row ∷ rows) c h =
      go (consider project_id pauses locks l row) refl (look-first l held stopped rows c)
        (λ p. look-first l held (stopped ++ p ∷ []) rows c)
        (λ k. look-first l (held ++ k ∷ []) stopped rows c) h
    where
      First : List Task → Type 0
      First us =
          (xs : List Task) × (ys : List Task) × (us ≡ xs ++ c.task ∷ ys)
          × IsEligible project_id pauses locks l c.task
          × (c.attempts ≡ attempts l c.task.task_id)
          × All (λ u. ¬ IsEligible project_id pauses locks l u) xs

      later :
          (v : Verdict)
          → consider project_id pauses locks l row ≡ v
          → ((n : ℕ) → v ≡ Verdict.take n → ⊥)
          → First rows
          → First (row ∷ rows)
      later v e other (xs, ys, f, g, k, a) = (
        row ∷ xs,
        ys,
        ap (λ us. row ∷ us) f,
        g,
        k,
        (
          λ eligible.
              other (attempts l row.task_id)
                (sym e ∙ consider-eligible project_id pauses locks l row eligible),
          a,
        ),
      )

      looks : Verdict → Scan
      looks v = elim v [
        | Verdict.skip ↦ look project_id pauses locks 0 l held stopped rows
        | Verdict.paused p ↦ look project_id pauses locks 0 l held (stopped ++ p ∷ []) rows
        | Verdict.exhausted n ↦ look project_id pauses locks 0 l held stopped rows
        | Verdict.busy k ↦ look project_id pauses locks 0 l (held ++ k ∷ []) stopped rows
        | Verdict.take n ↦ record {
          ledger = l;
          busy = held;
          paused = stopped;
          selected = some (record { task = row; attempts = n });
        }
      ]

      go :
          (v : Verdict)
          → consider project_id pauses locks l row ≡ v
          → ((look project_id pauses locks 0 l held stopped rows).selected ≡ some c → First rows)
          → ((p : ProjectPause)
              → (look project_id pauses locks 0 l held (stopped ++ p ∷ []) rows).selected ≡ some c
              → First rows)
          → ((k : Lock)
              → (look project_id pauses locks 0 l (held ++ k ∷ []) stopped rows).selected ≡ some c
              → First rows)
          → (looks v).selected ≡ some c
          → First (row ∷ rows)
      go Verdict.skip e a b d k = later Verdict.skip e (λ n x. cc) (a k)
      go (Verdict.paused p) e a b d k = later (Verdict.paused p) e (λ n x. cc) (b p k)
      go (Verdict.busy j) e a b d k = later (Verdict.busy j) e (λ n x. cc) (d j k)
      go (Verdict.exhausted n) e a b d k = later (Verdict.exhausted n) e (λ m x. cc) (a k)
      go (Verdict.take n) e a b d k =
          let (eligible, count) = consider-take project_id pauses locks l row n e in
          let same : record { task = row; attempts = n } ≡ c = ground arith in
          subst
            (λ (x : Candidate).
              (xs : List Task) × (ys : List Task) × (row ∷ rows ≡ xs ++ x.task ∷ ys)
              × IsEligible project_id pauses locks l x.task
              × (x.attempts ≡ attempts l x.task.task_id)
              × All (λ u. ¬ IsEligible project_id pauses locks l u) xs)
            same ([], rows, refl, eligible, count, tt)

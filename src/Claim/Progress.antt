-- ===== src/Claim/Progress.antt =====
-- The queue does not get stuck.
use mathlib.Core.Option
use mathlib.Core.Path.{subst, sym, ap}
use mathlib.Core.WellFounded.{Acc}
use orch_kit.Prelude.{
  is_in, ℕ, ◌+◌, ◌<◌, String, ◌≡◌, ◌∙◌, ◌⊎◌, refl, true, false, some, none, Option, Option-cases,
  Bool-cases, inl, inr, List, [], ◌∷◌, ◌++◌, All, arith, if◌then◌else◌, find, find-All, find-rows,
  any, Distinct, text_refl,
}
use orch_kit.Ledger.{
  Task, Run, Ledger, Lock, ProjectPause, task_key, find_task, attempts, dependencies_done, is_done,
  is_ready, locks_writer, lock_rows, sort_locks, dict_of, active_writer_locks,
}
use orch_kit.Lifecycle.{DependsOn, Grounded}
use orch_kit.Lifecycle.Refinement.{view, task_view, map-eq-some}
use orch_kit.Claim.Start.{NextWork, next_work}
use orch_kit.Claim.Queue.{
  Candidate, pause_of, Verdict, Scan, consider, look, queue_order, insert_task, before,
}
use orch_kit.Claim.Eligible.{consider-eligible, IsEligible}

-- A dependency that is not a finished task.
undone :
    (l : Ledger) (deps : List String)
    → dependencies_done l deps ≡ false
    → (d : String) × (is_in d deps ≡ true)
      × ((find_task l d ≡ none)
          ⊎ ((t : Task) × (find_task l d ≡ some t) × (is_done t.status ≡ false)))
unfolding dependencies_done any
undone l [] h = cc
undone l (d ∷ deps) h = elim (Option-cases (find_task l d)) [
  | inl e ↦ (d, ground (arith, text_refl d), inl e)
  | inr (t, e) ↦ elim (Bool-cases (is_done t.status)) [
    | inl f ↦
        let (x, listed, pending) = undone l deps (ground (arith, h, e, f)) in
        (x, ground (arith, listed), pending)
    | inr f ↦ (d, ground (arith, text_refl d), inr (t, e, f))
  ]
]

-- A task that is not finished while its dependencies are.
record Front (l : Ledger) : Type 0 where
  id : String
  task : Task
  found : find_task l id ≡ some task
  unfinished : is_done task.status ≡ false
  dependencies : dependencies_done l task.payload.dependencies ≡ true

-- Behind each unfinished task stands one whose dependencies are finished.
front :
    (l : Ledger) (j : String) (t : Task)
    → Grounded (view l)
    → Acc (DependsOn (view l)) j
    → find_task l j ≡ some t
    → is_done t.status ≡ false
    → Front l
front l j t g (Acc.intro j' h) found pending =
    elim (Bool-cases (dependencies_done l t.payload.dependencies)) [
      | inl e ↦ record { id = j; task = t; found = found; unfinished = pending; dependencies = e }
      | inr e ↦
          let (d, listed, rest) = undone l t.payload.dependencies e in
          let need : DependsOn (view l) d j = record {
            row = task_view t;
            found = ap (Option.map task_view) found;
            listed = listed;
          } in
          elim rest [
            | inr (u, f, k) ↦ front l d u g (h d need) f k
            | inl missing ↦
                let (v, e') = g.known d j need in
                let (u, f, same) = map-eq-some task_view (find_task l d) v e' in cc
          ]
    ]

module _ (project_id : Option String) (pauses : List ProjectPause) (locks : List Lock) where
  -- A loop that selects nothing has met no eligible task.
  look-none :
      (l : Ledger) (held : List Lock) (stopped : List ProjectPause) (rows : List Task)
      → (look project_id pauses locks 0 l held stopped rows).selected ≡ none
      → All (λ u. ¬ IsEligible project_id pauses locks l u) rows
  unfolding look
  look-none l held stopped [] h = tt
  look-none l held stopped (row ∷ rows) h =
      go (consider project_id pauses locks l row) refl (look-none l held stopped rows)
        (λ p. look-none l held (stopped ++ p ∷ []) rows)
        (λ k. look-none l (held ++ k ∷ []) stopped rows) h
    where
      looks : Verdict → Scan
      looks v = elim v [
        | Verdict.skip ↦ look project_id pauses locks 0 l held stopped rows
        | Verdict.paused p ↦ look project_id pauses locks 0 l held (stopped ++ p ∷ []) rows
        | Verdict.exhausted n ↦ look project_id pauses locks 0 l held stopped rows
        | Verdict.busy k ↦ look project_id pauses locks 0 l (held ++ k ∷ []) stopped rows
        | Verdict.take n ↦ record {
          ledger = l;
          busy = held;
          paused = stopped;
          selected = some (record { task = row; attempts = n });
        }
      ]

      None : List Task → Type 0
      None us = All (λ u. ¬ IsEligible project_id pauses locks l u) us

      later :
          (v : Verdict)
          → consider project_id pauses locks l row ≡ v
          → ((n : ℕ) → v ≡ Verdict.take n → ⊥)
          → None rows
          → None (row ∷ rows)
      later v e other rest = (
        λ eligible.
            other (attempts l row.task_id)
              (sym e ∙ consider-eligible project_id pauses locks l row eligible),
        rest,
      )

      go :
          (v : Verdict)
          → consider project_id pauses locks l row ≡ v
          → ((look project_id pauses locks 0 l held stopped rows).selected ≡ none → None rows)
          → ((p : ProjectPause)
              → (look project_id pauses locks 0 l held (stopped ++ p ∷ []) rows).selected ≡ none
              → None rows)
          → ((k : Lock)
              → (look project_id pauses locks 0 l (held ++ k ∷ []) stopped rows).selected ≡ none
              → None rows)
          → (looks v).selected ≡ none
          → None (row ∷ rows)
      go Verdict.skip e a b d k = later Verdict.skip e (λ n x. cc) (a k)
      go (Verdict.paused p) e a b d k = later (Verdict.paused p) e (λ n x. cc) (b p k)
      go (Verdict.busy j) e a b d k = later (Verdict.busy j) e (λ n x. cc) (d j k)
      go (Verdict.exhausted n) e a b d k = later (Verdict.exhausted n) e (λ m x. cc) (a k)
      go (Verdict.take n) e a b d k = cc

insert_task-All :
    (P : Task → Type 0) (t : Task) (us : List Task) → All P (insert_task t us) → P t × All P us
unfolding insert_task
insert_task-All P t [] all = (all.0, tt)
insert_task-All P t (u ∷ us) all = elim (Bool-cases (before u t)) [
  | inl e ↦
      let (here, rest) : P u × All P (insert_task t us) =
        subst (λ b. All P (if b then u ∷ insert_task t us else t ∷ u ∷ us)) e all in
      let (new, others) = insert_task-All P t us rest in (new, (here, others))
  | inr e ↦ subst (λ b. All P (if b then u ∷ insert_task t us else t ∷ u ∷ us)) e all
]

queue_order-All : (P : Task → Type 0) (ts : List Task) → All P (queue_order ts) → All P ts
unfolding queue_order
queue_order-All P [] all = tt
queue_order-All P (t ∷ ts) all =
    let (here, rest) = insert_task-All P t (queue_order ts) all in (here, queue_order-All P ts rest)

lock_rows-nil :
    (tasks : List Task) (rs : List Run)
    → All (λ (r : Run). locks_writer r.state ≡ false) rs
    → lock_rows tasks rs ≡ []
unfolding lock_rows
lock_rows-nil tasks [] all = refl
lock_rows-nil tasks (r ∷ rs) all = ground (arith, all.0, lock_rows-nil tasks rs all.1)

active_writer_locks-nil :
    (l : Ledger)
    → All (λ (r : Run). locks_writer r.state ≡ false) l.runs
    → active_writer_locks l ≡ []
unfolding active_writer_locks sort_locks dict_of
active_writer_locks-nil l all = rw (lock_rows-nil l.tasks l.runs all) refl

-- Either every task is finished, or one that is not stands in the table.
finished_or_one :
    (l : Ledger) (ts : List Task)
    → All (λ t. find_task l t.task_id ≡ some t) ts
    → All (λ (t : Task). is_done t.status ≡ true) ts
      ⊎ ((t : Task) × (find_task l t.task_id ≡ some t) × (is_done t.status ≡ false))
finished_or_one l [] all = inl tt
finished_or_one l (t ∷ ts) all = elim (Bool-cases (is_done t.status)) [
  | inr f ↦ inr (t, all.0, f)
  | inl e ↦ elim (finished_or_one l ts all.1) [ inl rest ↦ inl (e, rest) | inr one ↦ inr one ]
]

unpaused_project : (project_id : Option String) → pause_of [] project_id ≡ none
unfolding find
unpaused_project none = refl
unpaused_project (some p) = refl

-- A task is finished, or it waits in the queue with an attempt left.
abbrev pub IsServed : Ledger → Task → Type 0
IsServed l t =
    (is_done t.status ≡ true)
    ⊎ ((is_ready t.status ≡ true) × (attempts l t.task_id < t.payload.max_attempts))

Front-IsEligible :
    (l : Ledger) → All (IsServed l) l.tasks → (f : Front l) → IsEligible none [] [] l f.task
unfolding find
Front-IsEligible l served f = elim (find-All task_key (IsServed l) f.id l.tasks served f.found) [
  | inl e ↦ absurd (differ f.task e f.unfinished)
  | inr (queued, room) ↦ record {
    queued = queued;
    wanted = refl;
    unpaused = unpaused_project f.task.project_id;
    dependencies = f.dependencies;
    room = room;
    free = refl;
  }
]
  where
    differ : (t : Task) → is_done t.status ≡ true → is_done t.status ≡ false → ⊥
    differ t a b = cc

next_work-ready :
    (l : Ledger) (pauses : List ProjectPause) (locks : List Lock) (c : Candidate)
    → l.paused ≡ none
    → l.project_pauses ≡ pauses
    → active_writer_locks l ≡ locks
    → (look none pauses locks 0 l [] [] (queue_order l.tasks)).selected ≡ some c
    → next_work l none ≡ NextWork.ready c.task (c.attempts + 1)
unfolding next_work
next_work-ready l pauses locks c running same held h = ground (arith, running, same, held, h)

pub next_work_progress :
    (l : Ledger)
    → Grounded (view l)
    → Distinct task_key l.tasks
    → l.paused ≡ none
    → l.project_pauses ≡ []
    → All (λ (r : Run). locks_writer r.state ≡ false) l.runs
    → All (IsServed l) l.tasks
    → All (λ (t : Task). is_done t.status ≡ true) l.tasks
      ⊎ ((t : Task) × (n : ℕ) × (next_work l none ≡ NextWork.ready t n))
next_work_progress l g d running unpaused idle served =
    elim (finished_or_one l l.tasks (find-rows task_key l.tasks d)) [
      | inl all ↦ inl all
      | inr (t, found, unfinished) ↦
          let f = front l t.task_id t g (g.ends t.task_id) found unfinished in
          let eligible = Front-IsEligible l served f in
          let held = active_writer_locks-nil l idle in
          elim (Option-cases (look none [] [] 0 l [] [] (queue_order l.tasks)).selected) [
            | inr (c, e) ↦
                inr (c.task, c.attempts + 1, next_work-ready l [] [] c running unpaused held e)
            | inl e ↦
                let none_there =
                  queue_order-All (λ u. ¬ IsEligible none [] [] l u) l.tasks
                    (look-none none [] [] l [] [] (queue_order l.tasks) e) in
                absurd (
                  find-All task_key (λ u. ¬ IsEligible none [] [] l u) f.id l.tasks none_there
                    f.found eligible)
          ]
    ]

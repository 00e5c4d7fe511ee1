-- ===== src/Lifecycle/Invariant/Start.antt =====
-- A claim starts a run.
use orch_kit.Prelude.{
  String, ◌+◌, ◌≤◌, ◌<◌, ◌≡◌, sym, ap, ◌∙◌, true, some, none, ◌⊎◌, inl, inr, ◌==◌, All, All-map,
  Bool-cases, eq_iff, text_refl, arith, if◌then◌else◌,
}
use mathlib.Core.Path.{subst}
use orch_kit.Ledger.{RunState, TaskStatus}
use orch_kit.Lifecycle.Moves.{RunView, TaskView, View, Holds, IsDone, is_startable}
use orch_kit.Lifecycle.Invariant.Defs.{fits, Inv, fits-unlocked, fits-startable, startable_open}
use orch_kit.Lifecycle.Invariant.Rows.{split_row, SameTask}
use orch_kit.Lifecycle.Invariant.Written.{written_old, written_new, written_done}

abbrev fresh_run : View → String → RunView
fresh_run v task_id = record {
  task_id = task_id;
  attempt = v.attempts task_id + 1;
  state = RunState.running;
}

module _ (v w : View) (id task_id : String) (t : TaskView) (free : v.run id ≡ none)
    (found : v.task task_id ≡ some t) (startable : is_startable t.status ≡ true)
    (dependencies : All (IsDone v) t.dependencies) (room : v.attempts task_id < t.max_attempts)
    (alone : (i : String) → ¬ Holds v i t.writer_key)
    (runs : (i : String) → w.run i ≡ (if id == i then some (fresh_run v task_id) else v.run i))
    (tasks : (j : String)
      → w.task j
        ≡ (if task_id == j then some (record t { status = TaskStatus.in_progress }) else v.task j))
    (more : (j : String) → w.attempts j ≡ (if task_id == j then v.attempts j + 1 else v.attempts j))
    (inv : Inv v) where
  start-old :
      (j : String) (u : TaskView)
      → w.task j ≡ some u
      → (s : TaskView) × (v.task j ≡ some s) × SameTask s u
  start-old = written_old v w task_id t TaskStatus.in_progress found tasks

  start-new : (j : String) (s : TaskView) → v.task j ≡ some s → (u : TaskView) × (w.task j ≡ some u)
  start-new = written_new v w task_id t TaskStatus.in_progress found tasks

  start-IsDone : (d : String) → IsDone v d → IsDone w d
  start-IsDone =
      written_done v w task_id t TaskStatus.in_progress found tasks
        (startable_open t.status startable).0

  start-attempts : (j : String) → (v.attempts j ≤ w.attempts j) × (w.attempts j ≤ v.attempts j + 1)
  start-attempts j = ground (arith, more j)

  start-count : w.attempts task_id ≡ v.attempts task_id + 1
  start-count = ground (arith, more task_id, text_refl task_id)

  start-owned :
      (i : String) (s : RunView) → w.run i ≡ some s → (u : TaskView) × (w.task s.task_id ≡ some u)
  start-owned i s h = elim (split_row id i s (runs i) h) [
    | inl (e, f) ↦ let (u, g) = start-new task_id t found in (u, rw f g)
    | inr (n, f) ↦ let (u, g) = inv.owned i s f in start-new s.task_id u g
  ]

  start-Holds : (i k : String) → Holds w i k → ((id ≡ i) × (t.writer_key ≡ k)) ⊎ Holds v i k
  start-Holds i k h =
      let (u, f, st) = start-old h.row.task_id h.owner h.joined in
      elim (split_row id i h.row (runs i) h.found) [
        | inl (e, g) ↦
            let at_task : v.task task_id ≡ some u =
              subst (λ k. v.task k ≡ some u) (ap (λ (x : RunView). x.task_id) g) f in
            inl (e, ground (arith, at_task, found, st.writer, h.keyed))
        | inr (n, g) ↦ inr (record {
          row = h.row;
          owner = u;
          found = g;
          joined = f;
          locked = h.locked;
          keyed = st.writer ∙ h.keyed;
        })
      ]

  start-exclusive : (i j k : String) → Holds w i k → Holds w j k → i ≡ j
  start-exclusive i j k h g = elim (start-Holds i k h) [
    | inl (e, f) ↦ elim (start-Holds j k g) [
      | inl (e', f') ↦ sym e ∙ e'
      | inr old ↦ absurd (alone j (subst (Holds v j) (sym f) old))
    ]
    | inr old ↦ elim (start-Holds j k g) [
      | inl (e', f') ↦ absurd (alone i (subst (Holds v i) (sym f') old))
      | inr old' ↦ inv.exclusive i j k old old'
    ]
  ]

  start-status_fits :
      (i : String) (s : RunView) (u : TaskView)
      → w.run i ≡ some s
      → w.task s.task_id ≡ some u
      → fits s.state u.status ≡ true
  start-status_fits i s u h g = elim (split_row id i s (runs i) h) [
    | inl (e, f) ↦
        let at_task : w.task task_id ≡ some u = rw f at g in
        let written : u ≡ record t { status = TaskStatus.in_progress } =
          ground (arith, tasks task_id, text_refl task_id, at_task) in
        rw (f, written)
    | inr (n, f) ↦ elim (split_row task_id s.task_id u (tasks s.task_id) g) [
      | inl (e, k) ↦ fits-unlocked s.state u.status (
          fits-startable s.state t.status
            (inv.status_fits i s t f (subst (λ k. v.task k ≡ some t) e found)) startable)
      | inr (m, k) ↦ inv.status_fits i s u f k
    ]
  ]

  start-numbered :
      (i : String) (s : RunView)
      → w.run i ≡ some s
      → (1 ≤ s.attempt) × (s.attempt ≤ w.attempts s.task_id)
  start-numbered i s h = elim (split_row id i s (runs i) h) [
    | inl (e, f) ↦ rw f (omega (arith, start-count))
    | inr (n, f) ↦ omega (arith, inv.numbered i s f, start-attempts s.task_id)
  ]

  -- No old run has the new number.
  start-apart :
      (i : String) (s : RunView)
      → v.run i ≡ some s
      → s.task_id ≡ task_id
      → s.attempt ≡ v.attempts task_id + 1
      → ⊥
  start-apart i s h e f = omega (arith, inv.numbered i s h, ap v.attempts e)

  start-distinct :
      (i j : String) (r s : RunView)
      → w.run i ≡ some r
      → w.run j ≡ some s
      → r.task_id ≡ s.task_id
      → r.attempt ≡ s.attempt
      → i ≡ j
  start-distinct i j r s h g e f = elim (split_row id i r (runs i) h) [
    | inl (a, b) ↦ elim (split_row id j s (runs j) g) [
      | inl (c, d) ↦ sym a ∙ c
      | inr (m, d) ↦ absurd (
          start-apart j s d (sym e ∙ ap (λ (x : RunView). x.task_id) b)
            (sym f ∙ ap (λ (x : RunView). x.attempt) b))
    ]
    | inr (n, b) ↦ elim (split_row id j s (runs j) g) [
      | inl (c, d) ↦ absurd (
          start-apart i r b (e ∙ ap (λ (x : RunView). x.task_id) d)
            (f ∙ ap (λ (x : RunView). x.attempt) d))
      | inr (m, d) ↦ inv.distinct i j r s b d e f
    ]
  ]

  start-capped : (j : String) (u : TaskView) → w.task j ≡ some u → w.attempts j ≤ u.max_attempts
  start-capped j u h =
      let (s, f, st) = start-old j u h in
      elim (Bool-cases (task_id == j)) [
        | inl e ↦
            let at_j : v.task j ≡ some t =
              subst (λ k. v.task k ≡ some t) ((eq_iff task_id j).0 e) found in
            let same : t ≡ s = ground (arith, at_j, f) in
            rw (more j, e)
              (omega (
                arith,
                room,
                st.cap,
                ap (λ (x : TaskView). x.max_attempts) same,
                ap v.attempts ((eq_iff task_id j).0 e),
              ))
        | inr n ↦ rw (more j, n) (omega (arith, inv.capped j s f, st.cap))
      ]

  start-absent : (j : String) → w.task j ≡ none → w.attempts j ≡ 0
  start-absent j h = elim (Bool-cases (task_id == j)) [
    | inl e ↦ ground (arith, tasks j, e, h)
    | inr n ↦ rw (more j, n) (inv.absent j (rw (tasks j, n) at h))
  ]

  start-ordered :
      (i : String) (s : RunView) (u : TaskView)
      → w.run i ≡ some s
      → w.task s.task_id ≡ some u
      → All (IsDone w) u.dependencies
  start-ordered i s u h g =
      let (u', k, st) = start-old s.task_id u g in
      rw (← st.deps) (
        All-map (IsDone v) (IsDone w) u'.dependencies start-IsDone
          (elim (split_row id i s (runs i) h) [
            | inl (e, f) ↦
                let at_task : v.task task_id ≡ some u' =
                  subst (λ k. v.task k ≡ some u') (ap (λ (x : RunView). x.task_id) f) k in
                let same : t ≡ u' = ground (arith, at_task, found) in rw (← same) dependencies
            | inr (n, f) ↦ inv.ordered i s u' f k
          ]))

  pub start-Inv : Inv w
  start-Inv = record {
    owned = start-owned;
    exclusive = start-exclusive;
    status_fits = start-status_fits;
    numbered = start-numbered;
    distinct = start-distinct;
    capped = start-capped;
    absent = start-absent;
    ordered = start-ordered;
  }

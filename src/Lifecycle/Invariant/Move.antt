-- ===== src/Lifecycle/Invariant/Move.antt =====
-- The moves of a run from state to state.
use orch_kit.Prelude.{
  String, ◌≡◌, refl, true, false, Option, some, inl, inr, ◌==◌, Bool-cases, eq_iff, text_refl,
  arith, if◌then◌else◌,
}
use mathlib.Core.Path.{subst}
use orch_kit.Ledger.{RunState, TaskStatus, locks_writer}
use orch_kit.Lifecycle.Moves.{RunView, TaskView, View, Edge, new_status}
use orch_kit.Lifecycle.Invariant.Defs.{fits, Inv, Edge-locks, Edge-fits, Edge-open, fits-unlocked}
use orch_kit.Lifecycle.Invariant.Rows.{
  split_row, SameRun, Carried, Carried-owned, Carried-exclusive, Carried-numbered, Carried-distinct,
  Carried-absent, Carried-ordered,
}
use orch_kit.Lifecycle.Invariant.Written.{SameRun-refl, written_old, written_new, written_done}

module _ (v w : View) (id : String) (r : RunView) (t : TaskView) (to : RunState)
    (status : Option TaskStatus) (found : v.run id ≡ some r) (joined : v.task r.task_id ≡ some t)
    (edge : Edge r.state to status)
    (runs : (i : String) → w.run i ≡ (if id == i then some (record r { state = to }) else v.run i))
    (tasks : (j : String)
      → w.task j ≡ (
          if r.task_id == j
          then some (record t { status = new_status status t.status })
          else v.task j))
    (same : (j : String) → w.attempts j ≡ v.attempts j) (inv : Inv v) where
  move-old_run :
      (i : String) (s : RunView)
      → w.run i ≡ some s
      → (u : RunView) × (v.run i ≡ some u) × SameRun u s
  move-old_run i s h = elim (split_row id i s (runs i) h) [
    | inl (e, f) ↦ (
      r,
      subst (λ k. v.run k ≡ some r) e found,
      record { task = rw f; number = rw f; lock = λ _. Edge-locks edge },
    )
    | inr (n, f) ↦ (s, f, SameRun-refl s)
  ]

  move-Carried : Carried v w
  move-Carried = record {
    old_run = move-old_run;
    old_task = λ i s u h g.
        written_old v w r.task_id t (new_status status t.status) joined tasks s.task_id u g;
    new_task = written_new v w r.task_id t (new_status status t.status) joined tasks;
    attempts = same;
    done_kept =
        written_done v w r.task_id t (new_status status t.status) joined tasks
          (Edge-open t.status edge (inv.status_fits id r t found joined)).0;
  }

  -- Another run of the same task holds no writer.
  move-other :
      (i : String) (s : RunView)
      → ((id == i) ≡ false)
      → v.run i ≡ some s
      → r.task_id ≡ s.task_id
      → locks_writer s.state ≡ false
  move-other i s n h e = elim (Bool-cases (locks_writer s.state)) [
    | inl y ↦
        let same_run : id ≡ i =
          inv.exclusive id i t.writer_key
            (record {
              row = r;
              owner = t;
              found = found;
              joined = joined;
              locked = Edge-locks edge;
              keyed = refl;
            })
            (record {
              row = s;
              owner = t;
              found = h;
              joined = subst (λ k. v.task k ≡ some t) e joined;
              locked = y;
              keyed = refl;
            }) in
        cc (n, (eq_iff id i).1 same_run)
    | inr k ↦ k
  ]

  move-status_fits :
      (i : String) (s : RunView) (u : TaskView)
      → w.run i ≡ some s
      → w.task s.task_id ≡ some u
      → fits s.state u.status ≡ true
  move-status_fits i s u h g = elim (split_row id i s (runs i) h) [
    | inl (e, f) ↦
        let at_task : w.task r.task_id ≡ some u = rw f at g in
        let moved : u ≡ record t { status = new_status status t.status } =
          ground (arith, tasks r.task_id, text_refl r.task_id, at_task) in
        rw (f, moved) (Edge-fits t.status edge (inv.status_fits id r t found joined))
    | inr (n, f) ↦ elim (split_row r.task_id s.task_id u (tasks s.task_id) g) [
      | inl (e, k) ↦ fits-unlocked s.state u.status (move-other i s n f e)
      | inr (m, k) ↦ inv.status_fits i s u f k
    ]
  ]

  pub move-Inv : Inv w
  move-Inv = record {
    owned = Carried-owned move-Carried inv;
    exclusive = Carried-exclusive move-Carried inv;
    status_fits = move-status_fits;
    numbered = Carried-numbered move-Carried inv;
    distinct = Carried-distinct move-Carried inv;
    capped = λ j u h.
        let (s, f, st) =
          written_old v w r.task_id t (new_status status t.status) joined tasks j u h in
        rw (same j, ← st.cap) (inv.capped j s f);
    absent = Carried-absent move-Carried inv;
    ordered = Carried-ordered move-Carried inv;
  }

-- ===== src/Lifecycle/Invariant/Retire.antt =====
-- A task leaves the queue, and a plan adds tasks.
use orch_kit.Prelude.{String, ◌≡◌, true, some, inl, inr, ◌==◌, Option-cases, arith, if◌then◌else◌}
use mathlib.Core.Path.{subst}
use orch_kit.Ledger.{TaskStatus}
use orch_kit.Lifecycle.Moves.{RunView, TaskView, View, Holds, Retire}
use orch_kit.Lifecycle.Invariant.Defs.{
  fits, Inv, fits-unlocked, fits-startable, Retire-startable, startable_open,
}
use orch_kit.Lifecycle.Invariant.Rows.{
  split_row, SameRun, Carried, Carried-owned, Carried-Holds, Carried-exclusive, Carried-numbered,
  Carried-distinct, Carried-absent, Carried-ordered,
}
use orch_kit.Lifecycle.Invariant.Written.{
  SameRun-refl, SameTask-refl, written_old, written_new, written_done,
}

kept_run :
    (v w : View)
    → ((i : String) → w.run i ≡ v.run i)
    → (i : String) (s : RunView) → w.run i ≡ some s
    → (u : RunView) × (v.run i ≡ some u) × SameRun u s
kept_run v w runs i s h = (s, rw (← runs i) h, SameRun-refl s)

module _ (v w : View) (id : String) (t : TaskView) (to : TaskStatus) (found : v.task id ≡ some t)
    (out : Retire t.status to) (runs : (i : String) → w.run i ≡ v.run i)
    (tasks : (j : String)
      → w.task j ≡ (if id == j then some (record t { status = to }) else v.task j))
    (same : (j : String) → w.attempts j ≡ v.attempts j) (inv : Inv v) where
  retire-Carried : Carried v w
  retire-Carried = record {
    old_run = kept_run v w runs;
    old_task = λ i s u h g. written_old v w id t to found tasks s.task_id u g;
    new_task = written_new v w id t to found tasks;
    attempts = same;
    done_kept =
        written_done v w id t to found tasks (startable_open t.status (Retire-startable out)).0;
  }

  retire-status_fits :
      (i : String) (s : RunView) (u : TaskView)
      → w.run i ≡ some s
      → w.task s.task_id ≡ some u
      → fits s.state u.status ≡ true
  retire-status_fits i s u h g =
      let old : v.run i ≡ some s = rw (← runs i) h in
      elim (split_row id s.task_id u (tasks s.task_id) g) [
        | inl (e, f) ↦ fits-unlocked s.state u.status (
            fits-startable s.state t.status
              (inv.status_fits i s t old (subst (λ k. v.task k ≡ some t) e found))
              (Retire-startable out))
        | inr (n, f) ↦ inv.status_fits i s u old f
      ]

  -- A run that holds a writer behind a retirement held it before.
  pub retire-Holds : (i k : String) → Holds w i k → Holds v i k
  retire-Holds = Carried-Holds retire-Carried inv

  pub retire-Inv : Inv w
  retire-Inv = record {
    owned = Carried-owned retire-Carried inv;
    exclusive = Carried-exclusive retire-Carried inv;
    status_fits = retire-status_fits;
    numbered = Carried-numbered retire-Carried inv;
    distinct = Carried-distinct retire-Carried inv;
    capped = λ j u h.
        let (s, f, st) = written_old v w id t to found tasks j u h in
        rw (same j, ← st.cap) (inv.capped j s f);
    absent = Carried-absent retire-Carried inv;
    ordered = Carried-ordered retire-Carried inv;
  }

module _ (v w : View) (runs : (i : String) → w.run i ≡ v.run i)
    (kept : (j : String) (t : TaskView) → v.task j ≡ some t → w.task j ≡ some t)
    (same : (j : String) → w.attempts j ≡ v.attempts j) (inv : Inv v) where
  load-old_task :
      (i : String) (r : RunView) (u : TaskView)
      → v.run i ≡ some r
      → w.task r.task_id ≡ some u
      → v.task r.task_id ≡ some u
  load-old_task i r u h g = let (t, e) = inv.owned i r h in ground (arith, kept r.task_id t e)

  load-Carried : Carried v w
  load-Carried = record {
    old_run = kept_run v w runs;
    old_task = λ i r u h g. (u, load-old_task i r u h g, SameTask-refl u);
    new_task = λ j t h. (t, kept j t h);
    attempts = same;
    done_kept = λ d (t, h, e). (t, kept d t h, e);
  }

  pub load-Inv : Inv w
  load-Inv = record {
    owned = Carried-owned load-Carried inv;
    exclusive = Carried-exclusive load-Carried inv;
    status_fits = λ i s u h g.
        let old : v.run i ≡ some s = rw (← runs i) h in
        inv.status_fits i s u old (load-old_task i s u old g);
    numbered = Carried-numbered load-Carried inv;
    distinct = Carried-distinct load-Carried inv;
    capped = λ j u h. elim (Option-cases (v.task j)) [
      | inl e ↦ omega (arith, same j, inv.absent j e)
      | inr (t, e) ↦ ground (arith, same j, inv.capped j t e, kept j t e)
    ];
    absent = Carried-absent load-Carried inv;
    ordered = Carried-ordered load-Carried inv;
  }

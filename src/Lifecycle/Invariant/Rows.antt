-- ===== src/Lifecycle/Invariant/Rows.antt =====
-- Moves that start no run: what carries over from the state before.
use orch_kit.Prelude.{
  String, ◌≤◌, ◌≡◌, sym, ap, ◌∙◌, true, false, Option, some, none, ◌⊎◌, inl, inr, ◌==◌, All,
  All-map, Bool-cases, Option-cases, eq_iff, arith, if◌then◌else◌,
}
use mathlib.Core.Path.{subst}
use orch_kit.Ledger.{locks_writer}
use orch_kit.Lifecycle.Moves.{RunView, TaskView, View, Holds, IsDone}
use orch_kit.Lifecycle.Invariant.Defs.{Inv}

-- A row after a write is the written one, or the old one under another key.
pub split_row {ℓ} :
    {A : Type ℓ} (id i : String) {new : A} {old now : Option A} (b : A)
    → now ≡ (if id == i then some new else old)
    → now ≡ some b
    → ((id ≡ i) × (b ≡ new)) ⊎ (((id == i) ≡ false) × (old ≡ some b))
split_row id i b e h = elim (Bool-cases (id == i)) [
  | inl y ↦ inl ((eq_iff id i).0 y, ground arith)
  | inr n ↦ inr (n, ground arith)
]

pub record SameTask (t u : TaskView) : Type 0 where
  pub writer : t.writer_key ≡ u.writer_key
  pub cap : t.max_attempts ≡ u.max_attempts
  pub deps : t.dependencies ≡ u.dependencies

pub record SameRun (r s : RunView) : Type 0 where
  pub task : r.task_id ≡ s.task_id
  pub number : r.attempt ≡ s.attempt
  pub lock : locks_writer s.state ≡ true → locks_writer r.state ≡ true

pub record Carried (v w : View) : Type 0 where
  pub old_run :
      (i : String) (s : RunView)
      → w.run i ≡ some s
      → (r : RunView) × (v.run i ≡ some r) × SameRun r s
  pub old_task :
      (i : String) (r : RunView) (u : TaskView)
      → v.run i ≡ some r
      → w.task r.task_id ≡ some u
      → (t : TaskView) × (v.task r.task_id ≡ some t) × SameTask t u
  pub new_task :
      (j : String) (t : TaskView) → v.task j ≡ some t → (u : TaskView) × (w.task j ≡ some u)
  pub attempts : (j : String) → w.attempts j ≡ v.attempts j
  pub done_kept : (d : String) → IsDone v d → IsDone w d

module _ {v w : View} (c : Carried v w) (inv : Inv v) where
  pub Carried-owned :
      (i : String) (s : RunView) → w.run i ≡ some s → (u : TaskView) × (w.task s.task_id ≡ some u)
  Carried-owned i s h =
      let (r, e, same) = c.old_run i s h in
      let (t, f) = inv.owned i r e in
      let (u, g) = c.new_task r.task_id t f in (u, subst (λ k. w.task k ≡ some u) same.task g)

  pub Carried-Holds : (i k : String) → Holds w i k → Holds v i k
  Carried-Holds i k h =
      let (r, e, same) = c.old_run i h.row h.found in
      let (t, f, g) = c.old_task i r h.owner e (rw same.task h.joined) in
      record {
        row = r;
        owner = t;
        found = e;
        joined = f;
        locked = same.lock h.locked;
        keyed = g.writer ∙ h.keyed;
      }

  pub Carried-exclusive : (i j k : String) → Holds w i k → Holds w j k → i ≡ j
  Carried-exclusive i j k h g = inv.exclusive i j k (Carried-Holds i k h) (Carried-Holds j k g)

  pub Carried-numbered :
      (i : String) (s : RunView)
      → w.run i ≡ some s
      → (1 ≤ s.attempt) × (s.attempt ≤ w.attempts s.task_id)
  Carried-numbered i s h =
      let (r, e, same) = c.old_run i s h in
      omega (arith, inv.numbered i r e, same.number, c.attempts s.task_id, ap v.attempts same.task)

  pub Carried-distinct :
      (i j : String) (r s : RunView)
      → w.run i ≡ some r
      → w.run j ≡ some s
      → r.task_id ≡ s.task_id
      → r.attempt ≡ s.attempt
      → i ≡ j
  Carried-distinct i j r s h g e f =
      let (r', h', sr) = c.old_run i r h in
      let (s', g', ss) = c.old_run j s g in
      inv.distinct i j r' s' h' g' (sr.task ∙ e ∙ sym ss.task) (sr.number ∙ f ∙ sym ss.number)

  pub Carried-absent : (j : String) → w.task j ≡ none → w.attempts j ≡ 0
  Carried-absent j h = elim (Option-cases (v.task j)) [
    | inl e ↦ c.attempts j ∙ inv.absent j e
    | inr (t, e) ↦ let (u, f) = c.new_task j t e in cc (h, f)
  ]

  pub Carried-ordered :
      (i : String) (s : RunView) (u : TaskView)
      → w.run i ≡ some s
      → w.task s.task_id ≡ some u
      → All (IsDone w) u.dependencies
  Carried-ordered i s u h g =
      let (r, e, same) = c.old_run i s h in
      let (t, f, st) = c.old_task i r u e (rw same.task g) in
      rw (← st.deps)
        (All-map (IsDone v) (IsDone w) t.dependencies c.done_kept (inv.ordered i r t e f))

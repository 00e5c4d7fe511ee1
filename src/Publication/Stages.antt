-- ===== src/Publication/Stages.antt =====
-- Each stage of a reconciliation leaves the runs and the tasks, or completes the run on a proof.
use orch_kit.Prelude.{
  ℕ, String, ◌≡◌, refl, ap, Bool, true, false, ◌||◌, Option, none, some, List, update, arith, ◌&&◌,
}
use orch_kit.Ledger.{
  TaskStatus, Run, Task, Publication, PublicationKind, PublicationStatus, Ledger, run_key, task_key,
  with_status, same_text,
}
use orch_kit.Completion.{completed_at}
use orch_kit.Publication.Defs.{Effect, raises, happens, publication_update, finalize_publication}
use orch_kit.Publication.Reconcile.{
  ReconcileProbe, Reconciled, filled, is_intent, is_committed, conclude, reconcile_pushed,
  reconcile_remote, reconcile_proven, reconcile_committed, reconcile_prepared, reconcile_staged,
  found_head, reconcile_row,
}

abbrev pub is_local : PublicationKind → Bool
is_local PublicationKind.git_local = true
is_local _ = false

-- The commit holds the snapshot, and a publication that is not local has it on the remote.
pub record Proven (task : Task) (p : ReconcileProbe) (commit : String) : Type 0 where
  pub matching : p.matches commit ≡ true
  pub shown :
      (is_local task.payload.publication.kind
        || same_text p.remote_before (some commit)
        || same_text p.remote_after (some commit))
      ≡ true

-- The end of a reconciliation that started from these runs and tasks.
pub data Ends (runs : List Run) (tasks : List Task) (run : Run) (task : Task) (p : ReconcileProbe)
    (now : ℕ) (x : Ledger × Reconciled) : Type 0 where
  kept : x.0.runs ≡ runs → x.0.tasks ≡ tasks → Ends runs tasks run task p now x
  completed :
      (commit : String)
      → x.0.runs ≡ update run_key run.run_id (completed_at now) runs
      → x.0.tasks ≡ update task_key run.task_id (with_status TaskStatus.done now) tasks
      → Proven task p commit
      → Ends runs tasks run task p now x

module _ (run : Run) (task : Task) (base : String) (resume : Bool) (p : ReconcileProbe) (now : ℕ)
    (runs : List Run) (tasks : List Task) where
  abbrev pub Good : Ledger × Reconciled → Type 0
  Good = Ends runs tasks run task p now

  Good-if :
      (b : Bool) (x y : Ledger × Reconciled)
      → (b ≡ true → Good x)
      → (b ≡ false → Good y)
      → Good (elim b as (λ c. Ledger × Reconciled) [ true ↦ x | false ↦ y ])
  Good-if true x y f g = f refl
  Good-if false x y f g = g refl

  Good-effect {ℓ} :
      {A : Type ℓ} (e : Effect A) (f : String → Ledger × Reconciled) (g : A → Ledger × Reconciled)
      → ((text : String) → Good (f text))
      → ((a : A) → Good (g a))
      → Good (elim e as (λ c. Ledger × Reconciled) [ raises text ↦ f text | happens a ↦ g a ])
  Good-effect (raises text) f g a b = a text
  Good-effect (happens x) f g a b = b x

  Good-option :
      (o : Option String) (x : Ledger × Reconciled) (f : String → Ledger × Reconciled)
      → Good x
      → ((s : String) → Good (f s))
      → Good (elim o as (λ c. Ledger × Reconciled) [ none ↦ x | some s ↦ f s ])
  Good-option none x f a b = a
  Good-option (some s) x f a b = b s

  conclude-Good :
      (l : Ledger) (commit : String) (remote : Option String)
      → l.runs ≡ runs
      → l.tasks ≡ tasks
      → Proven task p commit
      → Good (conclude run task base resume p now l commit remote)
  unfolding finalize_publication
  conclude-Good l commit remote e f proven =
      Ends.completed commit (ap (update run_key run.run_id (completed_at now)) e)
        (ap (update task_key run.task_id (with_status TaskStatus.done now)) f) proven

  reconcile_pushed-Good :
      (l : Ledger) (commit : String)
      → l.runs ≡ runs
      → l.tasks ≡ tasks
      → p.matches commit ≡ true
      → Good (reconcile_pushed run task base resume p now l commit)
  unfolding reconcile_pushed publication_update
  reconcile_pushed-Good l commit e f m =
      Good-effect p.push _ _ (λ text. Ends.kept e f)
        (λ u.
          Good-if (same_text p.remote_after (some commit)) _ _
            (λ h.
              conclude-Good _ commit p.remote_after e f
                (record { matching = m; shown = ground (arith, h) }))
            (λ h. Ends.kept e f))

  reconcile_remote-Good :
      (l : Ledger) (commit : String)
      → l.runs ≡ runs
      → l.tasks ≡ tasks
      → p.matches commit ≡ true
      → Good (reconcile_remote run task base resume p now l commit)
  unfolding reconcile_remote publication_update
  reconcile_remote-Good l commit e f m =
      Good-option (filled task.payload.publication.remote_url) _ _ (Ends.kept e f) (λ url.
        Good-if (same_text p.remote_before (some commit)) _ _
          (λ h.
            conclude-Good _ commit p.remote_before e f
              (record { matching = m; shown = ground (arith, h) }))
          (λ h.
            Good-if resume _ _
              (λ r.
                Good-if (same_text p.remote_before none || same_text p.remote_before (some base)) _
                  _ (λ q. reconcile_pushed-Good l commit e f m) (λ q. Ends.kept e f))
              (λ r. Ends.kept e f)))

  reconcile_proven-Good :
      (l : Ledger) (commit : String)
      → l.runs ≡ runs
      → l.tasks ≡ tasks
      → Good (reconcile_proven run task base resume p now l commit)
  unfolding reconcile_proven
  reconcile_proven-Good l commit e f =
      Good-if (p.matches commit) _ _ (λ m. by_kind m task.payload.publication.kind refl)
        (λ m. Ends.kept e f)
    where
      by_kind :
          p.matches commit ≡ true
          → (k : PublicationKind) → task.payload.publication.kind ≡ k
          → Good (elim k as (λ c. Ledger × Reconciled) [
            | PublicationKind.git_local ↦ conclude run task base resume p now l commit none
            | _ ↦ reconcile_remote run task base resume p now l commit
          ])
      by_kind m PublicationKind.git_local h =
          conclude-Good l commit none e f (record { matching = m; shown = ground (arith, h) })
      by_kind m _ h = reconcile_remote-Good l commit e f m

  reconcile_committed-Good :
      (l : Ledger) (status : PublicationStatus) (commit : String) (head : Option String)
      → l.runs ≡ runs
      → l.tasks ≡ tasks
      → Good (reconcile_committed run task base resume p now l status commit head)
  unfolding reconcile_committed publication_update
  reconcile_committed-Good l status commit head e f =
      Good-if (same_text head (some commit)) _ _
        (λ h.
          Good-if (is_committed status) _ _ (λ s. reconcile_proven-Good l commit e f)
            (λ s. reconcile_proven-Good _ commit e f))
        (λ h. Ends.kept e f)

  reconcile_prepared-Good :
      (l : Ledger) (status : PublicationStatus) (commit : String) (head : Option String)
      → l.runs ≡ runs
      → l.tasks ≡ tasks
      → Good (reconcile_prepared run task base resume p now l status commit head)
  unfolding reconcile_prepared publication_update
  reconcile_prepared-Good l status commit head e f =
      Good-if (same_text head (some base)) _ _
        (λ h.
          Good-if p.staged _ _
            (λ s.
              Good-effect p.guard_prepared _ _ (λ text. Ends.kept e f)
                (λ u.
                  Good-if resume _ _
                    (λ r.
                      Good-effect p.move_branch _ _ (λ text. Ends.kept e f)
                        (λ v.
                          reconcile_committed-Good _ PublicationStatus.committed commit
                            (some commit) e f))
                    (λ r. Ends.kept e f)))
            (λ s. Ends.kept e f))
        (λ h. reconcile_committed-Good l status commit head e f)

  reconcile_staged-Good :
      (l : Ledger) (status : PublicationStatus)
      → l.runs ≡ runs
      → l.tasks ≡ tasks
      → Good (reconcile_staged run task base resume p now l status)
  unfolding reconcile_staged publication_update
  reconcile_staged-Good l status e f =
      Good-if (same_text p.head (some base)) _ _
        (λ h.
          Good-if p.staged _ _
            (λ s.
              Good-effect p.guard_staged _ _ (λ text. Ends.kept e f)
                (λ u.
                  Good-if resume _ _
                    (λ r.
                      Good-effect p.prepare _ _ (λ text. Ends.kept e f)
                        (λ commit.
                          reconcile_prepared-Good _ PublicationStatus.prepared commit p.head e f))
                    (λ r. Ends.kept e f)))
            (λ s.
              Good-if (p.staging_empty && is_intent status) _ _ (λ q. Ends.kept e f)
                (λ q. Ends.kept e f)))
        (λ h. Ends.kept e f)

  pub reconcile_row-Good :
      (l : Ledger) (row : Publication)
      → l.runs ≡ runs
      → l.tasks ≡ tasks
      → Good (reconcile_row run task base resume p now l row)
  unfolding reconcile_row publication_update
  reconcile_row-Good l row e f =
      Good-option (filled row.commit_id) _ _
        (Good-option (found_head run task base resume p now) _ _
          (reconcile_staged-Good l row.status e f)
          (λ head. reconcile_prepared-Good _ PublicationStatus.committed head p.head e f))
        (λ commit.
          Good-if (p.matches commit) _ _
            (λ m. reconcile_prepared-Good l row.status commit p.head e f) (λ m. Ends.kept e f))

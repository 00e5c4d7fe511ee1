-- ===== src/Publication/Ends.antt =====
-- How the phases of `publish` end.
use orch_kit.Prelude.{
  eq_iff, ℕ, String, ◌≡◌, refl, ap, Bool, true, false, Option, none, some, List, update,
  if◌then◌else◌,
}
use orch_kit.Result.{Result, ok, err}
use orch_kit.Ledger.{
  TaskStatus, Run, Task, Manifest, PublicationKind, PublicationStatus, Ledger, run_key, task_key,
  with_status, same_text,
}
use orch_kit.Completion.{completed_at}
use orch_kit.Publication.Defs.{
  Effect, raises, happens, PublishProbe, Published, phase_of, publication_update,
  publication_intent, finalize_publication, check_publication, fail_publication, confirm_remote,
  publish_remote, publish_commit, publish_staged, publish_phases, publish_new,
}

abbrev pub is_remote : PublicationKind → Bool
is_remote PublicationKind.git = true
is_remote _ = false

abbrev pub is_finished : Published → Bool
is_finished (Published.finished commit remote) = true
is_finished _ = false

-- How a commit was published: on this machine only, or by a push behind which the remote had it.
pub data Shown (kind : PublicationKind) (p : PublishProbe) (commit : String)
    (remote : Option String) : Type 0 where
  locally : is_remote kind ≡ false → remote ≡ none → Shown kind p commit remote
  pushed :
      kind ≡ PublicationKind.git
      → p.push ≡ happens tt
      → p.remote_commit ≡ some commit
      → remote ≡ some commit
      → Shown kind p commit remote

-- The end of a publication that started from these runs and tasks.
pub data Ends (runs : List Run) (tasks : List Task) (run : Run) (task : Task) (p : PublishProbe)
    (now : ℕ) (x : Ledger × Published) : Type 0 where
  kept :
      is_finished x.1 ≡ false
      → x.0.runs ≡ runs
      → x.0.tasks ≡ tasks
      → Ends runs tasks run task p now x
  completed :
      (commit : String) (remote : Option String)
      → p.commit ≡ happens commit
      → x.1 ≡ Published.finished (some commit) remote
      → x.0.runs ≡ update run_key run.run_id (completed_at now) runs
      → x.0.tasks ≡ update task_key run.task_id (with_status TaskStatus.done now) tasks
      → Shown task.payload.publication.kind p commit remote
      → Ends runs tasks run task p now x

same_text-eq : (o : Option String) (s : String) → same_text o (some s) ≡ true → o ≡ some s
same_text-eq none s h = cc
same_text-eq (some t) s h = ap some ((eq_iff t s).0 h)

module _ (run : Run) (task : Task) (p : PublishProbe) (now : ℕ) (runs : List Run)
    (tasks : List Task) where
  Ends-effect {ℓ} :
      {A : Type ℓ} (e : Effect A) (f : String → Ledger × Published) (g : A → Ledger × Published)
      → ((text : String) → Ends runs tasks run task p now (f text))
      → ((a : A) → e ≡ happens a → Ends runs tasks run task p now (g a))
      → Ends runs tasks run task p now (elim e [ raises text ↦ f text | happens a ↦ g a ])
  Ends-effect (raises text) f g a b = a text
  Ends-effect (happens x) f g a b = b x refl

  fail_publication-Ends :
      (l : Ledger) (phase : PublicationStatus) (text : String)
      → l.runs ≡ runs
      → l.tasks ≡ tasks
      → Ends runs tasks run task p now (fail_publication l run.run_id phase text now)
  unfolding fail_publication publication_update
  fail_publication-Ends l phase text e f = Ends.kept refl e f

  finalize_publication-Ends :
      (l : Ledger) (commit : String) (remote : Option String)
      → p.commit ≡ happens commit
      → l.runs ≡ runs
      → l.tasks ≡ tasks
      → Shown task.payload.publication.kind p commit remote
      → Ends runs tasks run task p now (
        finalize_publication l run.run_id run.task_id commit remote now,
        Published.finished (some commit) remote,
      )
  unfolding finalize_publication
  finalize_publication-Ends l commit remote made e f shown =
      Ends.completed commit remote made refl (ap (update run_key run.run_id (completed_at now)) e)
        (ap (update task_key run.task_id (with_status TaskStatus.done now)) f) shown

  confirm_remote-Ends :
      (l : Ledger) (commit : String)
      → p.commit ≡ happens commit
      → task.payload.publication.kind ≡ PublicationKind.git
      → p.push ≡ happens tt
      → l.runs ≡ runs
      → l.tasks ≡ tasks
      → Ends runs tasks run task p now (confirm_remote run task p now l commit)
  unfolding confirm_remote publication_update
  confirm_remote-Ends l commit made git sent e f = go (same_text p.remote_commit (some commit)) refl
    where
      go :
          (b : Bool)
          → same_text p.remote_commit (some commit) ≡ b
          → Ends runs tasks run task p now (
              if b
              then (
                finalize_publication
                    (publication_update l run.run_id
                      (record (phase_of PublicationStatus.remote_verified) {
                        commit_id = some commit;
                        remote_commit = p.remote_commit;
                      })
                      now)
                    run.run_id
                    run.task_id
                    commit
                    p.remote_commit
                    now,
                Published.finished (some commit) p.remote_commit,
              )
              else fail_publication l run.run_id PublicationStatus.pushed
                  "ValueError:remote_verification_failed" now)
      go true h =
          let shown = same_text-eq p.remote_commit commit h in
          finalize_publication-Ends _ commit p.remote_commit made e f
            (Shown.pushed git sent shown shown)
      go false h = fail_publication-Ends l _ _ e f

  publish_remote-Ends :
      (l : Ledger) (commit : String)
      → p.commit ≡ happens commit
      → l.runs ≡ runs
      → l.tasks ≡ tasks
      → Ends runs tasks run task p now (publish_remote run task p now l commit)
  unfolding publish_remote publication_update
  publish_remote-Ends l commit made e f =
      go task.payload.publication.kind task.payload.publication.remote_url refl
    where
      sent : Ledger
      sent =
          publication_update l run.run_id
            (record (phase_of PublicationStatus.pushed) { commit_id = some commit }) now

      at : Ledger × Published
      at =
          fail_publication l run.run_id PublicationStatus.committed
            "ValueError:publication_remote_url_missing" now

      pushes : Ledger × Published
      pushes = elim p.push [
        | raises text ↦ fail_publication l run.run_id PublicationStatus.committed text now
        | happens u ↦ confirm_remote run task p now sent commit
      ]

      locally : Ledger × Published
      locally = (
        finalize_publication l run.run_id run.task_id commit none now,
        Published.finished (some commit) none,
      )

      go :
          (k : PublicationKind) (url : Option String)
          → task.payload.publication.kind ≡ k
          → Ends runs tasks run task p now (elim k as (λ x. Ledger × Published) [
            | PublicationKind.git ↦ elim url as (λ x. Ledger × Published) [
              | none ↦ at
              | some u ↦ pushes
            ]
            | _ ↦ locally
          ])
      go PublicationKind.git none h = fail_publication-Ends l _ _ e f
      go PublicationKind.git (some url) h =
          Ends-effect p.push _ _ (λ text. fail_publication-Ends l _ text e f)
            (λ u done. confirm_remote-Ends sent commit made h done e f)
      go PublicationKind.git_local url h =
          finalize_publication-Ends l commit none made e f (Shown.locally (ap is_remote h) refl)
      go PublicationKind.no_publication url h =
          finalize_publication-Ends l commit none made e f (Shown.locally (ap is_remote h) refl)

  pub publish_new-Ends :
      (l : Ledger) (manifest : Manifest)
      → l.runs ≡ runs
      → l.tasks ≡ tasks
      → Ends runs tasks run task p now (publish_new run task p now l manifest)
  unfolding publish_new publish_phases publish_staged publish_commit publication_update
      publication_intent
  publish_new-Ends l manifest e f = go (check_publication l run task manifest p)
    where
      go :
          (r : Result String)
          → Ends runs tasks run task p now (elim r as (λ x. Ledger × Published) [
            | err e ↦ (l, Published.refused e)
            | ok base ↦
                publish_phases run task p now
                  (publication_intent l run.run_id p.operation_id task.payload.publication.kind
                    (some base)
                    now)
                  manifest
          ])
      go (err x) = Ends.kept refl e f
      go (ok base) =
          Ends-effect p.add _ _ (λ text. fail_publication-Ends _ _ text e f)
            (λ u added.
              Ends-effect p.commit _ _ (λ text. fail_publication-Ends _ _ text e f)
                (λ commit made.
                  Ends-effect p.move_branch _ _ (λ text. fail_publication-Ends _ _ text e f)
                    (λ v moved. publish_remote-Ends _ commit made e f)))

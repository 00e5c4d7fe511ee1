-- ===== src/Publication/Defs.antt =====
-- A publication writes its phase before and behind each effect on the repository, each write a
-- transaction of its own. What git answers is a value here; an effect that raises gives the text that the
-- source records.
use orch_kit.Prelude.{
  ℕ, String, Bool, true, false, not, ◌||◌, Option, none, some, List, [], ◌∷◌, or_else, find, update,
  delete, put, if◌then◌else◌,
}
use mathlib.Core.List.{map}
use orch_kit.Result.{
  Result, ok, err, Error, ◌>>=◌, ◌>>◌, guard, require, run_not_verified, unknown_task,
  publication_reconciliation_required, owner_approval_missing_or_stale,
  git_publication_not_configured, nothing_to_publish, publication_branch_mismatch,
  publication_expected_base_missing, publication_base_changed, preexisting_staging_not_empty,
}
use orch_kit.Ledger.{
  TaskStatus, Run, Task, Manifest, FileRecord, Publication, PublicationKind, PublicationStatus,
  EventKind, Ledger, find_run, find_task, set_run, set_status, add_event, is_verified, is_approved,
  same_text,
}
use orch_kit.Completion.{assert_snapshot_current, publishes, completed_at}

pub data Effect {ℓ} (A : Type ℓ) : Type ℓ where
  raises : String → Effect A
  happens : A → Effect A

pub record PublishProbe : Type 0 where
  pub unfiltered : Result (Unit {0})
  pub branch : Option String
  pub head : Option String
  pub staging_empty : Bool
  pub workspace : Result (Unit {0})
  pub operation_id : String
  pub add : Effect (Unit {0})
  pub commit : Effect String
  pub move_branch : Effect (Unit {0})
  pub push : Effect (Unit {0})
  pub remote_commit : Option String

pub data Published : Type 0 where
  finished : Option String → Option String → Published
  refused : Error → Published
  failed : PublicationStatus → String → Published

abbrev pub publication_key : Publication → String
publication_key p = p.run_id

-- The arguments of an update of a publication's row.
pub record Change : Type 0 where
  pub status : PublicationStatus
  pub staged_paths : Option (List String)
  pub commit_id : Option String
  pub remote_commit : Option String
  pub error : Option String

abbrev pub phase_of : PublicationStatus → Change
phase_of s = record {
  status = s;
  staged_paths = none;
  commit_id = none;
  remote_commit = none;
  error = none;
}

abbrev pub changed : Change → ℕ → Publication → Publication
changed c now p = record p {
  status = c.status;
  staged_paths = elim c.staged_paths [ none ↦ p.staged_paths | some paths ↦ some paths ];
  commit_id = or_else c.commit_id p.commit_id;
  remote_commit = or_else c.remote_commit p.remote_commit;
  error = c.error;
  updated_at = now;
}

-- `_publication_update` on a row that is there.
unfoldable pub publication_update : Ledger → String → Change → ℕ → Ledger
publication_update l run_id c now = record l {
  publications = update publication_key run_id (changed c now) l.publications;
}

-- `_publication_update` with an operation id and a kind, on a row that is not there.
unfoldable pub publication_intent :
    Ledger → String → String → PublicationKind → Option String → ℕ → Ledger
publication_intent l run_id operation_id kind base now = record l {
  publications =
      put publication_key
        (record {
          run_id = run_id;
          operation_id = operation_id;
          kind = kind;
          status = PublicationStatus.intent;
          expected_base = base;
          staged_paths = none;
          commit_id = none;
          remote_commit = none;
          error = none;
          updated_at = now;
        })
        l.publications;
}

-- `_finalize_publication`
unfoldable pub finalize_publication : Ledger → String → String → String → Option String → ℕ → Ledger
finalize_publication l run_id task_id commit_id remote_commit now =
    let closed : Publication → Publication = λ p. record p {
      status = PublicationStatus.complete;
      commit_id = some commit_id;
      remote_commit = remote_commit;
      error = none;
      updated_at = now;
    } in
    add_event now (EventKind.published commit_id remote_commit) (some task_id) (some run_id) (
      set_status task_id TaskStatus.done now (
        set_run run_id (completed_at now)
          (record l { publications = update publication_key run_id closed l.publications })))

abbrev pub has_files : Manifest → Bool
has_files m = elim m.files [ [] ↦ false | f ∷ fs ↦ true ]

-- The tests in front of the intent; the result is the base.
unfoldable pub check_publication : Ledger → Run → Task → Manifest → PublishProbe → Result String
check_publication l run task manifest p = do
  guard (not task.payload.owner_acceptance || is_approved l run) owner_approval_missing_or_stale
  guard (publishes task.payload.publication.kind) git_publication_not_configured
  guard (has_files manifest) nothing_to_publish
  p.unfiltered
  guard (same_text p.branch (or_else task.payload.publication.branch (some "main")))
      publication_branch_mismatch
  base ←
      require (or_else task.payload.publication.expected_base manifest.git_head)
        publication_expected_base_missing
  guard (same_text p.head (some base)) publication_base_changed
  guard p.staging_empty preexisting_staging_not_empty
  p.workspace
  ok base

-- The phase and the error that the handler writes before it raises again.
unfoldable pub fail_publication :
    Ledger → String → PublicationStatus → String → ℕ → Ledger × Published
unfolding publication_update
fail_publication l run_id phase text now = (
  publication_update l run_id (record (phase_of phase) { error = some text }) now,
  Published.failed phase text,
)

module _ (run : Run) (task : Task) (p : PublishProbe) (now : ℕ) where
  -- Behind the check of the remote: the last update and the finalisation.
  unfoldable pub confirm_remote : Ledger → String → Ledger × Published
  unfolding publication_update finalize_publication fail_publication
  confirm_remote l commit =
      if same_text p.remote_commit (some commit)
      then (
        finalize_publication
            (publication_update l run.run_id
              (record (phase_of PublicationStatus.remote_verified) {
                commit_id = some commit;
                remote_commit = p.remote_commit;
              })
              now)
            run.run_id run.task_id commit p.remote_commit now,
        Published.finished (some commit) p.remote_commit,
      )
      else fail_publication l run.run_id PublicationStatus.pushed
          "ValueError:remote_verification_failed" now

  -- Behind the move of the branch. Only the kind `git` pushes.
  unfoldable pub publish_remote : Ledger → String → Ledger × Published
  unfolding publication_update finalize_publication fail_publication confirm_remote
  publish_remote l commit = elim task.payload.publication.kind [
    | PublicationKind.git ↦ elim task.payload.publication.remote_url [
      | none ↦
          fail_publication l run.run_id PublicationStatus.committed
            "ValueError:publication_remote_url_missing" now
      | some url ↦ elim p.push [
        | raises text ↦ fail_publication l run.run_id PublicationStatus.committed text now
        | happens u ↦
            confirm_remote
              (publication_update l run.run_id
                (record (phase_of PublicationStatus.pushed) { commit_id = some commit }) now)
              commit
      ]
    ]
    | _ ↦ (
      finalize_publication l run.run_id run.task_id commit none now,
      Published.finished (some commit) none,
    )
  ]

  -- Behind the commit object.
  unfoldable pub publish_commit : Ledger → String → Ledger × Published
  unfolding publication_update fail_publication publish_remote
  publish_commit l commit = elim p.move_branch [
    | raises text ↦ fail_publication l run.run_id PublicationStatus.prepared text now
    | happens u ↦
        publish_remote
          (publication_update l run.run_id
            (record (phase_of PublicationStatus.committed) { commit_id = some commit }) now)
          commit
  ]

  -- Behind the staging.
  unfoldable pub publish_staged : Ledger → Ledger × Published
  unfolding publication_update fail_publication publish_commit
  publish_staged l = elim p.commit [
    | raises text ↦ fail_publication l run.run_id PublicationStatus.staged text now
    | happens commit ↦
        publish_commit
          (publication_update l run.run_id
            (record (phase_of PublicationStatus.prepared) { commit_id = some commit }) now)
          commit
  ]

  -- Behind the intent.
  unfoldable pub publish_phases : Ledger → Manifest → Ledger × Published
  unfolding publication_update fail_publication publish_staged
  publish_phases l manifest = elim p.add [
    | raises text ↦ fail_publication l run.run_id PublicationStatus.intent text now
    | happens u ↦ publish_staged (
        publication_update l run.run_id
          (record (phase_of PublicationStatus.staged) {
            staged_paths = some (map (λ (f : FileRecord). f.path) manifest.files);
          })
          now)
  ]

  -- Where no row of the run stands in the way.
  unfoldable pub publish_new : Ledger → Manifest → Ledger × Published
  unfolding check_publication publication_intent publish_phases
  publish_new l manifest = elim (check_publication l run task manifest p) [
    | err e ↦ (l, Published.refused e)
    | ok base ↦
        publish_phases
          (publication_intent l run.run_id p.operation_id task.payload.publication.kind (some base)
            now)
          manifest
  ]

-- The run, its task and its manifest, if the run is verified and its snapshot current.
unfoldable pub verified_run : Ledger → String → Result (Unit {0}) → Result (Run × Task × Manifest)
unfolding assert_snapshot_current
verified_run l run_id current = do
  run ← require (find_run l run_id) run_not_verified
  guard (is_verified run.state) run_not_verified
  task ← require (find_task l run.task_id) unknown_task
  manifest ← assert_snapshot_current l run current
  ok (run, task, manifest)

unfoldable pub publish : Ledger → String → Result (Unit {0}) → PublishProbe → ℕ → Ledger × Published
unfolding verified_run publish_new
publish l run_id current p now = elim (verified_run l run_id current) [
  | err e ↦ (l, Published.refused e)
  | ok (run, task, manifest) ↦ elim (find publication_key run_id l.publications) [
    | none ↦ publish_new run task p now l manifest
    | some row ↦ elim row.status [
      | PublicationStatus.complete ↦ (l, Published.finished row.commit_id row.remote_commit)
      | PublicationStatus.abandoned ↦
          publish_new run task p now
            (record l { publications = delete publication_key run_id l.publications }) manifest
      | _ ↦ (l, Published.refused publication_reconciliation_required)
    ]
  ]
]

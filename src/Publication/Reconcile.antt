-- ===== src/Publication/Reconcile.antt =====
-- `reconcile_publication`: from the row of a publication that was interrupted and from what git shows, go
-- on, or say what is in the way.
use orch_kit.Prelude.{
  ℕ, String, Bool, true, false, not, ◌&&◌, ◌||◌, Option, none, some, or_else, find, ◌==◌,
  if◌then◌else◌,
}
use orch_kit.Result.{Error, unknown_run, unknown_task, snapshot_missing}
use orch_kit.Ledger.{
  Run, Task, Manifest, Publication, PublicationKind, PublicationStatus, Ledger, find_run, find_task,
  find_manifest, same_text,
}
use orch_kit.Publication.Defs.{
  Effect, raises, happens, publication_key, phase_of, publication_update, finalize_publication,
}

pub record ReconcileProbe : Type 0 where
  pub head : Option String
  pub staged : Bool
  pub staging_empty : Bool
  -- `_commit_matches_snapshot`
  pub matches : String → Bool
  pub guard_staged : Effect (Unit {0})
  pub prepare : Effect String
  pub guard_prepared : Effect (Unit {0})
  pub move_branch : Effect (Unit {0})
  pub remote_before : Option String
  pub push : Effect (Unit {0})
  pub remote_after : Option String

pub data Reconciled : Type 0 where
  no_publication safe_to_retry staged_pending_commit : Reconciled
  prepared_pending_ref_update : String → Reconciled
  remote_pending : String → Option String → Reconciled
  finished : Option String → Option String → Reconciled
  blocked : String → Reconciled
  refused : Error → Reconciled

-- The values for which a text is true.
abbrev pub filled : Option String → Option String
filled none = none
filled (some s) = if s == "" then none else some s

abbrev pub is_intent : PublicationStatus → Bool
is_intent PublicationStatus.intent = true
is_intent _ = false

abbrev pub is_committed : PublicationStatus → Bool
is_committed PublicationStatus.committed = true
is_committed _ = false

abbrev pub with_commit : PublicationStatus → String → Ledger → String → ℕ → Ledger
unfolding publication_update
with_commit s commit l run_id now =
    publication_update l run_id (record (phase_of s) { commit_id = some commit }) now

module _ (run : Run) (task : Task) (base : String) (resume : Bool) (p : ReconcileProbe)
    (now : ℕ) where
  abbrev pub conclude : Ledger → String → Option String → Ledger × Reconciled
  unfolding finalize_publication
  conclude l commit remote = (
    finalize_publication l run.run_id run.task_id commit remote now,
    Reconciled.finished (some commit) remote,
  )

  abbrev pub show_remote : Ledger → String → Option String → Ledger × Reconciled
  unfolding publication_update finalize_publication
  show_remote l commit remote =
      conclude
        (publication_update l run.run_id
          (record (phase_of PublicationStatus.remote_verified) {
            commit_id = some commit;
            remote_commit = remote;
          })
          now)
        commit remote

  -- Behind the push.
  unfoldable pub reconcile_pushed : Ledger → String → Ledger × Reconciled
  unfolding publication_update finalize_publication
  reconcile_pushed l commit = elim p.push [
    | raises text ↦ (
      publication_update l run.run_id
          (record (phase_of PublicationStatus.committed) {
            commit_id = some commit;
            error = some text;
          })
          now,
      Reconciled.blocked "git_push_failed",
    )
    | happens u ↦ elim (same_text p.remote_after (some commit)) [
      | true ↦
          show_remote (with_commit PublicationStatus.pushed commit l run.run_id now) commit
            p.remote_after
      | false ↦ (
        with_commit PublicationStatus.pushed commit l run.run_id now,
        Reconciled.blocked "remote_verification_failed",
      )
    ]
  ]

  -- Behind the proof of the commit, for a remote.
  unfoldable pub reconcile_remote : Ledger → String → Ledger × Reconciled
  unfolding reconcile_pushed publication_update finalize_publication
  reconcile_remote l commit = elim (filled task.payload.publication.remote_url) [
    | none ↦ (l, Reconciled.blocked "publication_remote_url_missing")
    | some url ↦ elim (same_text p.remote_before (some commit)) [
      | true ↦ show_remote l commit p.remote_before
      | false ↦ elim resume [
        | false ↦ (l, Reconciled.remote_pending commit p.remote_before)
        | true ↦ elim (same_text p.remote_before none || same_text p.remote_before (some base)) [
          | false ↦ (l, Reconciled.blocked "remote_advanced")
          | true ↦ reconcile_pushed l commit
        ]
      ]
    ]
  ]

  -- Behind the test that the branch stands at the commit.
  unfoldable pub reconcile_proven : Ledger → String → Ledger × Reconciled
  unfolding reconcile_remote finalize_publication
  reconcile_proven l commit = elim (p.matches commit) [
    | false ↦ (l, Reconciled.blocked "commit_not_proven")
    | true ↦ elim task.payload.publication.kind [
      | PublicationKind.git_local ↦ conclude l commit none
      | _ ↦ reconcile_remote l commit
    ]
  ]

  unfoldable pub reconcile_committed :
      Ledger → PublicationStatus → String → Option String → Ledger × Reconciled
  unfolding reconcile_proven publication_update
  reconcile_committed l status commit head = elim (same_text head (some commit)) [
    | false ↦ (l, Reconciled.blocked "publication_base_changed")
    | true ↦ elim (is_committed status) [
      | true ↦ reconcile_proven l commit
      | false ↦
          reconcile_proven (with_commit PublicationStatus.committed commit l run.run_id now) commit
    ]
  ]

  -- With a commit, where the branch may still stand at the base.
  unfoldable pub reconcile_prepared :
      Ledger → PublicationStatus → String → Option String → Ledger × Reconciled
  unfolding reconcile_committed publication_update
  reconcile_prepared l status commit head = elim (same_text head (some base)) [
    | false ↦ reconcile_committed l status commit head
    | true ↦ elim p.staged [
      | false ↦ (l, Reconciled.blocked "unexpected_staging_state")
      | true ↦ elim p.guard_prepared [
        | raises text ↦ (l, Reconciled.blocked text)
        | happens u ↦ elim resume [
          | false ↦ (l, Reconciled.prepared_pending_ref_update commit)
          | true ↦ elim p.move_branch [
            | raises text ↦ (l, Reconciled.blocked "publication_base_changed_during_commit")
            | happens v ↦
                reconcile_committed
                  (with_commit PublicationStatus.committed commit l run.run_id now)
                  PublicationStatus.committed commit (some commit)
          ]
        ]
      ]
    ]
  ]

  -- Without a commit.
  unfoldable pub reconcile_staged : Ledger → PublicationStatus → Ledger × Reconciled
  unfolding reconcile_prepared publication_update
  reconcile_staged l status = elim (same_text p.head (some base)) [
    | false ↦ (l, Reconciled.blocked "commit_not_proven")
    | true ↦ elim p.staged [
      | false ↦ elim (p.staging_empty && is_intent status) [
        | true ↦ (
          publication_update l run.run_id (phase_of PublicationStatus.abandoned) now,
          Reconciled.safe_to_retry,
        )
        | false ↦ (l, Reconciled.blocked "unexpected_staging_state")
      ]
      | true ↦ elim p.guard_staged [
        | raises text ↦ (l, Reconciled.blocked text)
        | happens u ↦ elim resume [
          | false ↦ (l, Reconciled.staged_pending_commit)
          | true ↦ elim p.prepare [
            | raises text ↦ (
              publication_update l run.run_id
                  (record (phase_of PublicationStatus.staged) { error = some text }) now,
              Reconciled.blocked "commit_prepare_failed",
            )
            | happens commit ↦
                reconcile_prepared (with_commit PublicationStatus.prepared commit l run.run_id now)
                  PublicationStatus.prepared commit p.head
          ]
        ]
      ]
    ]
  ]

  -- A head that is not the base and matches the snapshot is the commit.
  abbrev pub found_head : Option String
  found_head = elim (filled p.head) [
    | none ↦ none
    | some head ↦ if not (head == base) && p.matches head then some head else none
  ]

  unfoldable pub reconcile_row : Ledger → Publication → Ledger × Reconciled
  unfolding reconcile_staged reconcile_prepared publication_update
  reconcile_row l row = elim (filled row.commit_id) [
    | some commit ↦ elim (p.matches commit) [
      | false ↦ (l, Reconciled.blocked "commit_not_proven")
      | true ↦ reconcile_prepared l row.status commit p.head
    ]
    | none ↦ elim found_head [
      | some head ↦
          reconcile_prepared (with_commit PublicationStatus.committed head l run.run_id now)
            PublicationStatus.committed head p.head
      | none ↦ reconcile_staged l row.status
    ]
  ]

abbrev pub base_of : Publication → Task → Manifest → Option String
base_of row task manifest =
    or_else (filled row.expected_base)
      (or_else (filled task.payload.publication.expected_base) (filled manifest.git_head))

abbrev pub is_finished : PublicationStatus → Bool
is_finished PublicationStatus.complete = true
is_finished _ = false

unfoldable pub reconcile_publication :
    Ledger → String → Bool → ReconcileProbe → ℕ → Ledger × Reconciled
unfolding reconcile_row find
reconcile_publication l run_id resume p now = elim (find publication_key run_id l.publications) [
  | none ↦ (l, Reconciled.no_publication)
  | some row ↦ elim (find_run l run_id) [
    | none ↦ (l, Reconciled.refused unknown_run)
    | some run ↦ elim (find_task l run.task_id) [
      | none ↦ (l, Reconciled.refused unknown_task)
      | some task ↦ elim (find_manifest l run.snapshot_id) [
        | none ↦ (l, Reconciled.refused snapshot_missing)
        | some manifest ↦ elim (is_finished row.status) [
          | true ↦ (l, Reconciled.finished row.commit_id row.remote_commit)
          | false ↦ elim (base_of row task manifest) [
            | none ↦ (l, Reconciled.blocked "publication_expected_base_missing")
            | some base ↦ reconcile_row run task base resume p now l row
          ]
        ]
      ]
    ]
  ]
]

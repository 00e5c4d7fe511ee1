-- ===== src/Claim/Repair.antt =====
-- `_repair_claim_guard`: a new attempt on the snapshot of an attempt that a review sent back. What
-- it reads in the ledger is modelled; what it reads of the workspace is two outcomes, `binding` for
-- the manifest's own consistency and `sources` for the files, the receipt, the index and the checks.
use Prim.Native.String.{◌++◌ as append_text}
use orch_kit.Prelude.{
  ℕ, String, ◌||◌, leb, is_digit, match_between, truncate, drop, codes, Bool, true, false, not,
  ◌&&◌, Option, none, some, List, [], ◌∷◌, ◌==◌, ltb, find, any, if◌then◌else◌,
}
use orch_kit.Ledger.{
  TaskStatus, Task, Run, Snapshot, Manifest, Event, EventKind, VerifyStatus, Verdict, Capability,
  Publication, PublicationStatus, Ledger, find_run, find_task, same_text, is_needs_fix,
}
use orch_kit.Claim.Check.{Check, pass, refuse, ◌>>=◌, ◌>>◌, ensure, expect}
use orch_kit.Claim.Guards.{Identity}

pub record RepairProbe : Type 0 where
  pub binding : Check (Unit {0})
  pub sources : Check (Unit {0})

-- ORDER BY attempt DESC LIMIT 1
unfoldable pub latest_of : String → List Run → Option Run
latest_of task_id [] = none
latest_of task_id (r ∷ rs) =
    let later = latest_of task_id rs in
    if r.task_id == task_id
    then elim later [ none ↦ some r | some s ↦ if ltb r.attempt s.attempt then some s else some r ]
    else later

abbrev pub is_pass : Option VerifyStatus → Bool
is_pass (some VerifyStatus.pass) = true
is_pass _ = false

-- [0-9a-f]
abbrev pub is_hex : ℕ → Bool
is_hex c = is_digit c || (leb b'a' c && leb c b'f')

abbrev pub is_the : String → Option Run → Bool
is_the run_id none = false
is_the run_id (some r) = r.run_id == run_id

-- sha256:[0-9a-f]{64}
unfoldable pub is_digest : String → Bool
unfolding match_between
is_digest s = truncate 7 s == "sha256:" && match_between is_hex 64 64 (drop 7 (codes s))

unfoldable pub find_snapshot : Ledger → Option String → Option Snapshot
find_snapshot l none = none
find_snapshot l (some id) = find (λ (s : Snapshot). s.snapshot_id) id l.snapshots

-- The task and the branch in the last RUN_CLAIMED event of the run, if there is such an event.
unfoldable pub claimed_branch : String → List Event → Option (Option String × Option String)
claimed_branch run_id [] = none
claimed_branch run_id (e ∷ es) = elim (claimed_branch run_id es) [
  | some b ↦ some b
  | none ↦ elim e.kind [
    | EventKind.run_claimed attempt head branch repair ↦
        if same_text e.run_id (some run_id) then some (e.task_id, branch) else none
    | _ ↦ none
  ]
]

-- The events of a task, the last one first.
unfoldable pub events_of : String → List Event → List Event → List Event
events_of task_id acc [] = acc
events_of task_id acc (e ∷ es) =
    events_of task_id (if same_text e.task_id (some task_id) then e ∷ acc else acc) es

abbrev pub first_file : Manifest → String
first_file m = elim m.files [ [] ↦ "" | f ∷ fs ↦ f.path ]

abbrev pub is_dirty_block : Manifest → EventKind → Bool
is_dirty_block m (EventKind.task_blocked_at_claim reason) =
    reason == append_text "claim_workspace_dirty:" (first_file m)
is_dirty_block m _ = false

abbrev pub is_sent_back : Option String → EventKind → Bool
is_sent_back snapshot_id (EventKind.review_imported Verdict.needs_fix reviewed) =
    same_text reviewed snapshot_id
is_sent_back snapshot_id _ = false

-- The last event blocked the task for its dirty workspace, right behind the review.
unfoldable pub blocked_by_repair : List Event → String → Manifest → Option String → Bool
blocked_by_repair (last ∷ previous ∷ rest) run_id m snapshot_id =
    is_dirty_block m last.kind
    && same_text previous.run_id (some run_id)
    && is_sent_back snapshot_id previous.kind
blocked_by_repair _ run_id m snapshot_id = false

unfoldable pub repair_status : Ledger → Task → String → Manifest → Option String → Check (Unit {0})
unfolding events_of blocked_by_repair
repair_status l task run_id m snapshot_id = elim task.status [
  | TaskStatus.blocked ↦
      ensure (blocked_by_repair (events_of task.task_id [] l.events) run_id m snapshot_id)
        "repair_task_not_dirty_claim_blocked"
  | TaskStatus.needs_fix ↦ pass tt
  | _ ↦ refuse "repair_task_not_needs_fix"
]

abbrev pub has_writer : Ledger → String → String → Bool
has_writer l writer_key run_id = elim (find_run l run_id) [
  | none ↦ false
  | some r ↦ elim (find_task l r.task_id) [ none ↦ false | some t ↦ t.writer_key == writer_key ]
]

abbrev pub is_pending : PublicationStatus → Bool
is_pending PublicationStatus.complete = false
is_pending PublicationStatus.abandoned = false
is_pending _ = true

abbrev pub is_known : Option String → Bool
is_known none = false
is_known (some s) = true

-- The commit and the branch are those of the earlier claim and of its snapshot.
unfoldable pub repair_identity : Ledger → Run → Manifest → String → Identity → Check (Unit {0})
unfolding claimed_branch
repair_identity l prior m task_id identity = do
  ensure (is_known prior.claim_git_head && is_known identity.head && is_known identity.branch)
      "repair_claim_git_identity_missing"
  ensure (same_text prior.claim_git_head identity.head && same_text m.git_head identity.head)
      "repair_snapshot_base_mismatch"
  (task, branch) ← expect (claimed_branch prior.run_id l.events) "repair_snapshot_branch_mismatch"
  ensure (is_known branch) "repair_claim_git_identity_missing"
  ensure (same_text task (some task_id) && same_text branch identity.branch)
      "repair_snapshot_branch_mismatch"

-- The earlier attempt and its snapshot.
unfoldable pub repair_prior : Ledger → Task → String → Check (Run × Snapshot)
unfolding latest_of find_snapshot is_digest
repair_prior l task prior_run_id = do
  prior ← expect (find_run l prior_run_id) "repair_run_not_latest"
  ensure ((prior.task_id == task.task_id) && is_the prior_run_id (latest_of task.task_id l.runs))
      "repair_run_not_latest"
  ensure (is_needs_fix prior.state && is_pass prior.verify_status)
      "repair_run_not_verified_needs_fix"
  snapshot_id ← expect prior.snapshot_id "repair_snapshot_missing"
  ensure (is_digest snapshot_id) "repair_snapshot_missing"
  snapshot ← expect (find_snapshot l prior.snapshot_id) "repair_snapshot_run_mismatch"
  ensure (snapshot.run_id == prior_run_id) "repair_snapshot_run_mismatch"
  pass (prior, snapshot)

unfoldable pub repair_claim_guard : Ledger → Task → String → Identity → RepairProbe → Check String
unfolding repair_prior repair_identity repair_status any
repair_claim_guard l task prior_run_id identity probe = do
  (prior, snapshot) ← repair_prior l task prior_run_id
  probe.binding
  repair_identity l prior snapshot.manifest task.task_id identity
  probe.sources
  ensure (not (any (λ (c : Capability). has_writer l task.writer_key c.run_id) l.capabilities))
      "repair_previous_capability_present"
  ensure
      (not (
        any (λ (p : Publication). is_pending p.status && has_writer l task.writer_key p.run_id)
          l.publications))
      "repair_publication_pending"
  repair_status l task prior_run_id snapshot.manifest prior.snapshot_id
  pass snapshot.snapshot_id

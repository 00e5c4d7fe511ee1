-- ===== src/Ledger/Rows.antt =====
-- The tables of `Orchestrator._initialize`, and the parts of a task's payload and of a snapshot's
-- manifest that the operations read. Times are numbers; JSON columns are the values they encode.
use orch_kit.Prelude.{ℕ, String, Bool, Option, List}
use orch_kit.Ledger.State.{RunState, TaskStatus}

pub data PublicationKind : Type 0 where
  no_publication git git_local : PublicationKind

pub record PublicationPolicy : Type 0 where
  pub kind : PublicationKind
  pub branch : Option String
  pub expected_base : Option String
  pub remote_url : Option String

pub data ReviewMode : Type 0 where
  off risk_based required : ReviewMode

-- What `normalize_review_policy` returns, less the reviewer and the placement.
pub record ReviewPolicy : Type 0 where
  pub mode : ReviewMode
  pub risk_tags : List String
  pub trigger_tags : List String
  pub sensitive_patterns : List String
  pub large_diff_files : ℕ
  pub large_diff_bytes : ℕ
  pub review_on_retry : Bool

pub record Payload : Type 0 where
  pub allowed_paths : List String
  pub protected_paths : List (String × String)
  pub dependencies : List String
  pub max_attempts : ℕ
  pub owner_acceptance : Bool
  pub publication : PublicationPolicy
  pub review : ReviewPolicy

pub record Task : Type 0 where
  pub task_id : String
  pub plan_revision : String
  pub ordinal : ℕ
  pub project_id : Option String
  pub writer_key : String
  pub queue_seq : ℕ
  pub status : TaskStatus
  pub payload : Payload
  pub updated_at : ℕ

pub record Receipt : Type 0 where
  pub run_id : String
  pub task_id : String
  pub changed_paths : List String
  pub sha256 : String
  pub bytes : ℕ

pub data Verdict : Type 0 where
  pass needs_fix blocked : Verdict

pub data VerifyStatus : Type 0 where
  pass fail blocked : VerifyStatus

pub data Feedback : Type 0 where
  verification_failure : String → Feedback
  verification_safety_block : String → Feedback
  review : Verdict → Option String → Feedback

pub record Run : Type 0 where
  pub run_id : String
  pub task_id : String
  pub attempt : ℕ
  pub worker_id : String
  pub state : RunState
  pub lease_token : String
  pub started_at : ℕ
  pub heartbeat_at : ℕ
  pub claim_git_head : Option String
  pub submitted_at : Option ℕ
  pub snapshot_id : Option String
  pub receipt : Option Receipt
  pub verify_status : Option VerifyStatus
  pub review_status : Option Verdict
  pub feedback : Option Feedback
  pub completed_at : Option ℕ
  pub error : Option String

pub record FileRecord : Type 0 where
  pub path : String
  pub deleted : Bool
  pub sha256 : Option String
  pub bytes : ℕ

pub record Manifest : Type 0 where
  pub files : List FileRecord
  pub git_head : Option String

pub record Snapshot : Type 0 where
  pub snapshot_id : String
  pub run_id : String
  pub manifest : Manifest
  pub created_at : ℕ

pub record Plan : Type 0 where
  pub plan_revision : String
  pub source_digest : String
  pub loaded_at : ℕ

pub record Approval : Type 0 where
  pub run_id : String
  pub snapshot_id : Option String
  pub approved_at : ℕ
  pub note : String

-- the value under the settings key `paused`
pub record Pause : Type 0 where
  pub reason : String
  pub paused_at : ℕ

-- the settings row `project_paused:<project_id>`
pub record ProjectPause : Type 0 where
  pub project_id : String
  pub reason : String
  pub paused_at : ℕ

-- the settings row `run_checkpoint:<run_id>`
pub record Checkpoint : Type 0 where
  pub run_id : String
  pub task_id : String
  pub reason : String
  pub process_active : Bool
  pub recorded_at : ℕ

pub data PublicationStatus : Type 0 where
  intent staged prepared committed pushed remote_verified complete abandoned : PublicationStatus

pub record Publication : Type 0 where
  pub run_id : String
  pub operation_id : String
  pub kind : PublicationKind
  pub status : PublicationStatus
  pub expected_base : Option String
  pub staged_paths : Option (List String)
  pub commit_id : Option String
  pub remote_commit : Option String
  pub error : Option String
  pub updated_at : ℕ

-- the file `claims/<run_id>.json`
pub record Capability : Type 0 where
  pub run_id : String
  pub lease_token : String

-- The kind of an event with the part of its payload that the model keeps.
pub data EventKind : Type 0 where
  plan_loaded : String → ℕ → EventKind
  task_blocked_max_attempts : ℕ → EventKind
  task_blocked_at_claim task_blocked_context : String → EventKind
  run_claimed : ℕ → Option String → Option String → Option String → EventKind
  run_capability_create_failed : String → EventKind
  worker_checkpoint_recorded : String → EventKind
  result_submitted : List String → EventKind
  cooperative_quiescence_confirmed : EventKind
  process_closure_acknowledged : EventKind
  verify_safety_block : String → EventKind
  verify_fail verify_pass : String → EventKind
  review_imported : Verdict → Option String → EventKind
  run_complete owner_approved : EventKind
  published : String → Option String → EventKind
  task_cancelled : TaskStatus → EventKind
  paused resumed : EventKind
  project_paused project_resumed : String → EventKind
  project_deregistered : String → Bool → EventKind
  run_aborted : Bool → EventKind

-- The row's `seq` is its place in the list.
pub record Event : Type 0 where
  pub at : ℕ
  pub kind : EventKind
  pub task_id : Option String
  pub run_id : Option String

pub record Ledger : Type 0 where
  pub plans : List Plan
  pub tasks : List Task
  pub runs : List Run
  pub snapshots : List Snapshot
  pub paused : Option Pause
  pub project_pauses : List ProjectPause
  pub checkpoints : List Checkpoint
  pub approvals : List Approval
  pub events : List Event
  pub publications : List Publication
  pub capabilities : List Capability

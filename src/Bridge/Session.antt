-- ===== src/Bridge/Session.antt =====
-- The sessions of orch/bridge_authorization.py: each routes to a run, and each use asks the ledger, the
-- capability file and the project again.
pub mod Live
pub mod Keep
pub mod Fence
use orch_kit.Prelude.{
  ℕ, ◌+◌, String, Bool, true, false, not, ◌&&◌, ◌||◌, Option, none, some, List, [], ◌∷◌, ◌++◌, ◌==◌,
  leb, ltb, nat_eq, any, find, delete, length, has_key, if◌then◌else◌,
}
use orch_kit.Result.{
  Result, ok, err, guard, require, ◌>>◌, ◌>>=◌, worker_operation_invalid, invalid_capability_file,
  invalid_capability_mode, capability_identity_mismatch, bridge_invalid_worker_session_limit,
  bridge_run_already_bound_locally, bridge_session_capacity_exhausted, bridge_session_id_collision,
  bridge_session_mismatch, bridge_session_unknown, bridge_capability_denied, bridge_run_unknown,
  bridge_run_scope_mismatch, bridge_run_not_active, bridge_stale_attempt,
  bridge_writer_not_exclusive, bridge_project_binding_denied,
}
use orch_kit.Json.{Json, Fields, get, has_keys}
use orch_kit.Ledger.{
  TaskStatus, Task, Run, Ledger, find_run, find_task, task_key, is_running, locks_writer,
}
use orch_kit.Worker.{RunBinding, validate_binding, same_binding}

-- What `read_bounded_json_object` returns of the capability file.
pub record CapabilityFile : Type 0 where
  pub held : Fields
  pub is_private : Bool

-- The two texts of the capability file.
abbrev pub lease_of : String → Fields → Result String
lease_of run_id held = elim (get "lease_token" held) [
  | some (Json.text lease) ↦
      if has_keys ("run_id" ∷ "lease_token" ∷ []) held
        && names_run (get "run_id" held)
        && not (lease == "")
      then ok lease
      else err capability_identity_mismatch
  | _ ↦ err capability_identity_mismatch
]
  where
    names_run : Option Json → Bool
    names_run (some (Json.text id)) = id == run_id
    names_run _ = false

-- `lease_from_capability`; `is_expected` says that the path is the run's own, and no file is `none`.
unfoldable pub lease_from_capability :
    String → Bool → Option (Result CapabilityFile) → Result String
unfolding get has_keys
lease_from_capability run_id is_expected file = do
  guard is_expected invalid_capability_file
  opened ← require file invalid_capability_file
  capability ← opened
  guard capability.is_private invalid_capability_mode
  lease_of run_id capability.held

-- What the registry, the payload and git say of the project.
pub record ProjectProbe : Type 0 where
  pub root : String
  pub identity_matches : Bool
  pub configured_root : String
  pub configured_project : String
  pub configured_writer : String
  pub configured_branch : Option String
  pub payload_project : Option String
  pub payload_writer : Option String
  pub payload_branch : Option String
  pub current_root : String
  pub current_writer : String
  pub current_branch : Option String
  pub current_head : Option String

abbrev pub same_name : String → Option String → Bool
same_name a (some b) = a == b
same_name a none = false

-- `not value`
abbrev pub is_missing : Option String → Bool
is_missing none = true
is_missing (some s) = s == ""

abbrev pub same_option : Option String → Option String → Bool
same_option none none = true
same_option (some a) (some b) = a == b
same_option _ _ = false

unfoldable pub check_project : RunBinding → Option String → ProjectProbe → Bool
check_project b claim_head p =
    p.root == p.configured_root
    && p.identity_matches
    && p.configured_project == b.project_id
    && p.configured_writer == b.writer_key
    && same_name b.project_id p.payload_project
    && same_name b.writer_key p.payload_writer
    && p.current_root == p.root
    && p.current_writer == b.writer_key
    && not (is_missing p.configured_branch)
    && same_option p.current_branch p.configured_branch
    && (is_missing p.payload_branch || same_option p.current_branch p.payload_branch)
    && (is_none claim_head || same_option p.current_head claim_head)
  where
    is_none : Option String → Bool
    is_none none = true
    is_none (some s) = false

-- SELECT MAX(attempt) FROM runs WHERE task_id=?
unfoldable pub latest_attempt : String → List Run → ℕ
latest_attempt task_id [] = 0
latest_attempt task_id (r ∷ rs) =
    let rest = latest_attempt task_id rs in
    if r.task_id == task_id && leb rest r.attempt then r.attempt else rest

abbrev pub has_writer : String → Option Task → Bool
has_writer key none = false
has_writer key (some t) = t.writer_key == key

-- The runs in a locking state that join a task of the writer.
unfoldable pub writers : List Task → String → List Run → List String
unfolding find
writers tasks key [] = []
writers tasks key (r ∷ rs) =
    let rest = writers tasks key rs in
    if locks_writer r.state && has_writer key (find task_key r.task_id tasks)
    then r.run_id ∷ rest
    else rest

abbrev pub is_only : String → List String → Bool
is_only id (w ∷ []) = w == id
is_only id _ = false

abbrev pub is_in_progress : TaskStatus → Bool
is_in_progress TaskStatus.in_progress = true
is_in_progress _ = false

-- An error of the reader, whichever it is, is a denial.
abbrev pub denied : Result String → Result String
denied (ok lease) = ok lease
denied (err e) = err bridge_capability_denied

abbrev pub denied_project : Result ProjectProbe → Result ProjectProbe
denied_project (ok p) = ok p
denied_project (err e) = err bridge_project_binding_denied

abbrev pub expected_binding : String → Run → Task → String → RunBinding
expected_binding run_id r t project_id = record {
  project_id = project_id;
  writer_key = t.writer_key;
  task_id = r.task_id;
  run_id = run_id;
  attempt = r.attempt;
}

-- `_require_live_run`
unfoldable pub require_live_run :
    Ledger → RunBinding → Result String → Result ProjectProbe → Result (Unit {0})
unfolding find validate_binding latest_attempt writers check_project
require_live_run l b capability project = do
  lease ← denied capability
  r ← require (find_run l b.run_id) bridge_run_unknown
  t ← require (find_task l r.task_id) bridge_run_unknown
  project_id ← require t.project_id (worker_operation_invalid "project_id")
  validate_binding (expected_binding b.run_id r t project_id)
  guard (same_binding (expected_binding b.run_id r t project_id) b) bridge_run_scope_mismatch
  guard (is_running r.state && is_in_progress t.status) bridge_run_not_active
  guard (r.lease_token == lease) bridge_capability_denied
  guard (nat_eq (latest_attempt b.task_id l.runs) b.attempt) bridge_stale_attempt
  guard (is_only b.run_id (writers l.tasks b.writer_key l.runs)) bridge_writer_not_exclusive
  p ← denied_project project
  guard (check_project b r.claim_git_head p) bridge_project_binding_denied

pub record SessionRow : Type 0 where
  pub session_id : String
  pub binding : RunBinding

pub record Authority : Type 0 where
  pub max_worker_sessions : ℕ
  pub sessions : List SessionRow

abbrev pub session_key : SessionRow → String
session_key s = s.session_id

-- `__init__`
unfoldable pub start_authority : ℕ → Result Authority
start_authority max_worker_sessions = do
  guard (ltb 0 max_worker_sessions) bridge_invalid_worker_session_limit
  ok (record { max_worker_sessions = max_worker_sessions; sessions = [] })

abbrev pub is_bound : RunBinding → SessionRow → Bool
is_bound b s = same_binding s.binding b

abbrev pub add_session : Authority → String → RunBinding → Authority
add_session a session_id b = record a {
  sessions = a.sessions ++ record { session_id = session_id; binding = b } ∷ [];
}

-- `session_id` is what `secrets.token_urlsafe` gives.
unfoldable pub open_session :
    Ledger
    → Authority
    → RunBinding
    → Result String
    → Result ProjectProbe
    → String
    → Result Authority
unfolding require_live_run any
open_session l a b capability project session_id = do
  require_live_run l b capability project
  guard (not (any (is_bound b) a.sessions)) bridge_run_already_bound_locally
  guard (ltb (length a.sessions) a.max_worker_sessions) bridge_session_capacity_exhausted
  guard (not (has_key session_key session_id a.sessions)) bridge_session_id_collision
  ok (add_session a session_id b)

abbrev pub routes_to : Option SessionRow → RunBinding → Bool
routes_to none b = false
routes_to (some s) b = same_binding s.binding b

unfoldable pub require_session :
    Ledger
    → Authority
    → String
    → RunBinding
    → Result String
    → Result ProjectProbe
    → Result (Unit {0})
unfolding require_live_run find
require_session l a session_id b capability project = do
  guard (routes_to (find session_key session_id a.sessions) b) bridge_session_mismatch
  require_live_run l b capability project

unfoldable pub close_session : Authority → String → Result Authority
unfolding any delete
close_session a session_id = do
  guard (has_key session_key session_id a.sessions) bridge_session_unknown
  ok (record a { sessions = delete session_key session_id a.sessions })

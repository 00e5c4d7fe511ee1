-- ===== src/Result.antt =====
-- A `ValueError` or `sqlite3.IntegrityError` of the source as a value. An operation that raises
-- inside its transaction is rolled back: the ledger of an `err` is the ledger before the call.
use orch_kit.Prelude.{◌≡◌, refl, Bool, true, false, Option, none, some, String}

pub data Error : Type 0 where
  integrity_error : Error
  invalid_lease run_not_running checkpoint_reason_required : Error
  invalid_relative_path path_escape : Error
  receipt_identity_mismatch receipt_changed_paths_required result_not_submitted : Error
  path_not_allowed : String → Error
  run_not_verifying run_not_reviewing stale_review snapshot_missing : Error
  run_not_verified run_not_approvable owner_approval_not_required : Error
  run_not_active process_inactivity_confirmation_required : Error
  cancel_reason_required unknown_task : Error
  task_active : String → Error
  task_not_cancellable : Error
  pause_reason_required unknown_project_queue invalid_project_id invalid_run_id : Error
  plan_revision_digest_conflict empty_plan plan_too_many_tasks invalid_task_ids : Error
  dependency_cycle : Error
  -- no error of the source: a recursion of the model that is given too little depth
  out_of_fuel : Error
  invalid_dependency task_id_conflict : String → Error
  publication_reconciliation_required : Error
  owner_approval_missing_or_stale git_publication_not_configured nothing_to_publish : Error
  publication_branch_mismatch publication_expected_base_missing publication_base_changed : Error
  preexisting_staging_not_empty unknown_run : Error
  worker_operation_invalid worker_outcome_invalid : String → Error
  worker_operation_scope_mismatch worker_outcome_operation_mismatch worker_outcome_too_large : Error
  local_bridge_invalid_limits local_bridge_invalid_frame local_bridge_invalid_request : Error
  local_bridge_response_too_large local_bridge_io_timeout local_bridge_connection_closed : Error
  bridge_invalid_worker_session_limit bridge_run_already_bound_locally : Error
  bridge_session_capacity_exhausted bridge_session_id_collision bridge_session_mismatch : Error
  bridge_session_unknown bridge_capability_denied bridge_run_unknown bridge_run_scope_mismatch :
      Error
  bridge_run_not_active bridge_stale_attempt bridge_writer_not_exclusive : Error
  bridge_project_binding_denied : Error
  invalid_capability_file invalid_capability_mode capability_identity_mismatch : Error
  -- raised by what the model takes as an observation, with its text
  observed : String → Error

-- What an operation gives back, or the error that it raises.
pub data Result {u} (S : Type u) : Type u where
  err : Error → Result S
  ok : S → Result S

-- `if not row: raise`
abbrev pub require {u} : {S : Type u} → Option S → Error → Result S
require (some row) missing = ok row
require none missing = err missing

-- `if not test: raise`
abbrev pub guard : Bool → Error → Result (Unit {0})
guard false raised = err raised
guard true raised = ok tt

-- The first error ends the operation.
infixl 5 ◌>>=◌ ◌>>◌
abbrev pub ◌>>◌ {v} : {T : Type v} → Result (Unit {0}) → Result T → Result T
err raised >> later = err raised
ok tt >> later = later

abbrev pub ◌>>=◌ {u v} : {S : Type u} {T : Type v} → Result S → (S → Result T) → Result T
err raised >>= later = err raised
ok value >>= later = later value

-- An operation that returns has returned from each of its parts.
pub >>=-eq-ok {u v} :
    {S : Type u} {T : Type v} (first : Result S) (later : S → Result T) {t : T}
    → (first >>= later) ≡ ok t
    → (s : S) × (first ≡ ok s) × (later s ≡ ok t)
>>=-eq-ok (err raised) later returned = cc
>>=-eq-ok (ok value) later returned = (value, refl, returned)

pub >>-eq-ok {ℓ} :
    {B : Type ℓ} (m : Result (Unit {0})) (k : Result B) {b : B}
    → (m >> k) ≡ ok b
    → (m ≡ ok tt) × (k ≡ ok b)
>>-eq-ok (ok tt) k h = (refl, h)
>>-eq-ok (err e) k h = cc

pub guard-eq-ok : (b : Bool) (e : Error) → guard b e ≡ ok tt → b ≡ true
guard-eq-ok true e h = refl
guard-eq-ok false e h = cc

pub require-eq-ok {ℓ} :
    {A : Type ℓ} (o : Option A) (e : Error) {a : A} → require o e ≡ ok a → o ≡ some a
require-eq-ok none e h = cc
require-eq-ok (some a) e h = cc

pub ok-eq-ok {ℓ} : {A : Type ℓ} {x y : A} → ok x ≡ ok y → x ≡ y
ok-eq-ok h = cc

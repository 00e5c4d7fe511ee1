-- ===== src/Worker/Defs.antt =====
-- The definitions; texts are taken apart into code points.
use orch_kit.Prelude.{full_match, is_id_char, is_project_char}
use orch_kit.Prelude.{
  ℕ, String, Bool, true, false, not, ◌&&◌, ◌||◌, Option, none, some, List, [], ◌∷◌, ◌==◌, leb, ltb,
  nat_eq, any, length, codes, utf8_length,
}
use orch_kit.Result.{
  Result, ok, err, guard, ◌>>◌, ◌>>=◌, worker_operation_invalid, worker_outcome_invalid,
  worker_operation_scope_mismatch, worker_outcome_operation_mismatch, worker_outcome_too_large,
}
use orch_kit.Path.{Chars, contains, split, starts_with_slash, is_nil, is_dot, is_dot_dot}

-- WORKER_MAX_OUTPUT_BYTES
abbrev pub worker_max_output_bytes : ℕ
worker_max_output_bytes = 65536

-- WORKER_OPERATION_SCHEMA_VERSION
abbrev pub worker_schema_version : ℕ
worker_schema_version = 1

abbrev pub is_file_kind : String → Bool
is_file_kind kind = any (λ k. k == kind) ("file.read" ∷ "file.list" ∷ "file.patch" ∷ [])

abbrev pub is_process_kind : String → Bool
is_process_kind kind =
    any (λ k. k == kind) ("process.start" ∷ "process.poll" ∷ "process.terminate" ∷ [])

-- [A-Za-z0-9:._-]
abbrev pub is_writer_char : ℕ → Bool
is_writer_char c = is_id_char c || nat_eq c b':'

unfoldable pub identifier : String → String → ℕ → (ℕ → Bool) → Result (Unit {0})
unfolding full_match
identifier value field max_length test =
    guard (leb (length (codes value)) max_length && full_match test (codes value))
      (worker_operation_invalid field)

abbrev pub head_of : List Chars → Chars
head_of [] = []
head_of (p ∷ ps) = p

abbrev pub is_control : ℕ → Bool
is_control c = ltb c 32 || nat_eq c 127

abbrev pub is_traversal : Chars → Bool
is_traversal p = is_nil p || is_dot p || is_dot_dot p

unfoldable pub file_target : Chars → Result (Unit {0})
unfolding contains split any utf8_length
file_target target = do
  guard (not (is_nil target)) (worker_operation_invalid "target")
  guard (leb (utf8_length target) 1024) (worker_operation_invalid "target")
  guard
      (not (
        starts_with_slash target
        || contains b'\\' target
        || contains b':' (head_of (split target))
        || any is_control target
        || any is_traversal (split target)))
      (worker_operation_invalid "target")

pub record RunBinding : Type 0 where
  pub project_id : String
  pub writer_key : String
  pub task_id : String
  pub run_id : String
  pub attempt : ℕ

-- `__post_init__` of WorkerRunBinding
unfoldable pub validate_binding : RunBinding → Result (Unit {0})
unfolding identifier
validate_binding b = do
  identifier b.project_id "project_id" 160 is_project_char
  identifier b.writer_key "writer_key" 200 is_writer_char
  identifier b.task_id "task_id" 200 is_id_char
  identifier b.run_id "run_id" 200 is_id_char
  guard (leb 1 b.attempt && leb b.attempt 1000000) (worker_operation_invalid "attempt")

abbrev pub same_binding : RunBinding → RunBinding → Bool
same_binding a b =
    a.project_id == b.project_id
    && a.writer_key == b.writer_key
    && a.task_id == b.task_id
    && a.run_id == b.run_id
    && nat_eq a.attempt b.attempt

pub record OperationRequest : Type 0 where
  pub binding : RunBinding
  pub operation_id : String
  pub kind : String
  pub target : String
  pub max_output_bytes : ℕ
  pub schema_version : ℕ

abbrev pub check_target : String → String → Result (Unit {0})
unfolding identifier
check_target kind target = elim (is_file_kind kind) [
  | true ↦ file_target (codes target)
  | false ↦ identifier target "target" 200 is_id_char
]

-- `__post_init__` of WorkerOperationRequest, on a binding that is built
unfoldable pub validate_operation : OperationRequest → Result (Unit {0})
unfolding identifier file_target any
validate_operation r = do
  guard (nat_eq r.schema_version worker_schema_version) (worker_operation_invalid "schema")
  identifier r.operation_id "operation_id" 200 is_id_char
  guard (is_file_kind r.kind || is_process_kind r.kind) (worker_operation_invalid "kind")
  check_target r.kind r.target
  guard (leb 1 r.max_output_bytes && leb r.max_output_bytes worker_max_output_bytes)
      (worker_operation_invalid "output_limit")

pub data OutcomeState : Type 0 where
  succeeded refused failed unknown : OutcomeState

abbrev pub is_unknown : OutcomeState → Bool
is_unknown OutcomeState.unknown = true
is_unknown _ = false

pub record Outcome : Type 0 where
  pub operation_id : String
  pub state : OutcomeState
  pub output : List ℕ
  pub error_code : Option String
  pub schema_version : ℕ

unfoldable pub is_error_code : Option String → Bool
unfolding full_match
is_error_code none = false
is_error_code (some code) = leb (length (codes code)) 128 && full_match is_id_char (codes code)

-- The last test of `__post_init__` of WorkerOperationOutcome.
unfoldable pub check_state : Outcome → Result (Unit {0})
unfolding is_error_code
check_state o = elim o.state [
  | OutcomeState.succeeded ↦ elim o.error_code [
    | none ↦ ok tt
    | some code ↦ err (worker_outcome_invalid "error")
  ]
  | _ ↦ do
    guard (is_nil o.output) (worker_outcome_invalid "output")
    guard (is_error_code o.error_code) (worker_outcome_invalid "error")
]

-- `__post_init__` of WorkerOperationOutcome
unfoldable pub build_outcome : Outcome → Result (Unit {0})
unfolding identifier check_state
build_outcome o = do
  guard (nat_eq o.schema_version worker_schema_version) (worker_outcome_invalid "schema")
  identifier o.operation_id "operation_id" 200 is_id_char
  check_state o

unfoldable pub require_matching_worker_run : RunBinding → OperationRequest → Result (Unit {0})
require_matching_worker_run expected request =
    guard (same_binding expected request.binding) worker_operation_scope_mismatch

unfoldable pub validate_worker_outcome : OperationRequest → Outcome → Result Outcome
validate_worker_outcome request outcome = do
  guard (outcome.operation_id == request.operation_id) worker_outcome_operation_mismatch
  guard (leb (length outcome.output) request.max_output_bytes) worker_outcome_too_large
  ok outcome

unfoldable pub requires_independent_readback : OperationRequest → Outcome → Result Bool
unfolding validate_worker_outcome
requires_independent_readback request outcome =
    validate_worker_outcome request outcome >>= λ o. ok (is_unknown o.state)

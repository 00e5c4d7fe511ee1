-- ===== src/Bridge/Request.antt =====
-- The first message and the requests of orch/bridge_local_protocol.py, on a decoded dictionary.
pub mod Shape
pub mod Tokens
use orch_kit.Prelude.{match_between, full_match, is_digit, is_id_char, is_lower, is_upper}
use orch_kit.Prelude.{
  ℕ, String, Bool, true, false, not, ◌&&◌, ◌||◌, Option, none, some, List, [], ◌∷◌, ◌==◌, leb,
  nat_eq, any, length, codes,
}
use orch_kit.Result.{Result, ok, err, guard, ◌>>◌, local_bridge_invalid_request}
use orch_kit.Json.{Json, Fields, get, has_keys}
use orch_kit.Worker.{RunBinding, OperationRequest, validate_operation, worker_schema_version}
use orch_kit.Path.{Chars}
use orch_kit.Bridge.Frame.{Limits}

-- [A-Za-z0-9_-]
abbrev pub is_routing_char : ℕ → Bool
is_routing_char c = is_upper c || is_lower c || is_digit c || nat_eq c b'_' || nat_eq c b'-'

-- _IDENTIFIER and _ROUTING on a value of the dictionary
unfoldable pub is_identifier : Option Json → Bool
unfolding match_between
is_identifier (some (Json.text s)) = match_between is_id_char 1 200 (codes s)
is_identifier _ = false

unfoldable pub is_routing : Option Json → Bool
unfolding match_between
is_routing (some (Json.text s)) = match_between is_routing_char 24 200 (codes s)
is_routing _ = false

abbrev pub is_one : Option Json → Bool
is_one (some (Json.integer n)) = nat_eq n 1
is_one _ = false

unfoldable pub common : Fields → List String → Result (Unit {0})
unfolding has_keys get is_identifier
common value keys =
    guard
      (has_keys keys value
        && is_one (get "schema_version" value)
        && is_identifier (get "request_id" value))
      local_bridge_invalid_request

abbrev pub is_text : String → Option Json → Bool
is_text t (some (Json.text s)) = s == t
is_text t _ = false

abbrev pub hello_keys : List String
hello_keys = "schema_version" ∷ "request_id" ∷ "type" ∷ "transport_token" ∷ []

unfoldable pub validate_hello : Fields → Result Fields
unfolding common get is_routing
validate_hello value = do
  common value hello_keys
  guard (is_text "hello" (get "type" value) && is_routing (get "transport_token" value))
      local_bridge_invalid_request
  ok value

-- `value["operation"] not in LOCAL_OPERATIONS`
unfoldable pub operation_of : Option Json → Option String
unfolding any
operation_of (some (Json.text s)) =
    elim (any (λ o. o == s) ("session.status" ∷ "file.read" ∷ "file.list" ∷ [])) [
      | true ↦ some s
      | false ↦ none
    ]
operation_of _ = none

abbrev pub is_within : Limits → Option Json → Bool
is_within l (some (Json.integer n)) = leb l.min_response_bytes n && leb n l.max_response_bytes
is_within l _ = false

abbrev pub request_keys : List String
request_keys =
    "schema_version" ∷ "request_id" ∷ "session_id" ∷ "operation" ∷ "target" ∷ "max_response_bytes"
    ∷ []

-- WorkerRunBinding("local", "local", "local", "local", 1)
abbrev pub local_binding : RunBinding
local_binding = record {
  project_id = "local";
  writer_key = "local";
  task_id = "local";
  run_id = "local";
  attempt = 1;
}

abbrev pub request_of : String → String → String → OperationRequest
request_of request_id operation target = record {
  binding = local_binding;
  operation_id = request_id;
  kind = operation;
  target = target;
  max_output_bytes = 1;
  schema_version = worker_schema_version;
}

abbrev pub relabel : Result (Unit {0}) → Result (Unit {0})
relabel (ok tt) = ok tt
relabel (err e) = err local_bridge_invalid_request

-- The test of `target`, which `session.status` does without.
unfoldable pub check_request_target : Option Json → String → Option Json → Result (Unit {0})
unfolding validate_operation
check_request_target (some (Json.text request_id)) operation (some target) =
    elim (operation == "session.status") [
      | true ↦ elim target [ Json.null ↦ ok tt | _ ↦ err local_bridge_invalid_request ]
      | false ↦ elim target [
        | Json.text t ↦ relabel (validate_operation (request_of request_id operation t))
        | _ ↦ err local_bridge_invalid_request
      ]
    ]
check_request_target _ operation _ = err local_bridge_invalid_request

unfoldable pub validate_request : Fields → Limits → Result Fields
unfolding common get is_routing operation_of check_request_target
validate_request value l = do
  common value request_keys
  guard (is_routing (get "session_id" value)) local_bridge_invalid_request
  elim (operation_of (get "operation" value)) [
    | none ↦ err local_bridge_invalid_request
    | some operation ↦ do
      guard (is_within l (get "max_response_bytes" value)) local_bridge_invalid_request
      check_request_target (get "request_id" value) operation (get "target" value)
      ok value
  ]

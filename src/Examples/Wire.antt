-- ===== src/Examples/Wire.antt =====
-- Two messages on one connection, with a codec that knows them.
use orch_kit.Prelude.{full_match, match_between}
use orch_kit.Prelude.{
  ℕ, zero, suc, ◌+◌, ◌≤◌, ◌<◌, ◌≡◌, refl, true, false, Option, none, some, List, [], ◌∷◌, ◌++◌, any,
  codes, arith, utf8_length,
}
use orch_kit.Result.{ok, err, local_bridge_invalid_frame, local_bridge_io_timeout}
use orch_kit.Json.{Json, Fields, unique_object, unique, has, get, has_keys, all_keys}
use orch_kit.Path.{normalize_relative_path, split, contains}
use orch_kit.Worker.{
  OperationRequest, OutcomeState, Outcome, file_target, identifier, validate_operation,
  build_outcome, check_state, validate_worker_outcome,
}
use orch_kit.Worker.Target.{file_target-normalize_relative_path}
use orch_kit.Worker.Reply.{IsSettled, validate_worker_outcome-bounded}
use orch_kit.Bridge.Frame.{
  Bytes, Limits, validate_limits, Answer, Socket, receive, receive_exact, pack_length,
  unpack_length, decode_payload, encode_payload, receive_frame, send_frame, native_payload_budget,
}
use orch_kit.Bridge.Frame.Exact.{IsPrompt}
use orch_kit.Bridge.Frame.Round.{IsRoundTrip}
use orch_kit.Bridge.Frame.Stream.{Sent, Reads, Sent-Reads}
use orch_kit.Bridge.Frame.Bounded.{
  Frame, receive_frame-Frame, receive_frame-chunking, base64_length, native_payload_budget-fits,
}
use orch_kit.Bridge.Request.{
  common, is_identifier, is_routing, operation_of, check_request_target, validate_request,
}
use orch_kit.Bridge.Request.Shape.{Shape, validate_request-Shape}

-- {} and {"a":null}
abbrev blank : Fields
blank = Fields.no_field

abbrev single : Fields
single = Fields.field "a" Json.null Fields.no_field

abbrev dumps : Fields → Option Bytes
dumps Fields.no_field = some (b'{' ∷ b'}' ∷ [])
dumps (Fields.field k v fs) =
    some (b'{' ∷ b'"' ∷ b'a' ∷ b'"' ∷ b':' ∷ b'n' ∷ b'u' ∷ b'l' ∷ b'l' ∷ b'}' ∷ [])

abbrev loads : Bytes → Option Json
loads (a ∷ b ∷ []) = some (Json.object blank)
loads (a ∷ b ∷ c ∷ d) = some (Json.object single)
loads _ = none

abbrev limits : Limits
limits = record { max_frame_bytes = 65536; min_response_bytes = 4096; max_response_bytes = 65536 }

limits_valid : validate_limits limits true ≡ ok tt
unfolding validate_limits
limits_valid = refl

blank-IsRoundTrip : IsRoundTrip loads dumps blank
unfolding unique_object
blank-IsRoundTrip = record {
  once = refl;
  parsed = λ payload h. ground (arith, h);
  filled = λ payload h. ground (arith, h);
}

single-IsRoundTrip : IsRoundTrip loads dumps single
unfolding unique_object unique has
single-IsRoundTrip = record {
  once = refl;
  parsed = λ payload h. ground (arith, h);
  filled = λ payload h. ground (arith, h);
}

abbrev frame_of : Fields → Bytes
frame_of Fields.no_field = 0 ∷ 0 ∷ 0 ∷ 2 ∷ b'{' ∷ b'}' ∷ []
frame_of (Fields.field k v fs) =
    0 ∷ 0 ∷ 0 ∷ 10 ∷ b'{' ∷ b'"' ∷ b'a' ∷ b'"' ∷ b':' ∷ b'n' ∷ b'u' ∷ b'l' ∷ b'l' ∷ b'}' ∷ []

send_blank : send_frame loads dumps blank limits none false ≡ ok (frame_of blank)
unfolding send_frame encode_payload pack_length
send_blank = refl

send_single : send_frame loads dumps single limits none false ≡ ok (frame_of single)
unfolding send_frame encode_payload pack_length
send_single = refl

abbrev repeat : ℕ → ℕ → List Answer
repeat zero k = []
repeat (suc n) k = Answer.gives k ∷ repeat n k

abbrev slow : List Answer
slow = repeat 20 0

abbrev fast : List Answer
fast = repeat 20 3

repeat-IsPrompt : (n k : ℕ) → IsPrompt (repeat n k)
repeat-IsPrompt zero k = tt
repeat-IsPrompt (suc n) k = ((λ e. cc), repeat-IsPrompt n k)

Sent-Reads_example :
    (later : List Answer) × Reads loads dumps limits
      (record { pending = (frame_of single ++ (frame_of blank ++ [])) ++ 7 ∷ []; answers = slow })
      (single ∷ blank ∷ [])
      (record { pending = 7 ∷ []; answers = later })
Sent-Reads_example =
    Sent-Reads loads dumps limits (single ∷ blank ∷ []) (frame_of single ++ (frame_of blank ++ []))
      (7 ∷ []) slow (single-IsRoundTrip, (blank-IsRoundTrip, tt)) limits_valid
      (Sent.next none send_single (Sent.next none send_blank Sent.quiet)) (repeat-IsPrompt 20 0)
      (omega arith)

abbrev stream : Bytes
stream = frame_of single ++ 7 ∷ []

abbrev at : List Answer → Socket
at answers = record { pending = stream; answers = answers }

-- The first call gives one byte at a time, the second up to four.
receive_slow :
    receive_frame loads dumps (at slow) limits
    ≡ ok (single, record { pending = 7 ∷ []; answers = repeat 6 0 })
unfolding receive_frame receive_exact receive decode_payload unpack_length unique_object unique has
receive_slow = refl

receive_fast :
    receive_frame loads dumps (at fast) limits
    ≡ ok (single, record { pending = 7 ∷ []; answers = repeat 16 3 })
unfolding receive_frame receive_exact receive decode_payload unpack_length unique_object unique has
receive_fast = refl

receive_frame-Frame_example :
    Frame loads dumps (at slow) limits single (record { pending = 7 ∷ []; answers = repeat 6 0 })
receive_frame-Frame_example =
    receive_frame-Frame loads dumps (at slow) (record { pending = 7 ∷ []; answers = repeat 6 0 })
      limits single receive_slow

receive_frame-chunking_example : (single ≡ single) × (◌≡◌ {A = Bytes} (7 ∷ []) (7 ∷ []))
receive_frame-chunking_example =
    receive_frame-chunking loads dumps stream slow fast limits single single
      (record { pending = 7 ∷ []; answers = repeat 6 0 })
      (record { pending = 7 ∷ []; answers = repeat 16 3 }) receive_slow receive_fast

native_payload_budget-fits_example :
    ((n : ℕ) → n ≤ 1536 → base64_length loads dumps n + 2 ≤ 2050)
    × (2050 < base64_length loads dumps 1537 + 2)
unfolding native_payload_budget encode_payload
native_payload_budget-fits_example =
    native_payload_budget-fits loads dumps blank (b'{' ∷ b'}' ∷ []) 2050 1536 refl (omega arith)
      refl

-- An oversized announcement, and a stream that stops in the middle.
test_oversized :
    receive_frame loads dumps (record { pending = 0 ∷ 1 ∷ 0 ∷ 1 ∷ []; answers = slow }) limits
    ≡ err local_bridge_invalid_frame
unfolding receive_frame receive_exact receive unpack_length
test_oversized = refl

test_cut :
    receive_frame loads dumps
      (record { pending = 0 ∷ 0 ∷ 0 ∷ 2 ∷ b'{' ∷ []; answers = slow })
      limits
    ≡ err local_bridge_invalid_frame
unfolding receive_frame receive_exact receive unpack_length
test_cut = refl

test_stalled :
    receive_frame loads dumps
      (record { pending = stream; answers = Answer.gives 1 ∷ Answer.stalls ∷ slow })
      limits
    ≡ err local_bridge_io_timeout
unfolding receive_frame receive_exact receive unpack_length
test_stalled = refl

abbrev request : Fields
request = Fields.field "schema_version" (Json.integer 1) (
    Fields.field "request_id" (Json.text "q-1") (
      Fields.field "session_id" (Json.text "abcdefghijklmnopqrstuvwxyz") (
        Fields.field "operation" (Json.text "file.read") (
          Fields.field "target" (Json.text "src/x.py")
            (Fields.field "max_response_bytes" (Json.integer 5000) Fields.no_field)))))

validate_request-Shape_example : Shape request limits × (request ≡ request)
unfolding validate_request common has_keys all_keys has get any is_identifier is_routing
    match_between full_match operation_of check_request_target validate_operation identifier
    file_target contains split utf8_length
validate_request-Shape_example = validate_request-Shape request request limits refl

file_target-normalize_relative_path_example :
    normalize_relative_path (codes "src/x.py") ≡ ok (codes "src/x.py")
unfolding file_target contains split any utf8_length
file_target-normalize_relative_path_example =
    file_target-normalize_relative_path (codes "src/x.py") refl

abbrev operation : OperationRequest
operation = record {
  binding = record {
    project_id = "p";
    writer_key = "w";
    task_id = "a";
    run_id = "r1";
    attempt = 1;
  };
  operation_id = "op";
  kind = "file.read";
  target = "src/x.py";
  max_output_bytes = 3;
  schema_version = 1;
}

abbrev outcome : Outcome
outcome = record {
  operation_id = "op";
  state = OutcomeState.succeeded;
  output = 1 ∷ 2 ∷ [];
  error_code = none;
  schema_version = 1;
}

validate_worker_outcome-bounded_example :
    (operation.operation_id ≡ outcome.operation_id) × (2 ≤ 65536) × IsSettled outcome
unfolding validate_operation identifier full_match any file_target contains split utf8_length
    build_outcome check_state validate_worker_outcome
validate_worker_outcome-bounded_example =
    validate_worker_outcome-bounded operation outcome outcome refl refl refl

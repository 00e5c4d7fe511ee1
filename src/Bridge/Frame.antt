-- ===== src/Bridge/Frame.antt =====
-- The frames of orch/bridge_local_protocol.py: four bytes with the length of a JSON text, then the
-- text. A socket is the bytes still to come and what the calls of `recv` before the deadline do.
pub mod Bytes
pub mod Exact
pub mod Taken
pub mod Round
pub mod Stream
pub mod Bounded
use orch_kit.Prelude.{
  ℕ, suc, ◌+◌, ◌-◌, String, Bool, true, false, not, ◌&&◌, Option, none, some, List, [], ◌∷◌, ◌++◌,
  leb, length, take, drop, if◌then◌else◌,
}
use orch_kit.Prelude.{◌*◌, ◌/◌, ◌%◌, ◌^◌}
use orch_kit.Json.{Json, Fields, unique_object}
use orch_kit.Result.{
  Result, ok, err, guard, ◌>>◌, ◌>>=◌, local_bridge_invalid_limits, local_bridge_invalid_frame,
  local_bridge_response_too_large, local_bridge_io_timeout, local_bridge_connection_closed,
}

abbrev pub Bytes : Type 0
Bytes = List ℕ

pub record Limits : Type 0 where
  pub max_frame_bytes : ℕ
  pub min_response_bytes : ℕ
  pub max_response_bytes : ℕ

-- `__post_init__` of LocalServiceLimits; `timeouts` is the test of the two times.
unfoldable pub validate_limits : Limits → Bool → Result (Unit {0})
validate_limits l timeouts =
    guard
      (leb 1 l.min_response_bytes
        && leb l.min_response_bytes l.max_response_bytes
        && leb l.max_response_bytes l.max_frame_bytes
        && leb l.max_frame_bytes 65536
        && timeouts)
      local_bridge_invalid_limits

-- `gives k`: at most k + 1 bytes of those that are there, however many are asked for; `stalls`:
-- `socket.timeout`.
pub data Answer : Type 0 where
  gives : ℕ → Answer
  stalls : Answer

pub record Socket : Type 0 where
  pub pending : Bytes
  pub answers : List Answer

abbrev pub least : ℕ → ℕ → ℕ
least a b = if leb a b then a else b

abbrev pub empty_read : Bool → Bytes → Result (Bytes × Socket)
empty_read true [] = err local_bridge_connection_closed
empty_read _ _ = err local_bridge_invalid_frame

-- The loop of `_receive_exact`, with the bytes it has so far.
unfoldable pub receive : List Answer → Bytes → ℕ → Bool → Bytes → Result (Bytes × Socket)
receive [] pending size clean_eof result = elim (leb size (length result)) [
  | true ↦ ok (result, record { pending = pending; answers = [] })
  | false ↦ err local_bridge_io_timeout
]
receive (Answer.stalls ∷ later) pending size clean_eof result = elim (leb size (length result)) [
  | true ↦ ok (result, record { pending = pending; answers = Answer.stalls ∷ later })
  | false ↦ err local_bridge_io_timeout
]
receive (Answer.gives k ∷ later) pending size clean_eof result =
    let wanted = least (suc k) (size - length result) in
    elim (leb size (length result)) [
      | true ↦ ok (result, record { pending = pending; answers = Answer.gives k ∷ later })
      | false ↦ elim (take wanted pending) [
        | [] ↦ empty_read clean_eof result
        | b ∷ bs ↦ receive later (drop wanted pending) size clean_eof (result ++ b ∷ bs)
      ]
    ]

unfoldable pub receive_exact : Socket → ℕ → Bool → Result (Bytes × Socket)
unfolding receive
receive_exact s size clean_eof = receive s.answers s.pending size clean_eof []

-- `struct.pack("!I", n)` and its inverse
unfoldable pub pack_length : ℕ → Bytes
pack_length n = n / 2 ^ 24 ∷ n / 2 ^ 16 % 256 ∷ n / 2 ^ 8 % 256 ∷ n % 256 ∷ []

unfoldable pub unpack_length : Bytes → ℕ
unpack_length (a ∷ b ∷ c ∷ d ∷ []) = a * 2 ^ 24 + b * 2 ^ 16 + c * 2 ^ 8 + d
unpack_length _ = 0

-- `json.loads` on the bytes, with the pairs of each dictionary; `json.dumps` of a dictionary.
module _ (loads : Bytes → Option Json) (dumps : Fields → Option Bytes) where
  unfoldable pub decode_payload : Bytes → Result Fields
  unfolding unique_object
  decode_payload payload = elim (loads payload) [
    | some (Json.object fs) ↦ if unique_object fs then ok fs else err local_bridge_invalid_frame
    | _ ↦ err local_bridge_invalid_frame
  ]

  unfoldable pub encode_payload : Fields → Result Bytes
  encode_payload value = elim (dumps value) [
    | some payload ↦ ok payload
    | none ↦ err local_bridge_invalid_frame
  ]

  unfoldable pub receive_frame : Socket → Limits → Result (Fields × Socket)
  unfolding receive_exact unpack_length decode_payload
  receive_frame s l = do
    (header, behind) ← receive_exact s 4 true
    guard (leb 1 (unpack_length header) && leb (unpack_length header) l.max_frame_bytes)
        local_bridge_invalid_frame
    (payload, rest) ← receive_exact behind (unpack_length header) false
    value ← decode_payload payload
    ok (value, rest)

  abbrev pub most_of : Limits → Option ℕ → ℕ
  most_of l none = least l.max_frame_bytes l.max_response_bytes
  most_of l (some budget) = least l.max_frame_bytes budget

  -- The bytes that `sendall` writes, unless it times out.
  unfoldable pub send_frame : Fields → Limits → Option ℕ → Bool → Result Bytes
  unfolding encode_payload pack_length
  send_frame value l budget timed_out = do
    payload ← encode_payload value
    guard (leb (length payload) (most_of l budget)) local_bridge_response_too_large
    guard (not timed_out) local_bridge_io_timeout
    ok (pack_length (length payload) ++ payload)

  -- The bytes of a message that base64 leaves room for beside the empty envelope.
  unfoldable pub native_payload_budget : Fields → ℕ → Result ℕ
  unfolding encode_payload
  native_payload_budget empty_envelope budget =
      encode_payload empty_envelope >>= λ payload. ok ((budget - length payload) / 4 * 3)

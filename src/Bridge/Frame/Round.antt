-- ===== src/Bridge/Frame/Round.antt =====
-- A frame that is sent is received, alone and in a stream of frames.
use mathlib.Core.Path.{ap, sym}
use mathlib.Core.List.{append_assoc}
use orch_kit.Prelude.{
  ℕ, ◌+◌, ◌≤◌, ◌≡◌, ◌∙◌, refl, true, false, Option, none, some, List, [], ◌++◌, length, arith,
}
use orch_kit.Result.{ok}
use orch_kit.Json.{Json, Fields, unique_object}
use orch_kit.Bridge.Frame.{
  Bytes, Limits, validate_limits, Answer, Socket, receive, receive_exact, pack_length,
  unpack_length, decode_payload, encode_payload, receive_frame, send_frame,
}
use orch_kit.Bridge.Frame.Bytes.{unpack_length-pack_length, length-++}
use orch_kit.Bridge.Frame.Exact.{IsPrompt, receive-Read}

module _ (loads : Bytes → Option Json) (dumps : Fields → Option Bytes) where
  -- What json does with one dictionary: its text is not empty, and is read as the same pairs.
  pub record IsRoundTrip (value : Fields) : Type 0 where
    pub once : unique_object value ≡ true
    pub parsed :
        (payload : Bytes) → dumps value ≡ some payload → loads payload ≡ some (Json.object value)
    pub filled : (payload : Bytes) → dumps value ≡ some payload → 1 ≤ length payload

  pub record Received (s : Socket) (l : Limits) (value : Fields) (size : ℕ) (rest : Bytes)
      : Type 0 where
    pub later : List Answer
    pub is : receive_frame loads dumps s l ≡ ok (value, record { pending = rest; answers = later })
    pub prompt : IsPrompt later
    pub enough : length s.answers ≤ length later + size

  -- The parts of a frame that is sent.
  sent :
      (value : Fields) (l : Limits) (budget : Option ℕ) (frame : Bytes)
      → send_frame loads dumps value l budget false ≡ ok frame
      → (payload : Bytes) × (dumps value ≡ some payload)
        × (length payload ≤ l.max_frame_bytes)
        × (pack_length (length payload) ++ payload ≡ frame)
  unfolding send_frame encode_payload
  sent value l none frame h = ground (arith, h)
  sent value l (some budget) frame h = ground (arith, h)

  length-pack_length : (n : ℕ) → length (pack_length n) ≡ 4
  unfolding pack_length
  length-pack_length n = refl

  decode-encoded :
      (value : Fields) (payload : Bytes)
      → IsRoundTrip value
      → dumps value ≡ some payload
      → decode_payload loads dumps payload ≡ ok value
  unfolding decode_payload
  decode-encoded value payload c e = ground (arith, c.once, c.parsed payload e)

  -- Both reads of `receive_frame` together.
  receive_frame-eq :
      (s : Socket) (l : Limits) (header payload : Bytes) (behind rest : Socket) (value : Fields)
      → receive_exact s 4 true ≡ ok (header, behind)
      → 1 ≤ unpack_length header
      → unpack_length header ≤ l.max_frame_bytes
      → receive_exact behind (unpack_length header) false ≡ ok (payload, rest)
      → decode_payload loads dumps payload ≡ ok value
      → receive_frame loads dumps s l ≡ ok (value, rest)
  unfolding receive_frame
  receive_frame-eq s l header payload behind rest value a one most b d =
      ground (arith, a, one, most, b, d)

  -- A frame that is sent under valid limits is received as the value that was sent, whatever the pieces in
  -- which its bytes arrive, and the bytes behind it stay for the next read. Of the calls of `recv` no more are
  -- used than the frame has bytes.
  pub receive_frame-send_frame :
      (value : Fields) (l : Limits) (budget : Option ℕ) (frame rest : Bytes) (answers : List Answer)
      → IsRoundTrip value
      → validate_limits l true ≡ ok tt
      → send_frame loads dumps value l budget false ≡ ok frame
      → IsPrompt answers
      → length frame ≤ length answers
      → Received (record { pending = frame ++ rest; answers = answers }) l value (length frame) rest
  unfolding validate_limits receive_exact
  receive_frame-send_frame value l budget frame rest answers codec limits h prompt enough =
      let (payload, e, small, same) = sent value l budget frame h in
      let n = length payload in
      let header = pack_length n in
      let one = codec.filled payload e in
      let bound : l.max_frame_bytes ≤ 65536 = ground (arith, limits) in
      let whole : n + 4 ≡ length frame =
        omega (arith, length-++ header payload, length-pack_length n, ap length same) in
      let decoded : unpack_length header ≡ n = unpack_length-pack_length n (omega arith) in
      let first =
        receive-Read answers header (payload ++ rest) [] 4 true prompt
          (omega (arith, length-pack_length n)) (omega (arith, length-pack_length n)) in
      let second =
        receive-Read first.later payload rest [] n false first.prompt (omega arith)
          (omega (arith, first.enough, length-pack_length n)) in
      let start : Socket = record { pending = frame ++ rest; answers = answers } in
      let middle : Socket = record { pending = payload ++ rest; answers = first.later } in
      let last : Socket = record { pending = rest; answers = second.later } in
      let stream = ap (λ xs. xs ++ rest) (sym same) ∙ append_assoc header payload rest in
      record {
        later = second.later;
        is =
            receive_frame-eq start l header payload middle last value
              (ap (λ xs. receive answers xs 4 true []) stream ∙ first.is) (omega arith)
              (omega arith)
              (ap (λ m. receive first.later (payload ++ rest) m false []) decoded ∙ second.is)
              (decode-encoded value payload codec e);
        prompt = second.prompt;
        enough = omega (arith, first.enough, second.enough, length-pack_length n);
      }

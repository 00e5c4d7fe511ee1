-- ===== src/Bridge/Frame/Bounded.antt =====
-- What a receiver takes from a stream that it does not trust.
use mathlib.Core.Path.{ap, sym}
use orch_kit.Prelude.{
  ℕ, ◌+◌, ◌-◌, ◌*◌, ◌/◌, ◌≤◌, ◌<◌, ◌≡◌, ◌∙◌, refl, true, false, ◌&&◌, Option, List, [], ◌∷◌, ◌++◌,
  length, leb, arith,
}
use orch_kit.Result.{ok, guard, guard-eq-ok, >>-eq-ok, >>=-eq-ok, local_bridge_invalid_frame}
use orch_kit.Json.{Json, Fields}
use orch_kit.Bridge.Frame.{
  Bytes, Limits, Answer, Socket, receive_exact, unpack_length, decode_payload, receive_frame,
  encode_payload, native_payload_budget,
}
use orch_kit.Bridge.Frame.Taken.{receive-Taken}

module _ (loads : Bytes → Option Json) (dumps : Fields → Option Bytes) where
  pub record Frame (s : Socket) (l : Limits) (value : Fields) (after : Socket) : Type 0 where
    pub header : Bytes
    pub payload : Bytes
    pub stream : s.pending ≡ header ++ (payload ++ after.pending)
    pub four : length header ≡ 4
    pub announced : unpack_length header ≡ length payload
    pub filled : 1 ≤ length payload
    pub bounded : length payload ≤ l.max_frame_bytes
    pub decoded : decode_payload loads dumps payload ≡ ok value

  -- The two reads and the decoding of a call that returns.
  record Parts (s after : Socket) (l : Limits) (value : Fields) : Type 0 where
    header : Bytes
    payload : Bytes
    behind : Socket
    first : receive_exact s 4 true ≡ ok (header, behind)
    fits : (leb 1 (unpack_length header) && leb (unpack_length header) l.max_frame_bytes) ≡ true
    second : receive_exact behind (unpack_length header) false ≡ ok (payload, after)
    decoded : decode_payload loads dumps payload ≡ ok value

  receive_frame-Parts :
      (s after : Socket) (l : Limits) (value : Fields)
      → receive_frame loads dumps s l ≡ ok (value, after)
      → Parts s after l value
  unfolding receive_frame
  receive_frame-Parts s after l value h =
      let ((header, behind), a, h1) = >>=-eq-ok (receive_exact s 4 true) _ h in
      let test = leb 1 (unpack_length header) && leb (unpack_length header) l.max_frame_bytes in
      let (g, h2) = >>-eq-ok (guard test local_bridge_invalid_frame) _ h1 in
      let ((payload, rest), b, h3) =
        >>=-eq-ok (receive_exact behind (unpack_length header) false) _ h2 in
      let (v, d, h4) = >>=-eq-ok (decode_payload loads dumps payload) _ h3 in
      let same : rest ≡ after = ground (arith, h4) in
      let value_same : v ≡ value = ground (arith, h4) in
      record {
        header = header;
        payload = payload;
        behind = behind;
        first = a;
        fits = guard-eq-ok test local_bridge_invalid_frame g;
        second = b ∙ ap (λ (x : Socket). ok (payload, x)) same;
        decoded = d ∙ ap (λ (x : Fields). ok x) value_same;
      }

  -- A frame that is received is exactly one frame at the start of the stream: four bytes that announce the
  -- length of the payload, and the payload, which is not empty, within the limit, and decodes to the value;
  -- the bytes behind it are left.
  pub receive_frame-Frame :
      (s after : Socket) (l : Limits) (value : Fields)
      → receive_frame loads dumps s l ≡ ok (value, after)
      → Frame s l value after
  unfolding receive_exact
  receive_frame-Frame s after l value h =
      let p = receive_frame-Parts s after l value h in
      let one =
        receive-Taken s.answers s.pending [] p.header 4 true p.behind (omega arith) p.first in
      let two =
        receive-Taken p.behind.answers p.behind.pending [] p.payload (unpack_length p.header) false
          after (omega arith) p.second in
      record {
        header = p.header;
        payload = p.payload;
        stream =
            one.stream
            ∙ ap (λ xs. xs ++ p.behind.pending) (sym one.held)
            ∙ ap (λ xs. p.header ++ xs)
                (two.stream ∙ ap (λ xs. xs ++ after.pending) (sym two.held));
        four = one.full;
        announced = sym two.full;
        filled = ground (arith, p.fits, two.full);
        bounded = ground (arith, p.fits, two.full);
        decoded = p.decoded;
      }

  split_same :
      (xs xt ys yt : Bytes) → length xs ≡ length xt → xs ++ ys ≡ xt ++ yt → (xs ≡ xt) × (ys ≡ yt)
  split_same [] [] ys yt n h = (refl, h)
  split_same [] (b ∷ xt) ys yt n h = absurd (omega arith)
  split_same (a ∷ xs) [] ys yt n h = absurd (omega arith)
  split_same (a ∷ xs) (b ∷ xt) ys yt n h =
      let rest = split_same xs xt ys yt (omega arith) (ground (arith, h)) in ground (arith, h, rest)

  -- What is received does not hang on how the bytes arrive: two sockets with the same stream, whose calls of
  -- `recv` give it in other pieces, give the same value and leave the same bytes, where both calls return.
  pub receive_frame-chunking :
      (stream : Bytes) (left right : List Answer) (l : Limits) (v w : Fields) (s t : Socket)
      → receive_frame loads dumps (record { pending = stream; answers = left }) l ≡ ok (v, s)
      → receive_frame loads dumps (record { pending = stream; answers = right }) l ≡ ok (w, t)
      → (v ≡ w) × (s.pending ≡ t.pending)
  receive_frame-chunking stream left right l v w s t h k =
      let p = receive_frame-Frame (record { pending = stream; answers = left }) s l v h in
      let q = receive_frame-Frame (record { pending = stream; answers = right }) t l w k in
      let (headers, rests) =
        split_same p.header q.header (p.payload ++ s.pending) (q.payload ++ t.pending)
          (p.four ∙ sym q.four) (sym p.stream ∙ q.stream) in
      let (payloads, ends) =
        split_same p.payload q.payload s.pending t.pending
          (sym p.announced ∙ ap unpack_length headers ∙ q.announced) rests in
      (ground (arith, p.decoded, q.decoded, payloads), ends)

  abbrev pub base64_length : ℕ → ℕ
  base64_length n = (n + 2) / 3 * 4

  -- A message within the budget fits beside its envelope once base64 has made it longer, and one byte
  -- more would not fit: for an envelope that itself fits.
  pub native_payload_budget-fits :
      (envelope : Fields) (payload : Bytes) (budget most : ℕ)
      → encode_payload loads dumps envelope ≡ ok payload
      → length payload ≤ budget
      → native_payload_budget loads dumps envelope budget ≡ ok most
      → ((n : ℕ) → n ≤ most → base64_length n + length payload ≤ budget)
        × (budget < base64_length (most + 1) + length payload)
  unfolding native_payload_budget
  native_payload_budget-fits envelope payload budget most e fits h =
      let room : (budget - length payload) / 4 * 3 ≡ most = ground (arith, e, h) in
      ((λ n small. omega arith), omega arith)

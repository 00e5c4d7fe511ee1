-- ===== src/Bridge/Frame/Stream.antt =====
-- Several frames on one connection.
use mathlib.Core.Path.{subst, sym}
use mathlib.Core.List.{append_assoc}
use orch_kit.Prelude.{ℕ, ◌≤◌, ◌≡◌, false, true, Option, List, [], ◌∷◌, ◌++◌, All, length, arith}
use orch_kit.Result.{ok}
use orch_kit.Json.{Json, Fields}
use orch_kit.Bridge.Frame.{
  Bytes, Limits, validate_limits, Answer, Socket, receive_frame, send_frame,
}
use orch_kit.Bridge.Frame.Bytes.{length-++}
use orch_kit.Bridge.Frame.Exact.{IsPrompt}
use orch_kit.Bridge.Frame.Round.{IsRoundTrip, receive_frame-send_frame}

module _ (loads : Bytes → Option Json) (dumps : Fields → Option Bytes) where
  -- The bytes that one sender writes for values in this order.
  pub data Sent (l : Limits) : List Fields → Bytes → Type 0 where
    quiet : Sent l [] []
    next :
        {value : Fields} {values : List Fields} {frame bytes : Bytes} (budget : Option ℕ)
        → send_frame loads dumps value l budget false ≡ ok frame
        → Sent l values bytes
        → Sent l (value ∷ values) (frame ++ bytes)

  -- The values that one receiver reads, and the socket behind them.
  pub data Reads (l : Limits) : Socket → List Fields → Socket → Type 0 where
    stop : {s : Socket} → Reads l s [] s
    next :
        {s t u : Socket} {value : Fields} {values : List Fields}
        → receive_frame loads dumps s l ≡ ok (value, t)
        → Reads l t values u
        → Reads l s (value ∷ values) u

  -- The frames that one side sends are read on the other as the same values in the same order, in whatever
  -- pieces the stream arrives, and nothing of the stream is left over: values that json can carry, valid
  -- limits, and at least as many calls of `recv` as bytes, none of which runs into its time limit.
  pub Sent-Reads :
      (l : Limits) (values : List Fields) (bytes rest : Bytes) (answers : List Answer)
      → All (IsRoundTrip loads dumps) values
      → validate_limits l true ≡ ok tt
      → Sent l values bytes
      → IsPrompt answers
      → length bytes ≤ length answers
      → (later : List Answer) × Reads l
          (record { pending = bytes ++ rest; answers = answers })
          values
          (record { pending = rest; answers = later })
  Sent-Reads l [] bytes rest answers codec limits Sent.quiet prompt enough = (answers, Reads.stop)
  Sent-Reads l (value ∷ values) bytes rest answers codec limits
        (Sent.next {frame} {bytes = more} budget h sent) prompt enough =
      let joined = length-++ frame more in
      let one =
        receive_frame-send_frame loads dumps value l budget frame (more ++ rest) answers codec.0
          limits h prompt (omega arith) in
      let (later, others) =
        Sent-Reads l values more rest one.later codec.1 limits sent one.prompt
          (omega (arith, one.enough)) in
      (
        later,
        subst
            (λ xs.
              Reads l (record { pending = xs; answers = answers }) (value ∷ values)
                (record { pending = rest; answers = later }))
            (sym (append_assoc frame more rest)) (Reads.next one.is others),
      )

-- ===== src/Worker/Reply.antt =====
-- What an outcome that passes its tests holds.
use orch_kit.Prelude.{is_id_char}
use mathlib.Core.Path.{subst}
use orch_kit.Path.{is_nil}
use orch_kit.Prelude.{
  ℕ, ◌≡◌, ◌≢◌, ◌≤◌, ◌⊎◌, refl, true, none, some, List, [], ◌∷◌, ◌&&◌, ◌||◌, nat_eq, Option, length,
  inl, inr, arith, String, eq_iff, leb,
}
use orch_kit.Result.{ok, guard, guard-eq-ok, >>-eq-ok, worker_operation_invalid}
use orch_kit.Worker.Defs.{
  OperationRequest, OutcomeState, Outcome, validate_operation, build_outcome, check_state,
  validate_worker_outcome, is_error_code, identifier, is_file_kind, is_process_kind,
  worker_schema_version, check_target,
}

-- Bytes only with success, and an error code exactly without it.
abbrev pub IsSettled : Outcome → Type 0
IsSettled o =
    ((o.state ≡ OutcomeState.succeeded) × (o.error_code ≡ none))
    ⊎ ((o.state ≢ OutcomeState.succeeded) × (o.output ≡ []) × (is_error_code o.error_code ≡ true))

is_nil-eq : (s : List ℕ) → is_nil s ≡ true → s ≡ []
is_nil-eq [] h = refl
is_nil-eq (a ∷ s) h = cc

check_state-IsSettled : (o : Outcome) → check_state o ≡ ok tt → IsSettled o
unfolding check_state
check_state-IsSettled o h = go o.state refl o.error_code refl
  where
    go : (s : OutcomeState) → o.state ≡ s → (c : Option String) → o.error_code ≡ c → IsSettled o
    go OutcomeState.succeeded e none f = inl (e, f)
    go OutcomeState.succeeded e (some c) f = ground (arith, e, f, h)
    go OutcomeState.refused e c f =
        inr (ground (arith, e), ground (arith, e, h, is_nil-eq o.output), ground (arith, e, h))
    go OutcomeState.failed e c f =
        inr (ground (arith, e), ground (arith, e, h, is_nil-eq o.output), ground (arith, e, h))
    go OutcomeState.unknown e c f =
        inr (ground (arith, e), ground (arith, e, h, is_nil-eq o.output), ground (arith, e, h))

checked : (o : Outcome) → build_outcome o ≡ ok tt → check_state o ≡ ok tt
unfolding build_outcome
checked o b = ground (arith, b)

accepted :
    (request : OperationRequest) (outcome result : Outcome)
    → validate_worker_outcome request outcome ≡ ok result
    → (outcome.operation_id ≡ request.operation_id)
      × (length outcome.output ≤ request.max_output_bytes)
      × (outcome ≡ result)
unfolding validate_worker_outcome
accepted request outcome result v =
    ground (arith, v, eq_iff outcome.operation_id request.operation_id)

within : (n most : ℕ) → (leb 1 n && leb n most) ≡ true → n ≤ most
within n most h = ground (arith, h)

-- An operation that passes has a target of its kind, and asks for at most 64 KiB.
pub operation_parts :
    (r : OperationRequest)
    → validate_operation r ≡ ok tt
    → (check_target r.kind r.target ≡ ok tt) × (r.max_output_bytes ≤ 65536)
unfolding validate_operation
operation_parts r h =
    let (schema, h1) =
      >>-eq-ok
        (guard (nat_eq r.schema_version worker_schema_version) (worker_operation_invalid "schema"))
        _ h in
    let (operation, h2) = >>-eq-ok (identifier r.operation_id "operation_id" 200 is_id_char) _ h1 in
    let (kind, h3) =
      >>-eq-ok
        (guard (is_file_kind r.kind || is_process_kind r.kind) (worker_operation_invalid "kind")) _
        h2 in
    let (target, last) = >>-eq-ok (check_target r.kind r.target) _ h3 in
    (
      target,
      within r.max_output_bytes 65536
          (guard-eq-ok _ (worker_operation_invalid "output_limit") last),
    )

-- An outcome that is built and compared with the request it answers carries at most 64 KiB, of the
-- operation of the request. It has bytes only where it succeeded, and an error code exactly where it did not.
pub validate_worker_outcome-bounded :
    (request : OperationRequest) (outcome result : Outcome)
    → validate_operation request ≡ ok tt
    → build_outcome outcome ≡ ok tt
    → validate_worker_outcome request outcome ≡ ok result
    → (result.operation_id ≡ request.operation_id)
      × (length result.output ≤ 65536)
      × IsSettled result
validate_worker_outcome-bounded request outcome result r b v =
    let small = (operation_parts request r).1 in
    let (same, fits, eq) = accepted request outcome result v in
    subst
      (λ (o : Outcome).
        (o.operation_id ≡ request.operation_id) × (length o.output ≤ 65536) × IsSettled o)
      eq (same, omega arith, check_state-IsSettled outcome (checked outcome b))

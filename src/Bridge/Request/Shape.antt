-- ===== src/Bridge/Request/Shape.antt =====
-- What a request that passes its tests looks like.
use mathlib.Core.Path.{sym, ap}
use orch_kit.Prelude.{
  ℕ, String, Bool, true, false, Option, none, some, List, [], ◌∷◌, ◌==◌, ◌≡◌, ◌∙◌, ◌≤◌, ◌⊎◌, inl,
  inr, refl, any, codes, eq_iff, arith,
}
use orch_kit.Result.{
  Result, ok, err, guard, ◌>>◌, >>-eq-ok, guard-eq-ok, local_bridge_invalid_request,
}
use orch_kit.Json.{Json, Fields, get, has_keys}
use orch_kit.Path.{normalize_relative_path}
use orch_kit.Worker.{validate_operation, identifier, is_file_kind}
use orch_kit.Worker.Reply.{operation_parts}
use orch_kit.Worker.Target.{file_target-normalize_relative_path}
use orch_kit.Bridge.Frame.{Limits}
use orch_kit.Bridge.Request.Tokens.{
  IsToken, IsRouting, IsIdentifying, is_identifier-text, is_routing-text,
}
use orch_kit.Bridge.Request.{
  is_identifier, is_routing, is_one, common, operation_of, is_within, request_keys, request_of,
  relabel, check_request_target, validate_request,
}

within-integer :
    (l : Limits) (o : Option Json)
    → is_within l o ≡ true
    → (n : ℕ) × (o ≡ some (Json.integer n))
      × (l.min_response_bytes ≤ n)
      × (n ≤ l.max_response_bytes)
within-integer l (some (Json.integer n)) h = (n, refl, ground (arith, h), ground (arith, h))
within-integer l (some _) h = cc
within-integer l none h = cc

is_local : String → Bool
is_local operation = any (λ o. o == operation) ("session.status" ∷ "file.read" ∷ "file.list" ∷ [])

operation_of-text :
    (o : Option Json) (s : String)
    → operation_of o ≡ some s
    → (o ≡ some (Json.text s)) × (is_local s ≡ true)
unfolding operation_of is_local any
operation_of-text o s h = ground (arith, h)

relabel-ok : (r : Result (Unit {0})) → relabel r ≡ ok tt → r ≡ ok tt
relabel-ok (ok tt) h = refl
relabel-ok (err e) h = cc

local-is_file_kind :
    (s : String) → is_local s ≡ true → (s == "session.status") ≡ false → is_file_kind s ≡ true
unfolding is_local any
local-is_file_kind s h e =
    ground (arith, h, e, eq_iff "session.status" s, eq_iff s "session.status")

local-read :
    (s : String)
    → is_local s ≡ true
    → (s == "session.status") ≡ false
    → (s ≡ "file.read") ⊎ (s ≡ "file.list")
unfolding is_local any
local-read s h e = ground (
  arith,
  h,
  e,
  eq_iff "session.status" s,
  eq_iff s "session.status",
  eq_iff "file.read" s,
  eq_iff "file.list" s,
)

-- `session.status` has no target, and `file.read` and `file.list` have a path in normal form. No other
-- operation is asked for.
abbrev pub IsTargeted : String → Option Json → Type 0
IsTargeted operation target =
    ((operation ≡ "session.status") × (target ≡ some Json.null))
    ⊎ ((t : String) × (target ≡ some (Json.text t))
        × ((operation ≡ "file.read") ⊎ (operation ≡ "file.list"))
        × (normalize_relative_path (codes t) ≡ ok (codes t)))

check_request_target-IsTargeted :
    (request_id operation : String) (target : Option Json)
    → is_local operation ≡ true
    → check_request_target (some (Json.text request_id)) operation target ≡ ok tt
    → IsTargeted operation target
unfolding check_request_target
check_request_target-IsTargeted request_id operation none local h = cc
check_request_target-IsTargeted request_id operation (some target) local h =
    go (operation == "session.status") refl target refl h
  where
    go :
        (b : Bool)
        → (operation == "session.status") ≡ b
        → (j : Json) → target ≡ j
        → elim b as (λ x. Result (Unit {0})) [
          | true ↦ elim j [ Json.null ↦ ok tt | _ ↦ err local_bridge_invalid_request ]
          | false ↦ elim j [
            | Json.text t ↦ relabel (validate_operation (request_of request_id operation t))
            | _ ↦ err local_bridge_invalid_request
          ]
        ]
          ≡ ok tt
        → IsTargeted operation (some target)
    go true e Json.null f k = inl ((eq_iff operation "session.status").0 e, ap some f)
    go true e _ f k = cc
    go false e (Json.text t) f k =
        let file = local-is_file_kind operation local e in
        let passed = (operation_parts (request_of request_id operation t) (relabel-ok _ k)).0 in
        inr (
          t,
          ap some f,
          local-read operation local e,
          file_target-normalize_relative_path (codes t) (ground (arith, passed, file)),
        )
    go false e _ f k = cc

pub record Shape (value : Fields) (l : Limits) : Type 0 where
  pub request_id : String
  pub session_id : String
  pub operation : String
  pub budget : ℕ
  pub keys : has_keys request_keys value ≡ true
  pub version : get "schema_version" value ≡ some (Json.integer 1)
  pub identified : get "request_id" value ≡ some (Json.text request_id)
  pub identifying : IsToken IsIdentifying 1 200 request_id
  pub routed : get "session_id" value ≡ some (Json.text session_id)
  pub routing : IsToken IsRouting 24 200 session_id
  pub asked : get "operation" value ≡ some (Json.text operation)
  pub sized : get "max_response_bytes" value ≡ some (Json.integer budget)
  pub enough : l.min_response_bytes ≤ budget
  pub bounded : budget ≤ l.max_response_bytes
  pub targeted : IsTargeted operation (get "target" value)

one-integer : (o : Option Json) → is_one o ≡ true → o ≡ some (Json.integer 1)
one-integer (some (Json.integer n)) h = ground (arith, h)
one-integer (some _) h = cc
one-integer none h = cc

common-eq :
    (value : Fields) (keys : List String)
    → common value keys ≡ ok tt
    → (has_keys keys value ≡ true)
      × (is_one (get "schema_version" value) ≡ true)
      × (is_identifier (get "request_id" value) ≡ true)
unfolding common
common-eq value keys h = ground (arith, h)

-- What is behind the session's test.
request_parts :
    (value result : Fields) (l : Limits)
    → validate_request value l ≡ ok result
    → (common value request_keys ≡ ok tt)
      × (is_routing (get "session_id" value) ≡ true)
      × ((operation : String) × (operation_of (get "operation" value) ≡ some operation)
          × (is_within l (get "max_response_bytes" value) ≡ true)
          × (check_request_target (get "request_id" value) operation (get "target" value) ≡ ok tt)
          × (value ≡ result))
unfolding validate_request
request_parts value result l h =
    let (c, h1) = >>-eq-ok (common value request_keys) _ h in
    let (g, h2) =
      >>-eq-ok (guard (is_routing (get "session_id" value)) local_bridge_invalid_request) _ h1 in
    (
      c,
      guard-eq-ok (is_routing (get "session_id" value)) local_bridge_invalid_request g,
      go (operation_of (get "operation" value)) refl h2,
    )
  where
    rest : String → Result Fields
    rest operation = do
      guard (is_within l (get "max_response_bytes" value)) local_bridge_invalid_request
      check_request_target (get "request_id" value) operation (get "target" value)
      ok value

    go :
        (o : Option String)
        → operation_of (get "operation" value) ≡ o
        → elim o as (λ x. Result Fields) [
          | none ↦ err local_bridge_invalid_request
          | some operation ↦ rest operation
        ]
          ≡ ok result
        → (operation : String) × (operation_of (get "operation" value) ≡ some operation)
          × (is_within l (get "max_response_bytes" value) ≡ true)
          × (check_request_target (get "request_id" value) operation (get "target" value) ≡ ok tt)
          × (value ≡ result)
    go none e k = cc
    go (some operation) e k =
        let (w, k1) =
          >>-eq-ok
            (guard (is_within l (get "max_response_bytes" value)) local_bridge_invalid_request) _
            k in
        let (t, k2) =
          >>-eq-ok (check_request_target (get "request_id" value) operation (get "target" value)) _
            k1 in
        (
          operation,
          e,
          guard-eq-ok (is_within l (get "max_response_bytes" value)) local_bridge_invalid_request w,
          t,
          ground (arith, k2),
        )

-- A request that is accepted has exactly its six fields: the version 1; a request id of 1 to 200 letters,
-- digits, dots, underscores and dashes; a session id of 24 to 200 letters, digits, underscores and dashes;
-- one of the operations `session.status`, `file.read` and `file.list`; a room for the response within the
-- limits; and a target that is null for `session.status` and a relative path in normal form for the other
-- two. It is passed on as it came.
pub validate_request-Shape :
    (value result : Fields) (l : Limits)
    → validate_request value l ≡ ok result
    → Shape value l × (value ≡ result)
validate_request-Shape value result l h =
    let (c, routing, (operation, o, w, t, same)) = request_parts value result l h in
    let (keys, one, identifier) = common-eq value request_keys c in
    let (request_id, i, identifying) = is_identifier-text (get "request_id" value) identifier in
    let (session_id, r, token) = is_routing-text (get "session_id" value) routing in
    let (asked, local) = operation_of-text (get "operation" value) operation o in
    let (budget, sized, enough, bounded) = within-integer l (get "max_response_bytes" value) w in
    let checked = ap (λ x. check_request_target x operation (get "target" value)) (sym i) ∙ t in
    (
      record {
        request_id = request_id;
        session_id = session_id;
        operation = operation;
        budget = budget;
        keys = keys;
        version = one-integer (get "schema_version" value) one;
        identified = i;
        identifying = identifying;
        routed = r;
        routing = token;
        asked = asked;
        sized = sized;
        enough = enough;
        bounded = bounded;
        targeted =
            check_request_target-IsTargeted request_id operation (get "target" value) local checked;
      },
      same,
    )

-- ===== src/Examples/Sessions.antt =====
-- A session for the first run of the plan, before and behind its end.
use orch_kit.Prelude.{full_match}
use orch_kit.Prelude.{ℕ, String, ◌≡◌, ◌++◌, refl, true, none, some, List, [], ◌∷◌, any, find}
use orch_kit.Result.{Result, ok, err, bridge_run_already_bound_locally}
use orch_kit.Json.{Json, Fields, get, has, has_keys, all_keys}
use orch_kit.Ledger.{Ledger, empty}
use orch_kit.Worker.{RunBinding, validate_binding, identifier}
use orch_kit.History.{Command, history}
use orch_kit.Bridge.Session.{
  ProjectProbe, lease_from_capability, check_project, latest_attempt, writers, require_live_run,
  Authority, start_authority, open_session, require_session,
}
use orch_kit.Bridge.Session.Keep.{Reach, IsSound, Reach-IsSound}
use orch_kit.Bridge.Session.Fence.{require_session-exclusive, ended_session-refused}
use orch_kit.Examples.Data.{ledger_after, no_match, started, verifying, verified, finished, run_of}

abbrev busy : Ledger
unfolding ledger_after
busy = ledger_after started

abbrev binding : RunBinding
binding = record { project_id = "p"; writer_key = "w"; task_id = "a"; run_id = "r1"; attempt = 1 }

abbrev project : ProjectProbe
project = record {
  root = "/work";
  identity_matches = true;
  configured_root = "/work";
  configured_project = "p";
  configured_writer = "w";
  configured_branch = some "main";
  payload_project = some "p";
  payload_writer = some "w";
  payload_branch = none;
  current_root = "/work";
  current_writer = "w";
  current_branch = some "main";
  current_head = some "c1";
}

abbrev lease : Result String
lease = ok (run_of busy "r1").lease_token

test_live : require_live_run busy binding lease (ok project) ≡ ok tt
unfolding ledger_after require_live_run validate_binding identifier full_match latest_attempt
    writers check_project
test_live = refl

abbrev fresh : Authority
fresh = record { max_worker_sessions = 1; sessions = [] }

abbrev one : Authority
one = record {
  max_worker_sessions = 1;
  sessions = record { session_id = "s1"; binding = binding } ∷ [];
}

test_opened : open_session busy fresh binding lease (ok project) "s1" ≡ ok one
unfolding ledger_after open_session require_live_run validate_binding identifier full_match
    latest_attempt writers check_project any
test_opened = refl

test_twice :
    open_session busy (record one { max_worker_sessions = 2 }) binding lease (ok project) "s2"
    ≡ err bridge_run_already_bound_locally
unfolding ledger_after open_session require_live_run validate_binding identifier full_match
    latest_attempt writers check_project any
test_twice = refl

one-Reach : Reach one
unfolding start_authority
one-Reach =
    Reach.opened busy binding lease (ok project) "s1" (Reach.begun {a = fresh} 1 refl) test_opened

Reach-IsSound_example : IsSound one
Reach-IsSound_example = Reach-IsSound one one-Reach

test_required : require_session busy one "s1" binding lease (ok project) ≡ ok tt
unfolding ledger_after require_session require_live_run validate_binding identifier full_match
    latest_attempt writers check_project find
test_required = refl

require_session-exclusive_example : ◌≡◌ {A = String} "s1" "s1"
require_session-exclusive_example =
    require_session-exclusive busy one "s1" "s1" binding binding lease lease (ok project)
      (ok project) one-Reach test_required test_required refl

-- The commands that end the first run, and the one that claims the second task behind it.
abbrev ending : List (Command × ℕ)
ending = started ++ verifying ++ verified ++ (Command.completes "r1" (ok tt), 6) ∷ []

abbrev ended : Ledger
unfolding ledger_after
ended = ledger_after ending

ended_session-refused_example : ¬ (
    require_session
      (history no_match (history no_match empty ending) finished)
      one
      "s1"
      binding
      lease
      (ok project)
    ≡ ok tt)
unfolding ledger_after
ended_session-refused_example =
    ended_session-refused no_match ending finished binding (run_of ended "r1") one "s1" lease
      (ok project) refl refl

abbrev capability : Fields
capability =
    Fields.field "lease_token" (Json.text "lease")
      (Fields.field "run_id" (Json.text "r1") Fields.no_field)

test_lease :
    lease_from_capability "r1" true (some (ok (record { held = capability; is_private = true })))
    ≡ lease
unfolding ledger_after lease_from_capability get has_keys all_keys has any
test_lease = refl

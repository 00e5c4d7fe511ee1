-- ===== src/Examples/Data.antt =====
-- A plan of two tasks of one writer, the second behind the first, and the commands that finish the first
-- and claim the second.
use orch_kit.Prelude.{
  is_project_id, is_run_id, full_match, match_between, ℕ, String, Bool, true, false, none, some,
  List, [], ◌∷◌, find, update, delete, put, any, select, count, is_blank, strip, truncate,
}
use orch_kit.Attempt.{leased_run, require_paths_allowed}
use orch_kit.Path.{
  path_allowed, normalize_relative_path, strip_slashes, same, ends_with_slash, is_prefix,
}
use orch_kit.Review.{decide_review}
use orch_kit.Completion.{assert_snapshot_current}
use orch_kit.Result.{ok}
use orch_kit.Ledger.{
  RunState, TaskStatus, PublicationKind, PublicationPolicy, ReviewMode, ReviewPolicy, Payload,
  Receipt, Task, Run, Ledger, Manifest, empty, find_run, find_task, dependencies_done, attempts,
  active_writer_locks,
}
use orch_kit.Planning.{
  PlanItem, Document, new_tasks, has_repeat, check_dependencies, check_conflicts, max_queue,
}
use orch_kit.Planning.Graph.{
  validate_dependency_graph, search, visit, each, inner, ids_of, dependencies_of, colour_of,
  set_colour,
}
use orch_kit.Claim.{
  ScopeStatus, Protected, Census, Probe, pass, ClaimRequest, ClaimProbe, claim, claim_unpaused,
  claim_next, scan, queue_order, consider, claim_task, start_run, insert_run, preflight, recheck,
  block_exhausted, block_claim, abandon,
}
use orch_kit.Review.{sorted_set, insert_text}
use orch_kit.Verification.{
  Taken, Observation, begin_verification, gate, judge, commit_verification,
  workspace_scope_evidence, normalize_all, census_of, observed_of, is_among, is_observed,
  scoped_gate,
}
use orch_kit.History.{Command, history}

abbrev pub no_match : String → String → Bool
no_match path pattern = false

abbrev pub local_publication : PublicationPolicy
local_publication = record {
  kind = PublicationKind.no_publication;
  branch = none;
  expected_base = none;
  remote_url = none;
}

abbrev pub risk_review : ReviewPolicy
risk_review = record {
  mode = ReviewMode.risk_based;
  risk_tags = "docs" ∷ [];
  trigger_tags = "security" ∷ [];
  sensitive_patterns = "*.pem" ∷ [];
  large_diff_files = 10;
  large_diff_bytes = 1000;
  review_on_retry = true;
}

abbrev pub payload_of : List String → Payload
payload_of dependencies = record {
  allowed_paths = "src/" ∷ "README.md" ∷ [];
  protected_paths = ("notes", "h") ∷ [];
  dependencies = dependencies;
  max_attempts = 2;
  owner_acceptance = false;
  publication = local_publication;
  review = risk_review;
}

abbrev pub item_of : String → List String → PlanItem
item_of id dependencies = record {
  id = id;
  project_id = some "p";
  writer_key = "w";
  payload = payload_of dependencies;
}

abbrev pub document : Document
document = record {
  plan_revision = "rev";
  digest = "d";
  items = item_of "a" [] ∷ item_of "b" ("a" ∷ []) ∷ [];
}

abbrev pub census : Census
census = record { status = ScopeStatus.clean; observed_paths = []; git_head = some "c1" }

abbrev pub probe : Probe
probe = record {
  git = record {
    has_binary = true;
    in_work_tree = true;
    answered = true;
    head = some "c1";
    branch = some "main";
  };
  workspace = record {
    protected = Protected.hashed "notes" (some "h") ∷ [];
    census = census;
    authority_blocked = none;
  };
}

abbrev pub probe_of : String → Task → ClaimProbe
probe_of run_id task = record {
  before = probe;
  context = pass tt;
  behind = probe;
  repair_before = record { binding = pass tt; sources = pass tt };
  repair_behind = record { binding = pass tt; sources = pass tt };
  run_id = run_id;
  lease_token = "lease";
  capability = pass tt;
}

abbrev pub request : ClaimRequest
request = record { worker_id = "me"; project_id = none; repair_from = none }

abbrev pub receipt : Receipt
receipt = record {
  run_id = "r1";
  task_id = "a";
  changed_paths = "src/x.py" ∷ [];
  sha256 = "s";
  bytes = 3;
}

abbrev pub manifest : Manifest
manifest = record {
  files = record { path = "src/x.py"; deleted = false; sha256 = some "h"; bytes = 3 } ∷ [];
  git_head = some "c1";
}

abbrev pub observation : Observation
observation = record {
  worktree = ok (
      some (record {
        tracked = "src/x.py" ∷ [];
        staged = "src/x.py" ∷ [];
        untracked = "notes" ∷ [];
        head = some "c1";
      }));
  authority = none;
  snapshot = Taken.taken manifest;
  checks = record { id = "unit"; exit_code = 0; timed_out = false } ∷ [];
  authority_after = none;
  stale = none;
  snapshot_id = "snap";
}

-- Up to the claim of the first task.
abbrev pub started : List (Command × ℕ)
started =
    (Command.loads (ok document) (ok tt), 1) ∷ (Command.claims request (probe_of "r1"), 2) ∷ []

-- From its submission to its verification.
abbrev pub verifying : List (Command × ℕ)
verifying =
    (Command.submits "r1" "lease" (ok receipt) (ok tt) (ok false), 3)
    ∷ (Command.quiesces "r1" "lease" (ok tt) (ok false), 4)
    ∷ []

abbrev pub verified : List (Command × ℕ)
verified = (Command.verifies "r1" observation, 5) ∷ []

abbrev pub finished : List (Command × ℕ)
finished = (Command.completes "r1" (ok tt), 6) ∷ (Command.claims request (probe_of "r2"), 7) ∷ []

unfoldable pub ledger_after : List (Command × ℕ) → Ledger
unfolding history find update delete put any select count is_blank strip truncate leased_run
    require_paths_allowed path_allowed normalize_relative_path strip_slashes same ends_with_slash
    is_prefix decide_review claim claim_unpaused is_project_id is_run_id full_match match_between
    claim_next scan queue_order consider dependencies_done attempts active_writer_locks claim_task
    start_run insert_run preflight recheck new_tasks has_repeat check_dependencies check_conflicts
    max_queue begin_verification gate judge commit_verification workspace_scope_evidence
    normalize_all census_of observed_of is_among is_observed sorted_set insert_text scoped_gate
    assert_snapshot_current block_exhausted block_claim abandon validate_dependency_graph search
    visit each inner ids_of dependencies_of colour_of set_colour
ledger_after cs = history no_match empty cs

-- The rows of a ledger, for a key that it has.
abbrev pub blank_run : Run
blank_run = record {
  run_id = "";
  task_id = "";
  attempt = 0;
  worker_id = "";
  state = RunState.blocked;
  lease_token = "";
  started_at = 0;
  heartbeat_at = 0;
  claim_git_head = none;
  submitted_at = none;
  snapshot_id = none;
  receipt = none;
  verify_status = none;
  review_status = none;
  feedback = none;
  completed_at = none;
  error = none;
}

abbrev pub run_of : Ledger → String → Run
run_of l id = elim (find_run l id) [ none ↦ blank_run | some r ↦ r ]

abbrev pub blank_task : Task
blank_task = record {
  task_id = "";
  plan_revision = "";
  ordinal = 0;
  project_id = none;
  writer_key = "";
  queue_seq = 0;
  status = TaskStatus.blocked;
  payload = payload_of [];
  updated_at = 0;
}

abbrev pub task_of : Ledger → String → Task
task_of l id = elim (find_task l id) [ none ↦ blank_task | some t ↦ t ]

-- Aborted while its verification runs, and claimed again.
abbrev pub claimed_again : List (Command × ℕ)
claimed_again =
    (Command.aborts "r1" "stuck" true false (ok tt) (ok false), 5)
    ∷ (Command.claims request (probe_of "r2"), 6)
    ∷ []

-- ===== src/Claim/Guards.antt =====
-- `_claim_git_state` and `_claim_workspace_guard`: the decisions on what they observe.
use Prim.Native.String.{◌++◌ as append_text}
use orch_kit.Prelude.{
  String, Bool, true, false, not, ◌&&◌, ◌||◌, Option, none, some, List, [], ◌∷◌, ◌==◌,
  if◌then◌else◌,
}
use orch_kit.Ledger.{Payload, PublicationKind, same_text}
use orch_kit.Claim.Check.{Check, pass, refuse, ◌>>=◌, ◌>>◌, ensure}

abbrev pub needs_git : PublicationKind → Bool
needs_git PublicationKind.no_publication = false
needs_git _ = true

pub data ScopeStatus : Type 0 where
  clean dirty non_git : ScopeStatus

-- What `_workspace_scope_evidence` found for an empty list of declared paths.
pub record Census : Type 0 where
  pub status : ScopeStatus
  pub observed_paths : List String
  pub git_head : Option String

-- What the git commands of `_claim_git_state` answered. `head` is the commit if the answer is one
-- that the pattern of a commit id admits.
pub record GitAnswer : Type 0 where
  pub has_binary : Bool
  pub in_work_tree : Bool
  pub answered : Bool
  pub head : Option String
  pub branch : Option String

pub record Identity : Type 0 where
  pub head : Option String
  pub branch : Option String

abbrev pub no_identity : Identity
no_identity = record { head = none; branch = none }

abbrev pub is_non_git : ScopeStatus → Bool
is_non_git ScopeStatus.non_git = true
is_non_git _ = false

abbrev pub matches : Option String → Option String → Bool
matches none found = true
matches (some wanted) found = same_text (some wanted) found

abbrev pub head_is_scope : Option Census → String → Bool
head_is_scope none head = true
head_is_scope (some s) head = same_text s.git_head (some head)

-- The tests on the commit that was read.
unfoldable pub check_head : Payload → GitAnswer → Option Census → String → Check Identity
check_head payload git scope head = do
  ensure (head_is_scope scope head) "claim_git_head_changed_during_preflight"
  ensure (not (needs_git payload.publication.kind) || matches payload.publication.branch git.branch)
      "claim_branch_mismatch"
  ensure
      (not (needs_git payload.publication.kind)
        || matches payload.publication.expected_base (some head))
      "claim_expected_base_changed"
  pass (record { head = some head; branch = git.branch })

-- The census already shows that there is no commit to read.
abbrev pub census_outside : Option Census → Bool
census_outside none = false
census_outside (some s) = is_non_git s.status || same_text s.git_head none

-- Without a census the work tree is probed.
abbrev pub probe_outside : Option Census → GitAnswer → Bool
probe_outside none git = not git.in_work_tree
probe_outside (some s) git = false

unfoldable pub claim_git_state : Payload → GitAnswer → Option Census → Check Identity
unfolding check_head
claim_git_state payload git scope =
    if not (needs_git payload.publication.kind) && census_outside scope
    then pass no_identity
    else do
      ensure git.has_binary "claim_git_binary_missing"
      if not (needs_git payload.publication.kind) && probe_outside scope git
          then pass no_identity
          else do
            ensure git.answered "claim_git_head_unavailable"
            elim git.head [
              | none ↦ refuse "claim_git_head_invalid"
              | some head ↦ check_head payload git scope head
            ]

-- A protected path and what stands there: its hash, no file, or a path that is refused.
pub data Protected : Type 0 where
  hashed : String → Option String → Protected
  unsafe : String → String → Protected

pub record Workspace : Type 0 where
  pub protected : List Protected
  pub census : Census
  pub authority_blocked : Option String

-- `expected` is the recorded hash of each protected path, in the order of the paths.
unfoldable pub check_protected : List (String × String) → List Protected → Check (Unit {0})
check_protected ((path, expected) ∷ rest) (Protected.hashed p actual ∷ found) = do
  ensure (same_text actual (some expected)) (append_text "claim_protected_path_changed:" path)
  check_protected rest found
check_protected ((path, expected) ∷ rest) (Protected.unsafe p reason ∷ found) =
    refuse (append_text "claim_protected_path_unsafe:" (append_text path (append_text ":" reason)))
check_protected _ _ = pass tt

abbrev pub first_path : List String → String
first_path [] = "unknown"
first_path (p ∷ ps) = p

abbrev pub head_unchanged : Option String → Census → Bool
head_unchanged none s = true
head_unchanged (some head) s = same_text s.git_head (some head)

abbrev pub check_census : Option String → Census → Check (Unit {0})
check_census head s = elim s.status [
  | ScopeStatus.dirty ↦ refuse (append_text "claim_workspace_dirty:" (first_path s.observed_paths))
  | ScopeStatus.clean ↦ ensure (head_unchanged head s) "claim_git_head_changed_during_preflight"
  | ScopeStatus.non_git ↦ pass tt
]

unfoldable pub claim_workspace_guard : Payload → Workspace → Option String → Check Census
unfolding check_protected
claim_workspace_guard payload w head = do
  check_protected payload.protected_paths w.protected
  check_census head w.census
  elim w.authority_blocked [ some reason ↦ refuse reason | none ↦ pass w.census ]

-- One observation of the workspace: before the context is built, and again behind it.
pub record Probe : Type 0 where
  pub git : GitAnswer
  pub workspace : Workspace

-- The preflight of a claim that is no repair.
unfoldable pub preflight : Payload → Probe → Check Identity
unfolding claim_git_state claim_workspace_guard
preflight payload p =
    if needs_git payload.publication.kind
    then (do
      identity ← claim_git_state payload p.git none
      census ← claim_workspace_guard payload p.workspace identity.head
      pass identity)
    else (do
      census ← claim_workspace_guard payload p.workspace none
      claim_git_state payload p.git (some census))

abbrev pub branch_changed : Check Identity → Check Identity
branch_changed (pass i) = pass i
branch_changed (refuse s) =
    if s == "claim_branch_mismatch"
    then refuse "claim_branch_changed_during_preflight"
    else refuse s

-- The second look, behind the context: nothing may have moved.
unfoldable pub recheck : Payload → Probe → Identity → Check Identity
unfolding claim_git_state claim_workspace_guard
recheck payload p before = do
  census ← claim_workspace_guard payload p.workspace before.head
  now ← branch_changed (claim_git_state payload p.git (some census))
  ensure (same_text now.head before.head) "claim_git_head_changed_during_preflight"
  ensure (same_text now.branch before.branch) "claim_branch_changed_during_preflight"
  pass before

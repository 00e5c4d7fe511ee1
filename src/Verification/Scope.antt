-- ===== src/Verification/Scope.antt =====
-- `_workspace_scope_evidence`: what changed in the workspace against what the receipt declares. What git
-- answers is a value.
use mathlib.Core.List.{map}
use orch_kit.Prelude.{
  String, Bool, false, not, ◌&&◌, Option, none, some, List, [], ◌∷◌, ◌++◌, any, select, codes,
  is_empty,
}
use orch_kit.Result.{Result, ok, ◌>>=◌}
use orch_kit.Path.{Chars, same, normalize_relative_path, path_allowed}
use orch_kit.Ledger.{Payload}
use orch_kit.Review.{sorted_set}

-- The paths of the three listings, each one as `normalize_relative_path` leaves it, and the head commit.
pub record Worktree : Type 0 where
  pub tracked : List String
  pub staged : List String
  pub untracked : List String
  pub head : Option String

pub record Census : Type 0 where
  pub git_head : Option String
  pub observed_paths : List String
  pub outside_allowlist : List String
  pub omitted_from_receipt : List String
  pub declared_but_unobserved : List Chars

-- NON_GIT_UNAVAILABLE, or a census, which passes or blocks.
pub data Scope : Type 0 where
  non_git_unavailable : Scope
  census : Census → Scope

unfoldable pub normalize_all : List String → Result (List Chars)
unfolding normalize_relative_path
normalize_all [] = ok []
normalize_all (p ∷ ps) = do
  path ← normalize_relative_path (codes p)
  rest ← normalize_all ps
  ok (path ∷ rest)

unfoldable pub is_among : List Chars → String → Bool
unfolding any same
is_among paths p = any (λ q. same q (codes p)) paths

abbrev pub listed : Worktree → List String
listed w = w.tracked ++ w.staged ++ w.untracked

unfoldable pub is_observed : List String → Chars → Bool
unfolding any same
is_observed observed d = any (λ p. same d (codes p)) observed

unfoldable pub observed_of : List Chars → Worktree → List String
unfolding select sorted_set is_among
observed_of protected w = select (λ p. not (is_among protected p)) (sorted_set (listed w))

unfoldable pub census_of : List String → List Chars → List Chars → Worktree → Census
unfolding observed_of select is_among is_observed path_allowed
census_of allowed declared protected w =
    let observed : List String = observed_of protected w in
    record {
      git_head = w.head;
      observed_paths = observed;
      outside_allowlist = select (λ p. not (path_allowed (codes p) (map codes allowed))) observed;
      omitted_from_receipt = select (λ p. not (is_among declared p)) observed;
      declared_but_unobserved = select (λ d. not (is_observed observed d)) declared;
    }

-- `none` is a workspace that is no work tree, and an error a git command that fails.
unfoldable pub workspace_scope_evidence :
    Payload → List String → Result (Option Worktree) → Result Scope
unfolding normalize_all census_of
workspace_scope_evidence payload declared_paths worktree = do
  declared ← normalize_all declared_paths
  found ← worktree
  elim found [
    | none ↦ ok Scope.non_git_unavailable
    | some w ↦ do
      protected ← normalize_all (map (λ e. e.0) payload.protected_paths)
      ok (Scope.census (census_of payload.allowed_paths declared protected w))
  ]

-- `status` is BLOCKED.
abbrev pub is_scope_blocked : Scope → Bool
is_scope_blocked Scope.non_git_unavailable = false
is_scope_blocked (Scope.census c) = not (
    is_empty c.outside_allowlist
    && is_empty c.omitted_from_receipt
    && is_empty c.declared_but_unobserved)

abbrev pub scope_head : Scope → Option String
scope_head Scope.non_git_unavailable = none
scope_head (Scope.census c) = c.git_head

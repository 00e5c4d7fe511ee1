-- ===== src/Prelude/Pattern.antt =====
-- The character classes of the patterns, and `re.fullmatch` of a class that repeats.
use Prim.Native.Nat.{ℕ}
use Prim.Native.String.{String}
use mathlib.Core.Bool.{Bool, true, not, ◌&&◌, ◌||◌}
use mathlib.Core.List.{List}
use mathlib.Core.Option.{Option, none, some}
use orch_kit.Prelude.Tests.{leb, nat_eq}
use orch_kit.Prelude.Lists.{length}
use orch_kit.Prelude.Table.{any}
use orch_kit.Prelude.Members.{is_empty}
use orch_kit.Prelude.Text.{codes}

abbrev pub is_digit : ℕ → Bool
is_digit c = leb b'0' c && leb c b'9'

abbrev pub is_lower : ℕ → Bool
is_lower c = leb b'a' c && leb c b'z'

abbrev pub is_upper : ℕ → Bool
is_upper c = leb b'A' c && leb c b'Z'

abbrev pub is_mark : ℕ → Bool
is_mark c = nat_eq c b'.' || nat_eq c b'_' || nat_eq c b'-'

-- [a-z0-9._-]
abbrev pub is_project_char : ℕ → Bool
is_project_char c = is_lower c || is_digit c || is_mark c

-- [A-Za-z0-9._-]
abbrev pub is_id_char : ℕ → Bool
is_id_char c = is_upper c || is_project_char c

-- `re.fullmatch` of a class under `+`
unfoldable pub full_match : (ℕ → Bool) → List ℕ → Bool
unfolding any
full_match test s = not (is_empty s) && not (any (λ c. not (test c)) s)

-- `re.fullmatch` of a class under `{least,most}`
unfoldable pub match_between : (ℕ → Bool) → ℕ → ℕ → List ℕ → Bool
unfolding full_match
match_between test least most s = leb least (length s) && leb (length s) most && full_match test s

-- [A-Za-z0-9._-]{1,160}
unfoldable pub is_project_id : String → Bool
unfolding match_between
is_project_id s = match_between is_id_char 1 160 (codes s)

-- [A-Za-z0-9._-]+
unfoldable pub is_run_id : String → Bool
unfolding full_match
is_run_id s = full_match is_id_char (codes s)

-- An argument that may be left out.
abbrev pub is_optional : (String → Bool) → Option String → Bool
is_optional test none = true
is_optional test (some s) = test s

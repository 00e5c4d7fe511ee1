-- ===== src/Review/Policy.antt =====
-- `decide_review` on a normalised policy. `fnmatch` is the standard library's matcher, a parameter.
-- The files of a manifest stand in the order of their paths, as `_snapshot` records them.
use orch_kit.Prelude.{
  ℕ, String, ◌+◌, Bool, true, false, ◌&&◌, ◌||◌, List, [], ◌∷◌, ◌++◌, ◌==◌, leb, ltb, nat_eq, any,
  select, length, take, if◌then◌else◌,
}
use text.Mathlib.Text.{is_lt}
use Prim.Native.Char.{code}
use Prim.Native.String.{compare}
use mathlib.Core.List.{map}
use orch_kit.Ledger.{ReviewPolicy, ReviewMode, FileRecord, Manifest}

pub data Signal : Type 0 where
  mode_required : Signal
  risk_tag sensitive_path : String → Signal
  large_diff_files large_diff_bytes retry_attempt : ℕ → Signal

pub record Decision : Type 0 where
  pub is_required : Bool
  pub signals : List Signal
  pub changed_files : ℕ
  pub changed_bytes : ℕ

unfoldable pub total_bytes : List FileRecord → ℕ
total_bytes [] = 0
total_bytes (f ∷ fs) = f.bytes + total_bytes fs

abbrev pub is_in : List String → String → Bool
is_in xs tag = any (λ x. x == tag) xs

-- A text into a strictly increasing list of texts: `sorted(set(...))`, one element at a time.
unfoldable pub insert_text : String → List String → List String
insert_text s [] = s ∷ []
insert_text s (t ∷ ts) =
    if s == t then t ∷ ts else if is_lt (compare s t) then s ∷ t ∷ ts else t ∷ insert_text s ts

unfoldable pub sorted_set : List String → List String
sorted_set [] = []
sorted_set (s ∷ ss) = insert_text s (sorted_set ss)

-- `path.replace("\\", "/")`
unfoldable pub slashed : String → String
slashed String.[] = String.[]
slashed (String.◌∷◌ c s) = String.◌∷◌ (if nat_eq (code c) 92 then "/" else c) (slashed s)

-- `_path_matches`: a path is matched as it is, and behind a slash.
unfoldable pub path_matches : (String → String → Bool) → List String → String → Bool
path_matches fnmatch patterns path =
    any
      (λ pattern. fnmatch (slashed path) pattern || fnmatch (String.◌∷◌ "/" (slashed path)) pattern)
      patterns

abbrev pub when : Bool → Signal → List Signal
when true s = s ∷ []
when false s = []

abbrev pub is_some_signal : List Signal → Bool
is_some_signal [] = false
is_some_signal (s ∷ ss) = true

module _ (fnmatch : String → String → Bool) (policy : ReviewPolicy) (manifest : Manifest)
    (attempt : ℕ) where
  unfoldable pub triggered_tags : List String
  unfolding sorted_set any
  triggered_tags = sorted_set (select (is_in policy.trigger_tags) policy.risk_tags)

  unfoldable pub sensitive : List String
  unfolding path_matches select
  sensitive =
      select (path_matches fnmatch policy.sensitive_patterns)
        (map (λ (f : FileRecord). f.path) manifest.files)

  -- The signals that a risk-based policy asks a review for.
  unfoldable pub risk_signals : List Signal
  unfolding triggered_tags sensitive total_bytes
  risk_signals =
      map Signal.risk_tag triggered_tags
      ++ map Signal.sensitive_path (take 20 sensitive)
      ++ when (leb policy.large_diff_files (length manifest.files))
          (Signal.large_diff_files (length manifest.files))
      ++ when (leb policy.large_diff_bytes (total_bytes manifest.files))
          (Signal.large_diff_bytes (total_bytes manifest.files))
      ++ when (ltb 1 attempt && policy.review_on_retry) (Signal.retry_attempt attempt)

  unfoldable pub decide_review : Decision
  unfolding risk_signals
  decide_review =
      let decision : Bool → List Signal → Decision = λ needed signals. record {
        is_required = needed;
        signals = signals;
        changed_files = length manifest.files;
        changed_bytes = total_bytes manifest.files;
      } in
      elim policy.mode [
        | ReviewMode.off ↦ decision false risk_signals
        | ReviewMode.required ↦ decision true (Signal.mode_required ∷ risk_signals)
        | ReviewMode.risk_based ↦ decision (is_some_signal risk_signals) risk_signals
      ]

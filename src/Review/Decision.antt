-- ===== src/Review/Decision.antt =====
-- When a risk-based policy lets a run pass without a review.
use mathlib.Core.List.{map}
use orch_kit.Prelude.{
  ℕ, String, ◌<◌, ◌≡◌, refl, Bool, true, false, ◌&&◌, List, [], ◌∷◌, ◌++◌, ltb, leb, select, take,
  length, All, arith,
}
use orch_kit.Ledger.{ReviewPolicy, ReviewMode, FileRecord, Manifest}
use orch_kit.Review.Policy.{
  Signal, is_in, insert_text, sorted_set, path_matches, when, is_some_signal, total_bytes,
  triggered_tags, sensitive, risk_signals, decide_review,
}

select-nothing {ℓ} :
    {A : Type ℓ} (f : A → Bool) (xs : List A) → select f xs ≡ [] → All (λ x. f x ≡ false) xs
unfolding select
select-nothing f [] h = tt
select-nothing f (x ∷ xs) h = (ground arith, select-nothing f xs (ground arith))

insert_text-cons : (s : String) (ts : List String) → insert_text s ts ≡ [] → ⊥
unfolding insert_text
insert_text-cons s [] h = cc
insert_text-cons s (t ∷ ts) h = ground arith

sorted_set-nothing : (ss : List String) → sorted_set ss ≡ [] → ss ≡ []
unfolding sorted_set
sorted_set-nothing [] h = refl
sorted_set-nothing (s ∷ ss) h = absurd (insert_text-cons s (sorted_set ss) h)

map-nothing {ℓ κ} : {A : Type ℓ} {B : Type κ} (f : A → B) (xs : List A) → map f xs ≡ [] → xs ≡ []
map-nothing f [] h = refl
map-nothing f (x ∷ xs) h = cc

append-nothing {ℓ} : {A : Type ℓ} (xs ys : List A) → xs ++ ys ≡ [] → (xs ≡ []) × (ys ≡ [])
append-nothing [] ys h = (refl, h)
append-nothing (x ∷ xs) ys h = cc

take-nothing {ℓ} : {A : Type ℓ} (xs : List A) → take 20 xs ≡ [] → xs ≡ []
take-nothing [] h = refl
take-nothing (x ∷ xs) h = cc

All-of-map {ℓ κ μ} :
    {A : Type ℓ} {B : Type κ} (P : B → Type μ) (f : A → B) (xs : List A)
    → All P (map f xs)
    → All (λ x. P (f x)) xs
All-of-map P f [] a = tt
All-of-map P f (x ∷ xs) a = (a.0, All-of-map P f xs a.1)

is_some_signal-nothing : (ss : List Signal) → is_some_signal ss ≡ false → ss ≡ []
is_some_signal-nothing [] h = refl
is_some_signal-nothing (s ∷ ss) h = cc

when-nothing : (b : Bool) (s : Signal) → when b s ≡ [] → b ≡ false
when-nothing false s h = refl
when-nothing true s h = cc

-- None of the five signals is there.
pub record IsQuiet (fnmatch : String → String → Bool) (policy : ReviewPolicy) (manifest : Manifest)
    (attempt : ℕ) : Type 0 where
  pub tags : All (λ tag. is_in policy.trigger_tags tag ≡ false) policy.risk_tags
  pub paths :
      All
        (λ (f : FileRecord). path_matches fnmatch policy.sensitive_patterns f.path ≡ false)
        manifest.files
  pub files : length manifest.files < policy.large_diff_files
  pub bytes : total_bytes manifest.files < policy.large_diff_bytes
  pub retry : (ltb 1 attempt && policy.review_on_retry) ≡ false

module _ (fnmatch : String → String → Bool) (policy : ReviewPolicy) (manifest : Manifest)
    (attempt : ℕ) where
  risk_signals-IsQuiet :
      risk_signals fnmatch policy manifest attempt ≡ [] → IsQuiet fnmatch policy manifest attempt
  unfolding risk_signals triggered_tags sensitive
  risk_signals-IsQuiet h =
      let tags : List Signal =
        map Signal.risk_tag (triggered_tags fnmatch policy manifest attempt) in
      let paths : List Signal =
        map Signal.sensitive_path (take 20 (sensitive fnmatch policy manifest attempt)) in
      let files : List Signal =
        when (leb policy.large_diff_files (length manifest.files))
          (Signal.large_diff_files (length manifest.files)) in
      let bytes : List Signal =
        when (leb policy.large_diff_bytes (total_bytes manifest.files))
          (Signal.large_diff_bytes (total_bytes manifest.files)) in
      let retry : List Signal =
        when (ltb 1 attempt && policy.review_on_retry) (Signal.retry_attempt attempt) in
      let (h1, e) = append-nothing (tags ++ paths ++ files ++ bytes) retry h in
      let (h2, d) = append-nothing (tags ++ paths ++ files) bytes h1 in
      let (h3, c) = append-nothing (tags ++ paths) files h2 in
      let (a, b) = append-nothing tags paths h3 in
      let many = when-nothing _ _ c in
      let big = when-nothing _ _ d in
      record {
        tags =
            select-nothing _ policy.risk_tags
              (sorted_set-nothing _ (map-nothing Signal.risk_tag _ a));
        paths =
            All-of-map (λ p. path_matches fnmatch policy.sensitive_patterns p ≡ false)
              (λ (f : FileRecord). f.path) manifest.files
              (select-nothing _ _ (take-nothing _ (map-nothing Signal.sensitive_path _ b)));
        files = ground arith;
        bytes = ground arith;
        retry = when-nothing _ _ e;
      }

  -- A risk-based policy lets a run pass without a review only if no risk tag of the task is a trigger, no
  -- changed path matches a sensitive pattern, the changed files and their bytes stay below the limits,
  -- and the attempt is the first one or retries are not reviewed.
  pub decide_review-IsQuiet :
      policy.mode ≡ ReviewMode.risk_based
      → (decide_review fnmatch policy manifest attempt).is_required ≡ false
      → IsQuiet fnmatch policy manifest attempt
  unfolding decide_review
  decide_review-IsQuiet mode h = risk_signals-IsQuiet (is_some_signal-nothing _ (ground arith))

-- ===== src/Path/Allowlist.antt =====
-- What an allowlist admits.
use orch_kit.Prelude.{
  ℕ, ◌≡◌, ◌∙◌, inl, inr, refl, ap, Bool, true, false, ◌&&◌, ◌||◌, List, [], ◌∷◌, ◌++◌, any,
  Bool-cases, arith,
}
use orch_kit.Result.{Result, ok, err}
use orch_kit.Path.Defs.{
  Chars, slash, same, is_prefix, ends_with_slash, strip_slashes, entry_allows, path_allowed,
  normalize_relative_path,
}

pub same-path : (s t : Chars) → same s t ≡ true → s ≡ t
unfolding same
same-path [] [] h = refl
same-path (a ∷ s) (b ∷ t) h =
    let e = same-path s t (ground arith) in let f : a ≡ b = ground arith in ground (arith, e, f)
same-path [] (b ∷ t) h = cc
same-path (a ∷ s) [] h = cc

is_prefix-append : (s t : Chars) → is_prefix s t ≡ true → (u : Chars) × (t ≡ s ++ u)
unfolding is_prefix
is_prefix-append [] t h = (t, refl)
is_prefix-append (a ∷ s) [] h = cc
is_prefix-append (a ∷ s) (b ∷ t) h =
    let (u, e) = is_prefix-append s t (ground arith) in
    let f : b ≡ a = ground arith in (u, ground (arith, e, f))

-- An entry of an allowlist covers a path: it is the path, or it ends with a slash and the path lies below.
pub data Covers (entry path : Chars) : Type 0 where
  exact : normalize_relative_path (strip_slashes entry) ≡ ok path → Covers entry path
  below :
      (item rest : Chars)
      → ends_with_slash entry ≡ true
      → normalize_relative_path (strip_slashes entry) ≡ ok item
      → path ≡ item ++ slash ∷ rest
      → Covers entry path

snoc_append : (s t : Chars) (c : ℕ) → (s ++ c ∷ []) ++ t ≡ s ++ c ∷ t
snoc_append [] t c = refl
snoc_append (a ∷ s) t c = ap (λ x. a ∷ x) (snoc_append s t c)

entry_allows-Covers : (path entry : Chars) → entry_allows path entry ≡ true → Covers entry path
unfolding entry_allows
entry_allows-Covers path entry h = go (normalize_relative_path (strip_slashes entry)) refl h
  where
    go :
        (r : Result Chars)
        → normalize_relative_path (strip_slashes entry) ≡ r
        → elim r as (λ x. Bool) [
          | err e ↦ false
          | ok item ↦
              same path item || (ends_with_slash entry && is_prefix (item ++ slash ∷ []) path)
        ]
          ≡ true
        → Covers entry path
    go (err e) f k = cc
    go (ok item) f k = elim (Bool-cases (same path item)) [
      | inl y ↦ Covers.exact (rw (same-path path item y) f)
      | inr n ↦
          let (rest, g) = is_prefix-append (item ++ slash ∷ []) path (ground arith) in
          Covers.below item rest (ground arith) f (g ∙ snoc_append item rest slash)
    ]

pub same_refl : (s : Chars) → same s s ≡ true
unfolding same
same_refl [] = refl
same_refl (a ∷ s) = ground (arith, same_refl s)

is_prefix-append_lem : (s t : Chars) → is_prefix s (s ++ t) ≡ true
unfolding is_prefix
is_prefix-append_lem [] t = refl
is_prefix-append_lem (a ∷ s) t = ground (arith, is_prefix-append_lem s t)

Covers-entry_allows : (path entry : Chars) → Covers entry path → entry_allows path entry ≡ true
unfolding entry_allows
Covers-entry_allows path entry (Covers.exact e) =
    rw (entry_allows, e) (ground (arith, same_refl path))
Covers-entry_allows path entry (Covers.below item rest ends e p) =
    let q : is_prefix (item ++ slash ∷ []) path ≡ true =
      rw (p, ← snoc_append item rest slash) (is_prefix-append_lem (item ++ slash ∷ []) rest) in
    rw (entry_allows, e) (ground (arith, ends, q))

any-split :
    (f : Chars → Bool) (xs : List Chars)
    → any f xs ≡ true
    → (x : Chars) × (ys : List Chars) × (zs : List Chars) × (xs ≡ ys ++ x ∷ zs) × (f x ≡ true)
unfolding any
any-split f [] h = cc
any-split f (x ∷ xs) h = elim (Bool-cases (f x)) [
  | inl y ↦ (x, [], xs, refl, y)
  | inr n ↦
      let (z, ys, zs, e, k) = any-split f xs (ground arith) in (z, x ∷ ys, zs, ap (λ l. x ∷ l) e, k)
]

any-here :
    (f : Chars → Bool) (ys zs : List Chars) (x : Chars) → f x ≡ true → any f (ys ++ x ∷ zs) ≡ true
unfolding any
any-here f [] zs x h = ground arith
any-here f (y ∷ ys) zs x h = ground (arith, any-here f ys zs x h)

-- A path is allowed only if it normalises, and an entry of the allowlist covers the normal path.
pub path_allowed-covered :
    (relative : Chars) (allowlist : List Chars)
    → path_allowed relative allowlist ≡ true
    → (path : Chars) × (entry : Chars) × (ys : List Chars) × (zs : List Chars)
      × (normalize_relative_path relative ≡ ok path)
      × (allowlist ≡ ys ++ entry ∷ zs)
      × Covers entry path
unfolding path_allowed
path_allowed-covered relative allowlist h = go (normalize_relative_path relative) refl h
  where
    go :
        (r : Result Chars)
        → normalize_relative_path relative ≡ r
        → elim r as (λ x. Bool) [
          | err e ↦ false
          | ok normalized ↦ any (entry_allows normalized) allowlist
        ]
          ≡ true
        → (path : Chars) × (entry : Chars) × (ys : List Chars) × (zs : List Chars)
          × (normalize_relative_path relative ≡ ok path)
          × (allowlist ≡ ys ++ entry ∷ zs)
          × Covers entry path
    go (err e) f k = cc
    go (ok path) f k =
        let (entry, ys, zs, e, g) = any-split (entry_allows path) allowlist k in
        (path, entry, ys, zs, f, e, entry_allows-Covers path entry g)

-- A path that normalises to one which an entry of the allowlist covers is allowed, wherever the entry
-- stands.
pub path_allowed_complete :
    (relative path entry : Chars) (ys zs : List Chars)
    → normalize_relative_path relative ≡ ok path
    → Covers entry path
    → path_allowed relative (ys ++ entry ∷ zs) ≡ true
unfolding path_allowed
path_allowed_complete relative path entry ys zs h c =
    rw (path_allowed, h)
      (any-here (entry_allows path) ys zs entry (Covers-entry_allows path entry c))

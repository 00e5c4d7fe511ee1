-- ===== src/Prelude/Table.antt =====
-- A table with a text as primary key, as SQLite keeps it: at most one row has a key, so a lookup
-- and an UPDATE by key meet the first such row. Deletion is by key too.
use Prim.Native.Nat.{ℕ, suc, ◌+◌}
use Prim.Native.String.{String}
use mathlib.Core.Path.{◌≡◌, refl}
use mathlib.Core.Logic.{inl, inr}
use mathlib.Core.Bool.{Bool, true, false}
use mathlib.Core.Option
use mathlib.Core.Option.{Option, none, some}
use mathlib.Core.List.{List, [], ◌∷◌, ◌++◌}
use native.Mathlib.Omega.{arith}
use text.Mathlib.Text.{◌==◌}
use text.Mathlib.TextEquality.{eq_iff}
use orch_kit.Prelude.Tests.{if◌then◌else◌, Bool-cases}

abbrev pub or_else {ℓ} : {A : Type ℓ} → Option A → Option A → Option A
or_else (some a) o = some a
or_else none o = o

module _ {ℓ} {A : Type ℓ} where
  -- The rows that pass a test.
  unfoldable pub count : (A → Bool) → List A → ℕ
  count p [] = 0
  count p (x ∷ xs) = if p x then suc (count p xs) else count p xs

  unfoldable pub select : (A → Bool) → List A → List A
  select p [] = []
  select p (x ∷ xs) = let rest = select p xs in if p x then x ∷ rest else rest

  unfoldable pub any : (A → Bool) → List A → Bool
  any p [] = false
  any p (x ∷ xs) = if p x then true else any p xs

  pub count-append : (p : A → Bool) (xs ys : List A) → count p (xs ++ ys) ≡ count p xs + count p ys
  unfolding count
  count-append p [] ys = omega arith
  count-append p (x ∷ xs) ys = ground (arith, count-append p xs ys)

module _ {ℓ} {A : Type ℓ} (key : A → String) where
  unfoldable pub find : String → List A → Option A
  find k [] = none
  find k (x ∷ xs) = if key x == k then some x else find k xs

  unfoldable pub update : String → (A → A) → List A → List A
  update k f [] = []
  update k f (x ∷ xs) = if key x == k then f x ∷ xs else x ∷ update k f xs

  unfoldable pub delete : String → List A → List A
  delete k [] = []
  delete k (x ∷ xs) = let rest = delete k xs in if key x == k then rest else x ∷ rest

  -- INSERT OR REPLACE: the row of that key goes, and the new one comes last.
  unfoldable pub put : A → List A → List A
  unfolding delete
  put x xs = delete (key x) xs ++ x ∷ []

  pub find-key : (k : String) (xs : List A) {x : A} → find k xs ≡ some x → key x ≡ k
  unfolding find
  find-key k [] h = cc
  find-key k (y ∷ ys) h = elim (Bool-cases (key y == k)) [
    | inl e ↦ ground (arith, eq_iff (key y) k)
    | inr e ↦ find-key k ys (ground arith)
  ]

  pub find-append :
      (k : String) (xs ys : List A) → find k (xs ++ ys) ≡ or_else (find k xs) (find k ys)
  unfolding find
  find-append k [] ys = refl
  find-append k (x ∷ xs) ys = ground (arith, find-append k xs ys)

  pub find-update :
      (j k : String) (f : A → A) (xs : List A)
      → ((x : A) → key (f x) ≡ key x)
      → find j (update k f xs) ≡ (if k == j then Option.map f (find k xs) else find j xs)
  unfolding find update
  find-update j k f [] h = ground arith
  find-update j k f (x ∷ xs) h = ground (
    arith,
    h x,
    eq_iff (key x) k,
    eq_iff (key x) j,
    eq_iff (key (f x)) j,
    eq_iff k j,
    find-update j k f xs h,
  )

  -- An update that keeps a test keeps the number of rows that pass it.
  pub count-update :
      (p : A → Bool) (k : String) (f : A → A) (xs : List A)
      → ((x : A) → p (f x) ≡ p x)
      → count p (update k f xs) ≡ count p xs
  unfolding count update
  count-update p k f [] h = refl
  count-update p k f (x ∷ xs) h = ground (arith, h x, count-update p k f xs h)

abbrev pub is_in : String → List String → Bool
is_in d ds = any (λ x. x == d) ds

-- ===== src/Prelude/Keys.antt =====
-- Tables without a repeated key.
use Prim.Native.String.{String}
use mathlib.Core.Path.{◌≡◌, refl, subst}
use mathlib.Core.Logic.{inl, inr}
use mathlib.Core.Bool.{Bool, false, ◌||◌}
use mathlib.Core.Option.{some, none}
use mathlib.Core.List.{List, [], ◌∷◌, ◌++◌}
use native.Mathlib.Omega.{arith}
use text.Mathlib.Text.{◌==◌}
use text.Mathlib.TextEquality.{eq_iff}
use orch_kit.Prelude.Tests.{Bool-cases, text_refl}
use orch_kit.Prelude.Table.{any, delete, find, find-append, put, update}
use orch_kit.Prelude.Predicate.{All}

module _ {ℓ} {A : Type ℓ} (key : A → String) where
  abbrev pub has_key : String → List A → Bool
  has_key k xs = any (λ x. key x == k) xs

  abbrev pub Distinct : List A → Type 0
  Distinct [] = Unit
  Distinct (x ∷ xs) = (has_key (key x) xs ≡ false) × Distinct xs

  pub has_key-update :
      (j k : String) (f : A → A) (xs : List A)
      → ((x : A) → key (f x) ≡ key x)
      → has_key j (update key k f xs) ≡ has_key j xs
  unfolding any update
  has_key-update j k f [] h = refl
  has_key-update j k f (x ∷ xs) h = ground (arith, h x, has_key-update j k f xs h)

  pub Distinct-update :
      (k : String) (f : A → A) (xs : List A)
      → ((x : A) → key (f x) ≡ key x)
      → Distinct xs
      → Distinct (update key k f xs)
  unfolding update
  Distinct-update k f [] h d = tt
  Distinct-update k f (x ∷ xs) h d = elim (Bool-cases (key x == k)) [
    | inl e ↦ rw e (rw (h x) (d.0), d.1)
    | inr e ↦ rw e (rw (has_key-update (key x) k f xs h) (d.0), Distinct-update k f xs h d.1)
  ]

  pub has_key-append :
      (k : String) (xs ys : List A) → has_key k (xs ++ ys) ≡ (has_key k xs || has_key k ys)
  unfolding any
  has_key-append k [] ys = refl
  has_key-append k (x ∷ xs) ys = ground (arith, has_key-append k xs ys)

  pub other_key :
      (k : String) (xs : List A) → has_key k xs ≡ false → All (λ x. (k == key x) ≡ false) xs
  unfolding any
  other_key k [] h = tt
  other_key k (x ∷ xs) h =
      (ground (arith, eq_iff k (key x), eq_iff (key x) k), other_key k xs (ground arith))

  find-rows_under :
      (x : A) (xs ys : List A)
      → All (λ y. (key x == key y) ≡ false) ys
      → All (λ y. find key (key y) xs ≡ some y) ys
      → All (λ y. find key (key y) (x ∷ xs) ≡ some y) ys
  unfolding find
  find-rows_under x xs [] a b = tt
  find-rows_under x xs (y ∷ ys) a b = (rw (a.0) (b.0), find-rows_under x xs ys a.1 b.1)

  -- Each row of a table without a repeated key is the one that its key finds.
  pub find-rows : (xs : List A) → Distinct xs → All (λ x. find key (key x) xs ≡ some x) xs
  find-rows [] d = tt
  find-rows (x ∷ xs) d = (
    unfold find in rw (text_refl (key x)),
    find-rows_under x xs xs (other_key (key x) xs d.0) (find-rows xs d.1),
  )

  pub find-has_key : (k : String) (xs : List A) → find key k xs ≡ none → has_key k xs ≡ false
  unfolding any find
  find-has_key k [] h = refl
  find-has_key k (x ∷ xs) h = ground (arith, find-has_key k xs)

  pub has_key-find : (k : String) (xs : List A) → has_key k xs ≡ false → find key k xs ≡ none
  unfolding any find
  has_key-find k [] h = refl
  has_key-find k (x ∷ xs) h = ground (arith, has_key-find k xs)

  pub Distinct-snoc :
      (xs : List A) (y : A) → Distinct xs → find key (key y) xs ≡ none → Distinct (xs ++ y ∷ [])
  unfolding find
  Distinct-snoc [] y d h = (unfold any in refl, tt)
  Distinct-snoc (x ∷ xs) y d h = (
    rw (has_key-append (key x) xs (y ∷ []))
        (unfold any in ground (arith, eq_iff (key x) (key y), eq_iff (key y) (key x))),
    Distinct-snoc xs y d.1 (ground arith),
  )

  no_key : (k : String) (ys : List A) → All (λ y. (k == key y) ≡ false) ys → has_key k ys ≡ false
  unfolding any
  no_key k [] a = refl
  no_key k (y ∷ ys) a = ground (arith, a.0, eq_iff k (key y), eq_iff (key y) k, no_key k ys a.1)

  apart_head :
      (x : A) (xs ys : List A)
      → All (λ y. has_key (key y) (x ∷ xs) ≡ false) ys
      → All (λ y. (key x == key y) ≡ false) ys
  unfolding any
  apart_head x xs [] a = tt
  apart_head x xs (y ∷ ys) a = (ground (arith, a.0), apart_head x xs ys a.1)

  apart_tail :
      (x : A) (xs ys : List A)
      → All (λ y. has_key (key y) (x ∷ xs) ≡ false) ys
      → All (λ y. has_key (key y) xs ≡ false) ys
  unfolding any
  apart_tail x xs [] a = tt
  apart_tail x xs (y ∷ ys) a = (ground (arith, a.0), apart_tail x xs ys a.1)

  pub Distinct-append :
      (xs ys : List A)
      → Distinct xs
      → Distinct ys
      → All (λ y. has_key (key y) xs ≡ false) ys
      → Distinct (xs ++ ys)
  Distinct-append [] ys d e a = e
  Distinct-append (x ∷ xs) ys d e a = (
    rw (has_key-append (key x) xs ys)
        (ground (arith, d.0, no_key (key x) ys (apart_head x xs ys a))),
    Distinct-append xs ys d.1 e (apart_tail x xs ys a),
  )

  pub find-All {κ} :
      (P : A → Type κ) (k : String) (xs : List A) {x : A} → All P xs → find key k xs ≡ some x → P x
  unfolding find
  find-All P k [] a h = cc
  find-All P k (y ∷ ys) {x} a h = elim (Bool-cases (key y == k)) [
    | inl e ↦ let same : y ≡ x = ground arith in subst P same (a.0)
    | inr e ↦ find-All P k ys a.1 (ground arith)
  ]

  pub find-put : (x : A) (xs : List A) → find key (key x) (put key x xs) ≡ some x
  unfolding find put
  find-put x [] = rw (text_refl (key x)) refl
  find-put x (y ∷ ys) = ground (arith, text_refl (key x), find-put x ys)

  find-delete :
      (k : String) (j : String) (xs : List A)
      → (j == k) ≡ false
      → find key k (delete key j xs) ≡ find key k xs
  unfolding find delete
  find-delete k j [] h = refl
  find-delete k j (x ∷ xs) h =
      ground (arith, h, eq_iff (key x) j, eq_iff (key x) k, eq_iff j k, find-delete k j xs h)

  pub find-put_other :
      (k : String) (x : A) (xs : List A)
      → (key x == k) ≡ false
      → find key k (put key x xs) ≡ find key k xs
  unfolding find put
  find-put_other k x xs h =
      ground
        (arith, h, find-append key k (delete key (key x) xs) (x ∷ []), find-delete k (key x) xs h)

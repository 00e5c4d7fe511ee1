-- ===== src/Prelude/Members.antt =====
-- Members of a list: one with a property, and those that a test selects.
use mathlib.Core.Path.{◌≡◌}
use mathlib.Core.Logic.{◌⊎◌, inl, inr}
use mathlib.Core.Bool.{Bool, true, false}
use mathlib.Core.List.{List, [], ◌∷◌}
use native.Mathlib.Omega.{arith}
use orch_kit.Prelude.Predicate.{All}
use orch_kit.Prelude.Table.{select, any}
use orch_kit.Prelude.Tests.{Bool-cases}

-- One member has the property.
pub data Exists {ℓ κ} {A : Type ℓ} (P : A → Type κ) : List A → Type (ℓ ⊔ κ) where
  here : {x : A} {xs : List A} → P x → Exists P (x ∷ xs)
  there : {x : A} {xs : List A} → Exists P xs → Exists P (x ∷ xs)

abbrev pub is_empty {ℓ} : {A : Type ℓ} → List A → Bool
is_empty [] = true
is_empty (x ∷ xs) = false

module _ {ℓ} {A : Type ℓ} where
  pub select-nothing :
      (f : A → Bool) (xs : List A) → is_empty (select f xs) ≡ true → All (λ x. f x ≡ false) xs
  unfolding select
  select-nothing f [] h = tt
  select-nothing f (x ∷ xs) h = (ground arith, select-nothing f xs (ground arith))

  pub All-select {κ} :
      (P : A → Type κ) (f : A → Bool) (xs : List A)
      → All P (select f xs)
      → All (λ x. (f x ≡ false) ⊎ P x) xs
  unfolding select
  All-select P f [] h = tt
  All-select P f (x ∷ xs) h = elim (Bool-cases (f x)) [
    | inl e ↦ let k : P x × All P (select f xs) = rw e at h in (inr k.0, All-select P f xs k.1)
    | inr e ↦ let k : All P (select f xs) = rw e at h in (inl e, All-select P f xs k)
  ]

  pub any-Exists : (f : A → Bool) (xs : List A) → any f xs ≡ true → Exists (λ x. f x ≡ true) xs
  unfolding any
  any-Exists f [] h = cc
  any-Exists f (x ∷ xs) h = elim (Bool-cases (f x)) [
    | inl e ↦ Exists.here e
    | inr e ↦ Exists.there (any-Exists f xs (rw e at h))
  ]

  pub Exists-any : (f : A → Bool) (xs : List A) → Exists (λ x. f x ≡ true) xs → any f xs ≡ true
  unfolding any
  Exists-any f [] h = elim h [ ]
  Exists-any f (x ∷ xs) (Exists.here e) = ground arith
  Exists-any f (x ∷ xs) (Exists.there r) = ground (arith, Exists-any f xs r)

  Exists-cons {κ μ} :
      (P : A → Type κ) (Q : A → Type μ) (x : A) (xs ys : List A)
      → (P x → Q x)
      → (Exists P xs → Exists Q ys)
      → Exists P (x ∷ xs)
      → Exists Q (x ∷ ys)
  Exists-cons P Q x xs ys f g (Exists.here p) = Exists.here (f p)
  Exists-cons P Q x xs ys f g (Exists.there r) = Exists.there (g r)

  pub Exists-select {κ} :
      (P : A → Type κ) (f : A → Bool) (xs : List A)
      → Exists P (select f xs)
      → Exists (λ x. (f x ≡ true) × P x) xs
  unfolding select
  Exists-select P f [] h = elim h [ ]
  Exists-select P f (x ∷ xs) h = elim (Bool-cases (f x)) [
    | inl e ↦
        Exists-cons P (λ y. (f y ≡ true) × P y) x (select f xs) xs (λ p. (e, p))
          (Exists-select P f xs) (rw e at h)
    | inr e ↦ Exists.there (Exists-select P f xs (rw e at h))
  ]

  pub Exists-map {κ μ} :
      (P : A → Type κ) (Q : A → Type μ) (xs : List A)
      → ((x : A) → P x → Q x)
      → Exists P xs
      → Exists Q xs
  Exists-map P Q [] f h = elim h [ ]
  Exists-map P Q (x ∷ xs) f (Exists.here p) = Exists.here (f x p)
  Exists-map P Q (x ∷ xs) f (Exists.there r) = Exists.there (Exists-map P Q xs f r)

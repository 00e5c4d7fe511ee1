-- ===== src/Bridge/Frame/Bytes.antt =====
-- The length in front of a frame, and splitting a stream of bytes.
use mathlib.Core.Path.{ap}
use orch_kit.Prelude.{
  ℕ, zero, suc, ◌+◌, ◌-◌, ◌^◌, ◌≤◌, ◌<◌, ◌≡◌, refl, List, [], ◌∷◌, ◌++◌, length, take, drop, arith,
}
use orch_kit.Bridge.Frame.{pack_length, unpack_length}

pub unpack_length-pack_length : (n : ℕ) → n < 2 ^ 32 → unpack_length (pack_length n) ≡ n
unfolding unpack_length pack_length
unpack_length-pack_length n h = omega arith

module _ {ℓ} {A : Type ℓ} where
  pub length-++ : (xs ys : List A) → length (xs ++ ys) ≡ length xs + length ys
  length-++ [] ys = omega arith
  length-++ (x ∷ xs) ys = ground (arith, length-++ xs ys)

  pub take-++-drop : (n : ℕ) (xs : List A) → take n xs ++ drop n xs ≡ xs
  take-++-drop zero xs = refl
  take-++-drop (suc n) [] = refl
  take-++-drop (suc n) (x ∷ xs) = ap (λ ys. x ∷ ys) (take-++-drop n xs)

  -- Taking no more than the first list holds leaves the second alone.
  pub take-++ : (n : ℕ) (xs ys : List A) → n ≤ length xs → take n (xs ++ ys) ≡ take n xs
  take-++ zero xs ys h = refl
  take-++ (suc n) [] ys h = ground arith
  take-++ (suc n) (x ∷ xs) ys h = ap (λ zs. x ∷ zs) (take-++ n xs ys (omega arith))

  pub drop-++ : (n : ℕ) (xs ys : List A) → n ≤ length xs → drop n (xs ++ ys) ≡ drop n xs ++ ys
  drop-++ zero xs ys h = refl
  drop-++ (suc n) [] ys h = ground arith
  drop-++ (suc n) (x ∷ xs) ys h = drop-++ n xs ys (omega arith)

  pub length-take-le : (n : ℕ) (xs : List A) → length (take n xs) ≤ n
  length-take-le zero xs = omega arith
  length-take-le (suc n) [] = omega arith
  length-take-le (suc n) (x ∷ xs) = omega (arith, length-take-le n xs)

  pub length-drop : (n : ℕ) (xs : List A) → length (drop n xs) ≡ length xs - n
  length-drop zero xs = omega arith
  length-drop (suc n) [] = omega arith
  length-drop (suc n) (x ∷ xs) = omega (arith, length-drop n xs)

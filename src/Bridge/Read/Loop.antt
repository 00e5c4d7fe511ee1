-- ===== src/Bridge/Read/Loop.antt =====
-- The loop of the reader against the whole file: where each call succeeds, it ends, with the contents if they
-- are within the limit, and otherwise with a refusal.
use mathlib.Core.Path.{subst, ap, sym}
use mathlib.Core.List.{append_assoc, append-nil}
use orch_kit.Prelude.{
  ℕ, zero, suc, ◌+◌, ◌≤◌, ◌<◌, ◌≡◌, ◌≢◌, ◌∙◌, refl, Bool-cases, inl, inr, Option, none, some,
  Option-cases, [], ◌∷◌, ◌++◌, length, take, drop, leb, ltb, arith, if◌then◌else◌,
}
use orch_kit.Bridge.Frame.{Bytes, least}
use orch_kit.Bridge.Frame.Bytes.{length-++, take-++-drop}
use orch_kit.Bridge.Read.{ReadEnd, read_loop, asked}

-- What the loop is to give.
abbrev pub expected : ℕ → Bytes → ReadEnd
expected limit contents =
    if leb (length contents) limit then ReadEnd.whole contents else ReadEnd.excess

abbrev given : ℕ → ℕ → Bytes → ℕ
given k limit held = least (suc k) (asked limit held)

given-pos : (k limit : ℕ) (held : Bytes) → length held ≤ limit → 1 ≤ given k limit held
given-pos k limit held h = ground (arith, h)

module _ (depth : ℕ) (reads : ℕ → Option ℕ) (n k limit : ℕ) (left held : Bytes) where
  loop-end :
      reads n ≡ some k
      → take (given k limit held) left ≡ []
      → read_loop (suc depth) reads n left limit held ≡ ReadEnd.whole held
  unfolding read_loop
  loop-end e f = ground (arith, e, f)

  loop-over :
      (b : ℕ) (bs : Bytes)
      → reads n ≡ some k
      → take (given k limit held) left ≡ b ∷ bs
      → limit < length (held ++ b ∷ bs)
      → read_loop (suc depth) reads n left limit held ≡ ReadEnd.excess
  unfolding read_loop
  loop-over b bs e f g = ground (arith, e, f, g)

  loop-next :
      (b : ℕ) (bs : Bytes)
      → reads n ≡ some k
      → take (given k limit held) left ≡ b ∷ bs
      → length (held ++ b ∷ bs) ≤ limit
      → read_loop (suc depth) reads n left limit held
        ≡ read_loop depth reads (n + 1) (drop (given k limit held) left) limit (held ++ b ∷ bs)
  unfolding read_loop
  loop-next b bs e f g = ground (arith, e, f, g)

take-nil : (n : ℕ) (xs : Bytes) → 1 ≤ n → take n xs ≡ [] → xs ≡ []
take-nil zero xs h e = ground arith
take-nil (suc n) [] h e = refl
take-nil (suc n) (x ∷ xs) h e = cc

expected-whole :
    (limit : ℕ) (contents : Bytes)
    → length contents ≤ limit
    → expected limit contents ≡ ReadEnd.whole contents
expected-whole limit contents h = ground (arith, h)

expected-excess :
    (limit : ℕ) (contents : Bytes)
    → limit < length contents
    → expected limit contents ≡ ReadEnd.excess
expected-excess limit contents h = ground (arith, h)

-- The bytes that were read with the next piece, and those behind it.
regroup :
    (n : ℕ) (held left piece : Bytes)
    → take n left ≡ piece
    → (held ++ piece) ++ drop n left ≡ held ++ left
regroup n held left piece e =
    append_assoc held piece (drop n left)
    ∙ ap (λ xs. held ++ (xs ++ drop n left)) (sym e)
    ∙ ap (λ xs. held ++ xs) (take-++-drop n left)

deeper :
    (held : Bytes) (b : ℕ) (bs : Bytes) (depth limit : ℕ)
    → limit + 2 ≤ suc depth + length held
    → limit + 2 ≤ depth + length (held ++ b ∷ bs)
deeper held b bs depth limit enough = omega (arith, length-++ held (b ∷ bs), enough)

-- With a depth of two more than the bytes that the limit still allows, and no call that fails, the loop that
-- reads in pieces gives what comparing the length of the whole file with the limit gives.
pub read_loop-expected :
    (depth : ℕ) (reads : ℕ → Option ℕ) (n : ℕ) (left : Bytes) (limit : ℕ) (held : Bytes)
    → ((m : ℕ) → reads m ≢ none)
    → length held ≤ limit
    → limit + 2 ≤ depth + length held
    → read_loop depth reads n left limit held ≡ expected limit (held ++ left)
read_loop-expected zero reads n left limit held succeeds small enough = absurd (omega arith)
read_loop-expected (suc depth) reads n left limit held succeeds small enough =
    elim (Option-cases (reads n)) [
      | inl e ↦ absurd (succeeds n e)
      | inr (k, e) ↦ go k e (take (given k limit held) left) refl (λ b bs fits.
          read_loop-expected depth reads (n + 1) (drop (given k limit held) left) limit
            (held ++ b ∷ bs) succeeds fits (deeper held b bs depth limit enough))
    ]
  where
    go :
        (k : ℕ)
        → reads n ≡ some k
        → (piece : Bytes) → take (given k limit held) left ≡ piece
        → ((b : ℕ) (bs : Bytes)
            → length (held ++ b ∷ bs) ≤ limit
            → read_loop depth reads (n + 1) (drop (given k limit held) left) limit (held ++ b ∷ bs)
              ≡ expected limit ((held ++ b ∷ bs) ++ drop (given k limit held) left))
        → read_loop (suc depth) reads n left limit held ≡ expected limit (held ++ left)
    go k e [] f later =
        let nothing = take-nil (given k limit held) left (given-pos k limit held small) f in
        loop-end depth reads n k limit left held e f
        ∙ sym (expected-whole limit held small)
        ∙ ap (expected limit) (sym (ap (λ xs. held ++ xs) nothing ∙ append-nil held))
    go k e (b ∷ bs) f later =
        let joined = regroup (given k limit held) held left (b ∷ bs) f in
        elim (Bool-cases (ltb limit (length (held ++ b ∷ bs)))) [
          | inl g ↦
              let over : limit < length (held ++ b ∷ bs) = ground (arith, g) in
              let sum = length-++ (held ++ b ∷ bs) (drop (given k limit held) left) in
              let same = ap length joined in
              loop-over depth reads n k limit left held b bs e f over
              ∙ sym (expected-excess limit (held ++ left) (omega arith))
          | inr g ↦
              let fits : length (held ++ b ∷ bs) ≤ limit = ground (arith, g) in
              loop-next depth reads n k limit left held b bs e f fits
              ∙ later b bs fits
              ∙ ap (expected limit) joined
        ]

loop-failed :
    (depth : ℕ) (reads : ℕ → Option ℕ) (n limit : ℕ) (left held : Bytes)
    → reads n ≡ none
    → read_loop (suc depth) reads n left limit held ≡ ReadEnd.failed
unfolding read_loop
loop-failed depth reads n limit left held e = ground (arith, e)

whole-eq : (x y : Bytes) → ReadEnd.whole x ≡ ReadEnd.whole y → x ≡ y
whole-eq x y h = cc

excess-whole : (x : Bytes) → ReadEnd.excess ≡ ReadEnd.whole x → ⊥
excess-whole x h = cc

failed-whole : (x : Bytes) → ReadEnd.failed ≡ ReadEnd.whole x → ⊥
failed-whole x h = cc

-- Bytes that the loop gives are the whole file, within the limit.
pub read_loop-whole :
    (depth : ℕ) (reads : ℕ → Option ℕ) (n : ℕ) (left : Bytes) (limit : ℕ) (held x : Bytes)
    → length held ≤ limit
    → read_loop depth reads n left limit held ≡ ReadEnd.whole x
    → (x ≡ held ++ left) × (length x ≤ limit)
unfolding read_loop
read_loop-whole zero reads n left limit held x small h = cc
read_loop-whole (suc depth) reads n left limit held x small h = elim (Option-cases (reads n)) [
  | inl e ↦ absurd (failed-whole x (sym (loop-failed depth reads n limit left held e) ∙ h))
  | inr (k, e) ↦ go k e (take (given k limit held) left) refl (λ b bs.
      read_loop-whole depth reads (n + 1) (drop (given k limit held) left) limit (held ++ b ∷ bs) x)
]
  where
    go :
        (k : ℕ)
        → reads n ≡ some k
        → (piece : Bytes) → take (given k limit held) left ≡ piece
        → ((b : ℕ) (bs : Bytes)
            → length (held ++ b ∷ bs) ≤ limit
            → read_loop depth reads (n + 1) (drop (given k limit held) left) limit (held ++ b ∷ bs)
              ≡ ReadEnd.whole x
            → (x ≡ (held ++ b ∷ bs) ++ drop (given k limit held) left) × (length x ≤ limit))
        → (x ≡ held ++ left) × (length x ≤ limit)
    go k e [] f later =
        let nothing = take-nil (given k limit held) left (given-pos k limit held small) f in
        let same : x ≡ held =
          sym (whole-eq held x (sym (loop-end depth reads n k limit left held e f) ∙ h)) in
        (
          same ∙ sym (ap (λ xs. held ++ xs) nothing ∙ append-nil held),
          subst (λ xs. length xs ≤ limit) (sym same) small,
        )
    go k e (b ∷ bs) f later = elim (Bool-cases (ltb limit (length (held ++ b ∷ bs)))) [
      | inl g ↦
          let over : limit < length (held ++ b ∷ bs) = ground (arith, g) in
          absurd
            (excess-whole x (sym (loop-over depth reads n k limit left held b bs e f over) ∙ h))
      | inr g ↦
          let fits : length (held ++ b ∷ bs) ≤ limit = ground (arith, g) in
          let (same, small_too) =
            later b bs fits (sym (loop-next depth reads n k limit left held b bs e f fits) ∙ h) in
          (same ∙ regroup (given k limit held) held left (b ∷ bs) f, small_too)
    ]

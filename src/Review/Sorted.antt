-- ===== src/Review/Sorted.antt =====
-- The members of a list that was sorted without repeats.
use Prim.Native.String.{compare}
use text.Mathlib.Text.{is_lt}
use mathlib.Core.Path.{subst, sym}
use orch_kit.Prelude.{String, inl, inr, List, [], ◌∷◌, ◌==◌, All, Exists, Bool-cases, eq_iff}
use orch_kit.Review.Policy.{insert_text, sorted_set}

All-insert_text :
    (P : String → Type 0) (s : String) (ts : List String)
    → All P (insert_text s ts)
    → P s × All P ts
unfolding insert_text
All-insert_text P s [] h = h
All-insert_text P s (t ∷ ts) h = elim (Bool-cases (s == t)) [
  | inl e ↦ let k : P t × All P ts = rw e at h in (subst P (sym ((eq_iff s t).0 e)) k.0, k)
  | inr e ↦ elim (Bool-cases (is_lt (compare s t))) [
    | inl f ↦ let k : P s × (P t × All P ts) = rw (e, f) at h in k
    | inr f ↦
        let k : P t × All P (insert_text s ts) = rw (e, f) at h in
        let r = All-insert_text P s ts k.1 in (r.0, (k.0, r.1))
  ]
]

pub All-sorted_set : (P : String → Type 0) (ss : List String) → All P (sorted_set ss) → All P ss
unfolding sorted_set
All-sorted_set P [] h = tt
All-sorted_set P (s ∷ ss) h =
    let k = All-insert_text P s (sorted_set ss) h in (k.0, All-sorted_set P ss k.1)

Exists-swap :
    (P : String → Type 0) (s t : String) (us ts : List String)
    → (Exists P us → Exists P (s ∷ ts))
    → Exists P (t ∷ us)
    → Exists P (s ∷ t ∷ ts)
Exists-swap P s t us ts f (Exists.here p) = Exists.there (Exists.here p)
Exists-swap P s t us ts f (Exists.there r) = go (f r)
  where
    go : Exists P (s ∷ ts) → Exists P (s ∷ t ∷ ts)
    go (Exists.here p) = Exists.here p
    go (Exists.there q) = Exists.there (Exists.there q)

Exists-insert_text :
    (P : String → Type 0) (s : String) (ts : List String)
    → Exists P (insert_text s ts)
    → Exists P (s ∷ ts)
unfolding insert_text
Exists-insert_text P s [] h = h
Exists-insert_text P s (t ∷ ts) h = elim (Bool-cases (s == t)) [
  | inl e ↦ let k : Exists P (t ∷ ts) = rw e at h in Exists.there k
  | inr e ↦ elim (Bool-cases (is_lt (compare s t))) [
    | inl f ↦ let k : Exists P (s ∷ t ∷ ts) = rw (e, f) at h in k
    | inr f ↦
        let k : Exists P (t ∷ insert_text s ts) = rw (e, f) at h in
        Exists-swap P s t (insert_text s ts) ts (Exists-insert_text P s ts) k
  ]
]

Exists-tail :
    (P : String → Type 0) (s : String) (us ts : List String)
    → (Exists P us → Exists P ts)
    → Exists P (s ∷ us)
    → Exists P (s ∷ ts)
Exists-tail P s us ts f (Exists.here p) = Exists.here p
Exists-tail P s us ts f (Exists.there r) = Exists.there (f r)

pub Exists-sorted_set :
    (P : String → Type 0) (ss : List String) → Exists P (sorted_set ss) → Exists P ss
unfolding sorted_set
Exists-sorted_set P [] h = h
Exists-sorted_set P (s ∷ ss) h =
    Exists-tail P s (sorted_set ss) ss (Exists-sorted_set P ss)
      (Exists-insert_text P s (sorted_set ss) h)

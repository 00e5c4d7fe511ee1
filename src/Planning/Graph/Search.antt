-- ===== src/Planning/Graph/Search.antt =====
-- What a visit does to the marks, and that the depth is enough.
use mathlib.Core.Path.{subst}
use mathlib.Core.WellFounded.{Acc}
use orch_kit.Prelude.{
  is_in, ℕ, zero, suc, ◌≤◌, ◌<◌, String, ◌≡◌, ◌∙◌, ◌⊎◌, All, refl, true, List, [], ◌∷◌, has_key,
  Bool-cases, inl, inr, eq_iff, arith, if◌then◌else◌,
}
use orch_kit.Result.{Result, ok, err, Error, dependency_cycle, out_of_fuel}
use orch_kit.Planning.Item.{PlanItem, item_key}
use orch_kit.Planning.Graph.{
  Colour, Mark, colour_of, set_colour, dependencies_of, each, inner, visit,
}
use orch_kit.Planning.Graph.Marks.{colour_of-set_colour, unmarked, count-le, unmarked-opened}

-- Item `a` names the item `d` of the plan as a dependency.
pub record Needs (items : List PlanItem) (a d : String) : Type 0 where
  pub named : is_in d (dependencies_of items a) ≡ true
  pub planned : has_key item_key d items ≡ true

abbrev pub IsGrounded : List PlanItem → String → Type 0
IsGrounded items = Acc (λ d a. Needs items a d)

-- From the marks before to the marks after.
pub record Marked (before after : List Mark) : Type 0 where
  pub opened : (k : String) → colour_of after k ≡ Colour.opened → colour_of before k ≡ Colour.opened
  pub closed : (k : String) → colour_of before k ≡ Colour.closed → colour_of after k ≡ Colour.closed
  pub fresh : (k : String) → colour_of after k ≡ Colour.fresh → colour_of before k ≡ Colour.fresh

Marked-refl : (marks : List Mark) → Marked marks marks
Marked-refl marks = record { opened = λ k h. h; closed = λ k h. h; fresh = λ k h. h }

Marked-trans : {a b c : List Mark} → Marked a b → Marked b c → Marked a c
Marked-trans p q = record {
  opened = λ k h. p.opened k (q.opened k h);
  closed = λ k h. q.closed k (p.closed k h);
  fresh = λ k h. p.fresh k (q.fresh k h);
}

-- A finished visit of `id` closes it inside of the marks around.
Marked-close :
    (id : String) (before next : List Mark)
    → colour_of before id ≡ Colour.fresh
    → Marked (set_colour id Colour.opened before) next
    → Marked before (set_colour id Colour.closed next)
Marked-close id before next unseen m = record {
  opened = λ k h. ground (
    arith,
    h,
    m.opened k,
    colour_of-set_colour id k Colour.closed next,
    colour_of-set_colour id k Colour.opened before,
  );
  closed = λ k h. ground (
    arith,
    h,
    unseen,
    eq_iff id k,
    m.closed k,
    colour_of-set_colour id k Colour.closed next,
    colour_of-set_colour id k Colour.opened before,
  );
  fresh = λ k h. ground (
    arith,
    h,
    m.fresh k,
    colour_of-set_colour id k Colour.closed next,
    colour_of-set_colour id k Colour.opened before,
  );
}

-- Reading a loop, and a visit, that has ended.
module _ (f : String → List Mark → Result (List Mark)) (d : String) (ds : List String)
    (s : List Mark) where
  pub each-eq-ok :
      (t : List Mark)
      → each f (d ∷ ds) s ≡ ok t
      → (next : List Mark) × (f d s ≡ ok next) × (each f ds next ≡ ok t)
  unfolding each
  each-eq-ok t h = ground arith

  pub each-eq-err :
      (e : Error)
      → each f (d ∷ ds) s ≡ err e
      → (f d s ≡ err e) ⊎ ((next : List Mark) × (f d s ≡ ok next) × (each f ds next ≡ err e))
  unfolding each
  each-eq-err e h = go (f d s) refl h
    where
      go :
          (r : Result (List Mark))
          → f d s ≡ r
          → elim r as (λ x. Result (List Mark)) [ err x ↦ err x | ok next ↦ each f ds next ] ≡ err e
          → (f d s ≡ err e) ⊎ ((next : List Mark) × (f d s ≡ ok next) × (each f ds next ≡ err e))
      go (err x) k j = inl (k ∙ j)
      go (ok next) k j = inr (next, k, j)

module _ (items : List PlanItem) (depth : ℕ) (id : String) (marks : List Mark) where
  abbrev pub below : Result (List Mark)
  unfolding inner each dependencies_of set_colour
  below =
      each (visit items depth) (inner items (dependencies_of items id))
        (set_colour id Colour.opened marks)

  pub visit-eq-ok :
      (t : List Mark)
      → visit items (suc depth) id marks ≡ ok t
      → ((colour_of marks id ≡ Colour.closed) × (t ≡ marks))
        ⊎ ((next : List Mark) × (colour_of marks id ≡ Colour.fresh)
            × (below ≡ ok next)
            × (t ≡ set_colour id Colour.closed next))
  unfolding visit
  visit-eq-ok t h = go (colour_of marks id) refl below refl h
    where
      inside : Result (List Mark) → Result (List Mark)
      inside r = elim r [ err e ↦ err e | ok next ↦ ok (set_colour id Colour.closed next) ]

      go :
          (c : Colour)
          → colour_of marks id ≡ c
          → (r : Result (List Mark)) → below ≡ r
          → elim c as (λ x. Result (List Mark)) [
            | Colour.opened ↦ err dependency_cycle
            | Colour.closed ↦ ok marks
            | Colour.fresh ↦ inside r
          ]
            ≡ ok t
          → ((colour_of marks id ≡ Colour.closed) × (t ≡ marks))
            ⊎ ((next : List Mark) × (colour_of marks id ≡ Colour.fresh)
                × (below ≡ ok next)
                × (t ≡ set_colour id Colour.closed next))
      go Colour.opened e r f k = cc
      go Colour.closed e r f k = inl (e, ground arith)
      go Colour.fresh e (err x) f k = cc
      go Colour.fresh e (ok next) f k = inr (next, e, f, ground arith)

  pub visit-eq-err :
      (x : Error)
      → visit items (suc depth) id marks ≡ err x
      → ((colour_of marks id ≡ Colour.opened) × (x ≡ dependency_cycle))
        ⊎ ((colour_of marks id ≡ Colour.fresh) × (below ≡ err x))
  unfolding visit
  visit-eq-err x h = go (colour_of marks id) refl below refl h
    where
      inside : Result (List Mark) → Result (List Mark)
      inside r = elim r [ err e ↦ err e | ok next ↦ ok (set_colour id Colour.closed next) ]

      go :
          (c : Colour)
          → colour_of marks id ≡ c
          → (r : Result (List Mark)) → below ≡ r
          → elim c as (λ x. Result (List Mark)) [
            | Colour.opened ↦ err dependency_cycle
            | Colour.closed ↦ ok marks
            | Colour.fresh ↦ inside r
          ]
            ≡ err x
          → ((colour_of marks id ≡ Colour.opened) × (x ≡ dependency_cycle))
            ⊎ ((colour_of marks id ≡ Colour.fresh) × (below ≡ err x))
      go Colour.opened e r f k = inl (e, ground arith)
      go Colour.closed e r f k = cc
      go Colour.fresh e (err y) f k = inr (e, f ∙ k)
      go Colour.fresh e (ok next) f k = cc

pub each-Marked :
    (f : String → List Mark → Result (List Mark))
    → ((d : String) (s t : List Mark) → f d s ≡ ok t → Marked s t)
    → (ds : List String) (s t : List Mark) → each f ds s ≡ ok t
    → Marked s t
unfolding each
each-Marked f rule [] s t h =
    let same : s ≡ t = ground arith in subst (Marked s) same (Marked-refl s)
each-Marked f rule (d ∷ ds) s t h =
    let (next, e, k) = each-eq-ok f d ds s t h in
    Marked-trans (rule d s next e) (each-Marked f rule ds next t k)

pub visit-Marked :
    (items : List PlanItem) (depth : ℕ) (id : String) (s t : List Mark)
    → visit items depth id s ≡ ok t
    → Marked s t
unfolding visit
visit-Marked items zero id s t h = cc
visit-Marked items (suc depth) id s t h = elim (visit-eq-ok items depth id s t h) [
  | inl (e, same) ↦ rw same (Marked-refl s)
  | inr (next, e, f, same) ↦ rw same (
      Marked-close id s next e (
        each-Marked (visit items depth) (visit-Marked items depth)
          (inner items (dependencies_of items id)) (set_colour id Colour.opened s) next f))
]

unmarked-Marked :
    (items : List PlanItem) (s t : List Mark) → Marked s t → unmarked items t ≤ unmarked items s
unmarked-Marked items s t m = count-le _ _ items (λ i h. ground (arith, h, m.fresh i.id))

-- All of these are items of the plan.
abbrev pub Members : List PlanItem → List String → Type 0
Members items ds = All (λ d. has_key item_key d items ≡ true) ds

inner-Members : (items : List PlanItem) (ds : List String) → Members items (inner items ds)
unfolding inner
inner-Members items [] = tt
inner-Members items (d ∷ ds) =
    elim (Bool-cases (has_key item_key d items))
      as (λ x.
        Members items (if has_key item_key d items then d ∷ inner items ds else inner items ds)) [
          | inl e ↦ rw e (e, inner-Members items ds)
          | inr e ↦ rw e (inner-Members items ds)
        ]

pub each_ends :
    (items : List PlanItem) (depth : ℕ)
    → ((d : String) (s : List Mark)
        → has_key item_key d items ≡ true
        → unmarked items s < depth
        → visit items depth d s ≡ err out_of_fuel
        → ⊥)
    → (ds : List String) (s : List Mark) → Members items ds
    → unmarked items s < depth
    → each (visit items depth) ds s ≡ err out_of_fuel
    → ⊥
unfolding each
each_ends items depth rule [] s all small h = cc
each_ends items depth rule (d ∷ ds) s all small h =
    elim (each-eq-err (visit items depth) d ds s out_of_fuel h) [
      | inl e ↦ rule d s all.0 small e
      | inr (next, e, k) ↦
          let fewer = unmarked-Marked items s next (visit-Marked items depth d s next e) in
          each_ends items depth rule ds next all.1 (omega arith) k
    ]

-- A visit with more depth than there are unmarked items does not run out of it.
pub visit_ends :
    (items : List PlanItem) (depth : ℕ) (id : String) (s : List Mark)
    → has_key item_key id items ≡ true
    → unmarked items s < depth
    → visit items depth id s ≡ err out_of_fuel
    → ⊥
unfolding each below
visit_ends items zero id s member small h = omega arith
visit_ends items (suc depth) id s member small h =
    elim (visit-eq-err items depth id s out_of_fuel h) [
      | inl (e, other) ↦ cc
      | inr (e, f) ↦
          let fewer = unmarked-opened items id s member e in
          each_ends items depth (visit_ends items depth) (inner items (dependencies_of items id))
            (set_colour id Colour.opened s) (inner-Members items (dependencies_of items id))
            (omega arith) f
    ]

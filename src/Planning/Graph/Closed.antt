-- ===== src/Planning/Graph/Closed.antt =====
-- A search that ends well has closed every item, and a closed item is grounded.
use mathlib.Core.Path.{subst}
use mathlib.Core.WellFounded.{Acc}
use orch_kit.Prelude.{
  is_in, ℕ, zero, suc, ◌+◌, String, ◌≡◌, All, true, List, [], ◌∷◌, ◌==◌, length, has_key, any, find,
  Bool-cases, inl, inr, eq_iff, text_refl, arith, if◌then◌else◌,
}
use orch_kit.Result.{Result, ok}
use orch_kit.Planning.Item.{PlanItem, item_key}
use orch_kit.Planning.Graph.{
  Colour, Mark, colour_of, set_colour, dependencies_of, each, inner, visit, ids_of, search,
}
use orch_kit.Planning.Graph.Marks.{colour_of-set_colour}
use orch_kit.Planning.Graph.Search.{
  IsGrounded, Marked, each-eq-ok, visit-eq-ok, each-Marked, visit-Marked,
}

abbrev IsSound : List PlanItem → List Mark → Type 0
IsSound items s = (k : String) → colour_of s k ≡ Colour.closed → IsGrounded items k

abbrev AreClosed : List Mark → List String → Type 0
AreClosed s ds = All (λ d. colour_of s d ≡ Colour.closed) ds

each-IsSound :
    (items : List PlanItem) (f : String → List Mark → Result (List Mark))
    → ((d : String) (s t : List Mark) → f d s ≡ ok t → Marked s t)
    → ((d : String) (s t : List Mark)
        → f d s ≡ ok t
        → IsSound items s
        → IsSound items t × (colour_of t d ≡ Colour.closed))
    → (ds : List String) (s t : List Mark) → each f ds s ≡ ok t
    → IsSound items s
    → IsSound items t × AreClosed t ds
unfolding each
each-IsSound items f keep rule [] s t h sound =
    let same : s ≡ t = ground arith in (subst (IsSound items) same sound, tt)
each-IsSound items f keep rule (d ∷ ds) s t h sound =
    let (next, e, k) = each-eq-ok f d ds s t h in
    let (better, here) = rule d s next e sound in
    let (best, rest) = each-IsSound items f keep rule ds next t k better in
    let kept = each-Marked f keep ds next t k in (best, (kept.closed d here, rest))

inner-All :
    (items : List PlanItem) (d : String) (s : List Mark) (ds : List String)
    → AreClosed s (inner items ds)
    → is_in d ds ≡ true
    → has_key item_key d items ≡ true
    → colour_of s d ≡ Colour.closed
unfolding inner any
inner-All items d s [] all member planned = cc
inner-All items d s (x ∷ ds) all member planned = elim (Bool-cases (has_key item_key x items)) [
  | inl e ↦
      let (here, rest) : (colour_of s x ≡ Colour.closed) × AreClosed s (inner items ds) =
        subst (λ b. AreClosed s (if b then x ∷ inner items ds else inner items ds)) e all in
      elim (Bool-cases (x == d)) [
        | inl f ↦ subst (λ y. colour_of s y ≡ Colour.closed) ((eq_iff x d).0 f) here
        | inr f ↦ inner-All items d s ds rest (ground arith) planned
      ]
  | inr e ↦
      inner-All items d s ds
        (subst (λ b. AreClosed s (if b then x ∷ inner items ds else inner items ds)) e all)
        (ground (arith, eq_iff x d)) planned
]

opened-IsSound :
    (items : List PlanItem) (id : String) (s : List Mark)
    → IsSound items s
    → IsSound items (set_colour id Colour.opened s)
opened-IsSound items id s sound k h =
    sound k (ground (arith, h, colour_of-set_colour id k Colour.opened s))

closed-IsSound :
    (items : List PlanItem) (id : String) (s : List Mark)
    → IsSound items s
    → AreClosed s (inner items (dependencies_of items id))
    → IsSound items (set_colour id Colour.closed s)
closed-IsSound items id s sound all k h = elim (Bool-cases (id == k)) [
  | inl e ↦ subst (IsGrounded items) ((eq_iff id k).0 e) (
      Acc.intro id (λ d need.
        sound d (inner-All items d s (dependencies_of items id) all need.named need.planned)))
  | inr e ↦ sound k (ground (arith, h, e, colour_of-set_colour id k Colour.closed s))
]

visit-IsSound :
    (items : List PlanItem) (depth : ℕ) (id : String) (s t : List Mark)
    → visit items depth id s ≡ ok t
    → IsSound items s
    → IsSound items t × (colour_of t id ≡ Colour.closed)
unfolding visit
visit-IsSound items zero id s t h sound = cc
visit-IsSound items (suc depth) id s t h sound = elim (visit-eq-ok items depth id s t h) [
  | inl (e, same) ↦ rw same (sound, e)
  | inr (next, e, f, same) ↦
      let (better, all) =
        each-IsSound items (visit items depth) (visit-Marked items depth)
          (visit-IsSound items depth) (inner items (dependencies_of items id))
          (set_colour id Colour.opened s) next f (opened-IsSound items id s sound) in
      rw same (
        closed-IsSound items id next better all,
        ground (arith, text_refl id, colour_of-set_colour id id Colour.closed next),
      )
]

ids_of-All :
    (P : String → Type 0) (items : List PlanItem) (k : String)
    → All P (ids_of items)
    → has_key item_key k items ≡ true
    → P k
unfolding ids_of any
ids_of-All P [] k all h = cc
ids_of-All P (i ∷ is) k all h = elim (Bool-cases (i.id == k)) [
  | inl e ↦ subst P ((eq_iff i.id k).0 e) all.0
  | inr e ↦ ids_of-All P is k all.1 (ground arith)
]

pub search-IsGrounded :
    (items : List PlanItem) (marks : List Mark)
    → search items ≡ ok marks
    → (k : String) → has_key item_key k items ≡ true
    → IsGrounded items k
unfolding search colour_of find
search-IsGrounded items marks h k member =
    let (sound, all) =
      each-IsSound items (visit items (length items + 1)) (visit-Marked items (length items + 1))
        (visit-IsSound items (length items + 1)) (ids_of items) [] marks h (λ x e. cc) in
    sound k (ids_of-All (λ d. colour_of marks d ≡ Colour.closed) items k all member)

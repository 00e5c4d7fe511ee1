-- ===== src/Planning/Graph/Marks.antt =====
-- Reading the marks behind a write, and counting the items without a mark.
use orch_kit.Prelude.{
  ℕ, ◌≤◌, ◌<◌, String, ◌≡◌, refl, Bool, true, false, List, [], ◌∷◌, ◌==◌, find-put, find-put_other,
  has_key, any, count, length, Bool-cases, inl, inr, eq_iff, text_refl, arith, if◌then◌else◌,
}
use orch_kit.Planning.Item.{PlanItem, item_key}
use orch_kit.Planning.Graph.{Colour, Mark, mark_key, colour_of, set_colour}

pub colour_of-set_colour :
    (id k : String) (c : Colour) (marks : List Mark)
    → colour_of (set_colour id c marks) k ≡ (if id == k then c else colour_of marks k)
unfolding colour_of set_colour
colour_of-set_colour id k c marks = elim (Bool-cases (id == k)) [
  | inl e ↦ ground (arith, e, eq_iff id k, find-put mark_key (record { id = id; colour = c }) marks)
  | inr e ↦ ground (arith, e, find-put_other mark_key k (record { id = id; colour = c }) marks)
]

abbrev pub is_fresh : Colour → Bool
is_fresh Colour.fresh = true
is_fresh _ = false

-- The items without a mark.
abbrev pub unmarked : List PlanItem → List Mark → ℕ
unmarked items marks = count (λ (i : PlanItem). is_fresh (colour_of marks i.id)) items

pub count-le {ℓ} :
    {A : Type ℓ} (p q : A → Bool) (xs : List A)
    → ((x : A) → p x ≡ true → q x ≡ true)
    → count p xs ≤ count q xs
unfolding count
count-le p q [] h = omega arith
count-le p q (x ∷ xs) h = ground (arith, h x, count-le p q xs h)

pub count-lt {ℓ} :
    {A : Type ℓ} (key : A → String) (k : String) (p q : A → Bool) (xs : List A)
    → ((x : A) → p x ≡ true → q x ≡ true)
    → ((x : A) → key x ≡ k → (p x ≡ false) × (q x ≡ true))
    → has_key key k xs ≡ true
    → count p xs < count q xs
unfolding count any
count-lt key k p q [] h e m = cc
count-lt key k p q (x ∷ xs) h e m =
    ground (arith, h x, e x, eq_iff (key x) k, count-le p q xs h, count-lt key k p q xs h e)

pub unmarked-empty : (items : List PlanItem) → unmarked items [] ≡ length items
unfolding count colour_of
unmarked-empty [] = refl
unmarked-empty (i ∷ is) = ground (arith, unmarked-empty is)

-- Opening an item of the plan that has no mark leaves fewer without one.
pub unmarked-opened :
    (items : List PlanItem) (id : String) (marks : List Mark)
    → has_key item_key id items ≡ true
    → colour_of marks id ≡ Colour.fresh
    → unmarked items (set_colour id Colour.opened marks) < unmarked items marks
unmarked-opened items id marks member unseen =
    count-lt item_key id _ _ items
      (λ i h. ground (arith, colour_of-set_colour id i.id Colour.opened marks))
      (λ i e.
        ground (arith, e, text_refl id, unseen, colour_of-set_colour id i.id Colour.opened marks))
      member

pub unmarked-closed :
    (items : List PlanItem) (id : String) (marks : List Mark)
    → unmarked items (set_colour id Colour.closed marks) ≤ unmarked items marks
unmarked-closed items id marks =
    count-le _ _ items (λ i h. ground (arith, colour_of-set_colour id i.id Colour.closed marks))

-- ===== src/Planning/Graph/Cycle.antt =====
-- A search that raises has met an item that needs itself: each opened item leads to the one visited.
use mathlib.Core.Path.{subst, sym, ap}
use mathlib.Core.WellFounded.{Acc}
use orch_kit.Prelude.{
  is_in, ℕ, zero, suc, ◌+◌, String, ◌≡◌, ◌∙◌, ◌⊎◌, All, All-map, refl, true, List, [], ◌∷◌, ◌==◌,
  length, has_key, any, find, Bool-cases, inl, inr, eq_iff, text_refl, arith, if◌then◌else◌,
}
use orch_kit.Result.{Result, ok, err, Error, dependency_cycle, out_of_fuel}
use orch_kit.Planning.Item.{PlanItem, item_key}
use orch_kit.Planning.Graph.{
  Colour, Mark, colour_of, set_colour, dependencies_of, each, inner, visit, ids_of, search,
  validate_dependency_graph,
}
use orch_kit.Planning.Graph.Marks.{colour_of-set_colour, unmarked-empty}
use orch_kit.Planning.Graph.Search.{
  Needs, IsGrounded, Marked, Members, each-eq-err, visit-eq-err, visit-Marked, each_ends,
  visit_ends,
}
use orch_kit.Planning.Graph.Closed.{search-IsGrounded}

-- Item `a` needs the item at the end, directly or through items in between.
pub data Walk (items : List PlanItem) (a : String) : String → Type 0 where
  direct : {b : String} → Needs items a b → Walk items a b
  onward : {b c : String} → Walk items a b → Needs items b c → Walk items a c

abbrev pub HasCycle : List PlanItem → Type 0
HasCycle items = (k : String) × Walk items k k

-- What an error of the search means.
abbrev IsCaused : List PlanItem → Error → Type 0
IsCaused items x = (x ≡ out_of_fuel) ⊎ ((x ≡ dependency_cycle) × HasCycle items)

abbrev LeadTo : List PlanItem → List Mark → String → Type 0
LeadTo items s d = (k : String) → colour_of s k ≡ Colour.opened → Walk items k d

each-IsCaused :
    (items : List PlanItem) (f : String → List Mark → Result (List Mark)) (x : Error)
    → ((d : String) (s t : List Mark) → f d s ≡ ok t → Marked s t)
    → ((d : String) (s : List Mark) → LeadTo items s d → f d s ≡ err x → IsCaused items x)
    → (ds : List String) (s : List Mark) → All (LeadTo items s) ds
    → each f ds s ≡ err x
    → IsCaused items x
unfolding each
each-IsCaused items f x keep rule [] s all h = cc
each-IsCaused items f x keep rule (d ∷ ds) s all h = elim (each-eq-err f d ds s x h) [
  | inl e ↦ rule d s all.0 e
  | inr (next, e, k) ↦
      let kept = keep d s next e in
      each-IsCaused items f x keep rule ds next
        (All-map (LeadTo items s) (LeadTo items next) ds (λ y lead j o. lead j (kept.opened j o))
          all.1)
        k
]

inner-Needs :
    (items : List PlanItem) (id : String) (ds : List String)
    → ((d : String) → is_in d ds ≡ true → is_in d (dependencies_of items id) ≡ true)
    → All (Needs items id) (inner items ds)
unfolding inner any
inner-Needs items id [] part = tt
inner-Needs items id (d ∷ ds) part =
    let rest = inner-Needs items id ds (λ x e. part x (ground arith)) in
    elim (Bool-cases (has_key item_key d items)) [
      | inl e ↦
          subst (λ b. All (Needs items id) (if b then d ∷ inner items ds else inner items ds))
            (sym e) (record { named = part d (ground (arith, text_refl d)); planned = e }, rest)
      | inr e ↦
          subst (λ b. All (Needs items id) (if b then d ∷ inner items ds else inner items ds))
            (sym e) rest
    ]

opened-LeadTo :
    (items : List PlanItem) (id d : String) (s : List Mark)
    → LeadTo items s id
    → Needs items id d
    → LeadTo items (set_colour id Colour.opened s) d
opened-LeadTo items id d s lead need k o = elim (Bool-cases (id == k)) [
  | inl e ↦ subst (λ x. Walk items x d) ((eq_iff id k).0 e) (Walk.direct need)
  | inr e ↦
      Walk.onward (lead k (ground (arith, o, e, colour_of-set_colour id k Colour.opened s))) need
]

visit-IsCaused :
    (items : List PlanItem) (x : Error) (depth : ℕ) (id : String) (s : List Mark)
    → LeadTo items s id
    → visit items depth id s ≡ err x
    → IsCaused items x
unfolding visit
visit-IsCaused items x zero id s lead h = inl (ground arith)
visit-IsCaused items x (suc depth) id s lead h = elim (visit-eq-err items depth id s x h) [
  | inl (e, cycle) ↦ inr (cycle, (id, lead id e))
  | inr (e, f) ↦
      each-IsCaused items (visit items depth) x (visit-Marked items depth)
        (visit-IsCaused items x depth) (inner items (dependencies_of items id))
        (set_colour id Colour.opened s)
        (All-map (Needs items id) (LeadTo items (set_colour id Colour.opened s))
          (inner items (dependencies_of items id)) (λ d need. opened-LeadTo items id d s lead need)
          (inner-Needs items id (dependencies_of items id) (λ d m. m)))
        f
]

ids_of-Members : (items : List PlanItem) → Members items (ids_of items)
unfolding ids_of any
ids_of-Members [] = tt
ids_of-Members (i ∷ is) = (
  ground (arith, text_refl i.id),
  All-map (λ d. has_key item_key d is ≡ true) _ (ids_of is) (λ d h. ground arith)
      (ids_of-Members is),
)

search-IsCaused : (items : List PlanItem) (x : Error) → search items ≡ err x → IsCaused items x
unfolding search colour_of find
search-IsCaused items x h =
    each-IsCaused items (visit items (length items + 1)) x (visit-Marked items (length items + 1))
      (visit-IsCaused items x (length items + 1)) (ids_of items) []
      (All-map (λ d. has_key item_key d items ≡ true) (LeadTo items []) (ids_of items)
        (λ d m k o. cc) (ids_of-Members items))
      h

search_ends : (items : List PlanItem) → search items ≡ err out_of_fuel → ⊥
unfolding search
search_ends items h =
    let start = unmarked-empty items in
    each_ends items (length items + 1) (visit_ends items (length items + 1)) (ids_of items) []
      (ids_of-Members items) (omega arith) h

-- The check of the dependency graph ends, on every plan and without running out of depth: either it
-- accepts, and from each item of the plan every chain of dependencies inside the plan is finite, or
-- it raises `dependency_cycle`, and some item of the plan needs itself through dependencies.
pub validate_dependency_graph_ends :
    (items : List PlanItem)
    → ((validate_dependency_graph items ≡ ok tt)
        × ((k : String) → has_key item_key k items ≡ true → IsGrounded items k))
      ⊎ ((validate_dependency_graph items ≡ err dependency_cycle) × HasCycle items)
unfolding validate_dependency_graph
validate_dependency_graph_ends items = go (search items) refl
  where
    go :
        (r : Result (List Mark))
        → search items ≡ r
        → ((validate_dependency_graph items ≡ ok tt)
            × ((k : String) → has_key item_key k items ≡ true → IsGrounded items k))
          ⊎ ((validate_dependency_graph items ≡ err dependency_cycle) × HasCycle items)
    go (ok marks) e = inl (ground (arith, e), search-IsGrounded items marks e)
    go (err x) e = elim (search-IsCaused items x e) [
      | inl fuel ↦ elim (search_ends items (e ∙ ap err fuel)) [ ]
      | inr (cycle, found) ↦ inr (ground (arith, e, cycle), found)
    ]

first_step :
    {items : List PlanItem} {a c : String}
    → Walk items a c
    → (d : String) × Needs items a d × ((d ≡ c) ⊎ Walk items d c)
first_step (Walk.direct need) = (_, need, inl refl)
first_step {items} {a} {c} (Walk.onward walk need) =
    let (d, here, rest) = first_step walk in
    elim rest [
      | inl same ↦ (d, here, inr (Walk.direct (subst (λ x. Needs items x c) (sym same) need)))
      | inr more ↦ (d, here, inr (Walk.onward more need))
    ]

grounded-Walk : {items : List PlanItem} (k : String) → IsGrounded items k → ¬ Walk items k k
grounded-Walk {items} k (Acc.intro k' h) walk =
    let (d, need, rest) = first_step walk in
    elim rest [
      | inl same ↦ grounded-Walk d (h d need) (subst (λ x. Walk items x x) (sym same) walk)
      | inr more ↦ grounded-Walk d (h d need) (Walk.onward more need)
    ]

-- A chain of dependencies inside an accepted plan never comes back to the item it starts from.
pub validate_dependency_graph-acyclic :
    (items : List PlanItem) (k : String)
    → validate_dependency_graph items ≡ ok tt
    → has_key item_key k items ≡ true
    → ¬ Walk items k k
validate_dependency_graph-acyclic items k h member walk =
    elim (validate_dependency_graph_ends items) [
      | inl (e, all) ↦ grounded-Walk k (all k member) walk
      | inr (e, found) ↦ cc
    ]

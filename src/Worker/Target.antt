-- ===== src/Worker/Target.antt =====
-- A target of a file operation is a path in the normal form of orch/core.py.
use orch_kit.Prelude.{
  ℕ, ◌≡◌, ◌∙◌, ap, sym, refl, false, Bool-cases, List, [], ◌∷◌, any, select, inl, inr, arith,
  nat_eq,
}
use orch_kit.Result.{ok}
use orch_kit.Path.{
  Chars, slash, contains, split, starts_with_slash, is_nil, is_dot_dot, is_part, strip_dots, root,
  parts, join, as_posix, normalize_relative_path, cons_head,
}
use orch_kit.Worker.Defs.{is_control, is_traversal, file_target}

split-cons : (s : Chars) → (p : Chars) × (ps : List Chars) × (split s ≡ p ∷ ps)
unfolding split
split-cons [] = ([], [], refl)
split-cons (a ∷ s) =
    let (p, ps, e) = split-cons s in
    elim (Bool-cases (nat_eq a slash)) [
      | inl t ↦ ([], split s, ground (arith, t))
      | inr f ↦ (a ∷ p, ps, ground (arith, e, f))
    ]

join-cons_head :
    (a : ℕ) (p : Chars) (ps : List Chars) → join (cons_head a (p ∷ ps)) ≡ a ∷ join (p ∷ ps)
unfolding join
join-cons_head a p [] = refl
join-cons_head a p (q ∷ ps) = refl

join-nil : (p : Chars) (ps : List Chars) → join ([] ∷ p ∷ ps) ≡ slash ∷ join (p ∷ ps)
unfolding join
join-nil p ps = refl

join-split : (s : Chars) → join (split s) ≡ s
unfolding split join
join-split [] = refl
join-split (a ∷ s) =
    let (p, ps, e) = split-cons s in
    let rest : join (p ∷ ps) ≡ s = sym (ap join e) ∙ join-split s in
    elim (Bool-cases (nat_eq a slash)) [
      | inl t ↦ ground (arith, t, e, rest, join-nil p ps)
      | inr f ↦ ground (arith, f, e, rest, join-cons_head a p ps)
    ]

select-is_part : (ps : List Chars) → any is_traversal ps ≡ false → select is_part ps ≡ ps
unfolding any select
select-is_part [] h = refl
select-is_part (p ∷ ps) h = ground (arith, h, select-is_part ps)

any-is_dot_dot : (ps : List Chars) → any is_traversal ps ≡ false → any is_dot_dot ps ≡ false
unfolding any
any-is_dot_dot [] h = refl
any-is_dot_dot (p ∷ ps) h = ground (arith, h, any-is_dot_dot ps)

contains-zero : (s : Chars) → any is_control s ≡ false → contains 0 s ≡ false
unfolding any contains
contains-zero [] h = refl
contains-zero (a ∷ s) h = ground (arith, h, contains-zero s)

strip_dots-same : (s : Chars) → any is_traversal (split s) ≡ false → strip_dots s ≡ s
unfolding strip_dots split any
strip_dots-same [] h = refl
strip_dots-same (a ∷ []) h = refl
strip_dots-same (a ∷ b ∷ s) h = ground (arith, h)

as_posix-same :
    (s : Chars)
    → is_nil s ≡ false
    → starts_with_slash s ≡ false
    → any is_traversal (split s) ≡ false
    → as_posix s ≡ s
unfolding as_posix root parts
as_posix-same [] n r h = cc
as_posix-same (a ∷ s) n r h =
    ground (arith, r, join-split (a ∷ s), select-is_part (split (a ∷ s)) h)

-- The target of a file operation that passes the lexical test is a path of a receipt or an allowlist in
-- normal form: `normalize_relative_path` accepts it and gives it back unchanged.
pub file_target-normalize_relative_path :
    (target : Chars) → file_target target ≡ ok tt → normalize_relative_path target ≡ ok target
unfolding file_target normalize_relative_path parts
file_target-normalize_relative_path target h =
    let filled : is_nil target ≡ false = ground (arith, h) in
    let relative : starts_with_slash target ≡ false = ground (arith, h) in
    let printable : any is_control target ≡ false = ground (arith, h) in
    let plain : any is_traversal (split target) ≡ false = ground (arith, h) in
    ground (
      arith,
      filled,
      relative,
      plain,
      contains-zero target printable,
      strip_dots-same target plain,
      as_posix-same target filled relative plain,
      any-is_dot_dot (split target) plain,
      select-is_part (split target) plain,
    )

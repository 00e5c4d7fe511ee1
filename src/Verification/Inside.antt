-- ===== src/Verification/Inside.antt =====
-- What a census that does not block has shown of the workspace.
use mathlib.Core.List.{map}
use mathlib.Core.Path.{subst, sym, ap, ◌∙◌}
use orch_kit.Prelude.{
  String, ◌≡◌, ◌⊎◌, inl, inr, true, false, not, Option, none, some, List, [], ◌∷◌, All, All-map,
  Exists, Exists-map, Exists-select, any-Exists, All-select, any, Bool-cases, select-nothing, codes,
  arith,
}
use orch_kit.Result.{Result, ok, ◌>>=◌, >>=-eq-ok, ok-eq-ok}
use orch_kit.Path.{Chars, same, normalize_relative_path, path_allowed}
use orch_kit.Path.Allowlist.{same-path, same_refl}
use orch_kit.Ledger.{Task}
use orch_kit.Review.{sorted_set}
use orch_kit.Review.Sorted.{All-sorted_set, Exists-sorted_set}
use orch_kit.Verification.Scope.{
  Worktree, Scope, normalize_all, is_among, listed, is_observed, observed_of, census_of,
  workspace_scope_evidence, is_scope_blocked,
}

-- The path `d`, in normal form, is the listed path `p`.
abbrev pub IsNamed : String → String → Type 0
IsNamed d p = normalize_relative_path (codes d) ≡ ok (codes p)

-- `p` is a protected path of the task.
abbrev pub IsProtected : Task → String → Type 0
IsProtected t p = Exists (λ e. IsNamed e p) (map (λ e. e.0) t.payload.protected_paths)

-- Either there is no work tree to look at, or each path that git lists is protected, or allowed and
-- declared, and each declared path is listed and not protected.
pub data IsInside (t : Task) (declared : List String) (worktree : Result (Option Worktree))
    : Type 0 where
  non_git : worktree ≡ ok none → IsInside t declared worktree
  inside :
      (w : Worktree)
      → worktree ≡ ok (some w)
      → All
          (λ p.
            IsProtected t p
            ⊎ ((path_allowed (codes p) (map codes t.payload.allowed_paths) ≡ true)
                × Exists (λ d. IsNamed d p) declared))
          (listed w)
      → All (λ d. Exists (λ p. IsNamed d p × ¬ IsProtected t p) (listed w)) declared
      → IsInside t declared worktree

normalize_all-cons :
    (p : String) (ps : List String) (qs : List Chars)
    → normalize_all (p ∷ ps) ≡ ok qs
    → (q : Chars) × (normalize_relative_path (codes p) ≡ ok q)
      × ((rest : List Chars) × (normalize_all ps ≡ ok rest) × (q ∷ rest ≡ qs))
unfolding normalize_all
normalize_all-cons p ps qs h =
    let (q, e, k) = >>=-eq-ok (normalize_relative_path (codes p)) _ h in
    let (rest, f, m) = >>=-eq-ok (normalize_all ps) _ k in (q, e, (rest, f, ok-eq-ok m))

normalize_all-All :
    (P : Chars → Type 0) (ps : List String) (qs : List Chars)
    → normalize_all ps ≡ ok qs
    → All P qs
    → All (λ d. (q : Chars) × (normalize_relative_path (codes d) ≡ ok q) × P q) ps
normalize_all-All P [] qs h a = tt
normalize_all-All P (p ∷ ps) qs h a =
    let (q, e, (rest, f, same)) = normalize_all-cons p ps qs h in
    let k : P q × All P rest = subst (All P) (sym same) a in
    ((q, e, k.0), normalize_all-All P ps rest f k.1)

-- The name of a path that is among the normalized ones.
among-IsNamed :
    (p : String) (ps : List String) (qs : List Chars)
    → normalize_all ps ≡ ok qs
    → is_among qs p ≡ true
    → Exists (λ d. IsNamed d p) ps
unfolding is_among normalize_all any
among-IsNamed p [] qs h m =
    let k : is_among [] p ≡ true = subst (λ x. is_among x p ≡ true) (sym (ok-eq-ok h)) m in
    absurd (ground (arith, k))
among-IsNamed p (d ∷ ps) qs h m =
    let (q, e, (rest, f, join)) = normalize_all-cons d ps qs h in
    let k : is_among (q ∷ rest) p ≡ true = subst (λ x. is_among x p ≡ true) (sym join) m in
    elim (Bool-cases (same q (codes p))) [
      | inl y ↦ Exists.here (e ∙ ap ok (same-path q (codes p) y))
      | inr n ↦ Exists.there (among-IsNamed p ps rest f (ground (arith, k, n)))
    ]

IsNamed-among :
    (p : String) (ps : List String) (qs : List Chars)
    → normalize_all ps ≡ ok qs
    → Exists (λ d. IsNamed d p) ps
    → is_among qs p ≡ true
unfolding is_among any
IsNamed-among p [] qs h m = elim m [ ]
IsNamed-among p (d ∷ ps) qs h (Exists.here e) =
    let (q, g, (rest, f, join)) = normalize_all-cons d ps qs h in
    let there : q ≡ codes p = ok-eq-ok (sym g ∙ e) in
    let y : same q (codes p) ≡ true =
      subst (λ x. same x (codes p) ≡ true) (sym there) (same_refl (codes p)) in
    subst (λ x. is_among x p ≡ true) join (ground (arith, y))
IsNamed-among p (d ∷ ps) qs h (Exists.there r) =
    let (q, g, (rest, f, join)) = normalize_all-cons d ps qs h in
    let k = IsNamed-among p ps rest f r in subst (λ x. is_among x p ≡ true) join (ground (arith, k))

All-both :
    (P Q : String → Type 0) (xs : List String) → All P xs → All Q xs → All (λ x. P x × Q x) xs
All-both P Q [] a b = tt
All-both P Q (x ∷ xs) a b = ((a.0, b.0), All-both P Q xs a.1 b.1)

module _ (t : Task) (paths : List String) (declared protected : List Chars) (w : Worktree)
    (named : normalize_all paths ≡ ok declared)
    (kept : normalize_all (map (λ e. e.0) t.payload.protected_paths) ≡ ok protected) where
  observed-allowed :
      All
        (λ p. not (path_allowed (codes p) (map codes t.payload.allowed_paths)) ≡ false)
        (observed_of protected w)
      → All (λ p. not (is_among declared p) ≡ false) (observed_of protected w)
      → All
          (λ p.
            IsProtected t p
            ⊎ ((path_allowed (codes p) (map codes t.payload.allowed_paths) ≡ true)
                × Exists (λ d. IsNamed d p) paths))
          (listed w)
  unfolding observed_of
  observed-allowed a b =
      All-map _ _ (listed w)
        (λ p c. elim c [
          | inl e ↦ inl (among-IsNamed p _ protected kept (ground (arith, e)))
          | inr (x, y) ↦
              inr (ground (arith, x), among-IsNamed p paths declared named (ground (arith, y)))
        ])
        (All-sorted_set _ (listed w) (
          All-select _ (λ p. not (is_among protected p)) (sorted_set (listed w))
            (All-both _ _ _ a b)))

  declared-observed :
      All (λ d. not (is_observed (observed_of protected w) d) ≡ false) declared
      → All (λ d. Exists (λ p. IsNamed d p × ¬ IsProtected t p) (listed w)) paths
  unfolding observed_of is_observed
  declared-observed a =
      All-map _ _ paths
        (λ d (q, n, h).
          Exists-map _ _ (listed w)
            (λ p (free, y). (
              n ∙ ap ok (same-path q (codes p) y),
              λ m. let k = IsNamed-among p _ protected kept m in ground (arith, k, free),
            ))
            (Exists-sorted_set _ (listed w) (
              Exists-select _ (λ p. not (is_among protected p)) (sorted_set (listed w))
                (any-Exists (λ p. same q (codes p)) _ (ground (arith, h))))))
        (normalize_all-All _ paths declared named a)

  census-IsInside :
      (worktree : Result (Option Worktree))
      → worktree ≡ ok (some w)
      → is_scope_blocked (Scope.census (census_of t.payload.allowed_paths declared protected w))
        ≡ false
      → IsInside t paths worktree
  unfolding census_of
  census-IsInside worktree h free =
      let observed : List String = observed_of protected w in
      IsInside.inside w h
        (observed-allowed (select-nothing _ observed (ground (arith, free)))
          (select-nothing _ observed (ground (arith, free))))
        (declared-observed (select-nothing _ declared (ground (arith, free))))

pub workspace_scope_evidence-IsInside :
    (t : Task) (paths : List String) (worktree : Result (Option Worktree)) (scope : Scope)
    → workspace_scope_evidence t.payload paths worktree ≡ ok scope
    → is_scope_blocked scope ≡ false
    → IsInside t paths worktree
unfolding workspace_scope_evidence
workspace_scope_evidence-IsInside t paths worktree scope h free =
    let (declared, named, h1) = >>=-eq-ok (normalize_all paths) _ h in
    let (found, answer, h2) = >>=-eq-ok worktree _ h1 in go declared named found answer h2
  where
    go :
        (declared : List Chars)
        → normalize_all paths ≡ ok declared
        → (found : Option Worktree) → worktree ≡ ok found
        → elim found as (λ x. Result Scope) [
          | none ↦ ok Scope.non_git_unavailable
          | some w ↦ normalize_all (map (λ e. e.0) t.payload.protected_paths) >>= λ protected.
              ok (Scope.census (census_of t.payload.allowed_paths declared protected w))
        ]
          ≡ ok scope
        → IsInside t paths worktree
    go declared named none answer k = IsInside.non_git answer
    go declared named (some w) answer k =
        let (protected, kept, m) =
          >>=-eq-ok (normalize_all (map (λ e. e.0) t.payload.protected_paths)) _ k in
        census-IsInside t paths declared protected w named kept worktree answer
          (subst (λ x. is_scope_blocked x ≡ false) (sym (ok-eq-ok m)) free)

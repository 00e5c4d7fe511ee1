-- ===== src/Path/Defs.antt =====
-- The definitions; they work on lists of code points.
use orch_kit.Prelude.{
  ℕ, Bool, true, false, not, ◌&&◌, ◌||◌, List, [], ◌∷◌, ◌++◌, nat_eq, select, any, if◌then◌else◌,
}
use orch_kit.Result.{Result, ok, err, guard, ◌>>◌, invalid_relative_path, path_escape}

abbrev pub Chars : Type 0
Chars = List ℕ

abbrev pub slash : ℕ
slash = b'/'

abbrev pub dot : ℕ
dot = b'.'

unfoldable pub same : Chars → Chars → Bool
same [] [] = true
same (a ∷ s) (b ∷ t) = nat_eq a b && same s t
same _ _ = false

unfoldable pub contains : ℕ → Chars → Bool
contains c [] = false
contains c (a ∷ s) = nat_eq a c || contains c s

abbrev pub starts_with_slash : Chars → Bool
starts_with_slash [] = false
starts_with_slash (a ∷ s) = nat_eq a slash

-- `while value.startswith("./"): value = value[2:]`
unfoldable pub strip_dots : Chars → Chars
strip_dots (a ∷ b ∷ s) =
    let rest = strip_dots s in if nat_eq a dot && nat_eq b slash then rest else a ∷ b ∷ s
strip_dots s = s

abbrev pub cons_head : ℕ → List Chars → List Chars
cons_head a [] = (a ∷ []) ∷ []
cons_head a (p ∷ ps) = (a ∷ p) ∷ ps

-- The pieces between slashes.
unfoldable pub split : Chars → List Chars
split [] = [] ∷ []
split (a ∷ s) = let rest = split s in if nat_eq a slash then [] ∷ rest else cons_head a rest

abbrev pub tail_of : Chars → Chars
tail_of [] = []
tail_of (a ∷ s) = s

unfoldable pub root : Chars → Chars
root s =
    if starts_with_slash s
    then (if starts_with_slash (tail_of s) && not (starts_with_slash (tail_of (tail_of s)))
        then slash ∷ slash ∷ []
        else slash ∷ [])
    else []

abbrev pub is_nil : Chars → Bool
is_nil [] = true
is_nil (a ∷ s) = false

abbrev pub is_dot : Chars → Bool
is_dot (a ∷ []) = nat_eq a dot
is_dot _ = false

abbrev pub is_dot_dot : Chars → Bool
is_dot_dot (a ∷ b ∷ []) = nat_eq a dot && nat_eq b dot
is_dot_dot _ = false

abbrev pub is_part : Chars → Bool
is_part p = not (is_nil p) && not (is_dot p)

-- `Path(value).parts`, less the root
unfoldable pub parts : Chars → List Chars
unfolding split
parts s = select is_part (split s)

unfoldable pub join : List Chars → Chars
join [] = []
join (p ∷ []) = p
join (p ∷ q ∷ ps) = p ++ slash ∷ join (q ∷ ps)

abbrev pub or_dot : Chars → Chars
or_dot [] = dot ∷ []
or_dot (a ∷ s) = a ∷ s

-- `Path(value).as_posix()`
unfoldable pub as_posix : Chars → Chars
unfolding root parts join
as_posix s = or_dot (root s ++ join (parts s))

unfoldable pub normalize_relative_path : Chars → Result Chars
unfolding contains strip_dots parts as_posix any
normalize_relative_path s = do
  guard (not (is_nil s || contains 0 s || starts_with_slash s)) invalid_relative_path
  guard (not (is_nil (strip_dots s) || any is_dot_dot (parts (strip_dots s)))) path_escape
  ok (as_posix (strip_dots s))

-- `entry.endswith("/")`
unfoldable pub ends_with_slash : Chars → Bool
ends_with_slash [] = false
ends_with_slash (a ∷ []) = nat_eq a slash
ends_with_slash (a ∷ b ∷ s) = ends_with_slash (b ∷ s)

-- `entry.rstrip("/")`
unfoldable pub strip_slashes : Chars → Chars
strip_slashes [] = []
strip_slashes (a ∷ s) =
    let rest = strip_slashes s in if is_nil rest && nat_eq a slash then [] else a ∷ rest

unfoldable pub is_prefix : Chars → Chars → Bool
is_prefix [] t = true
is_prefix (a ∷ s) (b ∷ t) = nat_eq a b && is_prefix s t
is_prefix (a ∷ s) [] = false

-- One turn of the loop over the allowlist.
unfoldable pub entry_allows : Chars → Chars → Bool
entry_allows normalized entry = elim (normalize_relative_path (strip_slashes entry)) [
  | err e ↦ false
  | ok item ↦
      same normalized item || (ends_with_slash entry && is_prefix (item ++ slash ∷ []) normalized)
]

unfoldable pub path_allowed : Chars → List Chars → Bool
unfolding entry_allows any
path_allowed relative allowlist = elim (normalize_relative_path relative) [
  | err e ↦ false
  | ok normalized ↦ any (entry_allows normalized) allowlist
]

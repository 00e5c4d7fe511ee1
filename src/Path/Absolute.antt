-- ===== src/Path/Absolute.antt =====
-- The leading `./` are taken off behind the test for a leading slash.
use orch_kit.Prelude.{◌≡◌, refl, true, false, [], ◌∷◌, any, arith}
use orch_kit.Result.{ok}
use orch_kit.Path.Defs.{
  Chars, slash, dot, contains, strip_dots, is_dot_dot, parts, root, as_posix, starts_with_slash,
  normalize_relative_path,
}

strip_dots-slash : (s : Chars) → strip_dots (slash ∷ s) ≡ slash ∷ s
unfolding strip_dots
strip_dots-slash [] = refl
strip_dots-slash (a ∷ s) = refl

as_posix-slash : (s : Chars) → starts_with_slash (as_posix (slash ∷ s)) ≡ true
unfolding as_posix root
as_posix-slash s = ground arith

-- A text `.//` with anything behind it that has no zero character and no `..` part is accepted, and what
-- is returned is an absolute path.
pub normalize_relative_path-absolute :
    (s : Chars)
    → contains 0 s ≡ false
    → any is_dot_dot (parts (slash ∷ s)) ≡ false
    → (p : Chars) × (normalize_relative_path (dot ∷ slash ∷ slash ∷ s) ≡ ok p)
      × (starts_with_slash p ≡ true)
unfolding normalize_relative_path strip_dots contains
normalize_relative_path-absolute s clean flat =
    (as_posix (slash ∷ s), rw (strip_dots-slash s, clean, flat) refl, as_posix-slash s)

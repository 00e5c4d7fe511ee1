-- ===== src/Claim/Check.antt =====
-- A guard of a claim passes with a value, or refuses with the reason that the source raises or
-- returns.
use orch_kit.Prelude.{◌≡◌, refl, String, Bool, true, false, Option, none, some}

pub data Check {u} (S : Type u) : Type u where
  refuse : String → Check S
  pass : S → Check S

abbrev pub expect {u} : {S : Type u} → Option S → String → Check S
expect (some found) reason = pass found
expect none reason = refuse reason

abbrev pub ensure : Bool → String → Check (Unit {0})
ensure false reason = refuse reason
ensure true reason = pass tt

-- The first refusal ends the guard.
infixl 5 ◌>>=◌ ◌>>◌
abbrev pub ◌>>◌ {v} : {T : Type v} → Check (Unit {0}) → Check T → Check T
refuse reason >> later = refuse reason
pass tt >> later = later

abbrev pub ◌>>=◌ {u v} : {S : Type u} {T : Type v} → Check S → (S → Check T) → Check T
refuse reason >>= later = refuse reason
pass found >>= later = later found

-- A guard passes where both of its parts pass.
pub >>=-eq-pass {u v} :
    {S : Type u} {T : Type v} (first : Check S) (later : S → Check T) {t : T}
    → (first >>= later) ≡ pass t
    → (s : S) × (first ≡ pass s) × (later s ≡ pass t)
>>=-eq-pass (refuse reason) later passed = cc
>>=-eq-pass (pass found) later passed = (found, refl, passed)

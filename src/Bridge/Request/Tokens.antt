-- ===== src/Bridge/Request/Tokens.antt =====
-- The texts that the patterns of routing tokens and identifiers match, written as ranges of characters.
use orch_kit.Prelude.{full_match, is_id_char, match_between}
use orch_kit.Prelude.{
  ℕ, String, Bool, true, false, Option, none, some, List, [], ◌∷◌, ◌≡◌, ◌≤◌, ◌⊎◌, refl, any, codes,
  length, not, All, All-map, arith,
}
use orch_kit.Json.{Json}
use orch_kit.Bridge.Request.{is_identifier, is_routing, is_routing_char}

-- A letter or a digit.
abbrev pub IsAlphanumeric : ℕ → Type 0
IsAlphanumeric c = ((b'A' ≤ c) × (c ≤ b'Z')) ⊎ ((b'a' ≤ c) × (c ≤ b'z')) ⊎ ((b'0' ≤ c) × (c ≤ b'9'))

-- A character of a routing token, and one of an identifier.
abbrev pub IsRouting : ℕ → Type 0
IsRouting c = IsAlphanumeric c ⊎ (c ≡ b'_') ⊎ (c ≡ b'-')

abbrev pub IsIdentifying : ℕ → Type 0
IsIdentifying c = IsRouting c ⊎ (c ≡ b'.')

-- A text of a length in these bounds, of such characters only.
abbrev pub IsToken : (ℕ → Type 0) → ℕ → ℕ → String → Type 0
IsToken P least most s = (least ≤ length (codes s)) × (length (codes s) ≤ most) × All P (codes s)

is_routing_char-IsRouting : (c : ℕ) → is_routing_char c ≡ true → IsRouting c
is_routing_char-IsRouting c h = ground (arith, h)

is_id_char-IsIdentifying : (c : ℕ) → is_id_char c ≡ true → IsIdentifying c
is_id_char-IsIdentifying c h = ground (arith, h)

any-All :
    (test : ℕ → Bool) (s : List ℕ) → any (λ c. not (test c)) s ≡ false → All (λ c. test c ≡ true) s
unfolding any
any-All test [] h = tt
any-All test (c ∷ cs) h = (ground (arith, h), any-All test cs (ground (arith, h)))

match_between-IsToken :
    (test : ℕ → Bool) (P : ℕ → Type 0) (least most : ℕ) (s : String)
    → ((c : ℕ) → test c ≡ true → P c)
    → match_between test least most (codes s) ≡ true
    → IsToken P least most s
unfolding match_between full_match
match_between-IsToken test P least most s f h = (
  ground (arith, h),
  ground (arith, h),
  All-map (λ c. test c ≡ true) P (codes s) f (any-All test (codes s) (ground (arith, h))),
)

pub is_identifier-text :
    (o : Option Json)
    → is_identifier o ≡ true
    → (s : String) × (o ≡ some (Json.text s)) × IsToken IsIdentifying 1 200 s
unfolding is_identifier
is_identifier-text (some (Json.text s)) h =
    (s, refl, match_between-IsToken is_id_char IsIdentifying 1 200 s is_id_char-IsIdentifying h)
is_identifier-text (some _) h = cc
is_identifier-text none h = cc

pub is_routing-text :
    (o : Option Json)
    → is_routing o ≡ true
    → (s : String) × (o ≡ some (Json.text s)) × IsToken IsRouting 24 200 s
unfolding is_routing
is_routing-text (some (Json.text s)) h =
    (s, refl, match_between-IsToken is_routing_char IsRouting 24 200 s is_routing_char-IsRouting h)
is_routing-text (some _) h = cc
is_routing-text none h = cc

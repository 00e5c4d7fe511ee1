-- ===== src/Json.antt =====
-- A value that `json.loads` gives: a dictionary is the list of its pairs in the order of the text.
use orch_kit.Prelude.{
  ℕ, String, Bool, true, false, not, ◌&&◌, ◌||◌, Option, none, some, List, ◌==◌, any, if◌then◌else◌,
}

mutual
  pub data Json : Type 0 where
    null : Json
    boolean : Bool → Json
    -- `integer n` is n, `negative n` is -(n + 1)
    integer negative : ℕ → Json
    -- a number with a fraction or an exponent, by its text
    real : String → Json
    text : String → Json
    array : Items → Json
    object : Fields → Json

  pub data Items : Type 0 where
    no_item : Items
    item : Json → Items → Items

  pub data Fields : Type 0 where
    no_field : Fields
    field : String → Json → Fields → Fields

-- `value.get(key)`
unfoldable pub get : String → Fields → Option Json
get key Fields.no_field = none
get key (Fields.field k v fs) = let rest = get key fs in if k == key then some v else rest

unfoldable pub has : String → Fields → Bool
has key Fields.no_field = false
has key (Fields.field k v fs) = k == key || has key fs

-- No dictionary inside has one key twice.
unfoldable mutual
  unfolding has

  pub unique : Json → Bool
  unique (Json.array xs) = unique_items xs
  unique (Json.object fs) = unique_object fs
  unique _ = true

  pub unique_items : Items → Bool
  unique_items Items.no_item = true
  unique_items (Items.item x xs) = unique x && unique_items xs

  pub unique_object : Fields → Bool
  unique_object Fields.no_field = true
  unique_object (Fields.field k v fs) = not (has k fs) && unique v && unique_object fs

unfoldable pub all_keys : (String → Bool) → Fields → Bool
all_keys test Fields.no_field = true
all_keys test (Fields.field k v fs) = test k && all_keys test fs

-- `set(value) == {…}`
unfoldable pub has_keys : List String → Fields → Bool
unfolding all_keys any has
has_keys wanted fs =
    all_keys (λ k. any (λ w. w == k) wanted) fs && not (any (λ w. not (has w fs)) wanted)

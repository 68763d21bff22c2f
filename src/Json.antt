-- ===== src/Json.antt =====
-- Values that json.loads returns, and how Python code asks them for their types and keys.
use norinth.Prelude.{
  Option, none, some, String, Bool, false, List, [], ◌∷◌, ℕ, ◌*◌, ◌^◌, text_key, lookup,
}

-- An int is not negative or negative; a float that is not negative is a number of units of 2^-1074.
-- Negative floats, NaN and the infinities are other_float.
mutual
  pub data Json : Type 0 where
    null_value : Json
    boolean : Bool → Json
    integer : ℕ → Json
    negative : ℕ → Json
    float : ℕ → Json
    other_float : Json
    text : String → Json
    array : Items → Json
    object : Members → Json

  pub data Items : Type 0 where
    end_items : Items
    item : Json → Items → Items

  pub data Members : Type 0 where
    end_members : Members
    member : String → Json → Members → Members

abbrev pub float_units : ℕ
float_units = 2 ^ 1074

abbrev pub item_list : Items → List Json
item_list end_items = []
item_list (item j js) = j ∷ item_list js

abbrev pub member_list : Members → List (String × Json)
member_list end_members = []
member_list (member k j ms) = (k, j) ∷ member_list ms

-- d.get(key) on a dictionary.
abbrev pub get : List (String × Json) → String → Option Json
get d key = lookup key d

-- x.get(key) where x is a dictionary, and nothing where x is none.
abbrev pub get_object : Option Json → List (String × Json)
get_object (some (object ms)) = member_list ms
get_object _ = []

abbrev pub get_list : Option Json → List Json
get_list (some (array js)) = item_list js
get_list _ = []

abbrev pub get_text : Option Json → Option String
get_text (some (text s)) = some s
get_text _ = none

abbrev pub get_natural : Option Json → Option ℕ
get_natural (some (integer n)) = some n
get_natural _ = none

-- bool(x.get(key, False)) on a value that is a bool or missing.
abbrev pub get_flag : Option Json → Bool
get_flag (some (boolean b)) = b
get_flag _ = false

-- float(x.get(key, 0) or 0) on a number that is not negative, in units.
abbrev pub get_units : Option Json → ℕ
get_units (some (integer n)) = n * float_units
get_units (some (float u)) = u
get_units _ = 0

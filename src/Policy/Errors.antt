-- ===== src/Policy/Errors.antt =====
-- The errors of validate_policy_body of policy_engine.py, and its tests of single values.
use Prim.Native.String.{count}
use norinth.Prelude.{
  Option, none, some, String, Bool, true, false, not, ◌&&◌, List, [], ◌∷◌, ◌++◌, ℕ, text_key,
  number_key, if◌then◌else◌, keys, subset, leb,
}
use norinth.Prelude.Result.{Result, ok, err}
use norinth.Json.{Json, null_value, integer, text, object, member_list}

-- What a message of validation names.
pub data Place : Type 0 where
  at_body : Place
  at_intake : Place
  at_tiers : Place
  at_tier : String → Place
  at_stage : ℕ → Place → Place
  at_fields : Place
  at_field : ℕ → Place
  at_gates : Place
  at_environments : Place
  at_environment : String → Place
  at_vendors : Place
  at_evidence : Place

-- What the message says.
pub data Fault : Type 0 where
  not_an_object : Fault
  not_a_list : Fault
  wrong_schema : Fault
  unknown_keys : Fault
  unknown_tier : Fault
  no_stages : Fault
  too_many_stages : Fault
  no_role : Fault
  role_undefined : Fault
  role_cannot_decide : Fault
  bad_label : Fault
  bad_mode : Fault
  bad_recertify_days : Fault
  too_many_fields : Fault
  bad_key : Fault
  duplicate_key : Fault
  bad_type : Fault
  bad_max_length : Fault
  bad_required_tiers : Fault
  bad_environment_name : Fault
  bad_coverage : Fault
  bad_attested : Fault
  bad_material_changes : Fault
  above_ceiling : Fault
  bad_days : Fault

abbrev pub Errors : Type 0
Errors = List (Place × Fault)

-- `x in some_set` on a list or a dictionary raises.
pub data TypeError : Type 0 where
  unhashable : TypeError

abbrev pub Checked : Type 0
Checked = Result TypeError Errors

-- One check after another: their errors in order, and what the first to raise raises.
infixl 6 ◌also◌
abbrev pub ◌also◌ : Checked → Checked → Checked
err e also next = err e
ok errors also err e = err e
ok errors also ok more = ok (errors ++ more)

abbrev pub error_if : Bool → Place → Fault → Errors
error_if test where_at fault = if test then (where_at, fault) ∷ [] else []

-- `if not isinstance(x, dict): errors.append(...)`, and else the checks of the dictionary.
abbrev pub object_errors : Place → (List (String × Json) → Errors) → Json → Errors
object_errors where_at check (object ms) = check (member_list ms)
object_errors where_at check _ = (where_at, not_an_object) ∷ []

abbrev pub object_checks : Place → (List (String × Json) → Checked) → Json → Checked
object_checks where_at check (object ms) = check (member_list ms)
object_checks where_at check _ = ok ((where_at, not_an_object) ∷ [])

-- set(d) - known
abbrev pub unknown_in : List (String × Json) → List String → Place → Errors
unknown_in d known where_at = error_if (not (subset (keys d) known)) where_at unknown_keys

-- `value is None`, for x.get(key)
abbrev pub is_none : Option Json → Bool
is_none none = true
is_none (some null_value) = true
is_none _ = false

-- isinstance(value, int) and not isinstance(value, bool) and low <= value <= high
abbrev pub is_int_between : ℕ → ℕ → Option Json → Bool
is_int_between low high (some (integer n)) = leb low n && leb n high
is_int_between low high _ = false

abbrev pub is_text_between : ℕ → ℕ → Option Json → Bool
is_text_between low high (some (text s)) = leb low (count s) && leb (count s) high
is_text_between low high _ = false

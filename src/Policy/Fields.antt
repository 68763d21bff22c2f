-- ===== src/Policy/Fields.antt =====
-- validate_custom_field_values of policy_engine.py: the values of the intake fields that a policy
-- declares.
pub mod Typed
pub mod Refused
mod Examples
use Prim.Native.String.{count}
use norinth.Prelude.{
  Option, none, some, String, Bool, true, false, not, List, [], ◌∷◌, ◌++◌, ◌==◌, ℕ, text_key,
  if◌then◌else◌, lookup, keys, contains, subset, ltb,
}
use norinth.Prelude.Result.{Result, ok, err, ◌>>=◌}
use norinth.Json.{
  Json, null_value, text, integer, negative, float, other_float, boolean, array, object, get,
}
use norinth.Policy.{Field}

-- ValueError, by what raises it: the field's key.
pub data FieldError : Type 0 where
  unknown_fields : FieldError
  field_required : String → FieldError
  not_a_string : String → FieldError
  too_long : String → FieldError
  not_a_number : String → FieldError
  not_a_boolean : String → FieldError

-- {field["key"]: field for field in fields}: the last field of a key, at the place of the first.
abbrev pub set_field : Field → List (String × Field) → List (String × Field)
set_field f [] = (f.key, f) ∷ []
set_field f ((k, g) ∷ d) =
    let rest = set_field f d in if k == f.key then (k, f) ∷ d else (k, g) ∷ rest

abbrev pub declare : List Field → List (String × Field) → List (String × Field)
declare [] d = d
declare (f ∷ fs) d = declare fs (set_field f d)

abbrev pub is_missing : Option Json → Bool
is_missing none = true
is_missing (some null_value) = true
is_missing (some (text s)) = s == ""
is_missing (some _) = false

-- int(field.get("max_length") or 500)
abbrev pub longest : Option ℕ → ℕ
longest none = 500
longest (some n) = if ltb 0 n then n else 500

abbrev pub check_string : String → Field → Json → Result FieldError (List (String × Json))
check_string key f (text s) =
    if ltb (longest f.max_length) (count s) then err (too_long key) else ok ((key, text s) ∷ [])
check_string key f _ = err (not_a_string key)

abbrev pub check_number : String → Json → Result FieldError (List (String × Json))
check_number key (integer n) = ok ((key, integer n) ∷ [])
check_number key (negative n) = ok ((key, negative n) ∷ [])
check_number key (float u) = ok ((key, float u) ∷ [])
check_number key other_float = ok ((key, other_float) ∷ [])
check_number key _ = err (not_a_number key)

abbrev pub check_boolean : String → Json → Result FieldError (List (String × Json))
check_boolean key (boolean b) = ok ((key, boolean b) ∷ [])
check_boolean key _ = err (not_a_boolean key)

-- What the value adds to the cleaned ones; a field of another type adds nothing.
abbrev pub check_type : String → Field → Json → Result FieldError (List (String × Json))
check_type key f value =
    if f.field_type == "string"
    then check_string key f value
    else if f.field_type == "number"
    then check_number key value
    else if f.field_type == "boolean"
    then check_boolean key value
    else ok []

abbrev pub check_given : String → Field → Option Json → Result FieldError (List (String × Json))
check_given key f none = ok []
check_given key f (some value) = check_type key f value

abbrev pub check_value :
    String → Field → String → Option Json → Result FieldError (List (String × Json))
check_value key f risk_tier value =
    if is_missing value
    then (if contains risk_tier f.required_tiers then err (field_required key) else ok [])
    else check_given key f value

abbrev pub check_values :
    List (String × Field) → List (String × Json) → String → Result FieldError (List (String × Json))
check_values [] values risk_tier = ok []
check_values ((key, f) ∷ declared) values risk_tier =
    check_value key f risk_tier (get values key) >>= λ cleaned.
    check_values declared values risk_tier >>= λ rest. ok (cleaned ++ rest)

unfoldable pub validate_custom_field_values :
    List Field → List (String × Json) → String → Result FieldError (List (String × Json))
validate_custom_field_values fields values risk_tier =
    if not (subset (keys values) (keys (declare fields [])))
    then err unknown_fields
    else check_values (declare fields []) values risk_tier

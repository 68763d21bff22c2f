-- ===== src/Policy/FieldChecks.antt =====
-- _validate_fields of policy_engine.py.
use Prim.Native.Char.{Char, code}
use norinth.Prelude.{
  Option, none, some, String, Bool, true, false, not, ◌&&◌, ◌||◌, List, [], ◌∷◌, ◌==◌, ℕ, zero, suc,
  text_key, number_key, if◌then◌else◌, contains, all, leb, ltb, length,
}
use norinth.Prelude.Result.{ok}
use norinth.Json.{Json, text, array, object, item_list, member_list, get}
use norinth.Policy.{risk_tiers}
use norinth.Policy.Errors.{
  at_fields, at_field, not_an_object, not_a_list, bad_label, too_many_fields, bad_key,
  duplicate_key, bad_type, bad_max_length, bad_required_tiers, Errors, Checked, ◌also◌, error_if,
  unknown_in, is_none, is_int_between, is_text_between,
}
use norinth.Policy.TierChecks.{one_of}

abbrev pub field_types : List String
field_types = "string" ∷ "number" ∷ "boolean" ∷ []

-- ^[a-z][a-z0-9_]{0,63}$, where $ also matches before a newline at the end.
abbrev pub is_lower : Char → Bool
is_lower c = leb 97 (code c) && leb (code c) 122

abbrev pub is_key_char : Char → Bool
is_key_char c = is_lower c || (leb 48 (code c) && leb (code c) 57) || code c == 95

abbrev pub is_newline_end : Char → String → Bool
is_newline_end c String.[] = code c == 10
is_newline_end c (String.◌∷◌ d s) = false

abbrev pub matches_rest : ℕ → String → Bool
matches_rest left String.[] = true
matches_rest zero (String.◌∷◌ c s) = is_newline_end c s
matches_rest (suc left) (String.◌∷◌ c s) =
    let rest = matches_rest left s in is_newline_end c s || (is_key_char c && rest)

abbrev pub field_key_matches : String → Bool
field_key_matches String.[] = false
field_key_matches (String.◌∷◌ c s) = is_lower c && matches_rest 63 s

-- The errors of a field's key, and the keys seen then.
abbrev pub key_check : ℕ → List String → Option Json → Errors × List String
key_check index seen (some (text key)) =
    if not (field_key_matches key)
    then ((at_field index, bad_key) ∷ [], seen)
    else if contains key seen
    then ((at_field index, duplicate_key) ∷ [], seen)
    else ([], key ∷ seen)
key_check index seen _ = ((at_field index, bad_key) ∷ [], seen)

-- isinstance(x, list) and all(tier in RISK_TIERS for tier in x), for field.get("required_tiers", [])
abbrev pub is_risk_tier : Json → Bool
is_risk_tier (text s) = contains s risk_tiers
is_risk_tier _ = false

abbrev pub is_tier_list : Option Json → Bool
is_tier_list none = true
is_tier_list (some (array tiers)) = all is_risk_tier (item_list tiers)
is_tier_list (some _) = false

abbrev pub label_checks : ℕ → List (String × Json) → Errors → Checked
label_checks index d key_errors =
    ok (
      unknown_in d ("key" ∷ "label" ∷ "type" ∷ "max_length" ∷ "required_tiers" ∷ [])
        (at_field index))
    also ok key_errors
    also ok (
        error_if (not (is_none (get d "label") || is_text_between 1 200 (get d "label")))
          (at_field index) bad_label)

abbrev pub field_checks : ℕ → List (String × Json) → Errors → Checked
field_checks index d key_errors =
    label_checks index d key_errors
    also one_of field_types (at_field index) bad_type (get d "type")
    also ok (
        error_if (not (is_none (get d "max_length") || is_int_between 1 4000 (get d "max_length")))
          (at_field index) bad_max_length)
    also ok
        (error_if (not (is_tier_list (get d "required_tiers"))) (at_field index) bad_required_tiers)

abbrev pub fields_checks : ℕ → List String → List Json → Checked
fields_checks index seen [] = ok []
fields_checks index seen (object ms ∷ fields) =
    let (key_errors, seen') = key_check index seen (get (member_list ms) "key") in
    field_checks index (member_list ms) key_errors also fields_checks (suc index) seen' fields
fields_checks index seen (field ∷ fields) =
    ok ((at_field index, not_an_object) ∷ []) also fields_checks (suc index) seen fields

-- intake.get("fields", [])
abbrev pub validate_fields : Option Json → Checked
validate_fields none = ok []
validate_fields (some (array fields)) =
    if ltb 20 (length (item_list fields))
    then ok ((at_fields, too_many_fields) ∷ [])
    else fields_checks 0 [] (item_list fields)
validate_fields (some _) = ok ((at_fields, not_a_list) ∷ [])

-- ===== src/Policy/Validation.antt =====
-- validate_policy_body of policy_engine.py, and the checks of the sections that it calls.
pub mod Sound
pub mod Entries
pub mod Bounds
use Prim.Native.Char.{Char, code}
use Prim.Native.String.{count}
use norinth.Prelude.{
  Option, none, some, String, Bool, true, false, not, ◌&&◌, ◌||◌, List, [], ◌∷◌, ◌++◌, ◌==◌, ℕ,
  zero, suc, ◌*◌, text_key, number_key, if◌then◌else◌, lookup, keys, contains, subset, all, map,
  leb, ltb, length,
}
use norinth.Prelude.Result.{Result, ok, err}
use norinth.Auth.{list_role_permissions}
use norinth.Json.{
  Json, null_value, boolean, integer, negative, float, other_float, text, array, object, item_list,
  member_list, get, float_units,
}
use norinth.Policy.{risk_tiers, material_change_ceiling}
use norinth.Policy.Errors.{
  Place, at_body, at_intake, at_tiers, at_tier, at_stage, at_fields, at_field, at_gates,
  at_environments, at_environment, at_vendors, at_evidence, Fault, not_an_object, not_a_list,
  wrong_schema, unknown_keys, unknown_tier, no_stages, too_many_stages, no_role, role_undefined,
  role_cannot_decide, bad_label, bad_mode, bad_recertify_days, too_many_fields, bad_key,
  duplicate_key, bad_type, bad_max_length, bad_required_tiers, bad_environment_name, bad_coverage,
  bad_attested, bad_material_changes, above_ceiling, bad_days, Errors, TypeError, unhashable,
  Checked, ◌also◌, error_if, object_errors, object_checks, unknown_in, is_none, is_int_between,
  is_text_between,
}
use norinth.Policy.TierChecks.{
  stage_modes, role_errors, stage_errors, stages_errors, stage_list_errors, validate_stages,
  validate_recertify_days, one_of, tier_checks, tiers_checks, validate_tiers,
}
use norinth.Policy.FieldChecks.{
  field_types, is_lower, is_key_char, is_newline_end, matches_rest, field_key_matches, key_check,
  is_risk_tier, is_tier_list, label_checks, field_checks, fields_checks, validate_fields,
}

abbrev pub validate_intake : List (String × String) → List (String × Json) → Checked
validate_intake grants d =
    ok (unknown_in d ("tiers" ∷ "fields" ∷ []) at_intake)
    also validate_tiers grants (get d "tiers")
    also validate_fields (get d "fields")

-- isinstance(x, (int, float)) and 0 <= x <= 100, not a bool, for entry.get("min_control_coverage", 0)
abbrev pub is_percentage : Option Json → Bool
is_percentage none = true
is_percentage (some (integer n)) = leb n 100
is_percentage (some (float units)) = leb units (100 * float_units)
is_percentage (some _) = false

abbrev pub is_flag : Option Json → Bool
is_flag none = true
is_flag (some (boolean b)) = true
is_flag (some _) = false

abbrev pub material_change_errors : Place → Option Json → Errors
material_change_errors where_at none = []
material_change_errors where_at (some (integer n)) =
    error_if (ltb material_change_ceiling n) where_at above_ceiling
material_change_errors where_at (some _) = (where_at, bad_material_changes) ∷ []

abbrev pub environment_errors : Place → List (String × Json) → Errors
environment_errors where_at d =
    unknown_in d
      ("require_attested_evals" ∷ "max_open_material_changes" ∷ "min_control_coverage" ∷ [])
      where_at
    ++ error_if (not (is_percentage (get d "min_control_coverage"))) where_at bad_coverage
    ++ error_if (not (is_flag (get d "require_attested_evals"))) where_at bad_attested
    ++ material_change_errors where_at (get d "max_open_material_changes")

abbrev pub environments_errors : List (String × Json) → Errors
environments_errors [] = []
environments_errors ((environment, entry) ∷ environments) =
    (if leb 1 (count environment) && leb (count environment) 100
      then object_errors (at_environment environment)
          (environment_errors (at_environment environment)) entry
      else (at_environments, bad_environment_name) ∷ [])
    ++ environments_errors environments

abbrev pub validate_environments : Option Json → Errors
validate_environments none = []
validate_environments (some environments) =
    object_errors at_environments environments_errors environments

abbrev pub validate_gates : List (String × Json) → Errors
validate_gates d =
    unknown_in d ("environments" ∷ []) at_gates ++ validate_environments (get d "environments")

abbrev pub days_errors : ℕ → Option Json → Errors
days_errors ceiling value =
    error_if (not (is_none value || is_int_between 1 ceiling value)) at_evidence bad_days

abbrev pub validate_evidence : List (String × Json) → Errors
validate_evidence d =
    unknown_in d ("coverage_window_days" ∷ "stale_after_days" ∷ []) at_evidence
    ++ days_errors 30 (get d "coverage_window_days")
    ++ days_errors 90 (get d "stale_after_days")

abbrev pub validate_vendors : List (String × String) → List (String × Json) → Errors
validate_vendors grants d =
    unknown_in d ("stages" ∷ "recertify_days" ∷ []) at_vendors
    ++ validate_stages grants at_vendors (get d "stages")
    ++ validate_recertify_days at_vendors (get d "recertify_days")

abbrev pub is_schema : Option Json → Bool
is_schema (some (text s)) = s == "governance-policy/v1"
is_schema _ = false

-- `if section in body: ...`
abbrev pub where_given : (Json → Checked) → Option Json → Checked
where_given check none = ok []
where_given check (some section) = check section

abbrev pub body_checks : List (String × String) → List (String × Json) → Checked
body_checks grants d =
    ok (error_if (not (is_schema (get d "schema"))) at_body wrong_schema)
    also ok (unknown_in d ("schema" ∷ "intake" ∷ "gates" ∷ "vendors" ∷ "evidence" ∷ []) at_body)
    also where_given (object_checks at_intake (validate_intake grants)) (get d "intake")
    also where_given (λ j. ok (object_errors at_gates validate_gates j)) (get d "gates")
    also where_given (λ j. ok (object_errors at_vendors (validate_vendors grants) j))
        (get d "vendors")
    also where_given (λ j. ok (object_errors at_evidence validate_evidence j)) (get d "evidence")

unfoldable pub validate_policy_body : List (String × String) → Json → Checked
validate_policy_body grants body = object_checks at_body (body_checks grants) body

-- ===== src/Policy/TierChecks.antt =====
-- _validate_stages, _validate_recertify_days and the tiers of _validate_intake of policy_engine.py.
use norinth.Prelude.{
  Option, none, some, String, not, ◌||◌, List, [], ◌∷◌, ◌++◌, ◌==◌, ℕ, suc, text_key, number_key,
  if◌then◌else◌, keys, contains, ltb, length,
}
use norinth.Prelude.Result.{ok, err}
use norinth.Auth.{list_role_permissions}
use norinth.Json.{Json, text, array, object, item_list, get}
use norinth.Policy.{risk_tiers}
use norinth.Policy.Errors.{
  Place, at_tiers, at_tier, at_stage, Fault, unknown_tier, no_stages, too_many_stages, no_role,
  role_undefined, role_cannot_decide, bad_label, bad_mode, bad_recertify_days, Errors, unhashable,
  Checked, ◌also◌, error_if, object_errors, object_checks, unknown_in, is_none, is_int_between,
  is_text_between,
}

abbrev pub stage_modes : List String
stage_modes = "sequence" ∷ "parallel" ∷ []

-- The checks of stage.get("role")
abbrev pub role_errors : List (String × String) → Place → Option Json → Errors
role_errors grants where_at (some (text role)) =
    if role == ""
    then (where_at, no_role) ∷ []
    else if not (contains role (keys grants))
    then (where_at, role_undefined) ∷ []
    else error_if (not (contains "review.decide" (list_role_permissions grants role))) where_at
        role_cannot_decide
role_errors grants where_at _ = (where_at, no_role) ∷ []

abbrev pub stage_errors : List (String × String) → Place → List (String × Json) → Errors
stage_errors grants where_at d =
    unknown_in d ("role" ∷ "label" ∷ []) where_at
    ++ role_errors grants where_at (get d "role")
    ++ error_if (not (is_none (get d "label") || is_text_between 0 120 (get d "label"))) where_at
        bad_label

abbrev pub stages_errors : List (String × String) → Place → ℕ → List Json → Errors
stages_errors grants where_at index [] = []
stages_errors grants where_at index (stage ∷ stages) =
    object_errors (at_stage index where_at) (stage_errors grants (at_stage index where_at)) stage
    ++ stages_errors grants where_at (suc index) stages

-- The list of stages is not empty here.
abbrev pub stage_list_errors : List (String × String) → Place → List Json → Errors
stage_list_errors grants where_at [] = (where_at, no_stages) ∷ []
stage_list_errors grants where_at (stage ∷ stages) =
    if ltb 10 (length (stage ∷ stages))
    then (where_at, too_many_stages) ∷ []
    else stages_errors grants where_at 0 (stage ∷ stages)

abbrev pub validate_stages : List (String × String) → Place → Option Json → Errors
validate_stages grants where_at (some (array stages)) =
    stage_list_errors grants where_at (item_list stages)
validate_stages grants where_at _ = (where_at, no_stages) ∷ []

abbrev pub validate_recertify_days : Place → Option Json → Errors
validate_recertify_days where_at value =
    error_if (not (is_none value || is_int_between 30 3650 value)) where_at bad_recertify_days

-- `value not in names`, for a set of names and d.get(key, default), where the default is one of them.
abbrev pub one_of : List String → Place → Fault → Option Json → Checked
one_of names where_at fault none = ok []
one_of names where_at fault (some (text s)) = ok (error_if (not (contains s names)) where_at fault)
one_of names where_at fault (some (array js)) = err unhashable
one_of names where_at fault (some (object ms)) = err unhashable
one_of names where_at fault (some _) = ok ((where_at, fault) ∷ [])

abbrev pub tier_checks : List (String × String) → Place → List (String × Json) → Checked
tier_checks grants where_at d =
    ok (unknown_in d ("stages" ∷ "mode" ∷ "recertify_days" ∷ []) where_at)
    also ok (validate_stages grants where_at (get d "stages"))
    also one_of stage_modes where_at bad_mode (get d "mode")
    also ok (validate_recertify_days where_at (get d "recertify_days"))

abbrev pub tiers_checks : List (String × String) → List (String × Json) → Checked
tiers_checks grants [] = ok []
tiers_checks grants ((tier, entry) ∷ tiers) =
    (if contains tier risk_tiers
      then object_checks (at_tier tier) (tier_checks grants (at_tier tier)) entry
      else ok ((at_tier tier, unknown_tier) ∷ []))
    also tiers_checks grants tiers

-- intake.get("tiers", {})
abbrev pub validate_tiers : List (String × String) → Option Json → Checked
validate_tiers grants none = ok []
validate_tiers grants (some tiers) = object_checks at_tiers (tiers_checks grants) tiers

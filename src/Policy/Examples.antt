-- ===== src/Policy/Examples.antt =====
-- An organization of two people drafts a policy with two stages for its high risks.
mod Staffing
mod Activation
use norinth.Prelude.{
  Option, none, some, String, Bool, true, false, List, [], ◌∷◌, ◌≡◌, refl, ℕ, if◌then◌else◌,
}
use norinth.Prelude.Result.{ok}
use norinth.Auth.{User, RoleAssignment, list_role_permissions}
use norinth.Json.{
  Json, object, array, text, integer, float, float_units, end_members, member, end_items, item,
}
use norinth.Policy.{
  Document, PolicyRow, document_of, default_policy_body, shipped_default, active_policy,
  platform_default, read_document,
}
use norinth.Policy.Resolve.{
  resolve_tier_policy, resolve_vendor_policy, resolve_gate_policy, resolve_intake_fields,
  tier_entry, vendor_entry, gate_entry, intake_fields, evidence_settings,
}
use norinth.Policy.Resolve.Agree.{resolvers_agree, with_reviewer}
use norinth.Policy.Loosening.{policy_loosening}
use norinth.Policy.Loosening.Strict.{IsStricter, policy_loosening-IsStricter}
use norinth.Policy.Validation.{validate_policy_body}
use norinth.Policy.Validation.Bounds.{IsValid, validate_policy_body-IsValid}

abbrev pub grants : List (String × String)
grants =
    ("governance_reviewer", "review.decide")
    ∷ ("risk_owner", "review.decide")
    ∷ ("risk_owner", "risk.accept")
    ∷ []

abbrev stage : String → Json
stage role = object (member "role" (text role) end_members)

abbrev two_stages : Json
two_stages = object (
    member "stages"
      (array (item (stage "governance_reviewer") (item (stage "risk_owner") end_items)))
      (member "mode" (text "sequence") (member "recertify_days" (integer 90) end_members)))

abbrev environments : Json
environments =
    object
      (member "prod" (object (member "min_control_coverage" (integer 80) end_members)) end_members)

abbrev fields : Json
fields = array (
    item
      (object (
        member "key" (text "owner")
          (member "required_tiers" (array (item (text "high") end_items)) end_members)))
      end_items)

abbrev pub stricter_body : Json
stricter_body = object (
    member "schema" (text "governance-policy/v1") (
      member "intake"
        (object (
          member "tiers" (object (member "high" two_stages end_members))
            (member "fields" fields end_members)))
        (member "gates" (object (member "environments" environments end_members)) (
          member "evidence" (object (member "stale_after_days" (integer 14) end_members))
            end_members))))

abbrev pub draft : PolicyRow
draft = record {
  tenant_id = "acme";
  version = 1;
  status = "draft";
  body = stricter_body;
  created_by = some "ann";
}

abbrev pub default_row : PolicyRow
default_row = shipped_default

abbrev pub rows : List PolicyRow
rows = default_row ∷ draft ∷ []

resolvers_agree_example :
    let body = document_of (active_policy rows (some "acme")) in
    let default = document_of (platform_default rows) in
    ((resolve_tier_policy rows (some "acme") "high").entry
      ≡ with_reviewer (tier_entry body default "high"))
    × ((resolve_vendor_policy rows (some "acme")).entry ≡ with_reviewer (vendor_entry body default))
    × ((resolve_gate_policy rows (some "acme") "high").require_attested_evals
        ≡ (gate_entry body default "high").require_attested_evals)
    × ((resolve_gate_policy rows (some "acme") "high").min_control_coverage
        ≡ (gate_entry body default "high").min_control_coverage)
    × ((resolve_gate_policy rows (some "acme") "high").max_open_material_changes ≡ 0)
    × (resolve_intake_fields rows (some "acme") ≡ intake_fields body default)
resolvers_agree_example = resolvers_agree rows (some "acme") "high"

pub no_loosening :
    policy_loosening
      (read_document default_policy_body)
      (read_document stricter_body)
      (read_document default_policy_body)
    ≡ []
unfolding policy_loosening read_document tier_entry vendor_entry gate_entry intake_fields
    evidence_settings
no_loosening = refl

policy_loosening-IsStricter_example :
    IsStricter
      (read_document default_policy_body)
      (read_document stricter_body)
      (read_document default_policy_body)
policy_loosening-IsStricter_example =
    policy_loosening-IsStricter (read_document default_policy_body) (read_document stricter_body)
      (read_document default_policy_body) no_loosening

no_faults : validate_policy_body grants stricter_body ≡ ok []
unfolding validate_policy_body list_role_permissions
no_faults = refl

validate_policy_body-IsValid_example : IsValid grants (read_document stricter_body)
validate_policy_body-IsValid_example = validate_policy_body-IsValid grants stricter_body no_faults

-- ===== src/Policy/Resolve.antt =====
-- The resolvers of policy_engine.py: what governs a tier, an environment, the evidence, the vendors
-- and the intake of a tenant, and the readers of documents that policy_loosening compares.
pub mod Agree
use norinth.Prelude.{
  Option, none, some, String, Bool, true, false, not, ◌&&◌, List, [], ◌∷◌, ◌==◌, ℕ, text_key,
  if◌then◌else◌, lookup, ltb,
}
use norinth.Gates.{Requirements}
use norinth.Policy.{
  StageEntry, GateEntry, Field, Document, PolicyRow, document_of, default_policy_body,
  read_document, platform_default, active_policy, material_change_ceiling, or_zero,
}

-- What the resolvers return of a stage entry, with the row that it is from.
pub record StagePolicy : Type 0 where
  pub entry : StageEntry
  pub policy_tenant : String
  pub policy_version : ℕ

abbrev pub reviewer_entry : StageEntry
reviewer_entry = record {
  roles = "governance_reviewer" ∷ [];
  mode = "sequence";
  recertify_days = none;
}

-- entry.get("stages") or [{"role": "governance_reviewer"}]
abbrev pub or_reviewer : List String → List String
or_reviewer [] = "governance_reviewer" ∷ []
or_reviewer (r ∷ rs) = r ∷ rs

abbrev pub entry_or : Option StageEntry → StageEntry → StageEntry
entry_or none default = default
entry_or (some e) default = e

abbrev pub stage_policy : StageEntry → PolicyRow → StagePolicy
stage_policy e row = record {
  entry = record e { roles = or_reviewer e.roles };
  policy_tenant = row.tenant_id;
  policy_version = row.version;
}

-- The entry of the policy in force, or the platform default's where a tenant's document has none.
abbrev pub resolve_from :
    Option StageEntry → Option StageEntry → StageEntry → PolicyRow → PolicyRow → StagePolicy
resolve_from (some e) other fallback policy default = stage_policy e policy
resolve_from none other fallback policy default =
    if not (policy.tenant_id == "")
    then stage_policy (entry_or other fallback) default
    else stage_policy fallback policy

abbrev pub resolve_entry :
    (Document → Option StageEntry) → StageEntry → PolicyRow → PolicyRow → StagePolicy
resolve_entry section fallback policy default =
    resolve_from (section (document_of policy)) (section (document_of default)) fallback policy
      default

abbrev pub tier_section : String → Document → Option StageEntry
tier_section tier d = lookup tier d.tiers

abbrev pub vendor_section : Document → Option StageEntry
vendor_section d = d.vendors

-- DEFAULT_POLICY_BODY["vendors"]
abbrev pub shipped_vendors : StageEntry
shipped_vendors = record {
  roles = "governance_reviewer" ∷ [];
  mode = "sequence";
  recertify_days = some 365;
}

pub resolve_tier_policy : List PolicyRow → Option String → String → StagePolicy
unfolding active_policy platform_default
resolve_tier_policy rows tenant tier =
    resolve_entry (tier_section tier) reviewer_entry (active_policy rows tenant)
      (platform_default rows)

pub resolve_vendor_policy : List PolicyRow → Option String → StagePolicy
unfolding active_policy platform_default
resolve_vendor_policy rows tenant =
    resolve_entry vendor_section shipped_vendors (active_policy rows tenant) (platform_default rows)

-- The entry of an environment, or that of "*".
abbrev pub or_star : Option GateEntry → List (String × GateEntry) → Option GateEntry
or_star none environments = lookup "*" environments
or_star (some e) environments = some e

abbrev pub environment_entry : Document → String → Option GateEntry
environment_entry d environment = or_star (lookup environment d.environments) d.environments

-- min(a, b)
abbrev pub lesser : ℕ → ℕ → ℕ
lesser a b = if ltb b a then b else a

abbrev pub requirements_of : GateEntry → PolicyRow → Requirements
requirements_of e row = record {
  require_attested_evals = e.require_attested_evals;
  max_open_material_changes = lesser e.max_open_material_changes material_change_ceiling;
  min_control_coverage = e.min_control_coverage;
  policy_tenant = row.tenant_id;
  policy_version = row.version;
}

abbrev pub no_entry : GateEntry
no_entry = record {
  require_attested_evals = false;
  max_open_material_changes = 0;
  min_control_coverage = 0;
}

-- The loop over the policy in force and the platform default.
abbrev pub first_requirements :
    Option GateEntry → Option GateEntry → PolicyRow → PolicyRow → Requirements
first_requirements (some e) other policy default = requirements_of e policy
first_requirements none (some e) policy default = requirements_of e default
first_requirements none none policy default = requirements_of no_entry default

unfoldable pub resolve_gate_policy : List PolicyRow → Option String → String → Requirements
unfolding active_policy platform_default
resolve_gate_policy rows tenant environment =
    let policy = active_policy rows tenant in
    let default = platform_default rows in
    first_requirements (environment_entry (document_of policy) environment)
      (environment_entry (document_of default) environment) policy default

pub record EvidenceSettings : Type 0 where
  pub coverage_window_days : ℕ
  pub stale_after_days : ℕ

abbrev pub first_of : Option ℕ → Option ℕ → ℕ → ℕ
first_of (some n) other shipped = n
first_of none (some n) shipped = n
first_of none none shipped = shipped

unfoldable pub evidence_settings : Document → Document → EvidenceSettings
evidence_settings d default = record {
  coverage_window_days = first_of d.coverage_window_days default.coverage_window_days 7;
  stale_after_days = first_of d.stale_after_days default.stale_after_days 30;
}

pub resolve_evidence_policy : List PolicyRow → Option String → EvidenceSettings
unfolding evidence_settings active_policy platform_default
resolve_evidence_policy rows tenant =
    evidence_settings (document_of (active_policy rows tenant))
      (document_of (platform_default rows))

abbrev pub fields_or : Option (List Field) → Option (List Field) → List Field
fields_or (some fs) other = fs
fields_or none (some fs) = fs
fields_or none none = []

pub resolve_intake_fields : List PolicyRow → Option String → List Field
unfolding active_policy platform_default
resolve_intake_fields rows tenant =
    fields_or (document_of (active_policy rows tenant)).fields
      (document_of (platform_default rows)).fields

-- _tier_entry, _vendor_entry, _gate_entry and _intake_fields, on documents.
abbrev pub section_entry :
    (Document → Option StageEntry) → StageEntry → Document → Document → StageEntry
section_entry section fallback d default =
    entry_or (section d) (entry_or (section default) fallback)

unfoldable pub tier_entry : Document → Document → String → StageEntry
tier_entry d default tier = section_entry (tier_section tier) reviewer_entry d default

unfoldable pub vendor_entry : Document → Document → StageEntry
vendor_entry d default = section_entry vendor_section shipped_vendors d default

abbrev pub gate_entry_or : Option GateEntry → Option GateEntry → GateEntry
gate_entry_or (some e) other = e
gate_entry_or none (some e) = e
gate_entry_or none none = no_entry

unfoldable pub gate_entry : Document → Document → String → GateEntry
gate_entry d default environment =
    gate_entry_or (environment_entry d environment) (environment_entry default environment)

unfoldable pub intake_fields : Document → Document → List Field
intake_fields d default = fields_or d.fields default.fields

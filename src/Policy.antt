-- ===== src/Policy.antt =====
-- Governance policies, apps/platform/app/storage/policy_engine.py: the documents, as the functions
-- read them, the rows that hold them, and what is in force for a tenant.
-- A document that was validated is read without errors; the reader gives a missing value where the
-- code would find a value of the wrong type, which validation refuses.
pub mod Resolve
pub mod Loosening
pub mod Staffing
pub mod Errors
pub mod TierChecks
pub mod FieldChecks
pub mod Validation
pub mod Activation
pub mod Fields
pub mod Gating
mod Examples
use norinth.Prelude.{
  Option, none, some, String, Bool, true, false, not, ◌&&◌, ◌||◌, List, [], ◌∷◌, ◌==◌, ℕ, text_key,
  number_key, if◌then◌else◌, lookup, contains, map, find, keys, ltb,
}
use norinth.Json.{
  Json, object, array, text, boolean, integer, end_members, member, end_items, item, get,
  get_object, get_list, get_text, get_natural, get_flag, get_units, float_units,
}

abbrev pub material_change_ceiling : ℕ
material_change_ceiling = 0

abbrev pub risk_tiers : List String
risk_tiers = "limited" ∷ "elevated" ∷ "high" ∷ []

-- An entry of intake.tiers, or the vendors section, which has no mode: its stages' roles.
pub record StageEntry : Type 0 where
  pub roles : List String
  pub mode : String
  pub recertify_days : Option ℕ

-- An entry of gates.environments; the minimum is in units of Json.float.
pub record GateEntry : Type 0 where
  pub require_attested_evals : Bool
  pub max_open_material_changes : ℕ
  pub min_control_coverage : ℕ

-- An entry of intake.fields.
pub record Field : Type 0 where
  pub key : String
  pub label : Option String
  pub field_type : String
  pub max_length : Option ℕ
  pub required_tiers : List String

pub record Document : Type 0 where
  pub tiers : List (String × StageEntry)
  pub fields : Option (List Field)
  pub environments : List (String × GateEntry)
  pub vendors : Option StageEntry
  pub coverage_window_days : Option ℕ
  pub stale_after_days : Option ℕ

abbrev pub or_text : Option String → String → String
or_text none default = default
or_text (some s) default = s

abbrev pub or_zero : Option ℕ → ℕ
or_zero none = 0
or_zero (some n) = n

abbrev pub read_role : Json → String
read_role stage = or_text (get_text (get (get_object (some stage)) "role")) ""

abbrev pub read_stage_entry : Json → StageEntry
read_stage_entry entry =
    let d = get_object (some entry) in
    record {
      roles = map read_role (get_list (get d "stages"));
      mode = or_text (get_text (get d "mode")) "sequence";
      recertify_days = get_natural (get d "recertify_days");
    }

abbrev pub read_gate_entry : Json → GateEntry
read_gate_entry entry =
    let d = get_object (some entry) in
    record {
      require_attested_evals = get_flag (get d "require_attested_evals");
      max_open_material_changes = or_zero (get_natural (get d "max_open_material_changes"));
      min_control_coverage = get_units (get d "min_control_coverage");
    }

abbrev pub read_text : Json → String
read_text j = or_text (get_text (some j)) ""

abbrev pub read_field : Json → Field
read_field field =
    let d = get_object (some field) in
    record {
      key = or_text (get_text (get d "key")) "";
      label = get_text (get d "label");
      field_type = or_text (get_text (get d "type")) "string";
      max_length = get_natural (get d "max_length");
      required_tiers = map read_text (get_list (get d "required_tiers"));
    }

abbrev pub read_pairs : {A : Type 0} → (Json → A) → List (String × Json) → List (String × A)
read_pairs read [] = []
read_pairs read ((k, j) ∷ d) = (k, read j) ∷ read_pairs read d

abbrev pub read_fields : Option Json → Option (List Field)
read_fields none = none
read_fields (some j) = some (map read_field (get_list (some j)))

abbrev pub read_vendors : Option Json → Option StageEntry
read_vendors none = none
read_vendors (some j) = some (read_stage_entry j)

unfoldable pub read_document : Json → Document
read_document body =
    let d = get_object (some body) in
    let intake = get_object (get d "intake") in
    let evidence = get_object (get d "evidence") in
    record {
      tiers = read_pairs read_stage_entry (get_object (get intake "tiers"));
      fields = read_fields (get intake "fields");
      environments =
          read_pairs read_gate_entry (get_object (get (get_object (get d "gates")) "environments"));
      vendors = read_vendors (get d "vendors");
      coverage_window_days = get_natural (get evidence "coverage_window_days");
      stale_after_days = get_natural (get evidence "stale_after_days");
    }

abbrev one_reviewer : Json
one_reviewer =
    array (item (object (member "role" (text "governance_reviewer") end_members)) end_items)

abbrev reviewed_tier : Json
reviewed_tier = object (member "stages" one_reviewer (member "mode" (text "sequence") end_members))

-- DEFAULT_POLICY_BODY
abbrev pub default_policy_body : Json
default_policy_body = object (
    member "schema" (text "governance-policy/v1") (
      member "intake"
        (object (
          member "tiers"
            (object (
              member "limited" reviewed_tier
                (member "elevated" reviewed_tier (member "high" reviewed_tier end_members))))
            (member "fields" (array end_items) end_members)))
        (member "gates"
          (object (
            member "environments"
              (object (
                member "*"
                  (object (
                    member "require_attested_evals" (boolean false)
                      (member "max_open_material_changes" (integer 0) end_members)))
                  end_members))
              end_members))
          (member "vendors"
            (object
              (member "stages" one_reviewer (member "recertify_days" (integer 365) end_members)))
            end_members))))

-- A row of governance_policies.
pub record PolicyRow : Type 0 where
  pub tenant_id : String
  pub version : ℕ
  pub status : String
  pub body : Json
  pub created_by : Option String

abbrev pub document_of : PolicyRow → Document
document_of row = read_document row.body

abbrev pub is_active_of : String → PolicyRow → Bool
is_active_of tenant row = row.tenant_id == tenant && row.status == "active"

-- The default of the code, where the seeded row is missing.
abbrev pub shipped_default : PolicyRow
shipped_default = record {
  tenant_id = "";
  version = 1;
  status = "active";
  body = default_policy_body;
  created_by = none;
}

abbrev pub row_or_shipped : Option PolicyRow → PolicyRow
row_or_shipped none = shipped_default
row_or_shipped (some row) = row

pub platform_default : List PolicyRow → PolicyRow
platform_default rows = row_or_shipped (find (is_active_of "") rows)

abbrev pub row_or : Option PolicyRow → PolicyRow → PolicyRow
row_or none default = default
row_or (some row) default = row

-- tenant_id or ""
abbrev pub tenant_text : Option String → String
tenant_text none = ""
tenant_text (some t) = t

pub active_policy : List PolicyRow → Option String → PolicyRow
unfolding platform_default
active_policy rows tenant =
    if tenant_text tenant == ""
    then platform_default rows
    else row_or (find (is_active_of (tenant_text tenant)) rows) (platform_default rows)

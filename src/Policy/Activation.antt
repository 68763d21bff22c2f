-- ===== src/Policy/Activation.antt =====
-- create_policy_draft and activate_policy of policy_engine.py: the versions of an organization's
-- policy, and who may put one in force.
pub mod Guarded
pub mod Versions
pub mod InForce
pub mod Drafts
use norinth.Prelude.{
  Option, none, some, String, Bool, true, false, not, ◌&&◌, ◌||◌, List, [], ◌∷◌, ◌++◌, ◌==◌, ◌+◌, ℕ,
  text_key, number_key, option_key, if◌then◌else◌, find, ltb, filter, map, update_where,
}
use norinth.Prelude.Result.{Result, ok, err, ◌>>◌, require}
use norinth.Auth.{User, RoleAssignment, is_empty}
use norinth.Json.{Json}
use norinth.Policy.{Document, PolicyRow, document_of, is_active_of, platform_default}
use norinth.Policy.Loosening.{LooseningReason, policy_loosening}
use norinth.Policy.Staffing.{eligible_deciders, unstaffed_stage_changes}
use norinth.Policy.Errors.{Checked, Errors}
use norinth.Policy.Validation.{validate_policy_body}

-- The tables that the two functions read. A row's dates and hash are not modelled.
pub record PolicyStore : Type 0 where
  pub policies : List PolicyRow
  pub users : List User
  pub assignments : List RoleAssignment
  pub grants : List (String × String)

pub data PolicyError : Type 0 where
  tenant_required : PolicyError
  invalid_document : Errors → PolicyError
  validation_raised : PolicyError
  version_not_found : PolicyError
  version_superseded : PolicyError
  requires_second_person : List LooseningReason → PolicyError
  stages_unstaffed : List String → PolicyError

abbrev pub refuse_errors : Checked → Result PolicyError (Unit {0})
refuse_errors (err e) = err validation_raised
refuse_errors (ok []) = ok tt
refuse_errors (ok (e ∷ errors)) = err (invalid_document (e ∷ errors))

-- COALESCE(MAX(version), 0) of the tenant's rows
abbrev pub latest_version : String → List PolicyRow → ℕ
latest_version tenant [] = 0
latest_version tenant (row ∷ rows) =
    let latest = latest_version tenant rows in
    if row.tenant_id == tenant && ltb latest row.version then row.version else latest

abbrev pub draft_row : String → ℕ → Json → String → PolicyRow
draft_row tenant version body actor_ref = record {
  tenant_id = tenant;
  version = version;
  status = "draft";
  body = body;
  created_by = some actor_ref;
}

-- The row that create_policy_draft inserts and returns.
unfoldable pub create_policy_draft :
    PolicyStore → String → Json → String → Result PolicyError PolicyRow
create_policy_draft store tenant body actor_ref =
    if tenant == ""
    then err tenant_required
    else (refuse_errors (validate_policy_body store.grants body)
        >> ok (draft_row tenant (latest_version tenant store.policies + 1) body actor_ref))

abbrev pub insert_draft : PolicyStore → PolicyRow → PolicyStore
insert_draft store row = record store { policies = store.policies ++ row ∷ [] }

abbrev pub is_version : String → ℕ → PolicyRow → Bool
is_version tenant version row = row.tenant_id == tenant && row.version == version

abbrev pub with_status : String → PolicyRow → PolicyRow
with_status status row = record row { status = status }

-- The detail of the audit event; its hash and its summary of differences are not modelled.
pub record ActivationEvent : Type 0 where
  pub actor_ref : String
  pub version : ℕ
  pub superseded_version : Option ℕ
  pub loosens : List LooseningReason
  pub author : Option String

pub record Activation : Type 0 where
  pub policies : List PolicyRow
  pub activated : PolicyRow
  pub event : Option ActivationEvent

-- UPDATE governance_policies SET status = 'superseded' where there is a previous version
abbrev pub supersede : Option PolicyRow → String → List PolicyRow → List PolicyRow
supersede none tenant rows = rows
supersede (some previous) tenant rows =
    update_where (is_version tenant previous.version) (with_status "superseded") rows

abbrev pub previous_version : Option PolicyRow → Option ℕ
previous_version none = none
previous_version (some row) = some row.version

abbrev pub put_in_force :
    PolicyStore → String → PolicyRow → Option PolicyRow → String → List LooseningReason → Activation
put_in_force store tenant target previous actor_ref loosening = record {
  policies =
      update_where (is_version tenant target.version) (with_status "active")
        (supersede previous tenant store.policies);
  activated = with_status "active" target;
  event = some (record {
    actor_ref = actor_ref;
    version = target.version;
    superseded_version = previous_version previous;
    loosens = loosening;
    author = target.created_by;
  });
}

-- previous_body, read
abbrev pub previous_document : Option PolicyRow → Document → Document
previous_document none default = default
previous_document (some previous) default = document_of previous

abbrev pub activate_changed :
    PolicyStore
    → String
    → PolicyRow
    → Option PolicyRow
    → String
    → List LooseningReason
    → List String
    → Result PolicyError Activation
activate_changed store tenant target previous actor_ref loosening unstaffed =
    require (is_empty loosening || not (target.created_by == some actor_ref))
      (requires_second_person loosening)
    >> require (is_empty unstaffed) (stages_unstaffed unstaffed)
    >> ok (put_in_force store tenant target previous actor_ref loosening)

-- What is in force for the tenant, or else the platform default.
abbrev pub document_in_force : PolicyStore → String → Document
document_in_force store tenant =
    previous_document (find (is_active_of tenant) store.policies)
      (document_of (platform_default store.policies))

abbrev pub loosening_of : PolicyStore → String → PolicyRow → List LooseningReason
loosening_of store tenant target =
    policy_loosening (document_in_force store tenant) (document_of target)
      (document_of (platform_default store.policies))

abbrev pub unstaffed_by : PolicyStore → String → PolicyRow → List String
unstaffed_by store tenant target =
    unstaffed_stage_changes (document_in_force store tenant) (document_of target)
      (document_of (platform_default store.policies))
      (eligible_deciders store.users store.assignments store.grants tenant)

abbrev pub activate_row :
    PolicyStore → String → String → Option PolicyRow → Result PolicyError Activation
activate_row store tenant actor_ref none = err version_not_found
activate_row store tenant actor_ref (some target) =
    if target.status == "active"
    then ok (record { policies = store.policies; activated = target; event = none })
    else if target.status == "superseded"
    then err version_superseded
    else (refuse_errors (validate_policy_body store.grants target.body)
        >> activate_changed store tenant target (find (is_active_of tenant) store.policies)
            actor_ref (loosening_of store tenant target) (unstaffed_by store tenant target))

unfoldable pub activate_policy : PolicyStore → String → ℕ → String → Result PolicyError Activation
activate_policy store tenant version actor_ref =
    if tenant == ""
    then err tenant_required
    else activate_row store tenant actor_ref (find (is_version tenant version) store.policies)

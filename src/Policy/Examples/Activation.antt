-- ===== src/Policy/Examples/Activation.antt =====
-- The draft is put in force by its author, and a second draft is written.
use norinth.Prelude.{
  none, some, String, Bool, true, false, List, [], ◌∷◌, ◌≡◌, ◌≢◌, ◌⊎◌, refl, sym, ap, ◌∙◌, lookup,
  Memᴰ, eq_iff, not_mem_nil, text_key,
}
use norinth.Prelude.Result.{ok}
use norinth.Auth.{User, RoleAssignment, list_role_permissions}
use norinth.Policy.{PolicyRow, document_of, read_document, active_policy, platform_default}
use norinth.Policy.Resolve.{tier_entry, vendor_entry, gate_entry, intake_fields, evidence_settings}
use norinth.Policy.Loosening.{policy_loosening}
use norinth.Policy.Loosening.Strict.{IsStricter}
use norinth.Policy.Staffing.{
  eligible_deciders, unstaffed_stage_changes, can_staff, place, place_all, all_candidates,
  sorted_names, stage_sections,
}
use norinth.Policy.Staffing.Eligible.{HasDeciders}
use norinth.Policy.Validation.{validate_policy_body}
use norinth.Policy.Activation.{
  PolicyStore, Activation, activate_policy, create_policy_draft, put_in_force, insert_draft,
  draft_row, document_in_force, with_status,
}
use norinth.Policy.Activation.Guarded.{activate_policy-IsStricter, activate_policy-IsStaffed}
use norinth.Policy.Activation.Versions.{IsVersioned, activate_policy-IsVersioned}
use norinth.Policy.Activation.InForce.{activate_policy-in_force}
use norinth.Policy.Activation.Drafts.{create_policy_draft-IsVersioned}
use norinth.Policy.Examples.{grants, draft, rows, stricter_body}

abbrev user : String → User
user ref = record { user_ref = ref; status = "active"; tenant_id = some "acme" }

abbrev assignment : String → String → RoleAssignment
assignment ref role = record {
  role_assignment_id = ref;
  user_ref = ref;
  role = role;
  status = "active";
  tenant_id = some "acme";
  project = none;
  environment = none;
}

abbrev store : PolicyStore
store = record {
  policies = rows;
  users = user "ann" ∷ user "bob" ∷ [];
  assignments = assignment "ann" "governance_reviewer" ∷ assignment "bob" "risk_owner" ∷ [];
  grants = grants;
}

abbrev activation : Activation
activation = put_in_force store "acme" draft none "ann" []

put_by_author : activate_policy store "acme" 1 "ann" ≡ ok activation
unfolding activate_policy validate_policy_body list_role_permissions platform_default read_document
    policy_loosening tier_entry vendor_entry gate_entry intake_fields evidence_settings
    unstaffed_stage_changes eligible_deciders can_staff place place_all all_candidates sorted_names
put_by_author = refl

is_draft : draft.status ≢ "active"
is_draft h = let t : ◌≡◌ {A = Bool} false true = (eq_iff "draft" "active").1 h in cc t

apart : ◌≢◌ {A = String} "" "acme"
apart h = let t : ◌≡◌ {A = Bool} false true = (eq_iff "" "acme").1 h in cc t

one_each : (a b : PolicyRow) → Memᴰ a rows → Memᴰ b rows → a.tenant_id ≡ b.tenant_id → a ≡ b
one_each a b (Memᴰ.head e) (Memᴰ.head f) t = e ∙ sym f
one_each a b (Memᴰ.head e) (Memᴰ.tail (Memᴰ.head f)) t = absurd (
    apart (sym (ap (λ (x : PolicyRow). x.tenant_id) e) ∙ t ∙ ap (λ (x : PolicyRow). x.tenant_id) f))
one_each a b (Memᴰ.tail (Memᴰ.head e)) (Memᴰ.head f) t = absurd (
    apart
      (sym (ap (λ (x : PolicyRow). x.tenant_id) f) ∙ sym t ∙ ap (λ (x : PolicyRow). x.tenant_id) e))
one_each a b (Memᴰ.tail (Memᴰ.head e)) (Memᴰ.tail (Memᴰ.head f)) t = e ∙ sym f
one_each a b (Memᴰ.tail (Memᴰ.tail m)) n t = absurd (not_mem_nil m)
one_each a b m (Memᴰ.tail (Memᴰ.tail n)) t = absurd (not_mem_nil n)

rows-IsVersioned : IsVersioned rows
rows-IsVersioned = record {
  keyed = λ a b m n t w. one_each a b m n t;
  one_active = λ a b m n t x y. one_each a b m n t;
}

activate_policy-IsStricter_example :
    IsStricter
      (document_in_force store "acme")
      (document_of draft)
      (document_of (platform_default rows))
activate_policy-IsStricter_example =
    activate_policy-IsStricter store "acme" 1 "ann" draft activation refl is_draft refl
      put_by_author

abbrev high_roles : List String
high_roles = "governance_reviewer" ∷ "risk_owner" ∷ []

high_stages :
    Memᴰ
      ("intake.tiers.high", high_roles)
      (stage_sections (document_of draft) (document_of (platform_default rows)))
unfolding read_document tier_entry vendor_entry platform_default
high_stages = Memᴰ.tail (Memᴰ.tail (Memᴰ.head refl))

activate_policy-IsStaffed_example :
    (lookup "intake.tiers.high"
        (stage_sections (document_in_force store "acme") (document_of (platform_default rows)))
      ≡ some high_roles)
    ⊎ HasDeciders store.users store.assignments grants "acme" high_roles
activate_policy-IsStaffed_example =
    activate_policy-IsStaffed store "acme" 1 "ann" draft activation refl is_draft put_by_author
      "intake.tiers.high" high_roles high_stages

activate_policy-IsVersioned_example : IsVersioned activation.policies
activate_policy-IsVersioned_example =
    activate_policy-IsVersioned store "acme" 1 "ann" activation rows-IsVersioned put_by_author

activate_policy-in_force_example :
    active_policy activation.policies (some "acme") ≡ with_status "active" draft
activate_policy-in_force_example =
    activate_policy-in_force store "acme" 1 "ann" draft activation rows-IsVersioned refl is_draft
      put_by_author

abbrev second : PolicyRow
second = draft_row "acme" 2 stricter_body "bob"

second_written : create_policy_draft store "acme" stricter_body "bob" ≡ ok second
unfolding create_policy_draft validate_policy_body list_role_permissions
second_written = refl

create_policy_draft-IsVersioned_example : IsVersioned (insert_draft store second).policies
create_policy_draft-IsVersioned_example =
    create_policy_draft-IsVersioned store "acme" stricter_body "bob" second rows-IsVersioned
      second_written

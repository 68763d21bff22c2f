-- ===== src/Auth/Examples.antt =====
-- An organization with an administrator and a reviewer.
use norinth.Prelude.{
  none, some, true, false, List, [], ◌∷◌, ◌≡◌, ◌↔◌, ◌⊎◌, refl, contains, Memᴰ, text_key,
}
use norinth.Prelude.Result.{ok, err}
use norinth.Auth.{
  not_super_admin, lacks_permission, require_super_admin, require_config_write,
  require_owner_assignment, require_exception, Actor, RoleAssignment, Directory, Target,
  empty_target, is_super_admin, load_platform_user, require_active_actor, require_actor_scope,
  role_scope_matches, list_role_permissions, list_actor_role_assignments, collect_permissions,
  actor_permissions, adopt_tenant, or_empty, require_permission, actor_satisfies_stage_role,
  require_decision, decision_permission, require_stage_role, assignment_satisfies,
}
use norinth.Auth.Permissions.{Holds, actor_permissions-iff-Holds}
use norinth.Auth.Authority.{
  Authorised, require_permission-iff-Authorised, require_permission_own_tenant,
  stage_role_authority,
}

abbrev pub ann : Actor
ann = record {
  user_ref = "ann";
  tenant_id = some "acme";
  project = none;
  environment = none;
  platform_role = none;
}

abbrev pub rows : List RoleAssignment
rows =
    record {
      role_assignment_id = "r1";
      user_ref = "ann";
      role = "org_admin";
      status = "active";
      tenant_id = some "acme";
      project = none;
      environment = none;
    }
    ∷ []

abbrev pub directory : Directory
directory = record {
  users =
      record { user_ref = "ann"; status = "active"; tenant_id = some "acme" }
      ∷ record { user_ref = "bob"; status = "active"; tenant_id = some "acme" }
      ∷ [];
  assignments = rows;
  grants = ("org_admin", "role.assign") ∷ ("org_admin", "user.read") ∷ [];
}

abbrev acme : Target
acme = record empty_target { tenant_id = some "acme" }

pub may_assign : require_permission directory ann "role.assign" (some acme) false ≡ ok tt
unfolding require_permission require_active_actor require_actor_scope load_platform_user
    actor_permissions list_actor_role_assignments collect_permissions role_scope_matches
    list_role_permissions is_super_admin adopt_tenant
may_assign = refl

require_permission-iff-Authorised_example :
    (require_permission directory ann "role.assign" (some acme) false ≡ ok tt)
    ↔ Authorised directory ann "role.assign" (adopt_tenant false ann (or_empty (some acme)))
require_permission-iff-Authorised_example =
    require_permission-iff-Authorised directory ann "role.assign" (some acme) false

require_permission_own_tenant_example :
    ((acme.tenant_id ≡ ann.tenant_id) ⊎ ((acme.tenant_id ≡ none) × (false ≡ true)))
    × ((a : RoleAssignment) × Memᴰ a rows
        × (a.user_ref ≡ "ann")
        × (a.tenant_id ≡ some "acme")
        × Memᴰ (a.role, "role.assign") directory.grants)
require_permission_own_tenant_example =
    require_permission_own_tenant directory ann "role.assign" acme false refl may_assign

actor_permissions-iff-Holds_example :
    (contains "user.read" (actor_permissions directory ann (some acme)) ≡ true)
    ↔ Holds directory "ann" "user.read" acme
actor_permissions-iff-Holds_example = actor_permissions-iff-Holds directory ann acme "user.read"

admin_satisfies : actor_satisfies_stage_role directory ann "org_admin" acme ≡ true
unfolding actor_satisfies_stage_role list_actor_role_assignments role_scope_matches
    list_role_permissions is_super_admin
admin_satisfies = refl

stage_role_authority_example : Holds directory "ann" "user.read" acme
stage_role_authority_example =
    stage_role_authority directory ann "org_admin" "user.read" acme admin_satisfies
      (Memᴰ.tail (Memᴰ.head refl))

-- A risk owner who decides the stages of one organization.
abbrev pub kim : Actor
kim = record ann { user_ref = "kim" }

abbrev pub review_desk : Directory
review_desk = record {
  users = record { user_ref = "kim"; status = "active"; tenant_id = some "acme" } ∷ [];
  assignments =
      record {
        role_assignment_id = "r2";
        user_ref = "kim";
        role = "risk_owner";
        status = "active";
        tenant_id = some "acme";
        project = none;
        environment = none;
      }
      ∷ [];
  grants = ("risk_owner", "review.decide") ∷ [];
}

abbrev pub stage_scope : Target
stage_scope = record {
  tenant_id = some "acme";
  project = some "claims";
  environment = some "prod";
  target_type = some "approval_stage";
  has_risk = false;
}

pub kim_may_decide : require_decision review_desk kim stage_scope ≡ ok tt
unfolding require_decision decision_permission require_permission require_active_actor
    require_actor_scope load_platform_user actor_permissions list_actor_role_assignments
    collect_permissions role_scope_matches list_role_permissions is_super_admin adopt_tenant
kim_may_decide = refl

pub kim_has_role : require_stage_role review_desk kim "risk_owner" stage_scope ≡ ok tt
unfolding require_stage_role actor_satisfies_stage_role assignment_satisfies
    list_actor_role_assignments role_scope_matches list_role_permissions is_super_admin
kim_has_role = refl

-- An administrator of an organization is refused what only others may do.
admin_refused :
    (require_super_admin ann ≡ err not_super_admin)
    × (require_config_write directory ann (some acme) ≡ err (lacks_permission "config.write"))
    × (require_owner_assignment directory ann acme ≡ err (lacks_permission "owner.assign"))
    × (require_exception directory ann acme ≡ err (lacks_permission "risk.accept"))
unfolding require_super_admin require_config_write require_owner_assignment require_exception
    require_permission require_active_actor require_actor_scope load_platform_user actor_permissions
    list_actor_role_assignments collect_permissions role_scope_matches list_role_permissions
    is_super_admin adopt_tenant
admin_refused = (refl, refl, refl, refl)

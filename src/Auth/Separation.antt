-- ===== src/Auth/Separation.antt =====
-- Separation of duties: would_violate_role_separation of
-- apps/platform/app/services/authorization.py, and change_org_role_assignment of
-- apps/platform/app/api/admin.py, the route that grants and revokes roles.
pub mod Kept
mod Examples
use norinth.Prelude.{
  Option, none, some, String, Bool, true, false, not, ◌&&◌, ◌||◌, List, [], ◌∷◌, ◌==◌, text_key,
  option_key, if◌then◌else◌, contains, any, filter, map,
}
use norinth.Prelude.Result.{Result, ok, err, ◌>>=◌, ◌>>◌}
use norinth.Auth.{
  Actor, User, RoleAssignment, Directory, Target, AuthorizationError, empty_target, is_super_admin,
  truthy, load_platform_user, require_permission,
}

abbrev pub administration_roles : List String
administration_roles = "org_admin" ∷ []

abbrev pub decision_roles : List String
decision_roles = "governance_admin" ∷ "risk_owner" ∷ "control_owner" ∷ "governance_reviewer" ∷ []

abbrev pub assignable_org_roles : List String
assignable_org_roles =
    "org_admin" ∷ "governance_admin" ∷ "risk_owner" ∷ "control_owner" ∷ "governance_reviewer"
    ∷ "governance_viewer" ∷ []

-- The role set after the change: `resulting.add(role)` or `resulting.discard(role)`.
abbrev pub resulting_roles : List String → String → String → List String
resulting_roles existing role status =
    if status == "active" then role ∷ existing else filter (λ r. not (r == role)) existing

pub would_violate_role_separation : List String → String → String → Bool
would_violate_role_separation existing role status =
    any (λ r. contains r administration_roles) (resulting_roles existing role status)
    && any (λ r. contains r decision_roles) (resulting_roles existing role status)

-- RoleAssignmentChange
pub record RoleAssignmentChange : Type 0 where
  pub user_ref : String
  pub role : String
  pub status : String

-- The answers other than 200, by the order in which the route gives them.
pub data Refusal : Type 0 where
  super_admin no_organization : Refusal
  forbidden : AuthorizationError → Refusal
  unknown_role unknown_status own_assignment no_such_user separation : Refusal

pub lift_forbidden : {A : Type 0} → Result AuthorizationError A → Result Refusal A
lift_forbidden (ok a) = ok a
lift_forbidden (err e) = err (forbidden e)

or_blank : Option String → String
or_blank none = ""
or_blank (some s) = s

-- _require_tenant
pub require_tenant : Actor → Result Refusal String
unfolding is_super_admin or_blank
require_tenant actor =
    if is_super_admin actor
    then err super_admin
    else if truthy actor.tenant_id
    then ok (or_blank actor.tenant_id)
    else err no_organization

-- The roles of the user's active rows among the tenant's rows.
abbrev pub is_active_row : String → String → RoleAssignment → Bool
is_active_row tenant ref a = a.tenant_id == some tenant && a.user_ref == ref && a.status == "active"

pub existing_roles : List RoleAssignment → String → String → List String
existing_roles rows tenant ref = map (λ a. a.role) (filter (is_active_row tenant ref) rows)

-- INSERT ... ON CONFLICT(role_assignment_id) DO UPDATE SET status
pub upsert_role_assignment : RoleAssignment → List RoleAssignment → List RoleAssignment
upsert_role_assignment new [] = new ∷ []
upsert_role_assignment new (a ∷ rows) =
    let rest = upsert_role_assignment new rows in
    if a.role_assignment_id == new.role_assignment_id
    then record a { status = new.status } ∷ rows
    else a ∷ rest

abbrev pub belongs : String → Option User → Bool
belongs tenant none = false
belongs tenant (some user) = user.tenant_id == some tenant

-- `assignment_id` is entity_id("role-assignment", tenant, project, environment, user, role), a hash
-- that the model takes as a function of these fields.
module _ (assignment_id : String → Option String → Option String → String → String → String) where
  abbrev pub new_assignment : String → RoleAssignmentChange → RoleAssignment
  new_assignment tenant change = record {
    role_assignment_id = assignment_id tenant none none change.user_ref change.role;
    user_ref = change.user_ref;
    role = change.role;
    status = change.status;
    tenant_id = some tenant;
    project = none;
    environment = none;
  }

  pub change_org_role_assignment :
      Directory → Actor → RoleAssignmentChange → Result Refusal Directory
  unfolding require_tenant lift_forbidden load_platform_user existing_roles
  change_org_role_assignment d actor change = do
    tenant ← require_tenant actor
    let target = record empty_target { tenant_id = some tenant }
    lift_forbidden (require_permission d actor "role.assign" (some target) false)
    if not (contains change.role assignable_org_roles)
        then err unknown_role
        else if not (contains change.status ("active" ∷ "revoked" ∷ []))
        then err unknown_status
        else if change.user_ref == actor.user_ref
        then err own_assignment
        else if not (belongs tenant (load_platform_user d.users change.user_ref))
        then err no_such_user
        else if would_violate_role_separation (existing_roles d.assignments tenant change.user_ref)
            change.role change.status
        then err separation
        else ok (record d {
          assignments = upsert_role_assignment (new_assignment tenant change) d.assignments;
        })

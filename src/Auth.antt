-- ===== src/Auth.antt =====
-- Who may do what: apps/platform/app/services/authorization.py, with the rows that it reads through
-- apps/platform/app/storage/workflow.py and the actor of apps/platform/app/dependencies.py.
pub mod Permissions
pub mod Authority
pub mod Separation
pub mod Examples
use norinth.Prelude.{
  Option, none, some, String, Bool, true, false, not, ◌&&◌, ◌||◌, List, [], ◌∷◌, ◌++◌, ◌==◌,
  text_key, option_key, if◌then◌else◌, contains, subset, find, filter, any,
}
use norinth.Prelude.Result.{Result, ok, err, ◌>>◌, ◌>>=◌}

-- ActorContext
pub record Actor : Type 0 where
  pub user_ref : String
  pub tenant_id : Option String
  pub project : Option String
  pub environment : Option String
  pub platform_role : Option String

-- A row of platform_users.
pub record User : Type 0 where
  pub user_ref : String
  pub status : String
  pub tenant_id : Option String

-- A row of role_assignments.
pub record RoleAssignment : Type 0 where
  pub role_assignment_id : String
  pub user_ref : String
  pub role : String
  pub status : String
  pub tenant_id : Option String
  pub project : Option String
  pub environment : Option String

-- The tables that an authorization decision reads; `grants` is role_permissions.
pub record Directory : Type 0 where
  pub users : List User
  pub assignments : List RoleAssignment
  pub grants : List (String × String)

-- The dictionary that a caller passes: a key that is missing reads as None.
pub record Target : Type 0 where
  pub tenant_id : Option String
  pub project : Option String
  pub environment : Option String
  pub target_type : Option String
  pub has_risk : Bool

abbrev pub empty_target : Target
empty_target = record {
  tenant_id = none;
  project = none;
  environment = none;
  target_type = none;
  has_risk = false;
}

-- AuthorizationError, one constructor for each message.
pub data AuthorizationError : Type 0 where
  not_super_admin not_active tenant_mismatch project_mismatch environment_mismatch :
      AuthorizationError
  lacks_permission : String → AuthorizationError
  lacks_stage_role : String → AuthorizationError

-- The truth value of a text or None.
abbrev pub truthy : Option String → Bool
truthy none = false
truthy (some s) = not (s == "")

pub is_super_admin : Actor → Bool
is_super_admin actor = actor.platform_role == some "super_admin"

pub require_super_admin : Actor → Result AuthorizationError Unit
unfolding is_super_admin
require_super_admin actor = if is_super_admin actor then ok tt else err not_super_admin

pub load_platform_user : List User → String → Option User
load_platform_user users ref = find (λ u. u.user_ref == ref) users

pub require_active_actor : Directory → Actor → Result AuthorizationError Unit
unfolding load_platform_user
require_active_actor d actor = elim (load_platform_user d.users actor.user_ref) [
  | none ↦ err not_active
  | some user ↦ if user.status == "active" then ok tt else err not_active
]

-- `actor_value and target_value and actor_value != target_value`
abbrev pub field_clash : Option String → Option String → Bool
field_clash actor_value target_value =
    truthy actor_value && truthy target_value && not (actor_value == target_value)

pub require_actor_scope : Actor → Target → Result AuthorizationError Unit
require_actor_scope actor target =
    if truthy actor.tenant_id && not (target.tenant_id == actor.tenant_id)
    then err tenant_mismatch
    else if field_clash actor.project target.project
    then err project_mismatch
    else if field_clash actor.environment target.environment
    then err environment_mismatch
    else ok tt

-- `assignment_value is not None and assignment_value != target_value`, negated
abbrev pub field_covers : Option String → Option String → Bool
field_covers none target_value = true
field_covers (some v) target_value = some v == target_value

pub role_scope_matches : RoleAssignment → Target → Bool
role_scope_matches a target =
    a.tenant_id == target.tenant_id
    && field_covers a.project target.project
    && field_covers a.environment target.environment

unfoldable pub list_role_permissions : List (String × String) → String → List String
list_role_permissions [] role = []
list_role_permissions ((r, p) ∷ grants) role =
    let rest = list_role_permissions grants role in if r == role then p ∷ rest else rest

pub list_actor_role_assignments : List RoleAssignment → String → List RoleAssignment
list_actor_role_assignments rows ref = filter (λ a. a.user_ref == ref && a.status == "active") rows

-- `target is not None and not role_scope_matches(...)` skips the assignment.
abbrev pub in_target : RoleAssignment → Option Target → Bool
in_target a none = true
in_target a (some target) = role_scope_matches a target

-- The loop of actor_permissions; a Python set is a list read through membership.
pub collect_permissions : List (String × String) → Option Target → List RoleAssignment → List String
collect_permissions grants target [] = []
collect_permissions grants target (a ∷ rows) =
    let rest = collect_permissions grants target rows in
    if in_target a target then list_role_permissions grants a.role ++ rest else rest

pub actor_permissions : Directory → Actor → Option Target → List String
unfolding list_actor_role_assignments collect_permissions list_role_permissions role_scope_matches
actor_permissions d actor target =
    collect_permissions d.grants target (list_actor_role_assignments d.assignments actor.user_ref)

-- The copy of the target, with the tenant of the actor where the caller lets it be adopted.
pub adopt_tenant : Bool → Actor → Target → Target
adopt_tenant adopt actor target =
    if adopt && target.tenant_id == none && truthy actor.tenant_id
    then record target { tenant_id = actor.tenant_id }
    else target

abbrev pub or_empty : Option Target → Target
or_empty none = empty_target
or_empty (some t) = t

pub require_permission :
    Directory → Actor → String → Option Target → Bool → Result AuthorizationError Unit
unfolding adopt_tenant require_active_actor require_actor_scope
require_permission d actor permission target adopt = do
  require_active_actor d actor
  let scoped = adopt_tenant adopt actor (or_empty target)
  require_actor_scope actor scoped
  if contains permission (actor_permissions d actor (some scoped))
      then ok tt
      else err (lacks_permission permission)

pub require_config_write : Directory → Actor → Option Target → Result AuthorizationError Unit
unfolding require_permission
require_config_write d actor payload = require_permission d actor "config.write" payload true

pub require_owner_assignment : Directory → Actor → Target → Result AuthorizationError Unit
unfolding require_permission
require_owner_assignment d actor a = require_permission d actor "owner.assign" (some a) false

pub decision_permission : Target → String
decision_permission target =
    if target.target_type == some "deployment_gate"
    then "gate.decide"
    else if target.target_type == some "incident"
    then "incident.close"
    else if target.target_type == some "risk_finding" || target.has_risk
    then "risk.accept"
    else "review.decide"

pub require_decision : Directory → Actor → Target → Result AuthorizationError Unit
unfolding require_permission decision_permission
require_decision d actor target =
    require_permission d actor (decision_permission target) (some target) false

pub require_exception : Directory → Actor → Target → Result AuthorizationError Unit
unfolding require_permission
require_exception d actor target = require_permission d actor "risk.accept" (some target) false

-- One assignment of the loop in actor_satisfies_stage_role.
pub assignment_satisfies : List (String × String) → String → Target → RoleAssignment → Bool
assignment_satisfies grants required_role target a =
    role_scope_matches a target
    && (a.role == required_role
        || subset (list_role_permissions grants required_role)
            (list_role_permissions grants a.role))

abbrev pub is_empty {ℓ} : {A : Type ℓ} → List A → Bool
is_empty [] = true
is_empty (x ∷ xs) = false

pub actor_satisfies_stage_role : Directory → Actor → String → Target → Bool
unfolding assignment_satisfies list_actor_role_assignments
actor_satisfies_stage_role d actor required_role target =
    if is_empty (list_role_permissions d.grants required_role)
    then false
    else any (assignment_satisfies d.grants required_role target)
        (list_actor_role_assignments d.assignments actor.user_ref)

pub require_stage_role : Directory → Actor → String → Target → Result AuthorizationError Unit
unfolding actor_satisfies_stage_role
require_stage_role d actor role target =
    if actor_satisfies_stage_role d actor role target then ok tt else err (lacks_stage_role role)

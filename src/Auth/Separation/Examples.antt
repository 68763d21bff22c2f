-- ===== src/Auth/Separation/Examples.antt =====
-- A role granted by an administrator.
use norinth.Prelude.{
  Option, String, ◌≡◌, ◌≢◌, refl, ap, contains, Memᴰ, not_mem_nil, text_key, option_key,
}
use norinth.Prelude.Result.{ok}
use norinth.Auth.{
  RoleAssignment, Directory, require_permission, require_active_actor, require_actor_scope,
  load_platform_user, actor_permissions, list_actor_role_assignments, collect_permissions,
  role_scope_matches, list_role_permissions, is_super_admin, adopt_tenant,
}
use norinth.Auth.Examples.{ann, rows, directory}
use norinth.Auth.Separation.{
  RoleAssignmentChange, decision_roles, require_tenant, lift_forbidden, existing_roles,
  upsert_role_assignment, would_violate_role_separation, new_assignment, change_org_role_assignment,
}
use norinth.Auth.Separation.Kept.{IsSeparated, IdsAgree, change_org_role_assignment-IsSeparated}

-- An id for the only role of a user.
abbrev join_id : String → Option String → Option String → String → String → String
join_id tenant project environment user role = user

abbrev change : RoleAssignmentChange
change = record { user_ref = "bob"; role = "risk_owner"; status = "active" }

abbrev granted : Directory
granted = record directory {
  assignments = upsert_role_assignment (new_assignment join_id "acme" change) rows;
}

ids_agree : IdsAgree (new_assignment join_id "acme" change) rows
ids_agree b (Memᴰ.head e) same =
    absurd (let t = ap (λ (x : RoleAssignment). x.role_assignment_id) e in cc (t, same))
ids_agree b (Memᴰ.tail m) same = absurd (not_mem_nil m)

one_row : IsSeparated rows "acme"
one_row ref a b m (Memᴰ.head e) p q c d =
    let t = ap (λ (x : RoleAssignment). contains x.role decision_roles) e in cc (t, d)
one_row ref a b m (Memᴰ.tail n) p q c d = absurd (not_mem_nil n)

grant_succeeds : change_org_role_assignment join_id directory ann change ≡ ok granted
unfolding change_org_role_assignment require_tenant lift_forbidden existing_roles
    would_violate_role_separation upsert_role_assignment require_permission require_active_actor
    require_actor_scope load_platform_user actor_permissions list_actor_role_assignments
    collect_permissions role_scope_matches list_role_permissions is_super_admin adopt_tenant
grant_succeeds = refl

who_assigns : require_tenant ann ≡ ok "acme"
unfolding require_tenant is_super_admin
who_assigns = refl

change_org_role_assignment-IsSeparated_example :
    IsSeparated granted.assignments "acme" × (change.user_ref ≢ "ann")
change_org_role_assignment-IsSeparated_example =
    change_org_role_assignment-IsSeparated join_id directory granted ann change "acme" who_assigns
      ids_agree one_row grant_succeeds

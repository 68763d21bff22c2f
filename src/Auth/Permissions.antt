-- ===== src/Auth/Permissions.antt =====
-- What require_permission of authorization.py checks, against a description of who is authorised.
use norinth.Prelude.{
  Option, none, some, String, true, ◌&&◌, List, [], ◌∷◌, ◌==◌, ◌≡◌, ◌⊎◌, ◌↔◌, inl, inr, refl, sym,
  ap, ap₂, text_key, option_key, contains, Memᴰ, eq_iff, Bool-cases, same_option_iff, and_iff,
  not_mem_nil, mem_append, mem_append_left, mem_append_right, mem_of_filter, filter_of_mem,
  mem_of_contains, contains_of_mem, subst, &&-eq-true, ◌∙◌,
}
use norinth.Auth.{
  Actor, RoleAssignment, Directory, Target, field_covers, role_scope_matches, list_role_permissions,
  list_actor_role_assignments, collect_permissions, actor_permissions,
}

-- A field of an assignment covers a target when it is unset or equal.
abbrev pub Covers : Option String → Option String → Type 0
Covers a t = (a ≡ none) ⊎ (a ≡ t)

field_covers-Covers : (a t : Option String) → field_covers a t ≡ true → Covers a t
field_covers-Covers none t h = inl refl
field_covers-Covers (some v) t h = inr ((same_option_iff (some v) t).0 h)

Covers-field_covers : (a t : Option String) → Covers a t → field_covers a t ≡ true
Covers-field_covers none t h = refl
Covers-field_covers (some v) t (inl e) = cc
Covers-field_covers (some v) t (inr e) = (same_option_iff (some v) t).1 e

-- `a` is an active assignment of the user `ref` that reaches the target.
pub record Reaches (a : RoleAssignment) (ref : String) (target : Target) : Type 0 where
  pub owner : a.user_ref ≡ ref
  pub active : a.status ≡ "active"
  pub tenant : a.tenant_id ≡ target.tenant_id
  pub project : Covers a.project target.project
  pub environment : Covers a.environment target.environment

pub role_scope_matches_iff :
    (a : RoleAssignment) (t : Target)
    → (role_scope_matches a t ≡ true) ↔ (
        (a.tenant_id ≡ t.tenant_id)
        × Covers a.project t.project
        × Covers a.environment t.environment)
unfolding role_scope_matches
role_scope_matches_iff a t =
    let tests =
      and_iff (a.tenant_id == t.tenant_id) (field_covers a.project t.project)
        (field_covers a.environment t.environment) in
    let tenant = same_option_iff a.tenant_id t.tenant_id in
    (
      λ h.
          let (e, p, q) = tests.0 h in
          (tenant.0 e, field_covers-Covers _ _ p, field_covers-Covers _ _ q),
      λ r. tests.1 (tenant.1 r.0, Covers-field_covers _ _ r.1, Covers-field_covers _ _ r.2),
    )

-- The permissions of a role are its rows of role_permissions.
pub grant_of_permission :
    (grants : List (String × String)) (role p : String)
    → Memᴰ p (list_role_permissions grants role)
    → Memᴰ (role, p) grants
unfolding list_role_permissions
grant_of_permission [] role p m = absurd (not_mem_nil m)
grant_of_permission ((r, q) ∷ grants) role p m = elim (Bool-cases (r == role)) [
  | inl e ↦ first ((eq_iff r role).0 e) (grant_of_permission grants role p) (rw e at m)
  | inr e ↦ Memᴰ.tail (grant_of_permission grants role p (rw e at m))
]
  where
    first :
        r ≡ role
        → (Memᴰ p (list_role_permissions grants role) → Memᴰ (role, p) grants)
        → Memᴰ p (q ∷ list_role_permissions grants role)
        → Memᴰ (role, p) ((r, q) ∷ grants)
    first e ih (Memᴰ.head h) = Memᴰ.head (ap₂ (λ x y. (x, y)) (sym e) h)
    first e ih (Memᴰ.tail n) = Memᴰ.tail (ih n)

pub permission_of_grant :
    (role p : String) {grants : List (String × String)}
    → Memᴰ (role, p) grants
    → Memᴰ p (list_role_permissions grants role)
unfolding list_role_permissions
permission_of_grant role p (Memᴰ.head {x = (r, q)} {xs = grants} e) =
    let h : (r == role) ≡ true = (eq_iff r role).1 (ap (λ t. t.0) (sym e)) in
    rw h (Memᴰ.head (ap (λ t. t.1) e))
permission_of_grant role p (Memᴰ.tail {x = (r, q)} m) =
    let n = permission_of_grant role p m in
    elim (Bool-cases (r == role)) [ inl e ↦ rw e (Memᴰ.tail n) | inr e ↦ rw e n ]

-- Who a permission reaches: an active assignment in scope whose role is granted it.
pub record Holds (d : Directory) (ref p : String) (target : Target) : Type 0 where
  pub assignment : RoleAssignment
  pub listed : Memᴰ assignment d.assignments
  pub reaches : Reaches assignment ref target
  pub granted : Memᴰ (assignment.role, p) d.grants

collected :
    (grants : List (String × String)) (t : Target) (p : String) (rows : List RoleAssignment)
    → Memᴰ p (collect_permissions grants (some t) rows)
    → (a : RoleAssignment) × Memᴰ a rows × (role_scope_matches a t ≡ true) × Memᴰ (a.role, p) grants
unfolding collect_permissions
collected grants t p [] m = absurd (not_mem_nil m)
collected grants t p (a ∷ rows) m = elim (Bool-cases (role_scope_matches a t)) [
  | inl e ↦ elim (mem_append (list_role_permissions grants a.role) _ (rw e at m)) [
    | inl n ↦ (a, Memᴰ.head refl, e, grant_of_permission grants a.role p n)
    | inr n ↦ later (collected grants t p rows n)
  ]
  | inr e ↦ later (collected grants t p rows (rw e at m))
]
  where
    later :
        (b : RoleAssignment) × Memᴰ b rows
          × (role_scope_matches b t ≡ true)
          × Memᴰ (b.role, p) grants
        → (b : RoleAssignment) × Memᴰ b (a ∷ rows)
          × (role_scope_matches b t ≡ true)
          × Memᴰ (b.role, p) grants
    later (b, n, s, g) = (b, Memᴰ.tail n, s, g)

collects :
    (grants : List (String × String)) (t : Target) (p : String) {a : RoleAssignment}
    {rows : List RoleAssignment}
    → Memᴰ a rows
    → role_scope_matches a t ≡ true
    → Memᴰ (a.role, p) grants
    → Memᴰ p (collect_permissions grants (some t) rows)
unfolding collect_permissions
collects grants t p {a} (Memᴰ.head {x = b} e) s g =
    let s' : role_scope_matches b t ≡ true = ap (λ x. role_scope_matches x t) (sym e) ∙ s in
    rw s'
      (mem_append_left _ (permission_of_grant b.role p (subst (λ x. Memᴰ (x.role, p) grants) e g)))
collects grants t p (Memᴰ.tail {x = b} m) s g =
    let n = collects grants t p m s g in
    elim (Bool-cases (role_scope_matches b t)) [
      | inl e ↦ rw e (mem_append_right (list_role_permissions grants b.role) n)
      | inr e ↦ rw e n
    ]

pub own_active :
    (rows : List RoleAssignment) (ref : String) {a : RoleAssignment}
    → Memᴰ a (list_actor_role_assignments rows ref)
    → Memᴰ a rows × (a.user_ref ≡ ref) × (a.status ≡ "active")
unfolding list_actor_role_assignments
own_active rows ref {a} m =
    let (n, h) = mem_of_filter (λ a. a.user_ref == ref && a.status == "active") rows m in
    let (u, s) = &&-eq-true (a.user_ref == ref) _ h in
    (n, (eq_iff a.user_ref ref).0 u, (eq_iff a.status "active").0 s)

pub active_listed :
    (ref : String) {a : RoleAssignment} {rows : List RoleAssignment}
    → Memᴰ a rows
    → a.user_ref ≡ ref
    → a.status ≡ "active"
    → Memᴰ a (list_actor_role_assignments rows ref)
unfolding list_actor_role_assignments
active_listed ref {a} m u s =
    filter_of_mem (λ a. a.user_ref == ref && a.status == "active") m
      (rw ((eq_iff a.user_ref ref).1 u) ((eq_iff a.status "active").1 s))

-- The permission is in the set that actor_permissions computes for a target exactly when an active
-- assignment of the actor that reaches the target has a role that is granted it.
pub actor_permissions-iff-Holds :
    (d : Directory) (actor : Actor) (t : Target) (p : String)
    → (contains p (actor_permissions d actor (some t)) ≡ true) ↔ Holds d actor.user_ref p t
unfolding actor_permissions
actor_permissions-iff-Holds d actor t p = (to, from)
  where
    to : contains p (actor_permissions d actor (some t)) ≡ true → Holds d actor.user_ref p t
    to h =
        let (a, m, s, g) = collected d.grants t p _ (mem_of_contains p _ h) in
        let (n, u, act) = own_active d.assignments actor.user_ref m in
        let (e, pr, en) = (role_scope_matches_iff a t).0 s in
        record {
          assignment = a;
          listed = n;
          reaches = record { owner = u; active = act; tenant = e; project = pr; environment = en };
          granted = g;
        }

    from : Holds d actor.user_ref p t → contains p (actor_permissions d actor (some t)) ≡ true
    from h = contains_of_mem (
        collects d.grants t p
          (active_listed actor.user_ref h.listed h.reaches.owner h.reaches.active)
          ((role_scope_matches_iff h.assignment t).1
            (h.reaches.tenant, h.reaches.project, h.reaches.environment))
          h.granted)

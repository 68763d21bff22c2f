-- ===== src/Auth/Authority.antt =====
-- What the checks of authorization.py let through: require_permission as a whole, tenants kept apart,
-- and the authority that a stage role carries.
use norinth.Prelude.{
  Option, none, some, String, Bool, true, false, not, ◌&&◌, List, [], ◌∷◌, ◌==◌, ◌≡◌, ◌⊎◌, ◌↔◌, inl,
  inr, refl, ◌||◌, subset, sym, text_key, option_key, if◌then◌else◌, contains, Memᴰ, arith, eq_iff,
  Bool-cases, Option-cases, same_option_iff, and_iff, &&-eq-true, ||-eq-true, mem_of_any,
  mem_of_contains, contains_of_mem, contains-subset, ◌∙◌, subst,
}
use norinth.Prelude.Result.{ok, err, >>=-eq-ok, if-ok}
use norinth.Auth.{
  is_empty, Actor, User, RoleAssignment, Directory, Target, truthy, field_clash, role_scope_matches,
  list_role_permissions, actor_permissions, load_platform_user, require_active_actor,
  require_actor_scope, adopt_tenant, or_empty, require_permission, assignment_satisfies,
  actor_satisfies_stage_role, tenant_mismatch, project_mismatch, environment_mismatch,
}
use norinth.Auth.Permissions.{
  Holds, actor_permissions-iff-Holds, own_active, role_scope_matches_iff, grant_of_permission,
  permission_of_grant,
}

-- Two scope fields agree when one of them is unset or empty, or they are equal.
abbrev pub Agrees : Option String → Option String → Type 0
Agrees a t = (truthy a ≡ false) ⊎ (truthy t ≡ false) ⊎ (a ≡ t)

-- The user exists and is active.
pub record IsActive (d : Directory) (ref : String) : Type 0 where
  pub user : User
  pub loaded : load_platform_user d.users ref ≡ some user
  pub status : user.status ≡ "active"

pub record Authorised (d : Directory) (actor : Actor) (p : String) (t : Target) : Type 0 where
  pub active : IsActive d actor.user_ref
  pub tenant : (truthy actor.tenant_id ≡ false) ⊎ (t.tenant_id ≡ actor.tenant_id)
  pub project : Agrees actor.project t.project
  pub environment : Agrees actor.environment t.environment
  pub holds : Holds d actor.user_ref p t

IsActive-of_require :
    (d : Directory) (actor : Actor)
    → require_active_actor d actor ≡ ok tt
    → IsActive d actor.user_ref
unfolding require_active_actor
IsActive-of_require d actor h = elim (Option-cases (load_platform_user d.users actor.user_ref)) [
  | inl e ↦ absurd (ground (arith, e))
  | inr (u, e) ↦ elim (Bool-cases (u.status == "active")) [
    | inl s ↦ record { user = u; loaded = e; status = (eq_iff u.status "active").0 s }
    | inr s ↦ absurd (ground (arith, e, s))
  ]
]

require_of_active :
    (d : Directory) (actor : Actor)
    → IsActive d actor.user_ref
    → require_active_actor d actor ≡ ok tt
unfolding require_active_actor
require_of_active d actor a =
    let s = (eq_iff a.user.status "active").1 a.status in ground (arith, a.loaded, s)

Agrees-of_clash : (a t : Option String) → field_clash a t ≡ false → Agrees a t
Agrees-of_clash a t h = elim (Bool-cases (truthy a)) [
  | inr e ↦ inl e
  | inl e ↦ elim (Bool-cases (truthy t)) [
    | inr f ↦ inr (inl f)
    | inl f ↦ elim (Bool-cases (a == t)) [
      | inl g ↦ inr (inr ((same_option_iff a t).0 g))
      | inr g ↦ absurd (let h' : true ≡ false = rw (e, f, g) at h in cc h')
    ]
  ]
]

clash_of_Agrees : (a t : Option String) → Agrees a t → field_clash a t ≡ false
clash_of_Agrees a t (inl e) = rw e
clash_of_Agrees a t (inr (inl e)) = elim (Bool-cases (truthy a)) [
  | inl f ↦ rw (f, e)
  | inr f ↦ rw f
]
clash_of_Agrees a t (inr (inr e)) =
    let g = (same_option_iff a t).1 e in
    elim (Bool-cases (truthy a)) [
      | inr f ↦ rw f
      | inl f ↦ elim (Bool-cases (truthy t)) [ inr q ↦ rw (f, q) | inl q ↦ rw (f, q, g) ]
    ]

-- What require_actor_scope checks.
pub record InScope (actor : Actor) (t : Target) : Type 0 where
  pub tenant : (truthy actor.tenant_id ≡ false) ⊎ (t.tenant_id ≡ actor.tenant_id)
  pub project : Agrees actor.project t.project
  pub environment : Agrees actor.environment t.environment

tenant_of_clash :
    (a t : Option String) → (truthy a && not (t == a)) ≡ false → (truthy a ≡ false) ⊎ (t ≡ a)
tenant_of_clash a t h = elim (Bool-cases (truthy a)) [
  | inr e ↦ inl e
  | inl e ↦ elim (Bool-cases (t == a)) [
    | inl f ↦ inr ((same_option_iff t a).0 f)
    | inr f ↦ absurd (let h' : true ≡ false = rw (e, f) at h in cc h')
  ]
]

clash_of_tenant :
    (a t : Option String) → (truthy a ≡ false) ⊎ (t ≡ a) → (truthy a && not (t == a)) ≡ false
clash_of_tenant a t (inl e) = rw e
clash_of_tenant a t (inr e) =
    let g = (same_option_iff t a).1 e in
    elim (Bool-cases (truthy a)) [ inr f ↦ rw f | inl f ↦ rw (f, g) ]

-- A ladder of three refusals.
no_refusal :
    {E : Type 0} (a b c : Bool) (x y z : E)
    → (if a then err x else if b then err y else if c then err z else ok tt) ≡ ok tt
    → (a ≡ false) × (b ≡ false) × (c ≡ false)
no_refusal a b c x y z h = ground arith

scope_of_require :
    (actor : Actor) (t : Target) → require_actor_scope actor t ≡ ok tt → InScope actor t
unfolding require_actor_scope
scope_of_require actor t h =
    let (a, b, c) =
      no_refusal (truthy actor.tenant_id && not (t.tenant_id == actor.tenant_id))
        (field_clash actor.project t.project) (field_clash actor.environment t.environment)
        tenant_mismatch project_mismatch environment_mismatch h in
    record {
      tenant = tenant_of_clash _ _ a;
      project = Agrees-of_clash _ _ b;
      environment = Agrees-of_clash _ _ c;
    }

require_of_scope :
    (actor : Actor) (t : Target) → InScope actor t → require_actor_scope actor t ≡ ok tt
unfolding require_actor_scope
require_of_scope actor t h =
    let a = clash_of_tenant actor.tenant_id t.tenant_id h.tenant in
    let b = clash_of_Agrees actor.project t.project h.project in
    let c = clash_of_Agrees actor.environment t.environment h.environment in rw (a, b, c)

-- require_permission succeeds exactly for an active user whose own scope agrees with the target and
-- who holds the permission there. The target is the one that the call was given, with the tenant
-- of the actor filled in where the caller lets it be adopted.
pub require_permission-iff-Authorised :
    (d : Directory) (actor : Actor) (p : String) (target : Option Target) (adopt : Bool)
    → (require_permission d actor p target adopt ≡ ok tt)
      ↔ Authorised d actor p (adopt_tenant adopt actor (or_empty target))
unfolding require_permission
require_permission-iff-Authorised d actor p target adopt = (to, from)
  where
    scoped : Target
    scoped = adopt_tenant adopt actor (or_empty target)

    to : require_permission d actor p target adopt ≡ ok tt → Authorised d actor p scoped
    to h =
        let (_, a, rest) = >>=-eq-ok (require_active_actor d actor) _ h in
        let (_, s, last) = >>=-eq-ok (require_actor_scope actor scoped) _ rest in
        let c = if-ok (contains p (actor_permissions d actor (some scoped))) _ last in
        let scope = scope_of_require actor scoped s in
        record {
          active = IsActive-of_require d actor a;
          tenant = scope.tenant;
          project = scope.project;
          environment = scope.environment;
          holds = (actor_permissions-iff-Holds d actor scoped p).0 c;
        }

    from : Authorised d actor p scoped → require_permission d actor p target adopt ≡ ok tt
    from h =
        let a = require_of_active d actor h.active in
        let s =
          require_of_scope actor scoped
            (record { tenant = h.tenant; project = h.project; environment = h.environment }) in
        let c = (actor_permissions-iff-Holds d actor scoped p).1 h.holds in rw (a, s, c)

-- An actor bound to a tenant passes require_permission only for a target of that tenant, by an
-- assignment of that tenant. A target that names no tenant passes only where the caller adopts it.
pub require_permission_own_tenant :
    (d : Directory) (actor : Actor) (p : String) (t : Target) (adopt : Bool)
    → truthy actor.tenant_id ≡ true
    → require_permission d actor p (some t) adopt ≡ ok tt
    → ((t.tenant_id ≡ actor.tenant_id) ⊎ ((t.tenant_id ≡ none) × (adopt ≡ true)))
      × ((a : RoleAssignment) × Memᴰ a d.assignments
          × (a.user_ref ≡ actor.user_ref)
          × (a.tenant_id ≡ actor.tenant_id)
          × Memᴰ (a.role, p) d.grants)
unfolding adopt_tenant
require_permission_own_tenant d actor p t adopt bound h =
    let auth = (require_permission-iff-Authorised d actor p (some t) adopt).0 h in
    let own : (adopt_tenant adopt actor t).tenant_id ≡ actor.tenant_id = elim auth.tenant [
      | inl e ↦ absurd (cc (bound, e))
      | inr e ↦ e
    ] in
    let held = auth.holds in
    (
      given adopt (Bool-cases (adopt && t.tenant_id == none && truthy actor.tenant_id)) own,
      (held.assignment, held.listed, held.reaches.owner, held.reaches.tenant ∙ own, held.granted),
    )
  where
    given :
        (adopt : Bool)
        → ((adopt && t.tenant_id == none && truthy actor.tenant_id) ≡ true)
          ⊎ ((adopt && t.tenant_id == none && truthy actor.tenant_id) ≡ false)
        → (adopt_tenant adopt actor t).tenant_id ≡ actor.tenant_id
        → (t.tenant_id ≡ actor.tenant_id) ⊎ ((t.tenant_id ≡ none) × (adopt ≡ true))
    given adopt (inl e) own =
        let (a, n, _) = (and_iff adopt (t.tenant_id == none) _).0 e in
        inr ((same_option_iff t.tenant_id none).0 n, a)
    given adopt (inr e) own = inl (rw e at own)

first_permission :
    (xs : List String) (b : Bool)
    → (if is_empty xs then false else b) ≡ true
    → ((x : String) × Memᴰ x xs) × (b ≡ true)
first_permission [] b h = absurd (cc)
first_permission (x ∷ xs) b h = ((x, Memᴰ.head refl), h)

-- A role that is another, or has all of its grants, is granted whatever the other is granted.
pub carried_grant :
    (grants : List (String × String)) (role held p : String)
    → (held == role
        || subset (list_role_permissions grants role) (list_role_permissions grants held))
      ≡ true
    → Memᴰ (role, p) grants
    → Memᴰ (held, p) grants
carried_grant grants role held p r g = elim (||-eq-true (held == role) _ r) [
  | inl e ↦ subst (λ x. Memᴰ (x, p) grants) (sym ((eq_iff held role).0 e)) g
  | inr e ↦ grant_of_permission grants held p (
      mem_of_contains p _ (
        contains-subset p (list_role_permissions grants role) _ e
          (contains_of_mem (permission_of_grant role p g))))
]

-- An assignment that satisfies a stage role is granted whatever the role is granted.
carries :
    (grants : List (String × String)) (role : String) (t : Target) (a : RoleAssignment)
    → assignment_satisfies grants role t a ≡ true
    → (role_scope_matches a t ≡ true)
      × ((p : String) → Memᴰ (role, p) grants → Memᴰ (a.role, p) grants)
unfolding assignment_satisfies
carries grants role t a h =
    let (s, r) = &&-eq-true (role_scope_matches a t) _ h in
    (s, λ p g. carried_grant grants role a.role p r g)

-- The authority of a stage role: an actor that satisfies it holds, in the target's scope, every
-- permission that the role is granted.
pub stage_role_authority :
    (d : Directory) (actor : Actor) (role p : String) (t : Target)
    → actor_satisfies_stage_role d actor role t ≡ true
    → Memᴰ (role, p) d.grants
    → Holds d actor.user_ref p t
unfolding actor_satisfies_stage_role
stage_role_authority d actor role p t h g =
    let (_, found) = first_permission (list_role_permissions d.grants role) _ h in
    let (a, n, sat) = mem_of_any (assignment_satisfies d.grants role t) _ found in
    let (s, carry) = carries d.grants role t a sat in
    let (l, u, act) = own_active d.assignments actor.user_ref n in
    let (e, pr, en) = (role_scope_matches_iff a t).0 s in
    record {
      assignment = a;
      listed = l;
      reaches = record { owner = u; active = act; tenant = e; project = pr; environment = en };
      granted = carry p g;
    }

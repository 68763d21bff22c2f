-- ===== src/Policy/Staffing/Eligible.antt =====
-- Who _eligible_deciders of policy_engine.py names for a role.
use norinth.Prelude.{
  Option, some, String, true, ◌&&◌, List, [], ◌∷◌, ◌==◌, ◌≡◌, inl, inr, sym, ap, ◌∙◌, ℕ, text_key,
  option_key, keys, contains, get_elem?, Memᴰ, mem_of_filter, mem_of_map, mem_of_any,
  mem_of_contains, and_iff, &&-eq-true, eq_iff, same_option_iff, filter, Bool-cases, not_mem_nil,
  map,
}
use norinth.Auth.{User, RoleAssignment}
use norinth.Auth.Authority.{carried_grant}
use norinth.Policy.Staffing.{deciding, is_active_user, carries_role, eligible_deciders}
use norinth.Policy.Staffing.Staffed.{IsStaffed}

-- A person who may decide a stage of a role: an active user with an active assignment in the
-- tenant, to a role that has every grant of the stage's role, which is granted something.
pub record CanDecide (users : List User) (assignments : List RoleAssignment)
    (grants : List (String × String)) (tenant role person : String) : Type 0 where
  pub user : User
  pub known : Memᴰ user users
  pub of_user : user.user_ref ≡ person
  pub active : user.status ≡ "active"
  pub assignment : RoleAssignment
  pub assigned : Memᴰ assignment assignments
  pub of_person : assignment.user_ref ≡ person
  pub in_tenant : assignment.tenant_id ≡ some tenant
  pub in_force : assignment.status ≡ "active"
  pub carries : (p : String) → Memᴰ (role, p) grants → Memᴰ (assignment.role, p) grants
  pub granted : (p : String) × Memᴰ (role, p) grants

-- A different person for each of the stages, each of whom may decide the stage.
pub record HasDeciders (users : List User) (assignments : List RoleAssignment)
    (grants : List (String × String)) (tenant : String) (roles : List String) : Type 0 where
  pub stage_of : String → Option ℕ
  pub decided :
      (stage : ℕ) (role : String)
      → get_elem? roles stage ≡ some role
      → (person : String) × CanDecide users assignments grants tenant role person
        × (stage_of person ≡ some stage)

mem_of_keys :
    (role : String) (grants : List (String × String))
    → Memᴰ role (keys grants)
    → (p : String) × Memᴰ (role, p) grants
mem_of_keys role [] m = absurd (not_mem_nil m)
mem_of_keys role ((r, p) ∷ grants) (Memᴰ.head e) = (p, Memᴰ.head (ap (λ x. (x, p)) e))
mem_of_keys role ((r, p) ∷ grants) (Memᴰ.tail m) =
    let (q, n) = mem_of_keys role grants m in (q, Memᴰ.tail n)

eligible_deciders-CanDecide :
    (users : List User) (assignments : List RoleAssignment) (grants : List (String × String))
    (tenant role person : String)
    → Memᴰ person (eligible_deciders users assignments grants tenant role)
    → CanDecide users assignments grants tenant role person
unfolding eligible_deciders
eligible_deciders-CanDecide users assignments grants tenant role person m =
    elim (Bool-cases (contains role (keys grants))) [
      | inr e ↦ absurd (not_mem_nil (rw e at m))
      | inl e ↦ named e (rw e at m)
    ]
  where
    named :
        contains role (keys grants) ≡ true
        → Memᴰ person (
            map
              (λ (a : RoleAssignment). a.user_ref)
              (filter
                (λ (a : RoleAssignment). deciding users tenant a && carries_role grants role a)
                assignments))
        → CanDecide users assignments grants tenant role person
    named e n =
        let (a, k, q) = mem_of_map (λ (a : RoleAssignment). a.user_ref) _ n in
        let (assigned, t) = mem_of_filter _ assignments k in
        let (d, c) = &&-eq-true (deciding users tenant a) (carries_role grants role a) t in
        let (o, s, u) =
          (and_iff (a.tenant_id == some tenant) (a.status == "active")
              (is_active_user users a.user_ref)).0
            d in
        let (x, known, w) = mem_of_any _ users u in
        let (same, active) = &&-eq-true (x.user_ref == a.user_ref) (x.status == "active") w in
        record {
          user = x;
          known = known;
          of_user = (eq_iff x.user_ref a.user_ref).0 same ∙ sym q;
          active = (eq_iff x.status "active").0 active;
          assignment = a;
          assigned = assigned;
          of_person = sym q;
          in_tenant = (same_option_iff a.tenant_id (some tenant)).0 o;
          in_force = (eq_iff a.status "active").0 s;
          carries = λ p g. carried_grant grants role a.role p c g;
          granted = mem_of_keys role grants (mem_of_contains role (keys grants) e);
        }

pub IsStaffed-HasDeciders :
    (users : List User) (assignments : List RoleAssignment) (grants : List (String × String))
    (tenant : String) (roles : List String)
    → IsStaffed roles (eligible_deciders users assignments grants tenant)
    → HasDeciders users assignments grants tenant roles
IsStaffed-HasDeciders users assignments grants tenant roles s = record {
  stage_of = s.stage_of;
  decided = λ stage role e.
      let (person, m, at) = s.decided stage role e in
      (person, eligible_deciders-CanDecide users assignments grants tenant role person m, at);
}

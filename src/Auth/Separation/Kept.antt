-- ===== src/Auth/Separation/Kept.antt =====
-- No user of a tenant comes to hold an administration role and a decision role.
use norinth.Prelude.{
  Option, some, String, Bool, true, false, not, List, [], ◌∷◌, ◌==◌, ◌≡◌, ◌≢◌, ◌⊎◌, inl, inr, refl,
  sym, ap, ◌∙◌, subst, text_key, option_key, if◌then◌else◌, contains, Memᴰ, arith, eq_iff,
  Bool-cases, same_option_iff, and_iff, any_of_mem, filter_of_mem, mem_map,
}
use norinth.Prelude.Result.{ok, err, >>=-eq-ok}
use norinth.Auth.{Actor, RoleAssignment, Directory, require_permission, load_platform_user}
use norinth.Auth.Separation.{
  administration_roles, decision_roles, assignable_org_roles, would_violate_role_separation,
  RoleAssignmentChange, require_tenant, is_active_row, existing_roles, upsert_role_assignment,
  new_assignment, change_org_role_assignment, lift_forbidden, belongs, unknown_role, unknown_status,
  own_assignment, no_such_user, separation,
}

-- A user's active rows in the tenant name no administration role beside a decision role.
abbrev pub IsSeparated : List RoleAssignment → String → Type 0
IsSeparated rows tenant =
    (ref : String) (a b : RoleAssignment)
    → Memᴰ a rows
    → Memᴰ b rows
    → is_active_row tenant ref a ≡ true
    → is_active_row tenant ref b ≡ true
    → contains a.role administration_roles ≡ true
    → contains b.role decision_roles ≡ true
    → ⊥

-- A row after the upsert is an old one, or it carries the new status under the new id.
upserted :
    (new : RoleAssignment) (rows : List RoleAssignment) {a : RoleAssignment}
    → Memᴰ a (upsert_role_assignment new rows)
    → Memᴰ a rows
      ⊎ (a ≡ new)
      ⊎ ((b : RoleAssignment) × Memᴰ b rows
          × (b.role_assignment_id ≡ new.role_assignment_id)
          × (a ≡ record b { status = new.status }))
unfolding upsert_role_assignment
upserted new [] (Memᴰ.head e) = inr (inl e)
upserted new [] (Memᴰ.tail m) = inl m
upserted new (r ∷ rows) {a} m = elim (Bool-cases (r.role_assignment_id == new.role_assignment_id)) [
  | inl e ↦ changed ((eq_iff _ _).0 e) (rw e at m)
  | inr e ↦ kept (λ n. upserted new rows n) (rw e at m)
]
  where
    changed :
        r.role_assignment_id ≡ new.role_assignment_id
        → Memᴰ a (record r { status = new.status } ∷ rows)
        → Memᴰ a (r ∷ rows)
          ⊎ (a ≡ new)
          ⊎ ((b : RoleAssignment) × Memᴰ b (r ∷ rows)
              × (b.role_assignment_id ≡ new.role_assignment_id)
              × (a ≡ record b { status = new.status }))
    changed e (Memᴰ.head q) = inr (inr (r, Memᴰ.head refl, e, q))
    changed e (Memᴰ.tail n) = inl (Memᴰ.tail n)

    kept :
        (Memᴰ a (upsert_role_assignment new rows)
          → Memᴰ a rows
            ⊎ (a ≡ new)
            ⊎ ((b : RoleAssignment) × Memᴰ b rows
                × (b.role_assignment_id ≡ new.role_assignment_id)
                × (a ≡ record b { status = new.status })))
        → Memᴰ a (r ∷ upsert_role_assignment new rows)
        → Memᴰ a (r ∷ rows)
          ⊎ (a ≡ new)
          ⊎ ((b : RoleAssignment) × Memᴰ b (r ∷ rows)
              × (b.role_assignment_id ≡ new.role_assignment_id)
              × (a ≡ record b { status = new.status }))
    kept ih (Memᴰ.head q) = inl (Memᴰ.head q)
    kept ih (Memᴰ.tail n) = elim (ih n) [
      | inl o ↦ inl (Memᴰ.tail o)
      | inr (inl o) ↦ inr (inl o)
      | inr (inr (b, o, i, s)) ↦ inr (inr (b, Memᴰ.tail o, i, s))
    ]

-- What the id of a row stands for: a listed row with the new id has the fields of the new row.
abbrev pub IdsAgree : RoleAssignment → List RoleAssignment → Type 0
IdsAgree new rows =
    (b : RoleAssignment)
    → Memᴰ b rows
    → b.role_assignment_id ≡ new.role_assignment_id
    → (b.user_ref ≡ new.user_ref) × (b.role ≡ new.role)

-- An active row after the upsert was active before it, or has the user, role and status of the new.
old_or_new :
    (new : RoleAssignment) (rows : List RoleAssignment) {a : RoleAssignment}
    → IdsAgree new rows
    → Memᴰ a (upsert_role_assignment new rows)
    → Memᴰ a rows ⊎ ((a.user_ref ≡ new.user_ref) × (a.role ≡ new.role) × (a.status ≡ new.status))
old_or_new new rows ids m = elim (upserted new rows m) [
  | inl o ↦ inl o
  | inr (inl e) ↦ inr (ap (λ x. x.user_ref) e, ap (λ x. x.role) e, ap (λ x. x.status) e)
  | inr (inr (b, o, i, e)) ↦ inr (
    ap (λ x. x.user_ref) e ∙ (ids b o i).0,
    ap (λ x. x.role) e ∙ (ids b o i).1,
    ap (λ x. x.status) e,
  )
]

module _ (tenant ref : String) (new : RoleAssignment) (rows : List RoleAssignment) where
  row_tests :
      (a : RoleAssignment)
      → is_active_row tenant ref a ≡ true
      → (a.tenant_id ≡ some tenant) × (a.user_ref ≡ ref) × (a.status ≡ "active")
  row_tests a h =
      let (t, u, s) =
        (and_iff (a.tenant_id == some tenant) (a.user_ref == ref) (a.status == "active")).0 h in
      (
        (same_option_iff a.tenant_id (some tenant)).0 t,
        (eq_iff a.user_ref ref).0 u,
        (eq_iff a.status "active").0 s,
      )

  -- Where the change does not activate a row of this user, an active row is an old one.
  was_active :
      IdsAgree new rows
      → ¬ ((new.user_ref ≡ ref) × (new.status ≡ "active"))
      → {a : RoleAssignment} → Memᴰ a (upsert_role_assignment new rows)
      → is_active_row tenant ref a ≡ true
      → Memᴰ a rows
  was_active ids other {a} m act = elim (old_or_new new rows ids m) [
    | inl o ↦ o
    | inr (u, r, s) ↦ let (_, u', s') = row_tests a act in absurd (other (sym u ∙ u', sym s ∙ s'))
  ]

  -- The role of a row that is active after the change is in the resulting role set.
  role_in_result :
      IdsAgree new rows
      → {a : RoleAssignment} → Memᴰ a (upsert_role_assignment new rows)
      → is_active_row tenant ref a ≡ true
      → Memᴰ a.role (new.role ∷ existing_roles rows tenant ref)
  unfolding existing_roles
  role_in_result ids {a} m act = elim (old_or_new new rows ids m) [
    | inl o ↦ Memᴰ.tail (mem_map (λ x. x.role) (filter_of_mem (is_active_row tenant ref) o act))
    | inr (u, r, s) ↦ Memᴰ.head r
  ]

-- One upsert that would_violate_role_separation lets through keeps the roles of the tenant separate.
pub upsert-IsSeparated :
    (tenant : String) (new : RoleAssignment) (rows : List RoleAssignment)
    → IdsAgree new rows
    → would_violate_role_separation (existing_roles rows tenant new.user_ref) new.role new.status
      ≡ false
    → IsSeparated rows tenant
    → IsSeparated (upsert_role_assignment new rows) tenant
unfolding would_violate_role_separation
upsert-IsSeparated tenant new rows ids allowed sep ref a b ma mb aa ab ca cb =
    elim (Bool-cases (new.status == "active")) [
      | inr off ↦ old (λ p. cc (off, (eq_iff new.status "active").1 p.1))
      | inl on ↦ elim (Bool-cases (new.user_ref == ref)) [
        | inr other ↦ old (λ p. cc (other, (eq_iff new.user_ref ref).1 p.0))
        | inl same ↦ clash on ((eq_iff new.user_ref ref).0 same)
      ]
    ]
  where
    old : ¬ ((new.user_ref ≡ ref) × (new.status ≡ "active")) → ⊥
    old other =
        sep ref a b (was_active tenant ref new rows ids other ma aa)
          (was_active tenant ref new rows ids other mb ab) aa ab ca cb

    in_result :
        new.user_ref ≡ ref
        → (x : RoleAssignment) → Memᴰ x (upsert_role_assignment new rows)
        → is_active_row tenant ref x ≡ true
        → Memᴰ x.role (new.role ∷ existing_roles rows tenant new.user_ref)
    in_result e x m act =
        subst (λ u. Memᴰ x.role (new.role ∷ existing_roles rows tenant u)) (sym e)
          (role_in_result tenant ref new rows ids m act)

    clash : (new.status == "active") ≡ true → new.user_ref ≡ ref → ⊥
    clash on e =
        let p = any_of_mem (λ r. contains r administration_roles) (in_result e a ma aa) ca in
        let q = any_of_mem (λ r. contains r decision_roles) (in_result e b mb ab) cb in
        let h : true ≡ false = rw (on, p, q) at allowed in cc h

-- The five refusals at the end of the route.
no_refusal :
    {E A : Type 0} (a b c d e : Bool) (u v w x y : E) (r r' : A)
    → (if a
        then err u
        else if b
        then err v
        else if c
        then err w
        else if d
        then err x
        else if e
        then err y
        else ok r)
      ≡ ok r'
    → (c ≡ false) × (e ≡ false) × (r ≡ r')
no_refusal a b c d e u v w x y r r' h = ground arith

-- The route keeps the duties of every tenant's users separate: where it succeeds for an actor bound
-- to `tenant`, and rows of role_assignments with the id of the new row have its user and role, a
-- user of the tenant whose active rows did not mix administration with decision roles still does
-- not mix them, and the actor has not changed a row of their own.
pub change_org_role_assignment-IsSeparated :
    (assignment_id : String → Option String → Option String → String → String → String)
    (d d' : Directory) (actor : Actor) (change : RoleAssignmentChange) (tenant : String)
    → require_tenant actor ≡ ok tenant
    → IdsAgree (new_assignment assignment_id tenant change) d.assignments
    → IsSeparated d.assignments tenant
    → change_org_role_assignment assignment_id d actor change ≡ ok d'
    → IsSeparated d'.assignments tenant × (change.user_ref ≢ actor.user_ref)
unfolding change_org_role_assignment
change_org_role_assignment-IsSeparated assignment_id d d' actor change tenant who ids sep h =
    let (_, _, rest) =
      >>=-eq-ok (lift_forbidden (require_permission d actor "role.assign" _ false)) _
        (rw who at h) in
    let (own, allowed, e) =
      no_refusal (not (contains change.role assignable_org_roles))
        (not (contains change.status ("active" ∷ "revoked" ∷ [])))
        (change.user_ref == actor.user_ref)
        (not (belongs tenant (load_platform_user d.users change.user_ref)))
        (would_violate_role_separation (existing_roles d.assignments tenant change.user_ref)
          change.role change.status)
        unknown_role unknown_status own_assignment no_such_user separation _ d' rest in
    (
      subst (λ x. IsSeparated x.assignments tenant) e
          (upsert-IsSeparated tenant (new_assignment assignment_id tenant change) d.assignments ids
            allowed sep),
      λ same. cc (own, (eq_iff change.user_ref actor.user_ref).1 same),
    )

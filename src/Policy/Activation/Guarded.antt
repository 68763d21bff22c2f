-- ===== src/Policy/Activation/Guarded.antt =====
-- What holds of a version that activate_policy puts in force.
use norinth.Prelude.{
  Option, some, String, true, false, not, ◌||◌, List, [], ◌∷◌, ◌==◌, ◌≡◌, ◌≢◌, ◌⊎◌, inl, inr, refl,
  sym, ap, ◌∙◌, ℕ, text_key, option_key, find, lookup, Memᴰ, eq_iff, Bool-cases, two_branches,
  ||-eq-true, not-eq-true, same_option_iff,
}
use norinth.Prelude.Result.{ok, err, ◌>>◌, require, require-eq-ok, >>=-eq-ok}
use norinth.Auth.{is_empty}
use norinth.Policy.{PolicyRow, document_of, is_active_of, platform_default}
use norinth.Policy.Loosening.Strict.{IsStricter, policy_loosening-IsStricter}
use norinth.Policy.Staffing.{eligible_deciders, stage_sections}
use norinth.Policy.Staffing.Staffed.{unstaffed-IsStaffed}
use norinth.Policy.Staffing.Eligible.{HasDeciders, IsStaffed-HasDeciders}
use norinth.Policy.Errors.{Checked}
use norinth.Policy.Validation.{validate_policy_body}
use norinth.Policy.Validation.Bounds.{IsValid, validate_policy_body-IsValid}
use norinth.Policy.Activation.{
  PolicyStore, PolicyError, refuse_errors, Activation, put_in_force, activate_changed, activate_row,
  activate_policy, is_version, document_in_force, loosening_of, unstaffed_by,
}

-- The checks that a version in force has passed, and what the activation gives.
pub record IsChecked (store : PolicyStore) (tenant : String) (target : PolicyRow)
    (actor_ref : String) (a : Activation) : Type 0 where
  pub valid : validate_policy_body store.grants target.body ≡ ok []
  pub another :
      (loosening_of store tenant target ≡ []) ⊎ ((target.created_by == some actor_ref) ≡ false)
  pub staffed : unstaffed_by store tenant target ≡ []
  pub result :
      put_in_force store tenant target
        (find (is_active_of tenant) store.policies)
        actor_ref
        (loosening_of store tenant target)
      ≡ a

no_errors : (c : Checked) → refuse_errors c ≡ ok tt → c ≡ ok []
no_errors (err e) h = absurd (cc h)
no_errors (ok []) h = refl
no_errors (ok (e ∷ errors)) h = absurd (cc h)

empty : {A : Type 0} (xs : List A) → is_empty xs ≡ true → xs ≡ []
empty [] h = refl
empty (x ∷ xs) h = absurd (cc h)

changed-IsChecked :
    (store : PolicyStore) (tenant : String) (target : PolicyRow) (actor_ref : String)
    (a : Activation)
    → (refuse_errors (validate_policy_body store.grants target.body)
        >> activate_changed store tenant target
            (find (is_active_of tenant) store.policies)
            actor_ref
            (loosening_of store tenant target)
            (unstaffed_by store tenant target))
      ≡ ok a
    → IsChecked store tenant target actor_ref a
changed-IsChecked store tenant target actor_ref a h =
    let previous = find (is_active_of tenant) store.policies in
    let loosening = loosening_of store tenant target in
    let unstaffed = unstaffed_by store tenant target in
    let (_, v, h₁) =
      >>=-eq-ok (refuse_errors (validate_policy_body store.grants target.body)) _ h in
    let person =
      require (is_empty loosening || not (target.created_by == some actor_ref))
        (PolicyError.requires_second_person loosening) in
    let staff = require (is_empty unstaffed) (PolicyError.stages_unstaffed unstaffed) in
    let (_, ps, h₃) =
      >>=-eq-ok (person >> staff)
        (λ _. ok (put_in_force store tenant target previous actor_ref loosening)) h₁ in
    let (_, p, s) = >>=-eq-ok person (λ _. staff) ps in
    record {
      valid = no_errors (validate_policy_body store.grants target.body) v;
      another = elim (||-eq-true (is_empty loosening) _ (require-eq-ok _ _ p)) [
        | inl e ↦ inl (empty loosening e)
        | inr e ↦ inr (not-eq-true (target.created_by == some actor_ref) e)
      ];
      staffed = empty unstaffed (require-eq-ok _ _ s);
      result = cc h₃;
    }

pub activated_row :
    (store : PolicyStore) (tenant : String) (version : ℕ) (actor_ref : String)
    (o : Option PolicyRow) (a : Activation)
    → find (is_version tenant version) store.policies ≡ o
    → activate_policy store tenant version actor_ref ≡ ok a
    → activate_row store tenant actor_ref o ≡ ok a
unfolding activate_policy
activated_row store tenant version actor_ref o a found h =
    elim (two_branches (tenant == "") (err PolicyError.tenant_required)
      (activate_row store tenant actor_ref (find (is_version tenant version) store.policies)) (ok a)
      h) [
        | inl (_, e) ↦ absurd (cc e)
        | inr (_, e) ↦ ap (activate_row store tenant actor_ref) (sym found) ∙ e
      ]

pub activated-IsChecked :
    (store : PolicyStore) (tenant : String) (version : ℕ) (actor_ref : String) (target : PolicyRow)
    (a : Activation)
    → find (is_version tenant version) store.policies ≡ some target
    → target.status ≢ "active"
    → activate_policy store tenant version actor_ref ≡ ok a
    → IsChecked store tenant target actor_ref a
activated-IsChecked store tenant version actor_ref target a found draft h =
    row (activated_row store tenant version actor_ref (some target) a found h)
  where
    row :
        activate_row store tenant actor_ref (some target) ≡ ok a
        → IsChecked store tenant target actor_ref a
    row h = elim (Bool-cases (target.status == "active")) [
      | inl e ↦ absurd (draft ((eq_iff target.status "active").0 e))
      | inr e ↦ elim (Bool-cases (target.status == "superseded")) [
        | inl f ↦ absurd (let t = rw (e, f) at h in cc t)
        | inr f ↦ changed-IsChecked store tenant target actor_ref a (rw (e, f) at h)
      ]
    ]

-- Where the author of a version puts it in force, the version is at least as strict as the policy
-- that was in force, or as the platform default where there was none.
pub activate_policy-IsStricter :
    (store : PolicyStore) (tenant : String) (version : ℕ) (actor_ref : String) (target : PolicyRow)
    (a : Activation)
    → find (is_version tenant version) store.policies ≡ some target
    → target.status ≢ "active"
    → target.created_by ≡ some actor_ref
    → activate_policy store tenant version actor_ref ≡ ok a
    → IsStricter
        (document_in_force store tenant)
        (document_of target)
        (document_of (platform_default store.policies))
activate_policy-IsStricter store tenant version actor_ref target a found draft author h =
    elim ((activated-IsChecked store tenant version actor_ref target a found draft h).another) [
      | inl e ↦ policy_loosening-IsStricter _ _ _ e
      | inr e ↦
          absurd
            (let t = (same_option_iff target.created_by (some actor_ref)).1 author in cc (t, e))
    ]

-- A version that is put in force is within the bounds that validation checks, for the grants that
-- the roles have at that time.
pub activate_policy-IsValid :
    (store : PolicyStore) (tenant : String) (version : ℕ) (actor_ref : String) (target : PolicyRow)
    (a : Activation)
    → find (is_version tenant version) store.policies ≡ some target
    → target.status ≢ "active"
    → activate_policy store tenant version actor_ref ≡ ok a
    → IsValid store.grants (document_of target)
activate_policy-IsValid store tenant version actor_ref target a found draft h =
    validate_policy_body-IsValid store.grants target.body
      ((activated-IsChecked store tenant version actor_ref target a found draft h).valid)

-- Each section of a version that is put in force has the stages that it had before, or a different
-- person for each of its stages, who is an active user with an active assignment in the tenant to a
-- role that has every grant of the stage's role.
pub activate_policy-IsStaffed :
    (store : PolicyStore) (tenant : String) (version : ℕ) (actor_ref : String) (target : PolicyRow)
    (a : Activation)
    → find (is_version tenant version) store.policies ≡ some target
    → target.status ≢ "active"
    → activate_policy store tenant version actor_ref ≡ ok a
    → (section : String) (roles : List String)
    → Memᴰ
        (section, roles)
        (stage_sections (document_of target) (document_of (platform_default store.policies)))
    → (lookup section (
          stage_sections
            (document_in_force store tenant)
            (document_of (platform_default store.policies)))
        ≡ some roles)
      ⊎ HasDeciders store.users store.assignments store.grants tenant roles
activate_policy-IsStaffed store tenant version actor_ref target a found draft h section roles m =
    elim (unstaffed-IsStaffed (document_in_force store tenant) (document_of target)
      (document_of (platform_default store.policies))
      (eligible_deciders store.users store.assignments store.grants tenant)
      ((activated-IsChecked store tenant version actor_ref target a found draft h).staffed) section
      roles m) [
        | inl kept ↦ inl kept
        | inr s ↦
            inr (IsStaffed-HasDeciders store.users store.assignments store.grants tenant roles s)
      ]

-- ===== src/Policy/Resolve/Agree.antt =====
-- The resolvers read a tenant's policy as policy_loosening reads the documents.
use norinth.Prelude.{
  Option, none, some, String, false, List, ◌==◌, ◌≡◌, ◌⊎◌, inl, inr, refl, ap, ◌∙◌, ℕ, arith,
  text_key, find, mem_of_find, eq_iff, &&-eq-true, Bool-cases,
}
use norinth.Policy.{
  StageEntry, GateEntry, Document, PolicyRow, document_of, is_active_of, row_or, tenant_text,
  platform_default, active_policy, material_change_ceiling,
}
use norinth.Policy.Resolve.{
  or_reviewer, entry_or, resolve_from, tier_section, vendor_section, reviewer_entry,
  shipped_vendors, resolve_tier_policy, resolve_vendor_policy, environment_entry, lesser,
  first_requirements, resolve_gate_policy, tier_entry, vendor_entry, gate_entry_or, gate_entry,
  resolve_intake_fields, intake_fields,
}

-- The policy in force is the tenant's own, or the platform default.
pub active_policy-cases :
    (rows : List PolicyRow) (tenant : Option String)
    → (((active_policy rows tenant).tenant_id == "") ≡ false)
      ⊎ (active_policy rows tenant ≡ platform_default rows)
unfolding active_policy
active_policy-cases rows tenant = elim (Bool-cases (tenant_text tenant == "")) [
  | inl e ↦ inr (rw e)
  | inr e ↦ rw e (found e (find (is_active_of (tenant_text tenant)) rows) refl)
]
  where
    found :
        (tenant_text tenant == "") ≡ false
        → (o : Option PolicyRow) → find (is_active_of (tenant_text tenant)) rows ≡ o
        → (((row_or o (platform_default rows)).tenant_id == "") ≡ false)
          ⊎ (row_or o (platform_default rows) ≡ platform_default rows)
    found e none h = inr refl
    found e (some row) h =
        let (m, q) = mem_of_find (is_active_of (tenant_text tenant)) rows h in
        let t =
          (eq_iff row.tenant_id (tenant_text tenant)).0
            (&&-eq-true (row.tenant_id == tenant_text tenant) _ q).0 in
        inl (ap (λ s. s == "") t ∙ e)

-- The entry with the stages that a resolver returns.
abbrev pub with_reviewer : StageEntry → StageEntry
with_reviewer e = record e { roles = or_reviewer e.roles }

-- No policy lets a material change stay open.
pub none_open : (n : ℕ) → lesser n material_change_ceiling ≡ 0
none_open n = ground arith

section_agrees :
    (own other : Option StageEntry) (fallback : StageEntry) (policy default : PolicyRow)
    → ((policy.tenant_id == "") ≡ false) ⊎ (own ≡ other)
    → (resolve_from own other fallback policy default).entry
      ≡ with_reviewer (entry_or own (entry_or other fallback))
section_agrees (some e) other fallback policy default h = refl
section_agrees none other fallback policy default (inl e) = rw e
section_agrees none none fallback policy default (inr e) =
    elim (Bool-cases (policy.tenant_id == "")) [ inl t ↦ rw t | inr t ↦ rw t ]
section_agrees none (some x) fallback policy default (inr e) = absurd (cc e)

gate_agrees :
    (own other : Option GateEntry) (policy default : PolicyRow)
    → ((first_requirements own other policy default).require_attested_evals
        ≡ (gate_entry_or own other).require_attested_evals)
      × ((first_requirements own other policy default).min_control_coverage
          ≡ (gate_entry_or own other).min_control_coverage)
      × ((first_requirements own other policy default).max_open_material_changes ≡ 0)
gate_agrees (some e) other policy default = (refl, refl, none_open e.max_open_material_changes)
gate_agrees none (some e) policy default = (refl, refl, none_open e.max_open_material_changes)
gate_agrees none none policy default = (refl, refl, refl)

same_section :
    {A : Type 0} (section : Document → A) {policy default : PolicyRow}
    → ((policy.tenant_id == "") ≡ false) ⊎ (policy ≡ default)
    → ((policy.tenant_id == "") ≡ false)
      ⊎ (section (document_of policy) ≡ section (document_of default))
same_section section (inl e) = inl e
same_section section (inr e) = inr (ap (λ (row : PolicyRow). section (document_of row)) e)

-- The resolvers give a tenant what policy_loosening reads in the two documents, the policy in force
-- and the platform default: the stages of every tier and of vendors, one reviewer where there would
-- be none, the attestation and the coverage of every environment, and the intake fields. An open
-- material change is allowed nowhere.
pub resolvers_agree :
    (rows : List PolicyRow) (tenant : Option String) (name : String)
    → let body = document_of (active_policy rows tenant) in
      let default = document_of (platform_default rows) in
      ((resolve_tier_policy rows tenant name).entry ≡ with_reviewer (tier_entry body default name))
      × ((resolve_vendor_policy rows tenant).entry ≡ with_reviewer (vendor_entry body default))
      × ((resolve_gate_policy rows tenant name).require_attested_evals
          ≡ (gate_entry body default name).require_attested_evals)
      × ((resolve_gate_policy rows tenant name).min_control_coverage
          ≡ (gate_entry body default name).min_control_coverage)
      × ((resolve_gate_policy rows tenant name).max_open_material_changes ≡ 0)
      × (resolve_intake_fields rows tenant ≡ intake_fields body default)
unfolding resolve_tier_policy resolve_vendor_policy resolve_gate_policy resolve_intake_fields
    tier_entry vendor_entry gate_entry intake_fields
resolvers_agree rows tenant name =
    let policy = active_policy rows tenant in
    let default = platform_default rows in
    let from = active_policy-cases rows tenant in
    let (a, c, m) =
      gate_agrees (environment_entry (document_of policy) name)
        (environment_entry (document_of default) name) policy default in
    (
      section_agrees _ _ reviewer_entry policy default (same_section (tier_section name) from),
      section_agrees _ _ shipped_vendors policy default (same_section vendor_section from),
      a,
      c,
      m,
      refl,
    )

-- ===== src/Policy/Validation/Bounds.antt =====
-- The bounds that validation ensures of a whole document.
use norinth.Prelude.{
  Option, none, some, String, true, not, List, [], ◌∷◌, ◌≡◌, refl, sym, subst, ◌*◌, ◌≤◌, text_key,
  contains, length, Memᴰ, append-eq-nil, not_mem_nil,
}
use norinth.Prelude.Result.{ok}
use norinth.Json.{Json, get, get_object, get_natural, float_units}
use norinth.Policy.{
  StageEntry, GateEntry, Field, Document, risk_tiers, read_stage_entry, read_gate_entry, read_pairs,
  read_vendors, read_document,
}
use norinth.Policy.Errors.{Place, Fault, object_errors, object_checks, ◌also◌, error_if, unknown_in}
use norinth.Policy.FieldChecks.{validate_fields}
use norinth.Policy.Validation.{
  is_schema, validate_policy_body, body_checks, validate_intake, environments_errors,
  validate_environments, validate_gates, days_errors, validate_evidence, validate_vendors,
  where_given,
}
use norinth.Policy.TierChecks.{validate_recertify_days, tiers_checks, validate_tiers}
use norinth.Policy.Validation.Sound.{
  IsBetween, IsEntry, IsStageList, also_none, ok_none, no_error, mem_of_pairs,
  IsBetween-get_natural, members_checked, members_without, last_none, stages_valid, tiers_valid,
}
use norinth.Policy.Validation.Entries.{IsField, fields_of, IsGate, gates_valid, few_and_valid}

pub record IsValid (grants : List (String × String)) (d : Document) : Type 0 where
  pub tiers :
      (tier : String) (e : StageEntry)
      → Memᴰ (tier, e) d.tiers
      → (contains tier risk_tiers ≡ true) × IsEntry grants e
  pub vendors :
      (e : StageEntry)
      → d.vendors ≡ some e
      → IsStageList grants e.roles × IsBetween 30 3650 e.recertify_days
  pub environments :
      (environment : String) (e : GateEntry)
      → Memᴰ (environment, e) d.environments
      → (e.min_control_coverage ≤ 100 * float_units) × (e.max_open_material_changes ≤ 0)
  pub few_fields : length (fields_of d.fields) ≤ 20
  pub fields : (f : Field) → Memᴰ f (fields_of d.fields) → IsField f
  pub coverage_window_days : IsBetween 1 30 d.coverage_window_days
  pub stale_after_days : IsBetween 1 90 d.stale_after_days

-- A section that is missing has no entries, and the rest follows from its checks.
module _ (grants : List (String × String)) where
  tiers_of :
      (o : Option Json)
      → validate_tiers grants o ≡ ok []
      → (tier : String) (e : StageEntry)
      → Memᴰ (tier, e) (read_pairs read_stage_entry (get_object o))
      → (contains tier risk_tiers ≡ true) × IsEntry grants e
  tiers_of none h tier e m = absurd (not_mem_nil m)
  tiers_of (some j) h tier e m =
      let (entry, n, q) = mem_of_pairs read_stage_entry (get_object (some j)) m in
      let (a, b) =
        tiers_valid grants (get_object (some j))
          (members_checked Place.at_tiers (tiers_checks grants) j h) n in
      (a, subst (IsEntry grants) (sym q) b)

  vendors_of :
      (o : Option Json)
      → where_given (λ j. ok (object_errors Place.at_vendors (validate_vendors grants) j)) o ≡ ok []
      → (e : StageEntry) → read_vendors o ≡ some e
      → IsStageList grants e.roles × IsBetween 30 3650 e.recertify_days
  vendors_of none h e q = absurd (cc q)
  vendors_of (some j) h e q =
      let d = get_object (some j) in
      let errors = members_without Place.at_vendors (validate_vendors grants) j (ok_none h) in
      let (h₁, days) =
        append-eq-nil _ (validate_recertify_days Place.at_vendors (get d "recertify_days"))
          errors in
      let stages =
        last_none (unknown_in d ("stages" ∷ "recertify_days" ∷ []) Place.at_vendors) h₁ in
      let r : read_stage_entry j ≡ e = cc q in
      subst (λ (x : StageEntry). IsStageList grants x.roles × IsBetween 30 3650 x.recertify_days) r
        (
          stages_valid grants Place.at_vendors (get d "stages") stages,
          IsBetween-get_natural 30 3650 (get d "recertify_days") (no_error _ _ _ days),
        )

environments_of :
    (o : Option Json)
    → validate_environments o ≡ []
    → (environment : String) (e : GateEntry)
    → Memᴰ (environment, e) (read_pairs read_gate_entry (get_object o))
    → IsGate e
environments_of none h environment e m = absurd (not_mem_nil m)
environments_of (some j) h environment e m =
    let (entry, n, q) = mem_of_pairs read_gate_entry (get_object (some j)) m in
    subst IsGate (sym q) (
      gates_valid (get_object (some j))
        (members_without Place.at_environments environments_errors j h) n)

gates_of :
    (o : Option Json)
    → where_given (λ j. ok (object_errors Place.at_gates validate_gates j)) o ≡ ok []
    → validate_environments (get (get_object o) "environments") ≡ []
gates_of none h = refl
gates_of (some j) h =
    last_none (unknown_in (get_object (some j)) ("environments" ∷ []) Place.at_gates)
      (members_without Place.at_gates validate_gates j (ok_none h))

intake_of :
    (grants : List (String × String)) (o : Option Json)
    → where_given (object_checks Place.at_intake (validate_intake grants)) o ≡ ok []
    → (validate_tiers grants (get (get_object o) "tiers") ≡ ok [])
      × (validate_fields (get (get_object o) "fields") ≡ ok [])
intake_of grants none h = (refl, refl)
intake_of grants (some j) h =
    let d = get_object (some j) in
    let (h₁, fields) =
      also_none _ (validate_fields (get d "fields"))
        (members_checked Place.at_intake (validate_intake grants) j h) in
    let (_, tiers) =
      also_none (ok (unknown_in d ("tiers" ∷ "fields" ∷ []) Place.at_intake))
        (validate_tiers grants (get d "tiers")) h₁ in
    (tiers, fields)

evidence_of :
    (o : Option Json)
    → where_given (λ j. ok (object_errors Place.at_evidence validate_evidence j)) o ≡ ok []
    → IsBetween 1 30 (get_natural (get (get_object o) "coverage_window_days"))
      × IsBetween 1 90 (get_natural (get (get_object o) "stale_after_days"))
evidence_of none h = (tt, tt)
evidence_of (some j) h =
    let d = get_object (some j) in
    let (h₁, stale) =
      append-eq-nil _ (days_errors 90 (get d "stale_after_days"))
        (members_without Place.at_evidence validate_evidence j (ok_none h)) in
    let window =
      last_none (unknown_in d ("coverage_window_days" ∷ "stale_after_days" ∷ []) Place.at_evidence)
        h₁ in
    (
      IsBetween-get_natural 1 30 (get d "coverage_window_days") (no_error _ _ _ window),
      IsBetween-get_natural 1 90 (get d "stale_after_days") (no_error _ _ _ stale),
    )

-- A body in which validate_policy_body finds nothing is read as a document within the bounds: every
-- tier is known and has between one and ten stages, each for a role that holds review.decide, and a
-- known mode; recertification is between 30 and 3650 days, for vendors too; coverage is at most 100
-- and no open material changes are let through; there are at most 20 fields, each of a known type,
-- at most 4000 long and required for known tiers; the evidence windows are at most 30 and 90 days.
pub validate_policy_body-IsValid :
    (grants : List (String × String)) (body : Json)
    → validate_policy_body grants body ≡ ok []
    → IsValid grants (read_document body)
unfolding validate_policy_body read_document
validate_policy_body-IsValid grants body h =
    let d = get_object (some body) in
    let (h₁, evidence) =
      also_none _
        (where_given (λ j. ok (object_errors Place.at_evidence validate_evidence j))
          (get d "evidence"))
        (members_checked Place.at_body (body_checks grants) body h) in
    let (h₂, vendors) =
      also_none _
        (where_given (λ j. ok (object_errors Place.at_vendors (validate_vendors grants) j))
          (get d "vendors"))
        h₁ in
    let (h₃, gates) =
      also_none _
        (where_given (λ j. ok (object_errors Place.at_gates validate_gates j)) (get d "gates"))
        h₂ in
    let (_, intake) =
      also_none
        (ok (error_if (not (is_schema (get d "schema"))) Place.at_body Fault.wrong_schema)
          also ok (
              unknown_in d ("schema" ∷ "intake" ∷ "gates" ∷ "vendors" ∷ "evidence" ∷ [])
                Place.at_body))
        (where_given (object_checks Place.at_intake (validate_intake grants)) (get d "intake"))
        h₃ in
    let (tiers, fields) = intake_of grants (get d "intake") intake in
    let (few, each) = few_and_valid (get (get_object (get d "intake")) "fields") fields in
    let (window, stale) = evidence_of (get d "evidence") evidence in
    record {
      tiers = tiers_of grants (get (get_object (get d "intake")) "tiers") tiers;
      vendors = vendors_of grants (get d "vendors") vendors;
      environments =
          environments_of (get (get_object (get d "gates")) "environments")
            (gates_of (get d "gates") gates);
      few_fields = few;
      fields = each;
      coverage_window_days = window;
      stale_after_days = stale;
    }

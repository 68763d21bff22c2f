-- ===== src/Policy/Validation/Entries.antt =====
-- What checks without errors say of the entries of environments and of the intake fields.
use Prim.Native.String.{count}
use native.Mathlib.Nat.{mul-le-mul_right}
use norinth.Prelude.{
  Option, none, some, String, true, false, not, ◌&&◌, ◌||◌, List, [], ◌∷◌, ◌++◌, ◌≡◌, inl, inr,
  refl, sym, subst, ℕ, suc, ◌*◌, ◌≤◌, text_key, if◌then◌else◌, contains, subset, all, map, leb, ltb,
  length, Memᴰ, arith, append-eq-nil, not_mem_nil, leb→le, two_branches, &&-eq-true,
}
use norinth.Prelude.Result.{ok}
use norinth.Json.{
  Json, null_value, boolean, integer, negative, float, other_float, text, array, object, item_list,
  member_list, get, get_object, get_list, get_natural, get_units, float_units,
}
use norinth.Policy.{
  GateEntry, Field, risk_tiers, read_gate_entry, read_field, read_text, read_fields, or_zero,
}
use norinth.Policy.Errors.{
  Place, Fault, Errors, object_errors, Checked, ◌also◌, error_if, unknown_in, is_none,
  is_int_between,
}
use norinth.Policy.FieldChecks.{
  field_types, label_checks, field_checks, fields_checks, validate_fields, key_check, is_tier_list,
  is_risk_tier,
}
use norinth.Policy.Validation.{
  is_percentage, environment_errors, environments_errors, material_change_errors,
}
use norinth.Policy.TierChecks.{one_of}
use norinth.Policy.Validation.Sound.{
  IsBetween, also_none, ok_none, no_error, IsBetween-get_natural, members_without, last_none, named,
  length-map,
}

pub record IsField (f : Field) : Type 0 where
  pub max_length : IsBetween 1 4000 f.max_length
  pub field_type : contains f.field_type field_types ≡ true
  pub required_tiers : subset f.required_tiers risk_tiers ≡ true

abbrev pub fields_of : Option (List Field) → List Field
fields_of none = []
fields_of (some fs) = fs

*-le : (n m u : ℕ) → n ≤ m → n * u ≤ m * u
*-le n m u h = mul-le-mul_right u h

percentage : (o : Option Json) → is_percentage o ≡ true → get_units o ≤ 100 * float_units
percentage none h = omega arith
percentage (some (integer n)) h = *-le n 100 float_units (leb→le n 100 h)
percentage (some (float u)) h = leb→le u (100 * float_units) h
percentage (some null_value) h = omega arith
percentage (some (boolean b)) h = omega arith
percentage (some (negative n)) h = omega arith
percentage (some other_float) h = omega arith
percentage (some (text s)) h = omega arith
percentage (some (array js)) h = omega arith
percentage (some (object ms)) h = omega arith

changes :
    (where_at : Place) (o : Option Json)
    → material_change_errors where_at o ≡ []
    → or_zero (get_natural o) ≤ 0
changes where_at none h = omega arith
changes where_at (some (integer n)) h =
    elim (two_branches (ltb 0 n) ((where_at, Fault.above_ceiling) ∷ []) [] [] h) [
      | inl (_, e) ↦ absurd (cc e)
      | inr (f, _) ↦ ltb-le n f
    ]
  where
    ltb-le : (n : ℕ) → ltb 0 n ≡ false → n ≤ 0
    ltb-le n h = ground arith
changes where_at (some (float u)) h = omega arith
changes where_at (some null_value) h = omega arith
changes where_at (some (boolean b)) h = omega arith
changes where_at (some (negative n)) h = omega arith
changes where_at (some other_float) h = omega arith
changes where_at (some (text s)) h = omega arith
changes where_at (some (array js)) h = omega arith
changes where_at (some (object ms)) h = omega arith

abbrev pub IsGate : GateEntry → Type 0
IsGate e = (e.min_control_coverage ≤ 100 * float_units) × (e.max_open_material_changes ≤ 0)

read_gate_entry-IsGate :
    (where_at : Place) (entry : Json)
    → object_errors where_at (environment_errors where_at) entry ≡ []
    → IsGate (read_gate_entry entry)
read_gate_entry-IsGate where_at entry h =
    let d = get_object (some entry) in
    let (h₁, max) =
      append-eq-nil _ (material_change_errors where_at (get d "max_open_material_changes"))
        (members_without where_at (environment_errors where_at) entry h) in
    let (h₂, _) =
      append-eq-nil
        (unknown_in d
            ("require_attested_evals" ∷ "max_open_material_changes" ∷ "min_control_coverage" ∷ [])
            where_at
          ++ error_if (not (is_percentage (get d "min_control_coverage"))) where_at
              Fault.bad_coverage)
        _ h₁ in
    (
      percentage (get d "min_control_coverage")
          (no_error _ where_at Fault.bad_coverage (last_none (unknown_in d _ where_at) h₂)),
      changes where_at (get d "max_open_material_changes") max,
    )

pub gates_valid :
    (d : List (String × Json)) {environment : String} {entry : Json}
    → environments_errors d ≡ []
    → Memᴰ (environment, entry) d
    → IsGate (read_gate_entry entry)
gates_valid [] h m = absurd (not_mem_nil m)
gates_valid ((k, j) ∷ d) {environment} {entry} h m =
    let place = Place.at_environment k in
    let (a, b) =
      append-eq-nil
        (if leb 1 (count k) && leb (count k) 100
          then object_errors place (environment_errors place) j
          else (Place.at_environments, Fault.bad_environment_name) ∷ [])
        _ h in
    elim m [
      | Memᴰ.head e ↦
          elim (two_branches (leb 1 (count k) && leb (count k) 100)
            (object_errors place (environment_errors place) j)
            ((Place.at_environments, Fault.bad_environment_name) ∷ []) [] a) [
              | inl (_, f) ↦
                  subst (λ x. IsGate (read_gate_entry (x.1))) (sym e)
                    (read_gate_entry-IsGate place j f)
              | inr (_, f) ↦ absurd (cc f)
            ]
      | Memᴰ.tail n ↦ gates_valid d b n
    ]

-- required_tiers names risk tiers.
tier_list :
    (js : List Json) → all is_risk_tier js ≡ true → subset (map read_text js) risk_tiers ≡ true
tier_list [] h = refl
tier_list (j ∷ js) h =
    let (a, b) = &&-eq-true (is_risk_tier j) _ h in
    let c = is_tier j a in let r = tier_list js b in rw c r
  where
    is_tier : (j : Json) → is_risk_tier j ≡ true → contains (read_text j) risk_tiers ≡ true
    is_tier (text s) h = h
    is_tier (float u) h = absurd (cc h)
    is_tier (integer n) h = absurd (cc h)
    is_tier null_value h = absurd (cc h)
    is_tier (boolean b) h = absurd (cc h)
    is_tier (negative n) h = absurd (cc h)
    is_tier other_float h = absurd (cc h)
    is_tier (array js) h = absurd (cc h)
    is_tier (object ms) h = absurd (cc h)

tiers_named :
    (o : Option Json)
    → is_tier_list o ≡ true
    → subset (map read_text (get_list o)) risk_tiers ≡ true
tiers_named none h = refl
tiers_named (some (array js)) h = tier_list (item_list js) h
tiers_named (some (text s)) h = refl
tiers_named (some (float u)) h = refl
tiers_named (some (integer n)) h = refl
tiers_named (some null_value) h = refl
tiers_named (some (boolean b)) h = refl
tiers_named (some (negative n)) h = refl
tiers_named (some other_float) h = refl
tiers_named (some (object ms)) h = refl

field-IsField :
    (index : ℕ) (field : Json) (key_errors : Errors)
    → field_checks index (get_object (some field)) key_errors ≡ ok []
    → IsField (read_field field)
field-IsField index field key_errors h =
    let d = get_object (some field) in
    let (h₁, tiers) =
      also_none _
        (ok (
          error_if (not (is_tier_list (get d "required_tiers"))) (Place.at_field index)
            Fault.bad_required_tiers))
        h in
    let (h₂, max) =
      also_none _
        (ok (
          error_if
            (not (is_none (get d "max_length") || is_int_between 1 4000 (get d "max_length")))
            (Place.at_field index) Fault.bad_max_length))
        h₁ in
    let (_, type) =
      also_none (label_checks index d key_errors)
        (one_of field_types (Place.at_field index) Fault.bad_type (get d "type")) h₂ in
    record {
      max_length = IsBetween-get_natural 1 4000 (get d "max_length") (no_error _ _ _ (ok_none max));
      field_type =
          named field_types (Place.at_field index) Fault.bad_type "string" (get d "type") refl type;
      required_tiers = tiers_named (get d "required_tiers") (no_error _ _ _ (ok_none tiers));
    }

not_object : (p : Place × Fault) (c : Checked) → (ok (p ∷ []) also c) ≡ ok [] → ⊥
not_object p c h = let (a, _) = also_none (ok (p ∷ [])) c h in cc a

fields_valid :
    (index : ℕ) (seen : List String) (js : List Json) {f : Field}
    → fields_checks index seen js ≡ ok []
    → Memᴰ f (map read_field js)
    → IsField f
fields_valid index seen [] h m = absurd (not_mem_nil m)
fields_valid index seen (object ms ∷ js) {f} h m =
    let (errors, seen') = key_check index seen (get (member_list ms) "key") in
    let (a, b) =
      also_none
        (field_checks index (member_list ms) (key_check index seen (get (member_list ms) "key")).0)
        _ h in
    elim m [
      | Memᴰ.head e ↦ subst IsField (sym e) (field-IsField index (object ms) _ a)
      | Memᴰ.tail n ↦ fields_valid (suc index) _ js b n
    ]
fields_valid index seen (null_value ∷ js) h m =
    absurd (not_object (Place.at_field index, Fault.not_an_object) _ h)
fields_valid index seen (boolean b ∷ js) h m =
    absurd (not_object (Place.at_field index, Fault.not_an_object) _ h)
fields_valid index seen (integer n ∷ js) h m =
    absurd (not_object (Place.at_field index, Fault.not_an_object) _ h)
fields_valid index seen (negative n ∷ js) h m =
    absurd (not_object (Place.at_field index, Fault.not_an_object) _ h)
fields_valid index seen (float u ∷ js) h m =
    absurd (not_object (Place.at_field index, Fault.not_an_object) _ h)
fields_valid index seen (other_float ∷ js) h m =
    absurd (not_object (Place.at_field index, Fault.not_an_object) _ h)
fields_valid index seen (text s ∷ js) h m =
    absurd (not_object (Place.at_field index, Fault.not_an_object) _ h)
fields_valid index seen (array items ∷ js) h m =
    absurd (not_object (Place.at_field index, Fault.not_an_object) _ h)

pub few_and_valid :
    (o : Option Json)
    → validate_fields o ≡ ok []
    → (length (fields_of (read_fields o)) ≤ 20)
      × ((f : Field) → Memᴰ f (fields_of (read_fields o)) → IsField f)
few_and_valid none h = (omega arith, λ f m. absurd (not_mem_nil m))
few_and_valid (some (array js)) h =
    elim (two_branches (ltb 20 (length (item_list js)))
      (ok ((Place.at_fields, Fault.too_many_fields) ∷ [])) (fields_checks 0 [] (item_list js))
      (ok []) h) [
        | inl (_, e) ↦ absurd (cc e)
        | inr (few, e) ↦ (
          subst (λ n. n ≤ 20) (sym (length-map read_field (item_list js))) (ltb-le _ few),
          λ f m. fields_valid 0 [] (item_list js) e m,
        )
      ]
  where
    ltb-le : (n : ℕ) → ltb 20 n ≡ false → n ≤ 20
    ltb-le n h = ground arith
few_and_valid (some null_value) h = absurd (cc h)
few_and_valid (some (boolean b)) h = absurd (cc h)
few_and_valid (some (integer n)) h = absurd (cc h)
few_and_valid (some (negative n)) h = absurd (cc h)
few_and_valid (some (float u)) h = absurd (cc h)
few_and_valid (some other_float) h = absurd (cc h)
few_and_valid (some (text s)) h = absurd (cc h)
few_and_valid (some (object ms)) h = absurd (cc h)

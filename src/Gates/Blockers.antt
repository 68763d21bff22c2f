-- ===== src/Gates/Blockers.antt =====
-- The blockers that a gate shows, and the guards of its approval.
use norinth.Prelude.{
  append-eq-nil, Bool, true, false, not, ◌||◌, [], ◌==◌, ◌≡◌, ◌↔◌, refl, text_key, option_key,
  number_key, if◌then◌else◌, ltb,
}
use norinth.Prelude.Result.{Result, ok, err}
use norinth.Gates.{GateEvidence, GateError, Blocker, part, gate_required_reason, check_evidence}

part_nil : (t : Bool) (b : Blocker) → part t b ≡ [] → t ≡ false
part_nil true b h = absurd (cc)
part_nil false b h = refl

-- No guard of an approval fails.
pub record IsClear (e : GateEvidence) : Type 0 where
  pub no_risk : ltb 0 e.risk_count ≡ false
  pub no_missing_control : ltb 0 e.missing_control_count ≡ false
  pub no_undercovered : ltb 0 e.undercovered_control_count ≡ false
  pub few_changes : ltb e.max_open_material_changes e.material_change_count ≡ false
  pub prompt_linked : not (e.prompt_evidence_status == "linked") ≡ false
  pub has_eval : (e.passing_eval_count == 0) ≡ false

no_blockers : (e : GateEvidence) → gate_required_reason e ≡ [] → IsClear e
unfolding gate_required_reason
no_blockers e h =
    let (h₁, g) = append-eq-nil _ (part (e.passing_eval_count == 0) _) h in
    let (h₂, f) = append-eq-nil _ (part (not (e.prompt_evidence_status == "linked")) _) h₁ in
    let (h₃, d) =
      append-eq-nil _ (part (ltb e.max_open_material_changes e.material_change_count) _) h₂ in
    let (h₄, c) = append-eq-nil _ (part (ltb 0 e.undercovered_control_count) _) h₃ in
    let (a, b) = append-eq-nil _ (part (ltb 0 e.missing_control_count) _) h₄ in
    record {
      no_risk = part_nil _ _ a;
      no_missing_control = part_nil _ _ b;
      no_undercovered = part_nil _ _ c;
      few_changes = part_nil _ _ d;
      prompt_linked = part_nil _ _ f;
      has_eval = part_nil _ _ g;
    }

blockers_of_IsClear : (e : GateEvidence) → IsClear e → gate_required_reason e ≡ []
unfolding gate_required_reason
blockers_of_IsClear e c =
    rw (
      c.no_risk, c.no_missing_control, c.no_undercovered, c.few_changes, c.prompt_linked,
      c.has_eval,
    )

guards_passed :
    (p z a b c d : Bool) (x₁ x₂ x₃ x₄ x₅ : GateError)
    → ◌≡◌ {A = Result GateError Unit}
        (if p || z
          then err x₁
          else if a
          then err x₂
          else if b
          then err x₃
          else if c
          then err x₄
          else if d
          then err x₅
          else ok tt)
        (ok tt)
    → (p ≡ false) × (z ≡ false) × (a ≡ false) × (b ≡ false) × (c ≡ false) × (d ≡ false)
guards_passed true z a b c d x₁ x₂ x₃ x₄ x₅ h = absurd (cc h)
guards_passed false true a b c d x₁ x₂ x₃ x₄ x₅ h = absurd (cc h)
guards_passed false false true b c d x₁ x₂ x₃ x₄ x₅ h = absurd (cc h)
guards_passed false false false true c d x₁ x₂ x₃ x₄ x₅ h = absurd (cc h)
guards_passed false false false false true d x₁ x₂ x₃ x₄ x₅ h = absurd (cc h)
guards_passed false false false false false true x₁ x₂ x₃ x₄ x₅ h = absurd (cc h)
guards_passed false false false false false false x₁ x₂ x₃ x₄ x₅ h =
    (refl, refl, refl, refl, refl, refl)

pub IsClear-of_check : (e : GateEvidence) → check_evidence e ≡ ok tt → IsClear e
unfolding check_evidence
IsClear-of_check e h =
    let (p, z, a, b, c, d) = guards_passed _ _ _ _ _ _ _ _ _ _ _ h in
    record {
      no_risk = a;
      no_missing_control = b;
      no_undercovered = c;
      few_changes = d;
      prompt_linked = p;
      has_eval = z;
    }

pub check_of_IsClear : (e : GateEvidence) → IsClear e → check_evidence e ≡ ok tt
unfolding check_evidence
check_of_IsClear e c =
    rw (
      c.prompt_linked, c.has_eval, c.no_risk, c.no_missing_control, c.no_undercovered,
      c.few_changes,
    )

-- The guards of an approval let exactly the evidence pass for which the reviewer is shown no blocker.
pub check_evidence-iff-no_blockers :
    (e : GateEvidence) → (check_evidence e ≡ ok tt) ↔ (gate_required_reason e ≡ [])
check_evidence-iff-no_blockers e =
    (λ h. blockers_of_IsClear e (IsClear-of_check e h), λ h. check_of_IsClear e (no_blockers e h))

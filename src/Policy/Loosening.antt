-- ===== src/Policy/Loosening.antt =====
-- policy_loosening of policy_engine.py: the ways in which a document is less strict than another.
pub mod Strict
use norinth.Prelude.{
  Option, none, some, String, Bool, true, false, not, ◌&&◌, ◌||◌, List, [], ◌∷◌, ◌++◌, ◌==◌, ℕ,
  text_key, if◌then◌else◌, ltb, keys, contains, subset,
}
use norinth.Policy.{StageEntry, GateEntry, Field, Document, risk_tiers}
use norinth.Policy.Resolve.{
  EvidenceSettings, evidence_settings, tier_entry, vendor_entry, gate_entry, intake_fields,
}

-- The reasons, with the section that they name.
pub data LooseningReason : Type 0 where
  stage_removed : String → LooseningReason
  recertified_less : String → LooseningReason
  attestation_dropped : String → LooseningReason
  coverage_lower : String → LooseningReason
  stale_later : LooseningReason
  window_longer : LooseningReason
  field_removed : String → LooseningReason
  field_required_less : String → LooseningReason

abbrev pub reason_if : Bool → LooseningReason → List LooseningReason
reason_if test r = if test then r ∷ [] else []

-- remaining.remove(role), on a list that has the role.
abbrev pub remove_role : String → List String → List String
remove_role role [] = []
remove_role role (r ∷ rs) = let rest = remove_role role rs in if r == role then rs else r ∷ rest

-- _stages_loosened: an old role is gone, counted with multiplicity.
abbrev pub roles_loosened : List String → List String → Bool
roles_loosened [] remaining = false
roles_loosened (role ∷ old) remaining =
    if contains role remaining then roles_loosened old (remove_role role remaining) else true

abbrev pub recertify_loosened : Option ℕ → Option ℕ → Bool
recertify_loosened none after = false
recertify_loosened (some before) none = true
recertify_loosened (some before) (some after) = ltb before after

abbrev pub entry_reasons : String → StageEntry → StageEntry → List LooseningReason
entry_reasons section old new =
    reason_if (roles_loosened old.roles new.roles) (stage_removed section)
    ++ reason_if (recertify_loosened old.recertify_days new.recertify_days)
        (recertified_less section)

abbrev pub gate_reasons : String → GateEntry → GateEntry → List LooseningReason
gate_reasons environment old new =
    reason_if (old.require_attested_evals && not new.require_attested_evals)
      (attestation_dropped environment)
    ++ reason_if (ltb new.min_control_coverage old.min_control_coverage)
        (coverage_lower environment)

-- The reasons of a loop, in its order.
abbrev pub for_each : {A : Type 0} → (A → List LooseningReason) → List A → List LooseningReason
for_each reasons [] = []
for_each reasons (x ∷ xs) = reasons x ++ for_each reasons xs

-- new_fields.get(key) on the dictionary by key: the last field of a key is the one it holds.
abbrev pub or_this : Option Field → Field → String → Option Field
or_this (some g) f key = some g
or_this none f key = if f.key == key then some f else none

abbrev pub field_of : String → List Field → Option Field
field_of key [] = none
field_of key (f ∷ fs) = or_this (field_of key fs) f key

abbrev pub replacement_reasons : Field → Option Field → List LooseningReason
replacement_reasons f none = field_removed f.key ∷ []
replacement_reasons f (some g) =
    reason_if (not (subset f.required_tiers g.required_tiers)) (field_required_less f.key)

abbrev pub evidence_reasons : EvidenceSettings → EvidenceSettings → List LooseningReason
evidence_reasons old new =
    reason_if (ltb old.stale_after_days new.stale_after_days) stale_later
    ++ reason_if (ltb old.coverage_window_days new.coverage_window_days) window_longer

-- The names that a document gives requirements for, and "*". The code goes through the set of them in
-- alphabetical order.
abbrev pub all_environments : Document → Document → Document → List String
all_environments old new default =
    "*" ∷ keys old.environments ++ keys new.environments ++ keys default.environments

unfoldable pub policy_loosening : Document → Document → Document → List LooseningReason
policy_loosening old new default =
    for_each
      (λ tier. entry_reasons tier (tier_entry old default tier) (tier_entry new default tier))
      risk_tiers
    ++ entry_reasons "vendors" (vendor_entry old default) (vendor_entry new default)
    ++ for_each (λ e. gate_reasons e (gate_entry old default e) (gate_entry new default e))
        (all_environments old new default)
    ++ evidence_reasons (evidence_settings old default) (evidence_settings new default)
    ++ for_each (λ f. replacement_reasons f (field_of f.key (intake_fields new default)))
        (intake_fields old default)

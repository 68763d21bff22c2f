-- ===== src/Gates/Examples.antt =====
-- A release that is observed, evaluated and approved.
use norinth.Prelude.{
  none, some, true, false, [], ◌∷◌, ◌≡◌, ◌↔◌, ◌⊎◌, refl, sym, Memᴰ, not_mem_nil, ◌==◌, ◌∙◌,
  text_key, option_key,
}
use norinth.Prelude.Result.{ok}
use norinth.Gates.{
  Version, PromptVersion, ObservedEvent, Gate, GateDb, GateRules, check_evidence,
  gate_required_reason, live_gate_evidence, gate_evidence_counts, find_prompt_version,
  count_passing_eval_evidence, upsert_deployment_gate, set_deployment_gate_status, new_gate,
}
use norinth.Gates.Blockers.{check_evidence-iff-no_blockers}
use norinth.Gates.Evidence.{IsEvidence, check_evidence-event}
use norinth.Gates.History.{
  IsUnique, GateStep, observed, decided, GateSteps, none_yet, after, SameDecision,
}
use norinth.Gates.Approved.{WasApproved, decided_gate_is_final, approved_gate_was_checked}

abbrev release : Version
release = record {
  version_id = "v1";
  deployment_id = "d1";
  tenant_id = some "acme";
  project = "claims";
  environment = "prod";
  application_name = "triage";
  workflow_name = "sort";
  prompt_version = some "3";
  artifact_ref = none;
}

abbrev prompt : PromptVersion
prompt = record {
  prompt_version_id = "p3";
  tenant_id = some "acme";
  project = "claims";
  environment = "prod";
  application_name = "triage";
  workflow_name = "sort";
  version = "3";
  observed_at = 7;
}

abbrev eval_result : ObservedEvent
eval_result = record {
  entity_type = "eval.result";
  tenant_id = some "acme";
  project = "claims";
  environment = "prod";
  application_name = "triage";
  workflow_name = "sort";
  status = "success";
  attributes =
      some (record {
        passed = true;
        attested = false;
        artifact_ref = none;
        prompt_version = some "3";
      });
}

-- No policy asks for more than the defaults, and the key of a gate is that of its version.
abbrev pub rules : GateRules
rules = record {
  resolve_gate_policy = λ tenant environment. record {
    require_attested_evals = false;
    max_open_material_changes = 0;
    min_control_coverage = 0;
    policy_tenant = "";
    policy_version = 1;
  };
  tenant_requires_attestation = λ tenant. false;
  count_undercovered_controls = λ db v minimum. 0;
  gate_key = λ id. id;
  is_blank = λ text. text == "";
}

abbrev start : GateDb
start = record {
  gates = [];
  versions = release ∷ [];
  risks = [];
  controls = [];
  changes = [];
  prompts = prompt ∷ [];
  events = eval_result ∷ [];
}

abbrev pub waiting : Gate
waiting = record (new_gate rules release) {
  prompt_version_id = some "p3";
  prompt_evidence_status = "linked";
  passing_eval_count = 1;
  policy_tenant = some "";
  policy_version = some 1;
}

abbrev approved_gate : Gate
approved_gate = record waiting {
  gate_status = "approved";
  actor_ref = some "ann";
  rationale = some "evals are in";
}

abbrev pub pending : GateDb
pending = record start { gates = waiting ∷ [] }

abbrev released : GateDb
released = record start { gates = approved_gate ∷ [] }

step_observed : GateStep rules start pending
unfolding upsert_deployment_gate gate_evidence_counts find_prompt_version
    count_passing_eval_evidence gate_required_reason
step_observed = observed release refl

step_decided : GateStep rules pending released
unfolding set_deployment_gate_status check_evidence live_gate_evidence gate_evidence_counts
    find_prompt_version count_passing_eval_evidence gate_required_reason
step_decided = decided "v1" "approved" "ann" "evals are in" refl

history : GateSteps rules start released
history = after (after none_yet step_observed) step_decided

approved_gate_was_checked_example :
    ((g : Gate) × Memᴰ g start.gates × (g.gate_id ≡ "v1") × (g.gate_status ≡ "approved"))
    ⊎ WasApproved rules start "v1"
approved_gate_was_checked_example =
    approved_gate_was_checked rules approved_gate history (Memᴰ.head refl) refl

one_gate : IsUnique released.gates
one_gate a b (Memᴰ.head e) (Memᴰ.head f) k = e ∙ sym f
one_gate a b (Memᴰ.head e) (Memᴰ.tail n) k = absurd (not_mem_nil n)
one_gate a b (Memᴰ.tail m) n k = absurd (not_mem_nil m)

-- The version is observed again after the approval.
step_again : GateStep rules released (upsert_deployment_gate rules released release)
step_again = observed release refl

decided_gate_is_final_example :
    (g : Gate) × Memᴰ g (upsert_deployment_gate rules released release).gates
    × SameDecision rules approved_gate g
decided_gate_is_final_example =
    decided_gate_is_final rules approved_gate one_gate (Memᴰ.head refl) refl
      (after none_yet step_again)

check_evidence-iff-no_blockers_example :
    (check_evidence (live_gate_evidence rules pending waiting) ≡ ok tt)
    ↔ (gate_required_reason (live_gate_evidence rules pending waiting) ≡ [])
check_evidence-iff-no_blockers_example =
    check_evidence-iff-no_blockers (live_gate_evidence rules pending waiting)

passes : check_evidence (live_gate_evidence rules pending waiting) ≡ ok tt
unfolding check_evidence live_gate_evidence gate_evidence_counts find_prompt_version
    count_passing_eval_evidence
passes = refl

check_evidence-event_example : (e : ObservedEvent) × IsEvidence pending waiting false e
check_evidence-event_example = check_evidence-event rules pending waiting passes

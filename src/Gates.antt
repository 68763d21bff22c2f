-- ===== src/Gates.antt =====
-- The approval gates of deployments, apps/platform/app/storage/deployments.py: the evidence for a
-- gate, the gate that a deployed version gets, and the decision on it.
pub mod Blockers
pub mod Evidence
pub mod History
pub mod Approved
pub mod Examples
use norinth.Prelude.{
  Option, none, some, String, Bool, true, false, not, ◌&&◌, ◌||◌, List, [], ◌∷◌, ◌++◌, ◌==◌, ℕ,
  text_key, option_key, number_key, if◌then◌else◌, contains, any, filter, find, ltb, length,
  update_where,
}
use norinth.Prelude.Result.{Result, ok, err, ◌>>=◌, ◌>>◌}
use norinth.Auth.{truthy}

-- A row of deployment_versions, or the parameters that gate_evidence_counts makes of one.
pub record Version : Type 0 where
  pub version_id : String
  pub deployment_id : String
  pub tenant_id : Option String
  pub project : String
  pub environment : String
  pub application_name : String
  pub workflow_name : String
  pub prompt_version : Option String
  pub artifact_ref : Option String

-- A row of risk_findings, control_assessments or change_events.
pub record ScopedRow : Type 0 where
  pub tenant_id : Option String
  pub project : String
  pub environment : String
  pub application_name : String
  pub status : String

-- A row of prompt_versions, with observed_at as a number.
pub record PromptVersion : Type 0 where
  pub prompt_version_id : String
  pub tenant_id : Option String
  pub project : String
  pub environment : String
  pub application_name : String
  pub workflow_name : String
  pub version : String
  pub observed_at : ℕ

-- What count_passing_eval_evidence reads of an event's attributes: `is True` for the two flags.
pub record EvalAttributes : Type 0 where
  pub passed : Bool
  pub attested : Bool
  pub artifact_ref : Option String
  pub prompt_version : Option String

-- A row of governance_observed_events. Attributes that are no JSON are none.
pub record ObservedEvent : Type 0 where
  pub entity_type : String
  pub tenant_id : Option String
  pub project : String
  pub environment : String
  pub application_name : String
  pub workflow_name : String
  pub status : String
  pub attributes : Option EvalAttributes

-- The answer of resolve_gate_policy; the minimum is a number of parts of a fixed unit.
pub record Requirements : Type 0 where
  pub require_attested_evals : Bool
  pub max_open_material_changes : ℕ
  pub min_control_coverage : ℕ
  pub policy_tenant : String
  pub policy_version : ℕ

pub record GateEvidence : Type 0 where
  pub risk_count : ℕ
  pub missing_control_count : ℕ
  pub material_change_count : ℕ
  pub prompt_version_id : Option String
  pub prompt_evidence_status : String
  pub passing_eval_count : ℕ
  pub require_attested_evals : Bool
  pub max_open_material_changes : ℕ
  pub min_control_coverage : ℕ
  pub undercovered_control_count : ℕ
  pub policy_tenant : String
  pub policy_version : ℕ

-- The parts that gate_required_reason joins. No part is "No blocking governance evidence detected".
pub data Blocker : Type 0 where
  open_risk_findings missing_controls undercovered_controls material_changes : ℕ → Blocker
  missing_prompt_version : Blocker
  missing_eval_evidence : Bool → Blocker

-- A row of deployment_approval_gates.
pub record Gate : Type 0 where
  pub gate_id : String
  pub version_id : String
  pub tenant_id : Option String
  pub project : String
  pub environment : String
  pub application_name : String
  pub workflow_name : String
  pub gate_status : String
  pub required_reason : List Blocker
  pub risk_count : ℕ
  pub missing_control_count : ℕ
  pub material_change_count : ℕ
  pub prompt_version_id : Option String
  pub prompt_evidence_status : String
  pub passing_eval_count : ℕ
  pub undercovered_control_count : ℕ
  pub policy_tenant : Option String
  pub policy_version : Option ℕ
  pub actor_ref : Option String
  pub rationale : Option String

-- The tables that the gates read, and their own.
pub record GateDb : Type 0 where
  pub gates : List Gate
  pub versions : List Version
  pub risks : List ScopedRow
  pub controls : List ScopedRow
  pub changes : List ScopedRow
  pub prompts : List PromptVersion
  pub events : List ObservedEvent

-- RecordNotFound and DomainError, by what raises them.
pub data GateError : Type 0 where
  gate_not_found : GateError
  already_decided : String → GateError
  no_bound_evidence : Bool → GateError
  open_risks controls_missing controls_undercovered changes_unreviewed rationale_required :
      GateError

-- The columns that every scoped query compares; SQL's NULL matches NULL only by the clause for it.
abbrev pub in_scope : Version → Option String → String → String → String → Bool
in_scope v tenant project environment application =
    project == v.project
    && environment == v.environment
    && application == v.application_name
    && tenant == v.tenant_id

abbrev pub in_version_scope : Version → ScopedRow → Bool
in_version_scope v r = in_scope v r.tenant_id r.project r.environment r.application_name

abbrev pub count_scoped : List ScopedRow → List String → Version → ℕ
count_scoped rows statuses v =
    length (filter (λ r. in_version_scope v r && contains r.status statuses) rows)

abbrev pub is_prompt_of : Version → PromptVersion → Bool
is_prompt_of v p =
    in_scope v p.tenant_id p.project p.environment p.application_name
    && p.workflow_name == v.workflow_name
    && some p.version == v.prompt_version

-- ORDER BY observed_at DESC LIMIT 1
abbrev pub latest : PromptVersion → List PromptVersion → PromptVersion
latest p [] = p
latest p (q ∷ qs) = if ltb p.observed_at q.observed_at then latest q qs else latest p qs

abbrev first_or_none : List PromptVersion → Option PromptVersion
first_or_none [] = none
first_or_none (p ∷ ps) = some (latest p ps)

unfoldable pub find_prompt_version : List PromptVersion → Version → Option PromptVersion
find_prompt_version prompts v =
    if truthy v.prompt_version then first_or_none (filter (is_prompt_of v) prompts) else none

-- The rows that the query of count_passing_eval_evidence selects.
abbrev pub is_eval_of : Version → ObservedEvent → Bool
is_eval_of v e =
    e.entity_type == "eval.result"
    && in_scope v e.tenant_id e.project e.environment e.application_name
    && e.workflow_name == v.workflow_name
    && e.status == "success"

-- The eval is about this release: its artifact, or its prompt version if it names no artifact.
abbrev pub is_bound : Option String → Option String → Version → Bool
is_bound (some a) p v = v.artifact_ref == some a
is_bound none (some p) v = v.prompt_version == some p
is_bound none none v = false

-- The tests in the loop of count_passing_eval_evidence.
abbrev pub counts_as_evidence : Version → Bool → Option EvalAttributes → Bool
counts_as_evidence v require_attested none = false
counts_as_evidence v require_attested (some a) =
    if not a.passed
    then false
    else if require_attested && not a.attested
    then false
    else is_bound a.artifact_ref a.prompt_version v

unfoldable pub count_passing_eval_evidence : List ObservedEvent → Version → Bool → ℕ
count_passing_eval_evidence events v require_attested = length (
    filter (λ e. counts_as_evidence v require_attested e.attributes) (filter (is_eval_of v) events))

abbrev pub part : Bool → Blocker → List Blocker
part test b = if test then b ∷ [] else []

pub gate_required_reason : GateEvidence → List Blocker
gate_required_reason e =
    part (ltb 0 e.risk_count) (open_risk_findings e.risk_count)
    ++ part (ltb 0 e.missing_control_count) (missing_controls e.missing_control_count)
    ++ part (ltb 0 e.undercovered_control_count)
        (undercovered_controls e.undercovered_control_count)
    ++ part (ltb e.max_open_material_changes e.material_change_count)
        (material_changes e.material_change_count)
    ++ part (not (e.prompt_evidence_status == "linked")) missing_prompt_version
    ++ part (e.passing_eval_count == 0) (missing_eval_evidence e.require_attested_evals)

-- The guards of an approval in set_deployment_gate_status.
unfoldable pub check_evidence : GateEvidence → Result GateError Unit
check_evidence e =
    if not (e.prompt_evidence_status == "linked") || e.passing_eval_count == 0
    then err (no_bound_evidence e.require_attested_evals)
    else if ltb 0 e.risk_count
    then err open_risks
    else if ltb 0 e.missing_control_count
    then err controls_missing
    else if ltb 0 e.undercovered_control_count
    then err controls_undercovered
    else if ltb e.max_open_material_changes e.material_change_count
    then err changes_unreviewed
    else ok tt

-- The columns of a gate that hold its evidence.
abbrev pub with_evidence : GateEvidence → Gate → Gate
with_evidence e g = record g {
  required_reason = gate_required_reason e;
  risk_count = e.risk_count;
  missing_control_count = e.missing_control_count;
  material_change_count = e.material_change_count;
  prompt_version_id = e.prompt_version_id;
  prompt_evidence_status = e.prompt_evidence_status;
  passing_eval_count = e.passing_eval_count;
  policy_tenant = some e.policy_tenant;
  policy_version = some e.policy_version;
  undercovered_control_count = e.undercovered_control_count;
}

abbrev pub is_decided_gate : Gate → Bool
is_decided_gate g = contains g.gate_status ("approved" ∷ "rejected" ∷ [])

abbrev pub store_evidence : Option GateEvidence → Gate → Gate
store_evidence none g = g
store_evidence (some e) g = with_evidence e g

abbrev pub decided_gate : String → String → String → Gate → Gate
decided_gate status actor rationale g = record g {
  gate_status = status;
  actor_ref = some actor;
  rationale = some rationale;
}

-- What the gates take of the other parts: the policy's requirements for an environment, the
-- tenants that registered an attestation key, the count of controls below the minimum coverage,
-- entity_id("deployment-gate", version_id), and the test `not rationale.strip()`.
pub record GateRules : Type 0 where
  pub resolve_gate_policy : Option String → String → Requirements
  pub tenant_requires_attestation : Option String → Bool
  pub count_undercovered_controls : GateDb → Version → ℕ → ℕ
  pub gate_key : String → String
  pub is_blank : String → Bool

module _ (rules : GateRules) where
  unfoldable pub gate_evidence_counts : GateDb → Version → GateEvidence
  unfolding find_prompt_version count_passing_eval_evidence
  gate_evidence_counts db v =
      let requirements = rules.resolve_gate_policy v.tenant_id v.environment in
      let attested =
        requirements.require_attested_evals || rules.tenant_requires_attestation v.tenant_id in
      let prompt = find_prompt_version db.prompts v in
      record {
        risk_count = count_scoped db.risks ("open" ∷ "mitigation_required" ∷ []) v;
        missing_control_count = count_scoped db.controls ("missing" ∷ []) v;
        material_change_count = count_scoped db.changes ("open" ∷ []) v;
        prompt_version_id = elim prompt [ none ↦ none | some p ↦ some p.prompt_version_id ];
        prompt_evidence_status = elim prompt [ none ↦ "missing" | some p ↦ "linked" ];
        passing_eval_count = count_passing_eval_evidence db.events v attested;
        require_attested_evals = attested;
        max_open_material_changes = requirements.max_open_material_changes;
        min_control_coverage = requirements.min_control_coverage;
        undercovered_control_count =
            if ltb 0 requirements.min_control_coverage
            then rules.count_undercovered_controls db v requirements.min_control_coverage
            else 0;
        policy_tenant = requirements.policy_tenant;
        policy_version = requirements.policy_version;
      }

  -- The parameters of a gate: the gate's scope, and its version's prompt and artifact if the
  -- version is there.
  abbrev pub gate_params : GateDb → Gate → Version
  gate_params db g =
      let version = find (λ (v : Version). v.version_id == g.version_id) db.versions in
      record {
        version_id = g.version_id;
        deployment_id = "";
        tenant_id = g.tenant_id;
        project = g.project;
        environment = g.environment;
        application_name = g.application_name;
        workflow_name = g.workflow_name;
        prompt_version = elim version [ none ↦ none | some v ↦ v.prompt_version ];
        artifact_ref = elim version [ none ↦ none | some v ↦ v.artifact_ref ];
      }

  unfoldable pub live_gate_evidence : GateDb → Gate → GateEvidence
  unfolding gate_evidence_counts
  live_gate_evidence db g = gate_evidence_counts db (gate_params db g)

  abbrev pub new_gate : Version → Gate
  new_gate v = record {
    gate_id = rules.gate_key v.version_id;
    version_id = v.version_id;
    tenant_id = v.tenant_id;
    project = v.project;
    environment = v.environment;
    application_name = v.application_name;
    workflow_name = v.workflow_name;
    gate_status = "pending_review";
    required_reason = [];
    risk_count = 0;
    missing_control_count = 0;
    material_change_count = 0;
    prompt_version_id = none;
    prompt_evidence_status = "missing";
    passing_eval_count = 0;
    undercovered_control_count = 0;
    policy_tenant = none;
    policy_version = none;
    actor_ref = none;
    rationale = none;
  }

  abbrev pub kept_status : Option Gate → String
  kept_status none = "pending_review"
  kept_status (some g) = if is_decided_gate g then g.gate_status else "pending_review"

  pub upsert_deployment_gate : GateDb → Version → GateDb
  unfolding gate_evidence_counts
  upsert_deployment_gate db v =
      let evidence = gate_evidence_counts db v in
      let has_key = λ (g : Gate). g.gate_id == rules.gate_key v.version_id in
      let status = kept_status (find has_key db.gates) in
      record db {
        gates =
            if any has_key db.gates
            then update_where has_key
                (λ g. with_evidence evidence (record g { gate_status = status })) db.gates
            else db.gates
              ++ with_evidence evidence (record (new_gate v) { gate_status = status }) ∷ [];
      }

  abbrev pub needed_evidence : GateDb → Gate → String → Result GateError (Option GateEvidence)
  unfolding live_gate_evidence check_evidence
  needed_evidence db g status =
      if status == "approved"
      then check_evidence (live_gate_evidence db g) >> ok (some (live_gate_evidence db g))
      else ok none

  -- The UPDATE statements, behind the test of the rationale.
  abbrev pub store_decided :
      GateDb → String → String → String → String → Option GateEvidence → Result GateError GateDb
  store_decided db gate_id status actor rationale evidence =
      if rules.is_blank rationale
      then err rationale_required
      else ok (record db {
        gates =
            update_where (λ (r : Gate). r.gate_id == gate_id)
              (λ (r : Gate). decided_gate status actor rationale (store_evidence evidence r))
              db.gates;
      })

  abbrev pub decide_gate :
      GateDb → String → String → String → String → Option Gate → Result GateError GateDb
  decide_gate db gate_id status actor rationale none = err gate_not_found
  decide_gate db gate_id status actor rationale (some g) =
      if is_decided_gate g
      then err (already_decided g.gate_status)
      else needed_evidence db g status >>= store_decided db gate_id status actor rationale

  pub set_deployment_gate_status :
      GateDb → String → String → String → String → Result GateError GateDb
  set_deployment_gate_status db gate_id status actor rationale =
      decide_gate db gate_id status actor rationale
        (find (λ (g : Gate). g.gate_id == gate_id) db.gates)

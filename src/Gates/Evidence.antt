-- ===== src/Gates/Evidence.antt =====
-- The eval on which an approval of a gate rests, count_passing_eval_evidence of
-- apps/platform/app/storage/deployments.py.
use norinth.Prelude.{
  Option, none, some, String, Bool, true, false, not, ◌&&◌, ◌||◌, List, [], ◌∷◌, ◌==◌, ◌≡◌, refl,
  text_key, option_key, number_key, if◌then◌else◌, filter, find, length, Memᴰ, mem_of_filter,
  mem_of_find, &&-eq-true, eq_iff, same_option_iff,
}
use norinth.Prelude.Result.{ok}
use norinth.Gates.{
  check_evidence, GateRules, GateDb, ObservedEvent, is_eval_of, counts_as_evidence,
  count_passing_eval_evidence, live_gate_evidence, gate_evidence_counts, gate_params, Gate, Version,
  EvalAttributes, is_bound, in_scope,
}
use norinth.Gates.Blockers.{IsClear-of_check}

some_element : {A : Type 0} (xs : List A) → (length xs == 0) ≡ false → (x : A) × Memᴰ x xs
some_element [] h = absurd (cc h)
some_element (x ∷ xs) h = (x, Memᴰ.head refl)

-- An eval is about a release: it names the artifact of the release, or no artifact and the prompt
-- version of the release.
pub data IsAbout (a : EvalAttributes) (release : Version) : Type 0 where
  of_artifact :
      (x : String) → a.artifact_ref ≡ some x → release.artifact_ref ≡ some x → IsAbout a release
  of_prompt :
      (p : String)
      → a.artifact_ref ≡ none
      → a.prompt_version ≡ some p
      → release.prompt_version ≡ some p
      → IsAbout a release

-- A successful, passed eval of the gate's workflow in the gate's scope, about the version that the
-- gate is for, and attested if that is asked for.
pub record IsEvidence (db : GateDb) (g : Gate) (attested : Bool) (e : ObservedEvent) : Type 0 where
  pub observed : Memᴰ e db.events
  pub kind : e.entity_type ≡ "eval.result"
  pub tenant : e.tenant_id ≡ g.tenant_id
  pub project : e.project ≡ g.project
  pub environment : e.environment ≡ g.environment
  pub application : e.application_name ≡ g.application_name
  pub workflow : e.workflow_name ≡ g.workflow_name
  pub succeeded : e.status ≡ "success"
  pub result : EvalAttributes
  pub recorded : e.attributes ≡ some result
  pub passed : result.passed ≡ true
  pub verified : attested ≡ true → result.attested ≡ true
  pub release : Version
  pub stored : Memᴰ release db.versions
  pub released : release.version_id ≡ g.version_id
  pub about : IsAbout result release

-- What the tests of one eval's attributes leave open.
counted :
    (v : Version) (attested : Bool) (o : Option EvalAttributes)
    → counts_as_evidence v attested o ≡ true
    → (a : EvalAttributes) × (o ≡ some a)
      × (a.passed ≡ true)
      × (attested ≡ true → a.attested ≡ true)
      × (is_bound a.artifact_ref a.prompt_version v ≡ true)
counted v attested none h = absurd (cc h)
counted v attested (some a) h =
    let (p, t, b) = tests a.passed attested a.attested _ h in (a, refl, p, t, b)
  where
    tests :
        (passed asked given bound : Bool)
        → (if not passed then false else if asked && not given then false else bound) ≡ true
        → (passed ≡ true) × (asked ≡ true → given ≡ true) × (bound ≡ true)
    tests false asked given bound h = absurd (cc h)
    tests true true false bound h = absurd (cc h)
    tests true true true bound h = (refl, λ t. refl, h)
    tests true false given bound h = (refl, λ t. absurd (cc t), h)

-- The release that an eval is bound to is one of the versions stored, for else there is nothing to
-- name.
bound_eval_release :
    (a : EvalAttributes) (db : GateDb) (g : Gate) (rules : GateRules)
    (artifact prompt : Option String)
    → a.artifact_ref ≡ artifact
    → a.prompt_version ≡ prompt
    → is_bound artifact prompt (gate_params rules db g) ≡ true
    → (v : Version) × (find (λ (x : Version). x.version_id == g.version_id) db.versions ≡ some v)
      × IsAbout a v
bound_eval_release a db g rules artifact prompt ea ep h =
    go (find (λ (x : Version). x.version_id == g.version_id) db.versions) artifact prompt ea ep h
  where
    go :
        (o : Option Version) (artifact prompt : Option String)
        → a.artifact_ref ≡ artifact
        → a.prompt_version ≡ prompt
        → is_bound artifact prompt (record (gate_params rules db g) {
          prompt_version = elim o [ none ↦ none | some v ↦ v.prompt_version ];
          artifact_ref = elim o [ none ↦ none | some v ↦ v.artifact_ref ];
        })
          ≡ true
        → (v : Version) × (o ≡ some v) × IsAbout a v
    go o none none ea ep h = absurd (cc h)
    go none (some x) prompt ea ep h = absurd (cc h)
    go none none (some p) ea ep h = absurd (cc h)
    go (some v) (some x) prompt ea ep h =
        (v, refl, IsAbout.of_artifact x ea ((same_option_iff v.artifact_ref (some x)).0 h))
    go (some v) none (some p) ea ep h =
        (v, refl, IsAbout.of_prompt p ea ep ((same_option_iff v.prompt_version (some p)).0 h))

all_four :
    (a b c d : Bool) → (a && b && c && d) ≡ true → (a ≡ true) × (b ≡ true) × (c ≡ true) × (d ≡ true)
all_four a b c d h =
    let (t, d') = &&-eq-true (a && b && c) d h in
    let (u, c') = &&-eq-true (a && b) c t in let (a', b') = &&-eq-true a b u in (a', b', c', d')

event-IsEvidence :
    (rules : GateRules) (db : GateDb) (g : Gate) (attested : Bool) (e : ObservedEvent)
    → Memᴰ e db.events
    → is_eval_of (gate_params rules db g) e ≡ true
    → counts_as_evidence (gate_params rules db g) attested e.attributes ≡ true
    → IsEvidence db g attested e
event-IsEvidence rules db g attested e m s c =
    let (kind, scope, workflow, status) =
      all_four (e.entity_type == "eval.result")
        (in_scope (gate_params rules db g) e.tenant_id e.project e.environment e.application_name)
        (e.workflow_name == g.workflow_name) (e.status == "success") s in
    let (project, environment, application, tenant) =
      all_four (e.project == g.project) (e.environment == g.environment)
        (e.application_name == g.application_name) (e.tenant_id == g.tenant_id) scope in
    let (a, recorded, passed, verified, bound) =
      counted (gate_params rules db g) attested e.attributes c in
    let (v, found, about) =
      bound_eval_release a db g rules a.artifact_ref a.prompt_version refl refl bound in
    let (stored, same) =
      mem_of_find (λ (x : Version). x.version_id == g.version_id) db.versions found in
    record {
      observed = m;
      kind = (eq_iff e.entity_type "eval.result").0 kind;
      tenant = (same_option_iff e.tenant_id g.tenant_id).0 tenant;
      project = (eq_iff e.project g.project).0 project;
      environment = (eq_iff e.environment g.environment).0 environment;
      application = (eq_iff e.application_name g.application_name).0 application;
      workflow = (eq_iff e.workflow_name g.workflow_name).0 workflow;
      succeeded = (eq_iff e.status "success").0 status;
      result = a;
      recorded = recorded;
      passed = passed;
      verified = verified;
      release = v;
      stored = stored;
      released = (eq_iff v.version_id g.version_id).0 same;
      about = about;
    }

-- Evidence that passes the guards of an approval rests on an observed event: a successful eval of
-- the gate's workflow, in the gate's tenant, project, environment and application, which passed and
-- names the artifact of the stored version that the gate is for, or names no artifact and that
-- version's prompt. Its result is attested where the policy requires that for the gate's
-- environment, and where the tenant requires it.
pub check_evidence-event :
    (rules : GateRules) (db : GateDb) (g : Gate)
    → check_evidence (live_gate_evidence rules db g) ≡ ok tt
    → (e : ObservedEvent) × IsEvidence db g
        ((rules.resolve_gate_policy g.tenant_id g.environment).require_attested_evals
          || rules.tenant_requires_attestation g.tenant_id)
        e
unfolding live_gate_evidence gate_evidence_counts count_passing_eval_evidence
check_evidence-event rules db g h =
    let v = gate_params rules db g in
    let attested =
      (rules.resolve_gate_policy g.tenant_id g.environment).require_attested_evals
      || rules.tenant_requires_attestation g.tenant_id in
    let c = IsClear-of_check (live_gate_evidence rules db g) h in
    let (e, m) =
      some_element
        (filter (λ (x : ObservedEvent). counts_as_evidence v attested x.attributes)
          (filter (is_eval_of v) db.events))
        c.has_eval in
    let (n, q) =
      mem_of_filter (λ (x : ObservedEvent). counts_as_evidence v attested x.attributes)
        (filter (is_eval_of v) db.events) m in
    let (k, p) = mem_of_filter (is_eval_of v) db.events n in
    (e, event-IsEvidence rules db g attested e k p q)

-- ===== src/Stages/Decide.antt =====
-- Recording a decision, and deciding a stage over HTTP: record_decision and load_decision_target of
-- apps/platform/app/storage/workflow.py, decide_approval_stage of apps/platform/app/api/policy.py,
-- and what it reads of apps/platform/app/storage/policy_engine.py.
pub mod Route
pub mod Duties
mod Examples
use norinth.Prelude.{
  Option, none, some, String, Bool, true, false, not, ◌&&◌, ◌||◌, List, [], ◌∷◌, ◌++◌, ◌==◌, ℕ,
  text_key, number_key, option_key, if◌then◌else◌, contains, any, find,
}
use norinth.Prelude.Result.{Result, ok, err, ◌>>=◌, ◌>>◌}
use norinth.Auth.{
  Actor, Directory, Target, AuthorizationError, truthy, require_decision, require_stage_role,
}
use norinth.Stages.{
  StageStatus, Stage, Task, UseCase, Vendor, StatusRow, Decision, Db, is_open, is_decided,
  of_subject,
}
use norinth.Stages.Transitions.{
  DecisionError, unsupported_target, target_not_found, apply_decision_status,
  sync_decision_to_stages,
}

-- `AND tenant_id = ?` is there only where the caller names a tenant.
abbrev in_tenant : Option String → Option String → Bool
in_tenant wanted row_tenant = if truthy wanted then row_tenant == wanted else true

abbrev found_tenant :
    {A : Type 0} → (A → Option String) → Option A → Result DecisionError (Option String)
found_tenant tenant none = err target_not_found
found_tenant tenant (some r) = ok (tenant r)

abbrev row_target : List StatusRow → String → Option String → Result DecisionError (Option String)
row_target rows id tenant =
    found_tenant (λ r. r.tenant_id)
      (find (λ r. r.row_id == id && in_tenant tenant r.tenant_id) rows)

-- The tenant of the record that the decision is about; the record is known by its id.
pub load_decision_target :
    Db → String → String → Option String → Result DecisionError (Option String)
load_decision_target db target_type id tenant =
    if target_type == "review_task"
    then found_tenant (λ t. t.tenant_id)
        (find (λ t. t.task_id == id && in_tenant tenant t.tenant_id) db.tasks)
    else if target_type == "risk_finding"
    then row_target db.findings id tenant
    else if target_type == "change_event"
    then row_target db.changes id tenant
    else if target_type == "control_assessment"
    then row_target db.assessments id tenant
    else if target_type == "deployment_gate"
    then row_target db.gates id tenant
    else if target_type == "incident"
    then row_target db.incidents id tenant
    else if target_type == "approval_stage"
    then found_tenant (λ s. s.tenant_id)
        (find (λ s. s.stage_id == id && in_tenant tenant s.tenant_id) db.stages)
    else err unsupported_target

-- The work item that a stage belongs to, as load_stage_subject returns it.
pub data WorkItem : Type 0 where
  task_item : Task → WorkItem
  vendor_item : Vendor → WorkItem

abbrev or_else : Option String → Option String → Option String
or_else a b = if truthy a then a else b

abbrev item_of_task : Option Task → Option WorkItem
item_of_task none = none
item_of_task (some t) = some (task_item t)

abbrev item_of_vendor : Option Vendor → Option WorkItem
item_of_vendor none = none
item_of_vendor (some v) = some (vendor_item v)

pub load_stage_subject : Db → Stage → Option WorkItem
load_stage_subject db stage =
    if stage.subject_type == "review_task"
    then item_of_task (find (λ t. t.task_id == stage.subject_id) db.tasks)
    else if stage.subject_type == "vendor_review"
    then item_of_vendor (find (λ v. v.vendor_id == stage.subject_id) db.vendors)
    else none

pub stage_subject_undecided : Stage → WorkItem → Bool
stage_subject_undecided stage (task_item t) = t.status == "open"
stage_subject_undecided stage (vendor_item v) =
    v.status == "under_review" && v.review_round == stage.review_round

abbrev case_submitter : Option UseCase → Option String
case_submitter none = none
case_submitter (some u) = u.submitted_by

pub stage_maker : Db → WorkItem → Option String
stage_maker db (task_item t) =
    if contains t.task_type ("intake_review" ∷ "recertification_review" ∷ [])
    then case_submitter (find (λ u. some u.intake_id == t.change_id) db.use_cases)
    else or_else t.submitted_by t.created_by
stage_maker db (vendor_item v) = or_else v.submitted_by v.created_by

-- A row of a sibling stage that this actor decided.
abbrev pub decided_sibling : Stage → String → Stage → Bool
decided_sibling stage actor r =
    of_subject stage.subject_type stage.subject_id stage.review_round r
    && not (r.stage_id == stage.stage_id)
    && r.decided_by == some actor

pub actor_decided_sibling_stage : Db → Stage → String → Bool
actor_decided_sibling_stage db stage actor = any (decided_sibling stage actor) db.stages

-- The answers other than 200, in the order in which the route gives them.
pub data StageRefusal : Type 0 where
  bad_decision no_such_stage no_subject subject_decided stage_decided stage_not_open : StageRefusal
  forbidden : AuthorizationError → StageRefusal
  own_work sibling_decided : StageRefusal
  failed : DecisionError → StageRefusal

pub lift_forbidden : Result AuthorizationError Unit → Result StageRefusal Unit
lift_forbidden (ok a) = ok a
lift_forbidden (err e) = err (forbidden e)

pub lift_failed : Result DecisionError Db → Result StageRefusal Db
lift_failed (ok db) = ok db
lift_failed (err e) = err (failed e)

abbrev pub or_refuse : {A : Type 0} → Option A → StageRefusal → Result StageRefusal A
or_refuse none e = err e
or_refuse (some a) e = ok a

-- The refusals on the state of the subject and its stage.
pub check_open : Db → Stage → WorkItem → Result StageRefusal Unit
unfolding stage_subject_undecided
check_open db stage subject =
    if not (stage_subject_undecided stage subject)
    then err subject_decided
    else if is_decided stage.status
    then err stage_decided
    else if not (is_open stage.status)
    then err stage_not_open
    else ok tt

-- The refusals on who decides: not the maker, and no one who decided a sibling stage.
pub check_duties : Db → Stage → WorkItem → String → Result StageRefusal Unit
unfolding stage_maker actor_decided_sibling_stage
check_duties db stage subject actor =
    if truthy (stage_maker db subject) && stage_maker db subject == some actor
    then err own_work
    else if actor_decided_sibling_stage db stage actor
    then err sibling_decided
    else ok tt

abbrev pub stage_target : Stage → Target
stage_target stage = record {
  tenant_id = stage.tenant_id;
  project = some stage.project;
  environment = some stage.environment;
  target_type = some "approval_stage";
  has_risk = false;
}

-- `decision_key` is entity_id("governance-decision", target_type, target_id, decision, rationale,
-- actor_ref), a hash of the joined fields.
module _ (decision_key : String → String → String → String → String → String) where
  abbrev pub new_decision : Option String → String → String → String → String → String → Decision
  new_decision tenant target_type id decision rationale actor = record {
    decision_id = decision_key target_type id decision rationale actor;
    tenant_id = tenant;
    target_type = target_type;
    target_id = id;
    decision = decision;
    rationale = rationale;
    actor_ref = actor;
  }

  abbrev pub store_decision : Db → Decision → Option Decision → Result DecisionError Db
  store_decision db new (some existing) = ok db
  store_decision db new none =
      sync_decision_to_stages
        (apply_decision_status (record db { decisions = db.decisions ++ new ∷ [] }) new.target_type
          new.target_id new.decision)
        new.target_type new.target_id new.decision new.actor_ref new.decision_id

  pub record_decision :
      Db → String → String → String → String → String → Option String → Result DecisionError Db
  unfolding load_decision_target
  record_decision db target_type id decision rationale actor tenant = do
    row_tenant ← load_decision_target db target_type id tenant
    let new = new_decision row_tenant target_type id decision rationale actor
    store_decision db new (find (λ d. d.decision_id == new.decision_id) db.decisions)

  -- The route up to the audit entry and the refreshed queue, which change none of these rows.
  pub decide_approval_stage :
      Directory → Db → Actor → String → String → String → Result StageRefusal Db
  unfolding record_decision load_stage_subject check_open check_duties lift_forbidden lift_failed
  decide_approval_stage d db actor stage_id decision rationale =
      if not (contains decision ("approve" ∷ "reject" ∷ [])) then err bad_decision else do
        stage ← or_refuse (find (λ s. s.stage_id == stage_id) db.stages) no_such_stage
        subject ← or_refuse (load_stage_subject db stage) no_subject
        check_open db stage subject
        lift_forbidden (require_decision d actor (stage_target stage))
        lift_forbidden (require_stage_role d actor stage.required_role (stage_target stage))
        check_duties db stage subject actor.user_ref
        lift_failed
            (record_decision db "approval_stage" stage_id decision rationale actor.user_ref none)

-- ===== src/Stages/Transitions.antt =====
-- The transitions of a decision: apply_decision_status and record_decision of
-- apps/platform/app/storage/workflow.py, and _roll_up_subject, apply_stage_decision and
-- sync_decision_to_stages of apps/platform/app/storage/policy_engine.py.
pub mod Effect
pub mod Places
pub mod Order
pub mod Decided
pub mod Distinct
pub mod Examples
use norinth.Prelude.{
  update_where, Option, none, some, String, Bool, true, false, not, ◌&&◌, ◌||◌, List, [], ◌∷◌, ◌++◌,
  ◌==◌, ℕ, suc, ◌+◌, text_key, number_key, option_key, if◌then◌else◌, contains, any, all, filter,
  find, map, leb, length,
}
use norinth.Prelude.Result.{Result, ok, err, ◌>>=◌, ◌>>◌}
use norinth.Auth.{truthy}
use norinth.Stages.{
  StageStatus, open_stage, pending, approved, rejected, sequence, Stage, Task, UseCase, Vendor,
  StatusRow, Decision, Notice, stage_opened, intake_decided, Db, is_open, is_pending, is_approved,
  is_sequence, list_subject_stages,
}

-- DomainError and RecordNotFound, by what raises them.
pub data DecisionError : Type 0 where
  expired_evidence unsupported_target target_not_found : DecisionError

abbrev pub status_by_decision : String → Option String
status_by_decision decision =
    if decision == "approve"
    then some "approved"
    else if decision == "reject"
    then some "rejected"
    else if decision == "accept_risk"
    then some "accepted"
    else if decision == "mitigate"
    then some "mitigation_required"
    else if decision == "waive"
    then some "waived"
    else if decision == "close"
    then some "closed"
    else none

-- The submitter hears of a final decision, if the use case names one.
abbrev decided_notice : Option UseCase → String → String → List Notice
decided_notice none task_id status = []
decided_notice (some u) task_id status =
    if truthy u.submitted_by then intake_decided task_id status ∷ [] else []

pub notify_intake_decided : Db → Option String → String → String → Db
notify_intake_decided db intake_id task_id status = record db {
  notices =
      db.notices
      ++ decided_notice (find (λ u. some u.intake_id == intake_id) db.use_cases) task_id status;
}

abbrev pub moves_case : Option String → String → UseCase → Bool
moves_case change_id status u = some u.intake_id == change_id && not (u.status == status)

-- An intake review moves the use case that it is about.
pub move_use_case : Db → Option Task → String → String → Db
unfolding notify_intake_decided
move_use_case db none task_id status = db
move_use_case db (some task) task_id status =
    if task.task_type == "intake_review" && contains status ("approved" ∷ "rejected" ∷ [])
    then (let moved = record db {
      use_cases =
          update_where (moves_case task.change_id status) (λ u. record u { status = status })
            db.use_cases;
    } in
        if any (moves_case task.change_id status) db.use_cases
        then notify_intake_decided moved task.change_id task_id status
        else moved)
    else db

abbrev pub set_task : String → String → List Task → List Task
set_task task_id status =
    update_where (λ t. t.task_id == task_id) (λ t. record t { status = status })

abbrev pub set_row : String → String → List StatusRow → List StatusRow
set_row id status = update_where (λ r. r.row_id == id) (λ r. record r { status = status })

unfoldable pub write_status : Db → String → String → String → Db
unfolding move_use_case
write_status db target_type target_id status =
    if target_type == "review_task"
    then (let tasks = set_task target_id status db.tasks in
        move_use_case (record db { tasks = tasks }) (find (λ t. t.task_id == target_id) tasks)
          target_id status)
    else if target_type == "risk_finding"
    then record db { findings = set_row target_id status db.findings }
    else if target_type == "change_event"
    then record db { changes = set_row target_id status db.changes }
    else if target_type == "control_assessment"
    then record db { assessments = set_row target_id status db.assessments }
    else db

unfoldable pub apply_decision_status : Db → String → String → String → Db
unfolding write_status
apply_decision_status db target_type target_id decision = elim (status_by_decision decision) [
  | none ↦ db
  | some status ↦ write_status db target_type target_id status
]

-- A lapsed reference that was neither replaced nor withdrawn.
abbrev pub has_expired_evidence : Db → String → Bool
has_expired_evidence db vendor_id =
    any (λ e. e.vendor_id == vendor_id && e.status == "expired") db.evidence

abbrev pub under_review : Stage → Vendor → Bool
under_review stage v =
    v.vendor_id == stage.subject_id
    && v.review_round == stage.review_round
    && v.status == "under_review"

pub roll_up_subject : Db → Stage → String → Result DecisionError Db
unfolding apply_decision_status
roll_up_subject db stage decision =
    if stage.subject_type == "review_task"
    then ok (apply_decision_status db "review_task" stage.subject_id decision)
    else if stage.subject_type == "vendor_review"
    then (let status = if decision == "approve" then "approved" else "rejected" in
        if decision == "approve" && has_expired_evidence db stage.subject_id
        then err expired_evidence
        else ok (record db {
          vendors =
              update_where (under_review stage) (λ v. record v { status = status }) db.vendors;
        }))
    else ok db

-- UPDATE approval_stages SET status, decision_id, decided_by WHERE stage_id = ? AND status = 'open'
abbrev pub is_open_row : String → Stage → Bool
is_open_row id r = r.stage_id == id && is_open r.status

abbrev pub stamp : StageStatus → String → String → Stage → Stage
stamp status decision_id actor r = record r {
  status = status;
  decision_id = some decision_id;
  decided_by = some actor;
}

unfoldable pub close_stage : String → StageStatus → String → String → List Stage → List Stage
close_stage id status decision_id actor rows =
    update_where (is_open_row id) (stamp status decision_id actor) rows

-- UPDATE approval_stages SET status = 'open' WHERE stage_id = ? AND status = 'pending'
unfoldable pub open_next : String → List Stage → List Stage
open_next id rows =
    update_where (λ r. r.stage_id == id && is_pending r.status)
      (λ r. record r { status = open_stage }) rows

unfoldable pub open_first_pending : Db → Option Stage → Db
unfolding open_next
open_first_pending db none = db
open_first_pending db (some next) = record db {
  stages = open_next next.stage_id db.stages;
  notices = db.notices ++ stage_opened next.stage_id ∷ [];
}

abbrev pub decision_status : String → StageStatus
decision_status decision = if decision == "approve" then approved else rejected

-- After an approval: the subject is approved, or the next stage of a sequence opens.
unfoldable pub after_approval : Db → Stage → Result DecisionError Db
unfolding open_first_pending roll_up_subject list_subject_stages
after_approval db stage =
    let siblings =
      list_subject_stages db.stages stage.subject_type stage.subject_id stage.review_round in
    if all (λ r. is_approved r.status) siblings
    then roll_up_subject db stage "approve"
    else if is_sequence stage.mode
    then ok (open_first_pending db (find (λ r. is_pending r.status) siblings))
    else ok db

unfoldable pub apply_stage_decision :
    Db → Stage → String → String → String → Result DecisionError Db
unfolding close_stage after_approval roll_up_subject
apply_stage_decision db stage decision decision_id actor =
    let moved = record db {
      stages = close_stage stage.stage_id (decision_status decision) decision_id actor db.stages;
    } in
    if not (any (is_open_row stage.stage_id) db.stages)
    then ok db
    else if not (decision == "approve")
    then roll_up_subject moved stage "reject"
    else after_approval moved stage

-- A direct decision on a task stamps its single stage, if that is open.
pub stamp_single : Db → List Stage → String → String → String → Db
unfolding close_stage
stamp_single db (s ∷ []) decision actor decision_id =
    if is_open s.status
    then record db {
      stages = close_stage s.stage_id (decision_status decision) decision_id actor db.stages;
    }
    else db
stamp_single db _ decision actor decision_id = db

unfoldable pub sync_decision_to_stages :
    Db → String → String → String → String → String → Result DecisionError Db
unfolding apply_stage_decision stamp_single
sync_decision_to_stages db target_type target_id decision actor decision_id =
    if not (contains decision ("approve" ∷ "reject" ∷ []))
    then ok db
    else if target_type == "approval_stage"
    then elim (find (λ s. s.stage_id == target_id) db.stages) [
      | none ↦ ok db
      | some stage ↦ apply_stage_decision db stage decision decision_id actor
    ]
    else if target_type == "review_task"
    then ok (
        stamp_single db (list_subject_stages db.stages "review_task" target_id 0) decision actor
          decision_id)
    else ok db

-- ===== src/Stages.antt =====
-- Approval stages: the tables that a review decision reads and writes, and their transitions in
-- apps/platform/app/storage/policy_engine.py and apps/platform/app/storage/workflow.py.
-- Time stamps and display texts are left out of the rows: no test of this code reads them.
pub mod Transitions
pub mod Decide
pub mod Rows
pub mod Materialized
pub mod Checklist
mod Examples
use norinth.Prelude.{
  Option, none, some, String, Bool, true, false, not, ◌&&◌, ◌||◌, List, [], ◌∷◌, ◌++◌, ◌==◌, ℕ, suc,
  ◌+◌, text_key, number_key, option_key, if◌then◌else◌, contains, any, all, filter, find, map, leb,
  length,
}
use norinth.Prelude.Result.{Result, ok, err, ◌>>=◌, ◌>>◌}

pub data StageStatus : Type 0 where
  open_stage pending approved rejected : StageStatus

pub data Mode : Type 0 where
  sequence parallel : Mode

-- A row of approval_stages.
pub record Stage : Type 0 where
  pub stage_id : String
  pub tenant_id : Option String
  pub project : String
  pub environment : String
  pub application_name : String
  pub subject_type : String
  pub subject_id : String
  pub review_round : ℕ
  pub policy_tenant : String
  pub policy_version : ℕ
  pub stage_index : ℕ
  pub required_role : String
  pub mode : Mode
  pub status : StageStatus
  pub decision_id : Option String
  pub decided_by : Option String

-- A row of review_tasks.
pub record Task : Type 0 where
  pub task_id : String
  pub tenant_id : Option String
  pub task_type : String
  pub change_id : Option String
  pub submitted_by : Option String
  pub created_by : Option String
  pub status : String

-- A row of ai_use_cases.
pub record UseCase : Type 0 where
  pub intake_id : String
  pub submitted_by : Option String
  pub status : String

-- A row of vendor_registry.
pub record Vendor : Type 0 where
  pub vendor_id : String
  pub review_round : ℕ
  pub submitted_by : Option String
  pub created_by : Option String
  pub status : String

-- A row of vendor_evidence_references.
pub record Evidence : Type 0 where
  pub vendor_id : String
  pub status : String

-- A row of a table whose status a decision writes, or only looks up.
pub record StatusRow : Type 0 where
  pub row_id : String
  pub tenant_id : Option String
  pub status : String

-- A row of governance_decisions.
pub record Decision : Type 0 where
  pub decision_id : String
  pub tenant_id : Option String
  pub target_type : String
  pub target_id : String
  pub decision : String
  pub rationale : String
  pub actor_ref : String

-- What the notification outbox is handed.
pub data Notice : Type 0 where
  stage_opened : String → Notice
  intake_decided : String → String → Notice

pub record Db : Type 0 where
  pub stages : List Stage
  pub tasks : List Task
  pub use_cases : List UseCase
  pub vendors : List Vendor
  pub evidence : List Evidence
  pub findings : List StatusRow
  pub changes : List StatusRow
  pub assessments : List StatusRow
  pub gates : List StatusRow
  pub incidents : List StatusRow
  pub decisions : List Decision
  pub notices : List Notice

abbrev pub is_open : StageStatus → Bool
is_open open_stage = true
is_open _ = false

abbrev pub is_pending : StageStatus → Bool
is_pending pending = true
is_pending _ = false

abbrev pub is_approved : StageStatus → Bool
is_approved approved = true
is_approved _ = false

abbrev pub is_decided : StageStatus → Bool
is_decided approved = true
is_decided rejected = true
is_decided _ = false

abbrev pub is_sequence : Mode → Bool
is_sequence sequence = true
is_sequence parallel = false

-- The rows of one subject and round: the WHERE of list_subject_stages.
abbrev pub of_subject : String → String → ℕ → Stage → Bool
of_subject subject_type subject_id review_round s =
    s.subject_type == subject_type && s.subject_id == subject_id && s.review_round == review_round

-- ORDER BY stage_index
pub insert_by_index : Stage → List Stage → List Stage
insert_by_index s [] = s ∷ []
insert_by_index s (r ∷ rows) =
    let rest = insert_by_index s rows in
    if leb s.stage_index r.stage_index then s ∷ r ∷ rows else r ∷ rest

pub order_by_index : List Stage → List Stage
order_by_index [] = []
order_by_index (s ∷ rows) = insert_by_index s (order_by_index rows)

pub list_subject_stages : List Stage → String → String → ℕ → List Stage
unfolding order_by_index
list_subject_stages rows subject_type subject_id review_round =
    order_by_index (filter (of_subject subject_type subject_id review_round) rows)

-- What a policy gives for one stage, and what the caller gives for the subject.
pub record StageSpec : Type 0 where
  pub role : String

pub record Subject : Type 0 where
  pub subject_type : String
  pub subject_id : String
  pub review_round : ℕ
  pub tenant_id : Option String
  pub project : String
  pub environment : String
  pub application_name : String
  pub mode : Mode
  pub policy_tenant : String
  pub policy_version : ℕ

-- "open" if (mode == "parallel" or index == 0) else "pending"
abbrev pub first_status : Mode → ℕ → StageStatus
first_status mode index = if not (is_sequence mode) || index == 0 then open_stage else pending

-- `stage_key` is _stage_id: entity_id("approval-stage", subject_type, subject_id, round, index).
module _ (stage_key : String → String → ℕ → ℕ → String) where
  abbrev pub new_stage : Subject → ℕ → StageSpec → Stage
  new_stage s index spec = record {
    stage_id = stage_key s.subject_type s.subject_id s.review_round index;
    tenant_id = s.tenant_id;
    project = s.project;
    environment = s.environment;
    application_name = s.application_name;
    subject_type = s.subject_type;
    subject_id = s.subject_id;
    review_round = s.review_round;
    policy_tenant = s.policy_tenant;
    policy_version = s.policy_version;
    stage_index = index;
    required_role = spec.role;
    mode = s.mode;
    status = first_status s.mode index;
    decision_id = none;
    decided_by = none;
  }

  -- INSERT OR IGNORE: a row whose key is taken is dropped.
  abbrev pub insert_or_ignore : Stage → List Stage → List Stage
  insert_or_ignore s rows =
      if any (λ r. r.stage_id == s.stage_id) rows then rows else rows ++ s ∷ []

  -- The loop over enumerate(stages).
  pub insert_stages : Subject → ℕ → List StageSpec → List Stage → List Stage
  insert_stages s index [] rows = rows
  insert_stages s index (spec ∷ specs) rows =
      insert_stages s (suc index) specs (insert_or_ignore (new_stage s index spec) rows)

  pub materialize_stages : Subject → List StageSpec → List Stage → List Stage × Bool
  unfolding insert_stages
  materialize_stages s specs rows =
      if any (of_subject s.subject_type s.subject_id s.review_round) rows
      then (rows, false)
      else (insert_stages s 0 specs rows, true)

-- ===== src/Stages/Decide/Examples.antt =====
-- A vendor review with two stages in sequence, of which the first is decided.
use norinth.Prelude.{
  some, String, false, [], ◌∷◌, ◌≡◌, ◌≢◌, option_key, number_key, refl, sym, find, ◌==◌, text_key,
  ◌<◌, arith,
}
use norinth.Prelude.Result.{ok}
use norinth.Auth.{require_stage_role}
use norinth.Auth.Examples.{kim, review_desk, kim_may_decide, kim_has_role}
use norinth.Stages.{
  open_stage, approved, sequence, Stage, Db, stage_opened, is_pending, list_subject_stages,
  order_by_index, insert_by_index,
}
use norinth.Stages.Transitions.{
  apply_decision_status, write_status, sync_decision_to_stages, apply_stage_decision, close_stage,
  after_approval, open_first_pending, open_next,
}
use norinth.Stages.Transitions.Places.{SameSubject}
use norinth.Stages.Transitions.Distinct.{IsFresh}
use norinth.Stages.Transitions.Examples.{first, second, vendor, two_rows, keys_differ}
use norinth.Stages.Decide.{
  record_decision, load_decision_target, check_open, check_duties, lift_forbidden, lift_failed,
  stage_subject_undecided, actor_decided_sibling_stage, WorkItem, load_stage_subject, stage_maker,
  stage_target, decide_approval_stage, new_decision,
}
use norinth.Stages.Decide.Duties.{
  IsSound, decide_approval_stage-duties, decide_approval_stage-IsSound,
}

abbrev before : Db
before = record {
  stages = first ∷ second ∷ [];
  tasks = [];
  use_cases = [];
  vendors = vendor ∷ [];
  evidence = [];
  findings = [];
  changes = [];
  assessments = [];
  gates = [];
  incidents = [];
  decisions = [];
  notices = [];
}

abbrev plain_key : String → String → String → String → String → String
plain_key target_type id decision rationale actor = id

abbrev later : Db
later = record before {
  stages =
      record first { status = approved; decision_id = some "s1"; decided_by = some "kim" }
      ∷ record second { status = open_stage }
      ∷ [];
  decisions =
      new_decision plain_key (some "acme") "approval_stage" "s1" "approve" "fine" "kim" ∷ [];
  notices = stage_opened "s2" ∷ [];
}

decides : decide_approval_stage plain_key review_desk before kim "s1" "approve" "fine" ≡ ok later
unfolding decide_approval_stage record_decision load_decision_target load_stage_subject check_open
    check_duties lift_forbidden lift_failed stage_subject_undecided stage_maker
    actor_decided_sibling_stage apply_decision_status write_status sync_decision_to_stages
    apply_stage_decision close_stage after_approval open_first_pending open_next list_subject_stages
    order_by_index insert_by_index
decides = rw (kim_may_decide, kim_has_role)

two_stages : IsSound before.stages
two_stages = record {
  keyed = record {
    unique = λ a b m n.
        two_rows first second (λ a b. a.stage_id ≡ b.stage_id → a ≡ b) a b m n (λ h. refl)
          (λ h. absurd (keys_differ h)) (λ h. absurd (keys_differ (sym h))) (λ h. refl);
    places = λ a b m n.
        two_rows first second
          (λ a b. SameSubject a b → a.stage_index ≡ b.stage_index → a.stage_id ≡ b.stage_id) a b m n
          (λ s h. refl) (λ s h. absurd (omega (arith, h))) (λ s h. absurd (omega (arith, h)))
          (λ s h. refl);
  };
  in_order = λ a b m n.
      two_rows first second
        (λ a b.
          SameSubject a b
          → a.mode ≡ sequence
          → a.stage_index < b.stage_index
          → is_pending b.status ≡ false
          → a.status ≡ approved)
        a b m n (λ s k h. absurd (omega (arith, h))) (λ s k h p. absurd (cc p))
        (λ s k h. absurd (omega (arith, h))) (λ s k h p. absurd (cc p));
  distinct = λ a b who m n.
      two_rows first second
        (λ a b.
          SameSubject a b
          → a.decided_by ≡ some who
          → b.decided_by ≡ some who
          → a.stage_id ≡ b.stage_id)
        a b m n (λ s h. absurd (cc h)) (λ s h. absurd (cc h)) (λ s h. absurd (cc h))
        (λ s h. absurd (cc h));
}

decide_approval_stage-IsSound_example : IsSound later.stages
decide_approval_stage-IsSound_example =
    decide_approval_stage-IsSound plain_key review_desk before later kim "s1" "approve" "fine"
      two_stages decides

decide_approval_stage-duties_example :
    (stage : Stage) × (subject : WorkItem) × (find (λ (s : Stage). s.stage_id == "s1") before.stages
      ≡ some stage)
    × (load_stage_subject before stage ≡ some subject)
    × (require_stage_role review_desk kim stage.required_role (stage_target stage) ≡ ok tt)
    × (stage_maker before subject ≢ some "kim")
    × IsFresh before.stages stage "kim"
decide_approval_stage-duties_example =
    decide_approval_stage-duties plain_key review_desk before later kim "s1" "approve" "fine" refl
      decides

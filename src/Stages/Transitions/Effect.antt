-- ===== src/Stages/Transitions/Effect.antt =====
-- What one stage decision does to the table of stages.
use norinth.Prelude.{
  update_where, contains, Option, none, some, String, Bool, true, false, not, ◌&&◌, List, [], ◌∷◌,
  ◌==◌, ◌≡◌, ◌⊎◌, inl, inr, refl, sym, ap, ◌∙◌, text_key, number_key, if◌then◌else◌, any, all, find,
  arith, three_branches, not-eq-false, Option-cases,
}
use norinth.Prelude.Result.{Result, ok, err}
use norinth.Stages.{
  approved, Stage, Db, Task, is_pending, is_approved, is_sequence, list_subject_stages,
}
use norinth.Stages.Transitions.{
  sync_decision_to_stages, status_by_decision, under_review, has_expired_evidence, expired_evidence,
  DecisionError, roll_up_subject, is_open_row, close_stage, open_next, open_first_pending,
  decision_status, after_approval, apply_stage_decision, apply_decision_status, write_status,
  move_use_case,
}

-- What one decision does to the table.
if_stages :
    (b : Bool) (x y : Db) (rows : List Stage)
    → x.stages ≡ rows
    → y.stages ≡ rows
    → (if b then x else y).stages ≡ rows
if_stages true x y rows p q = p
if_stages false x y rows p q = q

pub data Effect (rows : List Stage) (stage : Stage) (decision id actor : String)
    (rows' : List Stage) : Type 0 where
  unmoved : rows' ≡ rows → Effect rows stage decision id actor rows'
  closed :
      any (is_open_row stage.stage_id) rows ≡ true
      → rows' ≡ close_stage stage.stage_id (decision_status decision) id actor rows
      → Effect rows stage decision id actor rows'
  advanced :
      (next : Stage)
      → any (is_open_row stage.stage_id) rows ≡ true
      → decision_status decision ≡ approved
      → is_sequence stage.mode ≡ true
      → find
          (λ r. is_pending r.status)
          (list_subject_stages
            (close_stage stage.stage_id approved id actor rows)
            stage.subject_type
            stage.subject_id
            stage.review_round)
        ≡ some next
      → rows' ≡ open_next next.stage_id (close_stage stage.stage_id approved id actor rows)
      → Effect rows stage decision id actor rows'

stages-move_use_case :
    (db : Db) (task : Option Task) (id status : String)
    → (move_use_case db task id status).stages ≡ db.stages
unfolding move_use_case
stages-move_use_case db none id status = refl
stages-move_use_case db (some task) id status = if_stages _ _ _ _ (if_stages _ _ _ _ refl refl) refl

stages-write_status :
    (db : Db) (kind id status : String) → (write_status db kind id status).stages ≡ db.stages
unfolding write_status
stages-write_status db kind id status =
    ground (arith, λ (d : Db) (t : Option Task). stages-move_use_case d t id status)

-- A decision on the status of a subject leaves the stages alone.
pub stages-apply_decision_status :
    (db : Db) (kind id decision : String)
    → (apply_decision_status db kind id decision).stages ≡ db.stages
unfolding apply_decision_status
stages-apply_decision_status db kind id decision =
    elim (Option-cases (status_by_decision decision)) [
      | inl e ↦ rw (e, apply_decision_status)
      | inr (status, e) ↦ rw (e, apply_decision_status) (stages-write_status db kind id status)
    ]

ok_injective : {a b : Db} → ◌≡◌ {A = Result DecisionError Db} (ok a) (ok b) → a ≡ b
ok_injective e = cc e

same_stages :
    (x db' : Db) (rows : List Stage)
    → x.stages ≡ rows
    → ◌≡◌ {A = Result DecisionError Db} (ok x) (ok db')
    → db'.stages ≡ rows
same_stages x db' rows p h = ap (λ (d : Db). d.stages) (sym (ok_injective h)) ∙ p

rolled_vendor :
    (db db' : Db) (stage : Stage) (b : Bool) (status : String)
    → ◌≡◌ {A = Result DecisionError Db}
        (if b
          then err expired_evidence
          else ok (record db {
            vendors =
                update_where (under_review stage) (λ v. record v { status = status }) db.vendors;
          }))
        (ok db')
    → db'.stages ≡ db.stages
rolled_vendor db db' stage true status h = absurd (cc h)
rolled_vendor db db' stage false status h = same_stages _ db' db.stages refl h

pub stages-roll_up_subject :
    (db db' : Db) (stage : Stage) (decision : String)
    → roll_up_subject db stage decision ≡ ok db'
    → db'.stages ≡ db.stages
unfolding roll_up_subject
stages-roll_up_subject db db' stage decision h =
    elim (three_branches (stage.subject_type == "review_task")
      (stage.subject_type == "vendor_review") _ _ _ (ok db') h) [
        | inl (_, e) ↦
            same_stages (apply_decision_status db "review_task" stage.subject_id decision) db'
              db.stages (stages-apply_decision_status db "review_task" stage.subject_id decision) e
        | inr (inl (_, _, e)) ↦
            rolled_vendor db db' stage
              (decision == "approve" && has_expired_evidence db stage.subject_id)
              (if decision == "approve" then "approved" else "rejected") e
        | inr (inr (_, _, e)) ↦ same_stages db db' db.stages refl e
      ]

abbrev siblings : Db → Stage → List Stage
siblings db stage =
    list_subject_stages db.stages stage.subject_type stage.subject_id stage.review_round

-- After an approval either nothing more moves, or the first pending sibling of a sequence opens.
after_approval-stages :
    (db db' : Db) (stage : Stage)
    → after_approval db stage ≡ ok db'
    → (db'.stages ≡ db.stages)
      ⊎ ((next : Stage) × (is_sequence stage.mode ≡ true)
          × (find (λ r. is_pending r.status) (siblings db stage) ≡ some next)
          × (db'.stages ≡ open_next next.stage_id db.stages))
unfolding after_approval
after_approval-stages db db' stage h =
    elim (three_branches (all (λ r. is_approved r.status) (siblings db stage))
      (is_sequence stage.mode) _ _ _ (ok db') h) [
        | inl (_, e) ↦ inl (stages-roll_up_subject db db' stage "approve" e)
        | inr (inl (_, q, e)) ↦
            opened q (find (λ r. is_pending r.status) (siblings db stage)) refl
              (sym (ok_injective e))
        | inr (inr (_, _, e)) ↦ inl (same_stages db db' db.stages refl e)
      ]
  where
    opened :
        is_sequence stage.mode ≡ true
        → (o : Option Stage) → find (λ r. is_pending r.status) (siblings db stage) ≡ o
        → db' ≡ open_first_pending db o
        → (db'.stages ≡ db.stages)
          ⊎ ((next : Stage) × (is_sequence stage.mode ≡ true)
              × (find (λ r. is_pending r.status) (siblings db stage) ≡ some next)
              × (db'.stages ≡ open_next next.stage_id db.stages))
    opened q none f e = inl (ap (λ (d : Db). d.stages) e)
    opened q (some next) f e = inr (next, q, f, ap (λ (d : Db). d.stages) e)

-- A decision leaves the table alone, closes the stage, or closes it and opens the next one.
pub apply_stage_decision-Effect :
    (db db' : Db) (stage : Stage) (decision id actor : String)
    → apply_stage_decision db stage decision id actor ≡ ok db'
    → Effect db.stages stage decision id actor db'.stages
unfolding apply_stage_decision
apply_stage_decision-Effect db db' stage decision id actor h =
    elim (three_branches (not (any (is_open_row stage.stage_id) db.stages))
      (not (decision == "approve")) _ _ _ (ok db') h) [
        | inl (_, e) ↦ unmoved (same_stages db db' db.stages refl e)
        | inr (inl (o, _, e)) ↦
            closed (not-eq-false _ o) (stages-roll_up_subject moved db' stage "reject" e)
        | inr (inr (o, a, e)) ↦ elim (after_approval-stages moved db' stage e) [
          | inl s ↦ closed (not-eq-false _ o) s
          | inr (next, q, f, s) ↦
              let st : decision_status decision ≡ approved =
                rw (not-eq-false (decision == "approve") a) in
              advanced next (not-eq-false _ o) st q (rw st at f) (rw st at s)
        ]
      ]
  where
    moved : Db
    moved = record db {
      stages = close_stage stage.stage_id (decision_status decision) id actor db.stages;
    }

-- A stage decision that is recorded is applied to the row of its stage.
pub sync_decision-stage :
    (db : Db) (stage : Stage) (stage_id decision actor id : String)
    → contains decision ("approve" ∷ "reject" ∷ []) ≡ true
    → find (λ (s : Stage). s.stage_id == stage_id) db.stages ≡ some stage
    → sync_decision_to_stages db "approval_stage" stage_id decision actor id
      ≡ apply_stage_decision db stage decision id actor
unfolding sync_decision_to_stages
sync_decision-stage db stage stage_id decision actor id known found = simp (known, found)

-- ===== src/Stages/Transitions/Decided.antt =====
-- A stage that is decided stays as it is.
use norinth.Prelude.{
  update_of_mem, String, true, false, ◌&&◌, List, ◌≡◌, refl, sym, subst, inl, inr, ◌==◌, text_key,
  Memᴰ, Bool-cases,
}
use norinth.Prelude.Result.{ok}
use norinth.Stages.{
  StageStatus, open_stage, pending, approved, rejected, Stage, Db, is_open, is_pending, is_decided,
}
use norinth.Stages.Transitions.{
  is_open_row, stamp, close_stage, open_next, decision_status, apply_stage_decision,
}
use norinth.Stages.Transitions.Effect.{
  Effect, unmoved, closed, advanced, apply_stage_decision-Effect,
}

decided_tests :
    (key : String) (a : Stage)
    → is_decided a.status ≡ true
    → (is_open_row key a ≡ false) × ((a.stage_id == key && is_pending a.status) ≡ false)
decided_tests key a h =
    let (o, p) = settled a.status h in
    elim (Bool-cases (a.stage_id == key)) [ inl e ↦ (rw (e, o), rw (e, p)) | inr e ↦ (rw e, rw e) ]
  where
    settled : (s : StageStatus) → is_decided s ≡ true → (is_open s ≡ false) × (is_pending s ≡ false)
    settled open_stage h = absurd (cc)
    settled pending h = absurd (cc)
    settled approved h = (refl, refl)
    settled rejected h = (refl, refl)

close-decided :
    (key : String) (st : StageStatus) (id actor : String) {a : Stage} {rows : List Stage}
    → Memᴰ a rows
    → is_decided a.status ≡ true
    → Memᴰ a (close_stage key st id actor rows)
unfolding close_stage
close-decided key st id actor {a} m h =
    update_of_mem (is_open_row key) (stamp st id actor) m (decided_tests key a h).0

-- Once a stage is approved or rejected no later decision, on whatever stage, changes its row: its
-- status, who decided it and by which decision.
pub apply_stage_decision-keeps_decided :
    (db db' : Db) (stage : Stage) (decision id actor : String)
    → apply_stage_decision db stage decision id actor ≡ ok db'
    → (a : Stage) → Memᴰ a db.stages
    → is_decided a.status ≡ true
    → Memᴰ a db'.stages
unfolding open_next
apply_stage_decision-keeps_decided db db' stage decision id actor h a m dec =
    go db'.stages (apply_stage_decision-Effect db db' stage decision id actor h)
  where
    go : (rows : List Stage) → Effect db.stages stage decision id actor rows → Memᴰ a rows
    go rows (unmoved e) = subst (λ x. Memᴰ a x) (sym e) m
    go rows (closed o e) =
        subst (λ x. Memᴰ a x) (sym e)
          (close-decided stage.stage_id (decision_status decision) id actor m dec)
    go rows (advanced next o d q f e) =
        subst (λ x. Memᴰ a x) (sym e)
          (update_of_mem (λ r. r.stage_id == next.stage_id && is_pending r.status)
            (λ r. record r { status = open_stage })
            (close-decided stage.stage_id approved id actor m dec)
            (decided_tests next.stage_id a dec).1)

-- ===== src/Stages/Transitions/Distinct.antt =====
-- Who has decided the stages of a subject, through apply_stage_decision.
use norinth.Prelude.{
  some, String, ◌&&◌, List, ◌==◌, ◌≡◌, ◌⊎◌, inl, inr, sym, ap, subst, ◌∙◌, text_key, map, Memᴰ,
  eq_iff, Bool-cases, &&-eq-true, mem_of_map,
}
use norinth.Prelude.Result.{ok}
use norinth.Stages.{StageStatus, approved, Stage, Db, is_pending}
use norinth.Stages.Transitions.{
  is_open_row, close_stage, open_next, decision_status, apply_stage_decision,
}
use norinth.Stages.Transitions.Effect.{
  Effect, unmoved, closed, advanced, apply_stage_decision-Effect,
}
use norinth.Stages.Transitions.Places.{
  SameSubject, IsKeyed, close_row, close_row-KeepsPlaces, open_row_next, open_row_next-KeepsPlaces,
  flip_subject, below_subject, moved_place,
}

-- No one has decided two stages of a subject in one round.
abbrev pub IsDistinct : List Stage → Type 0
IsDistinct rows =
    (a b : Stage) (who : String)
    → Memᴰ a rows
    → Memᴰ b rows
    → SameSubject a b
    → a.decided_by ≡ some who
    → b.decided_by ≡ some who
    → a.stage_id ≡ b.stage_id

-- The actor has decided no other stage of the subject.
abbrev pub IsFresh : List Stage → Stage → String → Type 0
IsFresh rows stage actor =
    (r : Stage)
    → Memᴰ r rows
    → SameSubject r stage
    → r.decided_by ≡ some actor
    → r.stage_id ≡ stage.stage_id

-- Who decided a row after close_stage: the actor, on the row of the stage, or who did before.
close_decider :
    (key : String) (st : StageStatus) (id actor : String) (r : Stage)
    → (r.stage_id ≡ key) × ((close_row key st id actor r).decided_by ≡ some actor)
      ⊎ ((close_row key st id actor r).decided_by ≡ r.decided_by)
close_decider key st id actor r = elim (Bool-cases (is_open_row key r)) [
  | inl e ↦ inl ((eq_iff r.stage_id key).0 (&&-eq-true (r.stage_id == key) _ e).0, rw e)
  | inr e ↦ inr (rw e)
]

next_decider : (key : String) (r : Stage) → (open_row_next key r).decided_by ≡ r.decided_by
next_decider key r = elim (Bool-cases (r.stage_id == key && is_pending r.status)) [
  | inl e ↦ rw e
  | inr e ↦ rw e
]

some_inj : {a b : String} → some a ≡ some b → a ≡ b
some_inj h = cc

module _ (rows : List Stage) (stage : Stage) (id actor : String) (listed : Memᴰ stage rows)
    (keyed : IsKeyed rows) (fresh : IsFresh rows stage actor) (distinct : IsDistinct rows) where
  -- A row of the actor's in the subject of a row that is the stage.
  beside_stage :
      (r s : Stage)
      → Memᴰ r rows
      → Memᴰ s rows
      → r.stage_id ≡ stage.stage_id
      → SameSubject r s
      → s.decided_by ≡ some actor
      → s.stage_id ≡ stage.stage_id
  beside_stage r s mr ms k same d =
      fresh s ms
        (subst (λ x. SameSubject s x) (keyed.unique r stage mr listed k) (flip_subject same)) d

  closed-IsDistinct :
      (st : StageStatus) → IsDistinct (map (close_row stage.stage_id st id actor) rows)
  closed-IsDistinct st a b who m n h da db =
      let u = close_row stage.stage_id st id actor in
      let (r, mr, er) = mem_of_map u rows m in
      let (s, ms, es) = mem_of_map u rows n in
      let p = moved_place er (close_row-KeepsPlaces stage.stage_id st id actor r) in
      let q = moved_place es (close_row-KeepsPlaces stage.stage_id st id actor s) in
      let same = below_subject p q h in
      let da' : (u r).decided_by ≡ some who = ap (λ (x : Stage). x.decided_by) (sym er) ∙ da in
      let db' : (u s).decided_by ≡ some who = ap (λ (x : Stage). x.decided_by) (sym es) ∙ db in
      p.key
      ∙ elim (close_decider stage.stage_id st id actor r) [
        | inl (kr, dr) ↦ elim (close_decider stage.stage_id st id actor s) [
          | inl (ks, ds) ↦ kr ∙ sym ks
          | inr ds ↦ kr ∙ sym (beside_stage r s mr ms kr same (sym ds ∙ db' ∙ sym da' ∙ dr))
        ]
        | inr dr ↦ elim (close_decider stage.stage_id st id actor s) [
          | inl (ks, ds) ↦
              beside_stage s r ms mr ks (flip_subject same) (sym dr ∙ da' ∙ sym db' ∙ ds) ∙ sym ks
          | inr ds ↦ distinct r s who mr ms same (sym dr ∙ da') (sym ds ∙ db')
        ]
      ]
      ∙ sym q.key

opened-IsDistinct :
    (key : String) (rows : List Stage) → IsDistinct rows → IsDistinct (map (open_row_next key) rows)
opened-IsDistinct key rows distinct a b who m n h da db =
    let v = open_row_next key in
    let (r, mr, er) = mem_of_map v rows m in
    let (s, ms, es) = mem_of_map v rows n in
    let p = moved_place er (open_row_next-KeepsPlaces key r) in
    let q = moved_place es (open_row_next-KeepsPlaces key s) in
    p.key
    ∙ distinct r s who mr ms (below_subject p q h)
        (sym (next_decider key r) ∙ ap (λ (x : Stage). x.decided_by) (sym er) ∙ da)
        (sym (next_decider key s) ∙ ap (λ (x : Stage). x.decided_by) (sym es) ∙ db)
    ∙ sym q.key

pub apply_stage_decision-IsDistinct :
    (db db' : Db) (stage : Stage) (decision id actor : String)
    → Memᴰ stage db.stages
    → IsKeyed db.stages
    → IsFresh db.stages stage actor
    → IsDistinct db.stages
    → apply_stage_decision db stage decision id actor ≡ ok db'
    → IsDistinct db'.stages
unfolding close_stage open_next
apply_stage_decision-IsDistinct db db' stage decision id actor listed keyed fresh distinct h =
    go db'.stages (apply_stage_decision-Effect db db' stage decision id actor h)
  where
    go : (rows : List Stage) → Effect db.stages stage decision id actor rows → IsDistinct rows
    go rows (unmoved e) = subst IsDistinct (sym e) distinct
    go rows (closed o e) = subst IsDistinct (sym e) (
        closed-IsDistinct db.stages stage id actor listed keyed fresh distinct
          (decision_status decision))
    go rows (advanced next o d q f e) = subst IsDistinct (sym e) (
        opened-IsDistinct next.stage_id _
          (closed-IsDistinct db.stages stage id actor listed keyed fresh distinct approved))

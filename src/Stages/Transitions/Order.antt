-- ===== src/Stages/Transitions/Order.antt =====
-- What the rows of approval_stages keep through apply_stage_decision: their keys and the order of a
-- sequence.
use norinth.Prelude.{
  some, String, true, false, List, ◌≡◌, inl, inr, refl, sym, ap, subst, subst₂, ◌∙◌, ◌≤◌, ◌<◌,
  text_key, number_key, any, find, Memᴰ, arith, eq_iff, Bool-cases, trichotomy, map, mem_of_map,
}
use norinth.Prelude.Result.{ok}
use norinth.Stages.{
  StageStatus, open_stage, approved, Mode, sequence, parallel, Stage, Db, is_open, is_pending,
  is_sequence, of_subject, list_subject_stages,
}
use norinth.Stages.Transitions.{
  is_open_row, close_stage, open_next, decision_status, apply_stage_decision,
}
use norinth.Stages.Transitions.Effect.{
  Effect, unmoved, closed, advanced, apply_stage_decision-Effect,
}
use norinth.Stages.Rows.{next_pending_least}
use norinth.Stages.Transitions.Places.{
  SameSubject, IsKeyed, IsInOrder, same_place, moved_place, below_subject, map-IsKeyed,
  map-IsInOrder, close_row, close_row-KeepsPlaces, open_row, open_row_next,
  open_row_next-KeepsPlaces, next_row, SameSubject-of, of_SameSubject, flip_subject, join_subject,
  moved_stage,
}

pub close_stage-IsInOrder :
    (rows : List Stage) (key : String) (st : StageStatus) (id actor : String)
    → IsInOrder rows
    → IsInOrder (close_stage key st id actor rows)
unfolding close_stage
close_stage-IsInOrder rows key st id actor order =
    map-IsInOrder (close_row key st id actor) rows (close_row-KeepsPlaces key st id actor)
      (λ r h. elim (Bool-cases (is_open_row key r)) [
        | inl e ↦ ap is_pending (open_row key r e).1
        | inr e ↦ rw e at h
      ])
      (λ r h. elim (Bool-cases (is_open_row key r)) [
        | inl e ↦ absurd (let o = (open_row key r e).1 in cc (o, h))
        | inr e ↦ rw e h
      ])
      order

module _ (rows : List Stage) (stage next : Stage) (id actor : String) (keyed : IsKeyed rows)
    (order : IsInOrder rows) (listed : Memᴰ stage rows)
    (was_open : any (is_open_row stage.stage_id) rows ≡ true) (seq : stage.mode ≡ sequence) where
  abbrev u : Stage → Stage
  u = close_row stage.stage_id approved id actor

  abbrev rows₁ : List Stage
  rows₁ = map u rows

  -- Every row of the subject that is not pending once the stage is approved is approved.
  approved_unless_pending :
      (r : Stage)
      → Memᴰ r rows₁
      → SameSubject r stage
      → r.mode ≡ sequence
      → is_pending r.status ≡ false
      → r.status ≡ approved
  approved_unless_pending r m same md np =
      let (r₀, m₀, e) = mem_of_map u rows m in
      let p = moved_place e (close_row-KeepsPlaces stage.stage_id approved id actor r₀) in
      let status = ap (λ (x : Stage). x.status) e in
      let opened = moved_stage rows stage keyed listed was_open in
      let same₀ = below_subject p (same_place stage) same in
      elim (trichotomy r₀.stage_index stage.stage_index) [
        | inl lt ↦
            status
            ∙ stays_approved r₀
                (order r₀ stage m₀ listed same₀ (sym p.mode ∙ md) lt (ap is_pending opened))
        | inr (inl i) ↦
            status
            ∙ becomes r₀ (keyed.unique r₀ stage m₀ listed (keyed.places r₀ stage m₀ listed same₀ i))
                opened
        | inr (inr gt) ↦
            let early =
              order stage r₀ listed m₀ (flip_subject same₀) seq gt
                (not_pending r₀ (ap is_pending (sym status) ∙ np)) in
            absurd (cc (early, opened))
      ]
    where
      stays_approved : (x : Stage) → x.status ≡ approved → (u x).status ≡ approved
      stays_approved x h = elim (Bool-cases (is_open_row stage.stage_id x)) [
        | inl o ↦ rw o
        | inr o ↦ rw o h
      ]

      becomes : (x : Stage) → x ≡ stage → stage.status ≡ open_stage → (u x).status ≡ approved
      becomes x e o =
          let t : is_open_row stage.stage_id x ≡ true =
            rw e (rw ((eq_iff stage.stage_id stage.stage_id).1 refl) (ap is_open o)) in
          rw t

      not_pending : (x : Stage) → is_pending (u x).status ≡ false → is_pending x.status ≡ false
      not_pending x h = elim (Bool-cases (is_open_row stage.stage_id x)) [
        | inl o ↦ ap is_pending (open_row stage.stage_id x o).1
        | inr o ↦ rw o at h
      ]

  -- Opening the first pending stage keeps the order.
  advanced-IsInOrder :
      find
          (λ r. is_pending r.status)
          (list_subject_stages rows₁ stage.subject_type stage.subject_id stage.review_round)
        ≡ some next
      → IsInOrder (map (open_row_next next.stage_id) rows₁)
  unfolding close_stage
  advanced-IsInOrder found a b m n h md lt np =
      let v = open_row_next next.stage_id in
      let (r, mr, er) = mem_of_map v rows₁ m in
      let (s, ms, es) = mem_of_map v rows₁ n in
      let p = moved_place er (open_row_next-KeepsPlaces next.stage_id r) in
      let q = moved_place es (open_row_next-KeepsPlaces next.stage_id s) in
      let same = below_subject p q h in
      let md' = sym p.mode ∙ md in
      let lt' = subst₂ ◌<◌ p.index q.index lt in
      let keyed₁ =
        map-IsKeyed u rows (close_row-KeepsPlaces stage.stage_id approved id actor) keyed in
      let order₁ = close_stage-IsInOrder rows stage.stage_id approved id actor order in
      let (mn, hn, pn, least) = next_pending_least rows₁ _ _ _ next found in
      let done : r.status ≡ approved = elim (next_row next.stage_id s) [
        | inr e ↦
            order₁ r s mr ms same md' lt'
              (ap (λ (x : Stage). is_pending x.status) (sym (es ∙ e)) ∙ np)
        | inl (k, _) ↦
            let s_next : s ≡ next = keyed₁.unique s next ms mn k in
            let same' : SameSubject r stage =
              join_subject (subst (λ x. SameSubject r x) s_next same)
                (SameSubject-of stage next hn) in
            approved_unless_pending r mr same' md' (
              before r (of_SameSubject stage r same')
                (subst (λ (x : Stage). r.stage_index < x.stage_index) s_next lt')
                (λ pr. least r mr (of_SameSubject stage r same') pr))
      ] in
      ap (λ (x : Stage). x.status) er ∙ kept r done
    where
      before :
          (r : Stage)
          → of_subject stage.subject_type stage.subject_id stage.review_round r ≡ true
          → r.stage_index < next.stage_index
          → (is_pending r.status ≡ true → next.stage_index ≤ r.stage_index)
          → is_pending r.status ≡ false
      before r o lt least = elim (Bool-cases (is_pending r.status)) [
        | inl e ↦ absurd (omega (arith, least e))
        | inr e ↦ e
      ]

      kept : (r : Stage) → r.status ≡ approved → (open_row_next next.stage_id r).status ≡ approved
      kept r h = elim (next_row next.stage_id r) [
        | inl (_, e) ↦ absurd (let t = ap is_pending h in cc (t, e))
        | inr e ↦ ap (λ (x : Stage). x.status) e ∙ h
      ]

sequence_mode : (m : Mode) → is_sequence m ≡ true → m ≡ sequence
sequence_mode sequence h = refl
sequence_mode parallel h = absurd (cc)

-- A stage decision keeps the keys of the table and the order of every sequence in it: no stage of a
-- sequence is open or decided while a stage before it is not approved. The stage that it is given
-- is a row of the table.
pub apply_stage_decision-IsInOrder :
    (db db' : Db) (stage : Stage) (decision id actor : String)
    → Memᴰ stage db.stages
    → IsKeyed db.stages
    → IsInOrder db.stages
    → apply_stage_decision db stage decision id actor ≡ ok db'
    → IsKeyed db'.stages × IsInOrder db'.stages
unfolding close_stage open_next
apply_stage_decision-IsInOrder db db' stage decision id actor listed keyed order h =
    go db'.stages (apply_stage_decision-Effect db db' stage decision id actor h)
  where
    go :
        (rows : List Stage)
        → Effect db.stages stage decision id actor rows
        → IsKeyed rows × IsInOrder rows
    go rows (unmoved e) = subst (λ x. IsKeyed x × IsInOrder x) (sym e) (keyed, order)
    go rows (closed o e) =
        let st = decision_status decision in
        subst (λ x. IsKeyed x × IsInOrder x) (sym e)
          (
            map-IsKeyed _ db.stages (close_row-KeepsPlaces stage.stage_id st id actor) keyed,
            close_stage-IsInOrder db.stages stage.stage_id st id actor order,
          )
    go rows (advanced next o d q f e) =
        let keyed₁ =
          map-IsKeyed _ db.stages (close_row-KeepsPlaces stage.stage_id approved id actor) keyed in
        subst (λ x. IsKeyed x × IsInOrder x) (sym e)
          (
            map-IsKeyed _ _ (open_row_next-KeepsPlaces next.stage_id) keyed₁,
            advanced-IsInOrder db.stages stage next id actor keyed order listed o
                (sequence_mode _ q) f,
          )

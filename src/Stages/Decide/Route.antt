-- ===== src/Stages/Decide/Route.antt =====
-- What a successful call of decide_approval_stage has passed, and what it has done.
use norinth.Prelude.{
  Option, none, some, String, true, not, [], ◌∷◌, ◌++◌, ◌==◌, ◌≡◌, ◌⊎◌, inl, inr, refl, sym, ap,
  ◌∙◌, text_key, contains, find, two_branches, not-eq-false,
}
use norinth.Prelude.Result.{Result, ok, err, >>=-eq-ok}
use norinth.Auth.{Actor, Directory, AuthorizationError, require_decision, require_stage_role}
use norinth.Stages.{Stage, Decision, Db}
use norinth.Stages.Transitions.{DecisionError, apply_decision_status, apply_stage_decision}
use norinth.Stages.Transitions.Effect.{stages-apply_decision_status, sync_decision-stage}
use norinth.Stages.Decide.{
  WorkItem, StageRefusal, no_such_stage, no_subject, lift_forbidden, lift_failed, or_refuse,
  load_stage_subject, check_open, check_duties, stage_target, new_decision, store_decision,
  record_decision, load_decision_target, decide_approval_stage,
}

pub or_refuse-eq-ok :
    {A : Type 0} (o : Option A) (e : StageRefusal) {a : A} → or_refuse o e ≡ ok a → o ≡ some a
or_refuse-eq-ok none e h = absurd (cc)
or_refuse-eq-ok (some b) e h = ap some (cc)

lift_forbidden-eq-ok : (r : Result AuthorizationError Unit) → lift_forbidden r ≡ ok tt → r ≡ ok tt
unfolding lift_forbidden
lift_forbidden-eq-ok (ok a) h = refl
lift_forbidden-eq-ok (err e) h = absurd (cc)

lift_failed-eq-ok : (r : Result DecisionError Db) (db : Db) → lift_failed r ≡ ok db → r ≡ ok db
unfolding lift_failed
lift_failed-eq-ok (ok a) db h = ap ok (cc)
lift_failed-eq-ok (err e) db h = absurd (cc)

module _ (decision_key : String → String → String → String → String → String) where
  -- The guards that a successful call has passed, in their order.
  pub record Passed (d : Directory) (db : Db) (actor : Actor) (stage_id decision : String)
      : Type 0 where
    pub stage : Stage
    pub subject : WorkItem
    pub known : contains decision ("approve" ∷ "reject" ∷ []) ≡ true
    pub found : find (λ (s : Stage). s.stage_id == stage_id) db.stages ≡ some stage
    pub loaded : load_stage_subject db stage ≡ some subject
    pub undecided : check_open db stage subject ≡ ok tt
    pub permitted : require_decision d actor (stage_target stage) ≡ ok tt
    pub authority : require_stage_role d actor stage.required_role (stage_target stage) ≡ ok tt
    pub duties : check_duties db stage subject actor.user_ref ≡ ok tt

  pub decide_approval_stage-Passed :
      (d : Directory) (db db' : Db) (actor : Actor) (stage_id decision rationale : String)
      → decide_approval_stage decision_key d db actor stage_id decision rationale ≡ ok db'
      → (p : Passed d db actor stage_id decision) × (record_decision decision_key db
            "approval_stage" stage_id decision rationale actor.user_ref none
          ≡ ok db')
  unfolding decide_approval_stage
  decide_approval_stage-Passed d db db' actor stage_id decision rationale h =
      elim (two_branches (not (contains decision ("approve" ∷ "reject" ∷ []))) _ _ (ok db') h) [
        | inl (_, e) ↦ absurd (cc e)
        | inr (known, e) ↦
            let (stage, f, h₁) =
              >>=-eq-ok (or_refuse (find (λ s. s.stage_id == stage_id) db.stages) no_such_stage) _
                e in
            let (subject, l, h₂) =
              >>=-eq-ok (or_refuse (load_stage_subject db stage) no_subject) _ h₁ in
            let (_, o, h₃) = >>=-eq-ok (check_open db stage subject) _ h₂ in
            let (_, p, h₄) =
              >>=-eq-ok (lift_forbidden (require_decision d actor (stage_target stage))) _ h₃ in
            let (_, r, h₅) =
              >>=-eq-ok
                (lift_forbidden
                  (require_stage_role d actor stage.required_role (stage_target stage)))
                _ h₄ in
            let (_, s, h₆) = >>=-eq-ok (check_duties db stage subject actor.user_ref) _ h₅ in
            (
              record {
                stage = stage;
                subject = subject;
                known = not-eq-false _ known;
                found = or_refuse-eq-ok _ no_such_stage f;
                loaded = or_refuse-eq-ok _ no_subject l;
                undecided = o;
                permitted = lift_forbidden-eq-ok _ p;
                authority = lift_forbidden-eq-ok _ r;
                duties = s;
              },
              lift_failed-eq-ok _ db' h₆,
            )
      ]

  -- The decision was recorded before and nothing moves, or it is applied to the stage, on rows of
  -- approval_stages that are still those of the call.
  pub record_decision-stage :
      (db db' : Db) (stage : Stage) (stage_id decision rationale actor : String)
      → contains decision ("approve" ∷ "reject" ∷ []) ≡ true
      → find (λ (s : Stage). s.stage_id == stage_id) db.stages ≡ some stage
      → record_decision decision_key db "approval_stage" stage_id decision rationale actor none
        ≡ ok db'
      → (db' ≡ db)
        ⊎ ((db₁ : Db) × (id : String) × (db₁.stages ≡ db.stages)
            × (apply_stage_decision db₁ stage decision id actor ≡ ok db'))
  unfolding record_decision
  record_decision-stage db db' stage stage_id decision rationale actor known found h =
      let (tenant, _, h₁) =
        >>=-eq-ok (load_decision_target db "approval_stage" stage_id none) _ h in
      go tenant
        (find
          (λ (d : Decision).
            d.decision_id == decision_key "approval_stage" stage_id decision rationale actor)
          db.decisions)
        h₁
    where
      go :
          (tenant : Option String) (o : Option Decision)
          → store_decision decision_key db
              (new_decision decision_key tenant "approval_stage" stage_id decision rationale actor)
              o
            ≡ ok db'
          → (db' ≡ db)
            ⊎ ((db₁ : Db) × (id : String) × (db₁.stages ≡ db.stages)
                × (apply_stage_decision db₁ stage decision id actor ≡ ok db'))
      go tenant (some d) e = inl (cc)
      go tenant none e =
          let new =
            new_decision decision_key tenant "approval_stage" stage_id decision rationale actor in
          let db₁ =
            apply_decision_status (record db { decisions = db.decisions ++ new ∷ [] })
              "approval_stage" stage_id decision in
          let same =
            stages-apply_decision_status (record db { decisions = db.decisions ++ new ∷ [] })
              "approval_stage" stage_id decision in
          inr (
            db₁,
            new.decision_id,
            same,
            sym (
                  sync_decision-stage db₁ stage stage_id decision actor new.decision_id known
                    (ap (find (λ (s : Stage). s.stage_id == stage_id)) same ∙ found))
                ∙ e,
          )

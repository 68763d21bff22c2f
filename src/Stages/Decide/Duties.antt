-- ===== src/Stages/Decide/Duties.antt =====
-- Segregation of duties over the stages of a subject, as decide_approval_stage keeps it.
use norinth.Prelude.{
  Option, some, String, true, false, not, ◌&&◌, List, ◌==◌, ◌≡◌, ◌≢◌, inl, inr, refl, sym, subst,
  text_key, option_key, find, Memᴰ, eq_iff, same_option_iff, Bool-cases, and_iff, three_branches,
  mem_of_find, any_of_mem,
}
use norinth.Prelude.Result.{ok, err}
use norinth.Auth.{Actor, Directory, require_stage_role, truthy}
use norinth.Stages.{Stage, Db, of_subject}
use norinth.Stages.Transitions.{apply_stage_decision}
use norinth.Stages.Transitions.Places.{IsKeyed, IsInOrder, of_SameSubject}
use norinth.Stages.Transitions.Order.{apply_stage_decision-IsInOrder}
use norinth.Stages.Transitions.Distinct.{IsDistinct, IsFresh, apply_stage_decision-IsDistinct}
use norinth.Stages.Decide.{
  WorkItem, load_stage_subject, stage_maker, actor_decided_sibling_stage, decided_sibling,
  check_duties, decide_approval_stage, own_work, sibling_decided, stage_target,
}
use norinth.Stages.Decide.Route.{decide_approval_stage-Passed, record_decision-stage}

IsFresh-of_check :
    (db : Db) (stage : Stage) (actor : String)
    → actor_decided_sibling_stage db stage actor ≡ false
    → IsFresh db.stages stage actor
unfolding actor_decided_sibling_stage
IsFresh-of_check db stage actor h r m same d = elim (Bool-cases (r.stage_id == stage.stage_id)) [
  | inl e ↦ (eq_iff r.stage_id stage.stage_id).0 e
  | inr e ↦
      let t : decided_sibling stage actor r ≡ true =
        (and_iff (of_subject stage.subject_type stage.subject_id stage.review_round r)
            (not (r.stage_id == stage.stage_id)) (r.decided_by == some actor)).1
          (of_SameSubject stage r same, rw e, (same_option_iff r.decided_by (some actor)).1 d) in
      absurd (let y = any_of_mem (decided_sibling stage actor) m t in cc (y, h))
]

pub record IsSound (rows : List Stage) : Type 0 where
  pub keyed : IsKeyed rows
  pub in_order : IsInOrder rows
  pub distinct : IsDistinct rows

duties_of_check :
    (db : Db) (stage : Stage) (subject : WorkItem) (actor : String)
    → check_duties db stage subject actor ≡ ok tt
    → ((truthy (stage_maker db subject) && stage_maker db subject == some actor) ≡ false)
      × (actor_decided_sibling_stage db stage actor ≡ false)
unfolding check_duties
duties_of_check db stage subject actor h =
    elim (three_branches _ (actor_decided_sibling_stage db stage actor) (err own_work)
      (err sibling_decided) (ok tt) (ok tt) h) [
        | inl (_, e) ↦ absurd (cc e)
        | inr (inl (_, _, e)) ↦ absurd (cc e)
        | inr (inr (a, b, _)) ↦ (a, b)
      ]

not_maker :
    (maker : Option String) (actor : String)
    → truthy (some actor) ≡ true
    → (truthy maker && maker == some actor) ≡ false
    → maker ≢ some actor
not_maker maker actor t h e =
    let both : (truthy maker && maker == some actor) ≡ true =
      rw (e, t) ((same_option_iff (some actor) (some actor)).1 refl) in
    absurd (cc (both, h))

module _ (decision_key : String → String → String → String → String → String) where
  -- A successful call of decide_approval_stage comes from an actor who passed the authority test of
  -- the stage, who is not the maker of its subject and who has decided no other stage of the
  -- subject in this round. The actor's reference is not empty.
  pub decide_approval_stage-duties :
      (d : Directory) (db db' : Db) (actor : Actor) (stage_id decision rationale : String)
      → truthy (some actor.user_ref) ≡ true
      → decide_approval_stage decision_key d db actor stage_id decision rationale ≡ ok db'
      → (stage : Stage) × (subject : WorkItem) × (find
            (λ (s : Stage). s.stage_id == stage_id)
            db.stages
          ≡ some stage)
        × (load_stage_subject db stage ≡ some subject)
        × (require_stage_role d actor stage.required_role (stage_target stage) ≡ ok tt)
        × (stage_maker db subject ≢ some actor.user_ref)
        × IsFresh db.stages stage actor.user_ref
  decide_approval_stage-duties d db db' actor stage_id decision rationale named h =
      let (p, _) =
        decide_approval_stage-Passed decision_key d db db' actor stage_id decision rationale h in
      let (m, s) = duties_of_check db p.stage p.subject actor.user_ref p.duties in
      (
        p.stage,
        p.subject,
        p.found,
        p.loaded,
        p.authority,
        not_maker (stage_maker db p.subject) actor.user_ref named m,
        IsFresh-of_check db p.stage actor.user_ref s,
      )

  -- decide_approval_stage keeps the table of stages sound: one row for each key and place, no stage
  -- of a sequence open or decided before its predecessors are approved, and no person deciding two
  -- stages of a subject in one round.
  pub decide_approval_stage-IsSound :
      (d : Directory) (db db' : Db) (actor : Actor) (stage_id decision rationale : String)
      → IsSound db.stages
      → decide_approval_stage decision_key d db actor stage_id decision rationale ≡ ok db'
      → IsSound db'.stages
  decide_approval_stage-IsSound d db db' actor stage_id decision rationale sound h =
      let (p, r) =
        decide_approval_stage-Passed decision_key d db db' actor stage_id decision rationale h in
      let fresh =
        IsFresh-of_check db p.stage actor.user_ref
          (duties_of_check db p.stage p.subject actor.user_ref p.duties).1 in
      let listed = (mem_of_find (λ (s : Stage). s.stage_id == stage_id) db.stages p.found).0 in
      elim (record_decision-stage decision_key db db' p.stage stage_id decision rationale
        actor.user_ref p.known p.found r) [
          | inl e ↦ subst (λ (x : Db). IsSound x.stages) (sym e) sound
          | inr (db₁, id, same, e) ↦
              moved db₁ db' p.stage id decision actor.user_ref
                (subst (λ x. Memᴰ p.stage x) (sym same) listed) (subst IsSound (sym same) sound)
                (subst (λ x. IsFresh x p.stage actor.user_ref) (sym same) fresh) e
        ]
    where
      moved :
          (db₁ db' : Db) (stage : Stage) (id decision actor : String)
          → Memᴰ stage db₁.stages
          → IsSound db₁.stages
          → IsFresh db₁.stages stage actor
          → apply_stage_decision db₁ stage decision id actor ≡ ok db'
          → IsSound db'.stages
      moved db₁ db' stage id decision actor m sound fresh e =
          let (k, o) =
            apply_stage_decision-IsInOrder db₁ db' stage decision id actor m sound.keyed
              sound.in_order e in
          record {
            keyed = k;
            in_order = o;
            distinct =
                apply_stage_decision-IsDistinct db₁ db' stage decision id actor m sound.keyed fresh
                  sound.distinct e;
          }

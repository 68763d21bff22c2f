-- ===== src/Stages/Checklist.antt =====
-- The checklist that materialize_stages of apps/platform/app/storage/policy_engine.py writes for a
-- subject without stages.
use norinth.Prelude.{
  none, String, Bool, true, false, List, [], ◌∷◌, ◌++◌, ◌==◌, ◌≡◌, ◌≢◌, inl, inr, refl, sym, ap,
  subst, ◌∙◌, ℕ, suc, ◌≤◌, ◌<◌, text_key, number_key, any, Memᴰ, arith, Bool-cases, eq_iff, eqb_iff,
  mem_of_any, and_iff, any_of_mem,
}
use mathlib.Core.List.{append-nil, append_assoc}
use norinth.Stages.{
  Stage, open_stage, pending, Mode, sequence, parallel, StageSpec, Subject, of_subject,
  first_status, new_stage, insert_stages, materialize_stages,
}
use norinth.Stages.Transitions.Places.{IsInOrder}
use norinth.Stages.Materialized.{materialize_stages-IsInOrder}

pub record IsStageOf (s : Subject) (a : Stage) : Type 0 where
  pub kind : a.subject_type ≡ s.subject_type
  pub subject : a.subject_id ≡ s.subject_id
  pub round : a.review_round ≡ s.review_round

-- An undecided stage of the subject at its place, under the policy that gave it.
pub record IsFresh (s : Subject) (index : ℕ) (spec : StageSpec) (a : Stage) : Type 0 where
  pub of_its_subject : IsStageOf s a
  pub tenant : a.tenant_id ≡ s.tenant_id
  pub owner : a.policy_tenant ≡ s.policy_tenant
  pub version : a.policy_version ≡ s.policy_version
  pub place : a.stage_index ≡ index
  pub role : a.required_role ≡ spec.role
  pub mode : a.mode ≡ s.mode
  pub first_opened : index ≡ 0 → a.status ≡ open_stage
  pub all_opened : s.mode ≡ parallel → a.status ≡ open_stage
  pub waiting : s.mode ≡ sequence → 0 < index → a.status ≡ pending
  pub undecided : (a.decision_id ≡ none) × (a.decided_by ≡ none)

-- One fresh stage for each spec, at the places from `index` on.
pub data IsRun (s : Subject) : ℕ → List StageSpec → List Stage → Type 0 where
  end_of_run : {index : ℕ} → IsRun s index [] []
  next :
      {index : ℕ} {spec : StageSpec} {specs : List StageSpec} {a : Stage} {rows : List Stage}
      → IsFresh s index spec a
      → IsRun s (suc index) specs rows
      → IsRun s index (spec ∷ specs) (a ∷ rows)

-- What the call makes of the table, and its answer: nothing where a row is a stage of the subject,
-- and else a run of all its stages.
pub data IsMaterialized (s : Subject) (specs : List StageSpec) (rows : List Stage)
    : List Stage × Bool → Type 0 where
  pinned : (a : Stage) → Memᴰ a rows → IsStageOf s a → IsMaterialized s specs rows (rows, false)
  created :
      (new : List Stage)
      → ((a : Stage) → Memᴰ a rows → IsStageOf s a → ⊥)
      → IsRun s 0 specs new
      → IsMaterialized s specs rows (rows ++ new, true)

own-IsStageOf :
    (s : Subject) (a : Stage)
    → of_subject s.subject_type s.subject_id s.review_round a ≡ true
    → IsStageOf s a
own-IsStageOf s a h =
    let (k, i, r) =
      (and_iff (a.subject_type == s.subject_type) (a.subject_id == s.subject_id)
          (a.review_round == s.review_round)).0
        h in
    record {
      kind = (eq_iff a.subject_type s.subject_type).0 k;
      subject = (eq_iff a.subject_id s.subject_id).0 i;
      round = (eqb_iff a.review_round s.review_round).0 r;
    }

of_subject-own :
    (s : Subject) (a : Stage)
    → IsStageOf s a
    → of_subject s.subject_type s.subject_id s.review_round a ≡ true
of_subject-own s a o =
    (and_iff (a.subject_type == s.subject_type) (a.subject_id == s.subject_id)
        (a.review_round == s.review_round)).1
      (
        (eq_iff a.subject_type s.subject_type).1 o.kind,
        (eq_iff a.subject_id s.subject_id).1 o.subject,
        (eqb_iff a.review_round s.review_round).1 o.round,
      )

any_after :
    (p : Stage → Bool) (rows : List Stage) (a : Stage)
    → any p rows ≡ false
    → p a ≡ false
    → any p (rows ++ a ∷ []) ≡ false
any_after p [] a h e = rw e
any_after p (r ∷ rows) a h e = elim (Bool-cases (p r)) [
  | inl f ↦ absurd (let t = rw f at h in cc t)
  | inr f ↦ rw f (any_after p rows a (rw f at h) e)
]

unlike : (a b : String) → a ≢ b → (a == b) ≡ false
unlike a b d = elim (Bool-cases (a == b)) [ inl e ↦ absurd (d ((eq_iff a b).0 e)) | inr e ↦ e ]

module _ (stage_key : String → String → ℕ → ℕ → String) where
  abbrev key_at : Subject → ℕ → String
  key_at s index = stage_key s.subject_type s.subject_id s.review_round index

  new_stage-IsFresh :
      (s : Subject) (index : ℕ) (spec : StageSpec)
      → IsFresh s index spec (new_stage stage_key s index spec)
  new_stage-IsFresh s index spec = record {
    of_its_subject = record { kind = refl; subject = refl; round = refl };
    tenant = refl;
    owner = refl;
    version = refl;
    place = refl;
    role = refl;
    mode = refl;
    first_opened = λ e. starts s.mode index e;
    all_opened = λ e. ap (λ m. first_status m index) e;
    waiting = λ e lt. ap (λ m. first_status m index) e ∙ later index lt;
    undecided = (refl, refl);
  }
    where
      starts : (m : Mode) (i : ℕ) → i ≡ 0 → first_status m i ≡ open_stage
      starts sequence i e = let t = (eqb_iff i 0).1 e in rw t
      starts parallel i e = refl

      later : (i : ℕ) → 0 < i → first_status sequence i ≡ pending
      later i lt = let t : (i == 0) ≡ false = ground (arith, lt) in rw t

  -- The loop over specs whose keys are free adds a row for each of them, in order.
  insert_stages-IsRun :
      (s : Subject) (index : ℕ) (specs : List StageSpec) (rows : List Stage)
      → ((i j : ℕ) → key_at s i ≡ key_at s j → i ≡ j)
      → ((i : ℕ) → index ≤ i → any (λ (r : Stage). r.stage_id == key_at s i) rows ≡ false)
      → (new : List Stage) × (insert_stages stage_key s index specs rows ≡ rows ++ new)
        × IsRun s index specs new
  unfolding insert_stages
  insert_stages-IsRun s index [] rows apart free = ([], sym (append-nil rows), IsRun.end_of_run)
  insert_stages-IsRun s index (spec ∷ specs) rows apart free =
      let row = new_stage stage_key s index spec in
      let f = free index (omega arith) in
      let (new, e, run) = insert_stages-IsRun s (suc index) specs (rows ++ row ∷ []) apart later in
      (
        row ∷ new,
        rw f (e ∙ append_assoc rows (row ∷ []) new),
        IsRun.next (new_stage-IsFresh s index spec) run,
      )
    where
      later :
          (i : ℕ)
          → suc index ≤ i
          → any
              (λ (r : Stage). r.stage_id == key_at s i)
              (rows ++ new_stage stage_key s index spec ∷ [])
            ≡ false
      later i le =
          any_after (λ (r : Stage). r.stage_id == key_at s i) rows
            (new_stage stage_key s index spec) (free i (omega (arith, le)))
            (unlike _ _ (λ e. let k = apart index i e in absurd (omega (arith, k, le))))

  materialized :
      (s : Subject) (specs : List StageSpec) (rows : List Stage)
      → ((i j : ℕ) → key_at s i ≡ key_at s j → i ≡ j)
      → ((a : Stage) (i : ℕ) → Memᴰ a rows → a.stage_id ≡ key_at s i → IsStageOf s a)
      → IsMaterialized s specs rows (materialize_stages stage_key s specs rows)
  unfolding materialize_stages
  materialized s specs rows apart own =
      elim (Bool-cases (any (of_subject s.subject_type s.subject_id s.review_round) rows)) [
        | inl e ↦
            let (a, m, q) =
              mem_of_any (of_subject s.subject_type s.subject_id s.review_round) rows e in
            rw e (IsMaterialized.pinned a m (own-IsStageOf s a q))
        | inr e ↦
            let none_own = λ (a : Stage) (m : Memᴰ a rows) (o : IsStageOf s a).
              clash a m (of_subject-own s a o) e in
            let (new, h, run) = insert_stages-IsRun s 0 specs rows apart (λ i le. free e i) in
            rw e (
              subst (λ t. IsMaterialized s specs rows (t, true)) (sym h)
                (IsMaterialized.created new none_own run))
      ]
    where
      clash :
          (a : Stage)
          → Memᴰ a rows
          → of_subject s.subject_type s.subject_id s.review_round a ≡ true
          → any (of_subject s.subject_type s.subject_id s.review_round) rows ≡ false
          → ⊥
      clash a m q e =
          let t = any_of_mem (of_subject s.subject_type s.subject_id s.review_round) m q in
          cc (t, e)

      free :
          any (of_subject s.subject_type s.subject_id s.review_round) rows ≡ false
          → (i : ℕ) → any (λ (r : Stage). r.stage_id == key_at s i) rows ≡ false
      free e i = elim (Bool-cases (any (λ (r : Stage). r.stage_id == key_at s i) rows)) [
        | inr f ↦ f
        | inl f ↦
            let (a, m, q) = mem_of_any (λ (r : Stage). r.stage_id == key_at s i) rows f in
            absurd
              (clash a m (of_subject-own s a (own a i m ((eq_iff a.stage_id (key_at s i)).0 q))) e)
      ]

  -- Materializing stages leaves the table as it is where a row of it is a stage of the subject. Else
  -- it adds, after the rows that were there, one undecided stage for each stage of the policy, in
  -- order and with its role: the first is open, and of the others all are open in parallel and all
  -- are pending in sequence. The answer says which. Sequences that were in order stay so. Stage ids
  -- of the subject differ by their index, and a row that has one is a stage of the subject.
  pub materialize_stages-IsMaterialized :
      (s : Subject) (specs : List StageSpec) (rows : List Stage)
      → ((i j : ℕ)
          → stage_key s.subject_type s.subject_id s.review_round i
            ≡ stage_key s.subject_type s.subject_id s.review_round j
          → i ≡ j)
      → ((a : Stage) (i : ℕ)
          → Memᴰ a rows
          → a.stage_id ≡ stage_key s.subject_type s.subject_id s.review_round i
          → IsStageOf s a)
      → IsInOrder rows
      → IsMaterialized s specs rows (materialize_stages stage_key s specs rows)
        × IsInOrder (materialize_stages stage_key s specs rows).0
  materialize_stages-IsMaterialized s specs rows apart own order = (
    materialized s specs rows apart own,
    materialize_stages-IsInOrder stage_key s specs rows order,
  )

-- ===== src/Stages/Materialized.antt =====
-- The stages that materialize_stages adds for a subject.
use norinth.Prelude.{
  String, Bool, true, false, not, ◌||◌, List, [], ◌∷◌, ◌++◌, ◌==◌, ◌≡◌, ◌⊎◌, inl, inr, refl, sym,
  ap, subst, ◌∙◌, ℕ, suc, text_key, number_key, if◌then◌else◌, any, Memᴰ, arith, Bool-cases,
  eqb_iff, mem_append, mem_append_left, any_of_mem, not_mem_nil, mem_append_right, and_iff,
  same_refl,
}
use norinth.Stages.{
  Stage, open_stage, pending, Mode, sequence, StageSpec, Subject, of_subject, is_pending,
  is_sequence, first_status, new_stage, insert_or_ignore, insert_stages, materialize_stages,
}
use norinth.Stages.Transitions.Places.{SameSubject, IsInOrder, of_SameSubject, flip_subject}

module _ (stage_key : String → String → ℕ → ℕ → String) where
  -- A row after the loop was there before, or is one of the new stages.
  inserted :
      (s : Subject) (index : ℕ) (specs : List StageSpec) (rows : List Stage) {a : Stage}
      → Memᴰ a (insert_stages stage_key s index specs rows)
      → Memᴰ a rows ⊎ ((i : ℕ) × (spec : StageSpec) × (a ≡ new_stage stage_key s i spec))
  unfolding insert_stages
  inserted s index [] rows m = inl m
  inserted s index (spec ∷ specs) rows m =
      elim (inserted s (suc index) specs
        (insert_or_ignore stage_key (new_stage stage_key s index spec) rows) m) [
          | inr new ↦ inr new
          | inl n ↦
              or_ignored (any (λ r. r.stage_id == (new_stage stage_key s index spec).stage_id) rows)
                n
        ]
    where
      or_ignored :
          {a : Stage} (t : Bool)
          → Memᴰ a (if t then rows else rows ++ new_stage stage_key s index spec ∷ [])
          → Memᴰ a rows ⊎ ((i : ℕ) × (spec : StageSpec) × (a ≡ new_stage stage_key s i spec))
      or_ignored true n = inl n
      or_ignored false n = elim (mem_append rows (new_stage stage_key s index spec ∷ []) n) [
        | inl k ↦ inl k
        | inr (Memᴰ.head e) ↦ inr (index, spec, e)
        | inr (Memᴰ.tail k) ↦ absurd (not_mem_nil k)
      ]

  kept :
      (s : Subject) (index : ℕ) (specs : List StageSpec) {rows : List Stage} {a : Stage}
      → Memᴰ a rows
      → Memᴰ a (insert_stages stage_key s index specs rows)
  unfolding insert_stages
  kept s index [] m = m
  kept s index (spec ∷ specs) {rows} {a} m =
      kept s (suc index) specs
        (still (any (λ r. r.stage_id == (new_stage stage_key s index spec).stage_id) rows))
    where
      still :
          (t : Bool) → Memᴰ a (if t then rows else rows ++ new_stage stage_key s index spec ∷ [])
      still true = m
      still false = mem_append_left _ m

  -- A new stage of a sequence that is not pending is its first.
  first_of_sequence :
      (mode : Mode) (i : ℕ) → mode ≡ sequence → is_pending (first_status mode i) ≡ false → i ≡ 0
  first_of_sequence mode i e h = elim (Bool-cases (i == 0)) [
    | inl z ↦ (eqb_iff i 0).0 z
    | inr n ↦ absurd (
        let p : first_status mode i ≡ pending =
          ap (λ m. if not (is_sequence m) || i == 0 then open_stage else pending) e ∙ (rw n) in
        let t = ap is_pending p in cc (t, h))
  ]

  -- Materializing the stages of a subject keeps the order of every sequence.
  pub materialize_stages-IsInOrder :
      (s : Subject) (specs : List StageSpec) (rows : List Stage)
      → IsInOrder rows
      → IsInOrder (materialize_stages stage_key s specs rows).0
  unfolding materialize_stages
  materialize_stages-IsInOrder s specs rows order =
      elim (Bool-cases (any (of_subject s.subject_type s.subject_id s.review_round) rows)) [
        | inl e ↦ rw e order
        | inr e ↦ rw e (ordered e)
      ]
    where
      is_new : Stage → Type 0
      is_new a = (i : ℕ) × (spec : StageSpec) × (a ≡ new_stage stage_key s i spec)

      clash :
          any (of_subject s.subject_type s.subject_id s.review_round) rows ≡ false
          → (a b : Stage) → Memᴰ a rows
          → is_new b
          → SameSubject a b
          → ⊥
      clash e a b m (i, spec, eq) same =
          let t = any_of_mem (of_subject s.subject_type s.subject_id s.review_round) m (
            of_SameSubject (new_stage stage_key s i spec) a
              (subst (λ x. SameSubject a x) eq same)) in
          cc (t, e)

      ordered :
          any (of_subject s.subject_type s.subject_id s.review_round) rows ≡ false
          → IsInOrder (insert_stages stage_key s 0 specs rows)
      ordered e a b m n same md lt np = elim (inserted s 0 specs rows m) [
        | inl m' ↦ elim (inserted s 0 specs rows n) [
          | inl n' ↦ order a b m' n' same md lt np
          | inr new ↦ absurd (clash e a b m' new same)
        ]
        | inr (i, spec, ea) ↦ elim (inserted s 0 specs rows n) [
          | inl n' ↦ absurd (clash e b a n' (i, spec, ea) (flip_subject same))
          | inr (j, spec', eb) ↦
              let z =
                first_of_sequence s.mode j (ap (λ (x : Stage). x.mode) (sym ea) ∙ md)
                  (ap (λ (x : Stage). is_pending x.status) (sym eb) ∙ np) in
              let k : b.stage_index ≡ 0 = ap (λ (x : Stage). x.stage_index) eb ∙ z in
              absurd (omega (arith, k, lt))
        ]
      ]

  -- The stages of a subject are pinned: what a first call adds is neither changed nor added to by a
  -- later call, whatever stages that is given, and every row that was there stays. The policy of the
  -- first call has a stage, and no other subject's row has its key.
  pub materialize_stages_once :
      (s : Subject) (spec : StageSpec) (specs later : List StageSpec) (rows : List Stage)
      (a : Stage)
      → Memᴰ a rows
      → any (λ (r : Stage). r.stage_id == (new_stage stage_key s 0 spec).stage_id) rows ≡ false
      → (materialize_stages stage_key s later (materialize_stages stage_key s (spec ∷ specs) rows).0
          ≡ ((materialize_stages stage_key s (spec ∷ specs) rows).0, false))
        × Memᴰ a (materialize_stages stage_key s (spec ∷ specs) rows).0
  unfolding materialize_stages insert_stages
  materialize_stages_once s spec specs later rows a m free =
      elim (Bool-cases (any (of_subject s.subject_type s.subject_id s.review_round) rows)) [
        | inl e ↦ rw (e, e) (refl, m)
        | inr e ↦
            let new = new_stage stage_key s 0 spec in
            let there : Memᴰ new (insert_stages stage_key s 1 specs (rows ++ new ∷ [])) =
              kept s 1 specs (mem_append_right rows (Memᴰ.head refl)) in
            let own : of_subject s.subject_type s.subject_id s.review_round new ≡ true =
              (and_iff (s.subject_type == s.subject_type) (s.subject_id == s.subject_id)
                  (s.review_round == s.review_round)).1
                (same_refl s.subject_type, same_refl s.subject_id, same_refl s.review_round) in
            let found =
              any_of_mem (of_subject s.subject_type s.subject_id s.review_round) there own in
            rw (e, free, found) (refl, kept s 1 specs (mem_append_left (new ∷ []) m))
      ]

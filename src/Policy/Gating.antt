-- ===== src/Policy/Gating.antt =====
-- The gates of deployments under the documents of a policy: what a stricter document asks of them.
-- The window of the coverage is part of a document, and a control without traffic in the window
-- counts as covered, so a shorter window can leave fewer controls or more of them below the minimum.
mod Examples
use norinth.Prelude.{
  Option, none, some, String, Bool, true, false, not, ◌&&◌, ◌||◌, List, [], ◌∷◌, ◌==◌, ◌≡◌, inl,
  inr, refl, sym, ap, subst, ◌∙◌, ℕ, suc, ◌≤◌, text_key, number_key, if◌then◌else◌, ltb, length,
  filter, Memᴰ, mem_of_filter, filter_of_mem, arith, Bool-cases, ||-eq-true, not_mem_nil,
}
use norinth.Prelude.Result.{ok}
use norinth.Gates.{
  GateRules, GateDb, Gate, Version, ObservedEvent, EvalAttributes, Requirements, GateEvidence,
  gate_evidence_counts, live_gate_evidence, gate_params, count_passing_eval_evidence,
  counts_as_evidence, is_eval_of, is_bound, check_evidence,
}
use norinth.Gates.Blockers.{IsClear, IsClear-of_check, check_of_IsClear}
use norinth.Policy.{Document, GateEntry, PolicyRow}
use norinth.Policy.Resolve.{requirements_of, gate_entry, evidence_settings}
use norinth.Policy.Resolve.Agree.{none_open}
use norinth.Policy.Loosening.{policy_loosening}
use norinth.Policy.Loosening.Strict.{IsStricter, policy_loosening-IsStricter}

-- A control whose coverage is below the minimum; without traffic in the window there is none.
abbrev pub is_short : ℕ → Option ℕ → Bool
is_short minimum none = false
is_short minimum (some pct) = ltb pct minimum

-- The loop of count_undercovered_controls over the coverage of the passing controls.
abbrev pub count_short : List (Option ℕ) → ℕ → ℕ
count_short pcts minimum = length (filter (is_short minimum) pcts)

-- The rules of gates while a document is in force: resolve_gate_policy gives its requirements, and
-- count_undercovered_controls measures in its window. `coverage` is control_coverage, which
-- is given the window in days: the coverage_pct of each passing control of a version's application
-- that has evidence types, in the unit of the minimum.
abbrev pub under :
    GateRules
    → (ℕ → GateDb → Version → List (Option ℕ))
    → Document
    → Document
    → PolicyRow
    → GateRules
under rules coverage d default row = record rules {
  resolve_gate_policy =
      λ tenant environment. requirements_of (gate_entry d default environment) row;
  count_undercovered_controls = λ db v minimum.
      count_short (coverage (evidence_settings d default).coverage_window_days db v) minimum;
}

counts_less :
    (v : Version) (more less : Bool) (a : Option EvalAttributes)
    → (less ≡ true → more ≡ true)
    → counts_as_evidence v more a ≡ true
    → counts_as_evidence v less a ≡ true
counts_less v more less none h c = c
counts_less v more less (some a) h c =
    go a.passed more less a.attested (is_bound a.artifact_ref a.prompt_version v) h c
  where
    go :
        (passed more less attested bound : Bool)
        → (less ≡ true → more ≡ true)
        → (if not passed then false else if more && not attested then false else bound) ≡ true
        → (if not passed then false else if less && not attested then false else bound) ≡ true
    go false more less attested bound h c = c
    go true false false attested bound h c = c
    go true true false true bound h c = c
    go true true false false bound h c = absurd (cc c)
    go true more true attested bound h c = let e = h refl in rw e at c

not_none : {A : Type 0} (xs : List A) {x : A} → Memᴰ x xs → (length xs == 0) ≡ false
not_none [] m = absurd (not_mem_nil m)
not_none (x ∷ xs) m = above_zero (length xs)
  where
    above_zero : (n : ℕ) → (suc n == 0) ≡ false
    above_zero n = ground arith

first_one : {A : Type 0} (xs : List A) → (length xs == 0) ≡ false → (x : A) × Memᴰ x xs
first_one [] h = absurd (cc h)
first_one (x ∷ xs) h = (x, Memᴰ.head refl)

evals_less :
    (events : List ObservedEvent) (v : Version) (more less : Bool)
    → (less ≡ true → more ≡ true)
    → (count_passing_eval_evidence events v more == 0) ≡ false
    → (count_passing_eval_evidence events v less == 0) ≡ false
unfolding count_passing_eval_evidence
evals_less events v more less h c =
    let evals = filter (is_eval_of v) events in
    let (e, m) =
      first_one (filter (λ (x : ObservedEvent). counts_as_evidence v more x.attributes) evals) c in
    let (n, p) =
      mem_of_filter (λ (x : ObservedEvent). counts_as_evidence v more x.attributes) evals m in
    not_none _ (
      filter_of_mem (λ (x : ObservedEvent). counts_as_evidence v less x.attributes) n
        (counts_less v more less e.attributes h p))

-- Undercovered controls, where the minimum is higher.
covered_less :
    (count : ℕ → ℕ) (low high : ℕ)
    → ((m n : ℕ) → m ≤ n → count m ≤ count n)
    → low ≤ high
    → ltb 0 (if ltb 0 high then count high else 0) ≡ false
    → ltb 0 (if ltb 0 low then count low else 0) ≡ false
covered_less count low high mono le h = elim (Bool-cases (ltb 0 low)) [
  | inl e ↦
      let f = above low high le e in
      rw e (none_left (count low) (count high) (mono low high le) (rw f at h))
  | inr e ↦ rw e refl
]
  where
    above : (a b : ℕ) → a ≤ b → ltb 0 a ≡ true → ltb 0 b ≡ true
    above a b l h = ground arith

    none_left : (a b : ℕ) → a ≤ b → ltb 0 b ≡ false → ltb 0 a ≡ false
    none_left a b l h = ground arith

-- A higher minimum leaves no fewer controls below it.
count_short_mono :
    (pcts : List (Option ℕ)) (m n : ℕ) → m ≤ n → count_short pcts m ≤ count_short pcts n
count_short_mono [] m n h = omega arith
count_short_mono (none ∷ pcts) m n h = count_short_mono pcts m n h
count_short_mono (some pct ∷ pcts) m n h =
    let ih = count_short_mono pcts m n h in
    elim (Bool-cases (ltb pct m)) [
      | inl e ↦ let f : ltb pct n ≡ true = ground (arith, e, h) in rw (e, f) (omega (arith, ih))
      | inr e ↦ elim (Bool-cases (ltb pct n)) [
        | inl f ↦ rw (e, f) (omega (arith, ih))
        | inr f ↦ rw (e, f) ih
      ]
    ]

-- A gate that passes under a document in which policy_loosening finds nothing passes under the document
-- that was compared, where both measure coverage over the same window: such a change of the policy
-- lets no deployment through that was stopped before.
pub check_evidence-not_loosened :
    (rules : GateRules) (coverage : ℕ → GateDb → Version → List (Option ℕ))
    (old new default : Document) (row : PolicyRow) (db : GateDb) (g : Gate)
    → (evidence_settings new default).coverage_window_days
      ≡ (evidence_settings old default).coverage_window_days
    → policy_loosening old new default ≡ []
    → check_evidence (live_gate_evidence (under rules coverage new default row) db g) ≡ ok tt
    → check_evidence (live_gate_evidence (under rules coverage old default row) db g) ≡ ok tt
unfolding live_gate_evidence gate_evidence_counts
check_evidence-not_loosened rules coverage old new default row db g window nothing h =
    let s = policy_loosening-IsStricter old new default nothing in
    let v = gate_params rules db g in
    let pcts = λ (d : Document). coverage (evidence_settings d default).coverage_window_days db v in
    let before = gate_entry old default g.environment in
    let after = gate_entry new default g.environment in
    let c = IsClear-of_check (live_gate_evidence (under rules coverage new default row) db g) h in
    check_of_IsClear (live_gate_evidence (under rules coverage old default row) db g) (record {
      no_risk = c.no_risk;
      no_missing_control = c.no_missing_control;
      no_undercovered =
          covered_less (count_short (pcts old)) before.min_control_coverage
            after.min_control_coverage (count_short_mono (pcts old)) (s.coverage g.environment)
            (subst
              (λ w.
                ltb 0 (
                  if ltb 0 after.min_control_coverage
                  then count_short (coverage w db v) after.min_control_coverage
                  else 0)
                ≡ false)
              window c.no_undercovered);
      few_changes =
          subst
            (λ n.
              ltb n
                (live_gate_evidence (under rules coverage old default row) db
                  g).material_change_count
              ≡ false)
            (none_open after.max_open_material_changes
              ∙ sym (none_open before.max_open_material_changes))
            c.few_changes;
      prompt_linked = c.prompt_linked;
      has_eval =
          evals_less db.events v
            (after.require_attested_evals || rules.tenant_requires_attestation g.tenant_id)
            (before.require_attested_evals || rules.tenant_requires_attestation g.tenant_id)
            (attested before.require_attested_evals after.require_attested_evals
              (rules.tenant_requires_attestation g.tenant_id) (s.attested g.environment))
            c.has_eval;
    })
  where
    attested : (b a t : Bool) → (b ≡ true → a ≡ true) → (b || t) ≡ true → (a || t) ≡ true
    attested true a t f h = let e = f refl in rw e refl
    attested false true t f h = refl
    attested false false t f h = h

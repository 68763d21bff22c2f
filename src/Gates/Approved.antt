-- ===== src/Gates/Approved.antt =====
-- What a decided and what an approved gate stand for, over any sequence of steps.
use norinth.Prelude.{
  Option, none, some, String, true, [], ◌∷◌, ◌==◌, ◌≡◌, ◌⊎◌, inl, inr, refl, sym, ap, subst, subst₂,
  ◌∙◌, text_key, find, Memᴰ, eq_iff, two_branches, mem_of_update, mem_append, mem_of_find,
  not_mem_nil, contains,
}
use norinth.Prelude.Result.{ok, >>=-eq-ok}
use norinth.Gates.{
  GateEvidence, GateRules, GateDb, Gate, is_decided_gate, store_evidence, decided_gate, kept_status,
  check_evidence, live_gate_evidence, needed_evidence, new_gate,
}
use norinth.Gates.History.{
  IsUnique, has_key, IsDecision, set-IsDecision, observed_gate, upsert-gates, GateStep, observed,
  decided, elsewhere, GateSteps, none_yet, after, step-IsUnique, SameDecision, step-decided,
}

module _ (rules : GateRules) where
  steps-IsUnique :
      {start db : GateDb} → GateSteps rules start db → IsUnique start.gates → IsUnique db.gates
  steps-IsUnique none_yet unique = unique
  steps-IsUnique (after before step) unique =
      step-IsUnique rules step (steps-IsUnique before unique)

  joined_decisions :
      (a b c : Gate) → SameDecision rules a b → SameDecision rules b c → SameDecision rules a c
  joined_decisions a b c h k = record {
    key = k.key ∙ h.key;
    status = k.status ∙ h.status;
    actor = k.actor ∙ h.actor;
    reason = k.reason ∙ h.reason;
  }

  -- A decision on a gate is final: whatever versions are observed, whatever decisions are asked for
  -- and whatever changes in other tables afterwards, the gate keeps its status, who decided it and
  -- why. The gate's key is unique at the start.
  pub decided_gate_is_final :
      {start db : GateDb} (g : Gate)
      → IsUnique start.gates
      → Memᴰ g start.gates
      → is_decided_gate g ≡ true
      → GateSteps rules start db
      → (g' : Gate) × Memᴰ g' db.gates × SameDecision rules g g'
  decided_gate_is_final g unique m h none_yet =
      (g, m, record { key = refl; status = refl; actor = refl; reason = refl })
  decided_gate_is_final g unique m h (after before step) =
      let (g₁, m₁, same) = decided_gate_is_final g unique m h before in
      let (g₂, m₂, same') =
        step-decided rules step (steps-IsUnique before unique) m₁
          (ap (λ s. contains s ("approved" ∷ "rejected" ∷ [])) same.status ∙ h) in
      (g₂, m₂, joined_decisions g g₁ g₂ same same')

  kept_approved :
      (o : Option Gate)
      → kept_status rules o ≡ "approved"
      → (g : Gate) × (o ≡ some g) × (g.gate_status ≡ "approved")
  kept_approved none h = absurd (cc h)
  kept_approved (some g) h = elim (two_branches (is_decided_gate g) _ _ "approved" h) [
    | inl (_, e) ↦ (g, refl, e)
    | inr (_, e) ↦ absurd (cc e)
  ]

  approval_checked :
      (db : GateDb) (g : Gate) (status : String) {o : Option GateEvidence}
      → status ≡ "approved"
      → needed_evidence rules db g status ≡ ok o
      → check_evidence (live_gate_evidence rules db g) ≡ ok tt
  unfolding needed_evidence
  approval_checked db g status e h = elim (two_branches (status == "approved") _ _ _ h) [
    | inl (_, t) ↦
        let (u, c, _) = >>=-eq-ok (check_evidence (live_gate_evidence rules db g)) _ t in c
    | inr (n, _) ↦ absurd (let y = (eq_iff status "approved").1 e in cc (y, n))
  ]

  -- An approval that was asked for, on evidence that passed the guards at that time.
  pub record WasApproved (start : GateDb) (id : String) : Type 0 where
    pub db : GateDb
    pub db' : GateDb
    pub actor : String
    pub rationale : String
    pub steps : GateSteps rules start db
    pub decision : IsDecision rules db db' id "approved" actor rationale
    pub clear : check_evidence (live_gate_evidence rules db decision.gate) ≡ ok tt

  step-approved :
      {start db db' : GateDb}
      → GateSteps rules start db
      → GateStep rules db db'
      → (g : Gate) → Memᴰ g db'.gates
      → g.gate_status ≡ "approved"
      → ((g₀ : Gate) × Memᴰ g₀ db.gates × (g₀.gate_id ≡ g.gate_id) × (g₀.gate_status ≡ "approved"))
        ⊎ WasApproved start g.gate_id
  step-approved {db = db} steps (observed v e) g m h =
      let key = rules.gate_key v.version_id in
      let kept : (g : Gate)
          → g.gate_id ≡ key
          → kept_status rules (find (has_key rules key) db.gates) ≡ "approved"
          → (g₀ : Gate) × Memᴰ g₀ db.gates
            × (g₀.gate_id ≡ g.gate_id)
            × (g₀.gate_status ≡ "approved") =
        λ g k a.
          let (g₀, f, s) = kept_approved (find (has_key rules key) db.gates) a in
          let (n, t) = mem_of_find (has_key rules key) db.gates f in
          (g₀, n, (eq_iff g₀.gate_id key).0 t ∙ sym k, s) in
      elim (upsert-gates rules db v) [
        | inl (_, q) ↦
            let (r, n, c) =
              mem_of_update (has_key rules key) (observed_gate rules db v) db.gates
                (subst (λ x. Memᴰ g x) (ap (λ (x : GateDb). x.gates) e ∙ q) m) in
            elim c [
              | inl (t, x) ↦ inl (
                  kept g (ap (λ (y : Gate). y.gate_id) x ∙ (eq_iff r.gate_id key).0 t)
                    (sym (ap (λ (y : Gate). y.gate_status) x) ∙ h))
              | inr (t, x) ↦ inl (
                r,
                n,
                ap (λ (y : Gate). y.gate_id) (sym x),
                ap (λ (y : Gate). y.gate_status) (sym x) ∙ h,
              )
            ]
        | inr (_, q) ↦
            elim (mem_append db.gates (observed_gate rules db v (new_gate rules v) ∷ [])
              (subst (λ x. Memᴰ g x) (ap (λ (x : GateDb). x.gates) e ∙ q) m)) [
                | inl n ↦ inl (g, n, refl, h)
                | inr n ↦
                    let x = only n in
                    inl (
                      kept g (ap (λ (y : Gate). y.gate_id) x)
                        (sym (ap (λ (y : Gate). y.gate_status) x) ∙ h))
              ]
      ]
    where
      only : {x y : Gate} → Memᴰ x (y ∷ []) → x ≡ y
      only (Memᴰ.head q) = q
      only (Memᴰ.tail k) = absurd (not_mem_nil k)
  step-approved {start} {db} {db'} steps (decided id status actor rationale e) g m h =
      let d = set-IsDecision rules db db' id status actor rationale e in
      let (r, n, c) =
        mem_of_update (has_key rules id)
          (λ r. decided_gate status actor rationale (store_evidence d.evidence r)) db.gates
          (subst (λ x. Memᴰ g x) d.stored m) in
      elim c [
        | inl (t, x) ↦
            let approved : status ≡ "approved" = sym (ap (λ (y : Gate). y.gate_status) x) ∙ h in
            let key : g.gate_id ≡ id =
              ap (λ (y : Gate). y.gate_id) x ∙ id_kept d.evidence r ∙ (eq_iff r.gate_id id).0 t in
            let d' =
              subst₂ (λ i s. IsDecision rules db db' i s actor rationale) (sym key) approved d in
            inr (record {
              db = db;
              db' = db';
              actor = actor;
              rationale = rationale;
              steps = steps;
              decision = d';
              clear = approval_checked db d'.gate "approved" refl d'.needed;
            })
        | inr (t, x) ↦ inl (
          r,
          n,
          ap (λ (y : Gate). y.gate_id) (sym x),
          ap (λ (y : Gate). y.gate_status) (sym x) ∙ h,
        )
      ]
    where
      id_kept : (o : Option GateEvidence) (g : Gate) → (store_evidence o g).gate_id ≡ g.gate_id
      id_kept none g = refl
      id_kept (some x) g = refl
  step-approved steps (elsewhere e) g m h = inl (g, subst (λ x. Memᴰ g x) e m, refl, h)

  -- No gate is approved by itself: a gate that is approved after any sequence of steps was approved
  -- at the start, or a decision with a rationale approved it while the evidence for it, computed
  -- from the tables of that time, passed the guards.
  pub approved_gate_was_checked :
      {start db : GateDb} (g : Gate)
      → GateSteps rules start db
      → Memᴰ g db.gates
      → g.gate_status ≡ "approved"
      → ((g₀ : Gate) × Memᴰ g₀ start.gates
          × (g₀.gate_id ≡ g.gate_id)
          × (g₀.gate_status ≡ "approved"))
        ⊎ WasApproved start g.gate_id
  approved_gate_was_checked g none_yet m h = inl (g, m, refl, h)
  approved_gate_was_checked {start} g (after before step) m h =
      elim (step-approved before step g m h) [
        | inr w ↦ inr w
        | inl (g₁, m₁, k, s) ↦ elim (approved_gate_was_checked g₁ before m₁ s) [
          | inl (g₀, m₀, k₀, s₀) ↦ inl (g₀, m₀, k₀ ∙ k, s₀)
          | inr w ↦ inr (subst (WasApproved start) k w)
        ]
      ]

-- ===== src/Gates/History.antt =====
-- The gates over any sequence of telemetry and decisions.
use norinth.Prelude.{
  Option, none, some, String, Bool, true, false, List, [], ◌∷◌, ◌++◌, ◌==◌, ◌≡◌, ◌⊎◌, inl, inr,
  refl, sym, ap, subst, ◌∙◌, text_key, if◌then◌else◌, any, find, Memᴰ, eq_iff, Bool-cases,
  Option-cases, two_branches, update_where, mem_of_map, update_of_mem, changed_of_mem, mem_append,
  mem_append_left, mem_of_find, any_of_mem, not_mem_nil,
}
use norinth.Prelude.Result.{ok, >>=-eq-ok, ok_inj}
use norinth.Gates.{
  GateEvidence, GateRules, GateDb, Gate, Version, is_decided_gate, with_evidence, store_evidence,
  decided_gate, kept_status, new_gate, gate_evidence_counts, needed_evidence, decide_gate,
  upsert_deployment_gate, set_deployment_gate_status,
}

-- gate_id is the primary key.
abbrev pub IsUnique : List Gate → Type 0
IsUnique gates = (a b : Gate) → Memᴰ a gates → Memᴰ b gates → a.gate_id ≡ b.gate_id → a ≡ b

update-IsUnique :
    (test : Gate → Bool) (change : Gate → Gate) (gates : List Gate)
    → ((g : Gate) → (change g).gate_id ≡ g.gate_id)
    → IsUnique gates
    → IsUnique (update_where test change gates)
update-IsUnique test change gates keeps unique a b m n e =
    let u = λ (g : Gate). if test g then change g else g in
    let (r, mr, er) = mem_of_map u gates m in
    let (s, ms, es) = mem_of_map u gates n in
    er
    ∙ ap u (
        unique r s mr ms (
          sym (id_kept r)
          ∙ ap (λ (g : Gate). g.gate_id) (sym er)
          ∙ e
          ∙ ap (λ (g : Gate). g.gate_id) es
          ∙ id_kept s))
    ∙ sym es
  where
    id_kept : (g : Gate) → (if test g then change g else g).gate_id ≡ g.gate_id
    id_kept g = elim (Bool-cases (test g)) [ inl t ↦ rw t (keeps g) | inr t ↦ rw t ]

find_unique :
    (p : Gate → Bool) {g : Gate} (gates : List Gate)
    → ((x : Gate) → Memᴰ x gates → p x ≡ true → x ≡ g)
    → Memᴰ g gates
    → p g ≡ true
    → find p gates ≡ some g
find_unique p [] only m h = absurd (not_mem_nil m)
find_unique p {g} (x ∷ gates) only m h = elim (Bool-cases (p x)) [
  | inl e ↦ let q = only x (Memᴰ.head refl) e in rw e (ap some q)
  | inr e ↦ rw e (
      find_unique p gates (λ y n. only y (Memᴰ.tail n))
        (later m (λ q. let t = ap p (sym q) ∙ h in cc (t, e))) h)
]
  where
    later : Memᴰ g (x ∷ gates) → ¬ (g ≡ x) → Memᴰ g gates
    later (Memᴰ.head q) n = absurd (n q)
    later (Memᴰ.tail k) n = k

module _ (rules : GateRules) where
  abbrev pub has_key : String → Gate → Bool
  has_key id g = g.gate_id == id

  -- What a decision that succeeded has read and written.
  pub record IsDecision (db db' : GateDb) (id status actor rationale : String) : Type 0 where
    pub gate : Gate
    pub evidence : Option GateEvidence
    pub found : find (has_key id) db.gates ≡ some gate
    pub undecided : is_decided_gate gate ≡ false
    pub needed : needed_evidence rules db gate status ≡ ok evidence
    pub reasoned : rules.is_blank rationale ≡ false
    pub stored :
        db'.gates
        ≡ update_where
            (has_key id)
            (λ r. decided_gate status actor rationale (store_evidence evidence r))
            db.gates

  pub set-IsDecision :
      (db db' : GateDb) (id status actor rationale : String)
      → set_deployment_gate_status rules db id status actor rationale ≡ ok db'
      → IsDecision db db' id status actor rationale
  unfolding set_deployment_gate_status
  set-IsDecision db db' id status actor rationale h =
      elim (Option-cases (find (has_key id) db.gates)) [
        | inl e ↦
            absurd (let t = ap (decide_gate rules db id status actor rationale) (sym e) ∙ h in cc t)
        | inr (g, e) ↦ go g e (ap (decide_gate rules db id status actor rationale) (sym e) ∙ h)
      ]
    where
      go :
          (g : Gate)
          → find (has_key id) db.gates ≡ some g
          → decide_gate rules db id status actor rationale (some g) ≡ ok db'
          → IsDecision db db' id status actor rationale
      go g e t = elim (two_branches (is_decided_gate g) _ _ (ok db') t) [
        | inl (_, x) ↦ absurd (cc x)
        | inr (u, x) ↦
            let (evidence, n, y) = >>=-eq-ok (needed_evidence rules db g status) _ x in
            elim (two_branches (rules.is_blank rationale) _ _ (ok db') y) [
              | inl (_, z) ↦ absurd (cc z)
              | inr (b, z) ↦ record {
                gate = g;
                evidence = evidence;
                found = e;
                undecided = u;
                needed = n;
                reasoned = b;
                stored = ap (λ (x : GateDb). x.gates) (sym (ok_inj z));
              }
            ]
      ]

  abbrev pub observed_gate : GateDb → Version → Gate → Gate
  observed_gate db v g = with_evidence (gate_evidence_counts rules db v) (record g {
    gate_status = kept_status rules (find (has_key (rules.gate_key v.version_id)) db.gates);
  })

  -- The gates after a version was observed.
  pub upsert-gates :
      (db : GateDb) (v : Version)
      → ((any (has_key (rules.gate_key v.version_id)) db.gates ≡ true)
          × ((upsert_deployment_gate rules db v).gates
              ≡ update_where (has_key (rules.gate_key v.version_id)) (observed_gate db v) db.gates))
        ⊎ ((any (has_key (rules.gate_key v.version_id)) db.gates ≡ false)
            × ((upsert_deployment_gate rules db v).gates
                ≡ db.gates ++ observed_gate db v (new_gate rules v) ∷ []))
  unfolding upsert_deployment_gate
  upsert-gates db v = elim (Bool-cases (any (has_key (rules.gate_key v.version_id)) db.gates)) [
    | inl e ↦ inl (e, rw e)
    | inr e ↦ inr (e, rw e)
  ]

  -- One change of the tables: a deployed version is observed, a gate is decided, or other tables
  -- change.
  pub data GateStep (db db' : GateDb) : Type 0 where
    observed : (v : Version) → db' ≡ upsert_deployment_gate rules db v → GateStep db db'
    decided :
        (id status actor rationale : String)
        → set_deployment_gate_status rules db id status actor rationale ≡ ok db'
        → GateStep db db'
    elsewhere : db'.gates ≡ db.gates → GateStep db db'

  pub data GateSteps (start : GateDb) : GateDb → Type 0 where
    none_yet : GateSteps start start
    after : {db db' : GateDb} → GateSteps start db → GateStep db db' → GateSteps start db'

  append-IsUnique :
      (gates : List Gate) (g : Gate)
      → any (has_key g.gate_id) gates ≡ false
      → IsUnique gates
      → IsUnique (gates ++ g ∷ [])
  append-IsUnique gates g absent unique a b m n e = elim (mem_append gates (g ∷ []) m) [
    | inl m' ↦ elim (mem_append gates (g ∷ []) n) [
      | inl n' ↦ unique a b m' n' e
      | inr n' ↦ absurd (clash a m' (e ∙ ap (λ (x : Gate). x.gate_id) (only n')))
    ]
    | inr m' ↦ elim (mem_append gates (g ∷ []) n) [
      | inl n' ↦ absurd (clash b n' (sym e ∙ ap (λ (x : Gate). x.gate_id) (only m')))
      | inr n' ↦ only m' ∙ sym (only n')
    ]
  ]
    where
      only : {x : Gate} → Memᴰ x (g ∷ []) → x ≡ g
      only (Memᴰ.head q) = q
      only (Memᴰ.tail k) = absurd (not_mem_nil k)

      clash : (x : Gate) → Memᴰ x gates → ¬ (x.gate_id ≡ g.gate_id)
      clash x k q =
          let t = any_of_mem (has_key g.gate_id) k ((eq_iff x.gate_id g.gate_id).1 q) in
          cc (t, absent)

  pub step-IsUnique : {db db' : GateDb} → GateStep db db' → IsUnique db.gates → IsUnique db'.gates
  step-IsUnique {db} {db'} (observed v e) unique = elim (upsert-gates db v) [
    | inl (_, q) ↦ subst IsUnique (sym (ap (λ (x : GateDb). x.gates) e ∙ q)) (
        update-IsUnique (has_key (rules.gate_key v.version_id)) (observed_gate db v) db.gates
          (λ g. refl) unique)
    | inr (absent, q) ↦
        subst IsUnique (sym (ap (λ (x : GateDb). x.gates) e ∙ q))
          (append-IsUnique db.gates (observed_gate db v (new_gate rules v)) absent unique)
  ]
  step-IsUnique {db} {db'} (decided id status actor rationale e) unique =
      let d = set-IsDecision db db' id status actor rationale e in
      subst IsUnique (sym d.stored) (
        update-IsUnique (has_key id)
          (λ r. decided_gate status actor rationale (store_evidence d.evidence r)) db.gates
          (λ g. id_kept d.evidence g) unique)
    where
      id_kept : (o : Option GateEvidence) (g : Gate) → (store_evidence o g).gate_id ≡ g.gate_id
      id_kept none g = refl
      id_kept (some x) g = refl
  step-IsUnique (elsewhere e) unique = subst IsUnique (sym e) unique

  -- The decision that a gate holds.
  pub record SameDecision (g g' : Gate) : Type 0 where
    pub key : g'.gate_id ≡ g.gate_id
    pub status : g'.gate_status ≡ g.gate_status
    pub actor : g'.actor_ref ≡ g.actor_ref
    pub reason : g'.rationale ≡ g.rationale

  same_decision : (g : Gate) → SameDecision g g
  same_decision g = record { key = refl; status = refl; actor = refl; reason = refl }

  pub step-decided :
      {db db' : GateDb} {g : Gate}
      → GateStep db db'
      → IsUnique db.gates
      → Memᴰ g db.gates
      → is_decided_gate g ≡ true
      → (g' : Gate) × Memᴰ g' db'.gates × SameDecision g g'
  step-decided {db} {db'} {g} (observed v e) unique m h =
      let key = rules.gate_key v.version_id in
      elim (upsert-gates db v) [
        | inr (_, q) ↦ (
          g,
          subst (λ x. Memᴰ g x) (sym (ap (λ (x : GateDb). x.gates) e ∙ q)) (mem_append_left _ m),
          same_decision g,
        )
        | inl (_, q) ↦ elim (Bool-cases (has_key key g)) [
          | inl t ↦
              let f =
                find_unique (has_key key) db.gates
                  (λ x n p.
                    unique x g n m ((eq_iff x.gate_id key).0 p ∙ sym ((eq_iff g.gate_id key).0 t)))
                  m t in
              (
                observed_gate db v g,
                subst (λ x. Memᴰ (observed_gate db v g) x)
                    (sym (ap (λ (x : GateDb). x.gates) e ∙ q))
                    (changed_of_mem (has_key key) (observed_gate db v) m t),
                record {
                  key = refl;
                  status = ap (kept_status rules) f ∙ (rw h);
                  actor = refl;
                  reason = refl;
                },
              )
          | inr t ↦ (
            g,
            subst (λ x. Memᴰ g x) (sym (ap (λ (x : GateDb). x.gates) e ∙ q))
                (update_of_mem (has_key key) (observed_gate db v) m t),
            same_decision g,
          )
        ]
      ]
  step-decided {db} {db'} {g} (decided id status actor rationale e) unique m h =
      let d = set-IsDecision db db' id status actor rationale e in
      let (n, k) = mem_of_find (has_key id) db.gates d.found in
      elim (Bool-cases (has_key id g)) [
        | inl t ↦ absurd (
            let same : d.gate ≡ g =
              unique d.gate g n m
                ((eq_iff d.gate.gate_id id).0 k ∙ sym ((eq_iff g.gate_id id).0 t)) in
            let u = ap is_decided_gate (sym same) ∙ d.undecided in cc (u, h))
        | inr t ↦ (
          g,
          subst (λ x. Memᴰ g x) (sym d.stored)
              (update_of_mem (has_key id)
                (λ r. decided_gate status actor rationale (store_evidence d.evidence r)) m t),
          same_decision g,
        )
      ]
  step-decided {g = g} (elsewhere e) unique m h =
      (g, subst (λ x. Memᴰ g x) (sym e) m, same_decision g)

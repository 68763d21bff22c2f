-- ===== src/Policy/Loosening/Strict.antt =====
-- A document without loosening is at least as strict, section by section.
use norinth.Prelude.{
  Option, none, some, String, Bool, true, false, not, ◌&&◌, ◌||◌, List, [], ◌∷◌, ◌++◌, ◌==◌, ◌≡◌,
  inl, inr, refl, sym, ap, ap₂, subst, subst₂, ◌∙◌, ℕ, suc, ◌≤◌, text_key, ltb, keys, lookup,
  contains, subset, Memᴰ, arith, eq_iff, Bool-cases, append-eq-nil, mem_of_contains,
  contains-append, ||-eq-true, not_mem_nil, not-eq-false, two_branches,
}
use norinth.Policy.{StageEntry, GateEntry, Field, Document, risk_tiers}
use norinth.Policy.Resolve.{
  evidence_settings, tier_entry, vendor_entry, environment_entry, or_star, gate_entry_or,
  gate_entry, intake_fields,
}
use norinth.Policy.Loosening.{
  LooseningReason, reason_if, remove_role, roles_loosened, recertify_loosened, entry_reasons,
  gate_reasons, for_each, field_of, or_this, replacement_reasons, evidence_reasons,
  all_environments, policy_loosening,
}

abbrev pub plus_if : Bool → ℕ → ℕ
plus_if true n = suc n
plus_if false n = n

-- How often a role stands in a list of stages.
abbrev pub times : String → List String → ℕ
times role [] = 0
times role (r ∷ rs) = plus_if (r == role) (times role rs)

pub record IsKept (old new : StageEntry) : Type 0 where
  pub roles : (role : String) → times role old.roles ≤ times role new.roles
  pub recertified :
      (before : ℕ)
      → old.recertify_days ≡ some before
      → (after : ℕ) × (new.recertify_days ≡ some after) × (after ≤ before)

pub record IsReplaced (f g : Field) : Type 0 where
  pub key : g.key ≡ f.key
  pub tiers : subset f.required_tiers g.required_tiers ≡ true

-- The new document asks for all that the old one asks for.
pub record IsStricter (old new default : Document) : Type 0 where
  pub tiers :
      (tier : String)
      → Memᴰ tier risk_tiers
      → IsKept (tier_entry old default tier) (tier_entry new default tier)
  pub vendors : IsKept (vendor_entry old default) (vendor_entry new default)
  pub attested :
      (environment : String)
      → (gate_entry old default environment).require_attested_evals ≡ true
      → (gate_entry new default environment).require_attested_evals ≡ true
  pub coverage :
      (environment : String)
      → (gate_entry old default environment).min_control_coverage
        ≤ (gate_entry new default environment).min_control_coverage
  pub stale :
      (evidence_settings new default).stale_after_days
      ≤ (evidence_settings old default).stale_after_days
  pub window :
      (evidence_settings new default).coverage_window_days
      ≤ (evidence_settings old default).coverage_window_days
  pub fields :
      (f : Field)
      → Memᴰ f (intake_fields old default)
      → (g : Field) × Memᴰ g (intake_fields new default) × IsReplaced f g

ltb-false : (a b : ℕ) → ltb a b ≡ false → b ≤ a
ltb-false a b h = ground arith

reason_if_nil : (t : Bool) (r : LooseningReason) → reason_if t r ≡ [] → t ≡ false
reason_if_nil true r h = absurd (cc)
reason_if_nil false r h = refl

no_reasons :
    {A : Type 0} (reasons : A → List LooseningReason) (xs : List A) {x : A}
    → for_each reasons xs ≡ []
    → Memᴰ x xs
    → reasons x ≡ []
no_reasons reasons [] h m = absurd (not_mem_nil m)
no_reasons reasons (x ∷ xs) h (Memᴰ.head e) = ap reasons e ∙ (append-eq-nil (reasons x) _ h).0
no_reasons reasons (x ∷ xs) h (Memᴰ.tail m) =
    no_reasons reasons xs (append-eq-nil (reasons x) _ h).1 m

plus_if_swap : (a b : Bool) (n : ℕ) → plus_if a (plus_if b n) ≡ plus_if b (plus_if a n)
plus_if_swap true b n = elim (Bool-cases b) [ inl e ↦ rw e | inr e ↦ rw e ]
plus_if_swap false b n = refl

plus_if-le : (b : Bool) (m n : ℕ) → m ≤ n → plus_if b m ≤ plus_if b n
plus_if-le true m n h = omega (arith, h)
plus_if-le false m n h = h

contains_later :
    (r x : String) (rs : List String)
    → (x == r) ≡ false
    → contains r (x ∷ rs) ≡ true
    → contains r rs ≡ true
contains_later r x rs e h = elim (||-eq-true (r == x) (contains r rs) h) [
  | inl f ↦ absurd (let t = (eq_iff x r).1 (sym ((eq_iff r x).0 f)) in cc (t, e))
  | inr f ↦ f
]

times_remove :
    (role r : String) (rs : List String)
    → contains r rs ≡ true
    → times role rs ≡ plus_if (r == role) (times role (remove_role r rs))
times_remove role r [] h = absurd (cc h)
times_remove role r (x ∷ rs) h = elim (Bool-cases (x == r)) [
  | inl e ↦ let q = (eq_iff x r).0 e in rw e (ap (λ y. plus_if (y == role) (times role rs)) q)
  | inr e ↦ rw e (
      ap (plus_if (x == role)) (times_remove role r rs (contains_later r x rs e h))
      ∙ plus_if_swap (x == role) (r == role) (times role (remove_role r rs)))
]

kept_roles :
    (role : String) (old remaining : List String)
    → roles_loosened old remaining ≡ false
    → times role old ≤ times role remaining
kept_roles role [] remaining h = omega arith
kept_roles role (r ∷ old) remaining h = elim (Bool-cases (contains r remaining)) [
  | inl e ↦
      let ih = kept_roles role old (remove_role r remaining) (rw e at h) in
      subst (λ n. plus_if (r == role) (times role old) ≤ n) (sym (times_remove role r remaining e))
        (plus_if-le (r == role) _ _ ih)
  | inr e ↦ absurd (let t = rw e at h in cc t)
]

-- Where there was a period, there is one that is not longer.
kept_period :
    (old new : Option ℕ)
    → recertify_loosened old new ≡ false
    → (before : ℕ) → old ≡ some before
    → (after : ℕ) × (new ≡ some after) × (after ≤ before)
kept_period none new h before e = absurd (cc e)
kept_period (some b) none h before e = absurd (cc h)
kept_period (some b) (some a) h before e =
    let t : b ≡ before = cc e in (a, refl, subst (λ n. a ≤ n) t (ltb-false b a h))

entry-IsKept :
    (section : String) (old new : StageEntry) → entry_reasons section old new ≡ [] → IsKept old new
entry-IsKept section old new h =
    let (a, b) = append-eq-nil (reason_if (roles_loosened old.roles new.roles) _) _ h in
    record {
      roles = λ role. kept_roles role old.roles new.roles (reason_if_nil _ _ a);
      recertified = kept_period old.recertify_days new.recertify_days (reason_if_nil _ _ b);
    }

-- An environment that a document does not name reads as "*".
unnamed_entry :
    (d : Document) (e : String)
    → contains e (keys d.environments) ≡ false
    → environment_entry d e ≡ environment_entry d "*"
unnamed_entry d e h =
    ap (λ o. or_star o d.environments) (lookup_missing d.environments h)
    ∙ sym (or_star_twice (lookup "*" d.environments) d.environments refl)
  where
    rest : (a b : Bool) → (a || b) ≡ false → b ≡ false
    rest a b h = ground arith

    lookup_missing :
        (es : List (String × GateEntry)) → contains e (keys es) ≡ false → lookup e es ≡ none
    lookup_missing [] h = refl
    lookup_missing ((k, g) ∷ es) h = elim (Bool-cases (k == e)) [
      | inl t ↦
          absurd (let u = (eq_iff e k).1 (sym ((eq_iff k e).0 t)) in let v = rw u at h in cc v)
      | inr t ↦ rw t (lookup_missing es (rest (e == k) _ h))
    ]

    or_star_twice :
        (o : Option GateEntry) (es : List (String × GateEntry))
        → lookup "*" es ≡ o
        → or_star o es ≡ lookup "*" es
    or_star_twice none es h = refl
    or_star_twice (some g) es h = sym h

-- A name that all_environments lacks is in none of the documents.
unnamed :
    (old new default : Document) (e : String)
    → contains e (all_environments old new default) ≡ false
    → (contains e (keys old.environments) ≡ false)
      × (contains e (keys new.environments) ≡ false)
      × (contains e (keys default.environments) ≡ false)
unnamed old new default e h =
    let o = keys old.environments in
    let n = keys new.environments in
    let d = keys default.environments in
    split (e == "*") (contains e o) (contains e n) (contains e d) (
      ap (λ b. e == "*" || b)
        (sym (contains-append e (o ++ n) d ∙ ap (λ b. b || contains e d) (contains-append e o n)))
      ∙ h)
  where
    split :
        (s a b c : Bool) → (s || ((a || b) || c)) ≡ false → (a ≡ false) × (b ≡ false) × (c ≡ false)
    split s a b c h = ground arith

unnamed_gate :
    (d default : Document) (e : String)
    → contains e (keys d.environments) ≡ false
    → contains e (keys default.environments) ≡ false
    → gate_entry d default e ≡ gate_entry d default "*"
unfolding gate_entry
unnamed_gate d default e own other =
    ap₂ gate_entry_or (unnamed_entry d e own) (unnamed_entry default e other)

-- Attestation and coverage of two entries.
pub record IsGateKept (old new : GateEntry) : Type 0 where
  pub attested : old.require_attested_evals ≡ true → new.require_attested_evals ≡ true
  pub coverage : old.min_control_coverage ≤ new.min_control_coverage

gate_of_reasons :
    (e : String) (old new : GateEntry) → gate_reasons e old new ≡ [] → IsGateKept old new
gate_of_reasons e old new h =
    let (a, b) =
      append-eq-nil (reason_if (old.require_attested_evals && not new.require_attested_evals) _) _
        h in
    record {
      attested =
          λ t. kept old.require_attested_evals new.require_attested_evals t (reason_if_nil _ _ a);
      coverage = ltb-false _ _ (reason_if_nil _ _ b);
    }
  where
    kept : (a b : Bool) → a ≡ true → (a && not b) ≡ false → b ≡ true
    kept a b t h = ground arith

kept_gate :
    (old new default : Document)
    → for_each
        (λ e. gate_reasons e (gate_entry old default e) (gate_entry new default e))
        (all_environments old new default)
      ≡ []
    → (e : String) → IsGateKept (gate_entry old default e) (gate_entry new default e)
kept_gate old new default h e =
    let at = λ (x : String) (m : Memᴰ x (all_environments old new default)).
      gate_of_reasons x (gate_entry old default x) (gate_entry new default x) (
        no_reasons (λ e. gate_reasons e (gate_entry old default e) (gate_entry new default e)) _ h
          m) in
    elim (Bool-cases (contains e (all_environments old new default))) [
      | inl t ↦ at e (mem_of_contains e _ t)
      | inr t ↦
          let (o, n, d) = unnamed old new default e t in
          subst₂ IsGateKept (sym (unnamed_gate old default e o d))
            (sym (unnamed_gate new default e n d)) (at "*" (Memᴰ.head refl))
    ]

field_of-mem :
    (key : String) (fs : List Field) {g : Field}
    → field_of key fs ≡ some g
    → Memᴰ g fs × (g.key ≡ key)
field_of-mem key [] h = absurd (cc h)
field_of-mem key (f ∷ fs) {g} h = go (λ e. field_of-mem key fs e) (field_of key fs) refl h
  where
    go :
        (field_of key fs ≡ some g → Memᴰ g fs × (g.key ≡ key))
        → (o : Option Field) → field_of key fs ≡ o
        → or_this o f key ≡ some g
        → Memᴰ g (f ∷ fs) × (g.key ≡ key)
    go ih (some x) e t = let (m, k) = ih (e ∙ t) in (Memᴰ.tail m, k)
    go ih none e t = elim (two_branches (f.key == key) _ _ (some g) t) [
      | inl (k, u) ↦
          let q : f ≡ g = cc u in
          (Memᴰ.head (sym q), ap (λ (x : Field). x.key) (sym q) ∙ (eq_iff f.key key).0 k)
      | inr (_, u) ↦ absurd (cc u)
    ]

kept_field :
    (f : Field) (fs : List Field) (o : Option Field)
    → field_of f.key fs ≡ o
    → replacement_reasons f o ≡ []
    → (g : Field) × Memᴰ g fs × IsReplaced f g
kept_field f fs none e h = absurd (cc h)
kept_field f fs (some g) e h =
    let (m, k) = field_of-mem f.key fs e in
    (g, m, record { key = k; tiers = not-eq-false _ (reason_if_nil _ _ h) })

-- A document in which policy_loosening finds nothing asks for all that the old one asks for: every
-- stage role of every tier and of vendors as often, recertification as early, attested evals and
-- control coverage in every environment, also in one that no document names, evidence as fresh and
-- measured over no longer a window, and every intake field for all its tiers.
pub policy_loosening-IsStricter :
    (old new default : Document)
    → policy_loosening old new default ≡ []
    → IsStricter old new default
unfolding policy_loosening
policy_loosening-IsStricter old new default h =
    let (h₁, fields) = append-eq-nil _ (for_each _ (intake_fields old default)) h in
    let (h₂, evidence) =
      append-eq-nil _
        (evidence_reasons (evidence_settings old default) (evidence_settings new default)) h₁ in
    let (h₃, gates) =
      append-eq-nil _
        (for_each (λ e. gate_reasons e (gate_entry old default e) (gate_entry new default e))
          (all_environments old new default))
        h₂ in
    let (tiers, vendors) =
      append-eq-nil _
        (entry_reasons "vendors" (vendor_entry old default) (vendor_entry new default)) h₃ in
    let (stale, window) =
      append-eq-nil
        (reason_if
          (ltb (evidence_settings old default).stale_after_days
            (evidence_settings new default).stale_after_days)
          _)
        _ evidence in
    let gate = kept_gate old new default gates in
    record {
      tiers = λ tier m. entry-IsKept tier _ _ (
          no_reasons
            (λ tier. entry_reasons tier (tier_entry old default tier) (tier_entry new default tier))
            risk_tiers tiers m);
      vendors = entry-IsKept "vendors" _ _ vendors;
      attested = λ e. (gate e).attested;
      coverage = λ e. (gate e).coverage;
      stale = ltb-false _ _ (reason_if_nil _ _ stale);
      window = ltb-false _ _ (reason_if_nil _ _ window);
      fields = λ f m. kept_field f _ (field_of f.key (intake_fields new default)) refl (
          no_reasons (λ f. replacement_reasons f (field_of f.key (intake_fields new default)))
            (intake_fields old default) fields m);
    }

-- ===== src/Throttle/Lockout.antt =====
-- When failed logins lock a subject out, and that a lockout holds.
use norinth.Prelude.{
  Option, none, some, String, Bool, true, false, ◌&&◌, List, [], ◌∷◌, ◌==◌, ◌≡◌, ◌≢◌, inl, inr,
  refl, sym, ap, ◌∙◌, ℕ, suc, ◌+◌, ◌-◌, ◌≤◌, ◌<◌, text_key, number_key, find, ltb, leb, same_refl,
  eq_iff, update_where, lt→ltb, arith, Bool-cases,
}
use norinth.Throttle.{
  Throttle, Policy, Settings, policy_of, of_throttle, before, unset_or_before, after_now,
  row_locked, is_locked, is_expired, reset, increment, new_throttle, upsert_failure,
  register_failure, clear_attempts,
}

-- What a failure makes of the subject's row.
abbrev pub next_row : Policy → String → ℕ → Option Throttle → Throttle
next_row p subject now none = new_throttle subject now
next_row p subject now (some r) = increment p now (reset p now r)

reset_subject : (p : Policy) (now : ℕ) (r : Throttle) → (reset p now r).subject ≡ r.subject
reset_subject p now r = elim (Bool-cases (is_expired p now r)) [ inl e ↦ rw e | inr e ↦ rw e ]

-- The row of the subject after both statements.
find-upsert :
    (p : Policy) (subject : String) (now : ℕ) (rows : List Throttle)
    → find
        (of_throttle subject)
        (upsert_failure p subject now (update_where (of_throttle subject) (reset p now) rows))
      ≡ some (next_row p subject now (find (of_throttle subject) rows))
unfolding upsert_failure
find-upsert p subject now [] = let e = same_refl subject in rw e
find-upsert p subject now (r ∷ rows) =
    let ih = find-upsert p subject now rows in
    elim (Bool-cases (r.subject == subject)) [
      | inl e ↦
          let k : ((reset p now r).subject == subject) ≡ true =
            ap (λ s. s == subject) (reset_subject p now r) ∙ e in
          rw (e, k, k)
      | inr e ↦ rw (e, e, e, ih)
    ]

pub find-register :
    (settings : Settings) (rows : List Throttle) (subject : String) (now : ℕ)
    → find (of_throttle subject) (register_failure settings rows subject now).0
      ≡ some (next_row (policy_of settings subject) subject now (find (of_throttle subject) rows))
unfolding register_failure
find-register settings rows subject now = find-upsert (policy_of settings subject) subject now rows

not_expired :
    (p : Policy) (now t : ℕ) (r : Throttle)
    → after_now r.locked_until t ≡ true
    → now ≤ t
    → is_expired p now r ≡ false
not_expired p now t r h le = go r.locked_until h
  where
    go :
        (o : Option ℕ)
        → after_now o t ≡ true
        → (before r.first_failed_at (now - p.window) && unset_or_before o now) ≡ false
    go none h = absurd (cc h)
    go (some l) h =
        let e : ltb l now ≡ false = ground (arith, le, h) in
        and_false (before r.first_failed_at (now - p.window)) (ltb l now) e
      where
        and_false : (a b : Bool) → b ≡ false → (a && b) ≡ false
        and_false a b e = ground arith

-- A lockout holds against further failures: a subject that is locked at a time not before a new
-- failure is still locked then, if that time is within the length of a lockout from the failure.
pub register_failure-keeps_lock :
    (settings : Settings) (rows : List Throttle) (subject : String) (now t : ℕ)
    → now ≤ t
    → t < now + (policy_of settings subject).lockout
    → is_locked rows subject t ≡ true
    → is_locked (register_failure settings rows subject now).0 subject t ≡ true
unfolding is_locked
register_failure-keeps_lock settings rows subject now t le lt h =
    ap (λ o. row_locked o t) (find-register settings rows subject now)
    ∙ kept (find (of_throttle subject) rows) h
  where
    p : Policy
    p = policy_of settings subject

    kept :
        (o : Option Throttle)
        → row_locked o t ≡ true
        → after_now (next_row p subject now o).locked_until t ≡ true
    kept none h = absurd (cc h)
    kept (some r) h =
        let e = not_expired p now t r h le in
        elim (Bool-cases (leb p.threshold (suc r.failed_count))) [
          | inl f ↦ rw (e, f) (lt→ltb t (now + p.lockout) lt)
          | inr f ↦ rw (e, f) h
        ]

not_same : (a b : String) → b ≢ a → (a == b) ≡ false
not_same a b d = elim (Bool-cases (a == b)) [
  | inl e ↦ absurd (d (sym ((eq_iff a b).0 e)))
  | inr e ↦ e
]

-- A row of the subject is no row of another subject, before the reset and after it.
of_other :
    (p : Policy) (subject other : String) (now : ℕ) (r : Throttle)
    → other ≢ subject
    → (r.subject == subject) ≡ true
    → ((r.subject == other) ≡ false) × (((reset p now r).subject == other) ≡ false)
of_other p subject other now r differs e =
    let n =
      ap (λ s. s == other) ((eq_iff r.subject subject).0 e) ∙ not_same subject other differs in
    (n, ap (λ s. s == other) (reset_subject p now r) ∙ n)

reset-other :
    (p : Policy) (subject other : String) (now : ℕ) (rows : List Throttle)
    → other ≢ subject
    → find (of_throttle other) (update_where (of_throttle subject) (reset p now) rows)
      ≡ find (of_throttle other) rows
reset-other p subject other now [] differs = refl
reset-other p subject other now (r ∷ rows) differs =
    let ih = reset-other p subject other now rows differs in
    elim (Bool-cases (r.subject == subject)) [
      | inl e ↦ let (n, n') = of_other p subject other now r differs e in rw (e, n, n', ih)
      | inr e ↦ elim (Bool-cases (r.subject == other)) [ inl f ↦ rw (e, f) | inr f ↦ rw (e, f, ih) ]
    ]

upsert-other :
    (p : Policy) (subject other : String) (now : ℕ) (rows : List Throttle)
    → other ≢ subject
    → find
        (of_throttle other)
        (upsert_failure p subject now (update_where (of_throttle subject) (reset p now) rows))
      ≡ find (of_throttle other) rows
unfolding upsert_failure
upsert-other p subject other now [] differs = let e = not_same subject other differs in rw e
upsert-other p subject other now (r ∷ rows) differs =
    let ih = upsert-other p subject other now rows differs in
    let others = reset-other p subject other now rows differs in
    elim (Bool-cases (r.subject == subject)) [
      | inl e ↦
          let k = ap (λ s. s == subject) (reset_subject p now r) ∙ e in
          let (n, n') = of_other p subject other now r differs e in rw (e, k, n, n', others)
      | inr e ↦ elim (Bool-cases (r.subject == other)) [
        | inl f ↦ rw (e, e, f)
        | inr f ↦ rw (e, e, f, ih)
      ]
    ]

clear-other :
    (rows : List Throttle) (subject other : String)
    → other ≢ subject
    → find (of_throttle other) (clear_attempts rows subject) ≡ find (of_throttle other) rows
unfolding clear_attempts
clear-other [] subject other differs = refl
clear-other (r ∷ rows) subject other differs =
    let ih = clear-other rows subject other differs in
    elim (Bool-cases (r.subject == subject)) [
      | inl e ↦
          let n =
            ap (λ s. s == other) ((eq_iff r.subject subject).0 e)
            ∙ not_same subject other differs in
          rw (e, n, ih)
      | inr e ↦ elim (Bool-cases (r.subject == other)) [ inl f ↦ rw (e, f) | inr f ↦ rw (e, f, ih) ]
    ]

-- Neither a failure of one subject nor the clearing of its attempts locks or unlocks another
-- subject, at any time.
pub throttle_keeps_others :
    (settings : Settings) (rows : List Throttle) (subject other : String) (now t : ℕ)
    → other ≢ subject
    → (is_locked (register_failure settings rows subject now).0 other t ≡ is_locked rows other t)
      × (is_locked (clear_attempts rows subject) other t ≡ is_locked rows other t)
unfolding is_locked register_failure
throttle_keeps_others settings rows subject other now t differs = (
  ap (λ o. row_locked o t)
      (upsert-other (policy_of settings subject) subject other now rows differs),
  ap (λ o. row_locked o t) (clear-other rows subject other differs),
)

-- ===== src/Throttle/Window.antt =====
-- Failures of one subject within one window: that they are counted, and when they lock.
use norinth.Prelude.{
  Option, none, some, String, true, false, ◌&&◌, List, [], ◌∷◌, ◌≡◌, inl, inr, refl, sym, ap, subst,
  ◌∙◌, ℕ, suc, ◌+◌, ◌-◌, ◌≤◌, text_key, number_key, find, ltb, leb, if◌then◌else◌, arith, all,
  length, Bool-cases, &&-eq-true, leb→le,
}
use norinth.Throttle.{
  Throttle, Policy, Settings, policy_of, of_throttle, before, unset_or_before, row_locked,
  is_locked, is_expired, first_or_now, new_throttle, register_failure,
}
use norinth.Throttle.Lockout.{next_row, find-register}

-- The rows after failures of one subject at the given times.
abbrev pub after_failures : Settings → String → List ℕ → List Throttle → List Throttle
after_failures settings subject [] rows = rows
after_failures settings subject (t ∷ ts) rows =
    after_failures settings subject ts (register_failure settings rows subject t).0

-- The time of the last of several failures.
abbrev pub last_of : ℕ → List ℕ → ℕ
last_of t [] = t
last_of t (u ∷ us) = last_of u us

abbrev lock_at : Policy → ℕ → ℕ → Option ℕ
lock_at p n last = if leb p.threshold n then some (last + p.lockout) else none

-- A row that counts the failures of one window, and that is locked from the threshold on for a
-- lockout from the last failure.
record Counts (p : Policy) (start n last : ℕ) (r : Throttle) : Type 0 where
  count : r.failed_count ≡ n
  first : r.first_failed_at ≡ some start
  lock : r.locked_until ≡ lock_at p n last

Counts-next :
    (p : Policy) (start n last now : ℕ) (subject : String) (r : Throttle)
    → now ≤ start + p.window
    → Counts p start n last r
    → Counts p start (suc n) now (next_row p subject now (some r))
Counts-next p start n last now subject r le c =
    let e : is_expired p now r ≡ false =
      ap (λ o. before o (now - p.window) && unset_or_before r.locked_until now) c.first ∙ late in
    let k : suc r.failed_count ≡ suc n = ap suc c.count in
    elim (Bool-cases (leb p.threshold (suc r.failed_count))) [
      | inl f ↦
          let g : leb p.threshold (suc n) ≡ true = ap (leb p.threshold) (sym k) ∙ f in
          rw (e, f)
            (record { count = k; first = ap (λ o. first_or_now o now) c.first; lock = rw g })
      | inr f ↦
          let g : leb p.threshold (suc n) ≡ false = ap (leb p.threshold) (sym k) ∙ f in
          rw (e, f)
            (record {
              count = k;
              first = ap (λ o. first_or_now o now) c.first;
              lock = c.lock ∙ below (leb_below p.threshold n g) g;
            })
    ]
  where
    late : (ltb start (now - p.window) && unset_or_before r.locked_until now) ≡ false
    late = let t : ltb start (now - p.window) ≡ false = ground (arith, le) in rw t

    leb_below : (a n : ℕ) → leb a (suc n) ≡ false → leb a n ≡ false
    leb_below a n h = ground (arith, h)

    below :
        leb p.threshold n ≡ false
        → leb p.threshold (suc n) ≡ false
        → lock_at p n last ≡ lock_at p (suc n) now
    below f g = rw (f, g)

Counts-failures :
    (settings : Settings) (subject : String) (start : ℕ) (ts : List ℕ) (n last : ℕ)
    (rows : List Throttle) (r : Throttle)
    → all (λ t. leb t (start + (policy_of settings subject).window)) ts ≡ true
    → find (of_throttle subject) rows ≡ some r
    → Counts (policy_of settings subject) start n last r
    → (x : Throttle) × (find (of_throttle subject) (after_failures settings subject ts rows)
        ≡ some x)
      × Counts (policy_of settings subject) start (n + length ts) (last_of last ts) x
Counts-failures settings subject start [] n last rows r h f c =
    (r, f, subst (λ k. Counts (policy_of settings subject) start k last r) (omega arith) c)
Counts-failures settings subject start (t ∷ ts) n last rows r h f c =
    let p = policy_of settings subject in
    let (le, rest) = &&-eq-true (leb t (start + p.window)) _ h in
    let (x, g, d) =
      Counts-failures settings subject start ts (suc n) t
        (register_failure settings rows subject t).0 (next_row p subject t (some r)) rest
        (find-register settings rows subject t ∙ ap (λ o. some (next_row p subject t o)) f)
        (Counts-next p start n last t subject r (leb→le t (start + p.window) le) c) in
    (x, g, subst (λ k. Counts p start k (last_of t ts) x) (omega arith) d)

-- The row after the failures of one window, of which the first finds no row.
Counts-window :
    (settings : Settings) (subject : String) (rows : List Throttle) (start : ℕ) (ts : List ℕ)
    → 2 ≤ (policy_of settings subject).threshold
    → find (of_throttle subject) rows ≡ none
    → all (λ t. leb t (start + (policy_of settings subject).window)) ts ≡ true
    → (x : Throttle) × (find
          (of_throttle subject)
          (after_failures settings subject (start ∷ ts) rows)
        ≡ some x)
      × Counts (policy_of settings subject) start (suc (length ts)) (last_of start ts) x
Counts-window settings subject rows start ts two none_yet h =
    let p = policy_of settings subject in
    let (x, f, c) =
      Counts-failures settings subject start ts 1 start
        (register_failure settings rows subject start).0 (new_throttle subject start) h
        (find-register settings rows subject start
          ∙ ap (λ o. some (next_row p subject start o)) none_yet)
        (record { count = refl; first = refl; lock = unlocked p start two }) in
    (x, f, subst (λ k. Counts p start k (last_of start ts) x) (omega arith) c)
  where
    unlocked : (p : Policy) (t : ℕ) → 2 ≤ p.threshold → none ≡ lock_at p 1 t
    unlocked p t two = let e : leb p.threshold 1 ≡ false = ground (arith, two) in rw e

Counts-locked :
    (p : Policy) (start n last t : ℕ) (r : Throttle)
    → Counts p start n last r
    → row_locked (some r) t ≡ (leb p.threshold n && ltb t (last + p.lockout))
Counts-locked p start n last t r c =
    ap (λ o. row_locked (some (record r { locked_until = o })) t) c.lock
    ∙ elim (Bool-cases (leb p.threshold n)) [ inl e ↦ rw e | inr e ↦ rw e ]

-- Failures of a subject without a row, all within the window from the first, are all counted. Once
-- they are as many as the threshold, the subject is locked at every time before the end of a
-- lockout from the last of them, and at no other time; while they are fewer, it is not locked at any
-- time. The threshold is at least 2.
pub failures_lock :
    (settings : Settings) (subject : String) (rows : List Throttle) (start : ℕ) (ts : List ℕ)
    (t : ℕ)
    → 2 ≤ (policy_of settings subject).threshold
    → find (of_throttle subject) rows ≡ none
    → all (λ t. leb t (start + (policy_of settings subject).window)) ts ≡ true
    → ((r : Throttle) × (find
            (of_throttle subject)
            (after_failures settings subject (start ∷ ts) rows)
          ≡ some r)
        × (r.failed_count ≡ suc (length ts)))
      × (is_locked (after_failures settings subject (start ∷ ts) rows) subject t ≡ (
          leb (policy_of settings subject).threshold (suc (length ts))
          && ltb t (last_of start ts + (policy_of settings subject).lockout)))
unfolding is_locked
failures_lock settings subject rows start ts t two none_yet h =
    let (x, f, c) = Counts-window settings subject rows start ts two none_yet h in
    (
      (x, f, c.count),
      ap (λ o. row_locked o t) f ∙ Counts-locked (policy_of settings subject) start _ _ t x c,
    )

-- Locked at no time.
abbrev pub IsUnlocked : List Throttle → String → Type 0
IsUnlocked rows subject = (t : ℕ) → is_locked rows subject t ≡ false

-- ===== src/Policy/Staffing/Ends.antt =====
-- place ends: it sees one more person at each level of the recursion.
use norinth.Prelude.{
  Option, none, some, String, Bool, true, false, List, [], ◌∷◌, ◌==◌, ◌≡◌, inl, inr, refl, sym, ap,
  ◌∙◌, ℕ, zero, suc, ◌≤◌, ◌<◌, text_key, if◌then◌else◌, lookup, contains, length, Memᴰ, arith,
  eq_iff, Bool-cases, not_mem_nil,
}
use norinth.Policy.Staffing.{
  assign, Placed, place_result, after_place, try_person, try_people, place, next_stage, place_all,
}
use norinth.Policy.Staffing.Matching.{place-IsPlacement, seen_tail}

-- How many of the people are not seen.
abbrev pub unseen : List String → List String → ℕ
unseen [] seen = 0
unseen (p ∷ people) seen =
    let rest = unseen people seen in if contains p seen then rest else suc rest

pub unseen-le : (people seen : List String) → unseen people seen ≤ length people
unseen-le [] seen = omega arith
unseen-le (p ∷ people) seen =
    let h = unseen-le people seen in
    elim (Bool-cases (contains p seen)) [
      | inl e ↦ rw e (omega (arith, h))
      | inr e ↦ rw e (omega (arith, h))
    ]

abbrev IsMore : List String → List String → Type 0
IsMore seen seen' = (p : String) → contains p seen ≡ true → contains p seen' ≡ true

unseen-more :
    (people seen seen' : List String) → IsMore seen seen' → unseen people seen' ≤ unseen people seen
unseen-more [] seen seen' more = omega arith
unseen-more (p ∷ people) seen seen' more =
    let h = unseen-more people seen seen' more in
    elim (Bool-cases (contains p seen)) [
      | inl e ↦ let e' = more p e in rw (e, e') h
      | inr e ↦ elim (Bool-cases (contains p seen')) [
        | inl f ↦ rw (e, f) (omega (arith, h))
        | inr f ↦ rw (e, f) (omega (arith, h))
      ]
    ]

pub unseen-next :
    (people : List String) {p : String} (seen : List String)
    → Memᴰ p people
    → contains p seen ≡ false
    → unseen people (p ∷ seen) < unseen people seen
unseen-next [] seen m new = absurd (not_mem_nil m)
unseen-next (q ∷ people) {p} seen (Memᴰ.head e) new =
    let h = unseen-more people seen (p ∷ seen) (λ x s. seen_tail p x seen s) in
    let f : (q == p) ≡ true = (eq_iff q p).1 (sym e) in
    let g : contains q seen ≡ false = ap (λ x. contains x seen) (sym e) ∙ new in
    rw (f, g) (omega (arith, h))
unseen-next (q ∷ people) {p} seen (Memᴰ.tail m) new =
    one_more (contains q seen) (contains q (p ∷ seen)) _ _ (seen_tail p q seen)
      (unseen-next people seen m new)
  where
    one_more :
        (b b' : Bool) (m n : ℕ)
        → (b ≡ true → b' ≡ true)
        → m < n
        → (if b' then m else suc m) < (if b then n else suc n)
    one_more true b' m n h less = let e = h refl in rw e less
    one_more false true m n h less = omega (arith, less)
    one_more false false m n h less = omega (arith, less)

abbrev pub Returns : {A : Type 0} → Option A → Type 0
Returns {A} o = (r : A) × (o ≡ some r)

module _ (candidates : ℕ → List String) (people : List String)
    (among : (stage : ℕ) (p : String) → Memᴰ p (candidates stage) → Memᴰ p people) where
  -- The loop, where the recursive call has the fuel for one more person seen.
  try_people-Returns :
      (fuel stage : ℕ)
      → ((s : ℕ) (d : List (String × ℕ)) (seen : List String)
          → unseen people seen < fuel
          → Returns (place candidates fuel s d seen))
      → (some_people : List String) (assigned : List (String × ℕ)) (seen : List String)
      → ((p : String) → Memᴰ p some_people → Memᴰ p people)
      → unseen people seen ≤ fuel
      → Returns (try_people (place candidates fuel) stage some_people assigned seen)
  try_people-Returns fuel stage call [] assigned seen some_among enough = (_, refl)
  try_people-Returns fuel stage call (p ∷ rest) assigned seen some_among enough =
      let next = λ (a : List (String × ℕ)) (s : List String).
        try_people (place candidates fuel) stage rest a s in
      let ih = λ (a : List (String × ℕ)) (s : List String) (e : unseen people s ≤ fuel).
        try_people-Returns fuel stage call rest a s (λ q m. some_among q (Memᴰ.tail m)) e in
      elim (Bool-cases (contains p seen)) [
        | inl e ↦ rw e (ih assigned seen enough)
        | inr e ↦ rw e (
            person next ih
              (omega (arith, unseen-next people seen (some_among p (Memᴰ.head refl)) e, enough))
              (lookup p assigned))
      ]
    where
      returned :
          (next : List (String × ℕ) → List String → Option Placed)
          → ((a : List (String × ℕ)) (s : List String)
              → unseen people s ≤ fuel
              → Returns (next a s))
          → unseen people (p ∷ seen) < fuel
          → (other : ℕ) (o : Option Placed) → place candidates fuel other assigned (p ∷ seen) ≡ o
          → Returns o
          → Returns (after_place stage p next o)
      returned next ih less other none c (q, h) = absurd (cc h)
      returned next ih less other (some r) c (q, h) =
          let more = (place-IsPlacement candidates fuel other assigned (p ∷ seen) r c).grows in
          elim (Bool-cases r.placed) [
            | inl e ↦ (place_result true (assign p stage r.assigned) r.seen, rw e)
            | inr e ↦ rw e (
                ih r.assigned r.seen
                  (omega (arith, unseen-more people (p ∷ seen) r.seen more, less)))
          ]

      person :
          (next : List (String × ℕ) → List String → Option Placed)
          → ((a : List (String × ℕ)) (s : List String)
              → unseen people s ≤ fuel
              → Returns (next a s))
          → unseen people (p ∷ seen) < fuel
          → (o : Option ℕ)
          → Returns (try_person (place candidates fuel) stage p next assigned (p ∷ seen) o)
      person next ih less none = (_, refl)
      person next ih less (some other) =
          returned next ih less other _ refl (call other assigned (p ∷ seen) less)

  pub place-Returns :
      (fuel stage : ℕ) (assigned : List (String × ℕ)) (seen : List String)
      → unseen people seen < fuel
      → Returns (place candidates fuel stage assigned seen)
  unfolding place
  place-Returns zero stage assigned seen enough = absurd (omega (arith, enough))
  place-Returns (suc fuel) stage assigned seen enough =
      try_people-Returns fuel stage (place-Returns fuel) (candidates stage) assigned seen
        (among stage) (omega (arith, enough))

  pub place_all-Returns :
      (fuel stage left : ℕ) (assigned : List (String × ℕ))
      → length people < fuel
      → Returns (place_all candidates fuel stage left assigned)
  unfolding place_all
  place_all-Returns fuel stage zero assigned enough = (_, refl)
  place_all-Returns fuel stage (suc left) assigned enough =
      next (λ d. place_all-Returns fuel (suc stage) left d enough)
        (place candidates fuel stage assigned [])
        (place-Returns fuel stage assigned [] (omega (arith, unseen-le people [], enough)))
    where
      next :
          ((d : List (String × ℕ)) → Returns (place_all candidates fuel (suc stage) left d))
          → (o : Option Placed) → Returns o
          → Returns (next_stage (place_all candidates fuel (suc stage) left) o)
      next ih none (r, h) = absurd (cc h)
      next ih (some r) h = elim (Bool-cases r.placed) [
        | inl e ↦ rw e (ih r.assigned)
        | inr e ↦ ((false, r.assigned), rw e)
      ]

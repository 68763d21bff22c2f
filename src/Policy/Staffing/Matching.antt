-- ===== src/Policy/Staffing/Matching.antt =====
-- What place keeps: nobody is assigned twice, nobody already seen is moved, and no stage that has a
-- person loses its person.
use norinth.Prelude.{
  Option, none, some, String, true, false, List, [], ◌∷◌, ◌==◌, ◌≡◌, inl, inr, refl, sym, ap, subst,
  ◌∙◌, ℕ, zero, suc, text_key, lookup, contains, Memᴰ, eq_iff, Bool-cases, two_branches,
}
use norinth.Policy.Staffing.{
  assign, Placed, place_result, after_place, try_person, try_people, place,
}

-- Everyone assigned is a candidate of the stage.
abbrev pub IsEligible : (ℕ → List String) → List (String × ℕ) → Type 0
IsEligible candidates assigned =
    (person : String) (stage : ℕ)
    → lookup person assigned ≡ some stage
    → Memᴰ person (candidates stage)

abbrev pub Holder : List (String × ℕ) → ℕ → Type 0
Holder assigned stage = (person : String) × (lookup person assigned ≡ some stage)

pub record IsPlacement (candidates : ℕ → List String) (stage : ℕ) (assigned : List (String × ℕ))
    (seen : List String) (r : Placed) : Type 0 where
  pub grows : (p : String) → contains p seen ≡ true → contains p r.seen ≡ true
  pub unmoved : (p : String) → contains p seen ≡ true → lookup p r.assigned ≡ lookup p assigned
  pub failed : r.placed ≡ false → r.assigned ≡ assigned
  pub placed :
      r.placed ≡ true
      → (p : String) × (contains p seen ≡ false) × (lookup p r.assigned ≡ some stage)
  pub held : (s : ℕ) → Holder assigned s → Holder r.assigned s
  pub eligible : IsEligible candidates assigned → IsEligible candidates r.assigned

pub lookup-assign :
    (p : String) (stage : ℕ) (d : List (String × ℕ)) → lookup p (assign p stage d) ≡ some stage
lookup-assign p stage d = let h = (eq_iff p p).1 refl in rw h

pub lookup_other :
    (p q : String) (stage : ℕ) (d : List (String × ℕ))
    → (p == q) ≡ false
    → lookup q (assign p stage d) ≡ lookup q d
lookup_other p q stage d h = rw h

-- A seen person differs from an unseen one.
seen_differs :
    (p q : String) (seen : List String)
    → contains p seen ≡ false
    → contains q seen ≡ true
    → (p == q) ≡ false
seen_differs p q seen hp hq = elim (Bool-cases (p == q)) [
  | inl e ↦
      absurd (let t = (eq_iff p q).0 e in let u = ap (λ x. contains x seen) t in cc (hp, hq, u))
  | inr e ↦ e
]

pub seen_tail :
    (p q : String) (seen : List String) → contains q seen ≡ true → contains q (p ∷ seen) ≡ true
seen_tail p q seen h = elim (Bool-cases (q == p)) [ inl e ↦ rw e | inr e ↦ rw (e, h) ]

pub unseen_tail :
    (p q : String) (seen : List String)
    → contains q (p ∷ seen) ≡ false
    → (p == q ≡ false) × (contains q seen ≡ false)
unseen_tail p q seen h = elim (Bool-cases (q == p)) [
  | inl e ↦ absurd (let t = rw e at h in cc t)
  | inr e ↦ (
    elim (Bool-cases (p == q)) [
      | inl f ↦ absurd (let t = (eq_iff q p).1 (sym ((eq_iff p q).0 f)) in cc (t, e))
      | inr f ↦ f
    ],
    rw e at h,
  )
]

module _ (candidates : ℕ → List String) (stage : ℕ) (assigned : List (String × ℕ))
    (seen : List String) where
  -- Everyone else keeps the stage.
  assign_eligible :
      (p : String) (d : List (String × ℕ))
      → Memᴰ p (candidates stage)
      → IsEligible candidates d
      → IsEligible candidates (assign p stage d)
  assign_eligible p d m h q s l = elim (Bool-cases (p == q)) [
    | inl e ↦
        let t : some stage ≡ some s = rw e at l in
        let u : stage ≡ s = cc t in
        subst (λ x. Memᴰ x (candidates s)) ((eq_iff p q).0 e)
          (subst (λ n. Memᴰ p (candidates n)) u m)
    | inr e ↦ h q s (rw e at l)
  ]

  -- The person was free.
  placed_free :
      (p : String)
      → contains p seen ≡ false
      → Memᴰ p (candidates stage)
      → lookup p assigned ≡ none
      → IsPlacement candidates stage assigned seen
          (place_result true (assign p stage assigned) (p ∷ seen))
  placed_free p new m free = record {
    grows = λ q h. seen_tail p q seen h;
    unmoved = λ q h. lookup_other p q stage assigned (seen_differs p q seen new h);
    failed = λ h. absurd (cc h);
    placed = λ h. (p, new, lookup-assign p stage assigned);
    held = λ s (q, l). (q, lookup_other p q stage assigned (differs q s l) ∙ l);
    eligible = assign_eligible p assigned m;
  }
    where
      differs : (q : String) (s : ℕ) → lookup q assigned ≡ some s → (p == q) ≡ false
      differs q s l = elim (Bool-cases (p == q)) [
        | inl e ↦ absurd (let t = ap (λ x. lookup x assigned) ((eq_iff p q).0 e) in cc (t, l, free))
        | inr e ↦ e
      ]

  -- The stage that the person had went to someone else.
  placed_moved :
      (p : String) (other : ℕ) (r : Placed)
      → contains p seen ≡ false
      → Memᴰ p (candidates stage)
      → lookup p assigned ≡ some other
      → r.placed ≡ true
      → IsPlacement candidates other assigned (p ∷ seen) r
      → IsPlacement candidates stage assigned seen
          (place_result true (assign p stage r.assigned) r.seen)
  placed_moved p other r new m had done i = record {
    grows = λ q h. i.grows q (seen_tail p q seen h);
    unmoved = λ q h.
        lookup_other p q stage r.assigned (seen_differs p q seen new h)
        ∙ i.unmoved q (seen_tail p q seen h);
    failed = λ h. absurd (cc h);
    placed = λ h. (p, new, lookup-assign p stage r.assigned);
    held = λ s h. kept s (i.held s h);
    eligible = λ h. assign_eligible p r.assigned m (i.eligible h);
  }
    where
      seen_self : contains p (p ∷ seen) ≡ true
      seen_self = let h = (eq_iff p p).1 refl in rw h

      still : lookup p r.assigned ≡ some other
      still = i.unmoved p seen_self ∙ had

      kept : (s : ℕ) → Holder r.assigned s → Holder (assign p stage r.assigned) s
      kept s (q, l) = elim (Bool-cases (p == q)) [
        | inl e ↦
            let (q', u, l') = i.placed done in
            let t : some other ≡ some s =
              sym still ∙ ap (λ x. lookup x r.assigned) ((eq_iff p q).0 e) ∙ l in
            (q', lookup_other p q' stage r.assigned (unseen_tail p q' seen u).0 ∙ l' ∙ t)
        | inr e ↦ (q, lookup_other p q stage r.assigned e ∙ l)
      ]

  -- The loop goes on with more people seen.
  placed_later :
      (assigned' : List (String × ℕ)) (seen' : List String) (r : Placed)
      → assigned' ≡ assigned
      → ((p : String) → contains p seen ≡ true → contains p seen' ≡ true)
      → IsPlacement candidates stage assigned' seen' r
      → IsPlacement candidates stage assigned seen r
  placed_later assigned' seen' r e more i = record {
    grows = λ q h. i.grows q (more q h);
    unmoved = λ q h. i.unmoved q (more q h) ∙ ap (lookup q) e;
    failed = λ h. i.failed h ∙ e;
    placed = λ h. let (q, u, l) = i.placed h in (q, unseen q u, l);
    held = λ s h. i.held s (subst (λ d. Holder d s) (sym e) h);
    eligible = λ h. i.eligible (subst (IsEligible candidates) (sym e) h);
  }
    where
      unseen : (q : String) → contains q seen' ≡ false → contains q seen ≡ false
      unseen q u = elim (Bool-cases (contains q seen)) [
        | inl h ↦ absurd (let t = more q h in cc (t, u))
        | inr h ↦ h
      ]

placed_none :
    (candidates : ℕ → List String) (stage : ℕ) (assigned : List (String × ℕ)) (seen : List String)
    → IsPlacement candidates stage assigned seen (place_result false assigned seen)
placed_none candidates stage assigned seen = record {
  grows = λ q h. h;
  unmoved = λ q h. refl;
  failed = λ h. refl;
  placed = λ h. absurd (cc h);
  held = λ s h. h;
  eligible = λ h. h;
}

-- What a call of place with less fuel gives.
abbrev pub Places :
    (ℕ → List String) → (ℕ → List (String × ℕ) → List String → Option Placed) → Type 0
Places candidates place =
    (stage : ℕ) (assigned : List (String × ℕ)) (seen : List String) (r : Placed)
    → place stage assigned seen ≡ some r
    → IsPlacement candidates stage assigned seen r

module _ (candidates : ℕ → List String) (call : ℕ → List (String × ℕ) → List String → Option Placed)
    (ih : Places candidates call) (stage : ℕ) where
  -- What the rest of the loop gives.
  abbrev pub Continues : (List (String × ℕ) → List String → Option Placed) → Type 0
  Continues next =
      (assigned : List (String × ℕ)) (seen : List String) (r : Placed)
      → next assigned seen ≡ some r
      → IsPlacement candidates stage assigned seen r

  after_place-IsPlacement :
      (p : String) (other : ℕ) (next : List (String × ℕ) → List String → Option Placed)
      (assigned : List (String × ℕ)) (seen : List String) (o : Option Placed) (r : Placed)
      → Continues next
      → contains p seen ≡ false
      → Memᴰ p (candidates stage)
      → lookup p assigned ≡ some other
      → call other assigned (p ∷ seen) ≡ o
      → after_place stage p next o ≡ some r
      → IsPlacement candidates stage assigned seen r
  after_place-IsPlacement p other next assigned seen none r later new m had c h = absurd (cc h)
  after_place-IsPlacement p other next assigned seen (some q) r later new m had c h =
      let i = ih other assigned (p ∷ seen) q c in
      elim (two_branches q.placed _ (next q.assigned q.seen) (some r) h) [
        | inl (done, e) ↦
            subst (IsPlacement candidates stage assigned seen) (cc e)
              (placed_moved candidates stage assigned seen p other q new m had done i)
        | inr (fails, e) ↦
            placed_later candidates stage assigned seen q.assigned q.seen r (i.failed fails)
              (λ x s. i.grows x (seen_tail p x seen s)) (later q.assigned q.seen r e)
      ]

  try_person-IsPlacement :
      (p : String) (next : List (String × ℕ) → List String → Option Placed)
      (assigned : List (String × ℕ)) (seen : List String) (o : Option ℕ) (r : Placed)
      → Continues next
      → contains p seen ≡ false
      → Memᴰ p (candidates stage)
      → lookup p assigned ≡ o
      → try_person call stage p next assigned (p ∷ seen) o ≡ some r
      → IsPlacement candidates stage assigned seen r
  try_person-IsPlacement p next assigned seen none r later new m had h =
      subst (IsPlacement candidates stage assigned seen) (cc h)
        (placed_free candidates stage assigned seen p new m had)
  try_person-IsPlacement p next assigned seen (some other) r later new m had h =
      after_place-IsPlacement p other next assigned seen (call other assigned (p ∷ seen)) r later
        new m had refl h

  pub try_people-IsPlacement :
      (people : List String)
      → ((p : String) → Memᴰ p people → Memᴰ p (candidates stage))
      → Continues (λ assigned seen. try_people call stage people assigned seen)
  try_people-IsPlacement [] among assigned seen r h =
      subst (IsPlacement candidates stage assigned seen) (cc h)
        (placed_none candidates stage assigned seen)
  try_people-IsPlacement (p ∷ people) among assigned seen r h =
      let later = try_people-IsPlacement people (λ q m. among q (Memᴰ.tail m)) in
      let next = λ (a : List (String × ℕ)) (s : List String). try_people call stage people a s in
      elim (two_branches (contains p seen) (next assigned seen)
        (try_person call stage p next assigned (p ∷ seen) (lookup p assigned)) (some r) h) [
          | inl (_, e) ↦ later assigned seen r e
          | inr (new, e) ↦
              try_person-IsPlacement p next assigned seen (lookup p assigned) r later new
                (among p (Memᴰ.head refl)) refl e
        ]

-- A call of place that returns keeps everyone's stage but of people it had not seen, gives every
-- stage that had a person a person again, and, if it succeeds, gives the stage a person it had not
-- seen; if it fails, nothing has moved. Only candidates of a stage are given it.
pub place-IsPlacement :
    (candidates : ℕ → List String) (fuel stage : ℕ) (assigned : List (String × ℕ))
    (seen : List String) (r : Placed)
    → place candidates fuel stage assigned seen ≡ some r
    → IsPlacement candidates stage assigned seen r
unfolding place
place-IsPlacement candidates zero stage assigned seen r h = absurd (cc h)
place-IsPlacement candidates (suc fuel) stage assigned seen r h =
    try_people-IsPlacement candidates (place candidates fuel) (place-IsPlacement candidates fuel)
      stage (candidates stage) (λ q m. m) assigned seen r h

-- ===== src/Policy/Staffing/Tight.antt =====
-- place keeps what Closed.antt describes.
use norinth.Prelude.{
  Option, none, some, String, true, false, List, [], ◌∷◌, ◌==◌, ◌≡◌, inl, inr, refl, sym, ap, subst,
  ◌∙◌, ℕ, zero, suc, text_key, lookup, contains, Memᴰ, eq_iff, Bool-cases, two_branches, same_refl,
}
use norinth.Policy.Staffing.{
  assign, Placed, place_result, after_place, try_person, try_people, place,
}
use norinth.Policy.Staffing.Matching.{
  IsPlacement, place-IsPlacement, seen_tail, try_people-IsPlacement,
}
use norinth.Policy.Staffing.Closed.{
  Dict, IsClosedAt, IsTight, assign_free-IsTight, assign_moved-IsTight, go_on-IsTight,
  nobody-IsTight, both,
}

-- What a call with less fuel gives.
abbrev Tightens : (ℕ → List String) → (ℕ → Dict → List String → Option Placed) → Type 0
Tightens candidates call =
    (stage : ℕ) (d : Dict) (seen : List String) (r : Placed)
    → call stage d seen ≡ some r
    → IsPlacement candidates stage d seen r × IsTight candidates (candidates stage) stage d seen r

module _ (candidates : ℕ → List String) (call : ℕ → Dict → List String → Option Placed)
    (ih : Tightens candidates call) (stage : ℕ) where
  abbrev Loops : List String → (Dict → List String → Option Placed) → Type 0
  Loops people next =
      (d : Dict) (seen : List String) (r : Placed)
      → next d seen ≡ some r
      → IsPlacement candidates stage d seen r × IsTight candidates people stage d seen r

  after-IsTight :
      (p : String) (people : List String) (other : ℕ) (next : Dict → List String → Option Placed)
      (d : Dict) (seen : List String) (o : Option Placed) (r : Placed)
      → Loops people next
      → contains p seen ≡ false
      → lookup p d ≡ some other
      → call other d (p ∷ seen) ≡ o
      → after_place stage p next o ≡ some r
      → IsTight candidates (p ∷ people) stage d seen r
  after-IsTight p people other next d seen none r later new had c h = absurd (cc h)
  after-IsTight p people other next d seen (some q) r later new had c h =
      let (i, t) = ih other d (p ∷ seen) q c in
      elim (two_branches q.placed (some (place_result true (assign p stage q.assigned) q.seen))
        (next q.assigned q.seen) (some r) h) [
          | inl (done, e) ↦
              subst (IsTight candidates (p ∷ people) stage d seen) (cc e)
                (assign_moved-IsTight candidates stage d seen p other (p ∷ people) q new had done t)
          | inr (fails, e) ↦
              let (j, s) = later q.assigned q.seen r e in
              go_on-IsTight candidates stage d seen p people q.assigned q.seen r (i.failed fails)
                (i.grows p self) (λ x hx. i.grows x (seen_tail p x seen hx)) (closes i t fails) j s
        ]
    where
      self : contains p (p ∷ seen) ≡ true
      self = let a = same_refl p in rw a refl

      closes :
          IsPlacement candidates other d (p ∷ seen) q
          → IsTight candidates (candidates other) other d (p ∷ seen) q
          → q.placed ≡ false
          → (x : String) → contains x q.seen ≡ true
          → contains x seen ≡ false
          → IsClosedAt candidates d q.seen x
      closes i t fails x hx nx = elim (Bool-cases (p == x)) [
        | inl e ↦ (other, ap (λ w. lookup w d) (sym ((eq_iff p x).0 e)) ∙ had, t.covers fails)
        | inr e ↦ t.closed fails x hx (both candidates stage d seen p x e nx)
      ]

  person-IsTight :
      (p : String) (people : List String) (next : Dict → List String → Option Placed) (d : Dict)
      (seen : List String) (o : Option ℕ) (r : Placed)
      → Loops people next
      → contains p seen ≡ false
      → lookup p d ≡ o
      → try_person call stage p next d (p ∷ seen) o ≡ some r
      → IsTight candidates (p ∷ people) stage d seen r
  person-IsTight p people next d seen none r later new had h =
      subst (IsTight candidates (p ∷ people) stage d seen) (cc h)
        (assign_free-IsTight candidates stage d seen p (p ∷ people) new had)
  person-IsTight p people next d seen (some other) r later new had h =
      after-IsTight p people other next d seen (call other d (p ∷ seen)) r later new had refl h

  people-IsTight :
      (people : List String)
      → ((p : String) → Memᴰ p people → Memᴰ p (candidates stage))
      → Loops people (λ d seen. try_people call stage people d seen)
  people-IsTight people among d seen r h = (
    try_people-IsPlacement candidates call (λ s d seen r h. (ih s d seen r h).0) stage people among
        d seen r h,
    tight people among d seen r h,
  )
    where
      tight :
          (people : List String)
          → ((p : String) → Memᴰ p people → Memᴰ p (candidates stage))
          → (d : Dict) (seen : List String) (r : Placed)
          → try_people call stage people d seen ≡ some r
          → IsTight candidates people stage d seen r
      tight [] among d seen r h =
          subst (IsTight candidates [] stage d seen) (cc h) (nobody-IsTight candidates stage d seen)
      tight (p ∷ people) among d seen r h =
          let next = λ (a : Dict) (s : List String). try_people call stage people a s in
          let rest = λ (q : String) (m : Memᴰ q people). among q (Memᴰ.tail m) in
          let later : Loops people next = λ d seen r h. (
            try_people-IsPlacement candidates call (λ s d seen r h. (ih s d seen r h).0) stage
                people rest d seen r h,
            tight people rest d seen r h,
          ) in
          elim (two_branches (contains p seen) (next d seen)
            (try_person call stage p next d (p ∷ seen) (lookup p d)) (some r) h) [
              | inl (old, e) ↦
                  let (j, s) = later d seen r e in
                  go_on-IsTight candidates stage d seen p people d seen r refl old (λ x hx. hx)
                    (λ x a b. absurd (cc (a, b))) j s
              | inr (new, e) ↦ person-IsTight p people next d seen (lookup p d) r later new refl e
            ]

pub place-IsTight :
    (candidates : ℕ → List String) (fuel stage : ℕ) (d : Dict) (seen : List String) (r : Placed)
    → place candidates fuel stage d seen ≡ some r
    → IsTight candidates (candidates stage) stage d seen r
unfolding place
place-IsTight candidates zero stage d seen r h = absurd (cc h)
place-IsTight candidates (suc fuel) stage d seen r h =
    (people-IsTight candidates (place candidates fuel)
      (λ s d seen r h. (
        place-IsPlacement candidates fuel s d seen r h,
        place-IsTight candidates fuel s d seen r h,
      ))
      stage (candidates stage) (λ p m. m) d seen r h).1

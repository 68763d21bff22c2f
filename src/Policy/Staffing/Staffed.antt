-- ===== src/Policy/Staffing/Staffed.antt =====
-- What _can_staff promises: a different eligible person for each stage.
use Prim.Native.Nat.{Ordering}
use Prim.Native.String.{compare}
use norinth.Prelude.{
  Option, none, some, String, Bool, true, false, ◌||◌, List, [], ◌∷◌, ◌==◌, ◌≡◌, ◌⊎◌, inl, inr,
  refl, sym, ap, ap₂, &&-eq-true, subst, ◌∙◌, ℕ, zero, suc, ◌+◌, ◌<◌, text_key, lookup, length,
  get_elem?, Memᴰ, arith, eq_iff, not_mem_nil, mem_append_left, mem_append_right, two_branches,
  ||-eq-true, trichotomy,
}
use norinth.Policy.{Document}
use norinth.Policy.Staffing.{
  insert_at, insert_name, sorted_names, people_of, candidates_of, Placed, place, next_stage,
  place_all, all_candidates, staffed, staffing, can_staff, unstaffed_sections, is_unchanged,
  same_roles, stage_sections, unstaffed_stage_changes,
}
use norinth.Policy.Staffing.Matching.{IsPlacement, place-IsPlacement, IsEligible, Holder}
use norinth.Policy.Staffing.Ends.{place_all-Returns}

-- A stage of at most one per person, and for each stage a person who may decide it.
pub record IsStaffed (roles : List String) (eligible : String → List String) : Type 0 where
  pub stage_of : String → Option ℕ
  pub decided :
      (stage : ℕ) (role : String)
      → get_elem? roles stage ≡ some role
      → (person : String) × Memᴰ person (eligible role) × (stage_of person ≡ some stage)

mem_of_inserted :
    (name : String) (xs : List String) {p : String}
    → Memᴰ p (insert_name name xs)
    → Memᴰ p (name ∷ xs)
mem_of_inserted name [] m = m
mem_of_inserted name (x ∷ xs) {p} m = go (mem_of_inserted name xs) (compare name x) m
  where
    go :
        (Memᴰ p (insert_name name xs) → Memᴰ p (name ∷ xs))
        → (o : Ordering) → Memᴰ p (insert_at o name x xs (insert_name name xs))
        → Memᴰ p (name ∷ x ∷ xs)
    go ih Ordering.lt m = m
    go ih Ordering.eq m = Memᴰ.tail m
    go ih Ordering.gt (Memᴰ.head e) = Memᴰ.tail (Memᴰ.head e)
    go ih Ordering.gt (Memᴰ.tail m) = elim (ih m) [
      | Memᴰ.head e ↦ Memᴰ.head e
      | Memᴰ.tail n ↦ Memᴰ.tail (Memᴰ.tail n)
    ]

pub mem_of_sorted : (xs : List String) {p : String} → Memᴰ p (sorted_names xs) → Memᴰ p xs
unfolding sorted_names
mem_of_sorted [] m = m
mem_of_sorted (x ∷ xs) m = elim (mem_of_inserted x (sorted_names xs) m) [
  | Memᴰ.head e ↦ Memᴰ.head e
  | Memᴰ.tail n ↦ Memᴰ.tail (mem_of_sorted xs n)
]

candidate_of_all :
    (candidates : ℕ → List String) (n stage : ℕ) {p : String}
    → stage < n
    → Memᴰ p (candidates stage)
    → Memᴰ p (all_candidates candidates n)
unfolding all_candidates
candidate_of_all candidates zero stage less m = absurd (omega (arith, less))
candidate_of_all candidates (suc n) stage {p} less m = elim (trichotomy stage n) [
  | inl l ↦ mem_append_right (candidates n) (candidate_of_all candidates n stage l m)
  | inr (inl e) ↦ mem_append_left _ (subst (λ s. Memᴰ p (candidates s)) e m)
  | inr (inr g) ↦ absurd (omega (arith, less, g))
]

pub get_elem?-lt :
    (roles : List String) (stage : ℕ) {role : String}
    → get_elem? roles stage ≡ some role
    → stage < length roles
get_elem?-lt [] stage h = absurd (cc h)
get_elem?-lt (r ∷ roles) zero h = omega arith
get_elem?-lt (r ∷ roles) (suc stage) h = omega (arith, get_elem?-lt roles stage h)

-- _can_staff returns, whatever the stages and the people: the fuel, one more than the people that
-- the stages may go to, is enough for every recursion of place.
pub staffing_returns :
    (roles : List String) (eligible : String → List String)
    → (answer : Bool × List (String × ℕ)) × (staffing roles eligible ≡ some answer)
staffing_returns roles eligible =
    place_all-Returns c (all_candidates c (length roles)) (λ stage p m. among stage p _ refl m)
      (suc (length (all_candidates c (length roles)))) 0 (length roles) [] (omega arith)
  where
    c : ℕ → List String
    c = candidates_of eligible roles

    among :
        (stage : ℕ) (p : String) (o : Option String)
        → get_elem? roles stage ≡ o
        → Memᴰ p (people_of eligible o)
        → Memᴰ p (all_candidates (candidates_of eligible roles) (length roles))
    among stage p none e m = absurd (not_mem_nil m)
    among stage p (some role) e m =
        candidate_of_all _ (length roles) stage (get_elem?-lt roles stage e)
          (subst (λ o. Memᴰ p (people_of eligible o)) (sym e) m)

module _ (candidates : ℕ → List String) (fuel : ℕ) where
  -- The stages up to the one that is placed next have someone.
  place_all_held :
      (stage left : ℕ) (assigned answer : List (String × ℕ))
      → place_all candidates fuel stage left assigned ≡ some (true, answer)
      → ((s : ℕ) → s < stage → Holder assigned s)
      → IsEligible candidates assigned
      → ((s : ℕ) → s < stage + left → Holder answer s) × IsEligible candidates answer
  unfolding place_all
  place_all_held stage zero assigned answer h held good =
      let e : assigned ≡ answer = cc h in
      (
        λ s l. subst (λ d. Holder d s) e (held s (omega (arith, l))),
        subst (IsEligible candidates) e good,
      )
  place_all_held stage (suc left) assigned answer h held good =
      go (λ d. place_all_held (suc stage) left d answer) (place candidates fuel stage assigned [])
        refl h
    where
      up_to :
          (r : Placed)
          → IsPlacement candidates stage assigned [] r
          → r.placed ≡ true
          → (s : ℕ) → s < suc stage
          → Holder r.assigned s
      up_to r i done s l = elim (trichotomy s stage) [
        | inl less ↦ i.held s (held s less)
        | inr (inl e) ↦ let (p, _, q) = i.placed done in (p, q ∙ ap some (sym e))
        | inr (inr more) ↦ absurd (omega (arith, l, more))
      ]

      go :
          ((d : List (String × ℕ))
            → place_all candidates fuel (suc stage) left d ≡ some (true, answer)
            → ((s : ℕ) → s < suc stage → Holder d s)
            → IsEligible candidates d
            → ((s : ℕ) → s < suc stage + left → Holder answer s) × IsEligible candidates answer)
          → (o : Option Placed) → place candidates fuel stage assigned [] ≡ o
          → next_stage (place_all candidates fuel (suc stage) left) o ≡ some (true, answer)
          → ((s : ℕ) → s < stage + suc left → Holder answer s) × IsEligible candidates answer
      go ih none c t = absurd (cc t)
      go ih (some r) c t =
          let i = place-IsPlacement candidates fuel stage assigned [] r c in
          elim (two_branches r.placed (place_all candidates fuel (suc stage) left r.assigned)
            (some (false, r.assigned)) (some (true, answer)) t) [
              | inl (done, e) ↦
                  let (all, ok) = ih r.assigned e (up_to r i done) (i.eligible good) in
                  (λ s l. all s (omega (arith, l)), ok)
              | inr (_, e) ↦ absurd (cc e)
            ]

-- Where _can_staff answers true, every stage has a person with its authority, and no person has two
-- stages.
pub can_staff-IsStaffed :
    (roles : List String) (eligible : String → List String)
    → can_staff roles eligible ≡ true
    → IsStaffed roles eligible
unfolding can_staff
can_staff-IsStaffed roles eligible h = go (staffing roles eligible) refl h
  where
    go :
        (o : Option (Bool × List (String × ℕ)))
        → staffing roles eligible ≡ o
        → staffed o ≡ true
        → IsStaffed roles eligible
    go none c t = absurd (cc t)
    go (some (b, d)) c t =
        let (held, good) =
          place_all_held (candidates_of eligible roles) _ 0 (length roles) [] d
            (c ∙ ap (λ x. some (x, d)) t) (λ s l. absurd (omega (arith, l)))
            (λ p s l. absurd (cc l)) in
        record {
          stage_of = λ p. lookup p d;
          decided = λ stage role e.
              let (p, l) = held stage (omega (arith, get_elem?-lt roles stage e)) in
              (
                p,
                mem_of_sorted (eligible role)
                    (subst (λ o. Memᴰ p (people_of eligible o)) e (good p stage l)),
                l,
              );
        }

same_roles-eq : (roles before : List String) → same_roles roles before ≡ true → before ≡ roles
same_roles-eq [] [] h = refl
same_roles-eq [] (b ∷ before) h = absurd (cc h)
same_roles-eq (r ∷ roles) [] h = absurd (cc h)
same_roles-eq (r ∷ roles) (b ∷ before) h =
    let (e, t) = &&-eq-true (r == b) (same_roles roles before) h in
    ap₂ (λ x xs. x ∷ xs) (sym ((eq_iff r b).0 e)) (same_roles-eq roles before t)

unchanged :
    (roles : List String) (o : Option (List String)) → is_unchanged roles o ≡ true → o ≡ some roles
unchanged roles none h = absurd (cc h)
unchanged roles (some before) h = ap some (same_roles-eq roles before h)

-- Sections without a reason are unchanged or staffed.
sections-IsStaffed :
    (before after : List (String × List String)) (eligible : String → List String)
    → unstaffed_sections before after eligible ≡ []
    → (section : String) (roles : List String) → Memᴰ (section, roles) after
    → (lookup section before ≡ some roles) ⊎ IsStaffed roles eligible
sections-IsStaffed before [] eligible h section roles m = absurd (not_mem_nil m)
sections-IsStaffed before ((s, rs) ∷ after) eligible h section roles m =
    elim (two_branches (is_unchanged rs (lookup s before) || can_staff rs eligible)
      (unstaffed_sections before after eligible) (s ∷ unstaffed_sections before after eligible) []
      h) [
        | inl (e, t) ↦ elim m [
          | Memᴰ.head q ↦
              subst (λ x. (lookup (x.0) before ≡ some (x.1)) ⊎ IsStaffed (x.1) eligible) (sym q)
                (here e)
          | Memᴰ.tail n ↦ sections-IsStaffed before after eligible t section roles n
        ]
        | inr (_, t) ↦ absurd (cc t)
      ]
  where
    here :
        (is_unchanged rs (lookup s before) || can_staff rs eligible) ≡ true
        → (lookup s before ≡ some rs) ⊎ IsStaffed rs eligible
    here e = elim (||-eq-true (is_unchanged rs (lookup s before)) _ e) [
      | inl u ↦ inl (unchanged rs (lookup s before) u)
      | inr c ↦ inr (can_staff-IsStaffed rs eligible c)
    ]

pub unstaffed-IsStaffed :
    (old new default : Document) (eligible : String → List String)
    → unstaffed_stage_changes old new default eligible ≡ []
    → (section : String) (roles : List String) → Memᴰ (section, roles) (stage_sections new default)
    → (lookup section (stage_sections old default) ≡ some roles) ⊎ IsStaffed roles eligible
unfolding unstaffed_stage_changes
unstaffed-IsStaffed old new default eligible h =
    sections-IsStaffed (stage_sections old default) (stage_sections new default) eligible h

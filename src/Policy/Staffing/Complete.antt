-- ===== src/Policy/Staffing/Complete.antt =====
-- Where _can_staff answers false, there are not enough people: the stages from the one that it cannot
-- place on would go on forever, each to a person who has another one.
use Prim.Native.Nat.{Ordering}
use Prim.Native.String.{compare}
use norinth.Prelude.{
  Option, none, some, String, Bool, true, false, List, [], ◌∷◌, ◌==◌, ◌≡◌, ◌≢◌, ◌⊎◌, ◌↔◌, inl, inr,
  refl, sym, ap, subst, ◌∙◌, ℕ, zero, suc, ◌+◌, ◌≤◌, ◌<◌, text_key, lookup, contains, length,
  get_elem?, Memᴰ, eq_iff, Bool-cases, two_branches, mem_of_contains, arith, ||-eq-true,
}
use norinth.Policy.Staffing.{
  insert_at, insert_name, sorted_names, people_of, candidates_of, Placed, place, next_stage,
  place_all, staffed, staffing, can_staff,
}
use norinth.Policy.Staffing.Ends.{unseen, unseen-le, unseen-next}
use norinth.Policy.Staffing.Staffed.{IsStaffed, staffing_returns, can_staff-IsStaffed}
use norinth.Policy.Staffing.Closed.{Dict, IsUnique, IsFree, IsTight}
use norinth.Policy.Staffing.Tight.{place-IsTight}

-- There is no endless sequence of different members of a list.
module _ (people : List String) (g : ℕ → String) (all : (k : ℕ) → Memᴰ (g k) people)
    (apart : (i j : ℕ) → i < j → g i ≢ g j) where
  abbrev before : ℕ → List String
  before zero = []
  before (suc k) = g k ∷ before k

  earlier : (k : ℕ) (x : String) → contains x (before k) ≡ true → (i : ℕ) × (i < k) × (x ≡ g i)
  earlier zero x h = absurd (cc h)
  earlier (suc k) x h = elim (||-eq-true (x == g k) (contains x (before k)) h) [
    | inl e ↦ (k, omega arith, (eq_iff x (g k)).0 e)
    | inr e ↦ let (i, l, q) = earlier k x e in (i, omega (arith, l), q)
  ]

  new : (k : ℕ) → contains (g k) (before k) ≡ false
  new k = elim (Bool-cases (contains (g k) (before k))) [
    | inl e ↦ absurd (let (i, l, q) = earlier k (g k) e in apart i k l (sym q))
    | inr e ↦ e
  ]

  fewer_left : (k : ℕ) → unseen people (before k) + k ≤ length people
  fewer_left zero = omega (arith, unseen-le people [])
  fewer_left (suc k) = omega (arith, fewer_left k, unseen-next people (before k) (all k) (new k))

  no_sequence : ⊥
  no_sequence = omega (arith, fewer_left (suc (length people)))

mem_of_members : {x y : String} (xs : List String) → Memᴰ x (y ∷ xs) → (x ≡ y) ⊎ Memᴰ x xs
mem_of_members xs (Memᴰ.head e) = inl e
mem_of_members xs (Memᴰ.tail m) = inr m

-- Sorting drops no name.
inserted_of_mem :
    (name : String) (xs : List String) {p : String}
    → Memᴰ p (name ∷ xs)
    → Memᴰ p (insert_name name xs)
inserted_of_mem name [] m = m
inserted_of_mem name (x ∷ xs) {p} m = go (inserted_of_mem name xs) (compare name x) refl m
  where
    go :
        (Memᴰ p (name ∷ xs) → Memᴰ p (insert_name name xs))
        → (o : Ordering) → compare name x ≡ o
        → Memᴰ p (name ∷ x ∷ xs)
        → Memᴰ p (insert_at o name x xs (insert_name name xs))
    go ih Ordering.lt e m = m
    go ih Ordering.eq e (Memᴰ.head q) = Memᴰ.head (q ∙ (eq_iff name x).0 (rw e refl))
    go ih Ordering.eq e (Memᴰ.tail n) = n
    go ih Ordering.gt e (Memᴰ.head q) = Memᴰ.tail (ih (Memᴰ.head q))
    go ih Ordering.gt e (Memᴰ.tail n) = elim (mem_of_members xs n) [
      | inl q ↦ Memᴰ.head q
      | inr k ↦ Memᴰ.tail (ih (Memᴰ.tail k))
    ]

sorted_of_mem : (xs : List String) {p : String} → Memᴰ p xs → Memᴰ p (sorted_names xs)
unfolding sorted_names
sorted_of_mem [] m = m
sorted_of_mem (x ∷ xs) m = elim (mem_of_members xs m) [
  | inl q ↦ inserted_of_mem x (sorted_names xs) (Memᴰ.head q)
  | inr n ↦ inserted_of_mem x (sorted_names xs) (Memᴰ.tail (sorted_of_mem xs n))
]

-- Everyone has a stage below.
abbrev IsBelow : ℕ → Dict → Type 0
IsBelow stage d = (p : String) (s : ℕ) → lookup p d ≡ some s → s < stage

abbrev or_zero : Option ℕ → ℕ
or_zero none = 0
or_zero (some n) = n

-- A different candidate for each stage up to one.
pub record IsChosen (candidates : ℕ → List String) (n : ℕ) (choice : ℕ → String) : Type 0 where
  pub chosen : (i : ℕ) → i < n → Memᴰ (choice i) (candidates i)
  pub different : (i j : ℕ) → i < n → j < n → choice i ≡ choice j → i ≡ j

module _ (candidates : ℕ → List String) (n stage : ℕ) (choice : ℕ → String)
    (is : IsChosen candidates n choice) (d : Dict) (r : Placed) (within : stage < n)
    (unique : IsUnique [] d) (below : IsBelow stage d)
    (tight : IsTight candidates (candidates stage) stage d [] r) (fails : r.placed ≡ false) where
  abbrev chain : ℕ → ℕ
  chain zero = stage
  chain (suc k) = or_zero (lookup (choice (chain k)) d)

  on_chain : (k : ℕ) → (chain k ≤ stage) × (contains (choice (chain k)) r.seen ≡ true)
  on_chain zero = (omega arith, tight.covers fails (choice stage) (is.chosen stage within))
  on_chain (suc k) =
      let (l, m) = on_chain k in
      let (t, e, all) = tight.closed fails (choice (chain k)) m refl in
      let q : chain (suc k) ≡ t = ap or_zero e in
      let less = below (choice (chain k)) t e in
      subst (λ s. (s ≤ stage) × (contains (choice s) r.seen ≡ true)) (sym q)
        (omega (arith, less), all (choice t) (is.chosen t (omega (arith, less, within))))

  linked : (k : ℕ) → lookup (choice (chain k)) d ≡ some (chain (suc k))
  linked k =
      let (t, e, _) = tight.closed fails (choice (chain k)) (on_chain k).1 refl in
      e ∙ ap some (sym (ap or_zero e))

  apart : (i j : ℕ) → i < j → chain i ≢ chain j
  apart i zero l e = omega (arith, l)
  apart zero (suc j) l e =
      let less = below (choice (chain j)) (chain (suc j)) (linked j) in omega (arith, less, e)
  apart (suc i) (suc j) l e =
      let same =
        unique (choice (chain i)) (choice (chain j)) (chain (suc i)) refl refl (linked i)
          (linked j ∙ ap some (sym e)) in
      apart i j (omega (arith, l)) (is.different (chain i) (chain j) (in_range i) (in_range j) same)
    where
      in_range : (k : ℕ) → chain k < n
      in_range k = omega (arith, (on_chain k).0, within)

  no_choice : ⊥
  no_choice =
      no_sequence r.seen (λ k. choice (chain k)) (λ k. mem_of_contains _ r.seen (on_chain k).1)
        (λ i j l e. apart i j l (is.different (chain i) (chain j) (in_range i) (in_range j) e))
    where
      in_range : (k : ℕ) → chain k < n
      in_range k = omega (arith, (on_chain k).0, within)

no_holder : (d : Dict) (stage : ℕ) → IsBelow stage d → IsFree stage [] d
no_holder d stage below p _ l = let h = below p stage l in omega (arith, h)

-- all(...) is false only if no choice of candidates is.
place_all-no_choice :
    (candidates : ℕ → List String) (fuel stage left : ℕ) (d answer : Dict) (choice : ℕ → String)
    → IsChosen candidates (stage + left) choice
    → IsUnique [] d
    → IsBelow stage d
    → place_all candidates fuel stage left d ≡ some (false, answer)
    → ⊥
unfolding place_all
place_all-no_choice candidates fuel stage zero d answer choice is u b h =
    let t : true ≡ false = cc h in cc t
place_all-no_choice candidates fuel stage (suc left) d answer choice is u b h =
    go
      (λ d' u' b' h'.
        place_all-no_choice candidates fuel (suc stage) left d' answer choice one_more u' b' h')
      (place candidates fuel stage d []) refl h
  where
    one_more : IsChosen candidates (suc stage + left) choice
    one_more = record {
      chosen = λ i l. is.chosen i (omega (arith, l));
      different = λ i j l m. is.different i j (omega (arith, l)) (omega (arith, m));
    }

    still_below :
        (r : Placed)
        → IsTight candidates (candidates stage) stage d [] r
        → IsBelow (suc stage) r.assigned
    still_below r t p s l = elim (t.before s p refl l) [
      | inl e ↦ omega (arith, e)
      | inr (y, _, k) ↦ let less = b y s k in omega (arith, less)
    ]

    go :
        ((d' : Dict)
          → IsUnique [] d'
          → IsBelow (suc stage) d'
          → place_all candidates fuel (suc stage) left d' ≡ some (false, answer)
          → ⊥)
        → (o : Option Placed) → place candidates fuel stage d [] ≡ o
        → next_stage (place_all candidates fuel (suc stage) left) o ≡ some (false, answer)
        → ⊥
    go ih none c t = cc t
    go ih (some r) c t =
        let tight = place-IsTight candidates fuel stage d [] r c in
        elim (two_branches r.placed (place_all candidates fuel (suc stage) left r.assigned)
          (some (false, r.assigned)) (some (false, answer)) t) [
            | inl (_, e) ↦
                ih r.assigned (tight.unique u (no_holder d stage b)) (still_below r tight) e
            | inr (fails, _) ↦
                no_choice candidates (stage + suc left) stage choice is d r (omega arith) u b tight
                  fails
          ]

-- The person for a stage, by what the list of roles has there.
module _ (roles : List String) (eligible : String → List String)
    (s : IsStaffed roles eligible) where
  abbrev decider : (stage : ℕ) (o : Option String) → get_elem? roles stage ≡ o → String
  decider stage none e = ""
  decider stage (some role) e = (s.decided stage role e).0

  decider_chosen :
      (stage : ℕ) (o : Option String) (e : get_elem? roles stage ≡ o)
      → stage < length roles
      → Memᴰ (decider stage o e) (people_of eligible o)
        × (s.stage_of (decider stage o e) ≡ some stage)
  decider_chosen stage none e l = absurd (out_of_range roles stage l e)
    where
      out_of_range : (rs : List String) (i : ℕ) → i < length rs → get_elem? rs i ≡ none → ⊥
      out_of_range [] i l e = omega (arith, l)
      out_of_range (r ∷ rs) zero l e = cc e
      out_of_range (r ∷ rs) (suc i) l e = out_of_range rs i (omega (arith, l)) e
  decider_chosen stage (some role) e l =
      let (p, m, q) = s.decided stage role e in (sorted_of_mem (eligible role) m, q)

  deciders-IsChosen :
      IsChosen
        (candidates_of eligible roles)
        (length roles)
        (λ i. decider i (get_elem? roles i) refl)
  deciders-IsChosen = record {
    chosen = λ i l. (decider_chosen i (get_elem? roles i) refl l).0;
    different = λ i j l m e.
        let a = (decider_chosen i (get_elem? roles i) refl l).1 in
        let b = (decider_chosen j (get_elem? roles j) refl m).1 in
        let q : some i ≡ some j = sym a ∙ ap s.stage_of e ∙ b in cc q;
  }

-- _can_staff answers true exactly where each stage can go to a different person with its authority.
pub can_staff-iff-IsStaffed :
    (roles : List String) (eligible : String → List String)
    → (can_staff roles eligible ≡ true) ↔ IsStaffed roles eligible
unfolding can_staff
can_staff-iff-IsStaffed roles eligible =
    (can_staff-IsStaffed roles eligible, λ s. by_answer s (staffing_returns roles eligible))
  where
    from_zero : (n : ℕ) → n ≡ 0 + n
    from_zero n = omega arith

    by_answer :
        IsStaffed roles eligible
        → ((answer : Bool × List (String × ℕ)) × (staffing roles eligible ≡ some answer))
        → can_staff roles eligible ≡ true
    by_answer s ((true, d), e) = ap staffed e
    by_answer s ((false, d), e) = absurd (
        place_all-no_choice (candidates_of eligible roles) _ 0 (length roles) [] d
          (λ i. decider roles eligible s i (get_elem? roles i) refl)
          (subst
            (λ n.
              IsChosen (candidates_of eligible roles) n
                (λ i. decider roles eligible s i (get_elem? roles i) refl))
            (from_zero (length roles)) (deciders-IsChosen roles eligible s))
          (λ p q s a b l m. absurd (cc l)) (λ p s l. absurd (cc l)) e)

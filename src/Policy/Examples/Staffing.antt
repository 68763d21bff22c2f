-- ===== src/Policy/Examples/Staffing.antt =====
-- Two stages, where the first stage's person is needed for the second.
use norinth.Prelude.{
  some, String, Bool, true, List, [], ◌∷◌, ◌≡◌, ◌↔◌, refl, ℕ, zero, suc, if◌then◌else◌, ◌==◌,
  text_key,
}
use norinth.Policy.Staffing.{
  Placed, place_result, place, place_all, all_candidates, sorted_names, staffing, can_staff,
}
use norinth.Policy.Staffing.Complete.{can_staff-iff-IsStaffed}
use norinth.Policy.Staffing.Staffed.{IsStaffed, staffing_returns}

abbrev stage_candidates : ℕ → List String
stage_candidates zero = "ann" ∷ "bob" ∷ []
stage_candidates (suc stage) = "ann" ∷ []

abbrev ann_first : List (String × ℕ)
ann_first = ("ann", 0) ∷ []

abbrev moved : Placed
moved = place_result true (("ann", 1) ∷ ("bob", 0) ∷ ("ann", 0) ∷ []) ("bob" ∷ "ann" ∷ [])

bob_takes_over : place stage_candidates 3 1 ann_first [] ≡ some moved
unfolding place
bob_takes_over = refl

abbrev roles : List String
roles = "governance_reviewer" ∷ "risk_owner" ∷ []

abbrev eligible : String → List String
eligible role = if role == "risk_owner" then "ann" ∷ [] else "bob" ∷ "ann" ∷ "bob" ∷ []

staffing_returns_example :
    (answer : Bool × List (String × ℕ)) × (staffing roles eligible ≡ some answer)
staffing_returns_example = staffing_returns roles eligible

both_staffed : can_staff roles eligible ≡ true
unfolding can_staff place place_all all_candidates sorted_names
both_staffed = refl

can_staff-iff-IsStaffed_example : (can_staff roles eligible ≡ true) ↔ IsStaffed roles eligible
can_staff-iff-IsStaffed_example = can_staff-iff-IsStaffed roles eligible

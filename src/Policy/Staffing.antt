-- ===== src/Policy/Staffing.antt =====
-- Whether an organization can decide the stages of a document: _eligible_deciders, _can_staff and
-- unstaffed_stage_changes of policy_engine.py.
pub mod Matching
pub mod Ends
pub mod Staffed
pub mod Closed
pub mod Tight
pub mod Complete
pub mod Eligible
use Prim.Native.Nat.{Ordering}
use Prim.Native.String.{compare, ◌++◌ as ◌<>◌}
use norinth.Prelude.{
  Option, none, some, String, Bool, true, false, not, ◌&&◌, ◌||◌, List, [], ◌∷◌, ◌++◌, ◌==◌, ℕ,
  zero, suc, text_key, option_key, if◌then◌else◌, lookup, keys, contains, subset, map, filter, any,
  length, get_elem?,
}
use norinth.Auth.{User, RoleAssignment, list_role_permissions}
use norinth.Policy.{Document, StageEntry, risk_tiers}
use norinth.Policy.Resolve.{tier_entry, vendor_entry}

abbrev pub is_active_user : List User → String → Bool
is_active_user users ref = any (λ u. u.user_ref == ref && u.status == "active") users

-- The rows of the join: active assignments of the tenant, of active users.
abbrev pub deciding : List User → String → RoleAssignment → Bool
deciding users tenant a =
    a.tenant_id == some tenant && a.status == "active" && is_active_user users a.user_ref

-- held[user] has the required role, or a role with at least its grants.
abbrev pub carries_role : List (String × String) → String → RoleAssignment → Bool
carries_role grants required a =
    a.role == required
    || subset (list_role_permissions grants required) (list_role_permissions grants a.role)

-- eligible[required]: by the role that a stage names, its deciders. A role without grants has none.
unfoldable pub eligible_deciders :
    List User → List RoleAssignment → List (String × String) → String → String → List String
eligible_deciders users assignments grants tenant required =
    if contains required (keys grants)
    then map (λ a. a.user_ref)
        (filter (λ a. deciding users tenant a && carries_role grants required a) assignments)
    else []

-- sorted(set(names)), by code points
abbrev pub insert_at : Ordering → String → String → List String → List String → List String
insert_at Ordering.lt name x xs rest = name ∷ x ∷ xs
insert_at Ordering.eq name x xs rest = x ∷ xs
insert_at Ordering.gt name x xs rest = x ∷ rest

abbrev pub insert_name : String → List String → List String
insert_name name [] = name ∷ []
insert_name name (x ∷ xs) = insert_at (compare name x) name x xs (insert_name name xs)

unfoldable pub sorted_names : List String → List String
sorted_names [] = []
sorted_names (x ∷ xs) = insert_name x (sorted_names xs)

-- sorted(eligible.get(roles[stage], set()))
abbrev pub people_of : (String → List String) → Option String → List String
people_of eligible none = []
people_of eligible (some role) = sorted_names (eligible role)

abbrev pub candidates_of : (String → List String) → List String → ℕ → List String
candidates_of eligible roles stage = people_of eligible (get_elem? roles stage)

-- assigned[person] = stage
abbrev pub assign : String → ℕ → List (String × ℕ) → List (String × ℕ)
assign person stage assigned = (person, stage) ∷ assigned

-- What place returns, with the dictionary and the set that it changes.
pub record Placed : Type 0 where
  pub placed : Bool
  pub assigned : List (String × ℕ)
  pub seen : List String

abbrev pub place_result : Bool → List (String × ℕ) → List String → Placed
place_result placed assigned seen = record { placed = placed; assigned = assigned; seen = seen }

-- The rest of the loop's body once the recursive call has returned, and the loop's next turn.
abbrev pub after_place :
    ℕ → String → (List (String × ℕ) → List String → Option Placed) → Option Placed → Option Placed
after_place stage person next none = none
after_place stage person next (some r) =
    if r.placed
    then some (place_result true (assign person stage r.assigned) r.seen)
    else next r.assigned r.seen

-- `person not in assigned or place(assigned[person], seen)`
abbrev pub try_person :
    (ℕ → List (String × ℕ) → List String → Option Placed)
    → ℕ
    → String
    → (List (String × ℕ) → List String → Option Placed)
    → List (String × ℕ)
    → List String
    → Option ℕ
    → Option Placed
try_person place stage person next assigned seen none =
    some (place_result true (assign person stage assigned) seen)
try_person place stage person next assigned seen (some other) =
    after_place stage person next (place other assigned seen)

-- The loop of place over the candidates of a stage, with the recursive call.
abbrev pub try_people :
    (ℕ → List (String × ℕ) → List String → Option Placed)
    → ℕ
    → List String
    → List (String × ℕ)
    → List String
    → Option Placed
try_people place stage [] assigned seen = some (place_result false assigned seen)
try_people place stage (person ∷ people) assigned seen =
    let next = λ (a : List (String × ℕ)) (s : List String). try_people place stage people a s in
    if contains person seen
    then next assigned seen
    else try_person place stage person next assigned (person ∷ seen) (lookup person assigned)

-- place, where the recursion has fuel; none where it runs out.
unfoldable pub place : (ℕ → List String) → ℕ → ℕ → List (String × ℕ) → List String → Option Placed
place candidates zero stage assigned seen = none
place candidates (suc fuel) stage assigned seen =
    try_people (place candidates fuel) stage (candidates stage) assigned seen

-- all(place(stage, set()) for stage in ...): the dictionary where all stages are placed.
abbrev pub next_stage :
    (List (String × ℕ) → Option (Bool × List (String × ℕ)))
    → Option Placed
    → Option (Bool × List (String × ℕ))
next_stage next none = none
next_stage next (some r) = if r.placed then next r.assigned else some (false, r.assigned)

unfoldable pub place_all :
    (ℕ → List String) → ℕ → ℕ → ℕ → List (String × ℕ) → Option (Bool × List (String × ℕ))
place_all candidates fuel stage zero assigned = some (true, assigned)
place_all candidates fuel stage (suc left) assigned =
    next_stage (place_all candidates fuel (suc stage) left)
      (place candidates fuel stage assigned [])

-- The people that any of the first stages may go to; place sees each of them at most once.
unfoldable pub all_candidates : (ℕ → List String) → ℕ → List String
all_candidates candidates zero = []
all_candidates candidates (suc n) = candidates n ++ all_candidates candidates n

abbrev pub staffed : Option (Bool × List (String × ℕ)) → Bool
staffed none = false
staffed (some (b, assigned)) = b

abbrev pub staffing : List String → (String → List String) → Option (Bool × List (String × ℕ))
staffing roles eligible =
    place_all (candidates_of eligible roles)
      (suc (length (all_candidates (candidates_of eligible roles) (length roles)))) 0 (length roles)
      []

unfoldable pub can_staff : List String → (String → List String) → Bool
can_staff roles eligible = staffed (staffing roles eligible)

-- _stage_sections
abbrev pub stage_sections : Document → Document → List (String × List String)
stage_sections d default =
    map (λ tier. ("intake.tiers." <> tier, (tier_entry d default tier).roles)) risk_tiers
    ++ ("vendors", (vendor_entry d default).roles) ∷ []

abbrev pub same_roles : List String → List String → Bool
same_roles [] [] = true
same_roles [] (s ∷ ss) = false
same_roles (r ∷ rs) [] = false
same_roles (r ∷ rs) (s ∷ ss) = r == s && same_roles rs ss

abbrev pub is_unchanged : List String → Option (List String) → Bool
is_unchanged roles none = false
is_unchanged roles (some before) = same_roles roles before

-- The sections named in the reasons.
abbrev pub unstaffed_sections :
    List (String × List String) → List (String × List String) → (String → List String) → List String
unstaffed_sections before [] eligible = []
unstaffed_sections before ((section, roles) ∷ after) eligible =
    let rest = unstaffed_sections before after eligible in
    if is_unchanged roles (lookup section before) || can_staff roles eligible
    then rest
    else section ∷ rest

unfoldable pub unstaffed_stage_changes :
    Document → Document → Document → (String → List String) → List String
unstaffed_stage_changes old new default eligible =
    unstaffed_sections (stage_sections old default) (stage_sections new default) eligible

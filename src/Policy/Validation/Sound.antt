-- ===== src/Policy/Validation/Sound.antt =====
-- What checks without errors say of the stages of a document: there are some and not too many, and
-- the roles that they name can decide them.
use norinth.Prelude.{
  Option, none, some, String, Bool, true, false, not, ◌||◌, List, [], ◌∷◌, ◌++◌, ◌==◌, ◌≡◌, inl,
  inr, refl, sym, ap, subst, ◌∙◌, ℕ, suc, ◌≤◌, text_key, keys, contains, map, leb, ltb, length,
  Memᴰ, arith, Bool-cases, append-eq-nil, not_mem_nil, leb→le, two_branches, &&-eq-true,
}
use norinth.Prelude.Result.{ok, err}
use norinth.Auth.{list_role_permissions}
use norinth.Json.{
  Json, null_value, boolean, integer, negative, float, other_float, text, array, object, item_list,
  get, get_object, get_list, get_text, get_natural,
}
use norinth.Policy.{StageEntry, risk_tiers, read_role, read_stage_entry, read_pairs, or_text}
use norinth.Policy.Errors.{
  Place, Fault, Errors, object_errors, object_checks, Checked, ◌also◌, error_if, unknown_in,
  is_none, is_int_between,
}
use norinth.Policy.TierChecks.{
  stage_modes, role_errors, stage_errors, stages_errors, stage_list_errors, validate_stages,
  validate_recertify_days, one_of, tier_checks, tiers_checks,
}

abbrev pub IsBetween : ℕ → ℕ → Option ℕ → Type 0
IsBetween low high none = Unit
IsBetween low high (some n) = (low ≤ n) × (n ≤ high)

-- Stages that people can decide, and a clock of between a month and ten years.
pub record IsEntry (grants : List (String × String)) (e : StageEntry) : Type 0 where
  pub some_stage : 1 ≤ length e.roles
  pub at_most : length e.roles ≤ 10
  pub decides :
      (role : String)
      → Memᴰ role e.roles
      → contains "review.decide" (list_role_permissions grants role) ≡ true
  pub mode : contains e.mode stage_modes ≡ true
  pub recertify_days : IsBetween 30 3650 e.recertify_days

-- Checks without errors are without errors one by one.
pub also_none : (a b : Checked) → (a also b) ≡ ok [] → (a ≡ ok []) × (b ≡ ok [])
also_none (err e) b h = absurd (cc h)
also_none (ok xs) (err e) h = absurd (cc h)
also_none (ok xs) (ok ys) h = let (p, q) = append-eq-nil xs ys (cc h) in (ap ok p, ap ok q)

pub ok_none : {xs : Errors} → ◌≡◌ {A = Checked} (ok xs) (ok []) → xs ≡ []
ok_none h = cc h

pub no_error :
    (b : Bool) (where_at : Place) (fault : Fault) → error_if (not b) where_at fault ≡ [] → b ≡ true
no_error true where_at fault h = refl
no_error false where_at fault h = absurd (cc h)

pub mem_of_pairs :
    {A : Type 0} (read : Json → A) (d : List (String × Json)) {k : String} {a : A}
    → Memᴰ (k, a) (read_pairs read d)
    → (j : Json) × Memᴰ (k, j) d × (a ≡ read j)
mem_of_pairs read [] m = absurd (not_mem_nil m)
mem_of_pairs read ((k', j) ∷ d) {k} {a} (Memᴰ.head e) =
    let p : k ≡ k' = ap (λ x. x.0) e in
    let q : a ≡ read j = ap (λ x. x.1) e in (j, Memᴰ.head (ap (λ x. (x, j)) p), q)
mem_of_pairs read ((k', j) ∷ d) (Memᴰ.tail m) =
    let (j', n, e) = mem_of_pairs read d m in (j', Memᴰ.tail n, e)

pub IsBetween-get_natural :
    (low high : ℕ) (o : Option Json)
    → (is_none o || is_int_between low high o) ≡ true
    → IsBetween low high (get_natural o)
IsBetween-get_natural low high none h = tt
IsBetween-get_natural low high (some (integer n)) h =
    let (a, b) = &&-eq-true (leb low n) (leb n high) h in (leb→le low n a, leb→le n high b)
IsBetween-get_natural low high (some null_value) h = tt
IsBetween-get_natural low high (some (boolean b)) h = tt
IsBetween-get_natural low high (some (negative n)) h = tt
IsBetween-get_natural low high (some (float u)) h = tt
IsBetween-get_natural low high (some other_float) h = tt
IsBetween-get_natural low high (some (text s)) h = tt
IsBetween-get_natural low high (some (array js)) h = tt
IsBetween-get_natural low high (some (object ms)) h = tt

role_decides :
    (grants : List (String × String)) (where_at : Place) (o : Option Json)
    → role_errors grants where_at o ≡ []
    → contains "review.decide" (list_role_permissions grants (or_text (get_text o) "")) ≡ true
role_decides grants where_at (some (text role)) h = elim (Bool-cases (role == "")) [
  | inl e ↦ absurd (let t = rw e at h in cc t)
  | inr e ↦ elim (Bool-cases (contains role (keys grants))) [
    | inl f ↦ no_error _ _ _ (rw (e, f) at h)
    | inr f ↦ absurd (let t = rw (e, f) at h in cc t)
  ]
]
role_decides grants where_at none h = absurd (cc h)
role_decides grants where_at (some null_value) h = absurd (cc h)
role_decides grants where_at (some (boolean b)) h = absurd (cc h)
role_decides grants where_at (some (integer n)) h = absurd (cc h)
role_decides grants where_at (some (negative n)) h = absurd (cc h)
role_decides grants where_at (some (float u)) h = absurd (cc h)
role_decides grants where_at (some other_float) h = absurd (cc h)
role_decides grants where_at (some (array js)) h = absurd (cc h)
role_decides grants where_at (some (object ms)) h = absurd (cc h)

-- A check of an object without errors is one of its members.
pub members_checked :
    (where_at : Place) (check : List (String × Json) → Checked) (j : Json)
    → object_checks where_at check j ≡ ok []
    → check (get_object (some j)) ≡ ok []
members_checked where_at check (object ms) h = h
members_checked where_at check null_value h = absurd (cc h)
members_checked where_at check (boolean b) h = absurd (cc h)
members_checked where_at check (integer n) h = absurd (cc h)
members_checked where_at check (negative n) h = absurd (cc h)
members_checked where_at check (float u) h = absurd (cc h)
members_checked where_at check other_float h = absurd (cc h)
members_checked where_at check (text s) h = absurd (cc h)
members_checked where_at check (array js) h = absurd (cc h)

pub members_without :
    (where_at : Place) (check : List (String × Json) → Errors) (j : Json)
    → object_errors where_at check j ≡ []
    → check (get_object (some j)) ≡ []
members_without where_at check j h =
    ok_none (members_checked where_at (λ d. ok (check d)) j (as_checks j ∙ ap ok h))
  where
    as_checks :
        (j : Json)
        → ◌≡◌ {A = Checked}
            (object_checks where_at (λ d. ok (check d)) j)
            (ok (object_errors where_at check j))
    as_checks (object ms) = refl
    as_checks null_value = refl
    as_checks (boolean b) = refl
    as_checks (integer n) = refl
    as_checks (negative n) = refl
    as_checks (float u) = refl
    as_checks other_float = refl
    as_checks (text s) = refl
    as_checks (array js) = refl

-- A list of errors that ends in others is without errors part by part.
pub last_none : (xs : Errors) {ys : Errors} → xs ++ ys ≡ [] → ys ≡ []
last_none xs h = (append-eq-nil xs _ h).1

stage_decides :
    (grants : List (String × String)) (where_at : Place) (d : List (String × Json))
    → stage_errors grants where_at d ≡ []
    → contains "review.decide" (list_role_permissions grants (or_text (get_text (get d "role")) ""))
      ≡ true
stage_decides grants where_at d h =
    let (h₁, _) =
      append-eq-nil
        (unknown_in d ("role" ∷ "label" ∷ []) where_at
          ++ role_errors grants where_at (get d "role"))
        _ h in
    role_decides grants where_at (get d "role") (last_none (unknown_in d _ where_at) h₁)

stages_decide :
    (grants : List (String × String)) (where_at : Place) (index : ℕ) (stages : List Json)
    {role : String}
    → stages_errors grants where_at index stages ≡ []
    → Memᴰ role (map read_role stages)
    → contains "review.decide" (list_role_permissions grants role) ≡ true
stages_decide grants where_at index [] h m = absurd (not_mem_nil m)
stages_decide grants where_at index (stage ∷ stages) {role} h m =
    let place = Place.at_stage index where_at in
    let (a, b) = append-eq-nil (object_errors place (stage_errors grants place) stage) _ h in
    elim m [
      | Memᴰ.head e ↦
          ap (λ r. contains "review.decide" (list_role_permissions grants r)) e
          ∙ stage_decides grants place (get_object (some stage))
              (members_without place (stage_errors grants place) stage a)
      | Memᴰ.tail n ↦ stages_decide grants where_at (suc index) stages b n
    ]

pub length-map : {A B : Type 0} (f : A → B) (xs : List A) → length (map f xs) ≡ length xs
length-map f [] = refl
length-map f (x ∷ xs) = ap suc (length-map f xs)

-- The stages of an entry without errors.
pub record IsStageList (grants : List (String × String)) (roles : List String) : Type 0 where
  pub some_stage : 1 ≤ length roles
  pub at_most : length roles ≤ 10
  pub decides :
      (role : String)
      → Memᴰ role roles
      → contains "review.decide" (list_role_permissions grants role) ≡ true

stage_list :
    (grants : List (String × String)) (where_at : Place) (stages : List Json)
    → stage_list_errors grants where_at stages ≡ []
    → IsStageList grants (map read_role stages)
stage_list grants where_at [] h = absurd (cc h)
stage_list grants where_at (stage ∷ stages) h =
    elim (two_branches (ltb 10 (length (stage ∷ stages))) ((where_at, Fault.too_many_stages) ∷ [])
      (stages_errors grants where_at 0 (stage ∷ stages)) [] h) [
        | inl (_, e) ↦ absurd (cc e)
        | inr (few, e) ↦ record {
          some_stage = omega arith;
          at_most = subst (λ n. suc n ≤ 10) (sym (length-map read_role stages)) (ltb-le _ few);
          decides = λ role m. stages_decide grants where_at 0 (stage ∷ stages) e m;
        }
      ]
  where
    ltb-le : (n : ℕ) → ltb 10 n ≡ false → n ≤ 10
    ltb-le n h = ground arith

pub stages_valid :
    (grants : List (String × String)) (where_at : Place) (o : Option Json)
    → validate_stages grants where_at o ≡ []
    → IsStageList grants (map read_role (get_list o))
stages_valid grants where_at none h = absurd (cc h)
stages_valid grants where_at (some (array js)) h = stage_list grants where_at (item_list js) h
stages_valid grants where_at (some null_value) h = absurd (cc h)
stages_valid grants where_at (some (boolean b)) h = absurd (cc h)
stages_valid grants where_at (some (integer n)) h = absurd (cc h)
stages_valid grants where_at (some (negative n)) h = absurd (cc h)
stages_valid grants where_at (some (float u)) h = absurd (cc h)
stages_valid grants where_at (some other_float) h = absurd (cc h)
stages_valid grants where_at (some (text s)) h = absurd (cc h)
stages_valid grants where_at (some (object ms)) h = absurd (cc h)

-- d.get(key, default) without errors is one of the names.
pub named :
    (names : List String) (where_at : Place) (fault : Fault) (default : String) (o : Option Json)
    → contains default names ≡ true
    → one_of names where_at fault o ≡ ok []
    → contains (or_text (get_text o) default) names ≡ true
named names where_at fault default none d h = d
named names where_at fault default (some (text s)) d h = no_error _ _ _ (ok_none h)
named names where_at fault default (some null_value) d h = absurd (cc h)
named names where_at fault default (some (boolean b)) d h = absurd (cc h)
named names where_at fault default (some (integer n)) d h = absurd (cc h)
named names where_at fault default (some (negative n)) d h = absurd (cc h)
named names where_at fault default (some (float u)) d h = absurd (cc h)
named names where_at fault default (some other_float) d h = absurd (cc h)
named names where_at fault default (some (array js)) d h = absurd (cc h)
named names where_at fault default (some (object ms)) d h = absurd (cc h)

tier-IsEntry :
    (grants : List (String × String)) (where_at : Place) (entry : Json)
    → object_checks where_at (tier_checks grants where_at) entry ≡ ok []
    → IsEntry grants (read_stage_entry entry)
tier-IsEntry grants where_at entry h =
    let d = get_object (some entry) in
    let (h₁, recertify) =
      also_none _ (ok (validate_recertify_days where_at (get d "recertify_days")))
        (members_checked where_at (tier_checks grants where_at) entry h) in
    let (h₂, mode) = also_none _ (one_of stage_modes where_at Fault.bad_mode (get d "mode")) h₁ in
    let (_, stages) =
      also_none (ok (unknown_in d ("stages" ∷ "mode" ∷ "recertify_days" ∷ []) where_at))
        (ok (validate_stages grants where_at (get d "stages"))) h₂ in
    let s = stages_valid grants where_at (get d "stages") (ok_none stages) in
    record {
      some_stage = s.some_stage;
      at_most = s.at_most;
      decides = s.decides;
      mode = named stage_modes where_at Fault.bad_mode "sequence" (get d "mode") refl mode;
      recertify_days =
          IsBetween-get_natural 30 3650 (get d "recertify_days")
            (no_error _ _ _ (ok_none recertify));
    }

pub tiers_valid :
    (grants : List (String × String)) (d : List (String × Json)) {tier : String} {entry : Json}
    → tiers_checks grants d ≡ ok []
    → Memᴰ (tier, entry) d
    → (contains tier risk_tiers ≡ true) × IsEntry grants (read_stage_entry entry)
tiers_valid grants [] h m = absurd (not_mem_nil m)
tiers_valid grants ((k, j) ∷ d) {tier} {entry} h m =
    let (a, b) = also_none _ (tiers_checks grants d) h in
    elim m [
      | Memᴰ.head e ↦
          elim (two_branches (contains k risk_tiers)
            (object_checks (Place.at_tier k) (tier_checks grants (Place.at_tier k)) j) _ (ok [])
            a) [
              | inl (known, f) ↦ (
                ap (λ x. contains (x.0) risk_tiers) e ∙ known,
                subst (λ x. IsEntry grants (read_stage_entry (x.1))) (sym e)
                    (tier-IsEntry grants (Place.at_tier k) j f),
              )
              | inr (_, f) ↦ absurd (cc f)
            ]
      | Memᴰ.tail n ↦ tiers_valid grants d b n
    ]

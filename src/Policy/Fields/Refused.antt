-- ===== src/Policy/Fields/Refused.antt =====
-- Values of custom fields that validate_custom_field_values refuses.
use norinth.Prelude.{
  Option, none, some, String, true, false, not, List, [], ◌∷◌, ◌++◌, ◌≡◌, inl, inr, refl, ap, subst,
  ◌∙◌, text_key, keys, contains, subset, Memᴰ, not_mem_nil, two_branches, Bool-cases, not-eq-false,
  contains-subset,
}
use norinth.Prelude.Result.{Result, ok, err, >>=-eq-ok}
use norinth.Json.{Json, null_value, text, get}
use norinth.Policy.{Field}
use norinth.Policy.Fields.{
  FieldError, declare, is_missing, check_value, check_values, validate_custom_field_values,
}

-- A value that counts as not given: no value, null, or the empty text.
pub data IsAbsent (o : Option Json) : Type 0 where
  no_value : o ≡ none → IsAbsent o
  a_null : o ≡ some null_value → IsAbsent o
  empty_text : o ≡ some (text "") → IsAbsent o

missing_of_absent : (o : Option Json) → IsAbsent o → is_missing o ≡ true
missing_of_absent o (IsAbsent.no_value e) = rw e refl
missing_of_absent o (IsAbsent.a_null e) = rw e refl
missing_of_absent o (IsAbsent.empty_text e) = rw e refl

-- Values that are to be refused: one for a field that is not declared, or a required one that is missing.
pub data IsRefused (declared : List (String × Field)) (values : List (String × Json))
    (risk_tier : String) : Type 0 where
  undeclared :
      (key : String)
      → contains key (keys values) ≡ true
      → contains key (keys declared) ≡ false
      → IsRefused declared values risk_tier
  required :
      (key : String) (f : Field)
      → Memᴰ (key, f) declared
      → contains risk_tier f.required_tiers ≡ true
      → IsAbsent (get values key)
      → IsRefused declared values risk_tier

required_given :
    (declared : List (String × Field)) (values : List (String × Json)) (risk_tier : String)
    (cleaned : List (String × Json)) (key : String) (f : Field)
    → check_values declared values risk_tier ≡ ok cleaned
    → Memᴰ (key, f) declared
    → contains risk_tier f.required_tiers ≡ true
    → is_missing (get values key) ≡ false
required_given [] values risk_tier cleaned key f h m r = absurd (not_mem_nil m)
required_given ((k, g) ∷ declared) values risk_tier cleaned key f h m r =
    let (first, c, h₁) = >>=-eq-ok (check_value k g risk_tier (get values k)) _ h in
    let (rest, d, _) =
      >>=-eq-ok (check_values declared values risk_tier) (λ rest. ok (first ++ rest)) h₁ in
    elim m [
      | Memᴰ.head e ↦
          let tier : contains risk_tier g.required_tiers ≡ true =
            subst (λ (x : String × Field). contains risk_tier (x.1).required_tiers ≡ true) e r in
          ap (λ (x : String × Field). is_missing (get values (x.0))) e ∙ here first c tier
      | Memᴰ.tail n ↦ required_given declared values risk_tier rest key f d n r
    ]
  where
    here :
        (first : List (String × Json))
        → check_value k g risk_tier (get values k) ≡ ok first
        → contains risk_tier g.required_tiers ≡ true
        → is_missing (get values k) ≡ false
    here first c t = elim (Bool-cases (is_missing (get values k))) [
      | inl e ↦ absurd (let u = rw (e, t) at c in cc u)
      | inr e ↦ e
    ]

-- Values for a field that is not declared, or without a value that the risk tier requires, are refused.
pub validate_custom_field_values-IsRefused :
    (fields : List Field) (values : List (String × Json)) (risk_tier : String)
    → IsRefused (declare fields []) values risk_tier
    → (e : FieldError) × (validate_custom_field_values fields values risk_tier ≡ err e)
unfolding validate_custom_field_values
validate_custom_field_values-IsRefused fields values risk_tier i =
    by_result (validate_custom_field_values fields values risk_tier) refl
  where
    by_result :
        (r : Result FieldError (List (String × Json)))
        → validate_custom_field_values fields values risk_tier ≡ r
        → (e : FieldError) × (validate_custom_field_values fields values risk_tier ≡ err e)
    by_result (err e) h = (e, h)
    by_result (ok cleaned) h =
        elim (two_branches (not (subset (keys values) (keys (declare fields []))))
          (err FieldError.unknown_fields) (check_values (declare fields []) values risk_tier)
          (ok cleaned) h) [
            | inl (_, e) ↦ absurd (cc e)
            | inr (s, e) ↦ elim i [
              | IsRefused.undeclared key a b ↦ absurd (
                  let t =
                    contains-subset key (keys values) (keys (declare fields [])) (not-eq-false _ s)
                      a in
                  cc (t, b))
              | IsRefused.required key f m r a ↦ absurd (
                  let t = required_given (declare fields []) values risk_tier cleaned key f e m r in
                  let u = missing_of_absent (get values key) a in cc (t, u))
            ]
          ]

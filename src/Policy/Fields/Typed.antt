-- ===== src/Policy/Fields/Typed.antt =====
-- Accepted values are of the declared types.
use Prim.Native.String.{count}
use norinth.Prelude.{
  zero, suc, ◌<◌, Option, none, some, String, Bool, true, false, not, List, [], ◌∷◌, ◌++◌, ◌==◌,
  ◌≡◌, inl, inr, refl, sym, ap, subst, ◌∙◌, ℕ, ◌≤◌, text_key, if◌then◌else◌, keys, contains, subset,
  ltb, Memᴰ, mem_append, not_mem_nil, two_branches, three_branches, eq_iff, arith,
}
use norinth.Prelude.Result.{Result, ok, err, ok_inj, >>=-eq-ok}
use norinth.Json.{
  Json, null_value, text, integer, negative, float, other_float, boolean, array, object, get,
}
use norinth.Policy.{Field}
use norinth.Policy.Fields.{
  FieldError, declare, is_missing, longest, check_string, check_number, check_boolean, check_type,
  check_given, check_value, check_values, validate_custom_field_values,
}

-- A length within the one that a field declares; without one, and with 0, that is 500.
pub data IsWithin (max_length : Option ℕ) (n : ℕ) : Type 0 where
  limit : (m : ℕ) → max_length ≡ some m → 0 < m → n ≤ m → IsWithin max_length n
  no_limit : max_length ≡ none → n ≤ 500 → IsWithin max_length n
  zero_limit : max_length ≡ some 0 → n ≤ 500 → IsWithin max_length n

longest-IsWithin : (o : Option ℕ) (n : ℕ) → n ≤ longest o → IsWithin o n
longest-IsWithin none n h = IsWithin.no_limit refl h
longest-IsWithin (some zero) n h = IsWithin.zero_limit refl h
longest-IsWithin (some (suc m)) n h =
    let t : ltb 0 (suc m) ≡ true = ground arith in
    IsWithin.limit (suc m) refl (omega arith) (rw t at h)

-- A value of the type that a field declares.
pub data IsOfType (f : Field) : Json → Type 0 where
  a_string :
      (s : String) → f.field_type ≡ "string" → IsWithin f.max_length (count s) → IsOfType f (text s)
  an_integer : (n : ℕ) → f.field_type ≡ "number" → IsOfType f (integer n)
  a_negative : (n : ℕ) → f.field_type ≡ "number" → IsOfType f (negative n)
  a_float : (u : ℕ) → f.field_type ≡ "number" → IsOfType f (float u)
  another_float : f.field_type ≡ "number" → IsOfType f other_float
  a_boolean : (b : Bool) → f.field_type ≡ "boolean" → IsOfType f (boolean b)

-- An accepted value: of a declared field, as it was given, of its type.
pub record IsAccepted (declared : List (String × Field)) (values : List (String × Json))
    (key : String) (value : Json) : Type 0 where
  pub field : Field
  pub declared_as : Memᴰ (key, field) declared
  pub given : get values key ≡ some value
  pub typed : IsOfType field value

only :
    {k key : String} {v value : Json}
    → Memᴰ {A = String × Json} (k, v) ((key, value) ∷ [])
    → ((k ≡ key) × (v ≡ value))
only (Memᴰ.head e) = (ap (λ x. x.0) e, ap (λ x. x.1) e)
only (Memᴰ.tail m) = absurd (not_mem_nil m)

abbrev Accepts : String → Field → Json → List (String × Json) → Type 0
Accepts key f value cleaned =
    (k : String) (v : Json) → Memᴰ (k, v) cleaned → (k ≡ key) × (v ≡ value) × IsOfType f value

one_accepted :
    (key : String) (f : Field) (value : Json) (cleaned : List (String × Json))
    → IsOfType f value
    → ◌≡◌ {A = Result FieldError (List (String × Json))} (ok ((key, value) ∷ [])) (ok cleaned)
    → Accepts key f value cleaned
one_accepted key f value cleaned t h k v m =
    let (a, b) = only (subst (λ c. Memᴰ (k, v) c) (sym (ok_inj h)) m) in (a, b, t)

string_accepted :
    (key : String) (f : Field) (value : Json) (cleaned : List (String × Json))
    → f.field_type ≡ "string"
    → check_string key f value ≡ ok cleaned
    → Accepts key f value cleaned
string_accepted key f (text s) cleaned t h =
    elim (two_branches (ltb (longest f.max_length) (count s)) (err (FieldError.too_long key))
      (ok ((key, text s) ∷ [])) (ok cleaned) h) [
        | inl (_, e) ↦ absurd (cc e)
        | inr (short, e) ↦
            one_accepted key f (text s) cleaned
              (IsOfType.a_string s t (longest-IsWithin f.max_length (count s) (ltb-le _ _ short))) e
      ]
  where
    ltb-le : (m n : ℕ) → ltb m n ≡ false → n ≤ m
    ltb-le m n h = ground arith
string_accepted key f null_value cleaned t h = absurd (cc h)
string_accepted key f (boolean b) cleaned t h = absurd (cc h)
string_accepted key f (integer n) cleaned t h = absurd (cc h)
string_accepted key f (negative n) cleaned t h = absurd (cc h)
string_accepted key f (float u) cleaned t h = absurd (cc h)
string_accepted key f other_float cleaned t h = absurd (cc h)
string_accepted key f (array js) cleaned t h = absurd (cc h)
string_accepted key f (object ms) cleaned t h = absurd (cc h)

number_accepted :
    (key : String) (f : Field) (value : Json) (cleaned : List (String × Json))
    → f.field_type ≡ "number"
    → check_number key value ≡ ok cleaned
    → Accepts key f value cleaned
number_accepted key f (integer n) cleaned t h =
    one_accepted key f (integer n) cleaned (IsOfType.an_integer n t) h
number_accepted key f (negative n) cleaned t h =
    one_accepted key f (negative n) cleaned (IsOfType.a_negative n t) h
number_accepted key f (float u) cleaned t h =
    one_accepted key f (float u) cleaned (IsOfType.a_float u t) h
number_accepted key f other_float cleaned t h =
    one_accepted key f other_float cleaned (IsOfType.another_float t) h
number_accepted key f null_value cleaned t h = absurd (cc h)
number_accepted key f (boolean b) cleaned t h = absurd (cc h)
number_accepted key f (text s) cleaned t h = absurd (cc h)
number_accepted key f (array js) cleaned t h = absurd (cc h)
number_accepted key f (object ms) cleaned t h = absurd (cc h)

boolean_accepted :
    (key : String) (f : Field) (value : Json) (cleaned : List (String × Json))
    → f.field_type ≡ "boolean"
    → check_boolean key value ≡ ok cleaned
    → Accepts key f value cleaned
boolean_accepted key f (boolean b) cleaned t h =
    one_accepted key f (boolean b) cleaned (IsOfType.a_boolean b t) h
boolean_accepted key f null_value cleaned t h = absurd (cc h)
boolean_accepted key f (integer n) cleaned t h = absurd (cc h)
boolean_accepted key f (negative n) cleaned t h = absurd (cc h)
boolean_accepted key f (float u) cleaned t h = absurd (cc h)
boolean_accepted key f other_float cleaned t h = absurd (cc h)
boolean_accepted key f (text s) cleaned t h = absurd (cc h)
boolean_accepted key f (array js) cleaned t h = absurd (cc h)
boolean_accepted key f (object ms) cleaned t h = absurd (cc h)

type_accepted :
    (key : String) (f : Field) (value : Json) (cleaned : List (String × Json))
    → check_type key f value ≡ ok cleaned
    → Accepts key f value cleaned
type_accepted key f value cleaned h =
    let t = f.field_type in
    elim (three_branches (t == "string") (t == "number") (check_string key f value)
      (check_number key value) (if t == "boolean" then check_boolean key value else ok [])
      (ok cleaned) h) [
        | inl (a, e) ↦ string_accepted key f value cleaned ((eq_iff t "string").0 a) e
        | inr (inl (_, a, e)) ↦ number_accepted key f value cleaned ((eq_iff t "number").0 a) e
        | inr (inr (_, _, e)) ↦
            elim (two_branches (t == "boolean") (check_boolean key value) (ok []) (ok cleaned) e) [
              | inl (a, u) ↦ boolean_accepted key f value cleaned ((eq_iff t "boolean").0 a) u
              | inr (_, u) ↦
                  λ k v m. absurd (not_mem_nil (subst (λ c. Memᴰ (k, v) c) (sym (ok_inj u)) m))
            ]
      ]

given_accepted :
    (key : String) (f : Field) (o : Option Json) (cleaned : List (String × Json))
    → check_given key f o ≡ ok cleaned
    → (k : String) (v : Json) → Memᴰ (k, v) cleaned
    → (k ≡ key) × (o ≡ some v) × IsOfType f v
given_accepted key f none cleaned h k v m =
    absurd (not_mem_nil (subst (λ c. Memᴰ (k, v) c) (sym (ok_inj h)) m))
given_accepted key f (some value) cleaned h k v m =
    let (a, b, t) = type_accepted key f value cleaned h k v m in
    (a, ap some (sym b), subst (IsOfType f) (sym b) t)

value_accepted :
    (key : String) (f : Field) (risk_tier : String) (o : Option Json)
    (cleaned : List (String × Json))
    → check_value key f risk_tier o ≡ ok cleaned
    → (k : String) (v : Json) → Memᴰ (k, v) cleaned
    → (k ≡ key) × (o ≡ some v) × IsOfType f v
value_accepted key f risk_tier o cleaned h k v m =
    elim (two_branches (is_missing o)
      (if contains risk_tier f.required_tiers then err (FieldError.field_required key) else ok [])
      (check_given key f o) (ok cleaned) h) [
        | inl (_, e) ↦
            elim (two_branches (contains risk_tier f.required_tiers)
              (err (FieldError.field_required key)) (ok []) (ok cleaned) e) [
                | inl (_, u) ↦ absurd (cc u)
                | inr (_, u) ↦ absurd (not_mem_nil (subst (λ c. Memᴰ (k, v) c) (sym (ok_inj u)) m))
              ]
        | inr (_, e) ↦ given_accepted key f o cleaned e k v m
      ]

check_values-IsAccepted :
    (declared : List (String × Field)) (values : List (String × Json)) (risk_tier : String)
    (cleaned : List (String × Json))
    → check_values declared values risk_tier ≡ ok cleaned
    → (key : String) (value : Json) → Memᴰ (key, value) cleaned
    → IsAccepted declared values key value
check_values-IsAccepted [] values risk_tier cleaned h key value m =
    absurd (not_mem_nil (subst (λ c. Memᴰ (key, value) c) (sym (ok_inj h)) m))
check_values-IsAccepted ((k, f) ∷ declared) values risk_tier cleaned h key value m =
    let (first, c, h₁) = >>=-eq-ok (check_value k f risk_tier (get values k)) _ h in
    let (rest, d, h₂) =
      >>=-eq-ok (check_values declared values risk_tier) (λ rest. ok (first ++ rest)) h₁ in
    elim (mem_append first rest (subst (λ c. Memᴰ (key, value) c) (sym (ok_inj h₂)) m)) [
      | inl n ↦
          let (a, b, t) = value_accepted k f risk_tier (get values k) first c key value n in
          record {
            field = f;
            declared_as = Memᴰ.head (ap (λ x. (x, f)) a);
            given = ap (get values) a ∙ b;
            typed = t;
          }
      | inr n ↦
          let r = check_values-IsAccepted declared values risk_tier rest d key value n in
          record {
            field = r.field;
            declared_as = Memᴰ.tail r.declared_as;
            given = r.given;
            typed = r.typed;
          }
    ]

-- A value that is accepted is the one given for a declared field, of the type and within the length
-- that the field declares, which is 500 where it declares none or 0.
pub validate_custom_field_values-IsAccepted :
    (fields : List Field) (values : List (String × Json)) (risk_tier : String)
    (cleaned : List (String × Json)) (key : String) (value : Json)
    → validate_custom_field_values fields values risk_tier ≡ ok cleaned
    → Memᴰ (key, value) cleaned
    → IsAccepted (declare fields []) values key value
unfolding validate_custom_field_values
validate_custom_field_values-IsAccepted fields values risk_tier cleaned key value h m =
    elim (two_branches (not (subset (keys values) (keys (declare fields []))))
      (err FieldError.unknown_fields) (check_values (declare fields []) values risk_tier)
      (ok cleaned) h) [
        | inl (_, e) ↦ absurd (cc e)
        | inr (_, e) ↦
            check_values-IsAccepted (declare fields []) values risk_tier cleaned e key value m
      ]

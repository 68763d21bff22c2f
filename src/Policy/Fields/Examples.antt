-- ===== src/Policy/Fields/Examples.antt =====
-- A required owner, and a budget.
use norinth.Prelude.{none, some, String, List, [], ◌∷◌, ◌≡◌, refl, Memᴰ}
use norinth.Prelude.Result.{ok, err}
use norinth.Json.{Json, text, integer}
use norinth.Policy.{Field}
use norinth.Policy.Fields.{FieldError, declare, validate_custom_field_values}
use norinth.Policy.Fields.Typed.{IsAccepted, validate_custom_field_values-IsAccepted}
use norinth.Policy.Fields.Refused.{IsAbsent, IsRefused, validate_custom_field_values-IsRefused}

abbrev owner : Field
owner = record {
  key = "owner";
  label = none;
  field_type = "string";
  max_length = some 10;
  required_tiers = "high" ∷ [];
}

abbrev budget : Field
budget = record owner {
  key = "budget";
  field_type = "number";
  max_length = none;
  required_tiers = [];
}

abbrev declared : List Field
declared = owner ∷ budget ∷ []

abbrev given : List (String × Json)
given = ("budget", integer 100) ∷ ("owner", text "ann") ∷ []

both_accepted :
    validate_custom_field_values declared given "high"
    ≡ ok (("owner", text "ann") ∷ ("budget", integer 100) ∷ [])
unfolding validate_custom_field_values
both_accepted = refl

validate_custom_field_values-IsAccepted_example :
    IsAccepted (declare declared []) given "budget" (integer 100)
validate_custom_field_values-IsAccepted_example =
    validate_custom_field_values-IsAccepted declared given "high"
      (("owner", text "ann") ∷ ("budget", integer 100) ∷ []) "budget" (integer 100) both_accepted
      (Memᴰ.tail (Memᴰ.head refl))

no_owner : IsRefused (declare declared []) (("owner", text "") ∷ []) "high"
no_owner = IsRefused.required "owner" owner (Memᴰ.head refl) refl (IsAbsent.empty_text refl)

validate_custom_field_values-IsRefused_example :
    (e : FieldError) × (validate_custom_field_values declared (("owner", text "") ∷ []) "high"
      ≡ err e)
validate_custom_field_values-IsRefused_example =
    validate_custom_field_values-IsRefused declared (("owner", text "") ∷ []) "high" no_owner

-- ===== src/Prelude/Keys.antt =====
-- Python's `==` on the values that rows and dictionaries are looked up by: texts and numbers, and
-- either of them or None.
use Prim.Native.Nat.{ℕ}
use Prim.Native.String.{String}
use mathlib.Core.Path.{◌≡◌, refl, ap}
use mathlib.Core.Logic.{◌↔◌}
use mathlib.Core.Bool.{Bool, true, false}
use mathlib.Core.Option.{Option, none, some}
use text.Mathlib.Text.{◌==◌ as str_eq}
use text.Mathlib.TextEquality.{eq_iff}
use norinth.Prelude.Tests.{eqb, eqb_iff}

pub record Key {ℓ} (A : Type ℓ) : Type ℓ where
  pub same : A → A → Bool
  pub same_iff : (a b : A) → (same a b ≡ true) ↔ (a ≡ b)

infix 50 ◌==◌
abbrev pub ◌==◌ {ℓ} : {A : Type ℓ} ⦃k : Key A⦄ → A → A → Bool
◌==◌ ⦃k⦄ = k.same

instance abbrev pub number_key : Key ℕ
number_key = record { same = eqb; same_iff = eqb_iff }

instance abbrev pub text_key : Key String
text_key = record { same = str_eq; same_iff = eq_iff }

module _ {ℓ} {A : Type ℓ} ⦃k : Key A⦄ where
  abbrev pub same_option : Option A → Option A → Bool
  same_option none none = true
  same_option none (some b) = false
  same_option (some a) none = false
  same_option (some a) (some b) = a == b

  pub same_option_iff : (a b : Option A) → (same_option a b ≡ true) ↔ (a ≡ b)
  same_option_iff none none = (λ _. refl, λ _. refl)
  same_option_iff none (some b) = (λ h. cc, λ h. cc)
  same_option_iff (some a) none = (λ h. cc, λ h. cc)
  same_option_iff (some a) (some b) =
      (λ h. ap some ((k.same_iff a b).0 h), λ h. (k.same_iff a b).1 (cc))

  pub same_refl : (a : A) → (a == a) ≡ true
  same_refl a = (k.same_iff a a).1 refl

instance abbrev pub option_key {ℓ} : {A : Type ℓ} ⦃k : Key A⦄ → Key (Option A)
option_key = record { same = same_option; same_iff = same_option_iff }

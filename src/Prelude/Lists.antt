-- ===== src/Prelude/Lists.antt =====
-- Lists measured by native numbers, Python's `all`, `any` and `in`, and dictionaries.
use Prim.Native.Nat.{ℕ, zero, suc, ◌+◌}
use mathlib.Core.Path.{◌≡◌, refl}
use mathlib.Core.Logic.{inl, inr}
use mathlib.Core.Bool.{Bool, true, false, ◌&&◌, ◌||◌}
use mathlib.Core.List.{List, [], ◌∷◌, ◌++◌}
use mathlib.Core.Option.{Option, none, some}
use native.Mathlib.Omega.{arith}
use norinth.Prelude.Tests.{if◌then◌else◌, Bool-cases}
use norinth.Prelude.Keys.{Key, ◌==◌}

module _ {ℓ} {A : Type ℓ} where
  abbrev pub length : List A → ℕ
  length [] = 0
  length (x ∷ xs) = suc (length xs)

  abbrev pub get_elem? : List A → ℕ → Option A
  get_elem? [] i = none
  get_elem? (x ∷ xs) zero = some x
  get_elem? (x ∷ xs) (suc i) = get_elem? xs i

  pub length-append : (xs ys : List A) → length (xs ++ ys) ≡ length xs + length ys
  length-append [] ys = omega arith
  length-append (x ∷ xs) ys = omega (arith, length-append xs ys)

  -- all(test(x) for x in xs), any(test(x) for x in xs), [x for x in xs if test(x)]
  abbrev pub all : (A → Bool) → List A → Bool
  all p [] = true
  all p (x ∷ xs) = p x && all p xs

  abbrev pub any : (A → Bool) → List A → Bool
  any p [] = false
  any p (x ∷ xs) = p x || any p xs

  abbrev pub filter : (A → Bool) → List A → List A
  filter p [] = []
  filter p (x ∷ xs) = if p x then x ∷ filter p xs else filter p xs

  -- The first row that passes, as `fetchone()` or `next(..., None)` gives it.
  abbrev pub find : (A → Bool) → List A → Option A
  find p [] = none
  find p (x ∷ xs) = if p x then some x else find p xs

pub append-eq-nil {ℓ} : {A : Type ℓ} (xs ys : List A) → xs ++ ys ≡ [] → (xs ≡ []) × (ys ≡ [])
append-eq-nil [] ys h = (refl, h)
append-eq-nil (x ∷ xs) ys h = absurd (cc)

-- `x in xs`
module _ {ℓ} {A : Type ℓ} ⦃k : Key A⦄ where
  abbrev pub contains : A → List A → Bool
  contains a [] = false
  contains a (x ∷ xs) = a == x || contains a xs

  -- set(xs) <= set(ys)
  abbrev pub subset : List A → List A → Bool
  subset [] ys = true
  subset (x ∷ xs) ys = contains x ys && subset xs ys

  pub contains-append :
      (a : A) (xs ys : List A) → contains a (xs ++ ys) ≡ (contains a xs || contains a ys)
  contains-append a [] ys = refl
  contains-append a (x ∷ xs) ys = ground (arith, contains-append a xs ys)

  pub contains-subset :
      (a : A) (xs ys : List A) → subset xs ys ≡ true → contains a xs ≡ true → contains a ys ≡ true
  contains-subset a [] ys s h = cc
  contains-subset a (x ∷ xs) ys s h = elim (Bool-cases (a == x)) [
    | inl e ↦ let p : a ≡ x = (k.same_iff a x).0 e in ground (arith, p)
    | inr e ↦ ground (arith, contains-subset a xs ys)
  ]

-- d.get(k) on a dictionary in insertion order
module _ {ℓ κ} {A : Type ℓ} {V : Type κ} ⦃k : Key A⦄ where
  abbrev pub lookup : A → List (A × V) → Option V
  lookup a [] = none
  lookup a ((b, v) ∷ d) = if b == a then some v else lookup a d

  abbrev pub keys : List (A × V) → List A
  keys [] = []
  keys ((b, v) ∷ d) = b ∷ keys d

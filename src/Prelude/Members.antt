-- ===== src/Prelude/Members.antt =====
-- The Boolean tests on lists, against membership with its position kept.
use mathlib.Core.Path.{◌≡◌, refl, sym, ap, ◌∙◌}
use mathlib.Core.Logic.{◌↔◌, ◌⊎◌, inl, inr}
use mathlib.Core.Bool.{Bool, true, ◌&&◌}
use mathlib.Core.List.{List, [], ◌∷◌, ◌++◌, Memᴰ, map}
use mathlib.Core.Option.{some}
use native.Mathlib.Omega.{arith}
use norinth.Prelude.Tests.{Bool-cases, &&-eq-true, ||-eq-true}
use norinth.Prelude.Keys.{Key, ◌==◌}
use norinth.Prelude.Lists.{all, any, filter, find, contains}

module _ {ℓ} {A : Type ℓ} ⦃k : Key A⦄ where
  pub mem_of_contains : (a : A) (xs : List A) → contains a xs ≡ true → Memᴰ a xs
  mem_of_contains a [] h = absurd (cc)
  mem_of_contains a (x ∷ xs) h = elim (||-eq-true (a == x) _ h) [
    | inl e ↦ Memᴰ.head ((k.same_iff a x).0 e)
    | inr e ↦ Memᴰ.tail (mem_of_contains a xs e)
  ]

  pub contains_of_mem : {a : A} {xs : List A} → Memᴰ a xs → contains a xs ≡ true
  contains_of_mem {a} (Memᴰ.head {x = x} e) = let h = (k.same_iff a x).1 e in rw h
  contains_of_mem {a} (Memᴰ.tail {x = x} m) =
      let h = contains_of_mem m in elim (Bool-cases (a == x)) [ inl e ↦ rw e | inr e ↦ rw (e, h) ]

pub not_mem_nil {ℓ} : {A : Type ℓ} {a : A} → ¬ (Memᴰ a [])
not_mem_nil m = elim m [ ]

module _ {ℓ} {A : Type ℓ} where
  pub mem_of_any :
      (p : A → Bool) (xs : List A) → any p xs ≡ true → (a : A) × Memᴰ a xs × (p a ≡ true)
  mem_of_any p [] h = absurd (cc)
  mem_of_any p (x ∷ xs) h = elim (||-eq-true (p x) _ h) [
    | inl e ↦ (x, Memᴰ.head refl, e)
    | inr e ↦ let (a, m, q) = mem_of_any p xs e in (a, Memᴰ.tail m, q)
  ]

  pub any_of_mem : (p : A → Bool) {a : A} {xs : List A} → Memᴰ a xs → p a ≡ true → any p xs ≡ true
  any_of_mem p (Memᴰ.head {x = x} e) h = let q : p x ≡ true = ap p (sym e) ∙ h in rw q
  any_of_mem p (Memᴰ.tail {x = x} m) h =
      let r = any_of_mem p m h in elim (Bool-cases (p x)) [ inl e ↦ rw e | inr e ↦ rw (e, r) ]

  pub all_at : (p : A → Bool) {a : A} {xs : List A} → all p xs ≡ true → Memᴰ a xs → p a ≡ true
  all_at p h (Memᴰ.head {x = x} e) = ap p e ∙ (&&-eq-true (p x) _ h).0
  all_at p h (Memᴰ.tail {x = x} m) = all_at p (&&-eq-true (p x) _ h).1 m

  -- One more element in front of both lists.
  mem_of_kept :
      (p : A → Bool) {a x : A} (xs : List A)
      → (Memᴰ a (filter p xs) → Memᴰ a xs × (p a ≡ true))
      → p x ≡ true
      → Memᴰ a (x ∷ filter p xs)
      → Memᴰ a (x ∷ xs) × (p a ≡ true)
  mem_of_kept p xs ih h (Memᴰ.head e) = (Memᴰ.head e, ap p e ∙ h)
  mem_of_kept p xs ih h (Memᴰ.tail m) = let (n, q) = ih m in (Memᴰ.tail n, q)

  pub mem_of_filter :
      (p : A → Bool) {a : A} (xs : List A) → Memᴰ a (filter p xs) → Memᴰ a xs × (p a ≡ true)
  mem_of_filter p [] m = absurd (not_mem_nil m)
  mem_of_filter p (x ∷ xs) m = elim (Bool-cases (p x)) [
    | inl e ↦ mem_of_kept p xs (mem_of_filter p xs) e (rw e at m)
    | inr e ↦ let (n, h) = mem_of_filter p xs (rw e at m) in (Memᴰ.tail n, h)
  ]

  pub filter_of_mem :
      (p : A → Bool) {a : A} {xs : List A} → Memᴰ a xs → p a ≡ true → Memᴰ a (filter p xs)
  filter_of_mem p (Memᴰ.head {x = x} e) h =
      let q : p x ≡ true = ap p (sym e) ∙ h in rw q (Memᴰ.head e)
  filter_of_mem p (Memᴰ.tail {x = x} m) h =
      let n = filter_of_mem p m h in
      elim (Bool-cases (p x)) [ inl e ↦ rw e (Memᴰ.tail n) | inr e ↦ rw e n ]

  pub mem_append_left : {a : A} {xs : List A} (ys : List A) → Memᴰ a xs → Memᴰ a (xs ++ ys)
  mem_append_left ys (Memᴰ.head e) = Memᴰ.head e
  mem_append_left ys (Memᴰ.tail m) = Memᴰ.tail (mem_append_left ys m)

  pub mem_append_right : {a : A} (xs : List A) {ys : List A} → Memᴰ a ys → Memᴰ a (xs ++ ys)
  mem_append_right [] m = m
  mem_append_right (x ∷ xs) m = Memᴰ.tail (mem_append_right xs m)

  pub mem_append : {a : A} (xs ys : List A) → Memᴰ a (xs ++ ys) → Memᴰ a xs ⊎ Memᴰ a ys
  mem_append [] ys m = inr m
  mem_append (x ∷ xs) ys (Memᴰ.head e) = inl (Memᴰ.head e)
  mem_append (x ∷ xs) ys (Memᴰ.tail m) = elim (mem_append xs ys m) [
    | inl n ↦ inl (Memᴰ.tail n)
    | inr n ↦ inr n
  ]

  pub mem_of_find :
      (p : A → Bool) (xs : List A) {a : A} → find p xs ≡ some a → Memᴰ a xs × (p a ≡ true)
  mem_of_find p [] h = absurd (cc)
  mem_of_find p (x ∷ xs) {a} h = elim (Bool-cases (p x)) [
    | inl e ↦ let q : x ≡ a = found e in (Memᴰ.head (sym q), ap p (sym q) ∙ e)
    | inr e ↦ let (m, q) = mem_of_find p xs (rw e at h) in (Memᴰ.tail m, q)
  ]
    where
      found : p x ≡ true → x ≡ a
      found e = let h' : some x ≡ some a = rw e at h in cc h'

pub and_iff : (a b c : Bool) → ((a && b && c) ≡ true) ↔ ((a ≡ true) × (b ≡ true) × (c ≡ true))
and_iff a b c = (λ h. ground arith, λ h. ground arith)

pub mem_map {ℓ κ} :
    {A : Type ℓ} {B : Type κ} (f : A → B) {a : A} {xs : List A} → Memᴰ a xs → Memᴰ (f a) (map f xs)
mem_map f (Memᴰ.head e) = Memᴰ.head (ap f e)
mem_map f (Memᴰ.tail m) = Memᴰ.tail (mem_map f m)

pub mem_of_map {ℓ κ} :
    {A : Type ℓ} {B : Type κ} (f : A → B) {b : B} (xs : List A)
    → Memᴰ b (map f xs)
    → (a : A) × Memᴰ a xs × (b ≡ f a)
mem_of_map f [] m = absurd (not_mem_nil m)
mem_of_map f (x ∷ xs) (Memᴰ.head e) = (x, Memᴰ.head refl, e)
mem_of_map f (x ∷ xs) (Memᴰ.tail m) = let (a, n, e) = mem_of_map f xs m in (a, Memᴰ.tail n, e)

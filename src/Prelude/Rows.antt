-- ===== src/Prelude/Rows.antt =====
-- Tables as lists of rows, under the statements that change them.
use mathlib.Core.Path.{◌≡◌, sym, ap, ◌∙◌}
use mathlib.Core.Logic.{◌⊎◌, inl, inr}
use mathlib.Core.Bool.{Bool, true, false}
use mathlib.Core.List.{List, map, Memᴰ}
use norinth.Prelude.Tests.{if◌then◌else◌, Bool-cases}
use norinth.Prelude.Members.{mem_of_map}

-- UPDATE ... SET change WHERE test
abbrev pub update_where {ℓ} : {A : Type ℓ} → (A → Bool) → (A → A) → List A → List A
update_where test change rows = map (λ r. if test r then change r else r) rows

-- A row after an UPDATE is a row before it, changed if it passed the test.
pub mem_of_update {ℓ} :
    {A : Type ℓ} (test : A → Bool) (change : A → A) {a : A} (rows : List A)
    → Memᴰ a (update_where test change rows)
    → (r : A) × Memᴰ r rows × (((test r ≡ true) × (a ≡ change r)) ⊎ ((test r ≡ false) × (a ≡ r)))
mem_of_update test change rows m =
    let (r, n, e) = mem_of_map (λ r. if test r then change r else r) rows m in
    (r, n, elim (Bool-cases (test r)) [ inl h ↦ inl (h, rw h at e) | inr h ↦ inr (h, rw h at e) ])

-- A row that fails the test is there afterwards.
pub update_of_mem {ℓ} :
    {A : Type ℓ} (test : A → Bool) (change : A → A) {a : A} {rows : List A}
    → Memᴰ a rows
    → test a ≡ false
    → Memᴰ a (update_where test change rows)
update_of_mem test change (Memᴰ.head {x = x} e) h =
    let q : test x ≡ false = ap test (sym e) ∙ h in rw q (Memᴰ.head e)
update_of_mem test change (Memᴰ.tail m) h = Memᴰ.tail (update_of_mem test change m h)

-- A row that passes the test is there afterwards, changed.
pub changed_of_mem {ℓ} :
    {A : Type ℓ} (test : A → Bool) (change : A → A) {a : A} {rows : List A}
    → Memᴰ a rows
    → test a ≡ true
    → Memᴰ (change a) (update_where test change rows)
changed_of_mem test change (Memᴰ.head {x = x} e) h =
    let q : test x ≡ true = ap test (sym e) ∙ h in rw q (Memᴰ.head (ap change e))
changed_of_mem test change (Memᴰ.tail m) h = Memᴰ.tail (changed_of_mem test change m h)

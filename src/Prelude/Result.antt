-- ===== src/Prelude/Result.antt =====
-- The result of code that may raise.
use mathlib.Core.Path.{◌≡◌, refl}
use mathlib.Core.Bool.{Bool, true, false}
use norinth.Prelude.Tests.{if◌then◌else◌}

pub data Result (E A : Type 0) : Type 0 where
  err : E → Result E A
  ok : A → Result E A

-- Statements one after the other, as `do` writes them: a raise ends them.
infixl 5 ◌>>=◌
abbrev pub ◌>>=◌ : {E A B : Type 0} → Result E A → (A → Result E B) → Result E B
err raised >>= then_do = err raised
ok returned >>= then_do = then_do returned

-- A call whose answer is not used.
infixl 5 ◌>>◌
abbrev pub ◌>>◌ : {E B : Type 0} → Result E (Unit {0}) → Result E B → Result E B
call >> rest = call >>= λ _. rest

-- `if not test: raise e`
abbrev pub require : {E : Type 0} → Bool → E → Result E (Unit {0})
require true e = ok tt
require false e = err e

pub require-eq-ok : {E : Type 0} (b : Bool) (e : E) → require b e ≡ ok tt → b ≡ true
require-eq-ok true e h = refl
require-eq-ok false e h = cc

-- Statements that return have returned one by one.
module _ {E A B : Type 0} where
  pub >>=-eq-ok :
      (call : Result E A) (then_do : A → Result E B) {answer : B}
      → (call >>= then_do) ≡ ok answer
      → (value : A) × (call ≡ ok value) × (then_do value ≡ ok answer)
  >>=-eq-ok (err raised) then_do h = absurd (cc h)
  >>=-eq-ok (ok value) then_do h = (value, refl, h)

-- `if test: return` above a raise.
pub if-ok :
    {E : Type 0} (b : Bool) (e : E)
    → ◌≡◌ {A = Result E (Unit {0})} (if b then ok tt else err e) (ok tt)
    → b ≡ true
if-ok true e h = refl
if-ok false e h = cc

pub ok_inj : {E A : Type 0} {a b : A} → ◌≡◌ {A = Result E A} (ok a) (ok b) → a ≡ b
ok_inj h = cc

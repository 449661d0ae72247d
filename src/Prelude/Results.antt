-- ===== src/Prelude/Results.antt =====
-- Code that may throw: what it returned, or the error that it threw.
use mathlib.Core.Bool.{Bool, true, false}
use mathlib.Core.Logic.{◌⊎◌, inl, inr}
use mathlib.Core.Path.{◌≡◌, refl, ap}
use omi_imo.Prelude.Tests.{if◌then◌else◌}

pub data Result {κ ℓ} (Error : Type κ) (Answer : Type ℓ) : Type (κ ⊔ ℓ) where
  throw : Error → Result Error Answer
  ok : Answer → Result Error Answer

module _ {κ ℓ} {Error : Type κ} {Answer : Type ℓ} where
  infixl 5 ◌>>=◌
  abbrev pub ◌>>=◌ {ι} :
      {Next : Type ι} → Result Error Answer → (Answer → Result Error Next) → Result Error Next
  outcome >>= next = elim outcome [ ok answer ↦ next answer | throw error ↦ throw error ]

  pub ok_inj : {a b : Answer} → ◌≡◌ {A = Result Error Answer} (ok a) (ok b) → a ≡ b
  ok_inj h = cc

  -- To split on an outcome and keep the equation.
  pub Result-cases :
      (outcome : Result Error Answer)
      → ((error : Error) × (outcome ≡ throw error)) ⊎ ((answer : Answer) × (outcome ≡ ok answer))
  Result-cases (throw error) = inl (error, refl)
  Result-cases (ok answer) = inr (answer, refl)

  -- A sequence goes on behind what returned.
  pub >>=-ok {ι} :
      {Next : Type ι} {outcome : Result Error Answer} (next : Answer → Result Error Next)
      {answer : Answer}
      → outcome ≡ ok answer
      → (outcome >>= next) ≡ next answer
  >>=-ok next h = ap (λ o. o >>= next) h

  -- Inversion of a sequence that returned.
  pub >>=-eq-ok {ι} :
      {Next : Type ι} (outcome : Result Error Answer) (next : Answer → Result Error Next)
      {final : Next}
      → (outcome >>= next) ≡ ok final
      → (answer : Answer) × (outcome ≡ ok answer) × (next answer ≡ ok final)
  >>=-eq-ok (throw error) next h = cc
  >>=-eq-ok (ok answer) next h = (answer, refl, h)

-- `if (!test) throw error`.
abbrev pub require {κ} : {Error : Type κ} → Bool → Error → Result Error (Unit {0})
require test error = if test then ok tt else throw error

module _ {κ ℓ} {Error : Type κ} {Answer : Type ℓ} where
  infixl 5 ◌>>◌
  abbrev pub ◌>>◌ : Result Error (Unit {0}) → Result Error Answer → Result Error Answer
  check >> rest = elim check [ ok _ ↦ rest | throw error ↦ throw error ]

  pub >>-ok :
      {check : Result Error (Unit {0})} (rest : Result Error Answer)
      → check ≡ ok tt
      → (check >> rest) ≡ rest
  >>-ok rest h = ap (λ c. c >> rest) h

  pub >>-eq-ok :
      (check : Result Error (Unit {0})) (rest : Result Error Answer) {final : Answer}
      → (check >> rest) ≡ ok final
      → (check ≡ ok tt) × (rest ≡ ok final)
  >>-eq-ok (throw error) rest h = cc
  >>-eq-ok (ok _) rest h = (refl, h)

  pub require-eq-ok :
      (test : Bool) (error : Error) (rest : Result Error Answer) {final : Answer}
      → (require test error >> rest) ≡ ok final
      → (test ≡ true) × (rest ≡ ok final)
  require-eq-ok false error rest h = cc
  require-eq-ok true error rest h = (refl, h)

-- A test that ends a sequence.
pub require-true {κ} :
    {Error : Type κ} (test : Bool) (error : Error) → require test error ≡ ok tt → test ≡ true
require-true true error h = refl
require-true false error h = cc

-- ===== src/TinyC/Outcome.antt =====
-- How a part of tinyc.c can end: a value, `syntax_error()`, which exits, or undefined behaviour,
-- such as an array that is overrun.
use c_lang_project.Common.{◌≢◌, ◌≡◌, refl}

pub data Outcome {ℓ} (A : Type ℓ) : Type ℓ where
  done : A → Outcome A
  syntax_error : Outcome A
  undefined : Outcome A
  no_fuel : Outcome A

infixl 5 ◌>>=◌
abbrev pub ◌>>=◌ {ℓ κ} : {A : Type ℓ} {B : Type κ} → Outcome A → (A → Outcome B) → Outcome B
done a >>= f = f a
syntax_error >>= f = syntax_error
undefined >>= f = undefined
no_fuel >>= f = no_fuel

-- Inversion of a chain that yields a value.
pub >>=-eq-done {ℓ κ} :
    {A : Type ℓ} {B : Type κ} (m : Outcome A) (f : A → Outcome B) {b : B}
    → (m >>= f) ≡ done b
    → (a : A) × (m ≡ done a) × (f a ≡ done b)
>>=-eq-done (done a) f h = (a, refl, h)
>>=-eq-done syntax_error f h = cc
>>=-eq-done undefined f h = cc
>>=-eq-done no_fuel f h = cc

-- The run does not want for fuel, and a value has the property.
pub data Within {A : Type 0} (P : A → Type 0) : Outcome A → Type 0 where
  within : {a : A} → P a → Within P (done a)
  erring : Within P syntax_error
  faulty : Within P undefined

module _ {A : Type 0} {P : A → Type 0} where
  pub Within-bind :
      {B : Type 0} {Q : B → Type 0} {m : Outcome A} {f : A → Outcome B}
      → Within P m
      → ((a : A) → P a → Within Q (f a))
      → Within Q (m >>= f)
  Within-bind (within h) rest = rest _ h
  Within-bind erring rest = erring
  Within-bind faulty rest = faulty

  pub Within-mono :
      {Q : A → Type 0} {m : Outcome A} → Within P m → ((a : A) → P a → Q a) → Within Q m
  Within-mono (within h) weaken = within (weaken _ h)
  Within-mono erring weaken = erring
  Within-mono faulty weaken = faulty

  pub Within-ends : {m : Outcome A} → Within P m → m ≢ no_fuel
  Within-ends (within h) e = cc
  Within-ends erring e = cc
  Within-ends faulty e = cc

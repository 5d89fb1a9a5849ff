-- ===== src/Lang/Result.antt =====
-- Results of code that works on arrays and numbers only: an exception of src/libs/lang, or
-- undefined behaviour.
use c_lang_project.Common.{
  Option, none, refl, some, ◌≡◌, Bool, if◌then◌else◌, true, false, Bool, if◌then◌else◌,
}
use c_lang_project.Lang.Memory.{Except}

pub data Result {ℓ} (A : Type ℓ) : Type ℓ where
  done : A → Result A
  raise : Except → Result A
  undefined : Result A
  no_fuel : Result A

infixl 5 ◌>>=◌
abbrev pub ◌>>=◌ {ℓ κ} : {A : Type ℓ} {B : Type κ} → Result A → (A → Result B) → Result B
done a >>= f = f a
raise e >>= f = raise e
undefined >>= f = undefined
no_fuel >>= f = no_fuel

-- `a[i]`: what lies there, or a read out of bounds.
abbrev pub from_option {ℓ} : {A : Type ℓ} → Option A → Result A
from_option none = undefined
from_option (some a) = done a

-- A run that ends, with a postcondition.
pub data Ends {ℓ κ} {A : Type ℓ} (P : A → Type κ) : Result A → Type (ℓ ⊔ κ) where
  ends : {a : A} → P a → Ends P (done a)

module _ {ℓ κ} {A : Type ℓ} {P : A → Type κ} where
  pub Ends-bind {μ ν} :
      {B : Type μ} {Q : B → Type ν} {r : Result A} {f : A → Result B}
      → Ends P r
      → ((a : A) → P a → Ends Q (f a))
      → Ends Q (r >>= f)
  Ends-bind (ends p) next = next _ p

  pub Ends-mono {ν} : {Q : A → Type ν} {r : Result A} → Ends P r → ((a : A) → P a → Q a) → Ends Q r
  Ends-mono (ends p) weaken = ends (weaken _ p)

  pub Ends-inv : {r : Result A} → Ends P r → (a : A) × (r ≡ done a) × P a
  Ends-inv (ends {a} p) = (a, refl, p)

-- A run of which the postcondition holds if it ends.
pub data IfDone {ℓ κ} {A : Type ℓ} (P : A → Type κ) : Result A → Type (ℓ ⊔ κ) where
  if_done : {a : A} → P a → IfDone P (done a)
  if_raised : {e : Except} → IfDone P (raise e)
  if_undefined : IfDone P undefined
  if_no_fuel : IfDone P no_fuel

module _ {ℓ κ} {A : Type ℓ} {P : A → Type κ} where
  pub IfDone-bind {μ ν} :
      {B : Type μ} {Q : B → Type ν} {r : Result A} {f : A → Result B}
      → IfDone P r
      → ((a : A) → P a → IfDone Q (f a))
      → IfDone Q (r >>= f)
  IfDone-bind (if_done p) next = next _ p
  IfDone-bind if_raised next = if_raised
  IfDone-bind if_undefined next = if_undefined
  IfDone-bind if_no_fuel next = if_no_fuel

  pub IfDone-mono {ν} :
      {Q : A → Type ν} {r : Result A} → IfDone P r → ((a : A) → P a → Q a) → IfDone Q r
  IfDone-mono (if_done p) weaken = if_done (weaken _ p)
  IfDone-mono if_raised weaken = if_raised
  IfDone-mono if_undefined weaken = if_undefined
  IfDone-mono if_no_fuel weaken = if_no_fuel

  pub Ends-IfDone {ν} :
      {Q : A → Type ν} {r : Result A} → Ends P r → IfDone Q r → Ends (λ a. P a × Q a) r
  Ends-IfDone (ends p) (if_done q) = ends (p, q)

  pub IfDone-if :
      (b : Bool) {r s : Result A} → IfDone P r → IfDone P s → IfDone P (if b then r else s)
  IfDone-if true p q = p
  IfDone-if false p q = q

-- Whatever a run gives.
pub IfDone-bind_any {ℓ κ μ} :
    {A : Type ℓ} {B : Type κ} {Q : B → Type μ} (r : Result A) {f : A → Result B}
    → ((a : A) → IfDone Q (f a))
    → IfDone Q (r >>= f)
IfDone-bind_any (done a) next = next a
IfDone-bind_any (raise e) next = if_raised
IfDone-bind_any undefined next = if_undefined
IfDone-bind_any no_fuel next = if_no_fuel

pub bind-inv {ℓ κ} :
    {A : Type ℓ} {B : Type κ} (r : Result A) (f : A → Result B) (b : B)
    → (r >>= f) ≡ done b
    → (a : A) × (r ≡ done a) × (f a ≡ done b)
bind-inv (done a) f b e = (a, refl, e)
bind-inv (raise x) f b e = cc
bind-inv undefined f b e = cc
bind-inv no_fuel f b e = cc

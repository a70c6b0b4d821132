-- ===== src/Base/Ensures.antt =====
-- What holds of the result of a run, if it has one.
use mathlib.Core.Path.{◌≡◌, refl}
use mathlib.Core.Bool.{Bool, true, false}
use mathlib.Core.Option.{Option, none, some}
use process_management_syste.Base.Tests.{if◌then◌else◌, ◌>>=◌, Returns, returns}

pub data Ensures {ℓ κ} {A : Type ℓ} (Good : A → Type κ) : Option A → Type (ℓ ⊔ κ) where
  fails : Ensures Good none
  ensures : {value : A} → Good value → Ensures Good (some value)

module _ {ℓ κ} {A : Type ℓ} {Good : A → Type κ} where
  pub Ensures-if :
      (test : Bool) {yes no : Option A}
      → (test ≡ true → Ensures Good yes)
      → (test ≡ false → Ensures Good no)
      → Ensures Good (if test then yes else no)
  Ensures-if false on_yes on_no = on_no refl
  Ensures-if true on_yes on_no = on_yes refl

  pub Ensures-mono {κ'} :
      {Better : A → Type κ'} {m : Option A}
      → Ensures Good m
      → ((value : A) → Good value → Better value)
      → Ensures Better m
  Ensures-mono fails improve = fails
  Ensures-mono (ensures good) improve = ensures (improve _ good)

  pub Ensures-bind {ℓ' κ'} :
      {B : Type ℓ'} {Next : B → Type κ'} {m : Option A} {rest : A → Option B}
      → Ensures Good m
      → ((value : A) → Good value → Ensures Next (rest value))
      → Ensures Next (m >>= rest)
  Ensures-bind fails continue = fails
  Ensures-bind (ensures good) continue = continue _ good

  -- A run that returns ensures what it returns.
  pub ensured : {m : Option A} → Returns Good m → Ensures Good m
  ensured (returns good) = ensures good

  pub Returns-Ensures {κ'} :
      {Also : A → Type κ'} {m : Option A}
      → Returns Good m
      → Ensures Also m
      → Returns (λ x. Good x × Also x) m
  Returns-Ensures (returns good) (ensures also) = returns (good, also)

pub whatever {ℓ} : {A : Type ℓ} (m : Option A) → Ensures (λ x. Unit {0}) m
whatever none = fails
whatever (some x) = ensures tt

-- ===== src/Base/Tests.antt =====
-- Boolean tests on the native numbers, the conditional, and runs that may fault.
use Prim.Native.Nat.{ℕ, compare, Ordering}
use mathlib.Core.Path.{◌≡◌, refl}
use mathlib.Core.Logic.{◌↔◌, ◌⊎◌, inl, inr}
use mathlib.Core.Bool.{Bool, true, false}
use mathlib.Core.Option.{Option, none, some}
use native.Mathlib.Omega.{arith}

abbrev pub ltb : ℕ → ℕ → Bool
ltb a b = elim (compare a b) [ Ordering.lt ↦ true | _ ↦ false ]

abbrev pub leb : ℕ → ℕ → Bool
leb a b = elim (compare a b) [ Ordering.gt ↦ false | _ ↦ true ]

infix 50 ◌==◌
abbrev pub ◌==◌ : ℕ → ℕ → Bool
a == b = elim (compare a b) [ Ordering.eq ↦ true | _ ↦ false ]

infix 1 if◌then◌else◌
abbrev pub if◌then◌else◌ {ℓ} : {A : Type ℓ} → Bool → A → A → A
if true then x else y = x
if false then x else y = y

-- The test `c > 0` on the sign that a comparison returns.
abbrev pub is_gt : Ordering → Bool
is_gt Ordering.gt = true
is_gt _ = false

pub ==_iff : (a b : ℕ) → ((a == b) ≡ true) ↔ (a ≡ b)
==_iff a b = ground arith

-- To split on a computed value and keep the equation.
pub Bool-cases : (b : Bool) → (b ≡ true) ⊎ (b ≡ false)
Bool-cases true = inl refl
Bool-cases false = inr refl

pub Option-cases {ℓ} : {A : Type ℓ} (o : Option A) → (o ≡ none) ⊎ ((a : A) × (o ≡ some a))
Option-cases none = inl refl
Option-cases (some a) = inr (a, refl)

-- A run that ends in `none` has faulted: it read outside an object or through NULL, called exit,
-- or used up the model's fuel.
infixl 5 ◌>>=◌
abbrev pub ◌>>=◌ {ℓ κ} : {A : Type ℓ} {B : Type κ} → Option A → (A → Option B) → Option B
none >>= f = none
some a >>= f = f a

-- The run `m` ends well, with a value that is `Good`.
pub data Returns {ℓ κ} {A : Type ℓ} (Good : A → Type κ) : Option A → Type (ℓ ⊔ κ) where
  returns : {value : A} → Good value → Returns Good (some value)

module _ {ℓ κ} {A : Type ℓ} {Good : A → Type κ} where
  pub Returns-inv : {m : Option A} → Returns Good m → (value : A) × (m ≡ some value) × Good value
  Returns-inv (returns good) = (_, refl, good)

  pub Returns-if :
      {yes no : Option A} (test : Bool)
      → (test ≡ true → Returns Good yes)
      → (test ≡ false → Returns Good no)
      → Returns Good (if test then yes else no)
  Returns-if false on_yes on_no = on_no refl
  Returns-if true on_yes on_no = on_yes refl

  pub Returns-mono {κ'} :
      {Better : A → Type κ'} {m : Option A}
      → Returns Good m
      → ((value : A) → Good value → Better value)
      → Returns Better m
  Returns-mono (returns good) improve = returns (improve _ good)

  pub Returns-bind {ℓ' κ'} :
      {B : Type ℓ'} {Next : B → Type κ'} {m : Option A} {rest : A → Option B}
      → Returns Good m
      → ((value : A) → Good value → Returns Next (rest value))
      → Returns Next (m >>= rest)
  Returns-bind (returns good) continue = continue _ good

abbrev pub AtValue {ℓ κ} : {A : Type ℓ} → (A → Type κ) → Option A → Type κ
AtValue Good none = Unit
AtValue Good (some value) = Good value

pub Returns-at {ℓ κ} :
    {A : Type ℓ} {Good : A → Type κ} {m : Option A} → Returns Good m → AtValue Good m
Returns-at (returns good) = good

module _ {ℓ κ κ'} {A : Type ℓ} {Good : A → Type κ} {Other : A → Type κ'} where
  -- Two facts on one run.
  pub Returns-both :
      {m : Option A}
      → Returns Good m
      → Returns Other m
      → Returns (λ value. Good value × Other value) m
  Returns-both (returns good) other = returns (good, Returns-at other)

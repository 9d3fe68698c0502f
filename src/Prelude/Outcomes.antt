-- ===== src/Prelude/Outcomes.antt =====
-- What a call of the kernel's C code can do besides return: a failed assertion or `panic`, a lock
-- that is never released, an operation whose result the C standard leaves undefined. `no_fuel` is
-- no behaviour of the code: it says that a loop of the model was given too few rounds.
use mathlib.Core.Path.{◌≡◌, refl}
use mathlib.Core.Bool.{Bool, true, false}
use mathlib.Core.Logic.{◌≢◌}
use oslab.Prelude.Tests.{if◌then◌else◌}
use native.Mathlib.Omega.{arith}
use mathlib.Core.Option.{Option, none, some}

pub data Outcome {ℓ} (A : Type ℓ) : Type ℓ where
  returns : A → Outcome A
  panics : Outcome A
  spins : Outcome A
  undefined : Outcome A
  no_fuel : Outcome A

infixl 5 ◌>>=◌ ◌>>◌
abbrev pub ◌>>=◌ {ℓ κ} : {A : Type ℓ} {B : Type κ} → Outcome A → (A → Outcome B) → Outcome B
returns a >>= f = f a
panics >>= f = panics
spins >>= f = spins
undefined >>= f = undefined
no_fuel >>= f = no_fuel

abbrev pub ◌>>◌ {ℓ} : {B : Type ℓ} → Outcome (Unit {0}) → Outcome B → Outcome B
m >> k = m >>= λ _. k

-- `assert(b)`
abbrev pub assert : Bool → Outcome (Unit {0})
assert true = returns tt
assert false = panics

-- The result of a loop on fuel.
abbrev pub or_fuel {ℓ} : {A : Type ℓ} → Option A → Outcome A
or_fuel none = no_fuel
or_fuel (some a) = returns a

-- A step of a `do` block whose action returns.
pub bind_eq {ℓ κ} :
    {A : Type ℓ} {B : Type κ} {m : Outcome A} {a : A} (f : A → Outcome B)
    → m ≡ returns a
    → (m >>= f) ≡ f a
bind_eq f e = rw e refl

-- A `do` block that returns has done its first step.
pub bind_inv {ℓ κ} :
    {A : Type ℓ} {B : Type κ} {b : B} (m : Outcome A) (f : A → Outcome B)
    → (m >>= f) ≡ returns b
    → (a : A) × (m ≡ returns a) × (f a ≡ returns b)
bind_inv (returns a) f e = (a, refl, e)
bind_inv panics f e = absurd (ground arith)
bind_inv spins f e = absurd (ground arith)
bind_inv undefined f e = absurd (ground arith)
bind_inv no_fuel f e = absurd (ground arith)

pub returns_inj {ℓ} : {A : Type ℓ} {a b : A} → returns a ≡ returns b → a ≡ b
returns_inj e = cc e

-- The run is not one that the model cuts off.
abbrev pub Ends {ℓ} : {A : Type ℓ} → Outcome A → Type ℓ
Ends o = o ≢ no_fuel

pub bind-Ends {ℓ κ} :
    {A : Type ℓ} {B : Type κ} (m : Outcome A) (f : A → Outcome B)
    → Ends m
    → ((a : A) → Ends (f a))
    → Ends (m >>= f)
bind-Ends (returns a) f e h = h a
bind-Ends panics f e h = λ q. absurd (ground arith)
bind-Ends spins f e h = λ q. absurd (ground arith)
bind-Ends undefined f e h = λ q. absurd (ground arith)
bind-Ends no_fuel f e h = absurd (e refl)

pub returns-Ends {ℓ} : {A : Type ℓ} (a : A) → Ends (returns a)
returns-Ends a = λ q. absurd (ground arith)

pub undefined-Ends {ℓ} : {A : Type ℓ} → Ends {A = A} undefined
undefined-Ends = λ q. absurd (ground arith)

pub if-Ends {ℓ} :
    {A : Type ℓ} (b : Bool) (x y : Outcome A) → Ends x → Ends y → Ends (if b then x else y)
if-Ends true x y ex ey = ex
if-Ends false x y ex ey = ey

-- A `do` block whose action panics.
pub bind_panics {ℓ κ} :
    {A : Type ℓ} {B : Type κ} {m : Outcome A} (f : A → Outcome B) → m ≡ panics → (m >>= f) ≡ panics
bind_panics f e = rw e refl

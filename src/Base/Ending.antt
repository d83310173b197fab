-- ===== src/Base/Ending.antt =====
-- How a C function of the library can end: with a value, in `abort` (a failing `ic_assert`,
-- `ic_require` or a call of `abort`), or in undefined behaviour (a write outside an area, a read
-- through `NULL` or through memory that nothing has initialised).
use mathlib.Core.Path.{◌≡◌}
use mathlib.Core.Bool.{Bool, true, false}
use mathlib.Core.Option.{Option, none, some}

pub data Outcome {ℓ} (A : Type ℓ) : Type ℓ where
  ok : A → Outcome A
  aborted : Outcome A
  undefined : Outcome A

infixl 5 ◌>>=◌ ◌>>◌
abbrev pub ◌>>=◌ {ℓ κ} : {A : Type ℓ} {B : Type κ} → Outcome A → (A → Outcome B) → Outcome B
ok a >>= f = f a
aborted >>= f = aborted
undefined >>= f = undefined

abbrev pub ◌>>◌ {ℓ κ} : {A : Type ℓ} {B : Type κ} → Outcome A → Outcome B → Outcome B
m >> n = m >>= λ _. n

-- `ic_assert` and `ic_require`.
abbrev pub require : Bool → Outcome (Unit {0})
require true = ok tt
require false = aborted

-- A read that is undefined where nothing is found.
abbrev pub defined {ℓ} : {A : Type ℓ} → Option A → Outcome A
defined none = undefined
defined (some a) = ok a

-- A run that ends with a value for which `P` holds.
abbrev pub Ends {ℓ κ} : {A : Type ℓ} → Outcome A → (A → Type κ) → Type (ℓ ⊔ κ)
Ends {A} m P = (a : A) × (m ≡ ok a) × P a

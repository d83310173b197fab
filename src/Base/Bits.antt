-- ===== src/Base/Bits.antt =====
-- Facts about `bit_or` at variables, and checks of every value of a small range.
use Prim.Native.Nat.{ℕ, zero, suc, ◌/◌, ◌≤◌, ◌<◌, max, bit_or, digits, bit_or-bitwise}
use mathlib.Core.Path.{◌≡◌}
use mathlib.Core.Bool.{Bool, true, false}
use native.Mathlib.Omega.{arith}
use iclaustron.Base.Tests.{if◌then◌else◌}

-- Whether a test passes at every number under a limit.
unfoldable pub passes_under : (ℕ → Bool) → ℕ → Bool
passes_under test zero = true
passes_under test (suc limit) = if test limit then passes_under test limit else false

pub passes_under-at :
    (test : ℕ → Bool) (limit v : ℕ) → v < limit → passes_under test limit ≡ true → test v ≡ true
unfolding passes_under
passes_under-at test zero v below all = elim below [ ]
passes_under-at test (suc limit) v below all = ground (arith, passes_under-at test limit v)

-- A disjunction is at least its left side: digit by digit, with fuel above the left side.
abbrev or_digits : ℕ → ℕ → ℕ → ℕ
or_digits n a b = digits (λ b. b) max n a b

or_digits-ge : (n a b : ℕ) → a ≤ n → a ≤ or_digits n a b
or_digits-ge zero zero b h = omega arith
or_digits-ge zero (suc a) b h = absurd (omega arith)
or_digits-ge (suc n) zero b h = omega arith
or_digits-ge (suc n) (suc a) b h = omega (arith, or_digits-ge n (suc a / 2) (b / 2) (omega arith))

pub bit_or-ge_left : (a b : ℕ) → a ≤ bit_or a b
bit_or-ge_left a b = omega (arith, bit_or-bitwise a b, or_digits-ge a a b (omega arith))

or_digits-ge_right : (n a b : ℕ) → b ≤ or_digits n a b
or_digits-ge_right zero a b = omega arith
or_digits-ge_right (suc n) zero b = omega arith
or_digits-ge_right (suc n) (suc a) b = omega (arith, or_digits-ge_right n (suc a / 2) (b / 2))

pub bit_or-ge_right : (a b : ℕ) → b ≤ bit_or a b
bit_or-ge_right a b = omega (arith, bit_or-bitwise a b, or_digits-ge_right a a b)

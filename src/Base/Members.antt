-- ===== src/Base/Members.antt =====
-- Lists of numbers as sets: membership, lists without a repetition, and how many there are below a bound.
use Prim.Native.Nat.{ℕ, zero, suc, ◌<◌, ◌≤◌}
use mathlib.Core.Path.{◌≡◌, refl}
use mathlib.Core.Bool.{Bool, true, false, ◌||◌}
use mathlib.Core.Logic.{inl, inr}
use mathlib.Core.List.{List, [], ◌∷◌, ◌++◌}
use native.Mathlib.Omega.{arith}
use iclaustron.Base.Tests.{◌==◌, if◌then◌else◌, Bool-cases}
use iclaustron.Base.Lists.{length}

abbrev pub has : ℕ → List ℕ → Bool
has a [] = false
has a (x ∷ xs) = (a == x) || has a xs

abbrev pub Distinct : List ℕ → Type 0
Distinct [] = Unit
Distinct (x ∷ xs) = (has x xs ≡ false) × Distinct xs

abbrev pub AllBelow : ℕ → List ℕ → Type 0
AllBelow n [] = Unit
AllBelow n (x ∷ xs) = (x < n) × AllBelow n xs

pub has-ne : (a b : ℕ) (xs : List ℕ) → has a xs ≡ true → has b xs ≡ false → (a == b) ≡ false
has-ne a b [] i o = cc
has-ne a b (x ∷ xs) i o = ground (arith, has-ne a b xs)

pub has-below : (n a : ℕ) (xs : List ℕ) → AllBelow n xs → has a xs ≡ true → a < n
has-below n a [] all i = cc
has-below n a (x ∷ xs) all i = ground (arith, has-below n a xs all.1)

pub has-append : (a : ℕ) (xs ys : List ℕ) → has a (xs ++ ys) ≡ (has a xs || has a ys)
has-append a [] ys = refl
has-append a (x ∷ xs) ys = ground (arith, has-append a xs ys)

pub AllBelow-without :
    (n x : ℕ) (xs ys : List ℕ) → AllBelow n (xs ++ x ∷ ys) → AllBelow n (xs ++ ys)
AllBelow-without n x [] ys all = all.1
AllBelow-without n x (y ∷ xs) ys all = (all.0, AllBelow-without n x xs ys all.1)

-- Without one element that occurs once.
pub has-without :
    (a x : ℕ) (xs ys : List ℕ) → (a == x) ≡ false → has a (xs ++ ys) ≡ has a (xs ++ x ∷ ys)
has-without a x [] ys ne = rw ne refl
has-without a x (y ∷ xs) ys ne = rw (has-without a x xs ys ne) refl

pub Distinct-out : (x : ℕ) (xs ys : List ℕ) → Distinct (xs ++ x ∷ ys) → has x (xs ++ ys) ≡ false
Distinct-out x [] ys d = d.0
Distinct-out x (y ∷ xs) ys d = ground (arith, has-append y xs (x ∷ ys), Distinct-out x xs ys d.1)

pub Distinct-without : (x : ℕ) (xs ys : List ℕ) → Distinct (xs ++ x ∷ ys) → Distinct (xs ++ ys)
Distinct-without x [] ys d = d.1
Distinct-without x (y ∷ xs) ys d =
    (ground (arith, has-append y xs (x ∷ ys), has-append y xs ys), Distinct-without x xs ys d.1)

-- The list without its occurrences of a number.
drop_all : ℕ → List ℕ → List ℕ
drop_all a [] = []
drop_all a (x ∷ xs) = let rest = drop_all a xs in if x == a then rest else x ∷ rest

drop_all-out : (a : ℕ) (xs : List ℕ) → has a xs ≡ false → length (drop_all a xs) ≡ length xs
unfolding drop_all
drop_all-out a [] o = refl
drop_all-out a (x ∷ xs) o = ground (arith, drop_all-out a xs)

length-drop_all : (a : ℕ) (xs : List ℕ) → Distinct xs → length xs ≤ suc (length (drop_all a xs))
unfolding drop_all
length-drop_all a [] d = omega arith
length-drop_all a (x ∷ xs) d = ground (arith, drop_all-out a xs, length-drop_all a xs d.1)

has-drop_all : (a b : ℕ) (xs : List ℕ) → has b xs ≡ false → has b (drop_all a xs) ≡ false
unfolding drop_all
has-drop_all a b [] o = refl
has-drop_all a b (x ∷ xs) o = ground (arith, has-drop_all a b xs)

Distinct-drop_all : (a : ℕ) (xs : List ℕ) → Distinct xs → Distinct (drop_all a xs)
unfolding drop_all
Distinct-drop_all a [] d = tt
Distinct-drop_all a (x ∷ xs) d = elim (Bool-cases (x == a)) [
  | inl same ↦ rw same (Distinct-drop_all a xs d.1)
  | inr other ↦ rw other (has-drop_all a x xs d.0, Distinct-drop_all a xs d.1)
]

AllBelow-drop_all : (n : ℕ) (xs : List ℕ) → AllBelow (suc n) xs → AllBelow n (drop_all n xs)
unfolding drop_all
AllBelow-drop_all n [] all = tt
AllBelow-drop_all n (x ∷ xs) all = elim (Bool-cases (x == n)) [
  | inl same ↦ rw same (AllBelow-drop_all n xs all.1)
  | inr other ↦
      rw other (let lt : x < n = ground (arith, all.0) in lt, AllBelow-drop_all n xs all.1)
]

-- Below `n` there are no more than `n` numbers.
pub Distinct-length : (n : ℕ) (xs : List ℕ) → Distinct xs → AllBelow n xs → length xs ≤ n
Distinct-length zero [] d all = omega arith
Distinct-length zero (x ∷ xs) d all = absurd (omega (arith, all.0))
Distinct-length (suc n) xs d all = omega (
  arith,
  length-drop_all n xs d,
  Distinct-length n (drop_all n xs) (Distinct-drop_all n xs d) (AllBelow-drop_all n xs all),
)

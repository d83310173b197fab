-- ===== src/Base/Slices.antt =====
-- Parts of lists: `take` and `drop` over an append and over a sum.
use Prim.Native.Nat.{ℕ, zero, suc, ◌+◌, ◌-◌, ◌≤◌}
use mathlib.Core.Path.{◌≡◌, refl, ap, sym, ◌∙◌}
use mathlib.Core.List.{List, [], ◌∷◌, ◌++◌}
use native.Mathlib.Omega.{arith}
use iclaustron.Base.Lists.{length, take, drop}

module _ {ℓ} {A : Type ℓ} where
  pub take-zero_of : (n : ℕ) (xs : List A) → n ≡ 0 → take n xs ≡ []
  take-zero_of zero xs e = refl
  take-zero_of (suc n) xs e = absurd (omega arith)

  pub drop-zero_of : (n : ℕ) (xs : List A) → n ≡ 0 → drop n xs ≡ xs
  drop-zero_of zero xs e = refl
  drop-zero_of (suc n) xs e = absurd (omega arith)

  take-nil : (n : ℕ) → ◌≡◌ {A = List A} (take n []) []
  take-nil zero = refl
  take-nil (suc n) = refl

  pub take-append :
      (n : ℕ) (xs ys : List A) → take n (xs ++ ys) ≡ take n xs ++ take (n - length xs) ys
  take-append n [] ys = rw (take-nil n) (let e : n ≡ n - 0 = omega arith in ap (λ m. take m ys) e)
  take-append zero (x ∷ xs) ys = sym (take-zero_of (0 - length (x ∷ xs)) ys (omega arith))
  take-append (suc n) (x ∷ xs) ys =
      let e : n - length xs ≡ suc n - length (x ∷ xs) = omega arith in
      ap (◌∷◌ x) (take-append n xs ys ∙ ap (λ m. take n xs ++ take m ys) e)

  pub drop-append :
      (n : ℕ) (xs ys : List A) → drop n (xs ++ ys) ≡ drop n xs ++ drop (n - length xs) ys
  drop-append zero [] ys = sym (drop-zero_of (0 - 0) ys (omega arith))
  drop-append (suc n) [] ys = let e : suc n ≡ suc n - 0 = omega arith in ap (λ m. drop m ys) e
  drop-append zero (x ∷ xs) ys =
      ap (λ zs. x ∷ (xs ++ zs)) (sym (drop-zero_of (0 - length (x ∷ xs)) ys (omega arith)))
  drop-append (suc n) (x ∷ xs) ys =
      let e : n - length xs ≡ suc n - length (x ∷ xs) = omega arith in
      drop-append n xs ys ∙ ap (λ m. drop n xs ++ drop m ys) e

  pub take-ge : (n : ℕ) (xs : List A) → length xs ≤ n → take n xs ≡ xs
  take-ge zero [] le = refl
  take-ge zero (x ∷ xs) le = absurd (omega arith)
  take-ge (suc n) [] le = refl
  take-ge (suc n) (x ∷ xs) le = ap (◌∷◌ x) (take-ge n xs (omega arith))

  pub drop-ge : (n : ℕ) (xs : List A) → length xs ≤ n → drop n xs ≡ []
  drop-ge zero [] le = refl
  drop-ge zero (x ∷ xs) le = absurd (omega arith)
  drop-ge (suc n) [] le = refl
  drop-ge (suc n) (x ∷ xs) le = drop-ge n xs (omega arith)

  pub append_nil : (xs : List A) → xs ++ [] ≡ xs
  append_nil [] = refl
  append_nil (x ∷ xs) = ap (◌∷◌ x) (append_nil xs)

  pub append_assoc : (xs ys zs : List A) → (xs ++ ys) ++ zs ≡ xs ++ (ys ++ zs)
  append_assoc [] ys zs = refl
  append_assoc (x ∷ xs) ys zs = ap (◌∷◌ x) (append_assoc xs ys zs)

  -- The front of an append, and what is behind it.
  pub take_front : (n : ℕ) (xs ys : List A) → n ≡ length xs → take n (xs ++ ys) ≡ xs
  take_front n xs ys e =
      take-append n xs ys
      ∙ ap (λ zs. take n xs ++ zs) (take-zero_of (n - length xs) ys (omega arith))
      ∙ append_nil (take n xs)
      ∙ take-ge n xs (omega arith)

  -- A part of a front is a part of the whole.
  pub take-take : (n m : ℕ) (xs : List A) → n ≤ m → take n (take m xs) ≡ take n xs
  take-take zero m xs le = refl
  take-take (suc n) zero xs le = absurd (omega arith)
  take-take (suc n) (suc m) [] le = refl
  take-take (suc n) (suc m) (x ∷ xs) le = ap (◌∷◌ x) (take-take n m xs (omega arith))

  pub take_behind :
      (t n : ℕ) (xs ys : List A) → t ≡ length xs + n → take t (xs ++ ys) ≡ xs ++ take n ys
  take_behind t n xs ys e =
      let rest : t - length xs ≡ n = omega arith in
      take-append t xs ys
      ∙ ap (λ zs. zs ++ take (t - length xs) ys) (take-ge t xs (omega arith))
      ∙ ap (λ m. xs ++ take m ys) rest

  pub drop-take : (n m : ℕ) (xs : List A) → drop n (take m xs) ≡ take (m - n) (drop n xs)
  drop-take zero m xs = ap (λ k. take k xs) (let e : m ≡ m - 0 = omega arith in e)
  drop-take (suc n) zero xs = sym (take-zero_of (0 - suc n) (drop (suc n) xs) (omega arith))
  drop-take (suc n) (suc m) [] = sym (take-nil (suc m - suc n))
  drop-take (suc n) (suc m) (x ∷ xs) =
      let e : m - n ≡ suc m - suc n = omega arith in
      drop-take n m xs ∙ ap (λ k. take k (drop n xs)) e

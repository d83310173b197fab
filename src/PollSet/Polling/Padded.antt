-- ===== src/PollSet/Polling/Padded.antt =====
-- Lists with free places behind them, as an array without a gap has them.
use iclaustron.Base.{
  ℕ, zero, suc, ◌≤◌, ◌≡◌, refl, ap, some, List, [], ◌∷◌, ◌++◌, map, length, get_elem?, set,
  replicate, arith, ◌⊎◌, inl, inr,
}

module _ {A : Type 0} where
  -- A list with places behind it that are free.
  abbrev pub padded : List A → ℕ → A → List A
  padded xs free z = xs ++ replicate free z

  pub padded-snoc :
      (xs : List A) (free : ℕ) (z x : A)
      → set (padded xs (suc free) z) (length xs) x ≡ padded (xs ++ x ∷ []) free z
  padded-snoc [] free z x = refl
  padded-snoc (y ∷ xs) free z x = ap (◌∷◌ y) (padded-snoc xs free z x)

  pub get_elem?-padded_last :
      (front : List A) (last z : A) (free : ℕ)
      → get_elem? (padded (front ++ last ∷ []) free z) (length front) ≡ some last
  get_elem?-padded_last [] last z free = refl
  get_elem?-padded_last (x ∷ front) last z free = get_elem?-padded_last front last z free

  pub set-padded_last :
      (front : List A) (last z : A) (free : ℕ)
      → set (padded (front ++ last ∷ []) free z) (length front) z ≡ padded front (suc free) z
  set-padded_last [] last z free = refl
  set-padded_last (x ∷ front) last z free = ap (◌∷◌ x) (set-padded_last front last z free)

  -- The last one takes the place at an index, and its own place becomes free.
  pub set-last_moved :
      (front : List A) (last z : A) (free i : ℕ)
      → i ≤ length front
      → set (set (padded (front ++ last ∷ []) free z) i last) (length front) z
        ≡ padded (set front i last) (suc free) z
  set-last_moved [] last z free zero le = refl
  set-last_moved [] last z free (suc i) le = absurd (omega arith)
  set-last_moved (x ∷ front) last z free zero le = ap (◌∷◌ last) (set-padded_last front last z free)
  set-last_moved (x ∷ front) last z free (suc i) le =
      ap (◌∷◌ x) (set-last_moved front last z free i (omega arith))

  pub snoc-cases :
      (xs : List A) → (xs ≡ []) ⊎ (front : List A) × (last : A) × (xs ≡ front ++ last ∷ [])
  snoc-cases [] = inl refl
  snoc-cases (x ∷ xs) = elim (snoc-cases xs) [
    | inl e ↦ inr ([], x, ap (◌∷◌ x) e)
    | inr (front, last, e) ↦ inr (x ∷ front, last, ap (◌∷◌ x) e)
  ]

pub map-snoc :
    {A B : Type 0} (f : A → B) (xs : List A) (x : A) → map f (xs ++ x ∷ []) ≡ map f xs ++ f x ∷ []
map-snoc f [] x = refl
map-snoc f (y ∷ xs) x = ap (◌∷◌ (f y)) (map-snoc f xs x)

pub map-set :
    {A B : Type 0} (f : A → B) (xs : List A) (i : ℕ) (x : A)
    → map f (set xs i x) ≡ set (map f xs) i (f x)
map-set f [] i x = refl
map-set f (y ∷ xs) zero x = refl
map-set f (y ∷ xs) (suc i) x = ap (◌∷◌ (f y)) (map-set f xs i x)

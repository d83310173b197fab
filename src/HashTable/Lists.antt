-- ===== src/HashTable/Lists.antt =====
-- Lists of chains: what a write of one chain does to a count over all of them.
use mathlib.Core.Option.{or_else}
use iclaustron.Base.{
  ℕ, zero, suc, ◌+◌, ◌<◌, ◌≤◌, ◌≡◌, refl, Bool, true, false, none, some, List, [], ◌∷◌, ◌++◌, ◌==◌,
  if◌then◌else◌, get_elem?, get_or, set, replicate, length, length-append, arith,
}
use iclaustron.HashTable.{Entry, find_entry, unlink_entry, destroy}

abbrev pub to_ℕ : Bool → ℕ
to_ℕ true = 1
to_ℕ false = 0

module _ {A : Type 0} where
  pub get_elem?-get_or :
      (xs : List A) (i : ℕ) (d : A) → i < length xs → get_elem? xs i ≡ some (get_or xs i d)
  get_elem?-get_or [] i d h = absurd (omega arith)
  get_elem?-get_or (x ∷ xs) zero d h = refl
  get_elem?-get_or (x ∷ xs) (suc i) d h = get_elem?-get_or xs i d (omega arith)

  pub get_or-set :
      (xs : List A) (i j : ℕ) (v d : A)
      → i < length xs
      → get_or (set xs i v) j d ≡ (if j == i then v else get_or xs j d)
  get_or-set [] i j v d h = absurd (omega arith)
  get_or-set (x ∷ xs) zero zero v d h = refl
  get_or-set (x ∷ xs) zero (suc j) v d h = ground arith
  get_or-set (x ∷ xs) (suc i) zero v d h = ground arith
  get_or-set (x ∷ xs) (suc i) (suc j) v d h = ground (arith, get_or-set xs i j v d)

  pub get_or-replicate : (n i : ℕ) (d : A) → get_or (replicate n d) i d ≡ d
  get_or-replicate zero i d = refl
  get_or-replicate (suc n) zero d = refl
  get_or-replicate (suc n) (suc i) d = get_or-replicate n i d

module _ {K V : Type 0} (hit : Entry K V → Bool) where
  -- How many entries are hit.
  unfoldable pub count_hits : List (Entry K V) → ℕ
  count_hits [] = 0
  count_hits (e ∷ c) = to_ℕ (hit e) + count_hits c

  pub count_hits-append :
      (a b : List (Entry K V)) → count_hits (a ++ b) ≡ count_hits a + count_hits b
  unfolding count_hits
  count_hits-append [] b = omega arith
  count_hits-append (e ∷ a) b = omega (arith, count_hits-append a b)

  pub find_entry-append :
      (a b : List (Entry K V))
      → find_entry hit (a ++ b) ≡ or_else (find_entry hit a) (find_entry hit b)
  unfolding find_entry or_else
  find_entry-append [] b = refl
  find_entry-append (e ∷ a) b = rw (find_entry-append a b) (ground arith)

  pub find_entry-none : (c : List (Entry K V)) → count_hits c ≡ 0 → find_entry hit c ≡ none
  unfolding find_entry count_hits
  find_entry-none [] h = refl
  find_entry-none (e ∷ c) h = ground (arith, find_entry-none c)

  pub count_hits-zero : (c : List (Entry K V)) → find_entry hit c ≡ none → count_hits c ≡ 0
  unfolding find_entry count_hits
  count_hits-zero [] h = refl
  count_hits-zero (e ∷ c) h = ground (arith, count_hits-zero c)

  pub count_hits-destroy-set :
      (t : List (List (Entry K V))) (j : ℕ) (c : List (Entry K V))
      → j < length t
      → count_hits (destroy (set t j c)) + count_hits (get_or t j [])
        ≡ count_hits (destroy t) + count_hits c
  unfolding destroy
  count_hits-destroy-set [] j c h = absurd (omega arith)
  count_hits-destroy-set (x ∷ t) zero c h =
      omega (arith, count_hits-append x (destroy t), count_hits-append c (destroy t))
  count_hits-destroy-set (x ∷ t) (suc j) c h = omega (
    arith,
    count_hits-append x (destroy t),
    count_hits-append x (destroy (set t j c)),
    count_hits-destroy-set t j c (omega arith),
  )

  -- The chain without the first entry that is hit.
  pub count_hits-unlink_self :
      (c : List (Entry K V)) (v : V)
      → find_entry hit c ≡ some v
      → count_hits (unlink_entry hit c) + 1 ≡ count_hits c
  unfolding find_entry unlink_entry count_hits
  count_hits-unlink_self [] v h = cc
  count_hits-unlink_self (e ∷ c) v h = ground (arith, count_hits-unlink_self c v)

module _ {K V : Type 0} where
  pub length-destroy-set :
      (t : List (List (Entry K V))) (j : ℕ) (c : List (Entry K V))
      → j < length t
      → length (destroy (set t j c)) + length (get_or t j []) ≡ length (destroy t) + length c
  unfolding destroy
  length-destroy-set [] j c h = absurd (omega arith)
  length-destroy-set (x ∷ t) zero c h =
      omega (arith, length-append x (destroy t), length-append c (destroy t))
  length-destroy-set (x ∷ t) (suc j) c h = omega (
    arith,
    length-append x (destroy t),
    length-append x (destroy (set t j c)),
    length-destroy-set t j c (omega arith),
  )

  pub length-unlink :
      (hit : Entry K V → Bool) (c : List (Entry K V)) (v : V)
      → find_entry hit c ≡ some v
      → length (unlink_entry hit c) + 1 ≡ length c
  unfolding find_entry unlink_entry
  length-unlink hit [] v h = cc
  length-unlink hit (e ∷ c) v h = ground (arith, length-unlink hit c v)

  pub length-get_or-le :
      (t : List (List (Entry K V))) (j : ℕ) → length (get_or t j []) ≤ length (destroy t)
  unfolding destroy
  length-get_or-le [] j = omega arith
  length-get_or-le (x ∷ t) zero = omega (arith, length-append x (destroy t))
  length-get_or-le (x ∷ t) (suc j) =
      omega (arith, length-append x (destroy t), length-get_or-le t j)

  pub count_hits-get_or-le :
      (hit : Entry K V → Bool) (t : List (List (Entry K V))) (j : ℕ)
      → count_hits hit (get_or t j []) ≤ count_hits hit (destroy t)
  unfolding destroy count_hits
  count_hits-get_or-le hit [] j = omega arith
  count_hits-get_or-le hit (x ∷ t) zero = omega (arith, count_hits-append hit x (destroy t))
  count_hits-get_or-le hit (x ∷ t) (suc j) =
      omega (arith, count_hits-append hit x (destroy t), count_hits-get_or-le hit t j)

  -- Two tests on a chain that has at most one entry of the second.
  pub find_entry-unlink :
      (hit other : Entry K V → Bool) (c : List (Entry K V))
      → ((e : Entry K V) → hit e ≡ true → other e ≡ false)
      → find_entry other (unlink_entry hit c) ≡ find_entry other c
  unfolding find_entry unlink_entry
  find_entry-unlink hit other [] h = refl
  find_entry-unlink hit other (e ∷ c) h = ground (arith, h e, find_entry-unlink hit other c h)

  pub count_hits-unlink_le :
      (hit other : Entry K V → Bool) (c : List (Entry K V))
      → count_hits other (unlink_entry hit c) ≤ count_hits other c
  unfolding unlink_entry count_hits
  count_hits-unlink_le hit other [] = omega arith
  count_hits-unlink_le hit other (e ∷ c) = ground (arith, count_hits-unlink_le hit other c)

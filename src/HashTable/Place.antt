-- ===== src/HashTable/Place.antt =====
-- Where the entries stand: each in the chain that its hash value selects.
use mathlib.Core.Option.{or_else}
use iclaustron.Base.{
  ℕ, zero, suc, ◌+◌, ◌<◌, ◌≤◌, ◌≡◌, ◌≢◌, refl, Bool, true, List, [], ◌∷◌, ◌++◌, ◌==◌, if◌then◌else◌,
  get_or, set, replicate, length, length-set, arith, ◌∙◌, sym, Bool-cases, inl, inr,
}
use iclaustron.HashTable.{
  Entry, index_for, find_entry, unlink_entry, destroy, link, move_chain, move_table,
}
use iclaustron.HashTable.Lists.{
  count_hits, count_hits-append, find_entry-append, find_entry-none, count_hits-destroy-set,
  length-destroy-set, get_or-set,
}

pub index_for-lt : (n : ℕ) → 0 < n → (x : ℕ) → index_for n x < n
unfolding index_for
index_for-lt n pos x = omega arith

module _ {K V : Type 0} (n : ℕ) where
  abbrev pub AllHome : ℕ → List (Entry K V) → Type 0
  AllHome i [] = Unit
  AllHome i (e ∷ c) = (index_for n e.h ≡ i) × AllHome i c

  -- The chains from number `i` on.
  abbrev pub Placed : ℕ → List (List (Entry K V)) → Type 0
  Placed i [] = Unit
  Placed i (c ∷ t) = AllHome i c × Placed (suc i) t

  pub AllHome-get_or :
      (i j m : ℕ) (t : List (List (Entry K V))) → Placed i t → m ≡ i + j → AllHome m (get_or t j [])
  AllHome-get_or i j m [] p e = tt
  AllHome-get_or i zero m (c ∷ t) p e = let same : m ≡ i = omega arith in rw same p.0
  AllHome-get_or i (suc j) m (c ∷ t) p e = AllHome-get_or (suc i) j m t p.1 (omega arith)

  pub Placed-set :
      (i j m : ℕ) (t : List (List (Entry K V))) (c : List (Entry K V))
      → Placed i t
      → m ≡ i + j
      → AllHome m c
      → Placed i (set t j c)
  Placed-set i j m [] c p e h = tt
  Placed-set i zero m (x ∷ t) c p e h = let same : i ≡ m = omega arith in (rw same h, p.1)
  Placed-set i (suc j) m (x ∷ t) c p e h = (p.0, Placed-set (suc i) j m t c p.1 (omega arith) h)

  pub AllHome-unlink :
      (hit : Entry K V → Bool) (i : ℕ) (c : List (Entry K V))
      → AllHome i c
      → AllHome i (unlink_entry hit c)
  unfolding unlink_entry
  AllHome-unlink hit i [] p = tt
  AllHome-unlink hit i (e ∷ c) p = elim (Bool-cases (hit e)) [
    | inl gone ↦ rw gone p.1
    | inr kept ↦ rw kept (p.0, AllHome-unlink hit i c p.1)
  ]

  -- A test that only entries of chain `m` pass.
  module _ (hit : Entry K V → Bool) (m : ℕ)
      (only : (e : Entry K V) → hit e ≡ true → index_for n e.h ≡ m) where
    chain_none : (i : ℕ) (c : List (Entry K V)) → AllHome i c → i ≢ m → count_hits hit c ≡ 0
    unfolding count_hits
    chain_none i [] p ne = refl
    chain_none i (e ∷ c) p ne = ground (arith, only e, chain_none i c p.1 ne)

    above_none :
        (i : ℕ) (t : List (List (Entry K V))) → Placed i t → m < i → count_hits hit (destroy t) ≡ 0
    unfolding destroy count_hits
    above_none i [] p lt = refl
    above_none i (c ∷ t) p lt = omega (
      arith,
      count_hits-append hit c (destroy t),
      chain_none i c p.0 (omega arith),
      above_none (suc i) t p.1 (omega arith),
    )

    pub Placed-find :
        (i j : ℕ) (t : List (List (Entry K V)))
        → Placed i t
        → m ≡ i + j
        → find_entry hit (destroy t) ≡ find_entry hit (get_or t j [])
    unfolding destroy or_else
    Placed-find i j [] p e = refl
    Placed-find i zero (c ∷ t) p e =
        rw
          (
            find_entry-append hit c (destroy t),
            find_entry-none hit (destroy t) (above_none (suc i) t p.1 (omega arith)),
          )
          (ground arith)
    Placed-find i (suc j) (c ∷ t) p e =
        rw
          (
            find_entry-append hit c (destroy t),
            find_entry-none hit c (chain_none i c p.0 (omega arith)),
          )
          (Placed-find (suc i) j t p.1 (omega arith))

    pub Placed-count :
        (i j : ℕ) (t : List (List (Entry K V)))
        → Placed i t
        → m ≡ i + j
        → count_hits hit (destroy t) ≡ count_hits hit (get_or t j [])
    unfolding destroy count_hits
    Placed-count i j [] p e = refl
    Placed-count i zero (c ∷ t) p e =
        omega (arith, count_hits-append hit c (destroy t), above_none (suc i) t p.1 (omega arith))
    Placed-count i (suc j) (c ∷ t) p e = omega (
      arith,
      count_hits-append hit c (destroy t),
      chain_none i c p.0 (omega arith),
      Placed-count (suc i) j t p.1 (omega arith),
    )

  -- A table of `n` chains in which every entry stands at home.
  pub record IsTable (t : List (List (Entry K V))) : Type 0 where
    pub width : length t ≡ n
    pub placed : Placed 0 t

  module _ (pos : 0 < n) where
    pub link-IsTable :
        (t : List (List (Entry K V))) (e : Entry K V)
        → IsTable t
        → IsTable (link t (index_for n e.h) e)
    unfolding link
    link-IsTable t e is =
        let j = index_for n e.h in
        record {
          width = length-set t j _ ∙ is.width;
          placed =
              Placed-set 0 j j t _ is.placed (omega arith)
                (refl, AllHome-get_or 0 j j t is.placed (omega arith));
        }

    pub count_hits-link :
        (hit : Entry K V → Bool) (t : List (List (Entry K V))) (e : Entry K V)
        → IsTable t
        → count_hits hit (destroy (link t (index_for n e.h) e))
          ≡ count_hits hit (destroy t) + count_hits hit (e ∷ [])
    unfolding link count_hits
    count_hits-link hit t e is =
        let j = index_for n e.h in
        omega (
          arith,
          count_hits-destroy-set hit t j (e ∷ get_or t j [])
              (omega (arith, index_for-lt n pos e.h, is.width)),
        )

    pub length-link :
        (t : List (List (Entry K V))) (e : Entry K V)
        → IsTable t
        → length (destroy (link t (index_for n e.h) e)) ≡ length (destroy t) + 1
    unfolding link
    length-link t e is =
        let j = index_for n e.h in
        omega (
          arith,
          length-destroy-set t j (e ∷ get_or t j [])
              (omega (arith, index_for-lt n pos e.h, is.width)),
        )

    pub get_or-link :
        (t : List (List (Entry K V))) (e : Entry K V) (m : ℕ)
        → IsTable t
        → get_or (link t (index_for n e.h) e) m []
          ≡ (if m == index_for n e.h then e ∷ get_or t m [] else get_or t m [])
    unfolding link
    get_or-link t e m is =
        let j = index_for n e.h in
        ground (
          arith,
          get_or-set t j m (e ∷ get_or t j []) [] (omega (arith, index_for-lt n pos e.h, is.width)),
        )

    pub move_chain-append :
        (a b : List (Entry K V)) (t : List (List (Entry K V)))
        → move_chain n (a ++ b) t ≡ move_chain n b (move_chain n a t)
    unfolding move_chain
    move_chain-append [] b t = refl
    move_chain-append (e ∷ a) b t = move_chain-append a b _

    pub move_table-destroy :
        (old t : List (List (Entry K V))) → move_table n old t ≡ move_chain n (destroy old) t
    unfolding move_table destroy
    move_table-destroy [] t = refl
    move_table-destroy (c ∷ old) t =
        move_table-destroy old _ ∙ sym (move_chain-append c (destroy old) t)

    pub move_chain-IsTable :
        (es : List (Entry K V)) (t : List (List (Entry K V)))
        → IsTable t
        → IsTable (move_chain n es t)
    unfolding move_chain
    move_chain-IsTable [] t is = is
    move_chain-IsTable (e ∷ es) t is = move_chain-IsTable es _ (link-IsTable t e is)

    pub length-move_chain :
        (es : List (Entry K V)) (t : List (List (Entry K V)))
        → IsTable t
        → length (destroy (move_chain n es t)) ≡ length (destroy t) + length es
    unfolding move_chain
    length-move_chain [] t is = omega arith
    length-move_chain (e ∷ es) t is = omega (
      arith,
      length-move_chain es (link t (index_for n e.h) e) (link-IsTable t e is),
      length-link t e is,
    )

    pub count_hits-move_chain :
        (hit : Entry K V → Bool) (es : List (Entry K V)) (t : List (List (Entry K V)))
        → IsTable t
        → count_hits hit (destroy (move_chain n es t))
          ≡ count_hits hit (destroy t) + count_hits hit es
    unfolding move_chain count_hits
    count_hits-move_chain hit [] t is = omega arith
    count_hits-move_chain hit (e ∷ es) t is = omega (
      arith,
      count_hits-move_chain hit es (link t (index_for n e.h) e) (link-IsTable t e is),
      count_hits-link hit t e is,
    )

    -- After a move, a test that one entry at most passes finds it in its chain.
    pub find_entry-move_chain :
        (hit : Entry K V → Bool) (m : ℕ)
        → ((e : Entry K V) → hit e ≡ true → index_for n e.h ≡ m)
        → (es : List (Entry K V)) (t : List (List (Entry K V))) → IsTable t
        → count_hits hit es ≤ 1
        → find_entry hit (get_or (move_chain n es t) m [])
          ≡ or_else (find_entry hit es) (find_entry hit (get_or t m []))
    unfolding move_chain find_entry count_hits or_else
    find_entry-move_chain hit m only [] t is one = refl
    find_entry-move_chain hit m only (e ∷ es) t is one =
        find_entry-move_chain hit m only es _ (link-IsTable t e is) (omega arith)
        ∙ ground (arith, only e, get_or-link t e m is, find_entry-none hit es)

pub Placed-replicate : (K V : Type 0) (n i k : ℕ) → Placed {K = K} {V = V} n i (replicate k [])
Placed-replicate K V n i zero = tt
Placed-replicate K V n i (suc k) = (tt, Placed-replicate K V n (suc i) k)

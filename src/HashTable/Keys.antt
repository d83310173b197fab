-- ===== src/HashTable/Keys.antt =====
-- Equal keys of a valid table hit the same entries.
use iclaustron.Base.{◌≡◌, true, none, arith, Bool-cases, inl, inr, ◌∙◌, fun_ext}
use iclaustron.HashTable.Lists.{count_hits, count_hits-zero}
use iclaustron.HashTable.Place.{Placed-count}
use iclaustron.HashTable.Valid.{IsShaped, view, home, hits-home}
use iclaustron.HashTable.{Entry, HashTable, hash_key, hits, destroy}

module _ {K V : Type 0} where
  module _ (h : HashTable K V) (shaped : IsShaped h) (k : K) where
    -- A test for a key hits the new entry just if the keys are equal.
    pub hits-new :
        (q : K) (v : V) → hits h q (record { k = k; v = v; h = hash_key h k }) ≡ h.eqfn q k
    unfolding hits hash_key
    hits-new q v = elim (Bool-cases (h.eqfn q k)) [
      | inl same ↦ rw (shaped.lawful.hash-equal q k same) (ground arith)
      | inr other ↦ ground arith
    ]

    -- Two equal keys hit the same entries.
    pub hits-equal : (q : K) (e : Entry K V) → h.eqfn q k ≡ true → hits h q e ≡ hits h k e
    unfolding hits hash_key
    hits-equal q e same = rw (shaped.lawful.hash-equal q k same) (
        ground (
          arith,
          shaped.lawful.equal_symm q k,
          shaped.lawful.equal_trans k q e.k,
          shaped.lawful.equal_trans q k e.k,
        ))

    -- Two keys that hit one entry are equal.
    pub hits-both :
        (q : K) (e : Entry K V) → hits h k e ≡ true → hits h q e ≡ true → h.eqfn q k ≡ true
    unfolding hits
    hits-both q e a b =
        ground (arith, shaped.lawful.equal_symm k e.k, shaped.lawful.equal_trans q e.k k)

    -- Where nothing stands under `k`, nothing is hit by a key that is equal to it.
    pub absent-count :
        (q : K) → view h k ≡ none → h.eqfn q k ≡ true → count_hits (hits h q) (destroy h.table) ≡ 0
    unfolding view
    absent-count q absent same =
        let tests : hits h q ≡ hits h k = fun_ext (λ e. hits-equal q e same) in
        rw tests (
          Placed-count h.tablelength (hits h k) (home h k) (hits-home h k) 0 (home h k) h.table
            shaped.chains.placed (omega arith)
          ∙ count_hits-zero (hits h k) _ absent)

    -- Two equal keys read the same.
    pub view-equal : (q : K) → h.eqfn q k ≡ true → view h q ≡ view h k
    unfolding view hash_key
    view-equal q same =
        let tests : hits h q ≡ hits h k = fun_ext (λ e. hits-equal q e same) in
        rw (tests, shaped.lawful.hash-equal q k same)

    pub home-equal : (q : K) → h.eqfn q k ≡ true → home h q ≡ home h k
    unfolding hash_key
    home-equal q same = rw (shaped.lawful.hash-equal q k same)

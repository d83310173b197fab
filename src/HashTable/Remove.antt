-- ===== src/HashTable/Remove.antt =====
-- `ic_hashtable_remove` against the function from keys to values that the table stands for.
use iclaustron.Base.{
  ℕ, ◌+◌, ◌-◌, ◌%◌, ◌^◌, ◌<◌, ◌≤◌, ◌≡◌, refl, Bool, true, false, Option, none, some, List, [], ok,
  Ends, ◌==◌, if◌then◌else◌, get_or, set, length, length-set, arith, ==_iff, Bool-cases,
  Option-cases, inl, inr, ◌∙◌, ap, fun_ext,
}
use iclaustron.HashTable.Lists.{
  count_hits, get_or-set, find_entry-none, count_hits-zero, count_hits-destroy-set,
  length-destroy-set, length-unlink, count_hits-unlink_self, count_hits-unlink_le,
  find_entry-unlink, count_hits-get_or-le,
}
use iclaustron.HashTable.Place.{index_for-lt, IsTable, AllHome-get_or, AllHome-unlink, Placed-set}
use iclaustron.HashTable.Valid.{
  IsShaped, IsValid, view, home, chain-here, tablelength-pos, search-view,
}
use iclaustron.HashTable.Keys.{home-equal, view-equal, hits-equal, hits-both}
use iclaustron.HashTable.{
  Entry, HashTable, hash_key, hits, find_entry, unlink_entry, destroy, search, remove, count,
}

if_ok : {A : Type 0} (b : Bool) (x y : A) → ok (if b then x else y) ≡ (if b then ok x else ok y)
if_ok true x y = refl
if_ok false x y = refl

abbrev pub found {ℓ} : {A : Type ℓ} → Option A → ℕ
found none = 0
found (some _) = 1

module _ {K V : Type 0} where
  -- `h'` is a valid table that reads nothing under the keys equal to `k`, and under the others what `h` reads; the
  -- entry that was found, if any, is no longer counted.
  pub record Removed (h : HashTable K V) (k : K) (r : Option V) (h' : HashTable K V) : Type 0 where
    pub valid' : IsValid h'
    pub result : search h k ≡ ok r
    pub reads : (q : K) → search h' q ≡ (if h.eqfn q k then ok none else search h q)
    pub one_less : count h' + found r ≡ count h

  module _ (h : HashTable K V) (valid : IsValid h) (k : K) where
    -- The chain of `k`, and the table without the first entry of it that is hit.
    home_chain : List (Entry K V)
    home_chain = get_or h.table (home h k) []

    within : home h k < length h.table
    within = omega (
      arith,
      index_for-lt h.tablelength (tablelength-pos valid.shaped) (hash_key h k),
      valid.shaped.chains.width,
    )

    remaining : List (List (Entry K V))
    remaining = set h.table (home h k) (unlink_entry (hits h k) home_chain)

    same_tests : (q : K) → h.eqfn q k ≡ true → hits h q ≡ hits h k
    same_tests q same = fun_ext (λ e. hits-equal h valid.shaped k q e same)

    remaining-IsTable : IsTable h.tablelength remaining
    unfolding remaining home_chain
    remaining-IsTable =
        let is = valid.shaped.chains in
        record {
          width = length-set h.table (home h k) _ ∙ is.width;
          placed =
              Placed-set h.tablelength 0 (home h k) (home h k) h.table _ is.placed (omega arith) (
                AllHome-unlink h.tablelength (hits h k) (home h k) _ (
                  AllHome-get_or h.tablelength 0 (home h k) (home h k) h.table is.placed
                    (omega arith)));
        }

    remaining_unique : (q : K) → count_hits (hits h q) (destroy remaining) ≤ 1
    unfolding remaining home_chain
    remaining_unique q = omega (
      arith,
      valid.shaped.unique q,
      count_hits-destroy-set (hits h q) h.table (home h k) (unlink_entry (hits h k) home_chain)
          within,
      count_hits-unlink_le (hits h k) (hits h q) home_chain,
    )

    gone : find_entry (hits h k) (unlink_entry (hits h k) home_chain) ≡ none
    unfolding home_chain
    gone =
        let one = valid.shaped.unique k in
        let chain_one = count_hits-get_or-le (hits h k) h.table (home h k) in
        find_entry-none (hits h k) _ (elim (Option-cases (find_entry (hits h k) home_chain)) [
          | inl e ↦ omega (
            arith,
            count_hits-unlink_le (hits h k) (hits h k) home_chain,
            count_hits-zero (hits h k) home_chain e,
          )
          | inr (v, e) ↦
              omega (arith, one, chain_one, count_hits-unlink_self (hits h k) home_chain v e)
        ])

    -- What a key reads in the home chain of `k` afterwards.
    chain_reads :
        (q : K)
        → home h q ≡ home h k
        → find_entry (hits h q) (unlink_entry (hits h k) home_chain)
          ≡ (if h.eqfn q k then none else find_entry (hits h q) home_chain)
    chain_reads q here = elim (Bool-cases (h.eqfn q k)) [
      | inl same ↦ rw (same, same_tests q same) gone
      | inr other ↦ rw other (
          find_entry-unlink (hits h k) (hits h q) home_chain
            (λ e hit. ground (arith, hits-both h valid.shaped k q e hit)))
    ]

    removed : HashTable K V
    removed = record h { entrycount = (h.entrycount + 2 ^ 32 - 1) % 2 ^ 32; table = remaining }

    set_reads :
        (q : K)
        → find_entry (hits h q) (
            if home h q == home h k
            then unlink_entry (hits h k) home_chain
            else get_or h.table (home h q) [])
          ≡ (if h.eqfn q k then none else find_entry (hits h q) (get_or h.table (home h q) []))
    unfolding home_chain
    set_reads q = elim (Bool-cases (home h q == home h k)) [
      | inl e ↦
          let here : home h q ≡ home h k = (==_iff _ _).0 e in rw (e, here) (chain_reads q here)
      | inr e ↦
          let other : h.eqfn q k ≡ false = ground (arith, home-equal h valid.shaped k q) in
          rw (e, other)
    ]

    removed-view : (q : K) → view removed q ≡ (if h.eqfn q k then none else view h q)
    unfolding removed view hits remaining
    removed-view q =
        rw (get_or-set h.table (home h k) (home h q) (unlink_entry (hits h k) home_chain) [] within)
          (set_reads q)

    removed-IsShaped : IsShaped removed
    unfolding removed hits
    removed-IsShaped = record {
      lawful = valid.shaped.lawful;
      sized = valid.shaped.sized;
      loaded = valid.shaped.loaded;
      chains = remaining-IsTable;
      unique = remaining_unique;
    }

    module _ (v : V) (here : find_entry (hits h k) home_chain ≡ some v) where
      remaining-length : length (destroy remaining) + 1 ≡ h.entrycount
      unfolding remaining home_chain
      remaining-length = omega (
        arith,
        valid.counted,
        length-destroy-set h.table (home h k) (unlink_entry (hits h k) home_chain) within,
        length-unlink (hits h k) home_chain v here,
      )

      removed-Removed : Removed h k (some v) removed
      unfolding removed count view home_chain
      removed-Removed = record {
        valid' = record {
          shaped = removed-IsShaped;
          counted = omega (arith, remaining-length, valid.fits);
          fits = omega arith;
        };
        result = search-view valid.shaped k ∙ ap ok here;
        reads = λ q.
            rw (search-view removed-IsShaped q, search-view valid.shaped q, removed-view q)
              (if_ok (h.eqfn q k) none (view h q));
        one_less = omega (arith, remaining-length, valid.fits);
      }

    unchanged-Removed : find_entry (hits h k) home_chain ≡ none → Removed h k none h
    unfolding view home_chain
    unchanged-Removed e = record {
      valid' = valid;
      result = search-view valid.shaped k ∙ ap ok e;
      reads = λ q. elim (Bool-cases (h.eqfn q k)) [
        | inl same ↦
            rw same (search-view valid.shaped q ∙ ap ok (view-equal h valid.shaped k q same ∙ e))
        | inr other ↦ rw other
      ];
      one_less = omega arith;
    }

    -- `ic_hashtable_remove` on a valid table is defined. It returns what a search for the key returns; afterwards
    -- the table is valid, reads nothing under the keys equal to it and the same as before under the others, and
    -- counts one entry less just if one was found.
    pub remove-Removed : Ends (remove h k) λ (r, h'). Removed h k r h'
    unfolding remove removed remaining home_chain
    remove-Removed = elim (Option-cases (find_entry (hits h k) home_chain)) [
      | inl e ↦ ((none, h), rw (chain-here valid.shaped k, e), unchanged-Removed e)
      | inr (v, e) ↦ ((some v, removed), rw (chain-here valid.shaped k, e), removed-Removed v e)
    ]

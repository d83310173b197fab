-- ===== src/HashTable/Expand.antt =====
-- Growing a table keeps its entries, and what every key reads.
use mathlib.Core.Option.{or_else}
use iclaustron.Base.{
  ℕ, suc, ◌+◌, ◌-◌, ◌<◌, ◌≡◌, ◌≢◌, refl, Bool, true, false, not, ◌||◌, Option, none, some, [],
  undefined, Ends, ◌==◌, if◌then◌else◌, get_elem?, get_or, replicate, length, length-replicate,
  arith, Bool-cases, inl, inr,
}
use iclaustron.HashTable.Lists.{count_hits, get_or-replicate}
use iclaustron.HashTable.Place.{
  IsTable, Placed-replicate, move_table-destroy, move_chain-IsTable, length-move_chain,
  count_hits-move_chain, find_entry-move_chain, Placed-find,
}
use iclaustron.HashTable.Valid.{
  IsShaped, view, home, hits-home, prime-pos, prime-next, destroy-replicate,
}
use iclaustron.HashTable.{
  Entry, HashTable, primes, prime_table_length, load_limit, index_for, hash_key, hits, find_entry,
  destroy, move_table, expand,
}

or_else-none : {A : Type 0} (o : Option A) → or_else o none ≡ o
unfolding or_else
or_else-none none = refl
or_else-none (some a) = refl

module _ {K V : Type 0} where
  -- `h'` has the entries of `h`, and reads the same.
  pub record Keeps (h h' : HashTable K V) : Type 0 where
    pub shaped : IsShaped h'
    pub reads : (q : K) → view h' q ≡ view h q
    pub entries : length (destroy h'.table) ≡ length (destroy h.table)
    pub same_count : h'.entrycount ≡ h.entrycount
    pub same_hashfn : h'.hashfn ≡ h.hashfn
    pub same_eqfn : h'.eqfn ≡ h.eqfn

  module _ (h : HashTable K V) (shaped : IsShaped h) (size : ℕ)
      (next : get_elem? primes (h.primeindex + 1) ≡ some size) where
    grown : HashTable K V
    grown = record h {
      tablelength = size;
      loadlimit = load_limit size;
      primeindex = h.primeindex + 1;
      table = move_table size h.table (replicate size []);
    }

    empty-IsTable : IsTable {K = K} {V = V} size (replicate size [])
    empty-IsTable = record {
      width = length-replicate size [];
      placed = Placed-replicate K V size 0 size;
    }

    pos : 0 < size
    pos = prime-pos (h.primeindex + 1) size next

    hits-index :
        (q : K) (n : ℕ) (e : Entry K V)
        → hits h q e ≡ true
        → index_for n e.h ≡ index_for n (hash_key h q)
    unfolding hits
    hits-index q n e = ground arith

    grown-Keeps : Keeps h grown
    unfolding grown view hits hash_key count_hits find_entry
    grown-Keeps = record {
      shaped = record {
        lawful = shaped.lawful;
        sized = next;
        loaded = refl;
        chains =
            rw (move_table-destroy size pos h.table (replicate size []))
              (move_chain-IsTable size pos (destroy h.table) _ empty-IsTable);
        unique = λ q. rw (move_table-destroy size pos h.table (replicate size [])) (
            rw
              (
                count_hits-move_chain size pos (hits h q) (destroy h.table) _ empty-IsTable,
                destroy-replicate K V size,
              )
              (omega (arith, shaped.unique q)));
      };
      reads = λ q. rw (move_table-destroy size pos h.table (replicate size [])) (
          rw
            (
              find_entry-move_chain size pos (hits h q) (index_for size (hash_key h q))
                  (λ e hit. hits-index q size e hit) (destroy h.table) _ empty-IsTable
                  (shaped.unique q),
              get_or-replicate,
              Placed-find h.tablelength (hits h q) (home h q) (hits-home h q) 0 (home h q) h.table
                  shaped.chains.placed (omega arith),
            )
            (or_else-none (find_entry (hits h q) (get_or h.table (home h q) []))));
      entries = rw (move_table-destroy size pos h.table (replicate size [])) (
          rw
            (
              length-move_chain size pos (destroy h.table) _ empty-IsTable,
              destroy-replicate K V size,
            )
            (omega arith));
      same_count = refl;
      same_hashfn = refl;
      same_eqfn = refl;
    }

  module _ (h : HashTable K V) (shaped : IsShaped h) where
    pub Keeps-self : Keeps h h
    Keeps-self = record {
      shaped = shaped;
      reads = λ q. refl;
      entries = refl;
      same_count = refl;
      same_hashfn = refl;
      same_eqfn = refl;
    }

    next_prime :
        (h.primeindex == prime_table_length - 1) ≡ false
        → (size : ℕ) × (get_elem? primes (h.primeindex + 1) ≡ some size) × (h.tablelength < size)
    next_prime small =
        let (size, found, above) =
          prime-next h.primeindex h.tablelength shaped.sized (ground arith) in
        let same : h.primeindex + 1 ≡ suc h.primeindex = omega arith in (size, rw same found, above)

    -- `ic_hashtable_expand` of a well-shaped table keeps the entries and what every key reads. It
    -- grows the table to the next prime, unless the last prime is in use or no memory is found; the case in
    -- which only the reallocation succeeds is left out.
    pub expand-Keeps :
        (malloc_table realloc_table : Bool)
        → (malloc_table || not realloc_table) ≡ true
        → Ends (expand h malloc_table realloc_table) λ (done, h').
          Keeps h h'
          × (if done
              then (h'.primeindex ≡ h.primeindex + 1) × (h.tablelength < h'.tablelength)
              else (h' ≡ h))
    unfolding expand grown
    expand-Keeps true realloc_table mem =
        elim (Bool-cases (h.primeindex == prime_table_length - 1)) [
          | inl last ↦ ((false, h), rw last, (Keeps-self, refl))
          | inr small ↦
              let (size, found, above) = next_prime small in
              (
                (true, grown h shaped size found),
                rw (small, found),
                (grown-Keeps h shaped size found, (refl, above)),
              )
        ]
    expand-Keeps false false mem = elim (Bool-cases (h.primeindex == prime_table_length - 1)) [
      | inl last ↦ ((false, h), rw last, (Keeps-self, refl))
      | inr small ↦
          let (size, found, above) = next_prime small in
          ((false, h), rw (small, found), (Keeps-self, refl))
    ]
    expand-Keeps false true mem = cc

    -- Where only the reallocation finds memory, `ic_hashtable_expand` is undefined, unless the
    -- last prime is in use.
    pub expand-undefined : h.primeindex ≢ prime_table_length - 1 → expand h false true ≡ undefined
    unfolding expand
    expand-undefined ne =
        let small : (h.primeindex == prime_table_length - 1) ≡ false = ground arith in
        rw (small, (next_prime small).1)

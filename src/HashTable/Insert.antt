-- ===== src/HashTable/Insert.antt =====
-- `ic_hashtable_insert` against the function from keys to values that the table stands for.
use iclaustron.Base.{
  ℕ, ◌+◌, ◌-◌, ◌%◌, ◌^◌, ◌<◌, ◌≤◌, ◌≡◌, refl, Bool, true, false, not, ◌||◌, none, some, List, [],
  ◌∷◌, ok, Ends, ltb, ◌==◌, if◌then◌else◌, length, arith, Bool-cases, inl, inr, ◌∙◌, sym, ap,
}
use iclaustron.HashTable.Lists.{count_hits}
use iclaustron.HashTable.Place.{count_hits-link, link-IsTable, length-link, get_or-link}
use iclaustron.HashTable.Valid.{
  IsShaped, IsValid, view, home, hits-home, chain-here, tablelength-pos, search-view,
}
use iclaustron.HashTable.Keys.{hits-new, absent-count}
use iclaustron.HashTable.Expand.{Keeps, expand-Keeps, Keeps-self}
use iclaustron.HashTable.{
  Entry, HashTable, mem_alloc_error, hash_key, hits, find_entry, destroy, link, expand, insert,
  insert_entry, search, count,
}

if_ok : {A : Type 0} (b : Bool) (x y : A) → ok (if b then x else y) ≡ (if b then ok x else ok y)
if_ok true x y = refl
if_ok false x y = refl

module _ {K V : Type 0} where
  view-recount :
      (g : HashTable K V) (n : ℕ) (q : K) → view (record g { entrycount = n }) q ≡ view g q
  unfolding view hits
  view-recount g n q = refl

  module _ (h : HashTable K V) (shaped : IsShaped h) (k : K) where
    -- The table `g` is `h` with the value `v` under `k`.
    record Adds (v : V) (g : HashTable K V) : Type 0 where
      shaped' : IsShaped g
      reads : (q : K) → view g q ≡ (if h.eqfn q k then some v else view h q)
      entries : length (destroy g.table) ≡ length (destroy h.table) + 1
      same_count : g.entrycount ≡ h.entrycount

    module _ (v : V) (absent : view h k ≡ none) where
      entry : Entry K V
      entry = record { k = k; v = v; h = hash_key h k }

      fewer :
          (q : K) → count_hits (hits h q) (destroy h.table) + count_hits (hits h q) (entry ∷ []) ≤ 1
      unfolding entry count_hits
      fewer q =
          ground (arith, hits-new h shaped k q v, absent-count h shaped k q absent, shaped.unique q)

      chain_reads :
          (q : K) (c : List (Entry K V))
          → find_entry (hits h q) (if home h q == home h k then entry ∷ c else c)
            ≡ (if h.eqfn q k then some v else find_entry (hits h q) c)
      unfolding entry find_entry
      chain_reads q c = ground (
        arith,
        hits-new h shaped k q v,
        hits-home h q (record { k = k; v = v; h = hash_key h k }),
      )

      added : HashTable K V
      added = record h { table = link h.table (home h k) entry }

      added-Adds : Adds v added
      unfolding added entry hits view
      added-Adds =
          let pos = tablelength-pos shaped in
          record {
            shaped' = record {
              lawful = shaped.lawful;
              sized = shaped.sized;
              loaded = shaped.loaded;
              chains = link-IsTable h.tablelength pos h.table entry shaped.chains;
              unique = λ q.
                  rw (count_hits-link h.tablelength pos (hits h q) h.table entry shaped.chains)
                    (fewer q);
            };
            reads = λ q.
                rw (get_or-link h.tablelength pos h.table entry (home h q) shaped.chains)
                  (chain_reads q _);
            entries = length-link h.tablelength pos h.table entry shaped.chains;
            same_count = refl;
          }

      insert_entry-Adds : Ends (insert_entry h k v) λ (r, g). (r ≡ 0) × Adds v g
      unfolding insert_entry added entry link
      insert_entry-Adds = ((0, added), rw (chain-here shaped k), (refl, added-Adds))

  -- `h'` is a valid table of one entry more, which reads `v` under the keys equal to `k`.
  pub record Inserted (h : HashTable K V) (k : K) (v : V) (h' : HashTable K V) : Type 0 where
    pub valid' : IsValid h'
    pub reads : (q : K) → search h' q ≡ (if h.eqfn q k then ok (some v) else search h q)
    pub one_more : count h' ≡ count h + 1

  -- `h'` is a valid table that reads and counts the same as `h`.
  pub record SameMap (h h' : HashTable K V) : Type 0 where
    pub valid' : IsValid h'
    pub reads : (q : K) → search h' q ≡ search h q
    pub same_count : count h' ≡ count h

  module _ (h : HashTable K V) (valid : IsValid h) (k : K) (v : V) (absent : view h k ≡ none)
      (room : h.entrycount + 1 < 2 ^ 32) (malloc_table realloc_table : Bool)
      (mem : (malloc_table || not realloc_table) ≡ true) where
    counted : HashTable K V
    counted = record h { entrycount = (h.entrycount + 1) % 2 ^ 32 }

    counted-IsShaped : IsShaped counted
    unfolding counted hits
    counted-IsShaped = record {
      lawful = valid.shaped.lawful;
      sized = valid.shaped.sized;
      loaded = valid.shaped.loaded;
      chains = valid.shaped.chains;
      unique = valid.shaped.unique;
    }

    grow-Keeps :
        Ends
          (if ltb counted.loadlimit counted.entrycount
            then expand counted malloc_table realloc_table
            else ok (false, counted))
          λ (_, g). Keeps counted g
    grow-Keeps = elim (Bool-cases (ltb counted.loadlimit counted.entrycount)) [
      | inl full ↦
          let (r, run, (kept, _)) =
            expand-Keeps counted counted-IsShaped malloc_table realloc_table mem in
          (r, rw full run, kept)
      | inr sparse ↦ ((false, counted), rw sparse, Keeps-self counted counted-IsShaped)
    ]

    counted-view : (q : K) → view counted q ≡ view h q
    unfolding counted view hits
    counted-view q = refl

    module _ (g : HashTable K V) (kept : Keeps counted g) where
      kept-view : (q : K) → view g q ≡ view h q
      kept-view q = kept.reads q ∙ counted-view q

      kept-eqfn : g.eqfn ≡ h.eqfn
      unfolding counted
      kept-eqfn = kept.same_eqfn

      kept-length : length (destroy g.table) ≡ h.entrycount
      unfolding counted
      kept-length = kept.entries ∙ valid.counted

      kept-entrycount : g.entrycount ≡ h.entrycount + 1
      unfolding counted
      kept-entrycount = kept.same_count ∙ omega arith

      kept-Inserted : (g' : HashTable K V) → Adds g kept.shaped k v g' → Inserted h k v g'
      unfolding count
      kept-Inserted g' adds = record {
        valid' = record {
          shaped = adds.shaped';
          counted = omega (arith, adds.entries, kept-length, adds.same_count, kept-entrycount);
          fits = omega (arith, adds.same_count, kept-entrycount);
        };
        reads = λ q.
            rw
              (
                search-view adds.shaped' q,
                search-view valid.shaped q,
                adds.reads q,
                kept-view q,
                kept-eqfn,
              )
              (if_ok (h.eqfn q k) (some v) (view h q));
        one_more = adds.same_count ∙ kept-entrycount;
      }

      kept-SameMap : SameMap h (record g { entrycount = (g.entrycount + 2 ^ 32 - 1) % 2 ^ 32 })
      unfolding count hits
      kept-SameMap =
          let shaped' : IsShaped (record g { entrycount = (g.entrycount + 2 ^ 32 - 1) % 2 ^ 32 }) =
            record {
              lawful = kept.shaped.lawful;
              sized = kept.shaped.sized;
              loaded = kept.shaped.loaded;
              chains = kept.shaped.chains;
              unique = kept.shaped.unique;
            } in
          record {
            valid' = record {
              shaped = shaped';
              counted = omega (arith, kept-length, kept-entrycount);
              fits = omega arith;
            };
            reads = λ q.
                search-view shaped' q
                ∙ ap ok (view-recount g _ q ∙ kept-view q)
                ∙ sym (search-view valid.shaped q);
            same_count = omega (arith, kept-entrycount, valid.fits);
          }

    -- `ic_hashtable_insert` of a key under which nothing stands, in a valid table with room for the count:
    -- with memory for the entry it returns 0, adds the value under the key and counts one entry more; with
    -- none it returns the error and the table reads and counts as before. Both hold whether or not the
    -- table is grown on the way, unless only the reallocation finds memory for that.
    pub insert_lem :
        (malloc_entry : Bool)
        → Ends (insert h k v malloc_table realloc_table malloc_entry) λ (r, h').
          if malloc_entry then (r ≡ 0) × Inserted h k v h' else (r ≡ mem_alloc_error) × SameMap h h'
    unfolding insert counted
    insert_lem true =
        let ((b, g), run, kept) = grow-Keeps in
        let (r, run', (zero', adds)) =
          insert_entry-Adds g kept.shaped k v (kept-view g kept k ∙ absent) in
        (r, rw run run', (zero', kept-Inserted g kept r.1 adds))
    insert_lem false =
        let ((b, g), run, kept) = grow-Keeps in
        ((mem_alloc_error, _), rw run refl, (refl, kept-SameMap g kept))

-- ===== src/HashTable/Iterator/Tests.antt =====
-- An iterator over a table of two chains of which the second has an entry.
use iclaustron.Base.{ℕ, ◌≡◌, ◌==◌, refl, true, [], ◌∷◌, ok}
use iclaustron.HashTable.{Entry, HashTable}
use iclaustron.HashTable.Iterator.{iterator, advance}

abbrev entry : Entry ℕ ℕ
entry = record { k = 3; v = 30; h = 1 }

abbrev table : HashTable ℕ ℕ
table = record {
  tablelength = 2;
  entrycount = 1;
  loadlimit = 2;
  primeindex = 0;
  table = [] ∷ (entry ∷ []) ∷ [];
  hashfn = λ k. 1;
  eqfn = λ k l. k == l;
}

-- The entry is found.
entry-found :
    advance (iterator table 9 true) ≡ ok (true, record { h = table; e = entry ∷ []; index = 1 })
unfolding advance iterator
entry-found = refl

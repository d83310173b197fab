-- ===== src/HashTable/Tests.antt =====
-- The hash table at keys of 64 bits.
use iclaustron.Base.{
  ℕ, ◌≡◌, refl, true, false, Option, none, some, [], ◌∷◌, Outcome, ok, ◌>>=◌, Ends, arith, ==_iff,
}
use iclaustron.HashTable.Hash.{mix, hash_uint64, keys_equal_uint64, keys_equal_str}
use iclaustron.HashTable.Valid.{IsLawful, IsValid, view, create_hashtable-IsValid}
use iclaustron.HashTable.Insert.{Inserted, insert_lem}
use iclaustron.HashTable.Remove.{Removed, remove-Removed}
use iclaustron.HashTable.{HashTable, create_hashtable, insert, search, remove, count}

uint64-IsLawful : IsLawful hash_uint64 keys_equal_uint64
unfolding keys_equal_uint64
uint64-IsLawful = record {
  equal_refl = ground arith;
  equal_symm = ground arith;
  equal_trans = ground arith;
  hash-equal = λ a b h. let same : a ≡ b = (==_iff a b).0 h in rw same;
}

abbrev empty : HashTable ℕ ℕ
empty = record {
  tablelength = 5;
  entrycount = 0;
  loadlimit = 4;
  primeindex = 0;
  table = [] ∷ [] ∷ [] ∷ [] ∷ [] ∷ [];
  hashfn = hash_uint64;
  eqfn = keys_equal_uint64;
}

empty-created : create_hashtable 3 hash_uint64 keys_equal_uint64 true true ≡ some empty
unfolding create_hashtable
empty-created = refl

empty-IsValid : IsValid empty
empty-IsValid =
    (create_hashtable-IsValid 3 hash_uint64 keys_equal_uint64 uint64-IsLawful true true empty
      empty-created).0

-- Six insertions grow the table once; the values are found and one is removed.
session : Outcome (Option ℕ × Option ℕ × Option ℕ × ℕ)
unfolding insert search remove count keys_equal_uint64
session = do
  (_, h) ← insert empty 1 10 true true true
  (_, h) ← insert h 2 20 true true true
  (_, h) ← insert h 6 60 true true true
  (_, h) ← insert h 7 70 true true true
  (_, h) ← insert h 11 110 true true true
  (_, h) ← insert h 12 120 true true true
  (old, h) ← remove h 6
  six ← search h 6
  eleven ← search h 11
  ok (old, six, eleven, count h)

session_ends : session ≡ ok (some 60, none, some 110, 5)
unfolding session mix hash_uint64
session_ends = refl

-- `strncmp` stops at a NUL, the hash does not: equal strings with different hashes.
embedded_nul : keys_equal_str (97 ∷ 0 ∷ 98 ∷ []) (97 ∷ 0 ∷ 99 ∷ []) ≡ true
unfolding keys_equal_str
embedded_nul = refl

insert_lem_example :
    Ends (insert empty 7 70 true false true) λ (r, h'). (r ≡ 0) × Inserted empty 7 70 h'
insert_lem_example =
    insert_lem empty empty-IsValid 7 70 (unfold view search mix hash_uint64 in refl) (omega arith)
      true false refl true

abbrev one_entry : HashTable ℕ ℕ
one_entry = insert_lem_example.0.1

remove-Removed_example : Ends (remove one_entry 7) λ (r, h'). Removed one_entry 7 r h'
remove-Removed_example = remove-Removed one_entry insert_lem_example.2.1.valid' 7

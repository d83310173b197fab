-- ===== src/HashTable/Iterator/Visit.antt =====
-- What the iterator visits, and where it leaves the table.
use iclaustron.Base.{
  ℕ, zero, suc, ◌+◌, ◌≤◌, ◌≡◌, ◌≢◌, refl, false, none, List, [], ◌∷◌, ok, aborted, undefined, ltb,
  ◌==◌, get_elem?, length, arith,
}
use iclaustron.HashTable.{Entry, HashTable}
use iclaustron.HashTable.Iterator.{first_chain, next_chain, first_call, advance}

module _ {K V : Type 0} where
  get_elem?-end :
      (table : List (List (Entry K V))) (i : ℕ) → length table ≤ i → get_elem? table i ≡ none
  get_elem?-end [] i beyond = refl
  get_elem?-end (c ∷ table) zero beyond = absurd (omega arith)
  get_elem?-end (c ∷ table) (suc i) beyond = get_elem?-end table i (omega arith)

  first_chain-none :
      (table : List (List (Entry K V))) (n i : ℕ) → n ≡ 0 → first_chain table n i ≡ ok none
  unfolding first_chain
  first_chain-none table zero i e = refl
  first_chain-none table (suc n) i e = absurd (omega arith)

  first_call-aborts :
      (h : HashTable K V)
      → h.entrycount ≢ 0
      → first_call (record { h = h; e = []; index = h.tablelength }) (ok none) ≡ aborted
  unfolding first_call
  first_call-aborts h some_entry =
      let full : (h.entrycount == 0) ≡ false = ground arith in rw full refl

  -- Behind the last element of the last chain the iterator reads a chain behind the end of the table.
  pub advance-overruns :
      (h : HashTable K V) (e : Entry K V) (index : ℕ)
      → length h.table ≡ h.tablelength
      → index + 1 ≡ h.tablelength
      → advance (record { h = h; e = e ∷ []; index = index }) ≡ undefined
  unfolding advance next_chain
  advance-overruns h e index sized last =
      let inside : ltb h.tablelength (index + 1) ≡ false = ground arith in
      rw inside (rw (get_elem?-end h.table (index + 1) (omega arith)) refl)

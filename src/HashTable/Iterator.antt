-- ===== src/HashTable/Iterator.antt =====
-- util/ic_hashtable_itr.c: the iterator. The current element is the rest of its chain, from the element on;
-- `none` is NULL. `index` is kept from before where `ic_hashtable_iterator` is not asked to start anew.
mod Visit
mod Tests
use iclaustron.Base.{
  ℕ, zero, suc, ◌+◌, ◌-◌, ◌<◌, ◌≤◌, ◌≡◌, ◌≢◌, refl, Bool, true, false, Option, none, some, List, [],
  ◌∷◌, ◌++◌, Outcome, ok, aborted, undefined, ◌>>◌, require, ltb, leb, ◌==◌, if◌then◌else◌,
  get_elem?, length, Ends, arith, ap, ◌∙◌, Bool-cases, inl, inr,
}
use iclaustron.HashTable.{Entry, HashTable}

pub record Iterator (K V : Type 0) : Type 0 where
  pub h : HashTable K V
  pub e : List (Entry K V)
  pub index : ℕ

module _ {K V : Type 0} where
  pub iterator : HashTable K V → (index : ℕ) → (from_start : Bool) → Iterator K V
  iterator h index from_start = record { h = h; e = []; index = if from_start then 0 else index }

  -- The loop of the first call, over the `n` chains from index `i` on.
  pub first_chain : List (List (Entry K V)) → (n i : ℕ) → Outcome (Option (ℕ × List (Entry K V)))
  first_chain table zero i = ok none
  first_chain table (suc n) i =
      let rest = first_chain table n (i + 1) in
      elim (get_elem? table i) [
        | none ↦ undefined
        | some [] ↦ rest
        | some (e ∷ chain) ↦ ok (some (i, e ∷ chain))
      ]

  -- The loop of the later calls, which reads a chain before it compares the index with the table's length.
  pub next_chain :
      List (List (Entry K V)) → (tablelength j : ℕ) → Outcome (Option (ℕ × List (Entry K V)))
  next_chain table tablelength j = elim (get_elem? table j) [
    | none ↦ undefined
    | some [] ↦ first_chain table (tablelength - (j + 1)) (j + 1)
    | some (e ∷ chain) ↦ ok (some (j, e ∷ chain))
  ]

  -- The end of the first call.
  pub first_call :
      Iterator K V → Outcome (Option (ℕ × List (Entry K V))) → Outcome (Bool × Iterator K V)
  first_call itr (ok none) = require (itr.h.entrycount == 0) >> ok (false, itr)
  first_call itr (ok (some (i, chain))) = ok (true, record itr { e = chain; index = i })
  first_call itr aborted = aborted
  first_call itr undefined = undefined

  -- `ic_hashtable_iterator_advance`: whether there is an element, and the iterator.
  pub advance : Iterator K V → Outcome (Bool × Iterator K V)
  unfolding first_chain next_chain first_call
  advance itr = elim itr.e [
    | [] ↦ first_call itr (first_chain itr.h.table (itr.h.tablelength - itr.index) itr.index)
    | e ∷ (f ∷ chain) ↦ ok (true, record itr { e = f ∷ chain })
    | e ∷ [] ↦
        if ltb itr.h.tablelength (itr.index + 1)
        then ok (false, record itr { e = []; index = itr.index + 1 })
        else elim (next_chain itr.h.table itr.h.tablelength (itr.index + 1)) [
          | ok none ↦ ok (false, record itr { e = []; index = itr.h.tablelength })
          | ok (some (j, chain)) ↦ ok (true, record itr { e = chain; index = j })
          | aborted ↦ aborted
          | undefined ↦ undefined
        ]
  ]

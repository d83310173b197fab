-- ===== src/HashTable.antt =====
-- util/ic_hashtable.c and include/ic_hashtable_private.h: a chained hash table whose sizes are taken
-- from a table of primes. A table holds its two functions, as in the source. A chain is the list
-- of its entries, and NULL is `none`. Memory (`ic_malloc_hash`, `ic_realloc`) is given by whether each
-- call succeeds.
pub mod Hash
mod Lists
mod Place
mod Valid
mod Expand
mod Keys
mod Insert
mod Remove
mod Iterator
mod Tests
use iclaustron.Base.{
  ℕ, zero, suc, ◌+◌, ◌-◌, ◌*◌, ◌/◌, ◌%◌, ◌^◌, Bool, true, false, ◌&&◌, Option, none, some, List, [],
  ◌∷◌, ◌++◌, Outcome, ok, undefined, ◌>>=◌, defined, ltb, ◌==◌, if◌then◌else◌, get_elem?, get_or,
  set, replicate,
}
use iclaustron.HashTable.Hash.{mix}

pub record Entry (K V : Type 0) : Type 0 where
  pub k : K
  pub v : V
  pub h : ℕ

pub record HashTable (K V : Type 0) : Type 0 where
  pub tablelength : ℕ
  pub entrycount : ℕ
  pub loadlimit : ℕ
  pub primeindex : ℕ
  pub table : List (List (Entry K V))
  pub hashfn : K → ℕ
  pub eqfn : K → K → Bool

abbrev pub mem_alloc_error : ℕ
mem_alloc_error = 7005

pub primes : List ℕ
primes =
    5 ∷ 11 ∷ 23 ∷ 51 ∷ 97 ∷ 193 ∷ 389 ∷ 769 ∷ 1543 ∷ 3079 ∷ 6151 ∷ 12289 ∷ 24593 ∷ 49157 ∷ 98317
    ∷ 196613 ∷ 393241 ∷ 786433 ∷ 1572869 ∷ 3145739 ∷ 6291469 ∷ 12582917 ∷ 25165843 ∷ 50331653
    ∷ 100663319 ∷ 201326611 ∷ 402653189 ∷ 805306457 ∷ 1610612741 ∷ []

abbrev pub prime_table_length : ℕ
prime_table_length = 29

-- `(unsigned int) ceil(size * max_load_factor)` with the factor 0.65, exact at each of the primes.
pub load_limit : ℕ → ℕ
load_limit size = (65 * size + 99) / 100

-- `indexFor`
pub index_for : (tablelength hashvalue : ℕ) → ℕ
index_for tablelength hashvalue = hashvalue % tablelength

-- The first prime above `minsize` with its index, or the first prime and the table's length.
pub select_prime : List ℕ → (pindex minsize : ℕ) → ℕ × ℕ
select_prime [] pindex minsize = (5, pindex)
select_prime (p ∷ ps) pindex minsize =
    if ltb minsize p then (p, pindex) else select_prime ps (pindex + 1) minsize

module _ {K V : Type 0} where
  -- `ic_create_hashtable`, with the outcomes of its two allocations.
  pub create_hashtable :
      (minsize : ℕ)
      → (K → ℕ)
      → (K → K → Bool)
      → (malloc_header malloc_table : Bool) → Option (HashTable K V)
  unfolding select_prime primes load_limit
  create_hashtable minsize hashf eqf malloc_header malloc_table =
      let (size, pindex) = select_prime primes 0 minsize in
      if ltb (2 ^ 30) minsize
      then none
      else if malloc_header && malloc_table
      then some (record {
        tablelength = size;
        entrycount = 0;
        loadlimit = load_limit size;
        primeindex = pindex;
        table = replicate size [];
        hashfn = hashf;
        eqfn = eqf;
      })
      else none

  -- `hash(h, k)`
  pub hash_key : HashTable K V → K → ℕ
  hash_key h k = mix (h.hashfn k)

  -- `e->next = table[index]; table[index] = e`
  pub link : List (List (Entry K V)) → ℕ → Entry K V → List (List (Entry K V))
  link table index e = set table index (e ∷ get_or table index [])

  -- The two loops of `ic_hashtable_expand` that move each entry to the new table.
  pub move_chain : ℕ → List (Entry K V) → List (List (Entry K V)) → List (List (Entry K V))
  unfolding link index_for
  move_chain newsize [] newtable = newtable
  move_chain newsize (e ∷ chain) newtable =
      move_chain newsize chain (link newtable (index_for newsize e.h) e)

  pub move_table : ℕ → (table newtable : List (List (Entry K V))) → List (List (Entry K V))
  unfolding move_chain
  move_table newsize [] newtable = newtable
  move_table newsize (chain ∷ table) newtable =
      move_table newsize table (move_chain newsize chain newtable)

  -- `ic_hashtable_expand`: the result is false where the source returns 0. Where the new table
  -- cannot be allocated and the reallocation succeeds, the source clears memory through the
  -- entry `newtable[h->tablelength]`, which nothing has initialised.
  pub expand : HashTable K V → (malloc_table realloc_table : Bool) → Outcome (Bool × HashTable K V)
  unfolding move_table load_limit primes
  expand h malloc_table realloc_table =
      if h.primeindex == prime_table_length - 1 then ok (false, h) else do
        newsize ← defined (get_elem? primes (h.primeindex + 1))
        if malloc_table
            then ok (
              true,
              record h {
                tablelength = newsize;
                loadlimit = load_limit newsize;
                primeindex = h.primeindex + 1;
                table = move_table newsize h.table (replicate newsize []);
              },
            )
            else if realloc_table
            then undefined
            else ok (false, h)

  -- `ic_hashtable_count`
  pub count : HashTable K V → ℕ
  count h = h.entrycount

  -- The end of `ic_hashtable_insert`, behind the allocation of the entry.
  insert_entry : HashTable K V → K → V → Outcome (ℕ × HashTable K V)
  unfolding link index_for hash_key
  insert_entry h k v = do
    let index = index_for h.tablelength (hash_key h k)
    chain ← defined (get_elem? h.table index)
    ok (
      0,
      record h { table = set h.table index (record { k = k; v = v; h = hash_key h k } ∷ chain) },
    )

  -- `ic_hashtable_insert`: the return value and the table. `entrycount` is an unsigned int.
  pub insert :
      HashTable K V
      → K
      → V
      → (malloc_table realloc_table malloc_entry : Bool) → Outcome (ℕ × HashTable K V)
  unfolding expand insert_entry
  insert h k v malloc_table realloc_table malloc_entry = do
    let counted = record h { entrycount = (h.entrycount + 1) % 2 ^ 32 }
    (_, grown) ←
        if ltb counted.loadlimit counted.entrycount
        then expand counted malloc_table realloc_table
        else ok (false, counted)
    if malloc_entry
        then insert_entry grown k v
        else ok (
          mem_alloc_error,
          record grown { entrycount = (grown.entrycount + 2 ^ 32 - 1) % 2 ^ 32 },
        )

  -- The comparison of the two search loops: hash values first.
  pub hits : HashTable K V → K → Entry K V → Bool
  unfolding hash_key
  hits h k e = (hash_key h k == e.h) && h.eqfn k e.k

  -- The loops over a chain: the first entry that is hit, and the chain without it.
  pub find_entry : (Entry K V → Bool) → List (Entry K V) → Option V
  find_entry hit [] = none
  find_entry hit (e ∷ chain) = if hit e then some e.v else find_entry hit chain

  pub unlink_entry : (Entry K V → Bool) → List (Entry K V) → List (Entry K V)
  unlink_entry hit [] = []
  unlink_entry hit (e ∷ chain) = if hit e then chain else e ∷ unlink_entry hit chain

  -- `ic_hashtable_search`
  pub search : HashTable K V → K → Outcome (Option V)
  unfolding index_for hits find_entry
  search h k = do
    chain ← defined (get_elem? h.table (index_for h.tablelength (hash_key h k)))
    ok (find_entry (hits h k) chain)

  -- `ic_hashtable_remove`: the value that is returned, and the table.
  pub remove : HashTable K V → K → Outcome (Option V × HashTable K V)
  unfolding index_for hits find_entry unlink_entry
  remove h k = do
    let index = index_for h.tablelength (hash_key h k)
    chain ← defined (get_elem? h.table index)
    ok (elim (find_entry (hits h k) chain) [
      | none ↦ (none, h)
      | some v ↦ (
        some v,
        record h {
          entrycount = (h.entrycount + 2 ^ 32 - 1) % 2 ^ 32;
          table = set h.table index (unlink_entry (hits h k) chain);
        },
      )
    ])

  -- The entries that `ic_hashtable_destroy` frees, in its order.
  pub destroy : List (List (Entry K V)) → List (Entry K V)
  destroy [] = []
  destroy (chain ∷ table) = chain ++ destroy table

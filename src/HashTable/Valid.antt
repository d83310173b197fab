-- ===== src/HashTable/Valid.antt =====
-- The invariant of a hash table, and the function from keys to values that it stands for.
use iclaustron.Base.{
  ℕ, zero, suc, ◌+◌, ◌-◌, ◌^◌, ◌<◌, ◌≤◌, ◌≡◌, ◌≢◌, refl, Bool, true, false, Option, none, some,
  List, [], ◌∷◌, ok, ltb, if◌then◌else◌, get_elem?, get_or, replicate, length, length-replicate,
  arith, Bool-cases, inl, inr, lt→ltb, ap, ◌∙◌,
}
use iclaustron.HashTable.Lists.{count_hits, get_elem?-get_or, get_or-replicate}
use iclaustron.HashTable.Place.{index_for-lt, IsTable, Placed-replicate}
use iclaustron.HashTable.{
  Entry, HashTable, primes, prime_table_length, load_limit, index_for, select_prime,
  create_hashtable, hash_key, hits, find_entry, search, destroy, count,
}

-- What the two functions of a table have to satisfy: equal keys have equal hash values.
pub record IsLawful {K : Type 0} (hashfn : K → ℕ) (eqfn : K → K → Bool) : Type 0 where
  pub equal_refl : (a : K) → eqfn a a ≡ true
  pub equal_symm : (a b : K) → eqfn a b ≡ true → eqfn b a ≡ true
  pub equal_trans : (a b c : K) → eqfn a b ≡ true → eqfn b c ≡ true → eqfn a c ≡ true
  pub hash-equal : (a b : K) → eqfn a b ≡ true → hashfn a ≡ hashfn b

abbrev AllPos : List ℕ → Type 0
AllPos [] = Unit
AllPos (p ∷ ps) = (0 < p) × AllPos ps

AllPos-get_elem? : (ps : List ℕ) (i p : ℕ) → AllPos ps → get_elem? ps i ≡ some p → 0 < p
AllPos-get_elem? [] i p a e = cc
AllPos-get_elem? (x ∷ ps) zero p a e = let same : x ≡ p = cc in omega arith
AllPos-get_elem? (x ∷ ps) (suc i) p a e = AllPos-get_elem? ps i p a.1 e

primes-AllPos : AllPos primes
unfolding primes
primes-AllPos = omega arith

pub prime-pos : (i p : ℕ) → get_elem? primes i ≡ some p → 0 < p
prime-pos i p e = AllPos-get_elem? primes i p primes-AllPos e

abbrev Ascending : List ℕ → Type 0
Ascending [] = Unit
Ascending (x ∷ []) = Unit
Ascending (x ∷ y ∷ ps) = (x < y) × Ascending (y ∷ ps)

Ascending-next :
    (ps : List ℕ) (i p : ℕ)
    → Ascending ps
    → get_elem? ps i ≡ some p
    → suc i ≢ length ps
    → (q : ℕ) × (get_elem? ps (suc i) ≡ some q) × (p < q)
Ascending-next [] i p a e ne = cc
Ascending-next (x ∷ []) zero p a e ne = absurd (ne refl)
Ascending-next (x ∷ []) (suc i) p a e ne = cc
Ascending-next (x ∷ y ∷ ps) zero p a e ne = let same : x ≡ p = cc in (y, refl, rw (← same) a.0)
Ascending-next (x ∷ y ∷ ps) (suc i) p a e ne = Ascending-next (y ∷ ps) i p a.1 e (omega arith)

-- Behind every prime but the last one stands a larger one.
pub prime-next :
    (i p : ℕ)
    → get_elem? primes i ≡ some p
    → i ≢ prime_table_length - 1
    → (q : ℕ) × (get_elem? primes (suc i) ≡ some q) × (p < q)
prime-next i p e ne =
    Ascending-next primes i p (unfold primes in omega arith) e (unfold primes in omega arith)

module _ {K V : Type 0} where
  -- All of the invariant but the count: the size is a prime of the table of primes, the limit
  -- belongs to it, each entry stands in the chain of its hash value, and no key stands twice.
  pub record IsShaped (h : HashTable K V) : Type 0 where
    pub lawful : IsLawful h.hashfn h.eqfn
    pub sized : get_elem? primes h.primeindex ≡ some h.tablelength
    pub loaded : h.loadlimit ≡ load_limit h.tablelength
    pub chains : IsTable h.tablelength h.table
    pub unique : (q : K) → count_hits (hits h q) (destroy h.table) ≤ 1

  pub record IsValid (h : HashTable K V) : Type 0 where
    pub shaped : IsShaped h
    pub counted : length (destroy h.table) ≡ h.entrycount
    pub fits : h.entrycount < 2 ^ 32

  -- The number of the chain for a key, and the value that stands under the key.
  abbrev pub home : HashTable K V → K → ℕ
  home h q = index_for h.tablelength (hash_key h q)

  unfoldable pub view : HashTable K V → K → Option V
  view h q = find_entry (hits h q) (get_or h.table (home h q) [])

  pub hits-home :
      (h : HashTable K V) (q : K) (e : Entry K V)
      → hits h q e ≡ true
      → index_for h.tablelength e.h ≡ home h q
  unfolding hits
  hits-home h q e = ground arith

  module _ {h : HashTable K V} (shaped : IsShaped h) where
    pub tablelength-pos : 0 < h.tablelength
    tablelength-pos = prime-pos h.primeindex h.tablelength shaped.sized

    pub chain-here : (q : K) → get_elem? h.table (home h q) ≡ some (get_or h.table (home h q) [])
    chain-here q = get_elem?-get_or h.table (home h q) [] (
        omega
          (arith, index_for-lt h.tablelength tablelength-pos (hash_key h q), shaped.chains.width))

    -- `ic_hashtable_search` on a valid table is defined and returns the value under the key.
    pub search-view : (q : K) → search h q ≡ ok (view h q)
    unfolding search view
    search-view q = rw (chain-here q)

-- The choice of a size in `ic_create_hashtable`: where some prime is above `m`, the choice is a prime
-- above `m`, with its index.
select_prime_lem :
    (ps : List ℕ) (i m k p : ℕ)
    → get_elem? ps k ≡ some p
    → m < p
    → (get_elem? ps ((select_prime ps i m).1 - i) ≡ some (select_prime ps i m).0)
      × (i ≤ (select_prime ps i m).1)
      × (m < (select_prime ps i m).0)
unfolding select_prime
select_prime_lem [] i m k p e h = cc
select_prime_lem (x ∷ ps) i m zero p e h =
    let same : x ≡ p = cc in
    let first : i - i ≡ 0 = omega arith in
    rw (lt→ltb m x (rw same h)) (rw first refl, omega arith, rw same h)
select_prime_lem (x ∷ ps) i m (suc k) p e h =
    let (found, le, above) = select_prime_lem ps (i + 1) m k p e h in
    elim (Bool-cases (ltb m x)) [
      | inl here ↦
          let first : i - i ≡ 0 = omega arith in rw here (rw first refl, omega arith, ground arith)
      | inr below ↦
          let later : (select_prime ps (i + 1) m).1 - i
              ≡ suc ((select_prime ps (i + 1) m).1 - (i + 1)) =
            omega arith in
          rw below (rw later found, omega arith, above)
    ]

chosen : ℕ → ℕ × ℕ
chosen minsize = select_prime primes 0 minsize

chosen_lem :
    (minsize : ℕ)
    → minsize ≤ 2 ^ 30
    → (get_elem? primes (chosen minsize).1 ≡ some (chosen minsize).0)
      × (minsize < (chosen minsize).0)
unfolding chosen
chosen_lem minsize h =
    let (found, le, above) =
      select_prime_lem primes 0 minsize 28 1610612741 (unfold primes in refl) (omega arith) in
    let whole : (select_prime primes 0 minsize).1 - 0 ≡ (select_prime primes 0 minsize).1 =
      omega arith in
    (rw whole at found, above)

pub destroy-replicate : (A B : Type 0) (n : ℕ) → destroy {K = A} {V = B} (replicate n []) ≡ []
unfolding destroy
destroy-replicate A B zero = refl
destroy-replicate A B (suc n) = destroy-replicate A B n

module _ {K V : Type 0} where
  built : ℕ → (K → ℕ) → (K → K → Bool) → HashTable K V
  unfolding chosen
  built minsize hashf eqf = record {
    tablelength = (chosen minsize).0;
    entrycount = 0;
    loadlimit = load_limit (chosen minsize).0;
    primeindex = (chosen minsize).1;
    table = replicate (chosen minsize).0 [];
    hashfn = hashf;
    eqfn = eqf;
  }

  built-IsValid :
      (minsize : ℕ) (hashf : K → ℕ) (eqf : K → K → Bool)
      → IsLawful hashf eqf
      → minsize ≤ 2 ^ 30
      → IsValid (built minsize hashf eqf)
  unfolding built count_hits
  built-IsValid minsize hashf eqf lawful within =
      let size = (chosen minsize).0 in
      record {
        shaped = record {
          lawful = lawful;
          sized = (chosen_lem minsize within).0;
          loaded = refl;
          chains = record {
            width = length-replicate size [];
            placed = Placed-replicate K V size 0 size;
          };
          unique = λ q. rw (destroy-replicate K V size) (omega arith);
        };
        counted = rw (destroy-replicate K V size) refl;
        fits = omega arith;
      }

  create-built :
      (minsize : ℕ) (hashf : K → ℕ) (eqf : K → K → Bool)
      → create_hashtable {V = V} minsize hashf eqf true true
        ≡ (if ltb (2 ^ 30) minsize then none else some (built minsize hashf eqf))
  unfolding create_hashtable built chosen
  create-built minsize hashf eqf = refl

  built-reads :
      (minsize : ℕ) (hashf : K → ℕ) (eqf : K → K → Bool)
      → IsLawful hashf eqf
      → minsize ≤ 2 ^ 30
      → (q : K) → search (built minsize hashf eqf) q ≡ ok none
  unfolding view built
  built-reads minsize hashf eqf lawful within q =
      search-view (built-IsValid minsize hashf eqf lawful within).shaped q
      ∙ ap ok (rw get_or-replicate (unfold find_entry in refl))

  -- Where `ic_create_hashtable` returns a table, the size asked for is at most 2^30 and both
  -- allocations have succeeded; the table is valid, has more than `minsize` chains and no entry, and a search
  -- finds nothing under any key.
  pub create_hashtable-IsValid :
      (minsize : ℕ) (hashf : K → ℕ) (eqf : K → K → Bool)
      → IsLawful hashf eqf
      → (malloc_header malloc_table : Bool) (h : HashTable K V)
      → create_hashtable minsize hashf eqf malloc_header malloc_table ≡ some h
      → IsValid h
        × ((q : K) → search h q ≡ ok none)
        × (count h ≡ 0)
        × (minsize < h.tablelength)
        × (minsize ≤ 2 ^ 30)
        × (malloc_header ≡ true)
        × (malloc_table ≡ true)
  unfolding count built
  create_hashtable-IsValid minsize hashf eqf lawful true true h e =
      elim (Bool-cases (ltb (2 ^ 30) minsize)) [
        | inl large ↦ absurd (cc (e, create-built minsize hashf eqf, large))
        | inr small ↦
            let within : minsize ≤ 2 ^ 30 = ground arith in
            let found : create_hashtable {V = V} minsize hashf eqf true true
                ≡ some (built minsize hashf eqf) =
              rw (create-built, small) in
            let same : built minsize hashf eqf ≡ h = cc in
            rw (← same) (
              built-IsValid minsize hashf eqf lawful within,
              built-reads minsize hashf eqf lawful within,
              refl,
              (chosen_lem minsize within).1,
              within,
              refl,
              refl,
            )
      ]
  create_hashtable-IsValid minsize hashf eqf lawful true false h e =
      absurd (unfold create_hashtable in ground arith)
  create_hashtable-IsValid minsize hashf eqf lawful false _ h e =
      absurd (unfold create_hashtable in ground arith)

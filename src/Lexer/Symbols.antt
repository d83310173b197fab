-- ===== src/Lexer/Symbols.antt =====
-- The symbols are found under the hash function that was chosen for them.
use iclaustron.Base.{
  ℕ, zero, suc, ◌+◌, ◌%◌, ◌^◌, ◌<◌, ◌≤◌, ◌≡◌, ◌⊎◌, refl, Bool, true, false, ◌||◌, List, [], ◌∷◌,
  leb, ◌==◌, if◌then◌else◌, ok, length, arith, sym, ap, ◌∙◌, Bool-cases, inl, inr,
}
use iclaustron.Lexer.{
  lex_hash, Symbol, Placed, place_one, place, HashFunction, find_loop, find_hash_function, to_upper,
  found_identifier,
}

-- The texts of symbols are in upper case and fit into the buffer; an id has 16 bits and is not 0.
abbrev pub AllSymbols : (islower : ℕ → Bool) → List Symbol → Type 0
AllSymbols islower [] = Unit
AllSymbols islower (symbol ∷ symbols) =
    (0 < symbol.symbol_id)
    × (symbol.symbol_id < 2 ^ 16)
    × (length symbol.symbol_str ≤ 1024)
    × (to_upper islower symbol.symbol_str ≡ symbol.symbol_str)
    × AllSymbols islower symbols

abbrev AllPlaced : (multiplier divider : ℕ) → (ℕ → ℕ) → List Symbol → Type 0
AllPlaced multiplier divider slots [] = Unit
AllPlaced multiplier divider slots (symbol ∷ symbols) =
    (slots (lex_hash multiplier divider symbol.symbol_str) ≡ symbol.symbol_id)
    × AllPlaced multiplier divider slots symbols

-- Each symbol is recognised as itself.
abbrev pub AllFound : (islower : ℕ → Bool) → HashFunction → List Symbol → Type 0
AllFound islower f [] = Unit
AllFound islower f (symbol ∷ symbols) =
    (found_identifier islower f symbol.symbol_str ≡ ok symbol.symbol_id)
    × AllFound islower f symbols

abbrev filled : Placed → (slot id : ℕ) → Placed
filled r slot id = record r { symbol_map = λ i. if i == slot then id % 2 ^ 16 else r.symbol_map i }

used_apart :
    (slots : ℕ → ℕ) (i slot : ℕ)
    → (slots i == 0) ≡ false
    → (slots slot == 0) ≡ true
    → (i == slot) ≡ false
used_apart slots i slot used empty = elim (Bool-cases (i == slot)) [
  | inr other ↦ other
  | inl same ↦
      let e : i ≡ slot = ground arith in
      absurd (let no : true ≡ false = sym empty ∙ (ap (λ n. slots n == 0) (sym e) ∙ used) in cc)
]

module _ (multiplier divider : ℕ) where
  one-failed :
      (r : Placed) (symbol : Symbol)
      → r.failed ≡ true
      → (place_one multiplier divider r symbol).failed ≡ true
  unfolding place_one
  one-failed r symbol e =
      elim (Bool-cases (r.symbol_map (lex_hash multiplier divider symbol.symbol_str) == 0)) [
        | inl empty ↦ rw empty e
        | inr taken ↦ rw taken refl
      ]

  -- A failure stays.
  place-failed :
      (r : Placed) (symbols : List Symbol)
      → r.failed ≡ true
      → (place multiplier divider r symbols).failed ≡ true
  unfolding place
  place-failed r [] e = e
  place-failed r (symbol ∷ symbols) e =
      place-failed (place_one multiplier divider r symbol) symbols (one-failed r symbol e)

  one-slot :
      (r : Placed) (symbol : Symbol) (i : ℕ)
      → (r.symbol_map i == 0) ≡ false
      → (place_one multiplier divider r symbol).symbol_map i ≡ r.symbol_map i
  unfolding place_one
  one-slot r symbol i used =
      let slot = lex_hash multiplier divider symbol.symbol_str in
      elim (Bool-cases (r.symbol_map slot == 0)) [
        | inl empty ↦
            (let apart = used_apart r.symbol_map i slot used empty in rw empty (rw apart refl))
        | inr taken ↦ rw taken refl
      ]

  -- So does a slot in use.
  place-slot :
      (r : Placed) (symbols : List Symbol) (i : ℕ)
      → (r.symbol_map i == 0) ≡ false
      → (place multiplier divider r symbols).symbol_map i ≡ r.symbol_map i
  unfolding place
  place-slot r [] i used = refl
  place-slot r (symbol ∷ symbols) i used =
      place-slot (place_one multiplier divider r symbol) symbols i
        (ap (λ n. n == 0) (one-slot r symbol i used) ∙ used)
      ∙ one-slot r symbol i used

  one-own :
      (r : Placed) (symbol : Symbol)
      → symbol.symbol_id < 2 ^ 16
      → ((place_one multiplier divider r symbol).failed ≡ true)
        ⊎ ((place_one multiplier divider r symbol).symbol_map
              (lex_hash multiplier divider symbol.symbol_str)
            ≡ symbol.symbol_id)
  unfolding place_one
  one-own r symbol small =
      let slot = lex_hash multiplier divider symbol.symbol_str in
      let here : (slot == slot) ≡ true = ground arith in
      let same : symbol.symbol_id % 2 ^ 16 ≡ symbol.symbol_id = omega arith in
      elim (Bool-cases (r.symbol_map slot == 0)) [
        | inl empty ↦ inr (rw empty (rw here same))
        | inr taken ↦ inl (rw taken refl)
      ]

  place-AllPlaced :
      (islower : ℕ → Bool) (r : Placed) (symbols : List Symbol)
      → AllSymbols islower symbols
      → (place multiplier divider r symbols).failed ≡ false
      → AllPlaced multiplier divider (place multiplier divider r symbols).symbol_map symbols
  unfolding place
  place-AllPlaced islower r [] all went = tt
  place-AllPlaced islower r (symbol ∷ symbols) all went =
      let slot = lex_hash multiplier divider symbol.symbol_str in
      let next = place_one multiplier divider r symbol in
      elim (one-own r symbol all.1) [
        | inl failed ↦
            absurd (let no : true ≡ false = sym (place-failed next symbols failed) ∙ went in cc)
        | inr own ↦
            let used : (next.symbol_map slot == 0) ≡ false = ground (arith, own, all.0) in
            (
              place-slot next symbols slot used ∙ own,
              place-AllPlaced islower next symbols all.4 went,
            )
      ]

AllPlaced-AllFound :
    (islower : ℕ → Bool) (f : HashFunction) (symbols : List Symbol)
    → AllSymbols islower symbols
    → AllPlaced f.hash_multiplier f.hash_divider f.placed.symbol_map symbols
    → AllFound islower f symbols
unfolding found_identifier
AllPlaced-AllFound islower f [] all placed = tt
AllPlaced-AllFound islower f (symbol ∷ symbols) all placed =
    let fits : leb (length symbol.symbol_str) 1024 ≡ true = ground (arith, all.2) in
    (
      rw fits (
          ap
            (λ (str : List ℕ).
              ok (f.placed.symbol_map (lex_hash f.hash_multiplier f.hash_divider str)))
            all.3
          ∙ ap ok placed.0),
      AllPlaced-AllFound islower f symbols all.4 placed.1,
    )

either_AllFound :
    (islower : ℕ → Bool) (symbols : List Symbol) (b : Bool) (x y : HashFunction)
    → (b ≡ true → x.placed.failed ≡ false → AllFound islower x symbols)
    → (b ≡ false → AllFound islower y symbols)
    → (elim b as (λ c. HashFunction) [ true ↦ x | false ↦ y ]).placed.failed ≡ false
    → AllFound islower (elim b as (λ c. HashFunction) [ true ↦ x | false ↦ y ]) symbols
either_AllFound islower symbols true x y again done went = again refl went
either_AllFound islower symbols false x y again done went = done refl

find_loop-AllFound :
    (islower : ℕ → Bool) (tries count multiplier divider : ℕ) (r : Placed) (symbols : List Symbol)
    → AllSymbols islower symbols
    → r.failed ≡ true
    → (find_loop tries count multiplier divider r symbols).placed.failed ≡ false
    → AllFound islower (find_loop tries count multiplier divider r symbols) symbols
unfolding find_loop
find_loop-AllFound islower zero count multiplier divider r symbols all failed went =
    absurd (let no : true ≡ false = sym failed ∙ went in cc)
find_loop-AllFound islower (suc tries) count multiplier divider r symbols all failed went =
    let m = if (suc count % 3 == 0) || (suc count % 3 == 2) then multiplier + 2 else multiplier in
    let d = if suc count % 3 == 1 then divider + 2 else divider in
    let found = place m d (record { symbol_map = λ i. 0; failed = false }) symbols in
    either_AllFound islower symbols found.failed (find_loop tries (suc count) m d found symbols)
      (record { placed = found; hash_multiplier = m; hash_divider = d })
      (λ again later.
        find_loop-AllFound islower tries (suc count) m d found symbols all again later)
      (λ done.
        AllPlaced-AllFound islower
          (record { placed = found; hash_multiplier = m; hash_divider = d }) symbols all
          (place-AllPlaced m d islower (record { symbol_map = λ i. 0; failed = false }) symbols all
            done))
      went

-- Where `ic_find_hash_function` returns FALSE, `ic_found_identifier` recognises each of the symbols as itself. The symbols
-- are in upper case and have 1024 characters at most, and their ids are not 0 and below 2^16.
pub find_hash_function-AllFound :
    (islower : ℕ → Bool) (before : ℕ → ℕ) (symbols : List Symbol)
    → AllSymbols islower symbols
    → (find_hash_function before symbols).placed.failed ≡ false
    → AllFound islower (find_hash_function before symbols) symbols
unfolding find_hash_function
find_hash_function-AllFound islower before symbols all went =
    find_loop-AllFound islower 10000 0 1024 64 (record { symbol_map = before; failed = true })
      symbols all refl went

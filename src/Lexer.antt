-- ===== src/Lexer.antt =====
-- util/ic_lex_support.c: the hash table of the symbols of a language. A text is the list of its characters; the symbols are
-- a list with their ids; `symbol_map` is a function.
mod Symbols
mod Tests
use iclaustron.Base.{
  ℕ, zero, suc, ◌+◌, ◌-◌, ◌*◌, ◌/◌, ◌%◌, ◌^◌, Bool, true, false, ◌||◌, List, [], ◌∷◌, ltb, ◌==◌,
  if◌then◌else◌, bit_xor, Outcome, ok, undefined, length, leb,
}

abbrev pub size_map_symbol : ℕ
size_map_symbol = 4096

-- `(guint32)c` of a signed character.
abbrev pub extended : ℕ → ℕ
extended c = if ltb c 128 then c else (c + 2 ^ 32) - 256

-- The loop of `lex_hash`.
pub hash_loop : (multiplier divider : ℕ) → (hash_val : ℕ) → List ℕ → ℕ
hash_loop multiplier divider hash_val [] = hash_val
hash_loop multiplier divider hash_val (c ∷ cs) =
    let added = (hash_val + extended c) % 2 ^ 32 in
    let spread = (added + added * multiplier) % 2 ^ 32 in
    hash_loop multiplier divider (bit_xor spread (spread / divider)) cs

-- `lex_hash`
pub lex_hash : (multiplier divider : ℕ) → List ℕ → ℕ
unfolding hash_loop
lex_hash multiplier divider str =
    let looped = hash_loop multiplier divider 0 str in
    let spread = (looped + looped * 8) % 2 ^ 32 in
    let mixed = bit_xor spread (spread / 2048) in ((mixed + mixed * 32) % 2 ^ 32) % size_map_symbol

-- A symbol with its id.
pub record Symbol : Type 0 where
  pub symbol_str : List ℕ
  pub symbol_id : ℕ

pub record Placed : Type 0 where
  pub symbol_map : ℕ → ℕ
  pub failed : Bool

-- One round of the loop of `ic_find_hash_function` over the symbols.
pub place_one : (multiplier divider : ℕ) → Placed → Symbol → Placed
place_one multiplier divider r symbol =
    let id = lex_hash multiplier divider symbol.symbol_str in
    if r.symbol_map id == 0
    then record r {
      symbol_map = λ i. if i == id then symbol.symbol_id % 2 ^ 16 else r.symbol_map i;
    }
    else record r { failed = true }

pub place : (multiplier divider : ℕ) → Placed → List Symbol → Placed
place multiplier divider r [] = r
place multiplier divider r (symbol ∷ symbols) =
    place multiplier divider (place_one multiplier divider r symbol) symbols

pub record HashFunction : Type 0 where
  pub placed : Placed
  pub hash_multiplier : ℕ
  pub hash_divider : ℕ

-- The loop of `ic_find_hash_function` over the tries, with the number of tries that are left.
pub find_loop : (tries loop_count multiplier divider : ℕ) → Placed → List Symbol → HashFunction
find_loop zero loop_count multiplier divider r symbols = record {
  placed = r;
  hash_multiplier = multiplier;
  hash_divider = divider;
}
find_loop (suc tries) loop_count multiplier divider r symbols =
    let count = suc loop_count in
    let multiplier' = if (count % 3 == 0) || (count % 3 == 2) then multiplier + 2 else multiplier in
    let divider' = if count % 3 == 1 then divider + 2 else divider in
    let found =
      place multiplier' divider' (record { symbol_map = λ i. 0; failed = false }) symbols in
    elim found.failed [
      | true ↦ find_loop tries count multiplier' divider' found symbols
      | false ↦ record { placed = found; hash_multiplier = multiplier'; hash_divider = divider' }
    ]

-- `ic_find_hash_function`; the map before the first try is not read.
pub find_hash_function : (before : ℕ → ℕ) → List Symbol → HashFunction
find_hash_function before symbols =
    find_loop 10000 0 1024 64 (record { symbol_map = before; failed = true }) symbols

-- `ic_convert_to_uppercase`; `islower` is that of the C library.
pub to_upper : (islower : ℕ → Bool) → List ℕ → List ℕ
to_upper islower [] = []
to_upper islower (c ∷ cs) = (if islower c then c - 32 else c) ∷ to_upper islower cs

-- The symbol part of `ic_found_identifier`: `*symbol_value`, which is 0 for a text that is no symbol. The buffer for the text
-- in upper case has 1024 bytes.
pub found_identifier : (islower : ℕ → Bool) → HashFunction → (str : List ℕ) → Outcome ℕ
found_identifier islower f str =
    if leb (length str) 1024
    then ok (f.placed.symbol_map (lex_hash f.hash_multiplier f.hash_divider (to_upper islower str)))
    else undefined

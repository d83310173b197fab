-- ===== src/Lexer/Tests.antt =====
-- Two symbols of a language.
use iclaustron.Base.{ℕ, ◌≡◌, refl, Bool, false, ◌&&◌, List, [], ◌∷◌, leb, arith}
use iclaustron.Lexer.{
  lex_hash, hash_loop, Symbol, place_one, place, find_loop, find_hash_function, to_upper,
}
use iclaustron.Lexer.Symbols.{AllSymbols, AllFound, find_hash_function-AllFound}

abbrev lower : ℕ → Bool
lower c = leb 97 c && leb c 122

-- "IF" and "ON".
abbrev two_symbols : List Symbol
two_symbols =
    record { symbol_str = 73 ∷ 70 ∷ []; symbol_id = 300 }
    ∷ record { symbol_str = 79 ∷ 78 ∷ []; symbol_id = 301 }
    ∷ []

two_symbols-AllSymbols : AllSymbols lower two_symbols
unfolding to_upper
two_symbols-AllSymbols =
    (omega arith, omega arith, omega arith, refl, (omega arith, omega arith, omega arith, refl, tt))

two_symbols-placed : (find_hash_function (λ i. 0) two_symbols).placed.failed ≡ false
unfolding find_hash_function find_loop place place_one lex_hash hash_loop
two_symbols-placed = refl

find_hash_function-AllFound_example :
    AllFound lower (find_hash_function (λ i. 0) two_symbols) two_symbols
find_hash_function-AllFound_example =
    find_hash_function-AllFound lower (λ i. 0) two_symbols two_symbols-AllSymbols two_symbols-placed

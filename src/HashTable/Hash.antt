-- ===== src/HashTable/Hash.antt =====
-- The hash and comparison functions of util/ic_hashtable.c. An unsigned int has 32 bits, a `gchar`
-- is signed, and numbers lie in memory lowest byte first, as on x86.
use iclaustron.Base.{
  ℕ, zero, suc, ◌+◌, ◌-◌, ◌*◌, ◌/◌, ◌%◌, ◌^◌, Bool, true, false, List, [], ◌∷◌, bit_or, bit_xor,
  ltb, ◌==◌, if◌then◌else◌, length,
}

-- The loop of `ic_hash_str`, over unsigned characters.
hash_str_loop : ℕ → List ℕ → ℕ
hash_str_loop hash [] = hash
hash_str_loop hash (c ∷ str) = hash_str_loop ((c + 147 * hash + 5) % 2 ^ 32) str

unfoldable pub hash_str : List ℕ → ℕ
unfolding hash_str_loop
hash_str str = hash_str_loop 0 str

-- A `gchar` as an unsigned int.
abbrev pub signed_char : ℕ → ℕ
signed_char c = if ltb c 128 then c else c + 2 ^ 32 - 256

-- The loop that the three functions below share.
hash_bytes : ℕ → List ℕ → ℕ
hash_bytes hash_value [] = hash_value
hash_bytes hash_value (c ∷ val_str) =
    hash_bytes ((147 * hash_value + signed_char c) % 2 ^ 32) val_str

-- The lowest `n` bytes of a number, lowest first.
pub low_bytes : ℕ → ℕ → List ℕ
low_bytes zero val = []
low_bytes (suc n) val = val % 256 ∷ low_bytes n (val / 256)

unfoldable pub hash_ptr : ℕ → ℕ
unfolding hash_bytes low_bytes
hash_ptr key = hash_bytes 23 (low_bytes 8 key)

unfoldable pub hash_uint64 : ℕ → ℕ
unfolding hash_bytes low_bytes
hash_uint64 key = hash_bytes 23 (low_bytes 8 key)

unfoldable pub hash_uint32 : ℕ → ℕ
unfolding hash_bytes low_bytes
hash_uint32 key = hash_bytes 23 (low_bytes 4 key)

-- `strncmp(a, b, n) == 0` on two areas of `n` characters: it stops at a NUL.
strncmp_equal : (a b : List ℕ) → Bool
strncmp_equal [] b = true
strncmp_equal (x ∷ a) [] = true
strncmp_equal (x ∷ a) (y ∷ b) =
    if x == y then (if x == 0 then true else strncmp_equal a b) else false

unfoldable pub keys_equal_str : (a b : List ℕ) → Bool
unfolding strncmp_equal
keys_equal_str a b = if length a == length b then strncmp_equal a b else false

unfoldable pub keys_equal_ptr : (a b : ℕ) → Bool
keys_equal_ptr a b = a == b

unfoldable pub keys_equal_uint64 : (a b : ℕ) → Bool
keys_equal_uint64 a b = a == b

unfoldable pub keys_equal_uint32 : (a b : ℕ) → Bool
keys_equal_uint32 a b = a == b

-- The steps of `hash(h, k)` on the value of the table's hash function: `i += ~(i << 9)`,
-- `i ^= (i >> 14) | (i << 18)`, `i += i << 4` and `i ^= (i >> 10) | (i << 22)`.
unfoldable pub mix : ℕ → ℕ
mix i₀ =
    let i₁ = (i₀ + (2 ^ 32 - 1 - i₀ * 2 ^ 9 % 2 ^ 32)) % 2 ^ 32 in
    let i₂ = bit_xor i₁ (bit_or (i₁ / 2 ^ 14) (i₁ * 2 ^ 18 % 2 ^ 32)) in
    let i₃ = (i₂ + i₂ * 2 ^ 4 % 2 ^ 32) % 2 ^ 32 in
    bit_xor i₃ (bit_or (i₃ / 2 ^ 10) (i₃ * 2 ^ 22 % 2 ^ 32))

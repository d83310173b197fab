-- ===== src/Strings/Tests.antt =====
-- Texts of concrete numbers.
use iclaustron.Base.{ℕ, ◌<◌, ◌≤◌, ◌≡◌, refl, some, List, [], ◌∷◌, ◌++◌, length, arith}
use iclaustron.Strings.{guint64_str, guint64_hex_str}
use iclaustron.Strings.Decimal.{AllDigits, value, guint64_str-digits}

-- "4096", and "0x1A".
decimal-written : guint64_str 4096 ≡ some (52 ∷ 48 ∷ 57 ∷ 54 ∷ 0 ∷ [], 4)
unfolding guint64_str
decimal-written = refl

hex-written : guint64_hex_str 26 ≡ some (48 ∷ 120 ∷ 49 ∷ 65 ∷ 0 ∷ [])
unfolding guint64_hex_str
hex-written = refl

guint64_str-digits_example :
    (ds : List ℕ) × (guint64_str 4096 ≡ some (ds ++ 0 ∷ [], length ds))
    × (value 0 ds ≡ 4096)
    × AllDigits ds
    × (0 < length ds)
    × (length ds ≤ 20)
    × ((let n : ℕ = 4096 in n ≡ 0) → ds ≡ 48 ∷ [])
guint64_str-digits_example = guint64_str-digits 4096 (omega arith)

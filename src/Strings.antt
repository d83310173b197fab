-- ===== src/Strings.antt =====
-- util/ic_string.c: numbers as text, the appending of strings, and searches. Characters are numbers; a text
-- in a buffer ends with 0.
pub mod Decimal
mod Tests
use iclaustron.Base.{
  ℕ, zero, suc, ◌+◌, ◌-◌, ◌*◌, ◌/◌, ◌%◌, Bool, true, false, ◌||◌, Option, none, some, List, [], ◌∷◌,
  ◌++◌, ltb, ◌==◌, if◌then◌else◌, length, take, drop,
}

-- The first loop of `ic_reverse_str`: the characters before the end character.
pub before_end : (end_char : ℕ) → List ℕ → Option (List ℕ)
before_end end_char [] = none
before_end end_char (c ∷ in_buf) =
    let rest = before_end end_char in_buf in
    if c == end_char then some [] else elim rest [ none ↦ none | some cs ↦ some (c ∷ cs) ]

-- The second loop, which reads from the end.
pub backwards : List ℕ → List ℕ
backwards [] = []
backwards (c ∷ cs) = backwards cs ++ c ∷ []

-- The reversal of these characters, with the end character behind it.
pub with_end : (end_char : ℕ) → Option (List ℕ) → Option (List ℕ)
unfolding backwards
with_end end_char none = none
with_end end_char (some cs) = some (backwards cs ++ end_char ∷ [])

-- `ic_reverse_str`; `none` is a read behind the input.
unfoldable pub reverse_str : List ℕ → (end_char : ℕ) → Option (List ℕ)
unfolding before_end with_end
reverse_str in_buf end_char = with_end end_char (before_end end_char in_buf)

-- The character of a digit, in decimal and in hexadecimal.
pub digit_char : ℕ → ℕ
digit_char d = if ltb d 10 then 48 + d else 65 + (d - 10)

-- The loop over the digits from the last on, with `fuel` rounds at most.
pub digits : (fuel base val : ℕ) → Option (List ℕ)
unfolding digit_char
digits zero base val = if val == 0 then some [] else none
digits (suc fuel) base val =
    let rest = digits fuel base (val / base) in
    if val == 0
    then some []
    else elim rest [ none ↦ none | some cs ↦ some (digit_char (val - (val / base) * base) ∷ cs) ]

-- The buffer that is reversed, without the 0 behind it.
pub number_buf : (base val : ℕ) → Option (List ℕ)
unfolding digits
number_buf base val = if val == 0 then some (48 ∷ []) else digits 64 base val

pub with_length : ℕ → Option (List ℕ) → Option (List ℕ × ℕ)
with_length len none = none
with_length len (some text) = some (text, len)

-- The reversal of the buffer with the 0 behind it, and the length.
pub reversed_text : Option (List ℕ) → Option (List ℕ × ℕ)
unfolding reverse_str with_length
reversed_text none = none
reversed_text (some buf) = with_length (length buf) (reverse_str (buf ++ 0 ∷ []) 0)

-- `ic_guint64_str`: the text, and its length.
pub guint64_str : ℕ → Option (List ℕ × ℕ)
unfolding number_buf reversed_text
guint64_str val = reversed_text (number_buf 10 val)

-- `ic_guint64_hex_str`
pub guint64_hex_str : ℕ → Option (List ℕ)
unfolding number_buf reversed_text
guint64_hex_str val = elim (reversed_text (number_buf 16 val)) [
  | none ↦ none
  | some (text, len) ↦ some (48 ∷ 120 ∷ text)
]

-- `ic_str_find_first`, over the `len` characters of the string.
pub str_find_first : List ℕ → (searched_char : ℕ) → ℕ
str_find_first [] searched_char = 0
str_find_first (c ∷ str) searched_char =
    let rest = str_find_first str searched_char in if c == searched_char then 0 else suc rest

-- `ic_count_characters`; `none` is a read behind the text.
pub count_characters : List ℕ → (max_chars : ℕ) → Option ℕ
count_characters str zero = some 0
count_characters [] (suc max_chars) = none
count_characters (c ∷ str) (suc max_chars) =
    let rest = count_characters str max_chars in
    if c == 32 || c == 10 || c == 0
    then some 0
    else elim rest [ none ↦ none | some n ↦ some (suc n) ]

-- `IC_STRING` with its `len` characters; `none` is NULL.
pub record IcString : Type 0 where
  pub str : Option (List ℕ)
  pub is_null_terminated : Bool

-- `ic_add_dup_string`, with whether `ic_malloc` succeeds: the return value and the string.
pub add_dup_string : IcString → Option (List ℕ) → (granted : Bool) → ℕ × IcString
add_dup_string dest none granted = (0, dest)
add_dup_string dest (some add) false = (7005, record { str = none; is_null_terminated = false })
add_dup_string dest (some add) true =
    let old : List ℕ = elim dest.str [ none ↦ [] | some text ↦ text ] in
    (0, record dest { str = some (old ++ add) })

-- ===== src/ConfigReader/Texts.antt =====
-- util/ic_config_reader.c: the directory of a file name, and a decimal number at the front of a text.
mod Tests
use iclaustron.Base.{
  ℕ, zero, suc, ◌+◌, ◌-◌, ◌*◌, ◌%◌, ◌^◌, Bool, true, false, ◌||◌, Option, none, some, List, [], ◌∷◌,
  ltb, ◌==◌, if◌then◌else◌, min, get_elem?,
}
use iclaustron.Strings.{reverse_str}
use iclaustron.ConfigReader.{check_digit}

-- The text up to its last separator, or nothing.
pub until_last : (separator : ℕ) → List ℕ → List ℕ
until_last separator [] = []
until_last separator (c ∷ cs) = elim (until_last separator cs) [
  | [] ↦ if c == separator then c ∷ [] else []
  | d ∷ ds ↦ c ∷ d ∷ ds
]

-- `ic_convert_file_to_dir`; `windows` tells whether WINDOWS is defined.
pub convert_file_to_dir : (windows : Bool) → (file_name : List ℕ) → List ℕ
unfolding until_last
convert_file_to_dir windows file_name = until_last (if windows then 47 else 92) file_name

-- The number of digits at the front, of at most `max_len` characters.
pub count_digits : (max_len : ℕ) → List ℕ → ℕ
count_digits zero str = 0
count_digits (suc n) [] = 0
count_digits (suc n) (c ∷ cs) =
    let rest = count_digits n cs in if check_digit c then suc rest else 0

-- The loop over the reversed digits up to the end character.
pub sum_digits : (end_char : ℕ) → (base number : ℕ) → List ℕ → ℕ
sum_digits end_char base number [] = number
sum_digits end_char base number (c ∷ cs) =
    let rest =
      sum_digits end_char ((base * 10) % 2 ^ 64) ((number + (c - 48) * base) % 2 ^ 64) cs in
    if c == end_char then number else rest

-- `ic_conv_str_to_int`, where `len` is given: the return value, the number and `*len` afterwards. `none` is a read behind
-- the text.
pub conv_str_to_int : (str : List ℕ) → (len : ℕ) → Option (ℕ × ℕ × ℕ)
unfolding count_digits sum_digits
conv_str_to_int str len =
    let n = count_digits (min 62 len) str in
    if ltb 60 n || (n == 0) then some (1, 0, len) else elim (get_elem? str n) [
      | none ↦ none
      | some end_char ↦ elim (reverse_str str end_char) [
        | none ↦ none
        | some reversed ↦ some (0, sum_digits end_char 1 0 reversed, n)
      ]
    ]

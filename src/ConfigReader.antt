-- ===== src/ConfigReader.antt =====
-- util/ic_config_reader.c: the texts of a configuration line. Characters are their codes; a line is the list of its
-- characters with the end of the line. GLib's ASCII functions are a parameter.
pub mod Lines
pub mod Texts
mod Number
mod Tests
use iclaustron.Base.{
  ℕ, zero, suc, ◌+◌, ◌-◌, ◌*◌, ◌%◌, ◌^◌, Bool, true, false, not, ◌&&◌, ◌||◌, Option, none, some,
  List, [], ◌∷◌, ◌++◌, ltb, leb, ◌==◌, if◌then◌else◌, length, take, drop,
}

-- `ic_check_digit`
abbrev pub check_digit : ℕ → Bool
check_digit c = if ltb c 48 || ltb 57 c then false else true

-- `ic_cmp_null_term_str` is 0.
pub same_text : List ℕ → List ℕ → Bool
same_text [] [] = true
same_text [] (d ∷ ds) = false
same_text (c ∷ cs) [] = false
same_text (c ∷ cs) (d ∷ ds) = (c == d) && same_text cs ds

abbrev pub false_str : List ℕ
false_str = 102 ∷ 97 ∷ 108 ∷ 115 ∷ 101 ∷ []

abbrev pub true_str : List ℕ
true_str = 116 ∷ 114 ∷ 117 ∷ 101 ∷ []

-- What the letter behind the digits multiplies them by.
abbrev pub factor : ℕ → Option ℕ
factor c =
    if (c == 107) || (c == 75)
    then some 1024
    else if (c == 109) || (c == 77)
    then some (1024 * 1024)
    else if (c == 103) || (c == 71)
    then some (1024 * 1024 * 1024)
    else none

-- Behind the letter there is nothing.
abbrev pub behind_letter : List ℕ → (number : ℕ) → Option ℕ
behind_letter [] number = some number
behind_letter (c ∷ cs) number = none

-- The loop of `ic_conv_config_str_to_int` while all characters were digits.
pub number_loop : (number : ℕ) → List ℕ → Option ℕ
number_loop number [] = some number
number_loop number (c ∷ cs) =
    let rest = number_loop (((number * 10) % 2 ^ 64 + (c - 48)) % 2 ^ 64) cs in
    if check_digit c
    then rest
    else elim (factor c) [ none ↦ none | some f ↦ behind_letter cs ((number * f) % 2 ^ 64) ]

-- `ic_conv_config_str_to_int`: the return value and `*value` afterwards.
pub conv_config_str_to_int : (value : ℕ) → List ℕ → ℕ × ℕ
unfolding number_loop same_text
conv_config_str_to_int value str =
    if same_text false_str str
    then (0, value)
    else if same_text true_str str
    then (0, value)
    else elim (number_loop 0 str) [ none ↦ (1, value) | some number ↦ (0, number) ]

-- ===== src/ConfigReader/Number.antt =====
-- The numbers of a configuration file: digits, and a letter for a power of 1024.
use iclaustron.Base.{
  ℕ, zero, suc, ◌+◌, ◌-◌, ◌*◌, ◌%◌, ◌^◌, ◌≡◌, refl, Bool, false, ◌&&◌, leb, ltb, ◌==◌, Option, none,
  some, List, [], ◌∷◌, if◌then◌else◌, arith, sym, ap, ◌∙◌, Bool-cases, inl, inr,
}
use iclaustron.Strings.Decimal.{value}
use iclaustron.ConfigReader.{
  check_digit, factor, behind_letter, number_loop, same_text, false_str, true_str,
  conv_config_str_to_int,
}

abbrev pub is_digit : ℕ → Bool
is_digit c = leb 48 c && ltb c 58

-- The digits at the front of a text, and what follows.
abbrev pub front_digits : List ℕ → List ℕ
front_digits [] = []
front_digits (c ∷ cs) = if is_digit c then c ∷ front_digits cs else []

abbrev pub behind_digits : List ℕ → List ℕ
behind_digits [] = []
behind_digits (c ∷ cs) = if is_digit c then behind_digits cs else c ∷ cs

-- The letters of the units, in lower case and in upper case, with the power of 2 that each stands for.
abbrev pub units : List (ℕ × ℕ)
units = (107, 10) ∷ (109, 20) ∷ (103, 30) ∷ (75, 10) ∷ (77, 20) ∷ (71, 30) ∷ []

abbrev pub unit_in : List (ℕ × ℕ) → ℕ → Option ℕ
unit_in [] c = none
unit_in ((letter, exponent) ∷ rest) c = if c == letter then some (2 ^ exponent) else unit_in rest c

-- What is behind the digits is nothing, or the letter of a unit.
abbrev pub unit_of : List ℕ → Option ℕ
unit_of [] = some 1
unit_of (c ∷ []) = unit_in units c
unit_of (c ∷ d ∷ cs) = none

check_digit-is_digit : (c : ℕ) → check_digit c ≡ is_digit c
check_digit-is_digit c = ground arith

factor-unit_in : (c : ℕ) → factor c ≡ unit_in units c
factor-unit_in c = ground arith

abbrev pub scaled : ℕ → Option ℕ → Option ℕ
scaled number none = none
scaled number (some f) = some ((number * f) % 2 ^ 64)

-- What a text stands for, on 64 bits: decimal digits times 1, 2^10 for k, 2^20 for m or 2^30 for g.
unfoldable pub config_number : (acc : ℕ) → List ℕ → Option ℕ
config_number acc str = scaled (value acc (front_digits str)) (unit_of (behind_digits str))

digit_step :
    (acc c : ℕ)
    → ((((acc % 2 ^ 64) * 10) % 2 ^ 64 + (c - 48)) % 2 ^ 64) ≡ (acc * 10 + (c - 48)) % 2 ^ 64
digit_step acc c = omega arith

mod_sum : (x y n : ℕ) → x % 2 ^ 64 ≡ y % 2 ^ 64 → (x + n % 2 ^ 64) % 2 ^ 64 ≡ (y + n) % 2 ^ 64
mod_sum x y n e = omega arith

scale_step : (n f : ℕ) → ((n % 2 ^ 64) * f) % 2 ^ 64 ≡ (n * f) % 2 ^ 64
scale_step n zero = omega arith
scale_step n (suc f) =
    let left : (n % 2 ^ 64) * suc f ≡ (n % 2 ^ 64) * f + n % 2 ^ 64 = omega arith in
    let right : n * f + n ≡ n * suc f = omega arith in
    ap (λ (m : ℕ). m % 2 ^ 64) left
    ∙ mod_sum ((n % 2 ^ 64) * f) (n * f) n (scale_step n f)
    ∙ ap (λ (m : ℕ). m % 2 ^ 64) right

-- The letter and what follows it.
after_letter :
    (acc : ℕ) (letter : Option ℕ) (cs : List ℕ)
    → (elim letter [ none ↦ none | some f ↦ behind_letter cs (((acc % 2 ^ 64) * f) % 2 ^ 64) ])
      ≡ scaled acc (elim cs [ [] ↦ letter | d ∷ ds ↦ none ])
after_letter acc none [] = refl
after_letter acc none (d ∷ ds) = refl
after_letter acc (some f) [] = ap some (scale_step acc f)
after_letter acc (some f) (d ∷ ds) = refl

unit_of-letter :
    (c : ℕ) (cs : List ℕ) → unit_of (c ∷ cs) ≡ (elim cs [ [] ↦ factor c | d ∷ ds ↦ none ])
unit_of-letter c [] = sym (factor-unit_in c)
unit_of-letter c (d ∷ ds) = refl

number_loop-config_number :
    (acc : ℕ) (str : List ℕ) → number_loop (acc % 2 ^ 64) str ≡ config_number acc str
unfolding number_loop config_number value
number_loop-config_number acc [] =
    ap some (let e : acc % 2 ^ 64 ≡ (acc * 1) % 2 ^ 64 = omega arith in e)
number_loop-config_number acc (c ∷ cs) = elim (Bool-cases (check_digit c)) [
  | inl digit ↦ rw (sym (check_digit-is_digit c)) (
      rw digit (
        ap (λ (n : ℕ). number_loop n cs) (digit_step acc c)
        ∙ number_loop-config_number (acc * 10 + (c - 48)) cs))
  | inr letter ↦
      rw (sym (check_digit-is_digit c))
        (rw letter (after_letter acc (factor c) cs ∙ ap (scaled acc) (sym (unit_of-letter c cs))))
]

-- What a configuration value that is neither "true" nor "false" is taken for: decimal digits with
-- nothing or the letter k, m or g behind them, in lower or upper case, are the number times 1, 2^10, 2^20 or 2^30,
-- on 64 bits; everything else is refused with 1, and the value stays.
pub conv_config_str_to_int-config_number :
    (v : ℕ) (str : List ℕ)
    → same_text false_str str ≡ false
    → same_text true_str str ≡ false
    → conv_config_str_to_int v str
      ≡ (elim (config_number 0 str) [ none ↦ (1, v) | some number ↦ (0, number) ])
unfolding conv_config_str_to_int
conv_config_str_to_int-config_number v str no_false no_true = rw no_false (
    rw no_true (
      ap (λ (r : Option ℕ). elim r [ none ↦ (1, v) | some number ↦ (0, number) ])
        (number_loop-config_number 0 str)))

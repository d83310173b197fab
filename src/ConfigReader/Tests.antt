-- ===== src/ConfigReader/Tests.antt =====
-- Configuration values at concrete texts.
use iclaustron.Base.{◌≡◌, refl, false, none, some, [], ◌∷◌}
use iclaustron.ConfigReader.{same_text, number_loop, conv_config_str_to_int, false_str, true_str}
use iclaustron.ConfigReader.Number.{config_number, conv_config_str_to_int-config_number}

-- "true" does not set the value.
true-unset : conv_config_str_to_int 77 true_str ≡ (0, 77)
unfolding conv_config_str_to_int same_text
true-unset = refl

two_k : conv_config_str_to_int 77 (50 ∷ 107 ∷ []) ≡ (0, 2048)
unfolding conv_config_str_to_int same_text number_loop
two_k = refl

not_false : same_text false_str (50 ∷ 107 ∷ []) ≡ false
unfolding same_text
not_false = refl

not_true : same_text true_str (50 ∷ 107 ∷ []) ≡ false
unfolding same_text
not_true = refl

conv_config_str_to_int-config_number_example :
    conv_config_str_to_int 77 (50 ∷ 107 ∷ [])
    ≡ (elim (config_number 0 (50 ∷ 107 ∷ [])) [ none ↦ (1, 77) | some number ↦ (0, number) ])
conv_config_str_to_int-config_number_example =
    conv_config_str_to_int-config_number 77 (50 ∷ 107 ∷ []) not_false not_true

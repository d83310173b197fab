-- ===== src/ConfigReader/Texts/Tests.antt =====
-- File names and numbers at concrete texts.
use iclaustron.Base.{◌≡◌, refl, true, false, some, [], ◌∷◌}
use iclaustron.Strings.{reverse_str}
use iclaustron.ConfigReader.Texts.{convert_file_to_dir, conv_str_to_int}

-- "a/b" has no directory where the system is not Windows.
no_directory : convert_file_to_dir false (97 ∷ 47 ∷ 98 ∷ []) ≡ []
unfolding convert_file_to_dir
no_directory = refl

windows_directory : convert_file_to_dir true (97 ∷ 47 ∷ 98 ∷ []) ≡ 97 ∷ 47 ∷ []
unfolding convert_file_to_dir
windows_directory = refl

-- "120 ".
one_hundred : conv_str_to_int (49 ∷ 50 ∷ 48 ∷ 32 ∷ []) 9 ≡ some (0, 120, 3)
unfolding conv_str_to_int reverse_str
one_hundred = refl

-- With a length of 2 the third digit of "122" ends the number: it is read as 1.
cut_short : conv_str_to_int (49 ∷ 50 ∷ 50 ∷ 32 ∷ []) 2 ≡ some (0, 1, 2)
unfolding conv_str_to_int reverse_str
cut_short = refl

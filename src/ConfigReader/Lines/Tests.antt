-- ===== src/ConfigReader/Lines/Tests.antt =====
-- Lines of a configuration file at concrete texts.
use iclaustron.Base.{
  ℕ, ◌+◌, ◌≡◌, refl, Bool, true, ◌&&◌, ◌||◌, List, [], ◌∷◌, leb, ◌==◌, if◌then◌else◌,
}
use iclaustron.ConfigReader.Lines.{
  Ascii, ConfigOps, read_cr_line, all_value_chars, read_config_line, last_but_one, section_line,
  conv_group_id, without_last,
}
use iclaustron.ConfigReader.Lines.Keys.{key_text, added_key, read_config_line-added_key}

abbrev upper : ℕ → Bool
upper c = leb 65 c && leb c 90

abbrev ascii : Ascii
ascii = record {
  isalpha = λ c. upper c || (leb 97 c && leb c 122);
  isdigit = λ c. leb 48 c && leb c 57;
  isspace = λ c. (c == 32) || (leb 9 c && leb c 13);
  tolower = λ c. if upper c then c + 32 else c;
}

-- All that is added is kept.
abbrev keeping : ConfigOps (List (List ℕ))
keeping = record {
  add_comment = λ line section text pass s. (0, text ∷ s);
  add_section = λ section line name pass s. (0, name ∷ s);
  add_key = λ section line key value pass s. (0, key ∷ value ∷ s);
}

-- "[AB]"
section-ab :
    read_config_line ascii keeping 1 0 0 (91 ∷ 65 ∷ 66 ∷ 93 ∷ 10 ∷ []) []
    ≡ (0, 1, (97 ∷ 98 ∷ []) ∷ [])
unfolding read_config_line last_but_one section_line conv_group_id without_last
section-ab = refl

too_long_line : read_cr_line 119 (65 ∷ 66 ∷ 10 ∷ []) ≡ 0
unfolding read_cr_line
too_long_line = refl

value-seven : all_value_chars ascii (55 ∷ []) ≡ true
unfolding all_value_chars
value-seven = refl

read_config_line-added_key_example :
    read_config_line ascii keeping 1 0 0 (key_text (65 ∷ 95 ∷ []) (55 ∷ [])) []
    ≡ added_key ascii keeping 1 0 0 (65 ∷ 95 ∷ []) (55 ∷ []) []
read_config_line-added_key_example =
    read_config_line-added_key ascii keeping 1 0 0 65 55 (95 ∷ []) [] [] (refl, (refl, tt))
      value-seven refl refl refl refl refl refl

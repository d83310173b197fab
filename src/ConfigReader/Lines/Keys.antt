-- ===== src/ConfigReader/Lines/Keys.antt =====
-- A line with a key and a value.
use iclaustron.Base.{ℕ, ◌≡◌, refl, true, false, ◌||◌, some, List, [], ◌∷◌, ◌++◌, ◌==◌, map, ap, ◌∙◌}
use iclaustron.ConfigReader.Lines.{
  Ascii, ConfigOps, conv_key_id, rm_space, all_value_chars, checked_value, assigned_value,
  conv_key_value, without_last, value_line, key_line, read_config_line,
}

-- The line for a key and a value.
abbrev pub key_text : List ℕ → List ℕ → List ℕ
key_text key value = key ++ 61 ∷ (value ++ 10 ∷ [])

module _ (ascii : Ascii) where
  abbrev pub AllKeyChars : List ℕ → Type 0
  AllKeyChars [] = Unit
  AllKeyChars (c ∷ cs) = ((ascii.isalpha c || (c == 95)) ≡ true) × AllKeyChars cs

  conv_key_id-key :
      (key rest : List ℕ)
      → AllKeyChars key
      → ascii.isalpha 61 ≡ false
      → conv_key_id ascii (key ++ 61 ∷ rest) ≡ some (map ascii.tolower key, 61 ∷ rest)
  unfolding conv_key_id
  conv_key_id-key [] rest all sign = rw sign refl
  conv_key_id-key (c ∷ cs) rest all sign = rw all.0 (rw (conv_key_id-key cs rest all.1 sign) refl)

  without_last-end : (cs : List ℕ) → without_last (cs ++ 10 ∷ []) ≡ cs
  unfolding without_last
  without_last-end [] = refl
  without_last-end (c ∷ []) = refl
  without_last-end (c ∷ d ∷ cs) = ap (◌∷◌ c) (without_last-end (d ∷ cs))

  conv_key_value-value :
      (v : ℕ) (value : List ℕ)
      → (ascii.isspace 61 ≡ false)
      → ((ascii.isspace v || (v == 9)) ≡ false)
      → all_value_chars ascii (v ∷ value) ≡ true
      → conv_key_value ascii (61 ∷ v ∷ value) ≡ some (v ∷ value)
  unfolding conv_key_value rm_space assigned_value checked_value
  conv_key_value-value v value sign starts all = rw sign (rw starts (rw all refl))

  rm_space-stays :
      (c : ℕ) (cs : List ℕ)
      → ((ascii.isspace c || (c == 9)) ≡ false)
      → rm_space ascii (c ∷ cs) ≡ c ∷ cs
  unfolding rm_space
  rm_space-stays c cs starts = rw starts refl

module _ (ascii : Ascii) {S : Type 0} (ops : ConfigOps S) (line_number section_num pass : ℕ) where
  -- What `ic_add_key` makes of the key in lower case and the value.
  abbrev pub added_key : List ℕ → List ℕ → S → ℕ × ℕ × S
  added_key key value s =
      let (ret, s') = ops.add_key section_num line_number (map ascii.tolower key) value pass s in
      (ret, section_num, s')

  to_key_line :
      (c d : ℕ) (cs : List ℕ) (s : S)
      → (c == 35) ≡ false
      → (c == 91) ≡ false
      → read_config_line ascii ops line_number section_num pass (c ∷ d ∷ cs) s
        ≡ key_line ascii ops line_number section_num pass
            (conv_key_id ascii (rm_space ascii (c ∷ d ∷ cs)))
            s
  unfolding read_config_line
  to_key_line c d cs s no_comment no_section = rw no_comment (rw no_section refl)

  module _ (k v : ℕ) (ks vs : List ℕ) (s : S) (keys : AllKeyChars ascii (k ∷ ks))
      (values : all_value_chars ascii (v ∷ vs) ≡ true) where
    module _ (no_comment : (k == 35) ≡ false) (no_section : (k == 91) ≡ false)
        (k_starts : (ascii.isspace k || (k == 9)) ≡ false)
        (v_starts : (ascii.isspace v || (v == 9)) ≡ false) where
      module _ (no_letter : ascii.isalpha 61 ≡ false) (no_space : ascii.isspace 61 ≡ false) where
        from_key_line :
            key_line ascii ops line_number section_num pass
              (conv_key_id ascii (rm_space ascii (key_text (k ∷ ks) (v ∷ vs))))
              s
            ≡ added_key (k ∷ ks) (v ∷ vs) s
        unfolding key_line value_line
        from_key_line =
            ap
              (λ (cs : List ℕ).
                key_line ascii ops line_number section_num pass (conv_key_id ascii cs) s)
              (rm_space-stays ascii k (ks ++ 61 ∷ (v ∷ vs ++ 10 ∷ [])) k_starts)
            ∙ ap (λ r. key_line ascii ops line_number section_num pass r s)
                (conv_key_id-key ascii (k ∷ ks) (v ∷ vs ++ 10 ∷ []) keys no_letter)
            ∙ ap
                (λ (cs : List ℕ).
                  value_line ascii ops line_number section_num pass (map ascii.tolower (k ∷ ks))
                    (conv_key_value ascii cs) s)
                (without_last-end ascii (61 ∷ v ∷ vs))
            ∙ ap
                (λ r.
                  value_line ascii ops line_number section_num pass (map ascii.tolower (k ∷ ks)) r
                    s)
                (conv_key_value-value ascii v vs no_space v_starts values)

        read_line :
            (ks' : List ℕ)
            → read_config_line ascii ops line_number section_num pass
                (key_text (k ∷ ks') (v ∷ vs))
                s
              ≡ key_line ascii ops line_number section_num pass
                  (conv_key_id ascii (rm_space ascii (key_text (k ∷ ks') (v ∷ vs))))
                  s
        read_line [] = to_key_line k 61 (v ∷ vs ++ 10 ∷ []) s no_comment no_section
        read_line (k' ∷ ks') =
            to_key_line k k' (ks' ++ 61 ∷ (v ∷ vs ++ 10 ∷ [])) s no_comment no_section

        -- `read_config_line` of a line "key=value" hands the key in lower case and the value to `ic_add_key`. The key is of
        -- letters and underscores, the value of the characters that values have; neither is empty or begins with a
        -- space, and the key does not begin with "#" or "[". The sign "=" is no letter and no space.
        pub read_config_line-added_key :
            read_config_line ascii ops line_number section_num pass (key_text (k ∷ ks) (v ∷ vs)) s
            ≡ added_key (k ∷ ks) (v ∷ vs) s
        read_config_line-added_key = read_line ks ∙ from_key_line

-- ===== src/ConfigReader/Lines.antt =====
-- util/ic_config_reader.c: one line of a configuration file. The functions that a kind of file supplies are a
-- parameter; they change a state of their own.
mod Keys
mod Tests
use iclaustron.Base.{
  ℕ, suc, ◌+◌, ◌%◌, ◌^◌, Bool, true, false, ◌&&◌, ◌||◌, Option, none, some, List, [], ◌∷◌, ltb,
  ◌==◌, if◌then◌else◌,
}

-- `g_ascii_isalpha`, `g_ascii_isdigit`, `g_ascii_isspace` and `g_ascii_tolower`.
pub record Ascii : Type 0 where
  pub isalpha : ℕ → Bool
  pub isdigit : ℕ → Bool
  pub isspace : ℕ → Bool
  pub tolower : ℕ → ℕ

-- The operations of `IC_CONFIG_OPERATIONS` for a line.
pub record ConfigOps (S : Type 0) : Type 0 where
  pub add_comment : (section_num line_number : ℕ) → List ℕ → (pass : ℕ) → S → ℕ × S
  pub add_section : (section_num line_number : ℕ) → List ℕ → (pass : ℕ) → S → ℕ × S
  pub add_key : (section_num line_number : ℕ) → (key value : List ℕ) → (pass : ℕ) → S → ℕ × S

-- `read_cr_line` on the rest of the text: the length with the end of the line, or 0 for a line that is too long.
pub read_cr_line : (len : ℕ) → List ℕ → ℕ
read_cr_line len [] = len
read_cr_line len (c ∷ cs) =
    let rest = read_cr_line (suc len) cs in
    if (c == 10) || (c == 0) then len else if ltb (suc len) 120 then rest else 0

module _ (ascii : Ascii) where
  -- `conv_group_id`
  pub conv_group_id : List ℕ → Option (List ℕ)
  conv_group_id [] = some []
  conv_group_id (c ∷ cs) =
      let rest = conv_group_id cs in
      if ascii.isalpha c
      then elim rest [ none ↦ none | some id ↦ some (ascii.tolower c ∷ id) ]
      else if c == 32
      then elim rest [ none ↦ none | some id ↦ some (c ∷ id) ]
      else none

  -- `conv_key_id`: the key and what follows it.
  pub conv_key_id : List ℕ → Option (List ℕ × List ℕ)
  conv_key_id [] = none
  conv_key_id (c ∷ cs) =
      let rest = conv_key_id cs in
      if ascii.isalpha c || (c == 95)
      then elim rest [ none ↦ none | some (key, more) ↦ some (ascii.tolower c ∷ key, more) ]
      else some ([], c ∷ cs)

  -- `rm_space`
  pub rm_space : List ℕ → List ℕ
  rm_space [] = []
  rm_space (c ∷ cs) = let rest = rm_space cs in if ascii.isspace c || (c == 9) then rest else c ∷ cs

  abbrev pub value_char : ℕ → Bool
  value_char c =
      ascii.isalpha c
      || ((c == 47)
          || ((c == 92) || (ascii.isdigit c || ((c == 46) || ((c == 95) || ascii.isspace c)))))

  pub all_value_chars : List ℕ → Bool
  all_value_chars [] = true
  all_value_chars (c ∷ cs) = value_char c && all_value_chars cs

  -- Behind the assignment operator: the characters of the value, of which there is one at least.
  pub checked_value : List ℕ → Option (List ℕ)
  checked_value [] = none
  checked_value (c ∷ cs) = if all_value_chars (c ∷ cs) then some (c ∷ cs) else none

  -- From the assignment operator on.
  pub assigned_value : List ℕ → Option (List ℕ)
  assigned_value [] = none
  assigned_value (c ∷ cs) = if (c == 61) || (c == 58) then checked_value (rm_space cs) else none

  -- `conv_key_value`
  pub conv_key_value : List ℕ → Option (List ℕ)
  conv_key_value cs = assigned_value (rm_space cs)

abbrev pub config_bracket : ℕ
config_bracket = 7001

-- The last but one character of a line.
pub last_but_one : List ℕ → ℕ
last_but_one [] = 0
last_but_one (c ∷ []) = 0
last_but_one (c ∷ d ∷ []) = c
last_but_one (c ∷ d ∷ e ∷ cs) = last_but_one (d ∷ e ∷ cs)

abbrev pub config_incorrect_group_id : ℕ
config_incorrect_group_id = 7002

abbrev pub config_improper_key_value : ℕ
config_improper_key_value = 7003

-- A list without its last element.
pub without_last : List ℕ → List ℕ
without_last [] = []
without_last (c ∷ []) = []
without_last (c ∷ d ∷ cs) = c ∷ without_last (d ∷ cs)

module _ (ascii : Ascii) {S : Type 0} (ops : ConfigOps S) (line_number section_num pass : ℕ) where
  -- The return value, the number of the section and the state of the file's own functions.
  pub section_line : Option (List ℕ) → S → ℕ × ℕ × S
  section_line none s = (config_incorrect_group_id, section_num, s)
  section_line (some name) s =
      let (ret, s') = ops.add_section ((section_num + 1) % 2 ^ 32) line_number name pass s in
      (ret, (section_num + 1) % 2 ^ 32, s')

  pub value_line : (key : List ℕ) → Option (List ℕ) → S → ℕ × ℕ × S
  value_line key none s = (config_improper_key_value, section_num, s)
  value_line key (some value) s =
      let (ret, s') = ops.add_key section_num line_number key value pass s in (ret, section_num, s')

  pub key_line : Option (List ℕ × List ℕ) → S → ℕ × ℕ × S
  unfolding value_line
  key_line none s = (config_improper_key_value, section_num, s)
  key_line (some (key, rest)) s = value_line key (conv_key_value ascii (without_last rest)) s

  -- `read_config_line`, of a line with the end of the line.
  pub read_config_line : List ℕ → S → ℕ × ℕ × S
  unfolding section_line key_line
  read_config_line [] s = (0, section_num, s)
  read_config_line (c ∷ []) s = (0, section_num, s)
  read_config_line (c ∷ d ∷ cs) s =
      if c == 35
      then (let (ret, s') = ops.add_comment line_number section_num (c ∷ d ∷ cs) pass s in
          (ret, section_num, s'))
      else if c == 91
      then (if last_but_one (c ∷ d ∷ cs) == 93
          then section_line (conv_group_id ascii (without_last (without_last (d ∷ cs)))) s
          else (config_bracket, section_num, s))
      else key_line (conv_key_id ascii (rm_space ascii (c ∷ d ∷ cs))) s

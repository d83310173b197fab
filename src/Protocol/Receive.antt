-- ===== src/Protocol/Receive.antt =====
-- comm/ic_protocol_support.c: the routines that read one line and take it apart. `g_ascii_strtoull` is a
-- parameter: it gives the number at the front of a text and the count of the characters that it has read.
pub mod Stream
pub mod Numbers
pub mod Answers
use iclaustron.Base.{
  ℕ, zero, suc, ◌+◌, ◌-◌, ◌^◌, ◌%◌, Bool, true, false, not, ◌&&◌, ◌||◌, Option, none, some, List,
  [], ◌∷◌, ltb, leb, ◌==◌, if◌then◌else◌, length, take, drop, get_elem?,
}
use iclaustron.Protocol.{
  Link, M, Reply, got, error, ◌>>=◌, ◌>>◌, return, fails, rec_with_cr, step_back_rec_with_cr,
  space_char, protocol_error, mem_alloc_error,
}

-- `memcmp(buf, str, strlen(str)) == 0`
pub starts : (buf str : List ℕ) → Bool
starts buf [] = true
starts [] (c ∷ str) = false
starts (b ∷ buf) (c ∷ str) = (b == c) && starts buf str

-- `ic_check_buf`: TRUE where the line is another one.
pub check_buf : (buf : List ℕ) → (read_size : ℕ) → (str : List ℕ) → Bool
unfolding starts
check_buf buf read_size str = not (read_size == length str) || not (starts buf str)

-- Whether a space stands at a position.
pub is_space : List ℕ → (pos : ℕ) → Bool
is_space buf pos = elim (get_elem? buf pos) [ none ↦ false | some c ↦ c == space_char ]

-- The length of a prefix with the space behind it, where there is one.
pub prefix_end : (buf str : List ℕ) → ℕ
unfolding is_space
prefix_end buf str = if is_space buf (length str) then length str + 1 else length str

-- Whether a line of `read_size` characters begins with `str` and has one more.
pub has_prefix : (buf : List ℕ) → (read_size : ℕ) → (str : List ℕ) → Bool
unfolding starts
has_prefix buf read_size str = not (ltb read_size (length str + 1)) && starts buf str

-- `ic_check_buf_with_string`: the string behind the prefix; `none` is TRUE.
pub check_buf_with_string : (buf : List ℕ) → (read_size : ℕ) → (str : List ℕ) → Option (List ℕ)
unfolding has_prefix prefix_end
check_buf_with_string buf read_size str =
    if has_prefix buf read_size str
    then some (take (read_size - prefix_end buf str) (drop (prefix_end buf str) buf))
    else none

-- The front of the receive buffer, where the line is.
pub line_buf : M (List ℕ)
line_buf s = (s, got s.reader.read_buf)

abbrev pub ok_str : List ℕ
ok_str = 79 ∷ 107 ∷ []

abbrev pub error_str : List ℕ
error_str = 69 ∷ 114 ∷ 114 ∷ 111 ∷ 114 ∷ []

abbrev pub true_str : List ℕ
true_str = 116 ∷ 114 ∷ 117 ∷ 101 ∷ []

abbrev pub false_str : List ℕ
false_str = 102 ∷ 97 ∷ 108 ∷ 115 ∷ 101 ∷ []

-- What `ic_rec_simple_str_impl` does with a line: whether it was found.
pub after_simple_str : (str : List ℕ) → (optional : Bool) → (read_size : ℕ) → List ℕ → M Bool
after_simple_str str optional read_size buf =
    if check_buf buf read_size str
    then (do
      step_back_rec_with_cr read_size
      if optional then return false else fails protocol_error)
    else return true

-- `ic_rec_simple_str_impl`; after an error `*optional_and_found` is FALSE or as it was.
pub rec_simple_str_impl : (str : List ℕ) → (optional : Bool) → M Bool
rec_simple_str_impl str optional = do
  read_size ← rec_with_cr
  buf ← line_buf
  after_simple_str str optional read_size buf

-- `ic_rec_simple_str`
pub rec_simple_str : List ℕ → M (Unit {0})
rec_simple_str str = do found ← rec_simple_str_impl str false; return tt

-- `ic_rec_simple_str_opt`
pub rec_simple_str_opt : List ℕ → M Bool
rec_simple_str_opt str = rec_simple_str_impl str true

-- `ic_rec_empty_line`
pub rec_empty_line : M (Unit {0})
rec_empty_line = rec_simple_str []

-- `ic_rec_string`
pub rec_string : (prefix_str : List ℕ) → M (List ℕ)
unfolding prefix_end
rec_string prefix_str = do
  read_size ← rec_with_cr
  buf ← line_buf
  if ltb read_size (length prefix_str + 1) || check_buf buf (length prefix_str) prefix_str
      then fails protocol_error
      else return
          (take (read_size - prefix_end buf prefix_str) (drop (prefix_end buf prefix_str) buf))

-- `ic_rec_two_strings`. The string that was read has a 0 behind it.
pub rec_two_strings : (first_str second_str : List ℕ) → M (Unit {0})
unfolding starts
rec_two_strings first_str second_str = do
  buf ← rec_string first_str
  if starts buf second_str then return tt else fails protocol_error

-- `ic_rec_boolean`
pub rec_boolean : (prefix_str : List ℕ) → M Bool
rec_boolean prefix_str = do
  read_size ← rec_with_cr
  buf ← line_buf
  elim (check_buf_with_string buf read_size prefix_str) [
    | none ↦ fails protocol_error
    | some word ↦
        if not (check_buf word (length word) true_str)
        then return true
        else if not (check_buf word (length word) false_str)
        then return false
        else fails protocol_error
  ]

-- `mc_rec_string_impl`, with whether `ic_mc_calloc` succeeds. The prefix is not empty.
pub mc_rec_string_impl : (granted : Bool) → (prefix_str buf : List ℕ) → (read_size : ℕ) → M (List ℕ)
mc_rec_string_impl granted prefix_str buf read_size =
    elim (check_buf_with_string buf read_size prefix_str) [
      | none ↦ fails protocol_error
      | some text ↦ if granted then return text else fails mem_alloc_error
    ]

-- `ic_mc_rec_string`
pub mc_rec_string : (granted : Bool) → (prefix_str : List ℕ) → M (List ℕ)
mc_rec_string granted prefix_str = do
  read_size ← rec_with_cr
  buf ← line_buf
  mc_rec_string_impl granted prefix_str buf read_size

-- `ic_mc_rec_opt_string`; `none` is the string whose `str` is NULL.
pub mc_rec_opt_string : (granted : Bool) → (prefix_str : List ℕ) → M (Option (List ℕ))
mc_rec_opt_string granted prefix_str = do
  read_size ← rec_with_cr
  buf ← line_buf
  if read_size == 0
      then (do step_back_rec_with_cr read_size; return none)
      else (do text ← mc_rec_string_impl granted prefix_str buf read_size; return (some text))

-- `ic_rec_error_message`: the caller's buffer afterwards. `ic_rec_with_cr` sets the parameter, a pointer, to the line in
-- the receive buffer, and nothing is copied.
pub rec_error_message : (buf : List ℕ) → M (List ℕ)
rec_error_message buf = do
  rec_simple_str error_str
  buf_size ← rec_with_cr
  local_buf ← line_buf
  rec_empty_line
  return buf

-- Whether the pointer `ok_found` is NULL, which the code tests in place of what it points to.
abbrev pub ok_found_is_null : Bool
ok_found_is_null = false

-- `ic_rec_ok_or_error`: whether "Ok" was found.
pub rec_ok_or_error : (buf : List ℕ) → M Bool
rec_ok_or_error buf = do
  ok_found ← rec_simple_str_opt ok_str
  if ok_found_is_null
      then (do message ← rec_error_message buf; return ok_found)
      else (do rec_empty_line; return ok_found)

module _ (strtoull : List ℕ → ℕ × ℕ) where
  -- `ic_convert_str_to_int_fixed_size` of util/ic_string.c; `none` is TRUE.
  pub convert_str_to_int_fixed_size : (str : List ℕ) → (num_chars : ℕ) → Option ℕ
  convert_str_to_int_fixed_size str num_chars =
      let (number, consumed) = strtoull str in
      if num_chars == 0
      then none
      else if (consumed == num_chars)
          && (not (number == 0) || ((num_chars == 1) && starts str (48 ∷ [])))
      then some number
      else none

module _ (strtoull : List ℕ → ℕ × ℕ) where
  -- `ic_check_buf_with_int`; `none` is TRUE.
  pub check_buf_with_int : (buf : List ℕ) → (read_size : ℕ) → (str : List ℕ) → Option ℕ
  unfolding has_prefix prefix_end
  check_buf_with_int buf read_size str =
      let pos = prefix_end buf str in
      if has_prefix buf read_size str
      then convert_str_to_int_fixed_size strtoull (drop pos buf) (read_size - pos)
      else none

  -- `ic_check_buf_with_signed_int`: the number and `*sign_flag`. The sign is looked for behind the place
  -- where one was skipped.
  pub check_buf_with_signed_int :
      (buf : List ℕ) → (read_size : ℕ) → (str : List ℕ) → Option (ℕ × Bool)
  unfolding has_prefix prefix_end starts
  check_buf_with_signed_int buf read_size str =
      let start = prefix_end buf str in
      let pos = if starts (drop start buf) (45 ∷ []) then start + 1 else start in
      if has_prefix buf read_size str
      then elim (convert_str_to_int_fixed_size strtoull (drop pos buf) (read_size - pos)) [
        | none ↦ none
        | some number ↦ some (number, starts (drop pos buf) (45 ∷ []))
      ]
      else none

-- A number of the type `int`.
pub data ℤ : Type 0 where
  pos : ℕ → ℤ
  negsuc : ℕ → ℤ

-- A `guint32` that is stored in an `int`, by its 32 bits.
pub as_int : ℕ → ℤ
as_int n = if ltb n (2 ^ 31) then pos n else negsuc (2 ^ 32 - 1 - n)

-- IC_MAX_UINT32
abbrev pub max_uint32 : ℕ
max_uint32 = 0xffff_ffff

module _ (strtoull : List ℕ → ℕ × ℕ) where
  -- What `ic_rec_number_impl` does with a line; `none` leaves the variable as it is.
  pub after_number : (str : List ℕ) → (optional : Bool) → (read_size : ℕ) → List ℕ → M (Option ℕ)
  after_number str optional read_size buf = elim (check_buf_with_int strtoull buf read_size str) [
    | some local_id ↦
        if leb max_uint32 local_id then fails protocol_error else return (some local_id)
    | none ↦
        if optional then (do step_back_rec_with_cr read_size; return none) else fails protocol_error
  ]

module _ (strtoull : List ℕ → ℕ × ℕ) where
  -- `ic_rec_number_impl`
  pub rec_number_impl : (str : List ℕ) → (optional : Bool) → M (Option ℕ)
  rec_number_impl str optional = do
    read_size ← rec_with_cr
    buf ← line_buf
    after_number strtoull str optional read_size buf

module _ (strtoull : List ℕ → ℕ × ℕ) where
  -- `ic_rec_number` and `ic_rec_opt_number`
  pub rec_number : (prefix_str : List ℕ) → M (Option ℕ)
  rec_number prefix_str = rec_number_impl strtoull prefix_str false

  pub rec_opt_number : (str : List ℕ) → M (Option ℕ)
  rec_opt_number str = rec_number_impl strtoull str true

  -- `ic_rec_long_number`
  pub rec_long_number : (prefix_str : List ℕ) → M ℕ
  rec_long_number prefix_str = do
    read_size ← rec_with_cr
    buf ← line_buf
    elim (check_buf_with_int strtoull buf read_size prefix_str) [
      | some local_id ↦ return local_id
      | none ↦ fails protocol_error
    ]

  -- `ic_rec_int_number`
  pub rec_int_number : (str : List ℕ) → M ℤ
  unfolding as_int
  rec_int_number str = do
    read_size ← rec_with_cr
    buf ← line_buf
    elim (check_buf_with_signed_int strtoull buf read_size str) [
      | some (local_number, sign_flag) ↦
          if leb max_uint32 local_number
          then fails protocol_error
          else return
              (as_int (if sign_flag then (2 ^ 32 - local_number) % 2 ^ 32 else local_number))
      | none ↦ fails protocol_error
    ]

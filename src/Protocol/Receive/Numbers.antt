-- ===== src/Protocol/Receive/Numbers.antt =====
-- Lines with a number behind a string. What the text of a number is, is in Send/Texts.
pub mod Lines
use iclaustron.Base.{
  ℕ, zero, suc, ◌+◌, ◌-◌, ◌<◌, ◌≤◌, ◌≡◌, ◌^◌, refl, sym, ap, ◌∙◌, Bool, true, false, not, ◌&&◌,
  ◌||◌, Option, none, some, List, [], ◌∷◌, ◌++◌, ltb, leb, ◌==◌, if◌then◌else◌, length, drop,
  get_elem?, arith, length-append, Bool-cases, inl, inr,
}
use iclaustron.Base.Slices.{append_assoc}
use iclaustron.Strings.Decimal.{AllDigits, value}
use iclaustron.Protocol.{
  Link, M, Reply, got, error, rec_with_cr, step_back_rec_with_cr, carriage_return, space_char,
  protocol_error, resume, ◌>>=◌, return, fails,
}
use iclaustron.Protocol.Frame.{NoReturn, stream, Supplies, Reports}
use iclaustron.Protocol.Frame.Line.{rec_with_cr-line, step_back-line}
use iclaustron.Protocol.Receive.{
  starts, is_space, prefix_end, has_prefix, line_buf, convert_str_to_int_fixed_size,
  check_buf_with_int, check_buf_with_signed_int, max_uint32, after_number, rec_number_impl,
  rec_number, rec_long_number, rec_int_number,
}
use iclaustron.Protocol.Receive.Stream.{Leaves, after_line, starts-append}
use iclaustron.Protocol.Send.Texts.{
  number_text, number_line, IsNumber, number_text-IsNumber, number_line-NoReturn,
  length-number_line, NoReturn-append, digits-NoReturn,
}

-- `g_ascii_strtoull` of decimal digits that mean a number of 64 bits, with another character behind them, gives
-- the number and stops at that character.
abbrev pub ReadsDecimal : (List ℕ → ℕ × ℕ) → Type 0
ReadsDecimal strtoull =
    (ds : List ℕ) (c : ℕ) (rest : List ℕ)
    → AllDigits ds
    → 0 < length ds
    → value 0 ds < 2 ^ 64
    → (leb 48 c && ltb c 58) ≡ false
    → strtoull (ds ++ c ∷ rest) ≡ (value 0 ds, length ds)

starts-digit :
    (ds rest : List ℕ) (c : ℕ)
    → AllDigits ds
    → 0 < length ds
    → c < 48
    → starts (ds ++ rest) (c ∷ []) ≡ false
unfolding starts
starts-digit [] rest c all more small = absurd (omega arith)
starts-digit (d ∷ ds) rest c all more small = ground (arith, all.0)

get_elem?-at : (xs ys : List ℕ) (c : ℕ) → get_elem? (xs ++ c ∷ ys) (length xs) ≡ some c
get_elem?-at [] ys c = refl
get_elem?-at (x ∷ xs) ys c = get_elem?-at xs ys c

drop_past : (xs ys : List ℕ) (c : ℕ) → drop (length xs + 1) (xs ++ c ∷ ys) ≡ ys
drop_past [] ys c = refl
drop_past (x ∷ xs) ys c =
    ap (λ n. drop n (x ∷ (xs ++ c ∷ ys)))
      (let e : length (x ∷ xs) + 1 ≡ suc (length xs + 1) = omega arith in e)
    ∙ drop_past xs ys c

drop_past_two : (xs ys : List ℕ) (c d : ℕ) → drop (length xs + 1 + 1) (xs ++ c ∷ d ∷ ys) ≡ ys
drop_past_two [] ys c d = refl
drop_past_two (x ∷ xs) ys c d =
    ap (λ n. drop n (x ∷ (xs ++ c ∷ d ∷ ys)))
      (let e : length (x ∷ xs) + 1 + 1 ≡ suc (length xs + 1 + 1) = omega arith in e)
    ∙ drop_past_two xs ys c d

prefix_end-space : (str ys : List ℕ) → prefix_end (str ++ space_char ∷ ys) str ≡ length str + 1
unfolding prefix_end is_space
prefix_end-space str ys = ground (arith, get_elem?-at str ys space_char)

has_prefix-space :
    (str ys : List ℕ) (read_size : ℕ)
    → length str + 1 ≤ read_size
    → has_prefix (str ++ space_char ∷ ys) read_size str ≡ true
unfolding has_prefix
has_prefix-space str ys read_size le = ground (arith, starts-append str (space_char ∷ ys))

-- A line "string -number" for a number below 0.
abbrev pub negative_line : (str : List ℕ) → ℕ → List ℕ
negative_line str n = str ++ space_char ∷ 45 ∷ number_text n

module _ (strtoull : List ℕ → ℕ × ℕ) (reads : ReadsDecimal strtoull) where
  -- The digits of a number convert to it.
  convert-number :
      (n : ℕ) (ds rest : List ℕ)
      → IsNumber n ds
      → n < 2 ^ 64
      → convert_str_to_int_fixed_size strtoull (ds ++ carriage_return ∷ rest) (length ds) ≡ some n
  unfolding convert_str_to_int_fixed_size
  convert-number n ds rest number less =
      let run : strtoull (ds ++ carriage_return ∷ rest) ≡ (n, length ds) =
        reads ds carriage_return rest number.all_digits number.some_digit
          (omega (arith, number.means)) refl
        ∙ ap (λ (m : ℕ). (m, length ds)) number.means in
      rw run (elim (Bool-cases (n == 0)) [
        | inr other ↦ ground (arith, number.some_digit)
        | inl is_zero ↦
            let alone : ds ≡ 48 ∷ [] = number.zero_alone (ground arith) in
            (unfold starts in (rw alone (ground arith)))
      ])

  -- A line "string number".
  check_buf_with_int-line :
      (str : List ℕ) (n : ℕ) (behind : List ℕ)
      → n < 2 ^ 64
      → check_buf_with_int strtoull
          (number_line str n ++ carriage_return ∷ behind)
          (length (number_line str n))
          str
        ≡ some n
  unfolding check_buf_with_int
  check_buf_with_int-line str n behind less =
      let ds : List ℕ = number_text n in
      let number : IsNumber n (number_text n) = number_text-IsNumber n less in
      let whole : number_line str n ++ carriage_return ∷ behind
          ≡ str ++ space_char ∷ (number_text n ++ carriage_return ∷ behind) =
        (unfold number_line in
          (append_assoc str (space_char ∷ number_text n) (carriage_return ∷ behind))) in
      let count : length (number_line str n) - (length str + 1) ≡ length (number_text n) =
        omega (arith, length-number_line str n) in
      rw whole (
        rw
          (has_prefix-space str (ds ++ carriage_return ∷ behind) (length (number_line str n))
            (omega (arith, length-number_line str n)))
          (rw (prefix_end-space str (ds ++ carriage_return ∷ behind)) (
            rw (drop_past str (ds ++ carriage_return ∷ behind) space_char)
              (rw count (convert-number n ds behind number less)))))

  -- A line "string -number": the sign is skipped, and then looked for behind it.
  check_buf_with_signed_int-negative :
      (str : List ℕ) (n : ℕ) (behind : List ℕ)
      → n < 2 ^ 64
      → check_buf_with_signed_int strtoull
          (str ++ space_char ∷ 45 ∷ (number_text n ++ carriage_return ∷ behind))
          (length str + suc (suc (length (number_text n))))
          str
        ≡ some (n, false)
  unfolding check_buf_with_signed_int
  check_buf_with_signed_int-negative str n behind less =
      let ds : List ℕ = number_text n in
      let number : IsNumber n (number_text n) = number_text-IsNumber n less in
      let tail : List ℕ = number_text n ++ carriage_return ∷ behind in
      let sign : starts (45 ∷ tail) (45 ∷ []) ≡ true = (unfold starts in refl) in
      let count : (length str + suc (suc (length (number_text n)))) - (length str + 1 + 1)
          ≡ length (number_text n) =
        omega arith in
      rw (has_prefix-space str (45 ∷ tail) (length str + suc (suc (length ds))) (omega arith)) (
        rw (prefix_end-space str (45 ∷ tail)) (
          rw (drop_past str (45 ∷ tail) space_char) (
            rw sign (
              rw (drop_past_two str tail space_char 45) (
                rw count (
                  rw (convert-number n ds behind number less) (
                    rw (prefix_end-space str (45 ∷ tail)) (
                      rw (drop_past str (45 ∷ tail) space_char) (
                        rw (drop_past_two str tail space_char 45) (
                          rw
                            (starts-digit ds (carriage_return ∷ behind) 45 number.all_digits
                              number.some_digit (omega arith))
                            refl))))))))))

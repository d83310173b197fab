-- ===== src/Protocol/Receive/Numbers/Lines.antt =====
-- Lines with a number, read from a connection.
use iclaustron.Base.{
  ℕ, suc, ◌+◌, ◌<◌, ◌≡◌, ◌^◌, refl, true, false, ltb, ◌-◌, ◌%◌, none, some, List, ◌∷◌, ◌++◌, leb,
  if◌then◌else◌, length, arith, length-append, Bool-cases, inl, inr,
}
use iclaustron.Base.Slices.{append_assoc}
use iclaustron.Protocol.{
  Link, got, error, carriage_return, space_char, protocol_error, return, fails,
}
use iclaustron.Protocol.Frame.{NoReturn, stream, Supplies}
use iclaustron.Protocol.Frame.Line.{rec_with_cr-line}
use iclaustron.Protocol.Receive.{
  check_buf_with_int, check_buf_with_signed_int, max_uint32, after_number, rec_number_impl,
  rec_number, rec_long_number, rec_int_number, ℤ, pos, as_int,
}
use iclaustron.Protocol.Receive.Stream.{Leaves, after_line}
use iclaustron.Protocol.Send.Texts.{
  number_text, number_line, number_text-IsNumber, number_line-NoReturn, NoReturn-append,
  digits-NoReturn,
}
use iclaustron.Protocol.Receive.Numbers.{
  ReadsDecimal, check_buf_with_int-line, negative_line, check_buf_with_signed_int-negative,
}

module _ (strtoull : List ℕ → ℕ × ℕ) (reads : ReadsDecimal strtoull) where
  -- `ic_rec_long_number` reads the number of 64 bits from the line that `ic_send_with_cr_with_number` sends, where
  -- `g_ascii_strtoull` reads decimal digits: on a valid connection whose buffer is larger than the line, with rounds
  -- enough for it, and with a string that has no end of a line.
  pub rec_long_number-number_line :
      (room total : ℕ) (str : List ℕ) (n : ℕ) (rest : List ℕ) (s : Link)
      → NoReturn str
      → n < 2 ^ 64
      → length (number_line str n) < room
      → Supplies room (suc (length (number_line str n) + total)) s
      → stream s ≡ number_line str n ++ carriage_return ∷ rest
      → Leaves room total (got n) rest (rec_long_number strtoull str s)
  unfolding rec_long_number
  rec_long_number-number_line room total str n rest s no_return less short supplies flow =
      let reports =
        rec_with_cr-line room total (number_line str n) rest s
          (number_line-NoReturn str n less no_return) short supplies flow in
      rw
        (after_line {B = ℕ} room total (number_line str n) rest s reports (λ read_size buf.
          elim (check_buf_with_int strtoull buf read_size str) [
            | some local_id ↦ return local_id
            | none ↦ fails protocol_error
          ]))
        (rw (check_buf_with_int-line strtoull reads str n reports.behind less)
          (record { result = refl; remains = reports.remains; supplies = reports.supplies }))

  -- `ic_rec_number` of such a line gives each number below 2^32 - 1, and refuses the others with
  -- IC_PROTOCOL_ERROR; in both cases the line is taken.
  pub rec_number-number_line :
      (room total : ℕ) (str : List ℕ) (n : ℕ) (rest : List ℕ) (s : Link)
      → NoReturn str
      → n < 2 ^ 64
      → length (number_line str n) < room
      → Supplies room (suc (length (number_line str n) + total)) s
      → stream s ≡ number_line str n ++ carriage_return ∷ rest
      → Leaves room total
          (if leb max_uint32 n then error protocol_error else got (some n))
          rest
          (rec_number strtoull str s)
  unfolding rec_number rec_number_impl after_number
  rec_number-number_line room total str n rest s no_return less short supplies flow =
      let reports =
        rec_with_cr-line room total (number_line str n) rest s
          (number_line-NoReturn str n less no_return) short supplies flow in
      rw
        (after_line room total (number_line str n) rest s reports (after_number strtoull str false))
        (rw (check_buf_with_int-line strtoull reads str n reports.behind less, after_number)
          (elim (Bool-cases (leb max_uint32 n)) [
            | inl large ↦
                rw large
                  (record { result = refl; remains = reports.remains; supplies = reports.supplies })
            | inr small ↦
                rw small
                  (record { result = refl; remains = reports.remains; supplies = reports.supplies })
          ]))

  -- `ic_rec_int_number` of a line "string -number", with a number below 2^31, gives the number without its sign,
  -- where `g_ascii_strtoull` reads decimal digits: on a valid connection whose buffer is larger than the line, with
  -- rounds enough for it, and with a string that has no end of a line.
  pub rec_int_number-negative :
      (room total : ℕ) (str : List ℕ) (n : ℕ) (rest : List ℕ) (s : Link)
      → NoReturn str
      → n < 2 ^ 31
      → length (negative_line str n) < room
      → Supplies room (suc (length (negative_line str n) + total)) s
      → stream s ≡ negative_line str n ++ carriage_return ∷ rest
      → Leaves room total (got (pos n)) rest (rec_int_number strtoull str s)
  unfolding rec_int_number as_int
  rec_int_number-negative room total str n rest s no_return less short supplies flow =
      let fits : ltb n (2 ^ 31) ≡ true = ground arith in
      let wide : n < 2 ^ 64 = omega arith in
      let reports =
        rec_with_cr-line room total (negative_line str n) rest s
          (NoReturn-append str (space_char ∷ 45 ∷ number_text n) no_return (
            refl,
            (refl, digits-NoReturn (number_text n) (number_text-IsNumber n wide).all_digits),
          ))
          short supplies flow in
      let small : leb max_uint32 n ≡ false = ground arith in
      let line : negative_line str n ++ carriage_return ∷ reports.behind
          ≡ str ++ space_char ∷ 45 ∷ (number_text n ++ carriage_return ∷ reports.behind) =
        append_assoc str (space_char ∷ 45 ∷ number_text n) (carriage_return ∷ reports.behind) in
      rw
        (after_line {B = ℤ} room total (negative_line str n) rest s reports (λ read_size buf.
          elim (check_buf_with_signed_int strtoull buf read_size str) [
            | some (local_number, sign_flag) ↦
                if leb max_uint32 local_number
                then fails protocol_error
                else return
                    (as_int (if sign_flag then (2 ^ 32 - local_number) % 2 ^ 32 else local_number))
            | none ↦ fails protocol_error
          ]))
        (rw line (
          rw (length-append str (space_char ∷ 45 ∷ number_text n)) (
            rw (check_buf_with_signed_int-negative strtoull reads str n reports.behind wide) (
              rw small (
                rw fits (record {
                  result = refl;
                  remains = reports.remains;
                  supplies = reports.supplies;
                }))))))

-- ===== src/Protocol/Receive/Answers.antt =====
-- The two answers to a request, "Ok" and "Error" with a message.
use iclaustron.Base.{ℕ, suc, ◌+◌, ◌<◌, ◌≡◌, refl, true, false, List, [], ◌∷◌, ◌++◌, length, arith}
use iclaustron.Protocol.{
  Link, got, error, rec_with_cr, carriage_return, protocol_error, ◌>>=◌, return,
}
use iclaustron.Protocol.Frame.{Supplies-le, NoReturn, stream, Supplies}
use iclaustron.Protocol.Frame.Line.{rec_with_cr-line}
use iclaustron.Protocol.Receive.{
  ok_str, error_str, line_buf, rec_simple_str, rec_simple_str_opt, rec_empty_line,
  rec_error_message, rec_ok_or_error,
}
use iclaustron.Protocol.Receive.Stream.{
  Leaves, resume-got, resume-error, after_line, rec_simple_str_opt-line, rec_simple_str-same,
  rec_simple_str-other,
}

-- The bytes of `ic_send_ok` and of `ic_send_error_message`, with `rest` behind them.
abbrev pub ok_answer : (rest : List ℕ) → List ℕ
ok_answer rest = ok_str ++ carriage_return ∷ carriage_return ∷ rest

abbrev pub error_answer : (message rest : List ℕ) → List ℕ
error_answer message rest =
    error_str ++ carriage_return ∷ (message ++ carriage_return ∷ carriage_return ∷ rest)

-- Of "Ok" and an empty line, `ic_rec_ok_or_error` returns 0, finds it and takes both lines, on a valid connection
-- with room for three bytes and rounds enough.
pub rec_ok_or_error-ok :
    (buf : List ℕ) (room total : ℕ) (rest : List ℕ) (s : Link)
    → 2 < room
    → Supplies room (4 + total) s
    → stream s ≡ ok_answer rest
    → Leaves room total (got true) rest (rec_ok_or_error buf s)
unfolding rec_ok_or_error rec_empty_line
rec_ok_or_error-ok buf room total rest s wide supplies flow =
    let first =
      (rec_simple_str_opt-line room (suc total) ok_str (carriage_return ∷ rest) ok_str s
          (refl, (refl, tt)) wide (Supplies-le room _ (4 + total) s (omega arith) supplies) flow).0
        refl in
    let second =
      rec_simple_str-same room total [] rest (rec_simple_str_opt ok_str s).0 tt (omega arith)
        (Supplies-le room _ (suc total) _ (omega arith) first.supplies) first.remains in
    rw
      (resume-got (rec_simple_str_opt ok_str s)
        (λ ok_found. rec_simple_str [] >>= λ _. return ok_found) true first.result)
      (rw
        (resume-got (rec_simple_str [] (rec_simple_str_opt ok_str s).0) (λ _. return true) tt
          second.result)
        (record { result = refl; remains = second.remains; supplies = second.supplies }))

error_str-NoReturn : NoReturn error_str
error_str-NoReturn = (refl, (refl, (refl, (refl, (refl, tt)))))

-- Of "Error", a message and an empty line, `ic_rec_ok_or_error` returns IC_PROTOCOL_ERROR and takes nothing, on a
-- valid connection with room for six bytes and rounds enough for them: it tests the pointer `ok_found` in place
-- of what it points to, so the message is not read.
pub rec_ok_or_error-error :
    (buf : List ℕ) (room total : ℕ) (message rest : List ℕ) (s : Link)
    → 5 < room
    → Supplies room (6 + total) s
    → stream s ≡ error_answer message rest
    → Leaves room
        (6 + total)
        (error protocol_error)
        (error_answer message rest)
        (rec_ok_or_error buf s)
unfolding rec_ok_or_error rec_empty_line
rec_ok_or_error-error buf room total message rest s wide supplies flow =
    let behind : List ℕ = message ++ carriage_return ∷ carriage_return ∷ rest in
    let first =
      (rec_simple_str_opt-line room total error_str behind ok_str s error_str-NoReturn wide
          (Supplies-le room _ (6 + total) s (omega arith) supplies) flow).1
        (λ e. cc) in
    let second =
      rec_simple_str-other room total error_str behind [] (rec_simple_str_opt ok_str s).0 (λ e. cc)
        error_str-NoReturn wide first.supplies first.remains in
    rw
      (resume-got (rec_simple_str_opt ok_str s)
        (λ ok_found. rec_simple_str [] >>= λ _. return ok_found) false first.result)
      (rw
        (resume-error (rec_simple_str [] (rec_simple_str_opt ok_str s).0) (λ _. return false)
          protocol_error second.result)
        (record {
          result = refl;
          remains = second.remains;
          supplies = Supplies-le room (6 + total) _ _ (omega arith) second.supplies;
        }))

-- `ic_rec_error_message` takes "Error", a message of one line and an empty line off a valid connection whose buffer is
-- larger than each line, with rounds enough for the bytes, and returns 0, but the caller's buffer is as it was: the
-- message is lost.
pub rec_error_message-lost :
    (buf : List ℕ) (room total : ℕ) (message rest : List ℕ) (s : Link)
    → NoReturn message
    → 5 < room
    → length message < room
    → Supplies room (8 + (length message + total)) s
    → stream s ≡ error_answer message rest
    → Leaves room total (got buf) rest (rec_error_message buf s)
unfolding rec_error_message rec_empty_line
rec_error_message-lost buf room total message rest s no_return wide short supplies flow =
    let s1 : Link = (rec_simple_str error_str s).0 in
    let s2 : Link = (rec_with_cr s1).0 in
    let first =
      rec_simple_str-same room (suc (length message + suc total)) error_str
        (message ++ carriage_return ∷ carriage_return ∷ rest) s error_str-NoReturn wide
        (Supplies-le room _ (8 + (length message + total)) s (omega arith) supplies) flow in
    let second =
      rec_with_cr-line room (suc total) message (carriage_return ∷ rest) s1 no_return short
        first.supplies first.remains in
    let third =
      rec_simple_str-same room total [] rest s2 tt (omega arith)
        (Supplies-le room _ (suc total) s2 (omega arith) second.supplies) second.remains in
    rw
      (resume-got (rec_simple_str error_str s)
        (λ _. rec_with_cr >>= λ buf_size.
          line_buf >>= λ local_buf. rec_simple_str [] >>= λ _. return buf)
        tt first.result)
      (rw
        (after_line room (suc total) message (carriage_return ∷ rest) s1 second
          (λ buf_size local_buf. rec_simple_str [] >>= λ _. return buf))
        (rw (resume-got (rec_simple_str [] s2) (λ _. return buf) tt third.result)
          (record { result = refl; remains = third.remains; supplies = third.supplies })))

-- ===== src/Protocol/Tests.antt =====
-- Runs of the protocol routines, and the properties at concrete connections.
use iclaustron.Base.{
  ℕ, suc, ◌+◌, ◌-◌, ◌*◌, ◌≤◌, ◌≡◌, refl, ap, ◌∙◌, true, false, ◌&&◌, List, [], ◌∷◌, ◌++◌, ltb, leb,
  if◌then◌else◌, length, replicate, arith, Ends,
}
use iclaustron.Strings.Decimal.{AllDigits, value}
use iclaustron.Protocol.{
  Reader, Link, arrives, no_data, got, error, rec_with_cr, rec_loop, complete_line, find_end,
  move_front, put_behind, received, reported,
}
use iclaustron.Protocol.Frame.{unread, Supplies, Supplies-le, Reports}
use iclaustron.Protocol.Frame.Line.{rec_with_cr-line}
use iclaustron.Protocol.Frame.Timeout.{rec_with_cr-stale}
use iclaustron.Protocol.Receive.{
  rec_simple_str_opt, rec_ok_or_error, rec_error_message, rec_long_number, rec_int_number, pos,
  ok_str, error_str,
}
use iclaustron.Protocol.Receive.Stream.{Leaves, rec_simple_str_opt-line}
use iclaustron.Protocol.Receive.Answers.{
  error_answer, ok_answer, rec_ok_or_error-ok, rec_ok_or_error-error, rec_error_message-lost,
}
use iclaustron.Protocol.Receive.Numbers.{ReadsDecimal, negative_line}
use iclaustron.Protocol.Receive.Numbers.Lines.{rec_long_number-number_line, rec_int_number-negative}
use iclaustron.Protocol.Send
use iclaustron.Protocol.Send.{Sender, send_with_cr, send_with_cr_with_number, send_error_message}
use iclaustron.Protocol.Send.Texts.{number_line, number_text-IsNumber, length-number_line}
use iclaustron.Protocol.Send.Appends.{
  Sends, send_with_cr-Sends, SendsLine, send_with_cr_with_number-SendsLine,
  send_error_message-Sends,
}

abbrev fresh : Reader
fresh = record { read_buf = replicate 64 0; size_curr_read_buf = 0; read_buf_pos = 0 }

-- The bytes arrive three at a time.
abbrev opened : List ℕ → Link
opened bytes = record { reader = fresh; pending = bytes; answers = replicate 30 (arrives 3) }

opened-Supplies : (bytes : List ℕ) → Supplies 64 30 (opened bytes)
opened-Supplies bytes = record {
  valid = record { pos-le = omega arith; size-le = omega arith };
  area = refl;
  arrive = tt;
  enough = omega arith;
}

-- "ab" and "c", one after the other.
two_lines : List ℕ
two_lines = 97 ∷ 98 ∷ 10 ∷ 99 ∷ 10 ∷ []

first_line : (rec_with_cr (opened two_lines)).1 ≡ got 2
unfolding rec_with_cr rec_loop complete_line find_end put_behind received reported move_front
    two_lines
first_line = refl

second_line : (rec_with_cr (rec_with_cr (opened two_lines)).0).1 ≡ got 1
unfolding rec_with_cr rec_loop complete_line find_end put_behind received reported move_front
    two_lines
second_line = refl

rec_with_cr-line_example :
    Reports 64 27 (97 ∷ 98 ∷ []) (99 ∷ 10 ∷ []) (rec_with_cr (opened (97 ∷ 98 ∷ 10 ∷ 99 ∷ 10 ∷ [])))
rec_with_cr-line_example =
    rec_with_cr-line 64 27 (97 ∷ 98 ∷ []) (99 ∷ 10 ∷ []) (opened (97 ∷ 98 ∷ 10 ∷ 99 ∷ 10 ∷ []))
      (refl, (refl, tt)) (omega arith) (opened-Supplies (97 ∷ 98 ∷ 10 ∷ 99 ∷ 10 ∷ [])) refl

-- "a" was read, "b" is there without its end, and nothing more comes in time.
abbrev waiting : Link
waiting = record {
  reader = record {
    read_buf = 97 ∷ 10 ∷ 98 ∷ replicate 61 0;
    size_curr_read_buf = 3;
    read_buf_pos = 2;
  };
  pending = [];
  answers = no_data ∷ [];
}

rec_with_cr-stale_example :
    ((rec_with_cr waiting).1 ≡ error 7039)
    × (unread (rec_with_cr waiting).0.reader ≡ 98 ∷ 10 ∷ 98 ∷ [])
    × (length (unread (rec_with_cr waiting).0.reader) ≡ 3)
rec_with_cr-stale_example =
    rec_with_cr-stale waiting [] (record { pos-le = omega arith; size-le = omega arith })
      (omega arith) (refl, tt) refl

rec_simple_str_opt-line_example :
    (error_str ≡ ok_str
      → Leaves 64 24
          (got true)
          (120 ∷ [])
          (rec_simple_str_opt ok_str (opened (error_str ++ 10 ∷ 120 ∷ []))))
    × (¬ (error_str ≡ ok_str)
        → Leaves 64 30
            (got false)
            (error_str ++ 10 ∷ 120 ∷ [])
            (rec_simple_str_opt ok_str (opened (error_str ++ 10 ∷ 120 ∷ []))))
rec_simple_str_opt-line_example =
    rec_simple_str_opt-line 64 24 error_str (120 ∷ []) ok_str (opened (error_str ++ 10 ∷ 120 ∷ []))
      (refl, (refl, (refl, (refl, (refl, tt))))) (omega arith)
      (opened-Supplies (error_str ++ 10 ∷ 120 ∷ [])) refl

-- The caller's buffer, which nothing is put into.
abbrev untouched : List ℕ
untouched = 0 ∷ 0 ∷ []

rec_ok_or_error-ok_example :
    Leaves 64 26 (got true) [] (rec_ok_or_error untouched (opened (ok_answer [])))
rec_ok_or_error-ok_example =
    rec_ok_or_error-ok untouched 64 26 [] (opened (ok_answer [])) (omega arith)
      (opened-Supplies (ok_answer [])) refl

rec_ok_or_error-error_example :
    Leaves 64 30
      (error 7044)
      (error_answer (110 ∷ 111 ∷ []) [])
      (rec_ok_or_error untouched (opened (error_answer (110 ∷ 111 ∷ []) [])))
rec_ok_or_error-error_example =
    rec_ok_or_error-error untouched 64 24 (110 ∷ 111 ∷ []) []
      (opened (error_answer (110 ∷ 111 ∷ []) [])) (omega arith)
      (opened-Supplies (error_answer (110 ∷ 111 ∷ []) [])) refl

rec_error_message-lost_example :
    Leaves 64 20
      (got untouched)
      []
      (rec_error_message untouched (opened (error_answer (110 ∷ 111 ∷ []) [])))
rec_error_message-lost_example =
    rec_error_message-lost untouched 64 20 (110 ∷ 111 ∷ []) []
      (opened (error_answer (110 ∷ 111 ∷ []) [])) (refl, (refl, tt)) (omega arith) (omega arith)
      (opened-Supplies (error_answer (110 ∷ 111 ∷ []) [])) refl

-- A reader of the digits at the front of a text.
read_digits : (acc count : ℕ) → List ℕ → ℕ × ℕ
read_digits acc count [] = (acc, count)
read_digits acc count (c ∷ cs) =
    let rest = read_digits (acc * 10 + (c - 48)) (count + 1) cs in
    if leb 48 c && ltb c 58 then rest else (acc, count)

read_digits-value :
    (ds : List ℕ) (acc count c : ℕ) (rest : List ℕ)
    → AllDigits ds
    → (leb 48 c && ltb c 58) ≡ false
    → read_digits acc count (ds ++ c ∷ rest) ≡ (value acc ds, count + length ds)
unfolding read_digits value
read_digits-value [] acc count c rest all other =
    rw other (ap (λ (n : ℕ). (acc, n)) (let e : count ≡ count + 0 = omega arith in e))
read_digits-value (d ∷ ds) acc count c rest all other =
    let digit : (leb 48 d && ltb d 58) ≡ true = ground (arith, all.0, all.1) in
    rw digit (
      read_digits-value ds (acc * 10 + (d - 48)) (count + 1) c rest all.2 other
      ∙ ap (λ (n : ℕ). (value (acc * 10 + (d - 48)) ds, n))
          (let e : count + 1 + length ds ≡ count + suc (length ds) = omega arith in e))

strtoull : List ℕ → ℕ × ℕ
strtoull str = read_digits 0 0 str

strtoull-ReadsDecimal : ReadsDecimal strtoull
unfolding strtoull
strtoull-ReadsDecimal ds c rest all more less other =
    read_digits-value ds 0 0 c rest all other
    ∙ ap (λ (n : ℕ). (value 0 ds, n)) (let e : 0 + length ds ≡ length ds = omega arith in e)

-- The line "p 27".
abbrev line_27 : List ℕ
line_27 = number_line (112 ∷ []) 27

line_27-short : length line_27 ≤ 22
line_27-short =
    omega (arith, length-number_line (112 ∷ []) 27, (number_text-IsNumber 27 (omega arith)).short)

rec_long_number-number_line_example :
    Leaves 64 0
      (got 27)
      (120 ∷ [])
      (rec_long_number strtoull (112 ∷ []) (opened (line_27 ++ 10 ∷ 120 ∷ [])))
rec_long_number-number_line_example =
    rec_long_number-number_line strtoull strtoull-ReadsDecimal 64 0 (112 ∷ []) 27 (120 ∷ [])
      (opened (line_27 ++ 10 ∷ 120 ∷ [])) (refl, tt) (omega arith) (omega (arith, line_27-short))
      (Supplies-le 64 _ 30 (opened (line_27 ++ 10 ∷ 120 ∷ [])) (omega (arith, line_27-short))
        (opened-Supplies (line_27 ++ 10 ∷ 120 ∷ [])))
      refl

abbrev line_minus_27 : List ℕ
line_minus_27 = negative_line (112 ∷ []) 27

line_minus_27-short : length line_minus_27 ≤ 23
line_minus_27-short = omega (arith, (number_text-IsNumber 27 (omega arith)).short)

rec_int_number-negative_example :
    Leaves 64 0
      (got (pos 27))
      (120 ∷ [])
      (rec_int_number strtoull (112 ∷ []) (opened (line_minus_27 ++ 10 ∷ 120 ∷ [])))
rec_int_number-negative_example =
    rec_int_number-negative strtoull strtoull-ReadsDecimal 64 0 (112 ∷ []) 27 (120 ∷ [])
      (opened (line_minus_27 ++ 10 ∷ 120 ∷ [])) (refl, tt) (omega arith)
      (omega (arith, line_minus_27-short))
      (Supplies-le 64 _ 30 (opened (line_minus_27 ++ 10 ∷ 120 ∷ []))
        (omega (arith, line_minus_27-short)) (opened-Supplies (line_minus_27 ++ 10 ∷ 120 ∷ [])))
      refl

-- A sender with the line "a" in its buffer, which then writes without an error.
abbrev sender : Sender
sender = record { write_buf = 97 ∷ 10 ∷ []; write_buf_size = 200; sent = []; answers = [] }

sender-IsValid : Send.Appends.IsValid sender
sender-IsValid = record { fits = omega arith }

send_with_cr_with_number-SendsLine_example :
    Ends
      (send_with_cr_with_number sender (112 ∷ []) 27)
      (SendsLine sender (number_line (112 ∷ []) 27))
send_with_cr_with_number-SendsLine_example =
    send_with_cr_with_number-SendsLine sender (112 ∷ []) 27 sender-IsValid (omega arith)
      (omega arith) (omega arith)

-- ===== src/Protocol/Send.antt =====
-- comm/ic_protocol_support.c: the routines that send lines, and `flush_connection` of comm/ic_connection.c. What
-- `ic_write_connection` returns is the list `answers`, 0 behind its end; what a failing write has sent of
-- its bytes is left open, and not counted in `sent`.
pub mod Texts
pub mod Appends
use iclaustron.Base.{
  ℕ, zero, suc, ◌+◌, ◌-◌, Bool, true, false, ◌&&◌, Option, none, some, List, [], ◌∷◌, ◌++◌, Outcome,
  ok, undefined, aborted, ◌>>=◌, ◌>>◌, require, ltb, leb, ◌==◌, if◌then◌else◌, length, take,
}
use iclaustron.Strings.{guint64_str}
use iclaustron.Protocol.{carriage_return, space_char}
use iclaustron.Protocol.Receive.{ok_str, error_str}

-- The writing side of `IC_INT_CONNECTION`: the first `write_buf_pos` bytes of the buffer.
pub record Sender : Type 0 where
  pub write_buf : List ℕ
  pub write_buf_size : ℕ
  pub sent : List ℕ
  pub answers : List ℕ

pub write_answer : List ℕ → ℕ
write_answer [] = 0
write_answer (a ∷ answers) = a

pub next_answers : List ℕ → List ℕ
next_answers [] = []
next_answers (a ∷ answers) = answers

-- `ic_write_connection` of the buffer, and `write_buf_pos= 0`: its return value.
pub write_out : Sender → Sender × ℕ
unfolding write_answer next_answers
write_out s =
    let code = write_answer s.answers in
    (
      record s {
        write_buf = [];
        sent = if code == 0 then s.sent ++ s.write_buf else s.sent;
        answers = next_answers s.answers;
      },
      code,
    )

-- The bytes of a line behind those in the buffer, which is undefined past its end.
pub append_line : Sender → List ℕ → Outcome (Sender × ℕ)
append_line s line =
    if leb (length s.write_buf + length line + 1) s.write_buf_size
    then ok (record s { write_buf = s.write_buf ++ (line ++ carriage_return ∷ []) }, 0)
    else undefined

-- `ic_send_with_cr` behind its assertion.
pub send_line : Sender → List ℕ → Outcome (Sender × ℕ)
send_line s send_buf =
    if ltb s.write_buf_size (length s.write_buf + length send_buf + 1)
    then (let (s', code) = write_out s in
        if code == 0 then append_line s' send_buf else ok (s', code))
    else append_line s send_buf

-- `ic_send_with_cr`
pub send_with_cr : Sender → List ℕ → Outcome (Sender × ℕ)
send_with_cr s send_buf =
    require (ltb (length send_buf + 1) s.write_buf_size) >> send_line s send_buf

-- `flush_connection`
pub flush_connection : Sender → Outcome (Sender × ℕ)
flush_connection s = require (ltb 0 (length s.write_buf)) >> ok (write_out s)

-- The next call, where this one has returned 0.
abbrev pub and_then : Outcome (Sender × ℕ) → (Sender → Outcome (Sender × ℕ)) → Outcome (Sender × ℕ)
and_then m next = m >>= λ r. if r.1 == 0 then next r.0 else ok r

-- `ic_send_empty_line`
pub send_empty_line : Sender → Outcome (Sender × ℕ)
send_empty_line s = and_then (send_with_cr s []) flush_connection

-- `ic_send_ok`
pub send_ok : Sender → Outcome (Sender × ℕ)
send_ok s = and_then (send_with_cr s ok_str) send_empty_line

-- `ic_send_error_message`
pub send_error_message : Sender → (error_message : List ℕ) → Outcome (Sender × ℕ)
send_error_message s error_message =
    and_then (send_with_cr s error_str)
      (λ s1. and_then (send_with_cr s1 error_message) send_empty_line)

-- The characters of a text before its 0.
pub to_null : List ℕ → List ℕ
to_null [] = []
to_null (c ∷ cs) = let rest = to_null cs in if c == 0 then [] else c ∷ rest

-- `g_snprintf` of "%s %s" into `out_buf[128]`.
pub print_pair : (first second : List ℕ) → List ℕ
print_pair first second = take 127 (first ++ (space_char ∷ second))

-- `ic_send_with_cr_with_number`
pub send_with_cr_with_number : Sender → (in_buf : List ℕ) → (number : ℕ) → Outcome (Sender × ℕ)
send_with_cr_with_number s in_buf number = elim (guint64_str number) [
  | none ↦ undefined
  | some (text, len) ↦ send_with_cr s (print_pair in_buf (to_null text))
]

-- The loop of `ic_send_with_cr_composed`: each string with a space behind it, in 2048 characters.
pub compose : (local : List ℕ) → List (List ℕ) → Outcome (List ℕ)
compose local [] = ok local
compose local (str ∷ strs) =
    let rest = compose (local ++ (str ++ space_char ∷ [])) strs in
    if leb (length local + length str + 1) 2048 then rest else undefined

-- The last space becomes the end of the text.
pub without_last : List ℕ → Outcome (List ℕ)
without_last [] = undefined
without_last (c ∷ cs) = ok (take (length cs) (c ∷ cs))

-- `ic_send_with_cr_composed`
pub send_with_cr_composed : Sender → List (List ℕ) → Outcome (Sender × ℕ)
send_with_cr_composed s strs = do
  local ← compose [] strs
  text ← without_last local
  send_with_cr s text

-- `ic_send_with_cr_two_strings`
pub send_with_cr_two_strings : Sender → (buf1 buf2 : List ℕ) → Outcome (Sender × ℕ)
send_with_cr_two_strings s buf1 buf2 = send_with_cr_composed s (buf1 ∷ buf2 ∷ [])

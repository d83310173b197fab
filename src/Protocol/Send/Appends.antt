-- ===== src/Protocol/Send/Appends.antt =====
-- What the sending routines do with the stream of bytes that leaves the connection.
use iclaustron.Base.{
  ℕ, ◌+◌, ◌<◌, ◌≤◌, ◌≡◌, ◌≢◌, ◌^◌, if◌then◌else◌, refl, sym, ap, ◌∙◌, true, inl, inr, List, [], ◌∷◌,
  ◌++◌, Outcome, ok, Ends, ltb, leb, ◌==◌, length, take, arith, length-append, Bool-cases, lt→ltb,
}
use iclaustron.Base.Slices.{append_assoc, append_nil, take-ge}
use iclaustron.Protocol.{carriage_return, space_char}
use iclaustron.Protocol.Receive.{ok_str, error_str}
use iclaustron.Protocol.Receive.Answers.{ok_answer, error_answer}
use iclaustron.Protocol.Send.{
  Sender, write_answer, write_out, append_line, send_line, send_with_cr, flush_connection, and_then,
  send_empty_line, send_ok, send_error_message, to_null, print_pair, send_with_cr_with_number,
}
use iclaustron.Protocol.Send.Texts.{
  number_text, number_line, number_text-IsNumber, length-number_line, guint64_str-number_text,
}

-- All bytes that were given to the connection: those that were sent and those in the buffer.
abbrev pub given : Sender → List ℕ
given s = s.sent ++ s.write_buf

pub record IsValid (s : Sender) : Type 0 where
  pub fits : length s.write_buf ≤ s.write_buf_size

-- A send that leaves a valid connection, and where it returns 0, the bytes behind what was given before.
pub record Sends (size : ℕ) (bytes : List ℕ) (s : Sender) (r : Sender × ℕ) : Type 0 where
  pub valid : IsValid r.0
  pub area : r.0.write_buf_size ≡ size
  pub appended : r.1 ≡ 0 → given r.0 ≡ given s ++ bytes

append_line-Sends :
    (s : Sender) (line : List ℕ)
    → length s.write_buf + length line + 1 ≤ s.write_buf_size
    → Ends (append_line s line) (Sends s.write_buf_size (line ++ carriage_return ∷ []) s)
unfolding append_line
append_line-Sends s line le =
    let line' : List ℕ = line ++ carriage_return ∷ [] in
    let fits : leb (length s.write_buf + length line + 1) s.write_buf_size ≡ true = ground arith in
    (
      (record s { write_buf = s.write_buf ++ line' }, 0),
      rw fits refl,
      record {
        valid = record {
          fits =
              omega
                (arith, length-append s.write_buf line', length-append line (carriage_return ∷ []));
        };
        area = refl;
        appended = λ done. sym (append_assoc s.sent s.write_buf line');
      },
    )

-- A buffer that is written out is sent, where the write returns 0.
write_out-given : (s : Sender) → (write_out s).1 ≡ 0 → given (write_out s).0 ≡ given s
unfolding write_out
write_out-given s done = rw done (append_nil (s.sent ++ s.write_buf))

send_line-Sends :
    (s : Sender) (line : List ℕ)
    → IsValid s
    → length line + 1 ≤ s.write_buf_size
    → Ends (send_line s line) (Sends s.write_buf_size (line ++ carriage_return ∷ []) s)
unfolding send_line
send_line-Sends s line v le =
    elim (Bool-cases (ltb s.write_buf_size (length s.write_buf + length line + 1))) [
      | inr room ↦ rw room (append_line-Sends s line (ground arith))
      | inl full ↦ elim (Bool-cases ((write_out s).1 == 0)) [
        | inr failed ↦ (
          write_out s,
          rw (full, failed) refl,
          record {
            valid = record { fits = (unfold write_out in (omega arith)) };
            area = (unfold write_out in refl);
            appended = λ done. absurd (ground arith);
          },
        )
        | inl done ↦
            let (r, run, sends) =
              append_line-Sends (write_out s).0 line (unfold write_out in (omega arith)) in
            (
              r,
              rw (full, done) run,
              record {
                valid = sends.valid;
                area = sends.area ∙ (unfold write_out in refl);
                appended = λ none_failed.
                    sends.appended none_failed
                    ∙ ap (λ xs. xs ++ (line ++ carriage_return ∷ []))
                        (write_out-given s (ground arith));
              },
            )
      ]
    ]

-- `ic_send_with_cr` of a line for which the buffer has room, with a byte to spare, ends on a valid connection
-- and leaves a valid one. Where it returns 0, the line and its end stand behind all that was given to the connection
-- before.
pub send_with_cr-Sends :
    (s : Sender) (line : List ℕ)
    → IsValid s
    → length line + 1 < s.write_buf_size
    → Ends (send_with_cr s line) (Sends s.write_buf_size (line ++ carriage_return ∷ []) s)
unfolding send_with_cr
send_with_cr-Sends s line v less =
    rw (lt→ltb (length line + 1) s.write_buf_size less) (send_line-Sends s line v (omega arith))

-- What one line makes `ic_send_with_cr` return: the answer of `ic_write_connection` where the buffer has no room for
-- the line and its end behind what it holds, and 0 where it has.
unfoldable pub line_code : Sender → (line : List ℕ) → ℕ
line_code s line =
    if ltb s.write_buf_size (length s.write_buf + length line + 1)
    then write_answer s.answers
    else 0

-- The bytes of a line were sent or are in the buffer; the return value is that of the write, and where the write
-- fails, nothing more counts as sent and the buffer is empty.
pub record SendsLine (s : Sender) (line : List ℕ) (r : Sender × ℕ) : Type 0 where
  pub sends : Sends s.write_buf_size (line ++ carriage_return ∷ []) s r
  pub code : r.1 ≡ line_code s line
  pub lost : r.1 ≢ 0 → given r.0 ≡ s.sent

send_with_cr-code :
    (s : Sender) (line : List ℕ) (r : Sender × ℕ)
    → send_with_cr s line ≡ ok r
    → (r.1 ≡ line_code s line) × (r.1 ≢ 0 → given r.0 ≡ s.sent)
unfolding send_with_cr send_line append_line write_out line_code
send_with_cr-code s line r run = (ground arith, λ failed. ground (arith, append_nil s.sent))

pub send_with_cr-SendsLine :
    (s : Sender) (line : List ℕ)
    → IsValid s
    → length line + 1 < s.write_buf_size
    → Ends (send_with_cr s line) (SendsLine s line)
send_with_cr-SendsLine s line v less =
    let (r, run, sends) = send_with_cr-Sends s line v less in
    let (code, lost) = send_with_cr-code s line r run in
    (r, run, record { sends = sends; code = code; lost = lost })

-- `ic_send_with_cr_with_number` of a string of 106 characters at most and a number of 64 bits ends on a valid
-- connection whose buffer has more than 128 bytes, and leaves a valid one. Where the buffer has room for the line
-- "string number" and its end, or the write of what it holds returns 0, it returns 0 and the line stands behind all
-- that was given to the connection before. Otherwise it returns the error of the write, and what was in the buffer is
-- lost.
pub send_with_cr_with_number-SendsLine :
    (s : Sender) (in_buf : List ℕ) (number : ℕ)
    → IsValid s
    → length in_buf ≤ 106
    → number < 2 ^ 64
    → 128 < s.write_buf_size
    → Ends (send_with_cr_with_number s in_buf number) (SendsLine s (number_line in_buf number))
unfolding send_with_cr_with_number
send_with_cr_with_number-SendsLine s in_buf number v short less wide =
    let (text, len, run, digits) = guint64_str-number_text number less in
    let fits : length (number_line in_buf number) ≤ 127 =
      omega (arith, length-number_line in_buf number, (number_text-IsNumber number less).short) in
    let whole : print_pair in_buf (to_null text) ≡ number_line in_buf number =
      (unfold print_pair number_line in
        (ap (λ ds. take 127 (in_buf ++ space_char ∷ ds)) digits
          ∙ take-ge 127 (in_buf ++ space_char ∷ number_text number) fits)) in
    rw (run, send_with_cr_with_number)
      (rw whole (send_with_cr-SendsLine s (number_line in_buf number) v (omega arith)))

send_with_cr-held :
    (s : Sender) (line : List ℕ) (r : Sender × ℕ)
    → send_with_cr s line ≡ ok r
    → r.1 ≡ 0
    → 0 < length r.0.write_buf
unfolding send_with_cr send_line append_line write_out
send_with_cr-held s line r run done = ground (
  arith,
  length-append s.write_buf (line ++ carriage_return ∷ []),
  length-append line (carriage_return ∷ []),
)

-- Two sends in turn.
and_then-Sends :
    (size : ℕ) (first second : List ℕ) (s : Sender) (m : Outcome (Sender × ℕ))
    (next : Sender → Outcome (Sender × ℕ))
    → Ends m (Sends size first s)
    → ((s' : Sender)
        → m ≡ ok (s', 0)
        → IsValid s'
        → s'.write_buf_size ≡ size
        → Ends (next s') (Sends size second s'))
    → Ends (and_then m next) (Sends size (first ++ second) s)
and_then-Sends size first second s m next ((s1, code), run, sends) follow =
    rw run (elim (Bool-cases (code == 0)) [
      | inr failed ↦ (
        (s1, code),
        rw failed refl,
        record { valid = sends.valid; area = sends.area; appended = λ done. absurd (ground arith) },
      )
      | inl done ↦
          let none_failed : code ≡ 0 = ground arith in
          let (r2, run2, sends2) =
            follow s1 (run ∙ ap (λ c. ok (s1, c)) none_failed) sends.valid sends.area in
          (
            r2,
            rw done run2,
            record {
              valid = sends2.valid;
              area = sends2.area;
              appended = λ ended.
                  sends2.appended ended
                  ∙ ap (λ xs. xs ++ second) (sends.appended none_failed)
                  ∙ append_assoc (given s) first second;
            },
          )
    ])

flush_connection-Sends :
    (s : Sender) → 0 < length s.write_buf → Ends (flush_connection s) (Sends s.write_buf_size [] s)
unfolding flush_connection
flush_connection-Sends s held = (
  write_out s,
  rw (lt→ltb 0 (length s.write_buf) held) refl,
  record {
    valid = record { fits = (unfold write_out in (omega arith)) };
    area = (unfold write_out in refl);
    appended = λ done. write_out-given s done ∙ sym (append_nil (given s));
  },
)

send_empty_line-Sends :
    (size : ℕ) (s : Sender)
    → IsValid s
    → s.write_buf_size ≡ size
    → 1 < size
    → Ends (send_empty_line s) (Sends size (carriage_return ∷ []) s)
unfolding send_empty_line
send_empty_line-Sends size s v area wide =
    let wide' : 1 < s.write_buf_size = omega (arith, area) in
    rw (sym area) (
      and_then-Sends s.write_buf_size (carriage_return ∷ []) [] s (send_with_cr s [])
        flush_connection (send_with_cr-Sends s [] v wide')
        (λ s' run v' area'.
          rw (sym area') (flush_connection-Sends s' (send_with_cr-held s [] (s', 0) run refl))))

pub send_ok-Sends :
    (size : ℕ) (s : Sender)
    → IsValid s
    → s.write_buf_size ≡ size
    → 3 < size
    → Ends (send_ok s) (Sends size (ok_answer []) s)
unfolding send_ok
send_ok-Sends size s v area wide = rw (sym area) (
    and_then-Sends s.write_buf_size (ok_str ++ carriage_return ∷ []) (carriage_return ∷ []) s
      (send_with_cr s ok_str) send_empty_line
      (send_with_cr-Sends s ok_str v
        (let fits : 3 < s.write_buf_size = omega (arith, area) in fits))
      (λ s' run v' area'. send_empty_line-Sends s.write_buf_size s' v' area' (omega (arith, area))))

error_answer-parts :
    (message : List ℕ)
    → (error_str ++ carriage_return ∷ [])
        ++ ((message ++ carriage_return ∷ []) ++ carriage_return ∷ [])
      ≡ error_answer message []
error_answer-parts message =
    ap (λ xs. error_str ++ carriage_return ∷ xs)
      (append_assoc message (carriage_return ∷ []) (carriage_return ∷ []))

-- `ic_send_error_message` on a valid connection, whose buffer is larger by two bytes than the message and has more than
-- six bytes, ends. Where it returns 0, "Error", the message and an empty line stand behind all that was given to the
-- connection before.
pub send_error_message-Sends :
    (s : Sender) (message : List ℕ)
    → IsValid s
    → 6 < s.write_buf_size
    → length message + 1 < s.write_buf_size
    → Ends (send_error_message s message) (Sends s.write_buf_size (error_answer message []) s)
unfolding send_error_message
send_error_message-Sends s message v wide fits =
    let size : ℕ = s.write_buf_size in
    rw (sym (error_answer-parts message)) (
      and_then-Sends size (error_str ++ carriage_return ∷ [])
        ((message ++ carriage_return ∷ []) ++ carriage_return ∷ []) s (send_with_cr s error_str)
        (λ s1. and_then (send_with_cr s1 message) send_empty_line)
        (send_with_cr-Sends s error_str v wide)
        (λ s1 run v1 area1. rw (sym area1) (
          and_then-Sends s1.write_buf_size (message ++ carriage_return ∷ []) (carriage_return ∷ [])
            s1 (send_with_cr s1 message) send_empty_line
            (send_with_cr-Sends s1 message v1 (omega (arith, area1)))
            (λ s2 run2 v2 area2.
              send_empty_line-Sends s1.write_buf_size s2 v2 area2 (omega (arith, area1))))))

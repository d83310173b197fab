-- ===== src/Protocol/Frame/Line.antt =====
-- One line off the stream, and its return by `ic_step_back_rec_with_cr`.
use iclaustron.Base.{
  ℕ, suc, ◌+◌, ◌-◌, ◌<◌, ◌≤◌, ◌≡◌, sym, ap, ◌∙◌, List, [], ◌∷◌, ◌++◌, ltb, length, take, drop,
  arith, length-append, length-drop, Bool-cases, inl, inr,
}
use iclaustron.Base.Slices.{take_front, take_behind, drop-ge, drop-zero_of, append_assoc}
use iclaustron.Protocol.{
  Reader, Link, Reply, move_front, rec_with_cr, step_back_rec_with_cr, carriage_return,
}
use iclaustron.Protocol.Frame.{NoReturn, unread, stream, IsValid, Supplies, Reports, length-held}
use iclaustron.Protocol.Frame.Portions.{drop_line, rec_loop-line}

pub take-move_front :
    (buf : List ℕ) (pos size : ℕ)
    → pos ≤ size
    → size ≤ length buf
    → take (size - pos) (move_front buf pos size) ≡ drop pos (take size buf)
unfolding move_front
take-move_front buf pos size le fits =
    take_front (size - pos) (drop pos (take size buf)) (drop (size - pos) buf)
      (omega (arith, length-drop pos (take size buf), length-held size buf fits))

pub length-move_front :
    (buf : List ℕ) (pos size : ℕ)
    → pos ≤ size
    → size ≤ length buf
    → length (move_front buf pos size) ≡ length buf
unfolding move_front
length-move_front buf pos size le fits =
    length-append (drop pos (take size buf)) (drop (size - pos) buf)
    ∙ omega (
      arith,
      length-drop pos (take size buf),
      length-held size buf fits,
      length-drop (size - pos) buf,
    )

pub length-unread :
    (r : Reader) → IsValid r → length (unread r) ≡ r.size_curr_read_buf - r.read_buf_pos
length-unread r v = omega (
  arith,
  length-drop r.read_buf_pos (take r.size_curr_read_buf r.read_buf),
  length-held r.size_curr_read_buf r.read_buf v.size-le,
)

unread-empty : (r : Reader) → IsValid r → r.size_curr_read_buf ≡ 0 → unread r ≡ []
unread-empty r v e =
    drop-ge r.read_buf_pos (take r.size_curr_read_buf r.read_buf)
      (omega (arith, length-held r.size_curr_read_buf r.read_buf v.size-le))

-- On a valid connection whose buffer is larger than the line, `ic_rec_with_cr` returns 0 and reports the first
-- line of what is sent, in whatever portions of a byte or more it arrives, where there are rounds enough for the
-- bytes of the line: its text is at the front of the buffer, the connection is valid, and the rest stays to be read.
pub rec_with_cr-line :
    (room total : ℕ) (text rest : List ℕ) (s : Link)
    → NoReturn text
    → length text < room
    → Supplies room (suc (length text + total)) s
    → stream s ≡ text ++ carriage_return ∷ rest
    → Reports room total text rest (rec_with_cr s)
unfolding rec_with_cr
rec_with_cr-line room total text rest s no_return short v flow =
    let r : Reader = s.reader in
    let pos : ℕ = s.reader.read_buf_pos in
    let size : ℕ = s.reader.size_curr_read_buf in
    let counted : length (unread s.reader) ≡ size - pos = length-unread s.reader v.valid in
    elim (Bool-cases (ltb 0 size)) [
      | inl some_held ↦ rw some_held (
          rec_loop-line room total text rest no_return short s.answers s.pending (size - pos)
            (record r { read_buf = move_front r.read_buf pos size; read_buf_pos = 0 })
            (length-move_front r.read_buf pos size v.valid.pos-le v.valid.size-le ∙ v.area)
            (omega (arith, v.valid.size-le, v.area)) v.arrive
            (ap (λ xs. xs ++ s.pending)
                (take-move_front r.read_buf pos size v.valid.pos-le v.valid.size-le)
              ∙ flow)
            (omega (arith, v.enough, counted)))
      | inr none_held ↦
          let empty : size ≡ 0 = ground arith in
          rw none_held (
            rec_loop-line room total text rest no_return short s.answers s.pending size r v.area
              (omega arith) v.arrive
              (ap (λ n. take n r.read_buf ++ s.pending) empty
                ∙ ap (λ xs. xs ++ s.pending) (sym (unread-empty r v.valid empty))
                ∙ flow)
              (omega (arith, v.enough, counted)))
    ]

-- `ic_step_back_rec_with_cr` of the line just reported puts it back in front of what is to be read.
pub step_back-line :
    (room total : ℕ) (text rest : List ℕ) (run : Link × Reply ℕ)
    → Reports room total text rest run
    → (stream (step_back_rec_with_cr (length text) run.0).0 ≡ text ++ carriage_return ∷ rest)
      × Supplies room (suc (length text + total)) (step_back_rec_with_cr (length text) run.0).0
unfolding step_back_rec_with_cr
step_back-line room total text rest (s, reply) reports =
    let r : Reader = s.reader in
    let size : ℕ = s.reader.size_curr_read_buf in
    let line : List ℕ = text ++ carriage_return ∷ [] in
    let long : length line ≡ length text + 1 = length-append text (carriage_return ∷ []) in
    let behind : List ℕ = reports.behind in
    let v : IsValid s.reader = reports.supplies.valid in
    let back : r.read_buf_pos - (length text + 1) ≡ 0 = omega (arith, reports.position) in
    let held : take size r.read_buf ≡ line ++ take (size - length line) behind =
      ap (take size) (reports.front ∙ sym (append_assoc text (carriage_return ∷ []) behind))
      ∙ take_behind size (size - length line) line behind
          (omega (arith, v.pos-le, reports.position, long)) in
    let whole : take size r.read_buf ≡ text ++ carriage_return ∷ take (size - length line) behind =
      held ∙ append_assoc text (carriage_return ∷ []) (take (size - length line) behind) in
    let left : unread r ≡ take (size - length line) behind =
      ap (λ n. drop n (take size r.read_buf)) reports.position
      ∙ ap (drop (length text + 1)) whole
      ∙ drop_line text (take (size - length line) behind) in
    let again : drop (r.read_buf_pos - (length text + 1)) (take size r.read_buf)
        ≡ text ++ carriage_return ∷ unread r =
      drop-zero_of (r.read_buf_pos - (length text + 1)) (take size r.read_buf) back
      ∙ whole
      ∙ ap (λ xs. text ++ carriage_return ∷ xs) (sym left) in
    (
      ap (λ xs. xs ++ s.pending) again
          ∙ append_assoc text (carriage_return ∷ unread r) s.pending
          ∙ ap (λ xs. text ++ carriage_return ∷ xs) reports.remains,
      record {
        valid = record { pos-le = omega (arith, v.pos-le); size-le = v.size-le };
        area = reports.supplies.area;
        arrive = reports.supplies.arrive;
        enough = omega (
          arith,
          reports.supplies.enough,
          ap length again,
          length-append text (carriage_return ∷ unread r),
        );
      },
    )

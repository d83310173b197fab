-- ===== src/Protocol/Frame/Timeout.antt =====
-- A receive that runs into the time limit behind a part of a line.
use iclaustron.Base.{
  ℕ, ◌-◌, ◌<◌, ◌≡◌, refl, ap, ◌∙◌, none, List, ◌∷◌, ◌++◌, length, take, drop, arith, lt→ltb,
}
use iclaustron.Base.Slices.{take_behind}
use iclaustron.Protocol.{
  Reader, Link, Answer, no_data, error, move_front, complete_line, rec_loop, rec_with_cr,
  receive_timeout,
}
use iclaustron.Protocol.Frame.{NoReturn, unread, IsValid, complete_line-none, length-held}
use iclaustron.Protocol.Frame.Line.{take-move_front, length-move_front, length-unread}

rec_loop-no_data :
    (answers : List Answer) (pending : List ℕ) (size : ℕ) (r : Reader)
    → complete_line r.read_buf size ≡ none
    → rec_loop (no_data ∷ answers) pending size r
      ≡ (record { reader = r; pending = pending; answers = answers }, error receive_timeout)
unfolding rec_loop
rec_loop-no_data answers pending size r incomplete = rw (incomplete, rec_loop)

-- The reader that such a receive leaves.
moved : Reader → Reader
moved r = record r {
  read_buf = move_front r.read_buf r.read_buf_pos r.size_curr_read_buf;
  read_buf_pos = 0;
}

stale_run :
    (s : Link) (answers : List Answer)
    → IsValid s.reader
    → 0 < s.reader.size_curr_read_buf
    → NoReturn (unread s.reader)
    → s.answers ≡ no_data ∷ answers
    → rec_with_cr s ≡ (
      record { reader = moved s.reader; pending = s.pending; answers = answers },
      error receive_timeout,
    )
unfolding rec_with_cr moved
stale_run s answers v held no_return e =
    let r : Reader = s.reader in
    let pos : ℕ = s.reader.read_buf_pos in
    let size : ℕ = s.reader.size_curr_read_buf in
    let part : take (size - pos) (move_front r.read_buf pos size) ≡ unread s.reader =
      take-move_front r.read_buf pos size v.pos-le v.size-le in
    let area : length (move_front r.read_buf pos size) ≡ length r.read_buf =
      length-move_front r.read_buf pos size v.pos-le v.size-le in
    rw (lt→ltb 0 size held) (
      ap
        (λ all.
          rec_loop all s.pending (size - pos)
            (record r { read_buf = move_front r.read_buf pos size; read_buf_pos = 0 }))
        e
      ∙ rec_loop-no_data answers s.pending (size - pos)
          (record r { read_buf = move_front r.read_buf pos size; read_buf_pos = 0 })
          (complete_line-none (move_front r.read_buf pos size) (size - pos)
            (omega (arith, v.size-le, area)) (rw part no_return)))

-- On a valid connection whose buffer is not empty and has no whole line unread, a call of `ic_rec_with_cr` in which no
-- data arrives in time returns IC_ERROR_RECEIVE_TIMEOUT. It resets the position and keeps the size: behind the unread
-- part there are then `read_buf_pos` bytes more to be read, the last ones of the used part of the buffer, though
-- nothing has arrived.
pub rec_with_cr-stale :
    (s : Link) (answers : List Answer)
    → IsValid s.reader
    → 0 < s.reader.size_curr_read_buf
    → NoReturn (unread s.reader)
    → s.answers ≡ no_data ∷ answers
    → ((rec_with_cr s).1 ≡ error receive_timeout)
      × (unread (rec_with_cr s).0.reader
          ≡ unread s.reader
            ++ take s.reader.read_buf_pos
                (drop (s.reader.size_curr_read_buf - s.reader.read_buf_pos) s.reader.read_buf))
      × (length (unread (rec_with_cr s).0.reader) ≡ s.reader.size_curr_read_buf)
unfolding moved
rec_with_cr-stale s answers v held no_return e =
    let r : Reader = s.reader in
    let pos : ℕ = s.reader.read_buf_pos in
    let size : ℕ = s.reader.size_curr_read_buf in
    let area : length (move_front r.read_buf pos size) ≡ length r.read_buf =
      length-move_front r.read_buf pos size v.pos-le v.size-le in
    rw (stale_run s answers v held no_return e) (
      refl,
      (unfold move_front in
          (take_behind size pos (unread r) (drop (size - pos) r.read_buf)
            (omega (arith, length-unread r v, v.pos-le)))),
      length-held size (move_front r.read_buf pos size) (omega (arith, area, v.size-le)),
    )

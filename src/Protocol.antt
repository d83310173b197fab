-- ===== src/Protocol.antt =====
-- comm/ic_protocol_support.c: lines of text on a connection. Characters are their codes; a line ends with
-- CARRIAGE_RETURN (10), which stands behind it in the buffer and is not counted in its size.
--
-- A connection is its two buffers and what the other side has sent (`pending`). What the socket answers is a
-- list with an answer for each round of `ic_rec_with_cr`; behind its end a receive `waits`. `ic_read_connection`
-- gives at most what is asked for, and IC_END_OF_FILE where that is nothing.
pub mod Frame
pub mod Receive
pub mod Send
mod Tests
use iclaustron.Base.{
  ℕ, zero, suc, ◌+◌, ◌-◌, Bool, true, false, not, ◌&&◌, ◌||◌, Option, none, some, List, [], ◌∷◌,
  ◌++◌, ltb, leb, ◌==◌, if◌then◌else◌, length, take, drop, min,
}

-- CARRIAGE_RETURN and SPACE_CHAR of ic_base_header.h.
abbrev pub carriage_return : ℕ
carriage_return = 10

abbrev pub space_char : ℕ
space_char = 32

abbrev pub mem_alloc_error : ℕ
mem_alloc_error = 7005

abbrev pub receive_timeout : ℕ
receive_timeout = 7039

abbrev pub end_of_file : ℕ
end_of_file = 7043

abbrev pub protocol_error : ℕ
protocol_error = 7044

-- The reading side of `IC_INT_CONNECTION`. The list is the whole area; its length is `read_buf_size`.
pub record Reader : Type 0 where
  pub read_buf : List ℕ
  pub size_curr_read_buf : ℕ
  pub read_buf_pos : ℕ

-- One round: `ic_check_for_data` returns FALSE, `ic_read_connection` returns an error, or up to so many bytes
-- have arrived.
pub data Answer : Type 0 where
  no_data : Answer
  read_error : ℕ → Answer
  arrives : ℕ → Answer

pub record Link : Type 0 where
  pub reader : Reader
  pub pending : List ℕ
  pub answers : List Answer

-- What a receiving routine returns: 0 and a value, an error code, or nothing yet.
pub data Reply (A : Type 0) : Type 0 where
  got : A → Reply A
  error : ℕ → Reply A
  waits : Reply A

abbrev pub M : Type 0 → Type 0
M A = Link → Link × Reply A

abbrev pub resume : {A B : Type 0} → Link × Reply A → (A → M B) → Link × Reply B
resume (s, got a) f = f a s
resume (s, error code) f = (s, error code)
resume (s, waits) f = (s, waits)

infixl 5 ◌>>=◌ ◌>>◌
abbrev pub ◌>>=◌ : {A B : Type 0} → M A → (A → M B) → M B
◌>>=◌ m f s = resume (m s) f

abbrev pub ◌>>◌ : {A B : Type 0} → M A → M B → M B
m >> n = m >>= λ _. n

abbrev pub return : {A : Type 0} → A → M A
return a s = (s, got a)

abbrev pub fails : {A : Type 0} → ℕ → M A
fails code s = (s, error code)

-- The search for the end of the line: how many characters stand before it.
pub find_end : List ℕ → ℕ
find_end [] = 0
find_end (c ∷ cs) = let rest = find_end cs in if c == carriage_return then 0 else suc rest

-- `memmove` of what is unread to the front.
pub move_front : List ℕ → (pos size : ℕ) → List ℕ
move_front buf pos size = drop pos (take size buf) ++ drop (size - pos) buf

-- Bytes that `ic_read_connection` puts behind the first `size`.
pub put_behind : List ℕ → (size : ℕ) → (bytes : List ℕ) → List ℕ
put_behind buf size bytes = take size buf ++ (bytes ++ drop (size + length bytes) buf)

-- Whether there is a line to report: the size of the first line.
pub complete_line : List ℕ → (size : ℕ) → Option ℕ
unfolding find_end
complete_line buf size =
    let inx = find_end (take size buf) in if ltb 0 size && not (inx == size) then some inx else none

-- What the socket gives for a request of `size_to_read` bytes.
pub received : (n size_to_read : ℕ) → List ℕ → List ℕ
received n size_to_read pending = take (min n size_to_read) pending

-- The line of `size` bytes in the buffer is reported.
pub reported : Reader → (size inx : ℕ) → Reader
reported r size inx = record r { size_curr_read_buf = size; read_buf_pos = inx + 1 }

-- The `do` loop of `ic_rec_with_cr`; `size` is its `size_curr_buf`.
pub rec_loop : List Answer → (pending : List ℕ) → (size : ℕ) → Reader → Link × Reply ℕ
rec_loop [] pending size r = elim (complete_line r.read_buf size) [
  | some inx ↦ (record { reader = reported r size inx; pending = pending; answers = [] }, got inx)
  | none ↦ (record { reader = r; pending = pending; answers = [] }, waits)
]
rec_loop (no_data ∷ answers) pending size r = elim (complete_line r.read_buf size) [
  | some inx ↦ (
    record { reader = reported r size inx; pending = pending; answers = no_data ∷ answers },
    got inx,
  )
  | none ↦ (record { reader = r; pending = pending; answers = answers }, error receive_timeout)
]
rec_loop (read_error code ∷ answers) pending size r = elim (complete_line r.read_buf size) [
  | some inx ↦ (
    record { reader = reported r size inx; pending = pending; answers = read_error code ∷ answers },
    got inx,
  )
  | none ↦ (record { reader = r; pending = pending; answers = answers }, error code)
]
rec_loop (arrives n ∷ answers) pending size r =
    let bytes = received n (length r.read_buf - size) pending in
    let rest =
      rec_loop answers (drop (length bytes) pending) (size + length bytes)
        (record r { read_buf = put_behind r.read_buf size bytes }) in
    elim (complete_line r.read_buf size) [
      | some inx ↦ (
        record { reader = reported r size inx; pending = pending; answers = arrives n ∷ answers },
        got inx,
      )
      | none ↦ elim bytes [
        | [] ↦ (record { reader = r; pending = pending; answers = answers }, error end_of_file)
        | b ∷ bs ↦ rest
      ]
    ]

-- `ic_rec_with_cr`: the size of the line, which stands at the front of the buffer.
pub rec_with_cr : M ℕ
rec_with_cr s =
    let r = s.reader in
    let pos = r.read_buf_pos in
    let size = r.size_curr_read_buf in
    if ltb 0 size
    then rec_loop s.answers s.pending (size - pos)
        (record r { read_buf = move_front r.read_buf pos size; read_buf_pos = 0 })
    else rec_loop s.answers s.pending size r

-- `ic_step_back_rec_with_cr`
pub step_back_rec_with_cr : (read_size : ℕ) → M (Unit {0})
step_back_rec_with_cr read_size s =
    let r = s.reader in
    (record s { reader = record r { read_buf_pos = r.read_buf_pos - (read_size + 1) } }, got tt)

-- ===== src/Protocol/Frame.antt =====
-- The lines of a stream: what `ic_rec_with_cr` reports depends on the bytes that are sent alone, and not on the
-- portions in which they arrive.
pub mod Portions
pub mod Line
pub mod Timeout
use iclaustron.Base.{
  ℕ, zero, suc, ◌+◌, ◌-◌, ◌<◌, ◌≤◌, ◌≡◌, refl, sym, ap, ◌∙◌, Bool, true, false, not, Option, none,
  some, List, [], ◌∷◌, ◌++◌, ltb, ◌==◌, if◌then◌else◌, length, take, drop, min, arith,
  length-append, length-take, length-drop, take-append-drop, Bool-cases, inl, inr,
}
use iclaustron.Base.Slices.{
  take_front, take_behind, drop-append, drop-ge, drop-zero_of, append_assoc,
}
use iclaustron.Protocol.{
  Reader, Link, Answer, arrives, no_data, read_error, Reply, got, error, waits, find_end,
  move_front, put_behind, complete_line, received, reported, rec_loop, rec_with_cr,
  step_back_rec_with_cr, carriage_return,
}

-- No end of a line.
abbrev pub NoReturn : List ℕ → Type 0
NoReturn [] = Unit
NoReturn (c ∷ cs) = ((c == carriage_return) ≡ false) × NoReturn cs

-- Each round brings a byte or more.
abbrev pub AllArrive : List Answer → Type 0
AllArrive [] = Unit
AllArrive (no_data ∷ answers) = ⊥
AllArrive (read_error code ∷ answers) = ⊥
AllArrive (arrives zero ∷ answers) = ⊥
AllArrive (arrives (suc n) ∷ answers) = AllArrive answers

-- The bytes that have arrived and are not yet read.
abbrev pub unread : Reader → List ℕ
unread r = drop r.read_buf_pos (take r.size_curr_read_buf r.read_buf)

-- The bytes that are still to be read.
abbrev pub stream : Link → List ℕ
stream s = unread s.reader ++ s.pending

pub record IsValid (r : Reader) : Type 0 where
  pub pos-le : r.read_buf_pos ≤ r.size_curr_read_buf
  pub size-le : r.size_curr_read_buf ≤ length r.read_buf

-- A connection of which so many bytes can be read, with an area of `room` bytes.
pub record Supplies (room total : ℕ) (s : Link) : Type 0 where
  pub valid : IsValid s.reader
  pub area : length s.reader.read_buf ≡ room
  pub arrive : AllArrive s.answers
  pub enough : total ≤ length (unread s.reader) + length s.answers

pub Supplies-le :
    (room less total : ℕ) (s : Link) → less ≤ total → Supplies room total s → Supplies room less s
Supplies-le room less total s le v = record {
  valid = v.valid;
  area = v.area;
  arrive = v.arrive;
  enough = omega (arith, v.enough);
}

-- A run that has reported the line `text`, with `rest` still to be read.
pub record Reports (room total : ℕ) (text rest : List ℕ) (run : Link × Reply ℕ) : Type 0 where
  pub result : run.1 ≡ got (length text)
  pub behind : List ℕ
  pub front : run.0.reader.read_buf ≡ text ++ carriage_return ∷ behind
  pub remains : stream run.0 ≡ rest
  pub supplies : Supplies room total run.0
  pub position : run.0.reader.read_buf_pos ≡ length text + 1

find_end-line :
    (text rest : List ℕ) → NoReturn text → find_end (text ++ carriage_return ∷ rest) ≡ length text
unfolding find_end
find_end-line [] rest no_return = refl
find_end-line (c ∷ cs) rest no_return =
    rw (no_return.0) (ap suc (find_end-line cs rest no_return.1))

find_end-none : (cs : List ℕ) → NoReturn cs → find_end cs ≡ length cs
unfolding find_end
find_end-none [] no_return = refl
find_end-none (c ∷ cs) no_return = rw (no_return.0) (ap suc (find_end-none cs no_return.1))

-- The front of a stream whose first line is `text`: it has the whole line, or is a part of it.
whole_line :
    (held pending text rest : List ℕ)
    → held ++ pending ≡ text ++ carriage_return ∷ rest
    → length text < length held
    → (h : List ℕ) × (held ≡ text ++ carriage_return ∷ h) × (h ++ pending ≡ rest)
whole_line [] pending text rest e less = absurd (omega arith)
whole_line (b ∷ held) pending [] rest e less = (held, cc, cc)
whole_line (b ∷ held) pending (c ∷ text) rest e less =
    let (h, front, behind) = whole_line held pending text rest (cc) (omega arith) in (h, cc, behind)

part_line :
    (held pending text rest : List ℕ)
    → held ++ pending ≡ text ++ carriage_return ∷ rest
    → length held ≤ length text
    → NoReturn text
    → NoReturn held
part_line [] pending text rest e le no_return = tt
part_line (b ∷ held) pending [] rest e le no_return = absurd (omega arith)
part_line (b ∷ held) pending (c ∷ text) rest e le no_return =
    let same : c ≡ b = cc in
    (
      ap (λ d. d == carriage_return) (sym same) ∙ no_return.0,
      part_line held pending text rest (cc) (omega arith) no_return.1,
    )

length-held : (size : ℕ) (buf : List ℕ) → size ≤ length buf → length (take size buf) ≡ size
length-held size buf le = omega (arith, length-take size buf)

complete_line-some :
    (buf : List ℕ) (size : ℕ) (text h : List ℕ)
    → size ≤ length buf
    → NoReturn text
    → take size buf ≡ text ++ carriage_return ∷ h
    → complete_line buf size ≡ some (length text)
unfolding complete_line
complete_line-some buf size text h le no_return e =
    let end : find_end (take size buf) ≡ length text = rw e (find_end-line text h no_return) in
    let more : size ≡ length text + suc (length h) =
      sym (length-held size buf le) ∙ ap length e ∙ length-append text (carriage_return ∷ h) in
    rw end (ground arith)

complete_line-none :
    (buf : List ℕ) (size : ℕ)
    → size ≤ length buf
    → NoReturn (take size buf)
    → complete_line buf size ≡ none
unfolding complete_line
complete_line-none buf size le no_return =
    rw (find_end-none (take size buf) no_return) (rw (length-held size buf le) (ground arith))

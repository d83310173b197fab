-- ===== src/DynArray.antt =====
-- util/ic_dyn_array.c and util/ic_dyn_array_int.h: the simple dynamic array, a linked list of buffers
-- of 1024 bytes that only grows. The list is that of the buffers from `first_dyn_buf` to
-- `last_dyn_buf`. `ic_calloc` is given by the list of its answers; behind the list it refuses.
mod Flat
mod Insert
mod Append
mod Enough
mod Disk
mod Tests
use iclaustron.Base.{
  ℕ, zero, suc, ◌+◌, ◌-◌, ◌*◌, ◌%◌, ◌^◌, Bool, true, false, Option, none, some, List, [], ◌∷◌, ◌++◌,
  Outcome, ok, undefined, aborted, ◌>>=◌, ltb, leb, ◌==◌, if◌then◌else◌, length, take, drop,
  replicate, min,
}

abbrev pub Buf : Type 0
Buf = List ℕ

abbrev pub buf_size : ℕ
buf_size = 1024

abbrev pub mem_alloc_error : ℕ
mem_alloc_error = 7005

-- `IC_SIMPLE_DYNAMIC_ARRAY` with `total_size_in_bytes`.
pub record DynArray : Type 0 where
  pub bufs : List Buf
  pub bytes_used : ℕ
  pub total_size_in_bytes : ℕ

-- A buffer from `ic_calloc`.
pub zeros : Buf
zeros = replicate buf_size 0

-- `memcpy` of `src` into a buffer, which is undefined past its end.
pub memcpy : Buf → (pos : ℕ) → List ℕ → Outcome Buf
memcpy buf pos src =
    if leb (pos + length src) (length buf)
    then ok (take pos buf ++ (src ++ drop (pos + length src) buf))
    else undefined

-- Where the loop of `insert_simple_dynamic_array` ends: the buffers it left behind, the last one, the bytes used
-- in it, and whether memory was refused.
pub record Filled : Type 0 where
  pub behind : List Buf
  pub current : Buf
  pub used : ℕ
  pub refused : Bool

pub insert_loop : (answers : List Bool) → (current : Buf) → (pos : ℕ) → List ℕ → Outcome Filled
insert_loop [] current pos src =
    if leb (length src) (buf_size - pos)
    then memcpy current pos src >>= (λ buf.
      ok (record { behind = []; current = buf; used = pos + length src; refused = false }))
    else memcpy current pos (take (buf_size - pos) src)
      >>= (λ buf. ok (record { behind = []; current = buf; used = pos; refused = true }))
insert_loop (granted ∷ answers) current pos src =
    let rest = insert_loop answers zeros 0 (drop (buf_size - pos) src) in
    if leb (length src) (buf_size - pos)
    then memcpy current pos src >>= (λ buf.
      ok (record { behind = []; current = buf; used = pos + length src; refused = false }))
    else memcpy current pos (take (buf_size - pos) src) >>= (λ buf.
      if granted
      then rest >>= (λ run. ok (record run { behind = buf ∷ run.behind }))
      else ok (record { behind = []; current = buf; used = pos; refused = true }))

-- The buffers that the loop's first buffer stands for: where memory was refused all but the first are released.
pub kept : Filled → List Buf
kept run = elim run.refused [
  | false ↦ run.behind ++ run.current ∷ []
  | true ↦ elim run.behind [ [] ↦ run.current ∷ [] | buf ∷ rest ↦ buf ∷ [] ]
]

-- The loop at the last buffer of the list.
pub insert_at_last :
    (answers : List Bool) → List Buf → (pos : ℕ) → List ℕ → Outcome (List Buf × Filled)
unfolding insert_loop kept
insert_at_last answers [] pos src = undefined
insert_at_last answers (buf ∷ []) pos src =
    insert_loop answers buf pos src >>= λ run. ok (kept run, run)
insert_at_last answers (buf ∷ next ∷ bufs) pos src =
    insert_at_last answers (next ∷ bufs) pos src >>= λ (bufs', run). ok (buf ∷ bufs', run)

-- `insert_simple_dynamic_array`
pub insert : (answers : List Bool) → DynArray → List ℕ → Outcome (ℕ × DynArray)
unfolding insert_at_last
insert answers a src = insert_at_last answers a.bufs a.bytes_used src >>= λ (bufs, run). ok (
    if run.refused then (mem_alloc_error, record a { bufs = bufs }) else (
      0,
      record {
        bufs = bufs;
        bytes_used = run.used;
        total_size_in_bytes = (a.total_size_in_bytes + length src) % 2 ^ 64;
      },
    ))

-- `find_pos_simple_dyn_array`: the list from the buffer on, and the position in it.
pub find_pos : List Buf → (scan_pos pos : ℕ) → Option (List Buf × ℕ)
find_pos [] scan_pos pos = none
find_pos (buf ∷ bufs) scan_pos pos =
    if leb (scan_pos + buf_size) pos
    then find_pos bufs (scan_pos + buf_size) pos
    else some (buf ∷ bufs, pos - scan_pos)

-- `read_pos_simple_dynamic_array`
pub read_pos : List Buf → (buf_pos size : ℕ) → Option (List ℕ)
read_pos [] buf_pos size = none
read_pos (buf ∷ bufs) buf_pos size =
    let read_size = min size (buf_size - buf_pos) in
    let part = take read_size (drop buf_pos buf) in
    let rest = read_pos bufs 0 (size - read_size) in
    if ltb read_size size
    then elim rest [ none ↦ none | some more ↦ some (part ++ more) ]
    else some part

-- `write_pos_simple_dynamic_array`: the return value and the buffers.
pub write_pos : List Buf → (buf_pos : ℕ) → List ℕ → Outcome (ℕ × List Buf)
write_pos [] buf_pos src = ok (1, [])
write_pos (buf ∷ bufs) buf_pos src =
    let write_size = min (length src) (buf_size - buf_pos) in
    let rest = write_pos bufs 0 (drop write_size src) in
    memcpy buf buf_pos (take write_size src) >>= λ written.
    if ltb write_size (length src)
    then rest >>= (λ (ret, bufs'). ok (ret, written ∷ bufs'))
    else ok (0, written ∷ bufs)

-- `read_simple_dynamic_array`; `none` is return value 1.
pub read : DynArray → (pos size : ℕ) → Option (List ℕ)
unfolding find_pos read_pos
read a pos size =
    let found = find_pos a.bufs 0 pos in
    if ltb a.total_size_in_bytes ((pos + size) % 2 ^ 64)
    then none
    else elim found [ none ↦ none | some (bufs, buf_pos) ↦ read_pos bufs buf_pos size ]

-- The write at a position: the buffers before the one that is found stay.
pub write_from : List Buf → (scan_pos pos : ℕ) → List ℕ → Outcome (ℕ × List Buf)
unfolding write_pos
write_from [] scan_pos pos src = ok (1, [])
write_from (buf ∷ bufs) scan_pos pos src =
    let later = write_from bufs (scan_pos + buf_size) pos src in
    if leb (scan_pos + buf_size) pos
    then later >>= (λ (ret, bufs'). ok (ret, buf ∷ bufs'))
    else write_pos (buf ∷ bufs) (pos - scan_pos) src

-- `write_simple_dynamic_array`
pub write : DynArray → (pos : ℕ) → List ℕ → Outcome (ℕ × DynArray)
unfolding write_from
write a pos src = write_from a.bufs 0 pos src >>= λ (ret, bufs). ok (ret, record a { bufs = bufs })

-- One call of `ic_write_file` with its return value: an error ends the loop.
pub after_write : (ret : ℕ) → List ℕ → (rest : ℕ × List (List ℕ)) → ℕ × List (List ℕ)
after_write zero piece (ret, pieces) = (ret, piece ∷ pieces)
after_write (suc e) piece rest = (suc e, [])

-- `write_simple_dynamic_array_to_disk`: the return value and the pieces that went to the file. `answers` gives the
-- return value of each call of `ic_write_file`.
pub to_disk : (answers : ℕ → ℕ) → List Buf → (bytes_used : ℕ) → ℕ × List (List ℕ)
unfolding after_write
to_disk answers [] bytes_used = (0, [])
to_disk answers (buf ∷ []) bytes_used = after_write (answers 0) (take bytes_used buf) (0, [])
to_disk answers (buf ∷ next ∷ bufs) bytes_used =
    after_write (answers 0) buf (to_disk (λ n. answers (suc n)) (next ∷ bufs) bytes_used)

-- `ic_create_simple_dynamic_array`, with the answers for the array and the buffer.
pub create_array : (array_granted buf_granted : Bool) → Option DynArray
unfolding zeros
create_array false buf_granted = none
create_array true false = none
create_array true true =
    some (record { bufs = zeros ∷ []; bytes_used = 0; total_size_in_bytes = 0 })

-- The buffers that `free_simple_dynamic_array` frees, before the array itself.
pub free_array : DynArray → List Buf
free_array a = a.bufs

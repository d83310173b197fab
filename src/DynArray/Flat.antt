-- ===== src/DynArray/Flat.antt =====
-- Reads and writes of buffers are reads and writes of the bytes that they hold one behind the other.
use iclaustron.Base.{
  ℕ, ◌+◌, ◌-◌, ◌*◌, ◌%◌, ◌^◌, ◌<◌, ◌≤◌, ◌≡◌, refl, true, false, none, some, List, [], ◌∷◌, ◌++◌,
  ltb, leb, if◌then◌else◌, length, take, drop, min, arith, sym, ap, ◌∙◌, Bool-cases, inl, inr,
  length-append, length-drop,
}
use iclaustron.Base.Slices.{
  take-append, drop-append, take-ge, drop-ge, take-zero_of, drop-zero_of, drop-take, take-take,
  append_nil,
}
use iclaustron.DynArray.{Buf, DynArray, find_pos, read_pos, read}

-- Each buffer has 1024 bytes.
abbrev pub AllFull : List Buf → Type 0
AllFull [] = Unit
AllFull (buf ∷ bufs) = (length buf ≡ 1024) × AllFull bufs

abbrev pub flat : List Buf → List ℕ
flat [] = []
flat (buf ∷ bufs) = buf ++ flat bufs

pub length-flat : (bufs : List Buf) → AllFull bufs → length (flat bufs) ≡ 1024 * length bufs
length-flat [] full = omega arith
length-flat (buf ∷ bufs) full =
    omega (arith, length-append buf (flat bufs), length-flat bufs full.1, full.0)

-- The part of `n` bytes from `pos` on.
abbrev pub part : ℕ → ℕ → List ℕ → List ℕ
part pos n bytes = take n (drop pos bytes)

part-short :
    (pos n : ℕ) (buf rest : List ℕ)
    → n + pos ≤ length buf
    → part pos n (buf ++ rest) ≡ part pos n buf
part-short pos n buf rest fits = rw (drop-append pos buf rest) (
    rw (take-append n (drop pos buf) (drop (pos - length buf) rest)) (
      rw
        (take-zero_of (n - length (drop pos buf)) (drop (pos - length buf) rest)
          (omega (arith, length-drop pos buf)))
        (append_nil (take n (drop pos buf)))))

part-long :
    (pos n : ℕ) (buf rest : List ℕ)
    → pos ≤ length buf
    → length buf ≤ n + pos
    → part pos n (buf ++ rest) ≡ drop pos buf ++ take (n - (length buf - pos)) rest
part-long pos n buf rest inside long = rw (drop-append pos buf rest) (
    rw (take-append n (drop pos buf) (drop (pos - length buf) rest)) (
      rw
        (
          drop-zero_of (pos - length buf) rest (omega arith),
          take-ge n (drop pos buf) (omega (arith, length-drop pos buf)),
          length-drop pos buf,
        )
        refl))

part-skip :
    (pos n : ℕ) (buf rest : List ℕ)
    → length buf ≤ pos
    → part pos n (buf ++ rest) ≡ part (pos - length buf) n rest
part-skip pos n buf rest behind = rw (drop-append pos buf rest) (rw (drop-ge pos buf behind) refl)

read_pos-part :
    (bufs : List Buf) (pos size : ℕ)
    → AllFull bufs
    → pos < 1024
    → 0 < length bufs
    → pos + size ≤ 1024 * length bufs
    → read_pos bufs pos size ≡ some (part pos size (flat bufs))
unfolding read_pos
read_pos-part [] pos size full small some_buf fits = absurd (omega arith)
read_pos-part (buf ∷ bufs) pos size full small some_buf fits =
    elim (Bool-cases (ltb (min size (1024 - pos)) size)) [
      | inl more ↦
          let least : min size (1024 - pos) ≡ 1024 - pos = ground arith in
          let rest =
            read_pos-part bufs 0 (size - (1024 - pos)) full.1 (omega arith) (ground arith)
              (ground arith) in
          let whole : take (min size (1024 - pos)) (drop pos buf) ≡ drop pos buf =
            take-ge (min size (1024 - pos)) (drop pos buf)
              (omega (arith, length-drop pos buf, full.0, least)) in
          let split : part pos size (buf ++ flat bufs)
              ≡ drop pos buf ++ take (size - (1024 - pos)) (flat bufs) =
            part-long pos size buf (flat bufs) (omega (arith, full.0)) (ground (arith, full.0))
            ∙ ap (λ (n : ℕ). drop pos buf ++ take (size - (n - pos)) (flat bufs)) full.0 in
          rw more (rw least (rw rest (rw whole (ap some (sym split)))))
      | inr done ↦
          let least : min size (1024 - pos) ≡ size = ground arith in
          rw done (
            rw least (ap some (sym (part-short pos size buf (flat bufs) (ground (arith, full.0))))))
    ]

find_pos-part :
    (bufs : List Buf) (scan pos size : ℕ)
    → AllFull bufs
    → 0 < size
    → scan ≤ pos
    → (pos - scan) + size ≤ 1024 * length bufs
    → (elim (find_pos bufs scan pos) [
      | none ↦ none
      | some (found, buf_pos) ↦ read_pos found buf_pos size
    ])
      ≡ some (part (pos - scan) size (flat bufs))
unfolding find_pos
find_pos-part [] scan pos size full some_byte after fits = absurd (omega arith)
find_pos-part (buf ∷ bufs) scan pos size full some_byte after fits =
    elim (Bool-cases (leb (scan + 1024) pos)) [
      | inl later ↦
          let far : (pos - scan) - 1024 ≡ pos - (scan + 1024) = omega arith in
          let skipped : part (pos - scan) size (buf ++ flat bufs)
              ≡ part (pos - (scan + 1024)) size (flat bufs) =
            part-skip (pos - scan) size buf (flat bufs) (ground (arith, full.0))
            ∙ ap (λ (n : ℕ). part ((pos - scan) - n) size (flat bufs)) full.0
            ∙ ap (λ (n : ℕ). part n size (flat bufs)) far in
          rw later (
            find_pos-part bufs (scan + 1024) pos size full.1 some_byte (ground arith) (ground arith)
            ∙ ap some (sym skipped))
      | inr here ↦
          rw here
            (read_pos-part (buf ∷ bufs) (pos - scan) size full (ground arith) (omega arith) fits)
    ]

-- Between two operations: the buffers are whole, and all but the last are in use.
pub record IsArray (a : DynArray) : Type 0 where
  pub full : AllFull a.bufs
  pub some_buf : 0 < length a.bufs
  pub used : a.bytes_used ≤ 1024
  pub total : a.total_size_in_bytes + 1024 ≡ 1024 * length a.bufs + a.bytes_used

-- The bytes that are in the array.
abbrev pub contents : DynArray → List ℕ
contents a = take a.total_size_in_bytes (flat a.bufs)

-- A read of one byte or more within the array gives the bytes that stand there.
pub read-part :
    (a : DynArray) (pos size : ℕ)
    → IsArray a
    → 0 < size
    → pos + size ≤ a.total_size_in_bytes
    → a.total_size_in_bytes < 2 ^ 64
    → read a pos size ≡ some (part pos size (flat a.bufs))
unfolding read
read-part a pos size valid some_byte inside small =
    let fits : ltb a.total_size_in_bytes ((pos + size) % 2 ^ 64) ≡ false = ground arith in
    let start : pos - 0 ≡ pos = omega arith in
    rw fits (
      find_pos-part a.bufs 0 pos size valid.full some_byte (omega arith) (omega arith)
      ∙ ap (λ (n : ℕ). some (part n size (flat a.bufs))) start)

-- A read past the end of the array is refused.
pub read-past :
    (a : DynArray) (pos size : ℕ)
    → a.total_size_in_bytes < pos + size
    → pos + size < 2 ^ 64
    → read a pos size ≡ none
unfolding read
read-past a pos size past small =
    let over : ltb a.total_size_in_bytes ((pos + size) % 2 ^ 64) ≡ true = ground arith in
    rw over refl

-- The bytes from `pos` on are the same in the contents and in the buffers.
part-contents :
    (pos n total : ℕ) (bytes : List ℕ)
    → pos + n ≤ total
    → part pos n (take total bytes) ≡ part pos n bytes
part-contents pos n total bytes inside =
    ap (take n) (drop-take pos total bytes)
    ∙ take-take n (total - pos) (drop pos bytes) (omega arith)

-- Of a valid array, `read_simple_dynamic_array` of one byte or more gives the bytes of the contents that stand at the
-- position, and refuses what is not whole within the contents; the sizes and positions do not overflow.
pub read-contents :
    (a : DynArray) (pos size : ℕ)
    → IsArray a
    → 0 < size
    → pos + size < 2 ^ 64
    → a.total_size_in_bytes < 2 ^ 64
    → read a pos size
      ≡ (if ltb a.total_size_in_bytes (pos + size) then none else some (part pos size (contents a)))
read-contents a pos size valid some_byte small total_small =
    elim (Bool-cases (ltb a.total_size_in_bytes (pos + size))) [
      | inl past ↦ rw past (read-past a pos size (ground arith) small)
      | inr inside ↦
          let fits : pos + size ≤ a.total_size_in_bytes = ground arith in
          rw inside (
            read-part a pos size valid some_byte fits total_small
            ∙ ap some (sym (part-contents pos size a.total_size_in_bytes (flat a.bufs) fits)))
    ]

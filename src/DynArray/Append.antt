-- ===== src/DynArray/Append.antt =====
-- `insert_simple_dynamic_array` on the array as a whole.
use iclaustron.Base.{
  ℕ, suc, ◌+◌, ◌-◌, ◌*◌, ◌%◌, ◌^◌, ◌<◌, ◌≤◌, ◌≡◌, ◌⊎◌, refl, Bool, true, false, List, [], ◌∷◌, ◌++◌,
  ok, Ends, length, take, arith, sym, ap, ◌∙◌, inl, inr, length-append,
}
use mathlib.Core.Path.{subst}
use iclaustron.Base.Slices.{append_nil, append_assoc, take_behind}
use iclaustron.DynArray.{Buf, DynArray, Filled, kept, insert_at_last, insert, mem_alloc_error}
use iclaustron.DynArray.Flat.{AllFull, flat, IsArray, contents}
use iclaustron.DynArray.Insert.{Loops, insert_loop-Loops}

-- The bytes of `src` stand behind the first `t` bytes.
abbrev Appended : List Buf → ℕ → List ℕ → List Buf × Filled → Type 0
Appended bufs t src (bufs', run) =
    (run.refused ≡ false)
    × AllFull bufs'
    × (0 < length bufs')
    × (run.used ≤ 1024)
    × ((t + length src) + 1024 ≡ 1024 * length bufs' + run.used)
    × (take (t + length src) (flat bufs') ≡ take t (flat bufs) ++ src)

-- The first `t` bytes and the number of buffers are as before.
abbrev Unchanged : List Buf → ℕ → List Buf × Filled → Type 0
Unchanged bufs t (bufs', run) =
    (run.refused ≡ true)
    × AllFull bufs'
    × (length bufs' ≡ length bufs)
    × (take t (flat bufs') ≡ take t (flat bufs))

Appends : List Bool → List Buf → ℕ → ℕ → List ℕ → Type 0
Appends answers bufs pos t src =
    Ends (insert_at_last answers bufs pos src) λ r. Appended bufs t src r ⊎ Unchanged bufs t r

length-snoc : (bufs : List Buf) (buf : Buf) → length (bufs ++ buf ∷ []) ≡ length bufs + 1
length-snoc bufs buf = length-append bufs (buf ∷ [])

kept_done : (run : Filled) → run.refused ≡ false → kept run ≡ run.behind ++ run.current ∷ []
unfolding kept
kept_done run went = rw went refl

one_buffer :
    (answers : List Bool) (buf : Buf) (pos t : ℕ) (src : List ℕ)
    → length buf ≡ 1024
    → pos ≤ 1024
    → t ≡ pos
    → Appends answers (buf ∷ []) pos t src
unfolding Appends insert_at_last Loops
one_buffer answers buf pos t src full inside e =
    let (run, ran, result) = insert_loop-Loops answers buf pos src full inside in
    let nil : take t (buf ++ []) ≡ take pos buf =
      ap (λ (bs : List ℕ). take t bs) (append_nil buf) ∙ ap (λ (n : ℕ). take n buf) e in
    (
      (kept run, run),
      rw ran refl,
      elim result [
        | inl (went, whole, counted, small, bytes) ↦
            let same = kept_done run went in
            let n : length (kept run) ≡ length run.behind + 1 =
              ap length same ∙ length-snoc run.behind run.current in
            let front : take (t + length src) (flat (kept run)) ≡ take pos buf ++ src =
              ap (λ (bufs : List Buf). take (t + length src) (flat bufs)) same
              ∙ ap (λ (m : ℕ). take (m + length src) (flat (run.behind ++ run.current ∷ []))) e
              ∙ bytes in
            inl (
              went,
              subst AllFull (sym same) whole,
              omega (arith, n),
              small,
              omega (arith, n, counted, e),
              front ∙ ap (λ (bs : List ℕ). bs ++ src) (sym nil),
            )
        | inr (stopped, kept', one, size, bytes) ↦ inr (
          stopped,
          subst AllFull (sym one) (size, tt),
          ap length one,
          ap (λ (bufs : List Buf). take t (flat bufs)) one
              ∙ ap (λ (bs : List ℕ). take t bs) (append_nil kept')
              ∙ ap (λ (m : ℕ). take m kept') e
              ∙ bytes
              ∙ sym nil,
        )
      ],
    )

-- A buffer before the others.
module _ (answers : List Bool) (buf next : Buf) (bufs : List Buf) (pos t : ℕ) (src : List ℕ)
    (full : length buf ≡ 1024) where
  goes_through :
      (bufs' : List Buf) (run : Filled)
      → insert_at_last answers (next ∷ bufs) pos src ≡ ok (bufs', run)
      → insert_at_last answers (buf ∷ next ∷ bufs) pos src ≡ ok (buf ∷ bufs', run)
  unfolding insert_at_last
  goes_through bufs' run ran = rw ran refl

  later_buffer :
      Appends answers (next ∷ bufs) pos t src
      → Appends answers (buf ∷ next ∷ bufs) pos (1024 + t) src
  unfolding Appends
  later_buffer ((bufs', run), ran, result) =
      let shift : take (1024 + t) (buf ++ flat (next ∷ bufs)) ≡ buf ++ take t (flat (next ∷ bufs)) =
        take_behind (1024 + t) t buf (flat (next ∷ bufs)) (omega (arith, full)) in
      (
        (buf ∷ bufs', run),
        goes_through bufs' run ran,
        elim result [
          | inl (went, whole, some_buf, small, counted, bytes) ↦ inl (
            went,
            (full, whole),
            omega arith,
            small,
            omega (arith, counted),
            take_behind ((1024 + t) + length src) (t + length src) buf (flat bufs')
                  (omega (arith, full))
                ∙ ap (λ (bs : List ℕ). buf ++ bs) bytes
                ∙ sym (append_assoc buf (take t (flat (next ∷ bufs))) src)
                ∙ ap (λ (bs : List ℕ). bs ++ src) (sym shift),
          )
          | inr (stopped, whole, same, bytes) ↦ inr (
            stopped,
            (full, whole),
            ap suc same,
            take_behind (1024 + t) t buf (flat bufs') (omega (arith, full))
                ∙ ap (λ (bs : List ℕ). buf ++ bs) bytes
                ∙ sym shift,
          )
        ],
      )

insert_at_last-Appends :
    (answers : List Bool) (bufs : List Buf) (pos t : ℕ) (src : List ℕ)
    → AllFull bufs
    → 0 < length bufs
    → pos ≤ 1024
    → t + 1024 ≡ 1024 * length bufs + pos
    → Appends answers bufs pos t src
insert_at_last-Appends answers [] pos t src full some_buf inside e = absurd (omega arith)
insert_at_last-Appends answers (buf ∷ []) pos t src full some_buf inside e =
    one_buffer answers buf pos t src full.0 inside (omega arith)
insert_at_last-Appends answers (buf ∷ next ∷ bufs) pos t src full some_buf inside e =
    let whole : 1024 + (t - 1024) ≡ t = omega arith in
    subst (λ (n : ℕ). Appends answers (buf ∷ next ∷ bufs) pos n src) whole
      (later_buffer answers buf next bufs pos (t - 1024) src full.0 (
        insert_at_last-Appends answers (next ∷ bufs) pos (t - 1024) src full.1 (omega arith) inside
          (omega arith)))

-- What an insert leaves: the bytes behind the contents, or a refusal of memory and the contents as they were.
unfoldable pub Inserted : DynArray → List ℕ → ℕ × DynArray → Type 0
Inserted a src (ret, a') =
    IsArray a'
    × ((ret ≡ 0)
          × (a'.total_size_in_bytes ≡ a.total_size_in_bytes + length src)
          × (contents a' ≡ contents a ++ src)
        ⊎ (ret ≡ mem_alloc_error)
          × (a'.total_size_in_bytes ≡ a.total_size_in_bytes)
          × (contents a' ≡ contents a))

-- On a valid array whose size does not overflow, `insert_simple_dynamic_array` ends and leaves a valid array: it
-- returns 0 and the bytes stand behind the contents, or it returns IC_ERROR_MEM_ALLOC and the contents are as they were.
pub insert-contents :
    (answers : List Bool) (a : DynArray) (src : List ℕ)
    → IsArray a
    → a.total_size_in_bytes + length src < 2 ^ 64
    → Ends (insert answers a src) (Inserted a src)
unfolding insert Inserted Appends
insert-contents answers a src valid small =
    let ((bufs, run), ran, result) =
      insert_at_last-Appends answers a.bufs a.bytes_used a.total_size_in_bytes src valid.full
        valid.some_buf valid.used valid.total in
    let total : (a.total_size_in_bytes + length src) % 2 ^ 64 ≡ a.total_size_in_bytes + length src =
      omega arith in
    elim result [
      | inl (went, whole, some_buf, used, counted, bytes) ↦ (
        (
          0,
          record {
            bufs = bufs;
            bytes_used = run.used;
            total_size_in_bytes = (a.total_size_in_bytes + length src) % 2 ^ 64;
          },
        ),
        rw ran (rw went refl),
        (
          record {
            full = whole;
            some_buf = some_buf;
            used = used;
            total = omega (arith, counted, total);
          },
          inl (refl, total, ap (λ (n : ℕ). take n (flat bufs)) total ∙ bytes),
        ),
      )
      | inr (stopped, whole, same, bytes) ↦ (
        (mem_alloc_error, record a { bufs = bufs }),
        rw ran (rw stopped refl),
        (
          record {
            full = whole;
            some_buf = omega (arith, same, valid.some_buf);
            used = valid.used;
            total = omega (arith, same, valid.total);
          },
          inr (refl, refl, bytes),
        ),
      )
    ]

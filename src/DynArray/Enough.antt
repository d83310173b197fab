-- ===== src/DynArray/Enough.antt =====
-- Where the memory it asks for is granted, `insert_simple_dynamic_array` returns 0.
use iclaustron.Base.{
  ℕ, zero, suc, ◌+◌, ◌-◌, ◌*◌, ◌%◌, ◌^◌, ◌<◌, ◌≤◌, ◌≡◌, refl, true, false, List, [], ◌∷◌, Ends, leb,
  length, drop, replicate, arith, Bool-cases, inl, inr, length-drop,
}
use iclaustron.DynArray.{Buf, DynArray, zeros, insert_loop, kept, insert_at_last, insert}
use iclaustron.DynArray.Flat.{AllFull, IsArray}
use iclaustron.DynArray.Insert.{last_run, goes_on, length-zeros}

-- `n` new buffers are enough for what does not fit into the current one.
insert_loop_granted :
    (n : ℕ) (buf : Buf) (pos : ℕ) (src : List ℕ)
    → length buf ≡ 1024
    → pos ≤ 1024
    → pos + length src ≤ 1024 + 1024 * n
    → Ends (insert_loop (replicate n true) buf pos src) λ run. run.refused ≡ false
insert_loop_granted zero buf pos src full inside enough =
    (_, last_run [] buf pos src (ground arith) (omega (arith, full)), refl)
insert_loop_granted (suc n) buf pos src full inside enough =
    elim (Bool-cases (leb (length src) (1024 - pos))) [
      | inl fits ↦
          (_, last_run (true ∷ replicate n true) buf pos src fits (ground (arith, full)), refl)
      | inr more ↦
          let (run, ran, went) =
            insert_loop_granted n zeros 0 (drop (1024 - pos) src) length-zeros (omega arith)
              (ground (arith, length-drop (1024 - pos) src)) in
          (_, goes_on buf pos src full inside more (replicate n true) run ran, went)
    ]

insert_at_last_granted :
    (n : ℕ) (bufs : List Buf) (pos : ℕ) (src : List ℕ)
    → AllFull bufs
    → 0 < length bufs
    → pos ≤ 1024
    → pos + length src ≤ 1024 + 1024 * n
    → Ends (insert_at_last (replicate n true) bufs pos src) λ (bufs', run). run.refused ≡ false
unfolding insert_at_last
insert_at_last_granted n [] pos src full some_buf inside enough = absurd (omega arith)
insert_at_last_granted n (buf ∷ []) pos src full some_buf inside enough =
    let (run, ran, went) = insert_loop_granted n buf pos src full.0 inside enough in
    ((kept run, run), rw ran refl, went)
insert_at_last_granted n (buf ∷ next ∷ bufs) pos src full some_buf inside enough =
    let ((bufs', run), ran, went) =
      insert_at_last_granted n (next ∷ bufs) pos src full.1 (omega arith) inside enough in
    ((buf ∷ bufs', run), rw ran refl, went)

-- Into a valid array, `insert_simple_dynamic_array` returns 0 where `ic_calloc` grants `n` buffers and the bytes fit
-- into the rest of the last buffer and `n` more.
pub insert-enough :
    (n : ℕ) (a : DynArray) (src : List ℕ)
    → IsArray a
    → a.bytes_used + length src ≤ 1024 + 1024 * n
    → Ends (insert (replicate n true) a src) λ (ret, a'). ret ≡ 0
unfolding insert
insert-enough n a src valid enough =
    let ((bufs, run), ran, went) =
      insert_at_last_granted n a.bufs a.bytes_used src valid.full valid.some_buf valid.used
        enough in
    (
      (
        0,
        record {
          bufs = bufs;
          bytes_used = run.used;
          total_size_in_bytes = (a.total_size_in_bytes + length src) % 2 ^ 64;
        },
      ),
      rw ran (rw went refl),
      refl,
    )

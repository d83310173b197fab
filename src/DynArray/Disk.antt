-- ===== src/DynArray/Disk.antt =====
-- `write_simple_dynamic_array_to_disk` writes the contents of the array.
use mathlib.Core.Path.{subst}
use iclaustron.Base.{
  ℕ, zero, suc, ◌+◌, ◌-◌, ◌*◌, ◌<◌, ◌≤◌, ◌≡◌, ◌≢◌, ◌⊎◌, refl, List, [], ◌∷◌, ◌++◌, length, take,
  arith, sym, ap, ◌∙◌, inl, inr,
}
use iclaustron.Base.Slices.{append_nil, take_behind, take-zero_of}
use iclaustron.DynArray.{Buf, DynArray, after_write, to_disk}
use iclaustron.DynArray.Flat.{AllFull, flat, IsArray, contents}

-- Either all of `bytes` is written, or a front of it and the next call of `ic_write_file` failed.
unfoldable pub Written : (answers : ℕ → ℕ) → List ℕ → ℕ × List (List ℕ) → Type 0
Written answers bytes (ret, pieces) =
    (ret ≡ 0) × (flat pieces ≡ bytes)
    ⊎ (ret ≢ 0) × (ret ≡ answers (length pieces)) × (n : ℕ) × (flat pieces ≡ take n bytes)

write_then :
    (answers : ℕ → ℕ) (ret : ℕ) (piece bytes : List ℕ) (rest : ℕ × List (List ℕ))
    → ret ≡ answers 0
    → Written (λ n. answers (suc n)) bytes rest
    → Written answers (piece ++ bytes) (after_write ret piece rest)
unfolding Written after_write
write_then answers zero piece bytes (ret, pieces) e (inl (went, all)) =
    inl (went, ap (λ (bs : List ℕ). piece ++ bs) all)
write_then answers zero piece bytes (ret, pieces) e (inr (failed, call, n, front)) = inr (
  failed,
  call,
  length piece + n,
  ap (λ (bs : List ℕ). piece ++ bs) front ∙ sym (take_behind (length piece + n) n piece bytes refl),
)
write_then answers (suc m) piece bytes rest e written =
    inr (λ z. omega arith, e, 0, sym (take-zero_of 0 (piece ++ bytes) refl))

nothing-Written : (answers : ℕ → ℕ) → Written (λ n. answers (suc n)) [] (0, [])
unfolding Written
nothing-Written answers = inl (refl, refl)

to_disk-Written :
    (answers : ℕ → ℕ) (bufs : List Buf) (used t : ℕ)
    → AllFull bufs
    → 0 < length bufs
    → used ≤ 1024
    → t + 1024 ≡ 1024 * length bufs + used
    → Written answers (take t (flat bufs)) (to_disk answers bufs used)
unfolding to_disk
to_disk-Written answers [] used t full some_buf inside e = absurd (omega arith)
to_disk-Written answers (buf ∷ []) used t full some_buf inside e =
    let same : take used buf ++ [] ≡ take t (buf ++ []) =
      append_nil (take used buf)
      ∙ ap (λ (n : ℕ). take n buf) (let u : used ≡ t = omega arith in u)
      ∙ ap (λ (bs : List ℕ). take t bs) (sym (append_nil buf)) in
    subst (λ (bytes : List ℕ). Written answers bytes (to_disk answers (buf ∷ []) used)) same
      (write_then answers (answers 0) (take used buf) [] (0, []) refl (nothing-Written answers))
to_disk-Written answers (buf ∷ next ∷ bufs) used t full some_buf inside e =
    let rest =
      to_disk-Written (λ n. answers (suc n)) (next ∷ bufs) used (t - 1024) full.1 (omega arith)
        inside (omega arith) in
    let same : buf ++ take (t - 1024) (flat (next ∷ bufs)) ≡ take t (flat (buf ∷ next ∷ bufs)) =
      sym (take_behind t (t - 1024) buf (flat (next ∷ bufs)) (omega (arith, full.0))) in
    subst (λ (bytes : List ℕ). Written answers bytes (to_disk answers (buf ∷ next ∷ bufs) used))
      same
      (write_then answers (answers 0) buf (take (t - 1024) (flat (next ∷ bufs)))
        (to_disk (λ n. answers (suc n)) (next ∷ bufs) used) refl rest)

-- Of a valid array, `write_simple_dynamic_array_to_disk` returns 0 and has written the contents, or it returns the
-- error of the call of `ic_write_file` that failed and has written a front of the contents.
pub to_disk-contents :
    (answers : ℕ → ℕ) (a : DynArray)
    → IsArray a
    → Written answers (contents a) (to_disk answers a.bufs a.bytes_used)
to_disk-contents answers a valid =
    to_disk-Written answers a.bufs a.bytes_used a.total_size_in_bytes valid.full valid.some_buf
      valid.used valid.total

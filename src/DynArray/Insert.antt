-- ===== src/DynArray/Insert.antt =====
-- `insert_simple_dynamic_array` appends bytes, or leaves the contents as they are.
use iclaustron.Base.{
  ℕ, ◌+◌, ◌-◌, ◌*◌, ◌≤◌, ◌≡◌, ◌⊎◌, refl, Bool, true, false, List, [], ◌∷◌, ◌++◌, ok, Ends, leb,
  length, take, drop, arith, sym, ap, ◌∙◌, Bool-cases, inl, inr, length-append, length-take,
  length-drop, length-replicate, take-append-drop,
}
use iclaustron.Base.Slices.{take-append, take-ge, drop-ge, append_nil, append_assoc, take_front}
use iclaustron.DynArray.{Buf, zeros, memcpy, Filled, insert_loop, kept}
use iclaustron.DynArray.Flat.{AllFull, flat}

-- A buffer with `src` at `pos`.
pub pasted : Buf → ℕ → List ℕ → Buf
pasted buf pos src = take pos buf ++ (src ++ drop (pos + length src) buf)

module _ (buf : Buf) (pos : ℕ) (src : List ℕ) (fits : pos + length src ≤ length buf) where
  memcpy-pasted : memcpy buf pos src ≡ ok (pasted buf pos src)
  unfolding memcpy pasted
  memcpy-pasted =
      let inside : leb (pos + length src) (length buf) ≡ true = ground arith in rw inside refl

  length-pasted : length (pasted buf pos src) ≡ length buf
  unfolding pasted
  length-pasted = omega (
    arith,
    length-append (take pos buf) (src ++ drop (pos + length src) buf),
    length-append src (drop (pos + length src) buf),
    length-take pos buf,
    length-drop (pos + length src) buf,
  )

  take-pasted_before : take pos (pasted buf pos src) ≡ take pos buf
  unfolding pasted
  take-pasted_before = take_front pos (take pos buf) _ (omega (arith, length-take pos buf))

  take-pasted : take (pos + length src) (pasted buf pos src) ≡ take pos buf ++ src
  unfolding pasted
  take-pasted = rw (sym (append_assoc (take pos buf) src (drop (pos + length src) buf))) (
      take_front (pos + length src) (take pos buf ++ src) _
        (omega (arith, length-append (take pos buf) src, length-take pos buf)))

  pasted_full : pos + length src ≡ length buf → pasted buf pos src ≡ take pos buf ++ src
  unfolding pasted
  pasted_full whole =
      ap (λ (rest : List ℕ). take pos buf ++ (src ++ rest))
        (drop-ge (pos + length src) buf (omega arith))
      ∙ ap (λ (rest : List ℕ). take pos buf ++ rest) (append_nil src)

-- The loop has copied all of `src`.
abbrev pub Done : Buf → ℕ → List ℕ → Filled → Type 0
Done buf pos src run =
    (run.refused ≡ false)
    × AllFull (run.behind ++ run.current ∷ [])
    × (pos + length src ≡ 1024 * length run.behind + run.used)
    × (run.used ≤ 1024)
    × (take (pos + length src) (flat (run.behind ++ run.current ∷ [])) ≡ take pos buf ++ src)

-- The loop was refused memory: the first buffer is as before in its used part.
abbrev pub Refused : Buf → ℕ → Filled → Type 0
Refused buf pos run =
    (run.refused ≡ true)
    × (kept' : Buf) × (kept run ≡ kept' ∷ [])
    × (length kept' ≡ 1024)
    × (take pos kept' ≡ take pos buf)

unfoldable pub Loops : List Bool → Buf → ℕ → List ℕ → Type 0
Loops answers buf pos src =
    Ends (insert_loop answers buf pos src) λ run. Done buf pos src run ⊎ Refused buf pos run

pub length-zeros : length zeros ≡ 1024
unfolding zeros
length-zeros = length-replicate {A = ℕ} 1024 0

pub last_run :
    (answers : List Bool) (buf : Buf) (pos : ℕ) (src : List ℕ)
    → leb (length src) (1024 - pos) ≡ true
    → pos + length src ≤ length buf
    → insert_loop answers buf pos src
      ≡ ok (record {
        behind = [];
        current = pasted buf pos src;
        used = pos + length src;
        refused = false;
      })
unfolding insert_loop
last_run [] buf pos src fits room = rw fits (rw (memcpy-pasted buf pos src room) refl)
last_run (granted ∷ answers) buf pos src fits room =
    rw fits (rw (memcpy-pasted buf pos src room) refl)

refused_run : (buf : Buf) (pos : ℕ) → Filled
refused_run buf pos = record { behind = []; current = buf; used = pos; refused = true }

last_round :
    (buf : Buf) (pos : ℕ) (src : List ℕ)
    → length buf ≡ 1024
    → pos ≤ 1024
    → (answers : List Bool) → leb (length src) (1024 - pos) ≡ true
    → Loops answers buf pos src
unfolding Loops
last_round buf pos src full inside answers fits =
    let room : pos + length src ≤ length buf = ground arith in
    (
      _,
      last_run answers buf pos src fits room,
      inl (
        refl,
        (length-pasted buf pos src room ∙ full, tt),
        omega arith,
        omega arith,
        ap (take (pos + length src)) (append_nil (pasted buf pos src))
            ∙ take-pasted buf pos src room,
      ),
    )

-- A round that fills the buffer.
module _ (buf : Buf) (pos : ℕ) (src : List ℕ) (full : length buf ≡ 1024) (inside : pos ≤ 1024)
    (more : leb (length src) (1024 - pos) ≡ false) where
  front : List ℕ
  front = take (1024 - pos) src

  front-rest : front ++ drop (1024 - pos) src ≡ src
  unfolding front
  front-rest = take-append-drop (1024 - pos) src

  length-front : length front ≡ 1024 - pos
  unfolding front
  length-front = ground (arith, length-take (1024 - pos) src)

  pub filled_up : Buf
  unfolding front
  filled_up = pasted buf pos front

  fits_front : pos + length front ≤ length buf
  fits_front = omega (arith, length-front)

  length-filled_up : length filled_up ≡ 1024
  unfolding filled_up
  length-filled_up = length-pasted buf pos front fits_front ∙ full

  take-filled_up : take pos filled_up ≡ take pos buf
  unfolding filled_up
  take-filled_up = take-pasted_before buf pos front fits_front

  filled_up-eq : filled_up ≡ take pos buf ++ front
  unfolding filled_up
  filled_up-eq = pasted_full buf pos front fits_front (omega (arith, length-front))

  -- Memory is refused behind the round.
  Stops : (answers : List Bool) → Type 0
  Stops answers = insert_loop answers buf pos src ≡ ok (refused_run filled_up pos)

  Stops-at_end : Stops []
  unfolding Stops refused_run insert_loop filled_up front
  Stops-at_end = rw more (rw (memcpy-pasted buf pos front fits_front) refl)

  Stops-at_refusal : (answers : List Bool) → Stops (false ∷ answers)
  unfolding Stops refused_run insert_loop filled_up front
  Stops-at_refusal answers = rw more (rw (memcpy-pasted buf pos front fits_front) refl)

  pub goes_on :
      (answers : List Bool) (run : Filled)
      → insert_loop answers zeros 0 (drop (1024 - pos) src) ≡ ok run
      → insert_loop (true ∷ answers) buf pos src
        ≡ ok (record run { behind = filled_up ∷ run.behind })
  unfolding insert_loop filled_up front
  goes_on answers run later = rw more (rw (memcpy-pasted buf pos front fits_front) (rw later refl))

  refused_run-Refused : Refused buf pos (refused_run filled_up pos)
  unfolding refused_run kept
  refused_run-Refused = (refl, filled_up, refl, length-filled_up, take-filled_up)

  Done-behind :
      (run : Filled)
      → Done zeros 0 (drop (1024 - pos) src) run
      → Done buf pos src (record run { behind = filled_up ∷ run.behind })
  Done-behind run (ran, whole, counted, small, bytes) =
      let rest = drop (1024 - pos) src in
      let later = flat (run.behind ++ run.current ∷ []) in
      let long : length rest ≡ length src - (1024 - pos) = length-drop (1024 - pos) src in
      let front_taken : take (pos + length src) filled_up ≡ filled_up =
        take-ge (pos + length src) filled_up (ground (arith, length-filled_up)) in
      let behind_taken : take ((pos + length src) - length filled_up) later ≡ rest =
        let e : (pos + length src) - length filled_up ≡ 0 + length rest =
          ground (arith, length-filled_up, long) in
        ap (λ (n : ℕ). take n later) e ∙ bytes in
      (
        ran,
        (length-filled_up, whole),
        ground (arith, counted, long),
        small,
        take-append (pos + length src) filled_up later
            ∙ ap (λ (bs : List ℕ). bs ++ take ((pos + length src) - length filled_up) later)
                (front_taken ∙ filled_up-eq)
            ∙ ap (λ (bs : List ℕ). (take pos buf ++ front) ++ bs) behind_taken
            ∙ append_assoc (take pos buf) front rest
            ∙ ap (λ (bs : List ℕ). take pos buf ++ bs) front-rest,
      )

  Refused-behind :
      (run : Filled)
      → Refused zeros 0 run
      → Refused buf pos (record run { behind = filled_up ∷ run.behind })
  unfolding kept
  Refused-behind run (stopped, _, _, _, _) =
      (stopped, filled_up, rw stopped refl, length-filled_up, take-filled_up)

pub insert_loop-Loops :
    (answers : List Bool) (buf : Buf) (pos : ℕ) (src : List ℕ)
    → length buf ≡ 1024
    → pos ≤ 1024
    → Loops answers buf pos src
unfolding Loops Stops
insert_loop-Loops [] buf pos src full inside = elim (Bool-cases (leb (length src) (1024 - pos))) [
  | inl fits ↦ last_round buf pos src full inside [] fits
  | inr more ↦ (
    _,
    Stops-at_end buf pos src full inside more,
    inr (refused_run-Refused buf pos src full inside more),
  )
]
insert_loop-Loops (false ∷ answers) buf pos src full inside =
    elim (Bool-cases (leb (length src) (1024 - pos))) [
      | inl fits ↦ last_round buf pos src full inside (false ∷ answers) fits
      | inr more ↦ (
        _,
        Stops-at_refusal buf pos src full inside more answers,
        inr (refused_run-Refused buf pos src full inside more),
      )
    ]
insert_loop-Loops (true ∷ answers) buf pos src full inside =
    let (run, ran, result) =
      insert_loop-Loops answers zeros 0 (drop (1024 - pos) src) length-zeros (omega arith) in
    elim (Bool-cases (leb (length src) (1024 - pos))) [
      | inl fits ↦ last_round buf pos src full inside (true ∷ answers) fits
      | inr more ↦ (
        _,
        goes_on buf pos src full inside more answers run ran,
        elim result [
          | inl done ↦ inl (Done-behind buf pos src full inside more run done)
          | inr refused ↦ inr (Refused-behind buf pos src full inside more run refused)
        ],
      )
    ]

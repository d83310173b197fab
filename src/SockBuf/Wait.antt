-- ===== src/SockBuf/Wait.antt =====
-- comm/ic_sock_buf.c, `get_sock_buf_page_wait`: tries for a page until the clock shows that the time is up. What the
-- clock shows and what other threads do to the pool while this one sleeps are arguments.
use iclaustron.Base.{
  ℕ, ◌<◌, ◌≡◌, ◌^◌, ◌%◌, ◌≤◌, ◌⊎◌, ◌++◌, refl, ◌∙◌, Bool, true, false, not, Option, none, some,
  List, [], ◌∷◌, Outcome, ok, aborted, undefined, ltb, lt→ltb, ◌==◌, if◌then◌else◌, arith,
  Bool-cases, inl, inr,
}
use iclaustron.SockBuf.{Ptr, null, Pool, Got, get_page}

-- One round: what the pool is behind the sleep, and how many milliseconds the clock shows then since its first
-- reading, at the end of the next try.
pub record Round : Type 0 where
  pub others : Pool → Pool
  pub millis : ℕ

-- Whether a try behind the first one is the last.
pub is_late : (milliseconds_to_wait millis : ℕ) → Bool
is_late milliseconds_to_wait millis = ltb milliseconds_to_wait (millis % 2 ^ 32)

-- The calls of `get_sock_buf_page` behind the first one, each behind a sleep; `none` where the rounds are used up.
pub wait_loop :
    List Round → (buf_size num_pages milliseconds_to_wait : ℕ) → Got → Option (Outcome Got)
wait_loop [] buf_size num_pages milliseconds_to_wait got = none
wait_loop (r ∷ rounds) buf_size num_pages milliseconds_to_wait got =
    elim (get_page (r.others got.pool) buf_size got.free_pages num_pages) [
      | ok next ↦
          (let rest = wait_loop rounds buf_size num_pages milliseconds_to_wait next in
            if not (next.page == null)
            then some (ok next)
            else if is_late milliseconds_to_wait r.millis
            then some (ok next)
            else rest)
      | aborted ↦ some aborted
      | undefined ↦ some undefined
    ]

-- `get_sock_buf_page_wait`: the page is NULL where the time was up.
pub get_page_wait :
    List Round
    → Pool
    → (buf_size : ℕ) → Option Ptr
    → (num_pages milliseconds_to_wait : ℕ) → Option (Outcome Got)
get_page_wait rounds pool buf_size free_pages num_pages milliseconds_to_wait =
    elim (get_page pool buf_size free_pages num_pages) [
      | ok got ↦
          (let rest = wait_loop rounds buf_size num_pages milliseconds_to_wait got in
            if not (got.page == null) then some (ok got) else rest)
      | aborted ↦ some aborted
      | undefined ↦ some undefined
    ]

-- A page was found, or the time was up and nothing before had ended the wait, or a try did not end well.
pub data Settled (unsettled : Type 0) : Outcome Got → Type 0 where
  found : {got : Got} → (got.page == null) ≡ false → Settled unsettled (ok got)
  timed_out : {got : Got} → (got.page == null) ≡ true → unsettled → Settled unsettled (ok got)
  stopped : Settled unsettled aborted
  lost : Settled unsettled undefined

Settled-map : {A B : Type 0} {o : Outcome Got} → (A → B) → Settled A o → Settled B o
Settled-map f (found e) = found e
Settled-map f (timed_out e a) = timed_out e (f a)
Settled-map f stopped = stopped
Settled-map f lost = lost

-- No reading of the clock is beyond the limit.
abbrev pub AreEarly : (milliseconds_to_wait : ℕ) → List Round → Type 0
AreEarly milliseconds_to_wait [] = Unit
AreEarly milliseconds_to_wait (r ∷ rounds) =
    (r.millis % 2 ^ 32 ≤ milliseconds_to_wait) × AreEarly milliseconds_to_wait rounds

Outcome-cases : (o : Outcome Got) → ((got : Got) × (o ≡ ok got)) ⊎ (o ≡ aborted) ⊎ (o ≡ undefined)
Outcome-cases (ok got) = inl (got, refl)
Outcome-cases aborted = inr (inl refl)
Outcome-cases undefined = inr (inr refl)

module _ (buf_size num_pages milliseconds_to_wait : ℕ) where
  -- A try without a page, in time, goes on with the next round.
  wait_loop-goes_on :
      (r : Round) (rounds : List Round) (got next : Got)
      → get_page (r.others got.pool) buf_size got.free_pages num_pages ≡ ok next
      → (next.page == null) ≡ true
      → r.millis % 2 ^ 32 ≤ milliseconds_to_wait
      → wait_loop (r ∷ rounds) buf_size num_pages milliseconds_to_wait got
        ≡ wait_loop rounds buf_size num_pages milliseconds_to_wait next
  unfolding wait_loop is_late
  wait_loop-goes_on r rounds got next tried empty early =
      let in_time : ltb milliseconds_to_wait (r.millis % 2 ^ 32) ≡ false = ground arith in
      rw (tried, wait_loop) (rw empty (rw in_time refl))

  wait_loop-found :
      (r : Round) (rounds : List Round) (got next : Got)
      → get_page (r.others got.pool) buf_size got.free_pages num_pages ≡ ok next
      → (next.page == null) ≡ false
      → wait_loop (r ∷ rounds) buf_size num_pages milliseconds_to_wait got ≡ some (ok next)
  unfolding wait_loop
  wait_loop-found r rounds got next tried page = rw (tried, wait_loop) (rw page refl)

  wait_loop-late :
      (r : Round) (rounds : List Round) (got next : Got)
      → get_page (r.others got.pool) buf_size got.free_pages num_pages ≡ ok next
      → (next.page == null) ≡ true
      → milliseconds_to_wait < r.millis % 2 ^ 32
      → wait_loop (r ∷ rounds) buf_size num_pages milliseconds_to_wait got ≡ some (ok next)
  unfolding wait_loop is_late
  wait_loop-late r rounds got next tried empty late =
      let over : ltb milliseconds_to_wait (r.millis % 2 ^ 32) ≡ true =
        lt→ltb milliseconds_to_wait (r.millis % 2 ^ 32) late in
      rw (tried, wait_loop) (rw empty (rw over refl))

  wait_loop-ends :
      (early : List Round) (r : Round) (later : List Round) (got : Got)
      → AreEarly milliseconds_to_wait early
      → milliseconds_to_wait < r.millis % 2 ^ 32
      → (o : Outcome Got) × (wait_loop
            (early ++ r ∷ later)
            buf_size
            num_pages
            milliseconds_to_wait
            got
          ≡ some o)
        × Settled (wait_loop early buf_size num_pages milliseconds_to_wait got ≡ none) o
  unfolding wait_loop
  wait_loop-ends [] r later got in_time late =
      elim (Outcome-cases (get_page (r.others got.pool) buf_size got.free_pages num_pages)) [
        | inl (next, tried) ↦ elim (Bool-cases (next.page == null)) [
          | inl e ↦ (ok next, wait_loop-late r later got next tried e late, timed_out e refl)
          | inr e ↦ (ok next, wait_loop-found r later got next tried e, found e)
        ]
        | inr (inl e) ↦ (aborted, rw (e, wait_loop) refl, stopped)
        | inr (inr e) ↦ (undefined, rw (e, wait_loop) refl, lost)
      ]
  wait_loop-ends (s ∷ early) r later got in_time late =
      elim (Outcome-cases (get_page (s.others got.pool) buf_size got.free_pages num_pages)) [
        | inl (next, tried) ↦ elim (Bool-cases (next.page == null)) [
          | inl e ↦
              let (o, run, settled) = wait_loop-ends early r later next in_time.1 late in
              (
                o,
                wait_loop-goes_on s (early ++ r ∷ later) got next tried e in_time.0 ∙ run,
                Settled-map (λ n. wait_loop-goes_on s early got next tried e in_time.0 ∙ n) settled,
              )
          | inr e ↦ (ok next, wait_loop-found s (early ++ r ∷ later) got next tried e, found e)
        ]
        | inr (inl e) ↦ (aborted, rw (e, wait_loop) refl, stopped)
        | inr (inr e) ↦ (undefined, rw (e, wait_loop) refl, lost)
      ]

  -- Where a reading of the clock is beyond the limit and none before is, `get_sock_buf_page_wait` ends in that round
  -- at the latest, whatever other threads do: with a page, with NULL if the earlier tries gave none, or as a try that
  -- did not end well.
  pub get_page_wait-ends :
      (early : List Round) (r : Round) (later : List Round) (pool : Pool) (free_pages : Option Ptr)
      → AreEarly milliseconds_to_wait early
      → milliseconds_to_wait < r.millis % 2 ^ 32
      → (o : Outcome Got) × (get_page_wait
            (early ++ r ∷ later)
            pool
            buf_size
            free_pages
            num_pages
            milliseconds_to_wait
          ≡ some o)
        × Settled
            (get_page_wait early pool buf_size free_pages num_pages milliseconds_to_wait ≡ none)
            o
  unfolding get_page_wait
  get_page_wait-ends early r later pool free_pages in_time late =
      elim (Outcome-cases (get_page pool buf_size free_pages num_pages)) [
        | inl (got, tried) ↦ elim (Bool-cases (got.page == null)) [
          | inl e ↦
              let (o, run, settled) = wait_loop-ends early r later got in_time late in
              (
                o,
                rw (tried, get_page_wait) (rw e run),
                Settled-map (λ n. rw (tried, get_page_wait) (rw e n)) settled,
              )
          | inr e ↦ (ok got, rw (tried, get_page_wait) (rw e refl), found e)
        ]
        | inr (inl e) ↦ (aborted, rw (e, get_page_wait) refl, stopped)
        | inr (inr e) ↦ (undefined, rw (e, get_page_wait) refl, lost)
      ]

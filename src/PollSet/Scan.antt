-- ===== src/PollSet/Scan.antt =====
-- The scan of the connections that are ready.
use mathlib.Core.List.{reverse-cons, reverse-reverse}
use mathlib.Mathlib.Data.List.Basic.{map-reverse_aux}
use iclaustron.Base.{
  ℕ, zero, suc, ◌+◌, ◌≡◌, refl, sym, ap, ◌∙◌, aborted, ◌>>=◌, map, true, false, Option, none, some,
  List, [], ◌∷◌, ◌++◌, reverse, length-append, Outcome, ok, Ends, ◌==◌, if◌then◌else◌, length,
  get_elem?, set, arith,
}
use iclaustron.PollSet.{
  PollConnection, Slots, PollSet, split_last, get_next_connection, fill_ready, start_scan, events,
  epoll_check_poll_set,
}

-- How many ready connections have a file descriptor.
unfoldable pub ready_with : ℕ → List PollConnection → ℕ
ready_with fd [] = 0
ready_with fd (c ∷ ready) = (if c.fd == fd then 1 else 0) + ready_with fd ready

split_last-append :
    (front : List PollConnection) (last : PollConnection)
    → split_last (front ++ last ∷ []) ≡ some (front, last)
unfolding split_last
split_last-append [] last = refl
split_last-append (c ∷ front) last = rw (split_last-append front last) refl

-- `get_next_connection` in a scan hands out the last of the ready connections and keeps the others.
pub get_next_connection-last :
    (p : PollSet) (front : List PollConnection) (last : PollConnection)
    → p.poll_scan_ongoing ≡ true
    → p.ready_connections ≡ front ++ last ∷ []
    → get_next_connection p ≡ ok (record p { ready_connections = front }, some last)
unfolding get_next_connection
get_next_connection-last p front last scanning ready =
    let split : split_last p.ready_connections ≡ some (front, last) =
      ap split_last ready ∙ split_last-append front last in
    ground (arith, split)

-- The calls of `get_next_connection` until one returns NULL, `calls` at most, and what they return; `aborted` stands
-- for the end of the calls.
unfoldable pub scan : (calls : ℕ) → PollSet → Outcome (PollSet × List PollConnection)
scan zero p = aborted
scan (suc calls) p = get_next_connection p >>= λ r. elim (r.1) [
  | none ↦ ok (r.0, [])
  | some c ↦ scan calls r.0 >>= λ q. ok (q.0, c ∷ q.1)
]

scan-reverse :
    (p : PollSet) (ready : List PollConnection)
    → p.poll_scan_ongoing ≡ true
    → p.ready_connections ≡ reverse ready
    → Ends (scan (suc (length ready)) p) (λ q. (q.1 ≡ ready) × (q.0.poll_scan_ongoing ≡ false))
unfolding scan
scan-reverse p [] scanning e = (
  (record p { poll_scan_ongoing = false }, []),
  (unfold get_next_connection split_last in (ground arith)),
  (refl, refl),
)
scan-reverse p (c ∷ ready) scanning e =
    let (q, run, result) =
      scan-reverse (record p { ready_connections = reverse ready }) ready scanning refl in
    (
      (q.0, c ∷ q.1),
      rw (get_next_connection-last p (reverse ready) c scanning (e ∙ reverse-cons c ready))
          (rw run refl),
      (ap (◌∷◌ c) result.0, result.1),
    )

-- The file descriptor of the member in a slot.
unfoldable pub fd_at : Slots → ℕ → Option ℕ
fd_at [] i = none
fd_at (none ∷ slots) zero = none
fd_at (some c ∷ slots) zero = some c.fd
fd_at (s ∷ slots) (suc i) = fd_at slots i

fd_at-member :
    (slots : Slots) (i : ℕ) {fd : ℕ}
    → fd_at slots i ≡ some fd
    → (c : PollConnection) × (get_elem? slots i ≡ some (some c)) × (c.fd ≡ fd)
unfolding fd_at
fd_at-member [] i e = cc
fd_at-member (none ∷ slots) zero e = cc
fd_at-member (some c ∷ slots) zero e = (c, refl, ground (arith, e))
fd_at-member (none ∷ slots) (suc i) e = fd_at-member slots i e
fd_at-member (some d ∷ slots) (suc i) e = fd_at-member slots i e

-- A slot takes a member with the file descriptor that it had.
fd_at-set :
    (slots : Slots) (i j : ℕ) (c : PollConnection)
    → fd_at slots i ≡ some c.fd
    → fd_at (set slots i (some c)) j ≡ fd_at slots j
unfolding fd_at
fd_at-set [] i j c e = refl
fd_at-set (none ∷ slots) zero j c e = cc
fd_at-set (some d ∷ slots) zero zero c e = sym e
fd_at-set (some d ∷ slots) zero (suc j) c e = refl
fd_at-set (none ∷ slots) (suc i) zero c e = refl
fd_at-set (some d ∷ slots) (suc i) zero c e = refl
fd_at-set (none ∷ slots) (suc i) (suc j) c e = fd_at-set slots i j c e
fd_at-set (some d ∷ slots) (suc i) (suc j) c e = fd_at-set slots i j c e

-- The slots of the events have members, with the file descriptors of the list.
abbrev pub AreWatched : Slots → List ℕ → List ℕ → Type 0
AreWatched slots [] [] = Unit
AreWatched slots [] (fd ∷ fds) = ⊥
AreWatched slots (i ∷ indexes) [] = ⊥
AreWatched slots (i ∷ indexes) (fd ∷ fds) = (fd_at slots i ≡ some fd) × AreWatched slots indexes fds

AreWatched-set :
    (slots : Slots) (i : ℕ) (c : PollConnection)
    → fd_at slots i ≡ some c.fd
    → (indexes fds : List ℕ) → AreWatched slots indexes fds
    → AreWatched (set slots i (some c)) indexes fds
AreWatched-set slots i c e [] [] w = tt
AreWatched-set slots i c e [] (fd ∷ fds) w = absurd w
AreWatched-set slots i c e (j ∷ indexes) [] w = absurd w
AreWatched-set slots i c e (j ∷ indexes) (fd ∷ fds) w =
    (fd_at-set slots i j c e ∙ w.0, AreWatched-set slots i c e indexes fds w.1)

fill_ready-fds :
    (indexes : List ℕ) (slots : Slots) (fds : List ℕ)
    → AreWatched slots indexes fds
    → Ends
        (fill_ready indexes slots)
        (λ r. (map (λ c. c.fd) r.0 ≡ fds) × (length r.0 ≡ length indexes))
unfolding fill_ready
fill_ready-fds [] slots [] w = (([], slots), refl, (refl, refl))
fill_ready-fds [] slots (fd ∷ fds) w = absurd w
fill_ready-fds (i ∷ indexes) slots [] w = absurd w
fill_ready-fds (i ∷ indexes) slots (fd ∷ fds) w =
    let (c, here, same) = fd_at-member slots i w.0 in
    let checked : PollConnection = record c { ret_code = some 0 } in
    let (r, run, result) =
      fill_ready-fds indexes (set slots i (some checked)) fds
        (AreWatched-set slots i checked (w.0 ∙ ap some (sym same)) indexes fds w.1) in
    (
      (checked ∷ r.0, r.1),
      rw (here, fill_ready) (rw run refl),
      (ground (arith, same, result.0), ap suc result.1),
    )

length-reverse_native : {A : Type 0} (xs : List A) → length (reverse xs) ≡ length xs
length-reverse_native [] = refl
length-reverse_native (x ∷ xs) =
    ap length (reverse-cons x xs)
    ∙ omega (arith, length-append (reverse xs) (x ∷ []), length-reverse_native xs)

-- `epoll_check_poll_set` with events for slots that have members, and then the calls of `get_next_connection`, one
-- more than the events: the file descriptors of the members are handed out, those of the last event first, then NULL
-- ends the scan.
pub epoll_check-scan :
    (p : PollSet) (indexes fds : List ℕ)
    → AreWatched p.poll_connections indexes fds
    → Ends
        (epoll_check_poll_set (events indexes) p >>= λ r. scan (suc (length indexes)) r.0)
        (λ q. (map (λ c. c.fd) q.1 ≡ reverse fds) × (q.0.poll_scan_ongoing ≡ false))
unfolding epoll_check_poll_set start_scan
epoll_check-scan p indexes fds w =
    let (r, run, result) = fill_ready-fds indexes p.poll_connections fds w in
    let started : PollSet = record p {
      poll_connections = r.1;
      ready_connections = r.0;
      poll_scan_ongoing = true;
    } in
    let (q, scanned, handed) =
      scan-reverse started (reverse r.0) refl (sym (reverse-reverse r.0)) in
    let calls : length (reverse r.0) ≡ length indexes = length-reverse_native r.0 ∙ result.1 in
    (
      q,
      rw run (ap (λ n. scan (suc n) started) (sym calls) ∙ scanned),
      (
        ap (map (λ c. c.fd)) handed.0 ∙ map-reverse_aux (λ c. c.fd) r.0 [] ∙ ap reverse result.0,
        handed.1,
      ),
    )

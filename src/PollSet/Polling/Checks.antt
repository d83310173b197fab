-- ===== src/PollSet/Polling/Checks.antt =====
-- What the check of a poll set for poll reports.
use iclaustron.Base.{
  ℕ, zero, suc, ◌+◌, ◌<◌, ◌≤◌, ◌≡◌, ◌≢◌, ◌⊎◌, refl, sym, ap, ◌∙◌, true, false, none, some, List, [],
  ◌∷◌, map, aborted, Ends, ◌==◌, if◌then◌else◌, length, length-map, get_elem?, replicate, arith,
  Bool-cases, inl, inr,
}
use iclaustron.PollSet.{PollConnection, PollSet}
use iclaustron.PollSet.Polling.{arrived, success, pollin, fill_polled, poll_check_poll_set}
use iclaustron.PollSet.Polling.Padded.{padded}
use iclaustron.PollSet.Polling.Mirror.{Mirrors}

-- The file descriptors for which poll reports POLLIN and nothing else.
unfoldable pub ready_fds : List PollConnection → List ℕ → List ℕ
ready_fds [] revents = []
ready_fds (c ∷ members) [] = []
ready_fds (c ∷ members) (r ∷ revents) =
    if r == pollin then c.fd ∷ ready_fds members revents else ready_fds members revents

-- For how many file descriptors poll reports something.
unfoldable pub reported_count : List ℕ → ℕ
reported_count [] = 0
reported_count (r ∷ revents) = (if r == 0 then 0 else 1) + reported_count revents

-- Poll reports nothing but POLLIN.
abbrev pub OnlyPollin : List ℕ → Type 0
OnlyPollin [] = Unit
OnlyPollin (r ∷ revents) = ((r ≡ 0) ⊎ (r ≡ pollin)) × OnlyPollin revents

fill_polled-members :
    (members : List PollConnection) (free : ℕ) (revents : List ℕ)
    → length revents ≡ length members
    → Ends
        (fill_polled (length members) revents (padded (map some members) free none))
        (λ q. map (λ c. c.fd) q.0 ≡ ready_fds members revents)
unfolding fill_polled ready_fds
fill_polled-members [] free revents same = (([], replicate free none), refl, refl)
fill_polled-members (c ∷ members) free [] same = absurd (omega arith)
fill_polled-members (c ∷ members) free (r ∷ revents) same =
    let (q, run, fds) = fill_polled-members members free revents (omega arith) in
    elim (Bool-cases (r == pollin)) [
      | inl e ↦
          let checked : PollConnection = record c { ret_code = some 0 } in
          ((checked ∷ q.0, some checked ∷ q.1), rw run (rw e refl), rw e (ap (◌∷◌ c.fd) fds))
      | inr e ↦ ((q.0, some c ∷ q.1), rw run (rw e refl), rw e fds)
    ]

length-ready_fds_le :
    (members : List PollConnection) (revents : List ℕ)
    → length (ready_fds members revents) ≤ reported_count revents
unfolding ready_fds reported_count
length-ready_fds_le [] revents = omega arith
length-ready_fds_le (c ∷ members) [] = omega arith
length-ready_fds_le (c ∷ members) (r ∷ revents) =
    ground (arith, length-ready_fds_le members revents)

length-ready_fds_eq :
    (members : List PollConnection) (revents : List ℕ)
    → length revents ≡ length members
    → OnlyPollin revents
    → length (ready_fds members revents) ≡ reported_count revents
unfolding ready_fds reported_count
length-ready_fds_eq [] [] same only = refl
length-ready_fds_eq [] (r ∷ revents) same only = absurd (omega arith)
length-ready_fds_eq (c ∷ members) [] same only = absurd (omega arith)
length-ready_fds_eq (c ∷ members) (r ∷ revents) same (inl e, only) =
    ground (arith, e, length-ready_fds_eq members revents (omega arith) only)
length-ready_fds_eq (c ∷ members) (r ∷ revents) same (inr e, only) =
    ground (arith, e, length-ready_fds_eq members revents (omega arith) only)

length-ready_fds_lt :
    (members : List PollConnection) (revents : List ℕ) (i r : ℕ)
    → get_elem? revents i ≡ some r
    → r ≢ 0
    → r ≢ pollin
    → length (ready_fds members revents) < reported_count revents
unfolding ready_fds reported_count
length-ready_fds_lt members [] i r here nonzero other = cc
length-ready_fds_lt [] (s ∷ revents) zero r here nonzero other = ground (arith, here)
length-ready_fds_lt [] (s ∷ revents) (suc i) r here nonzero other =
    ground (arith, length-ready_fds_lt [] revents i r here nonzero other)
length-ready_fds_lt (c ∷ members) (s ∷ revents) zero r here nonzero other =
    ground (arith, here, length-ready_fds_le members revents)
length-ready_fds_lt (c ∷ members) (s ∷ revents) (suc i) r here nonzero other =
    ground (arith, length-ready_fds_lt members revents i r here nonzero other)

fill_polled-Mirrors :
    (members : List PollConnection) (p : PollSet) (revents : List ℕ)
    → Mirrors members p
    → length revents ≡ length members
    → Ends
        (fill_polled p.num_poll_connections revents p.poll_connections)
        (λ q. map (λ c. c.fd) q.0 ≡ ready_fds members revents)
fill_polled-Mirrors members p revents m same =
    let (q, run, fds) = fill_polled-members members m.free revents same in
    (
      q,
      ap (λ n. fill_polled n revents p.poll_connections) m.count
          ∙ ap (fill_polled (length members) revents) m.slots
          ∙ run,
      fds,
    )

-- Where poll reports nothing but POLLIN, with the count of the file descriptors for which it reports something,
-- `poll_check_poll_set` returns 0 and starts a scan of the members with POLLIN, from the first.
pub poll_check-ready :
    (members : List PollConnection) (p : PollSet) (revents : List ℕ)
    → Mirrors members p
    → length revents ≡ length members
    → OnlyPollin revents
    → Ends (poll_check_poll_set (arrived (reported_count revents) revents) p) (λ r.
      (r.1 ≡ success)
      × (map (λ c. c.fd) r.0.ready_connections ≡ ready_fds members revents)
      × (r.0.poll_scan_ongoing ≡ true))
unfolding poll_check_poll_set
poll_check-ready members p revents m same only =
    let (q, run, fds) = fill_polled-Mirrors members p revents m same in
    let counted : (length q.0 == reported_count revents) ≡ true = ground (
      arith,
      sym (length-map q.0 (λ c. c.fd))
          ∙ ap length fds
          ∙ length-ready_fds_eq members revents same only,
    ) in
    (
      (
        record p { poll_connections = q.1; ready_connections = q.0; poll_scan_ongoing = true },
        success,
      ),
      rw run (rw counted refl),
      (refl, fds, refl),
    )

-- Where poll reports something else than POLLIN for one of the members, a hang-up with data for example, the check of
-- the count in `poll_check_poll_set` ends the program.
pub poll_check-aborts :
    (members : List PollConnection) (p : PollSet) (revents : List ℕ) (i r : ℕ)
    → Mirrors members p
    → length revents ≡ length members
    → get_elem? revents i ≡ some r
    → r ≢ 0
    → r ≢ pollin
    → poll_check_poll_set (arrived (reported_count revents) revents) p ≡ aborted
unfolding poll_check_poll_set
poll_check-aborts members p revents i r m same here nonzero other =
    let (q, run, fds) = fill_polled-Mirrors members p revents m same in
    let fewer : length q.0 < reported_count revents = omega (
      arith,
      length-map q.0 (λ c. c.fd),
      ap length fds,
      length-ready_fds_lt members revents i r here nonzero other,
    ) in
    let differ : (length q.0 == reported_count revents) ≡ false = ground (arith, fewer) in
    rw run (rw differ refl)

-- ===== src/PollSet/Polling/Removal.antt =====
-- Removing a member of a poll set for poll, whose last member takes its place.
use mathlib.Core.Path.{subst}
use iclaustron.Base.{
  ℕ, zero, suc, ◌-◌, ◌<◌, ◌≤◌, ◌≡◌, refl, sym, ap, ◌∙◌, true, none, some, List, [], ◌∷◌, ◌++◌, map,
  if◌then◌else◌, length, length-append, length-map, length-set, get_elem?, set, arith, Option-cases,
  ◌⊎◌, inl, inr,
}
use iclaustron.PollSet.{
  PollConnection, PollSet, placed, refused, member_index, without_member, remove_ready,
  remove_poll_set_member, not_found_in_poll_set,
}
use iclaustron.PollSet.Slots.{IsAbsent, member_index-some, member_index-none}
use iclaustron.PollSet.Polling.{without_fd, after_removal, poll_poll_set_remove_connection}
use iclaustron.PollSet.Polling.Padded.{
  padded, get_elem?-padded_last, set-last_moved, snoc-cases, map-snoc, map-set,
}
use iclaustron.PollSet.Polling.Mirror.{Mirrors}

get_elem?-padded_members :
    (members : List PollConnection) (free i : ℕ) {c : PollConnection}
    → get_elem? (padded (map some members) free none) i ≡ some (some c)
    → (get_elem? members i ≡ some c) × (i < length members)
get_elem?-padded_members [] zero i e = cc
get_elem?-padded_members [] (suc free) zero e = cc
get_elem?-padded_members [] (suc free) (suc i) e =
    absurd (omega (arith, (get_elem?-padded_members [] free i e).1))
get_elem?-padded_members (d ∷ members) free zero e = (ground (arith, e), omega arith)
get_elem?-padded_members (d ∷ members) free (suc i) e =
    let rest = get_elem?-padded_members members free i e in (rest.0, omega (arith, rest.1))

-- The member in front of the last place, or in it, with a file descriptor is removed: the last one takes its place.
pub record Moves (members : List PollConnection) (fd : ℕ) (r : PollSet × ℕ) : Type 0 where
  pub front : List PollConnection
  pub last : PollConnection
  pub index : ℕ
  pub split : members ≡ front ++ last ∷ []
  pub found : (c : PollConnection) × (get_elem? members index ≡ some c) × (c.fd ≡ fd)
  pub result : r.1 ≡ 0
  pub mirrors : Mirrors (set front index last) r.0

-- No member has the file descriptor, and the set is as before.
abbrev pub Misses : List PollConnection → PollSet → ℕ → PollSet × ℕ → Type 0
Misses members p fd r =
    IsAbsent fd p.poll_connections × (r.1 ≡ not_found_in_poll_set) × Mirrors members r.0

without_member-moved :
    (front : List PollConnection) (last : PollConnection) (free i : ℕ)
    → i ≤ length front
    → without_member true
        (padded (map some front ++ some last ∷ []) free none)
        i
        (length (map some front))
      ≡ padded (map some (set front i last)) (suc free) none
unfolding without_member
without_member-moved front last free i le =
    rw (get_elem?-padded_last (map some front) (some last) none free) (
      set-last_moved (map some front) (some last) none free i (omega (arith, length-map front some))
      ∙ ap (λ xs. padded xs (suc free) none) (sym (map-set some front i last)))

without_fd-moved :
    (front : List PollConnection) (last : PollConnection) (free i : ℕ)
    → i ≤ length front
    → without_fd
        (padded (map (λ d. d.fd) front ++ last.fd ∷ []) free 0)
        i
        (length (map (λ d. d.fd) front))
      ≡ padded (map (λ d. d.fd) (set front i last)) (suc free) 0
unfolding without_fd
without_fd-moved front last free i le =
    rw (get_elem?-padded_last (map (λ d. d.fd) front) (last.fd) 0 free) (
      set-last_moved (map (λ d. d.fd) front) (last.fd) 0 free i
        (omega (arith, length-map front (λ d. d.fd)))
      ∙ ap (λ xs. padded xs (suc free) 0) (sym (map-set (λ d. d.fd) front i last)))

-- What removing the member at an index leaves in the slots and in the array of file descriptors.
removed-Mirrors :
    (front : List PollConnection) (last : PollConnection) (p : PollSet)
    (ready : List PollConnection) (i : ℕ)
    → Mirrors (front ++ last ∷ []) p
    → i ≤ length front
    → Mirrors (set front i last) (record p {
      ready_connections = ready;
      poll_connections =
          without_member p.use_compact_array p.poll_connections i (p.num_poll_connections - 1);
      num_poll_connections = p.num_poll_connections - 1;
      poll_fds = without_fd p.poll_fds i (p.num_poll_connections - 1);
    })
unfolding without_member without_fd
removed-Mirrors front last p ready i m le =
    let counted : p.num_poll_connections ≡ suc (length front) =
      omega (arith, m.count, length-append front (last ∷ [])) in
    let last_slot : p.num_poll_connections - 1 ≡ length (map some front) =
      omega (arith, counted, length-map front some) in
    let last_fd : p.num_poll_connections - 1 ≡ length (map (λ d. d.fd) front) =
      omega (arith, counted, length-map front (λ d. d.fd)) in
    record {
      free = suc m.free;
      compact = m.compact;
      slots =
          ap (λ compact. without_member compact p.poll_connections i (p.num_poll_connections - 1))
            m.compact
          ∙ ap (λ s. without_member true s i (p.num_poll_connections - 1))
              (m.slots ∙ ap (λ xs. padded xs m.free none) (map-snoc some front last))
          ∙ ap (without_member true (padded (map some front ++ some last ∷ []) m.free none) i)
              last_slot
          ∙ without_member-moved front last m.free i le;
      fds =
          ap (λ s. without_fd s i (p.num_poll_connections - 1))
            (m.fds ∙ ap (λ xs. padded xs m.free 0) (map-snoc (λ d. d.fd) front last))
          ∙ ap (without_fd (padded (map (λ d. d.fd) front ++ last.fd ∷ []) m.free 0) i) last_fd
          ∙ without_fd-moved front last m.free i le;
      count = omega (arith, counted, length-set front i last);
      area = omega (arith, m.area, length-append front (last ∷ []), length-set front i last);
      limit = m.limit;
    }

Mirrors-found :
    (members : List PollConnection) (p : PollSet) (fd i : ℕ)
    → (m : Mirrors members p) → member_index fd p.poll_connections ≡ some i
    → ((c : PollConnection) × (get_elem? members i ≡ some c) × (c.fd ≡ fd)) × (i < length members)
Mirrors-found members p fd i m found =
    let (c, here, same) = member_index-some fd p.poll_connections i found in
    let at_i =
      get_elem?-padded_members members m.free i (ap (λ s. get_elem? s i) (sym m.slots) ∙ here) in
    ((c, at_i.0, same), at_i.1)

removed-Moves :
    (members : List PollConnection) (p : PollSet) (fd i : ℕ)
    → Mirrors members p
    → member_index fd p.poll_connections ≡ some i
    → (ready : List PollConnection)
    → Moves members fd (
      record p {
        ready_connections = ready;
        poll_connections =
            without_member p.use_compact_array p.poll_connections i (p.num_poll_connections - 1);
        num_poll_connections = p.num_poll_connections - 1;
        poll_fds = without_fd p.poll_fds i (p.num_poll_connections - 1);
      },
      0,
    )
removed-Moves members p fd i m found ready =
    let (there, within) = Mirrors-found members p fd i m found in
    elim (snoc-cases members) [
      | inl e ↦ absurd (omega (arith, within, ap length e))
      | inr (front, last, e) ↦ record {
        front = front;
        last = last;
        index = i;
        split = e;
        found = there;
        result = refl;
        mirrors =
            removed-Mirrors front last p ready i (subst (λ ms. Mirrors ms p) e m)
              (omega (arith, within, ap length e, length-append front (last ∷ [])));
      }
    ]

-- The ready connections after a removal.
abbrev ready_left : PollSet → ℕ → List PollConnection
ready_left p fd =
    if p.poll_scan_ongoing then remove_ready fd p.ready_connections else p.ready_connections

remove-missing :
    (p : PollSet) (fd : ℕ)
    → member_index fd p.poll_connections ≡ none
    → remove_poll_set_member p fd
      ≡ (record p { ready_connections = ready_left p fd }, refused not_found_in_poll_set)
unfolding remove_poll_set_member
remove-missing p fd missing = rw (missing, remove_poll_set_member) refl

remove-found :
    (p : PollSet) (fd i : ℕ)
    → member_index fd p.poll_connections ≡ some i
    → remove_poll_set_member p fd ≡ (
      record p {
        ready_connections = ready_left p fd;
        num_poll_connections = p.num_poll_connections - 1;
        poll_connections =
            without_member p.use_compact_array p.poll_connections i (p.num_poll_connections - 1);
      },
      placed i,
    )
unfolding remove_poll_set_member
remove-found p fd i found = rw (found, remove_poll_set_member) refl

poll_remove-missing :
    (p : PollSet) (fd : ℕ)
    → member_index fd p.poll_connections ≡ none
    → poll_poll_set_remove_connection p fd
      ≡ (record p { ready_connections = ready_left p fd }, not_found_in_poll_set)
unfolding poll_poll_set_remove_connection after_removal
poll_remove-missing p fd missing = ap after_removal (remove-missing p fd missing)

poll_remove-found :
    (p : PollSet) (fd i : ℕ)
    → member_index fd p.poll_connections ≡ some i
    → poll_poll_set_remove_connection p fd ≡ (
      record p {
        ready_connections = ready_left p fd;
        poll_connections =
            without_member p.use_compact_array p.poll_connections i (p.num_poll_connections - 1);
        num_poll_connections = p.num_poll_connections - 1;
        poll_fds = without_fd p.poll_fds i (p.num_poll_connections - 1);
      },
      0,
    )
unfolding poll_poll_set_remove_connection after_removal
poll_remove-found p fd i found = ap after_removal (remove-found p fd i found)

-- `poll_poll_set_remove_connection` takes a member with the file descriptor out of the slots and out of the array of
-- file descriptors, and moves the last one to its place in both; where no member has the file descriptor, it returns
-- IC_ERROR_NOT_FOUND_IN_POLL_SET and both are as before.
pub poll_remove-Mirrors :
    (members : List PollConnection) (p : PollSet) (fd : ℕ)
    → Mirrors members p
    → Moves members fd (poll_poll_set_remove_connection p fd)
      ⊎ Misses members p fd (poll_poll_set_remove_connection p fd)
poll_remove-Mirrors members p fd m = elim (Option-cases (member_index fd p.poll_connections)) [
  | inl missing ↦ rw (poll_remove-missing p fd missing) (
      inr (
        member_index-none fd p.poll_connections missing,
        refl,
        record {
          free = m.free;
          compact = m.compact;
          slots = m.slots;
          fds = m.fds;
          count = m.count;
          area = m.area;
          limit = m.limit;
        },
      ))
  | inr (i, found) ↦
      rw (poll_remove-found p fd i found)
        (inl (removed-Moves members p fd i m found (ready_left p fd)))
]

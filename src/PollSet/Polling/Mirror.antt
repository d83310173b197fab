-- ===== src/PollSet/Polling/Mirror.antt =====
-- The members and the array of file descriptors of a poll set for poll: both have no gap and the same order.
use iclaustron.Base.{
  ℕ, suc, ◌+◌, ◌-◌, ◌<◌, ◌≤◌, ◌≡◌, refl, sym, ap, ◌∙◌, true, false, none, some, List, [], ◌∷◌, ◌++◌,
  map, Ends, ltb, ◌==◌, length, length-append, length-map, set, arith, lt→ltb,
}
use iclaustron.PollSet.{
  PollConnection, PollSet, new_index, with_member, add_poll_set_member, max_poll_set_connections,
}
use iclaustron.PollSet.Members.{new_member}
use iclaustron.PollSet.Polling.{poll_poll_set_add_connection}
use iclaustron.PollSet.Polling.Padded.{padded, padded-snoc, map-snoc}

-- The slots and the array of file descriptors hold the same members, from the front and in one order.
pub record Mirrors (members : List PollConnection) (p : PollSet) : Type 0 where
  pub free : ℕ
  pub compact : p.use_compact_array ≡ true
  pub slots : p.poll_connections ≡ padded (map some members) free none
  pub fds : p.poll_fds ≡ padded (map (λ c. c.fd) members) free 0
  pub count : p.num_poll_connections ≡ length members
  pub area : p.num_allocated_connections ≡ length members + free
  pub limit : p.num_allocated_connections ≤ max_poll_set_connections

new_index-Mirrors :
    (members : List PollConnection) (p : PollSet) → Mirrors members p → new_index p ≡ length members
unfolding new_index
new_index-Mirrors members p m = rw (m.compact) (m.count)

with_member-Mirrors :
    (members : List PollConnection) (p : PollSet) (fd user_obj left : ℕ)
    → (m : Mirrors members p) → m.free ≡ suc left
    → Mirrors (members ++ new_member fd user_obj (length members) ∷ []) (
        let p' : PollSet = with_member p fd user_obj (length members) in
        record p' { poll_fds = set p'.poll_fds (length members) fd })
unfolding with_member
with_member-Mirrors members p fd user_obj left m e =
    let c : PollConnection = new_member fd user_obj (length members) in
    record {
      free = left;
      compact = m.compact;
      slots =
          ap (λ s. set s (length members) (some c))
            (m.slots ∙ ap (λ n. padded (map some members) n none) e)
          ∙ ap (λ n. set (padded (map some members) (suc left) none) n (some c))
              (sym (length-map members some))
          ∙ padded-snoc (map some members) left none (some c)
          ∙ ap (λ xs. padded xs left none) (sym (map-snoc some members c));
      fds =
          ap (λ s. set s (length members) fd)
            (m.fds ∙ ap (λ n. padded (map (λ d. d.fd) members) n 0) e)
          ∙ ap (λ n. set (padded (map (λ d. d.fd) members) (suc left) 0) n fd)
              (sym (length-map members (λ d. d.fd)))
          ∙ padded-snoc (map (λ d. d.fd) members) left 0 fd
          ∙ ap (λ xs. padded xs left 0) (sym (map-snoc (λ d. d.fd) members c));
      count = omega (arith, m.count, length-append members (c ∷ []));
      area = omega (arith, m.area, e, length-append members (c ∷ []));
      limit = m.limit;
    }

-- Where memory is got and a place is left, `poll_poll_set_add_connection` puts the new member behind the others, in
-- the slots as in the array of file descriptors.
pub poll_add-Mirrors :
    (members : List PollConnection) (p : PollSet) (fd user_obj : ℕ)
    → Mirrors members p
    → p.num_poll_connections < p.num_allocated_connections
    → Ends
        (poll_poll_set_add_connection true p fd user_obj)
        (λ r. (r.1 ≡ 0) × Mirrors (members ++ new_member fd user_obj (length members) ∷ []) r.0)
unfolding poll_poll_set_add_connection add_poll_set_member
poll_add-Mirrors members p fd user_obj m less =
    let some_left : (p.num_poll_connections == p.num_allocated_connections) ≡ false =
      ground arith in
    let fits : ltb (length members) max_poll_set_connections ≡ true =
      lt→ltb (length members) max_poll_set_connections (omega (arith, m.count, m.limit)) in
    (
      (let p' : PollSet = with_member p fd user_obj (length members) in
          (record p' { poll_fds = set p'.poll_fds (length members) fd }, 0)),
      rw some_left (rw (new_index-Mirrors members p m) (rw fits refl)),
      (
        refl,
        with_member-Mirrors members p fd user_obj (m.free - 1) m (omega (arith, m.count, m.area)),
      ),
    )

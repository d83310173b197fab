-- ===== src/PollSet/Tests.antt =====
-- Runs of the poll set routines, and the properties at concrete poll sets.
use iclaustron.Base.{
  ◌≡◌, ◌⊎◌, refl, true, false, none, some, List, [], ◌∷◌, ◌++◌, map, ok, aborted, undefined, ◌>>=◌,
  Ends, get_elem?, arith,
}
use iclaustron.PollSet.{
  PollConnection, PollSet, placed, refused, events, poll_set_full, first_empty, empty_index,
  new_index, with_member, add_poll_set_member, ready_index, split_last, remove_ready, member_index,
  without_member, remove_poll_set_member, epoll_poll_set_add_connection, epoll_check_poll_set,
}
use iclaustron.PollSet.Slots.{occupied, IsAbsent}
use iclaustron.PollSet.Members.{
  IsValid, new_member, Removes, remove_poll_set_member-Removes, remove-add_poll_set_member,
}
use iclaustron.PollSet.Failures.{epoll_add-loses}
use iclaustron.PollSet.Scan.{scan, fd_at, epoll_check-scan}
use iclaustron.PollSet.Polling.{
  poll_poll_set_add_connection, poll_poll_set_remove_connection, arrived, poll_check_poll_set,
}
use iclaustron.PollSet.Polling.Mirror.{Mirrors, poll_add-Mirrors}
use iclaustron.PollSet.Polling.Removal.{Moves, Misses, poll_remove-Mirrors}
use iclaustron.PollSet.Polling.Checks.{reported_count, poll_check-aborts}

-- Two members with an empty slot between them.
abbrev watched : PollSet
watched = record {
  poll_connections = some (new_member 7 70 0) ∷ none ∷ some (new_member 9 90 2) ∷ none ∷ [];
  ready_connections = [];
  poll_fds = [];
  num_poll_connections = 2;
  num_allocated_connections = 4;
  use_compact_array = false;
  poll_scan_ongoing = false;
}

watched-IsValid : IsValid watched
unfolding occupied
watched-IsValid = record { area = refl; limit = omega arith; counted = refl; sparse = refl }

watched-IsAbsent : IsAbsent 8 watched.poll_connections
watched-IsAbsent = (refl, (refl, tt))

-- The members of a poll set for poll.
abbrev members : List PollConnection
members = new_member 7 70 0 ∷ new_member 8 80 1 ∷ new_member 9 90 2 ∷ []

abbrev polling : PollSet
polling = record {
  poll_connections =
      some (new_member 7 70 0) ∷ some (new_member 8 80 1) ∷ some (new_member 9 90 2) ∷ none ∷ [];
  ready_connections = [];
  poll_fds = 7 ∷ 8 ∷ 9 ∷ 0 ∷ [];
  num_poll_connections = 3;
  num_allocated_connections = 4;
  use_compact_array = true;
  poll_scan_ongoing = false;
}

polling-Mirrors : Mirrors members polling
polling-Mirrors = record {
  free = 1;
  compact = refl;
  slots = refl;
  fds = refl;
  count = refl;
  area = refl;
  limit = omega arith;
}

abbrev scanned : PollSet
scanned = record watched {
  ready_connections = new_member 7 70 0 ∷ new_member 9 90 2 ∷ [];
  poll_scan_ongoing = true;
}

-- A removal in a scan takes the member out of the ready connections too.
removed_in_scan : (remove_poll_set_member scanned 7).0.ready_connections ≡ new_member 9 90 2 ∷ []
unfolding remove_poll_set_member remove_ready ready_index split_last member_index without_member
removed_in_scan = refl

added_between : add_poll_set_member true watched 8 80 ≡ ok (with_member watched 8 80 1, placed 1)
unfolding add_poll_set_member new_index empty_index first_empty
added_between = refl

full_refuses :
    add_poll_set_member true (record watched { num_allocated_connections = 2 }) 8 80
    ≡ ok (record watched { num_allocated_connections = 2 }, refused poll_set_full)
unfolding add_poll_set_member
full_refuses = refl

remove_poll_set_member-Removes_example : Removes watched 9 (remove_poll_set_member watched 9)
remove_poll_set_member-Removes_example = remove_poll_set_member-Removes watched 9 watched-IsValid

remove-add_poll_set_member_example : Ends (add_poll_set_member true watched 8 80) (λ r.
    ((remove_poll_set_member r.0 8).0.poll_connections ≡ watched.poll_connections)
    × ((remove_poll_set_member r.0 8).0.num_poll_connections ≡ watched.num_poll_connections)
    × (r.1 ≡ (remove_poll_set_member r.0 8).1))
remove-add_poll_set_member_example =
    remove-add_poll_set_member watched 8 80 watched-IsValid (omega arith) watched-IsAbsent

-- The first empty slot lies behind that of the member with file descriptor 7.
epoll_add-loses_example : Ends (epoll_poll_set_add_connection true 17 watched 7 71) (λ r.
    (r.1 ≡ 17)
    × (get_elem? r.0.poll_connections 0 ≡ some none)
    × (get_elem? r.0.poll_connections 1 ≡ some (some (new_member 7 71 1)))
    × (epoll_check_poll_set (events (0 ∷ [])) r.0 ≡ undefined))
unfolding first_empty member_index
epoll_add-loses_example =
    epoll_add-loses watched 7 71 17 1 0 [] watched-IsValid (omega arith) refl refl (omega arith)
      (omega arith)

epoll_check-scan_example :
    Ends
      (epoll_check_poll_set (events (2 ∷ 0 ∷ [])) watched >>= λ r. scan 3 r.0)
      (λ q. (map (λ c. c.fd) q.1 ≡ 7 ∷ 9 ∷ []) × (q.0.poll_scan_ongoing ≡ false))
unfolding fd_at
epoll_check-scan_example = epoll_check-scan watched (2 ∷ 0 ∷ []) (9 ∷ 7 ∷ []) (refl, (refl, tt))

poll_add-Mirrors_example :
    Ends
      (poll_poll_set_add_connection true polling 5 50)
      (λ r. (r.1 ≡ 0) × Mirrors (members ++ new_member 5 50 3 ∷ []) r.0)
poll_add-Mirrors_example = poll_add-Mirrors members polling 5 50 polling-Mirrors (omega arith)

poll_remove-Mirrors_example :
    Moves members 7 (poll_poll_set_remove_connection polling 7)
    ⊎ Misses members polling 7 (poll_poll_set_remove_connection polling 7)
poll_remove-Mirrors_example = poll_remove-Mirrors members polling 7 polling-Mirrors

-- POLLIN with POLLHUP for the second member.
poll_check-aborts_example : poll_check_poll_set (arrived 2 (1 ∷ 17 ∷ 0 ∷ [])) polling ≡ aborted
unfolding reported_count
poll_check-aborts_example =
    poll_check-aborts members polling (1 ∷ 17 ∷ 0 ∷ []) 1 17 polling-Mirrors refl refl (omega arith)
      (omega arith)

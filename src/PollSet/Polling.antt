-- ===== src/PollSet/Polling.antt =====
-- comm/ic_poll_set.c: the poll set of a build with poll, whose array of file descriptors stands beside the members
-- without a gap. What poll answers is an argument.
pub mod Padded
pub mod Mirror
pub mod Removal
pub mod Checks
use iclaustron.Base.{
  ℕ, zero, suc, ◌+◌, ◌-◌, Bool, true, false, Option, none, some, List, [], ◌∷◌, Outcome, ok,
  undefined, aborted, ◌>>=◌, ◌>>◌, ◌==◌, if◌then◌else◌, length, get_elem?, set, replicate, require,
}
use iclaustron.PollSet.{
  PollConnection, Slots, PollSet, Placing, placed, refused, add_poll_set_member,
  remove_poll_set_member, alloc_poll_set, max_poll_set_connections,
}

-- `poll_poll_set_add_connection`
pub poll_poll_set_add_connection :
    (granted : Bool) → PollSet → (fd user_obj : ℕ) → Outcome (PollSet × ℕ)
poll_poll_set_add_connection granted p fd user_obj =
    add_poll_set_member granted p fd user_obj >>= λ r. ok (elim (r.1) [
      | refused code ↦ (r.0, code)
      | placed i ↦ (let p' : PollSet = r.0 in (record p' { poll_fds = set p'.poll_fds i fd }, 0))
    ])

-- The array of file descriptors without the one at an index; `last` is the new count.
pub without_fd : List ℕ → (index last : ℕ) → List ℕ
without_fd fds index last =
    set (set fds index (elim (get_elem? fds last) [ none ↦ 0 | some fd ↦ fd ])) last 0

-- The end of removing a member.
pub after_removal : PollSet × Placing → PollSet × ℕ
after_removal (p, refused code) = (p, code)
after_removal (p, placed i) =
    (record p { poll_fds = without_fd p.poll_fds i p.num_poll_connections }, 0)

-- `poll_poll_set_remove_connection`
pub poll_poll_set_remove_connection : PollSet → (fd : ℕ) → PollSet × ℕ
poll_poll_set_remove_connection p fd = after_removal (remove_poll_set_member p fd)

-- POLLIN
abbrev pub pollin : ℕ
pollin = 1

-- What poll returns: a count above 0 with the `revents` of the file descriptors, 0, or an error, which is -1.
pub data Poll : Type 0 where
  arrived : (count : ℕ) → (revents : List ℕ) → Poll
  quiet : Poll
  failed : Poll

-- What a check returns: 0 or -1.
pub data Checked : Type 0 where
  success : Checked
  minus_one : Checked

-- The loop over the first `num` file descriptors, which is undefined where a slot is empty.
pub fill_polled : (num : ℕ) → (revents : List ℕ) → Slots → Outcome (List PollConnection × Slots)
fill_polled zero revents slots = ok ([], slots)
fill_polled (suc num) [] slots = undefined
fill_polled (suc num) (r ∷ revents) [] = undefined
fill_polled (suc num) (r ∷ revents) (slot ∷ slots) = fill_polled num revents slots >>= λ q.
    if r == pollin
    then elim slot [
      | none ↦ undefined
      | some c ↦
          (let checked : PollConnection = record c { ret_code = some 0 } in
            ok (checked ∷ q.0, some checked ∷ q.1))
    ]
    else ok (q.0, slot ∷ q.1)

-- `poll_check_poll_set` with its `ic_assert`. EINTR is above 0 and an error of poll is -1, so no round
-- of the loop is followed by another, and the code returned is -1.
pub poll_check_poll_set : Poll → PollSet → Outcome (PollSet × Checked)
poll_check_poll_set (arrived count revents) p =
    fill_polled p.num_poll_connections revents p.poll_connections >>= λ q.
    require (length q.0 == count)
    >> ok (
      record p { poll_connections = q.1; ready_connections = q.0; poll_scan_ongoing = true },
      success,
    )
poll_check_poll_set quiet p =
    ok (record p { ready_connections = []; poll_scan_ongoing = true }, success)
poll_check_poll_set failed p =
    ok (record p { ready_connections = []; poll_scan_ongoing = false }, minus_one)

-- `ic_create_poll_set` of the build with poll, with whether each allocation succeeds.
pub create_polling :
    (set_granted poll_granted ready_granted impl_granted : Bool) → Outcome (Option PollSet)
create_polling set_granted poll_granted ready_granted impl_granted =
    alloc_poll_set set_granted poll_granted ready_granted >>= λ allocated. ok (elim allocated [
      | none ↦ none
      | some p ↦
          (if impl_granted
            then some (record p {
              poll_fds = replicate max_poll_set_connections 0;
              use_compact_array = true;
            })
            else none)
    ])

-- ===== src/PollSet.antt =====
-- comm/ic_poll_set.c: a set of socket connections that are watched for data. An array slot is an `Option`; a
-- connection that is ready is a copy of the object in its slot, whose fields stay as they are until it is freed.
-- What malloc, epoll and the other calls of the system answer is an argument.
pub mod Slots
pub mod Members
pub mod Failures
pub mod Scan
pub mod Polling
mod Tests
use iclaustron.Base.{
  ℕ, zero, suc, ◌+◌, ◌-◌, Bool, true, false, not, ◌&&◌, Option, none, some, List, [], ◌∷◌, ◌++◌,
  Outcome, ok, undefined, aborted, ◌>>=◌, ◌>>◌, require, defined, ltb, leb, ◌==◌, if◌then◌else◌,
  length, get_elem?, set, replicate,
}

-- MAX_POLL_SET_CONNECTIONS
abbrev pub max_poll_set_connections : ℕ
max_poll_set_connections = 1024

abbrev pub mem_alloc_error : ℕ
mem_alloc_error = 7005

abbrev pub poll_set_full : ℕ
poll_set_full = 7026

abbrev pub not_found_in_poll_set : ℕ
not_found_in_poll_set = 7027

-- ENOENT
abbrev pub enoent : ℕ
enoent = 2

-- `IC_POLL_CONNECTION`; a `ret_code` that was not set is `none`.
pub record PollConnection : Type 0 where
  pub fd : ℕ
  pub user_obj : ℕ
  pub index : ℕ
  pub ret_code : Option ℕ

abbrev pub Slots : Type 0
Slots = List (Option PollConnection)

-- `IC_INT_POLL_SET`. The list `ready_connections` has the first `num_ready_connections` entries of the array, and
-- `poll_fds` has the `fd` fields of the array for poll, in a build with poll.
pub record PollSet : Type 0 where
  pub poll_connections : Slots
  pub ready_connections : List PollConnection
  pub poll_fds : List ℕ
  pub num_poll_connections : ℕ
  pub num_allocated_connections : ℕ
  pub use_compact_array : Bool
  pub poll_scan_ongoing : Bool

-- What adding or removing returns: 0 with the index, or an error code.
pub data Placing : Type 0 where
  placed : ℕ → Placing
  refused : ℕ → Placing

-- The search for an empty slot from the front, or MAX_POLL_SET_CONNECTIONS.
pub first_empty : Slots → Option ℕ
first_empty [] = none
first_empty (none ∷ slots) = some 0
first_empty (some c ∷ slots) = elim (first_empty slots) [ none ↦ none | some i ↦ some (suc i) ]

pub empty_index : Slots → ℕ
empty_index slots = elim (first_empty slots) [ none ↦ max_poll_set_connections | some i ↦ i ]

-- The slot of a new member.
pub new_index : PollSet → ℕ
new_index p = if p.use_compact_array then p.num_poll_connections else empty_index p.poll_connections

-- The new member in its slot.
pub with_member : PollSet → (fd user_obj loc_index : ℕ) → PollSet
with_member p fd user_obj loc_index = record p {
  poll_connections =
      set p.poll_connections loc_index
        (some (record { fd = fd; user_obj = user_obj; index = loc_index; ret_code = none }));
  num_poll_connections = p.num_poll_connections + 1;
}

-- `add_poll_set_member`, with whether `ic_malloc` succeeds.
pub add_poll_set_member :
    (granted : Bool) → PollSet → (fd user_obj : ℕ) → Outcome (PollSet × Placing)
add_poll_set_member granted p fd user_obj =
    if p.num_poll_connections == p.num_allocated_connections
    then ok (p, refused poll_set_full)
    else if not granted
    then ok (p, refused mem_alloc_error)
    else require (ltb (new_index p) max_poll_set_connections)
      >> ok (with_member p fd user_obj (new_index p), placed (new_index p))

-- The first entry of the ready ones with a file descriptor.
pub ready_index : (fd : ℕ) → List PollConnection → Option ℕ
ready_index fd [] = none
ready_index fd (c ∷ ready) =
    let rest = ready_index fd ready in
    if c.fd == fd then some 0 else elim rest [ none ↦ none | some i ↦ some (suc i) ]

-- The entries before the last one, and that.
pub split_last : List PollConnection → Option (List PollConnection × PollConnection)
split_last [] = none
split_last (c ∷ ready) = elim (split_last ready) [
  | none ↦ some ([], c)
  | some (front, last) ↦ some (c ∷ front, last)
]

-- The last entry takes the place of the one that is removed.
pub remove_ready : (fd : ℕ) → List PollConnection → List PollConnection
remove_ready fd ready = elim (ready_index fd ready) [
  | none ↦ ready
  | some i ↦ elim (split_last ready) [ none ↦ ready | some (front, last) ↦ set front i last ]
]

-- The first slot whose member has a file descriptor.
pub member_index : (fd : ℕ) → Slots → Option ℕ
member_index fd [] = none
member_index fd (none ∷ slots) = elim (member_index fd slots) [
  | none ↦ none
  | some i ↦ some (suc i)
]
member_index fd (some c ∷ slots) =
    let rest = member_index fd slots in
    if c.fd == fd then some 0 else elim rest [ none ↦ none | some i ↦ some (suc i) ]

-- The slots without the member at an index; `last` is the new count.
pub without_member : (compact : Bool) → Slots → (found_index last : ℕ) → Slots
without_member true slots found_index last =
    set (set slots found_index (elim (get_elem? slots last) [ none ↦ none | some member ↦ member ]))
      last none
without_member false slots found_index last = set slots found_index none

-- `remove_poll_set_member`: 0 with the index, or the error code. A set with a member has counted it.
pub remove_poll_set_member : PollSet → (fd : ℕ) → PollSet × Placing
remove_poll_set_member p fd =
    let ready : List PollConnection =
      if p.poll_scan_ongoing then remove_ready fd p.ready_connections else p.ready_connections in
    elim (member_index fd p.poll_connections) [
      | none ↦ (record p { ready_connections = ready }, refused not_found_in_poll_set)
      | some i ↦ (
        record p {
          ready_connections = ready;
          num_poll_connections = p.num_poll_connections - 1;
          poll_connections =
              without_member p.use_compact_array p.poll_connections i (p.num_poll_connections - 1);
        },
        placed i,
      )
    ]

-- `get_next_connection` with its `ic_assert`; the result `none` is NULL.
pub get_next_connection : PollSet → Outcome (PollSet × Option PollConnection)
get_next_connection p =
    require p.poll_scan_ongoing
    >> ok (elim (split_last p.ready_connections) [
      | none ↦ (record p { poll_scan_ongoing = false }, none)
      | some (front, last) ↦ (record p { ready_connections = front }, some last)
    ])

-- `is_poll_set_full`
pub is_poll_set_full : PollSet → Bool
is_poll_set_full p = leb p.num_allocated_connections p.num_poll_connections

-- The end of adding a member, given what the call of the system for it returns: 0 or an error code.
pub after_register : (ctl : ℕ) → (fd : ℕ) → PollSet × Placing → PollSet × ℕ
after_register ctl fd (p, refused code) = (p, code)
after_register ctl fd (p, placed i) =
    if ctl == 0 then (p, 0) else ((remove_poll_set_member p fd).0, ctl)

-- `epoll_poll_set_add_connection`
pub epoll_poll_set_add_connection :
    (granted : Bool) → (epoll_ctl : ℕ) → PollSet → (fd user_obj : ℕ) → Outcome (PollSet × ℕ)
epoll_poll_set_add_connection granted epoll_ctl p fd user_obj =
    add_poll_set_member granted p fd user_obj >>= λ r. ok (after_register epoll_ctl fd r)

-- The end of removing a member.
pub after_unregister : (ctl : ℕ) → PollSet × Placing → Outcome (PollSet × ℕ)
after_unregister ctl (p, refused code) = ok (p, code)
after_unregister ctl (p, placed i) =
    if (ctl == 0) then ok (p, 0) else if ctl == enoent then ok (p, 0) else aborted

-- `epoll_poll_set_remove_connection`
pub epoll_poll_set_remove_connection : (epoll_ctl : ℕ) → PollSet → (fd : ℕ) → Outcome (PollSet × ℕ)
epoll_poll_set_remove_connection epoll_ctl p fd =
    after_unregister epoll_ctl (remove_poll_set_member p fd)

-- What `epoll_wait` answers: the indexes of the events, an interrupt, or another error.
pub data Polled : Type 0 where
  events : List ℕ → Polled
  interrupted : Polled
  wait_error : ℕ → Polled

-- The loop over the events, which is undefined for an index whose slot is empty.
pub fill_ready : List ℕ → Slots → Outcome (List PollConnection × Slots)
fill_ready [] slots = ok ([], slots)
fill_ready (i ∷ rest) slots = elim (get_elem? slots i) [
  | none ↦ undefined
  | some none ↦ undefined
  | some (some c) ↦
      let checked : PollConnection = record c { ret_code = some 0 } in
      fill_ready rest (set slots i (some checked)) >>= λ r. ok (checked ∷ r.0, r.1)
]

-- The ready connections of a new scan.
pub start_scan : PollSet → List ℕ → Outcome PollSet
start_scan p indexes = fill_ready indexes p.poll_connections >>= λ r.
    ok (record p { poll_connections = r.1; ready_connections = r.0; poll_scan_ongoing = true })

-- `epoll_check_poll_set`
pub epoll_check_poll_set : Polled → PollSet → Outcome (PollSet × ℕ)
epoll_check_poll_set (events indexes) p = start_scan p indexes >>= λ p'. ok (p', 0)
epoll_check_poll_set interrupted p = start_scan p [] >>= λ p'. ok (p', 0)
epoll_check_poll_set (wait_error code) p = ok (record p { poll_scan_ongoing = false }, code)

-- `alloc_poll_set`, with whether each `ic_calloc` succeeds. Where the first fails, the routine that frees the
-- set reads through NULL; `none` is the error for the others.
pub alloc_poll_set : (set_granted poll_granted ready_granted : Bool) → Outcome (Option PollSet)
alloc_poll_set false poll_granted ready_granted = undefined
alloc_poll_set true false ready_granted = ok none
alloc_poll_set true true false = ok none
alloc_poll_set true true true = ok (
    some (record {
      poll_connections = replicate max_poll_set_connections none;
      ready_connections = [];
      poll_fds = [];
      num_poll_connections = 0;
      num_allocated_connections = max_poll_set_connections;
      use_compact_array = false;
      poll_scan_ongoing = false;
    }))

-- `ic_create_poll_set` of the build with epoll, with whether `epoll_create` and the last allocation succeed.
pub create_poll_set :
    (created set_granted poll_granted ready_granted impl_granted : Bool) → Outcome (Option PollSet)
create_poll_set false set_granted poll_granted ready_granted impl_granted = ok none
create_poll_set true set_granted poll_granted ready_granted impl_granted =
    alloc_poll_set set_granted poll_granted ready_granted >>= λ allocated.
    ok (if impl_granted then allocated else none)

-- `free_poll_set`: the members that are freed are those in the first `num_poll_connections` slots.
pub freed_members : (count : ℕ) → Slots → List PollConnection
freed_members zero slots = []
freed_members (suc count) [] = []
freed_members (suc count) (none ∷ slots) = freed_members count slots
freed_members (suc count) (some c ∷ slots) = c ∷ freed_members count slots

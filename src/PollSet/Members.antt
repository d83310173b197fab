-- ===== src/PollSet/Members.antt =====
-- Adding and removing a member of a poll set whose indexes are fixed, as epoll, kqueue and event ports need it.
use iclaustron.Base.{
  ℕ, zero, suc, ◌+◌, ◌-◌, ◌<◌, ◌≤◌, ◌≡◌, ◌⊎◌, refl, sym, ap, ◌∙◌, Bool, true, false, Option, none,
  some, [], ◌∷◌, Ends, ltb, ◌==◌, length, get_elem?, set, length-set, arith, Option-cases, inl, inr,
  lt→ltb,
}
use iclaustron.PollSet.{
  PollConnection, Slots, PollSet, Placing, placed, refused, first_empty, empty_index, new_index,
  with_member, add_poll_set_member, member_index, without_member, remove_poll_set_member,
  max_poll_set_connections, not_found_in_poll_set,
}
use iclaustron.PollSet.Slots.{
  occupied, IsAbsent, first_empty-some, occupied-set-some, occupied-set-none, set-set_back,
  member_index-some, member_index-none, member_index-new, IsAbsent-found,
}

pub record IsValid (p : PollSet) : Type 0 where
  pub area : length p.poll_connections ≡ p.num_allocated_connections
  pub limit : p.num_allocated_connections ≤ max_poll_set_connections
  pub counted : p.num_poll_connections ≡ occupied p.poll_connections
  pub sparse : p.use_compact_array ≡ false

-- The member that is added, in its slot.
abbrev pub new_member : (fd user_obj index : ℕ) → PollConnection
new_member fd user_obj index = record {
  fd = fd;
  user_obj = user_obj;
  index = index;
  ret_code = none;
}

-- A member was added in a slot that was empty, the first one.
pub record Adds (p : PollSet) (fd user_obj : ℕ) (r : PollSet × Placing) : Type 0 where
  pub index : ℕ
  pub first : first_empty p.poll_connections ≡ some index
  pub result : r.1 ≡ placed index
  pub empty : get_elem? p.poll_connections index ≡ some none
  pub slots :
      r.0.poll_connections ≡ set p.poll_connections index (some (new_member fd user_obj index))
  pub count : r.0.num_poll_connections ≡ p.num_poll_connections + 1
  pub ready : r.0.ready_connections ≡ p.ready_connections
  pub valid : IsValid r.0

with_member-Adds :
    (p : PollSet) (fd user_obj i : ℕ)
    → IsValid p
    → first_empty p.poll_connections ≡ some i
    → get_elem? p.poll_connections i ≡ some none
    → Adds p fd user_obj (with_member p fd user_obj i, placed i)
unfolding with_member
with_member-Adds p fd user_obj i v first empty = record {
  index = i;
  first = first;
  result = refl;
  empty = empty;
  slots = refl;
  count = refl;
  ready = refl;
  valid = record {
    area = length-set p.poll_connections i (some (new_member fd user_obj i)) ∙ v.area;
    limit = v.limit;
    counted =
        omega (
          arith,
          v.counted,
          occupied-set-some p.poll_connections i (new_member fd user_obj i) empty,
        );
    sparse = v.sparse;
  };
}

new_index-first :
    (p : PollSet) (i : ℕ)
    → p.use_compact_array ≡ false
    → first_empty p.poll_connections ≡ some i
    → new_index p ≡ i
unfolding new_index empty_index
new_index-first p i sparse first = ground arith

without_member-sparse :
    (compact : Bool) (slots : Slots) (i last : ℕ)
    → compact ≡ false
    → without_member compact slots i last ≡ set slots i none
unfolding without_member
without_member-sparse true slots i last sparse = cc
without_member-sparse false slots i last sparse = refl

-- Where memory is got and a slot is left, `add_poll_set_member` on a valid poll set ends: the new member is in
-- the first empty slot, the other slots are as they were, the count is one more, and the set is valid.
pub add_poll_set_member-Adds :
    (p : PollSet) (fd user_obj : ℕ)
    → IsValid p
    → p.num_poll_connections < p.num_allocated_connections
    → Ends (add_poll_set_member true p fd user_obj) (Adds p fd user_obj)
unfolding add_poll_set_member
add_poll_set_member-Adds p fd user_obj v less =
    let (i, first, empty, within) =
      first_empty-some p.poll_connections (omega (arith, v.area, v.counted)) in
    let some_left : (p.num_poll_connections == p.num_allocated_connections) ≡ false =
      ground arith in
    let fits : ltb i max_poll_set_connections ≡ true =
      lt→ltb i max_poll_set_connections (omega (arith, v.area, v.limit)) in
    (
      (with_member p fd user_obj i, placed i),
      rw some_left (rw (new_index-first p i v.sparse first) (rw fits refl)),
      with_member-Adds p fd user_obj i v first empty,
    )

-- The first slot with the file descriptor was emptied.
abbrev pub Removed : PollSet → ℕ → PollSet × Placing → Type 0
Removed p fd r =
    (i : ℕ) × (member_index fd p.poll_connections ≡ some i)
    × (r.1 ≡ placed i)
    × (r.0.poll_connections ≡ set p.poll_connections i none)
    × (r.0.num_poll_connections + 1 ≡ p.num_poll_connections)

-- There was no slot with the file descriptor.
abbrev pub NotFound : PollSet → ℕ → PollSet × Placing → Type 0
NotFound p fd r =
    IsAbsent fd p.poll_connections
    × (r.1 ≡ refused not_found_in_poll_set)
    × (r.0.poll_connections ≡ p.poll_connections)
    × (r.0.num_poll_connections ≡ p.num_poll_connections)

pub record Removes (p : PollSet) (fd : ℕ) (r : PollSet × Placing) : Type 0 where
  pub outcome : Removed p fd r ⊎ NotFound p fd r
  pub valid : IsValid r.0

-- `remove_poll_set_member` on a valid poll set leaves a valid one: it empties the first slot with the file
-- descriptor, no other slot, and counts one member less, or it returns IC_ERROR_NOT_FOUND_IN_POLL_SET and no slot
-- has the file descriptor or is changed.
pub remove_poll_set_member-Removes :
    (p : PollSet) (fd : ℕ) → IsValid p → Removes p fd (remove_poll_set_member p fd)
unfolding remove_poll_set_member
remove_poll_set_member-Removes p fd v = elim (Option-cases (member_index fd p.poll_connections)) [
  | inl missing ↦
      rw (missing, remove_poll_set_member)
        (record {
          outcome = inr (member_index-none fd p.poll_connections missing, refl, refl, refl);
          valid = record { area = v.area; limit = v.limit; counted = v.counted; sparse = v.sparse };
        })
  | inr (i, found) ↦
      let (c, here, same) = member_index-some fd p.poll_connections i found in
      let emptied : occupied (set p.poll_connections i none) + 1 ≡ occupied p.poll_connections =
        occupied-set-none p.poll_connections i c here in
      let cleared : without_member p.use_compact_array p.poll_connections i
            (p.num_poll_connections - 1)
          ≡ set p.poll_connections i none =
        without_member-sparse p.use_compact_array p.poll_connections i (p.num_poll_connections - 1)
          v.sparse in
      rw (found, remove_poll_set_member)
        (record {
          outcome = inl (i, found, refl, cleared, omega (arith, v.counted, emptied));
          valid = record {
            area = ap length cleared ∙ length-set p.poll_connections i none ∙ v.area;
            limit = v.limit;
            counted = omega (arith, v.counted, emptied, ap occupied cleared);
            sparse = v.sparse;
          };
        })
]

pub get_elem?-within :
    (slots : Slots) (i : ℕ) {s : Option PollConnection}
    → get_elem? slots i ≡ some s
    → i < length slots
get_elem?-within [] i e = cc
get_elem?-within (x ∷ slots) zero e = omega arith
get_elem?-within (x ∷ slots) (suc i) e = omega (arith, get_elem?-within slots i e)

-- A member that was added and whose file descriptor no other has: its removal gives the slots and the count back.
pub remove-add_poll_set_member :
    (p : PollSet) (fd user_obj : ℕ)
    → IsValid p
    → p.num_poll_connections < p.num_allocated_connections
    → IsAbsent fd p.poll_connections
    → Ends (add_poll_set_member true p fd user_obj) (λ r.
      ((remove_poll_set_member r.0 fd).0.poll_connections ≡ p.poll_connections)
      × ((remove_poll_set_member r.0 fd).0.num_poll_connections ≡ p.num_poll_connections)
      × (r.1 ≡ (remove_poll_set_member r.0 fd).1))
remove-add_poll_set_member p fd user_obj v less absent =
    let (r, run, adds) = add_poll_set_member-Adds p fd user_obj v less in
    let c : PollConnection = new_member fd user_obj adds.index in
    let within : adds.index < length p.poll_connections =
      get_elem?-within p.poll_connections adds.index adds.empty in
    let found : member_index fd r.0.poll_connections ≡ some adds.index =
      ap (member_index fd) adds.slots
      ∙ member_index-new fd p.poll_connections adds.index c absent within refl in
    let removes : Removes r.0 fd (remove_poll_set_member r.0 fd) =
      remove_poll_set_member-Removes r.0 fd adds.valid in
    (r, run, back r adds found removes.outcome)
  where
    back :
        (r : PollSet × Placing) (adds : Adds p fd user_obj r)
        → member_index fd r.0.poll_connections ≡ some adds.index
        → Removed r.0 fd (remove_poll_set_member r.0 fd)
          ⊎ NotFound r.0 fd (remove_poll_set_member r.0 fd)
        → ((remove_poll_set_member r.0 fd).0.poll_connections ≡ p.poll_connections)
          × ((remove_poll_set_member r.0 fd).0.num_poll_connections ≡ p.num_poll_connections)
          × (r.1 ≡ (remove_poll_set_member r.0 fd).1)
    back r adds found (inl (i, at_i, result, slots, count)) =
        let same : i ≡ adds.index = ground (arith, sym at_i ∙ found) in
        (
          slots
              ∙ ap (λ j. set r.0.poll_connections j none) same
              ∙ ap (λ s. set s adds.index none) adds.slots
              ∙ set-set_back p.poll_connections adds.index (new_member fd user_obj adds.index)
                  adds.empty,
          omega (arith, count, adds.count),
          adds.result ∙ ap placed (sym same) ∙ sym result,
        )
    back r adds found (inr none_there) =
        absurd (IsAbsent-found fd r.0.poll_connections adds.index none_there.0 found)

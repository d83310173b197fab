-- ===== src/PollSet/Failures.antt =====
-- Adding a connection where the call of the system for it fails.
use mathlib.Core.Path.{subst}
use iclaustron.Base.{
  ℕ, ◌<◌, ◌≡◌, ◌≢◌, refl, sym, ap, ◌∙◌, true, false, none, some, List, ◌∷◌, ok, undefined, Ends,
  ◌==◌, length, get_elem?, set, get_elem?-set_self, get_elem?-set_ne, length-set, arith, inl, inr,
  ◌⊎◌,
}
use iclaustron.PollSet.{
  PollSet, Placing, placed, events, first_empty, member_index, remove_poll_set_member,
  after_register, epoll_poll_set_add_connection, fill_ready, start_scan, epoll_check_poll_set,
}
use iclaustron.PollSet.Slots.{IsAbsent, IsAbsent-found, member_index-old}
use iclaustron.PollSet.Members.{
  IsValid, new_member, Removed, NotFound, add_poll_set_member-Adds, remove_poll_set_member-Removes,
  remove-add_poll_set_member, get_elem?-within,
}

after_register-fails :
    (ctl fd : ℕ) (r : PollSet × Placing) (i : ℕ)
    → r.1 ≡ placed i
    → ctl ≢ 0
    → after_register ctl fd r ≡ ((remove_poll_set_member r.0 fd).0, ctl)
unfolding after_register
after_register-fails ctl fd (p, placing) i result failed =
    let e : (ctl == 0) ≡ false = ground arith in
    ap (λ placing'. after_register ctl fd (p, placing')) result ∙ rw e refl

-- Where memory is got, a slot is left and `epoll_ctl` fails, `epoll_poll_set_add_connection` of a file descriptor that
-- the valid set does not have returns the error, and the slots and their count are as before.
pub epoll_add-fails :
    (p : PollSet) (fd user_obj ctl : ℕ)
    → IsValid p
    → p.num_poll_connections < p.num_allocated_connections
    → IsAbsent fd p.poll_connections
    → ctl ≢ 0
    → Ends (epoll_poll_set_add_connection true ctl p fd user_obj) (λ r.
      (r.1 ≡ ctl)
      × (r.0.poll_connections ≡ p.poll_connections)
      × (r.0.num_poll_connections ≡ p.num_poll_connections))
unfolding epoll_poll_set_add_connection
epoll_add-fails p fd user_obj ctl v less absent failed =
    let (r, run, adds) = add_poll_set_member-Adds p fd user_obj v less in
    let (r', run', back) = remove-add_poll_set_member p fd user_obj v less absent in
    let one : r' ≡ r = cc (run, run') in
    (
      ((remove_poll_set_member r.0 fd).0, ctl),
      rw run (ap ok (after_register-fails ctl fd r adds.index adds.result failed)),
      (
        refl,
        subst (λ q. (remove_poll_set_member q.0 fd).0.poll_connections ≡ p.poll_connections) one
            back.0,
        subst (λ q. (remove_poll_set_member q.0 fd).0.num_poll_connections ≡ p.num_poll_connections)
            one back.1,
      ),
    )

first-Removed :
    (r : PollSet × Placing) (fd j : ℕ)
    → member_index fd r.0.poll_connections ≡ some j
    → Removed r.0 fd (remove_poll_set_member r.0 fd)
      ⊎ NotFound r.0 fd (remove_poll_set_member r.0 fd)
    → (remove_poll_set_member r.0 fd).0.poll_connections ≡ set r.0.poll_connections j none
first-Removed r fd j found (inl (k, at_k, result, slots, count)) =
    let same : k ≡ j = ground (arith, sym at_k ∙ found) in
    slots ∙ ap (λ m. set r.0.poll_connections m none) same
first-Removed r fd j found (inr none_there) =
    absurd (IsAbsent-found fd r.0.poll_connections j none_there.0 found)

null_event :
    (p : PollSet) (j : ℕ) (rest : List ℕ)
    → get_elem? p.poll_connections j ≡ some none
    → epoll_check_poll_set (events (j ∷ rest)) p ≡ undefined
unfolding epoll_check_poll_set start_scan fill_ready
null_event p j rest gone = rw (gone, fill_ready) refl

-- Where `epoll_ctl` fails for a file descriptor that stands in a slot before the first empty one, the valid set loses
-- the member of that slot in place of the new one. An event for it then reads through NULL.
pub epoll_add-loses :
    (p : PollSet) (fd user_obj ctl i j : ℕ) (rest : List ℕ)
    → IsValid p
    → p.num_poll_connections < p.num_allocated_connections
    → first_empty p.poll_connections ≡ some i
    → member_index fd p.poll_connections ≡ some j
    → j < i
    → ctl ≢ 0
    → Ends (epoll_poll_set_add_connection true ctl p fd user_obj) (λ r.
      (r.1 ≡ ctl)
      × (get_elem? r.0.poll_connections j ≡ some none)
      × (get_elem? r.0.poll_connections i ≡ some (some (new_member fd user_obj i)))
      × (epoll_check_poll_set (events (j ∷ rest)) r.0 ≡ undefined))
unfolding epoll_poll_set_add_connection
epoll_add-loses p fd user_obj ctl i j rest v less first there before failed =
    let (r, run, adds) = add_poll_set_member-Adds p fd user_obj v less in
    let at_i : adds.index ≡ i = ground (arith, sym adds.first ∙ first) in
    let slots : r.0.poll_connections ≡ set p.poll_connections i (some (new_member fd user_obj i)) =
      adds.slots ∙ ap (λ k. set p.poll_connections k (some (new_member fd user_obj k))) at_i in
    let within : i < length p.poll_connections =
      get_elem?-within p.poll_connections i
        (ap (get_elem? p.poll_connections) (sym at_i) ∙ adds.empty) in
    let found : member_index fd r.0.poll_connections ≡ some j =
      ap (member_index fd) slots
      ∙ member_index-old fd p.poll_connections i j (new_member fd user_obj i) there before in
    let left : (remove_poll_set_member r.0 fd).0.poll_connections
        ≡ set (set p.poll_connections i (some (new_member fd user_obj i))) j none =
      first-Removed r fd j found (remove_poll_set_member-Removes r.0 fd adds.valid).outcome
      ∙ ap (λ s. set s j none) slots in
    let gone : get_elem? (remove_poll_set_member r.0 fd).0.poll_connections j ≡ some none =
      ap (λ s. get_elem? s j) left
      ∙ get_elem?-set_self (set p.poll_connections i (some (new_member fd user_obj i))) j none
          (omega (arith, length-set p.poll_connections i (some (new_member fd user_obj i)))) in
    let kept : get_elem? (remove_poll_set_member r.0 fd).0.poll_connections i
        ≡ some (some (new_member fd user_obj i)) =
      ap (λ s. get_elem? s i) left
      ∙ get_elem?-set_ne (set p.poll_connections i (some (new_member fd user_obj i))) none
          (omega arith)
      ∙ get_elem?-set_self p.poll_connections i (some (new_member fd user_obj i)) within in
    (
      ((remove_poll_set_member r.0 fd).0, ctl),
      rw run (ap ok (after_register-fails ctl fd r adds.index adds.result failed)),
      (refl, gone, kept, null_event (remove_poll_set_member r.0 fd).0 j rest gone),
    )

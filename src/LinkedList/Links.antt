-- ===== src/LinkedList/Links.antt =====
-- What the macros leave in the links.
use iclaustron.Base.{ℕ, true, false, ◌≡◌, ◌≢◌, refl, ◌==◌, if◌then◌else◌, ok, Ends, arith}
use iclaustron.LinkedList.{Lists, update, insert_dll, remove_dll, unlink}

remove-insert_run :
    (s : Lists) (x : ℕ)
    → s.first ≢ 0
    → s.last ≢ 0
    → remove_dll (insert_dll s x) x
      ≡ ok (
          unlink
            (record s {
              next = update (update (update s.next s.last x) x 0) s.last 0;
              prev = update s.prev x s.last;
            })
            x)
unfolding remove_dll insert_dll unlink update
remove-insert_run s x some_first some_last =
    let there : (s.first == 0) ≡ false = ground arith in
    let same : (x == x) ≡ true = ground arith in
    let behind : (s.last == 0) ≡ false = ground arith in rw there (rw same (rw behind refl))

-- A new object that `IC_INSERT_DLL` puts behind the last object of a list and `IC_REMOVE_DLL` takes out again leaves the ends
-- of the list, and the links of its other objects, as they were.
pub remove-insert_dll :
    (s : Lists) (x : ℕ)
    → s.first ≢ 0
    → s.last ≢ 0
    → x ≢ 0
    → x ≢ s.last
    → s.next s.last ≡ 0
    → Ends (remove_dll (insert_dll s x) x) λ t.
      (t.first ≡ s.first)
      × (t.last ≡ s.last)
      × ((a : ℕ) → t.next a ≡ (if a == x then 0 else s.next a))
      × ((a : ℕ) → t.prev a ≡ (if a == x then 0 else s.prev a))
unfolding remove_dll insert_dll unlink update
remove-insert_dll s x some_first some_last real apart ended = (
  unlink
      (record s {
        next = update (update (update s.next s.last x) x 0) s.last 0;
        prev = update s.prev x s.last;
      })
      x,
  remove-insert_run s x some_first some_last,
  (refl, refl, (λ a. ground arith), (λ a. ground arith)),
)

-- When the first of several objects is removed, the link of the new first object to the one before it still leads to
-- the object that was removed.
pub remove_dll-dangles :
    (s : Lists)
    → s.next s.first ≢ 0
    → s.next s.first ≢ s.first
    → s.prev s.first ≡ 0
    → s.prev (s.next s.first) ≡ s.first
    → Ends (remove_dll s s.first) λ t. (t.first ≡ s.next s.first) × (t.prev t.first ≡ s.first)
unfolding remove_dll unlink update
remove_dll-dangles s some_next other at_front back =
    let there : (s.next s.first == 0) ≡ false = ground arith in
    let front : (s.prev s.first == 0) ≡ true = ground arith in
    let same : (s.first == s.first) ≡ true = ground arith in
    (
      unlink (record s { first = s.next s.first }) s.first,
      rw there (rw front (rw same refl)),
      (refl, ground arith),
    )

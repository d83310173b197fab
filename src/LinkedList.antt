-- ===== src/LinkedList.antt =====
-- include/ic_linked_list.h: the macros for lists with one and with two links. Objects are addresses,
-- NULL is 0; the links of all objects are functions of the address.
mod Links
mod Tests
use iclaustron.Base.{ℕ, Bool, true, false, ◌==◌, if◌then◌else◌, Outcome, ok, ◌>>◌, require}

pub record Lists : Type 0 where
  pub first : ℕ
  pub last : ℕ
  pub next : ℕ → ℕ
  pub prev : ℕ → ℕ

pub update : (ℕ → ℕ) → ℕ → ℕ → ℕ → ℕ
update f a v b = if b == a then v else f b

-- `IC_INSERT_SLL`
pub insert_sll : Lists → (object : ℕ) → Lists
unfolding update
insert_sll s object =
    let linked =
      if s.first == 0
      then record s { first = object; last = object }
      else record s { next = update s.next s.last object } in
    record linked { next = update linked.next object 0 }

-- `IC_REMOVE_FIRST_SLL`
pub remove_first_sll : Lists → Outcome Lists
remove_first_sll s =
    let first = s.next s.first in
    if s.first == 0
    then require false >> ok s
    else ok (record s { first = first; last = if first == 0 then 0 else s.last })

-- `IC_INSERT_DLL`
pub insert_dll : Lists → (object : ℕ) → Lists
unfolding update
insert_dll s object =
    let linked =
      if s.first == 0
      then record s { first = object; last = object; prev = update s.prev object 0 }
      else record s {
        next = update s.next s.last object;
        prev = update s.prev object s.last;
        last = object;
      } in
    record linked { next = update linked.next object 0 }

-- The links of an object that is in no list.
pub unlink : Lists → ℕ → Lists
unfolding update
unlink s object = record s { next = update s.next object 0; prev = update s.prev object 0 }

-- `IC_REMOVE_DLL`
pub remove_dll : Lists → (object : ℕ) → Outcome Lists
unfolding update unlink
remove_dll s object =
    let next = s.next object in
    let prev = s.prev object in
    let inner = record s { next = update s.next prev next; prev = update s.prev next prev } in
    let behind_first = record s { first = next } in
    let before_last = record s { last = prev; next = update s.next prev 0 } in
    let emptied = record s { last = prev; first = 0 } in
    if next == 0
    then (require (s.last == object)
        >> (if prev == 0
            then (require (s.first == object) >> ok (unlink emptied object))
            else ok (unlink before_last object)))
    else if prev == 0
    then (require (s.first == object) >> ok (unlink behind_first object))
    else ok (unlink inner object)

-- ===== src/LinkedList/Tests.antt =====
-- A list of the objects 1 and 2.
use iclaustron.Base.{ℕ, ◌≡◌, refl, ◌==◌, if◌then◌else◌, Ends, arith}
use iclaustron.LinkedList.{Lists, insert_dll, remove_dll}
use iclaustron.LinkedList.Links.{remove-insert_dll}

abbrev two : Lists
two = record {
  first = 1;
  last = 2;
  next = λ a. if a == 1 then 2 else 0;
  prev = λ a. if a == 2 then 1 else 0;
}

remove-insert_dll_example : Ends (remove_dll (insert_dll two 3) 3) λ t.
    (t.first ≡ 1)
    × (t.last ≡ 2)
    × ((a : ℕ) → t.next a ≡ (if a == 3 then 0 else two.next a))
    × ((a : ℕ) → t.prev a ≡ (if a == 3 then 0 else two.prev a))
remove-insert_dll_example =
    remove-insert_dll two 3 (omega arith) (omega arith) (omega arith) (omega arith) refl

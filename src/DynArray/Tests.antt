-- ===== src/DynArray/Tests.antt =====
-- The simple dynamic array at concrete values.
use iclaustron.Base.{
  ℕ, ◌+◌, ◌≡◌, refl, true, false, none, some, [], ◌∷◌, ok, Ends, replicate, ltb, if◌then◌else◌,
  arith, length-replicate,
}
use iclaustron.DynArray.{DynArray, zeros, memcpy, insert, read, to_disk, create_array}
use iclaustron.DynArray.Flat.{IsArray, contents, part, read-contents}
use iclaustron.DynArray.Append.{Inserted, insert-contents}
use iclaustron.DynArray.Enough.{insert-enough}
use iclaustron.DynArray.Disk.{Written, to_disk-contents}

-- Five bytes in one buffer.
abbrev five : DynArray
five = record {
  bufs = (7 ∷ 8 ∷ 9 ∷ 10 ∷ 11 ∷ replicate 1019 0) ∷ [];
  bytes_used = 5;
  total_size_in_bytes = 5;
}

five-IsArray : IsArray five
five-IsArray = record {
  full = (omega (arith, length-replicate {A = ℕ} 1019 0), tt);
  some_buf = omega arith;
  used = omega arith;
  total = refl;
}

insert_five :
    (elim (create_array true true) [
      | none ↦ false
      | some a ↦ elim (insert [] a (7 ∷ 8 ∷ 9 ∷ 10 ∷ 11 ∷ [])) [
        | ok (ret, a') ↦ elim (read a' 1 3) [
          | none ↦ false
          | some bytes ↦ elim bytes [ [] ↦ false | b ∷ bs ↦ true ]
        ]
        | _ ↦ false
      ]
    ])
    ≡ true
unfolding create_array insert zeros memcpy read
insert_five = refl

read-five : read five 1 3 ≡ some (8 ∷ 9 ∷ 10 ∷ [])
unfolding read
read-five = refl

to_disk_five : to_disk (λ n. 0) five.bufs five.bytes_used ≡ (0, (7 ∷ 8 ∷ 9 ∷ 10 ∷ 11 ∷ []) ∷ [])
unfolding to_disk
to_disk_five = refl

insert-contents_example :
    Ends (insert (true ∷ []) five (replicate 1020 3)) (Inserted five (replicate 1020 3))
insert-contents_example =
    insert-contents (true ∷ []) five (replicate 1020 3) five-IsArray
      (omega (arith, length-replicate {A = ℕ} 1020 3))

read-contents_example :
    read five 1 3 ≡ (if ltb 5 (1 + 3) then none else some (part 1 3 (contents five)))
read-contents_example =
    read-contents five 1 3 five-IsArray (omega arith) (omega arith) (omega arith)

insert-enough_example :
    Ends (insert (replicate 1 true) five (replicate 1020 3)) λ (ret, a'). ret ≡ 0
insert-enough_example =
    insert-enough 1 five (replicate 1020 3) five-IsArray
      (omega (arith, length-replicate {A = ℕ} 1020 3))

to_disk-contents_example :
    Written (λ n. 0) (contents five) (to_disk (λ n. 0) five.bufs five.bytes_used)
to_disk-contents_example = to_disk-contents (λ n. 0) five five-IsArray

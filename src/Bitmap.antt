-- ===== src/Bitmap.antt =====
-- util/ic_bitmap.c and include/ic_bitmap.h: a bitmap over an area of bytes. A read or a write of a
-- byte outside the area is undefined, and the checked build aborts first on a bad bit number.
-- The allocators (`ic_calloc`, `ic_mc_calloc`) are given by whether each of their calls succeeds.
mod Laws
mod Tests
use iclaustron.Base.{
  ℕ, ◌+◌, ◌*◌, ◌/◌, ◌%◌, ◌^◌, Bool, true, false, ◌||◌, Option, none, some, List, [], ◌∷◌, bit_or,
  Outcome, ok, undefined, ◌>>=◌, ◌>>◌, require, defined, ltb, ◌==◌, if◌then◌else◌, get_elem?, set,
  replicate, take, drop, length, ◌++◌,
}

pub record Bitmap : Type 0 where
  pub bitmap_area : Option (List ℕ)
  pub num_bits : ℕ
  pub alloced_bitmap : Bool
  pub alloced_bitmap_area : Bool

-- IC_BITMAP_SIZE, in bytes.
unfoldable pub bitmap_size : ℕ → ℕ
bitmap_size num_bits = 4 * (num_bits / 32) + 4

-- IC_BITMAP_BIT is `& 7`, and IC_BITMAP_BYTE is `/ 8`.
unfoldable pub bitmap_bit : ℕ → ℕ
bitmap_bit bit_number = bit_number % 8

unfoldable pub bitmap_byte : ℕ → ℕ
bitmap_byte bit_number = bit_number / 8

-- `(value >> bit_number) & 1` and `value |= (1 << bit_number)`.
unfoldable pub is_bit_set : ℕ → ℕ → ℕ
is_bit_set value bit_number = value / 2 ^ bit_number % 2

unfoldable pub set_bit : ℕ → ℕ → ℕ
set_bit value bit_number = bit_or value (2 ^ bit_number)

-- A bitmap of `ic_calloc(sizeof(IC_BITMAP))`: all fields are zero but the flag set behind it.
abbrev zeroed_bitmap : Bitmap
zeroed_bitmap = record {
  bitmap_area = none;
  num_bits = 0;
  alloced_bitmap = false;
  alloced_bitmap_area = false;
}

create_area : Bitmap → ℕ → (calloc_area : Bool) → Option Bitmap
create_area bitmap num_bits calloc_area = elim bitmap.bitmap_area [
  | some _ ↦ some (record bitmap { num_bits = num_bits })
  | none ↦
      if calloc_area
      then some (record bitmap {
        bitmap_area = some (replicate (bitmap_size num_bits) 0);
        num_bits = num_bits;
        alloced_bitmap_area = true;
      })
      else none
]

-- `ic_create_bitmap(bitmap, num_bits)`; `none` stands for NULL.
unfoldable pub create_bitmap :
    Option Bitmap → ℕ → (calloc_bitmap calloc_area : Bool) → Option Bitmap
unfolding create_area bitmap_size
create_bitmap (some bitmap) num_bits calloc_bitmap calloc_area =
    create_area bitmap num_bits calloc_area
create_bitmap none num_bits calloc_bitmap calloc_area =
    if calloc_bitmap
    then create_area (record zeroed_bitmap { alloced_bitmap = true }) num_bits calloc_area
    else none

-- `ic_mc_create_bitmap(mc, num_bits)`, which leaves `num_bits` of the new object at zero.
unfoldable pub mc_create_bitmap : ℕ → (calloc_bitmap calloc_area : Bool) → Option Bitmap
unfolding bitmap_size
mc_create_bitmap num_bits calloc_bitmap calloc_area =
    if calloc_bitmap
    then if calloc_area
      then some (record zeroed_bitmap { bitmap_area = some (replicate (bitmap_size num_bits) 0) })
      else none
    else none

-- What `ic_free_bitmap` hands to `ic_free`.
pub data Freed : Type 0 where
  area object : Freed

unfoldable pub free_bitmap : Bitmap → List Freed
free_bitmap bitmap =
    (if bitmap.alloced_bitmap_area then area ∷ [] else [])
    ++ (if bitmap.alloced_bitmap then object ∷ [] else [])

-- The macros macro_ic_bitmap_set_bit and macro_ic_bitmap_get_bit.
unfoldable pub macro_set_bit : Bitmap → ℕ → Outcome Bitmap
unfolding set_bit bitmap_byte bitmap_bit
macro_set_bit bitmap bit_number = do
  bytes ← defined bitmap.bitmap_area
  value ← defined (get_elem? bytes (bitmap_byte bit_number))
  ok (record bitmap {
    bitmap_area = some (set bytes (bitmap_byte bit_number) (set_bit value (bitmap_bit bit_number)));
  })

unfoldable pub macro_get_bit : Bitmap → ℕ → Outcome ℕ
unfolding is_bit_set bitmap_byte bitmap_bit
macro_get_bit bitmap bit_number = do
  bytes ← defined bitmap.bitmap_area
  value ← defined (get_elem? bytes (bitmap_byte bit_number))
  ok (is_bit_set value (bitmap_bit bit_number))

-- The functions of the build with DEBUG_BUILD.
unfoldable pub bitmap_set_bit : Bitmap → ℕ → Outcome Bitmap
unfolding macro_set_bit
bitmap_set_bit bitmap bit_number =
    require (ltb bit_number bitmap.num_bits) >> macro_set_bit bitmap bit_number

unfoldable pub bitmap_get_bit : Bitmap → ℕ → Outcome ℕ
unfolding macro_get_bit
bitmap_get_bit bitmap bit_number =
    require (ltb bit_number bitmap.num_bits) >> macro_get_bit bitmap bit_number

-- `memcpy` of `n` bytes, where both areas hold as many.
unfoldable pub copy_bytes : ℕ → (dest src : List ℕ) → Outcome (List ℕ)
copy_bytes n dest src =
    if ltb (length dest) n || ltb (length src) n then undefined else ok (take n src ++ drop n dest)

-- The macro ic_bitmap_copy: the destination with the source's bytes.
unfoldable pub bitmap_copy : (dest src : Bitmap) → Outcome Bitmap
unfolding copy_bytes bitmap_size
bitmap_copy dest src = do
  require (bitmap_size dest.num_bits == bitmap_size src.num_bits)
  to ← defined dest.bitmap_area
  from ← defined src.bitmap_area
  bytes ← copy_bytes (bitmap_size src.num_bits) to from
  ok (record dest { bitmap_area = some bytes })

-- The loop of `ic_count_highest_bit` with `rounds` rounds left, at bit `i`.
highest_bit_loop : ℕ → (i bit_var bit_inx : ℕ) → ℕ
highest_bit_loop ℕ.zero i bit_var bit_inx = bit_inx
highest_bit_loop (ℕ.suc rounds) i bit_var bit_inx =
    highest_bit_loop rounds (i + 1) bit_var (if bit_or bit_var (2 ^ i) == 0 then bit_inx else i + 1)

unfoldable pub count_highest_bit : ℕ → ℕ
unfolding highest_bit_loop
count_highest_bit bit_var = highest_bit_loop 32 0 bit_var 0

-- ===== src/Bitmap/Tests.antt =====
-- The bitmap routines at concrete bitmaps.
use iclaustron.Base.{
  ◌≡◌, refl, true, false, none, some, [], ◌∷◌, ok, aborted, undefined, ◌>>=◌, Ends, arith,
}
use iclaustron.Bitmap.{
  Bitmap, create_bitmap, bitmap_set_bit, bitmap_get_bit, macro_set_bit, count_highest_bit,
}
use iclaustron.Bitmap.Laws.{IsValid, set_bit-get_bit, out_of_range, create_bitmap-zero}

-- Bits 3 and 9 of ten are set.
abbrev ten_bits : Bitmap
ten_bits = record {
  bitmap_area = some (8 ∷ 2 ∷ 0 ∷ 0 ∷ []);
  num_bits = 10;
  alloced_bitmap = true;
  alloced_bitmap_area = true;
}

ten_bits-IsValid : IsValid ten_bits
unfolding bitmap_set_bit
ten_bits-IsValid = record {
  bytes = 8 ∷ 2 ∷ 0 ∷ 0 ∷ [];
  here = refl;
  sized = unfold create_bitmap in refl;
  small = omega arith;
}

abbrev empty : Bitmap
empty = record {
  bitmap_area = some (0 ∷ 0 ∷ 0 ∷ 0 ∷ []);
  num_bits = 10;
  alloced_bitmap = true;
  alloced_bitmap_area = true;
}

empty-created : create_bitmap none 10 true true ≡ some empty
unfolding create_bitmap
empty-created = refl

set_bits : (bitmap_set_bit empty 3 >>= λ b. bitmap_set_bit b 9) ≡ ok ten_bits
unfolding bitmap_set_bit
set_bits = refl

-- The macro writes behind the bits, and is undefined behind the area.
macro_behind_area : macro_set_bit empty 32 ≡ undefined
unfolding macro_set_bit
macro_behind_area = refl

highest_bit_of_zero : count_highest_bit 0 ≡ 32
unfolding count_highest_bit
highest_bit_of_zero = refl

set_bit-get_bit_example :
    Ends
      (bitmap_set_bit ten_bits 4)
      λ b'. IsValid b' × (b'.num_bits ≡ 10) × (bitmap_get_bit b' 9 ≡ bitmap_get_bit ten_bits 9)
set_bit-get_bit_example = set_bit-get_bit ten_bits-IsValid 4 (omega arith) 9 (omega arith)

out_of_range_example :
    (bitmap_set_bit ten_bits 10 ≡ aborted) × (bitmap_get_bit ten_bits 10 ≡ aborted)
out_of_range_example = out_of_range ten_bits 10 (omega arith)

abbrev from_container : Bitmap
from_container = record empty { num_bits = 0; alloced_bitmap = false; alloced_bitmap_area = false }

empty-IsValid : IsValid empty
empty-IsValid = (create_bitmap-zero 10 true true empty empty-created 7 (omega arith)).0

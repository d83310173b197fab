-- ===== src/Bitmap/Laws.antt =====
-- What the bitmap routines of util/ic_bitmap.c do, on every branch.
use native.Mathlib.Nat.{pow-suc}
use mathlib.Core.List.{append-nil}
use iclaustron.Base.{
  ℕ, zero, suc, ◌+◌, ◌^◌, ◌≤◌, ◌<◌, ◌≡◌, refl, Bool, true, false, ◌&&◌, none, some, List, [], ◌∷◌,
  bit_or, ok, aborted, Ends, ltb, ◌==◌, if◌then◌else◌, get_elem?, set, replicate, length,
  length-set, length-replicate, arith, lt→ltb, ==_iff, ◌∙◌, ap, sym, take, drop,
}
use iclaustron.Base.Bits.{passes_under, passes_under-at, bit_or-ge_right}
use iclaustron.Bitmap.{
  Bitmap, bitmap_size, bitmap_byte, bitmap_bit, is_bit_set, set_bit, create_bitmap,
  mc_create_bitmap, bitmap_copy, copy_bytes, area, object, free_bitmap, bitmap_set_bit,
  bitmap_get_bit, count_highest_bit, highest_bit_loop,
}

-- The area is there, has the size for the bits, and holds bytes.
abbrev pub AllBytes : List ℕ → Type 0
AllBytes [] = Unit
AllBytes (x ∷ xs) = (x < 256) × AllBytes xs

pub record IsValid (b : Bitmap) : Type 0 where
  pub bytes : List ℕ
  pub here : b.bitmap_area ≡ some bytes
  pub sized : length bytes ≡ bitmap_size b.num_bits
  pub small : AllBytes bytes

pub byte-lt-size :
    (num_bits bit_number : ℕ)
    → bit_number < num_bits
    → bitmap_byte bit_number < bitmap_size num_bits
unfolding bitmap_byte bitmap_size
byte-lt-size num_bits bit_number h = omega arith

-- Setting bit `i` of a byte, seen at bit `j`.
abbrev bit_test : ℕ → ℕ → ℕ → Bool
bit_test v i j =
    ltb (set_bit v i) 256 && (is_bit_set (set_bit v i) j == (if j == i then 1 else is_bit_set v j))

bits_table : passes_under (λ v. passes_under (λ i. passes_under (bit_test v i) 8) 8) 256 ≡ true
unfolding passes_under set_bit is_bit_set
bits_table = refl

set_bit_bits :
    (v i j : ℕ)
    → v < 256
    → i < 8
    → j < 8
    → (set_bit v i < 256) × (is_bit_set (set_bit v i) j ≡ (if j == i then 1 else is_bit_set v j))
set_bit_bits v i j hv hi hj =
    let byte_row =
      passes_under-at (λ v. passes_under (λ i. passes_under (bit_test v i) 8) 8) 256 v hv
        bits_table in
    let bit_row = passes_under-at (λ i. passes_under (bit_test v i) 8) 8 i hi byte_row in
    ground (arith, passes_under-at (bit_test v i) 8 j hj bit_row)

get_elem?-lt :
    (xs : List ℕ) (i : ℕ)
    → AllBytes xs
    → i < length xs
    → (v : ℕ) × (get_elem? xs i ≡ some v) × (v < 256)
get_elem?-lt [] i s h = absurd (omega arith)
get_elem?-lt (x ∷ xs) zero s h = (x, refl, s.0)
get_elem?-lt (x ∷ xs) (suc i) s h = get_elem?-lt xs i s.1 (omega arith)

set-AllBytes : (xs : List ℕ) (i v : ℕ) → AllBytes xs → v < 256 → AllBytes (set xs i v)
set-AllBytes [] i v s h = s
set-AllBytes (x ∷ xs) zero v s h = (h, s.1)
set-AllBytes (x ∷ xs) (suc i) v s h = (s.0, set-AllBytes xs i v s.1 h)

replicate-AllBytes : (n : ℕ) → AllBytes (replicate n 0)
replicate-AllBytes zero = tt
replicate-AllBytes (suc n) = (omega arith, replicate-AllBytes n)

-- One bit of two bytes of the area, after one of them is written.
get_elem?-set :
    (xs : List ℕ) (i j v : ℕ)
    → i < length xs
    → get_elem? (set xs i v) j ≡ (if j == i then some v else get_elem? xs j)
get_elem?-set [] i j v h = absurd (omega arith)
get_elem?-set (x ∷ xs) zero zero v h = refl
get_elem?-set (x ∷ xs) zero (suc j) v h = ground arith
get_elem?-set (x ∷ xs) (suc i) zero v h = ground arith
get_elem?-set (x ∷ xs) (suc i) (suc j) v h = ground (arith, get_elem?-set xs i j v)

bit_place : (i j : ℕ) → bitmap_byte j ≡ bitmap_byte i → bitmap_bit j ≡ bitmap_bit i → j ≡ i
unfolding bitmap_byte bitmap_bit
bit_place i j h k = omega arith

bit-lt : (i : ℕ) → bitmap_bit i < 8
unfolding bitmap_bit
bit-lt i = omega arith

module _ {b : Bitmap} (valid : IsValid b) (i : ℕ) (within : i < b.num_bits) where
  in_area : bitmap_byte i < length valid.bytes
  in_area = omega (arith, byte-lt-size b.num_bits i within, valid.sized)

  byte_of : (v : ℕ) × (get_elem? valid.bytes (bitmap_byte i) ≡ some v) × (v < 256)
  byte_of = get_elem?-lt valid.bytes (bitmap_byte i) valid.small in_area

  get_bit-ok : bitmap_get_bit b i ≡ ok (is_bit_set byte_of.0 (bitmap_bit i))
  unfolding bitmap_get_bit
  get_bit-ok = rw (lt→ltb i b.num_bits within, valid.here, byte_of.1)

  after_set : Bitmap
  after_set = record b {
    bitmap_area = some (set valid.bytes (bitmap_byte i) (set_bit byte_of.0 (bitmap_bit i)));
  }

  set_bit-ok : bitmap_set_bit b i ≡ ok after_set
  unfolding bitmap_set_bit after_set
  set_bit-ok = rw (lt→ltb i b.num_bits within, valid.here, byte_of.1)

  after_set-IsValid : IsValid after_set
  unfolding after_set
  after_set-IsValid =
      let new = set_bit_bits byte_of.0 (bitmap_bit i) 0 byte_of.2 (bit-lt i) (omega arith) in
      record {
        bytes = set valid.bytes (bitmap_byte i) (set_bit byte_of.0 (bitmap_bit i));
        here = refl;
        sized = length-set valid.bytes _ _ ∙ valid.sized;
        small = set-AllBytes valid.bytes _ _ valid.small new.0;
      }

  after_set-get_bit :
      (j : ℕ)
      → j < b.num_bits
      → bitmap_get_bit after_set j ≡ (if j == i then ok 1 else bitmap_get_bit b j)
  unfolding bitmap_get_bit after_set
  after_set-get_bit j h =
      let (w, found, small) =
        get_elem?-lt valid.bytes (bitmap_byte j) valid.small
          (omega (arith, byte-lt-size b.num_bits j h, valid.sized)) in
      let new =
        set_bit_bits byte_of.0 (bitmap_bit i) (bitmap_bit j) byte_of.2 (bit-lt i) (bit-lt j) in
      rw (lt→ltb j b.num_bits h, valid.here)
        (ground (
          arith,
          get_elem?-set valid.bytes (bitmap_byte i) (bitmap_byte j)
              (set_bit byte_of.0 (bitmap_bit i)) in_area,
          found,
          byte_of.1,
          new.1,
          bit_place i j,
        ))

  -- Setting bit `i` of a valid bitmap succeeds, and the bitmap stays valid with the same number of bits:
  -- bit `i` then reads 1, and any other bit `j` of it reads as before.
  pub set_bit-get_bit :
      (j : ℕ)
      → j < b.num_bits
      → Ends (bitmap_set_bit b i) λ b'.
        IsValid b'
        × (b'.num_bits ≡ b.num_bits)
        × (bitmap_get_bit b' j ≡ (if j == i then ok 1 else bitmap_get_bit b j))
  set_bit-get_bit j h =
      (after_set, set_bit-ok, (after_set-IsValid, unfold after_set in refl, after_set-get_bit j h))

-- A bit number beyond the bitmap: the checked routines abort.
pub out_of_range :
    (b : Bitmap) (i : ℕ)
    → b.num_bits ≤ i
    → (bitmap_set_bit b i ≡ aborted) × (bitmap_get_bit b i ≡ aborted)
unfolding bitmap_set_bit bitmap_get_bit
out_of_range b i h = (ground arith, ground arith)

get_elem?-replicate : (n i : ℕ) → i < n → get_elem? {A = ℕ} (replicate n 0) i ≡ some 0
get_elem?-replicate zero i h = absurd (omega arith)
get_elem?-replicate (suc n) zero h = refl
get_elem?-replicate (suc n) (suc i) h = get_elem?-replicate n i (omega arith)

is_bit_set-zero : (i : ℕ) → i < 8 → is_bit_set 0 i ≡ 0
is_bit_set-zero i h =
    (==_iff _ _).0
      (passes_under-at (λ i. is_bit_set 0 i == 0) 8 i h (unfold passes_under is_bit_set in refl))

module _ (n : ℕ) where
  created : Bitmap
  created = record {
    bitmap_area = some (replicate (bitmap_size n) 0);
    num_bits = n;
    alloced_bitmap = true;
    alloced_bitmap_area = true;
  }

  created-get_bit : (i : ℕ) → i < n → bitmap_get_bit created i ≡ ok 0
  unfolding bitmap_get_bit created
  created-get_bit i h = rw (
    lt→ltb i n h,
    get_elem?-replicate (bitmap_size n) (bitmap_byte i) (byte-lt-size n i h),
    is_bit_set-zero (bitmap_bit i) (bit-lt i),
  )

  -- A bitmap that `ic_create_bitmap(NULL, n)` returns is valid, has `n` bits that all read 0, and
  -- `ic_free_bitmap` frees its area and then the object; both allocations have succeeded.
  pub create_bitmap-zero :
      (calloc_bitmap calloc_area : Bool) (b : Bitmap)
      → create_bitmap none n calloc_bitmap calloc_area ≡ some b
      → (i : ℕ) → i < n
      → IsValid b
        × (b.num_bits ≡ n)
        × (bitmap_get_bit b i ≡ ok 0)
        × (free_bitmap b ≡ area ∷ object ∷ [])
        × (calloc_bitmap ≡ true)
        × (calloc_area ≡ true)
  unfolding create_bitmap free_bitmap created
  create_bitmap-zero true true b e i h =
      let same : created ≡ b = cc in
      rw (← same) (
        record {
          bytes = replicate (bitmap_size n) 0;
          here = refl;
          sized = length-replicate (bitmap_size n) 0;
          small = replicate-AllBytes (bitmap_size n);
        },
        refl,
        created-get_bit i h,
        refl,
        refl,
        refl,
      )
  create_bitmap-zero true false b e i h = cc
  create_bitmap-zero false _ b e i h = cc

-- A bitmap from `ic_mc_create_bitmap` has no bits, whatever number was asked for: in the checked
-- build every read and every write of a bit aborts.
pub mc_create_bitmap-aborts :
    (n i : ℕ) (calloc_bitmap calloc_area : Bool) (b : Bitmap)
    → mc_create_bitmap n calloc_bitmap calloc_area ≡ some b
    → (bitmap_set_bit b i ≡ aborted) × (bitmap_get_bit b i ≡ aborted)
unfolding mc_create_bitmap
mc_create_bitmap-aborts n i calloc_bitmap calloc_area b e = out_of_range b i (ground arith)

take-all : (n : ℕ) (xs : List ℕ) → length xs ≡ n → take n xs ≡ xs
take-all zero [] h = refl
take-all zero (x ∷ xs) h = absurd (omega arith)
take-all (suc n) [] h = refl
take-all (suc n) (x ∷ xs) h = rw (take-all n xs (omega arith))

drop-all : (n : ℕ) (xs : List ℕ) → length xs ≡ n → drop n xs ≡ []
drop-all zero [] h = refl
drop-all zero (x ∷ xs) h = absurd (omega arith)
drop-all (suc n) [] h = refl
drop-all (suc n) (x ∷ xs) h = drop-all n xs (omega arith)

copy_bytes-all :
    (n : ℕ) (dest src : List ℕ) → length dest ≡ n → length src ≡ n → copy_bytes n dest src ≡ ok src
unfolding copy_bytes
copy_bytes-all n dest src h k = rw (take-all n src k, drop-all n dest h, append-nil) (ground arith)

module _ {dest src : Bitmap} (to : IsValid dest) (from : IsValid src)
    (same : dest.num_bits ≡ src.num_bits) where
  -- `ic_bitmap_copy` between valid bitmaps of one number of bits succeeds: the copy is valid, keeps its number of
  -- bits, and every bit number reads from it as from the source.
  pub bitmap_copy-get_bit : Ends (bitmap_copy dest src) λ b.
      IsValid b
      × (b.num_bits ≡ dest.num_bits)
      × ((i : ℕ) → bitmap_get_bit b i ≡ bitmap_get_bit src i)
  unfolding bitmap_copy bitmap_get_bit
  bitmap_copy-get_bit =
      let sizes : (bitmap_size dest.num_bits == bitmap_size src.num_bits) ≡ true =
        (==_iff _ _).1 (ap bitmap_size same) in
      (
        record dest { bitmap_area = some from.bytes },
        rw (sizes, to.here, from.here)
            (rw (
              copy_bytes-all (bitmap_size src.num_bits) to.bytes from.bytes
                (to.sized ∙ ap bitmap_size same) from.sized)),
        (
          record {
            bytes = from.bytes;
            here = refl;
            sized = from.sized ∙ ap bitmap_size (sym same);
            small = from.small;
          },
          refl,
          λ i. rw (same, from.here),
        ),
      )

-- The loop sets `bit_inx` in its last round, since `bit_var | (1 << 31)` is not zero.
pow2-pos : (i : ℕ) → 0 < 2 ^ i
pow2-pos zero = omega arith
pow2-pos (suc i) = rw (pow-suc) (omega (arith, pow2-pos i))

bit_or-ne_zero : (v i : ℕ) → bit_or v (2 ^ i) == 0 ≡ false
bit_or-ne_zero v i = ground (arith, bit_or-ge_right v (2 ^ i), pow2-pos i)

highest_bit_loop_lem : (rounds i v inx : ℕ) → highest_bit_loop (suc rounds) i v inx ≡ i + rounds + 1
unfolding highest_bit_loop
highest_bit_loop_lem zero i v inx = rw (bit_or-ne_zero v i) (omega arith)
highest_bit_loop_lem (suc rounds) i v inx =
    omega
      (arith, highest_bit_loop_lem rounds (i + 1) v (if bit_or v (2 ^ i) == 0 then inx else i + 1))

-- `ic_count_highest_bit` returns 32 for every argument, 0 included.
pub count_highest_bit-eq : (bit_var : ℕ) → count_highest_bit bit_var ≡ 32
unfolding count_highest_bit
count_highest_bit-eq v = highest_bit_loop_lem 31 0 v 0

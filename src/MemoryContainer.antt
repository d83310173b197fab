-- ===== src/MemoryContainer.antt =====
-- util/ic_mc.c: the memory container, which serves many small requests from a few buffers. Addresses are
-- numbers, NULL is 0. `ic_calloc_mc` is given by its answers. The mutex makes a routine one step.
mod Alloc
mod Tests
use iclaustron.Base.{
  ℕ, zero, suc, ◌+◌, ◌-◌, ◌*◌, ◌/◌, ◌%◌, ◌^◌, Bool, true, false, not, ◌&&◌, ◌||◌, Option, none,
  some, List, [], ◌∷◌, ◌++◌, ltb, leb, ◌==◌, if◌then◌else◌, set, get_or, take, drop, length,
  replicate, min,
}

abbrev pub min_base_size : ℕ
min_base_size = 128

-- `ic_align` to 8 bytes, on 32 bits.
pub align : ℕ → ℕ
align size = (((size + 7) % 2 ^ 32) / 8) * 8

-- `IC_INT_MEMORY_CONTAINER`; `buf_array` has `buf_array_size` items.
pub record Container : Type 0 where
  pub current_buf : ℕ
  pub buf_array : List ℕ
  pub total_size : ℕ
  pub max_size : ℕ
  pub base_size : ℕ
  pub current_buf_inx : ℕ
  pub current_free_len : ℕ
  pub first_buf_inx : ℕ

pub base_buf_size : (max_size base_size : ℕ) → ℕ
base_buf_size max_size base_size =
    if max_size == 0 then 8 else (max_size + base_size - 1) / base_size

-- `mc_realloc_buf_array`, with whether its request for memory is granted.
pub realloc_buf_array : Container → (new_size : ℕ) → (granted : Bool) → Option Container
realloc_buf_array mc new_size granted =
    let kept = take (min (length mc.buf_array) new_size) mc.buf_array in
    if not granted
    then none
    else some (record mc { buf_array = kept ++ replicate (new_size - length kept) 0 })

-- The new buffer of `mc_alloc`, for a request of `size` bytes: a buffer that is full at once is put before
-- the current one.
pub add_buffer : Container → (buf_inx size alloc_size new_buf new_total_size : ℕ) → ℕ × Container
add_buffer mc buf_inx size alloc_size new_buf new_total_size =
    let moved = set mc.buf_array buf_inx (get_or mc.buf_array (buf_inx - 1) 0) in
    if size == alloc_size
    then (
      new_buf,
      record mc {
        current_buf_inx = buf_inx;
        buf_array = set moved (buf_inx - 1) new_buf;
        first_buf_inx = if mc.first_buf_inx == buf_inx - 1 then buf_inx else mc.first_buf_inx;
        total_size = new_total_size;
      },
    )
    else (
      new_buf,
      record mc {
        current_buf_inx = buf_inx;
        current_buf = new_buf + size;
        current_free_len = alloc_size - size;
        buf_array = set mc.buf_array buf_inx new_buf;
        total_size = new_total_size;
      },
    )

-- The part of `mc_alloc` behind the test of the free space, with the answers for the array and the buffer.
pub alloc_buffer :
    Container → (size new_total_size : ℕ) → (array_granted : Bool) → (new_buf : ℕ) → ℕ × Container
unfolding realloc_buf_array add_buffer
alloc_buffer mc size new_total_size array_granted new_buf =
    let alloc_size = if ltb mc.base_size size then size else mc.base_size in
    let buf_inx = mc.current_buf_inx + 1 in
    let grown : Option Container =
      if leb (length mc.buf_array) buf_inx
      then realloc_buf_array mc (length mc.buf_array + 16) array_granted
      else some mc in
    elim grown [
      | none ↦ (0, mc)
      | some mc' ↦
          if new_buf == 0
          then (0, mc')
          else add_buffer mc' buf_inx size alloc_size new_buf new_total_size
    ]

-- `mc_alloc`: the address that is returned, and the container.
pub alloc : Container → (size : ℕ) → (array_granted : Bool) → (new_buf : ℕ) → ℕ × Container
unfolding align alloc_buffer
alloc mc size array_granted new_buf =
    let aligned = align size in
    let new_total_size = mc.total_size + aligned in
    if ltb 0 mc.max_size && ltb mc.max_size new_total_size
    then (0, mc)
    else if leb aligned mc.current_free_len
    then (
      mc.current_buf,
      record mc {
        current_buf = mc.current_buf + aligned;
        current_free_len = mc.current_free_len - aligned;
        total_size = new_total_size;
      },
    )
    else alloc_buffer mc aligned new_total_size array_granted new_buf

-- `mc_reset`: the buffers that are freed, and the container.
pub reset : Container → (array_granted : Bool) → List ℕ × Container
unfolding base_buf_size realloc_buf_array
reset mc array_granted =
    let first = get_or mc.buf_array mc.first_buf_inx 0 in
    let swapped = set (set mc.buf_array mc.first_buf_inx (get_or mc.buf_array 0 0)) 0 first in
    let freed = take mc.current_buf_inx (drop 1 swapped) in
    let orig_arr_size = base_buf_size mc.max_size mc.base_size in
    let mc1 = record mc { buf_array = swapped; first_buf_inx = 0 } in
    let shrunk : Option Container =
      if ltb orig_arr_size (length swapped)
      then realloc_buf_array mc1 orig_arr_size array_granted
      else some mc1 in
    let mc2 : Container = elim shrunk [ none ↦ mc1 | some mc' ↦ mc' ] in
    (
      freed,
      record mc2 {
        buf_array = take 1 mc2.buf_array ++ replicate (length mc2.buf_array - 1) 0;
        current_buf = get_or mc2.buf_array 0 0;
        total_size = 0;
        current_buf_inx = 0;
        current_free_len = mc2.base_size;
      },
    )

-- `mc_free`: the buffers that are freed, before the array and the container.
pub free_container : Container → List ℕ
free_container mc = take (mc.current_buf_inx + 1) mc.buf_array

-- `ic_create_memory_container`, with the answers for the array, the container, the first buffer and the mutex.
pub create_container :
    (base_size max_size : ℕ)
    → (array_granted granted : Bool) → (first_buf : ℕ) → (use_mutex mutex : Bool) → Option Container
unfolding align base_buf_size
create_container base_size max_size array_granted granted first_buf use_mutex mutex =
    let base = align (if ltb base_size min_base_size then min_base_size else base_size) in
    let aligned_max = align max_size in
    let maximum = if ltb 0 aligned_max && ltb aligned_max base then base else aligned_max in
    if not array_granted || not granted || first_buf == 0 || (use_mutex && not mutex)
    then none
    else some (record {
      current_buf = first_buf;
      buf_array = set (replicate (base_buf_size maximum base) 0) 0 first_buf;
      total_size = 0;
      max_size = maximum;
      base_size = base;
      current_buf_inx = 0;
      current_free_len = base;
      first_buf_inx = 0;
    })

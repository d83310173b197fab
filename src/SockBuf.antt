-- ===== src/SockBuf.antt =====
-- comm/ic_sock_buf.c and include/ic_sock_buf.h: the pool of socket buffer pages. Pages stand on a
-- heap at addresses; NULL is 0. The mutex is taken round each access of the free list, so a routine
-- is one step on the pool. `ic_malloc` is given by the address that it returns, NULL included.
mod Chain
mod Get
mod Return
mod Grow
mod Wait
mod Tests
use iclaustron.Base.{
  ℕ, zero, suc, ◌+◌, ◌-◌, ◌*◌, Bool, true, false, not, ◌||◌, Option, none, some, List, [], ◌∷◌,
  ◌++◌, Outcome, ok, aborted, undefined, ◌>>=◌, ◌>>◌, require, ltb, leb, ◌==◌, if◌then◌else◌,
  length, max, min,
}

abbrev pub Ptr : Type 0
Ptr = ℕ

abbrev pub null : Ptr
null = 0

-- What `sock_buf` of a page points at: nothing, a buffer behind the pages, the area inside the page,
-- or another page that serves as a buffer.
pub data Buffer : Type 0 where
  nowhere : Buffer
  behind : ℕ → Buffer
  own_area : Buffer
  other_page : Ptr → Buffer

pub record Page : Type 0 where
  pub next : Ptr
  pub container : Ptr
  pub sock_buf : Buffer
  pub size : ℕ
  pub ref_count : ℕ

abbrev pub Heap : Type 0
Heap = Ptr → Page

pub write : Heap → Ptr → Page → Heap
write h p page a = if a == p then page else h a

pub record Pool : Type 0 where
  pub heap : Heap
  pub address : Ptr
  pub first_page : Ptr
  pub page_size : ℕ
  pub alloc_segments : ℕ
  pub segments : List Ptr

abbrev pub cache_line_size : ℕ
cache_line_size = 128

abbrev pub max_alloc_segments : ℕ
max_alloc_segments = 8

abbrev pub mem_alloc_error : ℕ
mem_alloc_error = 7005

-- The size of `buf_area`, which ends the 128 bytes of a page object.
abbrev pub small_buf_size : ℕ
small_buf_size = 64

pub set_next : Heap → Ptr → Ptr → Heap
unfolding write
set_next h p q = write h p (record (h p) { next = q })

-- The first loop of `low_get_sock_buf_page`: `n` steps along the list, or up to its end.
pub advance : Heap → ℕ → Ptr → Ptr
advance h zero p = p
advance h (suc n) p = if p == null then p else advance h n (h p).next

-- The second loop: `n` pages are initialised; the last of them is returned with the heap.
pub init_pages : ℕ → Heap → (next_page last_page : Ptr) → Ptr × Heap
unfolding write
init_pages zero h next_page last_page = (last_page, h)
init_pages (suc n) h next_page last_page =
    if next_page == null
    then (last_page, h)
    else init_pages n (write h next_page (record (h next_page) { size = 0; ref_count = 0 }))
        (h next_page).next next_page

-- A page and the pool, with the caller's local list where it gave one.
pub record Got : Type 0 where
  pub page : Ptr
  pub pool : Pool
  pub free_pages : Option Ptr

-- The end of `low_get_sock_buf_page`, behind the initialisation of the pages: the local list takes
-- the pages behind the first, and the first is unlinked.
pub hand_out : Pool → Option Ptr → (first_page last_page : Ptr) → Heap → Got
unfolding set_next
hand_out pool free_pages first_page last_page h = elim free_pages [
  | none ↦ record {
    page = first_page;
    pool = record pool { heap = if first_page == null then h else set_next h first_page null };
    free_pages = none;
  }
  | some local ↦
      if first_page == null
      then record { page = first_page; pool = record pool { heap = h }; free_pages = some local }
      else if last_page == first_page
      then record {
        page = first_page;
        pool = record pool { heap = set_next h first_page null };
        free_pages = some local;
      }
      else record {
        page = first_page;
        pool = record pool { heap = set_next (set_next h last_page null) first_page null };
        free_pages = some (h first_page).next;
      }
]

-- The part of `low_get_sock_buf_page` that takes `n` pages from the pool's list.
pub from_pool : Pool → Option Ptr → ℕ → Outcome Got
unfolding advance init_pages hand_out
from_pool pool free_pages n =
    let taken = record pool { first_page = advance pool.heap n pool.first_page } in
    let (last_page, h) = init_pages n pool.heap pool.first_page null in
    require (ltb 0 n) >> ok (hand_out taken free_pages pool.first_page last_page h)

-- `low_get_sock_buf_page`: `free_pages` is `none` where the caller passes NULL.
pub low_get_page : Pool → Option Ptr → ℕ → Outcome Got
unfolding from_pool set_next
low_get_page pool free_pages n = elim free_pages [
  | none ↦ from_pool pool none 1
  | some local ↦
      if local == null
      then from_pool pool (some local) n
      else ok (record {
        page = local;
        pool = record pool { heap = set_next pool.heap local null };
        free_pages = some (pool.heap local).next;
      })
]

-- The loop of `return_sock_buf_page` with `fuel` pages at most: the last page that was linked, and
-- the heap. A page of a pool without page size may have a second page for its buffer, which is
-- returned behind it.
pub return_loop : ℕ → Pool → Heap → (page prev_page : Ptr) → Option (Outcome (Ptr × Heap))
unfolding write
return_loop zero pool h page prev_page = none
return_loop (suc fuel) pool h page prev_page =
    let next_page = (h page).next in
    let this_page_size = (h page).size in
    let linked = write h page (record (h page) { next = prev_page; ref_count = 0 }) in
    let plain = return_loop fuel pool linked next_page page in
    let small =
      return_loop fuel pool (write linked page (record (linked page) { sock_buf = nowhere }))
        next_page page in
    let with_second : Option (Outcome (Ptr × Heap)) = elim (h page).sock_buf [
      | other_page second ↦
          return_loop fuel pool
            (write linked second (record {
              next = next_page;
              container = pool.address;
              sock_buf = nowhere;
              size = 0;
              ref_count = 0;
            }))
            second page
      | _ ↦ some undefined
    ] in
    if page == null
    then some (ok (prev_page, h))
    else if not (pool.page_size == 0)
    then plain
    else if this_page_size == 0
    then small
    else if this_page_size == cache_line_size
    then with_second
    else some aborted

-- `return_sock_buf_page`: the list that was linked is put before the pool's list.
pub return_page : ℕ → Pool → Ptr → Option (Outcome Pool)
unfolding return_loop set_next
return_page fuel pool in_page =
    if in_page == null then some aborted else elim (return_loop fuel pool pool.heap in_page null) [
      | some (ok (prev_page, h)) ↦
          some
            (ok (record pool { heap = set_next h prev_page pool.first_page; first_page = in_page }))
      | some aborted ↦ some aborted
      | some undefined ↦ some undefined
      | none ↦ none
    ]

-- The end of `get_sock_buf_page`: a second page for the buffer of `page`. The page goes back if there is
-- no second one; its list is itself, so fuel for two rounds is enough.
pub get_second : Got → ℕ → Outcome Got
unfolding low_get_page return_page write
get_second first n = do
  second ← low_get_page first.pool first.free_pages n
  let page = first.page
  let heap = second.pool.heap
  let kept = record (heap page) { size = cache_line_size; sock_buf = other_page second.page }
  let given_back : Outcome Pool = elim (return_page 2 second.pool page) [
    | some run ↦ run
    | none ↦ undefined
  ]
  if second.page == null
      then given_back >>= (λ pool. ok (record second { page = null; pool = pool }))
      else ok (record second {
        page = page;
        pool = record (second.pool) { heap = write heap page kept };
      })

-- `get_sock_buf_page`
pub get_page : Pool → (buf_size : ℕ) → Option Ptr → ℕ → Outcome Got
unfolding get_second
get_page pool buf_size free_pages n = do
  first ← low_get_page pool free_pages n
  let page = first.page
  let heap = first.pool.heap
  let own = write heap page (record (heap page) { sock_buf = own_area })
  let checked =
      if ltb cache_line_size buf_size
      then ok first
      else if leb buf_size small_buf_size
      then ok (record first { pool = record (first.pool) { heap = own } })
      else get_second first n
  if buf_size == 0 || page == null then ok first else (require (pool.page_size == 0) >> checked)

-- A page object as `set_up_pages_in_linked_list` leaves it.
pub fresh_page : Pool → (ptr loop_ptr : Ptr) → Page
fresh_page pool ptr loop_ptr = record {
  next = ptr + cache_line_size;
  container = pool.address;
  sock_buf = if pool.page_size == 0 then nowhere else behind loop_ptr;
  size = pool.page_size;
  ref_count = 0;
}

-- `set_up_pages_in_linked_list` from address `ptr` on, with the buffers from `loop_ptr` on; its `ic_assert` that there
-- are pages is in `inc_sock_buf`, and `create_sock_buf` refuses a count of 0 before.
pub set_up_pages : ℕ → Pool → Heap → (ptr loop_ptr last : Ptr) → Ptr × Heap
unfolding write fresh_page
set_up_pages zero pool h ptr loop_ptr last = (last, h)
set_up_pages (suc n) pool h ptr loop_ptr last =
    set_up_pages n pool (write h ptr (fresh_page pool ptr loop_ptr)) (ptr + cache_line_size)
      (loop_ptr + pool.page_size) ptr

-- `inc_sock_buf` with the address that `ic_malloc` returns: the return value and the pool. The building of the pages
-- aborts where there is none.
pub inc_sock_buf : Pool → ℕ → (ptr : Ptr) → Outcome (ℕ × Pool)
unfolding set_up_pages set_next
inc_sock_buf pool no_of_pages ptr =
    let (last_page, h) =
      set_up_pages no_of_pages pool pool.heap ptr (ptr + no_of_pages * cache_line_size) null in
    if ptr == null
    then ok (mem_alloc_error, pool)
    else if no_of_pages == 0
    then aborted
    else if ltb pool.alloc_segments max_alloc_segments
    then ok (
      0,
      record pool {
        heap = set_next h last_page pool.first_page;
        first_page = ptr;
        alloc_segments = pool.alloc_segments + 1;
        segments = pool.segments ++ ptr ∷ [];
      },
    )
    else ok (mem_alloc_error, pool)

-- `ic_create_sock_buf`, with the addresses of the pool and of the pages that `ic_malloc` returns, whether the
-- mutex is made, and the heap of the pages before.
pub create_sock_buf :
    (page_size no_of_pages : ℕ) → (address ptr : Ptr) → (mutex : Bool) → Heap → Option Pool
unfolding set_up_pages set_next
create_sock_buf page_size no_of_pages address ptr mutex h =
    let pool : Pool = record {
      heap = h;
      address = address;
      first_page = ptr;
      page_size = page_size;
      alloc_segments = 1;
      segments = ptr ∷ [];
    } in
    let (last_page, h') =
      set_up_pages no_of_pages pool h ptr (ptr + no_of_pages * cache_line_size) null in
    if no_of_pages == 0 || address == null || not mutex || ptr == null
    then none
    else some (record pool { heap = set_next h' last_page null })

-- The segments that `free_sock_buf` frees, before the pool itself.
pub free_sock_buf : Pool → List Ptr
free_sock_buf pool = pool.segments

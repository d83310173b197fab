-- ===== src/SockBuf/Tests.antt =====
-- The pool at concrete heaps: the pages at 1024, 1152 and 1280.
use iclaustron.Base.{
  ℕ, Outcome, none, ◌≡◌, refl, true, false, some, [], ◌∷◌, Ends, ok, defined, ◌==◌, if◌then◌else◌,
  arith,
}
use iclaustron.SockBuf.{Got, Ptr, Page, Heap, Pool, nowhere, low_get_page, return_page}
use iclaustron.SockBuf.Chain.{Chain, has}
use iclaustron.SockBuf.Get.{get-many}
use iclaustron.SockBuf.Wait.{Round, get_page_wait, Settled, get_page_wait-ends}
use iclaustron.SockBuf.Return.{return_page-loses}
use iclaustron.SockBuf.Grow.{pages_from}

abbrev page_to : Ptr → Page
page_to p = record { next = p; container = 8; sock_buf = nowhere; size = 64; ref_count = 1 }

-- 1024 leads to 1152, and that nowhere; 1280 stands alone.
abbrev pages : Heap
pages a = if a == 1024 then page_to 1152 else page_to 0

abbrev pool_at : Ptr → Pool
pool_at p = record {
  heap = pages;
  address = 8;
  first_page = p;
  page_size = 64;
  alloc_segments = 1;
  segments = 1024 ∷ [];
}

two : Chain pages 1024 (1024 ∷ 1152 ∷ [])
two = (refl, omega arith, (refl, omega arith, refl))

get-many_example : Ends (low_get_page (pool_at 1024) (some 0) 2) λ got.
    (got.page ≡ 1024)
    × Chain got.pool.heap got.pool.first_page []
    × ((got.pool.heap 1024).next ≡ 0)
    × Ends (defined got.free_pages) λ local. Chain got.pool.heap local (1152 ∷ [])
get-many_example = get-many (pool_at 1024) 1024 (1152 ∷ []) two (refl, (refl, tt)) 1

return_page-loses_example :
    (q : Pool) × (return_page 3 (pool_at 1280) 1024 ≡ some (ok q))
    × Chain q.heap q.first_page (1024 ∷ [])
return_page-loses_example =
    return_page-loses (pool_at 1280) (omega arith) 3 1024 1152 [] two (refl, (refl, tt))
      (omega arith)

apart_two : (a : Ptr) → has a (1024 ∷ 1152 ∷ []) ≡ true → has a (pages_from 2 4096) ≡ false
unfolding pages_from
apart_two a i = ground arith

-- Another thread takes what there is.
abbrev round_at : ℕ → Round
round_at millis = record { others = λ pool. pool; millis = millis }

get_page_wait-ends_example :
    (o : Outcome Got) × (get_page_wait
        (round_at 10 ∷ round_at 25 ∷ round_at 35 ∷ [])
        (pool_at 0)
        0
        none
        1
        20
      ≡ some o)
    × Settled (get_page_wait (round_at 10 ∷ []) (pool_at 0) 0 none 1 20 ≡ none) o
get_page_wait-ends_example =
    get_page_wait-ends 0 1 20 (round_at 10 ∷ []) (round_at 25) (round_at 35 ∷ []) (pool_at 0) none
      (omega arith, tt) (omega arith)

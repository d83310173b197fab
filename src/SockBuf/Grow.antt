-- ===== src/SockBuf/Grow.antt =====
-- `inc_sock_buf` adds pages to a pool, `ic_create_sock_buf` makes one.
use iclaustron.Base.{
  ◌⊎◌, inl, inr, ℕ, zero, suc, ◌+◌, ◌*◌, ◌<◌, ◌≤◌, ◌≡◌, ◌≢◌, refl, ok, Bool, true, false, some,
  List, [], ◌∷◌, ◌++◌, ltb, ◌==◌, if◌then◌else◌, arith, sym, ap, ◌∙◌,
}
use mathlib.Core.Path.{subst}
use iclaustron.SockBuf.{
  fresh_page, Ptr, null, Page, Heap, Pool, write, set_next, set_up_pages, inc_sock_buf,
  create_sock_buf, free_sock_buf,
}
use iclaustron.SockBuf.Chain.{
  has, Distinct, Seg, Chain, last_of, has-last_of, Seg-frame, set_next-next, Seg-append, Seg-relink,
}

-- The addresses of `n` page objects in a row.
unfoldable pub pages_from : ℕ → Ptr → List Ptr
pages_from zero p = []
pages_from (suc n) p = p ∷ pages_from n (p + 128)

behind_out : (n p a : Ptr) → a < p → has a (pages_from n p) ≡ false
unfolding pages_from
behind_out zero p a less = refl
behind_out (suc n) p a less = ground (arith, behind_out n (p + 128) a)

pages_from-Distinct : (n p : Ptr) → Distinct (pages_from n p)
unfolding pages_from
pages_from-Distinct zero p = tt
pages_from-Distinct (suc n) p =
    (behind_out n (p + 128) p (omega arith), pages_from-Distinct n (p + 128))

write-at : (h : Heap) (p : Ptr) (page : Page) → write h p page p ≡ page
unfolding write
write-at h p page = ground arith

last_in : (n p : Ptr) → has (last_of null (pages_from (suc n) p)) (pages_from (suc n) p) ≡ true
unfolding pages_from
last_in n p = has-last_of null p (pages_from n (p + 128))

either : {A : Type 0} → (b : Bool) → (x : A) → (if b then x else x) ≡ x
either true x = refl
either false x = refl

module _ (pool : Pool) where
  set_up-frame :
      (n : ℕ) (h : Heap) (p l last a : Ptr)
      → has a (pages_from n p) ≡ false
      → (set_up_pages n pool h p l last).1 a ≡ h a
  unfolding set_up_pages write pages_from fresh_page
  set_up-frame zero h p l last a out = refl
  set_up-frame (suc n) h p l last a out =
      ground
        (arith, set_up-frame n (write h p (fresh_page pool p l)) (p + 128) (l + pool.page_size) p a)

  set_up-last :
      (n : ℕ) (h : Heap) (p l last : Ptr)
      → (set_up_pages n pool h p l last).0 ≡ last_of last (pages_from n p)
  unfolding set_up_pages pages_from
  set_up-last zero h p l last = refl
  set_up-last (suc n) h p l last = set_up-last n _ (p + 128) (l + pool.page_size) p

  -- The page objects form a list that leads to the address behind them.
  set_up-Seg :
      (n : ℕ) (h : Heap) (p l last : Ptr)
      → p ≢ null
      → Seg (set_up_pages n pool h p l last).1 (p + 128 * n) p (pages_from n p)
  unfolding set_up_pages pages_from fresh_page
  set_up-Seg zero h p l last real = omega arith
  set_up-Seg (suc n) h p l last real =
      let h' = write h p (fresh_page pool p l) in
      let rest = set_up-Seg n h' (p + 128) (l + pool.page_size) p (omega arith) in
      let kept =
        set_up-frame n h' (p + 128) (l + pool.page_size) p p
          (behind_out n (p + 128) p (omega arith))
        ∙ write-at h p (fresh_page pool p l) in
      let far : p + 128 + 128 * n ≡ p + 128 * suc n = omega arith in
      let from : (set_up_pages (suc n) pool h p l last).1 p ≡ fresh_page pool p l = kept in
      (
        refl,
        real,
        subst
            (λ (page : Page).
              Seg (set_up_pages (suc n) pool h p l last).1 (p + 128 * suc n) page.next
                (pages_from n (p + 128)))
            (sym from)
            (subst
              (λ (t : Ptr).
                Seg (set_up_pages (suc n) pool h p l last).1 t (p + 128) (pages_from n (p + 128)))
              far rest),
      )

  -- The new pages with the last one linked to `r`.
  grown : (n : ℕ) (ptr r : Ptr) (h : Heap) → ℕ → Heap
  grown n ptr r h l =
      let (last_page, h') = set_up_pages (suc n) pool h ptr l null in set_next h' last_page r

  grown-Seg :
      (n : ℕ) (ptr r : Ptr) (h : Heap) (l : ℕ)
      → ptr ≢ null
      → Seg (grown n ptr r h l) r ptr (pages_from (suc n) ptr)
  unfolding grown pages_from
  grown-Seg n ptr r h l real =
      let h' = (set_up_pages (suc n) pool h ptr l null).1 in
      subst (λ (t : Ptr). Seg (set_next h' t r) r ptr (pages_from (suc n) ptr))
        (sym (set_up-last (suc n) h ptr l null)) (relink h' (set_up-Seg (suc n) h ptr l null real))
    where
      relink :
          (h' : Heap)
          → Seg h' (ptr + 128 * suc n) ptr (pages_from (suc n) ptr)
          → Seg
              (set_next h' (last_of null (pages_from (suc n) ptr)) r)
              r
              ptr
              (pages_from (suc n) ptr)
      relink h' s =
          Seg-relink h' (ptr + 128 * suc n) r null ptr ptr (pages_from n (ptr + 128)) s
            (pages_from-Distinct (suc n) ptr)

  grown-frame :
      (n : ℕ) (ptr r : Ptr) (h : Heap) (l : ℕ) (a : Ptr)
      → has a (pages_from (suc n) ptr) ≡ false
      → (grown n ptr r h l a).next ≡ (h a).next
  unfolding grown
  grown-frame n ptr r h l a out =
      let h' = (set_up_pages (suc n) pool h ptr l null).1 in
      let last_page = (set_up_pages (suc n) pool h ptr l null).0 in
      let same : (h' a).next ≡ (h a).next =
        ap (λ (page : Page). page.next) (set_up-frame (suc n) h ptr l null a out) in
      let other : (a == last_page) ≡ false =
        ground (arith, set_up-last (suc n) h ptr l null, last_in n ptr, out) in
      ground (arith, set_next-next h' last_page r a)

  inc_sock_buf-run :
      (n : ℕ) (ptr : Ptr)
      → ptr ≢ null
      → pool.alloc_segments < 8
      → inc_sock_buf pool (suc n) ptr
        ≡ ok (
          0,
          record pool {
            heap = grown n ptr pool.first_page pool.heap (ptr + suc n * 128);
            first_page = ptr;
            alloc_segments = pool.alloc_segments + 1;
            segments = pool.segments ++ ptr ∷ [];
          },
        )
  unfolding inc_sock_buf grown
  inc_sock_buf-run n ptr real room =
      let there : (ptr == null) ≡ false = ground arith in
      let space : ltb pool.alloc_segments 8 ≡ true = ground arith in
      let some_pages : (suc n == 0) ≡ false = ground arith in
      rw there (rw some_pages (rw space refl))

  -- `inc_sock_buf` with memory and with room for a segment puts the new pages, in the order of their addresses, before the pages of
  -- the pool's list, when none of these lies among them.
  pub inc_sock_buf-Chain :
      (n : ℕ) (ptr : Ptr) (xs : List Ptr)
      → ptr ≢ null
      → pool.alloc_segments < 8
      → Chain pool.heap pool.first_page xs
      → ((a : Ptr) → has a xs ≡ true → has a (pages_from (suc n) ptr) ≡ false)
      → (q : Pool) × (inc_sock_buf pool (suc n) ptr ≡ ok (0, q))
        × Chain q.heap q.first_page (pages_from (suc n) ptr ++ xs)
        × (q.alloc_segments ≡ pool.alloc_segments + 1)
        × (q.segments ≡ pool.segments ++ ptr ∷ [])
  inc_sock_buf-Chain n ptr xs real room free apart =
      let l = ptr + suc n * 128 in
      let heap = grown n ptr pool.first_page pool.heap l in
      let behind : Chain heap pool.first_page xs =
        Seg-frame pool.heap heap null pool.first_page xs free
          (λ a i. grown-frame n ptr pool.first_page pool.heap l a (apart a i)) in
      (
        _,
        inc_sock_buf-run n ptr real room,
        Seg-append heap pool.first_page null ptr (pages_from (suc n) ptr) xs
            (grown-Seg n ptr pool.first_page pool.heap l real) behind,
        refl,
        refl,
      )

  -- Without memory or without room for a segment `inc_sock_buf` leaves the pool as it is and reports the error.
  inc_sock_buf-fails :
      (n : ℕ) (ptr : Ptr)
      → (ptr ≡ null) ⊎ (8 ≤ pool.alloc_segments)
      → inc_sock_buf pool (suc n) ptr ≡ ok (7005, pool)
  unfolding inc_sock_buf
  inc_sock_buf-fails n ptr (inl e) =
      let none_there : (ptr == null) ≡ true = ground arith in rw none_there refl
  inc_sock_buf-fails n ptr (inr full) =
      let no_space : ltb pool.alloc_segments 8 ≡ false = ground arith in
      let some_pages : (suc n == 0) ≡ false = ground arith in
      rw some_pages (rw no_space (either (ptr == null) _))

-- Where its allocations succeed, `ic_create_sock_buf` for one page or more makes a pool: it has one segment, and its list has all the pages of the segment, in
-- the order of their addresses.
pub create_sock_buf-Chain :
    (page_size n : ℕ) (address ptr : Ptr) (h : Heap)
    → address ≢ null
    → ptr ≢ null
    → (pool : Pool) × (create_sock_buf page_size (suc n) address ptr true h ≡ some pool)
      × Chain pool.heap pool.first_page (pages_from (suc n) ptr)
      × (pool.page_size ≡ page_size)
      × (free_sock_buf pool ≡ ptr ∷ [])
unfolding create_sock_buf grown free_sock_buf
create_sock_buf-Chain page_size n address ptr h made real =
    let start : Pool = record {
      heap = h;
      address = address;
      first_page = ptr;
      page_size = page_size;
      alloc_segments = 1;
      segments = ptr ∷ [];
    } in
    let some_pages : (suc n == 0) ≡ false = ground arith in
    let pool_made : (address == null) ≡ false = ground arith in
    let there : (ptr == null) ≡ false = ground arith in
    (
      record start { heap = grown start n ptr null h (ptr + suc n * 128) },
      rw some_pages (rw pool_made (rw there refl)),
      grown-Seg start n ptr null h (ptr + suc n * 128) real,
      refl,
      refl,
    )

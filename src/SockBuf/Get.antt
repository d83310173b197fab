-- ===== src/SockBuf/Get.antt =====
-- `low_get_sock_buf_page` takes pages from the front of the pool's list, or of the caller's.
use iclaustron.Base.{
  ℕ, zero, suc, ◌≡◌, ◌≢◌, refl, true, false, none, some, List, [], ◌∷◌, ok, Ends, ltb, ◌==◌, take,
  drop, arith, sym, ap, defined, Bool-cases, inl, inr, ◌∙◌,
}
use mathlib.Core.Path.{subst}
use iclaustron.SockBuf.{
  Ptr, null, Heap, Pool, write, set_next, advance, init_pages, hand_out, from_pool, low_get_page,
}
use iclaustron.SockBuf.Chain.{
  has, Distinct, Seg, Chain, last_of, has-last_of, Seg-frame, set_next-next, Seg-set_next,
  Seg-relink, advance-Seg, init_pages-next, init_pages-last,
}

take-distinct : (n x : ℕ) (xs : List Ptr) → has x xs ≡ false → has x (take n xs) ≡ false
take-distinct zero x xs h = refl
take-distinct (suc n) x [] h = refl
take-distinct (suc n) x (y ∷ xs) h = ground (arith, take-distinct n x xs)

Distinct-take : (n : ℕ) (xs : List Ptr) → Distinct xs → Distinct (take n xs)
Distinct-take zero xs d = tt
Distinct-take (suc n) [] d = tt
Distinct-take (suc n) (x ∷ xs) d = (take-distinct n x xs d.0, Distinct-take n xs d.1)

drop-distinct : (n x : ℕ) (xs : List Ptr) → has x xs ≡ false → has x (drop n xs) ≡ false
drop-distinct zero x xs h = h
drop-distinct (suc n) x [] h = refl
drop-distinct (suc n) x (y ∷ xs) h = ground (arith, drop-distinct n x xs)

take-drop-apart :
    (n : ℕ) (xs : List Ptr) (a : Ptr)
    → Distinct xs
    → has a (take n xs) ≡ true
    → has a (drop n xs) ≡ false
take-drop-apart zero xs a d i = cc
take-drop-apart (suc n) [] a d i = cc
take-drop-apart (suc n) (x ∷ xs) a d i =
    ground (arith, take-drop-apart n xs a d.1, drop-distinct n x xs d.0)

-- A list whose last page is a page outside it is empty.
only_self : (x : Ptr) (ys : List Ptr) → last_of x ys ≡ x → has x ys ≡ false → ys ≡ []
only_self x [] e out = refl
only_self x (y ∷ ys) e out =
    let inside = subst (λ (t : ℕ). has t (y ∷ ys) ≡ true) e (has-last_of x y ys) in
    absurd (cc (inside, out))

last_inside : (x : Ptr) (ys : List Ptr) → last_of x ys ≢ x → has (last_of x ys) ys ≡ true
last_inside x [] ne = absurd (ne refl)
last_inside x (y ∷ ys) ne = has-last_of x y ys

relink_end :
    (h : Heap) (stop x p : Ptr) (ys : List Ptr)
    → Seg h stop p ys
    → Distinct ys
    → last_of x ys ≢ x
    → Chain (set_next h (last_of x ys) null) p ys
relink_end h stop x p [] s d ne = absurd (ne refl)
relink_end h stop x p (y ∷ ys) s d ne = Seg-relink h stop null x p y ys s d

init_zeroed :
    (n : ℕ) (h : Heap) (p l a : Ptr)
    → (h a).size ≡ 0
    → (h a).ref_count ≡ 0
    → (((init_pages n h p l).1 a).size ≡ 0) × (((init_pages n h p l).1 a).ref_count ≡ 0)
unfolding init_pages write
init_zeroed zero h p l a s r = (s, r)
init_zeroed (suc n) h p l a s r =
    let deeper =
      init_zeroed n (write h p (record (h p) { size = 0; ref_count = 0 })) (h p).next p a
        (ground arith) (ground arith) in
    ground (arith, deeper)

module _ (pool : Pool) (x : Ptr) (xs : List Ptr) (free : Chain pool.heap pool.first_page (x ∷ xs))
    (distinct : Distinct (x ∷ xs)) where
  first_out : has pool.first_page xs ≡ false
  first_out = rw free.0 distinct.0

  here : (pool.first_page == null) ≡ false
  here = ground arith

  next_same : (pool.heap pool.first_page).next ≡ (pool.heap x).next
  next_same = ap (λ (t : Ptr). (pool.heap t).next) free.0

  module _ (m : ℕ) where
    last_page : Ptr
    last_page = (init_pages (suc m) pool.heap pool.first_page null).0

    ready : Heap
    ready = (init_pages (suc m) pool.heap pool.first_page null).1

    last_page-eq : last_page ≡ last_of x (take m xs)
    unfolding last_page
    last_page-eq = init_pages-last (suc m) pool.heap pool.first_page null (x ∷ xs) free

    cut : Ptr
    cut = advance pool.heap (suc m) pool.first_page

    ready-next : (a : Ptr) → (ready a).next ≡ (pool.heap a).next
    unfolding ready
    ready-next a = init_pages-next (suc m) pool.heap pool.first_page null a

    ready-first : ((ready pool.first_page).size ≡ 0) × ((ready pool.first_page).ref_count ≡ 0)
    unfolding ready init_pages write
    ready-first =
        rw (here, ready)
          (init_zeroed m
            (write pool.heap pool.first_page
              (record (pool.heap pool.first_page) { size = 0; ref_count = 0 }))
            (pool.heap pool.first_page).next pool.first_page pool.first_page (ground arith)
            (ground arith))

    -- The pages behind the first that are taken, and those that stay.
    front : Seg ready cut (ready pool.first_page).next (take m xs)
    unfolding cut
    front = rw (ready-next pool.first_page ∙ next_same) (
        Seg-frame pool.heap ready _ (pool.heap x).next (take m xs)
          (advance-Seg pool.heap (suc m) pool.first_page (x ∷ xs) free).0.2 (λ a i. ready-next a))

    left : Chain ready cut (drop m xs)
    unfolding cut
    left =
        Seg-frame pool.heap ready null _ (drop m xs)
          (advance-Seg pool.heap (suc m) pool.first_page (x ∷ xs) free).1 (λ a i. ready-next a)

    rest_out : (has pool.first_page (take m xs) ≡ false) × (has pool.first_page (drop m xs) ≡ false)
    rest_out =
        (take-distinct m pool.first_page xs first_out, drop-distinct m pool.first_page xs first_out)

    taken : Pool
    taken = record pool { first_page = cut }

    low_get-some :
        low_get_page pool (some null) (suc m)
        ≡ ok (hand_out taken (some null) pool.first_page last_page ready)
    unfolding low_get_page from_pool taken last_page ready cut
    low_get-some = let positive : ltb 0 (suc m) ≡ true = ground arith in rw positive

    -- The heap with the first page unlinked, behind the end of the local list, if there is one.
    split_heap : Heap → Heap
    split_heap h = set_next h pool.first_page null

    unlinked : (h : Heap) → (split_heap h x).next ≡ null
    unfolding split_heap
    unlinked h = ground (arith, set_next-next h pool.first_page null x, free.0)

    hand_out-one :
        (last_page == pool.first_page) ≡ true
        → hand_out taken (some null) pool.first_page last_page ready ≡ record {
          page = pool.first_page;
          pool = record taken { heap = split_heap ready };
          free_pages = some null;
        }
    unfolding hand_out split_heap
    hand_out-one one = rw (here, one)

    hand_out-more :
        (last_page == pool.first_page) ≡ false
        → hand_out taken (some null) pool.first_page last_page ready ≡ record {
          page = pool.first_page;
          pool = record taken { heap = split_heap (set_next ready last_page null) };
          free_pages = some (ready pool.first_page).next;
        }
    unfolding hand_out split_heap
    hand_out-more more = rw (here, more)

    local_one : (last_page == pool.first_page) ≡ true → take m xs ≡ []
    local_one one =
        only_self x (take m xs) (sym last_page-eq ∙ ground arith ∙ free.0)
          (take-distinct m x xs distinct.0)

    last_ne : (last_page == pool.first_page) ≡ false → last_of x (take m xs) ≢ x
    last_ne more e =
        let same : last_page ≡ pool.first_page = last_page-eq ∙ e ∙ sym free.0 in ground arith

    last_taken : (last_page == pool.first_page) ≡ false → has last_page (take m xs) ≡ true
    last_taken more = rw last_page-eq (last_inside x (take m xs) (last_ne more))

    left_after :
        (last_page == pool.first_page) ≡ false
        → Chain (split_heap (set_next ready last_page null)) cut (drop m xs)
    unfolding split_heap
    left_after more =
        Seg-set_next _ null cut (drop m xs) pool.first_page null
          (Seg-set_next ready null cut (drop m xs) last_page null left
            (take-drop-apart m xs last_page distinct.1 (last_taken more)))
          rest_out.1

    local_after :
        (last_page == pool.first_page) ≡ false
        → Chain
            (split_heap (set_next ready last_page null))
            (ready pool.first_page).next
            (take m xs)
    unfolding split_heap
    local_after more =
        Seg-set_next _ null _ (take m xs) pool.first_page null
          (rw last_page-eq (
            relink_end ready cut x (ready pool.first_page).next (take m xs) front
              (Distinct-take m xs distinct.1) (last_ne more)))
          rest_out.0

    -- From a pool whose list has the distinct pages `x ∷ xs`, and with an empty local list, `suc m` pages are
    -- taken, or all where there are fewer: the first is handed out and unlinked, the others become the
    -- local list, and the rest stays in the pool's list, each in their order.
    pub get-many : Ends (low_get_page pool (some null) (suc m)) λ got.
        (got.page ≡ x)
        × Chain got.pool.heap got.pool.first_page (drop m xs)
        × ((got.pool.heap x).next ≡ null)
        × Ends (defined got.free_pages) λ local. Chain got.pool.heap local (take m xs)
    unfolding split_heap taken cut
    get-many = elim (Bool-cases (last_page == pool.first_page)) [
      | inl one ↦ (
        _,
        low_get-some ∙ ap ok (hand_out-one one),
        (
          free.0,
          Seg-set_next ready null cut (drop m xs) pool.first_page null left rest_out.1,
          unlinked ready,
          (null, refl, rw (local_one one) refl),
        ),
      )
      | inr more ↦ (
        _,
        low_get-some ∙ ap ok (hand_out-more more),
        (
          free.0,
          left_after more,
          unlinked (set_next ready last_page null),
          (_, refl, local_after more),
        ),
      )
    ]

  first_alone : Heap
  first_alone = set_next (ready 0) pool.first_page null

  from_pool_one :
      (n : ℕ)
      → low_get_page pool none n
        ≡ ok (hand_out (taken 0) none pool.first_page (last_page 0) (ready 0))
  unfolding low_get_page from_pool taken ready cut last_page
  from_pool_one n = refl

  hand_out_unlinks : hand_out (taken 0) none pool.first_page (last_page 0) (ready 0) ≡ record {
    page = pool.first_page;
    pool = record (taken 0) { heap = first_alone };
    free_pages = none;
  }
  unfolding hand_out first_alone
  hand_out_unlinks = rw here refl

  first_alone-fields :
      ((first_alone x).next ≡ null) × ((first_alone x).size ≡ 0) × ((first_alone x).ref_count ≡ 0)
  unfolding first_alone set_next write
  first_alone-fields = ground (arith, ready-first 0, free.0)

  -- From a pool whose list has the distinct pages `x ∷ xs`, and without a local list, one page is taken: the
  -- first, which is unlinked and has size and reference count 0. The others stay in the pool's list, in their order.
  pub get-first :
      (n : ℕ)
      → Ends (low_get_page pool none n) λ got.
        (got.page ≡ x)
        × Chain got.pool.heap got.pool.first_page xs
        × ((got.pool.heap x).next ≡ null)
        × ((got.pool.heap x).size ≡ 0)
        × ((got.pool.heap x).ref_count ≡ 0)
        × (got.free_pages ≡ none)
  unfolding taken first_alone
  get-first n = (
    _,
    from_pool_one n ∙ ap ok hand_out_unlinks,
    (
      free.0,
      Seg-set_next (ready 0) null (cut 0) xs pool.first_page null (left 0) first_out,
      first_alone-fields.0,
      first_alone-fields.1,
      first_alone-fields.2,
      refl,
    ),
  )

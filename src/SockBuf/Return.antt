-- ===== src/SockBuf/Return.antt =====
-- `return_sock_buf_page` in a pool whose pages have buffers behind them.
use iclaustron.Base.{
  ℕ, zero, suc, ◌<◌, ◌≡◌, ◌≢◌, refl, true, false, some, List, [], ◌∷◌, ok, ◌==◌, if◌then◌else◌,
  arith, sym, length, ◌∙◌,
}
use mathlib.Core.Path.{subst}
use iclaustron.SockBuf.{Ptr, null, Heap, Pool, write, set_next, return_loop, return_page}
use iclaustron.SockBuf.Chain.{
  has, Distinct, Chain, last_of, has-last_of, Seg-frame, set_next-next, Seg-set_next,
}

-- The page behind the loop's first round, and what the loop keeps outside its list.
abbrev linked : Heap → Ptr → Ptr → Heap
unfolding write
linked h x prev = write h x (record (h x) { next = prev; ref_count = 0 })

linked-next :
    (h : Heap) (x prev a : Ptr) → (linked h x prev a).next ≡ (if a == x then prev else (h a).next)
unfolding linked write
linked-next h x prev a = ground arith

module _ (pool : Pool) (buffers : pool.page_size ≢ 0) where
  return_loop-step :
      (fuel : ℕ) (h : Heap) (p x prev : Ptr)
      → p ≡ x
      → x ≢ null
      → return_loop (suc fuel) pool h p prev ≡ return_loop fuel pool (linked h x prev) (h x).next x
  unfolding return_loop linked
  return_loop-step fuel h p x prev e real =
      let sized : (pool.page_size == 0) ≡ false = ground arith in
      let there : (x == null) ≡ false = ground arith in rw e (rw there (rw sized refl))

  return_loop-end :
      (fuel : ℕ) (h : Heap) (p prev : Ptr)
      → p ≡ null
      → return_loop (suc fuel) pool h p prev ≡ some (ok (prev, h))
  unfolding return_loop
  return_loop-end fuel h p prev e = let end : (p == null) ≡ true = ground arith in rw end refl

  return_loop-frame :
      (fuel : ℕ) (h : Heap) (p prev : Ptr) (xs : List Ptr)
      → Chain h p xs
      → Distinct xs
      → length xs < fuel
      → (h' : Heap) × (return_loop fuel pool h p prev ≡ some (ok (last_of prev xs, h')))
        × ((a : Ptr) → has a xs ≡ false → (h' a).next ≡ (h a).next)
  return_loop-frame zero h p prev xs s d enough = absurd (omega arith)
  return_loop-frame (suc fuel) h p prev [] s d enough =
      (h, return_loop-end fuel h p prev s, (λ a o. refl))
  return_loop-frame (suc fuel) h p prev (x ∷ xs) s d enough =
      let kept =
        Seg-frame h (linked h x prev) null (h x).next xs s.2
          (λ a i. ground (arith, linked-next h x prev a)) in
      let (h', run, same) =
        return_loop-frame fuel (linked h x prev) (h x).next x xs kept d.1 (ground arith) in
      (
        h',
        return_loop-step fuel h p x prev s.0 s.1 ∙ run,
        (λ a o. ground (arith, same a, linked-next h x prev a)),
      )

  module _ (fuel : ℕ) (x : Ptr) (ys : List Ptr) (returned : Chain pool.heap x (x ∷ ys))
      (distinct : Distinct (x ∷ ys)) (enough : length (x ∷ ys) < fuel) where
    loop_run :
        (h' : Heap) × (return_loop fuel pool pool.heap x null ≡ some (ok (last_of x ys, h')))
        × ((a : Ptr) → has a ys ≡ false → (h' a).next ≡ (linked pool.heap x null a).next)
    loop_run = go fuel enough
      where
        go :
            (n : ℕ)
            → length (x ∷ ys) < n
            → (h' : Heap) × (return_loop n pool pool.heap x null ≡ some (ok (last_of x ys, h')))
              × ((a : Ptr) → has a ys ≡ false → (h' a).next ≡ (linked pool.heap x null a).next)
        go zero less = absurd (omega arith)
        go (suc n) less =
            let kept =
              Seg-frame pool.heap (linked pool.heap x null) null (pool.heap x).next ys returned.2
                (λ a i. ground (arith, linked-next pool.heap x null a)) in
            let (h', run, same) =
              return_loop-frame n (linked pool.heap x null) (pool.heap x).next x ys kept distinct.1
                (ground arith) in
            (h', return_loop-step n pool.heap x x null refl returned.1 ∙ run, same)

    -- The pool behind the return.
    after : Pool
    after = record pool {
      heap = set_next loop_run.0 (last_of x ys) pool.first_page;
      first_page = x;
    }

    return_page-run : return_page fuel pool x ≡ some (ok after)
    unfolding return_page after
    return_page-run =
        let there : (x == null) ≡ false = ground arith in rw there (rw loop_run.1 refl)

  -- A single page that is returned to a pool whose pages have buffers becomes the first page of the pool's list,
  -- before those of `xs`, when it is not one of them; two rounds of fuel are enough.
  return_page-first :
      (fuel : ℕ) (x : Ptr) (xs : List Ptr)
      → Chain pool.heap x (x ∷ [])
      → 1 < fuel
      → Chain pool.heap pool.first_page xs
      → has x xs ≡ false
      → (q : Pool) × (return_page fuel pool x ≡ some (ok q)) × Chain q.heap q.first_page (x ∷ xs)
  unfolding after
  return_page-first fuel x xs returned enough free out =
      let (h', run, same) = loop_run fuel x [] returned (refl, tt) enough in
      let kept : Chain h' pool.first_page xs =
        Seg-frame pool.heap h' null pool.first_page xs free
          (λ a i. same a refl ∙ ground (arith, linked-next pool.heap x null a)) in
      let front : (set_next h' x pool.first_page x).next ≡ pool.first_page =
        ground (arith, set_next-next h' x pool.first_page x) in
      (
        _,
        return_page-run fuel x [] returned (refl, tt) enough,
        (
          refl,
          returned.1,
          subst (λ (t : Ptr). Chain (set_next h' x pool.first_page) t xs) (sym front)
              (Seg-set_next h' null pool.first_page xs x pool.first_page kept out),
        ),
      )

  -- A list of two distinct pages or more that is returned to a pool whose pages have buffers, with fuel above the
  -- number of its pages, is lost but for its first page, and so are the free pages: the list of the
  -- pool is that page alone.
  pub return_page-loses :
      (fuel : ℕ) (x y : Ptr) (ys : List Ptr)
      → Chain pool.heap x (x ∷ y ∷ ys)
      → Distinct (x ∷ y ∷ ys)
      → length (x ∷ y ∷ ys) < fuel
      → (q : Pool) × (return_page fuel pool x ≡ some (ok q)) × Chain q.heap q.first_page (x ∷ [])
  unfolding after
  return_page-loses fuel x y ys returned distinct enough =
      let (h', run, same) = loop_run fuel x (y ∷ ys) returned distinct enough in
      let alone : (set_next h' (last_of y ys) pool.first_page x).next ≡ null = ground (
        arith,
        set_next-next h' (last_of y ys) pool.first_page x,
        same x distinct.0,
        linked-next pool.heap x null x,
        has-last_of x y ys,
      ) in
      (_, return_page-run fuel x (y ∷ ys) returned distinct enough, (refl, returned.1, alone))

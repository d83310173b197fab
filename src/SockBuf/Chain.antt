-- ===== src/SockBuf/Chain.antt =====
-- Lists of pages on the heap: from a page the `next` pointers lead through distinct pages to a stop.
use iclaustron.Base.{
  ℕ, zero, suc, ◌≡◌, ◌≢◌, refl, true, false, List, [], ◌∷◌, ◌++◌, ◌==◌, if◌then◌else◌, take, drop,
  arith, sym, ap,
}
use mathlib.Core.Path.{subst}
use iclaustron.SockBuf.{Ptr, null, Heap, write, set_next, advance, init_pages}
pub use iclaustron.Base.Members.{has, Distinct}

abbrev pub Seg : Heap → Ptr → Ptr → List Ptr → Type 0
Seg h stop p [] = p ≡ stop
Seg h stop p (x ∷ xs) = (p ≡ x) × (x ≢ null) × Seg h stop (h x).next xs

abbrev pub Chain : Heap → Ptr → List Ptr → Type 0
Chain h p xs = Seg h null p xs

-- The last page, or `d` if there is none.
abbrev pub last_of : Ptr → List Ptr → Ptr
last_of d [] = d
last_of d (x ∷ xs) = last_of x xs

pub has-last_of : (d x : Ptr) (xs : List Ptr) → has (last_of d (x ∷ xs)) (x ∷ xs) ≡ true
has-last_of d x [] = ground arith
has-last_of d x (y ∷ xs) = ground (arith, has-last_of x y xs)

pub Seg-frame :
    (h g : Heap) (stop p : Ptr) (xs : List Ptr)
    → Seg h stop p xs
    → ((a : Ptr) → has a xs ≡ true → (g a).next ≡ (h a).next)
    → Seg g stop p xs
Seg-frame h g stop p [] s same = s
Seg-frame h g stop p (x ∷ xs) s same = (
  s.0,
  s.1,
  rw (same x (ground arith)) (Seg-frame h g stop (h x).next xs s.2 (λ a i. same a (ground arith))),
)

pub set_next-next :
    (h : Heap) (p q a : Ptr) → (set_next h p q a).next ≡ (if a == p then q else (h a).next)
unfolding set_next write
set_next-next h p q a = ground arith

pub Seg-set_next :
    (h : Heap) (stop p : Ptr) (xs : List Ptr) (a q : Ptr)
    → Seg h stop p xs
    → has a xs ≡ false
    → Seg (set_next h a q) stop p xs
Seg-set_next h stop p xs a q s out = Seg-frame h (set_next h a q) stop p xs s apart
  where
    has-ne : (b : Ptr) (ys : List Ptr) → has b ys ≡ true → has a ys ≡ false → (b == a) ≡ false
    has-ne b [] i o = cc
    has-ne b (y ∷ ys) i o = ground (arith, has-ne b ys)

    apart : (b : Ptr) → has b xs ≡ true → (set_next h a q b).next ≡ (h b).next
    apart b i = ground (arith, set_next-next h a q b, has-ne b xs i out)

-- The last page of a segment gets a new successor.
pub Seg-relink :
    (h : Heap) (stop r d p x : Ptr) (xs : List Ptr)
    → Seg h stop p (x ∷ xs)
    → Distinct (x ∷ xs)
    → Seg (set_next h (last_of d (x ∷ xs)) r) r p (x ∷ xs)
Seg-relink h stop r d p x [] s distinct = (s.0, s.1, ground (arith, set_next-next h x r x))
Seg-relink h stop r d p x (y ∷ xs) s distinct =
    let rest = Seg-relink h stop r x (h x).next y xs s.2 distinct.1 in
    let same : (set_next h (last_of x (y ∷ xs)) r x).next ≡ (h x).next =
      ground (arith, set_next-next h (last_of x (y ∷ xs)) r x, has-last_of x y xs) in
    (s.0, s.1, rw same rest)

-- Two segments in a row.
pub Seg-append :
    (h : Heap) (mid stop p : Ptr) (xs ys : List Ptr)
    → Seg h mid p xs
    → Seg h stop mid ys
    → Seg h stop p (xs ++ ys)
Seg-append h mid stop p [] ys s t = rw s t
Seg-append h mid stop p (x ∷ xs) ys s t = (s.0, s.1, Seg-append h mid stop (h x).next xs ys s.2 t)

-- `n` steps along a list lead to its part behind the first `n` pages.
pub advance-Seg :
    (h : Heap) (n p : ℕ) (xs : List Ptr)
    → Chain h p xs
    → Seg h (advance h n p) p (take n xs) × Chain h (advance h n p) (drop n xs)
unfolding advance
advance-Seg h zero p xs s = (refl, s)
advance-Seg h (suc n) p [] s = rw s (refl, refl)
advance-Seg h (suc n) p (x ∷ xs) s =
    let (front, back) = advance-Seg h n (h x).next xs s.2 in
    let here : (p == null) ≡ false = ground arith in
    let step : advance h (suc n) p ≡ advance h n (h x).next =
      rw here (ap (λ (t : Ptr). advance h n (h t).next) s.0) in
    (
      (s.0, s.1, subst (λ (t : Ptr). Seg h t (h x).next (take n xs)) (sym step) front),
      subst (λ (t : Ptr). Chain h t (drop n xs)) (sym step) back,
    )

-- The initialisation of pages leaves the list as it is.
pub init_pages-next :
    (n : ℕ) (h : Heap) (p l a : Ptr) → ((init_pages n h p l).1 a).next ≡ (h a).next
unfolding init_pages write
init_pages-next zero h p l a = refl
init_pages-next (suc n) h p l a =
    ground (
      arith,
      init_pages-next n (write h p (record (h p) { size = 0; ref_count = 0 })) (h p).next p a,
    )

pub init_pages-last :
    (n : ℕ) (h : Heap) (p l : Ptr) (xs : List Ptr)
    → Chain h p xs
    → (init_pages n h p l).0 ≡ last_of l (take n xs)
unfolding init_pages write
init_pages-last zero h p l xs s = refl
init_pages-last (suc n) h p l [] s = ground arith
init_pages-last (suc n) h p l (x ∷ xs) s =
    let here : (p == null) ≡ false = ground arith in
    let next =
      Seg-frame h (write h x (record (h x) { size = 0; ref_count = 0 })) null (h x).next xs s.2
        (λ a i. ground arith) in
    rw here (rw s.0 (init_pages-last n _ (h x).next x xs next))

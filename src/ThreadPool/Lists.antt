-- ===== src/ThreadPool/Lists.antt =====
-- What a pool of threads is between two routines: its two lists through the links of the thread objects.
use iclaustron.Base.{
  ℕ, ◌<◌, ◌≤◌, ◌≡◌, refl, true, false, List, [], ◌∷◌, ◌==◌, ltb, length, arith, sym, ap, ◌∙◌,
  Bool-cases, inl, inr, ok,
}
use mathlib.Core.Path.{subst}
use iclaustron.Base.Members.{has, Distinct, AllBelow}
use iclaustron.ThreadPool.{Thread, Pool, no_id, put, ref}

abbrev pub nexts : (ℕ → Thread) → ℕ → ℕ
nexts threads i = (threads i).next_thread_id

abbrev pub prevs : (ℕ → Thread) → ℕ → ℕ
prevs threads i = (threads i).prev_thread_id

-- From `first` the links lead through the list to the end.
abbrev pub Chained : (next : ℕ → ℕ) → (first : ℕ) → List ℕ → Type 0
Chained next first [] = first ≡ no_id
Chained next first (x ∷ xs) = (first ≡ x) × Chained next (next x) xs

-- So do they, and each backward link leads to the thread before, which for the first one is `before`.
abbrev pub Linked : (next prev : ℕ → ℕ) → (before first : ℕ) → List ℕ → Type 0
Linked next prev before first [] = first ≡ no_id
Linked next prev before first (x ∷ xs) =
    (first ≡ x) × (prev x ≡ before) × Linked next prev x (next x) xs

pub Chained-frame :
    (next next' : ℕ → ℕ) (first : ℕ) (xs : List ℕ)
    → ((a : ℕ) → has a xs ≡ true → next' a ≡ next a)
    → Chained next first xs
    → Chained next' first xs
Chained-frame next next' first [] same c = c
Chained-frame next next' first (x ∷ xs) same c = (
  c.0,
  rw (same x (ground arith))
      (Chained-frame next next' (next x) xs (λ a i. same a (ground arith)) c.1),
)

pub Linked-frame :
    (next next' prev prev' : ℕ → ℕ) (before first : ℕ) (xs : List ℕ)
    → ((a : ℕ) → has a xs ≡ true → next' a ≡ next a)
    → ((a : ℕ) → has a xs ≡ true → prev' a ≡ prev a)
    → Linked next prev before first xs
    → Linked next' prev' before first xs
Linked-frame next next' prev prev' before first [] same same' c = c
Linked-frame next next' prev prev' before first (x ∷ xs) same same' c = (
  c.0,
  same' x (ground arith) ∙ c.1,
  rw (same x (ground arith)) (
      Linked-frame next next' prev prev' x (next x) xs (λ a i. same a (ground arith))
        (λ a i. same' a (ground arith)) c.2),
)

-- The free threads, from `first_free_thread_id` on.
pub record IsFree (size first count : ℕ) (threads : ℕ → Thread) (free : List ℕ) : Type 0 where
  pub chain : Chained (nexts threads) first free
  pub ids : AllBelow size free
  pub once : Distinct free
  pub flags : (i : ℕ) → i < size → (threads i).free ≡ has i free
  pub number : count ≡ length free

-- The threads that have stopped and nobody has joined.
pub record IsStopped (size first count : ℕ) (threads : ℕ → Thread) (stopped : List ℕ) : Type 0 where
  pub chain : Linked (nexts threads) (prevs threads) no_id first stopped
  pub ids : AllBelow size stopped
  pub once : Distinct stopped
  pub flags : (i : ℕ) → i < size → (threads i).stopped ≡ has i stopped
  pub number : count ≡ length stopped

-- A pool with its free and its stopped threads.
pub record IsPool (p : Pool) (free stopped : List ℕ) : Type 0 where
  pub made : p.made ≤ p.threadpool_size
  pub small : p.made ≤ no_id
  pub frees : IsFree p.made p.first_free_thread_id p.num_free_threads p.threads free
  pub stops : IsStopped p.made p.first_stopped_thread_id p.num_stopped_threads p.threads stopped
  pub apart : (i : ℕ) → has i free ≡ true → has i stopped ≡ false

module _ (threads : ℕ → Thread) (id : ℕ) (t : Thread) where
  -- A field at one thread after a change of the thread at `id`.
  pub put-keeps {ℓ} :
      {A : Type ℓ} (f : Thread → A) (a : ℕ)
      → (a ≡ id → f t ≡ f (threads id))
      → f (put threads id t a) ≡ f (threads a)
  put-keeps f a same = elim (Bool-cases (a == id)) [
    | inl here ↦ let e : a ≡ id = ground arith in rw here (same e ∙ ap (λ i. f (threads i)) (sym e))
    | inr other ↦ rw other refl
  ]

  pub put-other {ℓ} :
      {A : Type ℓ} (f : Thread → A) (a : ℕ)
      → (a == id) ≡ false
      → f (put threads id t a) ≡ f (threads a)
  put-other f a other = rw other refl

  member : (a : ℕ) (xs : List ℕ) → has a xs ≡ true → a ≡ id → has id xs ≡ true
  member a xs i e = subst (λ (n : ℕ). has n xs ≡ true) e i

  -- Changes that the free list does not see.
  pub IsFree-put :
      (size first count : ℕ) (free : List ℕ)
      → IsFree size first count threads free
      → (has id free ≡ true → t.next_thread_id ≡ (threads id).next_thread_id)
      → t.free ≡ (threads id).free
      → IsFree size first count (put threads id t) free
  IsFree-put size first count free valid same same_flag = record {
    chain =
        Chained-frame _ _ first free
          (λ a i. put-keeps (λ u. u.next_thread_id) a (λ e. same (member a free i e))) valid.chain;
    ids = valid.ids;
    once = valid.once;
    flags = λ i below. put-keeps (λ u. u.free) i (λ e. same_flag) ∙ valid.flags i below;
    number = valid.number;
  }

  -- Changes that the list of stopped threads does not see.
  pub IsStopped-put :
      (size first count : ℕ) (stopped : List ℕ)
      → IsStopped size first count threads stopped
      → (has id stopped ≡ true → t.next_thread_id ≡ (threads id).next_thread_id)
      → (has id stopped ≡ true → t.prev_thread_id ≡ (threads id).prev_thread_id)
      → t.stopped ≡ (threads id).stopped
      → IsStopped size first count (put threads id t) stopped
  IsStopped-put size first count stopped valid same same_prev same_flag = record {
    chain =
        Linked-frame _ _ _ _ no_id first stopped
          (λ a i. put-keeps (λ u. u.next_thread_id) a (λ e. same (member a stopped i e)))
          (λ a i. put-keeps (λ u. u.prev_thread_id) a (λ e. same_prev (member a stopped i e)))
          valid.chain;
    ids = valid.ids;
    once = valid.once;
    flags = λ i below. put-keeps (λ u. u.stopped) i (λ e. same_flag) ∙ valid.flags i below;
    number = valid.number;
  }

pub ref-thread : (p : Pool) (id : ℕ) → id < p.made → ref p id ≡ ok (p.threads id)
unfolding ref
ref-thread p id inside = let e : ltb id p.made ≡ true = ground arith in rw e refl

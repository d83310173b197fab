-- ===== src/ThreadPool/Threads/Create.antt =====
-- The creation of a pool: ic_create_threadpool.
use iclaustron.Base.{
  ℕ, zero, suc, ◌+◌, ◌*◌, ◌%◌, ◌^◌, ◌<◌, ◌≤◌, ◌≡◌, refl, Bool, true, false, ◌||◌, Option, some,
  List, [], ◌∷◌, ◌==◌, ltb, arith, sym, ap, ◌∙◌, Bool-cases, inl, inr, ok, undefined, Ends,
}
use mathlib.Core.Path.{subst}
use iclaustron.Base.Members.{has, has-below, AllBelow}
use iclaustron.ThreadPool.{Thread, Pool, no_id, ref, free_thread}
use iclaustron.ThreadPool.Threads.{
  new_thread, empty_pool, free_threads, free_threadpool, add_thread, create_loop, create_threadpool,
}
use iclaustron.ThreadPool.Lists.{Chained-frame, IsPool}
use iclaustron.ThreadPool.Join.{free_thread_lem}

-- The numbers below `n`, the largest first.
abbrev pub down : ℕ → List ℕ
down zero = []
down (suc n) = n ∷ down n

AllBelow-grow : (n : ℕ) (xs : List ℕ) → AllBelow n xs → AllBelow (suc n) xs
AllBelow-grow n [] all = tt
AllBelow-grow n (x ∷ xs) all =
    (let lt : x < suc n = omega (arith, all.0) in lt, AllBelow-grow n xs all.1)

below-out : (n : ℕ) (xs : List ℕ) → AllBelow n xs → has n xs ≡ false
below-out n xs all = elim (Bool-cases (has n xs)) [
  | inl i ↦ absurd (omega (arith, has-below n n xs all i))
  | inr o ↦ o
]

module _ (p : Pool) (free : List ℕ) (mutex cond : ℕ) (valid : IsPool p free [])
    (room : p.made < p.threadpool_size) (small : p.threadpool_size ≤ no_id) where
  added_old {ℓ} :
      {A : Type ℓ} (f : Thread → A) (i : ℕ)
      → i < p.made
      → f ((add_thread p mutex cond).threads i) ≡ f (p.threads i)
  unfolding add_thread
  added_old f i below = let old : (i == p.made) ≡ false = ground arith in rw old refl

  added_new {ℓ} :
      {A : Type ℓ} (f : Thread → A)
      → f ((add_thread p mutex cond).threads p.made) ≡ f (new_thread mutex cond)
  unfolding add_thread
  added_new f = let new : (p.made == p.made) ≡ true = ground arith in rw new refl

  added_flag :
      (f : Thread → Bool) (xs : List ℕ)
      → f (new_thread mutex cond) ≡ false
      → AllBelow p.made xs
      → ((i : ℕ) → i < p.made → f (p.threads i) ≡ has i xs)
      → (i : ℕ) → i < suc p.made
      → f ((add_thread p mutex cond).threads i) ≡ has i xs
  added_flag f xs off all flags i below = elim (Bool-cases (i == p.made)) [
    | inl new ↦
        let e : i ≡ p.made = ground arith in
        ap (λ n. f ((add_thread p mutex cond).threads n)) e
        ∙ added_new f
        ∙ off
        ∙ sym (ap (λ n. has n xs) e ∙ below-out p.made xs all)
    | inr old ↦ added_old f i (ground arith) ∙ flags i (ground arith)
  ]

  added-IsPool : IsPool (add_thread p mutex cond) free []
  unfolding add_thread
  added-IsPool = record {
    made = omega arith;
    small = omega arith;
    frees = record {
      chain =
          Chained-frame _ _ p.first_free_thread_id free
            (λ a i. added_old (λ t. t.next_thread_id) a (has-below p.made a free valid.frees.ids i))
            valid.frees.chain;
      ids = AllBelow-grow p.made free valid.frees.ids;
      once = valid.frees.once;
      flags = added_flag (λ t. t.free) free refl valid.frees.ids valid.frees.flags;
      number = valid.frees.number;
    };
    stops = record {
      chain = valid.stops.chain;
      ids = tt;
      once = tt;
      flags = added_flag (λ t. t.stopped) [] refl tt valid.stops.flags;
      number = valid.stops.number;
    };
    apart = valid.apart;
  }

  -- One round of the loop: the new thread is free.
  added-free : Ends (free_thread (add_thread p mutex cond) p.made) λ p'.
      IsPool p' (p.made ∷ free) []
      × (p'.made ≡ suc p.made)
      × (p'.threadpool_size ≡ p.threadpool_size)
  unfolding add_thread
  added-free =
      let (p', ran, (valid', (made', size', calm))) =
        free_thread_lem (add_thread p mutex cond) free [] p.made added-IsPool (omega arith)
          (below-out p.made free valid.frees.ids) refl (added_new (λ t. t.synch_startup)) in
      (p', ran, (valid', made', size'))

-- A pool after its creation.
unfoldable pub Created : (pool_size : ℕ) → Option Pool → Type 0
Created pool_size r =
    (p : Pool) × (r ≡ some p)
    × (p.threadpool_size ≡ pool_size)
    × (p.made ≡ pool_size)
    × IsPool p (down pool_size) []

mul-le : (a b t : ℕ) → a ≤ b → a * t ≤ b * t
mul-le a b zero le = omega arith
mul-le a b (suc t) le =
    let left : a * suc t ≡ a * t + a = omega arith in
    let right : b * suc t ≡ b * t + b = omega arith in omega (arith, mul-le a b t le, left, right)

module _ (area bytes : ℕ) (mutexes conds : ℕ → ℕ) (size : ℕ) (small : size ≤ no_id)
    (fits : size * bytes ≤ area) where
  round :
      (k : ℕ) (p p' : Pool) (r : Option Pool)
      → p.made < size
      → ((mutexes p.made == 0) || (conds p.made == 0)) ≡ false
      → free_thread (add_thread p (mutexes p.made) (conds p.made)) p.made ≡ ok p'
      → create_loop area bytes mutexes conds k p' ≡ ok r
      → create_loop area bytes mutexes conds (suc k) p ≡ ok r
  unfolding create_loop
  round k p p' r below granted ran later =
      let inside : ltb area (suc p.made * bytes) ≡ false =
        ground (arith, mul-le (suc p.made) size bytes (omega arith)) in
      rw inside (rw granted (rw ran later))

  create_loop-Created :
      ((i : ℕ) → i < size → ((mutexes i == 0) || (conds i == 0)) ≡ false)
      → (k n : ℕ) (p : Pool) → n + k ≡ size
      → p.made ≡ n
      → p.threadpool_size ≡ size
      → IsPool p (down n) []
      → Ends (create_loop area bytes mutexes conds k p) (Created size)
  unfolding create_loop Created
  create_loop-Created granted zero n p e made whole valid =
      let n_size : n ≡ size = omega arith in
      (
        some p,
        refl,
        (p, refl, whole, made ∙ n_size, subst (λ (m : ℕ). IsPool p (down m) []) n_size valid),
      )
  create_loop-Created granted (suc k) n p e made whole valid =
      let (p', ran, (valid', made', whole')) =
        added-free p (down n) (mutexes p.made) (conds p.made) valid (omega (arith, made, whole))
          (omega (arith, whole)) in
      let next : IsPool p' (down (suc n)) [] =
        subst (λ (m : ℕ). IsPool p' (m ∷ down n) []) made valid' in
      let (r, later, created) =
        create_loop-Created granted k (suc n) p' (omega arith) (made' ∙ ap suc made)
          (whole' ∙ whole) next in
      (
        r,
        round k p p' r (omega (arith, made)) (granted p.made (omega (arith, made))) ran later,
        created,
      )

empty-IsPool : (size : ℕ) → IsPool (empty_pool size) [] []
unfolding empty_pool
empty-IsPool size = record {
  made = omega arith;
  small = omega arith;
  frees = record {
    chain = refl;
    ids = tt;
    once = tt;
    flags = λ i below. absurd (omega arith);
    number = refl;
  };
  stops = record {
    chain = refl;
    ids = tt;
    once = tt;
    flags = λ i below. absurd (omega arith);
    number = refl;
  };
  apart = λ i in_list. cc;
}

-- Where memory, mutexes and conditions are got and the bytes of all thread objects are fewer than 2^32,
-- `ic_create_threadpool` gives a valid pool: all its threads are free, the last one first, and none has stopped.
pub create_threadpool-Created :
    (thread_state_size : ℕ) (mutexes conds : ℕ → ℕ) (size : ℕ)
    → size ≤ no_id
    → size * thread_state_size < 2 ^ 32
    → ((i : ℕ) → i < size → ((mutexes i == 0) || (conds i == 0)) ≡ false)
    → Ends (create_threadpool true thread_state_size mutexes conds size) (Created size)
unfolding create_threadpool empty_pool
create_threadpool-Created thread_state_size mutexes conds size small fits granted =
    let area : ℕ = (size * thread_state_size) % 2 ^ 32 in
    create_loop-Created area thread_state_size mutexes conds size small (omega arith) granted size 0
      (empty_pool size) (omega arith) refl refl (empty-IsPool size)

-- `free_threadpool` reads through the pointers that are not set.
free_threads-undefined :
    (p : Pool) (rounds i : ℕ)
    → p.made < i + rounds
    → 0 < rounds
    → free_threads p rounds i ≡ undefined
unfolding free_threads ref
free_threads-undefined p zero i past some_round = absurd (omega arith)
free_threads-undefined p (suc rounds) i past some_round = elim (Bool-cases (ltb i p.made)) [
  | inr unset ↦ rw unset refl
  | inl set ↦
      let lt : i < p.made = ground arith in
      rw set (rw (free_threads-undefined p rounds (suc i) (omega arith) (omega arith)) refl)
]

module _ (area bytes : ℕ) (mutexes conds : ℕ → ℕ) (size bad : ℕ) (small : size ≤ no_id)
    (later : suc bad < size) (failed : ((mutexes bad == 0) || (conds bad == 0)) ≡ true) where
  bad_round :
      (k : ℕ) (p : Pool)
      → p.made ≡ bad
      → p.threadpool_size ≡ size
      → create_loop area bytes mutexes conds (suc k) p ≡ undefined
  unfolding create_loop free_threadpool add_thread
  bad_round k p made whole =
      let fails : ((mutexes p.made == 0) || (conds p.made == 0)) ≡ true =
        ap (λ n. (mutexes n == 0) || (conds n == 0)) made ∙ failed in
      let added = add_thread p (mutexes p.made) (conds p.made) in
      let released : free_threads added p.threadpool_size 0 ≡ undefined =
        free_threads-undefined added p.threadpool_size 0 (omega (arith, made, whole))
          (omega (arith, whole)) in
      elim (Bool-cases (ltb area (suc p.made * bytes))) [
        | inl behind ↦ rw behind refl
        | inr inside ↦ rw inside (rw fails (rw released refl))
      ]

  undefined_later :
      (k : ℕ) (p p' : Pool)
      → ((mutexes p.made == 0) || (conds p.made == 0)) ≡ false
      → free_thread (add_thread p (mutexes p.made) (conds p.made)) p.made ≡ ok p'
      → create_loop area bytes mutexes conds k p' ≡ undefined
      → create_loop area bytes mutexes conds (suc k) p ≡ undefined
  unfolding create_loop
  undefined_later k p p' granted ran rest = elim (Bool-cases (ltb area (suc p.made * bytes))) [
    | inl behind ↦ rw behind refl
    | inr inside ↦ rw inside (rw granted (rw ran rest))
  ]

  create_loop-undefined :
      ((i : ℕ) → i < bad → ((mutexes i == 0) || (conds i == 0)) ≡ false)
      → (left k n : ℕ) (p : Pool) → n + left ≡ bad
      → n + k ≡ size
      → p.made ≡ n
      → p.threadpool_size ≡ size
      → IsPool p (down n) []
      → create_loop area bytes mutexes conds k p ≡ undefined
  create_loop-undefined granted left zero n p e f made whole valid = absurd (omega arith)
  create_loop-undefined granted zero (suc k) n p e f made whole valid =
      bad_round k p (omega (arith, made)) whole
  create_loop-undefined granted (suc left) (suc k) n p e f made whole valid =
      let (p', ran, (valid', made', whole')) =
        added-free p (down n) (mutexes p.made) (conds p.made) valid (omega (arith, made, whole))
          (omega (arith, whole)) in
      let next : IsPool p' (down (suc n)) [] =
        subst (λ (m : ℕ). IsPool p' (m ∷ down n) []) made valid' in
      undefined_later k p p' (granted p.made (omega (arith, made))) ran (
        create_loop-undefined granted left k (suc n) p' (omega arith) (omega arith)
          (made' ∙ ap suc made) (whole' ∙ whole) next)

-- Where the first mutex or condition that is refused is one for a thread object before the last, `ic_create_threadpool`
-- reads through a pointer that is not set, or has written behind the memory for the thread objects: the release of the
-- pool goes through all of them.
pub create_threadpool-undefined :
    (thread_state_size : ℕ) (mutexes conds : ℕ → ℕ) (size bad : ℕ)
    → size ≤ no_id
    → suc bad < size
    → ((mutexes bad == 0) || (conds bad == 0)) ≡ true
    → ((i : ℕ) → i < bad → ((mutexes i == 0) || (conds i == 0)) ≡ false)
    → create_threadpool true thread_state_size mutexes conds size ≡ undefined
unfolding create_threadpool empty_pool
create_threadpool-undefined thread_state_size mutexes conds size bad small later failed granted =
    create_loop-undefined ((size * thread_state_size) % 2 ^ 32) thread_state_size mutexes conds size
      bad small later failed granted bad size 0 (empty_pool size) (omega arith) (omega arith) refl
      refl (empty-IsPool size)

-- ===== src/ThreadPool/Stopped.antt =====
-- A thread that ends joins the list of stopped threads: insert_stopped_list.
use iclaustron.Base.{
  ℕ, ◌+◌, ◌%◌, ◌^◌, ◌<◌, ◌≡◌, refl, true, false, List, [], ◌∷◌, ◌==◌, arith, sym, ◌∙◌, Bool-cases,
  inl, inr, ok, Ends,
}
use mathlib.Core.Path.{subst}
use iclaustron.Base.Members.{has, has-ne, has-below, Distinct, AllBelow, Distinct-length}
use iclaustron.ThreadPool.{Thread, Pool, no_id, put, insert_stopped_list}
use iclaustron.ThreadPool.Lists.{
  nexts, prevs, Linked, Chained-frame, Linked-frame, IsFree, IsPool, put-keeps, put-other,
  ref-thread,
}
use iclaustron.ThreadPool.Links.{update, update-same, update-other}
use iclaustron.ThreadPool.Relink.{
  link_prev, OrEnd, set_prev-threads, link_prev-keeps, link_prev-prev,
}

-- The thread object at the front of the list.
first_stopped : Pool → ℕ → Thread
first_stopped p id = record (link_prev p.threads p.first_stopped_thread_id id id) {
  next_thread_id = p.first_stopped_thread_id;
  prev_thread_id = no_id;
  stopped = true;
  wait_for_stop = false;
}

inserted : Pool → ℕ → Pool
unfolding first_stopped
inserted p id = record p {
  threads = put (link_prev p.threads p.first_stopped_thread_id id) id (first_stopped p id);
  first_stopped_thread_id = id;
  num_stopped_threads = (p.num_stopped_threads + 1) % 2 ^ 32;
}

module _ (p : Pool) (free stopped : List ℕ) (id : ℕ) (valid : IsPool p free stopped)
    (inside : id < p.made) (out : has id free ≡ false) (active : has id stopped ≡ false) where
  first_OrEnd : OrEnd p p.first_stopped_thread_id
  first_OrEnd = at stopped valid.stops.chain valid.stops.ids
    where
      at :
          (xs : List ℕ)
          → Linked (nexts p.threads) (prevs p.threads) no_id p.first_stopped_thread_id xs
          → AllBelow p.made xs
          → OrEnd p p.first_stopped_thread_id
      at [] linked below = inl linked
      at (x ∷ xs) linked below = inr (
          let lt : p.first_stopped_thread_id < p.made =
            omega (arith, linked.0, below.0, valid.made) in
          lt)

  inserted-keeps {ℓ} :
      {A : Type ℓ} (f : Thread → A)
      → ((t : Thread) (v : ℕ) → f (record t { prev_thread_id = v }) ≡ f t)
      → (a : ℕ)
      → (a ≡ id → f (first_stopped p id) ≡ f (link_prev p.threads p.first_stopped_thread_id id id))
      → f ((inserted p id).threads a) ≡ f (p.threads a)
  unfolding inserted
  inserted-keeps f same_prev a same =
      put-keeps (link_prev p.threads p.first_stopped_thread_id id) id (first_stopped p id) f a same
      ∙ link_prev-keeps p.threads p.first_stopped_thread_id id f (λ t. same_prev t id) a

  insert_stopped_list-inserted : insert_stopped_list p id ≡ ok (inserted p id)
  unfolding insert_stopped_list inserted first_stopped
  insert_stopped_list-inserted =
      let p1 = record p { threads = link_prev p.threads p.first_stopped_thread_id id } in
      let unmarked : (p1.threads id).stopped ≡ false =
        link_prev-keeps p.threads p.first_stopped_thread_id id (λ t. t.stopped) (λ t. refl) id
        ∙ valid.stops.flags id inside
        ∙ active in
      rw (set_prev-threads p p.first_stopped_thread_id id first_OrEnd)
        (rw (ref-thread p1 id (omega (arith, inside, valid.made))) (rw unmarked refl))

  other_next : (a : ℕ) → (a == id) ≡ false → nexts (inserted p id).threads a ≡ nexts p.threads a
  other_next a other =
      inserted-keeps (λ t. t.next_thread_id) (λ t v. refl) a (λ e. absurd (ground arith))

  -- The links of the thread itself.
  own_link {ℓ} :
      {A : Type ℓ} (f : Thread → A) → f ((inserted p id).threads id) ≡ f (first_stopped p id)
  unfolding inserted
  own_link f = let here : (id == id) ≡ true = ground arith in rw here refl

  other_prev :
      (a : ℕ)
      → (a == id) ≡ false
      → a < no_id
      → prevs (inserted p id).threads a ≡ update (prevs p.threads) p.first_stopped_thread_id id a
  unfolding inserted
  other_prev a other real =
      put-other (link_prev p.threads p.first_stopped_thread_id id) id (first_stopped p id)
        (λ t. t.prev_thread_id) a other
      ∙ link_prev-prev p.threads p.first_stopped_thread_id id a real

  rest-chain :
      (xs : List ℕ)
      → Linked (nexts p.threads) (prevs p.threads) no_id p.first_stopped_thread_id xs
      → has id xs ≡ false
      → Distinct xs
      → AllBelow p.made xs
      → Linked
          (nexts (inserted p id).threads)
          (prevs (inserted p id).threads)
          id
          p.first_stopped_thread_id
          xs
  rest-chain [] linked o once below = linked
  rest-chain (y ∷ ys) linked o once below =
      let other : (y == id) ≡ false = ground arith in
      (
        linked.0,
        other_prev y other (omega (arith, below.0, valid.small))
            ∙ update-same (prevs p.threads) p.first_stopped_thread_id id y (sym linked.0),
        subst
            (λ (n : ℕ).
              Linked (nexts (inserted p id).threads) (prevs (inserted p id).threads) y n ys)
            (sym (other_next y other))
            (Linked-frame _ _ _ _ y (nexts p.threads y) ys
              (λ a i. other_next a (has-ne a id ys i (ground arith)))
              (λ a i.
                other_prev a (has-ne a id ys i (ground arith))
                  (omega (arith, has-below p.made a ys below.1 i, valid.small))
                ∙ update-other (prevs p.threads) p.first_stopped_thread_id id a
                    (subst (λ (n : ℕ). (a == n) ≡ false) (sym linked.0) (has-ne a y ys i once.0)))
              linked.2),
      )

  inserted-chain :
      Linked (nexts (inserted p id).threads) (prevs (inserted p id).threads) no_id id (id ∷ stopped)
  unfolding first_stopped
  inserted-chain = (
    refl,
    own_link (λ t. t.prev_thread_id),
    subst
        (λ (n : ℕ).
          Linked (nexts (inserted p id).threads) (prevs (inserted p id).threads) id n stopped)
        (sym (own_link (λ t. t.next_thread_id)))
        (rest-chain stopped valid.stops.chain active valid.stops.once valid.stops.ids),
  )

  inserted-flags : (i : ℕ) → i < p.made → ((inserted p id).threads i).stopped ≡ has i (id ∷ stopped)
  unfolding inserted first_stopped
  inserted-flags i below = elim (Bool-cases (i == id)) [
    | inl here ↦ rw here refl
    | inr other ↦ rw other (
        link_prev-keeps p.threads p.first_stopped_thread_id id (λ t. t.stopped) (λ t. refl) i
        ∙ valid.stops.flags i below)
  ]

  inserted-free :
      IsFree p.made p.first_free_thread_id p.num_free_threads (inserted p id).threads free
  unfolding first_stopped
  inserted-free = record {
    chain =
        Chained-frame _ _ p.first_free_thread_id free (λ a i. other_next a (has-ne a id free i out))
          valid.frees.chain;
    ids = valid.frees.ids;
    once = valid.frees.once;
    flags = λ i below.
        inserted-keeps (λ t. t.free) (λ t v. refl) i (λ e. refl) ∙ valid.frees.flags i below;
    number = valid.frees.number;
  }

  inserted-IsPool : IsPool (inserted p id) free (id ∷ stopped)
  unfolding inserted
  inserted-IsPool = record {
    made = valid.made;
    small = valid.small;
    frees = inserted-free;
    stops = record {
      chain = inserted-chain;
      ids = (inside, valid.stops.ids);
      once = (active, valid.stops.once);
      flags = inserted-flags;
      number = omega (
        arith,
        valid.stops.number,
        Distinct-length p.made (id ∷ stopped) (active, valid.stops.once) (inside, valid.stops.ids),
        valid.small,
      );
    };
    apart =
        λ i free_i. (let other = has-ne i id free free_i out in rw other (valid.apart i free_i));
  }

  -- `insert_stopped_list` of a thread that is in no list puts it before the list of stopped threads.
  pub insert_stopped_list_lem : Ends (insert_stopped_list p id) λ p'.
      IsPool p' free (id ∷ stopped)
      × (p'.made ≡ p.made)
      × (p'.threadpool_size ≡ p.threadpool_size)
      × ((a : ℕ) → (p'.threads a).synch_startup ≡ (p.threads a).synch_startup)
      × ((a : ℕ) → (p'.threads a).started ≡ (p.threads a).started)
  unfolding inserted first_stopped
  insert_stopped_list_lem = (
    inserted p id,
    insert_stopped_list-inserted,
    (
      inserted-IsPool,
      refl,
      refl,
      (λ a. inserted-keeps (λ t. t.synch_startup) (λ t v. refl) a (λ e. refl)),
      (λ a. inserted-keeps (λ t. t.started) (λ t v. refl) a (λ e. refl)),
    ),
  )

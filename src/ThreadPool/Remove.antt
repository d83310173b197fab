-- ===== src/ThreadPool/Remove.antt =====
-- A thread leaves the list of stopped threads: remove_stopped_list.
use iclaustron.Base.{
  ℕ, ◌+◌, ◌-◌, ◌%◌, ◌^◌, ◌<◌, ◌≡◌, ◌⊎◌, refl, Bool, true, false, List, [], ◌∷◌, ◌++◌, ◌==◌,
  if◌then◌else◌, length, arith, sym, ap, fun_ext, ◌∙◌, Bool-cases, inl, inr, ok, Ends,
  length-append,
}
use mathlib.Core.Path.{subst}
use iclaustron.Base.Members.{
  has, has-ne, has-append, has-without, Distinct-out, Distinct-without, AllBelow, AllBelow-without,
  has-below, Distinct-length,
}
use iclaustron.ThreadPool.{Thread, Pool, no_id, set_thread, remove_stopped_list}
use iclaustron.ThreadPool.Lists.{
  nexts, prevs, Linked, Chained-frame, Linked-frame, IsFree, IsPool, put-keeps, put-other,
  ref-thread,
}
use iclaustron.ThreadPool.Links.{
  update, update-other, next_without, prev_without, first_without, unlink-Linked, next-behind,
  prev-before,
}
use iclaustron.ThreadPool.Relink.{
  link_next, OrEnd, link_prev-keeps, link_prev-prev, link_next-keeps, link_next-next, AllBelow-real,
  end-out, unlinked, unlinked-keeps, unlink_stopped-unlinked,
}

-- The pool after `remove_stopped_list`.
removed : Pool → ℕ → Pool
unfolding unlinked set_thread
removed p id =
    let u = unlinked p (p.threads id).prev_thread_id (p.threads id).next_thread_id in
    record (set_thread u id (record (u.threads id) { stopped = false })) {
      num_stopped_threads = (p.num_stopped_threads + (2 ^ 32 - 1)) % 2 ^ 32;
    }

module _ (p : Pool) (free : List ℕ) (ys : List ℕ) (id : ℕ) (zs : List ℕ)
    (valid : IsPool p free (ys ++ id ∷ zs)) where
  real : AllBelow no_id (ys ++ id ∷ zs)
  real = AllBelow-real p.made (ys ++ id ∷ zs) valid.small valid.stops.ids

  in_list : has id (ys ++ id ∷ zs) ≡ true
  in_list = ground (arith, has-append id ys (id ∷ zs))

  inside : id < p.made
  inside = has-below p.made id (ys ++ id ∷ zs) valid.stops.ids in_list

  -- Before the thread there is a stopped thread, or the list begins.
  before_id :
      ((p.threads id).prev_thread_id ≡ no_id)
      ⊎ (has (p.threads id).prev_thread_id (ys ++ id ∷ zs) ≡ true)
  before_id = before ys p.first_stopped_thread_id valid.stops.chain
    where
      before :
          (ys : List ℕ) (first : ℕ)
          → Linked (nexts p.threads) (prevs p.threads) no_id first (ys ++ id ∷ zs)
          → ((p.threads id).prev_thread_id ≡ no_id)
            ⊎ (has (p.threads id).prev_thread_id (ys ++ id ∷ zs) ≡ true)
      before [] first linked = inl linked.1
      before (y ∷ ys) first linked =
          let i = prev-before (nexts p.threads) (prevs p.threads) id zs y ys no_id first linked in
          inr (ground (arith, has-append (p.threads id).prev_thread_id (y ∷ ys) (id ∷ zs), i))

  behind_id :
      ((p.threads id).next_thread_id ≡ no_id)
      ⊎ (has (p.threads id).next_thread_id (ys ++ id ∷ zs) ≡ true)
  behind_id =
      elim (next-behind (nexts p.threads) (prevs p.threads) id zs ys no_id p.first_stopped_thread_id
        valid.stops.chain) [
          | inl end ↦ inl end
          | inr rest ↦
              inr (ground (arith, has-append (p.threads id).next_thread_id ys (id ∷ zs), rest))
        ]

  to_OrEnd : (a : ℕ) → (a ≡ no_id) ⊎ (has a (ys ++ id ∷ zs) ≡ true) → OrEnd p a
  to_OrEnd a (inl end) = inl end
  to_OrEnd a (inr i) = inr (
      let lt : a < p.made =
        omega (arith, valid.made, has-below p.made a (ys ++ id ∷ zs) valid.stops.ids i) in
      lt)

  remove_stopped_list-removed : remove_stopped_list p id ≡ ok (removed p id)
  unfolding remove_stopped_list removed
  remove_stopped_list-removed =
      let u = unlinked p (p.threads id).prev_thread_id (p.threads id).next_thread_id in
      let marked : (u.threads id).stopped ≡ true =
        unlinked-keeps p (p.threads id).prev_thread_id (p.threads id).next_thread_id
          (λ t. t.stopped) (λ t v. refl) (λ t v. refl) id
        ∙ valid.stops.flags id inside
        ∙ in_list in
      rw (ref-thread p id (omega (arith, inside, valid.made))) (
        rw
          (unlink_stopped-unlinked p (p.threads id).prev_thread_id (p.threads id).next_thread_id
            (to_OrEnd _ before_id) (to_OrEnd _ behind_id))
          (rw (ref-thread u id (omega (arith, inside, valid.made))) (rw marked refl)))

  -- A stopped thread is not free, nor is what its links lead to.
  free_apart :
      (a b : ℕ)
      → has a free ≡ true
      → (b ≡ no_id) ⊎ (has b (ys ++ id ∷ zs) ≡ true)
      → (a == b) ≡ false
  free_apart a b i (inl end) =
      ground (arith, has-below p.made a free valid.frees.ids i, valid.small)
  free_apart a b i (inr stopped) =
      ground (arith, has-ne b a (ys ++ id ∷ zs) stopped (valid.apart a i))

  removed-keeps {ℓ} :
      {A : Type ℓ} (f : Thread → A)
      → ((t : Thread) (v : ℕ) → f (record t { prev_thread_id = v }) ≡ f t)
      → ((t : Thread) (v : ℕ) → f (record t { next_thread_id = v }) ≡ f t)
      → ((t : Thread) (v : Bool) → f (record t { stopped = v }) ≡ f t)
      → (a : ℕ) → f ((removed p id).threads a) ≡ f (p.threads a)
  unfolding removed
  removed-keeps f same_prev same_next same a =
      let u = unlinked p (p.threads id).prev_thread_id (p.threads id).next_thread_id in
      put-keeps u.threads id (record (u.threads id) { stopped = false }) f a
        (λ e. same (u.threads id) false)
      ∙ unlinked-keeps p (p.threads id).prev_thread_id (p.threads id).next_thread_id f same_prev
          same_next a

  removed-next :
      (a : ℕ)
      → a < no_id
      → ((removed p id).threads a).next_thread_id
        ≡ next_without (nexts p.threads) (prevs p.threads) id zs a
  unfolding removed unlinked
  removed-next a real_a =
      let t = p.threads id in
      let u = unlinked p t.prev_thread_id t.next_thread_id in
      put-keeps u.threads id (record (u.threads id) { stopped = false }) (λ v. v.next_thread_id) a
        (λ e. refl)
      ∙ link_prev-keeps (link_next p.threads t.prev_thread_id t.next_thread_id) t.next_thread_id
          t.prev_thread_id (λ v. v.next_thread_id) (λ v. refl) a
      ∙ link_next-next p.threads t.prev_thread_id t.next_thread_id a real_a

  removed-prev :
      (a : ℕ)
      → a < no_id
      → ((removed p id).threads a).prev_thread_id
        ≡ prev_without (nexts p.threads) (prevs p.threads) id zs a
  unfolding removed unlinked
  removed-prev a real_a =
      let t = p.threads id in
      let u = unlinked p t.prev_thread_id t.next_thread_id in
      let relinked = link_next p.threads t.prev_thread_id t.next_thread_id in
      put-keeps u.threads id (record (u.threads id) { stopped = false }) (λ v. v.prev_thread_id) a
        (λ e. refl)
      ∙ link_prev-prev relinked t.next_thread_id t.prev_thread_id a real_a
      ∙ ap (λ f. update f t.next_thread_id t.prev_thread_id a)
          (fun_ext (λ i.
            link_next-keeps p.threads t.prev_thread_id t.next_thread_id (λ v. v.prev_thread_id)
              (λ v. refl) i))

  removed-free : IsFree p.made p.first_free_thread_id p.num_free_threads (removed p id).threads free
  removed-free = record {
    chain =
        Chained-frame _ _ p.first_free_thread_id free
          (λ a i.
            removed-next a (omega (arith, has-below p.made a free valid.frees.ids i, valid.small))
            ∙ update-other (nexts p.threads) _ _ a (free_apart a _ i before_id))
          valid.frees.chain;
    ids = valid.frees.ids;
    once = valid.frees.once;
    flags = λ i below.
        removed-keeps (λ v. v.free) (λ t v. refl) (λ t v. refl) (λ t v. refl) i
        ∙ valid.frees.flags i below;
    number = valid.frees.number;
  }

  removed-chain :
      Linked
        (nexts (removed p id).threads)
        (prevs (removed p id).threads)
        no_id
        (first_without (nexts p.threads) (prevs p.threads) id zs ys p.first_stopped_thread_id)
        (ys ++ zs)
  removed-chain =
      Linked-frame _ _ _ _ no_id _ (ys ++ zs) (λ a i. removed-next a (real_in a i))
        (λ a i. removed-prev a (real_in a i))
        (unlink-Linked _ _ id zs ys no_id p.first_stopped_thread_id valid.stops.chain
          valid.stops.once real (end-out _ real))
    where
      real_in : (a : ℕ) → has a (ys ++ zs) ≡ true → a < no_id
      real_in a i = has-below no_id a (ys ++ zs) (AllBelow-without no_id id ys zs real) i

  removed-flags : (i : ℕ) → i < p.made → ((removed p id).threads i).stopped ≡ has i (ys ++ zs)
  unfolding removed
  removed-flags i below = elim (Bool-cases (i == id)) [
    | inl here ↦
        let e : i ≡ id = ground arith in
        rw here (sym (ap (λ n. has n (ys ++ zs)) e ∙ Distinct-out id ys zs valid.stops.once))
    | inr other ↦
        let t = p.threads id in
        let u = unlinked p t.prev_thread_id t.next_thread_id in
        put-other u.threads id (record (u.threads id) { stopped = false }) (λ v. v.stopped) i other
        ∙ unlinked-keeps p t.prev_thread_id t.next_thread_id (λ v. v.stopped) (λ v n. refl)
            (λ v n. refl) i
        ∙ valid.stops.flags i below
        ∙ sym (has-without i id ys zs other)
  ]

  removed-first :
      first_without (nexts p.threads) (prevs p.threads) id zs ys p.first_stopped_thread_id ≡ (
        if (p.threads id).prev_thread_id == no_id
        then (p.threads id).next_thread_id
        else p.first_stopped_thread_id)
  removed-first = first_of ys p.first_stopped_thread_id valid.stops.chain real
    where
      first_of :
          (ys : List ℕ) (first : ℕ)
          → Linked (nexts p.threads) (prevs p.threads) no_id first (ys ++ id ∷ zs)
          → AllBelow no_id (ys ++ id ∷ zs)
          → first_without (nexts p.threads) (prevs p.threads) id zs ys first ≡ (
              if (p.threads id).prev_thread_id == no_id
              then (p.threads id).next_thread_id
              else first)
      first_of [] first linked below =
          let begins : ((p.threads id).prev_thread_id == no_id) ≡ true = ground (arith, linked.1) in
          rw begins refl
      first_of (y ∷ ys) first linked below =
          let i = prev-before (nexts p.threads) (prevs p.threads) id zs y ys no_id first linked in
          let in_all : has (p.threads id).prev_thread_id (y ∷ ys ++ id ∷ zs) ≡ true =
            ground (arith, has-append (p.threads id).prev_thread_id (y ∷ ys) (id ∷ zs), i) in
          let lt = has-below no_id (p.threads id).prev_thread_id (y ∷ ys ++ id ∷ zs) below in_all in
          let goes_on : ((p.threads id).prev_thread_id == no_id) ≡ false = ground arith in
          rw goes_on refl

  removed-number : (p.num_stopped_threads + (2 ^ 32 - 1)) % 2 ^ 32 ≡ length (ys ++ zs)
  removed-number = omega (
    arith,
    valid.stops.number,
    length-append ys (id ∷ zs),
    length-append ys zs,
    Distinct-length p.made (ys ++ id ∷ zs) valid.stops.once valid.stops.ids,
    valid.small,
  )

  removed-IsPool : IsPool (removed p id) free (ys ++ zs)
  unfolding removed unlinked
  removed-IsPool = record {
    made = valid.made;
    small = valid.small;
    frees = removed-free;
    stops = record {
      chain =
          subst
            (λ (n : ℕ).
              Linked (nexts (removed p id).threads) (prevs (removed p id).threads) no_id n
                (ys ++ zs))
            removed-first removed-chain;
      ids = AllBelow-without p.made id ys zs valid.stops.ids;
      once = Distinct-without id ys zs valid.stops.once;
      flags = removed-flags;
      number = removed-number;
    };
    apart = λ i in_free.
        ground (arith, valid.apart i in_free, has-append i ys (id ∷ zs), has-append i ys zs);
  }

  -- In a valid pool `remove_stopped_list` of a stopped thread takes it out of the list, wherever it stands in it, and
  -- leaves a valid pool of the same size. No thread begins or ceases to wait for its start.
  pub remove_stopped_list_lem : Ends (remove_stopped_list p id) λ p'.
      IsPool p' free (ys ++ zs)
      × (p'.made ≡ p.made)
      × (p'.threadpool_size ≡ p.threadpool_size)
      × ((a : ℕ) → (p'.threads a).synch_startup ≡ (p.threads a).synch_startup)
  unfolding removed unlinked
  remove_stopped_list_lem = (
    removed p id,
    remove_stopped_list-removed,
    (
      removed-IsPool,
      refl,
      refl,
      removed-keeps (λ v. v.synch_startup) (λ t v. refl) (λ t v. refl) (λ t v. refl),
    ),
  )

-- ===== src/ThreadPool/Free.antt =====
-- The free list of a pool: get_free_thread_id, free_thread_id, free_thread.
use iclaustron.Base.{
  ℕ, ◌+◌, ◌-◌, ◌%◌, ◌^◌, ◌<◌, ◌≤◌, ◌≡◌, refl, true, false, Option, none, some, List, [], ◌∷◌, ◌==◌,
  arith, sym, ap, ◌∙◌, Bool-cases, inl, inr, ok, aborted, Ends,
}
use mathlib.Core.Path.{subst}
use iclaustron.Base.Members.{has, has-ne, Distinct-length}
use iclaustron.ThreadPool.{
  Thread, Pool, no_id, put, set_thread, change_thread, get_free_thread_id, link_free, use_internal,
  free_thread_id,
}
use iclaustron.ThreadPool.Lists.{
  Chained, Chained-frame, IsFree, IsPool, put-other, IsFree-put, IsStopped-put, ref-thread,
}

module _ (threads : ℕ → Thread) (id : ℕ) (t : Thread) where
  IsFree-pop :
      t.free ≡ false
      → (size count : ℕ) (free : List ℕ) → IsFree size id count threads (id ∷ free)
      → size ≤ no_id
      → IsFree size
          (threads id).next_thread_id
          ((count + (2 ^ 32 - 1)) % 2 ^ 32)
          (put threads id t)
          free
  IsFree-pop used size count free valid small = record {
    chain =
        Chained-frame _ _ (threads id).next_thread_id free
          (λ a i.
            put-other threads id t (λ u. u.next_thread_id) a (has-ne a id free i valid.once.0))
          valid.chain.1;
    ids = valid.ids.1;
    once = valid.once.1;
    flags = flags;
    number =
        omega (arith, valid.number, Distinct-length size (id ∷ free) valid.once valid.ids, small);
  }
    where
      flags : (i : ℕ) → i < size → (put threads id t i).free ≡ has i free
      flags i below = elim (Bool-cases (i == id)) [
        | inl here ↦
            let e : i ≡ id = ground arith in
            rw here (used ∙ sym (ap (λ n. has n free) e ∙ valid.once.0))
        | inr other ↦
            put-other threads id t (λ u. u.free) i other
            ∙ valid.flags i below
            ∙ (let e : has i (id ∷ free) ≡ has i free = rw other refl in e)
      ]

  IsFree-push :
      t.free ≡ true
      → (size first count : ℕ) (free : List ℕ) → IsFree size first count threads free
      → t.next_thread_id ≡ first
      → size ≤ no_id
      → id < size
      → has id free ≡ false
      → IsFree size id ((count + 1) % 2 ^ 32) (put threads id t) (id ∷ free)
  IsFree-push marked size first count free valid linked small inside out = record {
    chain = (
      refl,
      subst (λ (n : ℕ). Chained (λ i. (put threads id t i).next_thread_id) n free) (sym to_first)
          (Chained-frame _ _ first free
            (λ a i. put-other threads id t (λ u. u.next_thread_id) a (has-ne a id free i out))
            valid.chain),
    );
    ids = (inside, valid.ids);
    once = (out, valid.once);
    flags = flags;
    number = omega (
      arith,
      valid.number,
      Distinct-length size (id ∷ free) (out, valid.once) (inside, valid.ids),
      small,
    );
  }
    where
      to_first : (put threads id t id).next_thread_id ≡ first
      to_first = let here : (id == id) ≡ true = ground arith in rw here linked

      flags : (i : ℕ) → i < size → (put threads id t i).free ≡ has i (id ∷ free)
      flags i below = elim (Bool-cases (i == id)) [
        | inl here ↦ rw here marked
        | inr other ↦ rw other (valid.flags i below)
      ]

-- The first free thread leaves the list.
unfoldable pub taken : Pool → Pool
unfolding set_thread
taken p =
    record (set_thread p p.first_free_thread_id
      (record (p.threads p.first_free_thread_id) { next_thread_id = no_id; free = false })) {
        first_free_thread_id = (p.threads p.first_free_thread_id).next_thread_id;
        num_free_threads = (p.num_free_threads + (2 ^ 32 - 1)) % 2 ^ 32;
        num_thread_allocations = (p.num_thread_allocations + 1) % 2 ^ 64;
      }

pub get_free_thread_id-taken :
    (p : Pool) (free stopped : List ℕ)
    → IsPool p (p.first_free_thread_id ∷ free) stopped
    → get_free_thread_id p ≡ ok (some p.first_free_thread_id, taken p)
unfolding get_free_thread_id taken
get_free_thread_id-taken p free stopped valid =
    let inside : p.first_free_thread_id < p.made = valid.frees.ids.0 in
    let real : (p.first_free_thread_id == no_id) ≡ false = ground (arith, valid.small) in
    let marked : (p.threads p.first_free_thread_id).free ≡ true =
      ground (arith, valid.frees.flags p.first_free_thread_id inside) in
    rw real (rw (ref-thread p p.first_free_thread_id (omega (arith, valid.made))) (rw marked refl))

pub taken-IsPool :
    (p : Pool) (free stopped : List ℕ)
    → IsPool p (p.first_free_thread_id ∷ free) stopped
    → IsPool (taken p) free stopped
unfolding taken
taken-IsPool p free stopped valid =
    let out : has p.first_free_thread_id stopped ≡ false =
      valid.apart p.first_free_thread_id (ground arith) in
    record {
      made = valid.made;
      small = valid.small;
      frees =
          IsFree-pop p.threads p.first_free_thread_id _ refl _ p.num_free_threads free valid.frees
            valid.small;
      stops =
          IsStopped-put p.threads p.first_free_thread_id _ _ _ _ stopped valid.stops (λ i. cc)
            (λ i. cc) refl;
      apart = λ i free_i. valid.apart i (ground (arith, free_i));
    }

-- A thread that is in neither list becomes the first of the free list.
unfoldable pub linked : Pool → ℕ → Pool
unfolding set_thread
linked p id =
    record (set_thread p id
      (record (p.threads id) { next_thread_id = p.first_free_thread_id; free = true })) {
        first_free_thread_id = id;
        num_free_threads = (p.num_free_threads + 1) % 2 ^ 32;
      }

module _ (p : Pool) (free stopped : List ℕ) (id : ℕ) (valid : IsPool p free stopped)
    (inside : id < p.made) where
  pub link_free-aborts : has id free ≡ true → link_free p id ≡ aborted
  unfolding link_free
  link_free-aborts in_list =
      let marked : (p.threads id).free ≡ true = valid.frees.flags id inside ∙ in_list in
      rw (ref-thread p id (omega (arith, valid.made))) (rw marked refl)

  module _ (out : has id free ≡ false) (active : has id stopped ≡ false) where
    pub link_free-linked : link_free p id ≡ ok (linked p id)
    unfolding link_free linked
    link_free-linked =
        let unmarked : (p.threads id).free ≡ false = valid.frees.flags id inside ∙ out in
        rw (ref-thread p id (omega (arith, valid.made))) (rw unmarked refl)

    pub linked-IsPool : IsPool (linked p id) (id ∷ free) stopped
    unfolding linked
    linked-IsPool = record {
      made = valid.made;
      small = valid.small;
      frees = IsFree-push p.threads id _ refl _ _ _ free valid.frees refl valid.small inside out;
      stops = IsStopped-put p.threads id _ _ _ _ stopped valid.stops (λ i. cc) (λ i. cc) refl;
      apart = λ i in_list. apart_with i (ground arith);
    }
      where
        apart_with : (i : ℕ) → has i (id ∷ free) ≡ true → has i stopped ≡ false
        apart_with i in_list = elim (Bool-cases (i == id)) [
          | inl here ↦ let e : i ≡ id = ground arith in ap (λ n. has n stopped) e ∙ active
          | inr other ↦ valid.apart i (ground (arith, in_list))
        ]

-- What a thread pool hands out: the first free thread, or nothing where there is none.
unfoldable pub Handed : Pool → (free stopped : List ℕ) → Option ℕ × Pool → Type 0
Handed p [] stopped (answer, p') = (answer ≡ none) × (p' ≡ p)
Handed p (id ∷ free) stopped (answer, p') =
    (answer ≡ some id) × IsPool p' free stopped × (p'.made ≡ p.made)

-- On a valid pool `get_free_thread_id` ends: where no thread is free it returns IC_ERROR_THREADPOOL_FULL and changes
-- nothing, else it gives the first free thread and leaves a valid pool with the rest of the free list.
pub get_free_thread_id_lem :
    (p : Pool) (free stopped : List ℕ)
    → IsPool p free stopped
    → Ends (get_free_thread_id p) (Handed p free stopped)
unfolding get_free_thread_id Handed taken
get_free_thread_id_lem p [] stopped valid =
    let full : (p.first_free_thread_id == no_id) ≡ true = ground (arith, valid.frees.chain) in
    ((none, p), rw full refl, (refl, refl))
get_free_thread_id_lem p (id ∷ free) stopped valid =
    let valid' = subst (λ (n : ℕ). IsPool p (n ∷ free) stopped) (sym valid.frees.chain.0) valid in
    (
      (some p.first_free_thread_id, taken p),
      get_free_thread_id-taken p free stopped valid',
      (ap some valid.frees.chain.0, taken-IsPool p free stopped valid', refl),
    )

abbrev pub changed : Pool → (id : ℕ) → (Thread → Thread) → Pool
changed p id f = record p { threads = put p.threads id (f (p.threads id)) }

pub change_thread-changed :
    (p : Pool) (free stopped : List ℕ) (id : ℕ) (f : Thread → Thread)
    → IsPool p free stopped
    → id < p.made
    → change_thread p id f ≡ ok (changed p id f)
unfolding change_thread set_thread
change_thread-changed p free stopped id f valid inside =
    rw (ref-thread p id (omega (arith, valid.made))) refl

-- A change of a thread that keeps its links and its marks.
pub changed-IsPool :
    (p : Pool) (free stopped : List ℕ) (id : ℕ) (f : Thread → Thread)
    → IsPool p free stopped
    → (f (p.threads id)).next_thread_id ≡ (p.threads id).next_thread_id
    → (f (p.threads id)).prev_thread_id ≡ (p.threads id).prev_thread_id
    → (f (p.threads id)).free ≡ (p.threads id).free
    → (f (p.threads id)).stopped ≡ (p.threads id).stopped
    → IsPool (changed p id f) free stopped
changed-IsPool p free stopped id f valid next prev same_free same_stopped = record {
  made = valid.made;
  small = valid.small;
  frees = IsFree-put p.threads id (f (p.threads id)) _ _ _ free valid.frees (λ i. next) same_free;
  stops =
      IsStopped-put p.threads id (f (p.threads id)) _ _ _ stopped valid.stops (λ i. next)
        (λ i. prev) same_stopped;
  apart = valid.apart;
}

-- `free_thread_id` of a thread that is in no list puts it before the free list.
pub free_thread_id_lem :
    (p : Pool) (free stopped : List ℕ) (id : ℕ)
    → IsPool p free stopped
    → id < p.made
    → has id free ≡ false
    → has id stopped ≡ false
    → Ends (free_thread_id p id) λ p'. IsPool p' (id ∷ free) stopped
unfolding free_thread_id use_internal linked
free_thread_id_lem p free stopped id valid inside out active =
    let valid' = linked-IsPool p free stopped id valid inside out active in
    (
      changed (linked p id) id use_internal,
      rw (link_free-linked p free stopped id valid inside out active)
          (change_thread-changed (linked p id) (id ∷ free) stopped id use_internal valid' inside),
      changed-IsPool (linked p id) (id ∷ free) stopped id use_internal valid' refl refl refl refl,
    )

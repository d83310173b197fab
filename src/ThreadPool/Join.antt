-- ===== src/ThreadPool/Join.antt =====
-- Joined threads become free: free_thread, internal_join_thread, check_threads.
use iclaustron.Base.{
  ℕ, zero, suc, ◌<◌, ◌≡◌, refl, true, false, Option, some, List, [], ◌∷◌, ◌++◌, ◌==◌, ltb, length,
  arith, sym, ◌∙◌, Bool-cases, inl, inr, ok, Ends,
}
use mathlib.Core.Path.{subst}
use iclaustron.Base.Members.{has, has-append, has-below, Distinct-out}
use iclaustron.ThreadPool.{
  Thread, Pool, no_id, put, change_thread, link_free, use_internal, reset_flags, free_thread,
  join_thread, check_threads,
}
use iclaustron.ThreadPool.Lists.{IsPool, put-keeps, ref-thread}
use iclaustron.ThreadPool.Free.{
  linked, link_free-linked, linked-IsPool, changed, change_thread-changed, changed-IsPool,
}
use iclaustron.ThreadPool.Remove.{remove_stopped_list_lem}

-- The first list, turned round, before the second.
abbrev pub reverse_onto : List ℕ → List ℕ → List ℕ
reverse_onto [] ys = ys
reverse_onto (x ∷ xs) ys = reverse_onto xs (x ∷ ys)

-- What is left of the state of a thread that was joined.
abbrev pub unused : Thread → Thread
unused t = record t { inited = true; thread = 0; object = 0 }

-- No thread begins to wait for a start.
abbrev pub Calmer : Pool → Pool → Type 0
Calmer p p' =
    (p'.made ≡ p.made)
    × (p'.threadpool_size ≡ p.threadpool_size)
    × ((a : ℕ) → (p.threads a).synch_startup ≡ false → (p'.threads a).synch_startup ≡ false)

Calmer-trans : (p q r : Pool) → Calmer p q → Calmer q r → Calmer p r
Calmer-trans p q r c d = (d.0 ∙ c.0, d.1 ∙ c.1, λ a e. d.2 a (c.2 a e))

module _ (p : Pool) (free stopped : List ℕ) (id : ℕ) (valid : IsPool p free stopped)
    (inside : id < p.made) where
  change_step :
      (f : Thread → Thread)
      → (f (p.threads id)).next_thread_id ≡ (p.threads id).next_thread_id
      → (f (p.threads id)).prev_thread_id ≡ (p.threads id).prev_thread_id
      → (f (p.threads id)).free ≡ (p.threads id).free
      → (f (p.threads id)).stopped ≡ (p.threads id).stopped
      → ((p.threads id).synch_startup ≡ false → (f (p.threads id)).synch_startup ≡ false)
      → Ends (change_thread p id f) λ p'. IsPool p' free stopped × Calmer p p'
  change_step f next prev same_free same_stopped calm = (
    changed p id f,
    change_thread-changed p free stopped id f valid inside,
    (
      changed-IsPool p free stopped id f valid next prev same_free same_stopped,
      (refl, refl, calmer),
    ),
  )
    where
      calmer :
          (a : ℕ)
          → (p.threads a).synch_startup ≡ false
          → (put p.threads id (f (p.threads id)) a).synch_startup ≡ false
      calmer a e = elim (Bool-cases (a == id)) [
        | inl here ↦
            let same : a ≡ id = ground arith in
            rw here (calm (subst (λ (n : ℕ). (p.threads n).synch_startup ≡ false) same e))
        | inr other ↦ rw other e
      ]

  link_step :
      has id free ≡ false
      → has id stopped ≡ false
      → Ends (link_free p id) λ p'. IsPool p' (id ∷ free) stopped × Calmer p p'
  unfolding linked
  link_step out active = (
    linked p id,
    link_free-linked p free stopped id valid inside out active,
    (
      linked-IsPool p free stopped id valid inside out active,
      (refl, refl, λ a e. put-keeps p.threads id _ (λ t. t.synch_startup) a (λ here. refl) ∙ e),
    ),
  )

-- `free_thread` of a thread that is in no list and does not wait for its start puts it before the free list.
pub free_thread_lem :
    (p : Pool) (free stopped : List ℕ) (id : ℕ)
    → IsPool p free stopped
    → id < p.made
    → has id free ≡ false
    → has id stopped ≡ false
    → (p.threads id).synch_startup ≡ false
    → Ends (free_thread p id) λ p'. IsPool p' (id ∷ free) stopped × Calmer p p'
unfolding free_thread use_internal reset_flags
free_thread_lem p free stopped id valid inside out active calm =
    let (p1, ran1, (valid1, calmer1)) =
      change_step p free stopped id valid inside unused refl refl refl refl (λ e. e) in
    let inside1 : id < p1.made = omega (arith, calmer1.0) in
    let (p2, ran2, (valid2, calmer2)) = link_step p1 free stopped id valid1 inside1 out active in
    let calm2 = calmer2.2 id (calmer1.2 id calm) in
    let inside2 : id < p2.made = omega (arith, calmer1.0, calmer2.0) in
    let (p3, ran3, (valid3, calmer3)) =
      change_step p2 (id ∷ free) stopped id valid2 inside2 reset_flags refl refl refl refl
        (λ e. refl) in
    let inside3 : id < p3.made = omega (arith, calmer1.0, calmer2.0, calmer3.0) in
    let (p4, ran4, (valid4, calmer4)) =
      change_step p3 (id ∷ free) stopped id valid3 inside3 use_internal refl refl refl refl
        (λ e. e) in
    (
      p4,
      rw ran1 (
          rw ran2 (
            rw (ref-thread p2 id (omega (arith, inside2, valid2.made))) (rw calm2 (rw ran3 ran4)))),
      (
        valid4,
        Calmer-trans p p1 p4 calmer1
            (Calmer-trans p1 p2 p4 calmer2 (Calmer-trans p2 p3 p4 calmer3 calmer4)),
      ),
    )

-- `internal_join_thread` of a stopped thread, once `g_thread_join` has returned: it leaves the list of stopped
-- threads and becomes the first free one.
pub join_thread_lem :
    (p : Pool) (free ys : List ℕ) (id : ℕ) (zs : List ℕ)
    → IsPool p free (ys ++ id ∷ zs)
    → (p.threads id).synch_startup ≡ false
    → Ends (join_thread p id) λ p'. IsPool p' (id ∷ free) (ys ++ zs) × Calmer p p'
unfolding join_thread
join_thread_lem p free ys id zs valid calm =
    let in_list : has id (ys ++ id ∷ zs) ≡ true = ground (arith, has-append id ys (id ∷ zs)) in
    let inside = has-below p.made id (ys ++ id ∷ zs) valid.stops.ids in_list in
    let below : ltb id p.threadpool_size ≡ true = ground (arith, valid.made) in
    let out = not_free in_list in
    let (p1, ran1, (valid1, made1, size1, same1)) = remove_stopped_list_lem p free ys id zs valid in
    let (p2, ran2, (valid2, calmer2)) =
      free_thread_lem p1 free (ys ++ zs) id valid1 (omega (arith, inside, made1)) out
        (Distinct-out id ys zs valid.stops.once) (same1 id ∙ calm) in
    (
      p2,
      rw below (rw ran1 ran2),
      (valid2, Calmer-trans p p1 p2 (made1, size1, λ a e. same1 a ∙ e) calmer2),
    )
  where
    not_free : has id (ys ++ id ∷ zs) ≡ true → has id free ≡ false
    not_free in_list = elim (Bool-cases (has id free)) [
      | inl i ↦ absurd (let no : true ≡ false = sym in_list ∙ valid.apart id i in cc)
      | inr o ↦ o
    ]

check_round :
    (fuel : ℕ) (p p1 : Pool) (r : Option Pool) (free stopped : List ℕ)
    → IsPool p free (p.first_stopped_thread_id ∷ stopped)
    → join_thread p p.first_stopped_thread_id ≡ ok p1
    → check_threads fuel p1 ≡ ok r
    → check_threads (suc fuel) p ≡ ok r
unfolding check_threads
check_round fuel p p1 r free stopped valid ran1 ran2 =
    let id = p.first_stopped_thread_id in
    let below : id < p.made = valid.stops.ids.0 in
    let real : (id == no_id) ≡ false = ground (arith, valid.small) in
    let marked : (p.threads id).stopped ≡ true = ground (arith, valid.stops.flags id below) in
    rw real (rw (ref-thread p id (omega (arith, below, valid.made))) (rw marked (rw ran1 ran2)))

-- In a valid pool whose stopped threads do not wait for a start, `check_threads` with more rounds than there are stopped
-- threads ends and joins them all: they are free, and no thread is left that has stopped.
pub check_threads_lem :
    (fuel : ℕ) (p : Pool) (free stopped : List ℕ)
    → IsPool p free stopped
    → ((a : ℕ) → has a stopped ≡ true → (p.threads a).synch_startup ≡ false)
    → length stopped < fuel
    → Ends
        (check_threads fuel p)
        λ r. (p' : Pool) × (r ≡ some p') × IsPool p' (reverse_onto stopped free) []
unfolding check_threads
check_threads_lem zero p free stopped valid calm enough = absurd (omega arith)
check_threads_lem (suc fuel) p free [] valid calm enough =
    let end : (p.first_stopped_thread_id == no_id) ≡ true = ground (arith, valid.stops.chain) in
    (some p, rw end refl, (p, refl, valid))
check_threads_lem (suc fuel) p free (id ∷ stopped) valid calm enough =
    let first = valid.stops.chain.0 in
    let (p1, ran1, (valid1, calmer1)) =
      join_thread_lem p free [] id stopped valid (calm id (ground arith)) in
    let (r, ran2, result) =
      check_threads_lem fuel p1 (id ∷ free) stopped valid1
        (λ a i. calmer1.2 a (calm a (ground arith))) (omega arith) in
    let valid' = subst (λ (n : ℕ). IsPool p free (n ∷ stopped)) (sym first) valid in
    let ran = subst (λ (n : ℕ). join_thread p n ≡ ok p1) (sym first) ran1 in
    (r, check_round fuel p p1 r free stopped valid' ran ran2, result)

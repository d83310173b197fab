-- ===== src/ThreadPool/Threads/Cycle.antt =====
-- A thread from its start until its id is free again.
use iclaustron.Base.{
  ℕ, suc, ◌<◌, ◌≡◌, ap, refl, true, false, Option, none, some, List, [], ◌∷◌, ◌==◌, arith, sym, ◌∙◌,
  Outcome, ok, aborted, undefined, Ends, ◌>>=◌,
}
use mathlib.Core.Path.{subst}
use iclaustron.Base.Members.{has}
use iclaustron.ThreadPool.{Thread, Pool, check_threads}
use iclaustron.ThreadPool.Threads.{
  start_thread_with_thread_id, finish_start, give_back, start_thread, thread_started, thread_stops,
}
use iclaustron.ThreadPool.Lists.{IsPool, ref-thread}
use iclaustron.ThreadPool.Free.{
  taken, get_free_thread_id-taken, taken-IsPool, changed, change_thread-changed, changed-IsPool,
}
use iclaustron.ThreadPool.Stopped.{insert_stopped_list_lem}
use iclaustron.ThreadPool.Join.{check_threads_lem}
use iclaustron.ThreadPool.Threads.Start.{locked, prepared, prepare_start-prepared, still-out}

abbrev ended : Thread → Thread
ended t = record t { started = false; synch_startup = false }

abbrev begun : Thread → Thread
begun t = record t { started = true }

changed_self {ℓ} :
    {A : Type ℓ} (f : Thread → A) (p : Pool) (id : ℕ) (g : Thread → Thread)
    → f ((changed p id g).threads id) ≡ f (g (p.threads id))
changed_self f p id g = let here : (id == id) ≡ true = ground arith in rw here refl

-- `thread_stops` of a thread that has started puts it before the list of stopped threads; it waits for nothing.
pub thread_stops_lem :
    (p : Pool) (free stopped : List ℕ) (id : ℕ)
    → IsPool p free stopped
    → id < p.made
    → has id free ≡ false
    → has id stopped ≡ false
    → (p.threads id).started ≡ true
    → Ends
        (thread_stops p id)
        λ p'. IsPool p' free (id ∷ stopped) × ((p'.threads id).synch_startup ≡ false)
unfolding thread_stops
thread_stops_lem p free stopped id valid inside out active runs =
    let (p1, ran1, (valid1, made1, size1, synch1, started1)) =
      insert_stopped_list_lem p free stopped id valid inside out active in
    let inside1 : id < p1.made = omega (arith, inside, made1) in
    let begun1 = started1 id ∙ runs in
    (
      changed p1 id ended,
      rw ran1 (
          rw (ref-thread p1 id inside1)
            (rw begun1 (change_thread-changed p1 free (id ∷ stopped) id ended valid1 inside1))),
      (
        changed-IsPool p1 free (id ∷ stopped) id ended valid1 refl refl refl refl,
        changed_self (λ t. t.synch_startup) p1 id ended,
      ),
    )

-- The pool that a routine leaves, or the one before.
unfoldable pub left_by : Pool → Outcome Pool → Pool
left_by p (ok p') = p'
left_by p aborted = p
left_by p undefined = p

-- What a started thread does while its starter waits: it calls `thread_started`.
unfoldable pub tells_start : (id : ℕ) → Pool → Pool
unfolding left_by
tells_start id p = left_by p (thread_started p id)

-- A successful `start_thread` that waits for the thread.
created_pool : Pool → (id object n : ℕ) → Pool
unfolding prepared
created_pool p id object n =
    changed (changed p id (prepared object true)) id (λ t. record t { thread = suc n })

started_pool : Pool → (id object n : ℕ) → Pool
unfolding created_pool
started_pool p id object n = changed (created_pool p id object n) id begun

module _ (p : Pool) (free stopped : List ℕ)
    (valid : IsPool p (p.first_free_thread_id ∷ free) stopped)
    (locks : locked p p.first_free_thread_id ≡ true)
    (calm : (p.threads p.first_free_thread_id).stop_flag ≡ false) (object n : ℕ) where
  abbrev first_id : ℕ
  first_id = p.first_free_thread_id

  abbrev p1 : Pool
  p1 = taken p

  inside : first_id < p1.made
  unfolding taken
  inside = valid.frees.ids.0

  still_locked : locked p1 first_id ≡ true
  unfolding taken locked
  still_locked = let here : (first_id == first_id) ≡ true = ground arith in rw here locks

  still_calm : (p1.threads first_id).stop_flag ≡ false
  unfolding taken
  still_calm = let here : (first_id == first_id) ≡ true = ground arith in rw here calm

  valid1 : IsPool p1 free stopped
  valid1 = taken-IsPool p free stopped valid

  valid2 : IsPool (changed p1 first_id (prepared object true)) free stopped
  valid2 = still-out p1 free stopped first_id object true valid1 inside valid.frees.once.0

  created_pool-IsPool : IsPool (created_pool p1 first_id object n) free stopped
  unfolding created_pool
  created_pool-IsPool =
      changed-IsPool (changed p1 first_id (prepared object true)) free stopped first_id
        (λ t. record t { thread = suc n }) valid2 refl refl refl refl

  inside_created : first_id < (created_pool p1 first_id object n).made
  unfolding created_pool
  inside_created = inside

  tells_start-run :
      tells_start first_id (created_pool p1 first_id object n) ≡ started_pool p1 first_id object n
  unfolding tells_start left_by thread_started started_pool
  tells_start-run = ap (left_by (created_pool p1 first_id object n)) (
      change_thread-changed (created_pool p1 first_id object n) free stopped first_id begun
        created_pool-IsPool inside_created)

  started_pool-IsPool : IsPool (started_pool p1 first_id object n) free stopped
  unfolding started_pool
  started_pool-IsPool =
      changed-IsPool (created_pool p1 first_id object n) free stopped first_id begun
        created_pool-IsPool refl refl refl refl

  inside_started : first_id < (started_pool p1 first_id object n).made
  unfolding started_pool
  inside_started = inside_created

  started_pool-calm : ((started_pool p1 first_id object n).threads first_id).stop_flag ≡ false
  unfolding started_pool created_pool
  started_pool-calm = let here : (first_id == first_id) ≡ true = ground arith in rw here still_calm

  started_pool-started : ((started_pool p1 first_id object n).threads first_id).started ≡ true
  unfolding started_pool
  started_pool-started =
      changed_self (λ t. t.started) (created_pool p1 first_id object n) first_id begun

  finish_start-run :
      finish_start (started_pool p1 first_id object n) first_id false
      ≡ ok (0, started_pool p1 first_id object n)
  unfolding finish_start
  finish_start-run =
      rw (ref-thread (started_pool p1 first_id object n) first_id inside_started)
        (rw started_pool-calm refl)

  start_thread-started :
      start_thread p object true (suc n) (tells_start first_id) false
      ≡ ok (0, some first_id, started_pool p1 first_id object n)
  unfolding start_thread start_thread_with_thread_id give_back created_pool
  start_thread-started = rw (get_free_thread_id-taken p free stopped valid) (
      rw
        (prepare_start-prepared p1 free stopped first_id object true valid1 inside
          valid.frees.once.0 still_locked)
        (rw
          (change_thread-changed (changed p1 first_id (prepared object true)) free stopped first_id
            (λ t. record t { thread = suc n }) valid2 inside)
          (rw tells_start-run (rw finish_start-run refl))))

-- A thread is started with a wait for its start, says that it has started, ends, and is joined with all the others.
cycle_from : (fuel : ℕ) → ℕ × Option ℕ × Pool → Outcome (Option Pool)
cycle_from fuel (ret, none, p) = ok none
cycle_from fuel (ret, some id, p) = thread_stops p id >>= check_threads fuel

unfoldable pub cycle : (fuel : ℕ) → Pool → (object created : ℕ) → Outcome (Option Pool)
unfolding cycle_from
cycle fuel p object created =
    start_thread p object true created (tells_start p.first_free_thread_id) false
    >>= cycle_from fuel

only_one :
    (p : Pool) (id : ℕ)
    → (p.threads id).synch_startup ≡ false
    → (a : ℕ) → has a (id ∷ []) ≡ true
    → (p.threads a).synch_startup ≡ false
only_one p id calm a i =
    let e : a ≡ id = ground arith in
    subst (λ (n : ℕ). (p.threads n).synch_startup ≡ false) (sym e) calm

cycle_first :
    (fuel : ℕ) (p : Pool) (free : List ℕ) (object n : ℕ)
    → IsPool p (p.first_free_thread_id ∷ free) []
    → locked p p.first_free_thread_id ≡ true
    → (p.threads p.first_free_thread_id).stop_flag ≡ false
    → 1 < fuel
    → Ends
        (cycle fuel p object (suc n))
        λ r. (p' : Pool) × (r ≡ some p') × IsPool p' (p.first_free_thread_id ∷ free) []
unfolding cycle
cycle_first fuel p free object n valid locks calm enough =
    let id = p.first_free_thread_id in
    let p2 = started_pool (taken p) id object n in
    let (p3, ran3, (valid3, quiet)) =
      thread_stops_lem p2 free [] id (started_pool-IsPool p free [] valid locks calm object n)
        (inside_started p free [] valid locks calm object n) valid.frees.once.0 refl
        (started_pool-started p free [] valid locks calm object n) in
    let (r, ran4, result) =
      check_threads_lem fuel p3 free (id ∷ []) valid3 (only_one p3 id quiet) enough in
    (r, rw (start_thread-started p free [] valid locks calm object n) (rw ran3 ran4), result)

-- In a valid pool where no thread has stopped, the first free thread, which has a mutex and a condition and is not told to
-- stop, is started with a wait for its start and with any result of `g_thread_try_new` but NULL. It calls
-- `thread_started` while `start_thread` waits, no stop is asked for, and it ends and is joined in two rounds: the
-- pool is valid again with the same free list.
pub cycle-free :
    (fuel : ℕ) (p : Pool) (id : ℕ) (free : List ℕ) (object n : ℕ)
    → IsPool p (id ∷ free) []
    → locked p id ≡ true
    → (p.threads id).stop_flag ≡ false
    → 1 < fuel
    → Ends (cycle fuel p object (suc n)) λ r. (p' : Pool) × (r ≡ some p') × IsPool p' (id ∷ free) []
cycle-free fuel p id free object n valid locks calm enough =
    let first = sym valid.frees.chain.0 in
    subst
      (λ (m : ℕ).
        Ends (cycle fuel p object (suc n))
          λ r. (p' : Pool) × (r ≡ some p') × IsPool p' (m ∷ free) [])
      (sym first)
      (cycle_first fuel p free object n (subst (λ (m : ℕ). IsPool p (m ∷ free) []) first valid)
        (subst (λ (m : ℕ). locked p m ≡ true) first locks)
        (subst (λ (m : ℕ). (p.threads m).stop_flag ≡ false) first calm) enough)

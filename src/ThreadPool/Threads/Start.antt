-- ===== src/ThreadPool/Threads/Start.antt =====
-- The start of a thread: start_thread, and what becomes of a thread until it is joined.
use iclaustron.Base.{
  ℕ, ◌<◌, ◌≡◌, refl, Bool, true, false, not, ◌&&◌, some, List, ◌∷◌, ◌==◌, ltb, arith, ap, ◌∙◌,
  Bool-cases, inl, inr, ok, aborted, ◌>>=◌,
}
use iclaustron.Base.Members.{has}
use iclaustron.ThreadPool.{
  Thread, Pool, change_thread, get_free_thread_id, free_thread_id, free_thread,
}
use iclaustron.ThreadPool.Threads.{
  prepare_start, start_thread_with_thread_id, give_back, start_thread,
}
use iclaustron.ThreadPool.Lists.{IsPool, ref-thread}
use iclaustron.ThreadPool.Free.{
  linked, link_free-linked, link_free-aborts, changed, change_thread-changed, changed-IsPool,
  Handed, get_free_thread_id_lem,
}
use iclaustron.ThreadPool.Join.{unused, free_thread_lem}

-- `free_thread_id` of a free thread aborts.
pub free_thread_id-aborts :
    (p : Pool) (free stopped : List ℕ) (id : ℕ)
    → IsPool p free stopped
    → id < p.made
    → has id free ≡ true
    → free_thread_id p id ≡ aborted
unfolding free_thread_id
free_thread_id-aborts p free stopped id valid inside in_list =
    rw (link_free-aborts p free stopped id valid inside in_list) refl

-- So does `free_thread` of a thread that waits for its start.
module _ (p : Pool) (free stopped : List ℕ) (id : ℕ) (valid : IsPool p free stopped)
    (inside : id < p.made) (out : has id free ≡ false) (active : has id stopped ≡ false) where
  linked_inside : id < (linked (changed p id unused) id).made
  unfolding linked
  linked_inside = inside

  linked-synch :
      ((linked (changed p id unused) id).threads id).synch_startup ≡ (p.threads id).synch_startup
  unfolding linked
  linked-synch = let here : (id == id) ≡ true = ground arith in rw here refl

  free_thread-aborts : (p.threads id).synch_startup ≡ true → free_thread p id ≡ aborted
  unfolding free_thread
  free_thread-aborts waits =
      let valid1 = changed-IsPool p free stopped id unused valid refl refl refl refl in
      rw (change_thread-changed p free stopped id unused valid inside) (
        rw (link_free-linked (changed p id unused) free stopped id valid1 inside out active) (
          rw (ref-thread (linked (changed p id unused) id) id linked_inside)
            (rw (linked-synch ∙ waits) refl)))

-- The state of a thread that is to be started.
unfoldable pub prepared : (object : ℕ) → (synch : Bool) → Thread → Thread
prepared object synch t = record t { object = object; synch_startup = synch }

unfoldable pub locked : Pool → ℕ → Bool
locked p id = not ((p.threads id).mutex == 0) && not ((p.threads id).cond == 0)

module _ (p : Pool) (free stopped : List ℕ) (id object : ℕ) (synch : Bool)
    (valid : IsPool p free stopped) (inside : id < p.made) (out : has id free ≡ false) where
  pub prepare_start-prepared :
      locked p id ≡ true
      → prepare_start p id object synch ≡ ok (changed p id (prepared object synch))
  unfolding prepare_start prepared locked
  prepare_start-prepared locks =
      let below : ltb id p.threadpool_size ≡ true = ground (arith, valid.made) in
      let busy : (p.threads id).free ≡ false = valid.frees.flags id inside ∙ out in
      let begun : prepare_start p id object synch ≡ change_thread p id (prepared object synch) =
        rw below (rw (ref-thread p id inside) (rw locks (rw busy refl))) in
      begun ∙ change_thread-changed p free stopped id (prepared object synch) valid inside

  prepare_start-unlocked : locked p id ≡ false → prepare_start p id object synch ≡ aborted
  unfolding prepare_start locked
  prepare_start-unlocked locks =
      let below : ltb id p.threadpool_size ≡ true = ground (arith, valid.made) in
      rw below (rw (ref-thread p id inside) (rw locks refl))

  pub still-out : IsPool (changed p id (prepared object synch)) free stopped
  unfolding prepared
  still-out = changed-IsPool p free stopped id (prepared object synch) valid refl refl refl refl

  pub prepared-synch : ((changed p id (prepared object synch)).threads id).synch_startup ≡ synch
  unfolding prepared
  prepared-synch = let here : (id == id) ≡ true = ground arith in rw here refl

-- A thread that cannot be created: its id is free once it has been given back, and is given back again.
failed_start-aborts :
    (p : Pool) (free stopped : List ℕ) (id object : ℕ) (synch : Bool) (meanwhile : Pool → Pool)
    (stop : Bool)
    → IsPool p free stopped
    → id < p.made
    → has id free ≡ false
    → has id stopped ≡ false
    → (start_thread_with_thread_id p id object synch 0 meanwhile stop >>= give_back id) ≡ aborted
unfolding start_thread_with_thread_id give_back
failed_start-aborts p free stopped id object synch meanwhile stop valid inside out active =
    elim (Bool-cases (locked p id)) [
      | inr unlocked ↦
          rw (prepare_start-unlocked p free stopped id object synch valid inside out unlocked) refl
      | inl locks ↦
          let p1 = changed p id (prepared object synch) in
          let valid1 : IsPool p1 free stopped =
            still-out p free stopped id object synch valid inside out in
          let ran1 = prepare_start-prepared p free stopped id object synch valid inside out locks in
          elim (Bool-cases synch) [
            | inl waits ↦ rw ran1 (
                rw
                  (free_thread-aborts p1 free stopped id valid1 inside out active
                    (prepared-synch p free stopped id object synch valid inside out ∙ waits))
                  refl)
            | inr simple ↦
                let (p2, ran2, (valid2, calmer2)) =
                  free_thread_lem p1 free stopped id valid1 inside out active
                    (prepared-synch p free stopped id object synch valid inside out ∙ simple) in
                rw ran1 (
                  rw ran2 (
                    rw
                      (free_thread_id-aborts p2 (id ∷ free) stopped id valid2
                        (omega (arith, inside, calmer2.0)) (ground arith))
                      refl))
          ]
    ]

-- In a valid pool with a free thread, `start_thread` aborts whenever `g_thread_try_new` fails: the id is put back into
-- the free list by `start_thread_with_thread_id` and then once more.
pub start_thread-aborts :
    (p : Pool) (id : ℕ) (free stopped : List ℕ) (object : ℕ) (synch : Bool)
    (meanwhile : Pool → Pool) (stop : Bool)
    → IsPool p (id ∷ free) stopped
    → start_thread p object synch 0 meanwhile stop ≡ aborted
unfolding start_thread Handed
start_thread-aborts p id free stopped object synch meanwhile stop valid =
    let ((answer, p1), ran, (given, valid1, made1)) =
      get_free_thread_id_lem p (id ∷ free) stopped valid in
    let taken : get_free_thread_id p ≡ ok (some id, p1) = ran ∙ ap (λ a. ok (a, p1)) given in
    rw taken (
      failed_start-aborts p1 free stopped id object synch meanwhile stop valid1
        (omega (arith, valid.frees.ids.0, made1)) valid.frees.once.0
        (valid.apart id (ground arith)))

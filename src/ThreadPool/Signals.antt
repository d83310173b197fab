-- ===== src/ThreadPool/Signals.antt =====
-- util/ic_threadpool.c: flags by which the threads of a pool wait for each other. A loop around `ic_cond_wait` is a round
-- that waits on or returns. It is run before the first wait and after each wake-up, but for `started_round` and
-- `wait_round`, whose loops wait first. `stop` is what `ic_get_stop_flag` returns.
mod Handshake
mod Agreement
mod Tests
use iclaustron.Base.{
  ℕ, zero, suc, ◌+◌, Bool, true, false, not, ◌||◌, ◌&&◌, Option, none, some, List, Outcome, ok,
  ◌>>=◌, ◌>>◌, require, ltb, ◌==◌, if◌then◌else◌,
}
use iclaustron.ThreadPool.{
  Thread, Pool, ref, change_thread, get_free_thread_id, join_thread, check_threads,
}
use iclaustron.ThreadPool.Threads.{free_threadpool}

-- A round waits on with the mutex unlocked, or the routine returns; `signals` tells whether the condition of the thread
-- object was signalled in the round.
pub data Round {ℓ} (A : Type ℓ) : Type ℓ where
  waits : (signals : Bool) → Pool → Round A
  returns : (signals : Bool) → A → Pool → Round A

-- `thread_startup_done`: TRUE where the thread is to stop.
pub startup_done_round : Pool → (id : ℕ) → (stop : Bool) → Outcome (Round Bool)
unfolding ref
startup_done_round p id stop = ref p id >>= λ t. require t.synch_startup >>= λ _.
    change_thread p id (λ t. record t { startup_done = true }) >>= λ done.
    (if t.stop_flag || stop
      then change_thread done id (λ t. record t { synch_startup = false })
        >>= (λ p'. ok (returns true true p'))
      else if t.startup_ready_to_proceed
      then change_thread done id (λ t. record t { synch_startup = false })
        >>= (λ p'. ok (returns true false p'))
      else ok (waits true done))

-- `run_thread`
pub run_round : Pool → (id : ℕ) → (stop : Bool) → Outcome (Round (Unit {0}))
unfolding ref
run_round p id stop = require (ltb id p.threadpool_size) >>= λ _. ref p id >>= λ t.
    (if t.startup_done || (t.stop_flag || stop)
      then change_thread p id (λ t. record t { startup_ready_to_proceed = true })
        >>= (λ p'. ok (returns true tt p'))
      else ok (waits false p))

-- The wait of `start_thread_with_thread_id` for the start: `returns` with whether the thread was stopped.
pub started_round : Pool → (id : ℕ) → (stop : Bool) → Outcome (Round Bool)
unfolding ref
started_round p id stop = ref p id >>= λ t.
    (if t.stop_flag || (stop || t.started)
      then ok (returns true (t.stop_flag || stop) p)
      else ok (waits false p))

-- `stop_thread_without_wait`. It signals where the thread waits for a wake-up or is to tell its start.
pub stop_thread : Pool → (id : ℕ) → Outcome Pool
stop_thread p id = require (ltb id p.threadpool_size) >>= λ _.
    change_thread p id (λ t. record t { stop_flag = true })

-- The wait of `stop_thread_wait`, which joins the thread once it has stopped.
pub stop_wait_round : Pool → (id : ℕ) → Outcome (Round (Unit {0}))
unfolding ref
stop_wait_round p id = ref p id >>= λ t.
    (if t.stopped
      then join_thread p id >>= (λ p'. ok (returns false tt p'))
      else change_thread p id (λ t. record t { wait_for_stop = true })
        >>= (λ p'. ok (waits false p')))

-- `thread_wait`: before the first wait, and behind each.
pub begin_wait : Pool → (id : ℕ) → Outcome Pool
begin_wait p id = change_thread p id (λ t. record t { wait_wakeup = true })

pub wait_round : Pool → (id : ℕ) → (stop : Bool) → Outcome (Round (Unit {0}))
unfolding ref
wait_round p id stop = ref p id >>= λ t.
    (if t.wait_wakeup && (not t.stop_flag && not stop)
      then ok (waits false p)
      else ok (returns false tt p))

-- `thread_wake`, which signals.
pub thread_wake : Pool → (id : ℕ) → Outcome Pool
unfolding ref
thread_wake p id = ref p id >>= λ t.
    require t.wait_wakeup >>= λ _. change_thread p id (λ t. record t { wait_wakeup = false })

-- `thread_set_mutex` and `thread_set_cond`
pub thread_set_mutex : Pool → (id mutex : ℕ) → Outcome Pool
thread_set_mutex p id mutex =
    change_thread p id (λ t. record t { mutex = mutex; use_external_mutex = true })

pub thread_set_cond : Pool → (id cond : ℕ) → Outcome Pool
thread_set_cond p id cond =
    change_thread p id (λ t. record t { cond = cond; use_external_cond = true })

-- `ts_get_stop_flag`
pub ts_get_stop_flag : Pool → (id : ℕ) → (stop : Bool) → Outcome (Bool × Pool)
unfolding ref
ts_get_stop_flag p id stop = ref p id >>= λ t.
    (if stop
      then change_thread p id (λ t. record t { stop_flag = true }) >>= (λ p'. ok (true, p'))
      else ok (t.stop_flag, p))

-- `tp_get_stop_flag`
pub tp_get_stop_flag : Pool → (stop : Bool) → Bool
tp_get_stop_flag p stop = stop || p.stop_flag

-- `set_stop_flag`, from the thread object `i` on, which signals where the thread waits for a wake-up.
pub stop_threads : Pool → (rounds i : ℕ) → Outcome Pool
unfolding ref
stop_threads p zero i = ok p
stop_threads p (suc rounds) i = ref p i >>= λ t.
    (if t.mutex == 0 then ok p else change_thread p i (λ t. record t { stop_flag = true }))
    >>= λ p'. stop_threads p' rounds (suc i)

pub set_stop_flag : Pool → Outcome Pool
set_stop_flag p = stop_threads (record p { stop_flag = true }) p.threadpool_size 0

-- The loop of `stop_threadpool` with at most `sleeps` waits of a second, in which the other threads do `meanwhile`.
pub stop_loop : (sleeps fuel : ℕ) → (meanwhile : Pool → Pool) → Pool → Outcome (Option Pool)
stop_loop zero fuel meanwhile p = check_threads fuel p
stop_loop (suc sleeps) fuel meanwhile p = check_threads fuel p >>= λ checked. elim checked [
  | none ↦ ok none
  | some p' ↦
      let rest = stop_loop sleeps fuel meanwhile (meanwhile p') in
      if p'.num_free_threads == p'.threadpool_size then ok (some p') else rest
]

-- `stop_threadpool` with the mutexes and conditions that it destroys. There are no more stopped threads than threads, so
-- the fuel for `check_threads` is enough.
pub stop_threadpool : (meanwhile : Pool → Pool) → Pool → Outcome (Option (List ℕ))
stop_threadpool meanwhile p = set_stop_flag p >>= λ flagged.
    stop_loop 31 (suc p.threadpool_size) meanwhile flagged >>= λ stopped. elim stopped [
      | none ↦ ok none
      | some p' ↦ free_threadpool p' >>= (λ locks. ok (some locks))
    ]

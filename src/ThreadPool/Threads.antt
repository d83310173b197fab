-- ===== src/ThreadPool/Threads.antt =====
-- util/ic_threadpool.c: the creation of a pool, and a thread from its start to its end. Where a routine waits for a
-- condition, `meanwhile` is what the other threads have done with the pool when the wait ends.
mod Start
mod Create
mod Cycle
mod Tests
use iclaustron.Base.{
  ℕ, zero, suc, ◌+◌, ◌*◌, ◌%◌, ◌^◌, undefined, Bool, true, false, not, ◌&&◌, ◌||◌, Option, none,
  some, List, [], ◌∷◌, ◌++◌, Outcome, ok, ◌>>=◌, ◌>>◌, require, ltb, ◌==◌, if◌then◌else◌,
}
use iclaustron.ThreadPool.{
  Thread, Pool, no_id, ref, change_thread, get_free_thread_id, free_thread_id, free_thread,
  insert_stopped_list, join_thread,
}

abbrev pub threadpool_full : ℕ
threadpool_full = 7037

abbrev pub start_thread_failed : ℕ
start_thread_failed = 7038

-- A zeroed thread object with its own mutex and condition.
abbrev pub new_thread : (mutex cond : ℕ) → Thread
new_thread mutex cond = record {
  inited = false;
  object = 0;
  thread = 0;
  stop_flag = false;
  started = false;
  startup_done = false;
  startup_ready_to_proceed = false;
  synch_startup = false;
  wait_wakeup = false;
  stopped = false;
  wait_for_stop = false;
  free = false;
  next_thread_id = 0;
  prev_thread_id = 0;
  mutex = mutex;
  internal_mutex = mutex;
  cond = cond;
  internal_cond = cond;
  use_external_mutex = false;
  use_external_cond = false;
}

-- The pool before the loop over its thread objects.
pub empty_pool : (pool_size : ℕ) → Pool
empty_pool pool_size = record {
  threads = λ i. new_thread 0 0;
  made = 0;
  threadpool_size = pool_size;
  stop_flag = false;
  num_free_threads = 0;
  first_free_thread_id = no_id;
  first_stopped_thread_id = no_id;
  num_stopped_threads = 0;
  num_thread_allocations = 0;
}

-- The mutex or the condition that is destroyed, if there is one.
abbrev pub released : ℕ → List ℕ
released zero = []
released (suc n) = suc n ∷ []

-- `free_threadpool`: the loop over the thread objects with the mutexes and conditions that it destroys.
pub free_threads : Pool → (rounds i : ℕ) → Outcome (List ℕ)
free_threads p zero i = ok []
free_threads p (suc rounds) i = ref p i >>= λ t. free_threads p rounds (suc i) >>= λ rest.
    ok (released t.internal_mutex ++ (released t.internal_cond ++ rest))

pub free_threadpool : Pool → Outcome (List ℕ)
free_threadpool p = free_threads p p.threadpool_size 0

-- One thread object more.
pub add_thread : Pool → (mutex cond : ℕ) → Pool
add_thread p mutex cond = record p {
  threads = λ i. if i == p.made then new_thread mutex cond else p.threads i;
  made = suc p.made;
}

-- The loop of `ic_create_threadpool`; `mutexes` and `conds` answer for `ic_mutex_create` and `ic_cond_create`. A thread
-- object that does not end within the `area` bytes got for them is written behind them.
pub create_loop :
    (area thread_state_size : ℕ)
    → (mutexes conds : ℕ → ℕ) → (rounds : ℕ) → Pool
    → Outcome (Option Pool)
unfolding add_thread
create_loop area thread_state_size mutexes conds zero p = ok (some p)
create_loop area thread_state_size mutexes conds (suc rounds) p =
    let added = add_thread p (mutexes p.made) (conds p.made) in
    let next =
      free_thread added p.made >>= create_loop area thread_state_size mutexes conds rounds in
    if ltb area (suc p.made * thread_state_size)
    then undefined
    else if (mutexes p.made == 0) || (conds p.made == 0)
    then free_threadpool added >>= (λ _. ok none)
    else next

-- `ic_create_threadpool` for thread objects of a size in bytes; `granted` tells whether the memory and the locks of the
-- pool itself were got, before which there is no thread object to release. The memory for the objects is a product
-- of two numbers of 32 bits.
pub create_threadpool :
    (granted : Bool)
    → (thread_state_size : ℕ) → (mutexes conds : ℕ → ℕ) → (pool_size : ℕ) → Outcome (Option Pool)
unfolding empty_pool
create_threadpool granted thread_state_size mutexes conds pool_size =
    if granted
    then create_loop ((pool_size * thread_state_size) % 2 ^ 32) thread_state_size mutexes conds
        pool_size (empty_pool pool_size)
    else ok none

-- The state of a thread that is to be started.
pub prepare_start : Pool → (id object : ℕ) → (synch : Bool) → Outcome Pool
unfolding ref
prepare_start p id object synch = require (ltb id p.threadpool_size) >>= λ _. ref p id >>= λ t.
    require (not (t.mutex == 0) && not (t.cond == 0)) >>= λ _. require (not t.free) >>= λ _.
    change_thread p id (λ t. record t { object = object; synch_startup = synch })

-- Behind the wait for the start: a thread that was stopped in the meantime is joined.
pub finish_start : Pool → (id : ℕ) → (stop : Bool) → Outcome (ℕ × Pool)
unfolding ref
finish_start p id stop =
    let joined = join_thread p id >>= (λ p'. ok (start_thread_failed, p')) in
    ref p id >>= λ t. if t.stop_flag || stop then joined else ok (0, p)

-- `start_thread_with_thread_id`: `created` is the thread from `g_thread_try_new`, `stop` what `ic_get_stop_flag` returns.
pub start_thread_with_thread_id :
    Pool
    → (id object : ℕ) → (synch : Bool) → (created : ℕ) → (meanwhile : Pool → Pool) → (stop : Bool)
    → Outcome (ℕ × Pool)
start_thread_with_thread_id p id object synch zero meanwhile stop =
    prepare_start p id object synch >>= λ prepared.
    free_thread prepared id >>= λ p'. ok (start_thread_failed, p')
start_thread_with_thread_id p id object synch (suc n) meanwhile stop =
    prepare_start p id object synch >>= λ prepared.
    change_thread prepared id (λ t. record t { thread = suc n }) >>= λ p'.
    if synch then finish_start (meanwhile p') id stop else ok (0, p')

-- Where the start of a thread has failed, `start_thread` gives its id back.
pub give_back : (id : ℕ) → ℕ × Pool → Outcome (ℕ × Option ℕ × Pool)
give_back id (zero, p) = ok (0, some id, p)
give_back id (suc e, p) = free_thread_id p id >>= λ p'. ok (suc e, none, p')

-- `start_thread`: the return value, the id of the thread and the pool.
pub start_thread :
    Pool
    → (object : ℕ) → (synch : Bool) → (created : ℕ) → (meanwhile : Pool → Pool) → (stop : Bool)
    → Outcome (ℕ × Option ℕ × Pool)
start_thread p object synch created meanwhile stop = get_free_thread_id p >>= λ (answer, p').
    elim answer [
      | none ↦ ok (threadpool_full, none, p')
      | some id ↦
          start_thread_with_thread_id p' id object synch created meanwhile stop >>= give_back id
    ]

-- `thread_started`. Its signal ends the wait of the starter, for which `meanwhile` stands.
pub thread_started : Pool → (id : ℕ) → Outcome Pool
thread_started p id = change_thread p id (λ t. record t { started = true })

-- `thread_stops`, which signals where the thread was to tell its start; the flags are what a wait then sees.
pub thread_stops : Pool → (id : ℕ) → Outcome Pool
unfolding ref
thread_stops p id = insert_stopped_list p id >>= λ listed. ref listed id >>= λ t.
    require t.started >>= λ _.
    change_thread listed id (λ t. record t { started = false; synch_startup = false })

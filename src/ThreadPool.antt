-- ===== src/ThreadPool.antt =====
-- util/ic_threadpool.c and util/ic_threadpool_int.h: the thread objects of a pool, its list of free ones and its list
-- of stopped ones. A routine between the lock and the unlock of a mutex is one function. Pointers are numbers, NULL
-- is 0, and the array `thread_state` is a function with the number of its pointers that are set.
pub mod Lists
pub mod Threads
pub mod Signals
mod Free
mod Links
mod Relink
mod Remove
mod Join
mod Stopped
use iclaustron.Base.{
  ℕ, zero, suc, ◌+◌, ◌-◌, ◌%◌, ◌^◌, Bool, true, false, not, Option, none, some, Outcome, ok,
  undefined, ◌>>=◌, require, ltb, ◌==◌, if◌then◌else◌,
}

-- `IC_MAX_UINT32`, the end of a list.
abbrev pub no_id : ℕ
no_id = 4294967295

pub record Thread : Type 0 where
  pub inited : Bool
  pub object : ℕ
  pub thread : ℕ
  pub stop_flag : Bool
  pub started : Bool
  pub startup_done : Bool
  pub startup_ready_to_proceed : Bool
  pub synch_startup : Bool
  pub wait_wakeup : Bool
  pub stopped : Bool
  pub wait_for_stop : Bool
  pub free : Bool
  pub next_thread_id : ℕ
  pub prev_thread_id : ℕ
  pub mutex : ℕ
  pub internal_mutex : ℕ
  pub cond : ℕ
  pub internal_cond : ℕ
  pub use_external_mutex : Bool
  pub use_external_cond : Bool

-- `threads` is `thread_state`, whose first `made` pointers are set.
pub record Pool : Type 0 where
  pub threads : ℕ → Thread
  pub made : ℕ
  pub threadpool_size : ℕ
  pub stop_flag : Bool
  pub num_free_threads : ℕ
  pub first_free_thread_id : ℕ
  pub first_stopped_thread_id : ℕ
  pub num_stopped_threads : ℕ
  pub num_thread_allocations : ℕ

-- `n++` and `n--` on 32 bits.
abbrev pub inc32 : ℕ → ℕ
inc32 n = (n + 1) % 2 ^ 32

abbrev pub dec32 : ℕ → ℕ
dec32 n = (n + (2 ^ 32 - 1)) % 2 ^ 32

-- `tp_state->thread_state[id]`, which is undefined through a pointer that is not set.
pub ref : Pool → (id : ℕ) → Outcome Thread
ref p id = if ltb id p.made then ok (p.threads id) else undefined

-- The thread objects with one of them changed.
abbrev pub put : (ℕ → Thread) → (id : ℕ) → Thread → ℕ → Thread
put threads id t i = if i == id then t else threads i

pub set_thread : Pool → (id : ℕ) → Thread → Pool
set_thread p id t = record p { threads = put p.threads id t }

pub change_thread : Pool → (id : ℕ) → (Thread → Thread) → Outcome Pool
unfolding ref set_thread
change_thread p id f = ref p id >>= λ t. ok (set_thread p id (f t))

-- `get_free_thread_id`; `none` is IC_ERROR_THREADPOOL_FULL.
pub get_free_thread_id : Pool → Outcome (Option ℕ × Pool)
unfolding ref set_thread
get_free_thread_id p =
    if p.first_free_thread_id == no_id
    then ok (none, p)
    else ref p p.first_free_thread_id >>= λ t. require t.free >>= λ _. ok (
      some p.first_free_thread_id,
      record (set_thread p p.first_free_thread_id
          (record t { next_thread_id = no_id; free = false })) {
            first_free_thread_id = t.next_thread_id;
            num_free_threads = dec32 p.num_free_threads;
            num_thread_allocations = (p.num_thread_allocations + 1) % 2 ^ 64;
          },
    )

-- The thread object becomes the first of the free list.
pub link_free : Pool → (id : ℕ) → Outcome Pool
unfolding ref set_thread
link_free p id = ref p id >>= λ t. require (not t.free) >>= λ _.
    ok
      (record (set_thread p id
        (record t { next_thread_id = p.first_free_thread_id; free = true })) {
          first_free_thread_id = id;
          num_free_threads = inc32 p.num_free_threads;
        })

-- The mutex and the condition are again those of the thread object.
pub use_internal : Thread → Thread
use_internal t = record t {
  mutex = if t.use_external_mutex then t.internal_mutex else t.mutex;
  use_external_mutex = false;
  cond = if t.use_external_cond then t.internal_cond else t.cond;
  use_external_cond = false;
}

pub free_thread_id : Pool → (id : ℕ) → Outcome Pool
unfolding link_free change_thread
free_thread_id p id = link_free p id >>= λ p'. change_thread p' id use_internal

-- The state variables of a thread object that no thread uses.
pub reset_flags : Thread → Thread
reset_flags t = record t {
  started = false;
  startup_done = false;
  startup_ready_to_proceed = false;
  synch_startup = false;
  stop_flag = false;
}

pub free_thread : Pool → (id : ℕ) → Outcome Pool
unfolding ref reset_flags use_internal
free_thread p id =
    change_thread p id (λ t. record t { inited = true; thread = 0; object = 0 }) >>= λ unused.
    link_free unused id >>= λ linked. ref linked id >>= λ t. require (not t.synch_startup) >>= λ _.
    change_thread linked id reset_flags >>= λ reset. change_thread reset id use_internal

-- The link from the thread at `id`, where there is one.
pub set_prev : Pool → (id prev : ℕ) → Outcome Pool
unfolding change_thread
set_prev p id prev =
    if id == no_id then ok p else change_thread p id (λ t. record t { prev_thread_id = prev })

pub set_next : Pool → (id next : ℕ) → Outcome Pool
unfolding change_thread
set_next p id next =
    if id == no_id then ok p else change_thread p id (λ t. record t { next_thread_id = next })

pub insert_stopped_list : Pool → (id : ℕ) → Outcome Pool
unfolding ref set_thread
insert_stopped_list p id = set_prev p p.first_stopped_thread_id id >>= λ p'. ref p' id >>= λ t.
    require (not t.stopped) >>= λ _.
    ok
      (record (set_thread p' id (record t {
        next_thread_id = p.first_stopped_thread_id;
        prev_thread_id = no_id;
        stopped = true;
        wait_for_stop = false;
      })) { first_stopped_thread_id = id; num_stopped_threads = inc32 p.num_stopped_threads })

-- The list without the thread, whose own links stay.
pub unlink_stopped : Pool → (prev next : ℕ) → Outcome Pool
unlink_stopped p prev next =
    if prev == no_id
    then set_prev (record p { first_stopped_thread_id = next }) next prev
    else set_next p prev next >>= λ p'. set_prev p' next prev

pub remove_stopped_list : Pool → (id : ℕ) → Outcome Pool
unfolding ref set_thread
remove_stopped_list p id = ref p id >>= λ t.
    unlink_stopped p t.prev_thread_id t.next_thread_id >>= λ p'. ref p' id >>= λ t'.
    require t'.stopped >>= λ _. ok (record (set_thread p' id (record t' { stopped = false })) {
      num_stopped_threads = dec32 p.num_stopped_threads;
    })

-- `internal_join_thread`, when `g_thread_join` has returned.
pub join_thread : Pool → (id : ℕ) → Outcome Pool
join_thread p id =
    require (ltb id p.threadpool_size) >>= λ _. remove_stopped_list p id >>= λ p'. free_thread p' id

-- `check_threads` on fuel, one round for each stopped thread and one for the end.
pub check_threads : (fuel : ℕ) → Pool → Outcome (Option Pool)
unfolding ref
check_threads zero p = ok none
check_threads (suc fuel) p =
    let joined = join_thread p p.first_stopped_thread_id >>= check_threads fuel in
    if p.first_stopped_thread_id == no_id
    then ok (some p)
    else ref p p.first_stopped_thread_id >>= λ t. require t.stopped >>= λ _. joined

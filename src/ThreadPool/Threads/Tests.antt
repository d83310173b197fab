-- ===== src/ThreadPool/Threads/Tests.antt =====
-- Pools of threads at concrete values.
use iclaustron.Base.{ℕ, zero, suc, ◌<◌, ◌≡◌, refl, Bool, true, false, some, [], ◌∷◌, arith, Ends}
use iclaustron.Base.Members.{has}
use iclaustron.ThreadPool.{
  Thread, Pool, no_id, get_free_thread_id, remove_stopped_list, check_threads,
}
use iclaustron.ThreadPool.Threads.{new_thread, create_threadpool}
use iclaustron.ThreadPool.Threads.Create.{Created, create_threadpool-Created}
use iclaustron.ThreadPool.Threads.Start.{locked}
use iclaustron.ThreadPool.Threads.Cycle.{cycle, cycle-free}
use iclaustron.ThreadPool.Lists.{IsPool}
use iclaustron.ThreadPool.Free.{Handed, get_free_thread_id_lem}
use iclaustron.ThreadPool.Remove.{remove_stopped_list_lem}
use iclaustron.ThreadPool.Join.{check_threads_lem}

abbrev thread_at : (free stopped : Bool) → (next prev : ℕ) → Thread
thread_at free stopped next prev = record (new_thread 5 6) {
  free = free;
  stopped = stopped;
  next_thread_id = next;
  prev_thread_id = prev;
}

-- Thread 0 is free; threads 2 and 1 have stopped.
abbrev three_threads : ℕ → Thread
three_threads zero = thread_at true false no_id no_id
three_threads (suc zero) = thread_at false true no_id 2
three_threads (suc (suc n)) = thread_at false true 1 no_id

abbrev three : Pool
three = record {
  threads = three_threads;
  made = 3;
  threadpool_size = 3;
  stop_flag = false;
  num_free_threads = 1;
  first_free_thread_id = 0;
  first_stopped_thread_id = 2;
  num_stopped_threads = 2;
  num_thread_allocations = 9;
}

three_free : (i : ℕ) → i < 3 → (three.threads i).free ≡ has i (0 ∷ [])
three_free zero below = refl
three_free (suc zero) below = refl
three_free (suc (suc zero)) below = refl
three_free (suc (suc (suc n))) below = absurd (omega arith)

three_stopped : (i : ℕ) → i < 3 → (three.threads i).stopped ≡ has i (2 ∷ 1 ∷ [])
three_stopped zero below = refl
three_stopped (suc zero) below = refl
three_stopped (suc (suc zero)) below = refl
three_stopped (suc (suc (suc n))) below = absurd (omega arith)

three_apart : (i : ℕ) → has i (0 ∷ []) ≡ true → has i (2 ∷ 1 ∷ []) ≡ false
three_apart zero i = refl
three_apart (suc n) i = ground arith

three_quiet : (i : ℕ) → has i (2 ∷ 1 ∷ []) ≡ true → (three.threads i).synch_startup ≡ false
three_quiet zero i = refl
three_quiet (suc zero) i = refl
three_quiet (suc (suc n)) i = refl

three-IsPool : IsPool three (0 ∷ []) (2 ∷ 1 ∷ [])
three-IsPool = record {
  made = omega arith;
  small = omega arith;
  frees = record {
    chain = (refl, refl);
    ids = (omega arith, tt);
    once = (refl, tt);
    flags = three_free;
    number = refl;
  };
  stops = record {
    chain = (refl, refl, (refl, refl, refl));
    ids = (omega arith, (omega arith, tt));
    once = (refl, (refl, tt));
    flags = three_stopped;
    number = refl;
  };
  apart = three_apart;
}

get_free_thread_id_lem_example :
    Ends (get_free_thread_id three) (Handed three (0 ∷ []) (2 ∷ 1 ∷ []))
get_free_thread_id_lem_example = get_free_thread_id_lem three (0 ∷ []) (2 ∷ 1 ∷ []) three-IsPool

remove_stopped_list_lem_example : Ends (remove_stopped_list three 1) λ p'.
    IsPool p' (0 ∷ []) (2 ∷ [])
    × (p'.made ≡ 3)
    × (p'.threadpool_size ≡ 3)
    × ((a : ℕ) → (p'.threads a).synch_startup ≡ (three.threads a).synch_startup)
remove_stopped_list_lem_example = remove_stopped_list_lem three (0 ∷ []) (2 ∷ []) 1 [] three-IsPool

check_threads_lem_example :
    Ends (check_threads 3 three) λ r. (p' : Pool) × (r ≡ some p') × IsPool p' (1 ∷ 2 ∷ 0 ∷ []) []
check_threads_lem_example =
    check_threads_lem 3 three (0 ∷ []) (2 ∷ 1 ∷ []) three-IsPool three_quiet (omega arith)

create_threadpool-Created_example :
    Ends (create_threadpool true 400 (λ i. 1) (λ i. 2) 3) (Created 3)
create_threadpool-Created_example =
    create_threadpool-Created 400 (λ i. 1) (λ i. 2) 3 (omega arith) (omega arith) (λ i below. refl)

-- One thread, which is free.
abbrev one : Pool
one = record {
  threads = λ i. thread_at true false no_id no_id;
  made = 1;
  threadpool_size = 1;
  stop_flag = false;
  num_free_threads = 1;
  first_free_thread_id = 0;
  first_stopped_thread_id = no_id;
  num_stopped_threads = 0;
  num_thread_allocations = 0;
}

one_free : (i : ℕ) → i < 1 → (one.threads i).free ≡ has i (0 ∷ [])
one_free zero below = refl
one_free (suc n) below = absurd (omega arith)

one-IsPool : IsPool one (0 ∷ []) []
one-IsPool = record {
  made = omega arith;
  small = omega arith;
  frees = record {
    chain = (refl, refl);
    ids = (omega arith, tt);
    once = (refl, tt);
    flags = one_free;
    number = refl;
  };
  stops = record { chain = refl; ids = tt; once = tt; flags = λ i below. refl; number = refl };
  apart = λ i in_list. refl;
}

one-locked : locked one 0 ≡ true
unfolding locked
one-locked = refl

cycle-free_example :
    Ends (cycle 2 one 8 (suc 40)) λ r. (p' : Pool) × (r ≡ some p') × IsPool p' (0 ∷ []) []
cycle-free_example = cycle-free 2 one 0 [] 8 40 one-IsPool one-locked refl (omega arith)

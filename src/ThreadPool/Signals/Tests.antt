-- ===== src/ThreadPool/Signals/Tests.antt =====
-- The handshake at concrete values.
use iclaustron.Base.{refl, true, false, [], ◌∷◌, Ends, arith}
use iclaustron.ThreadPool.{Pool, no_id}
use iclaustron.ThreadPool.Threads.{new_thread}
use iclaustron.ThreadPool.Lists.{IsPool}
use iclaustron.ThreadPool.Signals.Handshake.{
  running, At, starter_turn, thread_turn, thread_wakes, take_turns,
}
use iclaustron.ThreadPool.Signals.Agreement.{Agreed, handshake_lem}

-- One thread, which waits for its start.
abbrev starting : Pool
starting = record {
  threads =
      λ i. record (new_thread 5 6) { started = true; synch_startup = true; next_thread_id = no_id };
  made = 1;
  threadpool_size = 1;
  stop_flag = false;
  num_free_threads = 0;
  first_free_thread_id = no_id;
  first_stopped_thread_id = no_id;
  num_stopped_threads = 0;
  num_thread_allocations = 1;
}

starting-IsPool : IsPool starting [] []
starting-IsPool = record {
  made = omega arith;
  small = omega arith;
  frees = record { chain = refl; ids = tt; once = tt; flags = λ i below. refl; number = refl };
  stops = record { chain = refl; ids = tt; once = tt; flags = λ i below. refl; number = refl };
  apart = λ i in_list. refl;
}

starting-At : At [] [] 0 false false true starting
starting-At = record {
  valid = starting-IsPool;
  inside = omega arith;
  done_flag = refl;
  ready_flag = refl;
  synch_flag = refl;
  alive = refl;
}

-- The starter sleeps before the thread has told that its start is done.
handshake_lem_example :
    Ends
      (take_turns 0
        (starter_turn ∷ thread_turn ∷ thread_wakes ∷ thread_turn ∷ starter_turn ∷ thread_turn ∷ [])
        (record { pool = starting; starter = running; thread = running }))
      (Agreed [] [] 0)
handshake_lem_example =
    handshake_lem [] [] 0 starting (starter_turn ∷ thread_turn ∷ thread_wakes ∷ []) starting-At

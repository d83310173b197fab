-- ===== src/ThreadPool/Signals/Handshake.antt =====
-- The handshake between a thread that has started and the thread that has started it: `thread_startup_done` and
-- `run_thread` as they take turns. A signal wakes the other one if it is asleep, and is lost if it is not.
use iclaustron.Base.{
  ℕ, ◌<◌, ◌≡◌, refl, Bool, true, false, List, [], ◌∷◌, ◌==◌, ltb, arith, ap, ◌∙◌, Outcome, ok,
  ◌>>=◌,
}
use iclaustron.ThreadPool.{Thread, Pool, change_thread}
use iclaustron.ThreadPool.Lists.{IsPool, ref-thread}
use iclaustron.ThreadPool.Free.{changed, change_thread-changed, changed-IsPool}
use iclaustron.ThreadPool.Signals.{Round, startup_done_round, run_round}

-- What a party of the handshake does: it can run, it sleeps in `ic_cond_wait`, or its routine has returned.
pub data Status : Type 0 where
  running : Status
  asleep : Status
  gone : Status

pub record System : Type 0 where
  pub pool : Pool
  pub starter : Status
  pub thread : Status

-- The other party behind a round.
unfoldable pub woken : (signals : Bool) → Status → Status
woken true asleep = running
woken true running = running
woken true gone = gone
woken false status = status

unfoldable pub after_starter : System → Round (Unit {0}) → System
unfolding woken
after_starter s (Round.waits signals p) = record {
  pool = p;
  starter = asleep;
  thread = woken signals s.thread;
}
after_starter s (Round.returns signals a p) = record {
  pool = p;
  starter = gone;
  thread = woken signals s.thread;
}

unfoldable pub after_thread : System → Round Bool → System
unfolding woken
after_thread s (Round.waits signals p) = record {
  pool = p;
  starter = woken signals s.starter;
  thread = asleep;
}
after_thread s (Round.returns signals a p) = record {
  pool = p;
  starter = woken signals s.starter;
  thread = gone;
}

-- A party that can run does a round.
unfoldable pub starter_moves : (id : ℕ) → Status → System → Outcome System
unfolding after_starter
starter_moves id running s = run_round s.pool id false >>= λ r. ok (after_starter s r)
starter_moves id asleep s = ok s
starter_moves id gone s = ok s

unfoldable pub thread_moves : (id : ℕ) → Status → System → Outcome System
unfolding after_thread
thread_moves id running s = startup_done_round s.pool id false >>= λ r. ok (after_thread s r)
thread_moves id asleep s = ok s
thread_moves id gone s = ok s

-- Who takes a turn. A party that sleeps may wake up without a signal.
pub data Turn : Type 0 where
  starter_turn : Turn
  thread_turn : Turn
  starter_wakes : Turn
  thread_wakes : Turn

unfoldable pub take_turn : (id : ℕ) → Turn → System → Outcome System
unfolding starter_moves thread_moves woken
take_turn id starter_turn s = starter_moves id s.starter s
take_turn id thread_turn s = thread_moves id s.thread s
take_turn id starter_wakes s = ok (record s { starter = woken true s.starter })
take_turn id thread_wakes s = ok (record s { thread = woken true s.thread })

unfoldable pub take_turns : (id : ℕ) → List Turn → System → Outcome System
unfolding take_turn
take_turns id [] s = ok s
take_turns id (turn ∷ turns) s = take_turn id turn s >>= take_turns id turns

abbrev pub done : Thread → Thread
done t = record t { startup_done = true }

abbrev pub ready : Thread → Thread
ready t = record t { startup_ready_to_proceed = true }

abbrev pub calm : Thread → Thread
calm t = record t { synch_startup = false }

changed_field {ℓ} :
    {A : Type ℓ} (f : Thread → A) (p : Pool) (id : ℕ) (g : Thread → Thread)
    → f ((changed p id g).threads id) ≡ f (g (p.threads id))
changed_field f p id g = let here : (id == id) ≡ true = ground arith in rw here refl

module _ (free stopped : List ℕ) (id : ℕ) where
  -- A valid pool with the flags of the thread, which is not told to stop.
  pub record At (told let_go synch : Bool) (p : Pool) : Type 0 where
    pub valid : IsPool p free stopped
    pub inside : id < p.made
    pub done_flag : (p.threads id).startup_done ≡ told
    pub ready_flag : (p.threads id).startup_ready_to_proceed ≡ let_go
    pub synch_flag : (p.threads id).synch_startup ≡ synch
    pub alive : (p.threads id).stop_flag ≡ false

  pub done-At :
      {told let_go synch : Bool} (p : Pool)
      → At told let_go synch p
      → At true let_go synch (changed p id done)
  done-At p a = record {
    valid = changed-IsPool p free stopped id done a.valid refl refl refl refl;
    inside = a.inside;
    done_flag = changed_field (λ t. t.startup_done) p id done;
    ready_flag = changed_field (λ t. t.startup_ready_to_proceed) p id done ∙ a.ready_flag;
    synch_flag = changed_field (λ t. t.synch_startup) p id done ∙ a.synch_flag;
    alive = changed_field (λ t. t.stop_flag) p id done ∙ a.alive;
  }

  pub ready-At :
      {told let_go synch : Bool} (p : Pool)
      → At told let_go synch p
      → At told true synch (changed p id ready)
  ready-At p a = record {
    valid = changed-IsPool p free stopped id ready a.valid refl refl refl refl;
    inside = a.inside;
    done_flag = changed_field (λ t. t.startup_done) p id ready ∙ a.done_flag;
    ready_flag = changed_field (λ t. t.startup_ready_to_proceed) p id ready;
    synch_flag = changed_field (λ t. t.synch_startup) p id ready ∙ a.synch_flag;
    alive = changed_field (λ t. t.stop_flag) p id ready ∙ a.alive;
  }

  pub calm-At :
      {told let_go synch : Bool} (p : Pool)
      → At told let_go synch p
      → At told let_go false (changed p id calm)
  calm-At p a = record {
    valid = changed-IsPool p free stopped id calm a.valid refl refl refl refl;
    inside = a.inside;
    done_flag = changed_field (λ t. t.startup_done) p id calm ∙ a.done_flag;
    ready_flag = changed_field (λ t. t.startup_ready_to_proceed) p id calm ∙ a.ready_flag;
    synch_flag = changed_field (λ t. t.synch_startup) p id calm;
    alive = changed_field (λ t. t.stop_flag) p id calm ∙ a.alive;
  }

  pub run_round-waits :
      {let_go synch : Bool} (p : Pool)
      → At false let_go synch p
      → run_round p id false ≡ ok (Round.waits false p)
  unfolding run_round
  run_round-waits p a =
      let below : ltb id p.threadpool_size ≡ true = ground (arith, a.inside, a.valid.made) in
      rw below (rw (ref-thread p id a.inside) (rw (a.done_flag) (rw (a.alive) refl)))

  pub run_round-returns :
      {let_go synch : Bool} (p : Pool)
      → At true let_go synch p
      → run_round p id false ≡ ok (Round.returns true tt (changed p id ready))
  unfolding run_round
  run_round-returns p a =
      let below : ltb id p.threadpool_size ≡ true = ground (arith, a.inside, a.valid.made) in
      let told : run_round p id false
          ≡ (change_thread p id ready >>= (λ p'. ok (Round.returns true tt p'))) =
        rw below (rw (ref-thread p id a.inside) (rw (a.done_flag) refl)) in
      told
      ∙ ap (λ r. r >>= (λ p'. ok (Round.returns true tt p')))
          (change_thread-changed p free stopped id ready a.valid a.inside)

  pub startup_done_round-waits :
      {told : Bool} (p : Pool)
      → At told false true p
      → startup_done_round p id false ≡ ok (Round.waits true (changed p id done))
  unfolding startup_done_round
  startup_done_round-waits p a =
      let goes_on : startup_done_round p id false
          ≡ (change_thread p id done >>= (λ p'. ok (Round.waits true p'))) =
        rw (ref-thread p id a.inside) (rw (a.synch_flag) (rw (a.alive) (rw (a.ready_flag) refl))) in
      goes_on
      ∙ ap (λ r. r >>= (λ p'. ok (Round.waits true p')))
          (change_thread-changed p free stopped id done a.valid a.inside)

  pub startup_done_round-returns :
      {told : Bool} (p : Pool)
      → At told true true p
      → startup_done_round p id false
        ≡ ok (Round.returns true false (changed (changed p id done) id calm))
  unfolding startup_done_round
  startup_done_round-returns p a =
      let goes_on : startup_done_round p id false ≡ (
          change_thread p id done
          >>= (λ q. change_thread q id calm >>= (λ p'. ok (Round.returns true false p')))) =
        rw (ref-thread p id a.inside) (rw (a.synch_flag) (rw (a.alive) (rw (a.ready_flag) refl))) in
      let told : At true true true (changed p id done) = done-At p a in
      goes_on
      ∙ ap (λ r. r >>= (λ q. change_thread q id calm >>= (λ p'. ok (Round.returns true false p'))))
          (change_thread-changed p free stopped id done a.valid a.inside)
      ∙ ap (λ r. r >>= (λ p'. ok (Round.returns true false p')))
          (change_thread-changed (changed p id done) free stopped id calm told.valid told.inside)

-- ===== src/ThreadPool/Signals/Agreement.antt =====
-- The phases of the handshake, whoever takes the turns, and its end.
use iclaustron.Base.{ℕ, ◌⊎◌, inl, inr, refl, true, false, List, [], ◌∷◌, ◌++◌, Outcome, Ends, ◌>>=◌}
use iclaustron.ThreadPool.{Pool}
use iclaustron.ThreadPool.Free.{changed}
use iclaustron.ThreadPool.Signals.Handshake.{
  Status, running, asleep, gone, System, woken, after_starter, after_thread, starter_moves,
  thread_moves, Turn, starter_turn, thread_turn, starter_wakes, thread_wakes, take_turn, take_turns,
  done, At, done-At, ready-At, calm-At, run_round-waits, run_round-returns,
  startup_done_round-waits, startup_done_round-returns,
}

Ends-then :
    {A B : Type 0} (m : Outcome A) (f : A → Outcome B) {P : A → Type 0} {Q : B → Type 0}
    → Ends m P
    → ((a : A) → P a → Ends (f a) Q)
    → Ends (m >>= f) Q
Ends-then m f (a, run, p) follow = rw run (follow a p)

-- A party that has not returned.
data Waits : Status → Type 0 where
  awake : Waits running
  sleeps : Waits asleep

module _ (free stopped : List ℕ) (id : ℕ) where
  -- The thread has not told that its start is done.
  data Begun : System → Type 0 where
    begun :
        {p : Pool} {st : Status}
        → At free stopped id false false true p
        → Waits st
        → Begun (record { pool = p; starter = st; thread = running })

  -- The thread has told it: the starter can run.
  data Told : System → Type 0 where
    told :
        {p : Pool} {st : Status}
        → At free stopped id true false true p
        → Waits st
        → Told (record { pool = p; starter = running; thread = st })

  -- The starter has let the thread go on: the thread can run.
  data LetGo : System → Type 0 where
    let_go :
        {p : Pool}
        → At free stopped id true true true p
        → LetGo (record { pool = p; starter = gone; thread = running })

  -- Both routines have returned, the pool is valid, and the thread is no longer one that waits for its start.
  pub data Agreed : System → Type 0 where
    agreed :
        {p : Pool}
        → At free stopped id true true false p
        → Agreed (record { pool = p; starter = gone; thread = gone })

  thread-Begun : (s : System) → Begun s → Ends (take_turn id thread_turn s) Told
  unfolding take_turn thread_moves after_thread woken
  thread-Begun s (begun {p} a awake) = (
    _,
    rw (startup_done_round-waits free stopped id p a) refl,
    told (done-At free stopped id p a) sleeps,
  )
  thread-Begun s (begun {p} a sleeps) = (
    _,
    rw (startup_done_round-waits free stopped id p a) refl,
    told (done-At free stopped id p a) sleeps,
  )

  thread-Told : (s : System) → Told s → Ends (take_turn id thread_turn s) Told
  unfolding take_turn thread_moves after_thread woken
  thread-Told s (told {p} a awake) = (
    _,
    rw (startup_done_round-waits free stopped id p a) refl,
    told (done-At free stopped id p a) sleeps,
  )
  thread-Told s (told {p} a sleeps) = (_, refl, told a sleeps)

  thread-LetGo : (s : System) → LetGo s → Ends (take_turn id thread_turn s) Agreed
  unfolding take_turn thread_moves after_thread woken
  thread-LetGo s (let_go {p} a) = (
    _,
    rw (startup_done_round-returns free stopped id p a) refl,
    agreed (calm-At free stopped id (changed p id done) (done-At free stopped id p a)),
  )

  starter-Begun : (s : System) → Begun s → Ends (take_turn id starter_turn s) Begun
  unfolding take_turn starter_moves after_starter woken
  starter-Begun s (begun {p} a awake) =
      (_, rw (run_round-waits free stopped id p a) refl, begun a sleeps)
  starter-Begun s (begun {p} a sleeps) = (_, refl, begun a sleeps)

  starter-Told : (s : System) → Told s → Ends (take_turn id starter_turn s) LetGo
  unfolding take_turn starter_moves after_starter woken
  starter-Told s (told {p} a awake) =
      (_, rw (run_round-returns free stopped id p a) refl, let_go (ready-At free stopped id p a))
  starter-Told s (told {p} a sleeps) =
      (_, rw (run_round-returns free stopped id p a) refl, let_go (ready-At free stopped id p a))

  turn-Agreed : (turn : Turn) (s : System) → Agreed s → Ends (take_turn id turn s) Agreed
  unfolding take_turn starter_moves thread_moves woken
  turn-Agreed starter_turn s (agreed a) = (_, refl, agreed a)
  turn-Agreed thread_turn s (agreed a) = (_, refl, agreed a)
  turn-Agreed starter_wakes s (agreed a) = (_, refl, agreed a)
  turn-Agreed thread_wakes s (agreed a) = (_, refl, agreed a)

  turn-LetGo :
      (turn : Turn) (s : System) → LetGo s → Ends (take_turn id turn s) (λ s'. LetGo s' ⊎ Agreed s')
  unfolding take_turn starter_moves woken
  turn-LetGo starter_turn s (let_go a) = (_, refl, inl (let_go a))
  turn-LetGo thread_turn s l = let (s', run, end) = thread-LetGo s l in (s', run, inr end)
  turn-LetGo starter_wakes s (let_go a) = (_, refl, inl (let_go a))
  turn-LetGo thread_wakes s (let_go a) = (_, refl, inl (let_go a))

  turn-Told :
      (turn : Turn) (s : System) → Told s → Ends (take_turn id turn s) (λ s'. Told s' ⊎ LetGo s')
  unfolding take_turn woken
  turn-Told starter_turn s t = let (s', run, next) = starter-Told s t in (s', run, inr next)
  turn-Told thread_turn s t = let (s', run, next) = thread-Told s t in (s', run, inl next)
  turn-Told starter_wakes s (told a w) = (_, refl, inl (told a w))
  turn-Told thread_wakes s (told a awake) = (_, refl, inl (told a awake))
  turn-Told thread_wakes s (told a sleeps) = (_, refl, inl (told a awake))

  turn-Begun :
      (turn : Turn) (s : System) → Begun s → Ends (take_turn id turn s) (λ s'. Begun s' ⊎ Told s')
  unfolding take_turn woken
  turn-Begun starter_turn s b = let (s', run, next) = starter-Begun s b in (s', run, inl next)
  turn-Begun thread_turn s b = let (s', run, next) = thread-Begun s b in (s', run, inr next)
  turn-Begun starter_wakes s (begun a awake) = (_, refl, inl (begun a awake))
  turn-Begun starter_wakes s (begun a sleeps) = (_, refl, inl (begun a awake))
  turn-Begun thread_wakes s (begun a w) = (_, refl, inl (begun a w))

  -- Each of the phases.
  data Phase (s : System) : Type 0 where
    in_begun : Begun s → Phase s
    in_told : Told s → Phase s
    in_let_go : LetGo s → Phase s
    in_agreed : Agreed s → Phase s

  turn-Phase : (turn : Turn) (s : System) → Phase s → Ends (take_turn id turn s) Phase
  turn-Phase turn s (in_begun b) =
      let (s', run, next) = turn-Begun turn s b in
      elim next [ inl p ↦ (s', run, in_begun p) | inr p ↦ (s', run, in_told p) ]
  turn-Phase turn s (in_told b) =
      let (s', run, next) = turn-Told turn s b in
      elim next [ inl p ↦ (s', run, in_told p) | inr p ↦ (s', run, in_let_go p) ]
  turn-Phase turn s (in_let_go b) =
      let (s', run, next) = turn-LetGo turn s b in
      elim next [ inl p ↦ (s', run, in_let_go p) | inr p ↦ (s', run, in_agreed p) ]
  turn-Phase turn s (in_agreed b) =
      let (s', run, p) = turn-Agreed turn s b in (s', run, in_agreed p)

  -- A turn of each that is needed.
  abbrev pub last_turns : List Turn
  last_turns = thread_turn ∷ starter_turn ∷ thread_turn ∷ []

  last_turns-Told :
      (s : System) → Told s → Ends (take_turns id (starter_turn ∷ thread_turn ∷ []) s) Agreed
  unfolding take_turns
  last_turns-Told s t =
      Ends-then (take_turn id starter_turn s) (take_turns id (thread_turn ∷ [])) (starter-Told s t)
        (λ s2 l.
          Ends-then (take_turn id thread_turn s2) (take_turns id []) (thread-LetGo s2 l)
            (λ s3 a. (s3, refl, a)))

  turns-Agreed : (turns : List Turn) (s : System) → Agreed s → Ends (take_turns id turns s) Agreed
  unfolding take_turns
  turns-Agreed [] s a = (s, refl, a)
  turns-Agreed (turn ∷ turns) s a =
      Ends-then (take_turn id turn s) (take_turns id turns) (turn-Agreed turn s a)
        (turns-Agreed turns)

  last_turns-Agreed : (s : System) → Phase s → Ends (take_turns id last_turns s) Agreed
  unfolding take_turns
  last_turns-Agreed s (in_begun b) =
      Ends-then (take_turn id thread_turn s) (take_turns id (starter_turn ∷ thread_turn ∷ []))
        (thread-Begun s b) last_turns-Told
  last_turns-Agreed s (in_told b) =
      Ends-then (take_turn id thread_turn s) (take_turns id (starter_turn ∷ thread_turn ∷ []))
        (thread-Told s b) last_turns-Told
  last_turns-Agreed s (in_let_go b) =
      Ends-then (take_turn id thread_turn s) (take_turns id (starter_turn ∷ thread_turn ∷ []))
        (thread-LetGo s b) (turns-Agreed (starter_turn ∷ thread_turn ∷ []))
  last_turns-Agreed s (in_agreed b) = turns-Agreed last_turns s b

  turns-Phase :
      (turns : List Turn) (s : System)
      → Phase s
      → Ends (take_turns id (turns ++ last_turns) s) Agreed
  unfolding take_turns
  turns-Phase [] s phase = last_turns-Agreed s phase
  turns-Phase (turn ∷ turns) s phase =
      Ends-then (take_turn id turn s) (take_turns id (turns ++ last_turns))
        (turn-Phase turn s phase) (turns-Phase turns)

  -- A thread that was started with a wait for its start and is not told to stop calls `thread_startup_done`, and its
  -- starter `run_thread`, in a valid pool. They take turns in any order, and may wake up without a signal. After any
  -- turns, one of the thread, one of the starter and one of the thread are enough: both routines have returned, since
  -- the signals have woken who slept, and the pool is valid.
  pub handshake_lem :
      (p : Pool) (turns : List Turn)
      → At free stopped id false false true p
      → Ends
          (take_turns id
            (turns ++ last_turns)
            (record { pool = p; starter = running; thread = running }))
          Agreed
  handshake_lem p turns start =
      turns-Phase turns (record { pool = p; starter = running; thread = running })
        (in_begun (begun start awake))

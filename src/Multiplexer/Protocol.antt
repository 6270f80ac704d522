-- ===== src/Multiplexer/Protocol.antt =====
-- multiplexer.go: a protocol for the order in which plugins are started, rolled and stopped.
use x_pipeline.Prelude.{
  ℕ, Bool, true, false, List, [], ◌∷◌, ◌++◌, Option, none, some, ◌>>=◌, length, ◌==◌, if◌then◌else◌,
  if_false, if_true, ==_refl, ◌≡◌, refl, ap, ◌∙◌, arith, append_assoc,
}
use x_pipeline.Multiplexer.Life.{
  LifeStep, start_producer, start_consumer, roll_consumer, roll_producer, stop_consumer,
  stop_producer, bind_log, log_to_stdout, sample, activate_fuses, wait_consumers, wait_producers,
  Turn, tick, signalled, signal_exit, signal_none, signal_roll, stopped, shutting_down, each,
  shutdown, main_loop, run_started, run, state_number,
}

-- How far the life of the plugins has come, with the plugins and the turns of the main loop that are
-- still to come.
pub data Phase : Type 0 where
  producers_start consumers_start consumers_stop producers_stop : List ℕ → Phase
  running : List Turn → Phase
  rolling_consumers rolling_producers : List Turn → List ℕ → Phase
  fuses_active consumers_closed all_closed : Phase

-- It is the turn of the first one.
abbrev take_turn : (List ℕ → Phase) → List ℕ → ℕ → Option Phase
take_turn phase [] p = none
take_turn phase (q ∷ qs) p = if p == q then some (phase qs) else none

-- The next turn of the main loop with a signal or a tick.
abbrev at_turn : List Turn → Phase
at_turn [] = running []
at_turn (tick ∷ turns) = running (tick ∷ turns)
at_turn (signalled signal_exit ∷ turns) = running (signalled signal_exit ∷ turns)
at_turn (signalled signal_roll ∷ turns) = running (signalled signal_roll ∷ turns)
at_turn (signalled signal_none ∷ turns) = at_turn turns

-- When all consumers have started, or all producers have rolled, it is the next turn of the main loop.
abbrev starting : List Turn → List ℕ → Phase
starting turns [] = at_turn turns
starting turns (c ∷ cs) = consumers_start (c ∷ cs)

abbrev rolling : List Turn → List ℕ → Phase
rolling turns [] = at_turn turns
rolling turns (p ∷ ps) = rolling_producers turns (p ∷ ps)

module _ (all_turns : List Turn) (consumers producers : List ℕ) where
  -- What may be done in a phase, and the phase behind it. Each loop over plugins has to treat all of
  -- them, in their order: all producers start, then all consumers; then each tick is one sample and each
  -- signal to roll one roll, of all consumers and then all producers, up to the signal to exit; then all
  -- consumers are stopped and waited for before all producers are.
  abbrev pub allow : Phase → LifeStep → Option Phase
  allow (producers_start ps) (start_producer p) = take_turn producers_start ps p
  allow (producers_start []) bind_log = some (starting all_turns consumers)
  allow (producers_start []) log_to_stdout = some (starting all_turns consumers)
  allow (consumers_start cs) (start_consumer c) = take_turn (starting all_turns) cs c
  allow (running (tick ∷ turns)) sample = some (at_turn turns)
  allow (running (signalled signal_roll ∷ turns)) (roll_consumer c) =
      take_turn (rolling_consumers turns) consumers c
  allow (rolling_consumers turns (d ∷ ds)) (roll_consumer c) =
      take_turn (rolling_consumers turns) (d ∷ ds) c
  allow (rolling_consumers turns []) (roll_producer p) = take_turn (rolling turns) producers p
  allow (rolling_producers turns ps) (roll_producer p) = take_turn (rolling turns) ps p
  allow (running (signalled signal_exit ∷ turns)) (stop_consumer c) =
      take_turn consumers_stop consumers c
  allow (consumers_stop cs) (stop_consumer c) = take_turn consumers_stop cs c
  allow (consumers_stop []) activate_fuses = some fuses_active
  allow fuses_active wait_consumers = some consumers_closed
  allow consumers_closed log_to_stdout = some (producers_stop producers)
  allow (producers_stop ps) (stop_producer p) = take_turn producers_stop ps p
  allow (producers_stop []) wait_producers = some all_closed
  allow phase act = none

  unfoldable pub follow_all : Phase → List LifeStep → Option Phase
  follow_all phase [] = some phase
  follow_all phase (act ∷ acts) = allow phase act >>= λ next. follow_all next acts

  -- A step that is allowed.
  follow_one :
      (phase next : Phase) (act : LifeStep) (acts : List LifeStep)
      → allow phase act ≡ some next
      → follow_all phase (act ∷ acts) ≡ follow_all next acts
  unfolding follow_all
  follow_one phase next act acts h =
      ap (λ (o : Option Phase). o >>= λ next_phase. follow_all next_phase acts) h

  -- A loop over plugins whose turn it is.
  follow_each :
      (act : ℕ → LifeStep) (phase : List ℕ → Phase) (ps : List ℕ) (acts : List LifeStep)
      → ((p : ℕ) (rest : List ℕ) → allow (phase (p ∷ rest)) (act p) ≡ some (phase rest))
      → follow_all (phase ps) (each act ps ++ acts) ≡ follow_all (phase []) acts
  unfolding each
  follow_each act phase [] acts h = refl
  follow_each act phase (p ∷ ps) acts h =
      follow_one (phase (p ∷ ps)) (phase ps) (act p) (each act ps ++ acts) (h p ps)
      ∙ follow_each act phase ps acts h

turn :
    (phase : List ℕ → Phase) (p : ℕ) (rest : List ℕ)
    → take_turn phase (p ∷ rest) p ≡ some (phase rest)
turn phase p rest = if_true (p == p) (some (phase rest)) none (==_refl p)

-- Is there a signal to exit?
abbrev pub exits : List Turn → Bool
exits [] = false
exits (tick ∷ turns) = exits turns
exits (signalled signal_exit ∷ turns) = true
exits (signalled signal_roll ∷ turns) = exits turns
exits (signalled signal_none ∷ turns) = exits turns

module _ (all_turns : List Turn) (c p : ℕ) (consumers producers : List ℕ) where
  abbrev cs : List ℕ
  cs = c ∷ consumers

  abbrev ps : List ℕ
  ps = p ∷ producers

  shutdown-closed :
      (turns : List Turn)
      → follow_all all_turns cs ps
          (running (signalled signal_exit ∷ turns))
          (shutdown shutting_down cs ps)
        ≡ some all_closed
  unfolding shutdown follow_all each state_number
  shutdown-closed turns =
      let stops = log_to_stdout ∷ (each stop_producer ps ++ wait_producers ∷ []) in
      ap
        (λ (acts : List LifeStep).
          follow_all all_turns cs ps (running (signalled signal_exit ∷ turns))
            (stop_consumer c ∷ acts))
        (append_assoc (each stop_consumer consumers) (activate_fuses ∷ wait_consumers ∷ []) stops)
      ∙ follow_one all_turns cs ps (running (signalled signal_exit ∷ turns))
          (consumers_stop consumers) (stop_consumer c)
          (each stop_consumer consumers ++ (activate_fuses ∷ wait_consumers ∷ stops))
          (turn consumers_stop c consumers)
      ∙ follow_each all_turns cs ps stop_consumer consumers_stop consumers
          (activate_fuses ∷ wait_consumers ∷ stops) (turn consumers_stop)
      ∙ follow_each all_turns cs ps stop_producer producers_stop ps (wait_producers ∷ [])
          (turn producers_stop)

  roll-running :
      (turns : List Turn) (acts : List LifeStep)
      → follow_all all_turns cs ps
          (running (signalled signal_roll ∷ turns))
          (each roll_consumer cs ++ (each roll_producer ps ++ acts))
        ≡ follow_all all_turns cs ps (at_turn turns) acts
  unfolding each
  roll-running turns acts =
      follow_one all_turns cs ps (running (signalled signal_roll ∷ turns))
        (rolling_consumers turns consumers) (roll_consumer c)
        (each roll_consumer consumers ++ (each roll_producer ps ++ acts))
        (turn (rolling_consumers turns) c consumers)
      ∙ follow_each all_turns cs ps roll_consumer (rolling_consumers turns) consumers
          (each roll_producer ps ++ acts) (turn (rolling_consumers turns))
      ∙ follow_one all_turns cs ps (rolling_consumers turns []) (rolling turns producers)
          (roll_producer p) (each roll_producer producers ++ acts)
          (turn (rolling turns) p producers)
      ∙ follow_each all_turns cs ps roll_producer (rolling turns) producers acts
          (turn (rolling turns))

  main_loop-closed :
      (turns : List Turn)
      → exits turns ≡ true
      → (follow_all all_turns cs ps (at_turn turns) (main_loop cs ps turns).0 ≡ some all_closed)
        × ((main_loop cs ps turns).1 ≡ stopped)
  unfolding main_loop follow_all
  main_loop-closed [] h = cc
  main_loop-closed (tick ∷ turns) h = main_loop-closed turns h
  main_loop-closed (signalled signal_exit ∷ turns) h = (shutdown-closed turns, refl)
  main_loop-closed (signalled signal_roll ∷ turns) h =
      let (closed, end) = main_loop-closed turns h in
      (roll-running turns (main_loop cs ps turns).0 ∙ closed, end)
  main_loop-closed (signalled signal_none ∷ turns) h = main_loop-closed turns h

  log_writer :
      (b : Bool) (acts : List LifeStep)
      → follow_all all_turns cs ps
          (producers_start [])
          ((if b then bind_log else log_to_stdout) ∷ acts)
        ≡ follow_all all_turns cs ps (starting all_turns cs) acts
  unfolding follow_all
  log_writer true acts = refl
  log_writer false acts = refl

  run_started-closed :
      (is_log_used : Bool)
      → exits all_turns ≡ true
      → (follow_all all_turns cs ps (producers_start ps) (run_started is_log_used cs ps all_turns).0
          ≡ some all_closed)
        × ((run_started is_log_used cs ps all_turns).1 ≡ stopped)
  unfolding run_started
  run_started-closed is_log_used h =
      let (closed, end) = main_loop-closed all_turns h in
      let rest = (main_loop cs ps all_turns).0 in
      (
        follow_each all_turns cs ps start_producer producers_start ps
              ((if is_log_used then bind_log else log_to_stdout) ∷ (each start_consumer cs ++ rest))
              (turn producers_start)
            ∙ log_writer is_log_used (each start_consumer cs ++ rest)
            ∙ follow_each all_turns cs ps start_consumer (starting all_turns) cs rest
                (turn (starting all_turns))
            ∙ closed,
        end,
      )

-- A run with consumers and producers and a signal to exit, whatever else it is told before, ends in the
-- state Stopped, and what it does follows the protocol: each producer is started, in order, and then each
-- consumer; each tick before the exit is one sample, and each signal to roll tells each consumer and then
-- each producer; at the end each consumer is stopped and the consumers have closed before each producer
-- is stopped and the producers have closed.
pub run-closed :
    (is_log_used : Bool) (c p : ℕ) (consumers producers : List ℕ) (turns : List Turn)
    → exits turns ≡ true
    → (follow_all turns
          (c ∷ consumers)
          (p ∷ producers)
          (producers_start (p ∷ producers))
          (run is_log_used (c ∷ consumers) (p ∷ producers) turns).0
        ≡ some all_closed)
      × ((run is_log_used (c ∷ consumers) (p ∷ producers) turns).1 ≡ stopped)
unfolding run
run-closed is_log_used c p consumers producers turns h =
    let started : run is_log_used (c ∷ consumers) (p ∷ producers) turns
        ≡ run_started is_log_used (c ∷ consumers) (p ∷ producers) turns =
      if_false (length (c ∷ consumers) == 0) _ _ (ground arith)
      ∙ if_false (length (p ∷ producers) == 0) _ _ (ground arith) in
    rw started (run_started-closed turns c p consumers producers is_log_used h)

-- ===== src/Multiplexer/Life.antt =====
-- multiplexer.go: run and shutdown, as the list of what they do with the plugins. Plugins are numbers.
-- What the select of the main loop finds in each turn is an argument; the values that are sampled on a
-- tick, the metrics, are left out.
use x_pipeline.Prelude.{ℕ, Bool, List, [], ◌∷◌, ◌++◌, leb, length, ◌==◌, if◌then◌else◌}

pub data LifeStep : Type 0 where
  start_producer start_consumer roll_consumer roll_producer stop_consumer stop_producer :
      ℕ → LifeStep
  bind_log log_to_stdout sample activate_fuses wait_consumers wait_producers : LifeStep

pub data Signal : Type 0 where
  signal_none signal_exit signal_roll : Signal

-- A turn of the main loop: the ticker, or a signal.
pub data Turn : Type 0 where
  tick : Turn
  signalled : Signal → Turn

pub data MultiplexerState : Type 0 where
  configuring starting_producers starting_consumers running shutting_down stopping_consumers
        stopping_producers stopped :
      MultiplexerState

-- The order of the constants.
unfoldable pub state_number : MultiplexerState → ℕ
state_number configuring = 0
state_number starting_producers = 1
state_number starting_consumers = 2
state_number running = 3
state_number shutting_down = 4
state_number stopping_consumers = 5
state_number stopping_producers = 6
state_number stopped = 7

-- A loop that does one thing with each plugin.
unfoldable pub each : (ℕ → LifeStep) → List ℕ → List LifeStep
each act [] = []
each act (p ∷ ps) = act p ∷ each act ps

unfoldable pub shutdown : MultiplexerState → List ℕ → List ℕ → List LifeStep
unfolding state_number each
shutdown state consumers producers =
    (if leb (state_number starting_consumers) (state_number state)
      then each stop_consumer consumers ++ (activate_fuses ∷ wait_consumers ∷ [])
      else [])
    ++ (log_to_stdout
        ∷ (if leb (state_number starting_producers) (state_number state)
            then each stop_producer producers ++ wait_producers ∷ []
            else []))

-- The main loop; it returns to the deferred shutdown on exit, and is still running where the turns end.
unfoldable pub main_loop : List ℕ → List ℕ → List Turn → List LifeStep × MultiplexerState
unfolding each shutdown
main_loop consumers producers [] = ([], running)
main_loop consumers producers (tick ∷ turns) =
    let (acts, state) = main_loop consumers producers turns in (sample ∷ acts, state)
main_loop consumers producers (signalled signal_exit ∷ turns) =
    (shutdown shutting_down consumers producers, stopped)
main_loop consumers producers (signalled signal_roll ∷ turns) =
    let (acts, state) = main_loop consumers producers turns in
    (each roll_consumer consumers ++ (each roll_producer producers ++ acts), state)
main_loop consumers producers (signalled signal_none ∷ turns) = main_loop consumers producers turns

-- `is_log_used` tells whether the stream of the log is registered.
unfoldable pub run_started : Bool → List ℕ → List ℕ → List Turn → List LifeStep × MultiplexerState
unfolding each main_loop
run_started is_log_used consumers producers turns =
    let (acts, state) = main_loop consumers producers turns in
    (
      each start_producer producers
          ++ ((if is_log_used then bind_log else log_to_stdout)
              ∷ (each start_consumer consumers ++ acts)),
      state,
    )

unfoldable pub run : Bool → List ℕ → List ℕ → List Turn → List LifeStep × MultiplexerState
unfolding run_started
run is_log_used consumers producers turns =
    if length consumers == 0
    then (log_to_stdout ∷ [], configuring)
    else if length producers == 0
    then (log_to_stdout ∷ [], configuring)
    else run_started is_log_used consumers producers turns

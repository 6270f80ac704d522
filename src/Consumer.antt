-- ===== src/Consumer.antt =====
-- core/consumer.go: a consumer, which hands messages to streams and follows its fuse. A stream is a
-- StreamBase; `pick` chooses for streams that do so at random. `none` is a panic of a stream.
pub mod Fanout
mod Tests
use x_pipeline.Prelude.{
  ℕ, Bool, true, false, List, [], ◌∷◌, ◌++◌, Option, none, some, ◌>>=◌, Bytes, map, if◌then◌else◌,
}
use x_pipeline.Message.{Message, new_message}
use x_pipeline.Streams.{StreamBase, Delivery, enqueue}
use x_pipeline.Producer.{
  PluginState, active, dead, PluginControl, stop_producer, stop_consumer, roll, fuse_burn,
  fuse_active,
}

pub record MappedStream : Type 0 where
  pub stream_id : ℕ
  pub stream : StreamBase

-- The fuse, if there is one, is burned or not; the callbacks are there or not.
pub record ConsumerBase : Type 0 where
  pub streams : List MappedStream
  pub state : PluginState
  pub fuse : Option Bool
  pub on_roll : Bool
  pub on_stop : Bool
  pub on_fuse_burned : Bool
  pub on_fuse_active : Bool

unfoldable pub is_fuse_burned : ConsumerBase → Bool
is_fuse_burned cons = elim cons.fuse [ none ↦ false | some burned ↦ burned ]

unfoldable pub stream_ids : ConsumerBase → List ℕ
stream_ids cons = map (λ m. m.stream_id) cons.streams

-- The assignments of `EnqueueMessage`, in their order.
abbrev pub address : ℕ → Message → Message
address id msg =
    let addressed = record msg { stream_id = id } in
    record addressed { prev_stream_id = addressed.stream_id }

-- The loop of `EnqueueMessage`: the streams behind it, and what they delivered.
unfoldable pub enqueue_all :
    (ℕ → ℕ) → List MappedStream → Message → Option (List MappedStream × List Delivery)
unfolding enqueue
enqueue_all pick [] msg = some ([], [])
enqueue_all pick (m ∷ ms) msg =
    let addressed = address m.stream_id msg in
    enqueue pick m.stream addressed >>= λ r. enqueue_all pick ms addressed >>= λ rest.
    some ((record m { stream = r.0 }) ∷ rest.0, r.1 ++ rest.1)

unfoldable pub enqueue_message :
    (ℕ → ℕ) → ConsumerBase → Message → Option (ConsumerBase × List Delivery)
unfolding enqueue_all
enqueue_message pick cons msg =
    enqueue_all pick cons.streams msg >>= λ r. some (record cons { streams = r.0 }, r.1)

-- `Enqueue`, with the id of the wildcard stream.
unfoldable pub enqueue_data :
    (ℕ → ℕ) → ℕ → ConsumerBase → Bytes → ℕ → Option (ConsumerBase × List Delivery)
unfolding enqueue_message new_message
enqueue_data pick wildcard cons bytes sequence =
    enqueue_message pick cons (new_message wildcard bytes sequence)

pub data Callback : Type 0 where
  rolled stopped fuse_burned fuse_activated : Callback

abbrev pub called : Bool → Callback → List Callback
called true c = c ∷ []
called false c = []

-- The switch of `ControlLoop`: the callbacks, and whether the loop ends.
unfoldable pub run_command : ConsumerBase → PluginControl → List Callback × Bool
run_command cons stop_consumer = (called cons.on_stop stopped, true)
run_command cons roll = (called cons.on_roll rolled, false)
run_command cons fuse_burn = (called cons.on_fuse_burned fuse_burned, false)
run_command cons fuse_active = (called cons.on_fuse_active fuse_activated, false)
run_command cons stop_producer = ([], false)

-- The state behind the commands, the callbacks in order, and whether the loop has ended.
unfoldable pub control_loop : ConsumerBase → List PluginControl → PluginState × List Callback × Bool
unfolding run_command
control_loop cons [] = (active, [], false)
control_loop cons (c ∷ cs) =
    let (calls, ends) = run_command cons c in
    let (state, more, ended) = control_loop cons cs in
    if ends then (dead, calls, true) else (state, calls ++ more, ended)

-- The turns of `fuseControlLoop`: whether the consumer is active, and the fuse burned. A wait on the
-- fuse ends with its turn.
unfoldable pub fuse_control_loop : List (Bool × Bool) → List PluginControl
fuse_control_loop [] = []
fuse_control_loop ((false, burned) ∷ turns) = []
fuse_control_loop ((true, true) ∷ turns) = fuse_burn ∷ fuse_active ∷ fuse_control_loop turns
fuse_control_loop ((true, false) ∷ turns) = fuse_control_loop turns

-- ===== src/Multiplexer/Tests.antt =====
-- A small pipeline: two producers on a stream of their own, the second with the first one's drop stream.
use x_pipeline.Prelude.{
  ℕ, ◌==◌, Bool, true, false, List, [], ◌∷◌, ◌++◌, Option, none, some, Bytes, codes, equal, ◌≡◌,
  refl, arith, if◌then◌else◌,
}
use x_pipeline.MarshalMap.{at}
use x_pipeline.Settings.{no_settings}
use x_pipeline.PluginConfig.{PluginConfig}
use x_pipeline.Streams.{
  StreamBase, broadcast, contains, add_producer, add_producers, register_wildcard_producer,
  add_wildcard_producers,
}
use x_pipeline.Registry.{
  StreamRegistry, default_stream, get_stream_or_fallback, register, get_stream_id, get_stream_name,
  link_dependencies, link_child, depends_on, any_depends, add_dependency,
}
use x_pipeline.Multiplexer.{
  PluginType, ProducerPlugin, Multiplexer, add_new_producer, has_public, with_producers,
  new_multiplexer, add_wildcards, build, sort_plugins, configure_streams, configure_producers,
  configure_producer, configure_consumers, listen_all, listen, link_all, for_each_stream,
}
use x_pipeline.Multiplexer.Life.{
  start_producer, start_consumer, roll_consumer, roll_producer, stop_consumer, stop_producer,
  bind_log, log_to_stdout, sample, activate_fuses, wait_consumers, wait_producers, tick, signalled,
  signal_exit, signal_roll, stopped, run, run_started, main_loop, shutdown, each, state_number,
}
use x_pipeline.Multiplexer.Protocol.{producers_start, all_closed, follow_all, run-closed}
use x_pipeline.Multiplexer.Linked.{drop_listeners}
use x_pipeline.Multiplexer.Stopping.{wait_is_over, new_multiplexer_stops}
use x_pipeline.Multiplexer.Listening.{ListensTo, add_new_producer-ListensTo}

run-turns :
    (run true (0 ∷ []) (7 ∷ []) (tick ∷ signalled signal_roll ∷ signalled signal_exit ∷ [])).0
    ≡ start_producer 7
      ∷ bind_log
      ∷ start_consumer 0
      ∷ sample
      ∷ roll_consumer 0
      ∷ roll_producer 7
      ∷ stop_consumer 0
      ∷ activate_fuses
      ∷ wait_consumers
      ∷ log_to_stdout
      ∷ stop_producer 7
      ∷ wait_producers
      ∷ []
unfolding run run_started main_loop shutdown each state_number
run-turns = refl

run-closed_example :
    (follow_all
        (tick ∷ signalled signal_roll ∷ signalled signal_exit ∷ [])
        (0 ∷ [])
        (7 ∷ [])
        (producers_start (7 ∷ []))
        (run true (0 ∷ []) (7 ∷ []) (tick ∷ signalled signal_roll ∷ signalled signal_exit ∷ [])).0
      ≡ some all_closed)
    × ((run true (0 ∷ []) (7 ∷ []) (tick ∷ signalled signal_roll ∷ signalled signal_exit ∷ [])).1
        ≡ stopped)
run-closed_example =
    run-closed true 0 7 [] [] (tick ∷ signalled signal_roll ∷ signalled signal_exit ∷ []) refl

-- The sum of the bytes.
abbrev hash : Bytes → ℕ
hash [] = 0
hash (c ∷ cs) = c

abbrev stream_of : List ℕ → StreamBase
stream_of producers = record {
  accepts = λ msg. true;
  format = λ msg. (msg.payload, msg.stream_id);
  producers = producers;
  bound_stream_id = 7;
  distribute = broadcast;
  prev_distribute = broadcast;
  paused = none;
  index = 0;
}

abbrev empty : StreamRegistry
empty = record { streams = λ id. none; name = λ id. none; wildcard = [] }

abbrev type_of : Bytes → Option PluginType
type_of name = some (record {
  implements_consumer = equal name (codes "c");
  implements_producer = equal name (codes "p");
  implements_stream = equal name (codes "s");
})

abbrev new_stream : StreamRegistry → PluginConfig → StreamRegistry × Option StreamBase
new_stream r conf = (r, some (stream_of []))

abbrev new_producer : StreamRegistry → PluginConfig → StreamRegistry × Option ProducerPlugin
new_producer r conf = (r, some (record { streams = 7 ∷ []; drop_stream_id = 7 }))

abbrev new_consumer : StreamRegistry → PluginConfig → StreamRegistry × Bool
new_consumer r conf = (r, true)

abbrev conf_of : Bytes → PluginConfig
conf_of name = record {
  id = [];
  typename = name;
  enable = true;
  instances = at 2;
  stream = [];
  settings = no_settings;
  valid_keys = [];
}

abbrev one_wildcard : StreamRegistry
one_wildcard = record empty { wildcard = 1 ∷ [] }

-- Producer 1 is registered for all streams, stream 7 is made, and producer 2 is registered.
abbrev two_wildcards : StreamRegistry
two_wildcards =
    let made = (get_stream_or_fallback hash one_wildcard 7).0 in
    record made { wildcard = register_wildcard_producer made.wildcard (2 ∷ []) }

abbrev with_wildcard : StreamRegistry
with_wildcard = record empty { streams = λ id. if id == 42 then some (stream_of []) else none }

abbrev before : Multiplexer
before = record {
  registry = with_wildcard;
  producers = [];
  consumers = 1;
  dependencies = λ p. [];
  num_errors = 0;
}

abbrev made : ProducerPlugin
made = record { streams = 7 ∷ 42 ∷ []; drop_stream_id = 3 }

add_new_producer-ListensTo_example :
    ((add_new_producer hash before made).producers ≡ [] ++ (0, 3) ∷ [])
    × ((add_new_producer hash before made).num_errors ≡ 0)
    × ((id : ℕ)
        → (id == 42) ≡ false
        → contains (7 ∷ 42 ∷ []) id ≡ true
        → ListensTo (add_new_producer hash before made).registry 0 id)
    × (has_public hash (7 ∷ 42 ∷ []) ≡ true
        → ListensTo (add_new_producer hash before made).registry 0 42)
    × (has_public hash (7 ∷ 42 ∷ []) ≡ false
        → (add_new_producer hash before made).registry.streams 42 ≡ with_wildcard.streams 42)
    × ((q id : ℕ)
        → ListensTo with_wildcard q id
        → ListensTo (add_new_producer hash before made).registry q id)
add_new_producer-ListensTo_example =
    add_new_producer-ListensTo hash before made (omega arith) (stream_of [], refl, tt)

abbrev confs : List PluginConfig
confs = conf_of (codes "p") ∷ []

program : Unit {0}
unfolding new_multiplexer build with_producers sort_plugins equal configure_streams
    configure_producers configure_producer configure_consumers add_new_producer listen_all listen
    has_public get_stream_or_fallback add_producer add_producers contains register_wildcard_producer
    register get_stream_id get_stream_name default_stream link_all link_dependencies link_child
    depends_on any_depends add_dependency add_wildcards for_each_stream add_wildcard_producers
    drop_listeners
program = tt

-- Two producers on one stream, which drop to the same stream: one depends on the other.
new_multiplexer-confs :
    let plex = new_multiplexer hash type_of new_stream new_producer new_consumer 15 empty confs in
    (plex.producers ≡ (0, 7) ∷ (1, 7) ∷ [])
    × (plex.num_errors ≡ 0)
    × (plex.dependencies 0 ≡ [])
    × (plex.dependencies 1 ≡ 0 ∷ [])
unfolding program
new_multiplexer-confs = (refl, refl, refl, refl)

-- Nobody is dead yet.
abbrev nobody_dead : ℕ → Bool
nobody_dead p = false

new_multiplexer_stops_example :
    (q : ℕ) × (nobody_dead q ≡ false)
    × (wait_is_over nobody_dead (
          (new_multiplexer hash type_of new_stream new_producer new_consumer 15 empty
              confs).dependencies
            q)
        ≡ true)
unfolding program
new_multiplexer_stops_example =
    new_multiplexer_stops hash type_of new_stream new_producer new_consumer 15 empty confs
      (omega arith) nobody_dead 1 refl

-- ===== src/Multiplexer.antt =====
-- multiplexer.go: newMultiplexer, which makes plugins of configurations and connects them. The type of a
-- class (reflection) and what the constructors of plugins return are parameters; a constructor may
-- change the registry, as the Configure of a plugin does. Producers are numbers, in the order in which
-- they are made; the consumers are counted. Metrics and logging are left out.
pub mod Life
pub mod Protocol
pub mod Linked
pub mod Listening
pub mod Stopping
pub mod Faults
mod Tests
use x_pipeline.Prelude.{
  ℕ, zero, suc, ◌+◌, Bool, true, false, not, ◌&&◌, ◌||◌, List, [], ◌∷◌, ◌++◌, Option, none, some,
  Bytes, length, ltb, ◌==◌, if◌then◌else◌,
}
use x_pipeline.MarshalMap.{Number, at, below_zero}
use x_pipeline.PluginConfig.{PluginConfig}
use x_pipeline.Streams.{
  StreamBase, add_producer, add_wildcard_producers, register_wildcard_producer,
}
use x_pipeline.Registry.{
  StreamRegistry, get_stream_id, get_stream_or_fallback, register, link_dependencies,
  dropped_stream, log_internal_stream, wildcard_stream,
}

-- The interfaces that a type implements.
pub record PluginType : Type 0 where
  pub implements_consumer : Bool
  pub implements_producer : Bool
  pub implements_stream : Bool

-- What is asked of a new producer: `Streams` and `GetDropStreamID`.
pub record ProducerPlugin : Type 0 where
  pub streams : List ℕ
  pub drop_stream_id : ℕ

-- The configurations by interface.
pub record Sorted : Type 0 where
  pub consumer_config : List PluginConfig
  pub producer_config : List PluginConfig
  pub stream_config : List PluginConfig
  pub type_errors : ℕ

pub record Multiplexer : Type 0 where
  pub registry : StreamRegistry
  pub producers : List (ℕ × ℕ)  -- with the id of the drop stream
  pub consumers : ℕ
  pub dependencies : ℕ → List ℕ
  pub num_errors : ℕ

abbrev pub add_if {ℓ} : {A : Type ℓ} → Bool → A → List A → List A
add_if b a rest = if b then a ∷ rest else rest

-- The kinds of a type: a type of no kind is dumped and left out, one that is not found is an error.
abbrev pub sorted_in : PluginConfig → Option PluginType → Sorted → Sorted
sorted_in conf none s = record s { type_errors = suc s.type_errors }
sorted_in conf (some t) s = record s {
  consumer_config = add_if t.implements_consumer conf s.consumer_config;
  producer_config = add_if t.implements_producer conf s.producer_config;
  stream_config = add_if t.implements_stream conf s.stream_config;
}

-- The first loop.
unfoldable pub sort_plugins : (Bytes → Option PluginType) → List PluginConfig → Sorted
sort_plugins type_of [] = record {
  consumer_config = [];
  producer_config = [];
  stream_config = [];
  type_errors = 0;
}
sort_plugins type_of (conf ∷ confs) =
    let later = sort_plugins type_of confs in
    if conf.enable then sorted_in conf (type_of conf.typename) later else later

abbrev pub count_error : Multiplexer → Multiplexer
count_error plex = record plex { num_errors = suc plex.num_errors }

-- A change of a stream that is registered already.
abbrev pub with_stream : ℕ → (StreamBase → StreamBase) → StreamRegistry → StreamRegistry
with_stream id f r = record r {
  streams = λ i.
      if i == id then elim (r.streams i) [ none ↦ none | some s ↦ some (f s) ] else r.streams i;
}

-- `ForEachStream`.
unfoldable pub for_each_stream : (StreamBase → StreamBase) → StreamRegistry → StreamRegistry
for_each_stream f r = record r {
  streams = λ i. elim (r.streams i) [ none ↦ none | some s ↦ some (f s) ];
}

-- The turns of a loop from 0 to an int.
abbrev pub turns_of : Number → ℕ
turns_of (at n) = n
turns_of (below_zero n) = 0

module _ (hash : Bytes → ℕ) where
  -- A stream of a producer: the list of the wildcard stream, or the stream itself.
  unfoldable pub listen : ℕ → StreamRegistry → ℕ → StreamRegistry
  unfolding get_stream_or_fallback add_producer register_wildcard_producer
  listen p r id =
      if id == hash wildcard_stream
      then record r { wildcard = register_wildcard_producer r.wildcard (p ∷ []) }
      else with_stream id (λ s. add_producer s (p ∷ [])) (get_stream_or_fallback hash r id).0

  unfoldable pub listen_all : ℕ → StreamRegistry → List ℕ → StreamRegistry
  unfolding listen
  listen_all p r [] = r
  listen_all p r (id ∷ ids) = listen_all p (listen p r id) ids

  -- Is there a stream that is not internal?
  unfoldable pub has_public : List ℕ → Bool
  has_public [] = false
  has_public (id ∷ ids) =
      not (id == hash log_internal_stream) && not (id == hash dropped_stream) || has_public ids

  -- A producer that was made without an error.
  unfoldable pub add_new_producer : Multiplexer → ProducerPlugin → Multiplexer
  unfolding listen_all has_public add_producer
  add_new_producer plex made =
      let p = length plex.producers in
      let r = listen_all p plex.registry made.streams in
      let r' = with_stream (hash wildcard_stream) (λ s. add_producer s (p ∷ [])) r in
      if length made.streams == 0 then count_error plex else record plex {
        registry = if has_public made.streams then r' else r;
        producers = plex.producers ++ (p, made.drop_stream_id) ∷ [];
      }

  abbrev pub made_producer : Multiplexer → StreamRegistry × Option ProducerPlugin → Multiplexer
  made_producer plex (r, none) = count_error (record plex { registry = r })
  made_producer plex (r, some made) = add_new_producer (record plex { registry = r }) made

  abbrev pub made_stream : Multiplexer → Bytes → StreamRegistry × Option StreamBase → Multiplexer
  made_stream plex name (r, none) = count_error (record plex { registry = r })
  made_stream plex name (r, some s) =
      let (r', id) = get_stream_id hash r name in record plex { registry = register hash r' s id }

  abbrev pub made_consumer : Multiplexer → StreamRegistry × Bool → Multiplexer
  made_consumer plex (r, true) = record plex { registry = r; consumers = suc plex.consumers }
  made_consumer plex (r, false) = count_error (record plex { registry = r })

  module _ (new_stream : StreamRegistry → PluginConfig → StreamRegistry × Option StreamBase) where
    -- One turn of the loop over streams, by the streams of the configuration.
    abbrev pub configure_stream : PluginConfig → List Bytes → Multiplexer → Multiplexer
    configure_stream conf [] plex = count_error plex
    configure_stream conf (name ∷ names) plex =
        made_stream plex name (new_stream plex.registry conf)

    unfoldable pub configure_streams : List PluginConfig → Multiplexer → Multiplexer
    unfolding get_stream_id register
    configure_streams [] plex = plex
    configure_streams (conf ∷ confs) plex =
        configure_streams confs (configure_stream conf conf.stream plex)

  module _
      (new_producer : StreamRegistry → PluginConfig → StreamRegistry × Option ProducerPlugin) where
    unfoldable pub configure_producer : ℕ → PluginConfig → Multiplexer → Multiplexer
    unfolding add_new_producer
    configure_producer zero conf plex = plex
    configure_producer (suc n) conf plex =
        configure_producer n conf (made_producer plex (new_producer plex.registry conf))

    unfoldable pub configure_producers : List PluginConfig → Multiplexer → Multiplexer
    unfolding configure_producer
    configure_producers [] plex = plex
    configure_producers (conf ∷ confs) plex =
        configure_producers confs (configure_producer (turns_of conf.instances) conf plex)

  module _ (new_consumer : StreamRegistry → PluginConfig → StreamRegistry × Bool) where
    unfoldable pub configure_consumer : ℕ → PluginConfig → Multiplexer → Multiplexer
    configure_consumer zero conf plex = plex
    configure_consumer (suc n) conf plex =
        configure_consumer n conf (made_consumer plex (new_consumer plex.registry conf))

    unfoldable pub configure_consumers : List PluginConfig → Multiplexer → Multiplexer
    unfolding configure_consumer
    configure_consumers [] plex = plex
    configure_consumers (conf ∷ confs) plex =
        configure_consumers confs (configure_consumer (turns_of conf.instances) conf plex)

  -- The loop over `LinkDependencies`; `fuel` is for the search of DependsOn.
  unfoldable pub link_all : ℕ → List (ℕ × ℕ) → Multiplexer → Multiplexer
  unfolding get_stream_or_fallback link_dependencies
  link_all fuel [] plex = plex
  link_all fuel ((p, drop) ∷ ps) plex =
      let (r, s) = get_stream_or_fallback hash plex.registry drop in
      link_all fuel ps (record plex {
        registry = r;
        dependencies = link_dependencies fuel plex.dependencies p s.producers;
      })

  unfoldable pub add_wildcards : StreamRegistry → StreamRegistry
  unfolding for_each_stream add_wildcard_producers
  add_wildcards r =
      for_each_stream
        (add_wildcard_producers (hash log_internal_stream) (hash dropped_stream) r.wildcard) r

  module _ (type_of : Bytes → Option PluginType)
      (new_stream : StreamRegistry → PluginConfig → StreamRegistry × Option StreamBase)
      (new_producer : StreamRegistry → PluginConfig → StreamRegistry × Option ProducerPlugin)
      (new_consumer : StreamRegistry → PluginConfig → StreamRegistry × Bool) where
    -- Before the plugins are made: the consumer of the log is there already.
    abbrev pub start : StreamRegistry → Sorted → Multiplexer
    start r s = record {
      registry = r;
      producers = [];
      consumers = 1;
      dependencies = λ p. [];
      num_errors = s.type_errors;
    }

    -- The streams and the producers, with the wildcard stream in place before the producers.
    unfoldable pub with_producers : StreamRegistry → Sorted → Multiplexer
    unfolding configure_streams configure_producers get_stream_or_fallback
    with_producers r s =
        let plex = configure_streams new_stream s.stream_config (start r s) in
        configure_producers new_producer s.producer_config (record plex {
          registry = (get_stream_or_fallback hash plex.registry (hash wildcard_stream)).0;
        })

    -- The loops behind the first.
    unfoldable pub build : ℕ → StreamRegistry → Sorted → Multiplexer
    unfolding with_producers link_all configure_consumers add_wildcards
    build fuel r s =
        let plex = with_producers r s in
        let made =
          configure_consumers new_consumer s.consumer_config (link_all fuel plex.producers plex) in
        record made { registry = add_wildcards made.registry }

    unfoldable pub new_multiplexer : ℕ → StreamRegistry → List PluginConfig → Multiplexer
    unfolding sort_plugins build
    new_multiplexer fuel r confs = build fuel r (sort_plugins type_of confs)

  -- Is the error "Configuration errors detected" returned?
  abbrev pub has_errors : Multiplexer → Bool
  has_errors plex = ltb 0 plex.num_errors

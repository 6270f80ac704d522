-- ===== src/Multiplexer/Linked.antt =====
-- multiplexer.go: the dependencies of the producers that newMultiplexer links.
use x_pipeline.Prelude.{
  ℕ, zero, suc, ◌≤◌, Bool, true, false, List, [], ◌∷◌, ◌++◌, Option, none, some, Bytes, length,
  ◌==◌, if◌then◌else◌, ◌≡◌, refl, sym, ap, ◌∙◌,
}
use std.Path.{subst}
use x_pipeline.Streams.{StreamBase}
use x_pipeline.Registry.{StreamRegistry, get_stream_or_fallback, link_dependencies, wildcard_stream}
use x_pipeline.Registry.Dependencies.{IsRanked}
use x_pipeline.Registry.Linking.{
  link_turns, rank_bound, link_turns-IsRanked, turns_with, link_turns-append,
}
use x_pipeline.PluginConfig.{PluginConfig}
use x_pipeline.Multiplexer.{
  turns_of, PluginType, ProducerPlugin, Multiplexer, Sorted, configure_stream, configure_streams,
  made_stream, configure_producer, made_producer, add_new_producer, configure_producers,
  configure_consumer, made_consumer, configure_consumers, link_all, with_producers, build,
  new_multiplexer, sort_plugins, start,
}

module _ (hash : Bytes → ℕ) where
  -- The pairs of a producer and a listener of its drop stream, in the order of the loops.
  unfoldable pub drop_listeners : StreamRegistry → List (ℕ × ℕ) → List (ℕ × ℕ)
  unfolding get_stream_or_fallback
  drop_listeners r [] = []
  drop_listeners r ((p, drop) ∷ ps) =
      let (r', s) = get_stream_or_fallback hash r drop in
      turns_with p s.producers ++ drop_listeners r' ps

  link_all-turns :
      (fuel : ℕ) (ps : List (ℕ × ℕ)) (plex : Multiplexer)
      → (link_all hash fuel ps plex).dependencies
        ≡ link_turns fuel plex.dependencies (drop_listeners plex.registry ps)
  unfolding link_all drop_listeners link_turns
  link_all-turns fuel [] plex = refl
  link_all-turns fuel ((p, drop) ∷ ps) plex =
      let (r, s) = get_stream_or_fallback hash plex.registry drop in
      let deps = link_dependencies fuel plex.dependencies p s.producers in
      link_all-turns fuel ps (record plex { registry = r; dependencies = deps })
      ∙ sym (link_turns-append fuel plex.dependencies p s.producers (drop_listeners r ps))

  made_stream-dependencies :
      (plex : Multiplexer) (name : Bytes) (m : StreamRegistry × Option StreamBase)
      → (made_stream hash plex name m).dependencies ≡ plex.dependencies
  made_stream-dependencies plex name (r, none) = refl
  made_stream-dependencies plex name (r, some s) = refl

  configure_streams-dependencies :
      (new_stream : StreamRegistry → PluginConfig → StreamRegistry × Option StreamBase)
      → (confs : List PluginConfig) (plex : Multiplexer)
      → (configure_streams hash new_stream confs plex).dependencies ≡ plex.dependencies
  unfolding configure_streams
  configure_streams-dependencies new_stream [] plex = refl
  configure_streams-dependencies new_stream (conf ∷ confs) plex =
      configure_streams-dependencies new_stream confs
        (configure_stream hash new_stream conf conf.stream plex)
      ∙ by_streams conf.stream
    where
      by_streams :
          (names : List Bytes)
          → (configure_stream hash new_stream conf names plex).dependencies ≡ plex.dependencies
      by_streams [] = refl
      by_streams (name ∷ names) = made_stream-dependencies plex name (new_stream plex.registry conf)

  if_dependencies :
      (b : Bool) (x y : Multiplexer) (deps : ℕ → List ℕ)
      → x.dependencies ≡ deps
      → y.dependencies ≡ deps
      → (if b then x else y).dependencies ≡ deps
  if_dependencies true x y deps h k = h
  if_dependencies false x y deps h k = k

  made_producer-dependencies :
      (plex : Multiplexer) (m : StreamRegistry × Option ProducerPlugin)
      → (made_producer hash plex m).dependencies ≡ plex.dependencies
  unfolding add_new_producer
  made_producer-dependencies plex (r, none) = refl
  made_producer-dependencies plex (r, some made) =
      if_dependencies (length made.streams == 0) _ _ plex.dependencies refl refl

  configure_producer-dependencies :
      (new_producer : StreamRegistry → PluginConfig → StreamRegistry × Option ProducerPlugin)
      → (n : ℕ) (conf : PluginConfig) (plex : Multiplexer)
      → (configure_producer hash new_producer n conf plex).dependencies ≡ plex.dependencies
  unfolding configure_producer
  configure_producer-dependencies new_producer zero conf plex = refl
  configure_producer-dependencies new_producer (suc n) conf plex =
      configure_producer-dependencies new_producer n conf
        (made_producer hash plex (new_producer plex.registry conf))
      ∙ made_producer-dependencies plex (new_producer plex.registry conf)

  configure_producers-dependencies :
      (new_producer : StreamRegistry → PluginConfig → StreamRegistry × Option ProducerPlugin)
      → (confs : List PluginConfig) (plex : Multiplexer)
      → (configure_producers hash new_producer confs plex).dependencies ≡ plex.dependencies
  unfolding configure_producers
  configure_producers-dependencies new_producer [] plex = refl
  configure_producers-dependencies new_producer (conf ∷ confs) plex =
      configure_producers-dependencies new_producer confs
        (configure_producer hash new_producer (turns_of conf.instances) conf plex)
      ∙ configure_producer-dependencies new_producer (turns_of conf.instances) conf plex

  made_consumer-dependencies :
      (plex : Multiplexer) (m : StreamRegistry × Bool)
      → (made_consumer hash plex m).dependencies ≡ plex.dependencies
  made_consumer-dependencies plex (r, true) = refl
  made_consumer-dependencies plex (r, false) = refl

  configure_consumer-dependencies :
      (new_consumer : StreamRegistry → PluginConfig → StreamRegistry × Bool)
      → (n : ℕ) (conf : PluginConfig) (plex : Multiplexer)
      → (configure_consumer hash new_consumer n conf plex).dependencies ≡ plex.dependencies
  unfolding configure_consumer
  configure_consumer-dependencies new_consumer zero conf plex = refl
  configure_consumer-dependencies new_consumer (suc n) conf plex =
      configure_consumer-dependencies new_consumer n conf
        (made_consumer hash plex (new_consumer plex.registry conf))
      ∙ made_consumer-dependencies plex (new_consumer plex.registry conf)

  configure_consumers-dependencies :
      (new_consumer : StreamRegistry → PluginConfig → StreamRegistry × Bool)
      → (confs : List PluginConfig) (plex : Multiplexer)
      → (configure_consumers hash new_consumer confs plex).dependencies ≡ plex.dependencies
  unfolding configure_consumers
  configure_consumers-dependencies new_consumer [] plex = refl
  configure_consumers-dependencies new_consumer (conf ∷ confs) plex =
      configure_consumers-dependencies new_consumer confs
        (configure_consumer hash new_consumer (turns_of conf.instances) conf plex)
      ∙ configure_consumer-dependencies new_consumer (turns_of conf.instances) conf plex

  module _ (type_of : Bytes → Option PluginType)
      (new_stream : StreamRegistry → PluginConfig → StreamRegistry × Option StreamBase)
      (new_producer : StreamRegistry → PluginConfig → StreamRegistry × Option ProducerPlugin)
      (new_consumer : StreamRegistry → PluginConfig → StreamRegistry × Bool) where
    with_producers-dependencies :
        (r : StreamRegistry) (s : Sorted)
        → (with_producers hash type_of new_stream new_producer new_consumer r s).dependencies
          ≡ (λ p. [])
    unfolding with_producers
    with_producers-dependencies r s =
        let plex =
          configure_streams hash new_stream s.stream_config
            (start hash type_of new_stream new_producer new_consumer r s) in
        configure_producers-dependencies new_producer s.producer_config (record plex {
          registry = (get_stream_or_fallback hash plex.registry (hash wildcard_stream)).0;
        })
        ∙ configure_streams-dependencies new_stream s.stream_config
            (start hash type_of new_stream new_producer new_consumer r s)

    build-turns :
        (fuel : ℕ) (r : StreamRegistry) (s : Sorted)
        → let plex = with_producers hash type_of new_stream new_producer new_consumer r s in
          (build hash type_of new_stream new_producer new_consumer fuel r s).dependencies
          ≡ link_turns fuel (λ p. []) (drop_listeners plex.registry plex.producers)
    unfolding build
    build-turns fuel r s =
        let plex = with_producers hash type_of new_stream new_producer new_consumer r s in
        configure_consumers-dependencies new_consumer s.consumer_config
          (link_all hash fuel plex.producers plex)
        ∙ link_all-turns fuel plex.producers plex
        ∙ ap
            (λ (deps : ℕ → List ℕ).
              link_turns fuel deps (drop_listeners plex.registry plex.producers))
            (with_producers-dependencies r s)

    -- Whatever is configured, the producers of a new multiplexer depend on each other without a circle,
    -- so that they can be closed one after the other. (The search of DependsOn may go as deep as the
    -- bound for the number of producers that listen to the drop streams of producers.)
    pub new_multiplexer-IsRanked :
        (fuel : ℕ) (r : StreamRegistry) (confs : List PluginConfig)
        → (let plex =
              with_producers hash type_of new_stream new_producer new_consumer r
                (sort_plugins type_of confs) in
            rank_bound (length (drop_listeners plex.registry plex.producers)) 0 ≤ fuel)
        → (rank : ℕ → ℕ) × IsRanked
            (new_multiplexer hash type_of new_stream new_producer new_consumer fuel r
              confs).dependencies
            rank
    unfolding new_multiplexer
    new_multiplexer-IsRanked fuel r confs enough =
        let plex =
          with_producers hash type_of new_stream new_producer new_consumer r
            (sort_plugins type_of confs) in
        let (rank, ranked) =
          link_turns-IsRanked fuel (drop_listeners plex.registry plex.producers) enough in
        (
          rank,
          subst (λ (deps : ℕ → List ℕ). IsRanked deps rank)
              (sym (build-turns fuel r (sort_plugins type_of confs))) ranked,
        )

-- ===== src/Multiplexer/Faults.antt =====
-- multiplexer.go: plugins and producers that newMultiplexer passes over.
use x_pipeline.Prelude.{
  ℕ, Bool, false, not, ◌&&◌, List, ◌∷◌, Option, some, Bytes, ◌==◌, if◌then◌else◌, if_same, ◌≡◌, ap,
  ◌∙◌,
}
use x_pipeline.PluginConfig.{PluginConfig}
use x_pipeline.Streams.{StreamBase}
use x_pipeline.Registry.{StreamRegistry}
use x_pipeline.Multiplexer.{
  PluginType, ProducerPlugin, sort_plugins, sorted_in, build, new_multiplexer,
}

module _ (log_id dropped_id : ℕ) where
  abbrev gets_wildcards : StreamBase → Bool
  gets_wildcards s = not (s.bound_stream_id == log_id) && not (s.bound_stream_id == dropped_id)

sort_plugins_unqualified :
    (type_of : Bytes → Option PluginType) (conf : PluginConfig) (confs : List PluginConfig)
    → type_of conf.typename
      ≡ some (record {
        implements_consumer = false;
        implements_producer = false;
        implements_stream = false;
      })
    → sort_plugins type_of (conf ∷ confs) ≡ sort_plugins type_of confs
unfolding sort_plugins
sort_plugins_unqualified type_of conf confs e =
    let later = sort_plugins type_of confs in
    ap (λ (o : Option PluginType). if conf.enable then sorted_in conf o later else later) e
    ∙ if_same conf.enable later

module _ (hash : Bytes → ℕ) (type_of : Bytes → Option PluginType)
    (new_stream : StreamRegistry → PluginConfig → StreamRegistry × Option StreamBase)
    (new_producer : StreamRegistry → PluginConfig → StreamRegistry × Option ProducerPlugin)
    (new_consumer : StreamRegistry → PluginConfig → StreamRegistry × Bool) where
  -- A configured plugin whose type is no consumer, no producer and no stream changes nothing, and is not
  -- counted as an error.
  pub new_multiplexer_unqualified :
      (fuel : ℕ) (r : StreamRegistry) (conf : PluginConfig) (confs : List PluginConfig)
      → type_of conf.typename
        ≡ some (record {
          implements_consumer = false;
          implements_producer = false;
          implements_stream = false;
        })
      → new_multiplexer hash type_of new_stream new_producer new_consumer fuel r (conf ∷ confs)
        ≡ new_multiplexer hash type_of new_stream new_producer new_consumer fuel r confs
  unfolding new_multiplexer
  new_multiplexer_unqualified fuel r conf confs e =
      ap (build hash type_of new_stream new_producer new_consumer fuel r)
        (sort_plugins_unqualified type_of conf confs e)

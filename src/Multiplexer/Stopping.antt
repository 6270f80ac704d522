-- ===== src/Multiplexer/Stopping.antt =====
-- core/producer.go: WaitForDependencies, which each producer calls when it is told to stop, for the
-- dependencies that newMultiplexer links. `is_dead` tells which producers are in the state Dead; a
-- producer that does not wait, or whose wait has timed out, is not considered.
use x_pipeline.Prelude.{
  ℕ, zero, suc, ◌≤◌, ◌<◌, Bool, true, false, List, [], ◌∷◌, Option, Bytes, length, ◌==◌, ==_refl,
  if◌then◌else◌, if_true, Bool-cases, inl, inr, ◌⊎◌, ◌≡◌, refl, ◌∙◌, arith,
}
use x_pipeline.Streams.{StreamBase, contains}
use x_pipeline.Registry.{StreamRegistry}
use x_pipeline.Registry.Dependencies.{IsRanked}
use x_pipeline.Registry.Linking.{rank_bound}
use x_pipeline.PluginConfig.{PluginConfig}
use x_pipeline.Multiplexer.{
  PluginType, ProducerPlugin, sort_plugins, with_producers, new_multiplexer,
}
use x_pipeline.Multiplexer.Linked.{drop_listeners, new_multiplexer-IsRanked}

-- The loop of `WaitForDependencies` goes on behind a dependency that is dead.
unfoldable pub wait_is_over : (ℕ → Bool) → List ℕ → Bool
wait_is_over is_dead [] = true
wait_is_over is_dead (d ∷ ds) =
    let later = wait_is_over is_dead ds in if is_dead d then later else false

-- Who is waited for, if the wait is not over.
waited_for :
    (is_dead : ℕ → Bool) (ds : List ℕ)
    → (wait_is_over is_dead ds ≡ true) ⊎ ((d : ℕ) × (contains ds d ≡ true) × (is_dead d ≡ false))
unfolding wait_is_over contains
waited_for is_dead [] = inl refl
waited_for is_dead (d ∷ ds) = elim (Bool-cases (is_dead d)) [
  | inr alive ↦ inr (d, if_true (d == d) true (contains ds d) (==_refl d), alive)
  | inl dead ↦ elim (waited_for is_dead ds) [
    | inl over ↦ inl (if_true (is_dead d) (wait_is_over is_dead ds) false dead ∙ over)
    | inr (e, known, alive) ↦ inr (e, later (d == e) known, alive)
  ]
]
  where
    later : (b : Bool) {c : Bool} → c ≡ true → (if b then true else c) ≡ true
    later true h = refl
    later false h = h

module _ (deps : ℕ → List ℕ) (rank : ℕ → ℕ) (ranked : IsRanked deps rank) (is_dead : ℕ → Bool) where
  next_to_stop :
      (n p : ℕ)
      → rank p < n
      → is_dead p ≡ false
      → (q : ℕ) × (is_dead q ≡ false) × (wait_is_over is_dead (deps q) ≡ true)
  next_to_stop zero p h alive = absurd (omega arith)
  next_to_stop (suc n) p h alive = elim (waited_for is_dead (deps p)) [
    | inl over ↦ (p, alive, over)
    | inr (d, known, d_alive) ↦
        let below = ranked p d known in next_to_stop n d (omega arith) d_alive
  ]

-- Whatever is configured, as long as a producer of a new multiplexer is alive, there is one that is alive
-- and whose dependencies are all dead: the wait for dependencies at shutdown never blocks all producers.
-- (The search of DependsOn may go as deep as the bound for the number of producers that listen to the drop
-- streams of producers.)
pub new_multiplexer_stops :
    (hash : Bytes → ℕ) (type_of : Bytes → Option PluginType)
    → (new_stream : StreamRegistry → PluginConfig → StreamRegistry × Option StreamBase)
    → (new_producer : StreamRegistry → PluginConfig → StreamRegistry × Option ProducerPlugin)
    → (new_consumer : StreamRegistry → PluginConfig → StreamRegistry × Bool)
    → (fuel : ℕ) (r : StreamRegistry) (confs : List PluginConfig)
    → (let plex =
          with_producers hash type_of new_stream new_producer new_consumer r
            (sort_plugins type_of confs) in
        rank_bound (length (drop_listeners hash plex.registry plex.producers)) 0 ≤ fuel)
    → (is_dead : ℕ → Bool) (p : ℕ) → is_dead p ≡ false
    → let plex = new_multiplexer hash type_of new_stream new_producer new_consumer fuel r confs in
      (q : ℕ) × (is_dead q ≡ false) × (wait_is_over is_dead (plex.dependencies q) ≡ true)
new_multiplexer_stops hash type_of new_stream new_producer new_consumer fuel r confs enough is_dead
      p alive =
    let plex = new_multiplexer hash type_of new_stream new_producer new_consumer fuel r confs in
    let (rank, ranked) =
      new_multiplexer-IsRanked hash type_of new_stream new_producer new_consumer fuel r confs
        enough in
    next_to_stop plex.dependencies rank ranked is_dead (suc (rank p)) p (omega arith) alive

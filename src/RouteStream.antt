-- ===== src/RouteStream.antt =====
-- stream/route.go: a stream that hands its messages to other streams. `serve` is what becomes of a
-- message at one target, with the state of the stream behind it: for the stream's own id that is Route of
-- Streams, for another id a delivery to the stream of that id. The registry is that of Registry; `none` is a panic.
pub mod Removal
pub mod Served
mod Tests
use x_pipeline.Prelude.{
  ℕ, zero, suc, ◌+◌, ◌-◌, Bool, true, false, not, List, [], ◌∷◌, ◌++◌, Option, none, some, ◌>>=◌,
  Bytes, length, take, set, get_elem?, ◌==◌, if◌then◌else◌,
}
use x_pipeline.Message.{Message}
use x_pipeline.Streams.{StreamBase, Delivery, to_stream, count_no_route, route}
use x_pipeline.Registry.{
  StreamRegistry, get_stream_id, get_stream, get_stream_or_fallback, wildcard_producers_exist,
}

-- `bound` tells whether the stream was there when the route was configured.
pub record StreamWithId : Type 0 where
  pub id : ℕ
  pub bound : Bool

pub record RouteStream : Type 0 where
  pub base : StreamBase
  pub routes : List StreamWithId

abbrev pub is_there : Option StreamBase → Bool
is_there none = false
is_there (some s) = true

-- The loop of `Configure`.
module _ (hash : Bytes → ℕ) where
  unfoldable pub configure_routes : StreamRegistry → List Bytes → StreamRegistry × List StreamWithId
  unfolding get_stream_id get_stream
  configure_routes r [] = (r, [])
  configure_routes r (name ∷ names) =
      let (r', id) = get_stream_id hash r name in
      let (r'', routes) = configure_routes r' names in
      (r'', record { id = id; bound = is_there (get_stream hash r' id) } ∷ routes)

-- The last route in the place of the route at `i`, and the list one shorter.
unfoldable pub swap_remove : List StreamWithId → ℕ → List StreamWithId
swap_remove routes i = elim (get_elem? routes (length routes - 1)) [
  | none ↦ routes
  | some last ↦ take (length routes - 1) (set routes i last)
]

-- The late binding of a target: the registry behind it, and whether there is a stream.
unfoldable pub bind_target : (Bytes → ℕ) → StreamRegistry → StreamWithId → StreamRegistry × Bool
unfolding wildcard_producers_exist get_stream_or_fallback get_stream
bind_target hash r target =
    if target.bound
    then (r, true)
    else if wildcard_producers_exist hash r
    then ((get_stream_or_fallback hash r target.id).0, true)
    else (r, is_there (get_stream hash r target.id))

-- What has happened so far: the registry, the stream, its routes and its deliveries.
pub record Progress : Type 0 where
  pub registry : StreamRegistry
  pub stream : StreamBase
  pub routes : List StreamWithId
  pub deliveries : List Delivery

module _ (hash : Bytes → ℕ) (pick : ℕ → ℕ) where
  unfoldable pub serve : StreamBase → Message → ℕ → Option (StreamBase × List Delivery)
  unfolding route
  serve s msg id =
      if id == s.bound_stream_id
      then route pick s msg s.bound_stream_id
      else some (s, to_stream id (record msg { stream_id = id }) ∷ [])

  -- The loop of `routeMessage` from `i`; a turn moves on or makes the list shorter.
  unfoldable pub route_from : ℕ → ℕ → Message → Progress → Option Progress
  unfolding swap_remove bind_target serve
  route_from zero i msg p = some p
  route_from (suc turns) i msg p = elim (get_elem? p.routes i) [
    | none ↦ some p
    | some target ↦
        let (r, there) = bind_target hash p.registry target in
        let removed =
          route_from turns i msg (record p { registry = r; routes = swap_remove p.routes i }) in
        let served = serve p.stream msg target.id >>= λ o.
        route_from turns (suc i) msg
          (record p { registry = r; stream = o.0; deliveries = p.deliveries ++ o.1 }) in
        if there then served else removed
  ]

  unfoldable pub route_message : Message → Progress → Option Progress
  unfolding route_from
  route_message msg p = route_from (length p.routes) 0 msg p

  -- `Enqueue`, of a stream that overrides that of StreamBase.
  unfoldable pub enqueue_routed : StreamRegistry → RouteStream → Message → Option Progress
  unfolding route_message route
  enqueue_routed r s msg =
      let (bytes, target) = s.base.format msg in
      let formatted : Message = record msg { payload = bytes } in
      let start : Progress = record {
        registry = r;
        stream = s.base;
        routes = s.routes;
        deliveries = [];
      } in
      if not (s.base.accepts msg)
      then some start
      else if not (msg.stream_id == target)
      then (route pick s.base formatted target >>= λ o.
          some (record start { stream = o.0; deliveries = o.1 }))
      else (route_message formatted start >>= λ p. some (
          if length p.routes == 0
          then record p { deliveries = p.deliveries ++ count_no_route ∷ [] }
          else p))

-- ===== src/RouteStream/Tests.antt =====
-- Three routes, of which one has no stream.
use x_pipeline.Prelude.{
  ℕ, true, false, List, [], ◌∷◌, none, some, ◌>>=◌, Bytes, if◌then◌else◌, ◌==◌, ◌≡◌, refl,
}
use mathlib.Core.List.{Perm}
use x_pipeline.Message.{Message}
use x_pipeline.Streams.{StreamBase, broadcast, to_stream, count_no_route, route}
use x_pipeline.Registry.{StreamRegistry, wildcard_producers_exist, get_stream}
use x_pipeline.RouteStream.{
  StreamWithId, route_message, route_from, bind_target, swap_remove, serve, enqueue_routed,
}
use x_pipeline.RouteStream.Removal.{kept_by}
use x_pipeline.RouteStream.Served.{serve_all, has_stream, progress, route_message-served}

abbrev hash : Bytes → ℕ
hash bytes = 0

abbrev pick : ℕ → ℕ
pick n = 0

abbrev stream : StreamBase
stream = record {
  accepts = λ msg. true;
  format = λ msg. (msg.payload, msg.stream_id);
  producers = [];
  bound_stream_id = 1;
  distribute = broadcast;
  prev_distribute = broadcast;
  paused = none;
  index = 0;
}

abbrev registry : StreamRegistry
registry = record {
  streams = λ id. if id == 4 then some stream else none;
  name = λ id. none;
  wildcard = [];
}

abbrev message : Message
message = record { payload = []; stream_id = 1; prev_stream_id = 1; sequence = 0 }

abbrev routes : List StreamWithId
routes =
    record { id = 2; bound = false }
    ∷ record { id = 3; bound = true }
    ∷ record { id = 4; bound = false }
    ∷ []

program : Unit {0}
unfolding route_message route_from bind_target swap_remove serve wildcard_producers_exist get_stream
    enqueue_routed route
program = tt

-- The first route has no stream, and the last one takes its place.
route_message-routes :
    route_message hash pick message (progress hash pick registry stream routes [])
    ≡ some (
        progress hash pick registry stream
          (record { id = 4; bound = false } ∷ record { id = 3; bound = true } ∷ [])
          (to_stream 4 (record message { stream_id = 4 })
            ∷ to_stream 3 (record message { stream_id = 3 })
            ∷ []))
unfolding program
route_message-routes = refl

-- Without routes a message goes nowhere.
no_routes :
    enqueue_routed hash pick registry (record { base = stream; routes = [] }) message
    ≡ some (progress hash pick registry stream [] (count_no_route ∷ []))
unfolding program
no_routes = refl

route_message-served_example :
    (kept : List StreamWithId) × Perm kept (kept_by (has_stream hash pick registry) routes)
    × (route_message hash pick message (progress hash pick registry stream routes []) ≡ (
        serve_all hash pick message kept stream >>= λ o.
        some (progress hash pick registry o.0 kept o.1)))
unfolding wildcard_producers_exist
route_message-served_example = route_message-served hash pick message registry stream routes refl

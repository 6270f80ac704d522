-- ===== src/Producer/Tests.antt =====
-- Runs of a producer.
use x_pipeline.Prelude.{ℕ, codes, true, false, List, [], ◌∷◌, ◌++◌, none, some, ◌≡◌, refl, arith}
use x_pipeline.Message.{Message, retarget}
use x_pipeline.WaitGroup.{Poll}
use x_pipeline.Producer.{
  active, waiting, dead, ProducerBase, Channel, Round, up_to, Event, drops, enqueue, stop_producer,
  roll, fuse_burn, fuse_active,
}
use x_pipeline.Producer.Delivery.{Delivered, enqueue-Delivered}
use x_pipeline.Producer.Returning.{enqueue_returns}
use x_pipeline.Producer.Control.{control_loop, fuse_after, control_loop-stop}

abbrev message : ℕ → Message
message n = record { payload = codes "m"; stream_id = 7; prev_stream_id = 7; sequence = n }

-- A channel of two messages that is full.
abbrev full : Channel
full = record { buffer = message 1 ∷ message 2 ∷ []; capacity = 2; received = []; shut = false }

abbrev writer : ProducerBase
writer = record {
  state = active;
  messages = full;
  timeout = up_to 10;
  filters = (λ msg. true) ∷ [];
  drop_stream_id = 3;
  fuse = some false;
  on_roll = true;
  on_stop = false;
}

abbrev at_time : ℕ → Round
at_time t = record { taken = 0; elapsed = t }

late_enqueue :
    enqueue writer (message 3) none (at_time 0 ∷ at_time 6 ∷ at_time 11 ∷ [])
    ≡ some (record writer { state = waiting }, drops (retarget (message 3) 3) ∷ [])
unfolding enqueue
late_enqueue = refl

enqueue-Delivered_example :
    Delivered writer
      (message 3)
      (record writer { state = waiting })
      (drops (retarget (message 3) 3) ∷ [])
enqueue-Delivered_example =
    enqueue-Delivered writer (message 3) none (at_time 0 ∷ at_time 6 ∷ at_time 11 ∷ []) late_enqueue

enqueue_returns_example :
    (x : ProducerBase × List Event) × (enqueue writer
        (message 3)
        (some (up_to 5))
        (at_time 0 ∷ (at_time 3 ∷ []) ++ at_time 6 ∷ [])
      ≡ some x)
enqueue_returns_example =
    enqueue_returns writer (message 3) 5 (at_time 0) (at_time 3 ∷ []) (at_time 6) refl (omega arith)

abbrev quick : Message → List Poll
quick msg = (record { counter = 1; elapsed = 1 }) ∷ []

abbrev overdue : Message → Poll
overdue msg = record { counter = 1; elapsed = 20 }

control_loop-stop_example :
    let r =
      control_loop
        ((fuse_burn ∷ fuse_burn ∷ roll ∷ []) ++ stop_producer ∷ (fuse_active ∷ []))
        writer in
    (r.left ≡ some (fuse_active ∷ []))
    × (r.producer.state ≡ dead)
    × (fuse_after (some false) r.events ≡ some r.producer.fuse)
control_loop-stop_example =
    control_loop-stop (fuse_burn ∷ fuse_burn ∷ roll ∷ []) (fuse_active ∷ []) writer refl

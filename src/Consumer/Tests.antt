-- ===== src/Consumer/Tests.antt =====
-- A consumer with two streams.
use x_pipeline.Prelude.{ℕ, true, false, codes, List, [], ◌∷◌, none, some, ◌≡◌, refl}
use x_pipeline.Message.{Message}
use x_pipeline.Streams.{StreamBase, Delivery, broadcast}
use x_pipeline.Producer.{active}
use x_pipeline.Consumer.{ConsumerBase, enqueue_message}
use x_pipeline.Consumer.Fanout.{IsPlain, arrivals, fan_out, enqueue_message-arrivals}

abbrev plain : List ℕ → StreamBase
plain producers = record {
  accepts = λ msg. true;
  format = λ msg. (msg.payload, msg.stream_id);
  producers = producers;
  bound_stream_id = 0;
  distribute = broadcast;
  prev_distribute = broadcast;
  paused = none;
  index = 0;
}

plain-IsPlain : (producers : List ℕ) → IsPlain (plain producers)
plain-IsPlain producers = record {
  accepts_all = λ msg. refl;
  forwards = λ msg. refl;
  broadcasts = refl;
}

abbrev two_streams : ConsumerBase
two_streams = record {
  streams =
      record { stream_id = 11; stream = plain (1 ∷ 2 ∷ []) }
      ∷ record { stream_id = 12; stream = plain (2 ∷ []) }
      ∷ [];
  state = active;
  fuse = none;
  on_roll = false;
  on_stop = false;
  on_fuse_burned = false;
  on_fuse_active = false;
}

abbrev greeting : Message
greeting = record { payload = codes "hi"; stream_id = 5; prev_stream_id = 4; sequence = 1 }

enqueue_message-arrivals_example :
    (out : List Delivery) × (enqueue_message (λ n. 0) two_streams greeting
      ≡ some (two_streams, out))
    × (arrivals out ≡ fan_out two_streams.streams greeting)
enqueue_message-arrivals_example =
    enqueue_message-arrivals (λ n. 0) two_streams greeting
      (plain-IsPlain (1 ∷ 2 ∷ []), (plain-IsPlain (2 ∷ []), tt))

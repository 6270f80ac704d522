-- ===== src/Consumer/Fanout.antt =====
-- core/consumer.go, with core/stream.go: who gets a message of a consumer.
use x_pipeline.Prelude.{
  ℕ, true, not, List, [], ◌∷◌, ◌++◌, some, ◌>>=◌, Bytes, length, ◌==◌, ==_refl, if_true, if_false,
  Bool-cases, arith, inl, inr, ◌≡◌, refl, sym, ap, ◌∙◌,
}
use x_pipeline.Message.{Message}
use x_pipeline.Streams.{
  StreamBase, Delivery, at_producer, to_stream, count_processed, count_no_route, count_filtered,
  broadcast, broadcast_to, enqueue, route, run_distribute,
}
use x_pipeline.Consumer.{MappedStream, ConsumerBase, address, enqueue_all, enqueue_message}

-- A stream that takes every message as it is, and broadcasts it.
pub record IsPlain (s : StreamBase) : Type 0 where
  pub accepts_all : (msg : Message) → s.accepts msg ≡ true
  pub forwards : (msg : Message) → s.format msg ≡ (msg.payload, msg.stream_id)
  pub broadcasts : s.distribute ≡ broadcast

abbrev pub AllPlain : List MappedStream → Type 0
AllPlain [] = Unit
AllPlain (m ∷ ms) = IsPlain m.stream × AllPlain ms

-- What arrives at the producers.
abbrev pub arrivals : List Delivery → List (ℕ × Message)
arrivals [] = []
arrivals (at_producer p msg ∷ ds) = (p, msg) ∷ arrivals ds
arrivals (to_stream id msg ∷ ds) = arrivals ds
arrivals (count_processed ∷ ds) = arrivals ds
arrivals (count_no_route ∷ ds) = arrivals ds
arrivals (count_filtered ∷ ds) = arrivals ds

abbrev pub sent_to : List ℕ → Message → List (ℕ × Message)
sent_to [] msg = []
sent_to (p ∷ ps) msg = (p, msg) ∷ sent_to ps msg

-- Each producer of each stream, with the message that bears the stream's id in both places.
abbrev pub fan_out : List MappedStream → Message → List (ℕ × Message)
fan_out [] msg = []
fan_out (m ∷ ms) msg =
    sent_to m.stream.producers
      (record msg { stream_id = m.stream_id; prev_stream_id = m.stream_id })
    ++ fan_out ms msg

arrivals-append : (xs ys : List Delivery) → arrivals (xs ++ ys) ≡ arrivals xs ++ arrivals ys
arrivals-append [] ys = refl
arrivals-append (at_producer p msg ∷ xs) ys =
    ap (λ (ds : List (ℕ × Message)). (p, msg) ∷ ds) (arrivals-append xs ys)
arrivals-append (to_stream id msg ∷ xs) ys = arrivals-append xs ys
arrivals-append (count_processed ∷ xs) ys = arrivals-append xs ys
arrivals-append (count_no_route ∷ xs) ys = arrivals-append xs ys
arrivals-append (count_filtered ∷ xs) ys = arrivals-append xs ys

broadcast_to-arrivals :
    (ps : List ℕ) (msg : Message) → arrivals (broadcast_to ps msg) ≡ sent_to ps msg
unfolding broadcast_to
broadcast_to-arrivals [] msg = refl
broadcast_to-arrivals (p ∷ ps) msg =
    ap (λ (ds : List (ℕ × Message)). (p, msg) ∷ ds) (broadcast_to-arrivals ps msg)

sent_none : (ps : List ℕ) (msg : Message) → (length ps == 0) ≡ true → sent_to ps msg ≡ []
sent_none [] msg e = refl
sent_none (p ∷ ps) msg e = ground arith

run_distribute_broadcast :
    (pick : ℕ → ℕ) (s : StreamBase) (msg : Message)
    → s.distribute ≡ broadcast
    → run_distribute pick s msg ≡ some (s, broadcast_to s.producers msg)
unfolding run_distribute
run_distribute_broadcast pick s msg e = rw e

route_own :
    (pick : ℕ → ℕ) (s : StreamBase) (msg : Message)
    → s.distribute ≡ broadcast
    → (out : List Delivery) × (route pick s msg msg.stream_id ≡ some (s, out))
      × (arrivals out ≡ sent_to s.producers msg)
unfolding route
route_own pick s msg e = elim (Bool-cases (length s.producers == 0)) [
  | inl nobody ↦ (
    count_no_route ∷ [],
    if_false (not (msg.stream_id == msg.stream_id)) _ _ (ap not (==_refl msg.stream_id))
        ∙ if_true (length s.producers == 0) _ _ nobody,
    sym (sent_none s.producers msg nobody),
  )
  | inr many ↦ (
    count_processed ∷ broadcast_to s.producers msg,
    if_false (not (msg.stream_id == msg.stream_id)) _ _ (ap not (==_refl msg.stream_id))
        ∙ if_false (length s.producers == 0) _ _ many
        ∙ rw (run_distribute_broadcast pick s msg e),
    broadcast_to-arrivals s.producers msg,
  )
]

enqueue-IsPlain :
    (pick : ℕ → ℕ) (s : StreamBase) (msg : Message)
    → IsPlain s
    → enqueue pick s msg ≡ route pick s msg msg.stream_id
unfolding enqueue
enqueue-IsPlain pick s msg h =
    if_true (s.accepts msg) _ _ (h.accepts_all msg)
    ∙ ap (λ (r : Bytes × ℕ). route pick s (record msg { payload = r.0 }) r.1) (h.forwards msg)

fan_out-address :
    (ms : List MappedStream) (id : ℕ) (msg : Message) → fan_out ms (address id msg) ≡ fan_out ms msg
fan_out-address [] id msg = refl
fan_out-address (m ∷ ms) id msg =
    ap
      (λ (xs : List (ℕ × Message)).
        sent_to m.stream.producers
          (record msg { stream_id = m.stream_id; prev_stream_id = m.stream_id })
        ++ xs)
      (fan_out-address ms id msg)

enqueue_all-AllPlain :
    (pick : ℕ → ℕ) (ms : List MappedStream) (msg : Message)
    → AllPlain ms
    → (out : List Delivery) × (enqueue_all pick ms msg ≡ some (ms, out))
      × (arrivals out ≡ fan_out ms msg)
unfolding enqueue_all
enqueue_all-AllPlain pick [] msg h = ([], refl, refl)
enqueue_all-AllPlain pick (m ∷ ms) msg (h, hs) =
    let addressed = address m.stream_id msg in
    let (first, e, got) = route_own pick m.stream addressed h.broadcasts in
    let (more, e', got') = enqueue_all-AllPlain pick ms addressed hs in
    (
      first ++ more,
      ap
            (λ o. o >>= λ r. enqueue_all pick ms addressed >>= λ rest.
              some ((record m { stream = r.0 }) ∷ rest.0, r.1 ++ rest.1))
            (enqueue-IsPlain pick m.stream addressed h ∙ e)
          ∙ ap (λ o. o >>= λ rest. some (m ∷ rest.0, first ++ rest.1)) e',
      arrivals-append first more
          ∙ ap (λ xs. xs ++ arrivals more) got
          ∙ ap (λ xs. sent_to m.stream.producers addressed ++ xs)
              (got' ∙ fan_out-address ms m.stream_id msg),
    )

-- A message that a consumer enqueues to streams that take it as it is and broadcast it arrives at each
-- producer of each stream, in order, once for each time it is listed, and at no other; it bears the
-- stream's id as its stream and as its previous stream too, whatever it had before. No stream changes.
pub enqueue_message-arrivals :
    (pick : ℕ → ℕ) (cons : ConsumerBase) (msg : Message)
    → AllPlain cons.streams
    → (out : List Delivery) × (enqueue_message pick cons msg ≡ some (cons, out))
      × (arrivals out ≡ fan_out cons.streams msg)
unfolding enqueue_message
enqueue_message-arrivals pick cons msg h =
    let (out, e, got) = enqueue_all-AllPlain pick cons.streams msg h in
    (out, ap (λ o. o >>= λ r. some (record cons { streams = r.0 }, r.1)) e, got)

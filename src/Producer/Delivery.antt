-- ===== src/Producer/Delivery.antt =====
-- core/producer.go: where each message of `Enqueue` is afterwards.
use x_pipeline.Prelude.{
  ℕ, ◌≤◌, ◌<◌, Bool, true, false, List, [], ◌∷◌, ◌++◌, Option, none, some, length, length-drop,
  length-append, take, drop, take-append-drop, ltb, leb, if◌then◌else◌, ◌≡◌, refl, sym, ap, ◌∙◌,
  append_assoc, append-nil, arith,
}
use std.Path.{subst}
use x_pipeline.Message.{Message, retarget}
use x_pipeline.Producer.{
  waiting, active, stopping, rank, Timeout, negative, no_limit, up_to, Channel, Round, receive_some,
  has_room, send, MessageState, ok, timed_out, discarded, send_panics, still_waiting, retry, block,
  enqueue_message, Event, counts_filtered, counts_discarded, drops, ProducerBase, accepts,
  drop_message, after_send, enqueue,
}

-- All that went through a channel, in order.
abbrev pub passed : Channel → List Message
passed c = c.received ++ c.buffer

receive_some-passed : (n : ℕ) (c : Channel) → passed (receive_some n c) ≡ passed c
unfolding receive_some
receive_some-passed n c =
    append_assoc c.received (take n c.buffer) (drop n c.buffer)
    ∙ ap (λ (xs : List Message). c.received ++ xs) (take-append-drop n c.buffer)

-- What a send adds to a channel.
abbrev pub added : MessageState → Message → List Message
added ok msg = msg ∷ []
added s msg = []

-- The channel has passed on what it had passed on before, and the message if it was sent; it holds
-- no more than its capacity.
pub record Passes (msg : Message) (c : Channel) (r : Channel × MessageState) : Type 0 where
  pub all : passed r.0 ≡ passed c ++ added r.1 msg
  pub room : length c.buffer ≤ c.capacity → length r.0.buffer ≤ r.0.capacity

received-Passes :
    (n : ℕ) (msg : Message) (c : Channel) (r : Channel × MessageState)
    → Passes msg (receive_some n c) r
    → Passes msg c r
unfolding receive_some
received-Passes n msg c r h = record {
  all = h.all ∙ ap (λ (xs : List Message). xs ++ added r.1 msg) (receive_some-passed n c);
  room = λ fits. h.room (omega (arith, fits, length-drop n c.buffer));
}

unchanged-Passes :
    (msg : Message) (c : Channel) (s : MessageState) → added s msg ≡ [] → Passes msg c (c, s)
unchanged-Passes msg c s e = record {
  all = sym (append-nil (passed c)) ∙ ap (λ (xs : List Message). passed c ++ xs) (sym e);
  room = λ h. h;
}

send-Passes : (msg : Message) (c : Channel) → has_room c ≡ true → Passes msg c (send msg c, ok)
unfolding has_room
send-Passes msg c free = record {
  all = sym (append_assoc c.received c.buffer (msg ∷ []));
  room = λ h. ground (arith, length-append c.buffer (msg ∷ []), free);
}

-- A turn of a loop: a panic, a send, or what follows.
turn-Passes :
    (shut free : Bool) (msg : Message) (c : Channel) (r : Channel × MessageState)
    → (free ≡ true → has_room c ≡ true)
    → Passes msg c r
    → Passes msg c (if shut then (c, send_panics) else if free then (send msg c, ok) else r)
turn-Passes true free msg c r e h = unchanged-Passes msg c send_panics refl
turn-Passes false true msg c r e h = send-Passes msg c (e refl)
turn-Passes false false msg c r e h = h

if_Passes :
    (b : Bool) (msg : Message) (c : Channel) (r r' : Channel × MessageState)
    → Passes msg c r
    → Passes msg c r'
    → Passes msg c (if b then r else r')
if_Passes true msg c r r' h h' = h
if_Passes false msg c r r' h h' = h'

retry-Passes :
    (msg : Message) (limit : ℕ) (rs : List Round) (c : Channel)
    → Passes msg c (retry msg limit rs c)
unfolding retry
retry-Passes msg limit [] c = unchanged-Passes msg c still_waiting refl
retry-Passes msg limit (r ∷ rs) c =
    let c' = receive_some r.taken c in
    received-Passes r.taken msg c _ (
      turn-Passes c'.shut (has_room c') msg c' _ (λ e. e)
        (if_Passes (ltb limit r.elapsed) msg c' (c', timed_out) (retry msg limit rs c')
          (unchanged-Passes msg c' timed_out refl) (retry-Passes msg limit rs c')))

block-Passes : (msg : Message) (rs : List Round) (c : Channel) → Passes msg c (block msg rs c)
unfolding block
block-Passes msg [] c = unchanged-Passes msg c still_waiting refl
block-Passes msg (r ∷ rs) c =
    let c' = receive_some r.taken c in
    received-Passes r.taken msg c _
      (turn-Passes c'.shut (has_room c') msg c' _ (λ e. e) (block-Passes msg rs c'))

pub enqueue_message-Passes :
    (msg : Message) (timeout : Timeout) (rounds : List Round) (c : Channel)
    → Passes msg c (enqueue_message msg timeout rounds c)
unfolding enqueue_message
enqueue_message-Passes msg timeout [] c = unchanged-Passes msg c still_waiting refl
enqueue_message-Passes msg no_limit (r ∷ rs) c = block-Passes msg (r ∷ rs) c
enqueue_message-Passes msg negative (r ∷ rs) c =
    let c' = receive_some r.taken c in
    received-Passes r.taken msg c _
      (turn-Passes c'.shut (has_room c') msg c' _ (λ e. e) (unchanged-Passes msg c' discarded refl))
enqueue_message-Passes msg (up_to limit) (r ∷ rs) c =
    let c' = receive_some r.taken c in
    received-Passes r.taken msg c _
      (turn-Passes c'.shut (has_room c') msg c' _ (λ e. e) (retry-Passes msg limit rs c'))

-- Where a message is after `Enqueue`, with the producer that is left and what was counted or dropped.
pub data Delivered (p : ProducerBase) (msg : Message) : ProducerBase → List Event → Type 0 where
  filtered_out : accepts p.filters msg ≡ false → Delivered p msg p (counts_filtered msg ∷ [])
  refused :
      accepts p.filters msg ≡ true
      → rank stopping ≤ rank p.state
      → Delivered p msg p (drops (retarget msg p.drop_stream_id) ∷ [])
  queued :
      (c : Channel)
      → accepts p.filters msg ≡ true
      → rank p.state < rank stopping
      → passed c ≡ passed p.messages ++ msg ∷ []
      → Delivered p msg (record p { messages = c; state = active }) []
  dropped :
      (c : Channel)
      → accepts p.filters msg ≡ true
      → rank p.state < rank stopping
      → passed c ≡ passed p.messages
      → Delivered p msg
          (record p { messages = c; state = waiting })
          (drops (retarget msg p.drop_stream_id) ∷ [])
  forgotten :
      (c : Channel)
      → accepts p.filters msg ≡ true
      → rank p.state < rank stopping
      → passed c ≡ passed p.messages
      → Delivered p msg (record p { messages = c; state = waiting }) (counts_discarded msg ∷ [])

abbrev Good : ProducerBase → Message → Option (ProducerBase × List Event) → Type 0
Good p msg none = Unit
Good p msg (some (p', events)) = Delivered p msg p' events

after_send-Good :
    (p : ProducerBase) (msg : Message) (c : Channel) (s : MessageState)
    → accepts p.filters msg ≡ true
    → rank p.state < rank stopping
    → passed c ≡ passed p.messages ++ added s msg
    → Good p msg (after_send p msg (c, s))
unfolding after_send drop_message
after_send-Good p msg c timed_out h k e = dropped c h k (e ∙ append-nil (passed p.messages))
after_send-Good p msg c discarded h k e = forgotten c h k (e ∙ append-nil (passed p.messages))
after_send-Good p msg c ok h k e = queued c h k e
after_send-Good p msg c send_panics h k e = tt
after_send-Good p msg c still_waiting h k e = tt

choose-Good :
    (a b : Bool) (p : ProducerBase) (msg : Message) (sent : Option (ProducerBase × List Event))
    → accepts p.filters msg ≡ a
    → leb (rank stopping) (rank p.state) ≡ b
    → (accepts p.filters msg ≡ true → rank p.state < rank stopping → Good p msg sent)
    → Good p msg (
        if a
        then if b then some (p, drop_message p msg ∷ []) else sent
        else some (p, counts_filtered msg ∷ []))
unfolding drop_message
choose-Good true true p msg sent h k g = refused h (ground arith)
choose-Good true false p msg sent h k g = g h (ground arith)
choose-Good false b p msg sent h k g = filtered_out h

enqueue-Good :
    (p : ProducerBase) (msg : Message) (timeout : Option Timeout) (rounds : List Round)
    → Good p msg (enqueue p msg timeout rounds)
unfolding enqueue
enqueue-Good p msg timeout rounds =
    let used : Timeout = elim timeout [ none ↦ p.timeout | some t ↦ t ] in
    let r = enqueue_message msg used rounds p.messages in
    choose-Good (accepts p.filters msg) (leb (rank stopping) (rank p.state)) p msg
      (after_send p msg r) refl refl
      (λ h k.
        after_send-Good p msg r.0 r.1 h k (enqueue_message-Passes msg used rounds p.messages).all)

-- A call of `Enqueue` that returns has done one of five things: a filter rejects the message, which is
-- counted as filtered; all filters accept it but the producer stops or is dead, and it is dropped; or the
-- filters accept it and the producer does not stop, and it went into the channel behind all others, and
-- the producer is active, or it was dropped or discarded, and the producer waits. The first two change
-- nothing; in the last three the channel has passed on what it had passed on before, in order, and the
-- message only if it was sent.
pub enqueue-Delivered :
    (p : ProducerBase) (msg : Message) (timeout : Option Timeout) (rounds : List Round)
    → {p' : ProducerBase} {events : List Event} → enqueue p msg timeout rounds ≡ some (p', events)
    → Delivered p msg p' events
enqueue-Delivered p msg timeout rounds e = subst (Good p msg) e (enqueue-Good p msg timeout rounds)

-- ===== src/Producer/Returning.antt =====
-- core/producer.go: when `Enqueue` returns.
use x_pipeline.Prelude.{
  ℕ, ◌<◌, Bool, true, false, List, [], ◌∷◌, ◌++◌, Option, some, ltb, leb, if◌then◌else◌, ◌≡◌, refl,
  arith,
}
use x_pipeline.Message.{Message}
use x_pipeline.Producer.{
  stopping, rank, up_to, Channel, Round, receive_some, has_room, send, MessageState, ok, timed_out,
  discarded, send_panics, still_waiting, retry, enqueue_message, Event, ProducerBase, accepts,
  after_send, enqueue,
}

-- The states of a call that has returned without a panic.
abbrev returned : MessageState → Bool
returned send_panics = false
returned still_waiting = false
returned s = true

turn-returned :
    (shut free : Bool) (msg : Message) (c : Channel) (r : Channel × MessageState)
    → shut ≡ false
    → (free ≡ false → returned r.1 ≡ true)
    → returned (if shut then (c, send_panics) else if free then (send msg c, ok) else r).1 ≡ true
turn-returned true free msg c r e h = cc
turn-returned false true msg c r e h = refl
turn-returned false false msg c r e h = h refl

late_if-returned :
    (b : Bool) (c : Channel) (r : Channel × MessageState)
    → (b ≡ false → returned r.1 ≡ true)
    → returned (if b then (c, timed_out) else r).1 ≡ true
late_if-returned true c r h = refl
late_if-returned false c r h = h refl

retry-returned :
    (msg : Message) (limit : ℕ) (rs : List Round) (late : Round) (c : Channel)
    → c.shut ≡ false
    → limit < late.elapsed
    → returned (retry msg limit (rs ++ late ∷ []) c).1 ≡ true
unfolding retry receive_some
retry-returned msg limit [] late c unshut h =
    let c' = receive_some late.taken c in
    turn-returned c'.shut (has_room c') msg c' _ unshut
      (λ full. late_if-returned (ltb limit late.elapsed) c' _ (λ early. absurd (ground arith)))
retry-returned msg limit (r ∷ rs) late c unshut h =
    let c' = receive_some r.taken c in
    turn-returned c'.shut (has_room c') msg c' _ unshut (λ full.
      late_if-returned (ltb limit r.elapsed) c' _
        (λ early. retry-returned msg limit rs late c' unshut h))

after_send-returned :
    (p : ProducerBase) (msg : Message) (c : Channel) (s : MessageState)
    → returned s ≡ true
    → (x : ProducerBase × List Event) × (after_send p msg (c, s) ≡ some x)
unfolding after_send
after_send-returned p msg c ok e = (_, refl)
after_send-returned p msg c timed_out e = (_, refl)
after_send-returned p msg c discarded e = (_, refl)
after_send-returned p msg c send_panics e = cc
after_send-returned p msg c still_waiting e = cc

choose-some :
    {A : Type 0} (a b : Bool) (x y : A) (o : Option A)
    → (z : A) × (o ≡ some z)
    → (z : A) × ((if a then if b then some x else o else some y) ≡ some z)
choose-some true true x y o h = (x, refl)
choose-some true false x y o h = h
choose-some false b x y o h = (y, refl)

-- With a timeout above zero, `Enqueue` to a channel that is not closed returns at the latest with the
-- first turn behind the second one that begins later than the timeout, whatever was received.
pub enqueue_returns :
    (p : ProducerBase) (msg : Message) (limit : ℕ) (first : Round) (rs : List Round) (late : Round)
    → p.messages.shut ≡ false
    → limit < late.elapsed
    → (x : ProducerBase × List Event) × (enqueue p msg
          (some (up_to limit))
          (first ∷ (rs ++ late ∷ []))
        ≡ some x)
unfolding enqueue enqueue_message receive_some
enqueue_returns p msg limit first rs late unshut h =
    let c' = receive_some first.taken p.messages in
    let r = enqueue_message msg (up_to limit) (first ∷ (rs ++ late ∷ [])) p.messages in
    choose-some (accepts p.filters msg) (leb (rank stopping) (rank p.state)) _ _ _ (
      after_send-returned p msg r.0 r.1 (
        turn-returned c'.shut (has_room c') msg c' _ unshut
          (λ full. retry-returned msg limit rs late c' unshut h)))

-- ===== src/Producer.antt =====
-- core/producer.go, with the states of core/plugin.go and `Enqueue` of core/message.go: the channel of
-- a producer, what becomes of a message that is enqueued, how the channel is closed, and the loop of
-- control commands. Who receives from the channel, and the time, are arguments: a `Round` for each
-- turn of a loop. The channel has room for one message at least.
pub mod Delivery
pub mod Returning
pub mod Closing
pub mod Control
mod Tests
use x_pipeline.Prelude.{
  ℕ, ◌+◌, Bool, true, false, ◌||◌, List, [], ◌∷◌, ◌++◌, Option, none, some, length, take, drop, ltb,
  leb, ◌==◌, if◌then◌else◌,
}
use x_pipeline.Message.{Message, retarget}

pub data PluginState : Type 0 where
  initializing waiting active stopping dead : PluginState

-- The value of the constant.
abbrev pub rank : PluginState → ℕ
rank initializing = 0
rank waiting = 1
rank active = 2
rank stopping = 3
rank dead = 4

pub data PluginControl : Type 0 where
  stop_producer stop_consumer roll fuse_burn fuse_active : PluginControl

-- A duration below zero, zero, or above zero.
pub data Timeout : Type 0 where
  negative no_limit : Timeout
  up_to : ℕ → Timeout

pub record Channel : Type 0 where
  pub buffer : List Message
  pub capacity : ℕ
  pub received : List Message  -- by whoever reads from it, in this order
  pub shut : Bool

-- Before this turn so many messages were received, and so much time has gone by.
pub record Round : Type 0 where
  pub taken : ℕ
  pub elapsed : ℕ

unfoldable pub receive_some : ℕ → Channel → Channel
receive_some n c = record c { buffer = drop n c.buffer; received = c.received ++ take n c.buffer }

unfoldable pub has_room : Channel → Bool
has_room c = ltb (length c.buffer) c.capacity

abbrev pub send : Message → Channel → Channel
send msg c = record c { buffer = c.buffer ++ msg ∷ [] }

-- The results of `Message.Enqueue`; or a panic, or there were no more rounds.
pub data MessageState : Type 0 where
  ok timed_out discarded send_panics still_waiting : MessageState

-- The loop of retries, behind the start of the clock.
unfoldable pub retry : Message → ℕ → List Round → Channel → Channel × MessageState
unfolding receive_some has_room
retry msg limit [] c = (c, still_waiting)
retry msg limit (r ∷ rs) c =
    let c' = receive_some r.taken c in
    let rest = retry msg limit rs c' in
    if c'.shut
    then (c', send_panics)
    else if has_room c'
    then (send msg c', ok)
    else if ltb limit r.elapsed
    then (c', timed_out)
    else rest

-- `channel <- msg`.
unfoldable pub block : Message → List Round → Channel → Channel × MessageState
unfolding receive_some has_room
block msg [] c = (c, still_waiting)
block msg (r ∷ rs) c =
    let c' = receive_some r.taken c in
    let rest = block msg rs c' in
    if c'.shut then (c', send_panics) else if has_room c' then (send msg c', ok) else rest

unfoldable pub enqueue_message : Message → Timeout → List Round → Channel → Channel × MessageState
unfolding retry block
enqueue_message msg timeout [] c = (c, still_waiting)
enqueue_message msg no_limit (r ∷ rs) c = block msg (r ∷ rs) c
enqueue_message msg negative (r ∷ rs) c =
    let c' = receive_some r.taken c in
    if c'.shut
    then (c', send_panics)
    else if has_room c'
    then (send msg c', ok)
    else (c', discarded)
enqueue_message msg (up_to limit) (r ∷ rs) c =
    let c' = receive_some r.taken c in
    let rest = retry msg limit rs c' in
    if c'.shut then (c', send_panics) else if has_room c' then (send msg c', ok) else rest

-- What a producer does besides changing its state. A dropped message is as the drop stream gets it.
pub data Event : Type 0 where
  counts_filtered counts_discarded drops handles : Message → Event
  rolls stops burns activates checks : Event

-- The fuse of `GetFuse`, if there is one, is burned or not; the callbacks are there or not.
pub record ProducerBase : Type 0 where
  pub state : PluginState
  pub messages : Channel
  pub timeout : Timeout
  pub filters : List (Message → Bool)
  pub drop_stream_id : ℕ
  pub fuse : Option Bool
  pub on_roll : Bool
  pub on_stop : Bool

abbrev pub is_blocked : ProducerBase → Bool
is_blocked p = rank p.state == rank waiting

unfoldable pub is_active : ProducerBase → Bool
is_active p = leb (rank p.state) (rank active)

unfoldable pub is_stopping : ProducerBase → Bool
is_stopping p = rank p.state == rank stopping

unfoldable pub is_active_or_stopping : ProducerBase → Bool
unfolding is_active is_stopping
is_active_or_stopping p = is_active p || is_stopping p

abbrev pub set_state : PluginState → ProducerBase → ProducerBase
set_state s p = record p { state = s }

unfoldable pub accepts : List (Message → Bool) → Message → Bool
accepts [] msg = true
accepts (f ∷ fs) msg = if f msg then accepts fs msg else false

unfoldable pub drop_message : ProducerBase → Message → Event
unfolding retarget
drop_message p msg = drops (retarget msg p.drop_stream_id)

-- The switch on the result of `msg.Enqueue`; `none` for a panic or a call that has not returned.
unfoldable pub after_send :
    ProducerBase → Message → Channel × MessageState → Option (ProducerBase × List Event)
unfolding drop_message
after_send p msg (c, timed_out) =
    some (record p { messages = c; state = waiting }, drop_message p msg ∷ [])
after_send p msg (c, discarded) =
    some (record p { messages = c; state = waiting }, counts_discarded msg ∷ [])
after_send p msg (c, ok) = some (record p { messages = c; state = active }, [])
after_send p msg (c, send_panics) = none
after_send p msg (c, still_waiting) = none

-- `Enqueue`, with the timeout that the caller may pass.
unfoldable pub enqueue :
    ProducerBase → Message → Option Timeout → List Round → Option (ProducerBase × List Event)
unfolding accepts enqueue_message after_send
enqueue p msg timeout rounds =
    let used : Timeout = elim timeout [ none ↦ p.timeout | some t ↦ t ] in
    let sent = after_send p msg (enqueue_message msg used rounds p.messages) in
    if accepts p.filters msg
    then if leb (rank stopping) (rank p.state) then some (p, drop_message p msg ∷ []) else sent
    else some (p, counts_filtered msg ∷ [])

-- `Next` on a channel that has a message or is closed; `none` where it blocks.
unfoldable pub next : ProducerBase → Option (ProducerBase × Option Message)
next p = elim p.messages.buffer [
  | [] ↦ if p.messages.shut then some (p, none) else none
  | msg ∷ rest ↦ some (
    record p {
      messages = record p.messages { buffer = rest; received = p.messages.received ++ msg ∷ [] };
    },
    some msg,
  )
]

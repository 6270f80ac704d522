-- ===== src/Streams.antt =====
-- core/stream.go, core/streamregistry.go and stream/: streams, which hand messages to producers.
-- Producers are numbers, by identity. What a stream does is the list of its deliveries: a message at a
-- producer, a message handed to another stream, or a counter. Filter and formatter are functions.
pub mod Producers
pub mod Pausing
mod Tests
use x_pipeline.Prelude.{
  ℕ, zero, suc, ◌+◌, ◌-◌, ◌%◌, Bool, true, false, not, ◌&&◌, List, [], ◌∷◌, ◌++◌, Option, none,
  some, Bytes, length, get_elem?, ltb, ◌==◌, if◌then◌else◌,
}
use x_pipeline.Message.{Message, retarget}

pub data Delivery : Type 0 where
  at_producer : ℕ → Message → Delivery
  to_stream : ℕ → Message → Delivery
  count_processed count_no_route count_filtered : Delivery

-- The functions that `distribute` can be.
pub data Distributor : Type 0 where
  broadcast : Distributor
  random : Distributor
  round_robin : Distributor
  stash : Distributor

-- The channel of a paused stream. Nothing receives from it before `Resume` has closed it.
pub record Stash : Type 0 where
  pub capacity : ℕ
  pub messages : List Message

pub record StreamBase : Type 0 where
  pub accepts : Message → Bool
  pub format : Message → Bytes × ℕ
  pub producers : List ℕ
  pub bound_stream_id : ℕ
  pub distribute : Distributor
  pub prev_distribute : Distributor
  pub paused : Option Stash
  pub index : ℕ  -- of a RoundRobin, an int32

unfoldable pub contains : List ℕ → ℕ → Bool
contains [] p = false
contains (q ∷ qs) p = if q == p then true else contains qs p

-- `AddProducer` returns at the first producer that is in the list already.
unfoldable pub add_producers : List ℕ → List ℕ → List ℕ
unfolding contains
add_producers known [] = known
add_producers known (p ∷ ps) =
    if contains known p then known else add_producers (known ++ p ∷ []) ps

unfoldable pub add_producer : StreamBase → List ℕ → StreamBase
unfolding add_producers
add_producer s ps = record s { producers = add_producers s.producers ps }

-- `RegisterWildcardProducer` goes on behind it.
unfoldable pub register_wildcard_producer : List ℕ → List ℕ → List ℕ
unfolding contains
register_wildcard_producer known [] = known
register_wildcard_producer known (p ∷ ps) =
    if contains known p
    then register_wildcard_producer known ps
    else register_wildcard_producer (known ++ p ∷ []) ps

-- `AddWildcardProducersToStream`: not to the streams of the log and of dropped messages.
unfoldable pub add_wildcard_producers : ℕ → ℕ → List ℕ → StreamBase → StreamBase
unfolding add_producer
add_wildcard_producers log_id dropped_id wildcard s =
    if not (s.bound_stream_id == log_id) && not (s.bound_stream_id == dropped_id)
    then add_producer s wildcard
    else s

unfoldable pub pause : StreamBase → ℕ → StreamBase
pause s capacity = elim s.paused [
  | none ↦ record s {
    paused = some (record { capacity = capacity; messages = [] });
    prev_distribute = s.distribute;
    distribute = stash;
  }
  | some channel ↦ s
]

-- The send of `stash`, on a nil channel or one that has room or not; `none` is a send that does not
-- return: it waits for room, which there never is, and panics if `Resume` closes the channel.
abbrev pub stash_message : Option Stash → Message → Option Stash
stash_message none msg = none
stash_message (some channel) msg =
    if ltb (length channel.messages) channel.capacity
    then some (record channel { messages = channel.messages ++ msg ∷ [] })
    else none

unfoldable pub broadcast_to : List ℕ → Message → List Delivery
broadcast_to [] msg = []
broadcast_to (p ∷ ps) msg = at_producer p msg ∷ broadcast_to ps msg

-- One producer by its index; `none` is an index out of range.
unfoldable pub deliver_one : List ℕ → ℕ → Message → Option (List Delivery)
deliver_one ps i msg = elim (get_elem? ps i) [
  | none ↦ none
  | some p ↦ some (at_producer p msg ∷ [])
]

-- The index of `RoundRobin` after the int32 was increased: a negative one is out of range.
-- A remainder by zero panics too.
unfoldable pub next_index : ℕ → ℕ → Option ℕ
next_index i zero = none
next_index i (suc n) =
    let j = (i + 1) % 0x100000000 in
    let rest = (0x100000000 - j) % suc n in
    if ltb j 0x80000000 then some (j % suc n) else if rest == 0 then some 0 else none

-- The call of `stream.distribute`; `pick n` is what `rand.Intn(n)` returns. `none` is a call that does
-- not return: a panic, or the send of `stash` on a full channel.
unfoldable pub run_distribute : (ℕ → ℕ) → StreamBase → Message → Option (StreamBase × List Delivery)
unfolding broadcast_to deliver_one next_index
run_distribute pick s msg = elim s.distribute [
  | broadcast ↦ some (s, broadcast_to s.producers msg)
  | random ↦ elim (deliver_one s.producers (pick (length s.producers)) msg) [
    | none ↦ none
    | some out ↦ some (s, out)
  ]
  | round_robin ↦ elim (next_index s.index (length s.producers)) [
    | none ↦ none
    | some i ↦ elim (deliver_one s.producers i msg) [
      | none ↦ none
      | some out ↦ some (record s { index = (s.index + 1) % 0x100000000 }, out)
    ]
  ]
  | stash ↦ elim (stash_message s.paused msg) [
    | none ↦ none
    | some channel ↦ some (record s { paused = some channel }, [])
  ]
]

-- `Route`: to another stream, or to the producers if there are any.
unfoldable pub route : (ℕ → ℕ) → StreamBase → Message → ℕ → Option (StreamBase × List Delivery)
unfolding run_distribute retarget
route pick s msg target =
    if not (msg.stream_id == target)
    then some (s, to_stream target (retarget msg target) ∷ [])
    else if length s.producers == 0
    then some (s, count_no_route ∷ [])
    else elim (run_distribute pick s msg) [
      | none ↦ none
      | some (s', out) ↦ some (s', count_processed ∷ out)
    ]

unfoldable pub enqueue : (ℕ → ℕ) → StreamBase → Message → Option (StreamBase × List Delivery)
unfolding route
enqueue pick s msg =
    let (bytes, target) = s.format msg in
    if s.accepts msg
    then route pick s (record msg { payload = bytes }) target
    else some (s, count_filtered ∷ [])

-- Messages that are distributed in order, as the goroutine of `Resume` does with what was stashed.
unfoldable pub distribute_all :
    (ℕ → ℕ) → StreamBase → List Message → Option (StreamBase × List Delivery)
unfolding run_distribute
distribute_all pick s [] = some (s, [])
distribute_all pick s (m ∷ ms) = elim (run_distribute pick s m) [
  | none ↦ none
  | some (s', out) ↦ elim (distribute_all pick s' ms) [
    | none ↦ none
    | some (s'', rest) ↦ some (s'', out ++ rest)
  ]
]

-- `Resume` with its goroutine run to the end, as `Flush` waits for it.
unfoldable pub resume : (ℕ → ℕ) → StreamBase → Option (StreamBase × List Delivery)
unfolding distribute_all
resume pick s = elim s.paused [
  | none ↦ some (s, [])
  | some channel ↦
      distribute_all pick (record s { distribute = s.prev_distribute; paused = none })
        channel.messages
]

-- ===== src/Producer/Closing.antt =====
-- core/producer.go: CloseMessageChannel, which hands on what is left in the channel. What
-- `flushWorker.WaitFor` finds while a message is handled is an argument.
use x_pipeline.Prelude.{ℕ, Bool, true, false, List, [], ◌∷◌, ◌++◌, Option, none, some, map, ◌≡◌}
use x_pipeline.Message.{Message}
use x_pipeline.WaitGroup.{Poll, wait_for}
use x_pipeline.Producer.{ProducerBase, Event, handles, drop_message}

-- It returns; the channel is closed already, which panics; or it still waits for a handler.
pub data Closing : Type 0 where
  closed : ProducerBase → Bool → List Event → Closing
  close_panics still_closing : Closing

-- One message: what was waited for, and the result of the messages behind it.
abbrev pub after_wait :
    ProducerBase
    → Message
    → List Message
    → Option Bool
    → Option (Bool × List Event)
    → Option (Bool × List Event)
after_wait p msg msgs none rest = none
after_wait p msg msgs (some false) rest = some (false, handles msg ∷ map (drop_message p) msgs)
after_wait p msg msgs (some true) none = none
after_wait p msg msgs (some true) (some (ok, events)) = some (ok, handles msg ∷ events)

-- The loop over the channel, with its result.
unfoldable pub handle_all :
    (Message → List Poll) → ℕ → ProducerBase → List Message → Option (Bool × List Event)
handle_all polls limit p [] = some (true, [])
handle_all polls limit p (msg ∷ msgs) =
    after_wait p msg msgs (wait_for limit (polls msg)) (handle_all polls limit p msgs)

-- The channel after the loop.
abbrev pub emptied : ProducerBase → ProducerBase
emptied p =
    let c = p.messages in
    record p { messages = record c { buffer = []; received = c.received ++ c.buffer; shut = true } }

abbrev pub close_with : Bool → ProducerBase → Option (Bool × List Event) → Closing
close_with true p result = close_panics
close_with false p none = still_closing
close_with false p (some (ok, events)) = closed (emptied p) ok events

unfoldable pub close_message_channel : (Message → List Poll) → ℕ → ProducerBase → Closing
unfolding handle_all
close_message_channel polls limit p =
    close_with p.messages.shut p (handle_all polls limit p p.messages.buffer)

-- The events of a channel that is closed: its messages in order, handled up to some point and dropped
-- behind it.
pub record HandsOn (p : ProducerBase) (msgs : List Message) (ok : Bool) (events : List Event)
    : Type 0 where
  pub handled : List Message
  pub lost : List Message
  pub order : handled ++ lost ≡ msgs
  pub reported : events ≡ map handles handled ++ map (drop_message p) lost
  pub complete : ok ≡ true → lost ≡ []

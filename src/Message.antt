-- ===== src/Message.antt =====
-- core/message.go: messages. The source and the timestamp of a message, which only pass through,
-- are left out. The hash of a stream's name is a parameter.
use x_pipeline.Prelude.{ℕ, Bytes}

pub record Message : Type 0 where
  pub payload : Bytes
  pub stream_id : ℕ
  pub prev_stream_id : ℕ
  pub sequence : ℕ

abbrev pub invalid_stream_id : ℕ
invalid_stream_id = 0

-- `NewMessage`, with the id of the wildcard stream.
unfoldable pub new_message : ℕ → Bytes → ℕ → Message
new_message wildcard bytes sequence = record {
  payload = bytes;
  stream_id = wildcard;
  prev_stream_id = wildcard;
  sequence = sequence;
}

-- What `Route` changes before the message is enqueued to the stream of its target.
unfoldable pub retarget : Message → ℕ → Message
retarget msg target = record msg { prev_stream_id = msg.stream_id; stream_id = target }

-- ===== src/Formats.antt =====
-- format/: the formatters that work on the bytes and the stream of a message. Each takes the
-- formatter it builds on and the values of its configuration. The ids of stream names are a parameter,
-- as is the text that `time.Format` returns. A payload and a stream id come back.
pub mod Framing
pub mod Routing
pub mod Splitting
mod Tests
use x_pipeline.Prelude.{
  ℕ, zero, suc, ◌+◌, Bool, false, List, [], ◌∷◌, ◌++◌, none, some, Bytes, length, get_elem?, take,
  drop, ltb, ◌==◌, if◌then◌else◌,
}
use x_pipeline.Numbers.Decimal.{itoa}
use x_pipeline.Reader.{index}
use x_pipeline.Message.{Message}

abbrev pub Formatter : Type 0
Formatter = Message → Bytes × ℕ

unfoldable pub forward : Formatter
forward msg = (msg.payload, msg.stream_id)

unfoldable pub clear_message : Formatter
clear_message msg = ([], msg.stream_id)

-- The payload is `strconv.Itoa` of its length, the separator, and itself.
unfoldable pub runlength : Formatter → Bytes → Formatter
unfolding itoa
runlength base separator msg =
    let (bytes, stream) = base msg in (itoa (length bytes) ++ (separator ++ bytes), stream)

unfoldable pub sequence_prefix : Formatter → Bytes → Formatter
unfolding itoa
sequence_prefix base separator msg =
    let (bytes, stream) = base msg in (itoa msg.sequence ++ (separator ++ bytes), stream)

unfoldable pub timestamp : Formatter → Bytes → Formatter
timestamp base text msg = let (bytes, stream) = base msg in (text ++ bytes, stream)

unfoldable pub envelope : Formatter → Bytes → Bytes → Formatter
envelope base prefix postfix msg =
    let (bytes, stream) = base msg in (prefix ++ (bytes ++ postfix), stream)

-- `bytes.Split` for a separator that is not empty. The fuel exceeds the number of separators.
unfoldable pub split : ℕ → Bytes → Bytes → List Bytes
unfolding index
split zero bytes sep = bytes ∷ []
split (suc fuel) bytes sep = elim (index bytes sep) [
  | none ↦ bytes ∷ []
  | some i ↦ take i bytes ∷ split fuel (drop (i + length sep) bytes) sep
]

unfoldable pub split_pick : Formatter → ℕ → Bytes → Formatter
unfolding split
split_pick base i delimiter msg =
    let (bytes, stream) = base msg in
    (
      elim (get_elem? (split (length bytes) bytes delimiter) i) [ none ↦ [] | some part ↦ part ],
      stream,
    )

unfoldable pub stream_revert : Formatter → Formatter
stream_revert base msg = ((base msg).0, msg.prev_stream_id)

-- `stream_format` is applied to the name if `format_both` is given.
unfoldable pub routed_name : (Bytes → Bytes) → Bool → Bytes → Bytes
routed_name stream_format format_both name = if format_both then stream_format name else name

-- A space before the delimiter keeps the message as it is.
unfoldable pub space_before : Bytes → ℕ → Bool
unfolding index
space_before bytes at = elim (index bytes (b' ' ∷ [])) [ none ↦ false | some i ↦ ltb i at ]

unfoldable pub stream_route : (Bytes → ℕ) → Formatter → (Bytes → Bytes) → Bool → Bytes → Formatter
unfolding index space_before routed_name
stream_route get_stream_id base stream_format format_both delimiter msg =
    elim (index msg.payload delimiter) [
      | none ↦ base msg
      | some zero ↦ base (record msg { payload = drop 1 msg.payload })
      | some (suc i) ↦
          if space_before msg.payload (suc i)
          then base msg
          else base (record msg {
            stream_id =
                get_stream_id (routed_name stream_format format_both (take (suc i) msg.payload));
            payload = drop (suc i + 1) msg.payload;
          })
    ]

unfoldable pub stream_name : (ℕ → Bytes) → Formatter → Bytes → Bool → Formatter
stream_name get_stream_name base separator use_previous msg =
    let (bytes, stream) = base msg in
    let named =
      if use_previous
      then if stream == msg.stream_id then msg.prev_stream_id else msg.stream_id
      else stream in
    (get_stream_name named ++ (separator ++ bytes), stream)

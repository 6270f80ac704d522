-- ===== src/Reader.antt =====
-- shared/bufferedreader.go: messages cut out of a stream of bytes.
-- A Go int is a number modulo 2 ^ 64 (two's complement), so that conversions of lengths that were
-- read from the stream wrap as they do there; offsets and sizes of buffers are below 2 ^ 63. What
-- `reader.Read` delivers is an argument. A panic is a result of its own.
mod Framing
pub mod Window
pub mod Modest
pub mod Stream
pub mod Stalls
pub mod All
mod Tests
unfoldable pub use Framing.*
use x_pipeline.Prelude.{
  ℕ, ◌+◌, ◌-◌, ◌%◌, Bool, true, false, not, ◌&&◌, ◌||◌, ◌++◌, Option, none, some, Bytes, length,
  take, drop, replicate, ltb, leb, ◌==◌, if◌then◌else◌,
}
use x_pipeline.Numbers.{u64_mod}

-- The bytes that are read and not yet consumed, and what lies behind them.
abbrev pub window : BufferedReader → Bytes
window b = take (b.end - b.begin) (drop b.begin b.buf)

pub data Parsed : Type 0 where
  message : BufferedReader → Bytes → Parsed
  no_message : Parsed
  parse_panic : Parsed

-- `extractMessage`: a slice is out of range where its bounds cross or pass the capacity.
unfoldable pub extract_message : BufferedReader → ℕ → ℕ → ℕ → Parsed
extract_message b len start pad =
    let next = (b.begin + start + len + pad) % u64_mod in
    let lo = (b.begin + start) % u64_mod in
    let hi = (b.begin + start + len) % u64_mod in
    if greater next b.end
    then no_message
    else if leb lo hi && leb hi (length b.buf)
    then message (record b { begin = next }) (take (hi - lo) (drop lo b.buf))
    else parse_panic

-- `msgLen > 0` on the int.
abbrev pub positive : ℕ → Bool
positive len = ltb len int_max && ltb 0 len

abbrev pub on_frame : BufferedReader → Frame → Parsed
on_frame b panics = parse_panic
on_frame b (frame len start pad) =
    if positive len then extract_message b len start pad else no_message

unfoldable pub parse_complex : BufferedReader → Parsed
unfolding check_complete extract_message
parse_complex b = on_frame b (check_complete b b.method (window b) (drop b.end b.buf))

-- What `reader.Read` returns: the bytes, and io.EOF or another error.
pub data ReadError : Type 0 where
  no_error eof failed : ReadError

pub record Chunk : Type 0 where
  pub bytes : Bytes
  pub error : ReadError

-- `ReadOne`: the new reader, the message with its sequence number, `more`, and the error.
pub data Reading : Type 0 where
  reading : BufferedReader → Option (Bytes × ℕ) → Bool → ReadError → Reading
  read_panic : Reading

abbrev pub has_more : BufferedReader → Bool
has_more b = ltb b.begin b.end

-- The room that is left, if nothing was found: moved to the front, or grown.
unfoldable pub make_room : BufferedReader → BufferedReader
make_room b =
    if length b.buf == b.end
    then if not (0 == b.begin)
      then record b {
        buf = window b ++ drop (b.end - b.begin) b.buf;
        end = b.end - b.begin;
        begin = 0;
      }
      else record b { buf = b.buf ++ replicate b.grow_size 0 }
    else b

unfoldable pub after_parse : BufferedReader → Parsed → Reading
unfolding make_room reset
after_parse b parse_panic = read_panic
after_parse b no_message =
    if b.begin == b.end
    then reading (reset b b.sequence) none true no_error
    else reading (record (make_room b) { incomplete = true }) none true no_error
after_parse b (message b' text) =
    let r = if not (0 == b'.begin) && b'.begin == b'.end then reset b' b'.sequence else b' in
    reading (record r { sequence = (r.sequence + 1) % u64_mod }) (some (text, r.sequence))
      (has_more r) no_error

-- The bytes that were read go behind the window.
unfoldable pub receive : BufferedReader → Bytes → BufferedReader
receive b bytes = record b {
  buf = take b.end b.buf ++ (bytes ++ drop (b.end + length bytes) b.buf);
  end = b.end + length bytes;
  incomplete = false;
}

abbrev pub is_failed : ReadError → Bool
is_failed failed = true
is_failed e = false

-- The chunk is what `reader.Read` returns if it is called. Its error is kept only if no byte came:
-- the `err` of the inner block is not the result.
unfoldable pub read_one : BufferedReader → Chunk → Reading
unfolding receive parse_complex after_parse
read_one b chunk =
    if b.incomplete
    then if is_failed chunk.error || length chunk.bytes == 0
      then reading b none (has_more b) chunk.error
      else (let r = receive b chunk.bytes in after_parse r (parse_complex r))
    else after_parse b (parse_complex b)

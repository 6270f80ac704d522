-- ===== src/Formats/Tests.antt =====
-- Runs of formatters.
use x_pipeline.Prelude.{
  ℕ, true, false, Bytes, codes, [], ◌++◌, some, length, take, drop, ◌≡◌, refl, arith, strip_prefix,
  ◌<◌,
}
use x_pipeline.Reader.{BufferedReader, by_text, frame, check_text, index}
use x_pipeline.Message.{Message}
use x_pipeline.Formats.{Formatter, runlength, space_before}
use x_pipeline.Formats.Framing.{runlength-check_text}

abbrev message_of : Bytes → Message
message_of bytes = record { payload = bytes; stream_id = 5; prev_stream_id = 2; sequence = 1 }

abbrev text_reader : BufferedReader
text_reader = record {
  buf = [];
  delimiter = codes ":";
  method = by_text;
  sequence = 0;
  param_mle = 0;
  grow_size = 8;
  begin = 0;
  end = 0;
  big_endian = false;
  everything = false;
  incomplete = true;
}

abbrev plain : Formatter
plain msg = (msg.payload, msg.stream_id)

out-IsSmall :
    length ((runlength plain (codes ":") (message_of (codes "hello"))).0 ++ codes "3:a")
    < 0x1000000000000000
unfolding runlength
out-IsSmall = omega arith

runlength-check_text_example :
    let out = (runlength plain (codes ":") (message_of (codes "hello"))).0 ++ codes "3:a" in
    (start : ℕ) × (check_text text_reader out [] ≡ frame 5 start 0)
    × (take 5 (drop start out) ≡ codes "hello")
runlength-check_text_example =
    runlength-check_text text_reader plain (codes ":") (message_of (codes "hello")) (codes "3:a") []
      refl refl refl (omega arith) refl out-IsSmall

abbrev routed : Message
routed = message_of (codes "log=>x y")

at_three : index (codes "log=>x y") (codes "=>") ≡ some 3
unfolding index strip_prefix
at_three = refl

no_space : space_before (codes "log=>x y") 3 ≡ false
unfolding space_before strip_prefix
no_space = refl

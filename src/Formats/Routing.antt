-- ===== src/Formats/Routing.antt =====
-- `format.StreamRoute`: the stream's name in front of a delimiter.
use x_pipeline.Prelude.{
  ℕ, suc, ◌+◌, Bool, false, ◌∷◌, ◌++◌, some, Bytes, length, take, drop, ◌≡◌, arith,
  take-length_append, drop_behind,
}
use x_pipeline.Reader.{index}
use x_pipeline.Message.{Message}
use x_pipeline.Formats.{Formatter, stream_route, space_before, routed_name}

-- A message that starts with a name, not empty and with no space, and a delimiter, which occurs
-- nowhere before, is formatted in the stream of that name. Of the delimiter only the first byte is
-- taken off: the base formatter gets the other bytes of the delimiter in front of the text.
pub stream_route-named :
    (get_stream_id : Bytes → ℕ) (base : Formatter) (stream_format : Bytes → Bytes) (both : Bool)
    → (c : ℕ) (name : Bytes) (d : ℕ) (ds text : Bytes) (msg : Message)
    → msg.payload ≡ (c ∷ name) ++ (d ∷ ds ++ text)
    → index msg.payload (d ∷ ds) ≡ some (length (c ∷ name))
    → space_before msg.payload (length (c ∷ name)) ≡ false
    → stream_route get_stream_id base stream_format both (d ∷ ds) msg
      ≡ base (record msg {
        stream_id = get_stream_id (routed_name stream_format both (c ∷ name));
        payload = ds ++ text;
      })
unfolding stream_route
stream_route-named get_stream_id base stream_format both c name d ds text msg e at free =
    let named : take (suc (length name)) msg.payload ≡ c ∷ name =
      rw e (take-length_append (c ∷ name) (d ∷ ds ++ text)) in
    let one : suc (length name) + 1 ≡ suc (suc (length name)) = omega arith in
    let behind : drop (suc (length name) + 1) msg.payload ≡ ds ++ text =
      rw (one, e) (drop_behind (c ∷ name) d (ds ++ text)) in
    rw (at, stream_route, free, named, behind)

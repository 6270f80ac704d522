-- ===== src/ByteStream.antt =====
-- shared/bytestream.go: a growing buffer that is written at its end and read from its start.
pub mod Queue
mod Tests
use x_pipeline.Prelude.{
  ℕ, ◌+◌, ◌-◌, Bool, true, [], ◌∷◌, ◌++◌, Bytes, length, take, drop, replicate, ltb, leb, Option,
  some, none, set, if◌then◌else◌,
}
use x_pipeline.Prelude.Pieces.{piece}

pub record ByteStream : Type 0 where
  pub store : Bytes
  pub write_offset : ℕ
  pub read_offset : ℕ

unfoldable pub new_byte_stream : ℕ → ByteStream
new_byte_stream capacity = record {
  store = replicate capacity 0;
  write_offset = 0;
  read_offset = 0;
}

unfoldable pub new_byte_stream_from : Bytes → ByteStream
new_byte_stream_from bytes = record { store = bytes; write_offset = length bytes; read_offset = 0 }

unfoldable pub set_capacity : ByteStream → ℕ → ByteStream
set_capacity s capacity =
    if ltb (length s.store) capacity
    then record s { store = take s.write_offset s.store ++ replicate (capacity - s.write_offset) 0 }
    else s

unfoldable pub clear : ByteStream → ByteStream
clear s = record s { write_offset = 0; read_offset = 0 }

unfoldable pub reset_read : ByteStream → ByteStream
reset_read s = record s { read_offset = 0 }

-- `Bytes` and `String`; `Len` is the write offset and `Cap` the length of the store.
abbrev pub written : ByteStream → Bytes
written s = take s.write_offset s.store

-- The copy of `source` into the store, which holds no more than there is room behind the write offset,
-- and the new offset.
unfoldable pub put : ByteStream → Bytes → ByteStream
put s source = record s {
  store =
      take s.write_offset s.store
      ++ (take (length s.store - s.write_offset) source
          ++ drop (s.write_offset + length source) s.store);
  write_offset = s.write_offset + length source;
}

unfoldable pub write : ByteStream → Bytes → ByteStream
unfolding put set_capacity
write s [] = s
write s (x ∷ source) = put (set_capacity s (s.write_offset + length (x ∷ source))) (x ∷ source)

-- A byte at the write offset; `none` is an index out of range.
unfoldable pub put_byte : ByteStream → ℕ → Option ByteStream
put_byte s x =
    if ltb s.write_offset (length s.store)
    then some (record s { store = set s.store s.write_offset x; write_offset = s.write_offset + 1 })
    else none

unfoldable pub write_byte : ByteStream → ℕ → Option ByteStream
unfolding put_byte set_capacity
write_byte s x = put_byte (set_capacity s (s.write_offset + 1)) x

-- What `Read` has yet to give.
abbrev pub unread : ByteStream → Bytes
unread s = piece s.read_offset s.write_offset s.store

-- `Read` into a target of n bytes: the bytes copied, and whether io.EOF is returned.
unfoldable pub read : ByteStream → ℕ → ByteStream × Bytes × Bool
read s n =
    let copied = take n (unread s) in
    let s' = record s { read_offset = s.read_offset + length copied } in
    if leb s.write_offset s.read_offset
    then (s, [], true)
    else (s', copied, leb s'.write_offset s'.read_offset)

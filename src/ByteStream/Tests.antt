-- ===== src/ByteStream/Tests.antt =====
-- Runs of a byte stream.
use x_pipeline.Prelude.{codes, ◌++◌, ◌≡◌, arith}
use x_pipeline.ByteStream.{ByteStream, write, written}
use x_pipeline.ByteStream.Queue.{IsValid, write-written}

abbrev hello : ByteStream
hello = record { store = codes "hello"; write_offset = 4; read_offset = 1 }

hello-IsValid : IsValid hello
hello-IsValid = record { read_write = omega arith; write_store = omega arith }

write-written_example :
    (written (write hello (codes "abc")) ≡ codes "hell" ++ codes "abc")
    × IsValid (write hello (codes "abc"))
write-written_example = write-written hello (codes "abc") hello-IsValid

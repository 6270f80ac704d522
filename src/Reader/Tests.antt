-- ===== src/Reader/Tests.antt =====
-- Runs of the reader.
use x_pipeline.Prelude.{
  ℕ, Bytes, codes, Bool, true, false, [], ◌∷◌, ◌++◌, Option, ◌≡◌, refl, arith, strip_prefix,
  replicate, none,
}
use x_pipeline.Reader.{BufferedReader, by_delimiter, Chunk, no_error, eof, read_one, reading}
use x_pipeline.Reader.Window.{IsValid}
use x_pipeline.Reader.Modest.{IsModestReader}
use x_pipeline.Reader.All.{IsNumbered, read_all, read_all-IsNumbered}
use x_pipeline.Reader.Stalls.{IsStalled, read_one_stalls}
use x_pipeline.Reader.Stream.Accounts.{came, Accounts}

abbrev lines : Bytes → ℕ → ℕ → ℕ → Bool → BufferedReader
lines buf sequence begin end incomplete = record {
  buf = buf;
  delimiter = codes "|";
  method = by_delimiter;
  sequence = sequence;
  param_mle = 0;
  grow_size = 8;
  begin = begin;
  end = end;
  big_endian = false;
  everything = false;
  incomplete = incomplete;
}

abbrev fresh : BufferedReader
fresh = lines (0 ∷ 0 ∷ 0 ∷ 0 ∷ 0 ∷ 0 ∷ []) 0 0 0 true

abbrev chunk : Chunk
chunk = record { bytes = codes "ab|c"; error = no_error }

abbrev used : BufferedReader
used = lines (codes "ab|c" ++ (0 ∷ 0 ∷ [])) 1 3 4 false

-- The same reader, with a delimiter in front of what is unread.
abbrev stalled : BufferedReader
stalled = lines (codes "|a" ++ (0 ∷ 0 ∷ 0 ∷ 0 ∷ [])) 3 0 2 true

stalled-IsStalled : IsStalled stalled (codes "|") (codes "a")
stalled-IsStalled = record { delimited = refl; strips = refl; separator = refl; unread = refl }

stalled-IsValid : IsValid stalled
stalled-IsValid = record { begin_end = omega arith; end_buf = omega arith; small = omega arith }

stalled-IsModestReader : IsModestReader stalled
stalled-IsModestReader = record { settings = omega arith; width = tt; callback = λ f e bytes. cc }

abbrev still_stalled : BufferedReader
still_stalled = lines (codes "|aab|c") 3 0 6 false

read-stalled :
    read_one stalled chunk
    ≡ reading
        (record still_stalled { buf = codes "|aab|c" ++ replicate 8 0; incomplete = true })
        none
        true
        no_error
unfolding read_one strip_prefix
read-stalled = refl

abbrev no_text : Option (Bytes × ℕ)
no_text = none

read_one_stalls_example :
    (no_text ≡ none) × (codes "|aab|c" ≡ codes "|" ++ (codes "a" ++ came stalled chunk))
read_one_stalls_example =
    read_one_stalls stalled (codes "|") (codes "a") chunk stalled-IsStalled stalled-IsValid
      stalled-IsModestReader (omega arith) (omega arith) read-stalled

read_all-IsNumbered_example :
    IsNumbered 0 (read_all fresh (chunk ∷ chunk ∷ record { bytes = []; error = eof } ∷ []))
read_all-IsNumbered_example =
    read_all-IsNumbered fresh (chunk ∷ chunk ∷ record { bytes = []; error = eof } ∷ [])

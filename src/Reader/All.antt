-- ===== src/Reader/All.antt =====
-- `ReadAll`: the loop around `ReadOne`, and the sequence numbers that its callback sees.
use x_pipeline.Prelude.{
  ℕ, ◌+◌, ◌%◌, Bool, true, false, not, ◌&&◌, List, [], ◌∷◌, Option, none, some, Bytes, length, ◌==◌,
  if◌then◌else◌, leb, ◌||◌, ◌≡◌, refl, Bool-cases, inl, inr, drop,
}
use x_pipeline.Numbers.{u64_mod}
use x_pipeline.Reader.Stream.{make_room-sequence}
use x_pipeline.Reader.{
  BufferedReader, Frame, frame, panics, positive, on_frame, greater, Parsed, message, no_message,
  parse_panic, Chunk, ReadError, no_error, eof, failed, Reading, reading, read_panic, read_one,
  check_complete, window, parse_complex, extract_message, after_parse, make_room, reset, receive,
  is_failed, has_more,
}

-- How a call ends: with an error or none, in a panic, or still waiting for what was not given.
pub data Session : Type 0 where
  finished : BufferedReader → List (Bytes × ℕ) → ReadError → Session
  crashed : Session
  unfinished : BufferedReader → List (Bytes × ℕ) → Session

abbrev pub deliver : Option (Bytes × ℕ) → Session → Session
deliver none s = s
deliver (some m) (finished b ms err) = finished b (m ∷ ms) err
deliver (some m) crashed = crashed
deliver (some m) (unfinished b ms) = unfinished b (m ∷ ms)

abbrev pub ends_with : BufferedReader → Bool → ReadError → Session → Session
ends_with b true no_error later = later
ends_with b false no_error later = finished b [] no_error
ends_with b more err later = finished b [] err

-- One chunk for each call of `ReadOne`; the messages are those given to the callback.
unfoldable pub read_all : BufferedReader → List Chunk → Session
read_all b [] = unfinished b []
read_all b (c ∷ cs) = elim (read_one b c) [
  | read_panic ↦ crashed
  | reading b' result more err ↦ deliver result (ends_with b' more err (read_all b' cs))
]

-- The messages have the numbers from `n` on, modulo 2 ^ 64.
abbrev pub Numbered : ℕ → List (Bytes × ℕ) → Type 0
Numbered n [] = Unit {0}
Numbered n ((text, k) ∷ ms) = (k ≡ n) × Numbered ((n + 1) % u64_mod) ms

abbrev pub IsNumbered : ℕ → Session → Type 0
IsNumbered n (finished b ms err) = Numbered n ms
IsNumbered n crashed = Unit {0}
IsNumbered n (unfinished b ms) = Numbered n ms

-- What a call of `ReadOne` does with the number.
abbrev Counts : ℕ → ℕ → Option (Bytes × ℕ) → Type 0
Counts n n' none = n' ≡ n
Counts n n' (some (text, k)) = (k ≡ n) × (n' ≡ (k + 1) % u64_mod)

abbrev ReadingCounts : ℕ → Reading → Type 0
ReadingCounts n (reading b' result more err) = Counts n b'.sequence result
ReadingCounts n read_panic = Unit {0}

abbrev ParsedKeeps : ℕ → Parsed → Type 0
ParsedKeeps n (message b' text) = b'.sequence ≡ n
ParsedKeeps n p = Unit {0}

on_frame-ParsedKeeps : (b : BufferedReader) (f : Frame) → ParsedKeeps b.sequence (on_frame b f)
unfolding extract_message
on_frame-ParsedKeeps b panics = tt
on_frame-ParsedKeeps b (frame len start pad) = elim (Bool-cases (positive len)) [
  | inr no_len ↦ rw no_len tt
  | inl some_len ↦ elim (Bool-cases (greater ((b.begin + start + len + pad) % u64_mod) b.end)) [
    | inl beyond ↦ rw (some_len, beyond) tt
    | inr inside ↦
        elim (Bool-cases (
          leb ((b.begin + start) % u64_mod) ((b.begin + start + len) % u64_mod)
          && leb ((b.begin + start + len) % u64_mod) (length b.buf))) [
            | inl fits ↦ rw (some_len, inside, fits) refl
            | inr out ↦ rw (some_len, inside, out) tt
          ]
  ]
]

after_parse-ReadingCounts :
    (b : BufferedReader) (p : Parsed)
    → ParsedKeeps b.sequence p
    → ReadingCounts b.sequence (after_parse b p)
unfolding after_parse make_room reset
after_parse-ReadingCounts b parse_panic h = tt
after_parse-ReadingCounts b no_message h = elim (Bool-cases (b.begin == b.end)) [
  | inl empty ↦ rw empty refl
  | inr some_left ↦ rw some_left (make_room-sequence b)
]
after_parse-ReadingCounts b (message b' text) h =
    elim (Bool-cases (not (0 == b'.begin) && b'.begin == b'.end)) [
      | inl used_up ↦ rw used_up (h, refl)
      | inr some_left ↦ rw some_left (h, refl)
    ]

either-ReadingCounts :
    (n : ℕ) (c : Bool) (x y : Reading)
    → ReadingCounts n x
    → ReadingCounts n y
    → ReadingCounts n (if c then x else y)
either-ReadingCounts n true x y h k = h
either-ReadingCounts n false x y h k = k

parsed-ReadingCounts :
    (b : BufferedReader) → ReadingCounts b.sequence (after_parse b (parse_complex b))
unfolding parse_complex
parsed-ReadingCounts b =
    after_parse-ReadingCounts b (parse_complex b)
      (on_frame-ParsedKeeps b (check_complete b b.method (window b) (drop b.end b.buf)))

read_one-ReadingCounts : (b : BufferedReader) (c : Chunk) → ReadingCounts b.sequence (read_one b c)
unfolding read_one receive
read_one-ReadingCounts b c =
    let received : ReadingCounts b.sequence
        (after_parse (receive b c.bytes) (parse_complex (receive b c.bytes))) =
      parsed-ReadingCounts (receive b c.bytes) in
    either-ReadingCounts b.sequence b.incomplete _ _
      (either-ReadingCounts b.sequence (is_failed c.error || length c.bytes == 0)
        (reading b none (has_more b) c.error) _ refl received)
      (parsed-ReadingCounts b)

ends_with-IsNumbered :
    (b : BufferedReader) (more : Bool) (err : ReadError) (n : ℕ) (later : Session)
    → IsNumbered n later
    → IsNumbered n (ends_with b more err later)
ends_with-IsNumbered b true no_error n later h = h
ends_with-IsNumbered b false no_error n later h = tt
ends_with-IsNumbered b true eof n later h = tt
ends_with-IsNumbered b false eof n later h = tt
ends_with-IsNumbered b true failed n later h = tt
ends_with-IsNumbered b false failed n later h = tt

deliver-IsNumbered :
    (n n' : ℕ) (result : Option (Bytes × ℕ)) (later : Session)
    → Counts n n' result
    → IsNumbered n' later
    → IsNumbered n (deliver result later)
deliver-IsNumbered n n' none later e h = rw (← e) h
deliver-IsNumbered n n' (some (text, k)) (finished b ms err) (e, f) h = (e, rw (← e, ← f) h)
deliver-IsNumbered n n' (some (text, k)) crashed (e, f) h = tt
deliver-IsNumbered n n' (some (text, k)) (unfinished b ms) (e, f) h = (e, rw (← e, ← f) h)

after_reading :
    (n : ℕ) (cs : List Chunk) (r : Reading)
    → ReadingCounts n r
    → ((b' : BufferedReader) → IsNumbered b'.sequence (read_all b' cs))
    → IsNumbered n (elim r [
      | read_panic ↦ crashed
      | reading b' result more err ↦ deliver result (ends_with b' more err (read_all b' cs))
    ])
after_reading n cs read_panic h rec = tt
after_reading n cs (reading b' result more err) h rec =
    deliver-IsNumbered n b'.sequence result (ends_with b' more err (read_all b' cs)) h
      (ends_with-IsNumbered b' more err b'.sequence (read_all b' cs) (rec b'))

-- The callback of `ReadAll` sees consecutive sequence numbers, from the reader's on.
pub read_all-IsNumbered :
    (b : BufferedReader) (cs : List Chunk) → IsNumbered b.sequence (read_all b cs)
unfolding read_all
read_all-IsNumbered b [] = tt
read_all-IsNumbered b (c ∷ cs) =
    after_reading b.sequence cs (read_one b c) (read_one-ReadingCounts b c)
      (λ b'. read_all-IsNumbered b' cs)

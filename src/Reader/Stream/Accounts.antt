-- ===== src/Reader/Stream/Accounts.antt =====
-- The account of the stream for one call of `ReadOne`.
use x_pipeline.Prelude.{
  ℕ, ◌+◌, ◌-◌, ◌%◌, ◌≤◌, Bool, true, false, not, ◌&&◌, ◌||◌, [], ◌∷◌, ◌++◌, Option, none, some,
  Bytes, length, take, drop, length-append, length-take, length-drop, ◌==◌, ==_iff, if◌then◌else◌,
  ◌≡◌, refl, ap, arith, ◌∙◌, sym, Bool-cases, inl, inr, append-nil,
}
use x_pipeline.Numbers.{u64_mod}
use x_pipeline.Reader.{
  BufferedReader, window, Parsed, message, no_message, parse_panic, parse_complex, Chunk, Reading,
  reading, make_room, after_parse, receive, read_one, reset, is_failed, ReadError,
}
use x_pipeline.Reader.Window.{IsValid, IsSmall, Extracted, receive-window, receive-IsValid}
use x_pipeline.Reader.Modest.{IsModestReader}
use x_pipeline.Reader.Stream.{
  parse_complex-Extracted, make_room-window, make_room-IsValid, make_room-sequence,
}

-- `bytes` is what stood in the window and what came; the message is cut out of it.
abbrev pub Accounts : BufferedReader → Bytes → BufferedReader → Option (Bytes × ℕ) → Type 0
Accounts b bytes b' none = (bytes ≡ window b') × (b'.sequence ≡ b.sequence)
Accounts b bytes b' (some (text, seq)) =
    (before : Bytes) × (behind : Bytes) × (bytes ≡ before ++ (text ++ (behind ++ window b')))
    × (seq ≡ b.sequence)
    × (b'.sequence ≡ (seq + 1) % u64_mod)

window_empty : (b : BufferedReader) → b.begin ≡ b.end → window b ≡ []
window_empty b e = let none_left : b.end - b.begin ≡ 0 = omega arith in rw none_left

reset-IsValid : (b : BufferedReader) (n : ℕ) → IsValid b → IsValid (reset b n)
unfolding reset
reset-IsValid b n v = record { begin_end = omega arith; end_buf = omega arith; small = v.small }

-- The reader after a message: reset if it is empty.
settled : BufferedReader → BufferedReader
settled b = if not (0 == b.begin) && b.begin == b.end then reset b b.sequence else b

settled_lem :
    (b : BufferedReader)
    → IsValid b
    → (window (settled b) ≡ window b) × IsValid (settled b) × ((settled b).sequence ≡ b.sequence)
unfolding settled
settled_lem b v = elim (Bool-cases (not (0 == b.begin) && b.begin == b.end)) [
  | inr some_left ↦ rw some_left (refl, v, refl)
  | inl used_up ↦
      let e : b.begin ≡ b.end = ground arith in
      rw used_up (
        (unfold reset in sym (window_empty b e)),
        reset-IsValid b b.sequence v,
        (unfold reset in refl),
      )
]

same_reading :
    (Q : BufferedReader → Option (Bytes × ℕ) → Type 0) (c b' : BufferedReader)
    → (r result : Option (Bytes × ℕ)) {m more : Bool} {x err : ReadError}
    → reading c r m x ≡ reading b' result more err
    → Q c r
    → Q b' result
same_reading Q c b' r result e h = let p : c ≡ b' = cc in let q : r ≡ result = cc in rw (← p, ← q) h

abbrev Kept : BufferedReader → Bytes → BufferedReader → Option (Bytes × ℕ) → Type 0
Kept b bytes b' result = Accounts b bytes b' result × IsValid b'

after_parse-Kept :
    (b : BufferedReader) (p : Parsed) {b' : BufferedReader} {result : Option (Bytes × ℕ)}
    → {more : Bool} {err : ReadError} → IsValid b
    → IsSmall (length b.buf + b.grow_size)
    → ((c : BufferedReader) (text : Bytes) → p ≡ message c text → Extracted b c text)
    → after_parse b p ≡ reading b' result more err
    → Kept b (window b) b' result
unfolding after_parse settled
after_parse-Kept b parse_panic v grows cut e = cc
after_parse-Kept b no_message {b'} {result} v grows cut e = elim (Bool-cases (b.begin == b.end)) [
  | inl empty ↦
      same_reading (Kept b (window b)) (reset b b.sequence) b' none result (rw empty at e) (
        (
          window_empty b ((==_iff b.begin b.end).0 empty) ∙ (unfold reset in refl),
          (unfold reset in refl),
        ),
        reset-IsValid b b.sequence v,
      )
  | inr some_left ↦
      let roomy = make_room-IsValid b v grows in
      same_reading (Kept b (window b)) (record (make_room b) { incomplete = true }) b' none result
        (rw some_left at e)
        (
          (sym (make_room-window b v), make_room-sequence b),
          record { begin_end = roomy.begin_end; end_buf = roomy.end_buf; small = roomy.small },
        )
]
after_parse-Kept b (message c text) {b'} {result} v grows cut e =
    let x = cut c text refl in
    let (same, valid, seq) = settled_lem c x.valid in
    same_reading (Kept b (window b))
      (record (settled c) { sequence = ((settled c).sequence + 1) % u64_mod }) b'
      (some (text, (settled c).sequence)) result e
      (
        (
          x.before,
          x.behind,
          x.cut ∙ ap (λ (ys : Bytes). x.before ++ (text ++ (x.behind ++ ys))) (sym same),
          seq ∙ x.same_sequence,
          refl,
        ),
        record { begin_end = valid.begin_end; end_buf = valid.end_buf; small = valid.small },
      )

-- What `reader.Read` adds to the stream in a call of `ReadOne`.
abbrev pub came : BufferedReader → Chunk → Bytes
came b chunk = if b.incomplete && not (is_failed chunk.error) then chunk.bytes else []

same_sequence :
    (b r : BufferedReader) (bytes : Bytes) {b' : BufferedReader} (result : Option (Bytes × ℕ))
    → r.sequence ≡ b.sequence
    → Kept r (window b ++ bytes) b' result
    → Kept b (window b ++ bytes) b' result
same_sequence b r bytes none s ((w, q), v) = ((w, q ∙ s), v)
same_sequence b r bytes (some (text, seq)) s ((x, y, c, q, n), v) = ((x, y, c, q ∙ s, n), v)

-- After a successful read, the window goes on with the bytes that came.
after_receive :
    (b : BufferedReader) (bytes : Bytes) {b' : BufferedReader} {result : Option (Bytes × ℕ)}
    → {more : Bool} {err : ReadError} → IsValid b
    → IsModestReader b
    → IsSmall (length b.buf + b.grow_size)
    → b.end + length bytes ≤ length b.buf
    → after_parse (receive b bytes) (parse_complex (receive b bytes)) ≡ reading b' result more err
    → Kept b (window b ++ bytes) b' result
after_receive b bytes {b'} {result} v modest grows fits e =
    let r = receive b bytes in
    let grown : length r.buf ≡ length b.buf =
      unfold receive in
      omega (
        arith,
        length-append (take b.end b.buf) (bytes ++ drop (b.end + length bytes) b.buf),
        length-append bytes (drop (b.end + length bytes) b.buf),
        length-take b.end b.buf,
        length-drop (b.end + length bytes) b.buf,
        v.end_buf,
      ) in
    let room : r.grow_size ≡ b.grow_size = unfold receive in refl in
    let valid = receive-IsValid b bytes v fits in
    let settings : IsModestReader r =
      unfold receive in
      record { settings = modest.settings; width = modest.width; callback = modest.callback } in
    let kept : Kept r (window r) b' result =
      after_parse-Kept r (parse_complex r) valid (rw (grown, room) grows)
        (λ c text. parse_complex-Extracted r valid settings) e in
    let same : window r ≡ window b ++ bytes = receive-window b bytes v.begin_end v.end_buf in
    same_sequence b r bytes result (unfold receive in refl) (rw same at kept)

if_false : (c : Bool) (x y : Reading) → c ≡ false → (if c then x else y) ≡ y
if_false c x y e = rw e refl

empty_bytes : (bytes : Bytes) → (length bytes == 0) ≡ true → bytes ≡ []
empty_bytes [] e = refl
empty_bytes (x ∷ xs) e = ground arith

came_nothing :
    (b : BufferedReader) (chunk : Chunk)
    → (is_failed chunk.error || length chunk.bytes == 0) ≡ true
    → came b chunk ≡ []
came_nothing b chunk e = elim (Bool-cases (is_failed chunk.error)) [
  | inl bad ↦ ground (arith, bad)
  | inr good ↦
      let none_came : chunk.bytes ≡ [] = empty_bytes chunk.bytes (rw good at e) in
      ground (arith, none_came)
]

came_bytes :
    (chunk : Chunk)
    → (is_failed chunk.error || length chunk.bytes == 0) ≡ false
    → is_failed chunk.error ≡ false
came_bytes chunk e = ground arith

pub read_one-Accounts :
    (b : BufferedReader) (chunk : Chunk) {b' : BufferedReader} {result : Option (Bytes × ℕ)}
    → {more : Bool} {err : ReadError} → IsValid b
    → IsModestReader b
    → IsSmall (length b.buf + b.grow_size)
    → b.end + length chunk.bytes ≤ length b.buf
    → read_one b chunk ≡ reading b' result more err
    → Accounts b (window b ++ came b chunk) b' result × IsValid b'
unfolding read_one
read_one-Accounts b chunk {b'} {result} v modest grows fits e = elim (Bool-cases b.incomplete) [
  | inr whole ↦
      let none_came : window b ++ came b chunk ≡ window b = simp (whole, append-nil (window b)) in
      rw none_came (
        after_parse-Kept b (parse_complex b) v grows (λ c text. parse_complex-Extracted b v modest)
          (sym (if_false b.incomplete _ _ whole) ∙ e))
  | inl more_needed ↦ elim (Bool-cases (is_failed chunk.error || length chunk.bytes == 0)) [
    | inl nothing ↦
        same_reading (Kept b (window b ++ came b chunk)) (record b { incomplete = true }) b' none
          result (rw (more_needed, nothing) at e)
          (
            (rw (came_nothing b chunk nothing) (append-nil (window b)), refl),
            record { begin_end = v.begin_end; end_buf = v.end_buf; small = v.small },
          )
    | inr bytes_came ↦
        rw (more_needed, came_bytes chunk bytes_came)
          (after_receive b chunk.bytes v modest grows fits (rw (more_needed, bytes_came) at e))
  ]
]

-- ===== src/Reader/Window.antt =====
-- shared/bufferedreader.go: the offsets of the buffer and the bytes between them.
use x_pipeline.Prelude.{
  ℕ, ◌+◌, ◌-◌, ◌%◌, ◌≤◌, ◌<◌, ◌&&◌, ◌++◌, Bytes, length, take, drop, leb, ◌≡◌, refl, ap, arith, ◌∙◌,
  sym, length-append, length-take, length-drop, Bool-cases, inl, inr, append_assoc,
  take-length_append,
}
use x_pipeline.Prelude.Pieces.{drop-append_le, piece, piece-split, drop-take}
use x_pipeline.Numbers.{u64_mod}
use x_pipeline.Reader.{BufferedReader, greater, int_max, window, message, extract_message, receive}

abbrev pub half_int : ℕ
half_int = 0x4000000000000000

abbrev pub IsSmall : ℕ → Type 0
IsSmall n = n < 0x1000000000000000

-- The offsets lie in the buffer, whose size is far from the largest int.
pub record IsValid (b : BufferedReader) : Type 0 where
  pub begin_end : b.begin ≤ b.end
  pub end_buf : b.end ≤ length b.buf
  pub small : IsSmall (length b.buf)

-- Nothing is lost when bytes are received: they stand behind those not yet consumed.
pub receive-window :
    (b : BufferedReader) (bytes : Bytes)
    → b.begin ≤ b.end
    → b.end ≤ length b.buf
    → window (receive b bytes) ≡ window b ++ bytes
unfolding receive
receive-window b bytes h k =
    let rest = drop (b.end + length bytes) b.buf in
    let before : length (take b.end b.buf) ≡ b.end = omega (arith, length-take b.end b.buf) in
    let front : drop b.begin (take b.end b.buf ++ (bytes ++ rest)) ≡ (window b ++ bytes) ++ rest =
      drop-append_le b.begin (take b.end b.buf) (bytes ++ rest) (omega arith)
      ∙ ap (λ (ys : Bytes). ys ++ (bytes ++ rest)) (drop-take b.begin b.end b.buf h)
      ∙ sym (append_assoc (window b) bytes rest) in
    let size : b.end + length bytes - b.begin ≡ length (window b ++ bytes) = omega (
      arith,
      length-append (window b) bytes,
      length-take (b.end - b.begin) (drop b.begin b.buf),
      length-drop b.begin b.buf,
    ) in
    rw (front, size) (take-length_append (window b ++ bytes) rest)

pub receive-IsValid :
    (b : BufferedReader) (bytes : Bytes)
    → IsValid b
    → b.end + length bytes ≤ length b.buf
    → IsValid (receive b bytes)
unfolding receive
receive-IsValid b bytes v fits =
    let size : length (take b.end b.buf ++ (bytes ++ drop (b.end + length bytes) b.buf))
        ≡ length b.buf =
      omega (
        arith,
        length-append (take b.end b.buf) (bytes ++ drop (b.end + length bytes) b.buf),
        length-append bytes (drop (b.end + length bytes) b.buf),
        length-take b.end b.buf,
        length-drop (b.end + length bytes) b.buf,
      ) in
    record {
      begin_end = omega (arith, v.begin_end);
      end_buf = omega (arith, size);
      small = rw size v.small;
    }

-- `before` and `behind` are the bytes of the window around the message.
pub record Extracted (b b' : BufferedReader) (text : Bytes) : Type 0 where
  pub before : Bytes
  pub behind : Bytes
  pub cut : window b ≡ before ++ (text ++ (behind ++ window b'))
  pub valid : IsValid b'
  pub same_buf : b'.buf ≡ b.buf
  pub same_sequence : b'.sequence ≡ b.sequence

-- The message lies between `lo` and `hi`, and the window goes on at `next`.
cut-Extracted :
    (b : BufferedReader) (lo hi next : ℕ)
    → IsValid b
    → b.begin ≤ lo
    → lo ≤ hi
    → hi ≤ next
    → next ≤ b.end
    → Extracted b (record b { begin = next }) (piece lo hi b.buf)
cut-Extracted b lo hi next v h1 h2 h3 h4 = record {
  before = piece b.begin lo b.buf;
  behind = piece hi next b.buf;
  cut =
      piece-split b.begin lo b.end b.buf h1 (omega arith)
      ∙ ap (λ (ys : Bytes). piece b.begin lo b.buf ++ ys)
          (piece-split lo hi b.end b.buf h2 (omega arith)
            ∙ ap (λ (ys : Bytes). piece lo hi b.buf ++ ys) (piece-split hi next b.end b.buf h3 h4));
  valid = record { begin_end = h4; end_buf = v.end_buf; small = v.small };
  same_buf = refl;
  same_sequence = refl;
}

pub extract_message-Extracted :
    (b : BufferedReader) (len start pad : ℕ) {b' : BufferedReader} {text : Bytes}
    → IsValid b
    → len < int_max
    → start + pad < half_int
    → extract_message b len start pad ≡ message b' text
    → Extracted b b' text
unfolding extract_message
extract_message-Extracted b len start pad {b'} {text} v small_len small_pad e =
    let lo : (b.begin + start) % u64_mod ≡ b.begin + start = omega arith in
    let hi : (b.begin + start + len) % u64_mod ≡ b.begin + start + len = omega arith in
    let next : (b.begin + start + len + pad) % u64_mod ≡ b.begin + start + len + pad =
      omega arith in
    let e' = rw (lo, hi, next) at e in
    elim (Bool-cases (greater (b.begin + start + len + pad) b.end)) [
      | inl beyond ↦ cc (rw beyond at e')
      | inr inside ↦
          elim (Bool-cases (
            leb (b.begin + start) (b.begin + start + len)
            && leb (b.begin + start + len) (length b.buf))) [
              | inr out ↦ cc (rw (inside, out) at e')
              | inl fits ↦
                  let r : record b { begin = b.begin + start + len + pad } ≡ b' =
                    cc (rw (inside, fits) at e') in
                  let t : piece (b.begin + start) (b.begin + start + len) b.buf ≡ text =
                    cc (rw (inside, fits) at e') in
                  let below : b.begin + start + len ≤ length b.buf = ground arith in
                  let reach : b.begin + start + len + pad ≤ b.end = ground arith in
                  rw (← r, ← t)
                    (cut-Extracted b (b.begin + start) (b.begin + start + len)
                      (b.begin + start + len + pad) v (omega arith) (omega arith) (omega arith)
                      reach)
            ]
    ]

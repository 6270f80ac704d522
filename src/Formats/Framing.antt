-- ===== src/Formats/Framing.antt =====
-- format/runlength.go against the text method of shared/bufferedreader.go.
use x_pipeline.Prelude.{
  ℕ, ◌+◌, ◌%◌, ◌≤◌, ◌<◌, true, false, [], ◌∷◌, ◌++◌, Bytes, length, take, drop, ltb, leb, ◌==◌,
  equal, equal_refl, ◌≡◌, ap, arith, ◌∙◌, sym, length-append, take-length_append,
  drop-length_append, append_assoc,
}
use x_pipeline.Numbers.{u64_mod, btoi}
use x_pipeline.Numbers.Decimal.{itoa, btoi-itoa, length-itoa_pos, starts_digit}
use x_pipeline.Reader.{BufferedReader, frame, measured, check_text}
use x_pipeline.Reader.Window.{IsSmall}
use x_pipeline.Message.{Message}
use x_pipeline.Formats.{Formatter, runlength}

starts_digit-append :
    (sep rest : Bytes)
    → 0 < length sep
    → starts_digit sep ≡ false
    → starts_digit (sep ++ rest) ≡ false
starts_digit-append [] rest ne h = absurd (omega arith)
starts_digit-append (c ∷ cs) rest ne h = h

measured-fits :
    (b : BufferedReader) (bytes : Bytes) (len start : ℕ)
    → b.everything ≡ false
    → len + start ≤ length bytes
    → IsSmall (length bytes)
    → measured b bytes len start ≡ frame len start 0
unfolding measured
measured-fits b bytes len start strip fits small =
    let total : (len + start) % u64_mod ≡ len + start = omega arith in
    let inside : ltb (length bytes) (len + start) ≡ false = ground arith in
    rw (total, inside) (ground arith)

sep_at :
    (digits sep after : Bytes)
    → take (length sep) (drop (length digits) (digits ++ (sep ++ after))) ≡ sep
sep_at digits sep after =
    ap (λ (ys : Bytes). take (length sep) ys) (drop-length_append digits (sep ++ after))
    ∙ take-length_append sep after

text_at :
    (digits sep text rest : Bytes)
    → take (length text) (drop (length digits + length sep) (digits ++ (sep ++ (text ++ rest))))
      ≡ text
text_at digits sep text rest =
    ap (λ (k : ℕ). take (length text) (drop k (digits ++ (sep ++ (text ++ rest)))))
      (sym (length-append digits sep))
    ∙ ap (λ (ys : Bytes). take (length text) (drop (length (digits ++ sep)) ys))
        (sym (append_assoc digits sep (text ++ rest)))
    ∙ ap (λ (ys : Bytes). take (length text) ys) (drop-length_append (digits ++ sep) (text ++ rest))
    ∙ take-length_append text rest

check_text-digits :
    (b : BufferedReader) (digits sep text rest spare : Bytes)
    → b.param_mle ≡ 0
    → b.everything ≡ false
    → b.delimiter ≡ sep
    → 0 < length digits
    → 0 < length sep
    → btoi (digits ++ (sep ++ (text ++ rest))) ≡ (length text, length digits)
    → IsSmall (length (digits ++ (sep ++ (text ++ rest))))
    → check_text b (digits ++ (sep ++ (text ++ rest))) spare
      ≡ frame (length text) (length digits + length sep) 0
unfolding check_text
check_text-digits b digits sep text rest spare at strip same some_digits some_sep value small =
    let bytes = digits ++ (sep ++ (text ++ rest)) in
    let size : length bytes ≡ length digits + (length sep + (length text + length rest)) = omega (
      arith,
      length-append digits (sep ++ (text ++ rest)),
      length-append sep (text ++ rest),
      length-append text rest,
    ) in
    let more : leb (length bytes) 0 ≡ false = ground arith in
    let read : (length digits == 0) ≡ false = ground arith in
    let pad : ltb 0 (length sep) ≡ true = ground arith in
    let start : length digits + 0 ≡ length digits = omega arith in
    let room : ltb (length (bytes ++ spare)) (length digits + length sep) ≡ false =
      ground (arith, length-append bytes spare) in
    let all : bytes ++ spare ≡ digits ++ (sep ++ ((text ++ rest) ++ spare)) =
      append_assoc digits (sep ++ (text ++ rest)) spare
      ∙ ap (λ (ys : Bytes). digits ++ ys) (append_assoc sep (text ++ rest) spare) in
    let found : equal (take (length sep) (drop (length digits) (bytes ++ spare))) sep ≡ true =
      rw (all, sep_at digits sep ((text ++ rest) ++ spare)) (equal_refl sep) in
    rw (at, value, same, more, read, pad, start, room, found)
      (measured-fits (record b { param_mle = 0; delimiter = sep }) bytes (length text)
        (length digits + length sep) strip (omega arith) small)

-- The text that `Runlength` makes of a payload, with a separator that is not empty and starts with
-- no digit, is framed by the text method with that separator as delimiter: whatever follows, the
-- frame is as long as the payload and starts right behind the separator, where the payload stands.
-- (All together is below 2 ^ 60 bytes.)
pub runlength-check_text :
    (b : BufferedReader) (base : Formatter) (sep : Bytes) (msg : Message) (rest spare : Bytes)
    → b.param_mle ≡ 0
    → b.everything ≡ false
    → b.delimiter ≡ sep
    → 0 < length sep
    → starts_digit sep ≡ false
    → IsSmall (length ((runlength base sep msg).0 ++ rest))
    → (start : ℕ) × (check_text b ((runlength base sep msg).0 ++ rest) spare
        ≡ frame (length (base msg).0) start 0)
      × (take (length (base msg).0) (drop start ((runlength base sep msg).0 ++ rest))
          ≡ (base msg).0)
unfolding runlength
runlength-check_text b base sep msg rest spare at strip same ne h small =
    let text = (base msg).0 in
    let digits = itoa (length text) in
    let all : (digits ++ (sep ++ text)) ++ rest ≡ digits ++ (sep ++ (text ++ rest)) =
      append_assoc digits (sep ++ text) rest
      ∙ ap (λ (ys : Bytes). digits ++ ys) (append_assoc sep text rest) in
    let small' : IsSmall (length (digits ++ (sep ++ (text ++ rest)))) = rw all at small in
    let short : length text < u64_mod = omega (
      arith,
      length-append digits (sep ++ (text ++ rest)),
      length-append sep (text ++ rest),
      length-append text rest,
      small',
    ) in
    let value : btoi (digits ++ (sep ++ (text ++ rest))) ≡ (length text, length digits) =
      btoi-itoa (length text) (sep ++ (text ++ rest)) short
        (starts_digit-append sep (text ++ rest) ne h) in
    (
      length digits + length sep,
      rw all (
          check_text-digits b digits sep text rest spare at strip same
            (length-itoa_pos (length text)) ne value small'),
      rw all (text_at digits sep text rest),
    )

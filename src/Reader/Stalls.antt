-- ===== src/Reader/Stalls.antt =====
-- A delimiter at the front of what is unread: the empty message before it.
use x_pipeline.Prelude.{
  ℕ, ◌+◌, ◌≤◌, Bool, false, ◌||◌, [], ◌∷◌, ◌++◌, Option, none, some, Bytes, length, drop, ◌==◌,
  if◌then◌else◌, strip_prefix, ◌≡◌, refl, ap, ◌∙◌, sym, append_assoc, Bool-cases, inl, inr,
}
use x_pipeline.Trie.Prefix.{strip_prefix_self}
use x_pipeline.Reader.{
  Frame, Method, BufferedReader, by_delimiter, window, Parsed, no_message, parse_complex,
  check_delimiter, check_complete, index, Chunk, Reading, reading, after_parse, receive, read_one,
  is_failed, ReadError, on_frame, frame,
}
use x_pipeline.Reader.Window.{IsValid, IsSmall, receive-window}
use x_pipeline.Reader.Modest.{IsModestReader}
use x_pipeline.Reader.Stream.Accounts.{Accounts, came, read_one-Accounts}

-- A reader of delimited messages with a delimiter, and `rest`, unread.
pub record IsStalled (b : BufferedReader) (sep rest : Bytes) : Type 0 where
  pub delimited : b.method ≡ by_delimiter
  pub strips : b.everything ≡ false
  pub separator : b.delimiter ≡ sep
  pub unread : window b ≡ sep ++ rest

index_front :
    (xs sep : Bytes) {rest : Bytes} → strip_prefix sep xs ≡ some rest → index xs sep ≡ some 0
unfolding index
index_front [] sep e = rw (e, index)
index_front (x ∷ xs) sep e = rw (e, index)

check_complete_delimited :
    (b : BufferedReader) (m : Method) (bytes spare : Bytes)
    → m ≡ by_delimiter
    → check_complete b m bytes spare ≡ check_delimiter b bytes
unfolding check_complete
check_complete_delimited b m bytes spare e = rw e refl

check_delimiter-front :
    (b : BufferedReader) (bytes : Bytes)
    → index bytes b.delimiter ≡ some 0
    → b.everything ≡ false
    → check_delimiter b bytes ≡ frame 0 0 (length b.delimiter)
unfolding check_delimiter
check_delimiter-front b bytes e strips = rw (e, check_delimiter) (rw strips)

stalled-no_message :
    (b : BufferedReader) (sep rest : Bytes) → IsStalled b sep rest → parse_complex b ≡ no_message
unfolding parse_complex
stalled-no_message b sep rest h =
    let found : index (window b) b.delimiter ≡ some 0 =
      rw (h.unread, h.separator) (index_front (sep ++ rest) sep (strip_prefix_self sep rest)) in
    ap (λ (f : Frame). on_frame b f)
      (check_complete_delimited b b.method (window b) (drop b.end b.buf) h.delimited
        ∙ check_delimiter-front b (window b) found h.strips)

after_parse-none :
    (b : BufferedReader) {b' : BufferedReader} {result : Option (Bytes × ℕ)} {more : Bool}
    {err : ReadError}
    → after_parse b no_message ≡ reading b' result more err
    → result ≡ none
unfolding after_parse
after_parse-none b e = elim (Bool-cases (b.begin == b.end)) [
  | inl empty ↦ cc (rw empty at e)
  | inr some_left ↦ cc (rw some_left at e)
]

if_other : (c : Bool) (x y : Reading) → c ≡ false → (if c then x else y) ≡ y
if_other c x y e = rw e refl

no_message-none :
    (b : BufferedReader) (sep rest : Bytes) {b' : BufferedReader} {result : Option (Bytes × ℕ)}
    → {more : Bool} {err : ReadError} → IsStalled b sep rest
    → after_parse b (parse_complex b) ≡ reading b' result more err
    → result ≡ none
no_message-none b sep rest h e =
    after_parse-none b
      (ap (λ (p : Parsed). after_parse b p) (sym (stalled-no_message b sep rest h)) ∙ e)

receive-IsStalled :
    (b : BufferedReader) (sep rest bytes : Bytes)
    → IsStalled b sep rest
    → IsValid b
    → IsStalled (receive b bytes) sep (rest ++ bytes)
receive-IsStalled b sep rest bytes h v = record {
  delimited = unfold receive in h.delimited;
  strips = unfold receive in h.strips;
  separator = unfold receive in h.separator;
  unread =
      receive-window b bytes v.begin_end v.end_buf
      ∙ ap (λ (ys : Bytes). ys ++ bytes) h.unread
      ∙ append_assoc sep rest bytes;
}

-- While a delimiter stands at the front of what is unread, in a reader of delimited messages that
-- strips the delimiters, a call of `ReadOne` returns no message, whatever is read, and the delimiter
-- and all behind it, with what came, stay unread. (Settings as for the account of the stream.)
pub read_one_stalls :
    (b : BufferedReader) (sep rest : Bytes) (chunk : Chunk) {b' : BufferedReader}
    → {result : Option (Bytes × ℕ)} {more : Bool} {err : ReadError} → IsStalled b sep rest
    → IsValid b
    → IsModestReader b
    → IsSmall (length b.buf + b.grow_size)
    → b.end + length chunk.bytes ≤ length b.buf
    → read_one b chunk ≡ reading b' result more err
    → (result ≡ none) × (window b' ≡ sep ++ (rest ++ came b chunk))
unfolding read_one
read_one_stalls b sep rest chunk {b'} {result} h v modest grows fits e =
    let nothing : result ≡ none = elim (Bool-cases b.incomplete) [
      | inr whole ↦ no_message-none b sep rest h (sym (if_other b.incomplete _ _ whole) ∙ e)
      | inl more_needed ↦ elim (Bool-cases (is_failed chunk.error || length chunk.bytes == 0)) [
        | inl nothing_came ↦ cc (rw (more_needed, nothing_came) at e)
        | inr some_came ↦
            no_message-none (receive b chunk.bytes) sep (rest ++ chunk.bytes)
              (receive-IsStalled b sep rest chunk.bytes h v) (rw (more_needed, some_came) at e)
      ]
    ] in
    let (account, valid) = read_one-Accounts b chunk v modest grows fits e in
    let kept : Accounts b (window b ++ came b chunk) b' none = rw nothing at account in
    (
      nothing,
      sym kept.0
          ∙ ap (λ (ys : Bytes). ys ++ came b chunk) h.unread
          ∙ append_assoc sep rest (came b chunk),
    )

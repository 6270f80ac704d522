-- ===== src/Reader/Stream.antt =====
-- shared/bufferedreader.go: what is read and not yet consumed, before and after each part of `ReadOne`.
pub mod Accounts
use x_pipeline.Prelude.{
  ℕ, ◌+◌, ◌-◌, Bool, ◌++◌, some, Bytes, length, take, drop, replicate, ◌==◌, ◌≡◌, refl, ap, arith,
  length-append, length-take, length-drop, length-replicate, Bool-cases, inl, inr,
  take-length_append,
}
use x_pipeline.Prelude.Pieces.{take-append_le, drop-append_le}
use x_pipeline.Reader.{
  Frame, frame, panics, BufferedReader, check_complete, window, message, extract_message, positive,
  on_frame, parse_complex, make_room,
}
use x_pipeline.Reader.Window.{IsValid, IsSmall, Extracted, extract_message-Extracted}
use x_pipeline.Reader.Modest.{IsModestReader, check_complete-modest}

module _ (b : BufferedReader) where
  pub parse_complex-Extracted :
      {b' : BufferedReader} {text : Bytes}
      → IsValid b
      → IsModestReader b
      → parse_complex b ≡ message b' text
      → Extracted b b' text
  unfolding parse_complex
  parse_complex-Extracted {b'} {text} v modest e =
      go (check_complete b b.method (window b) (drop b.end b.buf)) refl e
    where
      size : IsSmall (length (window b))
      size = omega (
        arith,
        length-take (b.end - b.begin) (drop b.begin b.buf),
        length-drop b.begin b.buf,
        v.small,
      )

      go :
          (f : Frame)
          → check_complete b b.method (window b) (drop b.end b.buf) ≡ f
          → on_frame b f ≡ message b' text
          → Extracted b b' text
      go panics f e = cc
      go (frame len start pad) f e = elim (Bool-cases (positive len)) [
        | inl some_len ↦
            extract_message-Extracted b len start pad v (ground arith)
              (check_complete-modest b b.method (window b) (drop b.end b.buf) modest refl size f
                some_len)
              (rw some_len at e)
        | inr no_len ↦ cc (rw no_len at e)
      ]

  pub make_room-window : IsValid b → window (make_room b) ≡ window b
  unfolding make_room
  make_room-window v = elim (Bool-cases (length b.buf == b.end)) [
    | inr room ↦ rw room
    | inl full ↦ elim (Bool-cases (0 == b.begin)) [
      | inl at_front ↦
          rw (full, at_front)
            (rw
              (drop-append_le b.begin b.buf (replicate b.grow_size 0)
                (omega (arith, v.begin_end, v.end_buf)))
              (take-append_le (b.end - b.begin) (drop b.begin b.buf) (replicate b.grow_size 0)
                (omega (arith, length-drop b.begin b.buf, v.end_buf))))
      | inr later ↦
          let size : b.end - b.begin - 0 ≡ length (window b) = omega (
            arith,
            length-take (b.end - b.begin) (drop b.begin b.buf),
            length-drop b.begin b.buf,
            v.end_buf,
          ) in
          rw (full, later, size) (take-length_append (window b) (drop (b.end - b.begin) b.buf))
    ]
  ]

  pub make_room-IsValid : IsValid b → IsSmall (length b.buf + b.grow_size) → IsValid (make_room b)
  unfolding make_room
  make_room-IsValid v grows = elim (Bool-cases (length b.buf == b.end)) [
    | inr room ↦ rw room v
    | inl full ↦ elim (Bool-cases (0 == b.begin)) [
      | inl at_front ↦
          let size : length (b.buf ++ replicate b.grow_size 0) ≡ length b.buf + b.grow_size =
            omega (
              arith,
              length-append b.buf (replicate b.grow_size 0),
              length-replicate {A = ℕ} b.grow_size 0,
            ) in
          rw (full, at_front)
            (record {
              begin_end = v.begin_end;
              end_buf = omega (arith, size, v.end_buf);
              small = rw size grows;
            })
      | inr later ↦
          let size : length (window b ++ drop (b.end - b.begin) b.buf) ≡ length b.buf = omega (
            arith,
            length-append (window b) (drop (b.end - b.begin) b.buf),
            length-take (b.end - b.begin) (drop b.begin b.buf),
            length-drop b.begin b.buf,
            length-drop (b.end - b.begin) b.buf,
            v.end_buf,
          ) in
          rw (full, later)
            (record {
              begin_end = omega arith;
              end_buf = omega (arith, size, v.end_buf);
              small = rw size v.small;
            })
    ]
  ]

  pub make_room-sequence : (make_room b).sequence ≡ b.sequence
  unfolding make_room
  make_room-sequence = ground arith

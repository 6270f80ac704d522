-- ===== src/Reader/Modest.antt =====
-- The starts and paddings that the built-in checks return are small.
use x_pipeline.Prelude.{
  ℕ, ◌+◌, ◌≤◌, ◌<◌, true, Bytes, length, if◌then◌else◌, ◌≡◌, arith, length-drop, take, drop, sym,
}
use x_pipeline.Numbers.{btoi}
use x_pipeline.Numbers.Decimal.{btoi-length}
use x_pipeline.Reader.{
  Frame, frame, panics, Method, by_delimiter, by_text, by_fixed, by_binary, by_callback,
  BufferedReader, positive, measured, check_fixed, check_delimiter, check_text, check_binary,
  check_complete, big_from, little,
}
use x_pipeline.Reader.Window.{half_int, IsSmall}

abbrev pub IsModest : Frame → Type 0
IsModest (frame len start pad) = positive len ≡ true → start + pad < half_int
IsModest panics = Unit {0}

abbrev pub IsWidth : Method → Type 0
IsWidth (by_binary w) = w ≤ 8
IsWidth m = Unit {0}

-- The reader's settings and the frames of a callback, if the reader has one.
pub record IsModestReader (b : BufferedReader) : Type 0 where
  pub settings : IsSmall (b.param_mle + length b.delimiter)
  pub width : IsWidth b.method
  pub callback :
      (f : Bytes → Frame) → b.method ≡ by_callback f → (bytes : Bytes) → IsModest (f bytes)

module _ (b : BufferedReader) (bytes : Bytes) {len start pad : ℕ} where
  measured-modest :
      (n at : ℕ)
      → at < half_int
      → measured b bytes n at ≡ frame len start pad
      → start + pad < half_int
  unfolding measured
  measured-modest n at h e = ground arith

  check_delimiter-modest :
      IsSmall (length b.delimiter)
      → check_delimiter b bytes ≡ frame len start pad
      → start + pad < half_int
  unfolding check_delimiter
  check_delimiter-modest h e = ground arith

  check_text-modest :
      (spare : Bytes)
      → IsSmall (b.param_mle + length b.delimiter)
      → IsSmall (length bytes)
      → check_text b bytes spare ≡ frame len start pad
      → start + pad < half_int
  unfolding check_text
  check_text-modest spare h small e =
      let (n, digits) = btoi (drop b.param_mle bytes) in
      let at = digits + b.param_mle in
      ground (
        arith,
        btoi-length (drop b.param_mle bytes),
        length-drop b.param_mle bytes,
        measured-modest n at,
        measured-modest n (at + length b.delimiter),
      )

  check_binary-modest :
      (w : ℕ)
      → w ≤ 8
      → IsSmall (b.param_mle + length b.delimiter)
      → check_binary b w bytes ≡ frame len start pad
      → positive len ≡ true
      → start + pad < half_int
  unfolding check_binary
  check_binary-modest w h k e p =
      let n =
        if b.big_endian
        then big_from 0 (take w (drop b.param_mle bytes))
        else little (take w (drop b.param_mle bytes)) in
      ground (arith, measured-modest n (b.param_mle + w))

-- Wherever a message is found, its start and padding are far from the largest int.
pub check_complete-modest :
    (b : BufferedReader) (m : Method) (bytes spare : Bytes) {len start pad : ℕ}
    → IsModestReader b
    → m ≡ b.method
    → IsSmall (length bytes)
    → check_complete b m bytes spare ≡ frame len start pad
    → positive len ≡ true
    → start + pad < half_int
unfolding check_complete
check_complete-modest b by_delimiter bytes spare h e small f p =
    check_delimiter-modest b bytes (omega (arith, h.settings)) f
check_complete-modest b by_text bytes spare h e small f p =
    check_text-modest b bytes spare h.settings small f
check_complete-modest b by_fixed bytes spare h e small f p = unfold check_fixed in ground arith
check_complete-modest b (by_binary w) bytes spare h e small f p =
    check_binary-modest b bytes w (rw (← e) at h.width) h.settings f p
check_complete-modest b (by_callback g) bytes spare h e small f p =
    (rw f at (h.callback g (sym e) bytes)) p

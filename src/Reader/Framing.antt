-- ===== src/Reader/Framing.antt =====
-- shared/bufferedreader.go: the buffer, and how each method finds the end of a message in it.
-- A Go int is a number modulo 2 ^ 64.
use x_pipeline.Prelude.{
  ℕ, suc, ◌+◌, ◌*◌, ◌%◌, Bool, true, ◌&&◌, [], ◌∷◌, ◌++◌, Option, none, some, Bytes, length, take,
  drop, replicate, ltb, leb, ◌==◌, if◌then◌else◌, ◌>>=◌, equal, strip_prefix,
}
use x_pipeline.Numbers.{u64_mod, btoi}

abbrev pub int_max : ℕ
int_max = 0x8000000000000000

-- `a > b` on ints, where `b` is not negative.
abbrev pub greater : ℕ → ℕ → Bool
greater a b = ltb a int_max && ltb b a

-- What a check of the buffer returns: the length of a message, its start and its padding.
pub data Frame : Type 0 where
  frame : ℕ → ℕ → ℕ → Frame
  panics : Frame

abbrev pub incomplete_frame : Frame
incomplete_frame = frame 0 0 0

-- The -1 of the binary checks, for a length that could not be read.
abbrev pub malformed_frame : Frame
malformed_frame = frame 0 0xFFFFFFFFFFFFFFFF 0

-- The method that finds messages; `binary w` reads a length of w bytes.
pub data Method : Type 0 where
  by_delimiter by_text by_fixed : Method
  by_binary : ℕ → Method
  by_callback : (Bytes → Frame) → Method

pub record BufferedReader : Type 0 where
  pub buf : Bytes
  pub delimiter : Bytes
  pub method : Method
  pub sequence : ℕ
  pub param_mle : ℕ
  pub grow_size : ℕ
  pub begin : ℕ
  pub end : ℕ
  pub big_endian : Bool
  pub everything : Bool
  pub incomplete : Bool

-- The bits 0 to 2 of the flags choose the method, unless a callback is given.
unfoldable pub method_of : ℕ → Method
method_of mle =
    if mle == 0
    then by_delimiter
    else if mle == 2
    then by_binary 1
    else if mle == 3
    then by_binary 2
    else if mle == 4
    then by_binary 4
    else if mle == 5
    then by_binary 8
    else if mle == 6
    then by_fixed
    else by_text

unfoldable pub new_buffered_reader :
    ℕ → (mle : ℕ) (big everything : Bool) → ℕ → Bytes → Option (Bytes → Frame) → BufferedReader
unfolding method_of
new_buffered_reader size mle big everything offset delimiter callback = record {
  buf = replicate size 0;
  delimiter = delimiter;
  method = elim callback [ none ↦ method_of mle | some f ↦ by_callback f ];
  sequence = 0;
  param_mle = offset;
  grow_size = size;
  begin = 0;
  end = 0;
  big_endian = big;
  everything = everything;
  incomplete = true;
}

unfoldable pub reset : BufferedReader → ℕ → BufferedReader
reset b sequence = record b { sequence = sequence; begin = 0; end = 0; incomplete = true }

-- `bytes.Index`.
unfoldable pub index : Bytes → Bytes → Option ℕ
index [] sep = elim (strip_prefix sep []) [ none ↦ none | some r ↦ some 0 ]
index (x ∷ xs) sep =
    let later = index xs sep in
    elim (strip_prefix sep (x ∷ xs)) [ none ↦ (later >>= λ i. some (suc i)) | some r ↦ some 0 ]

-- The bytes of an unsigned number, in the two orders.
unfoldable pub little : Bytes → ℕ
little [] = 0
little (x ∷ xs) = x + 256 * little xs

unfoldable pub big_from : ℕ → Bytes → ℕ
big_from n [] = n
big_from n (x ∷ xs) = big_from (n * 256 + x) xs

unfoldable pub check_fixed : BufferedReader → Bytes → Frame
check_fixed b bytes =
    if leb b.param_mle (length bytes) then frame b.param_mle 0 0 else incomplete_frame

unfoldable pub check_delimiter : BufferedReader → Bytes → Frame
unfolding index
check_delimiter b bytes = elim (index bytes b.delimiter) [
  | none ↦ incomplete_frame
  | some at ↦
      if b.everything then frame (at + length b.delimiter) 0 0 else frame at 0 (length b.delimiter)
]

-- The end of the checks that read a length: `start` is the offset of the message.
unfoldable pub measured : BufferedReader → Bytes → ℕ → ℕ → Frame
measured b bytes len start =
    let total = (len + start) % u64_mod in
    if greater total (length bytes)
    then incomplete_frame
    else if b.everything
    then frame total 0 0
    else frame len start 0

-- `spare` is the capacity of the slice behind its length: slicing up to there is no panic.
unfoldable pub check_text : BufferedReader → Bytes → Bytes → Frame
unfolding measured
check_text b bytes spare =
    let (len, digits) = btoi (drop b.param_mle bytes) in
    let start = digits + b.param_mle in
    let pad = length b.delimiter in
    if leb (length bytes) b.param_mle
    then incomplete_frame
    else if digits == 0
    then incomplete_frame
    else if ltb 0 pad
    then if ltb (length (bytes ++ spare)) (start + pad)
      then panics
      else if equal (take pad (drop start (bytes ++ spare))) b.delimiter
      then measured b bytes len (start + pad)
      else incomplete_frame
    else measured b bytes len start

-- The four checks of binary lengths differ in the width. `data[paramMLE:]` panics beyond the length.
unfoldable pub check_binary : BufferedReader → ℕ → Bytes → Frame
unfolding measured little big_from
check_binary b width bytes =
    let field = take width (drop b.param_mle bytes) in
    let len = if b.big_endian then big_from 0 field else little field in
    if ltb (length bytes) b.param_mle
    then panics
    else if ltb (length field) width
    then malformed_frame
    else measured b bytes len (b.param_mle + width)

unfoldable pub check_complete : BufferedReader → Method → Bytes → Bytes → Frame
unfolding check_fixed check_delimiter check_text check_binary
check_complete b by_delimiter bytes spare = check_delimiter b bytes
check_complete b by_text bytes spare = check_text b bytes spare
check_complete b by_fixed bytes spare = check_fixed b bytes
check_complete b (by_binary w) bytes spare = check_binary b w bytes
check_complete b (by_callback f) bytes spare = f bytes

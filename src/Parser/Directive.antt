-- ===== src/Parser/Directive.antt =====
-- shared/parser.go: ParseTransitionDirective, which reads a directive of the configuration.
-- `strings.ToLower` and `strings.TrimSpace` are parameters, and so are the callbacks by name.
use x_pipeline.Prelude.{
  ℕ, ◌+◌, ◌&&◌, List, [], ◌∷◌, Option, none, some, Bytes, codes, equal, length, map, ◌==◌,
  if◌then◌else◌,
}
use x_pipeline.Formats.{split}
use x_pipeline.Parser.{
  TransitionDirective, flag_continue, flag_append, flag_include, flag_push, flag_pop, has_flag,
}

-- The replacer of escapes: a colon behind a backslash becomes a backspace for the time of the split.
unfoldable pub escape : Bytes → Bytes
escape [] = []
escape (x ∷ []) = x ∷ []
escape (x ∷ y ∷ rest) =
    let later = escape (y ∷ rest) in
    let behind = escape rest in
    if x == 92 && y == b'n'
    then 10 ∷ behind
    else if x == 92 && y == b'r'
    then 13 ∷ behind
    else if x == 92 && y == b't'
    then 9 ∷ behind
    else if x == 92 && y == b':'
    then 8 ∷ behind
    else x ∷ later

unfoldable pub restore : Bytes → Bytes
restore [] = []
restore (x ∷ xs) = (if x == 8 then b':' else x) ∷ restore xs

-- `flags |= flag`, for one of the five flags.
unfoldable pub with_flag : ℕ → ℕ → ℕ
unfolding has_flag
with_flag flags flag = if has_flag flags flag then flags else flags + flag

abbrev pub flag_of : Bytes → Option ℕ
flag_of name =
    if equal name (codes "continue")
    then some flag_continue
    else if equal name (codes "append")
    then some flag_append
    else if equal name (codes "include")
    then some flag_include
    else if equal name (codes "push")
    then some flag_push
    else if equal name (codes "pop")
    then some flag_pop
    else none

module _ {C : Type 0} (to_lower trim_space : Bytes → Bytes) (callbacks : Bytes → Option C) where
  unfoldable pub read_flags : List Bytes → ℕ → ℕ
  unfolding with_flag
  read_flags [] flags = flags
  read_flags (name ∷ names) flags = read_flags names (elim (flag_of (to_lower (trim_space name))) [
    | none ↦ flags
    | some flag ↦ with_flag flags flag
  ])

  abbrev pub of_tokens : List Bytes → Option (TransitionDirective C)
  of_tokens (state ∷ token ∷ next ∷ flags ∷ function ∷ []) = some (record {
    state_name = trim_space state;
    token = token;
    next_name = trim_space next;
    dir_flags = read_flags (split (length flags) flags (codes ",")) 0;
    dir_callback = callbacks (trim_space function);
  })
  of_tokens tokens = none

  -- `none` is the error for another number of tokens than five.
  unfoldable pub parse_transition_directive : Bytes → Option (TransitionDirective C)
  unfolding escape restore split read_flags
  parse_transition_directive config =
      let escaped = escape config in
      of_tokens (map restore (split (length escaped) escaped (codes ":")))

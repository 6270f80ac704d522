-- ===== src/ProcessTsv.antt =====
-- format/processtsv.go: the directives that change the values of a line, and Format, which splits the
-- line (Parsing) and joins it again. Parameters are `strings.ToLower`, `strings.Replace` and `strings.Trim`
-- with a set of characters, `strconv.Atoi`, what time.Parse and Format make of a timestamp (`retime`), and
-- what the package user_agent finds in a text (`user_agent`).
mod Parsing
pub mod Lines
pub mod Ends
pub mod Columns
pub mod Formatted
mod Tests
unfoldable pub use Parsing.*
use x_pipeline.Prelude.{
  ℕ, zero, suc, ◌+◌, Bool, true, not, ◌&&◌, List, [], ◌∷◌, ◌++◌, Option, none, some, ◌>>=◌, Bytes,
  codes, equal, length, take, drop, set, get_elem?, ltb, ◌==◌, if◌then◌else◌, map,
}
use x_pipeline.Reader.{index}
use x_pipeline.Formats.{split, Formatter}
use x_pipeline.Message.{Message}
use x_pipeline.MarshalMap.{Number, at, below_zero}
use x_pipeline.ProcessJson.{unescape}

-- The words that the switch compares with.
pub data TsvOperation : Type 0 where
  time replace prefix postfix trim quote remove agent unknown : TsvOperation

pub data AgentField : Type 0 where
  mozilla platform os localization engine engine_version browser version : AgentField

pub record TsvDirective : Type 0 where
  pub index : Number
  pub operation : TsvOperation
  pub parameters : List Bytes

unfoldable pub operation_of : Bytes → TsvOperation
operation_of word =
    if equal word (codes "time")
    then time
    else if equal word (codes "replace")
    then replace
    else if equal word (codes "prefix")
    then prefix
    else if equal word (codes "postfix")
    then postfix
    else if equal word (codes "trim")
    then trim
    else if equal word (codes "quote")
    then quote
    else if equal word (codes "remove")
    then remove
    else if equal word (codes "agent")
    then agent
    else unknown

unfoldable pub agent_field : Bytes → Option AgentField
agent_field word =
    if equal word (codes "mozilla")
    then some mozilla
    else if equal word (codes "platform")
    then some platform
    else if equal word (codes "os")
    then some os
    else if equal word (codes "localization")
    then some localization
    else if equal word (codes "engine")
    then some engine
    else if equal word (codes "engine_version")
    then some engine_version
    else if equal word (codes "browser")
    then some browser
    else if equal word (codes "version")
    then some version
    else none

abbrev pub all_agent_fields : List Bytes
all_agent_fields =
    codes "mozilla"
    ∷ codes "platform"
    ∷ codes "os"
    ∷ codes "localization"
    ∷ codes "engine"
    ∷ codes "engine_version"
    ∷ codes "browser"
    ∷ codes "version"
    ∷ []

-- `Configure`: a colon behind a backslash becomes a carriage return for the time of the split.
unfoldable pub hide_colons : Bytes → Bytes
hide_colons [] = []
hide_colons (x ∷ []) = x ∷ []
hide_colons (x ∷ y ∷ rest) =
    let later = hide_colons (y ∷ rest) in
    let behind = hide_colons rest in if x == 92 && y == b':' then 13 ∷ behind else x ∷ later

unfoldable pub show_colons : Bytes → Bytes
show_colons [] = []
show_colons (x ∷ xs) = (if x == 13 then b':' else x) ∷ show_colons xs

module _ (to_lower : Bytes → Bytes) (atoi : Bytes → Option Number) where
  -- A directive of fewer than two parts is left out; `none` is the error of Atoi.
  abbrev pub of_parts : List Bytes → List TsvDirective → Option (List TsvDirective)
  of_parts (i ∷ op ∷ parameters) later = atoi i >>= λ n. some (
      record {
        index = n;
        operation = operation_of (to_lower op);
        parameters = map unescape parameters;
      }
      ∷ later)
  of_parts parts later = some later

  unfoldable pub configure_directives : List Bytes → Option (List TsvDirective)
  unfolding hide_colons show_colons split operation_of unescape
  configure_directives [] = some []
  configure_directives (d ∷ ds) =
      let hidden = hide_colons d in
      configure_directives ds >>= λ later.
      of_parts (map show_colons (split (length hidden) hidden (codes ":"))) later

module _ (replace_all : Bytes → Bytes → Bytes → Bytes) (trim_set : Bytes → Bytes → Bytes)
    (retime : Bytes → Bytes → Bytes → Option Bytes) (user_agent : AgentField → Bytes → Bytes) where
  -- The values of the fields that the switch knows.
  unfoldable pub agent_values : List Bytes → Bytes → List Bytes
  unfolding agent_field
  agent_values [] value = []
  agent_values (name ∷ names) value =
      let later = agent_values names value in
      elim (agent_field name) [ none ↦ later | some f ↦ user_agent f value ∷ later ]

  abbrev pub agent_fields : List Bytes → List Bytes
  agent_fields [] = all_agent_fields
  agent_fields (name ∷ names) = name ∷ names

  -- What an operation on the value itself makes of it; a parse error leaves it.
  abbrev pub new_value : TsvOperation → List Bytes → TsvValue → TsvValue
  new_value time (old ∷ new ∷ []) v = elim (retime old (take (length old) v.value) new) [
    | none ↦ v
    | some text ↦ record v { value = text }
  ]
  new_value replace (old ∷ new ∷ []) v = record v {
    value = replace_all v.value (unescape old) (unescape new);
  }
  new_value prefix (p ∷ []) v = record v { value = unescape p ++ v.value }
  new_value postfix (p ∷ []) v = record v { value = v.value ++ unescape p }
  new_value trim [] v = record v { value = trim_set v.value (codes " ") }
  new_value trim (cut ∷ []) v = record v { value = trim_set v.value (unescape cut) }
  new_value quote parameters v = record v { quoted = true }
  new_value op parameters v = v

  -- A value shorter than the layout of its time is sliced out of range.
  abbrev pub slices_value : TsvOperation → List Bytes → TsvValue → Bool
  slices_value time (old ∷ new ∷ []) v = not (ltb (length v.value) (length old))
  slices_value op parameters v = true

  -- The case of the switch, for the value `v` at `i`; `none` is a panic.
  unfoldable pub apply_operation :
      TsvOperation → List Bytes → ℕ → TsvValue → List TsvValue → Option (List TsvValue)
  unfolding agent_values strings_to_tsv_values unescape
  apply_operation remove parameters i v values = some (take i values ++ drop (suc i) values)
  apply_operation agent parameters i v values = some (
      take (suc i) values
      ++ (strings_to_tsv_values (agent_values (agent_fields parameters) v.value)
          ++ drop (suc i) values))
  apply_operation op parameters i v values =
      if slices_value op parameters v then some (set values i (new_value op parameters v)) else none

  -- An index behind the values is skipped; one below zero is a panic.
  unfoldable pub process_tsv_directive : TsvDirective → List TsvValue → Option (List TsvValue)
  unfolding apply_operation
  process_tsv_directive d values = elim d.index [
    | below_zero n ↦ none
    | at i ↦ elim (get_elem? values i) [
      | none ↦ some values
      | some v ↦ apply_operation d.operation d.parameters i v values
    ]
  ]

  unfoldable pub process_tsv_directives : List TsvDirective → List TsvValue → Option (List TsvValue)
  unfolding process_tsv_directive
  process_tsv_directives [] values = some values
  process_tsv_directives (d ∷ ds) values =
      process_tsv_directive d values >>= process_tsv_directives ds

-- What Format returns for the data and stream of the formatter that it builds on. A line with a quote
-- that is not closed comes back as it is; `none` is a panic.
abbrev pub format_parsed :
    (List TsvValue → Option (List TsvValue)) → Bytes → Bytes → ℕ → TsvParsed → Option (Bytes × ℕ)
format_parsed process delimiter bytes stream (parsed values) =
    process values >>= λ done. some (write_line delimiter done, stream)
format_parsed process delimiter bytes stream unmatched = some (bytes, stream)
format_parsed process delimiter bytes stream panics = none
format_parsed process delimiter bytes stream out_of_fuel = none

module _ (replace_all : Bytes → Bytes → Bytes → Bytes) (trim_set : Bytes → Bytes → Bytes)
    (retime : Bytes → Bytes → Bytes → Option Bytes) (user_agent : AgentField → Bytes → Bytes) where
  unfoldable pub format_tsv :
      Formatter → List TsvDirective → Bytes → Bool → Message → Option (Bytes × ℕ)
  unfolding process_tsv_directives parse_line write_line
  format_tsv base [] delimiter quoted_values msg = some (base msg)
  format_tsv base (d ∷ ds) delimiter quoted_values msg =
      let (bytes, stream) = base msg in
      format_parsed (process_tsv_directives replace_all trim_set retime user_agent (d ∷ ds))
        delimiter bytes stream (parse_line quoted_values delimiter bytes)

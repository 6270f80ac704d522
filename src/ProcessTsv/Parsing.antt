-- ===== src/ProcessTsv/Parsing.antt =====
-- format/processtsv.go: a line is split into its values, quoted or not, and written again. The delimiter is
-- not empty.
use x_pipeline.Prelude.{
  ℕ, zero, suc, ◌+◌, ◌-◌, Bool, true, false, List, [], ◌∷◌, ◌++◌, Option, none, some, Bytes, length,
  take, drop, ◌==◌, if◌then◌else◌, map,
}
use x_pipeline.Reader.{index}
use x_pipeline.Formats.{split}

pub record TsvValue : Type 0 where
  pub quoted : Bool
  pub value : Bytes

unfoldable pub strings_to_tsv_values : List Bytes → List TsvValue
strings_to_tsv_values [] = []
strings_to_tsv_values (v ∷ vs) = record { quoted = false; value = v } ∷ strings_to_tsv_values vs

-- `strings.SplitN(s, sep, 2)`.
unfoldable pub split_two : Bytes → Bytes → Bytes × Option Bytes
unfolding index
split_two s sep = elim (index s sep) [
  | none ↦ (s, none)
  | some i ↦ (take i s, some (drop (i + length sep) s))
]

pub data TsvParsed : Type 0 where
  parsed : List TsvValue → TsvParsed
  unmatched panics out_of_fuel : TsvParsed

-- What the rounds before have found stands before what the later ones find.
abbrev pub behind_values : List TsvValue → TsvParsed → TsvParsed
behind_values values (parsed more) = parsed (values ++ more)
behind_values values unmatched = unmatched
behind_values values panics = panics
behind_values values out_of_fuel = out_of_fuel

unfoldable pub final_byte : Bytes → Option ℕ
final_byte [] = none
final_byte (x ∷ []) = some x
final_byte (x ∷ y ∷ xs) = final_byte (y ∷ xs)

-- The end of a line in quotes, without its last byte.
unfoldable pub close_quote : Bytes → TsvParsed
unfolding final_byte
close_quote s = elim (final_byte s) [
  | none ↦ panics
  | some c ↦
      if c == 34
      then parsed (record { quoted = true; value = take (length s - 1) s } ∷ [])
      else unmatched
]

-- The second part of a round, behind a quote: `go` is the next round.
abbrev pub from_quote : (Bytes → TsvParsed) → Bytes × Option Bytes → TsvParsed
from_quote go (value, some rest) =
    behind_values (record { quoted = true; value = value } ∷ []) (go rest)
from_quote go (value, none) = close_quote value

-- The values before a quote, and the round from there.
abbrev pub from_plain : (Bytes → TsvParsed) → Bytes → Bytes × Option Bytes → TsvParsed
from_plain quote_part delimiter (plain, more) =
    let values = strings_to_tsv_values (split (length plain) plain delimiter) in
    elim more [ none ↦ parsed values | some rest ↦ behind_values values (quote_part rest) ]

-- The loop of Format over a line with quoted values.
unfoldable pub parse_quoted : ℕ → Bytes → Bytes → TsvParsed
unfolding split_two close_quote strings_to_tsv_values split
parse_quoted zero delimiter remainder = out_of_fuel
parse_quoted (suc fuel) delimiter [] = panics
parse_quoted (suc fuel) delimiter (c ∷ cs) =
    let quote_part =
      λ (s : Bytes). from_quote (parse_quoted fuel delimiter) (split_two s (34 ∷ delimiter)) in
    if c == 34
    then quote_part cs
    else from_plain quote_part delimiter (split_two (c ∷ cs) (delimiter ++ 34 ∷ []))

unfoldable pub string_value : TsvValue → Bytes
string_value v = if v.quoted then 34 ∷ (v.value ++ 34 ∷ []) else v.value

-- `strings.Join`.
unfoldable pub join : List Bytes → Bytes → Bytes
join [] sep = []
join (s ∷ []) sep = s
join (s ∷ t ∷ ss) sep = s ++ (sep ++ join (t ∷ ss) sep)

unfoldable pub write_line : Bytes → List TsvValue → Bytes
unfolding string_value join
write_line delimiter values = join (map string_value values) delimiter

unfoldable pub parse_line : Bool → Bytes → Bytes → TsvParsed
unfolding parse_quoted strings_to_tsv_values split
parse_line quoted_values delimiter bytes =
    if quoted_values
    then parse_quoted (suc (length bytes)) delimiter bytes
    else parsed (strings_to_tsv_values (split (length bytes) bytes delimiter))

-- ===== src/ProcessTsv/Tests.antt =====
-- A short line with quotes.
use x_pipeline.Prelude.{
  ℕ, length, get_elem?, true, false, Bytes, codes, equal, strip_prefix, [], ◌∷◌, some, none, List,
  Option, ◌>>=◌, if◌then◌else◌, ◌≡◌, ◌≢◌, refl,
}
use x_pipeline.Reader.{index}
use x_pipeline.Formats.{split, forward}
use x_pipeline.MarshalMap.{Number, at}
use x_pipeline.Message.{Message}
use x_pipeline.ProcessJson.{unescape}
use x_pipeline.ProcessTsv.{
  AgentField, TsvDirective, TsvValue, prefix, postfix, quote, TsvParsed, parsed, unmatched, panics,
  out_of_fuel, parse_line, parse_quoted, strings_to_tsv_values, split_two, close_quote, final_byte,
  write_line, string_value, join, apply_operation, process_tsv_directive, process_tsv_directives,
  format_tsv, agent_values, agent_field, configure_directives, hide_colons, show_colons,
  operation_of,
}
use x_pipeline.ProcessTsv.Lines.{write_line-parse}
use x_pipeline.ProcessTsv.Ends.{parse_line_ends}
use x_pipeline.ProcessTsv.Columns.{column}
use x_pipeline.ProcessTsv.Formatted.{format_tsv-columns}

program : Unit {0}
unfolding index strip_prefix split equal parse_line parse_quoted strings_to_tsv_values split_two
    close_quote final_byte write_line string_value join apply_operation process_tsv_directive
    process_tsv_directives format_tsv agent_values agent_field configure_directives hide_colons
    show_colons operation_of unescape forward
program = tt

abbrev plain : Bytes → TsvValue
plain text = record { quoted = false; value = text }

abbrev in_quotes : Bytes → TsvValue
in_quotes text = record { quoted = true; value = text }

abbrev line : Bytes
line = codes "a,\"b,c\",d"

abbrev line_values : TsvParsed
line_values = parsed (plain (codes "a") ∷ in_quotes (codes "b,c") ∷ plain (codes "d") ∷ [])

parse_line-line : parse_line true (codes ",") line ≡ line_values
unfolding program
parse_line-line = refl

write_line-parse_example :
    write_line (codes ",") (plain (codes "a") ∷ in_quotes (codes "b,c") ∷ plain (codes "d") ∷ [])
    ≡ line
write_line-parse_example =
    write_line-parse (codes ",") true line
      (plain (codes "a") ∷ in_quotes (codes "b,c") ∷ plain (codes "d") ∷ []) parse_line-line

parse_line_ends_example : parse_line true (codes ",") line ≢ out_of_fuel
parse_line_ends_example = parse_line_ends true (codes ",") line

-- A line that ends behind a delimiter, one without an end of its quotes, and one that is empty.
parse_line-faults :
    (parse_line true (codes ",") (codes "\"a\",") ≡ panics)
    × (parse_line true (codes ",") (codes "\"a") ≡ unmatched)
    × (parse_line true (codes ",") [] ≡ panics)
unfolding program
parse_line-faults = (refl, refl, refl)

abbrev directives : List Bytes
directives = codes "1:remove" ∷ codes "0:prefix:x\\:" ∷ []

abbrev atoi : Bytes → Option Number
atoi text = if equal text (codes "1") then some (at 1) else some (at 0)

abbrev user_agent : AgentField → Bytes → Bytes
user_agent f s = s

abbrev message : Message
message = record { payload = line; stream_id = 1; prev_stream_id = 1; sequence = 0 }

format_tsv-line :
    (configure_directives (λ s. s) atoi directives >>= λ ds.
    format_tsv
      (λ s old new. s)
      (λ s cut. s)
      (λ old s new. none)
      user_agent
      forward
      ds
      (codes ",")
      true
      message)
    ≡ some (codes "x:a,d", 1)
unfolding program
format_tsv-line = refl

abbrev two_edits : List TsvDirective
two_edits =
    record { index = at 0; operation = prefix; parameters = codes "x" ∷ [] }
    ∷ record { index = at 2; operation = quote; parameters = [] }
    ∷ record { index = at 0; operation = postfix; parameters = codes "y" ∷ [] }
    ∷ []

format_tsv-edits :
    format_tsv
      (λ s old new. s)
      (λ s cut. s)
      (λ old s new. none)
      user_agent
      forward
      two_edits
      (codes ",")
      true
      message
    ≡ some (codes "xay,\"b,c\",\"d\"", 1)
unfolding program
format_tsv-edits = refl

format_tsv-columns_example :
    (done : List TsvValue) × (format_tsv
        (λ s old new. s)
        (λ s cut. s)
        (λ old s new. none)
        user_agent
        forward
        two_edits
        (codes ",")
        true
        message
      ≡ some (write_line (codes ",") done, (forward message).1))
    × (length done ≡ 3)
    × ((j : ℕ) (v : TsvValue)
        → get_elem? (plain (codes "a") ∷ in_quotes (codes "b,c") ∷ plain (codes "d") ∷ []) j
          ≡ some v
        → get_elem? done j
          ≡ some (column (λ s old new. s) (λ s cut. s) (λ old s new. none) two_edits j v))
unfolding forward
format_tsv-columns_example =
    format_tsv-columns (λ s old new. s) (λ s cut. s) (λ old s new. none) user_agent forward
      two_edits (codes ",") true message
      (plain (codes "a") ∷ in_quotes (codes "b,c") ∷ plain (codes "d") ∷ []) refl parse_line-line
      (λ j v there. refl)

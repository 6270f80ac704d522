-- ===== src/Json/Tests.antt =====
-- Runs of the JSON formatter.
use x_pipeline.Prelude.{ℕ, Bytes, codes, [], ◌∷◌, ◌++◌, some, equal, strip_prefix, ◌≡◌, refl}
use x_pipeline.Trie.{TrieNode, node, nil, match_start}
use x_pipeline.Parser.{Transition, TransitionParser, has_flag}
use x_pipeline.Json.{
  read_value, read_object, Action, key, obj, arr, curly, square, opens, closes, text, render, Json,
  format_json, formatted,
}
use x_pipeline.Json.Configure.{configure_json}
use x_pipeline.Json.Nesting.{json}
use x_pipeline.Json.Output.{Ended, format_json-Ended}

abbrev quoted : Bytes → Bytes
quoted bytes = b'"' ∷ bytes ++ b'"' ∷ []

abbrev same : Bytes → Bytes
same bytes = bytes

abbrev leaf : Bytes → ℕ → Action → TrieNode (Transition Action)
leaf token next action =
    node token nil 1 1 (some (record { next_state = next; flags = 0; callback = some action }))

-- `a` is opened by `{`, in it a key ends at `:`, and behind it `[` opens an array.
abbrev small_parser : TransitionParser Action
small_parser = record {
  lookup = codes "b" ∷ codes "a" ∷ codes "c" ∷ [];
  tokens =
      some (leaf (codes ":") 2 key)
      ∷ some (leaf (codes "{") 0 obj)
      ∷ some (leaf (codes "[") 0 arr)
      ∷ [];
  stack = [];
}

-- The parser that Configure builds from its texts.
configured :
    configure_json same same []
      (codes "a:{:b::obj" ∷ codes "b:\\::c::key" ∷ codes "c:[:b::arr" ∷ [])
    ≡ some (small_parser, codes "a")
unfolding configure_json equal strip_prefix
configured = refl

abbrev small_output : Json
small_output =
    json
      (opens curly
        ∷ opens curly
        ∷ text (quoted (codes "k") ++ codes ":")
        ∷ opens square
        ∷ text (quoted (codes "v"))
        ∷ closes square
        ∷ closes curly
        ∷ text (codes "\n")
        ∷ [])
      read_value (read_object ∷ [])

small_run :
    format_json same quoted same 20 small_parser [] (codes "a") (codes "{k:[v")
    ≡ formatted small_parser small_output (codes "{{\"k\":[\"v\"]}\n")
unfolding format_json match_start has_flag render equal
small_run = refl

format_json-Ended_example :
    (codes "{{\"k\":[\"v\"]}\n" ≡ same (render small_output.message)) × Ended small_output
format_json-Ended_example =
    format_json-Ended same quoted same 20 small_parser (codes "a") (codes "{k:[v") small_run

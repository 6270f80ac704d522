-- ===== src/Json/Configure.antt =====
-- format/json.go: Configure, less the reading of the configuration: the directives as texts and the
-- start state. What it only logs is left out.
use x_pipeline.Prelude.{
  Bool, false, ◌||◌, List, [], ◌∷◌, Option, none, some, ◌>>=◌, Bytes, codes, equal, length, ◌==◌,
  if◌then◌else◌,
}
use x_pipeline.Parser.{TransitionParser, TransitionDirective, add_directives}
use x_pipeline.Parser.Directive.{parse_transition_directive}
use x_pipeline.Json.{
  Action, key, val, esc, dat, arr, obj, end, arr_val, arr_esc, val_end, esc_end, dat_end,
}

-- `parserFunctions`.
abbrev pub parser_functions : List (Bytes × Action)
parser_functions =
    (codes "key", key)
    ∷ (codes "val", val)
    ∷ (codes "esc", esc)
    ∷ (codes "dat", dat)
    ∷ (codes "arr", arr)
    ∷ (codes "obj", obj)
    ∷ (codes "end", end)
    ∷ (codes "arr+val", arr_val)
    ∷ (codes "arr+esc", arr_esc)
    ∷ (codes "val+end", val_end)
    ∷ (codes "esc+end", esc_end)
    ∷ (codes "dat+end", dat_end)
    ∷ []

unfoldable pub action_of : List (Bytes × Action) → Bytes → Option Action
action_of [] name = none
action_of ((n, a) ∷ functions) name = if equal n name then some a else action_of functions name

unfoldable pub has_state : List (TransitionDirective Action) → Bytes → Bool
has_state [] name = false
has_state (d ∷ ds) name = equal d.state_name name || has_state ds name

-- The start state, if none is configured, is the first one of the directives that is not empty.
abbrev pub start_state : Bytes → List (TransitionDirective Action) → Bytes
start_state init [] = init
start_state init (d ∷ ds) = start_state (if length init == 0 then d.state_name else init) ds

module _ (to_lower trim_space : Bytes → Bytes) where
  unfoldable pub parse_directives : List Bytes → Option (List (TransitionDirective Action))
  unfolding parse_transition_directive action_of
  parse_directives [] = some []
  parse_directives (config ∷ configs) =
      parse_transition_directive to_lower trim_space (action_of parser_functions) config >>= λ d.
      parse_directives configs >>= λ ds. some (d ∷ ds)

  -- The parser and the start state; `none` is an error, or a panic of the trie.
  unfoldable pub configure_json : Bytes → List Bytes → Option (TransitionParser Action × Bytes)
  unfolding parse_directives add_directives has_state
  configure_json init [] = some (record { lookup = []; tokens = []; stack = [] }, init)
  configure_json init (config ∷ configs) = parse_directives (config ∷ configs) >>= λ ds.
      add_directives (record { lookup = []; tokens = []; stack = [] }) ds >>= λ p.
      if has_state ds (start_state init ds) then some (p, start_state init ds) else none

-- ===== src/Json.antt =====
-- format/json.go: JSON written by the callbacks of a transition parser.
-- What is written is a list of pieces, brackets and texts, so that a bracket of the output can be told
-- from one inside a value. `bytes.TrimSpace`, the string encoding of `json.Marshal` and the
-- conversion of dates are parameters.
pub mod Nesting
pub mod Balance
pub mod Actions
pub mod Output
pub mod Faults
pub mod Configure
mod Tests
use x_pipeline.Prelude.{
  ℕ, zero, suc, ◌+◌, Bool, true, false, List, [], ◌∷◌, ◌++◌, none, some, Bytes, codes, length, ltb,
  ◌==◌, if◌then◌else◌,
}
use x_pipeline.Parser.{TransitionParser, Call, done, fault, out_of_fuel, parse, get_state_name}

pub data Bracket : Type 0 where
  curly square : Bracket

pub data Piece : Type 0 where
  opens closes : Bracket → Piece
  text : Bytes → Piece

-- `jsonReaderState`, less the two constants that nothing uses.
pub data ReaderState : Type 0 where
  read_object read_key read_value read_array read_array_append : ReaderState

-- The names that Configure maps to methods.
pub data Action : Type 0 where
  key val esc dat arr obj end arr_val arr_esc val_end esc_end dat_end : Action

pub record Json : Type 0 where
  pub message : List Piece
  pub state : ReaderState
  pub stack : List ReaderState  -- the top first

abbrev pub piece_bytes : Piece → Bytes
piece_bytes (opens curly) = b'{' ∷ []
piece_bytes (opens square) = b'[' ∷ []
piece_bytes (closes curly) = b'}' ∷ []
piece_bytes (closes square) = b']' ∷ []
piece_bytes (text bytes) = bytes

unfoldable pub render : List Piece → Bytes
render [] = []
render (p ∷ ps) = piece_bytes p ++ render ps

abbrev pub in_array : ReaderState → Bool
in_array read_array = true
in_array read_array_append = true
in_array s = false

-- `format.state > jsonReadKey`.
abbrev pub past_key : ReaderState → Bool
past_key read_object = false
past_key read_key = false
past_key s = true

abbrev pub is_object : ReaderState → Bool
is_object read_object = true
is_object s = false

abbrev pub write : Json → Piece → Json
write j p = record j { message = j.message ++ p ∷ [] }

-- The state after a pop: an array that has its first entry now.
abbrev pub resumed : ReaderState → ReaderState
resumed read_array = read_array_append
resumed s = s

unfoldable pub read_end : Json → Json
read_end j =
    let closed = write j (closes (if in_array j.state then square else curly)) in
    elim j.stack [
      | [] ↦ record j { stack = []; state = read_key }
      | s ∷ [] ↦ record closed { stack = []; state = read_key }
      | s ∷ s' ∷ rest ↦ record closed { stack = s' ∷ rest; state = resumed s }
    ]

-- A loop around `readEnd`.
unfoldable pub end_while : (ReaderState → Bool) → ℕ → Json → Json
unfolding read_end
end_while goes zero j = j
end_while goes (suc fuel) j =
    let rest = end_while goes fuel (read_end j) in if goes j.state then rest else j

unfoldable pub write_key : Json → Bytes → Json
unfolding end_while
write_key j name =
    let j1 = end_while in_array (length j.stack + 1) j in
    let j2 = if past_key j1.state then write j1 (text (codes "null")) else j1 in
    let j3 = if is_object j2.state then j2 else write j2 (text (codes ",")) in
    write j3 (text (b'"' ∷ name ++ codes "\":"))

unfoldable pub read_key_of : Json → Bytes → Json
unfolding write_key
read_key_of j bytes = record (write_key j bytes) { state = read_value }

-- What `readValue` and `readEscaped` do with a text that is not empty.
unfoldable pub put_value : Json → Bytes → Bytes → Json
unfolding write_key
put_value j name bytes = elim j.state [
  | read_value ↦ record (write j (text bytes)) { state = read_key }
  | read_array ↦ record (write j (text bytes)) { state = read_array_append }
  | read_array_append ↦ write (write j (text (codes ","))) (text bytes)
  | read_object ↦ record (write (write_key j name) (text bytes)) { state = read_key }
  | read_key ↦ record (write (write_key j name) (text bytes)) { state = read_key }
]

-- And with an empty one.
unfoldable pub skip_value : Json → Json
skip_value j = if in_array j.state then j else record j { state = read_key }

-- `readArray` and `readObject`.
unfoldable pub open_bracket : Bracket → Json → Bytes → Json
unfolding write_key
open_bracket k j name =
    let opened : Json = elim j.state [
      | read_value ↦ write j (opens k)
      | read_array ↦ write j (opens k)
      | read_object ↦ write j (opens k)
      | read_array_append ↦ write (write j (text (codes ","))) (opens k)
      | read_key ↦ write (write_key j name) (opens k)
    ] in
    record opened {
      stack = opened.state ∷ opened.stack;
      state = elim k [ square ↦ read_array | curly ↦ read_object ];
    }

-- The `…End` methods: the state from before the value, then `readEnd`.
abbrev pub and_end : Json → Json → Json
and_end j j' = read_end (record j' { state = j.state })

abbrev pub open_state : ReaderState → Bool
open_state read_object = true
open_state s = in_array s

-- "Close any open tags", and the end.
unfoldable pub finish_json : Json → Json
unfolding end_while
finish_json j =
    let closed = end_while open_state (length j.stack + 1) j in
    let j' = if ltb 1 (length (render j.message)) then closed else j in
    write (write j' (closes curly)) (text (codes "\n"))

pub data Formatted : Type 0 where
  formatted : TransitionParser Action → Json → Bytes → Formatted
  panics running : Formatted

module _ (trim encode convert : Bytes → Bytes) where
  unfoldable pub read_value_of : Json → Bytes → Bytes → Json
  unfolding put_value skip_value
  read_value_of j name bytes =
      if length (trim bytes) == 0 then skip_value j else put_value j name (trim bytes)

  unfoldable pub read_escaped : Json → Bytes → Bytes → Json
  unfolding put_value skip_value
  read_escaped j name bytes =
      if length (trim bytes) == 0 then skip_value j else put_value j name (encode (trim bytes))

  unfoldable pub read_date : Json → Bytes → Bytes → Json
  unfolding read_escaped
  read_date j name bytes = read_escaped j name (convert (trim bytes))

  unfoldable pub run_action : Action → Json → Bytes → Bytes → Json
  unfolding read_key_of read_value_of read_escaped read_date open_bracket read_end
  run_action key j name bytes = read_key_of j bytes
  run_action val j name bytes = read_value_of j name bytes
  run_action esc j name bytes = read_escaped j name bytes
  run_action dat j name bytes = read_date j name bytes
  run_action arr j name bytes = open_bracket square j name
  run_action obj j name bytes = open_bracket curly j name
  run_action end j name bytes = read_end j
  run_action arr_val j name bytes = read_value_of (open_bracket square j name) name bytes
  run_action arr_esc j name bytes = read_escaped (open_bracket square j name) name bytes
  run_action val_end j name bytes = and_end j (read_value_of j name bytes)
  run_action esc_end j name bytes = and_end j (read_escaped j name bytes)
  run_action dat_end j name bytes = and_end j (read_date j name bytes)

  -- The callbacks in the order of the parser's calls, which do not touch the parser.
  unfoldable pub run_calls : TransitionParser Action → List (Call Action) → Json → Json
  unfolding run_action
  run_calls p [] j = j
  run_calls p (c ∷ cs) j =
      run_calls p cs (run_action c.callee j (get_state_name p c.in_state) c.value)

  -- `Format` on the formatter's stack, which it keeps between messages, and what it leaves.
  unfoldable pub format_json :
      ℕ → TransitionParser Action → List ReaderState → Bytes → Bytes → Formatted
  unfolding parse run_calls read_escaped finish_json
  format_json fuel p stack init bytes =
      let start : Json = record {
        message = opens curly ∷ [];
        state = read_object;
        stack = stack;
      } in
      let (p', o) = parse fuel p bytes init in
      elim o [
        | fault ↦ panics
        | out_of_fuel ↦ running
        | done rest id states calls ↦
            let j = run_calls p' calls start in
            let j' : Json = elim rest [
              | none ↦ j
              | some r ↦ read_escaped j (get_state_name p' id) r
            ] in
            let out = finish_json j' in formatted p' out (trim (render out.message))
      ]

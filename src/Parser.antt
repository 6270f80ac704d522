-- ===== src/Parser.antt =====
-- shared/parser.go: a parser whose states hold a trie of tokens, each token with a transition
-- (Transitions). Callbacks are opaque names of a type `C`; `Parse` returns the calls that it makes, in
-- order. A Go panic (a nil state, an index out of range, a nil payload) is the outcome `fault`. `Parse`
-- loops while it reads, so the model takes fuel, and `out_of_fuel` is a result of its own.
mod Transitions
pub mod Directive
pub mod Ready
pub mod Total
pub mod Spinning
pub mod Names
mod Tests
unfoldable pub use Transitions.*
use x_pipeline.Prelude.{
  ℕ, zero, suc, ◌+◌, ◌-◌, ◌&&◌, List, [], ◌∷◌, ◌++◌, Option, none, some, Bytes, length, get_elem?,
  take, drop, ltb, leb, ◌==◌, if◌then◌else◌, ◌>>=◌,
}
use x_pipeline.Trie.{TrieNode, path_len, payload, match_start}

-- `data[lo:hi]`, with the capacity taken for the length.
unfoldable pub slice : Bytes → ℕ → ℕ → Option Bytes
slice bytes lo hi =
    if leb lo hi && leb hi (length bytes) then some (take (hi - lo) (drop lo bytes)) else none

pub record Call (C : Type 0) : Type 0 where
  pub callee : C
  pub value : Bytes
  pub in_state : ℕ

-- The variables of the loop in `Parse`. `parse_idx` is the index at the head of the loop, so the
-- `parseIdx--` of a transition that continues, and the `parseIdx++` after it, leave it as it is.
pub record Cursor (C : Type 0) : Type 0 where
  pub parse_idx : ℕ
  pub read_start : ℕ
  pub state : ℕ
  pub trie : Option (TrieNode (Transition C))
  pub states : List ℕ
  pub calls : List (Call C)

pub data Progress (C : Type 0) : Type 0 where
  go_on : Cursor C → Progress C
  stop : Cursor C → Progress C
  stuck : Progress C

-- `none` for the rest is Go's nil.
pub data Outcome (C : Type 0) : Type 0 where
  done : Option Bytes → ℕ → List ℕ → List (Call C) → Outcome C
  fault : Outcome C
  out_of_fuel : Outcome C

module _ {C : Type 0} where
  -- The call of the callback, if there is one.
  unfoldable pub run_callback : Transition C → Bytes → ℕ → Cursor C → Option (List (Call C))
  unfolding slice
  run_callback t bytes len c = elim t.callback [
    | none ↦ some c.calls
    | some f ↦
        slice bytes c.read_start
          (if has_flag t.flags flag_include then c.parse_idx + len else c.parse_idx)
        >>= λ v. some (c.calls ++ (record { callee = f; value = v; in_state = c.state }) ∷ [])
  ]

  -- Pop before push: the next state and the stack.
  unfoldable pub pop_state : Transition C → List ℕ → ℕ × List ℕ
  pop_state t [] = (t.next_state, [])
  pop_state t (top ∷ states) =
      if has_flag t.flags flag_pop then (top, states) else (t.next_state, top ∷ states)

  unfoldable pub take_transition :
      List (Option (TrieNode (Transition C)))
      → Transition C
      → ℕ
      → Cursor C
      → List (Call C)
      → Progress C
  unfolding pop_state
  take_transition tokens t len c calls =
      let idx = if has_flag t.flags flag_continue then c.parse_idx else c.parse_idx + len in
      let start = if has_flag t.flags flag_append then c.read_start else idx in
      let (next, popped) = pop_state t c.states in
      let states = if has_flag t.flags flag_push then c.state ∷ popped else popped in
      if next == state_stop
      then stop (record {
        parse_idx = idx;
        read_start = start;
        state = next;
        trie = c.trie;
        states = states;
        calls = calls;
      })
      else elim (get_elem? tokens next) [
        | none ↦ stuck
        | some trie ↦ go_on (record {
          parse_idx = idx;
          read_start = start;
          state = next;
          trie = trie;
          states = states;
          calls = calls;
        })
      ]

  -- What a match leads to: its payload has to be a transition.
  unfoldable pub on_match :
      List (Option (TrieNode (Transition C)))
      → Bytes
      → Cursor C
      → TrieNode (Transition C)
      → Progress C
  unfolding take_transition run_callback
  on_match tokens bytes c found = elim (payload found) [
    | none ↦ stuck
    | some t ↦ elim (run_callback t bytes (path_len found) c) [
      | none ↦ stuck
      | some calls ↦ take_transition tokens t (path_len found) c calls
    ]
  ]

  unfoldable pub try_match :
      List (Option (TrieNode (Transition C)))
      → Bytes
      → Cursor C
      → TrieNode (Transition C)
      → Progress C
  unfolding on_match
  try_match tokens bytes c trie = elim (match_start trie (drop c.parse_idx bytes)) [
    | none ↦ go_on (record c { parse_idx = c.parse_idx + 1 })
    | some found ↦ on_match tokens bytes c found
  ]

  -- One round of the loop; a nil state is a nil pointer.
  unfoldable pub parse_round :
      List (Option (TrieNode (Transition C))) → Bytes → Cursor C → Progress C
  unfolding try_match
  parse_round tokens bytes c = elim c.trie [
    | none ↦ stuck
    | some trie ↦ try_match tokens bytes c trie
  ]

  -- What is left behind the last match.
  unfoldable pub finish : Bytes → Cursor C → Outcome C
  unfolding slice
  finish bytes c =
      if c.read_start == length bytes
      then done none c.state c.states c.calls
      else elim (slice bytes c.read_start (length bytes)) [
        | none ↦ fault
        | some rest ↦ done (some rest) c.state c.states c.calls
      ]

  unfoldable pub parse_loop :
      ℕ → List (Option (TrieNode (Transition C))) → Bytes → Cursor C → Outcome C
  unfolding parse_round finish
  parse_loop zero tokens bytes c = out_of_fuel
  parse_loop (suc fuel) tokens bytes c =
      if ltb c.parse_idx (length bytes)
      then elim (parse_round tokens bytes c) [
        | go_on c' ↦ parse_loop fuel tokens bytes c'
        | stop c' ↦ finish bytes c'
        | stuck ↦ fault
      ]
      else finish bytes c

  -- The parser keeps the stack that `Parse` leaves.
  unfoldable pub keep_stack : TransitionParser C → Outcome C → TransitionParser C × Outcome C
  keep_stack p (done rest id states calls) =
      (record p { stack = states }, done rest id states calls)
  keep_stack p fault = (p, fault)
  keep_stack p out_of_fuel = (p, out_of_fuel)

  -- `Parse` from the state's id on.
  unfoldable pub parse_from : ℕ → TransitionParser C → Bytes → ℕ → Outcome C
  unfolding parse_loop
  parse_from fuel p bytes id =
      if id == state_stop then done none id p.stack [] else elim (get_elem? p.tokens id) [
        | none ↦ fault
        | some trie ↦ parse_loop fuel p.tokens bytes (record {
          parse_idx = 0;
          read_start = 0;
          state = id;
          trie = trie;
          states = p.stack;
          calls = [];
        })
      ]

  -- `Parse`. A name that is not known is registered, as `GetStateID` does.
  unfoldable pub parse : ℕ → TransitionParser C → Bytes → Bytes → TransitionParser C × Outcome C
  unfolding get_state_id keep_stack parse_from
  parse fuel p bytes state_name =
      let (p', id) = get_state_id p state_name in keep_stack p' (parse_from fuel p' bytes id)

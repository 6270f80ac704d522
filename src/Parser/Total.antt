-- ===== src/Parser/Total.antt =====
-- shared/parser.go: the results of `Parse` on a ready parser.
use x_pipeline.Prelude.{
  ℕ, zero, suc, ◌+◌, ◌-◌, ◌≤◌, ◌<◌, Bool, true, false, List, [], Option, none, some, Bytes, length,
  take, drop, ltb, ltb→lt, ◌==◌, ◌≡◌, ◌⊎◌, inl, inr, refl, ap, ◌∙◌, arith, Bool-cases, length-drop,
  take-length,
}
use x_pipeline.Trie.{TrieNode}
use x_pipeline.Parser.{
  Transition, TransitionParser, Cursor, Progress, go_on, stop, stuck, Outcome, done, fault,
  out_of_fuel, Call, state_stop, parse_round, finish, parse_loop, parse_from, get_state_id,
  keep_stack, parse,
}
use x_pipeline.Parser.Ready.{
  IsReady, AllBelow, CursorOk, RoundOk, slice-eq-some, parse_round-RoundOk,
}

take_all : (k : ℕ) (bytes : Bytes) → take (length bytes - k) (drop k bytes) ≡ drop k bytes
take_all k bytes = rw (← length-drop k bytes) (take-length (drop k bytes))

module _ {C : Type 0} where
  -- A result of `Parse`: the rest is a tail of the data, and the ids are those of known states.
  pub record IsResult (n : ℕ) (bytes : Bytes) (o : Outcome C) : Type 0 where
    pub rest : Option Bytes
    pub id : ℕ
    pub states : List ℕ
    pub calls : List (Call C)
    pub is_done : o ≡ done rest id states calls
    pub tail : (rest ≡ none) ⊎ ((k : ℕ) × (k < length bytes) × (rest ≡ some (drop k bytes)))
    pub known_id : (id ≡ state_stop) ⊎ (id < n)
    pub known_states : AllBelow n states

  finish-IsResult :
      (n : ℕ) (bytes : Bytes) (c : Cursor C)
      → c.read_start ≤ length bytes
      → (c.state ≡ state_stop) ⊎ (c.state < n)
      → AllBelow n c.states
      → IsResult n bytes (finish bytes c)
  unfolding finish
  finish-IsResult n bytes c h id_ok states_ok = elim (Bool-cases (c.read_start == length bytes)) [
    | inl all_read ↦ rw all_read (record {
      rest = none;
      id = c.state;
      states = c.states;
      calls = c.calls;
      is_done = refl;
      tail = inl refl;
      known_id = id_ok;
      known_states = states_ok;
    })
    | inr some_left ↦
        rw (some_left, slice-eq-some bytes c.read_start (length bytes) h (omega arith))
          (record {
            rest = some (drop c.read_start bytes);
            id = c.state;
            states = c.states;
            calls = c.calls;
            is_done = rw (take_all c.read_start bytes);
            tail = inr (c.read_start, ground arith, refl);
            known_id = id_ok;
            known_states = states_ok;
          })
  ]

  -- The loop ends in a result where the fuel exceeds what is left to read, if no transition
  -- continues; with any fuel and any transitions, it ends in a result or for want of fuel.
  abbrev Ends : Bool → ℕ → Bytes → Outcome C → Type 0
  Ends true n bytes o = IsResult n bytes o
  Ends false n bytes o = (o ≡ out_of_fuel) ⊎ IsResult n bytes o

  to-Ends :
      (strict : Bool) (n : ℕ) (bytes : Bytes) (o : Outcome C)
      → IsResult n bytes o
      → Ends strict n bytes o
  to-Ends true n bytes o h = h
  to-Ends false n bytes o h = inr h

  round-Ends :
      (strict : Bool) (fuel i : ℕ) (tokens : List (Option (TrieNode (Transition C))))
      (bytes : Bytes)
      → (r : Progress C) → RoundOk strict (length tokens) (length bytes) i r
      → ((c : Cursor C)
          → CursorOk strict (length tokens) (length bytes) c
          → (strict ≡ true → i < c.parse_idx)
          → Ends strict (length tokens) bytes (parse_loop fuel tokens bytes c))
      → Ends strict (length tokens) bytes (elim r [
        | go_on c ↦ parse_loop fuel tokens bytes c
        | stop c ↦ finish bytes c
        | stuck ↦ fault
      ])
  round-Ends strict fuel i tokens bytes (go_on c) (ok, on, moves) rec = rec c ok moves
  round-Ends strict fuel i tokens bytes (stop c) (h, halt, known) rec =
      to-Ends strict (length tokens) bytes (finish bytes c)
        (finish-IsResult (length tokens) bytes c h (inl halt) known)
  round-Ends strict fuel i tokens bytes stuck bad rec = absurd bad

  parse_loop-Ends :
      (strict : Bool) (fuel : ℕ) (tokens : List (Option (TrieNode (Transition C)))) (bytes : Bytes)
      → (c : Cursor C) → IsReady strict tokens
      → CursorOk strict (length tokens) (length bytes) c
      → (strict ≡ true → length bytes < fuel + c.parse_idx)
      → Ends strict (length tokens) bytes (parse_loop fuel tokens bytes c)
  unfolding parse_loop
  parse_loop-Ends true zero tokens bytes c ready ok enough =
      absurd (omega (arith, enough refl, ok.within))
  parse_loop-Ends false zero tokens bytes c ready ok enough = inl refl
  parse_loop-Ends strict (suc fuel) tokens bytes c ready ok enough =
      elim (Bool-cases (ltb c.parse_idx (length bytes))) [
        | inl more ↦
            let lt : c.parse_idx < length bytes = ltb→lt c.parse_idx (length bytes) more in
            rw (more, Ends)
              (round-Ends strict fuel c.parse_idx tokens bytes (parse_round tokens bytes c)
                (parse_round-RoundOk strict tokens bytes c ready ok lt)
                (λ c' ok' moves.
                  parse_loop-Ends strict fuel tokens bytes c' ready ok'
                    (λ s. omega (arith, enough s, moves s))))
        | inr end ↦ to-Ends strict (length tokens) bytes _ (
            rw end (
              finish-IsResult (length tokens) bytes c (omega (arith, ok.read_before, ok.within))
                (inr ok.here) ok.known))
      ]

  parse_from-Ends :
      (strict : Bool) (fuel : ℕ) (p : TransitionParser C) (bytes : Bytes) (id : ℕ)
      → IsReady strict p.tokens
      → AllBelow (length p.tokens) p.stack
      → (id ≡ state_stop) ⊎ (id < length p.tokens)
      → (strict ≡ true → length bytes < fuel)
      → Ends strict (length p.tokens) bytes (parse_from fuel p bytes id)
  unfolding parse_from
  parse_from-Ends strict fuel p bytes id ready known leads enough =
      elim (Bool-cases (id == state_stop)) [
        | inl halt ↦ to-Ends strict (length p.tokens) bytes _ (
            rw halt (record {
              rest = none;
              id = id;
              states = p.stack;
              calls = [];
              is_done = refl;
              tail = inl refl;
              known_id = leads;
              known_states = known;
            }))
        | inr on ↦ elim leads [
          | inl halt ↦ absurd (ground arith)
          | inr below ↦
              let (trie, e, has) = ready id below in
              rw (on, e, Ends)
                (parse_loop-Ends strict fuel p.tokens bytes _ ready
                  (record {
                    within = omega arith;
                    read_before = omega arith;
                    here = below;
                    known = known;
                    at = trie;
                    at_trie = refl;
                    at_good = has;
                  })
                  (λ s. omega (arith, enough s)))
        ]
      ]

  keep_stack-outcome : (p : TransitionParser C) (o : Outcome C) → (keep_stack p o).1 ≡ o
  unfolding keep_stack
  keep_stack-outcome p (done rest id states calls) = refl
  keep_stack-outcome p fault = refl
  keep_stack-outcome p out_of_fuel = refl

  pub parse-eq-parse_from :
      (fuel : ℕ) (p : TransitionParser C) (bytes name : Bytes) (id : ℕ)
      → get_state_id p name ≡ (p, id)
      → (parse fuel p bytes name).1 ≡ parse_from fuel p bytes id
  unfolding parse
  parse-eq-parse_from fuel p bytes name id e =
      ap (λ (r : TransitionParser C × ℕ). (keep_stack r.0 (parse_from fuel r.0 bytes r.1)).1) e
      ∙ keep_stack-outcome p (parse_from fuel p bytes id)

  -- `Parse` from a registered state of a ready parser (each state has a well-formed trie, each
  -- transition leads to a state of the parser or stops) does not panic: however long it runs, it
  -- is still running or has returned a tail of the data, or nil, with the id of a known state or
  -- the stop state, and with only known states on the stack.
  pub parse_safe :
      (fuel : ℕ) (p : TransitionParser C) (bytes name : Bytes) (id : ℕ)
      → IsReady false p.tokens
      → AllBelow (length p.tokens) p.stack
      → get_state_id p name ≡ (p, id)
      → (id ≡ state_stop) ⊎ (id < length p.tokens)
      → ((parse fuel p bytes name).1 ≡ out_of_fuel)
        ⊎ IsResult (length p.tokens) bytes (parse fuel p bytes name).1
  parse_safe fuel p bytes name id ready known e leads =
      rw (parse-eq-parse_from fuel p bytes name id e)
        (parse_from-Ends false fuel p bytes id ready known leads (λ s. cc))

  -- `Parse` from a registered state of a ready parser of which no transition has the continue flag
  -- returns, within one round more than the data has bytes: nil or a tail of the data, with the id of
  -- a known state or the stop state, and with only known states on the stack.
  pub parse_total :
      (p : TransitionParser C) (bytes name : Bytes) (id : ℕ)
      → IsReady true p.tokens
      → AllBelow (length p.tokens) p.stack
      → get_state_id p name ≡ (p, id)
      → (id ≡ state_stop) ⊎ (id < length p.tokens)
      → IsResult (length p.tokens) bytes (parse (length bytes + 1) p bytes name).1
  parse_total p bytes name id ready known e leads =
      rw (parse-eq-parse_from (length bytes + 1) p bytes name id e)
        (parse_from-Ends true (length bytes + 1) p bytes id ready known leads (λ s. omega arith))

-- ===== src/Parser/Spinning.antt =====
-- shared/parser.go: transitions that continue into their own state, for which `Parse` never returns.
use x_pipeline.Prelude.{
  ℕ, zero, suc, ◌+◌, ◌≤◌, ◌<◌, Bool, true, false, List, [], ◌∷◌, ◌++◌, Option, none, some, ◌>>=◌,
  Bytes, length, get_elem?, drop, take, ◌-◌, ltb, lt→ltb, leb, ◌&&◌, ◌==◌, if◌then◌else◌, if_false,
  ◌≡◌, ◌≢◌, refl, ap, ◌∙◌, arith,
}
use std.Path.{subst}
use x_pipeline.Trie.{TrieNode, path_len, payload, match_start}
use x_pipeline.Parser.{
  Transition, TransitionParser, Cursor, Call, go_on, stuck, out_of_fuel, has_flag, flag_continue,
  flag_include, flag_pop, flag_append, flag_push, state_stop, slice, run_callback, pop_state,
  take_transition, on_match, try_match, parse_round, parse_loop, parse_from, parse, get_state_id,
}
use x_pipeline.Parser.Total.{parse-eq-parse_from}

slice-within :
    (bytes : Bytes) (lo hi : ℕ)
    → lo ≤ hi
    → hi ≤ length bytes
    → slice bytes lo hi ≡ some (take (hi - lo) (drop lo bytes))
unfolding slice
slice-within bytes lo hi h k =
    let fits : (leb lo hi && leb hi (length bytes)) ≡ true = ground arith in rw fits refl

module _ {C : Type 0} where
  -- A transition into the state `id` that continues, neither pops nor includes its token.
  pub record IsEndless (t : Transition C) (id : ℕ) : Type 0 where
    pub continues : has_flag t.flags flag_continue ≡ true
    pub pops : has_flag t.flags flag_pop ≡ false
    pub includes : has_flag t.flags flag_include ≡ false
    pub next : t.next_state ≡ id

  pop_state-endless :
      (t : Transition C) (id : ℕ) (states : List ℕ)
      → IsEndless t id
      → pop_state t states ≡ (id, states)
  unfolding pop_state
  pop_state-endless t id [] h = ap (λ (n : ℕ). (n, [])) h.next
  pop_state-endless t id (s ∷ states) h =
      if_false (has_flag t.flags flag_pop) (s, states) (t.next_state, s ∷ states) h.pops
      ∙ ap (λ (n : ℕ). (n, s ∷ states)) h.next

  run_callback-endless :
      (t : Transition C) (id : ℕ) (bytes : Bytes) (len : ℕ) (c : Cursor C)
      → IsEndless t id
      → c.read_start ≤ c.parse_idx
      → c.parse_idx ≤ length bytes
      → (calls : List (Call C)) × (run_callback t bytes len c ≡ some calls)
  unfolding run_callback
  run_callback-endless t id bytes len c h k l = go t.callback
    where
      cut : Option Bytes
      cut =
          slice bytes c.read_start
            (if has_flag t.flags flag_include then c.parse_idx + len else c.parse_idx)

      value : Bytes
      value = take (c.parse_idx - c.read_start) (drop c.read_start bytes)

      go :
          (o : Option C)
          → (calls : List (Call C)) × ((elim o [
            | none ↦ some c.calls
            | some f ↦ cut >>= λ v.
                some (c.calls ++ (record { callee = f; value = v; in_state = c.state }) ∷ [])
          ])
              ≡ some calls)
      go none = (c.calls, refl)
      go (some f) = (
        c.calls ++ (record { callee = f; value = value; in_state = c.state }) ∷ [],
        ap
            (λ (o : Option Bytes). o >>= λ v.
              some (c.calls ++ (record { callee = f; value = v; in_state = c.state }) ∷ []))
            (ap (slice bytes c.read_start) (
                if_false (has_flag t.flags flag_include) (c.parse_idx + len) c.parse_idx h.includes)
              ∙ slice-within bytes c.read_start c.parse_idx k l),
      )

  -- The loop stands at `idx`, in the state of the trie.
  pub record Stands (trie : TrieNode (Transition C)) (idx : ℕ) (c : Cursor C) : Type 0 where
    pub at_idx : c.parse_idx ≡ idx
    pub started : c.read_start ≤ idx
    pub in_trie : c.trie ≡ some trie

  take_transition-Stands :
      (tokens : List (Option (TrieNode (Transition C)))) (t : Transition C) (id len : ℕ)
      → (c : Cursor C) (calls : List (Call C)) (trie : TrieNode (Transition C)) → IsEndless t id
      → id ≢ state_stop
      → get_elem? tokens id ≡ some (some trie)
      → c.read_start ≤ c.parse_idx
      → (c' : Cursor C) × (take_transition tokens t len c calls ≡ go_on c')
        × Stands trie c.parse_idx c'
  unfolding take_transition
  take_transition-Stands tokens t id len c calls trie h runs at k =
      let going : (id == state_stop) ≡ false = ground arith in
      let start = if has_flag t.flags flag_append then c.read_start else c.parse_idx in
      (
        record {
          parse_idx = c.parse_idx;
          read_start = start;
          state = id;
          trie = some trie;
          states = if has_flag t.flags flag_push then c.state ∷ c.states else c.states;
          calls = calls;
        },
        rw
            (
              pop_state-endless t id c.states h,
              going,
              at,
              h.continues,
              pop_state-endless t id c.states h,
            )
            refl,
        record { at_idx = refl; started = early (has_flag t.flags flag_append); in_trie = refl },
      )
    where
      early : (b : Bool) → (if b then c.read_start else c.parse_idx) ≤ c.parse_idx
      early true = k
      early false = omega arith

  module _ (tokens : List (Option (TrieNode (Transition C)))) (bytes : Bytes) (idx id : ℕ)
      (trie found : TrieNode (Transition C)) (t : Transition C) (h : IsEndless t id)
      (runs : id ≢ state_stop) (at : get_elem? tokens id ≡ some (some trie))
      (matched : match_start trie (drop idx bytes) ≡ some found) (pays : payload found ≡ some t)
      (inside : idx < length bytes) where
    parse_round-Stands :
        (c : Cursor C)
        → Stands trie idx c
        → (c' : Cursor C) × (parse_round tokens bytes c ≡ go_on c') × Stands trie idx c'
    unfolding parse_round try_match on_match
    parse_round-Stands c s =
        let i = s.at_idx in
        let (calls, called) =
          run_callback-endless t id bytes (path_len found) c h (omega (arith, i, s.started))
            (omega (arith, i)) in
        let (c', goes, stands) =
          take_transition-Stands tokens t id (path_len found) c calls trie h runs at
            (omega (arith, i, s.started)) in
        (
          c',
          ap
                (λ (o : Option (TrieNode (Transition C))). elim o [
                  | none ↦ stuck
                  | some u ↦ try_match tokens bytes c u
                ])
                s.in_trie
              ∙ ap
                  (λ (o : Option (TrieNode (Transition C))). elim o [
                    | none ↦ go_on (record c { parse_idx = c.parse_idx + 1 })
                    | some u ↦ on_match tokens bytes c u
                  ])
                  (ap (λ (k : ℕ). match_start trie (drop k bytes)) i ∙ matched)
              ∙ ap
                  (λ (o : Option (Transition C)). elim o [
                    | none ↦ stuck
                    | some u ↦ elim (run_callback u bytes (path_len found) c) [
                      | none ↦ stuck
                      | some more ↦ take_transition tokens u (path_len found) c more
                    ]
                  ])
                  pays
              ∙ ap
                  (λ (o : Option (List (Call C))). elim o [
                    | none ↦ stuck
                    | some more ↦ take_transition tokens t (path_len found) c more
                  ])
                  called
              ∙ goes,
          subst (λ k. Stands trie k c') i stands,
        )

    -- No fuel is enough.
    parse_loop_spins :
        (fuel : ℕ) (c : Cursor C) → Stands trie idx c → parse_loop fuel tokens bytes c ≡ out_of_fuel
    unfolding parse_loop
    parse_loop_spins zero c s = refl
    parse_loop_spins (suc fuel) c s =
        let (c', goes, stands) = parse_round-Stands c s in
        let more : ltb c.parse_idx (length bytes) ≡ true =
          lt→ltb c.parse_idx (length bytes) (omega (arith, s.at_idx, inside)) in
        rw (more, goes) (parse_loop_spins fuel c' stands)

  -- `Parse` never returns from a registered state at whose trie the data, not empty, starts with a token
  -- whose transition leads back to the state, continues, and neither pops nor includes its token: no fuel
  -- is enough.
  pub parse_spins :
      (fuel : ℕ) (p : TransitionParser C) (bytes name : Bytes) (id : ℕ)
      → (trie found : TrieNode (Transition C)) (t : Transition C) → get_state_id p name ≡ (p, id)
      → id ≢ state_stop
      → get_elem? p.tokens id ≡ some (some trie)
      → match_start trie bytes ≡ some found
      → payload found ≡ some t
      → IsEndless t id
      → 0 < length bytes
      → (parse fuel p bytes name).1 ≡ out_of_fuel
  unfolding parse_from
  parse_spins fuel p bytes name id trie found t e runs at matched pays h inside =
      let going : (id == state_stop) ≡ false = ground arith in
      let start : Cursor C = record {
        parse_idx = 0;
        read_start = 0;
        state = id;
        trie = some trie;
        states = p.stack;
        calls = [];
      } in
      parse-eq-parse_from fuel p bytes name id e
      ∙ rw (going, at)
          (parse_loop_spins p.tokens bytes 0 id trie found t h runs at matched pays inside fuel
            start (record { at_idx = refl; started = omega arith; in_trie = refl }))

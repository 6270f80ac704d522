-- ===== src/Parser/Ready.antt =====
-- Parsers that are ready to run: every state has a well-formed trie, and leads to such states.
use x_pipeline.Prelude.{
  ℕ, ◌+◌, ◌-◌, ◌≤◌, ◌<◌, Bool, true, false, List, [], ◌∷◌, Option, none, some, Bytes, length,
  length-append, length-drop, get_elem?, take, drop, ◌==◌, if◌then◌else◌, ◌≡◌, ◌⊎◌, inl, inr, refl,
  ap, arith, Bool-cases, Option-cases, ==_iff,
}
use x_pipeline.Trie.{TrieNode, path_len, match_start}
use x_pipeline.Trie.Sized.{IsSized}
use x_pipeline.Trie.Start.{match_start-PrefixMatch}
use x_pipeline.Trie.Payloads.{AllGood, match_start-payload}
use x_pipeline.Parser.{
  Transition, Cursor, Progress, go_on, stop, stuck, Call, state_stop, has_flag, flag_continue,
  flag_append, flag_push, flag_pop, flag_include, slice, run_callback, pop_state, take_transition,
  on_match, try_match, parse_round,
}

abbrev pub AllBelow : ℕ → List ℕ → Type 0
AllBelow n [] = Unit {0}
AllBelow n (x ∷ xs) = (x < n) × AllBelow n xs

module _ {C : Type 0} where
  -- A transition leads to a state below `n` or stops; where `strict`, it does not continue.
  pub record IsTarget (strict : Bool) (n : ℕ) (t : Transition C) : Type 0 where
    pub leads : (t.next_state ≡ state_stop) ⊎ (t.next_state < n)
    pub moves : strict ≡ true → has_flag t.flags flag_continue ≡ false

  pub record HasTrie (strict : Bool) (n : ℕ) (trie : TrieNode (Transition C)) : Type 0 where
    pub sized : IsSized 0 trie
    pub good : AllGood (IsTarget strict n) trie

  abbrev pub IsReady : Bool → List (Option (TrieNode (Transition C))) → Type 0
  IsReady strict tokens =
      (i : ℕ)
      → i < length tokens
      → (trie : TrieNode (Transition C)) × (get_elem? tokens i ≡ some (some trie))
        × HasTrie strict (length tokens) trie

  pub record CursorOk (strict : Bool) (n size : ℕ) (c : Cursor C) : Type 0 where
    pub within : c.parse_idx ≤ size
    pub read_before : c.read_start ≤ c.parse_idx
    pub here : c.state < n
    pub known : AllBelow n c.states
    pub at : TrieNode (Transition C)
    pub at_trie : c.trie ≡ some at
    pub at_good : HasTrie strict n at

  -- A round that goes on keeps the invariant and, where `strict`, gets further.
  abbrev pub RoundOk : Bool → ℕ → ℕ → ℕ → Progress C → Type 0
  RoundOk strict n size i (go_on c) =
      CursorOk strict n size c × (i ≤ c.parse_idx) × (strict ≡ true → i < c.parse_idx)
  RoundOk strict n size i (stop c) =
      (c.read_start ≤ size) × (c.state ≡ state_stop) × AllBelow n c.states
  RoundOk strict n size i stuck = ⊥

push-below :
    (n : ℕ) (b : Bool) (s : ℕ) (states : List ℕ)
    → s < n
    → AllBelow n states
    → AllBelow n (if b then s ∷ states else states)
push-below n true s states h hs = (h, hs)
push-below n false s states h hs = hs

-- Where the reader stands after a match.
reader_bounds :
    (continues appends : Bool) (i len r size : ℕ)
    → r ≤ i
    → i + len ≤ size
    → let idx = if continues then i else i + len in
      ((if appends then r else idx) ≤ idx) × (idx ≤ size) × (i ≤ idx)
reader_bounds continues appends i len r size h k = ground arith

pub slice-eq-some :
    (bytes : Bytes) (lo hi : ℕ)
    → lo ≤ hi
    → hi ≤ length bytes
    → slice bytes lo hi ≡ some (take (hi - lo) (drop lo bytes))
unfolding slice
slice-eq-some bytes lo hi h k = ground arith

module _ {C : Type 0} where
  run_callback-some :
      (t : Transition C) (bytes : Bytes) (len : ℕ) (c : Cursor C)
      → c.read_start ≤ c.parse_idx
      → c.parse_idx + len ≤ length bytes
      → (calls : List (Call C)) × (run_callback t bytes len c ≡ some calls)
  unfolding run_callback
  run_callback-some t bytes len c h k = elim (Option-cases t.callback) [
    | inl silent ↦ rw silent (c.calls, refl)
    | inr (f, e) ↦ elim (Bool-cases (has_flag t.flags flag_include)) [
      | inl with_token ↦
          rw (e, with_token, slice-eq-some bytes c.read_start (c.parse_idx + len) (omega arith) k)
            (_, refl)
      | inr without ↦
          rw (e, without, slice-eq-some bytes c.read_start c.parse_idx h (omega arith)) (_, refl)
    ]
  ]

  pop_state-below :
      (n : ℕ) (t : Transition C) (states : List ℕ)
      → (t.next_state ≡ state_stop) ⊎ (t.next_state < n)
      → AllBelow n states
      → (((pop_state t states).0 ≡ state_stop) ⊎ ((pop_state t states).0 < n))
        × AllBelow n (pop_state t states).1
  unfolding pop_state
  pop_state-below n t [] lead h = (lead, tt)
  pop_state-below n t (x ∷ xs) lead (h, hs) = elim (Bool-cases (has_flag t.flags flag_pop)) [
    | inl pop ↦ rw pop (inr h, hs)
    | inr keep ↦ rw keep (lead, (h, hs))
  ]

  take_transition-RoundOk :
      (strict : Bool) (tokens : List (Option (TrieNode (Transition C)))) (size len : ℕ)
      → (t : Transition C) (c : Cursor C) (calls : List (Call C)) → IsReady strict tokens
      → IsTarget strict (length tokens) t
      → CursorOk strict (length tokens) size c
      → 0 < len
      → c.parse_idx + len ≤ size
      → RoundOk strict (length tokens) size c.parse_idx (take_transition tokens t len c calls)
  unfolding take_transition
  take_transition-RoundOk strict tokens size len t c calls ready target ok pos fits =
      let (leads, known) = pop_state-below (length tokens) t c.states target.leads ok.known in
      let (before, inside, forward) =
        reader_bounds (has_flag t.flags flag_continue) (has_flag t.flags flag_append) c.parse_idx
          len c.read_start size ok.read_before fits in
      elim (Bool-cases ((pop_state t c.states).0 == state_stop)) [
        | inl halt ↦ rw halt (
          omega (arith, before, inside),
          (==_iff _ state_stop).0 halt,
          push-below (length tokens) (has_flag t.flags flag_push) c.state (pop_state t c.states).1
              ok.here known,
        )
        | inr on ↦ elim leads [
          | inl halt ↦ absurd (ground arith)
          | inr below ↦
              let (trie, e, has) = ready (pop_state t c.states).0 below in
              rw (on, e)
                (
                  record {
                    within = inside;
                    read_before = before;
                    here = below;
                    known =
                        push-below (length tokens) (has_flag t.flags flag_push) c.state
                          (pop_state t c.states).1 ok.here known;
                    at = trie;
                    at_trie = refl;
                    at_good = has;
                  },
                  forward,
                  λ s. rw (target.moves s) (omega arith),
                )
        ]
      ]

  try_match-RoundOk :
      (strict : Bool) (tokens : List (Option (TrieNode (Transition C)))) (bytes : Bytes)
      (c : Cursor C)
      → IsReady strict tokens
      → (ok : CursorOk strict (length tokens) (length bytes) c) → c.parse_idx < length bytes
      → RoundOk strict (length tokens) (length bytes) c.parse_idx (try_match tokens bytes c ok.at)
  unfolding try_match on_match
  try_match-RoundOk strict tokens bytes c ready ok more =
      elim (Option-cases (match_start ok.at (drop c.parse_idx bytes))) [
        | inl nothing ↦
            rw (nothing, try_match)
              (
                record {
                  within = omega arith;
                  read_before = omega arith;
                  here = ok.here;
                  known = ok.known;
                  at = ok.at;
                  at_trie = ok.at_trie;
                  at_good = ok.at_good;
                },
                omega arith,
                λ s. omega arith,
              )
        | inr (found, e) ↦
            let (m, len, pos) =
              match_start-PrefixMatch ok.at (drop c.parse_idx bytes) ok.at_good.sized e in
            let (t, pay, target) =
              match_start-payload (IsTarget strict (length tokens)) ok.at (drop c.parse_idx bytes)
                ok.at_good.good e in
            let fits : c.parse_idx + path_len found ≤ length bytes = omega (
              arith,
              len,
              length-drop c.parse_idx bytes,
              ap length m.splits,
              length-append m.front m.back,
            ) in
            let (calls, run) = run_callback-some t bytes (path_len found) c ok.read_before fits in
            rw (e, try_match)
              (rw (pay, on_match)
                (rw (run, on_match)
                  (take_transition-RoundOk strict tokens (length bytes) (path_len found) t c calls
                    ready target ok pos fits)))
      ]

  parse_round-at :
      (tokens : List (Option (TrieNode (Transition C)))) (bytes : Bytes) (c : Cursor C)
      → {trie : TrieNode (Transition C)} → c.trie ≡ some trie
      → parse_round tokens bytes c ≡ try_match tokens bytes c trie
  unfolding parse_round
  parse_round-at tokens bytes c {trie} e =
      ap
        (λ (o : Option (TrieNode (Transition C))). elim o [
          | none ↦ stuck
          | some u ↦ try_match tokens bytes c u
        ])
        e

  -- Every round of the loop on a ready parser keeps the loop's invariant or stops in range.
  pub parse_round-RoundOk :
      (strict : Bool) (tokens : List (Option (TrieNode (Transition C)))) (bytes : Bytes)
      (c : Cursor C)
      → IsReady strict tokens
      → CursorOk strict (length tokens) (length bytes) c
      → c.parse_idx < length bytes
      → RoundOk strict (length tokens) (length bytes) c.parse_idx (parse_round tokens bytes c)
  parse_round-RoundOk strict tokens bytes c ready ok more =
      rw (parse_round-at tokens bytes c ok.at_trie)
        (try_match-RoundOk strict tokens bytes c ready ok more)

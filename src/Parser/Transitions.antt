-- ===== src/Parser/Transitions.antt =====
-- shared/parser.go: the states of a parser, by name and by id, and the transitions between them.
use Prim.Native.Nat.{bit_and}
use x_pipeline.Prelude.{
  ℕ, suc, ◌%◌, Bool, not, List, [], ◌∷◌, ◌++◌, Option, none, some, Bytes, length, get_elem?, set,
  ◌==◌, if◌then◌else◌, ◌>>=◌, equal,
}
use x_pipeline.Trie.{TrieNode, new_trie, add}

abbrev pub flag_continue : ℕ
flag_continue = 1

abbrev pub flag_append : ℕ
flag_append = 2

abbrev pub flag_include : ℕ
flag_include = 4

abbrev pub flag_push : ℕ
flag_push = 8

abbrev pub flag_pop : ℕ
flag_pop = 16

-- `ParserStateStop`; a state id is a uint32.
abbrev pub state_stop : ℕ
state_stop = 0xFFFFFFFF

unfoldable pub has_flag : ℕ → ℕ → Bool
has_flag flags flag = not (bit_and flags flag == 0)

pub record Transition (C : Type 0) : Type 0 where
  pub next_state : ℕ
  pub flags : ℕ
  pub callback : Option C

pub record TransitionDirective (C : Type 0) : Type 0 where
  pub state_name : Bytes
  pub token : Bytes
  pub next_name : Bytes
  pub dir_flags : ℕ
  pub dir_callback : Option C

pub record TransitionParser (C : Type 0) : Type 0 where
  pub lookup : List Bytes
  pub tokens : List (Option (TrieNode (Transition C)))
  pub stack : List ℕ  -- the top first

-- The first position of a name.
unfoldable pub index_of : Bytes → List Bytes → Option ℕ
index_of name [] = none
index_of name (x ∷ xs) =
    let later = index_of name xs in if equal x name then some 0 else (later >>= λ i. some (suc i))

module _ {C : Type 0} where
  unfoldable pub new_transition : ℕ → ℕ → Option C → Transition C
  new_transition next flags callback = record {
    next_state = next;
    flags = flags;
    callback = callback;
  }

  unfoldable pub new_transition_parser : TransitionParser C
  new_transition_parser = record { lookup = []; tokens = []; stack = [] }

  register_name : TransitionParser C → Bytes → Option ℕ → TransitionParser C × ℕ
  register_name p name (some i) = (p, i % 0x100000000)
  register_name p name none = (
    record p { lookup = p.lookup ++ name ∷ []; tokens = p.tokens ++ none ∷ [] },
    length p.lookup % 0x100000000,
  )

  unfoldable pub get_state_id : TransitionParser C → Bytes → TransitionParser C × ℕ
  unfolding register_name index_of
  get_state_id p [] = (p, state_stop)
  get_state_id p (x ∷ name) = register_name p (x ∷ name) (index_of (x ∷ name) p.lookup)

  unfoldable pub get_state_name : TransitionParser C → ℕ → Bytes
  get_state_name p id = elim (get_elem? p.lookup id) [ none ↦ [] | some name ↦ name ]

  -- `AddTransition`: `none` is a panic, an index out of range in `tokens` or in the trie.
  unfoldable pub add_token :
      Option (TrieNode (Transition C)) → Bytes → Transition C → Option (TrieNode (Transition C))
  unfolding new_trie add
  add_token none token t = some (new_trie token (some t))
  add_token (some trie) token t = add trie token (some t)

  unfoldable pub add_transition :
      TransitionParser C → Bytes → Transition C → Bytes → Option (TransitionParser C)
  unfolding add_token get_state_id
  add_transition p state_name t token =
      let (p', id) = get_state_id p state_name in
      get_elem? p'.tokens id >>= λ state.
      add_token state token t
      >>= (λ trie. some (record p' { tokens = set p'.tokens id (some trie) }))

  unfoldable pub add_named :
      TransitionParser C → Bytes → Bytes → Bytes → ℕ → Option C → Option (TransitionParser C)
  unfolding get_state_id add_transition new_transition
  add_named p state_name token next_name flags callback =
      let (p', next) = get_state_id p next_name in
      add_transition p' state_name (new_transition next flags callback) token

  unfoldable pub add_stop :
      TransitionParser C → Bytes → Bytes → ℕ → Option C → Option (TransitionParser C)
  unfolding add_transition new_transition
  add_stop p state_name token flags callback =
      add_transition p state_name (new_transition state_stop flags callback) token

  unfoldable pub add_directives :
      TransitionParser C → List (TransitionDirective C) → Option (TransitionParser C)
  unfolding add_named
  add_directives p [] = some p
  add_directives p (d ∷ ds) =
      add_named p d.state_name d.token d.next_name d.dir_flags d.dir_callback >>= λ p'.
      add_directives p' ds

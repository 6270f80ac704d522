-- ===== src/Parser/Tests.antt =====
-- Runs of the parser.
use x_pipeline.Prelude.{
  ℕ, zero, suc, codes, Bool, true, false, [], ◌∷◌, none, some, ◌≡◌, ◌⊎◌, refl, equal, arith, inr,
}
use x_pipeline.Trie.{TrieNode, node, nil, match_start}
use x_pipeline.Parser.{Transition, TransitionParser, out_of_fuel, parse, get_state_id, has_flag}
use x_pipeline.Parser.Ready.{IsReady}
use x_pipeline.Parser.Total.{IsResult, parse_safe, parse_total}
use x_pipeline.Parser.Spinning.{IsEndless, parse_spins}

abbrev skip : Transition ℕ
skip = record { next_state = 0; flags = 0; callback = some 7 }

abbrev comma : TrieNode (Transition ℕ)
comma = node (codes ",") nil 1 1 (some skip)

abbrev list_parser : TransitionParser ℕ
list_parser = record { lookup = codes "a" ∷ []; tokens = some comma ∷ []; stack = [] }

list_parser-IsReady : (strict : Bool) → IsReady strict list_parser.tokens
unfolding has_flag
list_parser-IsReady strict zero h = (
  comma,
  refl,
  record {
    sized = (inr refl, tt);
    good = ((λ pos. (skip, refl, record { leads = inr (omega arith); moves = λ e. refl })), tt);
  },
)
list_parser-IsReady strict (suc i) h = absurd (omega arith)

state_a : get_state_id list_parser (codes "a") ≡ (list_parser, 0)
unfolding get_state_id equal
state_a = refl

parse_safe_example :
    ((parse 2 list_parser (codes "x,yz,") (codes "a")).1 ≡ out_of_fuel)
    ⊎ IsResult 1 (codes "x,yz,") (parse 2 list_parser (codes "x,yz,") (codes "a")).1
parse_safe_example =
    parse_safe 2 list_parser (codes "x,yz,") (codes "a") 0 (list_parser-IsReady false) tt state_a
      (inr (omega arith))

parse_total_example : IsResult 1 (codes "x,yz,") (parse 6 list_parser (codes "x,yz,") (codes "a")).1
parse_total_example =
    parse_total list_parser (codes "x,yz,") (codes "a") 0 (list_parser-IsReady true) tt state_a
      (inr (omega arith))

-- A transition that continues into its own state.
abbrev endless : TrieNode (Transition ℕ)
endless = node (codes ",") nil 1 1 (some (record { next_state = 0; flags = 1; callback = none }))

abbrev back : Transition ℕ
back = record { next_state = 0; flags = 1; callback = none }

back-IsEndless : IsEndless back 0
unfolding has_flag
back-IsEndless = record { continues = refl; pops = refl; includes = refl; next = refl }

abbrev endless_parser : TransitionParser ℕ
endless_parser = record { lookup = codes "a" ∷ []; tokens = some endless ∷ []; stack = [] }

endless-match : match_start endless (codes ",x") ≡ some endless
unfolding match_start
endless-match = refl

endless-state : get_state_id endless_parser (codes "a") ≡ (endless_parser, 0)
unfolding get_state_id equal
endless-state = refl

parse_spins_example : (parse 1000 endless_parser (codes ",x") (codes "a")).1 ≡ out_of_fuel
parse_spins_example =
    parse_spins 1000 endless_parser (codes ",x") (codes "a") 0 endless endless back endless-state
      (λ e. cc) refl endless-match refl back-IsEndless (omega arith)

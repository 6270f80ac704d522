-- ===== src/Trie.antt =====
-- shared/trie.go: a trie over byte strings with a payload at each stored path.
-- A node is a value here: the nodes of a trie are not shared, so the write through `parent.replace`
-- is the new child in the parent's list. A nil payload is `none`. An index out of range is a panic.
pub mod Prefix
pub mod Insertion
pub mod Frame
pub mod Found
pub mod Branch
pub mod Payloads
pub mod Safety
pub mod Sized
pub mod Start
mod Tests
use mathlib.Core.Option
use x_pipeline.Prelude.{
  ℕ, suc, Bool, [], ◌∷◌, Option, none, some, Bytes, length, take, drop, ltb, ◌==◌, if◌then◌else◌,
  ◌>>=◌, strip_prefix,
}

mutual
  pub data TrieNode {ℓ} (P : Type ℓ) : Type ℓ where
    node : Bytes → Nodes P → ℕ → ℕ → Option P → TrieNode P

  pub data Nodes {ℓ} (P : Type ℓ) : Type ℓ where
    nil : Nodes P
    cons : TrieNode P → Nodes P → Nodes P

-- Is `child.suffix[0] == data[0]`? `none` is an index out of range.
unfoldable pub same_start : Bytes → Bytes → Option Bool
same_start (x ∷ s) (y ∷ bytes) = some (x == y)
same_start _ _ = none

-- The loop over `splitIdx`: how far `bytes` and the suffix agree.
unfoldable pub split_idx : Bytes → Bytes → ℕ
split_idx [] s = 0
split_idx (x ∷ bytes) [] = 0
split_idx (x ∷ bytes) (y ∷ s) = let more = split_idx bytes s in if x == y then suc more else 0

module _ {ℓ} {P : Type ℓ} where
  abbrev pub suffix : TrieNode P → Bytes
  suffix (node s children longest_path path_len payload) = s

  abbrev pub longest_path : TrieNode P → ℕ
  longest_path (node s children longest path_len payload) = longest

  abbrev pub path_len : TrieNode P → ℕ
  path_len (node s children longest len payload) = len

  abbrev pub payload : TrieNode P → Option P
  payload (node s children longest len load) = load

  -- `NewTrie`.
  unfoldable pub new_trie : Bytes → Option P → TrieNode P
  new_trie bytes load = node bytes nil (length bytes) (length bytes) load

  -- A reversed list of children in front of another list.
  unfoldable pub rev_onto : Nodes P → Nodes P → Nodes P
  rev_onto nil after = after
  rev_onto (cons c before) after = rev_onto before (cons c after)

  -- The loop of `addNewChild`, from the last child down: `before` holds, in reverse, the children
  -- not yet passed, and `after` those that were shifted by one place.
  unfoldable pub shift_children : TrieNode P → ℕ → Nodes P → Nodes P → Nodes P
  unfolding rev_onto
  shift_children child len nil after = cons child after
  shift_children child len (cons c before) after =
      if ltb len (longest_path c)
      then rev_onto (cons c before) (cons child after)
      else shift_children child len before (cons c after)

  unfoldable pub add_new_child : TrieNode P → Bytes → Option P → ℕ → TrieNode P
  unfolding shift_children rev_onto
  add_new_child (node s children longest len load) bytes p n =
      node s (shift_children (node bytes nil n n p) n (rev_onto children nil) nil)
        (if ltb longest n then n else longest) len load

  -- The node after the loop over its children: with the child replaced, or with a new leaf.
  unfoldable pub descend :
      TrieNode P → Bytes → Option P → ℕ → Option (Nodes P) → Option (TrieNode P)
  unfolding add_new_child
  descend (node s children longest len load) bytes p n (some children') =
      some (node s children' longest len load)
  descend t bytes p n none = some (add_new_child t bytes p n)

-- `addPath` returns the node that stands in the old one's place; `none` is a panic.
unfoldable mutual
  unfolding descend add_new_child same_start split_idx new_trie

  pub add_path {ℓ} : {P : Type ℓ} → TrieNode P → Bytes → Option P → ℕ → Option (TrieNode P)
  add_path (node s children longest len load) bytes p n =
      let i = split_idx bytes s in
      let descended = add_to_child children (drop i bytes) p n in
      let tail = node (drop i s) children longest len load in
      if i == length s
      then if i == length bytes
        then some (node s children longest len p)
        else if ltb 0 (length s)
        then descended >>= descend (node s children longest len load) (drop i bytes) p n
        else some (add_new_child (node s children longest len load) (drop i bytes) p n)
      else if i == length bytes
      then some (node bytes (cons tail nil) longest n p)
      else some
          (add_new_child (node (take i bytes) (cons tail nil) longest 0 none) (drop i bytes) p n)

  -- The loop over the children: `some none` if no child starts with the first byte.
  pub add_to_child {ℓ} : {P : Type ℓ} → Nodes P → Bytes → Option P → ℕ → Option (Option (Nodes P))
  add_to_child nil bytes p n = some none
  add_to_child (cons c children) bytes p n =
      let here = add_path c bytes p n in
      let there = add_to_child children bytes p n in
      same_start (suffix c) bytes >>= λ same.
      if same
      then here >>= (λ c'. some (some (cons c' children)))
      else there >>= (λ found. some (Option.map (cons c) found))

module _ {ℓ} {P : Type ℓ} where
  -- `Add` on the root.
  unfoldable pub add : TrieNode P → Bytes → Option P → Option (TrieNode P)
  unfolding add_path
  add t bytes p = add_path t bytes p (length bytes)

-- What `Match` returns at a node behind its suffix, and on the children's result.
abbrev pub end_here {ℓ} : {P : Type ℓ} → TrieNode P → Option (TrieNode P)
end_here t = if ltb 0 (path_len t) then some t else none

abbrev pub match_at {ℓ} :
    {P : Type ℓ} → TrieNode P → Bytes → Option (TrieNode P) → Option (TrieNode P)
match_at t [] below = end_here t
match_at t (x ∷ rest) below = below

abbrev pub first_some {ℓ} : {A : Type ℓ} → Option A → Option A → Option A
first_some (some a) later = some a
first_some none later = later

-- `Match`. The tests of the two lengths and of the bytes are those of `strip_prefix`.
unfoldable mutual
  unfolding strip_prefix

  pub match_path {ℓ} : {P : Type ℓ} → TrieNode P → Bytes → Option (TrieNode P)
  match_path (node s children longest len load) bytes = strip_prefix s bytes >>= λ rest.
      match_at (node s children longest len load) rest (match_children children rest)

  pub match_children {ℓ} : {P : Type ℓ} → Nodes P → Bytes → Option (TrieNode P)
  match_children nil bytes = none
  match_children (cons c children) bytes =
      let later = match_children children bytes in first_some (match_path c bytes) later

-- `MatchStart`: the children first, then the node itself.
unfoldable mutual
  unfolding strip_prefix

  pub match_start {ℓ} : {P : Type ℓ} → TrieNode P → Bytes → Option (TrieNode P)
  match_start (node s children longest len load) bytes = strip_prefix s bytes >>= λ rest.
      first_some (start_children children rest) (end_here (node s children longest len load))

  pub start_children {ℓ} : {P : Type ℓ} → Nodes P → Bytes → Option (TrieNode P)
  start_children nil bytes = none
  start_children (cons c children) bytes =
      let later = start_children children bytes in first_some (match_start c bytes) later

-- What a caller reads of a match: `PathLen` and `Payload`.
abbrev pub view {ℓ} : {P : Type ℓ} → Option (TrieNode P) → Option (ℕ × Option P)
view none = none
view (some t) = some (path_len t, payload t)

module _ {ℓ} {P : Type ℓ} where
  unfoldable pub found : TrieNode P → Bytes → Option (ℕ × Option P)
  unfolding match_path
  found t bytes = view (match_path t bytes)

  unfoldable pub found_start : TrieNode P → Bytes → Option (ℕ × Option P)
  unfolding match_start
  found_start t bytes = view (match_start t bytes)

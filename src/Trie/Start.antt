-- ===== src/Trie/Start.antt =====
-- shared/trie.go: `MatchStart` against `Match`.
use x_pipeline.Prelude.{
  ℕ, ◌+◌, ◌<◌, [], ◌∷◌, ◌++◌, Option, none, some, Bytes, length, ◌≡◌, refl, ap, arith, sym, ◌∙◌,
  inl, inr, strip_prefix, append-nil, append_assoc,
}
use x_pipeline.Trie.{
  TrieNode, Nodes, node, nil, cons, match_path, match_children, match_start, start_children,
  first_some, end_here, path_len,
}
use x_pipeline.Trie.Prefix.{
  strip_prefix_self, strip_prefix_exact, strip_prefix-Stripped, strip_prefix-longer, outside, exact,
  inside,
}
use x_pipeline.Trie.Sized.{IsSized, AreSized, first_some-cases, match_path-length}

first_some_left {ℓ} : {A : Type ℓ} (a b : Option A) {x : A} → a ≡ some x → first_some a b ≡ some x
first_some_left a b e = rw e

first_some-none_both {ℓ} :
    {A : Type ℓ} (a b : Option A) → first_some a b ≡ none → (a ≡ none) × (b ≡ none)
first_some-none_both none b e = (refl, e)
first_some-none_both (some a) b e = cc

mutual
  unfolding match_path match_start

  -- Where `MatchStart` finds nothing, `Match` finds no prefix.
  start_complete {ℓ} :
      {P : Type ℓ} (t : TrieNode P) (k more : Bytes)
      → match_start t (k ++ more) ≡ none
      → match_path t k ≡ none
  start_complete (node s cs l m q) k more e = elim (strip_prefix-Stripped s k) [
    | outside f ↦ rw f
    | exact same f ↦
        rw f
          (first_some-none_both (start_children cs more) (end_here (node s cs l m q))
            (rw (strip_prefix-longer s k more f) at e)).1
    | inside x rest split f ↦ rw f (
        children_complete cs (x ∷ rest) more
          (first_some-none_both (start_children cs (x ∷ rest ++ more)) (end_here (node s cs l m q))
            (rw (strip_prefix-longer s k more f) at e)).0)
  ]

  children_complete {ℓ} :
      {P : Type ℓ} (cs : Nodes P) (k more : Bytes)
      → start_children cs (k ++ more) ≡ none
      → match_children cs k ≡ none
  children_complete nil k more e = refl
  children_complete (cons c cs) k more e =
      let (a, b) =
        first_some-none_both (match_start c (k ++ more)) (start_children cs (k ++ more)) e in
      rw (start_complete c k more a) (children_complete cs k more b)

-- `u` is the node that `Match` finds at some prefix of `k`.
pub record PrefixMatch {ℓ} {P : Type ℓ} (look : Bytes → Option (TrieNode P)) (k : Bytes)
    (u : TrieNode P) : Type ℓ where
  pub front : Bytes
  pub back : Bytes
  pub splits : k ≡ front ++ back
  pub matches : look front ≡ some u

module _ {ℓ} {P : Type ℓ} where
  -- No child stands at the empty path.
  children_at_end :
      (depth : ℕ) (cs : Nodes P)
      → AreSized depth cs
      → (match_children cs [] ≡ none) × (start_children cs [] ≡ none)
  unfolding match_path match_start strip_prefix
  children_at_end depth nil h = (refl, refl)
  children_at_end depth (cons (node [] cs' l m q) cs) (ne, h, hs) = absurd (ne refl)
  children_at_end depth (cons (node (x ∷ s) cs' l m q) cs) (ne, h, hs) = children_at_end depth cs hs

  here-PrefixMatch :
      (s : Bytes) (cs : Nodes P) (l m : ℕ) (q : Option P) (rest : Bytes) {u : TrieNode P}
      → end_here (node s cs l m q) ≡ some u
      → PrefixMatch (match_path (node s cs l m q)) (s ++ rest) u
  unfolding match_path
  here-PrefixMatch s cs l m q rest e = record {
    front = s;
    back = rest;
    splits = refl;
    matches = rw (strip_prefix_exact s) e;
  }

  down-PrefixMatch :
      (depth : ℕ) (s : Bytes) (cs : Nodes P) (l m : ℕ) (q : Option P) (rest : Bytes)
      {u : TrieNode P}
      → AreSized depth cs
      → PrefixMatch (match_children cs) rest u
      → PrefixMatch (match_path (node s cs l m q)) (s ++ rest) u
  unfolding match_path
  down-PrefixMatch depth s cs l m q rest {u} h found = go found.front found.splits found.matches
    where
      go :
          (f : Bytes)
          → rest ≡ f ++ found.back
          → match_children cs f ≡ some u
          → PrefixMatch (match_path (node s cs l m q)) (s ++ rest) u
      go [] e at = cc ((children_at_end depth cs h).0)
      go (x ∷ f) e at = record {
        front = s ++ x ∷ f;
        back = found.back;
        splits = ap (λ (v : Bytes). s ++ v) e ∙ sym (append_assoc s (x ∷ f) found.back);
        matches = rw (strip_prefix_self s (x ∷ f)) at;
      }

mutual
  unfolding match_path match_start

  start_sound {ℓ} :
      {P : Type ℓ} (depth : ℕ) (t : TrieNode P) (k : Bytes) {u : TrieNode P}
      → IsSized depth t
      → match_start t k ≡ some u
      → PrefixMatch (match_path t) k u
  start_sound depth (node s cs l m q) k {u} (own, deep) e = elim (strip_prefix-Stripped s k) [
    | outside f ↦ absurd (ground arith)
    | exact same f ↦ rw (same ∙ sym (append-nil s)) (
        here-PrefixMatch s cs l m q []
          (rw (f, (children_at_end (depth + length s) cs deep).1) at e))
    | inside x rest split f ↦
        rw split
          (elim (first_some-cases (start_children cs (x ∷ rest)) (end_here (node s cs l m q))
            (rw f at e)) [
              | inl lower ↦
                  down-PrefixMatch (depth + length s) s cs l m q (x ∷ rest) deep
                    (children_sound (depth + length s) cs (x ∷ rest) deep lower)
              | inr (out, at) ↦ here-PrefixMatch s cs l m q (x ∷ rest) at
            ])
  ]

  children_sound {ℓ} :
      {P : Type ℓ} (depth : ℕ) (cs : Nodes P) (k : Bytes) {u : TrieNode P}
      → AreSized depth cs
      → start_children cs k ≡ some u
      → PrefixMatch (match_children cs) k u
  children_sound depth nil k h e = cc
  children_sound depth (cons c cs) k (ne, h, hs) e =
      elim (first_some-cases (match_start c k) (start_children cs k) e) [
        | inl at ↦
            let m = start_sound depth c k h at in
            record {
              front = m.front;
              back = m.back;
              splits = m.splits;
              matches =
                  first_some_left (match_path c m.front) (match_children cs m.front) m.matches;
            }
        | inr (out, at) ↦
            let m = children_sound depth cs k hs at in
            record {
              front = m.front;
              back = m.back;
              splits = m.splits;
              matches = rw (start_complete c m.front m.back (rw m.splits at out)) m.matches;
            }
      ]

-- On a well-formed trie `MatchStart` returns a node only if `Match` returns that node for some
-- prefix of the data, and the node's `PathLen` is then the length of this prefix and not 0.
pub match_start-PrefixMatch {ℓ} :
    {P : Type ℓ} (t : TrieNode P) (k : Bytes) {u : TrieNode P}
    → IsSized 0 t
    → match_start t k ≡ some u
    → (found : PrefixMatch (match_path t) k u) × (path_len u ≡ length found.front)
      × (0 < path_len u)
match_start-PrefixMatch t k h e =
    let m = start_sound 0 t k h e in
    let len = match_path-length 0 t m.front h m.matches in (m, omega (arith, len.0), len.1)

-- `MatchStart` returns nil only if `Match` returns nil for every prefix of the data.
pub match_start-none {ℓ} :
    {P : Type ℓ} (t : TrieNode P) (front back : Bytes)
    → match_start t (front ++ back) ≡ none
    → match_path t front ≡ none
match_start-none t front back e = start_complete t front back e

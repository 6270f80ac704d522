-- ===== src/Trie/Sized.antt =====
-- Well-formed tries: a child's suffix is not empty, and a `PathLen` is 0 or the length of the path.
use x_pipeline.Prelude.{
  ℕ, ◌+◌, ◌<◌, [], ◌∷◌, Option, none, some, Bytes, length, length-append, ltb, ltb→lt, ◌≡◌, ◌≢◌,
  refl, ap, arith, Bool-cases, inl, inr, ◌⊎◌,
}
use x_pipeline.Trie.{
  TrieNode, Nodes, node, nil, cons, suffix, path_len, longest_path, rev_onto, shift_children,
  add_new_child, match_path, match_children, first_some, end_here,
}
use x_pipeline.Trie.Prefix.{strip_prefix-Stripped, outside, exact, inside}

abbrev mutual
  pub IsSized {ℓ} : {P : Type ℓ} → ℕ → TrieNode P → Type 0
  IsSized depth (node s cs l m q) =
      ((m ≡ 0) ⊎ (m ≡ depth + length s)) × AreSized (depth + length s) cs

  pub AreSized {ℓ} : {P : Type ℓ} → ℕ → Nodes P → Type 0
  AreSized depth nil = Unit {0}
  AreSized depth (cons c cs) = (suffix c ≢ []) × IsSized depth c × AreSized depth cs

pub end_here-eq-some {ℓ} :
    {P : Type ℓ} (t : TrieNode P) {u : TrieNode P}
    → end_here t ≡ some u
    → (u ≡ t) × (0 < path_len t)
end_here-eq-some t e = elim (Bool-cases (ltb 0 (path_len t))) [
  | inl pos ↦ (cc, ltb→lt 0 (path_len t) pos)
  | inr zero_len ↦ cc
]

pub first_some-cases {ℓ} :
    {A : Type ℓ} (a b : Option A) {x : A}
    → first_some a b ≡ some x
    → (a ≡ some x) ⊎ ((a ≡ none) × (b ≡ some x))
first_some-cases none b e = inr (refl, e)
first_some-cases (some a) b e = inl e

mutual
  unfolding match_path

  pub match_path-length {ℓ} :
      {P : Type ℓ} (depth : ℕ) (t : TrieNode P) (k : Bytes) {u : TrieNode P}
      → IsSized depth t
      → match_path t k ≡ some u
      → (path_len u ≡ depth + length k) × (0 < path_len u)
  match_path-length depth (node s cs l m q) k {u} (own, deep) e = elim (strip_prefix-Stripped s k) [
    | outside f ↦ absurd (ground arith)
    | exact same f ↦
        let (at, pos) = end_here-eq-some (node s cs l m q) (rw f at e) in
        rw (at, same) (omega arith, pos)
    | inside x rest split f ↦
        let (len, pos) = match_children-length (depth + length s) cs (x ∷ rest) deep (rw f at e) in
        (omega (arith, len, ap length split, length-append s (x ∷ rest)), pos)
  ]

  pub match_children-length {ℓ} :
      {P : Type ℓ} (depth : ℕ) (cs : Nodes P) (k : Bytes) {u : TrieNode P}
      → AreSized depth cs
      → match_children cs k ≡ some u
      → (path_len u ≡ depth + length k) × (0 < path_len u)
  match_children-length depth nil k h e = cc
  match_children-length depth (cons c cs) k (ne, h, hs) e =
      elim (first_some-cases (match_path c k) (match_children cs k) e) [
        | inl found ↦ match_path-length depth c k h found
        | inr (out, found) ↦ match_children-length depth cs k hs found
      ]

module _ {ℓ} {P : Type ℓ} where
  AreSized-rev_onto :
      (depth : ℕ) (before after : Nodes P)
      → AreSized depth before
      → AreSized depth after
      → AreSized depth (rev_onto before after)
  unfolding rev_onto
  AreSized-rev_onto depth nil after h k = k
  AreSized-rev_onto depth (cons c before) after (a, b, h) k =
      AreSized-rev_onto depth before (cons c after) h (a, b, k)

  AreSized-shift_children :
      (depth : ℕ) (c : TrieNode P) (n : ℕ) (before after : Nodes P)
      → AreSized depth (cons c nil)
      → AreSized depth before
      → AreSized depth after
      → AreSized depth (shift_children c n before after)
  unfolding shift_children
  AreSized-shift_children depth c n nil after (a, b, u) h k = (a, b, k)
  AreSized-shift_children depth c n (cons x before) after (a, b, u) (a', b', h) k =
      elim (Bool-cases (ltb n (longest_path x))) [
        | inl stop ↦
            rw stop (AreSized-rev_onto depth (cons x before) (cons c after) (a', b', h) (a, b, k))
        | inr pass ↦
            rw pass
              (AreSized-shift_children depth c n before (cons x after) (a, b, u) h (a', b', k))
      ]

  pub add_new_child-IsSized :
      (depth : ℕ) (s : Bytes) (cs : Nodes P) (l m : ℕ) (q : Option P) (r : Bytes) (p : Option P)
      → (n : ℕ) → r ≢ []
      → n ≡ depth + length s + length r
      → IsSized depth (node s cs l m q)
      → IsSized depth (add_new_child (node s cs l m q) r p n)
  unfolding add_new_child
  add_new_child-IsSized depth s cs l m q r p n ne e (own, deep) = (
    own,
    AreSized-shift_children (depth + length s) (node r nil n n p) n (rev_onto cs nil) nil
        (ne, (inr e, tt), tt) (AreSized-rev_onto (depth + length s) cs nil deep tt) tt,
  )

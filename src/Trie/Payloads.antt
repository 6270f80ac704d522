-- ===== src/Trie/Payloads.antt =====
-- What holds of every payload that a match can return.
use x_pipeline.Prelude.{
  ℕ, ◌<◌, [], ◌∷◌, Option, none, some, Bytes, length, ltb, ◌≡◌, refl, Bool-cases, inl, inr,
}
use x_pipeline.Trie.{
  TrieNode, Nodes, node, nil, cons, payload, longest_path, rev_onto, shift_children, add_new_child,
  match_start, start_children, first_some, end_here, new_trie, add,
}
use x_pipeline.Trie.Prefix.{strip_prefix-Stripped, outside, exact, inside}
use x_pipeline.Trie.Insertion.{
  Insertion, here, below, leaf, above, apart, Descent, first, later, add_path-Insertion,
}
use x_pipeline.Trie.Sized.{first_some-cases, end_here-eq-some}

-- A node that can be returned, one with a `PathLen`, carries a payload with the property.
abbrev pub IsGood {ℓ} : {P : Type ℓ} → (P → Type 0) → ℕ → Option P → Type ℓ
IsGood {P = P} Q m q = 0 < m → (p : P) × (q ≡ some p) × Q p

abbrev mutual
  pub AllGood {ℓ} : {P : Type ℓ} → (P → Type 0) → TrieNode P → Type ℓ
  AllGood Q (node s cs l m q) = IsGood Q m q × ChildrenGood Q cs

  pub ChildrenGood {ℓ} : {P : Type ℓ} → (P → Type 0) → Nodes P → Type ℓ
  ChildrenGood Q nil = Unit
  ChildrenGood Q (cons c cs) = AllGood Q c × ChildrenGood Q cs

after-children {ℓ} :
    {P : Type ℓ} (Q : P → Type 0) (t : TrieNode P) (o : Option (TrieNode P)) {u : TrieNode P}
    → AllGood Q t
    → (o ≡ some u → (p : P) × (payload u ≡ some p) × Q p)
    → first_some o (end_here t) ≡ some u
    → (p : P) × (payload u ≡ some p) × Q p
after-children Q (node s cs l m q) o (own, deep) lower e =
    elim (first_some-cases o (end_here (node s cs l m q)) e) [
      | inl found ↦ lower found
      | inr (out, at) ↦ let (same, pos) = end_here-eq-some (node s cs l m q) at in rw same (own pos)
    ]

mutual
  unfolding match_start

  match_start-good {ℓ} :
      {P : Type ℓ} (Q : P → Type 0) (t : TrieNode P) (k : Bytes) {u : TrieNode P}
      → AllGood Q t
      → match_start t k ≡ some u
      → (p : P) × (payload u ≡ some p) × Q p
  match_start-good Q (node s cs l m q) k {u} (own, deep) e = elim (strip_prefix-Stripped s k) [
    | outside f ↦ cc
    | exact same f ↦
        after-children Q (node s cs l m q) (start_children cs []) (own, deep)
          (children-good Q cs [] deep) (rw f at e)
    | inside x rest split f ↦
        after-children Q (node s cs l m q) (start_children cs (x ∷ rest)) (own, deep)
          (children-good Q cs (x ∷ rest) deep) (rw f at e)
  ]

  children-good {ℓ} :
      {P : Type ℓ} (Q : P → Type 0) (cs : Nodes P) (k : Bytes) {u : TrieNode P}
      → ChildrenGood Q cs
      → start_children cs k ≡ some u
      → (p : P) × (payload u ≡ some p) × Q p
  children-good Q nil k h e = cc
  children-good Q (cons c cs) k (h, hs) e =
      elim (first_some-cases (match_start c k) (start_children cs k) e) [
        | inl at ↦ match_start-good Q c k h at
        | inr (out, at) ↦ children-good Q cs k hs at
      ]

-- Every node that `MatchStart` returns has a payload, and it has the property.
pub match_start-payload {ℓ} :
    {P : Type ℓ} (Q : P → Type 0) (t : TrieNode P) (k : Bytes) {u : TrieNode P}
    → AllGood Q t
    → match_start t k ≡ some u
    → (p : P) × (payload u ≡ some p) × Q p
match_start-payload Q t k h e = match_start-good Q t k h e

module _ {ℓ} {P : Type ℓ} (Q : P → Type 0) where
  ChildrenGood-rev_onto :
      (before after : Nodes P)
      → ChildrenGood Q before
      → ChildrenGood Q after
      → ChildrenGood Q (rev_onto before after)
  unfolding rev_onto
  ChildrenGood-rev_onto nil after h k = k
  ChildrenGood-rev_onto (cons c before) after (a, h) k =
      ChildrenGood-rev_onto before (cons c after) h (a, k)

  ChildrenGood-shift_children :
      (c : TrieNode P) (n : ℕ) (before after : Nodes P)
      → AllGood Q c
      → ChildrenGood Q before
      → ChildrenGood Q after
      → ChildrenGood Q (shift_children c n before after)
  unfolding shift_children
  ChildrenGood-shift_children c n nil after a h k = (a, k)
  ChildrenGood-shift_children c n (cons x before) after a (b, h) k =
      elim (Bool-cases (ltb n (longest_path x))) [
        | inl stop ↦ rw stop (ChildrenGood-rev_onto (cons x before) (cons c after) (b, h) (a, k))
        | inr pass ↦ rw pass (ChildrenGood-shift_children c n before (cons x after) a h (b, k))
      ]

  add_new_child-good :
      (s : Bytes) (cs : Nodes P) (l m : ℕ) (q : Option P) (r : Bytes) (p : Option P) (n : ℕ)
      → IsGood Q n p
      → AllGood Q (node s cs l m q)
      → AllGood Q (add_new_child (node s cs l m q) r p n)
  unfolding add_new_child
  add_new_child-good s cs l m q r p n h (own, deep) = (
    own,
    ChildrenGood-shift_children (node r nil n n p) n (rev_onto cs nil) nil (h, tt)
        (ChildrenGood-rev_onto cs nil deep tt) tt,
  )

mutual
  Insertion-good {ℓ} :
      {P : Type ℓ} (Q : P → Type 0) {p : Option P} {n : ℕ} {t t' : TrieNode P} {d : Bytes}
      → ((m : ℕ) → IsGood Q m p)
      → Insertion p n t d t'
      → AllGood Q t
      → AllGood Q t'
  Insertion-good Q h (here {m = m} e) (own, deep) = (h m, deep)
  Insertion-good Q h (below r ne e desc) (own, deep) = (own, Descent-good Q h desc deep)
  Insertion-good Q {p = p} {n = n} h (leaf {s = s} {cs = cs} {l = l} {m = m} {q = q} r ne e) good =
      add_new_child-good Q s cs l m q r p n (h n) good
  Insertion-good Q {n = n} h (above r ne e) good = (h n, (good, tt))
  Insertion-good Q {p = p} {n = n} h (apart {cs = cs} {l = l} {m = m} {q = q} b x y v w xne e f)
        good =
      add_new_child-good Q b _ l 0 none (x ∷ v) p n (h n) ((λ pos. elim pos [ ]), (good, tt))

  Descent-good {ℓ} :
      {P : Type ℓ} (Q : P → Type 0) {p : Option P} {n : ℕ} {cs cs' : Nodes P} {d : Bytes}
      → ((m : ℕ) → IsGood Q m p)
      → Descent p n cs d cs'
      → ChildrenGood Q cs
      → ChildrenGood Q cs'
  Descent-good Q h (first start ins) (good, goods) = (Insertion-good Q h ins good, goods)
  Descent-good Q h (later desc) (good, goods) = (good, Descent-good Q h desc goods)

-- Adding a payload with the property keeps it of all.
pub add-AllGood {ℓ} :
    {P : Type ℓ} (Q : P → Type 0) (t : TrieNode P) (d : Bytes) (p : P) {t' : TrieNode P}
    → Q p
    → AllGood Q t
    → add t d (some p) ≡ some t'
    → AllGood Q t'
unfolding add
add-AllGood Q t d p h good e =
    Insertion-good Q (λ m pos. (p, refl, h)) (add_path-Insertion t d (some p) (length d) e) good

pub new_trie-AllGood {ℓ} :
    {P : Type ℓ} (Q : P → Type 0) (d : Bytes) (p : P) → Q p → AllGood Q (new_trie d (some p))
unfolding new_trie
new_trie-AllGood Q d p h = ((λ pos. (p, refl, h)), tt)

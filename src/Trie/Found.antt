-- ===== src/Trie/Found.antt =====
-- A path that is added to a trie is found there afterwards, unless a node ended at it before.
use x_pipeline.Prelude.{
  ℕ, ◌<◌, Bool, true, false, [], ◌∷◌, ◌++◌, Option, none, some, Bytes, length, ltb, ◌==◌, ◌||◌,
  lt→ltb, if◌then◌else◌, ◌≡◌, ◌≢◌, refl, arith, sym, ◌∙◌, Bool-cases, inl, inr, strip_prefix,
}
use x_pipeline.Trie.{
  TrieNode, Nodes, node, nil, cons, longest_path, rev_onto, shift_children, add_new_child,
  match_path, match_children, view, add, found,
}
use x_pipeline.Trie.Prefix.{
  strip_prefix_self, strip_prefix_exact, strip_prefix-Stripped, outside, exact, inside,
}
use x_pipeline.Trie.Insertion.{
  Insertion, here, below, leaf, above, apart, Descent, first, later, add_path-Insertion,
}
use x_pipeline.Trie.Frame.{first_some-none, rev_onto_twice}

-- Does a node of the trie end exactly at the path, whatever its `PathLen`?
abbrev at_end : Bytes → Bool → Bool
at_end [] deeper = true
at_end (x ∷ rest) deeper = deeper

abbrev ends_from : Option Bytes → (Bytes → Bool) → Bool
ends_from none deeper = false
ends_from (some rest) deeper = at_end rest (deeper rest)

unfoldable mutual
  unfolding strip_prefix

  pub ends_at {ℓ} : {P : Type ℓ} → TrieNode P → Bytes → Bool
  ends_at (node s cs l m q) k = ends_from (strip_prefix s k) (λ rest. child_ends_at cs rest)

  pub child_ends_at {ℓ} : {P : Type ℓ} → Nodes P → Bytes → Bool
  child_ends_at nil k = false
  child_ends_at (cons c cs) k = let more = child_ends_at cs k in ends_at c k || more

or-false : (a b : Bool) → (a || b) ≡ false → (a ≡ false) × (b ≡ false)
or-false true b e = cc
or-false false b e = (refl, e)

mutual
  unfolding ends_at match_path

  ends_at-none {ℓ} :
      {P : Type ℓ} (t : TrieNode P) (k : Bytes) → ends_at t k ≡ false → match_path t k ≡ none
  ends_at-none (node s cs l m q) k e = elim (strip_prefix-Stripped s k) [
    | outside f ↦ rw f
    | exact same f ↦ absurd (ground arith)
    | inside x rest split f ↦ rw f (child_ends_at-none cs (x ∷ rest) (rw f at e))
  ]

  child_ends_at-none {ℓ} :
      {P : Type ℓ} (cs : Nodes P) (k : Bytes)
      → child_ends_at cs k ≡ false
      → match_children cs k ≡ none
  child_ends_at-none nil k e = refl
  child_ends_at-none (cons c cs) k e =
      let (a, b) = or-false (ends_at c k) (child_ends_at cs k) e in
      rw (ends_at-none c k a) (child_ends_at-none cs k b)

module _ {ℓ} {P : Type ℓ} where
  rev_onto-none :
      (before after : Nodes P) (k : Bytes)
      → match_children (rev_onto before after) k ≡ none
      → match_children after k ≡ none
  unfolding rev_onto match_children
  rev_onto-none nil after k e = e
  rev_onto-none (cons b before) after k e =
      let both = rev_onto-none before (cons b after) k e in ground (arith, both)

  -- Children that do not match are passed over.
  rev_onto-skip :
      (before after other : Nodes P) (k : Bytes)
      → match_children (rev_onto before after) k ≡ none
      → match_children (rev_onto before other) k ≡ match_children other k
  unfolding rev_onto match_children
  rev_onto-skip nil after other k e = refl
  rev_onto-skip (cons b before) after other k e =
      let both = rev_onto-none before (cons b after) k e in
      rev_onto-skip before (cons b after) (cons b other) k e ∙ ground (arith, both)

  shift_children-found :
      (c : TrieNode P) (n : ℕ) (before after : Nodes P) (k : Bytes)
      → match_children (rev_onto before after) k ≡ none
      → match_children (shift_children c n before after) k ≡ match_path c k
  unfolding shift_children rev_onto
  shift_children-found c n nil after k e =
      unfold match_children in rw e (first_some-none (match_path c k))
  shift_children-found c n (cons b before) after k e = elim (Bool-cases (ltb n (longest_path b))) [
    | inl stop ↦ rw stop (
        rev_onto-skip (cons b before) after (cons c after) k e
        ∙ (unfold match_children in
            rw (rev_onto-none (cons b before) after k e) (first_some-none (match_path c k))))
    | inr pass ↦ rw pass (shift_children-found c n before (cons b after) k e)
  ]

  leaf-found :
      (r : Bytes) (n m : ℕ) (p : Option P)
      → 0 < m
      → view (match_path (node r nil n m p) r) ≡ some (m, p)
  unfolding match_path
  leaf-found r n m p pos = rw (strip_prefix_exact r) (rw (lt→ltb 0 m pos))

  -- A match that goes on behind a node's suffix.
  into-children :
      (s : Bytes) (cs : Nodes P) (l m : ℕ) (q : Option P) (x : ℕ) (r : Bytes)
      → match_path (node s cs l m q) (s ++ x ∷ r) ≡ match_children cs (x ∷ r)
  unfolding match_path
  into-children s cs l m q x r = rw (strip_prefix_self s (x ∷ r))

  into-ends :
      (s : Bytes) (cs : Nodes P) (l m : ℕ) (q : Option P) (x : ℕ) (r : Bytes)
      → ends_at (node s cs l m q) (s ++ x ∷ r) ≡ child_ends_at cs (x ∷ r)
  unfolding ends_at
  into-ends s cs l m q x r = rw (strip_prefix_self s (x ∷ r))

  ends_at-suffix :
      (s : Bytes) (cs : Nodes P) (l m : ℕ) (q : Option P) → ends_at (node s cs l m q) s ≡ true
  unfolding ends_at
  ends_at-suffix s cs l m q = rw (strip_prefix_exact s)

  -- The leaf that `addNewChild` appends is found if no child matches its path.
  add_new_child-found :
      (s : Bytes) (cs : Nodes P) (l m : ℕ) (q : Option P) (x : ℕ) (r : Bytes) (p : Option P) (n : ℕ)
      → match_children cs (x ∷ r) ≡ none
      → 0 < n
      → view (match_path (add_new_child (node s cs l m q) (x ∷ r) p n) (s ++ x ∷ r)) ≡ some (n, p)
  unfolding add_new_child
  add_new_child-found s cs l m q x r p n free pos =
      let leaf_first =
        shift_children-found (node (x ∷ r) nil n n p) n (rev_onto cs nil) nil (x ∷ r)
          (rw (rev_onto_twice cs) free) in
      rw
        (
          into-children s (shift_children (node (x ∷ r) nil n n p) n (rev_onto cs nil) nil)
              (if ltb l n then n else l) m q x r,
          leaf_first,
        )
        (leaf-found (x ∷ r) n n p pos)

  exact-found :
      (s : Bytes) (cs : Nodes P) (l m : ℕ) (q : Option P)
      → 0 < m
      → view (match_path (node s cs l m q) s) ≡ some (m, q)
  unfolding match_path
  exact-found s cs l m q pos = rw (strip_prefix_exact s) (rw (lt→ltb 0 m pos))

  -- A child that starts with another byte does not match.
  other-start :
      (x y : ℕ) (v w : Bytes) (cs : Nodes P) (l m : ℕ) (q : Option P)
      → x ≢ y
      → match_children (cons (node (y ∷ w) cs l m q) nil) (x ∷ v) ≡ none
  unfolding match_path strip_prefix
  other-start x y v w cs l m q ne = let differ : (y == x) ≡ false = ground arith in rw differ

  free-cons :
      (c : TrieNode P) (cs : Nodes P) (k : Bytes)
      → child_ends_at (cons c cs) k ≡ false
      → (ends_at c k ≡ false) × (child_ends_at cs k ≡ false)
  unfolding child_ends_at
  free-cons c cs k e = or-false (ends_at c k) (child_ends_at cs k) e

  first-found :
      (c : TrieNode P) (cs : Nodes P) (k : Bytes) {v : ℕ × Option P}
      → view (match_path c k) ≡ some v
      → view (match_children (cons c cs) k) ≡ some v
  unfolding match_children
  first-found c cs k e = ground arith

  skip-found :
      (c : TrieNode P) (cs : Nodes P) (k : Bytes)
      → match_path c k ≡ none
      → match_children (cons c cs) k ≡ match_children cs k
  unfolding match_children
  skip-found c cs k e = rw e

mutual
  Insertion-found {ℓ} :
      {P : Type ℓ} {p : Option P} {n : ℕ} {t t' : TrieNode P} {d : Bytes}
      → Insertion p n t d t'
      → ends_at t d ≡ false
      → 0 < n
      → view (match_path t' d) ≡ some (n, p)
  Insertion-found (here {s = s} {cs = cs} {l = l} {m = m} {q = q} e) free pos =
      let yes_end = rw e at free in cc (ends_at-suffix s cs l m q)
  Insertion-found (below {s = s} [] ne e desc) free pos = absurd (ne refl)
  Insertion-found (below {s = s} {cs = cs} {cs' = cs'} {l = l} {m = m} {q = q} (x ∷ r) ne e desc)
        free pos =
      rw (e, into-children s cs' l m q x r)
        (Descent-found desc (sym (into-ends s cs l m q x r) ∙ (rw e at free)) pos)
  Insertion-found (leaf [] ne e) free pos = absurd (ne refl)
  Insertion-found {p = p} {n = n} (leaf {s = s} {cs = cs} {l = l} {m = m} {q = q} (x ∷ r) ne e) free
        pos =
      rw e (
        add_new_child-found s cs l m q x r p n
          (child_ends_at-none cs (x ∷ r) (sym (into-ends s cs l m q x r) ∙ (rw e at free))) pos)
  Insertion-found {p = p} {n = n} (above {d = d} {cs = cs} {l = l} {m = m} {q = q} r ne e) free
        pos =
      exact-found d (cons (node r cs l m q) nil) l n p pos
  Insertion-found {p = p} {n = n} (apart {cs = cs} {l = l} {m = m} {q = q} b x y v w xne e f) free
        pos =
      rw e (
        add_new_child-found b (cons (node (y ∷ w) cs l m q) nil) l 0 none x v p n
          (other-start x y v w cs l m q xne) pos)

  Descent-found {ℓ} :
      {P : Type ℓ} {p : Option P} {n : ℕ} {cs cs' : Nodes P} {d : Bytes}
      → Descent p n cs d cs'
      → child_ends_at cs d ≡ false
      → 0 < n
      → view (match_children cs' d) ≡ some (n, p)
  Descent-found (first {c = c} {c' = c'} {cs = cs} {d = d} same ins) free pos =
      first-found c' cs d (Insertion-found ins (free-cons c cs d free).0 pos)
  Descent-found (later {c = c} {cs = cs} {cs' = cs'} {d = d} desc) free pos =
      rw (skip-found c cs' d (ends_at-none c d (free-cons c cs d free).0))
        (Descent-found desc (free-cons c cs d free).1 pos)

-- A path at which no node of the trie ended is found after it is added: `Match` returns a node with
-- the length of the path and the payload that was given. The path is not empty.
pub add-found {ℓ} :
    {P : Type ℓ} (t : TrieNode P) (d : Bytes) (p : Option P) {t' : TrieNode P}
    → add t d p ≡ some t'
    → ends_at t d ≡ false
    → 0 < length d
    → found t' d ≡ some (length d, p)
unfolding add found
add-found t d p e free pos = Insertion-found (add_path-Insertion t d p (length d) e) free pos

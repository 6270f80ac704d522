-- ===== src/Trie/Frame.antt =====
-- What an insertion leaves alone: the matches of every other path.
use x_pipeline.Prelude.{
  ℕ, [], ◌∷◌, ◌++◌, Option, none, some, Bytes, length, ltb, ◌≡◌, ◌≢◌, ◌⊎◌, refl, ap, arith, sym,
  ◌∙◌, Bool-cases, inl, inr, strip_prefix,
}
use x_pipeline.Trie.{
  TrieNode, Nodes, node, nil, cons, longest_path, rev_onto, shift_children, add_new_child,
  match_path, match_children, first_some, end_here, view, add, found,
}
use x_pipeline.Trie.Prefix.{strip_prefix-append, strip_prefix-Stripped, outside, exact, inside}
use x_pipeline.Trie.Insertion.{
  Insertion, here, below, leaf, above, apart, Descent, first, later, add_path-Insertion,
}

pub first_some-none {κ} : {A : Type κ} (o : Option A) → first_some o none ≡ o
first_some-none none = refl
first_some-none (some a) = refl

view-first_some {ℓ} :
    {P : Type ℓ} (a b c d : Option (TrieNode P))
    → view a ≡ view b
    → view c ≡ view d
    → view (first_some a c) ≡ view (first_some b d)
view-first_some none none c d e f = f
view-first_some none (some b) c d e f = cc
view-first_some (some a) none c d e f = cc
view-first_some (some a) (some b) c d e f = e

module _ {ℓ} {P : Type ℓ} where
  unfoldable pub chain : Nodes P → Nodes P → Nodes P
  chain nil more = more
  chain (cons c cs) more = cons c (chain cs more)

  chain-nil : (cs : Nodes P) → chain cs nil ≡ cs
  unfolding chain
  chain-nil nil = refl
  chain-nil (cons c cs) = ap (cons c) (chain-nil cs)

  rev_onto-rev_onto :
      (xs ys zs : Nodes P) → rev_onto (rev_onto xs ys) zs ≡ rev_onto ys (chain xs zs)
  unfolding rev_onto chain
  rev_onto-rev_onto nil ys zs = refl
  rev_onto-rev_onto (cons x xs) ys zs = rev_onto-rev_onto xs (cons x ys) zs

  -- Reversing the children twice gives them back.
  pub rev_onto_twice : (cs : Nodes P) → rev_onto (rev_onto cs nil) nil ≡ cs
  unfolding rev_onto
  rev_onto_twice cs = rev_onto-rev_onto cs nil nil ∙ chain-nil cs

  match_children-rev_onto :
      (before xs ys : Nodes P) (k : Bytes)
      → match_children xs k ≡ match_children ys k
      → match_children (rev_onto before xs) k ≡ match_children (rev_onto before ys) k
  unfolding rev_onto match_children
  match_children-rev_onto nil xs ys k e = e
  match_children-rev_onto (cons c before) xs ys k e =
      match_children-rev_onto before (cons c xs) (cons c ys) k (ap (first_some (match_path c k)) e)

  -- A new child that does not match changes no match among the children.
  shift_children-frame :
      (c : TrieNode P) (n : ℕ) (before after : Nodes P) (k : Bytes)
      → match_path c k ≡ none
      → match_children (shift_children c n before after) k
        ≡ match_children (rev_onto before after) k
  unfolding shift_children rev_onto
  shift_children-frame c n nil after k e = unfold match_children in rw e
  shift_children-frame c n (cons b before) after k e = elim (Bool-cases (ltb n (longest_path b))) [
    | inl stop ↦ rw stop (
        match_children-rev_onto before (cons b (cons c after)) (cons b after) k
          (unfold match_children in rw e))
    | inr pass ↦ rw pass (shift_children-frame c n before (cons b after) k e)
  ]

  -- A leaf matches its own path only.
  pub leaf-match :
      (r : Bytes) (n m : ℕ) (p : Option P) (k : Bytes)
      → r ≢ k
      → match_path (node r nil n m p) k ≡ none
  unfolding match_path
  leaf-match r n m p k ne = elim (strip_prefix-Stripped r k) [
    | outside e ↦ rw e
    | exact same e ↦ absurd (ne (sym same))
    | inside x rest split e ↦ rw e
  ]

  -- The children below a node matter to a match only at what is left behind the suffix.
  pub match_path-children :
      (s : Bytes) (cs cs' : Nodes P) (l l' m : ℕ) (q : Option P) (k : Bytes)
      → ((r : Bytes) → k ≡ s ++ r → view (match_children cs r) ≡ view (match_children cs' r))
      → view (match_path (node s cs l m q) k) ≡ view (match_path (node s cs' l' m q) k)
  unfolding match_path
  match_path-children s cs cs' l l' m q k h = elim (strip_prefix-Stripped s k) [
    | outside e ↦ rw e
    | exact same e ↦ rw e (ground arith)
    | inside x rest split e ↦ rw e (h (x ∷ rest) split)
  ]

  match_path-payload :
      (s : Bytes) (cs : Nodes P) (l m m' : ℕ) (q q' : Option P) (k : Bytes)
      → s ≢ k
      → view (match_path (node s cs l m q) k) ≡ view (match_path (node s cs l m' q') k)
  unfolding match_path
  match_path-payload s cs l m m' q q' k ne = elim (strip_prefix-Stripped s k) [
    | outside e ↦ rw e
    | exact same e ↦ absurd (ne (sym same))
    | inside x rest split e ↦ rw e
  ]

  -- The leaf that `addNewChild` appends changes no other path.
  pub add_new_child-frame :
      (s : Bytes) (cs : Nodes P) (l m : ℕ) (q : Option P) (r : Bytes) (p : Option P) (n : ℕ)
      → (k : Bytes) → s ++ r ≢ k
      → view (match_path (add_new_child (node s cs l m q) r p n) k)
        ≡ view (match_path (node s cs l m q) k)
  unfolding add_new_child
  add_new_child-frame s cs l m q r p n k ne = match_path-children s _ cs _ l m q k λ rest e.
      ap view (
        shift_children-frame (node r nil n n p) n (rev_onto cs nil) nil rest
          (leaf-match r n n p rest (λ same. ne (ap (λ (u : Bytes). s ++ u) same ∙ sym e)))
        ∙ ap (λ (u : Nodes P). match_children u rest) (rev_onto_twice cs))

  end_here-view :
      (s s' : Bytes) (cs cs' : Nodes P) (l l' m : ℕ) (q : Option P)
      → view (end_here (node s cs l m q)) ≡ view (end_here (node s' cs' l' m q))
  end_here-view s s' cs cs' l l' m q = elim (Bool-cases (ltb 0 m)) [ inl e ↦ rw e | inr e ↦ rw e ]

  -- A node whose suffix is cut in two matches what it matched.
  cut-match :
      (f : Bytes) (z : ℕ) (r : Bytes) (cs : Nodes P) (l l' m n : ℕ) (q p : Option P) (k : Bytes)
      → (f ≢ k) ⊎ (n ≡ 0)
      → view (match_path (node f (cons (node (z ∷ r) cs l m q) nil) l' n p) k)
        ≡ view (match_path (node (f ++ z ∷ r) cs l m q) k)
  unfolding match_path
  cut-match f z r cs l l' m n q p k other = elim (strip_prefix-Stripped f k) [
    | outside e ↦ rw (strip_prefix-append f (z ∷ r) k, e)
    | exact same e ↦ elim other [
      | inl ne ↦ absurd (ne (sym same))
      | inr zero_len ↦
          rw (strip_prefix-append f (z ∷ r) k, e, zero_len) (unfold strip_prefix in refl)
    ]
    | inside x rest split e ↦ elim (strip_prefix-Stripped (z ∷ r) (x ∷ rest)) [
      | outside e' ↦ rw (strip_prefix-append f (z ∷ r) k, e, e')
      | exact same e' ↦
          rw (strip_prefix-append f (z ∷ r) k, e, e')
            (rw (first_some-none (end_here (node (z ∷ r) cs l m q)))
              (end_here-view (z ∷ r) (f ++ z ∷ r) cs cs l l m q))
      | inside y more at' e' ↦
          rw (strip_prefix-append f (z ∷ r) k, e, e')
            (rw (first_some-none (match_children cs (y ∷ more))))
    ]
  ]

-- What is left behind a common prefix differs as the whole does.
pub prefix-ne : (s : Bytes) {r r' d k : Bytes} → d ≡ s ++ r → k ≡ s ++ r' → d ≢ k → r ≢ r'
prefix-ne s e f ne same = ne (e ∙ ap (λ (u : Bytes). s ++ u) same ∙ sym f)

module _ {ℓ} {P : Type ℓ} where
  -- A match among children goes through the first child.
  pub match_children-cons :
      (c c' : TrieNode P) (cs cs' : Nodes P) (k : Bytes)
      → view (match_path c k) ≡ view (match_path c' k)
      → view (match_children cs k) ≡ view (match_children cs' k)
      → view (match_children (cons c cs) k) ≡ view (match_children (cons c' cs') k)
  unfolding match_children
  match_children-cons c c' cs cs' k e f =
      view-first_some (match_path c k) (match_path c' k) (match_children cs k)
        (match_children cs' k) e f

mutual
  Insertion-frame {ℓ} :
      {P : Type ℓ} {p : Option P} {n : ℕ} {t t' : TrieNode P} {d : Bytes} (k : Bytes)
      → Insertion p n t d t'
      → d ≢ k
      → view (match_path t' k) ≡ view (match_path t k)
  Insertion-frame k (here {s = s} {cs = cs} {l = l} {m = m} e) ne =
      match_path-payload s cs l m m _ _ k (λ f. ne (e ∙ f))
  Insertion-frame k (below {s = s} {cs = cs} {cs' = cs'} {l = l} {m = m} {q = q} r rne e desc) ne =
      match_path-children s cs' cs l l m q k λ r' f. Descent-frame r' desc (prefix-ne s e f ne)
  Insertion-frame {p = p} {n = n} k (leaf {s = s} {cs = cs} {l = l} {m = m} {q = q} r rne e) ne =
      add_new_child-frame s cs l m q r p n k (λ f. ne (e ∙ f))
  Insertion-frame {p = p} {n = n} k (above {cs = cs} {l = l} {m = m} {q = q} [] rne e) ne =
      absurd (rne refl)
  Insertion-frame {p = p} {n = n} k (above {d = d} {cs = cs} {l = l} {m = m} {q = q} (z ∷ r) rne e)
        ne =
      rw e (cut-match d z r cs l l m n q p k (inl ne))
  Insertion-frame {p = p} {n = n} k (apart {cs = cs} {l = l} {m = m} {q = q} b x y v w xne e f) ne =
      rw f (
        add_new_child-frame b _ l 0 none (x ∷ v) p n k (λ g. ne (e ∙ g))
        ∙ cut-match b y w cs l l m 0 q none k (inr refl))

  Descent-frame {ℓ} :
      {P : Type ℓ} {p : Option P} {n : ℕ} {cs cs' : Nodes P} {d : Bytes} (k : Bytes)
      → Descent p n cs d cs'
      → d ≢ k
      → view (match_children cs' k) ≡ view (match_children cs k)
  Descent-frame k (first {c = c} {c' = c'} {cs = cs} same ins) ne =
      match_children-cons c' c cs cs k (Insertion-frame k ins ne) refl
  Descent-frame k (later {c = c} {cs = cs} {cs' = cs'} desc) ne =
      match_children-cons c c cs' cs k refl (Descent-frame k desc ne)

-- Adding a path that does not panic leaves what `Match` finds at every other path as it was, its
-- `PathLen` and its payload.
pub add-frame {ℓ} :
    {P : Type ℓ} (t : TrieNode P) (d k : Bytes) (p : Option P) {t' : TrieNode P}
    → add t d p ≡ some t'
    → d ≢ k
    → found t' k ≡ found t k
unfolding add found
add-frame t d k p e ne = Insertion-frame k (add_path-Insertion t d p (length d) e) ne

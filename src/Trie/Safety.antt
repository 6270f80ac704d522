-- ===== src/Trie/Safety.antt =====
-- `Add` does not panic on a well-formed trie and leaves a well-formed trie.
use mathlib.Core.Option
use x_pipeline.Prelude.{
  ℕ, ◌+◌, Bool, true, false, [], ◌∷◌, ◌++◌, Option, none, some, Bytes, length, length-append, drop,
  if◌then◌else◌, ◌>>=◌, ◌≡◌, ◌≢◌, refl, ap, arith, sym, ◌∙◌, Option-cases, inl, inr,
}
use x_pipeline.Trie.{
  TrieNode, Nodes, node, nil, cons, suffix, add_new_child, descend, same_start, split_idx, add_path,
  add_to_child, new_trie, add,
}
use x_pipeline.Trie.Prefix.{Split, same, data_longer, suffix_longer, fork, split_idx-Split}
use x_pipeline.Trie.Sized.{IsSized, AreSized, add_new_child-IsSized}
use x_pipeline.Trie.Insertion.{
  choose, Insertion, here, below, leaf, above, apart, Descent, first, later, add_path-Insertion,
}

same_start-nil : (s : Bytes) → same_start s [] ≡ none
unfolding same_start
same_start-nil [] = refl
same_start-nil (x ∷ s) = refl

same_start-cons :
    (s d v w : Bytes) (x y : ℕ) → d ≡ x ∷ v → s ≡ y ∷ w → same_start s d ≡ some true → x ≡ y
unfolding same_start
same_start-cons s d v w x y e f start =
    let both : same_start (y ∷ w) (x ∷ v) ≡ some true = rw (e, f) at start in ground arith

module _ {ℓ} {P : Type ℓ} where
  cut-AreSized :
      (depth : ℕ) (b : Bytes) (y : ℕ) (w : Bytes) (cs : Nodes P) (l m : ℕ) (q : Option P)
      → IsSized depth (node (b ++ y ∷ w) cs l m q)
      → AreSized (depth + length b) (cons (node (y ∷ w) cs l m q) nil)
  cut-AreSized depth b y w cs l m q (own, deep) =
      let e : depth + length (b ++ y ∷ w) ≡ depth + length b + length (y ∷ w) =
        omega (arith, length-append b (y ∷ w)) in
      ((λ f. cc), (rw e at own, rw e at deep), tt)

  -- A child that takes the data keeps a suffix.
  Insertion-suffix :
      {p : Option P} {n : ℕ} {c c' : TrieNode P} {d : Bytes}
      → Insertion p n c d c'
      → same_start (suffix c) d ≡ some true
      → suffix c ≢ []
      → suffix c' ≢ []
  unfolding add_new_child
  Insertion-suffix (here e) start ne = ne
  Insertion-suffix (below r rne e desc) start ne = ne
  Insertion-suffix (leaf r rne e) start ne = ne
  Insertion-suffix (above {s = s} {d = []} r rne e) start ne = cc (same_start-nil s)
  Insertion-suffix (above {d = x ∷ d} r rne e) start ne = λ f. cc
  Insertion-suffix (apart {s = s} {d = d} [] x y v w xne e f) start ne =
      absurd (xne (same_start-cons s d v w x y e f start))
  Insertion-suffix (apart (z ∷ b) x y v w xne e f) start ne = λ g. cc

mutual
  Insertion-IsSized {ℓ} :
      {P : Type ℓ} {p : Option P} {n : ℕ} {t t' : TrieNode P} {d : Bytes} (depth : ℕ)
      → Insertion p n t d t'
      → n ≡ depth + length d
      → IsSized depth t
      → IsSized depth t'
  Insertion-IsSized depth (here e) len (own, deep) = (own, deep)
  Insertion-IsSized depth (below {s = s} r ne e desc) len (own, deep) = (
    own,
    Descent-AreSized (depth + length s) desc (omega (arith, ap length e, length-append s r)) deep,
  )
  Insertion-IsSized {p = p} {n = n} depth (leaf {s = s} {cs = cs} {l = l} {m = m} {q = q} r ne e)
        len h =
      add_new_child-IsSized depth s cs l m q r p n ne
        (omega (arith, ap length e, length-append s r)) h
  Insertion-IsSized depth (above [] ne e) len h = absurd (ne refl)
  Insertion-IsSized depth (above {d = d} {cs = cs} {l = l} {m = m} {q = q} (y ∷ r) ne e) len h =
      (inr len, cut-AreSized depth d y r cs l m q (rw e at h))
  Insertion-IsSized {p = p} {n = n} depth
        (apart {cs = cs} {l = l} {m = m} {q = q} b x y v w xne e f) len h =
      add_new_child-IsSized depth b _ l 0 none (x ∷ v) p n (λ g. cc)
        (omega (arith, ap length e, length-append b (x ∷ v)))
        (inl refl, cut-AreSized depth b y w cs l m q (rw f at h))

  Descent-AreSized {ℓ} :
      {P : Type ℓ} {p : Option P} {n : ℕ} {cs cs' : Nodes P} {d : Bytes} (depth : ℕ)
      → Descent p n cs d cs'
      → n ≡ depth + length d
      → AreSized depth cs
      → AreSized depth cs'
  Descent-AreSized depth (first start ins) len (ne, h, hs) =
      (Insertion-suffix ins start ne, Insertion-IsSized depth ins len h, hs)
  Descent-AreSized depth (later desc) len (ne, h, hs) = (ne, h, Descent-AreSized depth desc len hs)

module _ {ℓ} {P : Type ℓ} where
  descend-ne-none :
      (t : TrieNode P) (d : Bytes) (p : Option P) (n : ℕ) (o : Option (Option (Nodes P)))
      → o ≢ none
      → (o >>= descend t d p n) ≢ none
  unfolding descend
  descend-ne-none t d p n none ne e = ne refl
  descend-ne-none t d p n (some none) ne e = cc
  descend-ne-none (node s cs l m q) d p n (some (some cs')) ne e = cc

  choose-ne-none :
      (s : Bytes) (cs : Nodes P) (l m : ℕ) (q : Option P) (d : Bytes) (p : Option P) (n i : ℕ)
      → (o : Option (Option (Nodes P))) → Split d s i
      → (drop i d ≢ [] → o ≢ none)
      → choose s cs l m q d p n i o ≢ none
  unfolding choose
  choose-ne-none s cs l m q d p n i o (same e h k) total eq = ground arith
  choose-ne-none s cs l m q d p n i o (data_longer r ne e f h k) total eq =
      ground
        (arith, descend-ne-none (node s cs l m q) (drop i d) p n o (total (λ g. ne (sym f ∙ g))))
  choose-ne-none s cs l m q d p n i o (suffix_longer r ne e f h k) total eq = ground arith
  choose-ne-none s cs l m q d p n i o (fork b x y v w ne e f g g' g'' h k) total eq = ground arith

  step_child-ne-none :
      (c : TrieNode P) (cs : Nodes P) (o : Option Bool)
      → (o1 : Option (TrieNode P)) (o2 : Option (Option (Nodes P))) → o ≢ none
      → o1 ≢ none
      → o2 ≢ none
      → (o >>= λ same.
          if same
          then o1 >>= (λ c'. some (some (cons c' cs)))
          else o2 >>= (λ f. some (Option.map (cons c) f)))
        ≢ none
  step_child-ne-none c cs none o1 o2 a b d e = a refl
  step_child-ne-none c cs (some true) none o2 a b d e = b refl
  step_child-ne-none c cs (some true) (some c') o2 a b d e = cc
  step_child-ne-none c cs (some false) o1 none a b d e = d refl
  step_child-ne-none c cs (some false) o1 (some f) a b d e = cc

same_start-ne-none : (s d : Bytes) → s ≢ [] → d ≢ [] → same_start s d ≢ none
unfolding same_start
same_start-ne-none [] d a b e = a refl
same_start-ne-none (x ∷ s) [] a b e = b refl
same_start-ne-none (x ∷ s) (y ∷ d) a b e = cc

mutual
  unfolding add_path choose

  add_path-ne-none {ℓ} :
      {P : Type ℓ} (depth : ℕ) (t : TrieNode P) (d : Bytes) (p : Option P) (n : ℕ)
      → IsSized depth t
      → add_path t d p n ≢ none
  add_path-ne-none depth (node s cs l m q) d p n (own, deep) =
      choose-ne-none s cs l m q d p n (split_idx d s) (add_to_child cs (drop (split_idx d s) d) p n)
        (split_idx-Split d s)
        (λ ne. add_to_child-ne-none (depth + length s) cs (drop (split_idx d s) d) p n ne deep)

  add_to_child-ne-none {ℓ} :
      {P : Type ℓ} (depth : ℕ) (cs : Nodes P) (d : Bytes) (p : Option P) (n : ℕ)
      → d ≢ []
      → AreSized depth cs
      → add_to_child cs d p n ≢ none
  add_to_child-ne-none depth nil d p n ne h = λ e. cc
  add_to_child-ne-none depth (cons c cs) d p n ne (own, h, hs) =
      step_child-ne-none c cs (same_start (suffix c) d) (add_path c d p n) (add_to_child cs d p n)
        (same_start-ne-none (suffix c) d own ne) (add_path-ne-none depth c d p n h)
        (add_to_child-ne-none depth cs d p n ne hs)

-- `NewTrie` makes a well-formed trie.
pub new_trie-IsSized {ℓ} : {P : Type ℓ} (s : Bytes) (p : Option P) → IsSized 0 (new_trie s p)
unfolding new_trie
new_trie-IsSized s p = (inr (omega arith), tt)

-- On a well-formed trie `Add` does not read out of range, whatever the data, and the trie that it
-- returns is well formed: no child has an empty suffix, and every `PathLen` is 0 or the length of
-- the path down to its node.
pub add-IsSized {ℓ} :
    {P : Type ℓ} (t : TrieNode P) (d : Bytes) (p : Option P)
    → IsSized 0 t
    → (t' : TrieNode P) × (add t d p ≡ some t') × IsSized 0 t'
unfolding add
add-IsSized t d p h = elim (Option-cases (add_path t d p (length d))) [
  | inl panic ↦ absurd (add_path-ne-none 0 t d p (length d) h panic)
  | inr (t', e) ↦
      (t', e, Insertion-IsSized 0 (add_path-Insertion t d p (length d) e) (omega arith) h)
]

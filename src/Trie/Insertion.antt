-- ===== src/Trie/Insertion.antt =====
-- `addPath` as a relation: which of its five ways a call takes, and what it leaves.
use mathlib.Core.Option
use x_pipeline.Prelude.{
  ℕ, ◌<◌, Bool, true, false, [], ◌∷◌, ◌++◌, Option, none, some, Bytes, length, take, drop, ltb,
  ◌==◌, if◌then◌else◌, ◌>>=◌, ◌≡◌, ◌≢◌, refl, arith, Bool-cases, inl, inr,
}
use x_pipeline.Trie.{
  TrieNode, Nodes, node, nil, cons, suffix, add_new_child, descend, same_start, split_idx, add_path,
  add_to_child,
}
use x_pipeline.Trie.Prefix.{Split, same, data_longer, suffix_longer, fork, split_idx-Split}

-- `Insertion p n t d t'`: adding the payload `p` with `PathLen` n at `d` to `t` gives `t'`.
mutual
  pub data Insertion {ℓ} {P : Type ℓ} (p : Option P) (n : ℕ)
      : TrieNode P → Bytes → TrieNode P → Type ℓ where
    here :
        {s d : Bytes} {cs : Nodes P} {l m : ℕ} {q : Option P}
        → d ≡ s
        → Insertion p n (node s cs l m q) d (node s cs l m p)
    below :
        {s d : Bytes} {cs cs' : Nodes P} {l m : ℕ} {q : Option P} (r : Bytes)
        → r ≢ []
        → d ≡ s ++ r
        → Descent p n cs r cs'
        → Insertion p n (node s cs l m q) d (node s cs' l m q)
    leaf :
        {s d : Bytes} {cs : Nodes P} {l m : ℕ} {q : Option P} (r : Bytes)
        → r ≢ []
        → d ≡ s ++ r
        → Insertion p n (node s cs l m q) d (add_new_child (node s cs l m q) r p n)
    above :
        {s d : Bytes} {cs : Nodes P} {l m : ℕ} {q : Option P} (r : Bytes)
        → r ≢ []
        → s ≡ d ++ r
        → Insertion p n (node s cs l m q) d (node d (cons (node r cs l m q) nil) l n p)
    apart :
        {s d : Bytes} {cs : Nodes P} {l m : ℕ} {q : Option P}
        → (front : Bytes) (x y : ℕ) (v w : Bytes) → x ≢ y
        → d ≡ front ++ x ∷ v
        → s ≡ front ++ y ∷ w
        → Insertion p n
            (node s cs l m q)
            d
            (add_new_child (node front (cons (node (y ∷ w) cs l m q) nil) l 0 none) (x ∷ v) p n)

  pub data Descent {ℓ} {P : Type ℓ} (p : Option P) (n : ℕ)
      : Nodes P → Bytes → Nodes P → Type ℓ where
    first :
        {c c' : TrieNode P} {cs : Nodes P} {d : Bytes}
        → same_start (suffix c) d ≡ some true
        → Insertion p n c d c'
        → Descent p n (cons c cs) d (cons c' cs)
    later :
        {c : TrieNode P} {cs cs' : Nodes P} {d : Bytes}
        → Descent p n cs d cs'
        → Descent p n (cons c cs) d (cons c cs')

module _ {ℓ} {P : Type ℓ} where
  -- What the last steps of `addPath` give, for each way in which the data and the suffix compare.
  unfoldable pub choose :
      (s : Bytes) (cs : Nodes P) (l m : ℕ) (q : Option P) (d : Bytes) (p : Option P) (n i : ℕ)
      → Option (Option (Nodes P))
      → Option (TrieNode P)
  unfolding descend
  choose s cs l m q d p n i descended =
      let t = node s cs l m q in
      let tail = node (drop i s) cs l m q in
      if i == length s
      then if i == length d
        then some (node s cs l m p)
        else if ltb 0 (length s)
        then descended >>= descend t (drop i d) p n
        else some (add_new_child t (drop i d) p n)
      else if i == length d
      then some (node d (cons tail nil) l n p)
      else some (add_new_child (node (take i d) (cons tail nil) l 0 none) (drop i d) p n)

  -- The data goes on behind the suffix: a child takes it, or a new leaf.
  choose-longer :
      (s : Bytes) (cs : Nodes P) (l m : ℕ) (q : Option P) (d : Bytes) (p : Option P) (n i : ℕ)
      → (o : Option (Option (Nodes P))) (r : Bytes) {t' : TrieNode P}
      → ((cs' : Nodes P) → o ≡ some (some cs') → Descent p n cs (drop i d) cs')
      → r ≢ []
      → d ≡ s ++ r
      → drop i d ≡ r
      → i ≡ length s
      → i < length d
      → choose s cs l m q d p n i o ≡ some t'
      → Insertion p n (node s cs l m q) d t'
  unfolding choose descend
  choose-longer s cs l m q d p n i (some (some cs')) r {t'} down ne e f h k eq =
      elim (Bool-cases (ltb 0 (length s))) [
        | inl pos ↦
            let t : node s cs' l m q ≡ t' = ground arith in
            rw (← t) (below r ne e (rw f at (down cs' refl)))
        | inr root ↦
            let a : (i == length s) ≡ true = ground arith in
            let b : (i == length d) ≡ false = ground arith in
            let some_t : some (add_new_child (node s cs l m q) r p n) ≡ some t' =
              rw (a, b, root, f) at eq in
            let t : add_new_child (node s cs l m q) r p n ≡ t' = cc in rw (← t) (leaf r ne e)
      ]
  choose-longer s cs l m q d p n i (some none) r {t'} down ne e f h k eq =
      let t : add_new_child (node s cs l m q) r p n ≡ t' = ground arith in rw (← t) (leaf r ne e)
  choose-longer s cs l m q d p n i none r {t'} down ne e f h k eq =
      let t : add_new_child (node s cs l m q) r p n ≡ t' = ground arith in rw (← t) (leaf r ne e)

  choose-Insertion :
      (s : Bytes) (cs : Nodes P) (l m : ℕ) (q : Option P) (d : Bytes) (p : Option P) (n i : ℕ)
      → (o : Option (Option (Nodes P))) {t' : TrieNode P}
      → ((cs' : Nodes P) → o ≡ some (some cs') → Descent p n cs (drop i d) cs')
      → Split d s i
      → choose s cs l m q d p n i o ≡ some t'
      → Insertion p n (node s cs l m q) d t'
  unfolding choose
  choose-Insertion s cs l m q d p n i o {t'} down (same e h k) eq =
      let t : node s cs l m p ≡ t' = ground arith in rw (← t) (here e)
  choose-Insertion s cs l m q d p n i o {t'} down (data_longer r ne e f h k) eq =
      choose-longer s cs l m q d p n i o r down ne e f h k eq
  choose-Insertion s cs l m q d p n i o {t'} down (suffix_longer r ne e f h k) eq =
      let t : node d (cons (node r cs l m q) nil) l n p ≡ t' = ground arith in
      rw (← t) (above r ne e)
  choose-Insertion s cs l m q d p n i o {t'} down (fork b x y v w ne e f g g' g'' h k) eq =
      let t : add_new_child (node b (cons (node (y ∷ w) cs l m q) nil) l 0 none) (x ∷ v) p n ≡ t' =
        ground arith in
      rw (← t) (apart b x y v w ne e f)

module _ {ℓ} {P : Type ℓ} where
  step_child :
      (c : TrieNode P) (cs : Nodes P) (d : Bytes) (p : Option P) (n : ℕ) {cs' : Nodes P}
      → (o : Option Bool) (o1 : Option (TrieNode P)) (o2 : Option (Option (Nodes P)))
      → same_start (suffix c) d ≡ o
      → ((c' : TrieNode P) → o1 ≡ some c' → Insertion p n c d c')
      → ((rest : Nodes P) → o2 ≡ some (some rest) → Descent p n cs d rest)
      → (o >>= λ same.
          if same
          then o1 >>= (λ c'. some (some (cons c' cs)))
          else o2 >>= (λ f. some (Option.map (cons c) f)))
        ≡ some (some cs')
      → Descent p n (cons c cs) d cs'
  step_child c cs d p n none o1 o2 eq f g e = cc
  step_child c cs d p n (some true) none o2 eq f g e = cc
  step_child c cs d p n {cs'} (some true) (some c') o2 eq f g e =
      let t : cons c' cs ≡ cs' = cc in rw (← t) (first eq (f c' refl))
  step_child c cs d p n (some false) o1 none eq f g e = cc
  step_child c cs d p n (some false) o1 (some none) eq f g e = cc
  step_child c cs d p n {cs'} (some false) o1 (some (some rest)) eq f g e =
      let t : cons c rest ≡ cs' = cc in rw (← t) (later (g rest refl))

mutual
  unfolding add_path choose

  add_path-mutual {ℓ} :
      {P : Type ℓ} (t : TrieNode P) (d : Bytes) (p : Option P) (n : ℕ) {t' : TrieNode P}
      → add_path t d p n ≡ some t'
      → Insertion p n t d t'
  add_path-mutual (node s cs l m q) d p n e =
      choose-Insertion s cs l m q d p n (split_idx d s)
        (add_to_child cs (drop (split_idx d s) d) p n)
        (λ cs'. add_to_child-mutual cs (drop (split_idx d s) d) p n) (split_idx-Split d s) e

  add_to_child-mutual {ℓ} :
      {P : Type ℓ} (cs : Nodes P) (d : Bytes) (p : Option P) (n : ℕ) {cs' : Nodes P}
      → add_to_child cs d p n ≡ some (some cs')
      → Descent p n cs d cs'
  add_to_child-mutual nil d p n e = cc
  add_to_child-mutual (cons c cs) d p n e =
      step_child c cs d p n (same_start (suffix c) d) (add_path c d p n) (add_to_child cs d p n)
        refl (λ c'. add_path-mutual c d p n) (λ rest. add_to_child-mutual cs d p n) e

-- Every call of `addPath` that does not panic goes one of the five ways.
pub add_path-Insertion {ℓ} :
    {P : Type ℓ} (t : TrieNode P) (d : Bytes) (p : Option P) (n : ℕ) {t' : TrieNode P}
    → add_path t d p n ≡ some t'
    → Insertion p n t d t'
add_path-Insertion t d p n e = add_path-mutual t d p n e

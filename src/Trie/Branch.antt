-- ===== src/Trie/Branch.antt =====
-- What `Add` does with a path that is the common front of two others.
use x_pipeline.Prelude.{
  ℕ, suc, false, [], ◌∷◌, ◌++◌, Option, none, some, Bytes, length, length-append,
  take-length_append, drop-length_append, ◌==◌, ==_refl, ◌>>=◌, ◌≡◌, ◌≢◌, refl, ap, arith,
}
use x_pipeline.Trie.{
  Nodes, node, nil, cons, split_idx, add_new_child, match_path, new_trie, add, found,
}
use x_pipeline.Trie.Prefix.{strip_prefix_exact}

split_idx_fork : (b v w : Bytes) (x y : ℕ) → x ≢ y → split_idx (b ++ x ∷ v) (b ++ y ∷ w) ≡ length b
unfolding split_idx
split_idx_fork [] v w x y ne = let differ : (x == y) ≡ false = ground arith in rw differ
split_idx_fork (z ∷ b) v w x y ne = rw (==_refl z) (ap suc (split_idx_fork b v w x y ne))

split_idx_self : (b : Bytes) → split_idx b b ≡ length b
unfolding split_idx
split_idx_self [] = refl
split_idx_self (x ∷ b) = rw (==_refl x) (ap suc (split_idx_self b))

length_shorter : (b v : Bytes) (x : ℕ) → (length b == length (b ++ x ∷ v)) ≡ false
length_shorter b v x = ground (arith, length-append b (x ∷ v))

module _ {ℓ} {P : Type ℓ} where
  -- Adding a path that leaves a node's suffix in the middle.
  add_fork :
      (b : Bytes) (x y : ℕ) (v w : Bytes) (cs : Nodes P) (l m : ℕ) (p q : Option P)
      → x ≢ y
      → add (node (b ++ y ∷ w) cs l m p) (b ++ x ∷ v) q
        ≡ some (
            add_new_child
              (node b (cons (node (y ∷ w) cs l m p) nil) l 0 none)
              (x ∷ v)
              q
              (length (b ++ x ∷ v)))
  unfolding add
  add_fork b x y v w cs l m p q ne = rw (
    split_idx_fork b v w x y ne,
    length_shorter b w y,
    length_shorter b v x,
    take-length_append b (x ∷ v),
    drop-length_append b (x ∷ v),
    drop-length_append b (y ∷ w),
  )

  -- Adding the path of the node itself replaces its payload only.
  add_self :
      (b : Bytes) (cs : Nodes P) (l m : ℕ) (p q : Option P)
      → add (node b cs l m p) b q ≡ some (node b cs l m q)
  unfolding add
  add_self b cs l m p q = rw (split_idx_self b, ==_refl (length b))

  branch_unmatched :
      (b : Bytes) (cs : Nodes P) (l : ℕ) (q : Option P) → found (node b cs l 0 q) b ≡ none
  unfolding found match_path
  branch_unmatched b cs l q = rw (strip_prefix_exact b)

-- A path that is the common front of two paths of a new trie, which differ in the next byte, is not
-- found after it is added.
pub add_branch_lost {ℓ} :
    {P : Type ℓ} (b : Bytes) (x y : ℕ) (v w : Bytes) (p q r : Option P)
    → x ≢ y
    → (add (new_trie (b ++ y ∷ w) p) (b ++ x ∷ v) q >>= λ t. add t b r >>= λ t'. some (found t' b))
      ≡ some none
unfolding new_trie add_new_child
add_branch_lost b x y v w p q r ne =
    rw (add_fork b x y v w nil (length (b ++ y ∷ w)) (length (b ++ y ∷ w)) p q ne, add_self b)
      (rw (branch_unmatched b))

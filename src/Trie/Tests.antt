-- ===== src/Trie/Tests.antt =====
-- Runs of the trie.
use x_pipeline.Prelude.{
  ℕ, Bytes, codes, [], ◌∷◌, false, none, some, length, ◌≡◌, ◌≢◌, ◌<◌, refl, ap, ◌>>=◌, arith, inl,
  inr,
}
use x_pipeline.Trie.{
  TrieNode, node, nil, cons, new_trie, add, found, found_start, match_path, match_start,
}
use x_pipeline.Trie.Frame.{add-frame}
use x_pipeline.Trie.Found.{add-found, ends_at}
use x_pipeline.Trie.Branch.{add_branch_lost}
use x_pipeline.Trie.Sized.{IsSized}
use x_pipeline.Trie.Start.{PrefixMatch, match_start-PrefixMatch}

abbrev one : TrieNode ℕ
one = node (codes "abc") nil 3 3 (some 1)

abbrev two : TrieNode ℕ
two =
    node (codes "ab")
      (cons (node (codes "d") nil 3 3 (some 2)) (cons (node (codes "c") nil 3 3 (some 1)) nil)) 3 0
      none

one-eq-new_trie : one ≡ new_trie (codes "abc") (some 1)
unfolding new_trie
one-eq-new_trie = refl

add-two : add one (codes "abd") (some 2) ≡ some two
unfolding add
add-two = refl

one-IsSized : IsSized 0 one
one-IsSized = (inr refl, tt)

two-IsSized : IsSized 0 two
two-IsSized = (inl refl, ((λ e. cc), (inr refl, tt), ((λ e. cc), (inr refl, tt), tt)))

abbrev third : Bytes → ℕ
third (x ∷ y ∷ z ∷ rest) = z
third rest = 0

last_byte : codes "abd" ≢ codes "abc"
last_byte e = let f : third (codes "abd") ≡ third (codes "abc") = ap third e in omega (arith, f)

add-frame_example : found two (codes "abc") ≡ found one (codes "abc")
add-frame_example = add-frame one (codes "abd") (codes "abc") (some 2) add-two last_byte

free : ends_at one (codes "abd") ≡ false
unfolding ends_at
free = refl

add-found_example : found two (codes "abd") ≡ some (3, some 2)
add-found_example = add-found one (codes "abd") (some 2) add-two free (omega arith)

match-two : match_start two (codes "abdx") ≡ some (node (codes "d") nil 3 3 (some 2))
unfolding match_start
match-two = refl

match_start-PrefixMatch_example :
    (found : PrefixMatch (match_path two) (codes "abdx") (node (codes "d") nil 3 3 (some 2))) × (3
      ≡ length found.front)
    × (0 < 3)
match_start-PrefixMatch_example = match_start-PrefixMatch two (codes "abdx") two-IsSized match-two

match-none : match_start two (codes "abx") ≡ none
unfolding match_start
match-none = refl

add_branch_lost_example :
    (add {P = ℕ} (new_trie (codes "abc") (some 1)) (codes "abd") (some 2) >>= λ t.
    add t (codes "ab") (some 9) >>= λ t'. some (found t' (codes "ab")))
    ≡ some none
add_branch_lost_example =
    add_branch_lost (codes "ab") b'd' b'c' [] [] (some 1) (some 2) (some 9) (λ e. omega arith)

-- With an empty suffix at the root, a longer stored path can be hidden by a shorter one.
hidden :
    (add {P = ℕ} (new_trie (codes "ab") none) (codes "abc") (some 3) >>= λ t.
    add t (codes "abcde") (some 5) >>= λ t. add t (codes "x") (some 1) >>= λ t.
    add t (codes "abcd") (some 4) >>= λ t. found_start t (codes "abcde"))
    ≡ some (4, some 4)
unfolding new_trie add found_start
hidden = refl

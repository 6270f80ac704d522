-- ===== src/Trie/Prefix.antt =====
-- Prefixes of byte strings, as `Match` strips them and as `addPath` measures them.
use x_pipeline.Prelude.{
  ℕ, suc, ◌<◌, [], ◌∷◌, ◌++◌, none, some, Bytes, length, take, drop, ◌==◌, ◌>>=◌, strip_prefix,
  ==_refl, ==_iff, ◌≡◌, ◌≢◌, refl, ap, arith, append-nil, Option-cases, sym, ◌∙◌, Bool-cases, inl,
  inr,
}
use x_pipeline.Trie.{split_idx}

pub strip_prefix-append :
    (p s k : Bytes) → strip_prefix (p ++ s) k ≡ (strip_prefix p k >>= λ r. strip_prefix s r)
unfolding strip_prefix
strip_prefix-append [] s k = refl
strip_prefix-append (x ∷ p) s [] = refl
strip_prefix-append (x ∷ p) s (y ∷ k) = ground (arith, strip_prefix-append p s k)

pub strip_prefix_self : (p r : Bytes) → strip_prefix p (p ++ r) ≡ some r
unfolding strip_prefix
strip_prefix_self [] r = refl
strip_prefix_self (x ∷ p) r = rw (==_refl x) (strip_prefix_self p r)

pub strip_prefix-eq-some : (p k : Bytes) {r : Bytes} → strip_prefix p k ≡ some r → k ≡ p ++ r
unfolding strip_prefix
strip_prefix-eq-some [] k e = cc
strip_prefix-eq-some (x ∷ p) [] e = cc
strip_prefix-eq-some (x ∷ p) (y ∷ k) {r} e = ground (arith, strip_prefix-eq-some p k {r = r})

-- A longer key keeps the rest longer.
pub strip_prefix-longer :
    (p k more : Bytes) {r : Bytes}
    → strip_prefix p k ≡ some r
    → strip_prefix p (k ++ more) ≡ some (r ++ more)
unfolding strip_prefix
strip_prefix-longer [] k more e = ground arith
strip_prefix-longer (x ∷ p) [] more e = cc
strip_prefix-longer (x ∷ p) (y ∷ k) more {r} e =
    ground (arith, strip_prefix-longer p k more {r = r})

-- The two strings agree up to the split and differ there.
pub data Split : Bytes → Bytes → ℕ → Type 0 where
  same : {d s : Bytes} {i : ℕ} → d ≡ s → i ≡ length s → i ≡ length d → Split d s i
  data_longer :
      {d s : Bytes} {i : ℕ} (r : Bytes)
      → r ≢ []
      → d ≡ s ++ r
      → drop i d ≡ r
      → i ≡ length s
      → i < length d
      → Split d s i
  suffix_longer :
      {d s : Bytes} {i : ℕ} (r : Bytes)
      → r ≢ []
      → s ≡ d ++ r
      → drop i s ≡ r
      → i < length s
      → i ≡ length d
      → Split d s i
  fork :
      {d s : Bytes} {i : ℕ} (q : Bytes) (x y : ℕ) (v w : Bytes)
      → x ≢ y
      → d ≡ q ++ x ∷ v
      → s ≡ q ++ y ∷ w
      → take i d ≡ q
      → drop i d ≡ x ∷ v
      → drop i s ≡ y ∷ w
      → i < length s
      → i < length d
      → Split d s i

Split-cons : {d s : Bytes} {i : ℕ} (a : ℕ) → Split d s i → Split (a ∷ d) (a ∷ s) (suc i)
Split-cons a (same e h k) = same (ap (◌∷◌ a) e) (omega arith) (omega arith)
Split-cons a (data_longer r n e f h k) =
    data_longer r n (ap (◌∷◌ a) e) f (omega arith) (omega arith)
Split-cons a (suffix_longer r n e f h k) =
    suffix_longer r n (ap (◌∷◌ a) e) f (omega arith) (omega arith)
Split-cons a (fork q x y v w n e f t g g' h k) =
    fork (a ∷ q) x y v w n (ap (◌∷◌ a) e) (ap (◌∷◌ a) f) (ap (◌∷◌ a) t) g g' (omega arith)
      (omega arith)

pub split_idx-Split : (d s : Bytes) → Split d s (split_idx d s)
unfolding split_idx
split_idx-Split [] [] = same refl refl refl
split_idx-Split [] (y ∷ s) = suffix_longer (y ∷ s) (λ e. cc) refl refl (omega arith) refl
split_idx-Split (x ∷ d) [] = data_longer (x ∷ d) (λ e. cc) refl refl refl (omega arith)
split_idx-Split (x ∷ d) (y ∷ s) = elim (Bool-cases (x == y)) [
  | inl e ↦ rw e (rw (sym ((==_iff x y).0 e)) (Split-cons x (split_idx-Split d s)))
  | inr n ↦
      rw n
        (fork [] x y d s (λ e. ground arith) refl refl refl refl refl (omega arith) (omega arith))
]

-- Where a key stands to a suffix: outside it, at its end, or further on.
pub data Stripped : Bytes → Bytes → Type 0 where
  outside : {s k : Bytes} → strip_prefix s k ≡ none → Stripped s k
  exact : {s k : Bytes} → k ≡ s → strip_prefix s k ≡ some [] → Stripped s k
  inside :
      {s k : Bytes} (x : ℕ) (rest : Bytes)
      → k ≡ s ++ x ∷ rest
      → strip_prefix s k ≡ some (x ∷ rest)
      → Stripped s k

pub strip_prefix-Stripped : (s k : Bytes) → Stripped s k
strip_prefix-Stripped s k = elim (Option-cases (strip_prefix s k)) [
  | inl out ↦ outside out
  | inr ([], e) ↦ exact (strip_prefix-eq-some s k e ∙ append-nil s) e
  | inr (x ∷ rest, e) ↦ inside x rest (strip_prefix-eq-some s k e) e
]

pub strip_prefix_exact : (r : Bytes) → strip_prefix r r ≡ some []
strip_prefix_exact r = rw (append-nil r) at (strip_prefix_self r [])

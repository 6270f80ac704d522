-- ===== src/Formats/Splitting.antt =====
-- format/: what bytes.Index and bytes.Split return, against the text that they search.
use x_pipeline.Prelude.{
  ℕ, zero, suc, ◌+◌, List, [], ◌∷◌, ◌++◌, Option, none, some, ◌>>=◌, Bytes, strip_prefix, length,
  take, drop, drop-length_append, Option-cases, inl, inr, ◌≡◌, refl, sym, ap, ◌∙◌, arith,
}
use x_pipeline.Trie.Prefix.{strip_prefix-eq-some}
use x_pipeline.Reader.{index}
use x_pipeline.Formats.{split}

-- What `index` finds is there.
abbrev pub Located : Bytes → Bytes → Option ℕ → Type 0
Located s sep none = Unit
Located s sep (some i) = s ≡ take i s ++ (sep ++ drop (i + length sep) s)

at_front :
    (s sep : Bytes) (o : Option Bytes) (later : Option ℕ)
    → strip_prefix sep s ≡ o
    → Located s sep later
    → Located s sep (elim o [ none ↦ later | some r ↦ some 0 ])
at_front s sep none later e h = h
at_front s sep (some r) later e h =
    let whole : s ≡ sep ++ r = strip_prefix-eq-some sep s e in
    let rest : drop (0 + length sep) s ≡ r =
      ap (λ (k : ℕ). drop k s) (omega arith)
      ∙ ap (λ (t : Bytes). drop (length sep) t) whole
      ∙ drop-length_append sep r in
    whole ∙ ap (λ (t : Bytes). sep ++ t) (sym rest)

further :
    (x : ℕ) (xs sep : Bytes) (o : Option ℕ)
    → Located xs sep o
    → Located (x ∷ xs) sep (o >>= λ i. some (suc i))
further x xs sep none h = tt
further x xs sep (some i) h =
    ap (λ (t : Bytes). x ∷ t) h
    ∙ ap (λ (k : ℕ). x ∷ (take i xs ++ (sep ++ drop k (x ∷ xs)))) (next i (length sep))
  where
    next : (i n : ℕ) → suc (i + n) ≡ suc i + n
    next i n = omega arith

pub index-Located : (s sep : Bytes) → Located s sep (index s sep)
unfolding index
index-Located [] sep = at_front [] sep (strip_prefix sep []) none refl tt
index-Located (x ∷ xs) sep =
    at_front (x ∷ xs) sep (strip_prefix sep (x ∷ xs)) (index xs sep >>= λ i. some (suc i)) refl
      (further x xs sep (index xs sep) (index-Located xs sep))

-- There is always a first part.
pub split_cases :
    (fuel : ℕ) (s sep : Bytes)
    → (first : Bytes) × (others : List Bytes) × (split fuel s sep ≡ first ∷ others)
unfolding split
split_cases zero s sep = (s, [], refl)
split_cases (suc fuel) s sep = elim (Option-cases (index s sep)) [
  | inl e ↦ (s, [], rw (e, split) refl)
  | inr (i, e) ↦ (take i s, split fuel (drop (i + length sep) s) sep, rw (e, split) refl)
]

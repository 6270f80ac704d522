-- ===== src/Texts/Occurrences.antt =====
-- shared/utilities.go: IndexN against the places where a text occurs.
use x_pipeline.Prelude.{
  ℕ, zero, suc, ◌+◌, ◌-◌, false, List, [], ◌∷◌, Option, none, some, ◌>>=◌, Bytes, strip_prefix,
  drop, get_elem?, ◌==◌, if◌then◌else◌, if_false, ◌≡◌, refl, sym, ap, ◌∙◌, arith,
}
use std.Path.{subst}
use x_pipeline.Prelude.Pieces.{drop-drop}
use x_pipeline.Reader.{index}
use x_pipeline.Texts.{is_some, index_from, index_n}

-- All places, from the first to the last, where the separator starts; the text is behind `at` bytes.
abbrev pub occurrences : ℕ → Bytes → Bytes → List ℕ
occurrences at [] sep = []
occurrences at (x ∷ xs) sep =
    if is_some (strip_prefix sep (x ∷ xs))
    then at ∷ occurrences (suc at) xs sep
    else occurrences (suc at) xs sep

-- The places behind what `index` finds.
abbrev After : ℕ → Bytes → Bytes → Option ℕ → Type 0
After at s sep none = occurrences at s sep ≡ []
After at s sep (some i) =
    (occurrences at s sep ≡ (at + i) ∷ occurrences (at + (i + 1)) (drop (i + 1) s) sep)

module _ (c : ℕ) (cs : Bytes) where
  abbrev sep : Bytes
  sep = c ∷ cs

  next_place : (at i : ℕ) → (suc at + i ≡ at + suc i) × (suc at + (i + 1) ≡ at + (suc i + 1))
  next_place at i = (omega arith, omega arith)

  at_front :
      (at x : ℕ) (xs : Bytes) (p : Option Bytes) (o : Option ℕ)
      → strip_prefix sep (x ∷ xs) ≡ p
      → After (suc at) xs sep o
      → After at (x ∷ xs) sep (elim p [ none ↦ (o >>= λ i. some (suc i)) | some r ↦ some 0 ])
  at_front at x xs (some r) o e h =
      let here : at ≡ at + 0 = omega arith in
      let next : suc at ≡ at + (0 + 1) = omega arith in
      let cut : suc zero ≡ 0 + 1 = omega arith in
      ap
        (λ (q : Option Bytes).
          if is_some q then at ∷ occurrences (suc at) xs sep else occurrences (suc at) xs sep)
        e
      ∙ ap (λ (n : ℕ). n ∷ occurrences (suc at) xs sep) here
      ∙ ap (λ (n : ℕ). (at + 0) ∷ occurrences n xs sep) next
      ∙ ap (λ (k : ℕ). (at + 0) ∷ occurrences (at + (0 + 1)) (drop k (x ∷ xs)) sep) cut
  at_front at x xs none none e h =
      ap
        (λ (q : Option Bytes).
          if is_some q then at ∷ occurrences (suc at) xs sep else occurrences (suc at) xs sep)
        e
      ∙ h
  at_front at x xs none (some i) e h =
      let (first, second) = next_place at i in
      let cut : suc (i + 1) ≡ suc i + 1 = omega arith in
      ap
        (λ (q : Option Bytes).
          if is_some q then at ∷ occurrences (suc at) xs sep else occurrences (suc at) xs sep)
        e
      ∙ h
      ∙ ap (λ (n : ℕ). n ∷ occurrences (suc at + (i + 1)) (drop (i + 1) xs) sep) first
      ∙ ap (λ (n : ℕ). (at + suc i) ∷ occurrences n (drop (i + 1) xs) sep) second
      ∙ ap (λ (k : ℕ). (at + suc i) ∷ occurrences (at + (suc i + 1)) (drop k (x ∷ xs)) sep) cut

  index-After : (at : ℕ) (s : Bytes) → After at s sep (index s sep)
  unfolding index strip_prefix
  index-After at [] = refl
  index-After at (x ∷ xs) =
      at_front at x xs (strip_prefix sep (x ∷ xs)) (index xs sep) refl (index-After (suc at) xs)

  by_index :
      (o : Option ℕ) (at n : ℕ) (s : Bytes)
      → After at (drop at s) sep o
      → ((i m : ℕ)
          → n ≡ suc m
          → index_from (at + (i + 1)) s sep (suc m)
            ≡ get_elem? (occurrences (at + (i + 1)) (drop (at + (i + 1)) s) sep) m)
      → (o >>= λ i. index_from (at + (i + 1)) s sep n)
        ≡ get_elem? (occurrences at (drop at s) sep) n
  unfolding index_from
  by_index none at n s h later = sym (ap (λ (ps : List ℕ). get_elem? ps n) h)
  by_index (some i) at zero s h later =
      let positive : (at + (i + 1) == 0) ≡ false = ground arith in
      let before : at + (i + 1) - 1 ≡ at + i = omega arith in
      if_false (at + (i + 1) == 0) none (some (at + (i + 1) - 1)) positive
      ∙ ap (λ (k : ℕ). some k) before
      ∙ sym (ap (λ (ps : List ℕ). get_elem? ps 0) h)
  by_index (some i) at (suc m) s h later =
      later i m refl
      ∙ ap (λ (t : Bytes). get_elem? (occurrences (at + (i + 1)) t sep) m)
          (sym (drop-drop (i + 1) at s))
      ∙ sym (ap (λ (ps : List ℕ). get_elem? ps (suc m)) h)

  index_from-occurrences :
      (n at : ℕ) (s : Bytes)
      → index_from at s sep (suc n) ≡ get_elem? (occurrences at (drop at s) sep) n
  unfolding index_from
  index_from-occurrences zero at s =
      by_index (index (drop at s) sep) at zero s (index-After at (drop at s))
        (λ i m e. absurd (omega arith))
  index_from-occurrences (suc n) at s =
      by_index (index (drop at s) sep) at (suc n) s (index-After at (drop at s)) λ i m e.
        let same : n ≡ m = omega arith in
        subst
          (λ (k : ℕ).
            index_from (at + (i + 1)) s sep (suc k)
            ≡ get_elem? (occurrences (at + (i + 1)) (drop (at + (i + 1)) s) sep) k)
          same (index_from-occurrences n (at + (i + 1)) s)

  -- IndexN finds, for every n from 1, the n-th of the places where the separator, which is not empty,
  -- starts, counted from the front, and -1 if there are fewer.
  pub index_n-occurrences :
      (s : Bytes) (n : ℕ) → index_n s sep (suc n) ≡ get_elem? (occurrences 0 s sep) n
  unfolding index_n
  index_n-occurrences s n = index_from-occurrences n 0 s

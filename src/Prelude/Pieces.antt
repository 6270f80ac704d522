-- ===== src/Prelude/Pieces.antt =====
-- Pieces of a list between two offsets, as Go's `data[lo:hi]`.
use x_pipeline.Prelude.{
  ℕ, zero, suc, ◌+◌, ◌-◌, ◌≤◌, List, [], ◌∷◌, ◌++◌, length, take, drop, ◌≡◌, refl, ap, arith, ◌∙◌,
  sym,
}

module _ {ℓ} {A : Type ℓ} where
  drop-nil : (n : ℕ) → drop {A = A} n [] ≡ []
  drop-nil zero = refl
  drop-nil (suc n) = refl

  pub drop-drop : (m n : ℕ) (xs : List A) → drop m (drop n xs) ≡ drop (n + m) xs
  drop-drop m zero xs = ap (λ (k : ℕ). drop k xs) (omega arith)
  drop-drop m (suc n) [] = drop-nil m ∙ sym (drop-nil (suc n + m))
  drop-drop m (suc n) (x ∷ xs) = drop-drop m n xs ∙ ap (λ (k : ℕ). drop k (x ∷ xs)) (suc-add-eq n m)
    where
      suc-add-eq : (n m : ℕ) → suc (n + m) ≡ suc n + m
      suc-add-eq n m = omega arith

  take-nil : (n : ℕ) → take {A = A} n [] ≡ []
  take-nil zero = refl
  take-nil (suc n) = refl

  take-add : (m n : ℕ) (xs : List A) → take (m + n) xs ≡ take m xs ++ take n (drop m xs)
  take-add zero n xs = ap (λ (k : ℕ). take k xs) (omega arith)
  take-add (suc m) n [] = take-nil (suc m + n) ∙ sym (take-nil n)
  take-add (suc m) n (x ∷ xs) =
      ap (λ (k : ℕ). take k (x ∷ xs)) (suc-add-eq m n) ∙ ap (◌∷◌ x) (take-add m n xs)
    where
      suc-add-eq : (m n : ℕ) → suc m + n ≡ suc (m + n)
      suc-add-eq m n = omega arith

  pub take-append_le : (n : ℕ) (xs ys : List A) → n ≤ length xs → take n (xs ++ ys) ≡ take n xs
  take-append_le zero xs ys h = refl
  take-append_le (suc n) [] ys h = absurd (omega arith)
  take-append_le (suc n) (x ∷ xs) ys h = ap (◌∷◌ x) (take-append_le n xs ys (omega arith))

  pub drop-append_le :
      (n : ℕ) (xs ys : List A) → n ≤ length xs → drop n (xs ++ ys) ≡ drop n xs ++ ys
  drop-append_le zero xs ys h = refl
  drop-append_le (suc n) [] ys h = absurd (omega arith)
  drop-append_le (suc n) (x ∷ xs) ys h = drop-append_le n xs ys (omega arith)

  abbrev pub piece : ℕ → ℕ → List A → List A
  piece lo hi xs = take (hi - lo) (drop lo xs)

  -- A piece is two pieces that meet.
  pub piece-split :
      (lo mid hi : ℕ) (xs : List A)
      → lo ≤ mid
      → mid ≤ hi
      → piece lo hi xs ≡ piece lo mid xs ++ piece mid hi xs
  piece-split lo mid hi xs h k =
      let sum : hi - lo ≡ (mid - lo) + (hi - mid) = omega arith in
      let at : lo + (mid - lo) ≡ mid = omega arith in
      rw sum (
        take-add (mid - lo) (hi - mid) (drop lo xs)
        ∙ ap (λ (ys : List A). piece lo mid xs ++ take (hi - mid) ys)
            (drop-drop (mid - lo) lo xs ∙ ap (λ (k : ℕ). drop k xs) at))

  pub drop-take : (m n : ℕ) (xs : List A) → m ≤ n → drop m (take n xs) ≡ piece m n xs
  drop-take zero n xs h = ap (λ (k : ℕ). take k xs) (omega arith)
  drop-take (suc m) zero xs h = absurd (omega arith)
  drop-take (suc m) (suc n) [] h = sym (take-nil (suc n - suc m))
  drop-take (suc m) (suc n) (x ∷ xs) h =
      drop-take m n xs (omega arith) ∙ ap (λ (k : ℕ). take k (drop m xs)) (omega arith)

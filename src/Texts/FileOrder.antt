-- ===== src/Texts/FileOrder.antt =====
-- shared/utilities.go: the order of files by date is a strict total order on dates and names, as
-- sort.Sort asks of it.
use x_pipeline.Prelude.{true, false, [], ◌∷◌, Bytes, ◌≡◌, refl, arith, inl, inr, ◌⊎◌}
use x_pipeline.Texts.{FileInfo, text_less, less}

text_less_trans :
    (xs ys zs : Bytes) → text_less xs ys ≡ true → text_less ys zs ≡ true → text_less xs zs ≡ true
unfolding text_less
text_less_trans [] [] zs h k = cc
text_less_trans [] (y ∷ ys) [] h k = cc
text_less_trans [] (y ∷ ys) (z ∷ zs) h k = refl
text_less_trans (x ∷ xs) [] zs h k = cc
text_less_trans (x ∷ xs) (y ∷ ys) [] h k = cc
text_less_trans (x ∷ xs) (y ∷ ys) (z ∷ zs) h k = ground (arith, text_less_trans xs ys zs)

text_less_irrefl : (xs : Bytes) → text_less xs xs ≡ false
unfolding text_less
text_less_irrefl [] = refl
text_less_irrefl (x ∷ xs) = ground (arith, text_less_irrefl xs)

text_less_total :
    (xs ys : Bytes) → (text_less xs ys ≡ true) ⊎ ((text_less ys xs ≡ true) ⊎ (xs ≡ ys))
unfolding text_less
text_less_total [] [] = inr (inr refl)
text_less_total [] (y ∷ ys) = inl refl
text_less_total (x ∷ xs) [] = inr (inl refl)
text_less_total (x ∷ xs) (y ∷ ys) = ground (arith, text_less_total xs ys)

less_trans : (a b c : FileInfo) → less a b ≡ true → less b c ≡ true → less a c ≡ true
unfolding less
less_trans a b c h k = ground (arith, text_less_trans a.name b.name c.name)

less_irrefl : (a : FileInfo) → less a a ≡ false
unfolding less
less_irrefl a = ground (arith, text_less_irrefl a.name)

-- `Less` is transitive, no file is before itself, and of two files one is before the other, or their
-- times and names are the same.
pub less_strict_order :
    (a b c : FileInfo)
    → (less a b ≡ true → less b c ≡ true → less a c ≡ true)
      × (less a a ≡ false)
      × ((less a b ≡ true) ⊎ ((less b a ≡ true) ⊎ ((a.mod_time ≡ b.mod_time) × (a.name ≡ b.name))))
unfolding less
less_strict_order a b c =
    (less_trans a b c, less_irrefl a, ground (arith, text_less_total a.name b.name))

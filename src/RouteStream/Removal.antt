-- ===== src/RouteStream/Removal.antt =====
-- stream/route.go: a route is removed, and the last one takes its place.
use x_pipeline.Prelude.{
  ℕ, zero, suc, ◌+◌, ◌-◌, Bool, true, false, List, [], ◌∷◌, ◌++◌, some, length, length-append, take,
  set, get_elem?, if◌then◌else◌, ◌≡◌, refl, sym, ap, ◌∙◌, arith,
}
use mathlib.Core.List.Perm
use mathlib.Core.List.{Perm, perm_append_singleton, append-nil}
use std.Path.{subst}
use x_pipeline.RouteStream.{StreamWithId, swap_remove}

suc_add : (m n : ℕ) → suc m + n ≡ suc (m + n)
suc_add m n = omega arith

module _ {A : Type 0} where
  abbrev pub last_of : A → List A → A
  last_of x [] = x
  last_of x (y ∷ ys) = last_of y ys

  abbrev pub init_of : A → List A → List A
  init_of x [] = []
  init_of x (y ∷ ys) = x ∷ init_of y ys

  -- The last one first.
  abbrev pub rotated : List A → List A
  rotated [] = []
  rotated (x ∷ xs) = last_of x xs ∷ init_of x xs

  init_of-last : (x : A) (xs : List A) → init_of x xs ++ last_of x xs ∷ [] ≡ x ∷ xs
  init_of-last x [] = refl
  init_of-last x (y ∷ ys) = ap (λ (zs : List A). x ∷ zs) (init_of-last y ys)

  get-last :
      (front : List A) (x : A) (xs : List A)
      → get_elem? (front ++ x ∷ xs) (length front + length xs) ≡ some (last_of x xs)
  get-last [] x [] = ap (λ (k : ℕ). get_elem? (x ∷ []) k) zero_sum
    where
      zero_sum : 0 + 0 ≡ zero
      zero_sum = omega arith
  get-last [] x (y ∷ ys) =
      let step : 0 + suc (length ys) ≡ suc (0 + length ys) = omega arith in
      ap (λ (k : ℕ). get_elem? (x ∷ y ∷ ys) k) step ∙ get-last [] y ys
  get-last (a ∷ front) x xs =
      ap (λ (k : ℕ). get_elem? (a ∷ (front ++ x ∷ xs)) k) (suc_add (length front) (length xs))
      ∙ get-last front x xs

  set-at :
      (front : List A) (x : A) (xs : List A) (v : A)
      → set (front ++ x ∷ xs) (length front) v ≡ front ++ v ∷ xs
  set-at [] x xs v = refl
  set-at (a ∷ front) x xs v = ap (λ (zs : List A). a ∷ zs) (set-at front x xs v)

  take-init : (x : A) (xs : List A) → take (length xs) (x ∷ xs) ≡ init_of x xs
  take-init x [] = refl
  take-init x (y ∷ ys) = ap (λ (zs : List A). x ∷ zs) (take-init y ys)

  take-front :
      (front : List A) (x : A) (xs : List A)
      → take (length front + length xs) (front ++ x ∷ xs) ≡ front ++ init_of x xs
  take-front [] x xs =
      let sum : 0 + length xs ≡ length xs = omega arith in
      ap (λ (k : ℕ). take k (x ∷ xs)) sum ∙ take-init x xs
  take-front (a ∷ front) x xs =
      ap (λ (k : ℕ). take k (a ∷ (front ++ x ∷ xs))) (suc_add (length front) (length xs))
      ∙ ap (λ (zs : List A). a ∷ zs) (take-front front x xs)

  -- The entries that a test keeps.
  abbrev pub kept_by : (A → Bool) → List A → List A
  kept_by f [] = []
  kept_by f (x ∷ xs) = if f x then x ∷ kept_by f xs else kept_by f xs

  if_append :
      (b : Bool) (x : A) (xs ys : List A)
      → (if b then x ∷ (xs ++ ys) else xs ++ ys) ≡ (if b then x ∷ xs else xs) ++ ys
  if_append true x xs ys = refl
  if_append false x xs ys = refl

  kept_by-append :
      (f : A → Bool) (xs ys : List A) → kept_by f (xs ++ ys) ≡ kept_by f xs ++ kept_by f ys
  kept_by-append f [] ys = refl
  kept_by-append f (x ∷ xs) ys =
      ap (λ (zs : List A). if f x then x ∷ zs else zs) (kept_by-append f xs ys)
      ∙ if_append (f x) x (kept_by f xs) (kept_by f ys)

  one_more :
      (b : Bool) (x : A) (xs : List A)
      → Perm (if b then x ∷ xs else xs) (xs ++ (if b then x ∷ [] else []))
  one_more true x xs = Perm.symm (perm_append_singleton x xs)
  one_more false x xs = subst (λ (ys : List A). Perm xs ys) (sym (append-nil xs)) (Perm.refl xs)

  -- What is kept of the entries, with the last one first, is what is kept of them, in another order.
  pub kept_by-rotated : (f : A → Bool) (xs : List A) → Perm (kept_by f (rotated xs)) (kept_by f xs)
  kept_by-rotated f [] = Perm.refl []
  kept_by-rotated f (x ∷ xs) =
      subst (λ (ys : List A). Perm (kept_by f (rotated (x ∷ xs))) ys)
        (sym (kept_by-append f (init_of x xs) (last_of x xs ∷ []))
          ∙ ap (kept_by f) (init_of-last x xs))
        (one_more (f (last_of x xs)) (last_of x xs) (kept_by f (init_of x xs)))

  pub length-rotated : (xs : List A) → length (rotated xs) ≡ length xs
  length-rotated [] = refl
  length-rotated (x ∷ xs) = ap suc (length-init x xs)
    where
      length-init : (x : A) (xs : List A) → length (init_of x xs) ≡ length xs
      length-init x [] = refl
      length-init x (y ∷ ys) = ap suc (length-init y ys)

init_of-rotated : {A : Type 0} (t : A) (ts : List A) → init_of (last_of t ts) ts ≡ rotated ts
init_of-rotated t [] = refl
init_of-rotated t (u ∷ us) = refl

pub swap_remove-rotated :
    (front : List StreamWithId) (t : StreamWithId) (ts : List StreamWithId)
    → swap_remove (front ++ t ∷ ts) (length front) ≡ front ++ rotated ts
unfolding swap_remove
swap_remove-rotated front t ts =
    let total : length (front ++ t ∷ ts) - 1 ≡ length front + length ts =
      omega (arith, length-append front (t ∷ ts)) in
    let last : get_elem? (front ++ t ∷ ts) (length (front ++ t ∷ ts) - 1) ≡ some (last_of t ts) =
      ap (λ (k : ℕ). get_elem? (front ++ t ∷ ts) k) total ∙ get-last front t ts in
    rw (last, swap_remove)
      (ap (λ (k : ℕ). take k (set (front ++ t ∷ ts) (length front) (last_of t ts))) total
        ∙ ap (λ (zs : List StreamWithId). take (length front + length ts) zs)
            (set-at front t ts (last_of t ts))
        ∙ take-front front (last_of t ts) ts
        ∙ ap (λ (zs : List StreamWithId). front ++ zs) (init_of-rotated t ts))

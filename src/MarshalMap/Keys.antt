-- ===== src/MarshalMap/Keys.antt =====
-- shared/marshalmap.go: where a key or an index ends in a path.
use x_pipeline.Prelude.{
  ℕ, suc, ◌+◌, ◌-◌, ◌<◌, false, [], ◌∷◌, ◌++◌, Option, none, some, ◌>>=◌, Bytes, length,
  length-append, take, drop, take-length_append, ltb, ◌==◌, if_true, if_false, ◌≡◌, refl, ap, ◌∙◌,
  arith, append-nil, drop_behind,
}
use x_pipeline.MarshalMap.{position, resolve_path_key, slash_ends, bracket_ends, array_key, between}

abbrev pub Avoids : ℕ → Bytes → Type 0
Avoids c [] = Unit
Avoids c (x ∷ xs) = ((x == c) ≡ false) × Avoids c xs

pub position-append :
    (c : ℕ) (xs ys : Bytes)
    → Avoids c xs
    → position c (xs ++ ys) ≡ (position c ys >>= λ i. some (length xs + i))
unfolding position
position-append c [] ys h = from_zero (position c ys)
  where
    from_zero : (o : Option ℕ) → o ≡ (o >>= λ i. some (0 + i))
    from_zero none = refl
    from_zero (some i) = ap some (omega arith)
position-append c (x ∷ xs) ys (h, hs) =
    if_false (x == c) (some 0) (position c (xs ++ ys) >>= λ i. some (suc i)) h
    ∙ ap (λ (o : Option ℕ). o >>= λ i. some (suc i)) (position-append c xs ys hs)
    ∙ shift (position c ys)
  where
    shift :
        (o : Option ℕ)
        → ((o >>= λ i. some (length xs + i)) >>= λ i. some (suc i))
          ≡ (o >>= λ i. some (suc (length xs) + i))
    shift none = refl
    shift (some i) = ap some (omega arith)

pair_eq : (a b c d : ℕ) → a ≡ c → b ≡ d → ◌≡◌ {A = ℕ × ℕ} (a, b) (c, d)
pair_eq a b c d e e' = ap (λ (x : ℕ). (x, b)) e ∙ ap (λ (y : ℕ). (c, y)) e'

-- The ends of a key that is the whole path, or has a slash or a bracket behind it.
ends_of :
    (name tail : Bytes)
    → Avoids b'/' name
    → Avoids b'[' name
    → resolve_path_key (name ++ tail)
      ≡ bracket_ends
          (slash_ends (length (name ++ tail)) (position b'/' tail >>= λ i. some (length name + i)))
          (position b'[' tail >>= λ i. some (length name + i))
unfolding resolve_path_key
ends_of name tail h k =
    ap
      (λ (o : Option ℕ).
        bracket_ends (slash_ends (length (name ++ tail)) o) (position b'[' (name ++ tail)))
      (position-append b'/' name tail h)
    ∙ ap (bracket_ends _) (position-append b'[' name tail k)

pub ends-last :
    (name : Bytes)
    → Avoids b'/' name
    → Avoids b'[' name
    → resolve_path_key (name ++ []) ≡ (length name, length name)
unfolding position
ends-last name h k =
    ends_of name [] h k ∙ ap (λ (n : ℕ). (n, n)) (ap (λ (xs : Bytes). length xs) (append-nil name))

pub ends-slash :
    (name rest : Bytes)
    → Avoids b'/' name
    → Avoids b'[' name
    → resolve_path_key (name ++ b'/' ∷ rest) ≡ (length name, suc (length name))
unfolding position
ends-slash name rest h k = ends_of name (b'/' ∷ rest) h k ∙ behind (position b'[' rest)
  where
    behind :
        (o : Option ℕ)
        → bracket_ends
            (length name + 0, length name + 0 + 1)
            ((o >>= λ i. some (suc i)) >>= λ i. some (length name + i))
          ≡ (length name, suc (length name))
    behind none = pair_eq _ _ _ _ (omega arith) (omega arith)
    behind (some i) =
        if_false (ltb (length name + suc i) (length name + 0)) _ _ (ground arith)
        ∙ pair_eq _ _ _ _ (omega arith) (omega arith)

pub ends-bracket :
    (name rest : Bytes)
    → Avoids b'/' name
    → Avoids b'[' name
    → resolve_path_key (name ++ b'[' ∷ rest) ≡ (length name, length name)
unfolding position
ends-bracket name rest h k = ends_of name (b'[' ∷ rest) h k ∙ before (position b'/' rest)
  where
    before :
        (o : Option ℕ)
        → bracket_ends
            (slash_ends
              (length (name ++ b'[' ∷ rest))
              ((o >>= λ i. some (suc i)) >>= λ i. some (length name + i)))
            (some (length name + 0))
          ≡ (length name, length name)
    before none =
        if_true (ltb (length name + 0) (length (name ++ b'[' ∷ rest))) _ _
          (ground (arith, length-append name (b'[' ∷ rest)))
        ∙ pair_eq _ _ _ _ (omega arith) (omega arith)
    before (some i) =
        if_true (ltb (length name + 0) (length name + suc i)) _ _ (ground arith)
        ∙ pair_eq _ _ _ _ (omega arith) (omega arith)

pub array_key-written :
    (digits rest : Bytes)
    → 0 < length digits
    → Avoids b']' digits
    → array_key (b'[' ∷ (digits ++ b']' ∷ rest)) ≡ some (digits, rest)
unfolding array_key position
array_key-written digits rest some_digit h =
    let behind = digits ++ b']' ∷ rest in
    ap (λ o. between (b'[' ∷ behind) (some 0) (o >>= λ i. some (suc i)))
      (position-append b']' digits (b']' ∷ rest) h)
    ∙ if_true (ltb 1 (suc (length digits + 0))) _ _ (ground arith)
    ∙ parts (length digits + 0) (omega arith)
  where
    parts :
        (n : ℕ)
        → n ≡ length digits
        → ◌≡◌ {A = Option (Bytes × Bytes)}
            (some (
              take (suc n - 1) (digits ++ b']' ∷ rest),
              drop (suc n + 1) (b'[' ∷ (digits ++ b']' ∷ rest)),
            ))
            (some (digits, rest))
    parts n e =
        let taken : take (suc n - 1) (digits ++ b']' ∷ rest) ≡ digits =
          ap (λ (k : ℕ). take k (digits ++ b']' ∷ rest)) (omega (arith, e))
          ∙ take-length_append digits (b']' ∷ rest) in
        let count : suc n + 1 ≡ suc (suc (length digits)) = omega (arith, e) in
        let dropped : drop (suc n + 1) (b'[' ∷ (digits ++ b']' ∷ rest)) ≡ rest =
          ap (λ (k : ℕ). drop k (b'[' ∷ (digits ++ b']' ∷ rest))) count
          ∙ drop_behind digits b']' rest in
        ap (λ (xs : Bytes). some (xs, drop (suc n + 1) (b'[' ∷ (digits ++ b']' ∷ rest)))) taken
        ∙ ap (λ (ys : Bytes). some (digits, ys)) dropped

-- ===== src/Parser/Names.antt =====
-- The table of state names: `GetStateID` and `GetStateName`.
use x_pipeline.Prelude.{
  ℕ, suc, ◌%◌, ◌<◌, List, [], ◌∷◌, ◌++◌, none, some, Bytes, length, get_elem?, equal, equal_refl,
  equal→eq, ◌≡◌, ◌≢◌, inl, inr, refl, ap, arith, Bool-cases, Option-cases,
}
use x_pipeline.Parser.{TransitionParser, index_of, get_state_id, get_state_name, state_stop}

index_of-get_elem? :
    (name : Bytes) (xs : List Bytes) {i : ℕ}
    → index_of name xs ≡ some i
    → (get_elem? xs i ≡ some name) × (i < length xs)
unfolding index_of
index_of-get_elem? name [] e = cc
index_of-get_elem? name (x ∷ xs) {i} e = elim (Bool-cases (equal x name)) [
  | inl same ↦
      let at : 0 ≡ i = ground arith in rw (← at) (ap some (equal→eq x name same), omega arith)
  | inr other ↦ elim (Option-cases (index_of name xs)) [
    | inl absent ↦ absurd (ground arith)
    | inr (j, f) ↦
        let at : suc j ≡ i = ground arith in
        let (found, below) = index_of-get_elem? name xs f in rw (← at) (found, omega arith)
  ]
]

index_of-append :
    (name : Bytes) (xs : List Bytes)
    → index_of name xs ≡ none
    → (index_of name (xs ++ name ∷ []) ≡ some (length xs))
      × (get_elem? (xs ++ name ∷ []) (length xs) ≡ some name)
unfolding index_of
index_of-append name [] e = (rw (equal_refl name), refl)
index_of-append name (x ∷ xs) e = elim (Bool-cases (equal x name)) [
  | inl same ↦ absurd (ground arith)
  | inr other ↦ elim (Option-cases (index_of name xs)) [
    | inl absent ↦ let (at, found) = index_of-append name xs absent in (rw (other, at), found)
    | inr (j, f) ↦ absurd (ground arith)
  ]
]

module _ {C : Type 0} where
  get_state_name-some :
      (p : TransitionParser C) (id : ℕ) {name : Bytes}
      → get_elem? p.lookup id ≡ some name
      → get_state_name p id ≡ name
  unfolding get_state_name
  get_state_name-some p id e = rw (e, get_state_name)

  -- The id that `GetStateID` gives a name that is not empty leads back to the name, and the next
  -- call gives the same id and changes nothing, while there are fewer than 2 ^ 32 - 1 states.
  pub get_state_id-name :
      (p : TransitionParser C) (name : Bytes)
      → name ≢ []
      → length p.lookup < state_stop
      → let (p', id) = get_state_id p name in
        (get_state_name p' id ≡ name) × (get_state_id p' name ≡ (p', id)) × (id ≢ state_stop)
  unfolding get_state_id
  get_state_id-name p [] ne h = absurd (ne refl)
  get_state_id-name p (x ∷ name) ne h = elim (Option-cases (index_of (x ∷ name) p.lookup)) [
    | inl absent ↦
        let (at, found) = index_of-append (x ∷ name) p.lookup absent in
        let small : length p.lookup % 0x100000000 ≡ length p.lookup = omega arith in
        rw absent (get_state_name-some _ _ (rw small found), rw (at, small) refl, λ f. omega arith)
    | inr (i, e) ↦
        let (found, below) = index_of-get_elem? (x ∷ name) p.lookup e in
        let small : i % 0x100000000 ≡ i = omega arith in
        rw e (get_state_name-some _ _ (rw small found), rw e refl, λ f. omega arith)
  ]

-- ===== src/MarshalMap/Paths.antt =====
-- shared/marshalmap.go: a path as it is written, against the keys and indexes that it names.
use x_pipeline.Prelude.{
  ℕ, zero, suc, ◌<◌, Bool, true, false, List, [], ◌∷◌, ◌++◌, Option, none, some, ◌>>=◌, >>=-eq-some,
  Bytes, equal, length, length-append, take, drop, take-length_append, drop-length_append, ◌==◌,
  if◌then◌else◌, if_false, ◌≡◌, refl, ap, ◌∙◌, arith, drop_behind,
}
use x_pipeline.MarshalMap.{
  Value, null, boolean, number, text, array, object, Items, no_items, item, Fields, no_fields,
  field, Number, below_zero, at, Resolved, found, panics, lookup, get_item, resolve_path_key,
  array_key, at_index, at_bracket, resolve_path, resolve_item, resolve_field,
}
use x_pipeline.MarshalMap.Keys.{Avoids, ends-last, ends-slash, ends-bracket, array_key-written}

-- A step into a map, or into an array with its index as it is written.
pub data PathStep : Type 0 where
  to_field : Bytes → PathStep
  to_item : Bytes → ℕ → PathStep

-- The value at the end of some steps.
unfoldable pub follow : List PathStep → Value → Option Value
unfolding lookup get_item
follow [] v = some v
follow (to_field name ∷ steps) (object entries) = lookup entries name >>= λ v. follow steps v
follow (to_item digits i ∷ steps) (array items) = get_item items i >>= λ v. follow steps v
follow (s ∷ steps) v = none

-- Between the keys of two maps stands a slash.
abbrev pub separator : List PathStep → Bytes
separator (to_field name ∷ steps) = b'/' ∷ []
separator steps = []

unfoldable pub written : List PathStep → Bytes
written [] = []
written (to_field name ∷ steps) = name ++ (separator steps ++ written steps)
written (to_item digits i ∷ steps) = b'[' ∷ (digits ++ b']' ∷ written steps)

module _ (atoi : Bytes → Option Number) where
  -- Keys are not empty and have no slash and no bracket; an index is what Atoi reads in it.
  abbrev pub Writable : List PathStep → Type 0
  Writable [] = Unit
  Writable (to_field name ∷ steps) =
      (0 < length name) × Avoids b'/' name × Avoids b'[' name × Writable steps
  Writable (to_item digits i ∷ steps) =
      (0 < length digits) × Avoids b']' digits × (atoi digits ≡ some (at i)) × Writable steps

  resolve_item-get :
      (i : ℕ) (key : Bytes) (items : Items) (v : Value)
      → get_item items i ≡ some v
      → resolve_item atoi i key items ≡ resolve_path atoi key v
  unfolding resolve_item get_item
  resolve_item-get i key no_items v e = cc
  resolve_item-get zero key (item w rest) v e =
      let same : w ≡ v = cc in ap (resolve_path atoi key) same
  resolve_item-get (suc i) key (item w rest) v e = resolve_item-get i key rest v e

  field-cases :
      (b : Bool) (w v : Value) (o : Option Value) (key : Bytes) (r : Resolved)
      → (if b then some w else o) ≡ some v
      → (o ≡ some v → r ≡ resolve_path atoi key v)
      → (if b then resolve_path atoi key w else r) ≡ resolve_path atoi key v
  field-cases true w v o key r e h = let same : w ≡ v = cc in ap (resolve_path atoi key) same
  field-cases false w v o key r e h = h e

  resolve_field-lookup :
      (name key : Bytes) (entries : Fields) (v : Value)
      → lookup entries name ≡ some v
      → resolve_field atoi name key entries ≡ resolve_path atoi key v
  unfolding resolve_field lookup
  resolve_field-lookup name key no_fields v e = cc
  resolve_field-lookup name key (field other w rest) v e =
      field-cases (equal other name) w v (lookup rest name) key (resolve_field atoi name key rest) e
        (resolve_field-lookup name key rest v)

  resolve_path-nil : (v : Value) → resolve_path atoi [] v ≡ found v
  unfolding resolve_path
  resolve_path-nil null = refl
  resolve_path-nil (boolean b) = refl
  resolve_path-nil (number n) = refl
  resolve_path-nil (text s) = refl
  resolve_path-nil (array items) = refl
  resolve_path-nil (object entries) = refl

  -- A path that starts with a key: the key, and the path behind it.
  key_parts :
      (name : Bytes) (steps : List PathStep)
      → Avoids b'/' name
      → Avoids b'[' name
      → let key = name ++ (separator steps ++ written steps) in
        (take (resolve_path_key key).0 key ≡ name)
        × (drop (resolve_path_key key).1 key ≡ written steps)
  unfolding written
  key_parts name [] h k =
      let e = ends-last name h k in
      (
        ap (λ n. take n.0 (name ++ [])) e ∙ take-length_append name [],
        ap (λ n. drop n.1 (name ++ [])) e ∙ drop-length_append name [],
      )
  key_parts name (to_field other ∷ steps) h k =
      let rest = written (to_field other ∷ steps) in
      let e = ends-slash name rest h k in
      (
        ap (λ n. take n.0 (name ++ b'/' ∷ rest)) e ∙ take-length_append name (b'/' ∷ rest),
        ap (λ n. drop n.1 (name ++ b'/' ∷ rest)) e ∙ drop_behind name b'/' rest,
      )
  key_parts name (to_item digits i ∷ steps) h k =
      let rest = digits ++ b']' ∷ written steps in
      let e = ends-bracket name rest h k in
      (
        ap (λ n. take n.0 (name ++ b'[' ∷ rest)) e ∙ take-length_append name (b'[' ∷ rest),
        ap (λ n. drop n.1 (name ++ b'[' ∷ rest)) e ∙ drop-length_append name (b'[' ∷ rest),
      )

  object_step :
      (key : Bytes) (entries : Fields)
      → 0 < length key
      → resolve_path atoi key (object entries)
        ≡ resolve_field atoi
            (take (resolve_path_key key).0 key)
            (drop (resolve_path_key key).1 key)
            entries
  unfolding resolve_path
  object_step key entries h = if_false (length key == 0) _ _ (ground arith)

  array_step :
      (key name rest : Bytes) (n : Number) (items : Items)
      → 0 < length key
      → array_key key ≡ some (name, rest)
      → atoi name ≡ some n
      → resolve_path atoi key (array items)
        ≡ at_index (some n) rest (λ i rest. resolve_item atoi i rest items)
  unfolding resolve_path
  array_step key name rest n items h e e' =
      if_false (length key == 0) _ _ (ground arith)
      ∙ ap (λ o. at_bracket atoi o (λ i rest. resolve_item atoi i rest items)) e
      ∙ ap (λ o. at_index o rest (λ i rest. resolve_item atoi i rest items)) e'

  -- A path that is written from steps finds the value at their end, if there is one. The keys are not
  -- empty and have no slash and no opening bracket; the indexes are not empty, have no closing bracket,
  -- and are what Atoi reads.
  pub resolve_path-follow :
      (steps : List PathStep) (v w : Value)
      → Writable steps
      → follow steps v ≡ some w
      → resolve_path atoi (written steps) v ≡ found w
  unfolding follow written
  resolve_path-follow [] v w h e = let same : v ≡ w = cc in resolve_path-nil v ∙ ap found same
  resolve_path-follow (to_field name ∷ steps) (object entries) w (long, slash, bracket, h) e =
      let key = name ++ (separator steps ++ written steps) in
      let (v, at_name, later) = >>=-eq-some (lookup entries name) (follow steps) e in
      let (first, behind) = key_parts name steps slash bracket in
      object_step key entries
        (omega (arith, long, length-append name (separator steps ++ written steps)))
      ∙ ap (λ k. resolve_field atoi k (drop (resolve_path_key key).1 key) entries) first
      ∙ ap (λ k. resolve_field atoi name k entries) behind
      ∙ resolve_field-lookup name (written steps) entries v at_name
      ∙ resolve_path-follow steps v w h later
  resolve_path-follow (to_item digits i ∷ steps) (array items) w (long, close, read, h) e =
      let (v, at_i, later) = >>=-eq-some (get_item items i) (follow steps) e in
      array_step (written (to_item digits i ∷ steps)) digits (written steps) (at i) items
        (omega arith) (array_key-written digits (written steps) long close) read
      ∙ resolve_item-get i (written steps) items v at_i
      ∙ resolve_path-follow steps v w h later
  resolve_path-follow (s ∷ steps) v w h e = cc

  -- An index that Atoi reads as below zero, in brackets, into an array, is a panic, whatever stands
  -- behind it.
  pub resolve_path_negative :
      (digits rest : Bytes) (n : ℕ) (items : Items)
      → 0 < length digits
      → Avoids b']' digits
      → atoi digits ≡ some (below_zero n)
      → resolve_path atoi (b'[' ∷ (digits ++ b']' ∷ rest)) (array items) ≡ panics
  resolve_path_negative digits rest n items long close read =
      array_step (b'[' ∷ (digits ++ b']' ∷ rest)) digits rest (below_zero n) items (omega arith)
        (array_key-written digits rest long close) read

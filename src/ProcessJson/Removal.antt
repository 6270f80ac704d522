-- ===== src/ProcessJson/Removal.antt =====
-- format/processjson.go: what `remove` leaves of an array.
use x_pipeline.Prelude.{
  ℕ, zero, suc, ◌+◌, ◌≤◌, Bool, true, false, List, [], ◌∷◌, ◌++◌, ◌>>=◌, Option, none, some, Bytes,
  equal, length, length-set, take, drop, set, get_elem?, get_elem?-lt, ◌==◌, if◌then◌else◌,
  if_false, ◌≡◌, refl, sym, ap, ◌∙◌, arith, append_assoc, append-nil, drop-get, take-get, take-set,
  drop-set, drop_all,
}
use x_pipeline.MarshalMap.{Value, array, Items, Fields, no_fields, field, Number, lookup, get_array}
use x_pipeline.ProcessJson.{
  is_listed, compact, remove_listed, rename, remove, items_of, set_field, delete_field,
  run_directive, of_list, to_list, process_directive, TransformDirective,
}

-- The values that are not dropped, in their order.
abbrev pub kept_of : (Value → Bool) → List Value → List Value
kept_of drops [] = []
kept_of drops (v ∷ vs) = if drops v then kept_of drops vs else v ∷ kept_of drops vs

-- The array behind a turn that keeps a value.
abbrev moved : ℕ → ℕ → List Value → Value → List Value
moved ri wi values v = if ri == wi then values else set values wi v

moved-cases :
    (P : List Value → Type 0) (ri wi : ℕ) (values : List Value) (v : Value)
    → (ri ≡ wi → P values)
    → P (set values wi v)
    → P (moved ri wi values v)
moved-cases P ri wi values v h k = by_test (ri == wi) (λ e. h (ground arith))
  where
    by_test : (b : Bool) → (b ≡ true → P values) → P (if b then values else set values wi v)
    by_test true h' = h' refl
    by_test false h' = k

by_case :
    (b : Bool) (skipped kept : List Value × ℕ) (front rest : List Value) (v : Value)
    → take skipped.1 skipped.0 ≡ front ++ rest
    → take kept.1 kept.0 ≡ (front ++ v ∷ []) ++ rest
    → take (if b then skipped else kept).1 (if b then skipped else kept).0
      ≡ front ++ (if b then rest else v ∷ rest)
by_case true skipped kept front rest v h k = h
by_case false skipped kept front rest v h k = k ∙ append_assoc front (v ∷ []) rest

compact-kept :
    (drops : Value → Bool) (turns ri wi : ℕ) (values : List Value)
    → wi ≤ ri
    → ri + turns ≡ length values
    → let r = compact drops turns ri wi values in
      take r.1 r.0 ≡ take wi values ++ kept_of drops (drop ri values)
unfolding compact
compact-kept drops zero ri wi values h e =
    sym (append-nil (take wi values))
    ∙ ap (λ (xs : List Value). take wi values ++ kept_of drops xs)
        (sym (drop_all values ri (omega arith)))
compact-kept drops (suc turns) ri wi values h e =
    let (v, here) = get_elem?-lt values ri (omega arith) in
    let next = moved ri wi values v in
    let same_length : length next ≡ length values =
      moved-cases (λ xs. length xs ≡ length values) ri wi values v (λ at. refl)
        (length-set values wi v) in
    let front : take (suc wi) next ≡ take wi values ++ v ∷ [] =
      moved-cases (λ xs. take (suc wi) xs ≡ take wi values ++ v ∷ []) ri wi values v
        (λ at. take-get values wi v (ap (λ n. get_elem? values n) (sym at) ∙ here))
        (take-set values wi v (omega arith)) in
    let behind : drop (suc ri) next ≡ drop (suc ri) values =
      moved-cases (λ xs. drop (suc ri) xs ≡ drop (suc ri) values) ri wi values v (λ at. refl)
        (drop-set values wi (suc ri) v (omega arith)) in
    rw (here, compact)
      (by_case (drops v) (compact drops turns (suc ri) wi values)
          (compact drops turns (suc ri) (suc wi) next) (take wi values)
          (kept_of drops (drop (suc ri) values)) v
          (compact-kept drops turns (suc ri) wi values (omega arith) (omega arith))
          (compact-kept drops turns (suc ri) (suc wi) next (omega arith)
              (omega (arith, same_length))
            ∙ ap (λ xs. xs ++ kept_of drops (drop (suc ri) next)) front
            ∙ ap (λ xs. (take wi values ++ v ∷ []) ++ kept_of drops xs) behind)
        ∙ ap (λ xs. take wi values ++ kept_of drops xs) (sym (drop-get values ri v here)))

-- The loop of `remove`, which moves values in place, leaves exactly the values that are not texts
-- among the parameters, in their order.
pub remove_listed-kept :
    (names : List Bytes) (values : List Value)
    → remove_listed names values ≡ kept_of (is_listed names) values
unfolding remove_listed
remove_listed-kept names values =
    compact-kept (is_listed names) (length values) 0 0 values (omega arith) (omega arith)

deleted : (entries : Fields) (key : Bytes) → lookup (delete_field entries key) key ≡ none
unfolding lookup delete_field
deleted no_fields key = refl
deleted (field name v rest) key = by_test (equal name key) refl (deleted rest key)
  where
    by_test :
        (b : Bool)
        → equal name key ≡ b
        → lookup (delete_field rest key) key ≡ none
        → lookup (if b then delete_field rest key else field name v (delete_field rest key)) key
          ≡ none
    by_test true e h = h
    by_test false e h =
        if_false (equal name key) (some v) (lookup (delete_field rest key) key) e ∙ h

module _ (trim_set : Bytes → Bytes → Bytes) (replace_all : Bytes → Bytes → Bytes → Bytes)
    (atoi_value : Bytes → Number) (is_ip : Bytes → Bool) where
  get_array-array :
      (entries : Fields) (key : Bytes) (items : Items)
      → lookup entries key ≡ some (array items)
      → get_array entries key ≡ some items
  unfolding get_array
  get_array-array entries key items e =
      ap (λ o. o >>= λ v. elim v [ array xs ↦ some xs | _ ↦ none ]) e

  remove_items :
      (entries : Fields) (key : Bytes) (items : Items)
      → lookup entries key ≡ some (array items)
      → items_of entries key ≡ to_list items
  remove_items entries key items e =
      ap (λ (o : Option Items). elim o [ none ↦ [] | some xs ↦ to_list xs ])
        (get_array-array entries key items e)

  found_directive :
      (d : TransformDirective) (entries : Fields) (value : Value)
      → lookup entries d.key ≡ some value
      → process_directive trim_set replace_all atoi_value is_ip d entries
        ≡ run_directive trim_set replace_all atoi_value is_ip d.operation d.key d.parameters value
            entries
  unfolding process_directive
  found_directive d entries value e = rw (e, process_directive)

  -- `remove` with parameters, on a field that is an array, sets the field to the array of the items that
  -- are not texts among the parameters, in their order.
  pub process_directive-remove :
      (key name : Bytes) (names : List Bytes) (entries : Fields) (items : Items)
      → lookup entries key ≡ some (array items)
      → process_directive trim_set replace_all atoi_value is_ip
          (record { key = key; operation = remove; parameters = name ∷ names })
          entries
        ≡ some (
            set_field entries key
              (array (of_list (kept_of (is_listed (name ∷ names)) (to_list items)))))
  unfolding run_directive
  process_directive-remove key name names entries items e =
      found_directive (record { key = key; operation = remove; parameters = name ∷ names }) entries
        (array items) e
      ∙ ap
          (λ (vs : List Value).
            some (set_field entries key (array (of_list (remove_listed (name ∷ names) vs)))))
          (remove_items entries key items e)
      ∙ ap (λ (vs : List Value). some (set_field entries key (array (of_list vs))))
          (remove_listed-kept (name ∷ names) (to_list items))

  -- A field that is renamed, to whatever name, is not set any more: one that is renamed to its own name
  -- is lost.
  pub rename_lost :
      (key name : Bytes) (value : Value) (entries : Fields)
      → (entries' : Fields) × (run_directive trim_set replace_all atoi_value is_ip rename key
            (name ∷ [])
            value
            entries
          ≡ some entries')
        × (lookup entries' key ≡ none)
  unfolding run_directive
  rename_lost key name value entries = (_, refl, deleted _ key)

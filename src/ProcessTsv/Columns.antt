-- ===== src/ProcessTsv/Columns.antt =====
-- format/processtsv.go: directives that change values in their place, and what becomes of each column.
use x_pipeline.Prelude.{
  not, ◌&&◌, leb, ℕ, zero, suc, ◌++◌, Bool, true, false, List, [], ◌∷◌, Option, none, some,
  >>=-eq-some, Bytes, codes, take, length, length-set, set, get_elem?, get_elem?-set_self,
  get_elem?-set_ne, ◌==◌, ==_iff, ◌<◌, if◌then◌else◌, if_true, if_false, Bool-cases, inl, inr, ◌≡◌,
  ◌≢◌, refl, sym, ap, ◌∙◌, arith,
}
use x_pipeline.MarshalMap.{Number, at, below_zero}
use x_pipeline.ProcessJson.{unescape}
use x_pipeline.ProcessTsv.{
  process_tsv_directives, TsvOperation, time, replace, prefix, postfix, trim, quote, remove, agent,
  unknown, AgentField, TsvValue, TsvDirective, new_value, slices_value, apply_operation,
  process_tsv_directive,
}

-- The operations that neither remove a value nor add any.
abbrev pub stays : TsvOperation → Bool
stays remove = false
stays agent = false
stays op = true

abbrev pub is_index : Number → Bool
is_index (at i) = true
is_index (below_zero n) = false

-- No index is below zero, and the number of values stays.
abbrev pub all_stay : List TsvDirective → Bool
all_stay [] = true
all_stay (d ∷ ds) = if is_index d.index && stays d.operation then all_stay ds else false

-- A time is not shorter than its layout, which is a prefix of it.
abbrev pub long_enough : TsvOperation → List Bytes → TsvValue → Bool
long_enough time (old ∷ new ∷ []) v = leb (length old) (length v.value)
long_enough op ps v = true

-- Is the directive about the column?
abbrev pub is_about : Number → ℕ → Bool
is_about (at i) j = i == j
is_about (below_zero n) j = false

-- The text of a value, changed.
abbrev with_text : TsvValue → Bytes → TsvValue
with_text v text = record { quoted = v.quoted; value = text }

pub both : (b c : Bool) → (if b then c else false) ≡ true → (b ≡ true) × (c ≡ true)
both true c h = (refl, h)
both false c h = cc

pub conjuncts : (b c : Bool) → (b && c) ≡ true → (b ≡ true) × (c ≡ true)
conjuncts true c h = (refl, h)
conjuncts false c h = cc

some_apart : {A : Type 0} {x : A} → some x ≢ none
some_apart e = cc

pub in_range : {A : Type 0} (xs : List A) (i : ℕ) (x : A) → get_elem? xs i ≡ some x → i < length xs
in_range [] i x e = cc
in_range (y ∷ ys) zero x e = omega arith
in_range (y ∷ ys) (suc i) x e = omega (arith, in_range ys i x e)

-- A write at `i` of what `f` makes of the value there, seen at `j`.
at_column :
    {A : Type 0} (xs : List A) (i j : ℕ) (w v : A) (f : A → A)
    → get_elem? xs i ≡ some w
    → get_elem? xs j ≡ some v
    → get_elem? (set xs i (f w)) j ≡ some (if i == j then f v else v)
at_column {A} xs i j w v f at_i at_j = elim (Bool-cases (i == j)) [
  | inl e ↦
      let eq : i ≡ j = (==_iff i j).0 e in
      let there : get_elem? xs i ≡ some v = ap (get_elem? xs) eq ∙ at_j in
      let same : w ≡ v = cc in
      ap (get_elem? (set xs i (f w))) (sym eq)
      ∙ get_elem?-set_self xs i (f w) (in_range xs i w at_i)
      ∙ ap (λ (x : A). some (f x)) same
      ∙ ap (λ (x : A). some x) (sym (if_true (i == j) (f v) v e))
  | inr e ↦
      let ne : i ≢ j = λ same. ground arith in
      get_elem?-set_ne xs (f w) ne
      ∙ at_j
      ∙ ap (λ (x : A). some x) (sym (if_false (i == j) (f v) v e))
]

some_if : {A : Type 0} (b : Bool) (x y : A) → (if b then some x else none) ≡ some y → x ≡ y
some_if true x y e = cc
some_if false x y e = cc

abbrev some_or : Option Bytes → Bytes → Bytes
some_or none s = s
some_or (some t) s = t

module _ (replace_all : Bytes → Bytes → Bytes → Bytes) (trim_set : Bytes → Bytes → Bytes)
    (retime : Bytes → Bytes → Bytes → Option Bytes) where
  -- What each operation makes of a value: `prefix` puts its parameter in front, `postfix` behind,
  -- and so on. Other numbers of parameters leave the value.
  abbrev pub edited : TsvOperation → List Bytes → TsvValue → TsvValue
  edited quote ps v = record { quoted = true; value = v.value }
  edited prefix (p ∷ []) v = with_text v (unescape p ++ v.value)
  edited postfix (p ∷ []) v = with_text v (v.value ++ unescape p)
  edited replace (old ∷ new ∷ []) v =
      with_text v (replace_all v.value (unescape old) (unescape new))
  edited trim [] v = with_text v (trim_set v.value (codes " "))
  edited trim (cut ∷ []) v = with_text v (trim_set v.value (unescape cut))
  edited time (old ∷ new ∷ []) v =
      with_text v (some_or (retime old (take (length old) v.value) new) v.value)
  edited op ps v = v

  -- A column goes through the directives that are about it, in their order.
  abbrev pub column : List TsvDirective → ℕ → TsvValue → TsvValue
  column [] j v = v
  column (d ∷ ds) j v =
      column ds j (if is_about d.index j then edited d.operation d.parameters v else v)

  -- A column whose times are long enough when their directives come.
  abbrev pub fits : List TsvDirective → ℕ → TsvValue → Bool
  fits [] j v = true
  fits (d ∷ ds) j v =
      let later = fits ds j (if is_about d.index j then edited d.operation d.parameters v else v) in
      if (if long_enough d.operation d.parameters v then true else not (is_about d.index j))
      then later
      else false

  module _ (user_agent : AgentField → Bytes → Bytes) where
    new_value-edited :
        (op : TsvOperation) (ps : List Bytes) (v : TsvValue)
        → stays op ≡ true
        → new_value replace_all trim_set retime user_agent op ps v ≡ edited op ps v
    new_value-edited remove ps v h = cc
    new_value-edited agent ps v h = cc
    new_value-edited unknown ps v h = refl
    new_value-edited quote ps v h = refl
    new_value-edited prefix [] v h = refl
    new_value-edited prefix (p ∷ []) v h = refl
    new_value-edited prefix (p ∷ q ∷ ps) v h = refl
    new_value-edited postfix [] v h = refl
    new_value-edited postfix (p ∷ []) v h = refl
    new_value-edited postfix (p ∷ q ∷ ps) v h = refl
    new_value-edited replace [] v h = refl
    new_value-edited replace (p ∷ []) v h = refl
    new_value-edited replace (p ∷ q ∷ []) v h = refl
    new_value-edited replace (p ∷ q ∷ r ∷ ps) v h = refl
    new_value-edited trim [] v h = refl
    new_value-edited trim (p ∷ []) v h = refl
    new_value-edited trim (p ∷ q ∷ ps) v h = refl
    new_value-edited time [] v h = refl
    new_value-edited time (p ∷ []) v h = refl
    new_value-edited time (old ∷ new ∷ []) v h =
        by_result (retime old (take (length old) v.value) new)
      where
        by_result :
            (o : Option Bytes)
            → (elim o [ none ↦ v | some text ↦ record v { value = text } ])
              ≡ with_text v (some_or o v.value)
        by_result none = refl
        by_result (some text) = refl
    new_value-edited time (p ∷ q ∷ r ∷ ps) v h = refl

    written :
        (op : TsvOperation) (ps : List Bytes) (i : ℕ) (v : TsvValue) (values done : List TsvValue)
        → stays op ≡ true
        → (if slices_value replace_all trim_set retime user_agent op ps v
            then some (set values i (new_value replace_all trim_set retime user_agent op ps v))
            else none)
          ≡ some done
        → done ≡ set values i (edited op ps v)
    written op ps i v values done h e =
        sym (some_if (slices_value replace_all trim_set retime user_agent op ps v) _ done e)
        ∙ ap (set values i) (new_value-edited op ps v h)

    -- Such an operation that does not panic writes the edited value in its place.
    apply_operation-edited :
        (op : TsvOperation) (ps : List Bytes) (i : ℕ) (v : TsvValue) (values done : List TsvValue)
        → stays op ≡ true
        → apply_operation replace_all trim_set retime user_agent op ps i v values ≡ some done
        → done ≡ set values i (edited op ps v)
    unfolding apply_operation
    apply_operation-edited remove ps i v values done h e = cc
    apply_operation-edited agent ps i v values done h e = cc
    apply_operation-edited time ps i v values done h e = written time ps i v values done h e
    apply_operation-edited replace ps i v values done h e = written replace ps i v values done h e
    apply_operation-edited prefix ps i v values done h e = written prefix ps i v values done h e
    apply_operation-edited postfix ps i v values done h e = written postfix ps i v values done h e
    apply_operation-edited trim ps i v values done h e = written trim ps i v values done h e
    apply_operation-edited quote ps i v values done h e = written quote ps i v values done h e
    apply_operation-edited unknown ps i v values done h e = written unknown ps i v values done h e

    -- One directive: each column that it is about is edited, and the others are as they were.
    pub directive-column :
        (n : Number) (op : TsvOperation) (ps : List Bytes) (values done : List TsvValue)
        → stays op ≡ true
        → process_tsv_directive replace_all trim_set retime user_agent
            (record { index = n; operation = op; parameters = ps })
            values
          ≡ some done
        → (length done ≡ length values)
          × ((j : ℕ) (v : TsvValue)
              → get_elem? values j ≡ some v
              → get_elem? done j ≡ some (if is_about n j then edited op ps v else v))
    unfolding process_tsv_directive
    directive-column (below_zero n) op ps values done h e = cc
    directive-column (at i) op ps values done h e = by_value (get_elem? values i) refl e
      where
        skipped :
            (j : ℕ) (v : TsvValue)
            → get_elem? values i ≡ none
            → get_elem? values j ≡ some v
            → (i == j) ≡ false
        skipped j v gone there = elim (Bool-cases (i == j)) [
          | inl same ↦
              let eq : i ≡ j = (==_iff i j).0 same in
              absurd (some_apart (sym there ∙ ap (get_elem? values) (sym eq) ∙ gone))
          | inr other ↦ other
        ]

        by_value :
            (o : Option TsvValue)
            → get_elem? values i ≡ o
            → (elim o [
              | none ↦ some values
              | some v ↦ apply_operation replace_all trim_set retime user_agent op ps i v values
            ])
              ≡ some done
            → (length done ≡ length values)
              × ((j : ℕ) (v : TsvValue)
                  → get_elem? values j ≡ some v
                  → get_elem? done j ≡ some (if i == j then edited op ps v else v))
        by_value none gone e =
            let same : values ≡ done = cc in
            (
              ap (λ (ys : List TsvValue). length ys) (sym same),
              λ j v there.
                  ap (λ (ys : List TsvValue). get_elem? ys j) (sym same)
                  ∙ there
                  ∙ ap (λ (w : TsvValue). some w)
                      (sym (if_false (i == j) (edited op ps v) v (skipped j v gone there))),
            )
        by_value (some w) at_i e =
            let put : done ≡ set values i (edited op ps w) =
              apply_operation-edited op ps i w values done h e in
            (
              ap (λ (ys : List TsvValue). length ys) put ∙ length-set values i (edited op ps w),
              λ j v there.
                  ap (λ (ys : List TsvValue). get_elem? ys j) put
                  ∙ at_column values i j w v (edited op ps) at_i there,
            )

    pub directives-column :
        (ds : List TsvDirective) (values done : List TsvValue)
        → all_stay ds ≡ true
        → process_tsv_directives replace_all trim_set retime user_agent ds values ≡ some done
        → (length done ≡ length values)
          × ((j : ℕ) (v : TsvValue)
              → get_elem? values j ≡ some v
              → get_elem? done j ≡ some (column ds j v))
    unfolding process_tsv_directives
    directives-column [] values done h e =
        let same : values ≡ done = cc in
        (
          ap (λ (ys : List TsvValue). length ys) (sym same),
          λ j v there. ap (λ (ys : List TsvValue). get_elem? ys j) (sym same) ∙ there,
        )
    directives-column (d ∷ ds) values done h e =
        let (now, later) = both (is_index d.index && stays d.operation) (all_stay ds) h in
        let first = (conjuncts (is_index d.index) (stays d.operation) now).1 in
        let (middle, one, rest) =
          >>=-eq-some (process_tsv_directive replace_all trim_set retime user_agent d values)
            (process_tsv_directives replace_all trim_set retime user_agent ds) e in
        let (size, columns) =
          directive-column d.index d.operation d.parameters values middle first one in
        let (size', columns') = directives-column ds middle done later rest in
        (size' ∙ size, λ j v there. columns' j _ (columns j v there))

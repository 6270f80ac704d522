-- ===== src/ProcessTsv/Formatted.antt =====
-- format/processtsv.go: Format, with directives that change values in their place, over the columns.
use x_pipeline.Prelude.{
  not, ◌&&◌, get_elem?-lt, ℕ, Bool, true, false, List, [], ◌∷◌, Option, none, some, ◌>>=◌, Bytes,
  length, set, get_elem?, ◌==◌, if◌then◌else◌, if_true, ◌≡◌, refl, sym, ap, ◌∙◌, arith,
}
use x_pipeline.MarshalMap.{Number, at, below_zero}
use x_pipeline.Message.{Message}
use x_pipeline.Formats.{Formatter}
use x_pipeline.ProcessTsv.{
  parse_line, parsed, format_tsv, format_parsed, process_tsv_directives, TsvOperation, time,
  replace, prefix, postfix, trim, quote, remove, agent, unknown, AgentField, TsvValue, TsvDirective,
  write_line, new_value, slices_value, apply_operation, process_tsv_directive,
}
use x_pipeline.ProcessTsv.Lines.{write_line-parse}
use x_pipeline.ProcessTsv.Columns.{
  stays, is_index, all_stay, is_about, long_enough, edited, column, fits, both, conjuncts, in_range,
  directive-column, directives-column,
}

module _ (replace_all : Bytes → Bytes → Bytes → Bytes) (trim_set : Bytes → Bytes → Bytes)
    (retime : Bytes → Bytes → Bytes → Option Bytes) where
  module _ (user_agent : AgentField → Bytes → Bytes) where
    slices-long :
        (op : TsvOperation) (ps : List Bytes) (v : TsvValue)
        → long_enough op ps v ≡ true
        → slices_value replace_all trim_set retime user_agent op ps v ≡ true
    slices-long time [] v h = refl
    slices-long time (p ∷ []) v h = refl
    slices-long time (old ∷ new ∷ []) v h = ground arith
    slices-long time (p ∷ q ∷ r ∷ ps) v h = refl
    slices-long replace ps v h = refl
    slices-long prefix ps v h = refl
    slices-long postfix ps v h = refl
    slices-long trim ps v h = refl
    slices-long quote ps v h = refl
    slices-long remove ps v h = refl
    slices-long agent ps v h = refl
    slices-long unknown ps v h = refl

    writes :
        (op : TsvOperation) (ps : List Bytes) (i : ℕ) (v : TsvValue) (values : List TsvValue)
        → long_enough op ps v ≡ true
        → (done : List TsvValue) × ((if slices_value replace_all trim_set retime user_agent op ps v
              then some (set values i (new_value replace_all trim_set retime user_agent op ps v))
              else none)
            ≡ some done)
    writes op ps i v values h = (
      _,
      if_true (slices_value replace_all trim_set retime user_agent op ps v) _ none
          (slices-long op ps v h),
    )

    apply_operation-returns :
        (op : TsvOperation) (ps : List Bytes) (i : ℕ) (v : TsvValue) (values : List TsvValue)
        → long_enough op ps v ≡ true
        → (done : List TsvValue) × (apply_operation replace_all trim_set retime user_agent op ps i v
              values
            ≡ some done)
    unfolding apply_operation
    apply_operation-returns remove ps i v values h = (_, refl)
    apply_operation-returns agent ps i v values h = (_, refl)
    apply_operation-returns time ps i v values h = writes time ps i v values h
    apply_operation-returns replace ps i v values h = writes replace ps i v values h
    apply_operation-returns prefix ps i v values h = writes prefix ps i v values h
    apply_operation-returns postfix ps i v values h = writes postfix ps i v values h
    apply_operation-returns trim ps i v values h = writes trim ps i v values h
    apply_operation-returns quote ps i v values h = writes quote ps i v values h
    apply_operation-returns unknown ps i v values h = writes unknown ps i v values h

    directive-returns :
        (n : Number) (op : TsvOperation) (ps : List Bytes) (values : List TsvValue)
        → is_index n ≡ true
        → ((j : ℕ) (v : TsvValue)
            → get_elem? values j ≡ some v
            → (if long_enough op ps v then true else not (is_about n j)) ≡ true)
        → (done : List TsvValue) × (process_tsv_directive replace_all trim_set retime user_agent
              (record { index = n; operation = op; parameters = ps })
              values
            ≡ some done)
    unfolding process_tsv_directive
    directive-returns (below_zero n) op ps values h long = cc
    directive-returns (at i) op ps values h long = by_value (get_elem? values i) refl
      where
        is_long : (b : Bool) → (if b then true else not (i == i)) ≡ true → b ≡ true
        is_long true e = refl
        is_long false e = absurd (ground arith)

        by_value :
            (o : Option TsvValue)
            → get_elem? values i ≡ o
            → (done : List TsvValue) × ((elim o [
              | none ↦ some values
              | some v ↦ apply_operation replace_all trim_set retime user_agent op ps i v values
            ])
                ≡ some done)
        by_value none gone = (values, refl)
        by_value (some w) at_i =
            apply_operation-returns op ps i w values (is_long (long_enough op ps w) (long i w at_i))

    directives-return :
        (ds : List TsvDirective) (values : List TsvValue)
        → all_stay ds ≡ true
        → ((j : ℕ) (v : TsvValue)
            → get_elem? values j ≡ some v
            → fits replace_all trim_set retime ds j v ≡ true)
        → (done : List TsvValue) × (process_tsv_directives replace_all trim_set retime user_agent ds
              values
            ≡ some done)
    unfolding process_tsv_directives
    directives-return [] values h long = (values, refl)
    directives-return (d ∷ ds) values h long =
        let (now, later) = both (is_index d.index && stays d.operation) (all_stay ds) h in
        let (index, stay) = conjuncts (is_index d.index) (stays d.operation) now in
        let (middle, one) =
          directive-returns d.index d.operation d.parameters values index
            (λ j v there. (both _ _ (long j v there)).0) in
        let (size, columns) =
          directive-column replace_all trim_set retime user_agent d.index d.operation d.parameters
            values middle stay one in
        let still : (j : ℕ) (v : TsvValue)
            → get_elem? middle j ≡ some v
            → fits replace_all trim_set retime ds j v ≡ true =
          λ j v there.
            let (old, was) =
              get_elem?-lt values j (omega (arith, size, in_range middle j v there)) in
            let found : get_elem? middle j
                ≡ some (
                    if is_about d.index j
                    then edited replace_all trim_set retime d.operation d.parameters old
                    else old) =
              columns j old was in
            let same : (if is_about d.index j
                  then edited replace_all trim_set retime d.operation d.parameters old
                  else old)
                ≡ v =
              cc in
            ap (λ (w : TsvValue). fits replace_all trim_set retime ds j w) (sym same)
            ∙ (both _ _ (long j old was)).1 in
        let (done, rest) = directives-return ds middle later still in
        (
          done,
          ap
                (λ (o : Option (List TsvValue)).
                  o >>= process_tsv_directives replace_all trim_set retime user_agent ds)
                one
              ∙ rest,
        )

    -- Format of a line that is split into values, with directives whose indexes are not below zero, that
    -- neither remove nor add values, and whose times find values as long as their layouts: it returns the
    -- stream of the formatter it builds on, and the line of as many values, each of which went through
    -- the directives about its column, in their order. Without directives that is the line itself.
    pub format_tsv-columns :
        (base : Formatter) (ds : List TsvDirective) (delimiter : Bytes) (quoted_values : Bool)
        → (msg : Message) (values : List TsvValue) → all_stay ds ≡ true
        → parse_line quoted_values delimiter (base msg).0 ≡ parsed values
        → ((j : ℕ) (v : TsvValue)
            → get_elem? values j ≡ some v
            → fits replace_all trim_set retime ds j v ≡ true)
        → (done : List TsvValue) × (format_tsv replace_all trim_set retime user_agent base ds
              delimiter quoted_values msg
            ≡ some (write_line delimiter done, (base msg).1))
          × (length done ≡ length values)
          × ((j : ℕ) (v : TsvValue)
              → get_elem? values j ≡ some v
              → get_elem? done j ≡ some (column replace_all trim_set retime ds j v))
    unfolding format_tsv
    format_tsv-columns base [] delimiter quoted_values msg values h split long = (
      values,
      ap (λ (line : Bytes). some (line, (base msg).1))
          (sym (write_line-parse delimiter quoted_values (base msg).0 values split)),
      refl,
      λ j v there. there,
    )
    format_tsv-columns base (d ∷ ds) delimiter quoted_values msg values h split long =
        let process = process_tsv_directives replace_all trim_set retime user_agent (d ∷ ds) in
        let (done, made) = directives-return (d ∷ ds) values h long in
        let (size, columns) =
          directives-column replace_all trim_set retime user_agent (d ∷ ds) values done h made in
        (
          done,
          ap (format_parsed process delimiter (base msg).0 (base msg).1) split
              ∙ ap
                  (λ (o : Option (List TsvValue)).
                    o >>= λ vs. some (write_line delimiter vs, (base msg).1))
                  made,
          size,
          columns,
        )

    -- With one directive whose index is below zero and a line that is split, Format panics, whatever
    -- the operation is.
    pub format_tsv_negative :
        (base : Formatter) (n : ℕ) (op : TsvOperation) (parameters : List Bytes)
        → (quoted_values : Bool) (delimiter : Bytes) (msg : Message) (values : List TsvValue)
        → parse_line quoted_values delimiter (base msg).0 ≡ parsed values
        → format_tsv replace_all trim_set retime user_agent base
            (record { index = below_zero n; operation = op; parameters = parameters } ∷ [])
            delimiter
            quoted_values
            msg
          ≡ none
    unfolding format_tsv process_tsv_directives process_tsv_directive
    format_tsv_negative base n op parameters quoted_values delimiter msg values e =
        rw (e, format_tsv) refl

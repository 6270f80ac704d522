-- ===== src/ProcessTsv/Lines.antt =====
-- format/processtsv.go: the loop over a line with quoted values, and what the values are joined to.
use x_pipeline.Prelude.{
  ℕ, zero, suc, ◌+◌, ◌-◌, Bool, true, false, List, [], ◌∷◌, ◌++◌, Option, none, some, Bytes, length,
  take, drop, ◌==◌, if◌then◌else◌, map, Option-cases, inl, inr, ◌≡◌, refl, sym, ap, ◌∙◌, arith,
  append_assoc, ==_iff,
}
use std.Path.{subst}
use x_pipeline.Reader.{index}
use x_pipeline.Formats.{split}
use x_pipeline.Formats.Splitting.{Located, index-Located, split_cases}
use x_pipeline.ProcessTsv.{
  TsvValue, strings_to_tsv_values, split_two, TsvParsed, parsed, unmatched, panics, out_of_fuel,
  behind_values, final_byte, close_quote, from_quote, from_plain, parse_quoted, string_value, join,
  write_line, parse_line,
}

-- The two parts and the separator between them are the whole.
abbrev pub IsWhole : Bytes → Bytes → Bytes × Option Bytes → Type 0
IsWhole s sep (a, none) = a ≡ s
IsWhole s sep (a, some r) = s ≡ a ++ (sep ++ r)

pub split_two-IsWhole : (s sep : Bytes) → IsWhole s sep (split_two s sep)
unfolding split_two
split_two-IsWhole s sep = by_place (index s sep) (index-Located s sep)
  where
    by_place :
        (o : Option ℕ)
        → Located s sep o
        → IsWhole s sep
            (elim o [ none ↦ (s, none) | some i ↦ (take i s, some (drop (i + length sep) s)) ])
    by_place none h = refl
    by_place (some i) h = h

join-cons :
    (a : Bytes) (ss : List Bytes) (sep first : Bytes) (others : List Bytes)
    → ss ≡ first ∷ others
    → join (a ∷ ss) sep ≡ a ++ (sep ++ join ss sep)
unfolding join
join-cons a [] sep first others e = cc
join-cons a (t ∷ ts) sep first others e = refl

-- The parts of a text, joined again, are the text.
join-split : (fuel : ℕ) (s sep : Bytes) → join (split fuel s sep) sep ≡ s
unfolding split join
join-split zero s sep = refl
join-split (suc fuel) s sep = elim (Option-cases (index s sep)) [
  | inl e ↦ rw (e, split) refl
  | inr (i, e) ↦
      let rest = drop (i + length sep) s in
      let (first, others, at) = split_cases fuel rest sep in
      let located : Located s sep (some i) = rw e at (index-Located s sep) in
      rw (e, split)
        (join-cons (take i s) (split fuel rest sep) sep first others at
          ∙ ap (λ (t : Bytes). take i s ++ (sep ++ t)) (join-split fuel rest sep)
          ∙ sym located)
]

map-string_value : (ss : List Bytes) → map string_value (strings_to_tsv_values ss) ≡ ss
unfolding string_value strings_to_tsv_values
map-string_value [] = refl
map-string_value (s ∷ ss) = ap (λ (ts : List Bytes). s ∷ ts) (map-string_value ss)

-- The values of a parse, written again, are the text; there is at least one.
abbrev Writes : Bytes → Bytes → TsvParsed → Type 0
Writes d s (parsed []) = ⊥
Writes d s (parsed (v ∷ vs)) = write_line d (v ∷ vs) ≡ s
Writes d s unmatched = Unit
Writes d s panics = Unit
Writes d s out_of_fuel = Unit

write_line-append :
    (d : Bytes) (v : TsvValue) (vs : List TsvValue) (w : TsvValue) (ws : List TsvValue)
    → write_line d ((v ∷ vs) ++ w ∷ ws) ≡ write_line d (v ∷ vs) ++ (d ++ write_line d (w ∷ ws))
unfolding write_line join
write_line-append d v [] w ws = refl
write_line-append d v (u ∷ us) w ws =
    ap (λ (t : Bytes). string_value v ++ (d ++ t)) (write_line-append d u us w ws)
    ∙ ap (λ (t : Bytes). string_value v ++ t)
        (sym (append_assoc d (write_line d (u ∷ us)) (d ++ write_line d (w ∷ ws))))
    ∙ sym (append_assoc (string_value v) (d ++ write_line d (u ∷ us)) (d ++ write_line d (w ∷ ws)))

behind_values-Writes :
    (d : Bytes) (v : TsvValue) (vs : List TsvValue) (front rest : Bytes) (p : TsvParsed)
    → write_line d (v ∷ vs) ≡ front
    → Writes d rest p
    → Writes d (front ++ (d ++ rest)) (behind_values (v ∷ vs) p)
behind_values-Writes d v vs front rest (parsed []) e h = elim h [ ]
behind_values-Writes d v vs front rest (parsed (w ∷ ws)) e h =
    write_line-append d v vs w ws
    ∙ ap (λ (t : Bytes). t ++ (d ++ write_line d (w ∷ ws))) e
    ∙ ap (λ (t : Bytes). front ++ (d ++ t)) h
behind_values-Writes d v vs front rest unmatched e h = tt
behind_values-Writes d v vs front rest panics e h = tt
behind_values-Writes d v vs front rest out_of_fuel e h = tt

without_last : (s : Bytes) (c : ℕ) → final_byte s ≡ some c → take (length s - 1) s ++ c ∷ [] ≡ s
unfolding final_byte
without_last [] c e = cc
without_last (x ∷ []) c e = let same : x ≡ c = cc in ap (λ (y : ℕ). y ∷ []) (sym same)
without_last (x ∷ y ∷ xs) c e =
    let less : length (x ∷ y ∷ xs) - 1 ≡ suc (length (y ∷ xs) - 1) = omega arith in
    ap (λ (k : ℕ). take k (x ∷ y ∷ xs) ++ c ∷ []) less
    ∙ ap (λ (t : Bytes). x ∷ t) (without_last (y ∷ xs) c e)

close_quote-Writes : (d s : Bytes) → Writes d (34 ∷ s) (close_quote s)
unfolding close_quote write_line join string_value
close_quote-Writes d s = by_last (final_byte s) (without_last s)
  where
    by_byte :
        (b : Bool)
        → (b ≡ true → take (length s - 1) s ++ 34 ∷ [] ≡ s)
        → Writes d (34 ∷ s) (
            if b
            then parsed (record { quoted = true; value = take (length s - 1) s } ∷ [])
            else unmatched)
    by_byte true h = ap (λ (t : Bytes). 34 ∷ t) (h refl)
    by_byte false h = tt

    by_last :
        (o : Option ℕ)
        → ((c : ℕ) → o ≡ some c → take (length s - 1) s ++ c ∷ [] ≡ s)
        → Writes d (34 ∷ s) (elim o [
          | none ↦ panics
          | some c ↦
              if c == 34
              then parsed (record { quoted = true; value = take (length s - 1) s } ∷ [])
              else unmatched
        ])
    by_last none h = tt
    by_last (some c) h = by_byte (c == 34) (λ e.
        let same : c ≡ 34 = (==_iff c 34).0 e in
        ap (λ (k : ℕ). take (length s - 1) s ++ k ∷ []) (sym same) ∙ h c refl)

module _ (d : Bytes) where
  from_quote-Writes :
      (go : Bytes → TsvParsed) (s : Bytes) (r : Bytes × Option Bytes)
      → ((t : Bytes) → Writes d t (go t))
      → IsWhole s (34 ∷ d) r
      → Writes d (34 ∷ s) (from_quote go r)
  unfolding write_line join string_value
  from_quote-Writes go s (a, none) h e =
      subst (λ (t : Bytes). Writes d (34 ∷ t) (close_quote a)) e (close_quote-Writes d a)
  from_quote-Writes go s (a, some rest) h e =
      let v : TsvValue = record { quoted = true; value = a } in
      let place : (34 ∷ (a ++ 34 ∷ [])) ++ (d ++ rest) ≡ 34 ∷ s =
        ap (λ (t : Bytes). 34 ∷ t) (append_assoc a (34 ∷ []) (d ++ rest) ∙ sym e) in
      subst (λ (t : Bytes). Writes d t (behind_values (v ∷ []) (go rest))) place
        (behind_values-Writes d v [] (34 ∷ (a ++ 34 ∷ [])) rest (go rest) refl (h rest))

  -- The values of a text without quotes are not none, and are joined to the text.
  plain-Writes : (s : Bytes) → Writes d s (parsed (strings_to_tsv_values (split (length s) s d)))
  unfolding write_line strings_to_tsv_values
  plain-Writes s =
      let (first, others, at) = split_cases (length s) s d in
      subst (λ (ss : List Bytes). Writes d s (parsed (strings_to_tsv_values ss))) (sym at)
        (ap (λ (ss : List Bytes). join ss d) (map-string_value (first ∷ others))
          ∙ subst (λ (ss : List Bytes). join ss d ≡ s) at (join-split (length s) s d))

  behind_values_all :
      (front rest : Bytes) (values : List TsvValue) (p : TsvParsed)
      → Writes d front (parsed values)
      → Writes d rest p
      → Writes d (front ++ (d ++ rest)) (behind_values values p)
  behind_values_all front rest [] p e h = elim e [ ]
  behind_values_all front rest (v ∷ vs) p e h = behind_values-Writes d v vs front rest p e h

  from_plain-Writes :
      (quote_part : Bytes → TsvParsed) (s : Bytes) (r : Bytes × Option Bytes)
      → ((t : Bytes) → Writes d (34 ∷ t) (quote_part t))
      → IsWhole s (d ++ 34 ∷ []) r
      → Writes d s (from_plain quote_part d r)
  from_plain-Writes quote_part s (a, none) h e =
      subst (λ (t : Bytes). Writes d t (parsed (strings_to_tsv_values (split (length a) a d)))) e
        (plain-Writes a)
  from_plain-Writes quote_part s (a, some rest) h e =
      let values = strings_to_tsv_values (split (length a) a d) in
      let place : a ++ (d ++ 34 ∷ rest) ≡ s =
        ap (λ (t : Bytes). a ++ t) (sym (append_assoc d (34 ∷ []) rest)) ∙ sym e in
      subst (λ (t : Bytes). Writes d t (behind_values values (quote_part rest))) place
        (behind_values_all a (34 ∷ rest) values (quote_part rest) (plain-Writes a) (h rest))

  by_quote :
      (quote_part : Bytes → TsvParsed) (c : ℕ) (cs : Bytes) (b : Bool)
      → (c == 34) ≡ b
      → ((t : Bytes) → Writes d (34 ∷ t) (quote_part t))
      → Writes d
          (c ∷ cs)
          (if b then quote_part cs else from_plain quote_part d (split_two (c ∷ cs) (d ++ 34 ∷ [])))
  by_quote quote_part c cs true e h =
      let same : c ≡ 34 = (==_iff c 34).0 e in
      subst (λ (x : ℕ). Writes d (x ∷ cs) (quote_part cs)) (sym same) (h cs)
  by_quote quote_part c cs false e h =
      from_plain-Writes quote_part (c ∷ cs) (split_two (c ∷ cs) (d ++ 34 ∷ [])) h
        (split_two-IsWhole (c ∷ cs) (d ++ 34 ∷ []))

  parse_quoted-Writes : (fuel : ℕ) (s : Bytes) → Writes d s (parse_quoted fuel d s)
  unfolding parse_quoted
  parse_quoted-Writes zero s = tt
  parse_quoted-Writes (suc fuel) [] = tt
  parse_quoted-Writes (suc fuel) (c ∷ cs) =
      by_quote (λ s. from_quote (parse_quoted fuel d) (split_two s (34 ∷ d))) c cs (c == 34) refl
        λ t.
          from_quote-Writes (parse_quoted fuel d) t (split_two t (34 ∷ d))
            (parse_quoted-Writes fuel) (split_two-IsWhole t (34 ∷ d))

  parse_line-Writes : (quoted_values : Bool) (s : Bytes) → Writes d s (parse_line quoted_values d s)
  unfolding parse_line
  parse_line-Writes true s = parse_quoted-Writes (suc (length s)) s
  parse_line-Writes false s = plain-Writes s

  written :
      (s : Bytes) (values : List TsvValue) → Writes d s (parsed values) → write_line d values ≡ s
  written s [] h = elim h [ ]
  written s (v ∷ vs) h = h

  -- The values that a line is split into, with quotes or without, are written again as the same line.
  pub write_line-parse :
      (quoted_values : Bool) (s : Bytes) (values : List TsvValue)
      → parse_line quoted_values d s ≡ parsed values
      → write_line d values ≡ s
  write_line-parse quoted_values s values e =
      written s values (subst (Writes d s) e (parse_line-Writes quoted_values s))

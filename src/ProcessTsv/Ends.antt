-- ===== src/ProcessTsv/Ends.antt =====
-- format/processtsv.go: the loop over a line with quoted values comes to its end.
use x_pipeline.Prelude.{
  ℕ, zero, suc, ◌+◌, ◌-◌, ◌<◌, ◌≤◌, Bool, true, false, List, [], ◌∷◌, ◌++◌, Option, none, some,
  Bytes, length, length-append, ◌==◌, if◌then◌else◌, ◌≡◌, ◌≢◌, ap, ◌∙◌, arith, take,
}
use x_pipeline.Formats.{split}
use x_pipeline.ProcessTsv.{
  TsvValue, strings_to_tsv_values, split_two, TsvParsed, parsed, unmatched, panics, out_of_fuel,
  behind_values, final_byte, close_quote, from_quote, from_plain, parse_quoted, parse_line,
}
use x_pipeline.ProcessTsv.Lines.{IsWhole, split_two-IsWhole}

abbrev IsEnded : TsvParsed → Type 0
IsEnded out_of_fuel = ⊥
IsEnded p = Unit

-- Behind a separator that is not empty the rest is shorter.
abbrev IsShorter : Bytes → Bytes × Option Bytes → Type 0
IsShorter s (a, none) = Unit
IsShorter s (a, some r) = length r < length s

split_two-IsShorter :
    (s sep : Bytes) (r : Bytes × Option Bytes) → 0 < length sep → IsWhole s sep r → IsShorter s r
split_two-IsShorter s sep (a, none) h e = tt
split_two-IsShorter s sep (a, some r) h e =
    let total : length s ≡ length a + length (sep ++ r) =
      ap length e ∙ length-append a (sep ++ r) in
    omega (arith, total, length-append sep r)

behind_values-IsEnded :
    (values : List TsvValue) (p : TsvParsed) → IsEnded p → IsEnded (behind_values values p)
behind_values-IsEnded values (parsed more) h = tt
behind_values-IsEnded values unmatched h = tt
behind_values-IsEnded values panics h = tt
behind_values-IsEnded values out_of_fuel h = h

close_quote-IsEnded : (s : Bytes) → IsEnded (close_quote s)
unfolding close_quote
close_quote-IsEnded s = by_last (final_byte s)
  where
    by_byte : (b : Bool) (values : List TsvValue) → IsEnded (if b then parsed values else unmatched)
    by_byte true values = tt
    by_byte false values = tt

    by_last :
        (o : Option ℕ)
        → IsEnded (elim o [
          | none ↦ panics
          | some c ↦
              if c == 34
              then parsed (record { quoted = true; value = take (length s - 1) s } ∷ [])
              else unmatched
        ])
    by_last none = tt
    by_last (some c) =
        by_byte (c == 34) (record { quoted = true; value = take (length s - 1) s } ∷ [])

from_quote-IsEnded :
    (go : Bytes → TsvParsed) (s : Bytes) (r : Bytes × Option Bytes)
    → ((t : Bytes) → length t < length s → IsEnded (go t))
    → IsShorter s r
    → IsEnded (from_quote go r)
from_quote-IsEnded go s (a, none) h e = close_quote-IsEnded a
from_quote-IsEnded go s (a, some rest) h e =
    behind_values-IsEnded (record { quoted = true; value = a } ∷ []) (go rest) (h rest e)

from_plain-IsEnded :
    (quote_part : Bytes → TsvParsed) (d s : Bytes) (r : Bytes × Option Bytes)
    → ((t : Bytes) → length t < length s → IsEnded (quote_part t))
    → IsShorter s r
    → IsEnded (from_plain quote_part d r)
from_plain-IsEnded quote_part d s (a, none) h e = tt
from_plain-IsEnded quote_part d s (a, some rest) h e =
    behind_values-IsEnded (strings_to_tsv_values (split (length a) a d)) (quote_part rest)
      (h rest e)

by_quote :
    (quote_part : Bytes → TsvParsed) (plain_part : TsvParsed) (cs : Bytes) (b : Bool)
    → IsEnded (quote_part cs)
    → IsEnded plain_part
    → IsEnded (if b then quote_part cs else plain_part)
by_quote quote_part plain_part cs true h k = h
by_quote quote_part plain_part cs false h k = k

parse_quoted-IsEnded : (fuel : ℕ) (d s : Bytes) → length s < fuel → IsEnded (parse_quoted fuel d s)
unfolding parse_quoted
parse_quoted-IsEnded zero d s h = absurd (omega arith)
parse_quoted-IsEnded (suc fuel) d [] h = tt
parse_quoted-IsEnded (suc fuel) d (c ∷ cs) h =
    let quote_part = λ (s : Bytes). from_quote (parse_quoted fuel d) (split_two s (34 ∷ d)) in
    let quoted : (t : Bytes) → length t ≤ length cs → IsEnded (quote_part t) = λ t k.
      from_quote-IsEnded (parse_quoted fuel d) t (split_two t (34 ∷ d))
        (λ u shorter. parse_quoted-IsEnded fuel d u (omega arith))
        (split_two-IsShorter t (34 ∷ d) (split_two t (34 ∷ d)) (omega arith)
          (split_two-IsWhole t (34 ∷ d))) in
    let sep = d ++ 34 ∷ [] in
    by_quote quote_part (from_plain quote_part d (split_two (c ∷ cs) sep)) cs (c == 34)
      (quoted cs (omega arith))
      (from_plain-IsEnded quote_part d (c ∷ cs) (split_two (c ∷ cs) sep)
        (λ t shorter. quoted t (omega arith))
        (split_two-IsShorter (c ∷ cs) sep (split_two (c ∷ cs) sep)
          (omega (arith, length-append d (34 ∷ []))) (split_two-IsWhole (c ∷ cs) sep)))

ended : (p : TsvParsed) → IsEnded p → p ≢ out_of_fuel
ended (parsed vs) h e = cc
ended unmatched h e = cc
ended panics h e = cc
ended out_of_fuel h e = h

-- The loop over a line comes to its end, with quotes or without, for every line and every delimiter:
-- one round for each byte and one more are enough.
pub parse_line_ends :
    (quoted_values : Bool) (d s : Bytes) → parse_line quoted_values d s ≢ out_of_fuel
unfolding parse_line
parse_line_ends true d s =
    ended (parse_quoted (suc (length s)) d s)
      (parse_quoted-IsEnded (suc (length s)) d s (omega arith))
parse_line_ends false d s = λ e. cc

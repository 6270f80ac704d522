-- ===== src/Json/Output.antt =====
-- format/json.go: the brackets of what `Format` returns.
use x_pipeline.Prelude.{
  ℕ, ◌+◌, ◌≤◌, Bool, true, false, List, [], ◌∷◌, ◌++◌, none, some, Bytes, codes, length,
  length-append, ltb, if◌then◌else◌, ◌≡◌, refl, ap, ◌∙◌, arith,
}
use std.Path.{subst}
use x_pipeline.Parser.{TransitionParser, Outcome, done, fault, out_of_fuel, parse, get_state_name}
use x_pipeline.Json.{
  Bracket, curly, square, Piece, opens, closes, text, ReaderState, read_object, read_key,
  read_value, read_array, read_array_append, Json, in_array, write, end_while, Action, read_escaped,
  run_calls, Formatted, formatted, panics, running, finish_json, open_state, format_json, render,
}
use x_pipeline.Json.Nesting.{
  nest, nest-append, Fits, IsNested, end_while-IsNested, end_while-stops, json,
}
use x_pipeline.Json.Actions.{run_calls-IsNested, read_escaped-IsNested}

-- The brackets that are open were written: there are not more of them than bytes.
nest-render :
    (ks : List Bracket) (ps : List Piece) {ks' : List Bracket}
    → nest ks ps ≡ some ks'
    → length ks' ≤ length ks + length (render ps)
unfolding nest render
nest-render ks [] {ks'} e =
    let same : ks ≡ ks' = cc in omega (arith, ap (λ (xs : List Bracket). length xs) same)
nest-render ks (text bytes ∷ ps) e =
    omega (arith, nest-render ks ps e, length-append bytes (render ps))
nest-render ks (opens curly ∷ ps) e = omega (arith, nest-render (curly ∷ ks) ps e)
nest-render ks (opens square ∷ ps) e = omega (arith, nest-render (square ∷ ks) ps e)
nest-render [] (closes k ∷ ps) e = cc
nest-render (curly ∷ ks) (closes curly ∷ ps) e = omega (arith, nest-render ks ps e)
nest-render (square ∷ ks) (closes square ∷ ps) e = omega (arith, nest-render ks ps e)
nest-render (curly ∷ ks) (closes square ∷ ps) e = cc
nest-render (square ∷ ks) (closes curly ∷ ps) e = cc

length-Fits :
    (s : ReaderState) (stack : List ReaderState) (ks : List Bracket)
    → Fits s stack ks
    → length ks ≡ length stack + 1
length-Fits s [] ks (a, b) = ap (λ (xs : List Bracket). length xs) b
length-Fits s (t ∷ stack) [] h = absurd h
length-Fits s (t ∷ stack) (k ∷ ks) (a, b) = omega (arith, length-Fits t stack ks b)

open_state-in_array : (s : ReaderState) → open_state s ≡ false → in_array s ≡ false
open_state-in_array read_object e = cc
open_state-in_array read_key e = refl
open_state-in_array read_value e = refl
open_state-in_array read_array e = e
open_state-in_array read_array_append e = e

-- Inside an array, more than the first bracket was written.
array_written :
    (m : List Piece) (s : ReaderState) (stack : List ReaderState) (ks : List Bracket)
    → nest [] m ≡ some ks
    → Fits s stack ks
    → ltb 1 (length (render m)) ≡ false
    → in_array s ≡ false
array_written m s [] ks e (a, b) short = a
array_written m s (t ∷ stack) ks e h short =
    let many = length-Fits s (t ∷ stack) ks h in absurd (ground (arith, nest-render [] m e, many))

-- The last bracket closes the innermost one, and as many are open as there are states on the stack.
close-Fits :
    (m : List Piece) (s : ReaderState) (stack : List ReaderState) (ks : List Bracket)
    → nest [] m ≡ some ks
    → Fits s stack ks
    → in_array s ≡ false
    → (rest : List Bracket) × (nest [] ((m ++ closes curly ∷ []) ++ text (codes "\n") ∷ [])
        ≡ some rest)
      × (length rest ≡ length stack)
unfolding nest
close-Fits m s [] ks e (a, b) out = (
  [],
  nest-append [] (m ++ closes curly ∷ []) (text (codes "\n") ∷ [])
      (nest-append [] m (closes curly ∷ []) (e ∙ ap some b)),
  refl,
)
close-Fits m s (t ∷ stack) [] e h out = absurd h
close-Fits m s (t ∷ stack) (square ∷ ks) e (a, b) out = cc (a ∙ out)
close-Fits m s (t ∷ stack) (curly ∷ ks) e (a, b) out = (
  ks,
  nest-append [] (m ++ closes curly ∷ []) (text (codes "\n") ∷ [])
      (nest-append [] m (closes curly ∷ []) e),
  omega (arith, length-Fits t stack ks b),
)

-- The brackets that are open at the end: as many as states are left on the stack.
abbrev pub Ended : Json → Type 0
Ended j = (ks : List Bracket) × (nest [] j.message ≡ some ks) × (length ks ≡ length j.stack)

closed_end :
    (j : Json)
    → IsNested j
    → in_array j.state ≡ false
    → Ended (write (write j (closes curly)) (text (codes "\n")))
closed_end j h out = close-Fits j.message j.state j.stack h.open_brackets h.nested h.fits out

closed_some :
    (c : Bool) (j : Json)
    → IsNested j
    → (c ≡ false → in_array j.state ≡ false)
    → Ended (
        write
          (write (if c then end_while open_state (length j.stack + 1) j else j) (closes curly))
          (text (codes "\n")))
closed_some true j h k =
    closed_end (end_while open_state (length j.stack + 1) j)
      (end_while-IsNested open_state (length j.stack + 1) j h)
      (open_state-in_array _ (end_while-stops open_state (length j.stack + 1) j refl (omega arith)))
closed_some false j h k = closed_end j h (k refl)

finish_json-Ended : (j : Json) → IsNested j → Ended (finish_json j)
unfolding finish_json
finish_json-Ended j h =
    closed_some (ltb 1 (length (render j.message))) j h
      (array_written j.message j.state j.stack h.open_brackets h.nested h.fits)

module _ (trim encode convert : Bytes → Bytes) where
  started : IsNested (json (opens curly ∷ []) read_object [])
  unfolding nest
  started = record { open_brackets = curly ∷ []; nested = refl; fits = (refl, refl) }

  abbrev Shaped : Formatted → Type 0
  Shaped (formatted p out result) = (result ≡ trim (render out.message)) × Ended out
  Shaped panics = Unit
  Shaped running = Unit

  format_json-Shaped :
      (fuel : ℕ) (p : TransitionParser Action) (init bytes : Bytes)
      → Shaped (format_json trim encode convert fuel p [] init bytes)
  unfolding format_json
  format_json-Shaped fuel p init bytes =
      by_outcome (parse fuel p bytes init).0 (parse fuel p bytes init).1
    where
      by_outcome :
          (p' : TransitionParser Action) (o : Outcome Action)
          → Shaped (elim o [
            | fault ↦ panics
            | out_of_fuel ↦ running
            | done rest id states calls ↦
                let j =
                  run_calls trim encode convert p' calls (json (opens curly ∷ []) read_object []) in
                let j' : Json = elim rest [
                  | none ↦ j
                  | some r ↦ read_escaped trim encode convert j (get_state_name p' id) r
                ] in
                let out = finish_json j' in formatted p' out (trim (render out.message))
          ])
      by_outcome p' fault = tt
      by_outcome p' out_of_fuel = tt
      by_outcome p' (done none id states calls) =
          (refl, finish_json-Ended _ (run_calls-IsNested trim encode convert p' calls _ started))
      by_outcome p' (done (some r) id states calls) = (
        refl,
        finish_json-Ended _ (
            read_escaped-IsNested trim encode convert _ (get_state_name p' id) r
              (run_calls-IsNested trim encode convert p' calls _ started)),
      )

  -- What `Format` returns, for a formatter whose stack is empty, is the trimmed text of pieces whose
  -- brackets nest: each closing one closes the innermost open one, of its own kind. As many stay open
  -- as states are left on the stack; if none is left, all are closed.
  pub format_json-Ended :
      (fuel : ℕ) (p : TransitionParser Action) (init bytes : Bytes)
      → {p' : TransitionParser Action} {out : Json} {result : Bytes}
      → format_json trim encode convert fuel p [] init bytes ≡ formatted p' out result
      → (result ≡ trim (render out.message)) × Ended out
  format_json-Ended fuel p init bytes e = subst Shaped e (format_json-Shaped fuel p init bytes)

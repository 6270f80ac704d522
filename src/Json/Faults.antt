-- ===== src/Json/Faults.antt =====
-- format/json.go: output that is not what it should be.
use x_pipeline.Prelude.{
  if_false, if_same, ℕ, zero, suc, ◌+◌, Bool, false, List, [], ◌∷◌, ◌++◌, Bytes, codes, length, ltb,
  if◌then◌else◌, ◌≡◌, refl, ap, ◌∙◌,
}
use x_pipeline.Json.{
  Bracket, curly, square, Piece, closes, text, ReaderState, read_value, Json, in_array, write,
  read_end, end_while, write_key, read_key_of, finish_json, open_state, render,
}
use x_pipeline.Json.Nesting.{json}

end_while_off :
    (goes : ReaderState → Bool) (n : ℕ) (m : List Piece) (s : ReaderState)
    (stack : List ReaderState)
    → goes s ≡ false
    → end_while goes n (json m s stack) ≡ json m s stack
unfolding end_while
end_while_off goes zero m s stack e = refl
end_while_off goes (suc n) m s stack e = if_false (goes s) _ (json m s stack) e

value_key :
    (m : List Piece) (stack : List ReaderState) (name : Bytes)
    → (write_key (json m read_value stack) name).message
      ≡ ((m ++ text (codes "null") ∷ []) ++ text (codes ",") ∷ [])
        ++ text (b'"' ∷ name ++ codes "\":") ∷ []
unfolding write_key
value_key m stack name = rw (end_while_off in_array (length stack + 1) m read_value stack refl)

-- An object that is the value of a key of an inner object, and whose last state is not an array's:
-- behind its end the next key writes a null, though the value is there.
pub end_key_null :
    (m : List Piece) (st s : ReaderState) (rest : List ReaderState) (name : Bytes)
    → in_array st ≡ false
    → (read_key_of (read_end (json m st (read_value ∷ s ∷ rest))) name).message
      ≡ (((m ++ closes curly ∷ []) ++ text (codes "null") ∷ []) ++ text (codes ",") ∷ [])
        ++ text (b'"' ∷ name ++ codes "\":") ∷ []
unfolding read_end read_key_of
end_key_null m st s rest name out =
    value_key (m ++ closes (if in_array st then square else curly) ∷ []) (s ∷ rest) name
    ∙ ap
        (λ (k : Bracket).
          (((m ++ closes k ∷ []) ++ text (codes "null") ∷ []) ++ text (codes ",") ∷ [])
          ++ text (b'"' ∷ name ++ codes "\":") ∷ [])
        (if_false (in_array st) square curly out)

-- What is open stays open, and on the stack, if the last that was read in it is a key or a value.
pub finish_json_keeps_open :
    (m : List Piece) (s : ReaderState) (stack : List ReaderState)
    → open_state s ≡ false
    → finish_json (json m s stack)
      ≡ json ((m ++ closes curly ∷ []) ++ text (codes "\n") ∷ []) s stack
unfolding finish_json
finish_json_keeps_open m s stack e =
    ap (λ (j : Json). write (write j (closes curly)) (text (codes "\n")))
      (ap (λ (j : Json). if ltb 1 (length (render m)) then j else json m s stack)
          (end_while_off open_state (length stack + 1) m s stack e)
        ∙ if_same (ltb 1 (length (render m))) (json m s stack))

-- ===== src/Json/Nesting.antt =====
-- format/json.go: the brackets that are open in what was written, against the formatter's stack.
use x_pipeline.Prelude.{
  ℕ, zero, suc, ◌<◌, Bool, true, false, List, [], ◌∷◌, ◌++◌, Option, none, some, ◌>>=◌, Bytes,
  length, if◌then◌else◌, ◌≡◌, refl, ap, ◌∙◌, sym, arith, ◌⊎◌, inl, inr,
}
use x_pipeline.Json.{
  Bracket, curly, square, Piece, opens, closes, text, ReaderState, read_object, read_key,
  read_value, read_array, read_array_append, Json, in_array, write, resumed, read_end, end_while,
}

-- The brackets that are open behind some pieces, the innermost first; `none` for one that closes
-- nothing, or a bracket of the other kind.
unfoldable pub nest : List Bracket → List Piece → Option (List Bracket)
nest ks [] = some ks
nest ks (text bytes ∷ ps) = nest ks ps
nest ks (opens k ∷ ps) = nest (k ∷ ks) ps
nest [] (closes k ∷ ps) = none
nest (curly ∷ ks) (closes curly ∷ ps) = nest ks ps
nest (square ∷ ks) (closes square ∷ ps) = nest ks ps
nest (curly ∷ ks) (closes square ∷ ps) = none
nest (square ∷ ks) (closes curly ∷ ps) = none

pub nest-append :
    (ks : List Bracket) (ps qs : List Piece) {ks' : List Bracket}
    → nest ks ps ≡ some ks'
    → nest ks (ps ++ qs) ≡ nest ks' qs
unfolding nest
nest-append ks [] qs e = ap (λ (o : Option (List Bracket)). o >>= λ ls. nest ls qs) e
nest-append ks (text bytes ∷ ps) qs e = nest-append ks ps qs e
nest-append ks (opens k ∷ ps) qs e = nest-append (k ∷ ks) ps qs e
nest-append [] (closes k ∷ ps) qs e = cc
nest-append (curly ∷ ks) (closes curly ∷ ps) qs e = nest-append ks ps qs e
nest-append (square ∷ ks) (closes square ∷ ps) qs e = nest-append ks ps qs e
nest-append (curly ∷ ks) (closes square ∷ ps) qs e = cc
nest-append (square ∷ ks) (closes curly ∷ ps) qs e = cc

abbrev pub is_square : Bracket → Bool
is_square square = true
is_square curly = false

-- The open brackets fit the states on the stack: an array's is square, all others are curly.
abbrev pub Fits : ReaderState → List ReaderState → List Bracket → Type 0
Fits s [] ks = (in_array s ≡ false) × (ks ≡ curly ∷ [])
Fits s (t ∷ stack) [] = ⊥
Fits s (t ∷ stack) (k ∷ ks) = (is_square k ≡ in_array s) × Fits t stack ks

pub record IsNested (j : Json) : Type 0 where
  pub open_brackets : List Bracket
  pub nested : nest [] j.message ≡ some open_brackets
  pub fits : Fits j.state j.stack open_brackets

pub Fits-state :
    (s s' : ReaderState) (stack : List ReaderState) (ks : List Bracket)
    → in_array s ≡ in_array s'
    → Fits s stack ks
    → Fits s' stack ks
Fits-state s s' [] ks e (a, b) = (sym e ∙ a, b)
Fits-state s s' (t ∷ stack) [] e h = h
Fits-state s s' (t ∷ stack) (k ∷ ks) e (a, b) = (a ∙ e, b)

-- A text, and a change between two states that are both arrays or both not.
pub write_text-IsNested :
    (j : Json) (bytes : Bytes) (s : ReaderState)
    → in_array j.state ≡ in_array s
    → IsNested j
    → IsNested (record (write j (text bytes)) { state = s })
unfolding nest
write_text-IsNested j bytes s e h = record {
  open_brackets = h.open_brackets;
  nested = nest-append [] j.message (text bytes ∷ []) h.nested;
  fits = Fits-state j.state s j.stack h.open_brackets e h.fits;
}

pub state-IsNested :
    (j : Json) (s : ReaderState)
    → in_array j.state ≡ in_array s
    → IsNested j
    → IsNested (record j { state = s })
state-IsNested j s e h = record {
  open_brackets = h.open_brackets;
  nested = h.nested;
  fits = Fits-state j.state s j.stack h.open_brackets e h.fits;
}

-- The bracket that `readEnd` writes closes the innermost one.
closing :
    (s : ReaderState) (k : Bracket) (ks : List Bracket)
    → is_square k ≡ in_array s
    → nest (k ∷ ks) (closes (if in_array s then square else curly) ∷ []) ≡ some ks
unfolding nest
closing s curly ks e = rw (← e)
closing s square ks e = rw (← e)

abbrev pub json : List Piece → ReaderState → List ReaderState → Json
json m s stack = record { message = m; state = s; stack = stack }

resumed-in_array : (s : ReaderState) → in_array s ≡ in_array (resumed s)
resumed-in_array read_object = refl
resumed-in_array read_key = refl
resumed-in_array read_value = refl
resumed-in_array read_array = refl
resumed-in_array read_array_append = refl

end-IsNested :
    (m : List Piece) (s : ReaderState) (stack : List ReaderState) (ks : List Bracket)
    → nest [] m ≡ some ks
    → Fits s stack ks
    → IsNested (read_end (json m s stack))
unfolding read_end
end-IsNested m s [] ks e (a, b) = record { open_brackets = ks; nested = e; fits = (refl, b) }
end-IsNested m s (t ∷ stack) [] e h = absurd h
end-IsNested m s (t ∷ []) (k ∷ ks) e (a, b) = record {
  open_brackets = ks;
  nested =
      nest-append [] m (closes (if in_array s then square else curly) ∷ []) e ∙ closing s k ks a;
  fits = (refl, b.1);
}
end-IsNested m s (t ∷ t' ∷ rest) (k ∷ ks) e (a, b) = record {
  open_brackets = ks;
  nested =
      nest-append [] m (closes (if in_array s then square else curly) ∷ []) e ∙ closing s k ks a;
  fits = Fits-state t (resumed t) (t' ∷ rest) ks (resumed-in_array t) b;
}

pub read_end-IsNested : (j : Json) → IsNested j → IsNested (read_end j)
read_end-IsNested j h = end-IsNested j.message j.state j.stack h.open_brackets h.nested h.fits

pub if_IsNested :
    (c : Bool) (j j' : Json) → IsNested j → IsNested j' → IsNested (if c then j else j')
if_IsNested true j j' h h' = h
if_IsNested false j j' h h' = h'

pub end_while-IsNested :
    (goes : ReaderState → Bool) (fuel : ℕ) (j : Json)
    → IsNested j
    → IsNested (end_while goes fuel j)
unfolding end_while
end_while-IsNested goes zero j h = h
end_while-IsNested goes (suc fuel) j h =
    if_IsNested (goes j.state) _ j
      (end_while-IsNested goes fuel (read_end j) (read_end-IsNested j h)) h

-- A turn of a loop takes a state off the stack, or finds it empty.
read_end-stack :
    (j : Json) → ((read_end j).state ≡ read_key) ⊎ (length (read_end j).stack < length j.stack)
unfolding read_end
read_end-stack j = go j.stack
  where
    go :
        (stack : List ReaderState)
        → ((read_end (json j.message j.state stack)).state ≡ read_key)
          ⊎ (length (read_end (json j.message j.state stack)).stack < length stack)
    go [] = inl refl
    go (s ∷ []) = inl refl
    go (s ∷ s' ∷ rest) = inr (omega arith)

choose_state :
    (goes : ReaderState → Bool) (c : Bool) (x j : Json)
    → (c ≡ true → goes x.state ≡ false)
    → (c ≡ false → goes j.state ≡ false)
    → goes (if c then x else j).state ≡ false
choose_state goes true x j h k = h refl
choose_state goes false x j h k = k refl

end_while_stopped :
    (goes : ReaderState → Bool) (fuel : ℕ) (j : Json)
    → goes j.state ≡ false
    → goes (end_while goes fuel j).state ≡ false
unfolding end_while
end_while_stopped goes zero j h = h
end_while_stopped goes (suc fuel) j h =
    choose_state goes (goes j.state) (end_while goes fuel (read_end j)) j (λ on. cc) (λ off. h)

-- One turn for each state on the stack and one more are enough for a loop of `readEnd` to stop.
pub end_while-stops :
    (goes : ReaderState → Bool) (fuel : ℕ) (j : Json)
    → goes read_key ≡ false
    → length j.stack < fuel
    → goes (end_while goes fuel j).state ≡ false
unfolding end_while
end_while-stops goes zero j key h = absurd (omega arith)
end_while-stops goes (suc fuel) j key h =
    choose_state goes (goes j.state) (end_while goes fuel (read_end j)) j
      (λ on. elim (read_end-stack j) [
        | inl at_key ↦ end_while_stopped goes fuel (read_end j) (ap goes at_key ∙ key)
        | inr shorter ↦ end_while-stops goes fuel (read_end j) key (omega arith)
      ])
      (λ off. off)

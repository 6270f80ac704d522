-- ===== src/Json/Balance.antt =====
-- format/json.go: keys, values and brackets, and the brackets that stay open behind them.
use x_pipeline.Prelude.{
  ◌+◌, Bool, true, false, List, [], ◌∷◌, ◌++◌, Bytes, codes, length, if◌then◌else◌, ◌≡◌, refl, ap,
  ◌∙◌, sym, arith,
}
use x_pipeline.Json.{
  Bracket, curly, square, Piece, opens, text, ReaderState, read_object, read_key, read_value,
  read_array, read_array_append, Json, in_array, write, end_while, write_key, past_key, is_object,
  read_key_of, put_value, skip_value, open_bracket, and_end,
}
use x_pipeline.Json.Nesting.{
  nest, nest-append, IsNested, write_text-IsNested, state-IsNested, read_end-IsNested,
  end_while-IsNested, end_while-stops, if_IsNested, is_square, json,
}

if_state : (c : Bool) (j j' : Json) → j.state ≡ j'.state → (if c then j else j').state ≡ j'.state
if_state true j j' e = e
if_state false j j' e = refl

write_key-state : (j : Json) (name : Bytes) → in_array (write_key j name).state ≡ false
unfolding write_key
write_key-state j name =
    let j1 = end_while in_array (length j.stack + 1) j in
    let j2 = if past_key j1.state then write j1 (text (codes "null")) else j1 in
    ap in_array (if_state (is_object j2.state) j2 (write j2 (text (codes ","))) refl)
    ∙ ap in_array (if_state (past_key j1.state) (write j1 (text (codes "null"))) j1 refl)
    ∙ end_while-stops in_array (length j.stack + 1) j refl (omega arith)

write_key-IsNested : (j : Json) (name : Bytes) → IsNested j → IsNested (write_key j name)
unfolding write_key
write_key-IsNested j name h =
    let j1 = end_while in_array (length j.stack + 1) j in
    let h1 : IsNested j1 = end_while-IsNested in_array (length j.stack + 1) j h in
    let j2 = if past_key j1.state then write j1 (text (codes "null")) else j1 in
    let h2 : IsNested j2 =
      if_IsNested (past_key j1.state) (write j1 (text (codes "null"))) j1
        (write_text-IsNested j1 (codes "null") j1.state refl h1) h1 in
    let j3 = if is_object j2.state then j2 else write j2 (text (codes ",")) in
    let h3 : IsNested j3 =
      if_IsNested (is_object j2.state) j2 (write j2 (text (codes ","))) h2
        (write_text-IsNested j2 (codes ",") j2.state refl h2) in
    write_text-IsNested j3 _ j3.state refl h3

pub read_key_of-IsNested : (j : Json) (bytes : Bytes) → IsNested j → IsNested (read_key_of j bytes)
unfolding read_key_of
read_key_of-IsNested j bytes h =
    state-IsNested (write_key j bytes) read_value (write_key-state j bytes)
      (write_key-IsNested j bytes h)

keyed-IsNested :
    (j : Json) (name bytes : Bytes)
    → IsNested j
    → IsNested (record (write (write_key j name) (text bytes)) { state = read_key })
keyed-IsNested j name bytes h =
    write_text-IsNested (write_key j name) bytes read_key (write_key-state j name)
      (write_key-IsNested j name h)

put-IsNested :
    (m : List Piece) (s : ReaderState) (stack : List ReaderState) (name bytes : Bytes)
    → IsNested (json m s stack)
    → IsNested (put_value (json m s stack) name bytes)
unfolding put_value
put-IsNested m read_value stack name bytes h =
    write_text-IsNested (json m read_value stack) bytes read_key refl h
put-IsNested m read_array stack name bytes h =
    write_text-IsNested (json m read_array stack) bytes read_array_append refl h
put-IsNested m read_array_append stack name bytes h =
    write_text-IsNested (write (json m read_array_append stack) (text (codes ","))) bytes
      read_array_append refl
      (write_text-IsNested (json m read_array_append stack) (codes ",") read_array_append refl h)
put-IsNested m read_object stack name bytes h =
    keyed-IsNested (json m read_object stack) name bytes h
put-IsNested m read_key stack name bytes h = keyed-IsNested (json m read_key stack) name bytes h

pub put_value-IsNested :
    (j : Json) (name bytes : Bytes) → IsNested j → IsNested (put_value j name bytes)
put_value-IsNested j name bytes h = put-IsNested j.message j.state j.stack name bytes h

pub skip-IsNested :
    (m : List Piece) (s : ReaderState) (stack : List ReaderState)
    → IsNested (json m s stack)
    → IsNested (skip_value (json m s stack))
unfolding skip_value
skip-IsNested m read_value stack h = state-IsNested (json m read_value stack) read_key refl h
skip-IsNested m read_array stack h = h
skip-IsNested m read_array_append stack h = h
skip-IsNested m read_object stack h = state-IsNested (json m read_object stack) read_key refl h
skip-IsNested m read_key stack h = h

abbrev opened_state : Bracket → ReaderState
opened_state square = read_array
opened_state curly = read_object

opened_state-is_square : (k : Bracket) → is_square k ≡ in_array (opened_state k)
opened_state-is_square square = refl
opened_state-is_square curly = refl

-- A bracket is opened, and the state goes on the stack.
push-IsNested :
    (j : Json) (k : Bracket)
    → IsNested j
    → IsNested (json (j.message ++ opens k ∷ []) (opened_state k) (j.state ∷ j.stack))
unfolding nest
push-IsNested j k h = record {
  open_brackets = k ∷ h.open_brackets;
  nested = nest-append [] j.message (opens k ∷ []) h.nested;
  fits = (opened_state-is_square k, h.fits);
}

pub open-IsNested :
    (k : Bracket) (m : List Piece) (s : ReaderState) (stack : List ReaderState) (name : Bytes)
    → IsNested (json m s stack)
    → IsNested (open_bracket k (json m s stack) name)
unfolding open_bracket
open-IsNested square m read_value stack name h = push-IsNested (json m read_value stack) square h
open-IsNested square m read_array stack name h = push-IsNested (json m read_array stack) square h
open-IsNested square m read_object stack name h = push-IsNested (json m read_object stack) square h
open-IsNested square m read_array_append stack name h =
    push-IsNested (write (json m read_array_append stack) (text (codes ","))) square
      (write_text-IsNested (json m read_array_append stack) (codes ",") read_array_append refl h)
open-IsNested square m read_key stack name h =
    push-IsNested (write_key (json m read_key stack) name) square
      (write_key-IsNested (json m read_key stack) name h)
open-IsNested curly m read_value stack name h = push-IsNested (json m read_value stack) curly h
open-IsNested curly m read_array stack name h = push-IsNested (json m read_array stack) curly h
open-IsNested curly m read_object stack name h = push-IsNested (json m read_object stack) curly h
open-IsNested curly m read_array_append stack name h =
    push-IsNested (write (json m read_array_append stack) (text (codes ","))) curly
      (write_text-IsNested (json m read_array_append stack) (codes ",") read_array_append refl h)
open-IsNested curly m read_key stack name h =
    push-IsNested (write_key (json m read_key stack) name) curly
      (write_key-IsNested (json m read_key stack) name h)

put-in_array :
    (m : List Piece) (s : ReaderState) (stack : List ReaderState) (name bytes : Bytes)
    → in_array s ≡ in_array (put_value (json m s stack) name bytes).state
unfolding put_value
put-in_array m read_value stack name bytes = refl
put-in_array m read_array stack name bytes = refl
put-in_array m read_array_append stack name bytes = refl
put-in_array m read_object stack name bytes = refl
put-in_array m read_key stack name bytes = refl

skip_state-in_array :
    (m : List Piece) (s : ReaderState) (stack : List ReaderState)
    → in_array s ≡ in_array (skip_value (json m s stack)).state
unfolding skip_value
skip_state-in_array m read_value stack = refl
skip_state-in_array m read_array stack = refl
skip_state-in_array m read_array_append stack = refl
skip_state-in_array m read_object stack = refl
skip_state-in_array m read_key stack = refl

pub skip-in_array : (j : Json) → in_array j.state ≡ in_array (skip_value j).state
skip-in_array j = skip_state-in_array j.message j.state j.stack

pub same_if :
    (c : Bool) (j x y : Json)
    → in_array j.state ≡ in_array x.state
    → in_array j.state ≡ in_array y.state
    → in_array j.state ≡ in_array (if c then x else y).state
same_if true j x y h k = h
same_if false j x y h k = k

pub and_end-IsNested :
    (j j' : Json) → in_array j.state ≡ in_array j'.state → IsNested j' → IsNested (and_end j j')
and_end-IsNested j j' e h =
    read_end-IsNested (record j' { state = j.state }) (state-IsNested j' j.state (sym e) h)

-- A value does not lead into an array, or out of one.
pub put_value-in_array :
    (j : Json) (name bytes : Bytes) → in_array j.state ≡ in_array (put_value j name bytes).state
put_value-in_array j name bytes = put-in_array j.message j.state j.stack name bytes

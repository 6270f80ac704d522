-- ===== src/Json/Actions.antt =====
-- format/json.go: what each callback writes, bracket by bracket.
use x_pipeline.Prelude.{List, [], ◌∷◌, Bytes, length, ◌==◌, ◌≡◌}
use x_pipeline.Parser.{TransitionParser, Call, get_state_name}
use x_pipeline.Json.{
  curly, square, Json, in_array, put_value, skip_value, open_bracket, Action, key, val, esc, dat,
  arr, obj, end, arr_val, arr_esc, val_end, esc_end, dat_end, read_value_of, read_escaped,
  read_date, run_action, run_calls,
}
use x_pipeline.Json.Nesting.{IsNested, read_end-IsNested, if_IsNested}
use x_pipeline.Json.Balance.{
  skip-IsNested, put_value-IsNested, skip-in_array, put_value-in_array, open-IsNested, same_if,
  and_end-IsNested, read_key_of-IsNested,
}

module _ (trim encode convert : Bytes → Bytes) where
  read_value_of-IsNested :
      (j : Json) (name bytes : Bytes)
      → IsNested j
      → IsNested (read_value_of trim encode convert j name bytes)
  unfolding read_value_of
  read_value_of-IsNested j name bytes h =
      if_IsNested (length (trim bytes) == 0) (skip_value j) (put_value j name (trim bytes))
        (skip-IsNested j.message j.state j.stack h) (put_value-IsNested j name (trim bytes) h)

  pub read_escaped-IsNested :
      (j : Json) (name bytes : Bytes)
      → IsNested j
      → IsNested (read_escaped trim encode convert j name bytes)
  unfolding read_escaped
  read_escaped-IsNested j name bytes h =
      if_IsNested (length (trim bytes) == 0) (skip_value j) (put_value j name (encode (trim bytes)))
        (skip-IsNested j.message j.state j.stack h)
        (put_value-IsNested j name (encode (trim bytes)) h)

  escaped-in_array :
      (j : Json) (name bytes : Bytes)
      → in_array j.state ≡ in_array (read_escaped trim encode convert j name bytes).state
  unfolding read_escaped
  escaped-in_array j name bytes =
      same_if (length (trim bytes) == 0) j (skip_value j) (put_value j name (encode (trim bytes)))
        (skip-in_array j) (put_value-in_array j name (encode (trim bytes)))

  run_action-IsNested :
      (a : Action) (j : Json) (name bytes : Bytes)
      → IsNested j
      → IsNested (run_action trim encode convert a j name bytes)
  unfolding run_action read_date
  run_action-IsNested key j name bytes h = read_key_of-IsNested j bytes h
  run_action-IsNested val j name bytes h = read_value_of-IsNested j name bytes h
  run_action-IsNested esc j name bytes h = read_escaped-IsNested j name bytes h
  run_action-IsNested dat j name bytes h = read_escaped-IsNested j name (convert (trim bytes)) h
  run_action-IsNested arr j name bytes h = open-IsNested square j.message j.state j.stack name h
  run_action-IsNested obj j name bytes h = open-IsNested curly j.message j.state j.stack name h
  run_action-IsNested end j name bytes h = read_end-IsNested j h
  run_action-IsNested arr_val j name bytes h =
      read_value_of-IsNested (open_bracket square j name) name bytes
        (open-IsNested square j.message j.state j.stack name h)
  run_action-IsNested arr_esc j name bytes h =
      read_escaped-IsNested (open_bracket square j name) name bytes
        (open-IsNested square j.message j.state j.stack name h)
  run_action-IsNested val_end j name bytes h =
      and_end-IsNested j (read_value_of trim encode convert j name bytes)
        (same_if (length (trim bytes) == 0) j (skip_value j) (put_value j name (trim bytes))
          (skip-in_array j) (put_value-in_array j name (trim bytes)))
        (read_value_of-IsNested j name bytes h)
  run_action-IsNested esc_end j name bytes h =
      and_end-IsNested j (read_escaped trim encode convert j name bytes)
        (escaped-in_array j name bytes) (read_escaped-IsNested j name bytes h)
  run_action-IsNested dat_end j name bytes h =
      and_end-IsNested j (read_escaped trim encode convert j name (convert (trim bytes)))
        (escaped-in_array j name (convert (trim bytes)))
        (read_escaped-IsNested j name (convert (trim bytes)) h)

  pub run_calls-IsNested :
      (p : TransitionParser Action) (cs : List (Call Action)) (j : Json)
      → IsNested j
      → IsNested (run_calls trim encode convert p cs j)
  unfolding run_calls
  run_calls-IsNested p [] j h = h
  run_calls-IsNested p (c ∷ cs) j h =
      run_calls-IsNested p cs _
        (run_action-IsNested c.callee j (get_state_name p c.in_state) c.value h)

-- ===== src/Filters/Patterns.antt =====
-- filter/json.go and filter/regexp.go. `compile` is `regexp.Compile`, with MatchString as a test of texts;
-- `decode` is `json.Unmarshal` into a map; `format_float` is `strconv.FormatFloat` on the text of a
-- number. `none` is an error of Configure, the end of the program, or a panic of a path.
pub mod FieldTests
mod Tests
use x_pipeline.Prelude.{
  Bool, true, false, List, [], ◌∷◌, Option, none, some, ◌>>=◌, Bytes, codes, if◌then◌else◌, ◌≡◌, ap,
}
use x_pipeline.MarshalMap.{
  Value, boolean, number, text, Fields, Number, Resolved, found, missing, panics, path,
}
use x_pipeline.PluginConfig.{PluginConfig, get_string, get_string_map}
use x_pipeline.Message.{Message}

abbrev pub Pattern : Type 0
Pattern = Bytes → Bool

pub record JsonFilter : Type 0 where
  pub reject_values : List (Bytes × Pattern)
  pub accept_values : List (Bytes × Pattern)

pub record RegExp : Type 0 where
  pub exp : Option Pattern
  pub exp_not : Option Pattern

module _ (compile : Bytes → Option Pattern) where
  unfoldable pub compile_all : List (Bytes × Bytes) → Option (List (Bytes × Pattern))
  compile_all [] = some []
  compile_all ((key, val) ∷ rest) =
      compile val >>= λ exp. compile_all rest >>= λ more. some ((key, exp) ∷ more)

  unfoldable pub configure_json_filter : PluginConfig → Option JsonFilter
  unfolding compile_all get_string_map
  configure_json_filter conf = get_string_map conf (codes "FilterReject") [] >>= λ r.
      get_string_map r.0 (codes "FilterAccept") [] >>= λ a. compile_all r.1 >>= λ rejects.
      compile_all a.1 >>= λ accepted.
      some (record { reject_values = rejects; accept_values = accepted })

  -- An empty expression is no expression.
  abbrev pub compile_given : Bytes → Option (Option Pattern)
  compile_given [] = some none
  compile_given (c ∷ cs) = compile (c ∷ cs) >>= λ exp. some (some exp)

  unfoldable pub configure_reg_exp : PluginConfig → Option RegExp
  unfolding get_string
  configure_reg_exp conf = get_string conf (codes "FilterExpression") [] >>= λ e.
      compile_given e.1 >>= λ exp. get_string e.0 (codes "FilterExpressionNot") [] >>= λ n.
      compile_given n.1 >>= λ exp_not. some (record { exp = exp; exp_not = exp_not })

abbrev pub matches_or : Option Pattern → Bool → Bytes → Bool
matches_or none otherwise s = otherwise
matches_or (some p) otherwise s = p s

unfoldable pub reg_exp_accepts : RegExp → Message → Bool
reg_exp_accepts filter msg =
    if matches_or filter.exp_not false msg.payload
    then false
    else matches_or filter.exp true msg.payload

module _ (atoi : Bytes → Option Number) (format_float : Bytes → Bytes)
    (decode : Bytes → Option Fields) where
  abbrev pub text_of : Value → Option Bytes
  text_of (text s) = some s
  text_of (boolean true) = some (codes "true")
  text_of (boolean false) = some (codes "false")
  text_of (number n) = some (format_float n)
  text_of v = none

  abbrev pub resolved_text : Resolved → Option (Option Bytes)
  resolved_text (found v) = some (text_of v)
  resolved_text missing = some none
  resolved_text panics = none

  unfoldable pub get_text : Bytes → Fields → Option (Option Bytes)
  unfolding path
  get_text key values = resolved_text (path atoi values key)

  -- A loop over the fields: does the text of one that exists match, or not match, as `wanted` says?
  unfoldable pub any_field : Bool → List (Bytes × Pattern) → Fields → Option Bool
  unfolding get_text
  any_field wanted [] values = some false
  any_field wanted ((key, exp) ∷ rest) values =
      let later = any_field wanted rest values in
      get_text key values >>= λ v. elim v [
        | none ↦ later
        | some s ↦
            if exp s
            then if wanted then some true else later
            else if wanted
            then later
            else some true
      ]

  unfoldable pub json_accepts : JsonFilter → Message → Option Bool
  unfolding any_field
  json_accepts filter msg = elim (decode msg.payload) [
    | none ↦ some false
    | some values ↦ any_field true filter.reject_values values >>= λ rejected.
        if rejected
        then some false
        else (any_field false filter.accept_values values >>= λ failed.
            some (if failed then false else true))
  ]

  -- The text of each field that exists matches, or does not match, as `wanted` says.
  abbrev pub AllFields : Bool → List (Bytes × Pattern) → Fields → Type 0
  AllFields wanted [] values = Unit
  AllFields wanted ((key, exp) ∷ rest) values =
      ((s : Bytes) → get_text key values ≡ some (some s) → exp s ≡ wanted)
      × AllFields wanted rest values

  -- Every field is looked up without a panic.
  abbrev pub AllResolve : List (Bytes × Pattern) → Fields → Type 0
  AllResolve [] values = Unit
  AllResolve ((key, exp) ∷ rest) values =
      ((v : Option Bytes) × (get_text key values ≡ some v)) × AllResolve rest values

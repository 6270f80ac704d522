-- ===== src/Filters/Patterns/Tests.antt =====
-- A message with one field.
use x_pipeline.Prelude.{
  true, false, [], ◌∷◌, Option, none, some, Bytes, codes, equal, ◌==◌, ◌≡◌, ◌↔◌, refl, length,
}
use x_pipeline.MarshalMap.{
  text, Fields, field, no_fields, Number, path, resolve_path, resolve_field, resolve_path_key,
  position,
}
use x_pipeline.Message.{Message}
use x_pipeline.Filters.Patterns.{JsonFilter, get_text, json_accepts, AllFields, any_field}
use x_pipeline.Filters.Patterns.FieldTests.{json_accepts-AllFields}

abbrev atoi : Bytes → Option Number
atoi s = none

abbrev same : Bytes → Bytes
same s = s

abbrev values : Fields
values = field (codes "k") (text (codes "v")) no_fields

abbrev decode : Bytes → Option Fields
decode s = some values

abbrev filter : JsonFilter
filter = record {
  reject_values = (codes "other", λ s. true) ∷ [];
  accept_values = (codes "k", λ s. length s == 1) ∷ [];
}

abbrev message : Message
message = record { payload = codes "m"; stream_id = 1; prev_stream_id = 1; sequence = 0 }

accepted : json_accepts atoi same decode filter message ≡ some true
unfolding json_accepts any_field get_text path resolve_path resolve_field resolve_path_key position
    equal
accepted = refl

json_accepts-AllFields_example : (json_accepts atoi same decode filter message ≡ some true) ↔ (
    AllFields atoi same decode false ((codes "other", λ s. true) ∷ []) values
    × AllFields atoi same decode true ((codes "k", λ s. length s == 1) ∷ []) values)
unfolding get_text path resolve_path resolve_field resolve_path_key position equal
json_accepts-AllFields_example =
    json_accepts-AllFields atoi same decode filter message values refl ((none, refl), tt)
      ((some (codes "v"), refl), tt)

-- ===== src/MarshalMap/Tests.antt =====
-- Paths into a small document.
use x_pipeline.Prelude.{◌-◌, equal, [], ◌∷◌, Option, none, some, Bytes, codes, ◌≡◌, refl, arith}
use x_pipeline.MarshalMap.{
  Value, null, text, array, object, Items, no_items, item, no_fields, field, Number, at, below_zero,
  found, resolve_path,
}
use x_pipeline.MarshalMap.Paths.{to_field, to_item, follow, written, resolve_path-follow}

-- One digit, or a sign and one digit.
abbrev one_digit : Bytes → Option Number
one_digit (d ∷ []) = some (at (d - b'0'))
one_digit (s ∷ d ∷ []) = some (below_zero (d - b'1'))
one_digit bytes = none

abbrev two_items : Items
two_items = item null (item (object (field (codes "b") (text (codes "x")) no_fields)) no_items)

abbrev document : Value
document = object (field (codes "a") (array two_items) no_fields)

followed :
    follow (to_field (codes "a") ∷ to_item (codes "1") 1 ∷ to_field (codes "b") ∷ []) document
    ≡ some (text (codes "x"))
unfolding follow equal
followed = refl

resolve_path-follow_example :
    resolve_path one_digit
      (written (to_field (codes "a") ∷ to_item (codes "1") 1 ∷ to_field (codes "b") ∷ []))
      document
    ≡ found (text (codes "x"))
resolve_path-follow_example =
    resolve_path-follow one_digit
      (to_field (codes "a") ∷ to_item (codes "1") 1 ∷ to_field (codes "b") ∷ []) document
      (text (codes "x"))
      (
        omega arith,
        (refl, tt),
        (refl, tt),
        (omega arith, (refl, tt), refl, (omega arith, (refl, tt), (refl, tt), tt)),
      )
      followed

-- ===== src/ProcessJson/Tests.antt =====
-- Directives on a small document.
use x_pipeline.Prelude.{true, equal, codes, [], ◌∷◌, some, ◌≡◌, refl}
use x_pipeline.MarshalMap.{
  null, text, array, Items, no_items, item, Fields, no_fields, field, at, lookup,
}
use x_pipeline.ProcessJson.{remove, process_directive, set_field, of_list, to_list, is_listed}
use x_pipeline.ProcessJson.Removal.{kept_of, process_directive-remove}

abbrev letters : Items
letters =
    item (text (codes "a")) (item (text (codes "b")) (item null (item (text (codes "c")) no_items)))

abbrev document : Fields
document = field (codes "k") (array letters) no_fields

in_document : lookup document (codes "k") ≡ some (array letters)
unfolding lookup equal
in_document = refl

process_directive-remove_example :
    process_directive
      (λ s cut. s)
      (λ s old new. s)
      (λ s. at 0)
      (λ s. true)
      (record { key = codes "k"; operation = remove; parameters = codes "b" ∷ [] })
      document
    ≡ some (
        set_field document
          (codes "k")
          (array (of_list (kept_of (is_listed (codes "b" ∷ [])) (to_list letters)))))
process_directive-remove_example =
    process_directive-remove (λ s cut. s) (λ s old new. s) (λ s. at 0) (λ s. true) (codes "k")
      (codes "b") [] document letters in_document

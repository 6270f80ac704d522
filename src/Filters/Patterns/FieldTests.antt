-- ===== src/Filters/Patterns/FieldTests.antt =====
-- filter/json.go: which fields a message must have to be accepted.
use x_pipeline.Prelude.{
  Bool, true, false, not, List, [], ◌∷◌, Option, none, some, ◌>>=◌, Bytes, if◌then◌else◌, if_true,
  if_false, Bool-cases, inl, inr, ◌↔◌, ◌≡◌, refl, sym, ap, ◌∙◌,
}
use x_pipeline.MarshalMap.{Fields, Number}
use x_pipeline.Message.{Message}
use x_pipeline.Filters.Patterns.{
  Pattern, JsonFilter, get_text, any_field, json_accepts, AllFields, AllResolve,
}

module _ (atoi : Bytes → Option Number) (format_float : Bytes → Bytes)
    (decode : Bytes → Option Fields) where
  -- One field: what it adds to the later ones.
  abbrev one_field : Bool → Pattern → Option Bytes → Option Bool → Option Bool
  one_field wanted exp v later = elim v [
    | none ↦ later
    | some s ↦
        if exp s then if wanted then some true else later else if wanted then later else some true
  ]

  abbrev IsDecided : Bool → (fails : Bool → Type 0) → Option Bool → Type 0
  IsDecided wanted fails o = (b : Bool) × (o ≡ some b) × fails b

  decided :
      (wanted : Bool) (key : Bytes) (exp : Pattern) (values : Fields) (v : Option Bytes)
      → (b : Bool) (Later : Type 0) → get_text atoi format_float decode key values ≡ some v
      → ((b ≡ false) ↔ Later)
      → (c : Bool) × (one_field wanted exp v (some b) ≡ some c)
        × ((c ≡ false) ↔ (
            ((s : Bytes)
              → get_text atoi format_float decode key values ≡ some (some s)
              → exp s ≡ not wanted)
            × Later))
  decided wanted key exp values none b Later e (to, back) =
      (b, refl, ((λ h. ((λ s k. cc), to h)), λ (all, later). back later))
  decided true key exp values (some s) b Later e (to, back) = elim (Bool-cases (exp s)) [
    | inl hit ↦ (
      true,
      if_true (exp s) (some true) (some b) hit,
      ((λ h. cc), λ (all, later). let no = all s e in cc),
    )
    | inr miss ↦ (
      b,
      if_false (exp s) (some true) (some b) miss,
      (
        (λ h. ((λ t k. let same : s ≡ t = cc in ap exp (sym same) ∙ miss), to h)),
        λ (all, later). back later,
      ),
    )
  ]
  decided false key exp values (some s) b Later e (to, back) = elim (Bool-cases (exp s)) [
    | inl hit ↦ (
      b,
      if_true (exp s) (some b) (some true) hit,
      (
        (λ h. ((λ t k. let same : s ≡ t = cc in ap exp (sym same) ∙ hit), to h)),
        λ (all, later). back later,
      ),
    )
    | inr miss ↦ (
      true,
      if_false (exp s) (some b) (some true) miss,
      ((λ h. cc), λ (all, later). let no = all s e in cc),
    )
  ]

  any_field-AllFields :
      (wanted : Bool) (entries : List (Bytes × Pattern)) (values : Fields)
      → AllResolve atoi format_float decode entries values
      → (b : Bool) × (any_field atoi format_float decode wanted entries values ≡ some b)
        × ((b ≡ false) ↔ AllFields atoi format_float decode (not wanted) entries values)
  unfolding any_field
  any_field-AllFields wanted [] values h = (false, refl, ((λ e. tt), λ e. refl))
  any_field-AllFields wanted ((key, exp) ∷ rest) values ((v, found), h) =
      let (b, e, iff) = any_field-AllFields wanted rest values h in
      let (c, e', iff') =
        decided wanted key exp values v b
          (AllFields atoi format_float decode (not wanted) rest values) found iff in
      (
        c,
        ap
              (λ o. o >>= λ v.
                one_field wanted exp v (any_field atoi format_float decode wanted rest values))
              found
            ∙ ap (λ o. one_field wanted exp v o) e
            ∙ e',
        iff',
      )

  both_false :
      (b c : Bool)
      → ((if b then some false else some (if c then false else true)) ≡ some true)
        ↔ ((b ≡ false) × (c ≡ false))
  both_false true c = ((λ h. cc), λ (h, k). cc)
  both_false false true = ((λ h. cc), λ (h, k). cc)
  both_false false false = ((λ h. (refl, refl)), λ h. refl)

  -- A message that is decoded, whose fields are all looked up without a panic, is accepted exactly if no
  -- field for rejection that exists as a text, a number or a boolean matches its expression, and each
  -- such field for acceptance does: in whatever order the maps are gone through, and with fields that do
  -- not exist ignored.
  pub json_accepts-AllFields :
      (filter : JsonFilter) (msg : Message) (values : Fields)
      → decode msg.payload ≡ some values
      → AllResolve atoi format_float decode filter.reject_values values
      → AllResolve atoi format_float decode filter.accept_values values
      → (json_accepts atoi format_float decode filter msg ≡ some true) ↔ (
          AllFields atoi format_float decode false filter.reject_values values
          × AllFields atoi format_float decode true filter.accept_values values)
  unfolding json_accepts
  json_accepts-AllFields filter msg values e h k =
      let (b, at_b, (to_b, back_b)) = any_field-AllFields true filter.reject_values values h in
      let (c, at_c, (to_c, back_c)) = any_field-AllFields false filter.accept_values values k in
      let (to, back) = both_false b c in
      let same : json_accepts atoi format_float decode filter msg
          ≡ (if b then some false else some (if c then false else true)) =
        rw (e, json_accepts, at_b, at_c) refl in
      (
        (λ p. let (x, y) = to (sym same ∙ p) in (to_b x, to_c y)),
        λ (x, y). same ∙ back (back_b x, back_c y),
      )

-- ===== src/Methods/Coverage.antt =====
-- shared/utilities.go: when no method is missing.
use x_pipeline.Prelude.{
  ℕ, suc, ◌+◌, Bool, true, false, not, ◌||◌, List, [], ◌∷◌, Option, none, some, Bytes, length, ◌==◌,
  ==_refl, ==_iff, if◌then◌else◌, ◌↔◌, ◌≡◌, refl, ap, ◌∙◌, arith,
}
use x_pipeline.Methods.{
  MethodType, MethodFault, invalid, method_by_name, differ, signature_mismatch, fault_of, faults,
}

-- The method that is found under the name has the same types, behind a receiver.
abbrev pub IsGiven : List MethodType → MethodType → Type 0
IsGiven given m =
    (o : MethodType) × (receiver : ℕ) × (method_by_name given m.name ≡ some o)
    × (o.outs ≡ m.outs)
    × (o.ins ≡ receiver ∷ m.ins)

abbrev pub AllGiven : List MethodType → List MethodType → Type 0
AllGiven given [] = Unit
AllGiven given (m ∷ ms) = IsGiven given m × AllGiven given ms

differ_same : (xs ys : List ℕ) → length xs ≡ length ys → differ xs ys ≡ false → ys ≡ xs
unfolding differ
differ_same [] [] h k = refl
differ_same [] (y ∷ ys) h k = absurd (omega arith)
differ_same (x ∷ xs) [] h k = absurd (omega arith)
differ_same (x ∷ xs) (y ∷ ys) h k = ground (arith, differ_same xs ys)

differ_refl : (xs : List ℕ) → differ xs xs ≡ false
unfolding differ
differ_refl [] = refl
differ_refl (x ∷ xs) = ground (arith, differ_refl xs)

three_tests :
    (b c d e : Bool)
    → (if not b then true else if not c then true else d || e) ≡ false
    → (b ≡ true) × (c ≡ true) × (d ≡ false) × (e ≡ false)
three_tests true true false false h = (refl, refl, refl, refl)
three_tests true true false true h = cc
three_tests true true true e h = cc
three_tests true false d e h = cc
three_tests false c d e h = cc

signature_match :
    (m : MethodType) (name : Bytes) (ins outs : List ℕ)
    → signature_mismatch m (record { name = name; ins = ins; outs = outs }) ≡ false
    → (receiver : ℕ) × (outs ≡ m.outs) × (ins ≡ receiver ∷ m.ins)
unfolding signature_mismatch
signature_match m name [] outs h =
    let (a, b, c, d) =
      three_tests (length m.outs == length outs) (length m.ins + 1 == 0) (differ m.outs outs)
        (differ m.ins []) h in
    absurd (let no = (==_iff (length m.ins + 1) 0).0 b in omega arith)
signature_match m name (r ∷ rest) outs h =
    let (a, b, c, d) =
      three_tests (length m.outs == length outs) (length m.ins + 1 == length (r ∷ rest))
        (differ m.outs outs) (differ m.ins rest) h in
    let same_outs = (==_iff (length m.outs) (length outs)).0 a in
    let same_ins = (==_iff (length m.ins + 1) (length (r ∷ rest))).0 b in
    (
      r,
      differ_same m.outs outs same_outs c,
      ap (λ (xs : List ℕ). r ∷ xs) (differ_same m.ins rest (omega arith) d),
    )

match_signature :
    (m : MethodType) (o : MethodType) (receiver : ℕ)
    → o.outs ≡ m.outs
    → o.ins ≡ receiver ∷ m.ins
    → signature_mismatch m o ≡ false
unfolding signature_mismatch
match_signature m o receiver e f =
    let more : (length m.ins + 1 == suc (length m.ins)) ≡ true = ground arith in
    rw (e, f, ==_refl (length m.outs), more, differ_refl m.outs, differ_refl m.ins) refl

fault_of-none :
    (m : MethodType) (o : Option MethodType) (later : List MethodFault)
    → fault_of m o later ≡ []
    → ((g : MethodType) × (o ≡ some g) × (signature_mismatch m g ≡ false)) × (later ≡ [])
fault_of-none m none later h = cc
fault_of-none m (some g) later h = by_test (signature_mismatch m g) refl h
  where
    by_test :
        (b : Bool)
        → signature_mismatch m g ≡ b
        → (if b then invalid m.name ∷ later else later) ≡ []
        → ((g' : MethodType) × (some g ≡ some g') × (signature_mismatch m g' ≡ false))
          × (later ≡ [])
    by_test true e k = cc
    by_test false e k = ((g, refl, e), k)

-- No method is reported as missing or invalid exactly if the object has, for each method that is wanted,
-- one of the name with the same results, and the same parameters behind its receiver.
pub faults-AllGiven :
    (given wanted : List MethodType) → (faults given wanted ≡ []) ↔ AllGiven given wanted
unfolding faults
faults-AllGiven given [] = ((λ h. tt), λ h. refl)
faults-AllGiven given (m ∷ ms) =
    let (first, back) = faults-AllGiven given ms in
    (
      λ h.
          let ((g, at, same), rest) =
            fault_of-none m (method_by_name given m.name) (faults given ms) h in
          let (receiver, outs, ins) = signature_match m g.name g.ins g.outs same in
          ((g, receiver, at, outs, ins), first rest),
      λ (is_given, all).
          let (o, receiver, at, outs, ins) = is_given in
          ap (λ (p : Option MethodType). fault_of m p (faults given ms)) at
          ∙ ap (λ (b : Bool). if b then invalid m.name ∷ faults given ms else faults given ms)
              (match_signature m o receiver outs ins)
          ∙ back all,
    )

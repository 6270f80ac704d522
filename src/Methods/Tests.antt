-- ===== src/Methods/Tests.antt =====
-- An object with one of two methods.
use x_pipeline.Prelude.{ℕ, List, [], ◌∷◌, Bytes, codes, equal, ◌≡◌, refl, false}
use x_pipeline.Methods.{
  MethodType, missing, method_by_name, differ, signature_mismatch, faults, get_missing_methods,
}

abbrev method : Bytes → List ℕ → List ℕ → MethodType
method name ins outs = record { name = name; ins = ins; outs = outs }

abbrev given : List MethodType
given = method (codes "Streams") (9 ∷ []) (1 ∷ []) ∷ []

abbrev wanted : List MethodType
wanted = method (codes "Streams") [] (1 ∷ []) ∷ method (codes "Consume") (2 ∷ []) [] ∷ []

get_missing_methods-wanted :
    get_missing_methods false given wanted ≡ ((1, 2), missing (codes "Consume") ∷ [])
unfolding get_missing_methods faults method_by_name signature_mismatch differ equal
get_missing_methods-wanted = refl

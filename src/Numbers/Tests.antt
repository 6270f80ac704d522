-- ===== src/Numbers/Tests.antt =====
-- Runs of the numbers.
use x_pipeline.Prelude.{codes, ◌++◌, ◌≡◌, refl, arith, length}
use x_pipeline.Numbers.{btoi}
use x_pipeline.Numbers.Decimal.{itoa, btoi-itoa}

btoi-itoa_example : btoi (itoa 4207 ++ codes ":x") ≡ (4207, length (itoa 4207))
btoi-itoa_example = btoi-itoa 4207 (codes ":x") (omega arith) refl

-- ===== src/Registry/Tests.antt =====
-- Runs of the registry.
use x_pipeline.Prelude.{ℕ, zero, suc, List, [], ◌∷◌, none, ◌≤◌, arith}
use x_pipeline.Streams.{contains}
use x_pipeline.Registry.{StreamRegistry}
use x_pipeline.Registry.Dependencies.{IsRanked}

abbrev empty : StreamRegistry
empty = record { streams = λ id. none; name = λ id. none; wildcard = 10 ∷ [] }

-- Producer 2 depends on producer 1.
abbrev one_edge : ℕ → List ℕ
one_edge (suc (suc zero)) = 1 ∷ []
one_edge p = []

abbrev depth : ℕ → ℕ
depth (suc (suc zero)) = 1
depth p = 0

one_edge-IsRanked : IsRanked one_edge depth
unfolding contains
one_edge-IsRanked zero q e = absurd (ground (arith, e))
one_edge-IsRanked (suc zero) q e = absurd (ground (arith, e))
one_edge-IsRanked (suc (suc zero)) zero e = absurd (ground (arith, e))
one_edge-IsRanked (suc (suc zero)) (suc zero) e = omega arith
one_edge-IsRanked (suc (suc zero)) (suc (suc q)) e = absurd (ground (arith, e))
one_edge-IsRanked (suc (suc (suc p))) q e = absurd (ground (arith, e))

depth_small : (x : ℕ) → depth x ≤ 1
depth_small zero = omega arith
depth_small (suc zero) = omega arith
depth_small (suc (suc zero)) = omega arith
depth_small (suc (suc (suc x))) = omega arith

-- ===== src/Registry/Linking.antt =====
-- core/streamregistry.go: any number of turns of the loop of `LinkDependencies`.
use x_pipeline.Prelude.{
  ℕ, zero, suc, ◌+◌, ◌≤◌, Bool, true, false, List, [], ◌∷◌, ◌++◌, length, ◌==◌, if◌then◌else◌, ◌≡◌,
  refl, arith, Bool-cases, inl, inr,
}
use x_pipeline.Streams.{contains}
use x_pipeline.Registry.{link_child, link_dependencies, depends_on}
use x_pipeline.Registry.Dependencies.{IsRanked, leads, raised, raised-IsRanked}

-- How large the ranks grow in some turns.
abbrev pub rank_bound : ℕ → ℕ → ℕ
rank_bound zero b = b
rank_bound (suc n) b = rank_bound n (b + (b + 1))

-- One parent and its children.
abbrev pub turns_with : ℕ → List ℕ → List (ℕ × ℕ)
turns_with parent [] = []
turns_with parent (c ∷ cs) = (parent, c) ∷ turns_with parent cs

module _ (fuel : ℕ) where
  raised-bound :
      (deps : ℕ → List ℕ) (rank : ℕ → ℕ) (b parent child : ℕ)
      → ((x : ℕ) → rank x ≤ b)
      → (x : ℕ) → raised fuel deps rank parent child x ≤ b + (b + 1)
  unfolding raised
  raised-bound deps rank b parent child h x = by_test (leads fuel deps rank child x)
    where
      by_test : (t : Bool) → (if t then rank x + (rank parent + 1) else rank x) ≤ b + (b + 1)
      by_test true = omega (arith, h x, h parent)
      by_test false = omega (arith, h x)

  -- The ranks behind a turn, and how large they are.
  abbrev RanksBelow : (ℕ → List ℕ) → ℕ → Type 0
  RanksBelow deps b = (rank : ℕ → ℕ) × IsRanked deps rank × ((x : ℕ) → rank x ≤ b)

  link_child-RanksBelow :
      (deps : ℕ → List ℕ) (b parent child : ℕ)
      → b ≤ fuel
      → RanksBelow deps b
      → RanksBelow (link_child fuel deps parent child) (b + (b + 1))
  unfolding link_child
  link_child-RanksBelow deps b parent child enough (rank, ranked, small) =
      let same : RanksBelow deps (b + (b + 1)) = (rank, ranked, λ x. omega (arith, small x)) in
      elim (Bool-cases (parent == child)) [
        | inl itself ↦ rw itself same
        | inr other ↦ elim (Bool-cases (depends_on fuel deps parent child)) [
          | inl circle ↦ rw (other, circle) same
          | inr free ↦ elim (Bool-cases (depends_on fuel deps child parent)) [
            | inl back ↦ rw (other, free, back) same
            | inr fresh ↦
                rw (other, free, fresh)
                  (
                    raised fuel deps rank parent child,
                    raised-IsRanked fuel deps rank parent child ranked
                        (λ x. omega (arith, small x, enough))
                        (unfold leads in rw (other, free) refl),
                    raised-bound deps rank b parent child small,
                  )
          ]
        ]
      ]

  -- Turns of the loop, for one parent after the other.
  unfoldable pub link_turns : (ℕ → List ℕ) → List (ℕ × ℕ) → ℕ → List ℕ
  unfolding link_child
  link_turns deps [] = deps
  link_turns deps ((parent, child) ∷ turns) = link_turns (link_child fuel deps parent child) turns

  rank_bound_le : (n b : ℕ) → b ≤ rank_bound n b
  rank_bound_le zero b = omega arith
  rank_bound_le (suc n) b = let later = rank_bound_le n (b + (b + 1)) in omega (arith, later)

  link_turns-RanksBelow :
      (turns : List (ℕ × ℕ)) (deps : ℕ → List ℕ) (b : ℕ)
      → rank_bound (length turns) b ≤ fuel
      → RanksBelow deps b
      → (rank : ℕ → ℕ) × IsRanked (link_turns deps turns) rank
  unfolding link_turns
  link_turns-RanksBelow [] deps b enough (rank, ranked, small) = (rank, ranked)
  link_turns-RanksBelow ((parent, child) ∷ turns) deps b enough below =
      let now = rank_bound_le (length turns) (b + (b + 1)) in
      link_turns-RanksBelow turns (link_child fuel deps parent child) (b + (b + 1)) enough
        (link_child-RanksBelow deps b parent child (omega (arith, now, enough)) below)

  -- From no dependencies, any turns leave no circle.
  pub link_turns-IsRanked :
      (turns : List (ℕ × ℕ))
      → rank_bound (length turns) 0 ≤ fuel
      → (rank : ℕ → ℕ) × IsRanked (link_turns (λ p. []) turns) rank
  unfolding contains
  link_turns-IsRanked turns enough =
      link_turns-RanksBelow turns (λ p. []) 0 enough ((λ x. 0), (λ p q e. cc), λ x. omega arith)

  pub link_turns-append :
      (deps : ℕ → List ℕ) (parent : ℕ) (cs : List ℕ) (turns : List (ℕ × ℕ))
      → link_turns deps (turns_with parent cs ++ turns)
        ≡ link_turns (link_dependencies fuel deps parent cs) turns
  unfolding link_turns link_dependencies
  link_turns-append deps parent [] turns = refl
  link_turns-append deps parent (c ∷ cs) turns =
      link_turns-append (link_child fuel deps parent c) parent cs turns

-- ===== src/Metrics/Tests.antt =====
-- Two messages and a tick between them.
use x_pipeline.Prelude.{ℕ, ◌+◌, false, List, [], ◌∷◌, some, ◌≡◌, refl, arith}
use x_pipeline.Metrics.{Metrics, MessageCounts, CountKind, processed, dropped}
use x_pipeline.Metrics.Totals.{
  HasMetrics, CountEvent, counted, ticked, run_counts, number_of, run_counts-total,
}

abbrev all_there : Metrics
all_there name = some 3

abbrev nothing : MessageCounts
nothing k = 0

abbrev threes : CountKind → ℕ
threes k = 3

abbrev events : List CountEvent
events = counted processed ∷ ticked (λ p. false) (1 ∷ []) ∷ counted dropped ∷ []

run_counts-total_example :
    (counts' : MessageCounts) × (met' : Metrics) × (w' : CountKind → ℕ) × (run_counts events nothing
        all_there
      ≡ some (counts', met'))
    × HasMetrics met' w'
    × ((k : CountKind) → w' k + counts' k ≡ threes k + nothing k + number_of k events)
run_counts-total_example =
    run_counts-total events nothing all_there threes ((λ k. refl), (3, refl)) (λ k. omega arith)
      (λ k. omega arith)

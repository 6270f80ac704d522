-- ===== src/Filters/Tests.antt =====
-- Runs of filters.
use x_pipeline.Prelude.{false, codes, [], ◌∷◌, none, ◌-◌, ◌≤◌, ◌≡◌, refl, arith}
use x_pipeline.Message.{Message}
use x_pipeline.Streams.{contains}
use x_pipeline.Filters.{Sample, Rate, RateState}
use x_pipeline.Filters.Limits.{accepted_of, accepted_of-bounded}

abbrev hi : Message
hi = record { payload = codes "hi"; stream_id = 5; prev_stream_id = 2; sequence = 1 }

abbrev one_of_three : Sample
one_of_three = record { rate = 1; group = 3; count = 3; drop_stream_id = 0; ignore = 8 ∷ [] }

not_ignored : contains (8 ∷ []) 5 ≡ false
unfolding contains
not_ignored = refl

abbrev two_a_second : Rate
two_a_second = record { rate_limit = 2; state = λ id. none; drop_id = 0 }

abbrev counted : RateState
counted = record { last_reset = 100; current = 1; filtered = 0; ignored = false }

accepted_of-bounded_example :
    accepted_of two_a_second counted ((150, hi) ∷ (200, hi) ∷ (300, hi) ∷ []) ≤ 2 - 1
accepted_of-bounded_example =
    accepted_of-bounded two_a_second counted ((150, hi) ∷ (200, hi) ∷ (300, hi) ∷ []) refl
      (omega arith, (omega arith, (omega arith, tt)))

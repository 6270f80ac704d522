-- ===== src/Batch/Tests.antt =====
-- Runs of a message batch.
use x_pipeline.Prelude.{some, ℕ, true, false, [], ◌∷◌, ◌++◌, ◌≡◌, refl, arith}
use x_pipeline.Numbers.{max_i}
use x_pipeline.Batch.{MessageBatch, reached_size_threshold, new_message_batch}
use x_pipeline.Batch.Appending.{AppendedOrDropped, append_or_flush, append_or_flush-contents}
use x_pipeline.Batch.Buffer.{IsSettled, contents, new_message_batch-IsSettled}

-- A batch of three messages in which two have been stored, in the second queue.
abbrev half_full : MessageBatch ℕ
half_full = record {
  queue0 = record { messages = 7 ∷ 8 ∷ 9 ∷ []; done_count = 0 };
  queue1 = record { messages = 5 ∷ 6 ∷ 0 ∷ []; done_count = 2 };
  last_flush = 100;
  active_set = 0x80000002;
  closed = false;
}

abbrev all_full : MessageBatch ℕ
all_full = record half_full {
  queue1 = record { messages = 5 ∷ 6 ∷ 4 ∷ []; done_count = 3 };
  active_set = 0x80000003;
}

half_full-IsSettled : IsSettled half_full 3
half_full-IsSettled = record {
  in_range = omega arith;
  done = refl;
  other = refl;
  size0 = refl;
  size1 = refl;
}

all_full-IsSettled : IsSettled all_full 3
all_full-IsSettled = record {
  in_range = omega arith;
  done = refl;
  other = refl;
  size0 = refl;
  size1 = refl;
}

new_message_batch-IsSettled_example :
    IsSettled (new_message_batch {M = ℕ} 0 4 100) 4
    × (contents (new_message_batch {M = ℕ} 0 4 100) ≡ [])
new_message_batch-IsSettled_example = new_message_batch-IsSettled 0 4 100

reached : reached_size_threshold all_full 2 ≡ true
unfolding reached_size_threshold max_i
reached = refl

append_or_flush-contents_example :
    (r : AppendedOrDropped ℕ) × (append_or_flush ((λ b. b) ∷ []) true all_full 6 200 ≡ some r)
    × (r.appended ≡ true)
    × IsSettled r.batch 3
    × (r.flushed ++ contents r.batch ≡ contents all_full ++ 6 ∷ [])
append_or_flush-contents_example =
    append_or_flush-contents [] all_full 6 3 200 all_full-IsSettled refl (omega arith) (omega arith)

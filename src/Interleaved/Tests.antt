-- ===== src/Interleaved/Tests.antt =====
-- A run of Append and Flush: a message is written after the queues were swapped.
use x_pipeline.Prelude.{ℕ, ◌<◌, true, false, not, [], ◌∷◌, ◌≡◌, refl, arith}
use x_pipeline.Interleaved.{
  draining, assembling, put, Picks, Shared, set_count, take, write, finish, swap, drained, Run,
  new_shared,
}
use x_pipeline.Interleaved.Counting.{flights}
use x_pipeline.Interleaved.Flushing.{assembling_complete, draining_proceeds}

abbrev swapped : Shared ℕ
swapped = record {
  slots = λ q t. 0;
  done_count = λ q. 0;
  active = true;
  count = 0;
  in_flight = (record { queue = false; ticket = 0; msg = 5; written = false }) ∷ [];
  flusher = draining false 1;
  offered = put (λ q t. 0) false 0 5;
}

to_swapped : Run 2 (new_shared 0) swapped
to_swapped = Run.next (Run.next Run.here (take 5 (omega arith))) (swap refl)

abbrev all_written : Shared ℕ
all_written = record swapped {
  slots = put (λ q t. 0) false 0 5;
  done_count = set_count (λ q. 0) false 1;
  in_flight = [];
  flusher = assembling false 1;
}

to_all_written : Run 2 (new_shared 0) all_written
to_all_written =
    Run.next (Run.next (Run.next to_swapped (write Picks.here refl)) (finish Picks.here refl))
      (drained refl refl)

assembling_complete_example :
    (flights false all_written.in_flight ≡ 0)
    × (false ≡ not all_written.active)
    × ((t : ℕ) → t < 1 → t < 2 → all_written.slots false t ≡ all_written.offered false t)
assembling_complete_example = assembling_complete 2 0 false 1 to_all_written refl

draining_proceeds_example : (t : Shared ℕ) × Run 2 swapped t × (t.flusher ≡ assembling false 1)
draining_proceeds_example = draining_proceeds 2 0 false 1 to_swapped refl

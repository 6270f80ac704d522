-- ===== src/Fuse/Tests.antt =====
-- A run of a fuse and its waiter.
use x_pipeline.Prelude.{true, false, ◌≡◌, refl}
use x_pipeline.Fuse.{Fuse, saw_burned, asleep, Run, QuietRun}
use x_pipeline.Fuse.Wakeup.{IsForgotten, wakeup_lost}

abbrev about_to_sleep : Fuse
about_to_sleep = record { burned = true; waiter = saw_burned; broadcasts = 0 }

wakeup_lost_example :
    (t : Fuse) × Run about_to_sleep t
    × IsForgotten t
    × ((u : Fuse) → QuietRun t u → (u.waiter ≡ asleep) × (u.burned ≡ false))
wakeup_lost_example = wakeup_lost about_to_sleep refl refl refl

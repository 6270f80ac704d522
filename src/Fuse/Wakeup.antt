-- ===== src/Fuse/Wakeup.antt =====
-- shared/fuse.go: who wakes a waiter, and who does not.
use x_pipeline.Prelude.{true, false, ◌≡◌, refl, ap, ◌<◌, ◌⊎◌, inl, inr, arith}
use x_pipeline.Fuse.{
  saw_burned, asleep, woken, Fuse, wake, Step, burn, reset, broadcast, lock, find_burned, pass,
  sleep, leave, IsQuiet, Run, QuietRun,
}

-- Asleep, and nobody on the way to wake it.
pub record IsForgotten (s : Fuse) : Type 0 where
  pub sleeps : s.waiter ≡ asleep
  pub active : s.burned ≡ false
  pub silent : s.broadcasts ≡ 0

Step-IsForgotten : {s t : Fuse} → (step : Step s t) → IsQuiet step → IsForgotten s → IsForgotten t
Step-IsForgotten burn q h = absurd q
Step-IsForgotten (reset e) q h = cc (e, h.active)
Step-IsForgotten (broadcast e) q h = cc (e, h.silent)
Step-IsForgotten (lock e) q h = cc (e, h.sleeps)
Step-IsForgotten (find_burned e e') q h = cc (e, h.sleeps)
Step-IsForgotten (pass e e') q h = cc (e, h.sleeps)
Step-IsForgotten (sleep e) q h = cc (e, h.sleeps)
Step-IsForgotten (leave e) q h = cc (e, h.sleeps)

QuietRun-IsForgotten : {s t : Fuse} → QuietRun s t → IsForgotten s → IsForgotten t
QuietRun-IsForgotten QuietRun.here h = h
QuietRun-IsForgotten (QuietRun.next run step q) h =
    Step-IsForgotten step q (QuietRun-IsForgotten run h)

-- A waiter that has found the fuse burned, and does not sleep yet, can miss the activation if the fuse
-- is still burned and no broadcast is due: Activate resets the fuse and broadcasts first. Then the
-- waiter sleeps on a fuse that is active, and every run without a further burn leaves it so.
pub wakeup_lost :
    (s : Fuse)
    → s.waiter ≡ saw_burned
    → s.burned ≡ true
    → s.broadcasts ≡ 0
    → (t : Fuse) × Run s t
      × IsForgotten t
      × ((u : Fuse) → QuietRun t u → (u.waiter ≡ asleep) × (u.burned ≡ false))
wakeup_lost s looked on due =
    let t = record s { burned = false; waiter = asleep } in
    let forgotten : IsForgotten t = record { sleeps = refl; active = refl; silent = due } in
    (
      t,
      Run.next (Run.next (Run.next Run.here (reset on)) (broadcast {n = s.broadcasts} refl))
          (sleep (ap wake looked)),
      forgotten,
      λ u run. let h = QuietRun-IsForgotten run forgotten in (h.sleeps, h.active),
    )

-- Someone is going to wake it: the fuse is burned, so an activation resets it, or a broadcast is due.
pub IsGuarded : Fuse → Type 0
IsGuarded s = (s.waiter ≡ asleep) × ((s.burned ≡ true) ⊎ (0 < s.broadcasts))

-- A waiter that falls asleep on a burned fuse is not forgotten: each step wakes it, or leaves the fuse
-- burned or a broadcast due.
pub Step-IsGuarded : {s t : Fuse} → Step s t → IsGuarded s → (t.waiter ≡ woken) ⊎ IsGuarded t
unfolding IsGuarded
Step-IsGuarded burn (a, g) = inr (a, inl refl)
Step-IsGuarded (reset e) (a, g) = inr (a, inr (omega arith))
Step-IsGuarded (broadcast e) (a, g) = inl (ap wake a)
Step-IsGuarded (lock e) (a, g) = cc
Step-IsGuarded (find_burned e e') (a, g) = cc
Step-IsGuarded (pass e e') (a, g) = cc
Step-IsGuarded (sleep e) (a, g) = cc
Step-IsGuarded (leave e) (a, g) = cc

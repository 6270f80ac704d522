-- ===== src/Fuse.antt =====
-- shared/fuse.go: a fuse, one waiter and any number of calls of Burn and Activate, as steps that
-- interleave. The broadcasts of Activate do not take the lock of the waiter, so they are steps of
-- their own; a broadcast reaches whoever sleeps on the condition variable at that time.
pub mod Wakeup
mod Tests
use x_pipeline.Prelude.{ℕ, suc, Bool, true, false, ◌≡◌}

-- Where the waiter is in `Wait`. In `locked` and `saw_burned` it holds the lock.
pub data Waiter : Type 0 where
  outside locked saw_burned asleep woken : Waiter

pub record Fuse : Type 0 where
  pub burned : Bool
  pub waiter : Waiter
  pub broadcasts : ℕ  -- calls of Activate that have reset the fuse and not called Broadcast yet

abbrev pub new_fuse : Fuse
new_fuse = record { burned = false; waiter = outside; broadcasts = 0 }

abbrev pub wake : Waiter → Waiter
wake asleep = woken
wake w = w

pub data Step (s : Fuse) : Fuse → Type 0 where
  burn : Step s (record s { burned = true })
  -- The CompareAndSwap of Activate; one that fails changes nothing.
  reset : s.burned ≡ true → Step s (record s { burned = false; broadcasts = suc s.broadcasts })
  broadcast :
      {n : ℕ} → s.broadcasts ≡ suc n → Step s (record s { waiter = wake s.waiter; broadcasts = n })
  lock : s.waiter ≡ outside → Step s (record s { waiter = locked })
  find_burned : s.waiter ≡ locked → s.burned ≡ true → Step s (record s { waiter = saw_burned })
  pass : s.waiter ≡ locked → s.burned ≡ false → Step s (record s { waiter = outside })
  -- `signal.Wait` joins the sleepers, then unlocks.
  sleep : s.waiter ≡ saw_burned → Step s (record s { waiter = asleep })
  leave : s.waiter ≡ woken → Step s (record s { waiter = outside })

-- Steps that are no burn.
abbrev pub IsQuiet : {s t : Fuse} → Step s t → Type 0
IsQuiet burn = ⊥
IsQuiet (reset e) = Unit
IsQuiet (broadcast e) = Unit
IsQuiet (lock e) = Unit
IsQuiet (find_burned e e') = Unit
IsQuiet (pass e e') = Unit
IsQuiet (sleep e) = Unit
IsQuiet (leave e) = Unit

pub data Run (s : Fuse) : Fuse → Type 0 where
  here : Run s s
  next : {t u : Fuse} → Run s t → Step t u → Run s u

pub data QuietRun (s : Fuse) : Fuse → Type 0 where
  here : QuietRun s s
  next : {t u : Fuse} → QuietRun s t → (step : Step t u) → IsQuiet step → QuietRun s u

-- ===== src/WaitGroup.antt =====
-- shared/waitgroup.go: a counter that is waited for by looking at it again and again. The int32 is
-- an integer modulo 2 ^ 32; what the loops find in their turns, the counter and the time that has
-- gone by, is an argument.
use x_pipeline.Prelude.{
  ℕ, ◌+◌, ◌-◌, ◌%◌, Bool, true, false, ◌&&◌, List, [], ◌∷◌, Option, none, some, ltb, ◌==◌,
  if◌then◌else◌,
}

abbrev pub i32_mod : ℕ
i32_mod = 0x100000000

-- A counter above zero.
unfoldable pub is_counting : ℕ → Bool
is_counting counter = ltb 0 counter && ltb counter 0x80000000

unfoldable pub add_delta : ℕ → ℕ → ℕ
add_delta counter delta = (counter + delta) % i32_mod

unfoldable pub inc : ℕ → ℕ
unfolding add_delta
inc counter = add_delta counter 1

unfoldable pub done_one : ℕ → ℕ
unfolding add_delta
done_one counter = add_delta counter (i32_mod - 1)

pub record Poll : Type 0 where
  pub counter : ℕ
  pub elapsed : ℕ

-- The counter behind the first turn that finds 0, with the turns left; `none` if there is none.
unfoldable pub inc_when_done : List Poll → Option (ℕ × List Poll)
inc_when_done [] = none
inc_when_done (p ∷ ps) =
    let rest = inc_when_done ps in if p.counter == 0 then some (1, ps) else rest

-- `WaitFor`, and `Wait` for a timeout of 0; `none` if it still waits.
unfoldable pub wait_for : ℕ → List Poll → Option Bool
unfolding is_counting
wait_for limit [] = none
wait_for limit (p ∷ ps) =
    let rest = wait_for limit ps in
    if is_counting p.counter
    then if limit == 0 then rest else if ltb limit p.elapsed then some false else rest
    else some true

-- ===== src/Filters/Limits.antt =====
-- filter/rate.go: the limit of messages in a second.
use x_pipeline.Prelude.{
  ℕ, ◌+◌, ◌-◌, ◌≤◌, true, false, List, [], ◌∷◌, some, ltb, ◌==◌, if◌then◌else◌, ◌≡◌, ◌≢◌, refl,
  arith, Bool-cases, inl, inr,
}
use x_pipeline.Message.{Message}
use x_pipeline.Filters.{
  RateState, Rate, rate_step, rate_accepts, reset_if_due, second, reject_to, state_of,
}

abbrev pub AllBefore : ℕ → List (ℕ × Message) → Type 0
AllBefore t [] = Unit {0}
AllBefore t ((now, msg) ∷ rest) = (now ≤ t) × AllBefore t rest

-- How many of some messages, each with its time, the filter accepts in a stream.
abbrev pub accepted_of : Rate → RateState → List (ℕ × Message) → ℕ
accepted_of f s [] = 0
accepted_of f s ((now, msg) ∷ rest) =
    let (s', d) = rate_step f now msg s in
    let later = accepted_of f s' rest in if d.accepted then later + 1 else later

step_within :
    (f : Rate) (now : ℕ) (msg : Message) (s : RateState)
    → s.ignored ≡ false
    → now ≤ s.last_reset + second
    → let (s', d) = rate_step f now msg s in
      (s'.last_reset ≡ s.last_reset)
      × (s'.current ≡ s.current + 1)
      × (s'.ignored ≡ false)
      × (d.accepted ≡ ltb s.current f.rate_limit)
unfolding rate_step reset_if_due reject_to
step_within f now msg s watched soon =
    let no_reset : ltb (s.last_reset + second) now ≡ false = ground arith in
    elim (Bool-cases (ltb f.rate_limit (s.current + 1))) [
      | inl over ↦
          let full : ltb s.current f.rate_limit ≡ false = ground arith in
          rw (watched, no_reset, over, full) (refl, refl, refl, refl)
      | inr under ↦
          let room : ltb s.current f.rate_limit ≡ true = ground arith in
          rw (watched, no_reset, under, room) (refl, refl, refl, refl)
    ]

-- Of any messages of one stream that is not ignored, all at most a second after the last reset of
-- its counter, at most as many are accepted as the limit leaves for the messages counted before.
pub accepted_of-bounded :
    (f : Rate) (s : RateState) (ms : List (ℕ × Message))
    → s.ignored ≡ false
    → AllBefore (s.last_reset + second) ms
    → accepted_of f s ms ≤ f.rate_limit - s.current
accepted_of-bounded f s [] watched soon = omega arith
accepted_of-bounded f s ((now, msg) ∷ ms) watched (at, rest) =
    let (same, next, still, decided) = step_within f now msg s watched at in
    let later = accepted_of-bounded f (rate_step f now msg s).0 ms still (rw same rest) in
    rw decided (ground (arith, later, next))

-- A message leaves the states of the other streams as they are; the state of its own stream is then
-- what the step makes of the state before, or of a fresh one.
pub rate_accepts-frame :
    (f : Rate) (now : ℕ) (msg : Message) (id : ℕ)
    → id ≢ msg.stream_id
    → (((rate_accepts f now msg).0).state id ≡ f.state id)
      × (((rate_accepts f now msg).0).state msg.stream_id
          ≡ some (rate_step f now msg (state_of f now msg.stream_id)).0)
unfolding rate_accepts
rate_accepts-frame f now msg id ne =
    let other : (id == msg.stream_id) ≡ false = ground arith in
    let own : (msg.stream_id == msg.stream_id) ≡ true = ground arith in (rw other refl, rw own refl)

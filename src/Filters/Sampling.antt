-- ===== src/Filters/Sampling.antt =====
-- filter/sample.go: the place of a message in its group.
use native.Mathlib.Nat.{mod-lt, add-mod_left, mod_self, mod-eq_of_lt}
use x_pipeline.Prelude.{
  ℕ, zero, suc, ◌+◌, ◌-◌, ◌%◌, ◌≤◌, ◌<◌, true, false, some, ltb, ◌≡◌, refl, ◌∙◌, arith, Bool-cases,
  inl, inr,
}
use x_pipeline.Message.{Message}
use x_pipeline.Streams.{contains}
use x_pipeline.Filters.{Decision, Sample, sample_count, sample_decide, sample_accepts, reject_to}

-- The counter and the place in the group, from 1.
sample_count_cycle :
    (g count : ℕ) → 2 ≤ g → count ≤ g → sample_count g count ≡ some (count % g + 1, count % g + 1)
unfolding sample_count
sample_count_cycle zero count big within = absurd (omega arith)
sample_count_cycle (suc g) count big within = elim (Bool-cases (ltb (suc g) (count + 1))) [
  | inl over ↦
      let full : count ≡ suc g = ground arith in
      let restart : (suc g + 1) % suc g ≡ 1 = add-mod_left (suc g) 1 ∙ mod-eq_of_lt (omega arith) in
      let first : suc g + 1 - suc g ≡ 1 = omega arith in
      let beyond : ltb (suc g) (suc g + 1) ≡ true = rw full at over in
      rw (full, beyond, restart, first, mod_self (suc g))
  | inr under ↦
      let inside : count % suc g ≡ count = mod-eq_of_lt (ground arith) in rw (under, inside)
]

sample_decide_lem :
    (f : Sample) (msg : Message) (stored k : ℕ)
    → (sample_decide f msg (stored, k + 1)).1.accepted ≡ ltb k f.rate
unfolding sample_decide reject_to
sample_decide_lem f msg stored k = elim (Bool-cases (ltb f.rate (k + 1))) [
  | inl over ↦ let full : ltb k f.rate ≡ false = ground arith in rw (over, full)
  | inr under ↦ let room : ltb k f.rate ≡ true = ground arith in rw (under, room)
]

sample_decide-count :
    (f : Sample) (msg : Message) (stored k : ℕ) → (sample_decide f msg (stored, k)).0.count ≡ stored
unfolding sample_decide
sample_decide-count f msg stored k = refl

-- With a group of two or more messages, and a count within the group, `Accepts` does not panic for
-- a stream that is not ignored: it accepts the message if and only if its place in the group, from
-- 0, is below the rate, and the count stays within the group.
pub sample_accepts-cycle :
    (f : Sample) (msg : Message)
    → contains f.ignore msg.stream_id ≡ false
    → 2 ≤ f.group
    → f.count ≤ f.group
    → (f' : Sample) × (d : Decision) × (sample_accepts f msg ≡ some (f', d))
      × (d.accepted ≡ ltb (f.count % f.group) f.rate)
      × (f'.count ≡ f.count % f.group + 1)
      × (f'.count ≤ f.group)
unfolding sample_accepts
sample_accepts-cycle f msg watched big within =
    let k = f.count % f.group in
    let (f', d) = sample_decide f msg (k + 1, k + 1) in
    let below : k < f.group = mod-lt f.count (omega arith) in
    (
      f',
      d,
      rw (watched, sample_count_cycle f.group f.count big within),
      sample_decide_lem f msg (k + 1) k,
      sample_decide-count f msg (k + 1) (k + 1),
      omega (arith, sample_decide-count f msg (k + 1) (k + 1), below),
    )

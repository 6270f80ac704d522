-- ===== src/Filters.antt =====
-- filter/all.go, none.go, any.go, stream.go, sample.go and rate.go: which messages a stream accepts.
-- A filter that keeps a state takes it and returns the new one. Values of the configuration are
-- arguments. An int64 is an integer modulo 2 ^ 64. Metrics and logging are left out.
pub mod Sampling
pub mod Patterns
pub mod Limits
mod Tests
use x_pipeline.Prelude.{
  ℕ, zero, suc, ◌+◌, ◌-◌, ◌%◌, Bool, true, false, List, [], ◌∷◌, Option, none, some, length, ltb,
  ◌==◌, if◌then◌else◌,
}
use x_pipeline.Message.{Message, invalid_stream_id, retarget}
use x_pipeline.Streams.{contains}

-- A decision, with the message that is routed to the stream of dropped ones, if there is one.
pub record Decision : Type 0 where
  pub accepted : Bool
  pub dropped_to : Option Message

abbrev pub accept : Decision
accept = record { accepted = true; dropped_to = none }

unfoldable pub reject_to : ℕ → Message → Decision
unfolding retarget
reject_to target msg = record {
  accepted = false;
  dropped_to = if target == invalid_stream_id then none else some (retarget msg target);
}

unfoldable pub all_accepts : Message → Bool
all_accepts msg = true

unfoldable pub none_accepts : Message → Bool
none_accepts msg = false

-- The loop returns at the first filter that accepts.
unfoldable pub any_accepts : List (Message → Bool) → Message → Bool
any_accepts [] msg = false
any_accepts (f ∷ fs) msg = if f msg then true else any_accepts fs msg

pub record StreamFilter : Type 0 where
  pub blacklist : List ℕ
  pub whitelist : List ℕ

unfoldable pub stream_accepts : StreamFilter → Message → Bool
unfolding contains
stream_accepts f msg =
    if contains f.blacklist msg.stream_id
    then false
    else if contains f.whitelist msg.stream_id
    then true
    else length f.whitelist == 0

-- `Sample`: the group size and rate are not negative here, and the count is below 2 ^ 63.
pub record Sample : Type 0 where
  pub rate : ℕ
  pub group : ℕ
  pub count : ℕ
  pub drop_stream_id : ℕ
  pub ignore : List ℕ

-- `Configure`, from the values of the configuration.
unfoldable pub new_sample : ℕ → ℕ → Option ℕ → List ℕ → Sample
new_sample rate group drop_to ignore = record {
  rate = rate;
  group = group;
  count = 0;
  drop_stream_id = elim drop_to [ none ↦ invalid_stream_id | some id ↦ id ];
  ignore = ignore;
}

-- The new value of `filter.count` and the local `count`; a group of 0 is a division by zero.
unfoldable pub sample_count : ℕ → ℕ → Option (ℕ × ℕ)
sample_count zero count = none
sample_count (suc g) count =
    let next = count + 1 in
    if ltb (suc g) next
    then if next % suc g == 1
      then some (next - suc g, next - suc g)
      else some (next, (next - 1) % suc g + 1)
    else some (next, next)

unfoldable pub sample_decide : Sample → Message → ℕ × ℕ → Sample × Decision
unfolding reject_to
sample_decide f msg (stored, count) = (
  record f { count = stored },
  if ltb f.rate count then reject_to f.drop_stream_id msg else accept,
)

unfoldable pub sample_accepts : Sample → Message → Option (Sample × Decision)
unfolding contains sample_count sample_decide
sample_accepts f msg =
    if contains f.ignore msg.stream_id
    then some (f, accept)
    else elim (sample_count f.group f.count) [
      | none ↦ none
      | some counts ↦ some (sample_decide f msg counts)
    ]

-- `Rate`: the state of each stream; times are in nanoseconds.
pub record RateState : Type 0 where
  pub last_reset : ℕ
  pub current : ℕ
  pub filtered : ℕ
  pub ignored : Bool

pub record Rate : Type 0 where
  pub rate_limit : ℕ
  pub state : ℕ → Option RateState
  pub drop_id : ℕ

abbrev pub second : ℕ
second = 1000000000

unfoldable pub ignored_streams : List ℕ → ℕ → ℕ → Option RateState
unfolding contains
ignored_streams ids now id =
    if contains ids id
    then some (record { last_reset = now - second; current = 0; filtered = 0; ignored = true })
    else none

unfoldable pub new_rate : ℕ → Option ℕ → List ℕ → ℕ → Rate
unfolding ignored_streams
new_rate limit drop_to ignore now = record {
  rate_limit = limit;
  state = ignored_streams ignore now;
  drop_id = elim drop_to [ none ↦ invalid_stream_id | some id ↦ id ];
}

abbrev pub fresh_state : ℕ → RateState
fresh_state now = record { last_reset = now; current = 0; filtered = 0; ignored = false }

-- "Reset if necessary".
unfoldable pub reset_if_due : ℕ → ℕ → RateState → RateState
reset_if_due limit now s =
    if ltb (s.last_reset + second) now
    then record s {
      last_reset = now;
      current = 0;
      filtered = if ltb limit s.current then s.filtered + (s.current - limit) else s.filtered;
    }
    else s

unfoldable pub rate_step : Rate → ℕ → Message → RateState → RateState × Decision
unfolding reset_if_due reject_to
rate_step f now msg s =
    let s' = reset_if_due f.rate_limit now s in
    if s.ignored then (s, accept) else (
      record s' { current = s'.current + 1 },
      if ltb f.rate_limit (s'.current + 1) then reject_to f.drop_id msg else accept,
    )

abbrev pub state_of : Rate → ℕ → ℕ → RateState
state_of f now id = elim (f.state id) [ none ↦ fresh_state now | some s ↦ s ]

unfoldable pub rate_accepts : Rate → ℕ → Message → Rate × Decision
unfolding rate_step
rate_accepts f now msg =
    let (s, d) = rate_step f now msg (state_of f now msg.stream_id) in
    (record f { state = λ id. if id == msg.stream_id then some s else f.state id }, d)

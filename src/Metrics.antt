-- ===== src/Metrics.antt =====
-- shared/metric.go, the counters of core/streamregistry.go, and the tick of the main loop in
-- multiplexer.go. A metric is an int64, written modulo 2 ^ 64; a counter is a uint32. The metrics per
-- second and the Set, Add and Sub of a float64 are left out. The metric of a name that is not there is a
-- nil pointer: `none` is the panic.
pub mod Totals
mod Tests
use x_pipeline.Prelude.{
  ℕ, ◌+◌, ◌-◌, ◌%◌, Bool, true, false, List, [], ◌∷◌, Option, none, some, ◌>>=◌, Bytes, codes,
  equal, if◌then◌else◌,
}

abbrev pub i64_mod : ℕ
i64_mod = 0x10000000000000000

abbrev pub count_mod : ℕ
count_mod = 0x100000000

abbrev pub Metrics : Type 0
Metrics = Bytes → Option ℕ

abbrev pub assign : Metrics → Bytes → ℕ → Metrics
assign met name value = λ n. if equal name n then some value else met n

unfoldable pub new_metric : Metrics → Bytes → Metrics
new_metric met name = elim (met name) [ none ↦ assign met name 0 | some v ↦ met ]

unfoldable pub set_metric : Metrics → Bytes → ℕ → Option Metrics
set_metric met name value = met name >>= λ old. some (assign met name value)

unfoldable pub set_bool : Metrics → Bytes → Bool → Option Metrics
unfolding set_metric
set_bool met name value = set_metric met name (if value then 1 else 0)

unfoldable pub add_metric : Metrics → Bytes → ℕ → Option Metrics
add_metric met name value = met name >>= λ old. some (assign met name ((old + value) % i64_mod))

unfoldable pub inc_metric : Metrics → Bytes → Option Metrics
unfolding add_metric
inc_metric met name = add_metric met name 1

unfoldable pub dec_metric : Metrics → Bytes → Option Metrics
unfolding add_metric
dec_metric met name = add_metric met name (i64_mod - 1)

unfoldable pub sub_metric : Metrics → Bytes → ℕ → Option Metrics
unfolding add_metric
sub_metric met name value = add_metric met name ((i64_mod - value) % i64_mod)

-- `none` is the error "Metric not found".
unfoldable pub get_metric : Metrics → Bytes → Option ℕ
get_metric met name = met name

-- The counters of messages.
pub data CountKind : Type 0 where
  processed dropped discarded filtered no_route : CountKind

abbrev pub MessageCounts : Type 0
MessageCounts = CountKind → ℕ

abbrev pub same_kind : CountKind → CountKind → Bool
same_kind processed processed = true
same_kind dropped dropped = true
same_kind discarded discarded = true
same_kind filtered filtered = true
same_kind no_route no_route = true
same_kind k j = false

-- `CountProcessedMessage` to `CountNoRouteForMessage`.
unfoldable pub count_message : CountKind → MessageCounts → MessageCounts
count_message kind counts = λ k. if same_kind kind k then (counts k + 1) % count_mod else counts k

-- The counts, and the counters behind.
unfoldable pub get_and_reset_message_count : MessageCounts → MessageCounts × MessageCounts
get_and_reset_message_count counts = (counts, λ k. 0)

abbrev pub metric_of : CountKind → Bytes
metric_of processed = codes "Messages"
metric_of dropped = codes "DroppedMessages"
metric_of discarded = codes "DiscardedMessages"
metric_of filtered = codes "Filtered"
metric_of no_route = codes "DiscardedNoRoute"

unfoldable pub count_blocked : (ℕ → Bool) → List ℕ → ℕ
count_blocked is_blocked [] = 0
count_blocked is_blocked (p ∷ ps) = (if is_blocked p then 1 else 0) + count_blocked is_blocked ps

-- The metrics and counters behind a tick of the main loop.
unfoldable pub sample_counts :
    (ℕ → Bool) → List ℕ → MessageCounts → Metrics → Option (MessageCounts × Metrics)
unfolding get_and_reset_message_count add_metric set_metric count_blocked
sample_counts is_blocked producers counts met =
    let (taken, rest) = get_and_reset_message_count counts in
    add_metric met (metric_of processed) (taken processed) >>= λ m1.
    add_metric m1 (metric_of dropped) (taken dropped) >>= λ m2.
    add_metric m2 (metric_of discarded) (taken discarded) >>= λ m3.
    add_metric m3 (metric_of filtered) (taken filtered) >>= λ m4.
    add_metric m4 (metric_of no_route) (taken no_route) >>= λ m5.
    set_metric m5 (codes "BlockedProducers") (count_blocked is_blocked producers) >>= λ m6.
    some (rest, m6)

-- ===== src/Metrics/Totals.antt =====
-- core/streamregistry.go and multiplexer.go: what is counted, and what the metrics say in the end.
use x_pipeline.Prelude.{
  ℕ, ◌+◌, ◌%◌, ◌<◌, ◌≤◌, Bool, true, false, length, List, [], ◌∷◌, Option, some, ◌>>=◌, codes,
  equal, if◌then◌else◌, ◌≡◌, refl, ap, ◌∙◌, arith,
}
use x_pipeline.Metrics.{
  i64_mod, count_mod, Metrics, assign, add_metric, set_metric, CountKind, processed, dropped,
  discarded, filtered, no_route, MessageCounts, same_kind, count_message,
  get_and_reset_message_count, metric_of, count_blocked, sample_counts,
}

-- The metrics of the counters have the values `w`, and there is one for blocked producers.
abbrev pub HasMetrics : Metrics → (CountKind → ℕ) → Type 0
HasMetrics met w =
    ((k : CountKind) → met (metric_of k) ≡ some (w k))
    × ((v : ℕ) × (met (codes "BlockedProducers") ≡ some v))

abbrev added : CountKind → ℕ → (CountKind → ℕ) → CountKind → ℕ
added j v w k = if same_kind j k then (w k + v) % i64_mod else w k

assigned :
    (j k : CountKind) (met : Metrics) (w : CountKind → ℕ) (v : ℕ)
    → met (metric_of k) ≡ some (w k)
    → assign met (metric_of j) ((w j + v) % i64_mod) (metric_of k) ≡ some (added j v w k)
unfolding equal
assigned processed processed met w v h = refl
assigned processed dropped met w v h = h
assigned processed discarded met w v h = h
assigned processed filtered met w v h = h
assigned processed no_route met w v h = h
assigned dropped processed met w v h = h
assigned dropped dropped met w v h = refl
assigned dropped discarded met w v h = h
assigned dropped filtered met w v h = h
assigned dropped no_route met w v h = h
assigned discarded processed met w v h = h
assigned discarded dropped met w v h = h
assigned discarded discarded met w v h = refl
assigned discarded filtered met w v h = h
assigned discarded no_route met w v h = h
assigned filtered processed met w v h = h
assigned filtered dropped met w v h = h
assigned filtered discarded met w v h = h
assigned filtered filtered met w v h = refl
assigned filtered no_route met w v h = h
assigned no_route processed met w v h = h
assigned no_route dropped met w v h = h
assigned no_route discarded met w v h = h
assigned no_route filtered met w v h = h
assigned no_route no_route met w v h = refl

assigned_blocked :
    (j : CountKind) (met : Metrics) (n v : ℕ)
    → met (codes "BlockedProducers") ≡ some v
    → assign met (metric_of j) n (codes "BlockedProducers") ≡ some v
unfolding equal
assigned_blocked processed met n v h = h
assigned_blocked dropped met n v h = h
assigned_blocked discarded met n v h = h
assigned_blocked filtered met n v h = h
assigned_blocked no_route met n v h = h

add_metric-HasMetrics :
    (j : CountKind) (met : Metrics) (w : CountKind → ℕ) (v : ℕ)
    → HasMetrics met w
    → (met' : Metrics) × (add_metric met (metric_of j) v ≡ some met')
      × HasMetrics met' (added j v w)
unfolding add_metric
add_metric-HasMetrics j met w v (h, (b, blocked)) = (
  assign met (metric_of j) ((w j + v) % i64_mod),
  ap (λ (o : Option ℕ). o >>= λ old. some (assign met (metric_of j) ((old + v) % i64_mod))) (h j),
  ((λ k. assigned j k met w v (h k)), (b, assigned_blocked j met ((w j + v) % i64_mod) b blocked)),
)

bind_some :
    {A B : Type 0} (m : Option A) (f : A → Option B) {a : A} {r : Option B}
    → m ≡ some a
    → f a ≡ r
    → (m >>= f) ≡ r
bind_some m f e h = ap (λ o. o >>= f) e ∙ h

HasMetrics-set :
    (met : Metrics) (w : CountKind → ℕ) (n : ℕ)
    → HasMetrics met w
    → (met' : Metrics) × (set_metric met (codes "BlockedProducers") n ≡ some met')
      × HasMetrics met' w
unfolding set_metric equal
HasMetrics-set met w n (h, (b, blocked)) = (
  assign met (codes "BlockedProducers") n,
  ap (λ (o : Option ℕ). o >>= λ old. some (assign met (codes "BlockedProducers") n)) blocked,
  ((λ k. kept k), (n, refl)),
)
  where
    kept : (k : CountKind) → assign met (codes "BlockedProducers") n (metric_of k) ≡ some (w k)
    kept processed = h processed
    kept dropped = h dropped
    kept discarded = h discarded
    kept filtered = h filtered
    kept no_route = h no_route

-- A tick adds every counter to its metric, and sets it to zero.
sample_counts-added :
    (is_blocked : ℕ → Bool) (producers : List ℕ) (counts : MessageCounts) (met : Metrics)
    → (w : CountKind → ℕ) → HasMetrics met w
    → (met' : Metrics) × (sample_counts is_blocked producers counts met ≡ some ((λ k. 0), met'))
      × HasMetrics met' (λ k. (w k + counts k) % i64_mod)
unfolding sample_counts get_and_reset_message_count
sample_counts-added is_blocked producers counts met w h =
    let (m1, e1, h1) = add_metric-HasMetrics processed met w (counts processed) h in
    let w1 = added processed (counts processed) w in
    let (m2, e2, h2) = add_metric-HasMetrics dropped m1 w1 (counts dropped) h1 in
    let w2 = added dropped (counts dropped) w1 in
    let (m3, e3, h3) = add_metric-HasMetrics discarded m2 w2 (counts discarded) h2 in
    let w3 = added discarded (counts discarded) w2 in
    let (m4, e4, h4) = add_metric-HasMetrics filtered m3 w3 (counts filtered) h3 in
    let w4 = added filtered (counts filtered) w3 in
    let (m5, e5, h5) = add_metric-HasMetrics no_route m4 w4 (counts no_route) h4 in
    let w5 = added no_route (counts no_route) w4 in
    let (m6, e6, h6) = HasMetrics-set m5 w5 (count_blocked is_blocked producers) h5 in
    (
      m6,
      bind_some _ _ e1 (
          bind_some _ _ e2
            (bind_some _ _ e3 (bind_some _ _ e4 (bind_some _ _ e5 (bind_some _ _ e6 refl))))),
      ((λ k. h6.0 k ∙ ap (λ (n : ℕ). some n) (sums k)), h6.1),
    )
  where
    sums :
        (k : CountKind)
        → added no_route
            (counts no_route)
            (added filtered (counts filtered) (
              added discarded
                (counts discarded)
                (added dropped (counts dropped) (added processed (counts processed) w))))
            k
          ≡ (w k + counts k) % i64_mod
    sums processed = refl
    sums dropped = refl
    sums discarded = refl
    sums filtered = refl
    sums no_route = refl

-- A message that is counted, or a tick, with the producers that are blocked then.
pub data CountEvent : Type 0 where
  counted : CountKind → CountEvent
  ticked : (ℕ → Bool) → List ℕ → CountEvent

unfoldable pub run_counts :
    List CountEvent → MessageCounts → Metrics → Option (MessageCounts × Metrics)
unfolding count_message sample_counts
run_counts [] counts met = some (counts, met)
run_counts (counted k ∷ events) counts met = run_counts events (count_message k counts) met
run_counts (ticked is_blocked producers ∷ events) counts met =
    sample_counts is_blocked producers counts met >>= λ r. run_counts events r.0 r.1

abbrev pub number_of : CountKind → List CountEvent → ℕ
number_of k [] = 0
number_of k (counted j ∷ events) = (if same_kind j k then 1 else 0) + number_of k events
number_of k (ticked is_blocked producers ∷ events) = number_of k events

count_one :
    (b : Bool) (n : ℕ)
    → n + 1 < count_mod
    → (if b then (n + 1) % count_mod else n) ≡ n + (if b then 1 else 0)
count_one true n h = omega arith
count_one false n h = omega arith

one_le : (b : Bool) → (if b then 1 else 0) ≤ 1
one_le true = omega arith
one_le false = omega arith

-- Whatever is counted, in any order with the ticks, each message is in the metric or still in the counter
-- of its kind, once: their sum grows by the number of messages of the kind. (The metrics are there; the
-- events are fewer than a counter, and a metric, has room for.)
pub run_counts-total :
    (events : List CountEvent) (counts : MessageCounts) (met : Metrics) (w : CountKind → ℕ)
    → HasMetrics met w
    → ((k : CountKind) → counts k + length events < count_mod)
    → ((k : CountKind) → w k + (counts k + length events) < i64_mod)
    → (counts' : MessageCounts) × (met' : Metrics) × (w' : CountKind → ℕ) × (run_counts events
          counts met
        ≡ some (counts', met'))
      × HasMetrics met' w'
      × ((k : CountKind) → w' k + counts' k ≡ w k + counts k + number_of k events)
unfolding run_counts
run_counts-total [] counts met w h small room = (counts, met, w, refl, h, λ k. omega arith)
run_counts-total (counted j ∷ events) counts met w h small room =
    let next : (k : CountKind)
        → count_message j counts k ≡ counts k + (if same_kind j k then 1 else 0) =
      unfold count_message in λ k. count_one (same_kind j k) (counts k) (omega (arith, small k)) in
    let (counts', met', w', e, h', sum) =
      run_counts-total events (count_message j counts) met w h
        (λ k. omega (arith, next k, one_le (same_kind j k), small k))
        (λ k. omega (arith, next k, one_le (same_kind j k), room k)) in
    (counts', met', w', e, h', λ k. omega (arith, sum k, next k))
run_counts-total (ticked is_blocked producers ∷ events) counts met w h small room =
    let (mid, first, h1) = sample_counts-added is_blocked producers counts met w h in
    let kept : (k : CountKind) → (w k + counts k) % i64_mod ≡ w k + counts k =
      λ k. omega (arith, room k) in
    let (counts', met', w', e, h', sum) =
      run_counts-total events (λ k. 0) mid (λ k. (w k + counts k) % i64_mod) h1
        (λ k. omega (arith, small k)) (λ k. omega (arith, kept k, room k)) in
    (
      counts',
      met',
      w',
      bind_some (sample_counts is_blocked producers counts met) (λ r. run_counts events r.0 r.1)
          first e,
      h',
      λ k. omega (arith, sum k, kept k),
    )

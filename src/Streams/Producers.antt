-- ===== src/Streams/Producers.antt =====
-- The lists of producers of a stream and of the registry, and whom a message reaches.
use native.Mathlib.Nat.{mod-lt, zero-lt-suc}
use x_pipeline.Prelude.{
  ℕ, zero, suc, ◌+◌, ◌%◌, ◌<◌, Bool, true, false, ◌||◌, List, [], ◌∷◌, ◌++◌, none, some, length,
  ◌==◌, ◌≡◌, ◌≢◌, refl, ap, arith, ◌∙◌, sym, Bool-cases, inl, inr, append-nil, append_assoc,
  ==_refl, ==_iff, lt→ltb,
}
use x_pipeline.Message.{Message}
use x_pipeline.Streams.{
  contains, add_producers, register_wildcard_producer, next_index, StreamBase, round_robin,
  run_distribute, route,
}

pub contains-append :
    (xs ys : List ℕ) (p : ℕ) → contains (xs ++ ys) p ≡ contains xs p || contains ys p
unfolding contains
contains-append [] ys p = refl
contains-append (x ∷ xs) ys p = elim (Bool-cases (x == p)) [
  | inl same ↦ rw same
  | inr other ↦ rw other (contains-append xs ys p)
]

-- `AddProducer` keeps the producers, and adds only those that it is given.
pub add_producers-keeps :
    (known ps : List ℕ) (q : ℕ)
    → contains known q ≡ true
    → contains (add_producers known ps) q ≡ true
unfolding add_producers
add_producers-keeps known [] q h = h
add_producers-keeps known (p ∷ ps) q h = elim (Bool-cases (contains known p)) [
  | inl again ↦ rw again h
  | inr new ↦
      rw new (add_producers-keeps (known ++ p ∷ []) ps q (rw (contains-append known (p ∷ []) q, h)))
]

pub add_producers-only :
    (known ps : List ℕ) (q : ℕ)
    → contains known q ≡ false
    → contains ps q ≡ false
    → contains (add_producers known ps) q ≡ false
unfolding add_producers contains
add_producers-only known [] q h k = h
add_producers-only known (p ∷ ps) q h k = elim (Bool-cases (p == q)) [
  | inl same ↦ absurd (ground arith)
  | inr other ↦
      let later : contains ps q ≡ false = rw other at k in
      let more : contains (known ++ p ∷ []) q ≡ false =
        rw (contains-append known (p ∷ []) q, h, other) refl in
      elim (Bool-cases (contains known p)) [
        | inl again ↦ rw again h
        | inr new ↦ rw new (add_producers-only (known ++ p ∷ []) ps q more later)
      ]
]

-- What `AddProducer` leaves out: of a list in which a producer is known to the stream already, the
-- producers behind it are not added, for each that is found afterwards was known or stands before it.
pub add_producers_lost :
    (known before after : List ℕ) (p q : ℕ)
    → contains known p ≡ true
    → contains (add_producers known (before ++ p ∷ after)) q ≡ true
    → contains (known ++ before) q ≡ true
unfolding add_producers
add_producers_lost known [] after p q h e = rw (append-nil known) (rw h at e)
add_producers_lost known (b ∷ before) after p q h e = elim (Bool-cases (contains known b)) [
  | inl again ↦
      let found : contains known q ≡ true = rw again at e in
      rw (contains-append known (b ∷ before) q, found)
  | inr new ↦
      let more : contains (known ++ b ∷ []) p ≡ true = rw (contains-append known (b ∷ []) p, h) in
      rw⁻¹ (append_assoc known (b ∷ []) before)
        (add_producers_lost (known ++ b ∷ []) before after p q more (rw new at e))
]

or_false : (a : Bool) → a || false ≡ a
or_false true = refl
or_false false = refl

or_three : (a b c : Bool) → (a || (b || false)) || c ≡ a || (b || c)
or_three true b c = refl
or_three false true c = refl
or_three false false c = refl

or_known : (a b c : Bool) → (b ≡ true → a ≡ true) → a || c ≡ a || (b || c)
or_known true b c h = refl
or_known false true c h = cc (h refl)
or_known false false c h = refl

contains-cons : (p : ℕ) (ps : List ℕ) (q : ℕ) → contains (p ∷ ps) q ≡ (p == q) || contains ps q
unfolding contains
contains-cons p ps q = elim (Bool-cases (p == q)) [ inl same ↦ rw same | inr other ↦ rw other ]

-- `RegisterWildcardProducer` makes known exactly the producers that were known or are given.
pub register_wildcard_producer-contains :
    (known ps : List ℕ) (q : ℕ)
    → contains (register_wildcard_producer known ps) q ≡ contains known q || contains ps q
unfolding register_wildcard_producer
register_wildcard_producer-contains known [] q = sym (or_false (contains known q))
register_wildcard_producer-contains known (p ∷ ps) q = elim (Bool-cases (contains known p)) [
  | inl again ↦ rw again (
      register_wildcard_producer-contains known ps q
      ∙ or_known (contains known q) (p == q) (contains ps q)
          (λ same. let at : p ≡ q = (==_iff p q).0 same in rw (← at) again)
      ∙ ap (λ (b : Bool). contains known q || b) (sym (contains-cons p ps q)))
  | inr new ↦ rw new (
      register_wildcard_producer-contains (known ++ p ∷ []) ps q
      ∙ ap (λ (b : Bool). b || contains ps q)
          (contains-append known (p ∷ []) q
            ∙ ap (λ (b : Bool). contains known q || b) (contains-cons p [] q))
      ∙ or_three (contains known q) (p == q) (contains ps q)
      ∙ ap (λ (b : Bool). contains known q || b) (sym (contains-cons p ps q)))
]

-- While the counter of a `RoundRobin` stays below 2 ^ 31 and there are producers, the index for the
-- next message is the remainder of the new counter, which is in the list of producers.
pub next_index-lt :
    (i n : ℕ)
    → i + 1 < 0x80000000
    → 0 < n
    → (next_index i n ≡ some ((i + 1) % n)) × ((i + 1) % n < n)
unfolding next_index
next_index-lt i zero h pos = absurd (omega arith)
next_index-lt i (suc n) h pos =
    let small : (i + 1) % 0x100000000 ≡ i + 1 = omega arith in
    rw (small, lt→ltb (i + 1) 0x80000000 h) (refl, mod-lt (i + 1) (zero-lt-suc n))

next_index_wraps : (n : ℕ) → 0x80000000 % n ≢ 0 → next_index 0x7FFFFFFF n ≡ none
unfolding next_index
next_index_wraps zero odd = refl
next_index_wraps (suc n) odd =
    let rest : (0x80000000 % suc n == 0) ≡ false = ground arith in rw rest

-- At a `RoundRobin` stream whose counter is 2 ^ 31 - 1, with a number of producers that is not 0 and
-- does not divide 2 ^ 31, `Route` panics for a message that stays in the stream.
pub route_wraps :
    (pick : ℕ → ℕ) (s : StreamBase) (msg : Message)
    → s.distribute ≡ round_robin
    → s.index ≡ 0x7FFFFFFF
    → length s.producers ≢ 0
    → 0x80000000 % length s.producers ≢ 0
    → route pick s msg msg.stream_id ≡ none
unfolding route run_distribute
route_wraps pick s msg e f some_producers odd =
    let empty : (length s.producers == 0) ≡ false = ground arith in
    let out : next_index s.index (length s.producers) ≡ none =
      rw f (next_index_wraps (length s.producers) odd) in
    rw (==_refl msg.stream_id, empty, e, out)

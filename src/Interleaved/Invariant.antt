-- ===== src/Interleaved/Invariant.antt =====
-- core/messagebatch.go: the state between two steps of Append and Flush.
use x_pipeline.Prelude.{
  ℕ, ◌+◌, ◌<◌, Bool, true, false, not, ◌∷◌, ◌==◌, if◌then◌else◌, if_true, if_same, Bool-cases, ◌≡◌,
  refl, sym, ◌∙◌, ◌⊎◌, inl, inr, arith,
}
use x_pipeline.Batch.{index_mask}
use x_pipeline.Interleaved.{
  InFlight, Flusher, idle, draining, assembling, same_queue, put, Shared, new_shared,
}
use x_pipeline.Interleaved.Counting.{
  one, same_queue_self, flights, All, HasWriter, All-map, put_same, put_other,
}

-- The number of tickets that Flush has taken over.
abbrev pub flushed : Flusher → ℕ
flushed idle = 0
flushed (draining q n) = n
flushed (assembling q n) = n

-- The tickets that were given out for a queue and are not reset.
abbrev pub tickets : Bool → ℕ → Flusher → Bool → ℕ
tickets a c f q = if same_queue a q then c else flushed f

-- Flush has the queue that is not active.
abbrev pub FlushesOther : Bool → (Bool → ℕ) → Flusher → Type 0
FlushesOther a done idle = Unit
FlushesOther a done (draining q n) = q ≡ not a
FlushesOther a done (assembling q n) = (q ≡ not a) × (done q ≡ n)

take-counted :
    (a q : Bool) (d f c g : ℕ)
    → d + f ≡ (if same_queue a q then c else g)
    → d + (one q a + f) ≡ (if same_queue a q then c + 1 else g)
take-counted true true d f c g e = omega arith
take-counted true false d f c g e = omega arith
take-counted false true d f c g e = omega arith
take-counted false false d f c g e = omega arith

take-tickets :
    (a q : Bool) (c g t : ℕ)
    → t < (if same_queue a q then c else g)
    → t < (if same_queue a q then c + 1 else g)
take-tickets true true c g t h = omega arith
take-tickets true false c g t h = h
take-tickets false true c g t h = h
take-tickets false false c g t h = omega arith

not_next : (a q : Bool) (c g t : ℕ) → t < (if same_queue a q then c else g) → (q ≡ a) → (t ≡ c) → ⊥
not_next a q c g t h e e' =
    omega (arith, if_true {A = ℕ} (same_queue a q) c g (rw e (same_queue_self a)), h, e')

-- A ticket after the next one was given out: it is that one, or an old one.
next-cases :
    (a q : Bool) (c g t : ℕ)
    → t < (if same_queue a q then c + 1 else g)
    → ((q ≡ a) × (t ≡ c)) ⊎ (t < (if same_queue a q then c else g))
next-cases true false c g t h = inr h
next-cases false true c g t h = inr h
next-cases true true c g t h = elim (Bool-cases (t == c)) [
  | inl e ↦ inl (refl, ground arith)
  | inr e ↦ inr (ground arith)
]
next-cases false false c g t h = elim (Bool-cases (t == c)) [
  | inl e ↦ inl (refl, ground arith)
  | inr e ↦ inr (ground arith)
]

module _ {M : Type 0} where
  -- A ticket in flight was given out, with its message.
  abbrev pub Ticketed : (Bool → ℕ) → (Bool → ℕ → M) → InFlight M → Type 0
  Ticketed given offered p = (p.ticket < given p.queue) × (p.msg ≡ offered p.queue p.ticket)

  pub record IsConsistent (size : ℕ) (s : Shared M) : Type 0 where
    pub counted :
        (q : Bool) → s.done_count q + flights q s.in_flight ≡ tickets s.active s.count s.flusher q
    pub ticketed : All (Ticketed (tickets s.active s.count s.flusher) s.offered) s.in_flight
    pub stored :
        (q : Bool) (t : ℕ)
        → t < tickets s.active s.count s.flusher q
        → t < size
        → (s.slots q t ≡ s.offered q t) ⊎ HasWriter q t s.in_flight
    pub other : FlushesOther s.active s.done_count s.flusher
    pub in_range : s.count < index_mask

  pub new_shared-IsConsistent : (size : ℕ) (blank : M) → IsConsistent size (new_shared blank)
  new_shared-IsConsistent size blank = record {
    counted = λ q. sym (if_same (same_queue false q) 0);
    ticketed = tt;
    stored = λ q t h k. inl refl;
    other = tt;
    in_range = omega arith;
  }

  module _ (size : ℕ) where
    pub take-IsConsistent :
        (s : Shared M) (m : M)
        → s.count + 1 < index_mask
        → IsConsistent size s
        → IsConsistent size (record s {
          count = s.count + 1;
          in_flight =
              (record { queue = s.active; ticket = s.count; msg = m; written = false })
              ∷ s.in_flight;
          offered = put s.offered s.active s.count m;
        })
    take-IsConsistent s m below h = record {
      counted = λ q.
          take-counted s.active q (s.done_count q) (flights q s.in_flight) s.count
            (flushed s.flusher) (h.counted q);
      ticketed = (
        (take-new s.active, sym (put_same s.offered s.active s.count m)),
        All-map
            (λ p (below, msg). (
              take-tickets s.active p.queue s.count (flushed s.flusher) p.ticket below,
              msg
                  ∙ sym (
                      put_other s.offered s.active s.count m p.queue p.ticket
                        (not_next s.active p.queue s.count (flushed s.flusher) p.ticket below)),
            ))
            s.in_flight h.ticketed,
      );
      stored = λ q t k room. elim (next-cases s.active q s.count (flushed s.flusher) t k) [
        | inl (e, e') ↦ inr (inl (sym e, sym e', refl))
        | inr old ↦ elim (h.stored q t old room) [
          | inl same ↦ inl (
              same
              ∙ sym (
                  put_other s.offered s.active s.count m q t
                    (not_next s.active q s.count (flushed s.flusher) t old)))
          | inr w ↦ inr (inr w)
        ]
      ];
      other = h.other;
      in_range = below;
    }
      where
        take-new :
            (a : Bool) → s.count < (if same_queue a a then s.count + 1 else flushed s.flusher)
        take-new true = omega arith
        take-new false = omega arith

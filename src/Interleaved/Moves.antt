-- ===== src/Interleaved/Moves.antt =====
-- core/messagebatch.go: what the steps of Append keep.
use x_pipeline.Prelude.{
  ℕ, ◌+◌, ◌<◌, Bool, true, false, not, ◌&&◌, List, ◌∷◌, ltb, lt→ltb, ◌==◌, if◌then◌else◌, if_true,
  if_false, and_both, ==_refl, ==_iff, Bool-cases, ◌≡◌, refl, sym, ap, ◌∙◌, ◌⊎◌, inl, inr, arith,
}
use std.Path.{subst}
use x_pipeline.Interleaved.{
  InFlight, Flusher, idle, draining, assembling, same_queue, put, Picks, Shared, set_count,
  write_slot,
}
use x_pipeline.Interleaved.Counting.{
  one, same_queue_self, same_queue-not, same_queue-eq, flights, IsWriter, Picks-flights, Picks-All,
  Picks-HasWriter,
}
use x_pipeline.Interleaved.Invariant.{flushed, FlushesOther, IsConsistent}

finish-counted :
    (p q : Bool) (f : Bool → ℕ) (n : ℕ) → set_count f p (f p + 1) q + n ≡ f q + (one p q + n)
finish-counted true true f n = omega arith
finish-counted true false f n = omega arith
finish-counted false true f n = omega arith
finish-counted false false f n = omega arith

one_sym : (p q : Bool) → one p q ≡ one q p
one_sym true true = refl
one_sym true false = refl
one_sym false true = refl
one_sym false false = refl

finish_other :
    (a : Bool) (done : Bool → ℕ) (f : Flusher) (p : Bool)
    → FlushesOther a done f
    → ((q : Bool) (n : ℕ) → f ≡ assembling q n → same_queue p q ≡ false)
    → FlushesOther a (set_count done p (done p + 1)) f
finish_other a done idle p h k = tt
finish_other a done (draining q n) p h k = h
finish_other a done (assembling q n) p (e, e') k =
    (e, if_false (same_queue p q) (done p + 1) (done q) (k q n refl) ∙ e')

module _ {M : Type 0} (size : ℕ) where
  -- The slot of another ticket is left; the one of this ticket has its message.
  write_slot-cases :
      (slots : Bool → ℕ → M) (p : InFlight M) (q : Bool) (t : ℕ)
      → t < size
      → ((q ≡ p.queue) × (t ≡ p.ticket) × (write_slot size slots p q t ≡ p.msg))
        ⊎ ((IsWriter q t p → ⊥) × (write_slot size slots p q t ≡ slots q t))
  write_slot-cases slots p q t room = elim (Bool-cases (same_queue p.queue q && (t == p.ticket))) [
    | inl on ↦
        let (same, equal) = and_both (same_queue p.queue q) (t == p.ticket) on in
        let e : t ≡ p.ticket = (==_iff t p.ticket).0 equal in
        inl (
          sym (same_queue-eq p.queue q same),
          e,
          ap (λ (f : Bool → ℕ → M). f q t)
                (if_true (ltb p.ticket size) (put slots p.queue p.ticket p.msg) slots
                  (lt→ltb p.ticket size (omega (arith, room, e))))
              ∙ if_true (same_queue p.queue q && (t == p.ticket)) p.msg (slots q t) on,
        )
    | inr off ↦ inr (
      (λ (at, with, w). cc (
        off,
        ap (λ (r : Bool). same_queue p.queue r) at,
        same_queue_self p.queue,
        ap (λ (n : ℕ). t == n) with,
        ==_refl t,
      )),
      unwritten (ltb p.ticket size) off,
    )
  ]
    where
      unwritten :
          (b : Bool)
          → (same_queue p.queue q && (t == p.ticket)) ≡ false
          → (if b then put slots p.queue p.ticket p.msg else slots) q t ≡ slots q t
      unwritten true off = if_false (same_queue p.queue q && (t == p.ticket)) p.msg (slots q t) off
      unwritten false off = refl

  pub write-IsConsistent :
      (s : Shared M) (p : InFlight M) (rest : List (InFlight M))
      → Picks p s.in_flight rest
      → IsConsistent size s
      → IsConsistent size (record s {
        slots = write_slot size s.slots p;
        in_flight = (record p { written = true }) ∷ rest;
      })
  write-IsConsistent s p rest pick h = record {
    counted = λ q. rw (← Picks-flights pick q) (h.counted q);
    ticketed = Picks-All pick _ h.ticketed;
    stored = λ q t k room. elim (write_slot-cases s.slots p q t room) [
      | inl (e, e', set) ↦ inl (set ∙ (Picks-All pick _ h.ticketed).0.1 ∙ rw (e, e'))
      | inr (other, kept) ↦ elim (h.stored q t k room) [
        | inl same ↦ inl (kept ∙ same)
        | inr w ↦ elim (Picks-HasWriter pick q t w) [
          | inl this ↦ absurd (other this)
          | inr that ↦ inr (inr that)
        ]
      ]
    ];
    other = h.other;
    in_range = h.in_range;
  }

  -- While a queue is assembled nothing of it is in flight.
  pub assembling-flights :
      (s : Shared M) (q : Bool) (n : ℕ)
      → s.flusher ≡ assembling q n
      → IsConsistent size s
      → (flights q s.in_flight ≡ 0) × (q ≡ not s.active) × (s.done_count q ≡ n)
  assembling-flights s q n e h =
      let (at, all) : (q ≡ not s.active) × (s.done_count q ≡ n) =
        subst (FlushesOther s.active s.done_count) e h.other in
      (
        omega (
          arith,
          h.counted q,
          all,
          ap flushed e,
          if_false {A = ℕ} (same_queue s.active q) s.count (flushed s.flusher)
              (ap (λ (r : Bool). same_queue s.active r) at ∙ same_queue-not s.active),
        ),
        at,
        all,
      )

  pub finish-IsConsistent :
      (s : Shared M) (p : InFlight M) (rest : List (InFlight M))
      → Picks p s.in_flight rest
      → p.written ≡ true
      → IsConsistent size s
      → IsConsistent size (record s {
        done_count = set_count s.done_count p.queue (s.done_count p.queue + 1);
        in_flight = rest;
      })
  finish-IsConsistent s p rest pick e h = record {
    counted = λ q.
        finish-counted p.queue q s.done_count (flights q rest)
        ∙ omega (arith, one_sym p.queue q, Picks-flights pick q, h.counted q);
    ticketed = (Picks-All pick _ h.ticketed).1;
    stored = λ q t k room. elim (h.stored q t k room) [
      | inl same ↦ inl same
      | inr w ↦ elim (Picks-HasWriter pick q t w) [
        | inl this ↦ cc (this.2, e)
        | inr that ↦ inr that
      ]
    ];
    other = finish_other s.active s.done_count s.flusher p.queue h.other (λ q n now.
        elim (Bool-cases (same_queue p.queue q)) [
          | inr off ↦ off
          | inl on ↦ absurd (
              omega (
                arith,
                (assembling-flights s q n now h).0,
                Picks-flights pick q,
                one_sym p.queue q,
                if_true {A = ℕ} (same_queue p.queue q) 1 0 on,
              ))
        ]);
    in_range = h.in_range;
  }

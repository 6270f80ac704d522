-- ===== src/Interleaved/Steps.antt =====
-- core/messagebatch.go: what the steps of Flush keep, and every run.
use x_pipeline.Prelude.{
  ℕ, ◌+◌, ◌<◌, Bool, true, false, not, if◌then◌else◌, ◌≡◌, refl, sym, ap, ◌∙◌, arith,
}
use std.Path.{subst}
use x_pipeline.Batch.{index_mask}
use x_pipeline.Interleaved.{
  Flusher, idle, draining, assembling, same_queue, Shared, set_count, Step, Run, take, write,
  finish, swap, drained, reset,
}
use x_pipeline.Interleaved.Counting.{flights, All-map, All-zip, flights-none}
use x_pipeline.Interleaved.Invariant.{
  flushed, tickets, FlushesOther, IsConsistent, take-IsConsistent,
}
use x_pipeline.Interleaved.Moves.{write-IsConsistent, finish-IsConsistent, assembling-flights}

swap_lem :
    (a q : Bool) (c : ℕ)
    → (if same_queue (not a) q then 0 else c) ≡ (if same_queue a q then c else 0)
swap_lem true true c = refl
swap_lem true false c = refl
swap_lem false true c = refl
swap_lem false false c = refl

not-not : (a : Bool) → a ≡ not (not a)
not-not true = refl
not-not false = refl

reset_lem :
    (a q : Bool) (done : Bool → ℕ) (c n f : ℕ)
    → done q + f ≡ (if same_queue a q then c else n)
    → (q ≡ not a → f ≡ 0)
    → set_count done (not a) 0 q + f ≡ (if same_queue a q then c else 0)
reset_lem true true done c n f e k = e
reset_lem false false done c n f e k = e
reset_lem true false done c n f e k = omega (arith, k refl)
reset_lem false true done c n f e k = omega (arith, k refl)

kept_tickets :
    (a r : Bool) (c g t : ℕ)
    → same_queue (not a) r ≡ false
    → t < (if same_queue a r then c else g)
    → t < (if same_queue a r then c else 0)
kept_tickets true true c g t e h = h
kept_tickets false false c g t e h = h
kept_tickets true false c g t e h = cc
kept_tickets false true c g t e h = cc

more_tickets :
    (a r : Bool) (c g t : ℕ)
    → t < (if same_queue a r then c else 0)
    → t < (if same_queue a r then c else g)
more_tickets true true c g t h = h
more_tickets false false c g t h = h
more_tickets true false c g t h = omega arith
more_tickets false true c g t h = omega arith

module _ {M : Type 0} (size : ℕ) where
  -- The tickets of both queues stay what they are.
  moved-IsConsistent :
      (s : Shared M) (active : Bool) (count : ℕ) (flusher : Flusher)
      → ((q : Bool) → tickets active count flusher q ≡ tickets s.active s.count s.flusher q)
      → FlushesOther active s.done_count flusher
      → count < index_mask
      → IsConsistent size s
      → IsConsistent size (record s { active = active; count = count; flusher = flusher })
  moved-IsConsistent s active count flusher same other below h = record {
    counted = λ q. h.counted q ∙ sym (same q);
    ticketed = All-map (λ p (k, m). (omega (arith, same p.queue, k), m)) s.in_flight h.ticketed;
    stored = λ q t k room. h.stored q t (omega (arith, same q, k)) room;
    other = other;
    in_range = below;
  }

  reset-IsConsistent :
      (s : Shared M) (q : Bool) (n : ℕ)
      → s.flusher ≡ assembling q n
      → IsConsistent size s
      → IsConsistent size (record s { done_count = set_count s.done_count q 0; flusher = idle })
  reset-IsConsistent s q n e h =
      let (none, at, all) = assembling-flights size s q n e h in
      record {
        counted = λ r. rw at (
            reset_lem s.active r s.done_count s.count (flushed s.flusher) (flights r s.in_flight)
              (h.counted r) (λ here. rw (here, ← at) none));
        ticketed =
            All-zip
              (λ p (k, m) off. (
                kept_tickets s.active p.queue s.count (flushed s.flusher) p.ticket
                    (ap (λ (b : Bool). same_queue b p.queue) (sym at) ∙ off) k,
                m,
              ))
              s.in_flight h.ticketed (flights-none q s.in_flight none);
        stored = λ r t k room.
            h.stored r t (more_tickets s.active r s.count (flushed s.flusher) t k) room;
        other = tt;
        in_range = h.in_range;
      }

  pub Step-IsConsistent :
      {s t : Shared M} → Step size s t → IsConsistent size s → IsConsistent size t
  Step-IsConsistent {s} (take m below) h = take-IsConsistent size s m below h
  Step-IsConsistent {s} (write {p} {rest} pick e) h = write-IsConsistent size s p rest pick h
  Step-IsConsistent {s} (finish {p} {rest} pick e) h = finish-IsConsistent size s p rest pick e h
  Step-IsConsistent {s} (swap e) h =
      moved-IsConsistent s (not s.active) 0 (draining s.active s.count)
        (λ q.
          swap_lem s.active q s.count
          ∙ ap (λ (f : ℕ). if same_queue s.active q then s.count else f) (sym (ap flushed e)))
        (not-not s.active) (omega arith) h
  Step-IsConsistent {s} (drained {q} {writers} e all) h =
      moved-IsConsistent s s.active s.count (assembling q writers)
        (λ r. ap (λ (f : ℕ). if same_queue s.active r then s.count else f) (sym (ap flushed e)))
        (subst (FlushesOther s.active s.done_count) e h.other, all) h.in_range h
  Step-IsConsistent {s} (reset {q} {writers} e) h = reset-IsConsistent s q writers e h

  pub Run-IsConsistent : {s t : Shared M} → Run size s t → IsConsistent size s → IsConsistent size t
  Run-IsConsistent Run.here h = h
  Run-IsConsistent (Run.next run step) h = Step-IsConsistent step (Run-IsConsistent run h)

-- ===== src/Interleaved/Flushing.antt =====
-- core/messagebatch.go: what Flush hands to `assemble` while messages are appended.
use x_pipeline.Prelude.{
  ℕ, zero, suc, ◌+◌, ◌<◌, Bool, List, [], ◌∷◌, if◌then◌else◌, if_true, if_false, Bool-cases, not,
  ◌≡◌, refl, ap, ◌∙◌, inl, inr, arith,
}
use std.Path.{subst}
use x_pipeline.Interleaved.{
  InFlight, draining, assembling, same_queue, Picks, Shared, Step, write, finish, drained, Run,
  new_shared,
}
use x_pipeline.Interleaved.Counting.{
  flights, flights-some, HasWriter, same_queue_self, same_queue-not,
}
use x_pipeline.Interleaved.Invariant.{
  flushed, tickets, FlushesOther, IsConsistent, new_shared-IsConsistent,
}
use x_pipeline.Interleaved.Moves.{assembling-flights}
use x_pipeline.Interleaved.Steps.{Step-IsConsistent, Run-IsConsistent}

module _ {M : Type 0} where
  no_writer : (q : Bool) (t : ℕ) (ps : List (InFlight M)) → flights q ps ≡ 0 → HasWriter q t ps → ⊥
  no_writer q t [] e w = w
  no_writer q t (p ∷ ps) e (inl (at, _, _)) =
      omega (arith, e, if_true {A = ℕ} (same_queue q p.queue) 1 0 (rw at (same_queue_self q)))
  no_writer q t (p ∷ ps) e (inr w) = no_writer q t ps (omega (arith, e)) w

  flushed-tickets :
      (s : Shared M) (q : Bool)
      → q ≡ not s.active
      → tickets s.active s.count s.flusher q ≡ flushed s.flusher
  flushed-tickets s q at =
      if_false (same_queue s.active q) s.count (flushed s.flusher)
        (ap (λ (r : Bool). same_queue s.active r) at ∙ same_queue-not s.active)

  -- The steps that calls in flight have before them.
  abbrev pub work : List (InFlight M) → ℕ
  work [] = 0
  work (p ∷ ps) = (if p.written then 1 else 2) + work ps

  Picks-work :
      {p : InFlight M} {ps rest : List (InFlight M)}
      → Picks p ps rest
      → work ps ≡ (if p.written then 1 else 2) + work rest
  Picks-work Picks.here = refl
  Picks-work (Picks.there pick) = omega (arith, Picks-work pick)

module _ {M : Type 0} (size : ℕ) where
  -- When calls of Append and Flush interleave in any way, with fewer than 2 ^ 31 tickets between two
  -- swaps, then once Flush hands a queue to `assemble`, no call that has a ticket of that queue is in
  -- flight, the queue is not the active one, and the slot of each of its tickets, as far as the queue
  -- has room, has the message that the ticket was taken for.
  pub assembling_complete :
      (blank : M) {s : Shared M} (q : Bool) (writers : ℕ)
      → Run size (new_shared blank) s
      → s.flusher ≡ assembling q writers
      → (flights q s.in_flight ≡ 0)
        × (q ≡ not s.active)
        × ((t : ℕ) → t < writers → t < size → s.slots q t ≡ s.offered q t)
  assembling_complete blank {s} q writers run e =
      let h = Run-IsConsistent size run (new_shared-IsConsistent size blank) in
      let (none, at, all) = assembling-flights size s q writers e h in
      (
        none,
        at,
        λ t k room.
            elim (h.stored q t (omega (arith, flushed-tickets s q at, ap flushed e, k)) room) [
              | inl same ↦ same
              | inr w ↦ absurd (no_writer q t s.in_flight none w)
            ],
      )

  Run-append : {s t u : Shared M} → Run size s t → Run size t u → Run size s u
  Run-append run Run.here = run
  Run-append run (Run.next more step) = Run.next (Run-append run more) step

  -- A call in flight has a step that leaves Flush where it is.
  advance :
      (s : Shared M) (p : InFlight M) (rest : List (InFlight M))
      → Picks p s.in_flight rest
      → (t : Shared M) × Step size s t
        × (t.flusher ≡ s.flusher)
        × (work t.in_flight < work s.in_flight)
  advance s p rest pick = elim (Bool-cases p.written) [
    | inl e ↦
        (_, finish pick e, refl, omega (arith, Picks-work pick, if_true {A = ℕ} p.written 1 2 e))
    | inr e ↦
        (_, write pick e, refl, omega (arith, Picks-work pick, if_false {A = ℕ} p.written 1 2 e))
  ]

  drain :
      (fuel : ℕ) (s : Shared M) (q : Bool) (writers : ℕ)
      → work s.in_flight < fuel
      → IsConsistent size s
      → s.flusher ≡ draining q writers
      → (t : Shared M) × Run size s t × (t.flusher ≡ assembling q writers)
  drain zero s q writers h c e = absurd (omega arith)
  drain (suc fuel) s q writers h c e = elim (flights-some q s.in_flight) [
    | inl none ↦
        let at : q ≡ not s.active = subst (FlushesOther s.active s.done_count) e c.other in
        (
          _,
          Run.next Run.here
              (drained e (omega (arith, c.counted q, flushed-tickets s q at, ap flushed e, none))),
          refl,
        )
    | inr (p, rest, pick, at) ↦
        let (t, step, same, less) = advance s p rest pick in
        let (u, run, end) =
          drain fuel t q writers (omega (arith, h, less)) (Step-IsConsistent size step c)
            (same ∙ e) in
        (u, Run-append (Run.next Run.here step) run, end)
  ]

  -- While Flush waits for the writers of a queue it can go on: the calls in flight have steps that lead
  -- to a state in which their count is reached and the queue is handed to `assemble`.
  pub draining_proceeds :
      (blank : M) {s : Shared M} (q : Bool) (writers : ℕ)
      → Run size (new_shared blank) s
      → s.flusher ≡ draining q writers
      → (t : Shared M) × Run size s t × (t.flusher ≡ assembling q writers)
  draining_proceeds blank {s} q writers run e =
      drain (suc (work s.in_flight)) s q writers (omega arith)
        (Run-IsConsistent size run (new_shared-IsConsistent size blank)) e

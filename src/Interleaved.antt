-- ===== src/Interleaved.antt =====
-- core/messagebatch.go: calls of Append and Flush that interleave. A call of Append takes a ticket,
-- writes its message, and counts its write, in three steps; between them it is in flight. A call of
-- Flush acquires the wait group, swaps the active set, waits for the writers, and lets `assemble`
-- read and resets the count. An index of the two queues is a Bool. What is not in flight between two
-- steps stands in `Shared`; `offered` is no part of the code: it has the message for each ticket.
pub mod Counting
pub mod Invariant
pub mod Moves
pub mod Steps
pub mod Flushing
mod Tests
use x_pipeline.Prelude.{
  ℕ, ◌+◌, ◌<◌, Bool, true, false, not, ◌&&◌, List, [], ◌∷◌, ltb, ◌==◌, if◌then◌else◌, ◌≡◌,
}
use x_pipeline.Batch.{index_mask}

-- A call of Append between its ticket and the count of its write.
pub record InFlight (M : Type 0) : Type 0 where
  pub queue : Bool
  pub ticket : ℕ
  pub msg : M
  pub written : Bool

-- Flush, which runs once at a time: the queue it has taken and its number of tickets.
pub data Flusher : Type 0 where
  idle : Flusher
  draining assembling : Bool → ℕ → Flusher

abbrev pub same_queue : Bool → Bool → Bool
same_queue true b = b
same_queue false b = not b

module _ {M : Type 0} where
  abbrev pub put : (Bool → ℕ → M) → Bool → ℕ → M → Bool → ℕ → M
  put f q t m q' t' = if same_queue q q' && (t' == t) then m else f q' t'

  pub data Picks (p : InFlight M) : List (InFlight M) → List (InFlight M) → Type 0 where
    here : {ps : List (InFlight M)} → Picks p (p ∷ ps) ps
    there :
        {x : InFlight M} {ps rest : List (InFlight M)}
        → Picks p ps rest
        → Picks p (x ∷ ps) (x ∷ rest)

-- The two queues, the active set as its index and its count, and the calls under way.
pub record Shared (M : Type 0) : Type 0 where
  pub slots : Bool → ℕ → M
  pub done_count : Bool → ℕ
  pub active : Bool
  pub count : ℕ
  pub in_flight : List (InFlight M)
  pub flusher : Flusher
  pub offered : Bool → ℕ → M

abbrev pub set_count : (Bool → ℕ) → Bool → ℕ → Bool → ℕ
set_count f q n q' = if same_queue q q' then n else f q'

module _ {M : Type 0} (size : ℕ) where
  -- The write of a ticket, if the queue has room for it.
  abbrev pub write_slot : (Bool → ℕ → M) → InFlight M → Bool → ℕ → M
  write_slot slots p = if ltb p.ticket size then put slots p.queue p.ticket p.msg else slots

  pub data Step (s : Shared M) : Shared M → Type 0 where
    -- `AddUint32`, as long as the count stays below its mask.
    take :
        (m : M)
        → s.count + 1 < index_mask
        → Step s (record s {
          count = s.count + 1;
          in_flight =
              (record { queue = s.active; ticket = s.count; msg = m; written = false })
              ∷ s.in_flight;
          offered = put s.offered s.active s.count m;
        })
    write :
        {p : InFlight M} {rest : List (InFlight M)}
        → Picks p s.in_flight rest
        → p.written ≡ false
        → Step s (record s {
          slots = write_slot s.slots p;
          in_flight = (record p { written = true }) ∷ rest;
        })
    -- The deferred `AddUint32` of the count of writes.
    finish :
        {p : InFlight M} {rest : List (InFlight M)}
        → Picks p s.in_flight rest
        → p.written ≡ true
        → Step s (record s {
          done_count = set_count s.done_count p.queue (s.done_count p.queue + 1);
          in_flight = rest;
        })
    swap :
        s.flusher ≡ idle
        → Step s
            (record s { active = not s.active; count = 0; flusher = draining s.active s.count })
    drained :
        {q : Bool} {writers : ℕ}
        → s.flusher ≡ draining q writers
        → s.done_count q ≡ writers
        → Step s (record s { flusher = assembling q writers })
    reset :
        {q : Bool} {writers : ℕ}
        → s.flusher ≡ assembling q writers
        → Step s (record s { done_count = set_count s.done_count q 0; flusher = idle })

  pub data Run (s : Shared M) : Shared M → Type 0 where
    here : Run s s
    next : {t u : Shared M} → Run s t → Step t u → Run s u

-- `NewMessageBatch`.
abbrev pub new_shared : {M : Type 0} → M → Shared M
new_shared blank = record {
  slots = λ q t. blank;
  done_count = λ q. 0;
  active = false;
  count = 0;
  in_flight = [];
  flusher = idle;
  offered = λ q t. blank;
}

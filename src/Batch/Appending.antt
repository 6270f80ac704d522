-- ===== src/Batch/Appending.antt =====
-- core/messagebatch.go: AppendOrBlock, and AppendOrFlush with a `flushBuffer` that is Flush. What
-- others do to the batch before each turn of the loop is an argument.
use x_pipeline.Prelude.{
  ℕ, zero, suc, ◌+◌, ◌/◌, ◌%◌, ◌-◌, take, ◌<◌, Bool, true, false, List, [], ◌∷◌, ◌++◌, Option, none,
  some, ◌>>=◌, length, length-take, ◌==◌, if◌then◌else◌, if_true, if_false, ◌≡◌, refl, ap, ◌∙◌, inl,
  inr, arith,
}
use std.Path.{subst}
use x_pipeline.Numbers.{min_i}
use x_pipeline.Batch.{
  MessageBatch, MessageQueue, queue, u32_mod, is_empty, write_ticket, set_queue, active_count,
  active_idx, index_mask, append, flush, Flushed, nothing, assembled, waiting,
}
use x_pipeline.Batch.Buffer.{IsSettled, contents, append-contents, active-size}
use x_pipeline.Batch.Handover.{flush-contents}

-- The batch, what was handed to `assemble`, and whether the message was appended, or else dropped.
pub record AppendedOrDropped (M : Type 0) : Type 0 where
  pub batch : MessageBatch M
  pub flushed : List M
  pub appended : Bool

module _ {M : Type 0} where
  -- The batch and whether the message was appended; `none` if it still spins.
  unfoldable pub append_or_block :
      List (MessageBatch M → MessageBatch M) → MessageBatch M → M → Option (MessageBatch M × Bool)
  unfolding append
  append_or_block [] b msg = none
  append_or_block (other ∷ others) b msg =
      let b' = other b in
      let rest = append_or_block others (append b' msg).0 msg in
      if b'.closed
      then some (b', false)
      else if (append b' msg).1
      then some ((append b' msg).0, true)
      else rest

  abbrev pub behind_flush :
      List (MessageBatch M → MessageBatch M)
      → Bool
      → M
      → MessageBatch M
      → List M
      → Option (AppendedOrDropped M)
  behind_flush others true msg b out = append_or_block others b msg >>= λ r.
      some (record { batch = r.0; flushed = out; appended = r.1 })
  behind_flush others false msg b out = some (record { batch = b; flushed = out; appended = false })

  abbrev pub flush_first :
      List (MessageBatch M → MessageBatch M)
      → Bool
      → M
      → MessageBatch M
      → Flushed M
      → Option (AppendedOrDropped M)
  flush_first others can_block msg b nothing = behind_flush others can_block msg b []
  flush_first others can_block msg b (assembled b' out) = behind_flush others can_block msg b' out
  flush_first others can_block msg b waiting = none

  unfoldable pub append_or_flush :
      List (MessageBatch M → MessageBatch M)
      → Bool
      → MessageBatch M
      → M
      → ℕ
      → Option (AppendedOrDropped M)
  unfolding append flush append_or_block
  append_or_flush others can_block b msg now =
      let (b', ok) = append b msg in
      if ok
      then some (record { batch = b'; flushed = []; appended = true })
      else flush_first others can_block msg b' (flush b' now)

  set_queue-closed :
      (b : MessageBatch M) (i : ℕ) (q : MessageQueue M) → (set_queue b i q).closed ≡ b.closed
  set_queue-closed b zero q = refl
  set_queue-closed b (suc i) q = refl

  if_closed :
      (c : Bool) (b b' : MessageBatch M) (x y : Bool)
      → b'.closed ≡ b.closed
      → (if◌then◌else◌ {A = MessageBatch M × Bool} c (b, x) (b', y)).0.closed ≡ b.closed
  if_closed true b b' x y e = refl
  if_closed false b b' x y e = e

  append-closed : (b : MessageBatch M) (msg : M) → (append b msg).0.closed ≡ b.closed
  unfolding append
  append-closed b msg =
      let next = (b.active_set + 1) % u32_mod in
      let ticket = if next % index_mask == 0 then u32_mod - 1 else next % index_mask - 1 in
      let r = write_ticket (queue b (next / index_mask)) ticket msg in
      if_closed b.closed b (set_queue (record b { active_set = next }) (next / index_mask) r.0)
        false r.1 (set_queue-closed (record b { active_set = next }) (next / index_mask) r.0)

  abbrev Keeps : Bool → Flushed M → Type 0
  Keeps c nothing = Unit
  Keeps c (assembled b' out) = b'.closed ≡ c
  Keeps c waiting = Unit

  flush_cases :
      (t u : Bool) (c : Bool) (b' : MessageBatch M) (out : List M)
      → b'.closed ≡ c
      → Keeps c (if t then nothing else if u then assembled b' out else waiting)
  flush_cases true u c b' out e = tt
  flush_cases false true c b' out e = e
  flush_cases false false c b' out e = tt

  flush-Keeps : (b : MessageBatch M) (now : ℕ) → Keeps b.closed (flush b now)
  unfolding flush
  flush-Keeps b now =
      let idx = b.active_set / index_mask in
      let writers = b.active_set % index_mask in
      let q = queue b idx in
      let switched = record b {
        active_set = if idx == 0 then index_mask else 0;
        last_flush = now;
      } in
      flush_cases (is_empty b) (writers == q.done_count) b.closed
        (set_queue switched idx (record q { done_count = 0 }))
        (take (min_i writers (length q.messages)) q.messages)
        (set_queue-closed switched idx (record q { done_count = 0 }))

  -- An open batch with room appends in the first turn of the loop, if nobody else is there.
  block_once :
      (others : List (MessageBatch M → MessageBatch M)) (b : MessageBatch M) (msg : M)
      → b.closed ≡ false
      → (append b msg).1 ≡ true
      → append_or_block ((λ b. b) ∷ others) b msg ≡ some ((append b msg).0, true)
  unfolding append_or_block
  block_once others b msg unclosed ok =
      if_false b.closed _ _ unclosed ∙ if_true (append b msg).1 _ _ ok

  no_tickets :
      (b : MessageBatch M) (n : ℕ)
      → IsSettled b n
      → 0 < n
      → contents b ≡ []
      → active_count b + 1 < index_mask
  unfolding min_i
  no_tickets b n s some_room empty =
      let size = active-size b n s in
      let none : length (contents b) ≡ 0 = ap (λ (xs : List M). length xs) empty in
      let q = queue b (active_idx b) in
      ground
        (arith, length-take (min_i (active_count b) (length q.messages)) q.messages, size, none)

  flushed_then :
      (others : List (MessageBatch M → MessageBatch M)) (b : MessageBatch M) (msg : M) (n now : ℕ)
      → IsSettled b n
      → b.closed ≡ false
      → (0 < length (contents b)) × (0 < n)
      → (r : AppendedOrDropped M) × (flush_first ((λ b. b) ∷ others) true msg b (flush b now)
          ≡ some r)
        × ((r.appended ≡ true)
            × IsSettled r.batch n
            × (r.flushed ++ contents r.batch ≡ contents b ++ msg ∷ []))
  flushed_then others b msg n now s unclosed (some_message, some_room) =
      elim (flush-contents b n now s) [
        | inl (_, empty) ↦
            absurd (omega (arith, some_message, ap (λ (xs : List M). length xs) empty))
        | inr (b', e, settled, empty) ↦
            let unclosed' : b'.closed ≡ false =
              subst (Keeps b.closed) e (flush-Keeps b now) ∙ unclosed in
            let (settled', either) =
              append-contents b' msg n settled unclosed'
                (no_tickets b' n settled some_room empty) in
            elim either [
              | inr (_, size, _) ↦
                  absurd (omega (arith, size, some_room, ap (λ (xs : List M). length xs) empty))
              | inl (ok, _, all) ↦ (
                record { batch = (append b' msg).0; flushed = contents b; appended = true },
                ap (flush_first ((λ b. b) ∷ others) true msg b) e
                    ∙ ap
                        (λ o. o >>= λ r.
                          some (record { batch = r.0; flushed = contents b; appended = r.1 }))
                        (block_once others b' msg unclosed' ok),
                (
                  refl,
                  settled',
                  ap (λ xs. contents b ++ xs) (all ∙ ap (λ xs. xs ++ msg ∷ []) empty),
                ),
              )
            ]
      ]

  -- AppendOrFlush on a settled, open batch of at least one message, that may block and has nobody else at
  -- work on it, appends: what was handed to `assemble`, followed by what is in the batch, is what was in
  -- the batch, followed by the message. Fewer than 2 ^ 31 - 1 tickets were handed out since the last flush.
  pub append_or_flush-contents :
      (others : List (MessageBatch M → MessageBatch M)) (b : MessageBatch M) (msg : M) (n now : ℕ)
      → IsSettled b n
      → b.closed ≡ false
      → active_count b + 1 < index_mask
      → 0 < n
      → (r : AppendedOrDropped M) × (append_or_flush ((λ b. b) ∷ others) true b msg now ≡ some r)
        × (r.appended ≡ true)
        × IsSettled r.batch n
        × (r.flushed ++ contents r.batch ≡ contents b ++ msg ∷ [])
  unfolding append_or_flush
  append_or_flush-contents others b msg n now s unclosed room some_room =
      let (settled, either) = append-contents b msg n s unclosed room in
      elim either [
        | inl (ok, _, all) ↦ (
          record { batch = (append b msg).0; flushed = []; appended = true },
          if_true (append b msg).1 _ _ ok,
          refl,
          settled,
          all,
        )
        | inr (full, size, same) ↦
            let (r, e, rest) =
              flushed_then others (append b msg).0 msg n now settled
                (append-closed b msg ∙ unclosed)
                (omega (arith, size, ap (λ (xs : List M). length xs) same, some_room), some_room) in
            (
              r,
              if_false (append b msg).1 _ _ full ∙ e,
              rest.0,
              rest.1,
              rest.2 ∙ ap (λ xs. xs ++ msg ∷ []) same,
            )
      ]

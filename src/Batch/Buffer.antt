-- ===== src/Batch/Buffer.antt =====
-- core/messagebatch.go against the bounded buffer `contents`.
use x_pipeline.Prelude.{
  ℕ, suc, ◌+◌, ◌-◌, ◌/◌, ◌%◌, ◌≤◌, ◌<◌, Bool, true, false, List, [], ◌∷◌, ◌++◌, length, length-set,
  length-take, set, take, replicate, ltb, leb, ◌==◌, if◌then◌else◌, ◌≡◌, ◌≢◌, ◌⊎◌, refl, arith,
  Bool-cases, inl, inr, length-replicate, take-set,
}
use x_pipeline.Numbers.{min_i, max_i}
use x_pipeline.Batch.{
  u32_mod, index_mask, MessageQueue, MessageBatch, queue, set_queue, active_idx, active_count,
  append, new_message_batch, write_ticket, reached_size_threshold,
}

module _ {ℓ} {M : Type ℓ} where
  -- The active queue has one write per ticket, the other one none; both have the size of the batch.
  pub record IsSettled (b : MessageBatch M) (n : ℕ) : Type ℓ where
    pub in_range : b.active_set < u32_mod
    pub done : (queue b (active_idx b)).done_count ≡ active_count b
    pub other : (queue b (1 - active_idx b)).done_count ≡ 0
    pub size0 : length b.queue0.messages ≡ n
    pub size1 : length b.queue1.messages ≡ n

  -- The messages of a queue with `c` tickets: not more than there is room.
  abbrev filled : MessageQueue M → ℕ → List M
  filled q c = take (min_i c (length q.messages)) q.messages

  -- The buffer that a batch stands for.
  abbrev pub contents : MessageBatch M → List M
  contents b = filled (queue b (active_idx b)) (active_count b)

  pub two_queues :
      (b : MessageBatch M) {n : ℕ} → IsSettled b n → (active_idx b ≡ 0) ⊎ (active_idx b ≡ 1)
  two_queues b s = elim (Bool-cases (active_idx b == 0)) [
    | inl e ↦ inl (ground arith)
    | inr e ↦
        let bound = s.in_range in
        let ne : active_idx b ≢ 0 = λ f. ground arith in inr (omega (arith, bound, ne))
  ]

  pub first_none : (xs : List M) → take (min_i 0 (length xs)) xs ≡ []
  unfolding min_i
  first_none xs = let z : (if ltb 0 (length xs) then 0 else length xs) ≡ 0 = ground arith in rw z

  if_open : (c : Bool) (x y : MessageBatch M × Bool) → c ≡ false → (if c then x else y) ≡ y
  if_open c x y e = rw e refl

  -- The batch after a ticket was handed out and `q` was written.
  ticketed : MessageBatch M → MessageQueue M → MessageBatch M
  ticketed b q = set_queue (record b { active_set = b.active_set + 1 }) (active_idx b) q

  ticketed-IsSettled :
      (b : MessageBatch M) (q : MessageQueue M) (n : ℕ)
      → IsSettled b n
      → active_count b + 1 < index_mask
      → length q.messages ≡ n
      → q.done_count ≡ active_count b + 1
      → IsSettled (ticketed b q) n
        × (queue (ticketed b q) (active_idx (ticketed b q)) ≡ q)
        × (active_count (ticketed b q) ≡ active_count b + 1)
  unfolding ticketed
  ticketed-IsSettled b q n s room size done = elim (two_queues b s) [
    | inl e ↦
        let e' : (b.active_set + 1) / index_mask ≡ 0 = omega arith in
        let other : b.queue1.done_count ≡ 0 = rw e at s.other in
        rw e (
          record {
            in_range = omega arith;
            done = rw e' (omega (arith, done));
            other = rw e' other;
            size0 = size;
            size1 = s.size1;
          },
          rw e' refl,
          omega arith,
        )
    | inr e ↦
        let e' : (b.active_set + 1) / index_mask ≡ 1 = omega arith in
        let other : b.queue0.done_count ≡ 0 = rw e at s.other in
        rw e (
          record {
            in_range = omega arith;
            done = rw e' (omega (arith, done));
            other = rw e' other;
            size0 = s.size0;
            size1 = size;
          },
          rw e' refl,
          omega arith,
        )
  ]

  -- What `Append` does where it takes a ticket that does not wrap.
  append-ticketed :
      (b : MessageBatch M) (msg : M) {n : ℕ}
      → IsSettled b n
      → b.closed ≡ false
      → active_count b + 1 < index_mask
      → let (q, ok) = write_ticket (queue b (active_idx b)) (active_count b) msg in
        append b msg ≡ (ticketed b q, ok)
  unfolding append ticketed
  append-ticketed b msg s unclosed room =
      let bound = s.in_range in
      let next : (b.active_set + 1) % u32_mod ≡ b.active_set + 1 = omega arith in
      let idx : (b.active_set + 1) / index_mask ≡ b.active_set / index_mask = omega arith in
      let count : (b.active_set + 1) % index_mask ≡ b.active_set % index_mask + 1 = omega arith in
      let ticket : (if b.active_set % index_mask + 1 == 0
            then u32_mod - 1
            else b.active_set % index_mask + 1 - 1)
          ≡ b.active_set % index_mask =
        ground arith in
      rw (next, idx, count, ticket) (if_open b.closed _ _ unclosed)

  pub active-size :
      (b : MessageBatch M) (n : ℕ) → IsSettled b n → length (queue b (active_idx b)).messages ≡ n
  active-size b n s = elim (two_queues b s) [ inl e ↦ rw e s.size0 | inr e ↦ rw e s.size1 ]

  length-filled : (q : MessageQueue M) (c : ℕ) → length (filled q c) ≡ min_i c (length q.messages)
  unfolding min_i
  length-filled q c = ground (arith, length-take (min_i c (length q.messages)) q.messages)

  Stored : MessageQueue M → ℕ → M → ℕ → MessageQueue M → Bool → Type ℓ
  Stored q c msg n q' ok =
      ((ok ≡ true) × (length (filled q c) < n) × (filled q' (c + 1) ≡ filled q c ++ msg ∷ []))
      ⊎ ((ok ≡ false) × (length (filled q c) ≡ n) × (filled q' (c + 1) ≡ filled q c))

  write_ticket-Stored :
      (q : MessageQueue M) (c : ℕ) (msg : M) (n : ℕ)
      → length q.messages ≡ n
      → q.done_count ≡ c
      → c + 1 < index_mask
      → let (q', ok) = write_ticket q c msg in
        (length q'.messages ≡ n) × (q'.done_count ≡ c + 1) × Stored q c msg n q' ok
  unfolding write_ticket Stored
  write_ticket-Stored q c msg n size done room = elim (Bool-cases (leb (length q.messages) c)) [
    | inl full ↦
        let now : min_i c (length q.messages) ≡ length q.messages = unfold min_i in ground arith in
        let next : min_i (c + 1) (length q.messages) ≡ length q.messages =
          unfold min_i in ground arith in
        rw full (size, omega arith, inr (refl, omega (arith, length-filled q c), rw (now, next)))
    | inr free ↦
        let now : min_i c (length q.messages) ≡ c = unfold min_i in ground arith in
        let after : min_i (c + 1) (length (set q.messages c msg)) ≡ c + 1 =
          unfold min_i in ground (arith, length-set q.messages c msg) in
        let one : c + 1 ≡ suc c = omega arith in
        rw free (
          omega (arith, length-set q.messages c msg),
          omega arith,
          inl (
            refl,
            ground (arith, length-filled q c),
            rw (now, after, one) (take-set q.messages c msg (ground arith)),
          ),
        )
  ]

  -- A new batch is settled and stands for the empty buffer.
  pub new_message_batch-IsSettled :
      (blank : M) (n now : ℕ)
      → IsSettled (new_message_batch blank n now) n
        × (contents (new_message_batch blank n now) ≡ [])
  unfolding new_message_batch min_i
  new_message_batch-IsSettled blank n now = (
    record {
      in_range = omega arith;
      done = refl;
      other = refl;
      size0 = length-replicate n blank;
      size1 = length-replicate n blank;
    },
    first_none (replicate n blank),
  )

  -- `Append` on a settled batch that is open and has handed out fewer than 2 ^ 31 - 1 tickets
  -- since the last flush keeps it settled. If there is room, it returns true and the message is the
  -- last one of the buffer; else it returns false and the buffer is as it was.
  pub append-contents :
      (b : MessageBatch M) (msg : M) (n : ℕ)
      → IsSettled b n
      → b.closed ≡ false
      → active_count b + 1 < index_mask
      → let (b', ok) = append b msg in
        IsSettled b' n
        × ((ok ≡ true) × (length (contents b) < n) × (contents b' ≡ contents b ++ msg ∷ [])
            ⊎ (ok ≡ false) × (length (contents b) ≡ n) × (contents b' ≡ contents b))
  append-contents b msg n s unclosed room =
      let (size, done, stored) =
        write_ticket-Stored (queue b (active_idx b)) (active_count b) msg n (active-size b n s)
          s.done room in
      let (settled, active, count) =
        ticketed-IsSettled b (write_ticket (queue b (active_idx b)) (active_count b) msg).0 n s room
          size done in
      rw (append-ticketed b msg s unclosed room)
        (settled, rw (active, count) (unfold Stored in stored))

  -- With a size up to that of the queue, which is below 2 ^ 31, `ReachedSizeThreshold` is true on a
  -- settled batch only if its buffer is full.
  pub reached_size_threshold-full :
      (b : MessageBatch M) (n size : ℕ)
      → IsSettled b n
      → size ≤ n
      → n < index_mask
      → reached_size_threshold b size ≡ true
      → length (contents b) ≡ n
  unfolding reached_size_threshold max_i min_i
  reached_size_threshold-full b n size s h small e =
      ground
        (arith, length-filled (queue b (active_idx b)) (active_count b), active-size b n s, s.done)

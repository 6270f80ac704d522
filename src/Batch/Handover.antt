-- ===== src/Batch/Handover.antt =====
-- core/messagebatch.go: Flush against the bounded buffer `contents`.
use x_pipeline.Prelude.{
  ℕ, ◌/◌, ◌%◌, true, [], ◌==◌, if◌then◌else◌, ◌≡◌, ◌⊎◌, refl, arith, Bool-cases, inl, inr,
}
use x_pipeline.Batch.{
  index_mask, MessageBatch, queue, set_queue, active_idx, flush, nothing, assembled, is_empty,
}
use x_pipeline.Batch.Buffer.{IsSettled, contents, two_queues, first_none}

module _ {ℓ} {M : Type ℓ} where
  -- The batch after a flush.
  emptied : MessageBatch M → ℕ → MessageBatch M
  emptied b now =
      set_queue
        (record b {
          active_set = if b.active_set / index_mask == 0 then index_mask else 0;
          last_flush = now;
        })
        (b.active_set / index_mask)
        (record (queue b (b.active_set / index_mask)) { done_count = 0 })

  emptied-IsSettled :
      (b : MessageBatch M) (n now : ℕ)
      → IsSettled b n
      → IsSettled (emptied b now) n × (contents (emptied b now) ≡ [])
  unfolding emptied
  emptied-IsSettled b n now s = elim (two_queues b s) [
    | inl e ↦
        let other : b.queue1.done_count ≡ 0 = rw e at s.other in
        rw e (
          record {
            in_range = omega arith;
            done = other;
            other = refl;
            size0 = s.size0;
            size1 = s.size1;
          },
          first_none b.queue1.messages,
        )
    | inr e ↦
        let other : b.queue0.done_count ≡ 0 = rw e at s.other in
        rw e (
          record {
            in_range = omega arith;
            done = other;
            other = refl;
            size0 = s.size0;
            size1 = s.size1;
          },
          first_none b.queue0.messages,
        )
  ]

  -- `Flush` on a settled batch does not wait: if the batch has handed out no ticket it does
  -- nothing, else it hands over exactly the buffer, and leaves a settled batch with an empty buffer.
  pub flush-contents :
      (b : MessageBatch M) (n now : ℕ)
      → IsSettled b n
      → ((flush b now ≡ nothing) × (contents b ≡ []))
        ⊎ ((b' : MessageBatch M) × (flush b now ≡ assembled b' (contents b))
            × IsSettled b' n
            × (contents b' ≡ []))
  unfolding flush is_empty emptied
  flush-contents b n now s = elim (Bool-cases (b.active_set % index_mask == 0)) [
    | inl e ↦
        let z : b.active_set % index_mask ≡ 0 = ground arith in
        inl (rw e refl, rw z (first_none (queue b (active_idx b)).messages))
    | inr e ↦
        let all_done : (b.active_set % index_mask == (queue b (active_idx b)).done_count) ≡ true =
          ground (arith, s.done) in
        inr (
          emptied b now,
          rw (e, all_done) refl,
          (emptied-IsSettled b n now s).0,
          (emptied-IsSettled b n now s).1,
        )
  ]

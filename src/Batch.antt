-- ===== src/Batch.antt =====
-- core/messagebatch.go: a double buffer of messages that is filled by tickets and flushed.
-- `active_set` is the uint32 of the source: the bit 31 is the index of the queue that is filled, the
-- others count its tickets. The operations run one after the other here: `Append` takes a ticket,
-- writes and counts its write in one step, and the goroutine of `Flush` runs to its end. The time of
-- the last flush is a parameter. `blank` is the zero value of a message.
pub mod Buffer
pub mod Handover
pub mod Appending
mod Tests
use x_pipeline.Prelude.{
  ℕ, zero, suc, ◌+◌, ◌-◌, ◌/◌, ◌%◌, Bool, true, false, not, ◌&&◌, List, length, set, take,
  replicate, ltb, leb, ◌==◌, if◌then◌else◌,
}
use x_pipeline.Numbers.{max_i, min_i}

abbrev pub u32_mod : ℕ
u32_mod = 0x100000000

-- `messageBatchCountMask` + 1 and `messageBatchIndexMask`.
abbrev pub index_mask : ℕ
index_mask = 0x80000000

module _ {ℓ} where
  pub record MessageQueue (M : Type ℓ) : Type ℓ where
    pub messages : List M
    pub done_count : ℕ

  pub record MessageBatch (M : Type ℓ) : Type ℓ where
    pub queue0 : MessageQueue M
    pub queue1 : MessageQueue M
    pub last_flush : ℕ
    pub active_set : ℕ
    pub closed : Bool

  -- What `Flush` does: nothing, hand messages to `assemble`, or wait for writers for ever.
  pub data Flushed (M : Type ℓ) : Type ℓ where
    nothing : Flushed M
    assembled : MessageBatch M → List M → Flushed M
    waiting : Flushed M

  module _ {M : Type ℓ} where
    unfoldable pub new_message_queue : M → ℕ → MessageQueue M
    new_message_queue blank n = record { messages = replicate n blank; done_count = 0 }

    unfoldable pub new_message_batch : M → ℕ → ℕ → MessageBatch M
    unfolding new_message_queue
    new_message_batch blank n now = record {
      queue0 = new_message_queue blank n;
      queue1 = new_message_queue blank n;
      last_flush = now;
      active_set = 0;
      closed = false;
    }

    -- `batch.queue[index]`, for an index that is 0 or 1.
    abbrev pub queue : MessageBatch M → ℕ → MessageQueue M
    queue b zero = b.queue0
    queue b (suc i) = b.queue1

    abbrev pub set_queue : MessageBatch M → ℕ → MessageQueue M → MessageBatch M
    set_queue b zero q = record b { queue0 = q }
    set_queue b (suc i) q = record b { queue1 = q }

    abbrev pub active_idx : MessageBatch M → ℕ
    active_idx b = b.active_set / index_mask

    abbrev pub active_count : MessageBatch M → ℕ
    active_count b = b.active_set % index_mask

    unfoldable pub len : MessageBatch M → ℕ
    len b = length b.queue0.messages

    unfoldable pub is_empty : MessageBatch M → Bool
    is_empty b = b.active_set % index_mask == 0

    -- The write of a ticket, which counts as done even if there is no room.
    unfoldable pub write_ticket : MessageQueue M → ℕ → M → MessageQueue M × Bool
    write_ticket q ticket msg =
        if leb (length q.messages) ticket
        then (record q { done_count = (q.done_count + 1) % u32_mod }, false)
        else (
          record q {
            messages = set q.messages ticket msg;
            done_count = (q.done_count + 1) % u32_mod;
          },
          true,
        )

    -- A ticket index of -1, after the count has wrapped, is 2 ^ 32 - 1.
    unfoldable pub append : MessageBatch M → M → MessageBatch M × Bool
    unfolding write_ticket
    append b msg =
        let next = (b.active_set + 1) % u32_mod in
        let ticket = if next % index_mask == 0 then u32_mod - 1 else next % index_mask - 1 in
        let (q, ok) = write_ticket (queue b (next / index_mask)) ticket msg in
        if b.closed
        then (b, false)
        else (set_queue (record b { active_set = next }) (next / index_mask) q, ok)

    -- The other queue becomes active; what is flushed is at most the queue's size.
    unfoldable pub flush : MessageBatch M → ℕ → Flushed M
    unfolding is_empty
    flush b now =
        let idx = b.active_set / index_mask in
        let writers = b.active_set % index_mask in
        let q = queue b idx in
        let switched = record b { active_set = if idx == 0 then index_mask else 0 } in
        let emptied =
          set_queue (record switched { last_flush = now }) idx (record q { done_count = 0 }) in
        if is_empty b
        then nothing
        else if writers == q.done_count
        then assembled emptied (take (min_i writers (length q.messages)) q.messages)
        else waiting

    unfoldable pub close : MessageBatch M → ℕ → Flushed M
    unfolding flush
    close b now = flush (record b { closed = true }) now

    unfoldable pub reached_size_threshold : MessageBatch M → ℕ → Bool
    reached_size_threshold b size =
        let q = queue b (b.active_set / index_mask) in
        leb (max_i size (length q.messages) % u32_mod) q.done_count

    -- `now` and the timeout are in seconds; the threshold is passed only by more than the timeout.
    unfoldable pub reached_time_threshold : MessageBatch M → ℕ → ℕ → Bool
    unfolding is_empty
    reached_time_threshold b now timeout = not (is_empty b) && ltb (b.last_flush + timeout) now

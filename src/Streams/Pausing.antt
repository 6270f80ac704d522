-- ===== src/Streams/Pausing.antt =====
-- core/stream.go: `Pause` and `Resume` against a stream that is not paused.
use x_pipeline.Prelude.{
  ℕ, ◌+◌, ◌≤◌, ◌<◌, true, false, List, [], ◌∷◌, ◌++◌, none, some, length, length-append, ltb,
  lt→ltb, ◌⊎◌, inl, inr, Bool-cases, ltb→lt, ◌≡◌, refl, ap, sym, arith, append-nil, append_assoc,
}
use x_pipeline.Message.{Message}
use x_pipeline.Streams.{StreamBase, stash, pause, resume, run_distribute, distribute_all}

-- A paused stream with what it has stashed.
abbrev stashed : StreamBase → ℕ → List Message → StreamBase
stashed s capacity old = record s {
  distribute = stash;
  paused = some (record { capacity = capacity; messages = old });
}

stash_one :
    (pick : ℕ → ℕ) (s : StreamBase) (capacity : ℕ) (old : List Message) (m : Message)
    → ltb (length old) capacity ≡ true
    → run_distribute pick (stashed s capacity old) m ≡ some (stashed s capacity (old ++ m ∷ []), [])
unfolding run_distribute
stash_one pick s capacity old m room = rw (room, run_distribute) refl

stash_full :
    (pick : ℕ → ℕ) (s : StreamBase) (capacity : ℕ) (old : List Message) (m : Message)
    → ltb (length old) capacity ≡ false
    → run_distribute pick (stashed s capacity old) m ≡ none
unfolding run_distribute
stash_full pick s capacity old m full = rw (full, run_distribute) refl

stash_all :
    (pick : ℕ → ℕ) (s : StreamBase) (capacity : ℕ) (old ms : List Message)
    → length old + length ms ≤ capacity
    → distribute_all pick (stashed s capacity old) ms ≡ some (stashed s capacity (old ++ ms), [])
unfolding distribute_all
stash_all pick s capacity old [] h =
    ap (λ (xs : List Message). some (stashed s capacity xs, [])) (sym (append-nil old))
stash_all pick s capacity old (m ∷ ms) h =
    let room : ltb (length old) capacity ≡ true = lt→ltb (length old) capacity (omega arith) in
    rw
      (
        stash_one pick s capacity old m room,
        distribute_all,
        stash_all pick s capacity (old ++ m ∷ []) ms (omega (arith, length-append old (m ∷ []))),
      )
      (ap (λ (xs : List Message). some (stashed s capacity xs, [])) (append_assoc old (m ∷ []) ms))

stash_overflows :
    (pick : ℕ → ℕ) (s : StreamBase) (capacity : ℕ) (old ms : List Message)
    → length old ≤ capacity
    → capacity < length old + length ms
    → distribute_all pick (stashed s capacity old) ms ≡ none
unfolding distribute_all
stash_overflows pick s capacity old [] h k = absurd (omega arith)
stash_overflows pick s capacity old (m ∷ ms) h k = elim (Bool-cases (ltb (length old) capacity)) [
  | inl room ↦
      let free : length old < capacity = ltb→lt (length old) capacity room in
      rw
        (
          stash_one pick s capacity old m room,
          distribute_all,
          stash_overflows pick s capacity (old ++ m ∷ []) ms
              (omega (arith, length-append old (m ∷ [])))
              (omega (arith, length-append old (m ∷ []))),
        )
        refl
  | inr full ↦ rw (stash_full pick s capacity old m full, distribute_all) refl
]

-- A stream that is not paused is paused with a capacity, and messages are distributed. If there are no
-- more than the capacity, nothing is delivered before the stream is resumed, and resuming it distributes
-- the messages in their order as the stream would have done without the pause. If there are more, the
-- call of the one that finds the channel full does not return. (The stream remembers its distributor as
-- the previous one.)
pub pause-resume :
    (pick : ℕ → ℕ) (s : StreamBase) (capacity : ℕ) (ms : List Message)
    → s.paused ≡ none
    → ((length ms ≤ capacity)
        × ((s' : StreamBase) × (distribute_all pick (pause s capacity) ms ≡ some (s', []))
            × (resume pick s'
                ≡ distribute_all pick (record s { prev_distribute = s.distribute }) ms)))
      ⊎ ((capacity < length ms) × (distribute_all pick (pause s capacity) ms ≡ none))
unfolding pause resume
pause-resume pick s capacity ms e =
    let keeps = record s { prev_distribute = s.distribute } in
    elim (Bool-cases (ltb capacity (length ms))) [
      | inl over ↦
          let more : capacity < length ms = ltb→lt capacity (length ms) over in
          inr (rw e (more, stash_overflows pick keeps capacity [] ms (omega arith) (omega arith)))
      | inr fits ↦
          let room : length ms ≤ capacity = ground arith in
          inl (
            rw e (
              room,
              (stashed keeps capacity ms, stash_all pick keeps capacity [] ms (omega arith), refl),
            ))
    ]

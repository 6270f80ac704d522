-- ===== src/Multiplexer/Listening.antt =====
-- multiplexer.go: the streams that a producer listens to when it has been made.
use x_pipeline.Prelude.{
  ℕ, ◌<◌, Bool, true, false, List, [], ◌∷◌, ◌++◌, Option, none, some, Bytes, length, ◌==◌, ==_refl,
  ==_iff, if◌then◌else◌, if_true, if_false, ◌≡◌, refl, sym, ap, ◌∙◌, arith, Bool-cases,
  Option-cases, inl, inr,
}
use std.Path.{subst}
use x_pipeline.Streams.{StreamBase, contains, add_producers, add_producer}
use x_pipeline.Streams.Producers.{contains-append, add_producers-keeps}
use x_pipeline.Registry.{
  StreamRegistry, get_stream_or_fallback, register, get_stream_id, wildcard_stream,
}
use x_pipeline.Multiplexer.{
  ProducerPlugin, Multiplexer, with_stream, listen, listen_all, has_public, add_new_producer,
}

-- The stream of the id is registered, and something holds of it.
abbrev pub Registered : (StreamBase → Type 0) → StreamRegistry → ℕ → Type 0
Registered P r id = (s : StreamBase) × (r.streams id ≡ some s) × P s

-- The producer is in the list of the stream.
abbrev pub ListensTo : StreamRegistry → ℕ → ℕ → Type 0
ListensTo r p id = Registered (λ s. contains s.producers p ≡ true) r id

add_producers-adds : (known : List ℕ) (p : ℕ) → contains (add_producers known (p ∷ [])) p ≡ true
unfolding add_producers contains
add_producers-adds known p = elim (Bool-cases (contains known p)) [
  | inl old ↦ rw old old
  | inr new ↦ rw new (rw (contains-append known (p ∷ []) p, new, ==_refl p) refl)
]

with_stream-at :
    (id p : ℕ) (r : StreamRegistry)
    → Registered (λ s. Unit) r id
    → ListensTo (with_stream id (λ s. add_producer s (p ∷ [])) r) p id
unfolding add_producer
with_stream-at id p r (s, at, _) = (
  add_producer s (p ∷ []),
  if_true (id == id) (elim (r.streams id) [ none ↦ none | some t ↦ some (add_producer t (p ∷ [])) ])
        (r.streams id) (==_refl id)
      ∙ ap
          (λ (o : Option StreamBase). elim o [
            | none ↦ none
            | some t ↦ some (add_producer t (p ∷ []))
          ])
          at,
  add_producers-adds s.producers p,
)

add_producer-keeps :
    (p : ℕ) (s : StreamBase) (q : ℕ)
    → contains s.producers q ≡ true
    → contains (add_producer s (p ∷ [])).producers q ≡ true
unfolding add_producer
add_producer-keeps p s q h = add_producers-keeps s.producers (p ∷ []) q h

-- A stream is there, or it is made.
fallback-there :
    (hash : Bytes → ℕ) (r : StreamRegistry) (id : ℕ)
    → Registered (λ s. Unit) (get_stream_or_fallback hash r id).0 id
unfolding get_stream_or_fallback register
fallback-there hash r id = elim (Option-cases (r.streams id)) [
  | inl e ↦ rw (e, get_stream_or_fallback) (_, if_true (id == id) _ _ (==_refl id), tt)
  | inr (s, e) ↦ rw (e, get_stream_or_fallback) (s, e, tt)
]

-- What holds of a stream, and is kept by AddProducer of one producer, is kept by all steps.
module _ (hash : Bytes → ℕ) (P : StreamBase → Type 0)
    (keeps : (p : ℕ) (s : StreamBase) → P s → P (add_producer s (p ∷ []))) where
  with_stream-keeps :
      (p id : ℕ) (r : StreamRegistry) (other : ℕ)
      → Registered P r other
      → Registered P (with_stream id (λ s. add_producer s (p ∷ [])) r) other
  with_stream-keeps p id r other (s, at, known) = by_test (other == id)
    where
      by_test :
          (b : Bool)
          → (s' : StreamBase) × ((if b
                then elim (r.streams other) [
                  | none ↦ none
                  | some t ↦ some (add_producer t (p ∷ []))
                ]
                else r.streams other)
              ≡ some s')
            × P s'
      by_test true = (
        add_producer s (p ∷ []),
        ap
            (λ (o : Option StreamBase). elim o [
              | none ↦ none
              | some t ↦ some (add_producer t (p ∷ []))
            ])
            at,
        keeps p s known,
      )
      by_test false = (s, at, known)

  new_stream_keeps :
      (r : StreamRegistry) (id other : ℕ) (made : StreamBase) (b : Bool)
      → r.streams id ≡ none
      → (other == id) ≡ b
      → Registered P r other
      → (s : StreamBase) × ((if b then some made else r.streams other) ≡ some s) × P s
  new_stream_keeps r id other made true e same (s, at, known) =
      let here : other ≡ id = (==_iff other id).0 same in
      let none_here : r.streams other ≡ none = rw here e in cc
  new_stream_keeps r id other made false e same there = there

  fallback-keeps :
      (r : StreamRegistry) (id other : ℕ)
      → Registered P r other
      → Registered P (get_stream_or_fallback hash r id).0 other
  unfolding get_stream_or_fallback register get_stream_id
  fallback-keeps r id other there = elim (Option-cases (r.streams id)) [
    | inl e ↦
        rw (e, get_stream_or_fallback) (new_stream_keeps r id other _ (other == id) e refl there)
    | inr (s, e) ↦ rw (e, get_stream_or_fallback) there
  ]

  listen-keeps :
      (p : ℕ) (r : StreamRegistry) (id other : ℕ)
      → Registered P r other
      → Registered P (listen hash p r id) other
  unfolding listen
  listen-keeps p r id other there = elim (Bool-cases (id == hash wildcard_stream)) [
    | inl all ↦ rw all there
    | inr one ↦ rw one (
        with_stream-keeps p id (get_stream_or_fallback hash r id).0 other
          (fallback-keeps r id other there))
  ]

  listen_all-keeps :
      (p : ℕ) (ids : List ℕ) (r : StreamRegistry) (other : ℕ)
      → Registered P r other
      → Registered P (listen_all hash p r ids) other
  unfolding listen_all
  listen_all-keeps p [] r other there = there
  listen_all-keeps p (id ∷ ids) r other there =
      listen_all-keeps p ids (listen hash p r id) other (listen-keeps p r id other there)

module _ (hash : Bytes → ℕ) where
  abbrev listener_keeps :
      (q p : ℕ) (s : StreamBase)
      → contains s.producers q ≡ true
      → contains (add_producer s (p ∷ [])).producers q ≡ true
  listener_keeps q p s h = add_producer-keeps p s q h

  listen-ListensTo :
      (p : ℕ) (r : StreamRegistry) (id : ℕ)
      → (id == hash wildcard_stream) ≡ false
      → ListensTo (listen hash p r id) p id
  unfolding listen
  listen-ListensTo p r id one =
      rw one (with_stream-at id p (get_stream_or_fallback hash r id).0 (fallback-there hash r id))

  listen_all-ListensTo :
      (p : ℕ) (ids : List ℕ) (r : StreamRegistry) (id : ℕ)
      → (id == hash wildcard_stream) ≡ false
      → contains ids id ≡ true
      → ListensTo (listen_all hash p r ids) p id
  unfolding listen_all contains
  listen_all-ListensTo p [] r id one h = cc
  listen_all-ListensTo p (i ∷ ids) r id one h = elim (Bool-cases (i == id)) [
    | inl same ↦
        let here : i ≡ id = (==_iff i id).0 same in
        listen_all-keeps hash (λ s. contains s.producers p ≡ true) (listener_keeps p) p ids
          (listen hash p r i) id
          (subst (λ (j : ℕ). ListensTo (listen hash p r j) p id) (sym here)
            (listen-ListensTo p r id one))
    | inr other ↦ listen_all-ListensTo p ids (listen hash p r i) id one (rw other at h)
  ]

  -- The wildcard stream itself is left alone by the loop over a producer's streams.
  fallback-apart :
      (r : StreamRegistry) (id other : ℕ)
      → (other == id) ≡ false
      → (get_stream_or_fallback hash r id).0.streams other ≡ r.streams other
  unfolding get_stream_or_fallback register get_stream_id
  fallback-apart r id other apart = elim (Option-cases (r.streams id)) [
    | inl e ↦ rw (e, get_stream_or_fallback) (if_false (other == id) _ (r.streams other) apart)
    | inr (s, e) ↦ rw (e, get_stream_or_fallback) refl
  ]

  listen-apart :
      (p : ℕ) (r : StreamRegistry) (id : ℕ)
      → (listen hash p r id).streams (hash wildcard_stream) ≡ r.streams (hash wildcard_stream)
  unfolding listen
  listen-apart p r id = elim (Bool-cases (id == hash wildcard_stream)) [
    | inl all ↦ rw all refl
    | inr one ↦
        let apart : (hash wildcard_stream == id) ≡ false = ground arith in
        rw one (
          if_false (hash wildcard_stream == id) _
            ((get_stream_or_fallback hash r id).0.streams (hash wildcard_stream)) apart
          ∙ fallback-apart r id (hash wildcard_stream) apart)
  ]

  listen_all-apart :
      (p : ℕ) (ids : List ℕ) (r : StreamRegistry)
      → (listen_all hash p r ids).streams (hash wildcard_stream) ≡ r.streams (hash wildcard_stream)
  unfolding listen_all
  listen_all-apart p [] r = refl
  listen_all-apart p (id ∷ ids) r =
      listen_all-apart p ids (listen hash p r id) ∙ listen-apart p r id

  -- The registry with the wildcard stream's new producer, or without.
  either_registry :
      (P : StreamBase → Type 0) (b : Bool) (r r' : StreamRegistry) (id : ℕ)
      → Registered P r id
      → (Registered P r id → Registered P r' id)
      → Registered P (if b then r' else r) id
  either_registry P true r r' id there more = more there
  either_registry P false r r' id there more = there

  -- A producer that has streams, when it is made where the wildcard stream is there already, is
  -- registered as the next one and is no error; it listens to each of its streams but the wildcard
  -- stream, and, if one of its streams is neither that of the log nor that of dropped messages, to the
  -- wildcard stream, which is as it was otherwise. The others listen to the streams that they listened to.
  pub add_new_producer-ListensTo :
      (plex : Multiplexer) (made : ProducerPlugin)
      → 0 < length made.streams
      → Registered (λ s. Unit) plex.registry (hash wildcard_stream)
      → let p = length plex.producers in
        let plex' = add_new_producer hash plex made in
        (plex'.producers ≡ plex.producers ++ (p, made.drop_stream_id) ∷ [])
        × (plex'.num_errors ≡ plex.num_errors)
        × ((id : ℕ)
            → (id == hash wildcard_stream) ≡ false
            → contains made.streams id ≡ true
            → ListensTo plex'.registry p id)
        × (has_public hash made.streams ≡ true → ListensTo plex'.registry p (hash wildcard_stream))
        × (has_public hash made.streams ≡ false
            → plex'.registry.streams (hash wildcard_stream)
              ≡ plex.registry.streams (hash wildcard_stream))
        × ((q id : ℕ) → ListensTo plex.registry q id → ListensTo plex'.registry q id)
  unfolding add_new_producer
  add_new_producer-ListensTo plex made some_streams there =
      let p = length plex.producers in
      let r = listen_all hash p plex.registry made.streams in
      let r' = with_stream (hash wildcard_stream) (λ s. add_producer s (p ∷ [])) r in
      let some_stream : (length made.streams == 0) ≡ false = ground arith in
      let kept = λ (q id : ℕ) (h : ListensTo r q id).
        either_registry (λ s. contains s.producers q ≡ true) (has_public hash made.streams) r r' id
          h
          (with_stream-keeps hash (λ s. contains s.producers q ≡ true) (listener_keeps q) p
            (hash wildcard_stream) r id) in
      rw some_stream (
        refl,
        refl,
        λ id one listed.
            kept p id (listen_all-ListensTo p made.streams plex.registry id one listed),
        λ public. rw public (
            with_stream-at (hash wildcard_stream) p r (
              listen_all-keeps hash (λ s. Unit) (λ p s h. tt) p made.streams plex.registry
                (hash wildcard_stream) there)),
        λ internal. rw internal (listen_all-apart p made.streams plex.registry),
        λ q id h. kept q id (
            listen_all-keeps hash (λ s. contains s.producers q ≡ true) (listener_keeps q) p
              made.streams plex.registry id h),
      )

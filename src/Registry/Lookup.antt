-- ===== src/Registry/Lookup.antt =====
-- Ids and streams that the registry gives out.
use x_pipeline.Prelude.{
  ℕ, false, none, some, Bytes, ◌==◌, ==_refl, if◌then◌else◌, ◌≡◌, ◌≢◌, refl, ◌∙◌, arith,
  Option-cases, inl, inr,
}
use x_pipeline.Streams.{StreamBase, add_wildcard_producers}
use x_pipeline.Registry.{
  StreamRegistry, get_stream_id, get_stream_name, get_stream, get_stream_or_fallback,
  dropped_stream, log_internal_stream, wildcard_stream, register, default_stream,
}

module _ (hash : Bytes → ℕ) (r : StreamRegistry) where
  -- The id of a name leads back to the name, if the name's hash differs from those of the three
  -- fixed names; and the name of an id with another hash is as it was.
  pub get_stream_id-name :
      (name : Bytes) (other : ℕ)
      → hash name ≢ hash dropped_stream
      → hash name ≢ hash log_internal_stream
      → hash name ≢ hash wildcard_stream
      → other ≢ hash name
      → (get_stream_name hash (get_stream_id hash r name).0 (get_stream_id hash r name).1 ≡ name)
        × (get_stream_name hash (get_stream_id hash r name).0 other ≡ get_stream_name hash r other)
  unfolding get_stream_id get_stream_name
  get_stream_id-name name other a b c ne =
      let a' : (hash name == hash dropped_stream) ≡ false = ground arith in
      let b' : (hash name == hash log_internal_stream) ≡ false = ground arith in
      let c' : (hash name == hash wildcard_stream) ≡ false = ground arith in
      let ne' : (other == hash name) ≡ false = ground arith in
      (rw (a', b', c', ==_refl (hash name)) refl, rw ne' refl)

  -- The stream that is made where there is none.
  fallback : ℕ → StreamBase
  fallback id =
      add_wildcard_producers (hash log_internal_stream) (hash dropped_stream) r.wildcard
        (default_stream hash (get_stream_name hash r id))

  with_fallback : ℕ → StreamRegistry
  unfolding fallback
  with_fallback id =
      register hash (get_stream_id hash r (get_stream_name hash r id)).0 (fallback id) id

  get_stream_or_fallback-absent :
      (id : ℕ)
      → r.streams id ≡ none
      → get_stream_or_fallback hash r id ≡ (with_fallback id, fallback id)
  unfolding get_stream_or_fallback with_fallback
  get_stream_or_fallback-absent id e = rw (e, get_stream_or_fallback)

  with_fallback-streams :
      (id i : ℕ)
      → (with_fallback id).streams i ≡ (if i == id then some (fallback id) else r.streams i)
  unfolding with_fallback register get_stream_id
  with_fallback-streams id i = refl

get_stream_or_fallback-present :
    (hash : Bytes → ℕ) (r : StreamRegistry) (id : ℕ) (s : StreamBase)
    → r.streams id ≡ some s
    → get_stream_or_fallback hash r id ≡ (r, s)
unfolding get_stream_or_fallback
get_stream_or_fallback-present hash r id s e = rw (e, get_stream_or_fallback)

module _ (hash : Bytes → ℕ) (r : StreamRegistry) where
  -- `GetStreamOrFallback` registers the stream that it returns: the id has this stream afterwards, a
  -- second call returns it and changes nothing, and the streams of other ids are as they were.
  pub get_stream_or_fallback-get_stream :
      (id other : ℕ)
      → other ≢ id
      → let (r', s) = get_stream_or_fallback hash r id in
        (get_stream hash r' id ≡ some s)
        × (get_stream_or_fallback hash r' id ≡ (r', s))
        × (get_stream hash r' other ≡ get_stream hash r other)
  unfolding get_stream
  get_stream_or_fallback-get_stream id other ne =
      let ne' : (other == id) ≡ false = ground arith in
      elim (Option-cases (r.streams id)) [
        | inr (s, e) ↦
            rw (get_stream_or_fallback-present hash r id s e)
              (e, get_stream_or_fallback-present hash r id s e, refl)
        | inl e ↦
            let made = with_fallback hash r id in
            let here : made.streams id ≡ some (fallback hash r id) =
              with_fallback-streams hash r id id ∙ rw (==_refl id) refl in
            let there : made.streams other ≡ r.streams other =
              with_fallback-streams hash r id other ∙ rw ne' refl in
            rw (get_stream_or_fallback-absent hash r id e)
              (here, get_stream_or_fallback-present hash made id (fallback hash r id) here, there)
      ]

-- ===== src/RouteStream/Served.antt =====
-- stream/route.go: the targets that a message is handed to.
use x_pipeline.Prelude.{
  ℕ, zero, suc, ◌≤◌, Bool, true, false, List, [], ◌∷◌, ◌++◌, Option, none, some, ◌>>=◌, Bytes,
  length, length-append, get_elem?, if◌then◌else◌, Bool-cases, inl, inr, ◌≡◌, refl, sym, ap, ◌∙◌,
  arith, append_assoc, append-nil,
}
use mathlib.Core.List.Perm
use mathlib.Core.List.{Perm}
use x_pipeline.Message.{Message}
use x_pipeline.Streams.{StreamBase, Delivery}
use x_pipeline.Registry.{StreamRegistry, get_stream, wildcard_producers_exist}
use x_pipeline.RouteStream.{
  StreamWithId, Progress, is_there, swap_remove, bind_target, serve, route_from, route_message,
}
use x_pipeline.RouteStream.Removal.{
  kept_by, kept_by-rotated, rotated, length-rotated, swap_remove-rotated,
}

module _ (hash : Bytes → ℕ) (pick : ℕ → ℕ) where
  -- The message is served at all targets, one after the other.
  unfoldable pub serve_all :
      Message → List StreamWithId → StreamBase → Option (StreamBase × List Delivery)
  unfolding serve
  serve_all msg [] s = some (s, [])
  serve_all msg (t ∷ ts) s = serve hash pick s msg t.id >>= λ o.
      serve_all msg ts o.0 >>= λ rest. some (rest.0, o.1 ++ rest.1)

  -- A target with a stream: from the start, or in the registry by now.
  abbrev pub has_stream : StreamRegistry → StreamWithId → Bool
  has_stream r t = if t.bound then true else is_there (get_stream hash r t.id)

  bind_target-found :
      (r : StreamRegistry) (t : StreamWithId)
      → wildcard_producers_exist hash r ≡ false
      → bind_target hash r t ≡ (r, has_stream r t)
  unfolding bind_target
  bind_target-found r t h = elim (Bool-cases t.bound) [ inl b ↦ rw b refl | inr u ↦ rw (u, h) refl ]

  get-front :
      {A : Type 0} (front : List A) (x : A) (xs : List A)
      → get_elem? (front ++ x ∷ xs) (length front) ≡ some x
  get-front [] x xs = refl
  get-front (a ∷ front) x xs = get-front front x xs

  get-end : {A : Type 0} (front : List A) → get_elem? (front ++ []) (length front) ≡ none
  get-end [] = refl
  get-end (a ∷ front) = get-end front

  -- The routes that are left, in the order in which they are served.
  abbrev order_kept : ℕ → (StreamWithId → Bool) → List StreamWithId → List StreamWithId
  order_kept zero f rest = []
  order_kept (suc turns) f [] = []
  order_kept (suc turns) f (t ∷ ts) =
      let later = order_kept turns f ts in
      let moved = order_kept turns f (rotated ts) in if f t then t ∷ later else moved

  either_perm :
      (b : Bool) (t : StreamWithId) (later moved kept : List StreamWithId)
      → Perm later kept
      → Perm moved kept
      → Perm (if b then t ∷ later else moved) (if b then t ∷ kept else kept)
  either_perm true t later moved kept h k = Perm.cons t h
  either_perm false t later moved kept h k = k

  order_kept-perm :
      (turns : ℕ) (f : StreamWithId → Bool) (rest : List StreamWithId)
      → length rest ≤ turns
      → Perm (order_kept turns f rest) (kept_by f rest)
  order_kept-perm zero f [] h = Perm.refl []
  order_kept-perm zero f (t ∷ ts) h = absurd (omega arith)
  order_kept-perm (suc turns) f [] h = Perm.refl []
  order_kept-perm (suc turns) f (t ∷ ts) h =
      either_perm (f t) t (order_kept turns f ts) (order_kept turns f (rotated ts)) (kept_by f ts)
        (order_kept-perm turns f ts (omega arith))
        (Perm.trans (order_kept-perm turns f (rotated ts) (omega (arith, length-rotated ts)))
          (kept_by-rotated f ts))

  abbrev pub progress : StreamRegistry → StreamBase → List StreamWithId → List Delivery → Progress
  progress r s routes ds = record { registry = r; stream = s; routes = routes; deliveries = ds }

  abbrev finished :
      StreamRegistry
      → List StreamWithId
      → List Delivery
      → StreamBase × List Delivery
      → Option Progress
  finished r routes ds o = some (progress r o.0 routes (ds ++ o.1))

  -- To serve one target and then the others is to serve them all.
  serve_first :
      (msg : Message) (t : StreamWithId) (ts : List StreamWithId) (r : StreamRegistry)
      → (s : StreamBase) (routes : List StreamWithId) (ds : List Delivery)
      → (o : Option (StreamBase × List Delivery))
      → (go : StreamBase × List Delivery → Option Progress)
      → ((p : StreamBase × List Delivery)
          → go p ≡ (serve_all msg ts p.0 >>= finished r routes (ds ++ p.1)))
      → (o >>= go) ≡ (
          (o >>= λ p. serve_all msg ts p.0 >>= λ rest. some (rest.0, p.1 ++ rest.1))
          >>= finished r routes ds)
  serve_first msg t ts r s routes ds none go h = refl
  serve_first msg t ts r s routes ds (some p) go h = h p ∙ by_rest (serve_all msg ts p.0)
    where
      by_rest :
          (q : Option (StreamBase × List Delivery))
          → (q >>= finished r routes (ds ++ p.1))
            ≡ ((q >>= λ rest. some (rest.0, p.1 ++ rest.1)) >>= finished r routes ds)
      by_rest none = refl
      by_rest (some rest) =
          ap (λ (xs : List Delivery). some (progress r rest.0 routes xs))
            (append_assoc ds p.1 rest.1)

  one_turn :
      (msg : Message) (t : StreamWithId) (r : StreamRegistry) (s : StreamBase) (ds : List Delivery)
      → (front : List StreamWithId) (b : Bool) (later moved : List StreamWithId)
      → (served removed : Option Progress)
      → served ≡ (serve_all msg (t ∷ later) s >>= finished r (front ++ t ∷ later) ds)
      → removed ≡ (serve_all msg moved s >>= finished r (front ++ moved) ds)
      → (if b then served else removed) ≡ (
          serve_all msg (if b then t ∷ later else moved) s
          >>= finished r (front ++ (if b then t ∷ later else moved)) ds)
  one_turn msg t r s ds front true later moved served removed h k = h
  one_turn msg t r s ds front false later moved served removed h k = k

  route_from-served :
      (turns i : ℕ) (front rest : List StreamWithId) (msg : Message) (r : StreamRegistry)
      → (s : StreamBase) (ds : List Delivery) → wildcard_producers_exist hash r ≡ false
      → length rest ≤ turns
      → i ≡ length front
      → let kept = order_kept turns (has_stream r) rest in
        route_from hash pick turns i msg (progress r s (front ++ rest) ds)
        ≡ (serve_all msg kept s >>= finished r (front ++ kept) ds)
  unfolding route_from serve_all
  route_from-served zero i front [] msg r s ds quiet h at =
      ap (λ (xs : List Delivery). some (progress r s (front ++ []) xs)) (sym (append-nil ds))
  route_from-served zero i front (t ∷ ts) msg r s ds quiet h at = absurd (omega arith)
  route_from-served (suc turns) i front [] msg r s ds quiet h at =
      rw (at, get-end front, route_from)
        (ap (λ (xs : List Delivery). some (progress r s (front ++ []) xs)) (sym (append-nil ds)))
  route_from-served (suc turns) i front (t ∷ ts) msg r s ds quiet h at =
      rw (at, get-front front t ts, route_from, bind_target-found r t quiet)
        (one_turn msg t r s ds front (has_stream r t) (order_kept turns (has_stream r) ts)
          (order_kept turns (has_stream r) (rotated ts))
          (serve hash pick s msg t.id >>= λ o.
            route_from hash pick turns (suc i) msg (progress r o.0 (front ++ t ∷ ts) (ds ++ o.1)))
          (route_from hash pick turns i msg (progress r s (swap_remove (front ++ t ∷ ts) i) ds))
          (serve_first msg t (order_kept turns (has_stream r) ts) r s
            (front ++ t ∷ order_kept turns (has_stream r) ts) ds (serve hash pick s msg t.id)
            (λ o.
              route_from hash pick turns (suc i) msg (progress r o.0 (front ++ t ∷ ts) (ds ++ o.1)))
            (λ p.
              let kept = order_kept turns (has_stream r) ts in
              ap
                (λ (xs : List StreamWithId).
                  route_from hash pick turns (suc i) msg (progress r p.0 xs (ds ++ p.1)))
                (sym (append_assoc front (t ∷ []) ts))
              ∙ route_from-served turns (suc i) (front ++ t ∷ []) ts msg r p.0 (ds ++ p.1) quiet
                  (omega arith) (omega (arith, at, length-append front (t ∷ [])))
              ∙ ap
                  (λ (xs : List StreamWithId). serve_all msg kept p.0 >>= finished r xs (ds ++ p.1))
                  (append_assoc front (t ∷ []) kept)))
          (ap
              (λ (k : ℕ).
                route_from hash pick turns i msg
                  (progress r s (swap_remove (front ++ t ∷ ts) k) ds))
              at
            ∙ ap (λ (xs : List StreamWithId). route_from hash pick turns i msg (progress r s xs ds))
                (swap_remove-rotated front t ts)
            ∙ route_from-served turns i front (rotated ts) msg r s ds quiet
                (omega (arith, length-rotated ts)) at))

  -- Where no producer listens to all streams, `routeMessage` serves the message, once each, at targets
  -- that have a stream, from the start or by now, and takes these in that order for its routes: they are
  -- all the routes with a stream, perhaps in another order, and the others are gone.
  pub route_message-served :
      (msg : Message) (r : StreamRegistry) (s : StreamBase) (routes : List StreamWithId)
      → wildcard_producers_exist hash r ≡ false
      → (kept : List StreamWithId) × Perm kept (kept_by (has_stream r) routes)
        × (route_message hash pick msg (progress r s routes [])
            ≡ (serve_all msg kept s >>= λ o. some (progress r o.0 kept o.1)))
  unfolding route_message
  route_message-served msg r s routes quiet =
      let kept = order_kept (length routes) (has_stream r) routes in
      (
        kept,
        order_kept-perm (length routes) (has_stream r) routes (omega arith),
        route_from-served (length routes) 0 [] routes msg r s [] quiet (omega arith) refl,
      )

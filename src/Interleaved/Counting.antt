-- ===== src/Interleaved/Counting.antt =====
-- core/messagebatch.go: counting and finding the calls of Append that are in flight.
use x_pipeline.Prelude.{
  if_true, if_false, and_both, Bool-cases, ==_refl, ℕ, ◌+◌, Bool, true, false, not, ◌&&◌, List, [],
  ◌∷◌, ◌==◌, if◌then◌else◌, ◌≡◌, refl, sym, ◌⊎◌, inl, inr, arith, ==_iff,
}
use x_pipeline.Interleaved.{InFlight, same_queue, put, Picks}

abbrev pub one : Bool → Bool → ℕ
one q q' = if same_queue q q' then 1 else 0

pub same_queue_self : (q : Bool) → same_queue q q ≡ true
same_queue_self true = refl
same_queue_self false = refl

pub same_queue-not : (q : Bool) → same_queue q (not q) ≡ false
same_queue-not true = refl
same_queue-not false = refl

pub same_queue-eq : (q q' : Bool) → same_queue q q' ≡ true → q ≡ q'
same_queue-eq true true e = refl
same_queue-eq true false e = cc
same_queue-eq false true e = cc
same_queue-eq false false e = refl

module _ {M : Type 0} where
  -- How many calls are in flight for a queue.
  abbrev pub flights : Bool → List (InFlight M) → ℕ
  flights q [] = 0
  flights q (p ∷ ps) = one q p.queue + flights q ps

  abbrev pub All : (InFlight M → Type 0) → List (InFlight M) → Type 0
  All P [] = Unit
  All P (p ∷ ps) = P p × All P ps

  -- One that has this ticket, and has not written yet.
  abbrev pub IsWriter : Bool → ℕ → InFlight M → Type 0
  IsWriter q t p = (p.queue ≡ q) × (p.ticket ≡ t) × (p.written ≡ false)

  abbrev pub HasWriter : Bool → ℕ → List (InFlight M) → Type 0
  HasWriter q t [] = ⊥
  HasWriter q t (p ∷ ps) = IsWriter q t p ⊎ HasWriter q t ps

  pub Picks-flights :
      {p : InFlight M} {ps rest : List (InFlight M)}
      → Picks p ps rest
      → (q : Bool) → flights q ps ≡ one q p.queue + flights q rest
  Picks-flights Picks.here q = refl
  Picks-flights (Picks.there pick) q = omega (arith, Picks-flights pick q)

  pub Picks-All :
      {p : InFlight M} {ps rest : List (InFlight M)}
      → Picks p ps rest
      → (P : InFlight M → Type 0) → All P ps
      → P p × All P rest
  Picks-All Picks.here P (h, hs) = (h, hs)
  Picks-All (Picks.there pick) P (h, hs) = let (k, ks) = Picks-All pick P hs in (k, (h, ks))

  pub Picks-HasWriter :
      {p : InFlight M} {ps rest : List (InFlight M)}
      → Picks p ps rest
      → (q : Bool) (t : ℕ) → HasWriter q t ps
      → IsWriter q t p ⊎ HasWriter q t rest
  Picks-HasWriter Picks.here q t h = h
  Picks-HasWriter (Picks.there pick) q t (inl h) = inr (inl h)
  Picks-HasWriter (Picks.there pick) q t (inr h) = elim (Picks-HasWriter pick q t h) [
    | inl a ↦ inl a
    | inr b ↦ inr (inr b)
  ]

  pub All-map :
      {P Q : InFlight M → Type 0}
      → ((p : InFlight M) → P p → Q p)
      → (ps : List (InFlight M)) → All P ps
      → All Q ps
  All-map f [] h = tt
  All-map f (p ∷ ps) (h, hs) = (f p h, All-map f ps hs)

  pub All-zip :
      {P Q R : InFlight M → Type 0}
      → ((p : InFlight M) → P p → Q p → R p)
      → (ps : List (InFlight M)) → All P ps
      → All Q ps
      → All R ps
  All-zip f [] h k = tt
  All-zip f (p ∷ ps) (h, hs) (k, ks) = (f p h k, All-zip f ps hs ks)

  pub flights-none :
      (q : Bool) (ps : List (InFlight M))
      → flights q ps ≡ 0
      → All (λ p. same_queue q p.queue ≡ false) ps
  flights-none q [] e = tt
  flights-none q (p ∷ ps) e = elim (Bool-cases (same_queue q p.queue)) [
    | inl on ↦ absurd (omega (arith, if_true {A = ℕ} (same_queue q p.queue) 1 0 on, e))
    | inr off ↦
        (off, flights-none q ps (omega (arith, if_false {A = ℕ} (same_queue q p.queue) 1 0 off, e)))
  ]

  -- A call in flight, if there is any.
  pub flights-some :
      (q : Bool) (ps : List (InFlight M))
      → (flights q ps ≡ 0)
        ⊎ ((p : InFlight M) × (rest : List (InFlight M)) × Picks p ps rest × (p.queue ≡ q))
  flights-some q [] = inl refl
  flights-some q (p ∷ ps) = elim (Bool-cases (same_queue q p.queue)) [
    | inl e ↦ inr (p, ps, Picks.here, sym (same_queue-eq q p.queue e))
    | inr e ↦ elim (flights-some q ps) [
      | inl none ↦ inl (omega (arith, if_false {A = ℕ} (same_queue q p.queue) 1 0 e, none))
      | inr (p', rest, pick, at) ↦ inr (p', p ∷ rest, Picks.there pick, at)
    ]
  ]

  pub put_same : (f : Bool → ℕ → M) (q : Bool) (t : ℕ) (m : M) → put f q t m q t ≡ m
  put_same f q t m = rw (same_queue_self q, ==_refl t)

  pub put_other :
      (f : Bool → ℕ → M) (q : Bool) (t : ℕ) (m : M) (q' : Bool) (t' : ℕ)
      → ((q' ≡ q) → (t' ≡ t) → ⊥)
      → put f q t m q' t' ≡ f q' t'
  put_other f q t m q' t' h =
      if_false (same_queue q q' && (t' == t)) m (f q' t')
        (elim (Bool-cases (same_queue q q' && (t' == t))) [
          | inr off ↦ off
          | inl on ↦
              let (same, equal) = and_both (same_queue q q') (t' == t) on in
              absurd (h (sym (same_queue-eq q q' same)) ((==_iff t' t).0 equal))
        ])

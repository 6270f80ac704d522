-- ===== src/Registry/Dependencies.antt =====
-- core/streamregistry.go and core/producer.go: circles of dependencies and `LinkDependencies`.
use x_pipeline.Prelude.{
  ℕ, zero, suc, ◌+◌, ◌≤◌, ◌<◌, Bool, true, false, ◌||◌, List, [], ◌∷◌, ◌++◌, ◌==◌, ==_iff, ==_refl,
  sym, ◌∙◌, if◌then◌else◌, ◌≡◌, refl, ap, arith, Bool-cases, inl, inr, ◌⊎◌,
}
use x_pipeline.Streams.{contains}
use x_pipeline.Streams.Producers.{contains-append}
use x_pipeline.Registry.{add_dependency, depends_on, any_depends, link_child}

-- There is no circle: every dependency has a smaller rank.
abbrev pub IsRanked : (ℕ → List ℕ) → (ℕ → ℕ) → Type 0
IsRanked deps rank = (p q : ℕ) → contains (deps p) q ≡ true → rank q < rank p

any_depends-found :
    (deeper : ℕ → Bool) (ds : List ℕ) (d q : ℕ)
    → contains ds d ≡ true
    → (d == q) || deeper d ≡ true
    → any_depends deeper ds q ≡ true
unfolding any_depends contains
any_depends-found deeper [] d q h e = cc
any_depends-found deeper (x ∷ ds) d q h e = elim (Bool-cases (x == d)) [
  | inl same ↦ let at : x ≡ d = (==_iff x d).0 same in rw at (ground (arith, e))
  | inr other ↦
      let later = any_depends-found deeper ds d q (rw other at h) e in ground (arith, later)
]

known_later : (x : ℕ) (ds : List ℕ) (d : ℕ) → contains ds d ≡ true → contains (x ∷ ds) d ≡ true
unfolding contains
known_later x ds d e = ground (arith, e)

any_depends-ext :
    (f g : ℕ → Bool) (ds : List ℕ) (q : ℕ)
    → ((d : ℕ) → contains ds d ≡ true → f d ≡ g d)
    → any_depends f ds q ≡ any_depends g ds q
unfolding any_depends contains
any_depends-ext f g [] q h = refl
any_depends-ext f g (x ∷ ds) q h =
    let here : f x ≡ g x = h x (rw (==_refl x) refl) in
    let later = any_depends-ext f g ds q (λ d e. h d (known_later x ds d e)) in
    rw (here, later) refl

no_dependency :
    (ds : List ℕ) (q : ℕ) (deeper : ℕ → Bool) {n : ℕ}
    → ((d : ℕ) → contains ds d ≡ true → n ≤ zero → ⊥)
    → n ≤ zero
    → any_depends deeper ds q ≡ false
unfolding any_depends contains
no_dependency [] q deeper h k = refl
no_dependency (x ∷ ds) q deeper h k = absurd (h x (rw (==_refl x) refl) k)

module _ (deps : ℕ → List ℕ) (rank : ℕ → ℕ) (ranked : IsRanked deps rank) where
  -- More fuel than the rank changes nothing.
  depends_on_fuel :
      (n m p q : ℕ) → rank p ≤ n → rank p ≤ m → depends_on n deps p q ≡ depends_on m deps p q
  unfolding depends_on
  depends_on_fuel zero zero p q h k = refl
  depends_on_fuel zero (suc m) p q h k = sym (
      no_dependency (deps p) q (λ d. depends_on m deps d q) {n = rank p}
        (λ d e z. let below = ranked p d e in omega arith) (omega arith))
  depends_on_fuel (suc n) zero p q h k =
      no_dependency (deps p) q (λ d. depends_on n deps d q) {n = rank p}
        (λ d e z. let below = ranked p d e in omega arith) (omega arith)
  depends_on_fuel (suc n) (suc m) p q h k =
      any_depends-ext (λ d. depends_on n deps d q) (λ d. depends_on m deps d q) (deps p) q
        (λ d e. let below = ranked p d e in depends_on_fuel n m d q (omega arith) (omega arith))

  -- A dependency of a producer that leads to `q` shows that the producer depends on `q`.
  depends_on_step :
      (n p d q : ℕ)
      → rank p ≤ n
      → contains (deps p) d ≡ true
      → (d == q) || depends_on n deps d q ≡ true
      → depends_on n deps p q ≡ true
  unfolding depends_on
  depends_on_step zero p d q h e f = absurd (let below = ranked p d e in omega arith)
  depends_on_step (suc n) p d q h e f =
      let below = ranked p d e in
      let same : depends_on (suc n) deps d q ≡ depends_on n deps d q =
        depends_on_fuel (suc n) n d q (omega arith) (omega arith) in
      any_depends-found (λ d. depends_on n deps d q) (deps p) d q e
        (ap (λ (b : Bool). (d == q) || b) (sym same) ∙ f)

single : (parent q : ℕ) → contains (parent ∷ []) q ≡ true → q ≡ parent
unfolding contains
single parent q e = elim (Bool-cases (parent == q)) [
  | inl same ↦ sym ((==_iff parent q).0 same)
  | inr other ↦ absurd (ground (arith, rw other at e))
]

edge_cases :
    (deps : ℕ → List ℕ) (child parent p q : ℕ)
    → contains (add_dependency deps child parent p) q ≡ true
    → (contains (deps p) q ≡ true) ⊎ ((p ≡ child) × (q ≡ parent))
unfolding add_dependency
edge_cases deps child parent p q h = elim (Bool-cases (p == child)) [
  | inr other ↦ inl (rw other at h)
  | inl at ↦ elim (Bool-cases (contains (deps p) parent)) [
    | inl known ↦ inl (rw (at, known) at h)
    | inr new ↦ elim (Bool-cases (contains (deps p) q)) [
      | inl old ↦ inl old
      | inr added ↦
          let e : contains (deps p ++ parent ∷ []) q ≡ true = rw (at, new) at h in
          inr (
            (==_iff p child).0 at,
            single parent q (rw (contains-append (deps p) (parent ∷ []) q, added) at e),
          )
    ]
  ]
]

module _ (fuel : ℕ) (deps : ℕ → List ℕ) (rank : ℕ → ℕ) where
  -- The producers from which a new edge of `child` can be reached get a higher rank.
  unfoldable pub leads : ℕ → ℕ → Bool
  leads child x = if x == child then true else depends_on fuel deps x child

  unfoldable pub raised : ℕ → ℕ → ℕ → ℕ
  unfolding leads
  raised parent child x = if leads child x then rank x + (rank parent + 1) else rank x

  leads-step :
      (child p q : ℕ)
      → IsRanked deps rank
      → ((x : ℕ) → rank x ≤ fuel)
      → contains (deps p) q ≡ true
      → leads child q ≡ true
      → leads child p ≡ true
  unfolding leads
  leads-step child p q ranked enough e h =
      let steps : (q == child) || depends_on fuel deps q child ≡ true = ground (arith, h) in
      let far : depends_on fuel deps p child ≡ true =
        depends_on_step deps rank ranked fuel p q child (enough p) e steps in
      ground (arith, far)

  pub raised-IsRanked :
      (parent child : ℕ)
      → IsRanked deps rank
      → ((x : ℕ) → rank x ≤ fuel)
      → leads child parent ≡ false
      → IsRanked (add_dependency deps child parent) (raised parent child)
  unfolding raised
  raised-IsRanked parent child ranked enough free p q h =
      elim (edge_cases deps child parent p q h) [
        | inl e ↦
            let below = ranked p q e in
            elim (Bool-cases (leads child q)) [
              | inl up ↦
                  let up' = leads-step child p q ranked enough e up in rw (up, up') (omega arith)
              | inr flat ↦ rw flat (ground arith)
            ]
        | inr (at, to) ↦
            let top : leads child child ≡ true = unfold leads in rw (==_refl child) refl in
            rw (at, to, free, top) (omega arith)
      ]

  -- Where the dependencies between the producers have no circle, they have none after a turn of the
  -- loop of `LinkDependencies`. (No circle: each producer has a number, above those of the producers
  -- it depends on; the search of `DependsOn` may go as deep as the highest number.)
  pub link_child-IsRanked :
      (parent child : ℕ)
      → IsRanked deps rank
      → ((x : ℕ) → rank x ≤ fuel)
      → (rank' : ℕ → ℕ) × IsRanked (link_child fuel deps parent child) rank'
  unfolding link_child
  link_child-IsRanked parent child ranked enough = elim (Bool-cases (parent == child)) [
    | inl same ↦ rw same (rank, ranked)
    | inr other ↦ elim (Bool-cases (depends_on fuel deps parent child)) [
      | inl circle ↦ rw (other, circle) (rank, ranked)
      | inr free ↦ elim (Bool-cases (depends_on fuel deps child parent)) [
        | inl back ↦ rw (other, free, back) (rank, ranked)
        | inr fresh ↦
            rw (other, free, fresh)
              (
                raised parent child,
                raised-IsRanked parent child ranked enough (unfold leads in rw (other, free) refl),
              )
      ]
    ]
  ]

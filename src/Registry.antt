-- ===== src/Registry.antt =====
-- core/streamregistry.go: the names and streams by id, and the dependencies between producers.
-- `hash` is `fnv.New64a`. A stream of the registry is a StreamBase; producers are numbers, and the
-- dependencies of core/producer.go a function of them.
pub mod Lookup
pub mod Dependencies
pub mod Linking
mod Tests
use x_pipeline.Prelude.{
  ℕ, zero, suc, ◌+◌, Bool, true, false, List, [], ◌∷◌, ◌++◌, Option, none, some, Bytes, codes,
  length, ltb, ◌==◌, if◌then◌else◌,
}
use x_pipeline.Streams.{StreamBase, broadcast, contains, add_wildcard_producers}

pub record StreamRegistry : Type 0 where
  pub streams : ℕ → Option StreamBase
  pub name : ℕ → Option Bytes
  pub wildcard : List ℕ

-- The fixed names: `_DROPPED_`, `_GOLLUM_` and `*`.
abbrev pub dropped_stream : Bytes
dropped_stream = codes "_DROPPED_"

abbrev pub log_internal_stream : Bytes
log_internal_stream = codes "_GOLLUM_"

abbrev pub wildcard_stream : Bytes
wildcard_stream = codes "*"

module _ (hash : Bytes → ℕ) where
  unfoldable pub get_stream_id : StreamRegistry → Bytes → StreamRegistry × ℕ
  get_stream_id r name =
      (record r { name = λ id. if id == hash name then some name else r.name id }, hash name)

  unfoldable pub get_stream_name : StreamRegistry → ℕ → Bytes
  get_stream_name r id =
      if id == hash dropped_stream
      then dropped_stream
      else if id == hash log_internal_stream
      then log_internal_stream
      else if id == hash wildcard_stream
      then wildcard_stream
      else elim (r.name id) [ none ↦ [] | some name ↦ name ]

  unfoldable pub get_stream : StreamRegistry → ℕ → Option StreamBase
  get_stream r id = r.streams id

  unfoldable pub get_stream_by_name : StreamRegistry → Bytes → StreamRegistry × Option StreamBase
  unfolding get_stream_id get_stream
  get_stream_by_name r name = let (r', id) = get_stream_id r name in (r', get_stream r' id)

  unfoldable pub is_stream_registered : StreamRegistry → ℕ → Bool
  is_stream_registered r id = elim (r.streams id) [ none ↦ false | some s ↦ true ]

  unfoldable pub wildcard_producers_exist : StreamRegistry → Bool
  wildcard_producers_exist r = ltb 0 (length r.wildcard)

  unfoldable pub register : StreamRegistry → StreamBase → ℕ → StreamRegistry
  register r s id = record r { streams = λ i. if i == id then some s else r.streams i }

  -- The stream of `StreamBase.ConfigureStream` with the defaults filter.All and format.Forward. It is
  -- bound to the id of the stream's name, which `GetStreamID` registers again.
  unfoldable pub default_stream : Bytes → StreamBase
  default_stream name = record {
    accepts = λ msg. true;
    format = λ msg. (msg.payload, msg.stream_id);
    producers = [];
    bound_stream_id = hash name;
    distribute = broadcast;
    prev_distribute = broadcast;
    paused = none;
    index = 0;
  }

  unfoldable pub get_stream_or_fallback : StreamRegistry → ℕ → StreamRegistry × StreamBase
  unfolding get_stream_name get_stream_id register default_stream add_wildcard_producers
  get_stream_or_fallback r id =
      let name = get_stream_name r id in
      let fallback =
        add_wildcard_producers (hash log_internal_stream) (hash dropped_stream) r.wildcard
          (default_stream name) in
      elim (r.streams id) [
        | none ↦ (register (get_stream_id r name).0 fallback id, fallback)
        | some s ↦ (r, s)
      ]

-- `AddDependency` of a producer, and `DependsOn`, whose recursion takes fuel.
unfoldable pub add_dependency : (ℕ → List ℕ) → ℕ → ℕ → ℕ → List ℕ
unfolding contains
add_dependency deps child parent p =
    if p == child
    then if contains (deps p) parent then deps p else deps p ++ parent ∷ []
    else deps p

-- The loop of `DependsOn`: is the producer in the list, or does one of the list depend on it?
unfoldable pub any_depends : (ℕ → Bool) → List ℕ → ℕ → Bool
any_depends deeper [] q = false
any_depends deeper (d ∷ ds) q =
    let later = any_depends deeper ds q in if d == q then true else if deeper d then true else later

unfoldable pub depends_on : ℕ → (ℕ → List ℕ) → ℕ → ℕ → Bool
unfolding any_depends
depends_on zero deps p q = false
depends_on (suc fuel) deps p q = any_depends (λ d. depends_on fuel deps d q) (deps p) q

-- One turn of the loop of `LinkDependencies`.
unfoldable pub link_child : ℕ → (ℕ → List ℕ) → ℕ → ℕ → ℕ → List ℕ
unfolding depends_on add_dependency
link_child fuel deps parent child =
    if parent == child
    then deps
    else if depends_on fuel deps parent child
    then deps
    else if depends_on fuel deps child parent
    then deps
    else add_dependency deps child parent

unfoldable pub link_dependencies : ℕ → (ℕ → List ℕ) → ℕ → List ℕ → ℕ → List ℕ
unfolding link_child
link_dependencies fuel deps parent [] = deps
link_dependencies fuel deps parent (c ∷ cs) =
    link_dependencies fuel (link_child fuel deps parent c) parent cs

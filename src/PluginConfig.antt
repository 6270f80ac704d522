-- ===== src/PluginConfig.antt =====
-- core/pluginconfig.go: the configuration of a plugin. A map from keys to true is the list of its keys. An error that
-- Log.Error.Fatalf ends the program with is `none`. The ids of stream names are a parameter: what
-- GetStreamID keeps of a name is in Registry.
pub mod Requests
pub mod Validation
pub mod Reading
mod Tests
use x_pipeline.Prelude.{
  ℕ, zero, Bool, true, false, List, [], ◌∷◌, Option, none, some, ◌>>=◌, Bytes, codes, equal, length,
  ◌==◌, if◌then◌else◌, map,
}
use x_pipeline.MarshalMap.{Number, at, below_zero}
use x_pipeline.Settings.{
  Setting, Settings, no_settings, setting, find, put, to_bool, to_int, to_text, to_strings,
  to_text_map, to_strings_map, get,
}

pub record PluginConfig : Type 0 where
  pub id : Bytes
  pub typename : Bytes
  pub enable : Bool
  pub instances : Number
  pub stream : List Bytes
  pub settings : Settings
  pub valid_keys : List Bytes

unfoldable pub new_plugin_config : Bytes → PluginConfig
new_plugin_config typename = record {
  id = [];
  typename = typename;
  enable = true;
  instances = at 1;
  stream = [];
  settings = no_settings;
  valid_keys = [];
}

unfoldable pub register_key : PluginConfig → Bytes → PluginConfig
register_key conf key = record conf { valid_keys = key ∷ conf.valid_keys }

unfoldable pub is_valid_key : List Bytes → Bytes → Bool
is_valid_key [] key = false
is_valid_key (k ∷ ks) key = let later = is_valid_key ks key in if equal k key then true else later

-- The loop of `Validate`.
unfoldable pub all_valid : List Bytes → Settings → Bool
unfolding is_valid_key
all_valid keys no_settings = true
all_valid keys (setting name v rest) =
    let later = all_valid keys rest in if is_valid_key keys name then later else false

unfoldable pub validate : PluginConfig → Bool
unfolding all_valid
validate conf = all_valid conf.valid_keys conf.settings

-- The keys that are no settings.
pub data Reserved : Type 0 where
  id_key enable_key instances_key stream_key no_reserved : Reserved

unfoldable pub reserved_of : Bytes → Reserved
reserved_of key =
    if equal key (codes "ID")
    then id_key
    else if equal key (codes "Enable")
    then enable_key
    else if equal key (codes "Instances")
    then instances_key
    else if equal key (codes "Stream")
    then stream_key
    else no_reserved

-- One turn of the loop of `Read`.
abbrev pub read_as : Reserved → Bytes → Setting → PluginConfig → Option PluginConfig
read_as id_key key v conf = to_text v >>= λ s. some (record conf { id = s })
read_as enable_key key v conf = to_bool v >>= λ b. some (record conf { enable = b })
read_as instances_key key v conf = to_int v >>= λ n. some (record conf { instances = n })
read_as stream_key key v conf = to_strings v >>= λ ss. some (record conf { stream = ss })
read_as no_reserved key v conf = some (record conf { settings = put conf.settings key v })

unfoldable pub read_values : Settings → PluginConfig → Option PluginConfig
unfolding reserved_of to_text to_bool to_int to_strings put
read_values no_settings conf = some conf
read_values (setting key v rest) conf =
    read_as (reserved_of key) key v conf >>= λ conf'. read_values rest conf'

abbrev pub is_zero : Number → Bool
is_zero (at n) = n == 0
is_zero (below_zero n) = false

abbrev pub or_wildcard : List Bytes → List Bytes
or_wildcard [] = codes "*" ∷ []
or_wildcard (s ∷ ss) = s ∷ ss

unfoldable pub sane : PluginConfig → PluginConfig
sane conf = record conf {
  enable = if is_zero conf.instances then false else conf.enable;
  stream = or_wildcard conf.stream;
}

unfoldable pub read : PluginConfig → Settings → Option PluginConfig
unfolding read_values sane
read conf values = read_values values conf >>= λ conf'. some (sane conf')

unfoldable pub has_value : PluginConfig → Bytes → PluginConfig × Bool
unfolding register_key find
has_value conf key =
    (register_key conf key, elim (find conf.settings key) [ none ↦ false | some v ↦ true ])

unfoldable pub override : PluginConfig → Bytes → Setting → PluginConfig
unfolding register_key put
override conf key v = record (register_key conf key) { settings = put conf.settings key v }

-- What the getters share: the default, if the key is not set.
unfoldable pub get_or {ℓ} :
    {A : Type ℓ} → (Setting → Option A) → PluginConfig → Bytes → A → Option (PluginConfig × A)
unfolding register_key has_value get
get_or as_type conf key fallback =
    let (conf', exists) = has_value (register_key conf key) key in
    if exists
    then (get as_type conf'.settings key >>= λ a. some (conf', a))
    else some (conf', fallback)

unfoldable pub get_string : PluginConfig → Bytes → Bytes → Option (PluginConfig × Bytes)
unfolding get_or to_text
get_string = get_or to_text

unfoldable pub get_string_array :
    PluginConfig → Bytes → List Bytes → Option (PluginConfig × List Bytes)
unfolding get_or to_strings
get_string_array = get_or to_strings

unfoldable pub get_string_map :
    PluginConfig → Bytes → List (Bytes × Bytes) → Option (PluginConfig × List (Bytes × Bytes))
unfolding get_or to_text_map
get_string_map = get_or to_text_map

unfoldable pub get_int : PluginConfig → Bytes → Number → Option (PluginConfig × Number)
unfolding get_or to_int
get_int = get_or to_int

unfoldable pub get_bool : PluginConfig → Bytes → Bool → Option (PluginConfig × Bool)
unfolding get_or to_bool
get_bool = get_or to_bool

unfoldable pub get_value : PluginConfig → Bytes → Setting → PluginConfig × Setting
unfolding register_key find
get_value conf key fallback =
    (register_key conf key, elim (find conf.settings key) [ none ↦ fallback | some v ↦ v ])

module _ (get_stream_id : Bytes → ℕ) where
  unfoldable pub get_stream_array : PluginConfig → Bytes → List ℕ → Option (PluginConfig × List ℕ)
  unfolding register_key has_value get_string_array
  get_stream_array conf key fallback =
      let (conf', exists) = has_value (register_key conf key) key in
      if exists
      then (get_string_array conf' key [] >>= λ r. some (r.0, map get_stream_id r.1))
      else some (conf', fallback)

  -- An assignment to a key of a map of ids.
  unfoldable pub set_id {ℓ} : {A : Type ℓ} → List (ℕ × A) → ℕ → A → List (ℕ × A)
  set_id [] id a = (id, a) ∷ []
  set_id ((i, b) ∷ rest) id a =
      let later = set_id rest id a in if i == id then (id, a) ∷ rest else (i, b) ∷ later

  unfoldable pub map_streams : List (Bytes × Bytes) → List (ℕ × Bytes) → List (ℕ × Bytes)
  unfolding set_id
  map_streams [] streams = streams
  map_streams ((name, target) ∷ rest) streams =
      map_streams rest (set_id streams (get_stream_id name) target)

  unfoldable pub get_stream_map :
      PluginConfig → Bytes → Bytes → Option (PluginConfig × List (ℕ × Bytes))
  unfolding register_key has_value get to_text_map map_streams
  get_stream_map conf key fallback =
      let streams =
        if length fallback == 0 then [] else (get_stream_id (codes "*"), fallback) ∷ [] in
      let (conf', exists) = has_value (register_key conf key) key in
      if exists
      then (get to_text_map conf'.settings key >>= λ value. some (conf', map_streams value streams))
      else some (conf', streams)

  unfoldable pub map_routes : List (Bytes × List Bytes) → List (ℕ × List ℕ) → List (ℕ × List ℕ)
  unfolding set_id
  map_routes [] routes = routes
  map_routes ((name, targets) ∷ rest) routes =
      map_routes rest (set_id routes (get_stream_id name) (map get_stream_id targets))

  unfoldable pub get_stream_routes :
      PluginConfig → Bytes → Option (PluginConfig × List (ℕ × List ℕ))
  unfolding register_key has_value get to_strings_map map_routes
  get_stream_routes conf key =
      let (conf', exists) = has_value (register_key conf key) key in
      if exists
      then (get to_strings_map conf'.settings key >>= λ value. some (conf', map_routes value []))
      else some (conf', [])

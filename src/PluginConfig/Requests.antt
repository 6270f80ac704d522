-- ===== src/PluginConfig/Requests.antt =====
-- core/pluginconfig.go: a configuration that is asked for keys, and Validate afterwards.
use x_pipeline.Prelude.{
  ℕ, Bool, true, false, List, [], ◌∷◌, Option, none, some, ◌>>=◌, >>=-eq-some, Bytes, equal, length,
  codes, ◌==◌, if◌then◌else◌, ◌≡◌, refl, sym, ap, ◌∙◌, map,
}
use std.Path.{subst}
use x_pipeline.MarshalMap.{Number}
use x_pipeline.Settings.{
  Setting, find, to_bool, to_int, to_text, to_strings, to_text_map, to_strings_map, get,
}
use x_pipeline.PluginConfig.{
  PluginConfig, register_key, has_value, get_or, get_string, get_string_array, get_string_map,
  get_int, get_bool, get_value, get_stream_array, get_stream_map, get_stream_routes, is_valid_key,
  map_streams, map_routes,
}

-- The calls that ask for a key.
pub data Request : Type 0 where
  ask_exists : Bytes → Request
  ask_string : Bytes → Bytes → Request
  ask_strings : Bytes → List Bytes → Request
  ask_string_map : Bytes → List (Bytes × Bytes) → Request
  ask_int : Bytes → Number → Request
  ask_bool : Bytes → Bool → Request
  ask_value : Bytes → Setting → Request
  ask_streams : Bytes → List ℕ → Request
  ask_stream_map : Bytes → Bytes → Request
  ask_routes : Bytes → Request

abbrev pub key_of : Request → Bytes
key_of (ask_exists key) = key
key_of (ask_string key fallback) = key
key_of (ask_strings key fallback) = key
key_of (ask_string_map key fallback) = key
key_of (ask_int key fallback) = key
key_of (ask_bool key fallback) = key
key_of (ask_value key fallback) = key
key_of (ask_streams key fallback) = key
key_of (ask_stream_map key fallback) = key
key_of (ask_routes key) = key

abbrev config_of {ℓ} : {A : Type ℓ} → Option (PluginConfig × A) → Option PluginConfig
config_of r = r >>= λ p. some p.0

module _ (get_stream_id : Bytes → ℕ) where
  -- The configuration behind a call; `none` is the end of the program.
  unfoldable pub ask : PluginConfig → Request → Option PluginConfig
  unfolding has_value get_string get_string_array get_string_map get_int get_bool get_value
      get_stream_array get_stream_map get_stream_routes
  ask conf (ask_exists key) = some (has_value conf key).0
  ask conf (ask_string key fallback) = config_of (get_string conf key fallback)
  ask conf (ask_strings key fallback) = config_of (get_string_array conf key fallback)
  ask conf (ask_string_map key fallback) = config_of (get_string_map conf key fallback)
  ask conf (ask_int key fallback) = config_of (get_int conf key fallback)
  ask conf (ask_bool key fallback) = config_of (get_bool conf key fallback)
  ask conf (ask_value key fallback) = some (get_value conf key fallback).0
  ask conf (ask_streams key fallback) = config_of (get_stream_array get_stream_id conf key fallback)
  ask conf (ask_stream_map key fallback) =
      config_of (get_stream_map get_stream_id conf key fallback)
  ask conf (ask_routes key) = config_of (get_stream_routes get_stream_id conf key)

  unfoldable pub ask_all : PluginConfig → List Request → Option PluginConfig
  unfolding ask
  ask_all conf [] = some conf
  ask_all conf (r ∷ rs) = ask conf r >>= λ conf'. ask_all conf' rs

-- What a call leaves: the settings, and the key among the valid ones, once or more often.
abbrev pub IsAsked : Bytes → PluginConfig → PluginConfig → Type 0
IsAsked key conf conf' =
    (conf'.settings ≡ conf.settings)
    × ((k : Bytes)
        → is_valid_key conf'.valid_keys k
          ≡ (if equal key k then true else is_valid_key conf.valid_keys k))

again : (b c : Bool) → (if b then true else if b then true else c) ≡ (if b then true else c)
again true c = refl
again false c = refl

IsAsked-trans :
    (key : Bytes) (a b c : PluginConfig) → IsAsked key a b → IsAsked key b c → IsAsked key a c
IsAsked-trans key a b c (same, keys) (same', keys') = (
  same' ∙ same,
  λ k.
      keys' k
      ∙ ap (λ (x : Bool). if equal key k then true else x) (keys k)
      ∙ again (equal key k) (is_valid_key a.valid_keys k),
)

register_key-IsAsked :
    (key : Bytes) (conf : PluginConfig) → IsAsked key conf (register_key conf key)
unfolding register_key is_valid_key
register_key-IsAsked key conf = (refl, λ k. refl)

IsAsked-register_key :
    (key : Bytes) (conf conf' : PluginConfig)
    → IsAsked key conf conf'
    → IsAsked key conf (register_key conf' key)
unfolding register_key is_valid_key
IsAsked-register_key key conf conf' (same, keys) = (
  same,
  λ k.
      ap (λ (b : Bool). if equal key k then true else b) (keys k)
      ∙ again (equal key k) (is_valid_key conf.valid_keys k),
)

-- A getter that registers the key and returns that configuration.
returned :
    {A B : Type 0} (key : Bytes) (conf conf' : PluginConfig) (b : Bool) (o : Option A) (go : A → B)
    → (fallback : B) (out : PluginConfig) → IsAsked key conf conf'
    → config_of {A = B} (if b then (o >>= λ a. some (conf', go a)) else some (conf', fallback))
      ≡ some out
    → IsAsked key conf out
returned key conf conf' true (some a) go fallback out h e =
    let same : conf' ≡ out = cc in subst (IsAsked key conf) same h
returned key conf conf' true none go fallback out h e = cc
returned key conf conf' false o go fallback out h e =
    let same : conf' ≡ out = cc in subst (IsAsked key conf) same h

twice-IsAsked :
    (key : Bytes) (conf : PluginConfig)
    → IsAsked key conf (register_key (register_key conf key) key)
twice-IsAsked key conf =
    IsAsked-register_key key conf (register_key conf key) (register_key-IsAsked key conf)

get_or-IsAsked :
    {A : Type 0} (as_type : Setting → Option A) (key : Bytes) (conf : PluginConfig) (fallback : A)
    → (out : PluginConfig) → config_of (get_or as_type conf key fallback) ≡ some out
    → IsAsked key conf out
unfolding get_or has_value
get_or-IsAsked {A} as_type key conf fallback out =
    returned key conf (register_key (register_key conf key) key)
      (elim (find (register_key conf key).settings key) [ none ↦ false | some v ↦ true ])
      (get as_type (register_key (register_key conf key) key).settings key) (λ (a : A). a) fallback
      out (twice-IsAsked key conf)

module _ (get_stream_id : Bytes → ℕ) where
  inner_config :
      (o : Option (PluginConfig × List Bytes)) (out : PluginConfig)
      → config_of {A = List ℕ} (o >>= λ r. some (r.0, map get_stream_id r.1)) ≡ some out
      → config_of o ≡ some out
  inner_config none out e = cc
  inner_config (some (c, ss)) out e = e

  streams-IsAsked :
      (key : Bytes) (conf conf' : PluginConfig) (b : Bool) (fallback : List ℕ) (out : PluginConfig)
      → IsAsked key conf conf'
      → config_of {A = List ℕ} (
          if b
          then (get_string_array conf' key [] >>= λ r. some (r.0, map get_stream_id r.1))
          else some (conf', fallback))
        ≡ some out
      → IsAsked key conf out
  unfolding get_string_array
  streams-IsAsked key conf conf' true fallback out h e = IsAsked-trans key conf conf' out h (
      get_or-IsAsked to_strings key conf' [] out
        (inner_config (get_or to_strings conf' key []) out e))
  streams-IsAsked key conf conf' false fallback out h e =
      let same : conf' ≡ out = cc in subst (IsAsked key conf) same h

  abbrev start_streams : Bytes → List (ℕ × Bytes)
  start_streams fallback =
      if length fallback == 0 then [] else (get_stream_id (codes "*"), fallback) ∷ []

  ask-IsAsked :
      (r : Request) (conf out : PluginConfig)
      → ask get_stream_id conf r ≡ some out
      → IsAsked (key_of r) conf out
  unfolding ask has_value get_string get_string_array get_string_map get_int get_bool get_value
      get_stream_array get_stream_map get_stream_routes
  ask-IsAsked (ask_exists key) conf out e =
      let same : register_key conf key ≡ out = cc in
      subst (IsAsked key conf) same (register_key-IsAsked key conf)
  ask-IsAsked (ask_string key fallback) conf out e = get_or-IsAsked to_text key conf fallback out e
  ask-IsAsked (ask_strings key fallback) conf out e =
      get_or-IsAsked to_strings key conf fallback out e
  ask-IsAsked (ask_string_map key fallback) conf out e =
      get_or-IsAsked to_text_map key conf fallback out e
  ask-IsAsked (ask_int key fallback) conf out e = get_or-IsAsked to_int key conf fallback out e
  ask-IsAsked (ask_bool key fallback) conf out e = get_or-IsAsked to_bool key conf fallback out e
  ask-IsAsked (ask_value key fallback) conf out e =
      let same : register_key conf key ≡ out = cc in
      subst (IsAsked key conf) same (register_key-IsAsked key conf)
  ask-IsAsked (ask_streams key fallback) conf out e =
      streams-IsAsked key conf (register_key (register_key conf key) key)
        (elim (find (register_key conf key).settings key) [ none ↦ false | some v ↦ true ]) fallback
        out (twice-IsAsked key conf) e
  ask-IsAsked (ask_stream_map key fallback) conf out e =
      returned key conf (register_key (register_key conf key) key)
        (elim (find (register_key conf key).settings key) [ none ↦ false | some v ↦ true ])
        (get to_text_map (register_key (register_key conf key) key).settings key)
        (λ value. map_streams get_stream_id value (start_streams fallback)) (start_streams fallback)
        out (twice-IsAsked key conf) e
  ask-IsAsked (ask_routes key) conf out e =
      returned key conf (register_key (register_key conf key) key)
        (elim (find (register_key conf key).settings key) [ none ↦ false | some v ↦ true ])
        (get to_strings_map (register_key (register_key conf key) key).settings key)
        (λ value. map_routes get_stream_id value []) [] out (twice-IsAsked key conf) e

  -- Does one of the requests ask for the key?
  abbrev pub asks : List Request → Bytes → Bool
  asks [] k = false
  asks (r ∷ rs) k = if equal (key_of r) k then true else asks rs k

  or_swap :
      (a b c : Bool)
      → (if a then true else if b then true else c) ≡ (if b then true else if a then true else c)
  or_swap true true c = refl
  or_swap true false c = refl
  or_swap false b c = refl

  or_assoc :
      (a b c : Bool)
      → (if (if a then true else b) then true else c) ≡ (if a then true else if b then true else c)
  or_assoc true b c = refl
  or_assoc false b c = refl

  -- After all requests: the keys that were valid, and those that were asked for.
  pub ask_all-keys :
      (rs : List Request) (conf out : PluginConfig)
      → ask_all get_stream_id conf rs ≡ some out
      → (out.settings ≡ conf.settings)
        × ((k : Bytes)
            → is_valid_key out.valid_keys k
              ≡ (if asks rs k then true else is_valid_key conf.valid_keys k))
  unfolding ask_all
  ask_all-keys [] conf out e =
      let same : conf ≡ out = cc in
      (
        ap (λ (c : PluginConfig). c.settings) (sym same),
        λ k. ap (λ (c : PluginConfig). is_valid_key c.valid_keys k) (sym same),
      )
  ask_all-keys (r ∷ rs) conf out e =
      let (mid, first, later) =
        >>=-eq-some (ask get_stream_id conf r) (λ c. ask_all get_stream_id c rs) e in
      let (same, keys) = ask-IsAsked r conf mid first in
      let (same', keys') = ask_all-keys rs mid out later in
      (
        same' ∙ same,
        λ k.
            keys' k
            ∙ ap (λ (b : Bool). if asks rs k then true else b) (keys k)
            ∙ or_swap (asks rs k) (equal (key_of r) k) (is_valid_key conf.valid_keys k)
            ∙ sym (or_assoc (equal (key_of r) k) (asks rs k) (is_valid_key conf.valid_keys k)),
      )

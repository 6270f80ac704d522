-- ===== src/PluginConfig/Validation.antt =====
-- core/pluginconfig.go: Validate, against the settings and the keys that were asked for.
use x_pipeline.Prelude.{
  Bool, true, false, List, Option, some, Bytes, equal, equal_refl, equal→eq, if◌then◌else◌, if_true,
  inl, inr, ◌⊎◌, ◌↔◌, ◌≡◌, refl, sym, ap, ◌∙◌, ℕ,
}
use std.Path.{subst}
use x_pipeline.Settings.{Setting, Settings, no_settings, setting, find}
use x_pipeline.PluginConfig.{PluginConfig, is_valid_key, all_valid, validate}
use x_pipeline.PluginConfig.Requests.{Request, ask_all, asks, ask_all-keys}

-- Of the settings that are found, all have a valid key.
abbrev AllKnown : List Bytes → Settings → Type 0
AllKnown keys m = (k : Bytes) (v : Setting) → find m k ≡ some v → is_valid_key keys k ≡ true

found_or :
    (b : Bool) (name k : Bytes) (v w : Setting) (o : Option Setting) (keys : List Bytes)
    → equal name k ≡ b
    → is_valid_key keys name ≡ true
    → (o ≡ some w → is_valid_key keys k ≡ true)
    → (if b then some v else o) ≡ some w
    → is_valid_key keys k ≡ true
found_or true name k v w o keys e valid later h =
    subst (λ (n : Bytes). is_valid_key keys n ≡ true) (equal→eq name k e) valid
found_or false name k v w o keys e valid later h = later h

either : (b c : Bool) → (if b then c else false) ≡ true → (b ≡ true) × (c ≡ true)
either true c h = (refl, h)
either false c h = cc

all_valid→AllKnown : (keys : List Bytes) (m : Settings) → all_valid keys m ≡ true → AllKnown keys m
unfolding all_valid find
all_valid→AllKnown keys no_settings h k w e = cc
all_valid→AllKnown keys (setting name v rest) h k w e =
    let (valid, later) = either (is_valid_key keys name) (all_valid keys rest) h in
    found_or (equal name k) name k v w (find rest k) keys refl valid
      (all_valid→AllKnown keys rest later k w) e

found_later :
    (b : Bool) (name k : Bytes) (v w : Setting)
    → (u : Setting) × ((if b then some v else some w) ≡ some u)
found_later true name k v w = (v, refl)
found_later false name k v w = (w, refl)

AllKnown→all_valid : (keys : List Bytes) (m : Settings) → AllKnown keys m → all_valid keys m ≡ true
unfolding all_valid find
AllKnown→all_valid keys no_settings h = refl
AllKnown→all_valid keys (setting name v rest) h =
    let here : is_valid_key keys name ≡ true =
      h name v (if_true (equal name name) (some v) (find rest name) (equal_refl name)) in
    let later : AllKnown keys rest = λ k w e.
      let (u, found) = found_later (equal name k) name k v w in
      h k u (ap (λ (o : Option Setting). if equal name k then some v else o) e ∙ found) in
    if_true (is_valid_key keys name) (all_valid keys rest) false here
    ∙ AllKnown→all_valid keys rest later

from_or : (a b : Bool) → (if a then true else b) ≡ true → (a ≡ true) ⊎ (b ≡ true)
from_or true b h = inl refl
from_or false b h = inr h

to_or : (a b : Bool) → (a ≡ true) ⊎ (b ≡ true) → (if a then true else b) ≡ true
to_or true b h = refl
to_or false b (inl h) = cc
to_or false b (inr h) = h

-- After requests that all succeed, Validate returns true exactly if each key that is set was valid
-- before or is the key of one of the requests.
pub ask_all-validate :
    (get_stream_id : Bytes → ℕ) (rs : List Request) (conf out : PluginConfig)
    → ask_all get_stream_id conf rs ≡ some out
    → (validate out ≡ true) ↔ (
        (k : Bytes) (v : Setting)
        → find conf.settings k ≡ some v
        → (asks get_stream_id rs k ≡ true) ⊎ (is_valid_key conf.valid_keys k ≡ true))
unfolding validate
ask_all-validate get_stream_id rs conf out e =
    let (same, keys) = ask_all-keys get_stream_id rs conf out e in
    (
      λ h k v at. from_or (asks get_stream_id rs k) (is_valid_key conf.valid_keys k) (
          sym (keys k)
          ∙ all_valid→AllKnown out.valid_keys out.settings h k v
              (ap (λ (m : Settings). find m k) same ∙ at)),
      λ h. AllKnown→all_valid out.valid_keys out.settings λ k v at.
          keys k
          ∙ to_or (asks get_stream_id rs k) (is_valid_key conf.valid_keys k)
              (h k v (ap (λ (m : Settings). find m k) (sym same) ∙ at)),
    )

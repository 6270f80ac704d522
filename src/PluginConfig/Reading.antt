-- ===== src/PluginConfig/Reading.antt =====
-- core/pluginconfig.go: what Read makes of the values of a file.
use x_pipeline.Prelude.{
  ◌<◌, Bool, true, false, List, [], ◌∷◌, Option, none, some, ◌>>=◌, >>=-eq-some, Bytes, equal,
  equal_refl, equal→eq, length, if◌then◌else◌, if_true, if_same, ◌≡◌, refl, sym, ap, ◌∙◌, arith,
}
use std.Path.{subst}
use x_pipeline.Settings.{
  Setting, Settings, no_settings, setting, find, put, to_text, to_bool, to_int, to_strings,
}
use x_pipeline.PluginConfig.{
  PluginConfig, Reserved, id_key, enable_key, instances_key, stream_key, no_reserved, reserved_of,
  read_as, read_values, or_wildcard, sane, read, is_zero,
}

same_name :
    {A : Type 0} (c : Bool) (v w o : A)
    → (if c then v else o) ≡ (if c then v else if c then w else o)
same_name true v w o = refl
same_name false v w o = refl

other_name :
    {A : Type 0} (b c : Bool) (v w o : A)
    → (b ≡ true → c ≡ true → ⊥)
    → (if b then w else if c then v else o) ≡ (if c then v else if b then w else o)
other_name true true v w o h = absurd (h refl refl)
other_name true false v w o h = refl
other_name false c v w o h = refl

by_name :
    (b : Bool) (name key k : Bytes) (v w : Setting) (rest changed : Settings)
    → equal name key ≡ b
    → find changed k ≡ (if equal key k then some v else find rest k)
    → find (if b then setting name v rest else setting name w changed) k
      ≡ (if equal key k then some v else if equal name k then some w else find rest k)
unfolding find
by_name true name key k v w rest changed e h =
    let same : name ≡ key = equal→eq name key e in
    ap (λ (n : Bytes). if equal n k then some v else find rest k) same
    ∙ same_name (equal key k) (some v) (some w) (find rest k)
    ∙ ap (λ (n : Bytes). if equal key k then some v else if equal n k then some w else find rest k)
        (sym same)
by_name false name key k v w rest changed e h =
    ap (λ (o : Option Setting). if equal name k then some w else o) h
    ∙ other_name (equal name k) (equal key k) (some v) (some w) (find rest k) λ p q.
      let name_key : equal name key ≡ true =
        subst (λ (n : Bytes). equal name n ≡ true) (equal→eq name k p ∙ sym (equal→eq key k q))
          (equal_refl name) in
      cc

-- A value that is written is found, and the others are as before.
find-put :
    (m : Settings) (key k : Bytes) (v : Setting)
    → find (put m key v) k ≡ (if equal key k then some v else find m k)
unfolding find put
find-put no_settings key k v = refl
find-put (setting name w rest) key k v =
    by_name (equal name key) name key k v w rest (put rest key v) refl (find-put rest key k v)

-- A key that Read puts among the settings.
abbrev pub is_plain : Reserved → Bool
is_plain no_reserved = true
is_plain id_key = false
is_plain enable_key = false
is_plain instances_key = false
is_plain stream_key = false

-- The keys of a map differ.
abbrev pub AreDistinct : Settings → Type 0
AreDistinct no_settings = Unit
AreDistinct (setting name v rest) = (find rest name ≡ none) × AreDistinct rest

abbrev pub first_of {ℓ} : {A : Type ℓ} → Option A → Option A → Option A
first_of (some a) o = some a
first_of none o = o

kept_settings :
    {A : Type 0} (o : Option A) (conf out : PluginConfig) (change : A → PluginConfig)
    → ((a : A) → (change a).settings ≡ conf.settings)
    → (o >>= λ a. some (change a)) ≡ some out
    → out.settings ≡ conf.settings
kept_settings none conf out change h e = cc
kept_settings (some a) conf out change h e =
    let same : change a ≡ out = cc in ap (λ (c : PluginConfig). c.settings) (sym same) ∙ h a

read_as-settings :
    (r : Reserved) (key : Bytes) (v : Setting) (conf out : PluginConfig)
    → read_as r key v conf ≡ some out
    → out.settings ≡ (if is_plain r then put conf.settings key v else conf.settings)
read_as-settings id_key key v conf out e =
    kept_settings (to_text v) conf out (λ s. record conf { id = s }) (λ s. refl) e
read_as-settings enable_key key v conf out e =
    kept_settings (to_bool v) conf out (λ b. record conf { enable = b }) (λ b. refl) e
read_as-settings instances_key key v conf out e =
    kept_settings (to_int v) conf out (λ n. record conf { instances = n }) (λ n. refl) e
read_as-settings stream_key key v conf out e =
    kept_settings (to_strings v) conf out (λ ss. record conf { stream = ss }) (λ ss. refl) e
read_as-settings no_reserved key v conf out e =
    let same : record conf { settings = put conf.settings key v } ≡ out = cc in
    ap (λ (c : PluginConfig). c.settings) (sym same)

-- What is found at `k` behind one turn.
find-turn :
    (p : Bool) (m m' : Settings) (key k : Bytes) (v : Setting)
    → m' ≡ (if p then put m key v else m)
    → find m' k ≡ (if equal key k then if p then some v else find m k else find m k)
find-turn true m m' key k v e = ap (λ (n : Settings). find n k) e ∙ find-put m key k v
find-turn false m m' key k v e =
    ap (λ (n : Settings). find n k) e ∙ sym (if_same (equal key k) (find m k))

combine :
    (b : Bool) (key k : Bytes) (v : Setting) (later before after final : Option Setting)
    → equal key k ≡ b
    → (key ≡ k → later ≡ none)
    → after ≡ (if b then if is_plain (reserved_of key) then some v else before else before)
    → final ≡ (if is_plain (reserved_of k) then first_of later after else after)
    → final
      ≡ (if is_plain (reserved_of k) then first_of (if b then some v else later) before else before)
combine true key k v later before after final e gone turn rest =
    let same = equal→eq key k e in
    let turn' : after ≡ (if is_plain (reserved_of k) then some v else before) =
      turn ∙ ap (λ (n : Bytes). if is_plain (reserved_of n) then some v else before) same in
    rest
    ∙ ap (λ (o : Option Setting). if is_plain (reserved_of k) then first_of o after else after)
        (gone same)
    ∙ if_same (is_plain (reserved_of k)) after
    ∙ turn'
combine false key k v later before after final e gone turn rest =
    rest
    ∙ ap (λ (o : Option Setting). if is_plain (reserved_of k) then first_of later o else o) turn

read_values-settings :
    (values : Settings) (conf out : PluginConfig) (k : Bytes)
    → AreDistinct values
    → read_values values conf ≡ some out
    → find out.settings k ≡ (
        if is_plain (reserved_of k)
        then first_of (find values k) (find conf.settings k)
        else find conf.settings k)
unfolding read_values find
read_values-settings no_settings conf out k d e =
    let same : conf ≡ out = cc in
    ap (λ (c : PluginConfig). find c.settings k) (sym same)
    ∙ sym (if_same (is_plain (reserved_of k)) (find conf.settings k))
read_values-settings (setting key v rest) conf out k (fresh, d) e =
    let (mid, first, later) =
      >>=-eq-some (read_as (reserved_of key) key v conf) (λ c. read_values rest c) e in
    combine (equal key k) key k v (find rest k) (find conf.settings k) (find mid.settings k)
      (find out.settings k) refl (λ same. ap (λ (n : Bytes). find rest n) (sym same) ∙ fresh)
      (find-turn (is_plain (reserved_of key)) conf.settings mid.settings key k v
        (read_as-settings (reserved_of key) key v conf mid first))
      (read_values-settings rest mid out k d later)

length-or_wildcard_pos : (ss : List Bytes) → 0 < length (or_wildcard ss)
length-or_wildcard_pos [] = omega arith
length-or_wildcard_pos (s ∷ ss) = omega arith

disabled : (conf : PluginConfig) → is_zero (sane conf).instances ≡ true → (sane conf).enable ≡ false
unfolding sane
disabled conf h = if_true (is_zero conf.instances) false conf.enable h

-- A configuration that is read from values with different keys has a stream at least, is disabled if it
-- has no instances, and has for settings those that it had, under the values whose key is none of the
-- four that are read into fields.
pub read-settings :
    (conf out : PluginConfig) (values : Settings)
    → AreDistinct values
    → read conf values ≡ some out
    → (0 < length out.stream)
      × (is_zero out.instances ≡ true → out.enable ≡ false)
      × ((k : Bytes)
          → find out.settings k ≡ (
              if is_plain (reserved_of k)
              then first_of (find values k) (find conf.settings k)
              else find conf.settings k))
unfolding read sane
read-settings conf out values d e =
    let (mid, first, last) = >>=-eq-some (read_values values conf) (λ c. some (sane c)) e in
    let same : sane mid ≡ out = cc in
    (
      subst (λ (c : PluginConfig). 0 < length c.stream) same (length-or_wildcard_pos mid.stream),
      subst (λ (c : PluginConfig). is_zero c.instances ≡ true → c.enable ≡ false) same
          (disabled mid),
      λ k.
          ap (λ (c : PluginConfig). find c.settings k) (sym same)
          ∙ read_values-settings values conf mid k d first,
    )

-- ===== src/PluginConfig/Tests.antt =====
-- A small configuration, with a key that nobody asks for.
use x_pipeline.Prelude.{
  ℕ, ◌<◌, true, false, List, [], ◌∷◌, none, some, ◌>>=◌, Bytes, codes, equal, length, ◌≡◌, ◌↔◌, ◌⊎◌,
  refl, if◌then◌else◌,
}
use x_pipeline.MarshalMap.{at}
use x_pipeline.Settings.{
  Setting, Settings, text, int, no_settings, setting, find, put, to_text, to_int, to_bool,
  to_strings, texts_of, get,
}
use x_pipeline.PluginConfig.{
  PluginConfig, new_plugin_config, register_key, has_value, get_or, get_string, get_int,
  is_valid_key, all_valid, validate, read, read_values, reserved_of, sane, is_zero,
}
use x_pipeline.PluginConfig.Requests.{Request, ask_string, ask_int, ask, ask_all, asks}
use x_pipeline.PluginConfig.Validation.{ask_all-validate}
use x_pipeline.PluginConfig.Reading.{read-settings, is_plain, first_of}

program : Unit {0}
unfolding equal find put to_text to_int to_bool to_strings texts_of get new_plugin_config
    register_key has_value get_or get_string get_int is_valid_key all_valid validate read
    read_values reserved_of sane ask ask_all
program = tt

abbrev values : Settings
values =
    setting (codes "Path") (text (codes "x"))
      (setting (codes "Instances") (int (at 0)) (setting (codes "Typo") (int (at 3)) no_settings))

abbrev conf : PluginConfig
conf = record {
  id = [];
  typename = codes "t";
  enable = true;
  instances = at 1;
  stream = [];
  settings = no_settings;
  valid_keys = [];
}

abbrev conf_read : PluginConfig
conf_read = record conf {
  enable = false;
  instances = at 0;
  stream = codes "*" ∷ [];
  settings =
      setting (codes "Path") (text (codes "x")) (setting (codes "Typo") (int (at 3)) no_settings);
}

read-values : read conf values ≡ some conf_read
unfolding program
read-values = refl

read-settings_example :
    (0 < length conf_read.stream)
    × (is_zero conf_read.instances ≡ true → conf_read.enable ≡ false)
    × ((k : Bytes)
        → find conf_read.settings k ≡ (
            if is_plain (reserved_of k)
            then first_of (find values k) (find conf.settings k)
            else find conf.settings k))
unfolding program
read-settings_example = read-settings conf conf_read values (refl, (refl, (refl, tt))) read-values

abbrev ids : Bytes → ℕ
ids name = length name

-- A number is no text.
fatal : get_string conf_read (codes "Typo") [] ≡ none
unfolding program
fatal = refl

abbrev requests : List Request
requests = ask_string (codes "Path") [] ∷ ask_int (codes "Count") (at 2) ∷ []

unknown_key : (ask_all ids conf_read requests >>= λ c. some (validate c)) ≡ some false
unfolding program
unknown_key = refl

abbrev conf_asked : PluginConfig
conf_asked = record conf_read {
  valid_keys = codes "Count" ∷ codes "Count" ∷ codes "Path" ∷ codes "Path" ∷ [];
}

ask_all-requests : ask_all ids conf_read requests ≡ some conf_asked
unfolding program
ask_all-requests = refl

ask_all-validate_example : (validate conf_asked ≡ true) ↔ (
    (k : Bytes) (v : Setting)
    → find conf_read.settings k ≡ some v
    → (asks ids requests k ≡ true) ⊎ (is_valid_key [] k ≡ true))
ask_all-validate_example = ask_all-validate ids requests conf_read conf_asked ask_all-requests

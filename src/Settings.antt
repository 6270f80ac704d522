-- ===== src/Settings.antt =====
-- shared/marshalmap.go: the accessors of a MarshalMap by the type that they ask for. A value of an
-- `interface{}` is one constructor for each type that an accessor looks for, and `other` for the rest;
-- the keys of a map differ. A float64, which only passes through, is its text; an int or int64 is a
-- Number. `none` is an error.
use x_pipeline.Prelude.{
  ℕ, Bool, List, [], ◌∷◌, Option, none, some, ◌>>=◌, Bytes, equal, if◌then◌else◌,
}
use x_pipeline.MarshalMap.{Number}

mutual
  -- The maps are map[interface{}]interface{}, map[string]interface{}, MarshalMap,
  -- map[interface{}][]interface{}, map[string]string and map[string][]string.
  pub data Setting : Type 0 where
    other : Setting
    boolean : Bool → Setting
    int int64 : Number → Setting
    uint64 : ℕ → Setting
    float64 text : Bytes → Setting
    array : Elements → Setting
    strings : List Bytes → Setting
    any_map : Entries → Setting
    string_map marshal_map : Settings → Setting
    any_arrays : Arrays → Setting
    text_map : List (Bytes × Bytes) → Setting
    strings_map : List (Bytes × List Bytes) → Setting

  pub data Elements : Type 0 where
    no_elements : Elements
    element : Setting → Elements → Elements

  pub data Entries : Type 0 where
    no_entries : Entries
    entry : Setting → Setting → Entries → Entries

  pub data Arrays : Type 0 where
    no_arrays : Arrays
    array_entry : Setting → Elements → Arrays → Arrays

  pub data Settings : Type 0 where
    no_settings : Settings
    setting : Bytes → Setting → Settings → Settings

unfoldable pub find : Settings → Bytes → Option Setting
find no_settings key = none
find (setting name v rest) key =
    let later = find rest key in if equal name key then some v else later

-- `mmap[key] = value`.
unfoldable pub put : Settings → Bytes → Setting → Settings
put no_settings key v = setting key v no_settings
put (setting name w rest) key v =
    let later = put rest key v in
    if equal name key then setting name v rest else setting name w later

unfoldable pub to_bool : Setting → Option Bool
to_bool v = elim v [ boolean b ↦ some b | _ ↦ none ]

unfoldable pub to_int : Setting → Option Number
to_int v = elim v [ int n ↦ some n | _ ↦ none ]

unfoldable pub to_uint64 : Setting → Option ℕ
to_uint64 v = elim v [ uint64 n ↦ some n | _ ↦ none ]

unfoldable pub to_int64 : Setting → Option Number
to_int64 v = elim v [ int64 n ↦ some n | _ ↦ none ]

unfoldable pub to_float64 : Setting → Option Bytes
to_float64 v = elim v [ float64 x ↦ some x | _ ↦ none ]

unfoldable pub to_text : Setting → Option Bytes
to_text v = elim v [ text s ↦ some s | _ ↦ none ]

unfoldable pub to_array : Setting → Option Elements
to_array v = elim v [ array elements ↦ some elements | _ ↦ none ]

unfoldable pub to_any_map : Setting → Option Entries
to_any_map v = elim v [ any_map entries ↦ some entries | _ ↦ none ]

unfoldable pub texts_of : Elements → Option (List Bytes)
unfolding to_text
texts_of no_elements = some []
texts_of (element v rest) = to_text v >>= λ s. texts_of rest >>= λ ss. some (s ∷ ss)

-- `castToStringArray`.
unfoldable pub to_strings : Setting → Option (List Bytes)
unfolding texts_of
to_strings v = elim v [
  | text s ↦ some (s ∷ [])
  | array elements ↦ texts_of elements
  | strings ss ↦ some ss
  | _ ↦ none
]

-- The loops of `StringMap`, over the two kinds of maps.
unfoldable pub entry_texts : Entries → Option (List (Bytes × Bytes))
unfolding to_text
entry_texts no_entries = some []
entry_texts (entry k v rest) =
    to_text k >>= λ name. to_text v >>= λ s. entry_texts rest >>= λ more. some ((name, s) ∷ more)

unfoldable pub setting_texts : Settings → Option (List (Bytes × Bytes))
unfolding to_text
setting_texts no_settings = some []
setting_texts (setting name v rest) =
    to_text v >>= λ s. setting_texts rest >>= λ more. some ((name, s) ∷ more)

unfoldable pub to_text_map : Setting → Option (List (Bytes × Bytes))
unfolding entry_texts setting_texts
to_text_map v = elim v [
  | any_map entries ↦ entry_texts entries
  | string_map m ↦ setting_texts m
  | text_map m ↦ some m
  | _ ↦ none
]

-- The loops of `StringArrayMap`, over the three kinds of maps.
unfoldable pub array_strings : Arrays → Option (List (Bytes × List Bytes))
unfolding to_text texts_of
array_strings no_arrays = some []
array_strings (array_entry k elements rest) = to_text k >>= λ name.
    texts_of elements >>= λ ss. array_strings rest >>= λ more. some ((name, ss) ∷ more)

unfoldable pub entry_strings : Entries → Option (List (Bytes × List Bytes))
unfolding to_text to_strings
entry_strings no_entries = some []
entry_strings (entry k v rest) = to_text k >>= λ name.
    to_strings v >>= λ ss. entry_strings rest >>= λ more. some ((name, ss) ∷ more)

unfoldable pub setting_strings : Settings → Option (List (Bytes × List Bytes))
unfolding to_strings
setting_strings no_settings = some []
setting_strings (setting name v rest) =
    to_strings v >>= λ ss. setting_strings rest >>= λ more. some ((name, ss) ∷ more)

unfoldable pub to_strings_map : Setting → Option (List (Bytes × List Bytes))
unfolding array_strings entry_strings setting_strings
to_strings_map v = elim v [
  | any_arrays arrays ↦ array_strings arrays
  | any_map entries ↦ entry_strings entries
  | string_map m ↦ setting_strings m
  | strings_map m ↦ some m
  | _ ↦ none
]

-- The loop of `MarshalMap`.
unfoldable pub entry_settings : Entries → Option Settings
unfolding to_text
entry_settings no_entries = some no_settings
entry_settings (entry k v rest) =
    to_text k >>= λ name. entry_settings rest >>= λ more. some (setting name v more)

unfoldable pub to_marshal_map : Setting → Option Settings
unfolding entry_settings
to_marshal_map v = elim v [
  | any_map entries ↦ entry_settings entries
  | string_map m ↦ some m
  | marshal_map m ↦ some m
  | _ ↦ none
]

-- An accessor: the value at the key, if it is set, in the type that is asked for.
unfoldable pub get {ℓ} : {A : Type ℓ} → (Setting → Option A) → Settings → Bytes → Option A
unfolding find
get as_type m key = find m key >>= as_type

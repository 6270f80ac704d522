-- ===== src/ProcessJson.antt =====
-- format/processjson.go: the directives that change the fields of a decoded message. The operations
-- `time`, `unixtimestamp`, `agent` and `geoip`, which are other packages' work, are left out. The
-- functions of package strings, `strconv.Atoi` and `net.ParseIP` are parameters; the token of a split
-- is not empty. `none` is a panic.
pub mod Removal
mod Tests
use x_pipeline.Prelude.{
  ℕ, zero, suc, ◌+◌, Bool, true, false, ◌&&◌, ◌||◌, List, [], ◌∷◌, ◌++◌, Option, none, some, Bytes,
  codes, equal, length, take, set, get_elem?, ◌==◌, if◌then◌else◌,
}
use x_pipeline.Numbers.Decimal.{itoa}
use x_pipeline.Reader.{index}
use x_pipeline.Formats.{split}
use x_pipeline.MarshalMap.{
  Value, text, array, Items, no_items, item, Fields, no_fields, field, Number, at, below_zero,
  lookup, get_string, get_array, get_map,
}

-- The words that the switch compares with.
pub data Operation : Type 0 where
  rename split_field pick remove replace trim flatten ip other : Operation

pub record TransformDirective : Type 0 where
  pub key : Bytes
  pub operation : Operation
  pub parameters : List Bytes

-- An assignment to a key of a map, and `delete`.
unfoldable pub set_field : Fields → Bytes → Value → Fields
set_field no_fields key v = field key v no_fields
set_field (field name w rest) key v =
    if equal name key then field name v rest else field name w (set_field rest key v)

unfoldable pub delete_field : Fields → Bytes → Fields
delete_field no_fields key = no_fields
delete_field (field name w rest) key =
    if equal name key then delete_field rest key else field name w (delete_field rest key)

unfoldable pub to_list : Items → List Value
to_list no_items = []
to_list (item v rest) = v ∷ to_list rest

unfoldable pub of_list : List Value → Items
of_list [] = no_items
of_list (v ∷ vs) = item v (of_list vs)

-- `shared.Unescape`.
unfoldable pub unescape : Bytes → Bytes
unescape [] = []
unescape (x ∷ []) = x ∷ []
unescape (x ∷ y ∷ rest) =
    let later = unescape (y ∷ rest) in
    let behind = unescape rest in
    if x == 92 && y == b'n'
    then 10 ∷ behind
    else if x == 92 && y == b'r'
    then 13 ∷ behind
    else if x == 92 && y == b't'
    then 9 ∷ behind
    else x ∷ later

-- A text that is one of the parameters.
unfoldable pub is_listed : List Bytes → Value → Bool
is_listed names v = elim v [ text s ↦ any_equal names s | _ ↦ false ]
  where
    any_equal : List Bytes → Bytes → Bool
    any_equal [] s = false
    any_equal (n ∷ ns) s = equal s n || any_equal ns s

-- The loop of `remove`, in place: the index that is read, the one that is written, and the turns left.
unfoldable pub compact : (Value → Bool) → ℕ → ℕ → ℕ → List Value → List Value × ℕ
compact drops zero ri wi values = (values, wi)
compact drops (suc turns) ri wi values = elim (get_elem? values ri) [
  | none ↦ (values, wi)
  | some v ↦
      let skipped = compact drops turns (suc ri) wi values in
      let kept =
        compact drops turns (suc ri) (suc wi) (if ri == wi then values else set values wi v) in
      if drops v then skipped else kept
]

unfoldable pub remove_listed : List Bytes → List Value → List Value
unfolding is_listed compact
remove_listed names values =
    let (values', wi) = compact (is_listed names) (length values) 0 0 values in take wi values'

-- `split`: the entries that the parameters name get the parts, as far as both go.
unfoldable pub assign_parts : List Bytes → List Bytes → Fields → Fields
unfolding set_field
assign_parts [] parts entries = entries
assign_parts (n ∷ ns) [] entries = entries
assign_parts (n ∷ ns) (p ∷ ps) entries = assign_parts ns ps (set_field entries n (text p))

-- `flatten`, of a map and of an array.
unfoldable pub flatten_map : Bytes → Fields → Fields → Fields
unfolding set_field
flatten_map prefix no_fields entries = entries
flatten_map prefix (field name v rest) entries =
    flatten_map prefix rest (set_field entries (prefix ++ name) v)

unfoldable pub flatten_items : Bytes → ℕ → List Value → Fields → Fields
unfolding set_field
flatten_items prefix i [] entries = entries
flatten_items prefix i (v ∷ vs) entries =
    flatten_items prefix (suc i) vs (set_field entries (prefix ++ itoa i) v)

-- The item that `pick` takes: an index below zero is subtracted from the length.
unfoldable pub picked : Number → List Value → Option Value
picked (at i) values = get_elem? values i
picked (below_zero n) values = get_elem? values (length values + suc n)

abbrev pub items_of : Fields → Bytes → List Value
items_of entries key = elim (get_array entries key) [ none ↦ [] | some items ↦ to_list items ]

module _ (trim_set : Bytes → Bytes → Bytes) (replace_all : Bytes → Bytes → Bytes → Bytes)
    (atoi_value : Bytes → Number) (is_ip : Bytes → Bool) where
  abbrev pub stays : Value → Bool
  stays (text s) = is_ip s
  stays v = true

  unfoldable pub keep_ips : List Value → List Value
  keep_ips [] = []
  keep_ips (v ∷ vs) = if stays v then v ∷ keep_ips vs else keep_ips vs

  unfoldable pub run_text : Operation → Bytes → List Bytes → Bytes → Fields → Fields
  unfolding set_field unescape assign_parts
  run_text split_field key (token ∷ name ∷ names) s entries = elim (index s (unescape token)) [
    | none ↦ entries
    | some i ↦ assign_parts (name ∷ names) (split (length s) s (unescape token)) entries
  ]
  run_text replace key (old ∷ new ∷ []) s entries =
      set_field entries key (text (replace_all s (unescape old) (unescape new)))
  run_text trim key [] s entries = set_field entries key (text (trim_set s (codes " \t")))
  run_text trim key (cut ∷ []) s entries = set_field entries key (text (trim_set s (unescape cut)))
  run_text op key parameters s entries = entries

  abbrev pub delimiter_of : List Bytes → Bytes
  delimiter_of (d ∷ []) = d
  delimiter_of ds = codes "."

  abbrev pub run_on_text : Operation → Bytes → List Bytes → Fields → Fields
  run_on_text op key parameters entries = elim (get_string entries key) [
    | none ↦ entries
    | some s ↦ run_text op key parameters s entries
  ]

  -- A directive whose key is set, to `value`.
  unfoldable pub run_directive : Operation → Bytes → List Bytes → Value → Fields → Option Fields
  unfolding set_field delete_field unescape run_text remove_listed flatten_map flatten_items picked
      keep_ips
  run_directive rename key (name ∷ []) value entries =
      some (delete_field (set_field entries (unescape name) value) key)
  run_directive rename key parameters value entries = some entries
  run_directive pick key (i ∷ name ∷ rest) value entries =
      elim (picked (atoi_value i) (items_of entries key)) [
        | none ↦ some entries
        | some v ↦ some (set_field entries name v)
      ]
  run_directive pick key parameters value entries = none
  run_directive remove key [] value entries = some (delete_field entries key)
  run_directive remove key (name ∷ names) value entries = some (
      set_field entries key (array (of_list (remove_listed (name ∷ names) (items_of entries key)))))
  run_directive flatten key parameters value entries =
      let prefix = key ++ delimiter_of parameters in
      elim (get_map entries key) [
        | some inner ↦ some (delete_field (flatten_map prefix inner entries) key)
        | none ↦ elim (get_array entries key) [
          | some items ↦ some (delete_field (flatten_items prefix 0 (to_list items) entries) key)
          | none ↦ some entries
        ]
      ]
  run_directive ip key parameters value entries = elim (get_array entries key) [
    | none ↦ some entries
    | some items ↦ some (set_field entries key (array (of_list (keep_ips (to_list items)))))
  ]
  run_directive op key parameters value entries = some (run_on_text op key parameters entries)

  unfoldable pub process_directive : TransformDirective → Fields → Option Fields
  unfolding lookup run_directive
  process_directive d entries = elim (lookup entries d.key) [
    | none ↦ some entries
    | some value ↦ run_directive d.operation d.key d.parameters value entries
  ]

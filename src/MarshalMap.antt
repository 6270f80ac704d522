-- ===== src/MarshalMap.antt =====
-- shared/marshalmap.go: the values of a decoded document, and what is read from them by key or path.
-- A value is as encoding/json decodes it; a number, which only passes through, is its text. A
-- `MarshalMap` and a `map[string]interface{}` are both `Fields`. `atoi` is `strconv.Atoi`.
pub mod Keys
pub mod Paths
mod Tests
use x_pipeline.Prelude.{
  ℕ, zero, suc, ◌+◌, ◌-◌, Bool, List, [], ◌∷◌, Option, none, some, ◌>>=◌, Bytes, equal, length,
  take, drop, ltb, ◌==◌, if◌then◌else◌,
}

mutual
  pub data Value : Type 0 where
    null : Value
    boolean : Bool → Value
    number text : Bytes → Value
    array : Items → Value
    object : Fields → Value

  pub data Items : Type 0 where
    no_items : Items
    item : Value → Items → Items

  pub data Fields : Type 0 where
    no_fields : Fields
    field : Bytes → Value → Fields → Fields

-- What Atoi returns without an error.
pub data Number : Type 0 where
  at : ℕ → Number
  below_zero : ℕ → Number  -- -1 for 0

pub data Resolved : Type 0 where
  found : Value → Resolved
  missing panics : Resolved

unfoldable pub lookup : Fields → Bytes → Option Value
lookup no_fields key = none
lookup (field name v rest) key = if equal name key then some v else lookup rest key

unfoldable pub get_item : Items → ℕ → Option Value
get_item no_items i = none
get_item (item v rest) zero = some v
get_item (item v rest) (suc i) = get_item rest i

-- `Bool`, `String` and `Array`; `none` is an error, for a key that is not set or another type.
unfoldable pub get_bool : Fields → Bytes → Option Bool
unfolding lookup
get_bool fields key = lookup fields key >>= λ v. elim v [ boolean b ↦ some b | _ ↦ none ]

unfoldable pub get_string : Fields → Bytes → Option Bytes
unfolding lookup
get_string fields key = lookup fields key >>= λ v. elim v [ text s ↦ some s | _ ↦ none ]

unfoldable pub get_array : Fields → Bytes → Option Items
unfolding lookup
get_array fields key = lookup fields key >>= λ v. elim v [ array items ↦ some items | _ ↦ none ]

unfoldable pub get_map : Fields → Bytes → Option Fields
unfolding lookup
get_map fields key = lookup fields key >>= λ v. elim v [ object m ↦ some m | _ ↦ none ]

-- `castToStringArray`.
unfoldable pub all_strings : Items → Option (List Bytes)
all_strings no_items = some []
all_strings (item v rest) = elim v [ text s ↦ all_strings rest >>= λ ss. some (s ∷ ss) | _ ↦ none ]

unfoldable pub cast_to_string_array : Value → Option (List Bytes)
unfolding all_strings
cast_to_string_array v = elim v [
  | text s ↦ some (s ∷ [])
  | array items ↦ all_strings items
  | _ ↦ none
]

unfoldable pub get_string_array : Fields → Bytes → Option (List Bytes)
unfolding lookup cast_to_string_array
get_string_array fields key = lookup fields key >>= cast_to_string_array

-- `strings.Index` for one byte.
unfoldable pub position : ℕ → Bytes → Option ℕ
position c [] = none
position c (x ∷ xs) = if x == c then some 0 else position c xs >>= λ i. some (suc i)

-- The end of the first key, and the start of the next one: the length of the path, the first slash,
-- or a bracket before it.
abbrev pub slash_ends : ℕ → Option ℕ → ℕ × ℕ
slash_ends len none = (len, len)
slash_ends len (some i) = (i, i + 1)

abbrev pub bracket_ends : ℕ × ℕ → Option ℕ → ℕ × ℕ
bracket_ends ends none = ends
bracket_ends ends (some j) = if ltb j ends.0 then (j, j) else ends

unfoldable pub resolve_path_key : Bytes → ℕ × ℕ
unfolding position
resolve_path_key key =
    bracket_ends (slash_ends (length key) (position b'/' key)) (position b'[' key)

-- The text of an index in brackets at the start of a key, and what is behind it.
abbrev pub between : Bytes → Option ℕ → Option ℕ → Option (Bytes × Bytes)
between key (some zero) (some end) =
    if ltb 1 end then some (take (end - 1) (drop 1 key), drop (end + 1) key) else none
between key (some zero) none = none
between key (some (suc i)) end = none
between key none end = none

unfoldable pub array_key : Bytes → Option (Bytes × Bytes)
unfolding position
array_key key = between key (position b'[' key) (position b']' key)

-- An index below zero is below the length too.
abbrev pub at_index : Option Number → Bytes → (ℕ → Bytes → Resolved) → Resolved
at_index none rest go = missing
at_index (some (below_zero n)) rest go = panics
at_index (some (at i)) rest go = go i rest

abbrev pub at_bracket :
    (Bytes → Option Number) → Option (Bytes × Bytes) → (ℕ → Bytes → Resolved) → Resolved
at_bracket atoi none go = missing
at_bracket atoi (some (name, rest)) go = at_index (atoi name) rest go

module _ (atoi : Bytes → Option Number) where
  unfoldable mutual
    unfolding array_key resolve_path_key

    pub resolve_path : Bytes → Value → Resolved
    resolve_path key null = if length key == 0 then found null else missing
    resolve_path key (boolean b) = if length key == 0 then found (boolean b) else missing
    resolve_path key (number n) = if length key == 0 then found (number n) else missing
    resolve_path key (text s) = if length key == 0 then found (text s) else missing
    resolve_path key (array items) =
        if length key == 0
        then found (array items)
        else at_bracket atoi (array_key key) (λ i rest. resolve_item i rest items)
    resolve_path key (object fields) =
        let ends = resolve_path_key key in
        if length key == 0
        then found (object fields)
        else resolve_field (take ends.0 key) (drop ends.1 key) fields

    pub resolve_item : ℕ → Bytes → Items → Resolved
    resolve_item i key no_items = missing
    resolve_item zero key (item v rest) = resolve_path key v
    resolve_item (suc i) key (item v rest) = resolve_item i key rest

    pub resolve_field : Bytes → Bytes → Fields → Resolved
    resolve_field name key no_fields = missing
    resolve_field name key (field other v rest) =
        if equal other name then resolve_path key v else resolve_field name key rest

  unfoldable pub path : Fields → Bytes → Resolved
  unfolding resolve_path
  path fields key = resolve_path key (object fields)

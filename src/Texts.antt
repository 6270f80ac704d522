-- ===== src/Texts.antt =====
-- shared/utilities.go: searching a text, addresses, and the order of files; shared/typeregistry.go: the
-- names of a type. `none` stands for -1. `strings.ToLower`, `net.SplitHostPort` and the test of a
-- pattern are parameters.
pub mod Occurrences
pub mod FileOrder
mod Tests
use x_pipeline.Prelude.{
  ℕ, zero, suc, ◌+◌, ◌-◌, Bool, true, false, ◌||◌, List, [], ◌∷◌, ◌++◌, Option, none, some, ◌>>=◌,
  Bytes, codes, strip_prefix, length, take, drop, ltb, ◌==◌, if◌then◌else◌,
}
use x_pipeline.Reader.{index}

abbrev pub is_some {ℓ} : {A : Type ℓ} → Option A → Bool
is_some none = false
is_some (some a) = true

-- `strings.LastIndex`, for a separator that is not empty.
unfoldable pub last_index : Bytes → Bytes → Option ℕ
last_index [] sep = none
last_index (x ∷ xs) sep = elim (last_index xs sep) [
  | some i ↦ some (suc i)
  | none ↦ if is_some (strip_prefix sep (x ∷ xs)) then some 0 else none
]

-- The loop of `IndexN`, from `at`; a position is one less than `at` in the end.
unfoldable pub index_from : ℕ → Bytes → Bytes → ℕ → Option ℕ
unfolding index
index_from at s sep zero = if at == 0 then none else some (at - 1)
index_from at s sep (suc n) = index (drop at s) sep >>= λ i. index_from (at + (i + 1)) s sep n

unfoldable pub index_n : Bytes → Bytes → ℕ → Option ℕ
unfolding index_from
index_n s sep n = index_from 0 s sep n

unfoldable pub last_index_from : ℕ → Bytes → Bytes → ℕ → Option ℕ
unfolding last_index
last_index_from at s sep zero = some at
last_index_from at s sep (suc n) = last_index (take at s) sep >>= λ i. last_index_from i s sep n

unfoldable pub last_index_n : Bytes → Bytes → ℕ → Option ℕ
unfolding last_index_from
last_index_n s sep n = if n == 0 then none else last_index_from (length s) s sep n

module _ (to_lower : Bytes → Bytes) where
  unfoldable pub parse_address : Bytes → Bytes × Bytes
  unfolding index
  parse_address address = elim (index address (codes "://")) [
    | none ↦ (address, codes "tcp")
    | some i ↦ (drop (i + 3) address, to_lower (take i address))
  ]

  -- The protocol, and what `net.SplitHostPort` makes of the rest.
  unfoldable pub split_address : {R : Type 0} → (Bytes → R) → Bytes → Bytes → Bytes × R
  unfolding index
  split_address split_host_port address default_protocol = elim (index address (codes "://")) [
    | none ↦ (to_lower default_protocol, split_host_port address)
    | some i ↦ (to_lower (take i address), split_host_port (drop (i + 3) address))
  ]

-- The time is that of UnixNano, shifted so that it is not negative.
pub record FileInfo : Type 0 where
  pub mod_time : ℕ
  pub name : Bytes
  pub is_dir : Bool
  pub is_symlink : Bool

-- `<` on strings.
unfoldable pub text_less : Bytes → Bytes → Bool
text_less [] [] = false
text_less [] (y ∷ ys) = true
text_less (x ∷ xs) [] = false
text_less (x ∷ xs) (y ∷ ys) =
    let later = text_less xs ys in if ltb x y then true else if x == y then later else false

unfoldable pub less : FileInfo → FileInfo → Bool
unfolding text_less
less a b = if a.mod_time == b.mod_time then text_less a.name b.name else ltb a.mod_time b.mod_time

-- The loop of `ListFilesByDateMatching` over the sorted files.
unfoldable pub filter_files : (Bytes → Bool) → List FileInfo → List FileInfo
filter_files matches [] = []
filter_files matches (f ∷ fs) =
    let later = filter_files matches fs in
    if f.is_dir || f.is_symlink then later else if matches f.name then f ∷ later else later

-- `strings.Replace` of slashes by dots.
unfoldable pub dotted : Bytes → Bytes
dotted [] = []
dotted (x ∷ xs) = (if x == b'/' then b'.' else x) ∷ dotted xs

-- `Register` of the type registry: the names that a type gets, for `n` up to 4.
unfoldable pub short_names : ℕ → ℕ → Bytes → Bytes → List Bytes
unfolding last_index_n dotted
short_names zero n path type_name = []
short_names (suc turns) n path type_name = elim (last_index_n path (codes "/") n) [
  | none ↦ []
  | some i ↦
      (dotted (drop (i + 1) path) ++ (codes "." ++ type_name))
      ∷ short_names turns (suc n) path type_name
]

unfoldable pub registered_names : Bytes → Bytes → List Bytes
unfolding short_names
registered_names path type_name = short_names 4 1 path type_name

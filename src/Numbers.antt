-- ===== src/Numbers.antt =====
-- shared/utilities.go, the numbers: `MaxI` to `Min3I`, `Btoi` and `Itobe`. A uint64 wraps at 2 ^ 64.
pub mod Decimal
mod Tests
use x_pipeline.Prelude.{
  ℕ, zero, suc, ◌+◌, ◌-◌, ◌*◌, ◌/◌, ◌%◌, Bool, true, false, ◌&&◌, [], ◌∷◌, Bytes, length, set, ltb,
  leb, ◌==◌, if◌then◌else◌,
}

abbrev pub u64_mod : ℕ
u64_mod = 0x10000000000000000

unfoldable pub max_i : ℕ → ℕ → ℕ
max_i a b = if ltb b a then a else b

unfoldable pub max3_i : ℕ → ℕ → ℕ → ℕ
max3_i a b c = let m = a in let m' = if ltb m b then b else m in if ltb m' c then c else m'

unfoldable pub min_i : ℕ → ℕ → ℕ
min_i a b = if ltb a b then a else b

unfoldable pub min3_i : ℕ → ℕ → ℕ → ℕ
min3_i a b c = let m = a in let m' = if ltb b m then b else m in if ltb c m' then c else m'

abbrev pub is_digit : ℕ → Bool
is_digit c = leb b'0' c && leb c b'9'

-- The loop of `Btoi`: the number so far and the index.
unfoldable pub btoi_from : ℕ → ℕ → Bytes → ℕ × ℕ
btoi_from number index [] = (number, index)
btoi_from number index (c ∷ cs) =
    let rest = btoi_from ((number * 10 + (c - b'0')) % u64_mod) (index + 1) cs in
    if is_digit c then rest else (number, index)

unfoldable pub btoi : Bytes → ℕ × ℕ
unfolding btoi_from
btoi buffer = btoi_from 0 0 buffer

-- The loop of `Itobe`, with `i` bytes left to write at the front. The flag is false
-- for the error "Number too large for buffer"; the buffer then holds the last digits.
unfoldable pub itobe_from : ℕ → ℕ → Bytes → Bytes × Bool
itobe_from zero number buffer = (buffer, false)
itobe_from (suc i) number buffer =
    let written = set buffer i (b'0' + number % 10) in
    let rest = itobe_from i (number / 10) written in
    if number / 10 == 0 then (written, true) else rest

unfoldable pub itobe : ℕ → Bytes → Bytes × Bool
unfolding itobe_from
itobe number buffer = itobe_from (length buffer) number buffer

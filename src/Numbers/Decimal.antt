-- ===== src/Numbers/Decimal.antt =====
-- Decimal digits: printing a number and reading it back with `Btoi`.
use x_pipeline.Prelude.{
  ℕ, zero, suc, ◌+◌, ◌-◌, ◌*◌, ◌/◌, ◌%◌, ◌≤◌, ◌<◌, Bool, true, false, [], ◌∷◌, ◌++◌, Bytes, length,
  ◌==◌, if◌then◌else◌, ◌≡◌, refl, ap, arith, ◌∙◌, Bool-cases, inl, inr,
}
use x_pipeline.Numbers.{u64_mod, is_digit, btoi_from, btoi}

-- `strconv.Itoa` and `strconv.FormatUint(…, 10)`: the digits of a number, the first most significant.
-- The fuel is the number itself, which has more tens than it has digits.
unfoldable pub digits_onto : ℕ → ℕ → Bytes → Bytes
digits_onto zero n rest = (b'0' + n % 10) ∷ rest
digits_onto (suc fuel) n rest =
    let more = digits_onto fuel (n / 10) ((b'0' + n % 10) ∷ rest) in
    if n / 10 == 0 then (b'0' + n % 10) ∷ rest else more

unfoldable pub itoa : ℕ → Bytes
unfolding digits_onto
itoa n = digits_onto n n []

-- Does a text start with a digit?
abbrev pub starts_digit : Bytes → Bool
starts_digit [] = false
starts_digit (c ∷ cs) = is_digit c

btoi_from-stop : (n i : ℕ) (rest : Bytes) → starts_digit rest ≡ false → btoi_from n i rest ≡ (n, i)
unfolding btoi_from
btoi_from-stop n i [] h = refl
btoi_from-stop n i (c ∷ cs) h = rw h

btoi_from-digit :
    (n i d : ℕ) (rest : Bytes)
    → d < 10
    → btoi_from n i ((b'0' + d) ∷ rest) ≡ btoi_from ((n * 10 + d) % u64_mod) (i + 1) rest
unfolding btoi_from
btoi_from-digit n i d rest h =
    let digit : is_digit (b'0' + d) ≡ true = ground arith in
    let value : b'0' + d - b'0' ≡ d = omega arith in rw (digit, value)

digit_count : ℕ → ℕ → ℕ
digit_count zero n = 1
digit_count (suc fuel) n =
    let more = digit_count fuel (n / 10) in if n / 10 == 0 then 1 else more + 1

digit_count_pos : (fuel n : ℕ) → 0 < digit_count fuel n
unfolding digit_count
digit_count_pos zero n = omega arith
digit_count_pos (suc fuel) n = ground arith

length-digits_onto :
    (fuel n : ℕ) (rest : Bytes)
    → length (digits_onto fuel n rest) ≡ digit_count fuel n + length rest
unfolding digits_onto digit_count
length-digits_onto zero n rest = omega arith
length-digits_onto (suc fuel) n rest = elim (Bool-cases (n / 10 == 0)) [
  | inl last ↦ rw last (omega arith)
  | inr more ↦ rw more (omega (arith, length-digits_onto fuel (n / 10) ((b'0' + n % 10) ∷ rest)))
]

btoi_from-digits_onto :
    (fuel n i : ℕ) (rest : Bytes)
    → n ≤ fuel
    → n < u64_mod
    → btoi_from 0 i (digits_onto fuel n rest) ≡ btoi_from n (i + digit_count fuel n) rest
unfolding digits_onto digit_count
btoi_from-digits_onto zero n i rest h small =
    let value : (0 * 10 + n % 10) % u64_mod ≡ n = omega arith in
    btoi_from-digit 0 i (n % 10) rest (omega arith) ∙ ap (λ (m : ℕ). btoi_from m (i + 1) rest) value
btoi_from-digits_onto (suc fuel) n i rest h small = elim (Bool-cases (n / 10 == 0)) [
  | inl last ↦
      let value : (0 * 10 + n % 10) % u64_mod ≡ n = ground arith in
      rw last (
        btoi_from-digit 0 i (n % 10) rest (omega arith)
        ∙ ap (λ (m : ℕ). btoi_from m (i + 1) rest) value)
  | inr more ↦
      let value : (n / 10 * 10 + n % 10) % u64_mod ≡ n = omega arith in
      let count : i + digit_count fuel (n / 10) + 1 ≡ i + (digit_count fuel (n / 10) + 1) =
        omega arith in
      rw more (
        btoi_from-digits_onto fuel (n / 10) i ((b'0' + n % 10) ∷ rest) (omega arith) (omega arith)
        ∙ btoi_from-digit (n / 10) (i + digit_count fuel (n / 10)) (n % 10) rest (omega arith)
        ∙ ap (λ (m : ℕ). btoi_from m (i + digit_count fuel (n / 10) + 1) rest) value
        ∙ ap (λ (m : ℕ). btoi_from n m rest) count)
]

digits_onto-append :
    (fuel n : ℕ) (xs ys : Bytes) → digits_onto fuel n (xs ++ ys) ≡ digits_onto fuel n xs ++ ys
unfolding digits_onto
digits_onto-append zero n xs ys = refl
digits_onto-append (suc fuel) n xs ys = elim (Bool-cases (n / 10 == 0)) [
  | inl last ↦ rw last
  | inr more ↦ rw more (digits_onto-append fuel (n / 10) ((b'0' + n % 10) ∷ xs) ys)
]

-- Reading back the decimal digits of a 64-bit number gives the number and how many digits it has,
-- whatever follows that is no digit.
pub btoi-itoa :
    (n : ℕ) (rest : Bytes)
    → n < u64_mod
    → starts_digit rest ≡ false
    → btoi (itoa n ++ rest) ≡ (n, length (itoa n))
unfolding btoi itoa
btoi-itoa n rest small stop = rw (← digits_onto-append n n [] rest) (
    btoi_from-digits_onto n n 0 rest (omega arith) small
    ∙ btoi_from-stop n (0 + digit_count n n) rest stop
    ∙ ap (λ (m : ℕ). (n, m)) (omega (arith, length-digits_onto n n [])))

-- A decimal number has at least one digit.
pub length-itoa_pos : (n : ℕ) → 0 < length (itoa n)
unfolding itoa
length-itoa_pos n = omega (arith, length-digits_onto n n [], digit_count_pos n n)

btoi_from-length : (n i : ℕ) (bytes : Bytes) → (btoi_from n i bytes).1 ≤ i + length bytes
unfolding btoi_from
btoi_from-length n i [] = omega arith
btoi_from-length n i (c ∷ cs) =
    ground (arith, btoi_from-length ((n * 10 + (c - b'0')) % u64_mod) (i + 1) cs)

-- `Btoi` reads no further than the data.
pub btoi-length : (bytes : Bytes) → (btoi bytes).1 ≤ length bytes
unfolding btoi
btoi-length bytes = omega (arith, btoi_from-length 0 0 bytes)

-- ===== src/Archive/Decimal.antt =====
-- The numbers of a header fit a machine word.
use mold_macho.Archive.{
  skip_while, is_ascii_whitespace, take_while, parse_decimal, is_ascii_digit, fold_digits,
}
use mold_macho.Prelude.{
  Bool-cases, inr, ◌-◌, ◌<◌, ◌^◌, true, inl, ◌∷◌, ◌≡◌, arith, ◌+◌, [], ◌≤◌, length, ℕ, ◌*◌, List,
  Bool,
}
use mold_macho.Prelude.Bytes.{All}
use native.Mathlib.Nat.{pow-le-pow_right, pow-suc}

fold_digits-bound :
    (acc : ℕ) (bytes : List ℕ)
    → All (λ b. is_ascii_digit b ≡ true) bytes
    → fold_digits acc bytes < (acc + 1) * 10 ^ length bytes
unfolding fold_digits is_ascii_digit
fold_digits-bound acc [] h = omega arith
fold_digits-bound acc (b ∷ bytes) (h, hs) =
    let digit : b - 0x30 < 10 = ground arith in
    let rest = fold_digits-bound (acc * 10 + (b - 0x30)) bytes hs in
    let q = 10 ^ length bytes in
    let wide = scale (acc * 10 + (b - 0x30) + 1) ((acc + 1) * 10) q (omega arith) in
    rw (pow-suc 10 (length bytes)) (omega (arith, rest, wide, regroup acc q, commute acc q))
  where
    scale : (a c q : ℕ) → a ≤ c → a * q ≤ c * q
    scale a c q l = grind arith

    regroup : (a q : ℕ) → (a + 1) * 10 * q ≡ (a + 1) * (10 * q)
    regroup a q = omega arith

    commute : (a q : ℕ) → (a + 1) * (10 * q) ≡ (a + 1) * (q * 10)
    commute a q = omega arith

take_while-All :
    (test : ℕ → Bool) (bytes : List ℕ)
    → All (λ b. test b ≡ true) (take_while test bytes)
      × (length (take_while test bytes) ≤ length bytes)
unfolding take_while
take_while-All test [] = (tt, omega arith)
take_while-All test (b ∷ bytes) =
    let (all, shorter) = take_while-All test bytes in
    elim (Bool-cases (test b)) [
      | inl h ↦ rw h ((h, all), omega arith)
      | inr h ↦ rw h (tt, omega arith)
    ]

length-skip_while :
    (test : ℕ → Bool) (bytes : List ℕ) → length (skip_while test bytes) ≤ length bytes
unfolding skip_while
length-skip_while test [] = omega arith
length-skip_while test (b ∷ bytes) =
    let shorter = length-skip_while test bytes in
    elim (Bool-cases (test b)) [ inl h ↦ rw h (omega arith) | inr h ↦ rw h (omega arith) ]

-- The number read from a field of at most sixteen bytes, as those of a header are, is below ten to
-- the power of the field's width and does not overflow a 64-bit word.
pub parse_decimal-IsU64 :
    (bytes : List ℕ)
    → length bytes ≤ 16
    → (parse_decimal bytes < 10 ^ length bytes) × (parse_decimal bytes < 2 ^ 64)
unfolding parse_decimal
parse_decimal-IsU64 bytes short =
    let digits = take_while is_ascii_digit (skip_while is_ascii_whitespace bytes) in
    let (all, shorter) = take_while-All is_ascii_digit (skip_while is_ascii_whitespace bytes) in
    let bound = fold_digits-bound 0 digits all in
    let fits : length digits ≤ length bytes =
      omega (arith, length-skip_while is_ascii_whitespace bytes) in
    let wider =
      pow-le-pow_right {n = 10} (omega arith) {i = length digits} {j = length bytes} fits in
    (
      omega arith,
      omega (arith, pow-le-pow_right {n = 10} (omega arith) {i = length bytes} {j = 16} short),
    )

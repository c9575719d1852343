-- ===== src/Arch/Arm64/Masks.antt =====
-- Masks of the fields of a 32-bit instruction of macho/arch/arm64.rs: the ten high bits, the 12-bit
-- immediate and the ten low bits.
use mold_macho.Arch.Arm64.{with_imm12}
use mold_macho.Prelude.{
  ◌/◌, bit_and, ◌*◌, bit_or, ℕ, arith, zero, suc, ◌^◌, sym, ◌+◌, ◌≡◌, ◌∙◌, ◌%◌, ap, ap₂, ◌<◌, min,
  max,
}
use mold_macho.Prelude.Bits.{
  bit_and_step, div-double, two_pow-suc, mod-double, bit_or_step, bit_and_low, bit_or_disjoint,
}
use native.Mathlib.Nat.{mod-eq_of_lt}

pub bit_and_shifted : (k m x : ℕ) → bit_and x (m * 2 ^ k) ≡ bit_and (x / 2 ^ k) m * 2 ^ k
bit_and_shifted zero m x =
    let e : m * 1 ≡ m = omega arith in let f : x / 1 ≡ x = omega arith in rw (e, f) (omega arith)
bit_and_shifted (suc k) m x = rw two_pow-suc (
    omega (
      arith,
      bit_and_step x (m * (2 * 2 ^ k)),
      ap (λ (n : ℕ). bit_and (x / 2) n) half,
      bit_and_shifted k m (x / 2),
      ap (λ (n : ℕ). bit_and n m * 2 ^ k) (sym (div-double (2 ^ k) x)),
    ))
  where
    half : m * (2 * 2 ^ k) / 2 ≡ m * 2 ^ k
    half = omega arith

-- The high bits alone.
abbrev pub high : ℕ → ℕ
high insn = insn / 2 ^ 22 * 2 ^ 22

-- A mask of high bits sees only them.
pub bit_and-high : (m insn : ℕ) → bit_and insn (m * 2 ^ 22) ≡ bit_and (high insn) (m * 2 ^ 22)
bit_and-high m insn =
    let e : high insn / 2 ^ 22 ≡ insn / 2 ^ 22 = omega arith in
    bit_and_shifted 22 m insn
    ∙ sym (bit_and_shifted 22 m (high insn) ∙ ap (λ (n : ℕ). bit_and n m * 2 ^ 22) e)

half_mod : (p x : ℕ) → x % (2 * p) / 2 ≡ x / 2 % p
half_mod p x = omega (arith, mod-double p x)

odd_mod : (p x : ℕ) → x % (2 * p) % 2 ≡ x % 2
odd_mod p x = omega (arith, mod-double p x)

pub split_and :
    (k x y : ℕ)
    → bit_and x y ≡ bit_and (x / 2 ^ k) (y / 2 ^ k) * 2 ^ k + bit_and (x % 2 ^ k) (y % 2 ^ k)
split_and zero x y =
    let e : x / 1 ≡ x = omega arith in
    let f : y / 1 ≡ y = omega arith in
    let g : x % 1 ≡ 0 = omega arith in
    let h : y % 1 ≡ 0 = omega arith in rw (e, f, g, h) (omega (arith, bit_and_step 0 0))
split_and (suc k) x y =
    let p = 2 ^ k in
    let low = bit_and (x % (2 * p)) (y % (2 * p)) in
    let lows : low ≡ bit_and (x / 2 % p) (y / 2 % p) * 2 + min (x % 2) (y % 2) =
      bit_and_step (x % (2 * p)) (y % (2 * p))
      ∙ ap₂ (λ (a b : ℕ). a * 2 + b) (ap₂ bit_and (half_mod p x) (half_mod p y))
          (ap₂ min (odd_mod p x) (odd_mod p y)) in
    let highs : bit_and (x / (2 * p)) (y / (2 * p)) ≡ bit_and (x / 2 / p) (y / 2 / p) =
      ap₂ bit_and (div-double p x) (div-double p y) in
    rw (two_pow-suc k) (
      omega
        (arith, bit_and_step x y, split_and k (x / 2) (y / 2), lows, ap (λ (n : ℕ). n * p) highs))

pub split_or :
    (k x y : ℕ)
    → bit_or x y ≡ bit_or (x / 2 ^ k) (y / 2 ^ k) * 2 ^ k + bit_or (x % 2 ^ k) (y % 2 ^ k)
split_or zero x y =
    let e : x / 1 ≡ x = omega arith in
    let f : y / 1 ≡ y = omega arith in
    let g : x % 1 ≡ 0 = omega arith in
    let h : y % 1 ≡ 0 = omega arith in rw (e, f, g, h) (omega (arith, bit_or_step 0 0))
split_or (suc k) x y =
    let p = 2 ^ k in
    let low = bit_or (x % (2 * p)) (y % (2 * p)) in
    let lows : low ≡ bit_or (x / 2 % p) (y / 2 % p) * 2 + max (x % 2) (y % 2) =
      bit_or_step (x % (2 * p)) (y % (2 * p))
      ∙ ap₂ (λ (a b : ℕ). a * 2 + b) (ap₂ bit_or (half_mod p x) (half_mod p y))
          (ap₂ max (odd_mod p x) (odd_mod p y)) in
    let highs : bit_or (x / (2 * p)) (y / (2 * p)) ≡ bit_or (x / 2 / p) (y / 2 / p) =
      ap₂ bit_or (div-double p x) (div-double p y) in
    rw (two_pow-suc k) (
      omega (arith, bit_or_step x y, split_or k (x / 2) (y / 2), lows, ap (λ (n : ℕ). n * p) highs))

-- The instruction with its immediate cleared, and with another one put in its place.
pub with_imm12-eq :
    (insn imm : ℕ)
    → insn < 2 ^ 32
    → imm < 2 ^ 12
    → with_imm12 insn (imm * 2 ^ 10 % 2 ^ 32) ≡ high insn + imm * 2 ^ 10 + insn % 2 ^ 10
unfolding with_imm12
with_imm12-eq insn imm h k =
    let top = insn / 2 ^ 22 in
    let low = insn % 2 ^ 10 in
    let kept : bit_and insn 0xffc0_03ff ≡ top * 2 ^ 22 + low =
      split_and 22 insn 0xffc0_03ff
      ∙ ap₂ (λ (a b : ℕ). a * 2 ^ 22 + b) (bit_and_low 10 top ∙ omega arith)
          (bit_and_low 10 (insn % 2 ^ 22) ∙ omega arith) in
    let field : imm * 2 ^ 10 % 2 ^ 32 ≡ imm * 2 ^ 10 = mod-eq_of_lt (omega arith) in
    let a : (top * 2 ^ 22 + low) / 2 ^ 22 ≡ top = omega arith in
    let b : imm * 2 ^ 10 / 2 ^ 22 ≡ 0 * 2 ^ 22 = omega arith in
    let c : (top * 2 ^ 22 + low) % 2 ^ 22 ≡ low = omega arith in
    let d : imm * 2 ^ 10 % 2 ^ 22 ≡ imm * 2 ^ 10 = omega arith in
    ap₂ bit_or kept field
    ∙ (split_or 22 (top * 2 ^ 22 + low) (imm * 2 ^ 10)
        ∙ ap₂ (λ (m n : ℕ). m * 2 ^ 22 + n)
            (ap₂ bit_or a b ∙ bit_or_disjoint 22 top 0 (omega arith))
            (ap₂ bit_or c d ∙ bit_or_disjoint 10 low imm (omega arith))
        ∙ omega arith)

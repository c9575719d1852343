-- ===== src/Prelude/Bits.antt =====
-- The bit operations at variables: the law for the lowest digit of each, and what it gives for
-- masks of low bits, masks of high bits and the union of disjoint fields.
use Prim.Native.Nat.{digits, bit_and-bitwise, bit_or-bitwise}
use mold_macho.Prelude.{
  ℕ, zero, suc, ◌+◌, ◌-◌, ◌*◌, ◌/◌, ◌%◌, ◌^◌, ◌≤◌, ◌<◌, ◌≡◌, refl, arith, min, max, bit_and, bit_or,
  ap, sym, ◌∙◌, dec_lt,
}
use native.Mathlib.Nat.{pow-suc, pow-le-pow_right, div-div-eq-div-mul, div-add-mod, mod-eq_of_lt}

-- The fuel of `digits` does not matter once it is enough.
module _ (z : ℕ → ℕ) (op : ℕ → ℕ → ℕ) where
  fuel_irrelevant : (x y k l : ℕ) → x ≤ k → x ≤ l → digits z op k x y ≡ digits z op l x y
  fuel_irrelevant zero y zero zero hk hl = refl
  fuel_irrelevant zero y zero (suc l) hk hl = refl
  fuel_irrelevant zero y (suc k) zero hk hl = refl
  fuel_irrelevant zero y (suc k) (suc l) hk hl = refl
  fuel_irrelevant (suc x) y zero l hk hl = absurd (omega arith)
  fuel_irrelevant (suc x) y (suc k) zero hk hl = absurd (omega arith)
  fuel_irrelevant (suc x) y (suc k) (suc l) hk hl =
      let half = fuel_irrelevant (suc x / 2) (y / 2) k l (omega arith) (omega arith) in
      omega (arith, half)

zero-bit_and : (b : ℕ) → bit_and 0 b ≡ 0
zero-bit_and b = bit_and-bitwise 0 b

zero-bit_or : (b : ℕ) → bit_or 0 b ≡ b
zero-bit_or b = bit_or-bitwise 0 b

-- A bit operation on two numbers works on their halves and on their last digits.
pub bit_and_step : (x y : ℕ) → bit_and x y ≡ bit_and (x / 2) (y / 2) * 2 + min (x % 2) (y % 2)
bit_and_step zero y = omega (arith, zero-bit_and (y / 2), zero-bit_and y)
bit_and_step (suc k) y =
    let same =
      fuel_irrelevant (λ b. zero) min (suc k / 2) (y / 2) k (suc k / 2) (omega arith)
        (omega arith) in
    omega (arith, same, bit_and-bitwise (suc k / 2) (y / 2), bit_and-bitwise (suc k) y)

pub bit_or_step : (x y : ℕ) → bit_or x y ≡ bit_or (x / 2) (y / 2) * 2 + max (x % 2) (y % 2)
bit_or_step zero y = omega (arith, zero-bit_or (y / 2), zero-bit_or y)
bit_or_step (suc k) y =
    let same =
      fuel_irrelevant (λ b. b) max (suc k / 2) (y / 2) k (suc k / 2) (omega arith) (omega arith) in
    omega (arith, same, bit_or-bitwise (suc k / 2) (y / 2), bit_or-bitwise (suc k) y)

no_bits_below : (bound x : ℕ) → x < bound → bit_and x 0 ≡ 0
no_bits_below zero x h = absurd (omega arith)
no_bits_below (suc bound) zero h = zero-bit_and 0
no_bits_below (suc bound) (suc x) h =
    let halves = no_bits_below bound (suc x / 2) (omega arith) in
    omega (arith, halves, bit_and_step (suc x) 0)

pub bit_and-zero : (x : ℕ) → bit_and x 0 ≡ 0
bit_and-zero x = no_bits_below (suc x) x (omega arith)

pub two_pow-suc : (k : ℕ) → 2 ^ suc k ≡ 2 * 2 ^ k
two_pow-suc k = omega (arith, pow-suc 2 k)

pub two_pow-pos : (k : ℕ) → 0 < 2 ^ k
two_pow-pos zero = omega arith
two_pow-pos (suc k) = omega (arith, two_pow-suc k, two_pow-pos k)

-- Division and remainder by an even number, through the half.
pub div-double : (p x : ℕ) → x / (2 * p) ≡ x / 2 / p
div-double p x = sym (div-div-eq-div-mul x 2 p)

pub mod-double : (p x : ℕ) → x % (2 * p) ≡ x / 2 % p * 2 + x % 2
mod-double p x =
    omega
      (arith, ap (λ (t : ℕ). p * t) (div-double p x), div-add-mod x (2 * p), div-add-mod (x / 2) p)

-- `x & ((1 << k) - 1)` is the remainder.
pub bit_and_low : (k x : ℕ) → bit_and x (2 ^ k - 1) ≡ x % 2 ^ k
bit_and_low zero x = omega (arith, bit_and-zero x)
bit_and_low (suc k) x = rw (two_pow-suc k) (
    omega (
      arith,
      bit_and_step x (2 * 2 ^ k - 1),
      ap (λ (m : ℕ). bit_and (x / 2) m) half,
      bit_and_low k (x / 2),
      mod-double (2 ^ k) x,
      two_pow-pos k,
    ))
  where
    half : (2 * 2 ^ k - 1) / 2 ≡ 2 ^ k - 1
    half = omega (arith, two_pow-pos k)

-- `x & (((1 << m) - 1) << k)` clears the low `k` bits of an `m + k`-bit number.
pub bit_and_high :
    (k m x : ℕ) → x < 2 ^ m * 2 ^ k → bit_and x ((2 ^ m - 1) * 2 ^ k) ≡ x / 2 ^ k * 2 ^ k
bit_and_high zero m x h =
    let e : (2 ^ m - 1) * 2 ^ 0 ≡ 2 ^ m - 1 = omega arith in
    rw e (bit_and_low m x ∙ mod-eq_of_lt (omega arith) ∙ omega arith)
bit_and_high (suc k) m x h = rw (two_pow-suc k) (
    omega (
      arith,
      bit_and_step x ((2 ^ m - 1) * (2 * 2 ^ k)),
      ap (λ (m : ℕ). bit_and (x / 2) m) half,
      bit_and_high k m (x / 2) below,
      ap (λ (t : ℕ). t * (2 * 2 ^ k)) (div-double (2 ^ k) x),
    ))
  where
    half : (2 ^ m - 1) * (2 * 2 ^ k) / 2 ≡ (2 ^ m - 1) * 2 ^ k
    half = omega arith

    below : x / 2 < 2 ^ m * 2 ^ k
    below = omega (arith, rw two_pow-suc at h)

-- Fields that do not overlap: `a | (b << k)` for `a` below `1 << k` is the sum.
pub bit_or_disjoint : (k a b : ℕ) → a < 2 ^ k → bit_or a (b * 2 ^ k) ≡ a + b * 2 ^ k
bit_or_disjoint zero a b h =
    let e : a ≡ 0 = omega arith in rw e (omega (arith, zero-bit_or (b * 1)))
bit_or_disjoint (suc k) a b h = rw (two_pow-suc k) (
    omega (
      arith,
      bit_or_step a (b * (2 * 2 ^ k)),
      ap (λ (m : ℕ). bit_or (a / 2) m) half,
      bit_or_disjoint k (a / 2) b below,
    ))
  where
    half : b * (2 * 2 ^ k) / 2 ≡ b * 2 ^ k
    half = omega arith

    below : a / 2 < 2 ^ k
    below = omega (arith, two_pow-suc k)

pub two_pow-add : (j k : ℕ) → 2 ^ (j + k) ≡ 2 ^ j * 2 ^ k
two_pow-add j zero = let e : j + 0 ≡ j = omega arith in rw e (omega arith)
two_pow-add j (suc k) =
    let e : j + suc k ≡ suc (j + k) = omega arith in
    rw (e, two_pow-suc (j + k), two_pow-suc k) (omega (arith, two_pow-add j k))

-- A power of two below another one divides it.
pub two_pow-split : (k w : ℕ) → k ≤ w → 2 ^ w ≡ 2 ^ (w - k) * 2 ^ k
two_pow-split k w h =
    let e : w ≡ w - k + k = omega arith in rw (← two_pow-add (w - k) k) (ap (λ n. 2 ^ n) e)

-- A power of two that a word holds has its exponent below the word's width.
pub exponent-lt : (s w : ℕ) → 2 ^ s < 2 ^ w → s < w
exponent-lt s w h = elim (dec_lt s w) [
  | yes p ↦ p
  | no p ↦
      absurd (omega (arith, pow-le-pow_right {n = 2} (omega arith) {i = w} {j = s} (omega arith)))
]

pub minus_one : (a b : ℕ) → 0 < a → (a - 1) * b + b ≡ a * b
minus_one zero b h = elim h [ ]
minus_one (suc a) b h = let e : suc a - 1 ≡ a = omega arith in rw e (omega arith)

bit_or_comm_below : (n a b : ℕ) → a ≤ n → b ≤ n → bit_or a b ≡ bit_or b a
bit_or_comm_below zero a b ha hb =
    let ea : a ≡ 0 = omega arith in let eb : b ≡ 0 = omega arith in rw (ea, eb) refl
bit_or_comm_below (suc n) a b ha hb = omega (
  arith,
  bit_or_step a b,
  bit_or_step b a,
  bit_or_comm_below n (a / 2) (b / 2) (omega arith) (omega arith),
)

pub bit_or_comm : (a b : ℕ) → bit_or a b ≡ bit_or b a
bit_or_comm a b = bit_or_comm_below (a + b) a b (omega arith) (omega arith)

-- A field of `k` bits joins a number whose low `k` bits are clear.
pub bit_or_low : (k h l : ℕ) → l < 2 ^ k → bit_or (h * 2 ^ k) l ≡ h * 2 ^ k + l
bit_or_low k h l p = bit_or_comm (h * 2 ^ k) l ∙ bit_or_disjoint k l h p ∙ omega arith

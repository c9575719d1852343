-- ===== src/Util/Align/Laws.antt =====
-- What the alignment and bit-field helpers compute.
use mold_macho.Prelude.{
  ℕ, bit_and, suc, ◌+◌, ◌-◌, ◌*◌, ◌/◌, ◌%◌, ◌^◌, ◌≤◌, ◌<◌, ◌≡◌, arith, ap, ◌∙◌, if◌then◌else◌, leb,
  ltb, ltb→lt, ltb→ge, lt→ltb, ge→ltb, Bool-cases, inl, inr, leb→le, leb→gt,
}
use mold_macho.Prelude.Bits.{
  bit_and_low, bit_and_high, two_pow-pos, two_pow-split, two_pow-suc, minus_one,
}
use mold_macho.Prelude.Int.{pos, negsuc}
use mold_macho.Util.Align.{align_to, align_to_mod, bits, sign_extend}
use native.Mathlib.Nat.{
  div-add-mod, div-eq_of_lt, mod-lt, add-mul-mod_self_right, add-mul-div_right, mul-mod_left,
  mod-eq_of_lt, div-lt_iff_lt-mul, pow-le-pow_right,
}

-- The multiple of `p` that is at least `v` and nearest to it.
module _ (p v : ℕ) (hp : 0 < p) where
  abbrev pub round_up : ℕ
  round_up = (v + p - 1) / p * p

  le-round_up : v ≤ round_up
  le-round_up = omega (arith, div-add-mod (v + p - 1) p, mod-lt (v + p - 1) hp)

  round_up-mod : round_up % p ≡ 0
  round_up-mod = mul-mod_left ((v + p - 1) / p) p

  round_up-least : (q : ℕ) → v ≤ q * p → round_up ≤ q * p
  round_up-least q h = grind (arith, div-lt_iff_lt-mul {k = p} {x = v + p - 1} {y = q + 1} hp)

-- The mask that `align_to` builds for an alignment of at most 64 bits.
high_mask : (k : ℕ) → k < 64 → 2 ^ 64 - 1 - (2 ^ k - 1) ≡ (2 ^ (64 - k) - 1) * 2 ^ k
high_mask k hk = omega (
  arith,
  two_pow-split k 64 (omega arith),
  two_pow-pos k,
  minus_one _ (2 ^ k) (two_pow-pos (64 - k)),
  le_64,
)
  where
    le_64 : 2 ^ k ≤ 2 ^ 64
    le_64 = pow-le-pow_right {n = 2} (omega arith) {i = k} {j = 64} (omega arith)

align_to-eq :
    (k v : ℕ)
    → k < 64
    → v + 2 ^ k ≤ 2 ^ 64
    → align_to v (2 ^ k) ≡ round_up (2 ^ k) v (two_pow-pos k)
unfolding align_to
align_to-eq k v hk h = ground (
  arith,
  two_pow-pos k,
  ap (λ (m : ℕ). bit_and x m) (high_mask k hk),
  bit_and_high k (64 - k) x below,
  ap (λ (t : ℕ). t / 2 ^ k * 2 ^ k) wraps,
)
  where
    x : ℕ
    x = (v + 2 ^ k + (2 ^ 64 - 1)) % 2 ^ 64

    wraps : x ≡ v + 2 ^ k - 1
    wraps = omega (arith, two_pow-pos k)

    below : x < 2 ^ (64 - k) * 2 ^ k
    below = omega (arith, two_pow-split k 64 (omega arith), two_pow-pos k)

-- For an alignment that is a power of two, and a value that it does not round past 2^64,
-- `align_to` gives the least multiple of the alignment that is not below the value.
pub align_to_least :
    (k v q : ℕ)
    → k < 64
    → v + 2 ^ k ≤ 2 ^ 64
    → (v ≤ align_to v (2 ^ k))
      × (align_to v (2 ^ k) % 2 ^ k ≡ 0)
      × (v ≤ q * 2 ^ k → align_to v (2 ^ k) ≤ q * 2 ^ k)
align_to_least k v q hk h =
    let p = two_pow-pos k in
    rw (align_to-eq k v hk h) (le-round_up _ v p, round_up-mod _ v p, round_up-least _ v p q)

mod-shift : (p r m : ℕ) → r % p ≡ 0 → m < p → (r + m) % p ≡ m
mod-shift p r m h hm =
    let e : r + m ≡ m + r / p * p = omega (arith, div-add-mod r p) in
    rw e (add-mul-mod_self_right m (r / p) p ∙ mod-eq_of_lt hm)

-- Under the same conditions and for a modulus below the alignment, `align_to_mod` gives the
-- smallest x >= val with x % align == modulus.
pub align_to_mod_least :
    (k val modulus q : ℕ)
    → k < 64
    → val + 2 ^ k ≤ 2 ^ 64
    → modulus < 2 ^ k
    → (val ≤ align_to_mod val (2 ^ k) modulus)
      × (align_to_mod val (2 ^ k) modulus % 2 ^ k ≡ modulus)
      × (val ≤ q * 2 ^ k + modulus → align_to_mod val (2 ^ k) modulus ≤ q * 2 ^ k + modulus)
unfolding align_to_mod
align_to_mod_least k val modulus q hk h hm = elim (Bool-cases (leb val modulus)) [
  | inl small ↦ rw small (leb→le _ _ small, mod-eq_of_lt hm, λ hq. omega arith)
  | inr large ↦ rw large (beyond (leb→gt _ _ large))
]
  where
    beyond :
        modulus < val
        → (val ≤ align_to (val - modulus) (2 ^ k) + modulus)
          × ((align_to (val - modulus) (2 ^ k) + modulus) % 2 ^ k ≡ modulus)
          × (val ≤ q * 2 ^ k + modulus
              → align_to (val - modulus) (2 ^ k) + modulus ≤ q * 2 ^ k + modulus)
    beyond hv =
        let (above, aligned, least) = align_to_least k (val - modulus) q hk (omega arith) in
        (
          omega arith,
          mod-shift (2 ^ k) _ modulus aligned hm,
          λ hq. omega (arith, least (omega arith)),
        )

-- The field of `value` from bit `lo` up to bit `hi`, as a quotient and a remainder.
pub bits-eq : (value hi lo : ℕ) → bits value hi lo ≡ value / 2 ^ lo % 2 ^ (hi - lo + 1)
unfolding bits
bits-eq value hi lo = bit_and_low (hi - lo + 1) (value / 2 ^ lo)

-- The two ways in which a product is taken apart by its second factor.
shift_down : (v r q : ℕ) → r < q → (v * q + r) / q ≡ v
shift_down v r q h =
    let e : v * q + r ≡ r + v * q = omega arith in
    rw e (add-mul-div_right r v (omega arith) ∙ omega (arith, div-eq_of_lt h))

shifted_mod : (v s q : ℕ) → 0 < q → 0 < s → v * q % (s * q) ≡ v % s * q
shifted_mod v s q hq hs =
    let e : v * q ≡ v % s * q + v / s * (s * q) =
      omega (arith, ap (λ (t : ℕ). t * q) (div-add-mod v s)) in
    rw e (
      add-mul-mod_self_right (v % s * q) (v / s) (s * q)
      ∙ mod-eq_of_lt (grind (arith, mod-lt v hs)))

ltb-scale : (a b q : ℕ) → 0 < q → ltb (a * q) (b * q) ≡ ltb a b
ltb-scale a b q hq = elim (Bool-cases (ltb a b)) [
  | inl h ↦ rw h (lt→ltb _ _ (scale_lt (ltb→lt a b h)))
  | inr h ↦ rw h (ge→ltb _ _ (scale_le (ltb→ge a b h)))
]
  where
    scale_lt : a < b → a * q < b * q
    scale_lt h = grind arith

    scale_le : b ≤ a → b * q ≤ a * q
    scale_le h = grind arith

complement_down : (s v q : ℕ) → 0 < q → v < s → (s * q - 1 - v * q) / q ≡ s - 1 - v
complement_down s v q hq hv =
    let e : s * q - 1 - v * q ≡ (s - 1 - v) * q + (q - 1) = split in
    rw e (shift_down (s - 1 - v) (q - 1) q (omega arith))
  where
    parts : s ≡ s - 1 - v + 1 + v
    parts = omega arith

    split : s * q - 1 - v * q ≡ (s - 1 - v) * q + (q - 1)
    split = omega (arith, ap (λ (t : ℕ). t * q) parts)

module _ (value n : ℕ) (hn : n < 64) where
  abbrev low : ℕ
  low = value % 2 ^ suc n

  abbrev shift : ℕ
  shift = 64 - suc n

  word-eq : 2 ^ 64 ≡ 2 ^ suc n * 2 ^ shift
  word-eq = two_pow-split (suc n) 64 hn ∙ omega arith

  field-eq : value * 2 ^ shift % 2 ^ 64 ≡ low * 2 ^ shift
  field-eq =
      rw word-eq
        (shifted_mod value (2 ^ suc n) (2 ^ shift) (two_pow-pos shift) (two_pow-pos (suc n)))

  sign_extend-low :
      sign_extend value (suc n)
      ≡ (if ltb low (2 ^ n) then pos low else negsuc (2 ^ suc n - 1 - low))
  unfolding sign_extend
  sign_extend-low = rw field-eq (
      ground (
        arith,
        half,
        ltb-scale low (2 ^ n) (2 ^ shift) (two_pow-pos shift),
        shift_down low 0 (2 ^ shift) (two_pow-pos shift),
        complement_down (2 ^ suc n) low (2 ^ shift) (two_pow-pos shift)
            (mod-lt value (two_pow-pos (suc n))),
        word-eq,
      ))
    where
      half : 2 ^ 63 ≡ 2 ^ n * 2 ^ shift
      half = omega (arith, word-eq, ap (λ (t : ℕ). t * 2 ^ shift) (two_pow-suc n))

-- For n of at most 64 bits, `sign_extend(value, n)` is the low `n` bits of `value` if they are
-- below 2^(n-1), and those bits less 2^n otherwise.
pub sign_extend-eq :
    (value n : ℕ)
    → n < 64
    → sign_extend value (suc n) ≡ (
        if ltb (value % 2 ^ suc n) (2 ^ n)
        then pos (value % 2 ^ suc n)
        else negsuc (2 ^ suc n - 1 - value % 2 ^ suc n))
sign_extend-eq value n hn = sign_extend-low value n hn

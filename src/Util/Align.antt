-- ===== src/Util/Align.antt =====
-- The alignment and bit-field helpers of macho/util/mod.rs.
pub mod Laws
use mold_macho.Prelude.{ℕ, ◌+◌, ◌-◌, ◌*◌, ◌/◌, ◌%◌, ◌^◌, bit_and, ◌==◌, leb, if◌then◌else◌}
use mold_macho.Prelude.Int.{ℤ, as_i64, asr}

-- `!(align - 1)` on 64 bits is 2^64 - 1 - (align - 1), and the sum wraps as a u64 does.
unfoldable pub align_to : ℕ → ℕ → ℕ
align_to value align =
    if align == 0
    then value
    else bit_and ((value + align + (2 ^ 64 - 1)) % 2 ^ 64) (2 ^ 64 - 1 - (align - 1))

unfoldable pub align_to_mod : ℕ → ℕ → ℕ → ℕ
align_to_mod val align modulus =
    if leb val modulus then modulus else align_to (val - modulus) align + modulus

unfoldable pub bits : ℕ → ℕ → ℕ → ℕ
bits value hi lo = bit_and (value / 2 ^ lo) (2 ^ (hi - lo + 1) - 1)

-- The cast keeps the 64-bit pattern, and the shift back copies its sign.
unfoldable pub sign_extend : ℕ → ℕ → ℤ
sign_extend value n = asr (as_i64 (value * 2 ^ (64 - n) % 2 ^ 64)) (64 - n)

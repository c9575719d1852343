-- ===== src/Prelude/Int.antt =====
-- Signed integers over the native numbers, and the operations of a machine's signed words on them.
use mold_macho.Prelude.{ℕ, ◌-◌, ◌/◌, ◌^◌, ltb, if◌then◌else◌}

-- `negsuc n` is -(n + 1).
pub data ℤ : Type 0 where
  pos : ℕ → ℤ
  negsuc : ℕ → ℤ

-- An i64 from its 64-bit pattern, and back.
abbrev pub as_i64 : ℕ → ℤ
as_i64 w = if ltb w (2 ^ 63) then pos w else negsuc (2 ^ 64 - 1 - w)

abbrev pub as_u64 : ℤ → ℕ
as_u64 (pos n) = n
as_u64 (negsuc n) = 2 ^ 64 - 1 - n

-- The arithmetic shift `x >> k` rounds towards minus infinity.
abbrev pub asr : ℤ → ℕ → ℤ
asr (pos n) k = pos (n / 2 ^ k)
asr (negsuc n) k = negsuc (n / 2 ^ k)

-- ===== src/Prelude/Words.antt =====
-- Machine words and bytes as native numbers below a power of two.
use mold_macho.Prelude.{ℕ, ◌^◌, ◌<◌}

abbrev pub IsByte : ℕ → Type 0
IsByte b = b < 256

abbrev pub IsU32 : ℕ → Type 0
IsU32 v = v < 2 ^ 32

abbrev pub IsU64 : ℕ → Type 0
IsU64 v = v < 2 ^ 64

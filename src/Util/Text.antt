-- ===== src/Util/Text.antt =====
-- is_space and trim_space of macho/util/mod.rs.
pub mod Trim
pub mod Lines
use mold_macho.Prelude.{
  ℕ, Bool, ◌∷◌, zero, ◌==◌, List, some, Option, length, suc, none, if◌then◌else◌, ◌||◌, [],
}

unfoldable pub is_space : ℕ → Bool
is_space c = c == 0x20 || c == 0x09 || c == 0x0a || c == 0x0b || c == 0x0c || c == 0x0d

-- The first loop of `trim_space`.
unfoldable pub trim_start : List ℕ → List ℕ
unfolding is_space
trim_start [] = []
trim_start (first ∷ rest) =
    let trimmed = trim_start rest in if is_space first then trimmed else first ∷ rest

-- The slice pattern `[rest @ .., last]`.
unfoldable pub split_last : List ℕ → Option (List ℕ × ℕ)
split_last [] = none
split_last (x ∷ xs) = elim (split_last xs) [ none ↦ some ([], x) | some p ↦ some (x ∷ p.0, p.1) ]

-- The second loop. A round takes a byte, so as many rounds as there are bytes, and one more, are
-- enough.
unfoldable pub trim_end : ℕ → List ℕ → Option (List ℕ)
unfolding is_space split_last
trim_end zero bytes = none
trim_end (suc fuel) bytes = elim (split_last bytes) [
  | none ↦ some bytes
  | some p ↦ let trimmed = trim_end fuel p.0 in if is_space p.1 then trimmed else some bytes
]

unfoldable pub trim_space : List ℕ → Option (List ℕ)
unfolding trim_start trim_end
trim_space bytes = trim_end (suc (length bytes)) (trim_start bytes)

-- ===== src/Util/Words.antt =====
-- The little-endian reads and appends of macho/util/mod.rs, and a u64's arithmetic.
use mold_macho.Prelude.{
  ℕ, length, ◌%◌, leb, refl, arith, [], ◌≡◌, ◌^◌, zero, ◌++◌, ◌-◌, bit_or, none, some, ap, ◌<◌,
  if◌then◌else◌, length-append, ◌*◌, ◌∷◌, Option, List, take, suc, ◌+◌, ◌/◌, sym,
}
use native.Mathlib.Nat.{mod-eq_of_lt, div-add-mod, div-div-eq-div-mul}

-- `u64::from_le_bytes` and its like, on any number of bytes.
unfoldable pub from_le_bytes : List ℕ → ℕ
from_le_bytes [] = 0
from_le_bytes (b ∷ bytes) = b + 256 * from_le_bytes bytes

unfoldable pub to_le_bytes : ℕ → ℕ → List ℕ
to_le_bytes zero v = []
to_le_bytes (suc n) v = (v % 256) ∷ to_le_bytes n (v / 256)

unfoldable pub push16 : List ℕ → ℕ → List ℕ
unfolding to_le_bytes
push16 buf val = buf ++ to_le_bytes 2 val

unfoldable pub push32 : List ℕ → ℕ → List ℕ
unfolding to_le_bytes
push32 buf val = buf ++ to_le_bytes 4 val

unfoldable pub push64 : List ℕ → ℕ → List ℕ
unfolding to_le_bytes
push64 buf val = buf ++ to_le_bytes 8 val

-- `none` is the panic of a slice that is too short.
unfoldable pub read_le : ℕ → List ℕ → Option ℕ
read_le n loc = if leb n (length loc) then some (from_le_bytes (take n loc)) else none

unfoldable pub read16 : List ℕ → Option ℕ
unfolding read_le from_le_bytes
read16 loc = read_le 2 loc

unfoldable pub read32 : List ℕ → Option ℕ
unfolding read_le from_le_bytes
read32 loc = read_le 4 loc

unfoldable pub read64 : List ℕ → Option ℕ
unfolding read_le from_le_bytes
read64 loc = read_le 8 loc

abbrev pub wrapping_add : ℕ → ℕ → ℕ
wrapping_add a b = (a + b) % 2 ^ 64

abbrev pub rotate_left : ℕ → ℕ → ℕ
rotate_left x k = bit_or (x * 2 ^ k % 2 ^ 64) (x / 2 ^ (64 - k))

pub length-to_le_bytes : (n v : ℕ) → length (to_le_bytes n v) ≡ n
unfolding to_le_bytes
length-to_le_bytes zero v = refl
length-to_le_bytes (suc n) v = ap suc (length-to_le_bytes n (v / 256))

div-by_byte : (p x : ℕ) → x / (256 * p) ≡ x / 256 / p
div-by_byte p x = sym (div-div-eq-div-mul x 256 p)

mod-by_byte : (p x : ℕ) → x % (256 * p) ≡ x / 256 % p * 256 + x % 256
mod-by_byte p x = omega (
  arith,
  ap (λ (t : ℕ). p * t) (div-by_byte p x),
  div-add-mod x (256 * p),
  div-add-mod (x / 256) p,
)

pow-suc_byte : (n : ℕ) → 256 ^ suc n ≡ 256 * 256 ^ n
pow-suc_byte n = omega arith

pub from_le_bytes-to_le_bytes : (n v : ℕ) → from_le_bytes (to_le_bytes n v) ≡ v % 256 ^ n
unfolding from_le_bytes to_le_bytes
from_le_bytes-to_le_bytes zero v = omega arith
from_le_bytes-to_le_bytes (suc n) v =
    rw (pow-suc_byte n, mod-by_byte (256 ^ n) v, from_le_bytes-to_le_bytes n (v / 256))
      (omega arith)

pub take-append {ℓ} : {A : Type ℓ} (xs ys : List A) (n : ℕ) → length xs ≡ n → take n (xs ++ ys) ≡ xs
take-append [] ys n e = rw (← e) refl
take-append (x ∷ xs) ys zero e = absurd (omega arith)
take-append (x ∷ xs) ys (suc n) e = ap (λ l. x ∷ l) (take-append xs ys n (omega arith))

read_le-to_le_bytes :
    (n v : ℕ) (rest : List ℕ) → v < 256 ^ n → read_le n (to_le_bytes n v ++ rest) ≡ some v
unfolding read_le
read_le-to_le_bytes n v rest h = ground (
  arith,
  length-append (to_le_bytes n v) rest,
  length-to_le_bytes n v,
  take-append (to_le_bytes n v) rest n (length-to_le_bytes n v),
  from_le_bytes-to_le_bytes n v,
  mod-eq_of_lt h,
)

-- Each read gives back the integer of the same width that a push appended to an empty buffer,
-- whatever follows it.
pub read-push :
    (v : ℕ) (rest : List ℕ)
    → (v < 2 ^ 16 → read16 (push16 [] v ++ rest) ≡ some v)
      × (v < 2 ^ 32 → read32 (push32 [] v ++ rest) ≡ some v)
      × (v < 2 ^ 64 → read64 (push64 [] v ++ rest) ≡ some v)
unfolding read16 read32 read64 push16 push32 push64
read-push v rest =
    (read_le-to_le_bytes 2 v rest, read_le-to_le_bytes 4 v rest, read_le-to_le_bytes 8 v rest)

-- ===== src/Util/Leb/Unsigned.antt =====
-- Reading an unsigned LEB128 number back: the round trip with each writer, and sizes.
use mold_macho.Prelude.{
  ℕ, zero, suc, ◌+◌, ◌*◌, ◌/◌, ◌%◌, ◌^◌, ◌≤◌, ◌<◌, ◌≡◌, bit_and, ltb, Bool-cases, inl, inr, ltb→lt,
  ltb→ge, leb, if◌then◌else◌, List, [], ◌∷◌, ◌++◌, length, drop, none, some, arith, ap, ◌∙◌, refl,
}
use mold_macho.Prelude.Bits.{bit_and_high, bit_or_disjoint, two_pow-add, exponent-lt}
use mold_macho.Prelude.Words.{IsU64}
use mold_macho.Util.Leb.{encode_uleb, uleb_size, write_uleb, add_group, read_uleb_loop, read_uleb}
use mold_macho.Util.Leb.Encoding.{
  groups, low_group, encode_uleb-groups, uleb_size-groups, write_uleb-groups,
}
use native.Mathlib.Nat.{div-add-mod, mod-lt, mod-eq_of_lt}

pub top_bit : (b : ℕ) → b < 256 → bit_and b 0x80 ≡ b / 128 * 128
top_bit b h = bit_and_high 7 1 b (omega arith)

-- A group joins the value read so far, which ends below it, as long as the sum is a u64.
pub add_group-eq :
    (value b g shift : ℕ)
    → b % 128 ≡ g
    → shift < 64
    → value < 2 ^ shift
    → IsU64 (value + g * 2 ^ shift)
    → add_group value b shift ≡ value + g * 2 ^ shift
unfolding add_group
add_group-eq value b g shift e hs hv fits = ground (
  arith,
  low_group b ∙ e,
  mod-eq_of_lt {n = g * 2 ^ shift} {m = 2 ^ 64} (omega arith),
  bit_or_disjoint shift value g hv,
)

module _ (g value shift : ℕ) (rest : List ℕ) (hg : g < 128) (hs : shift < 64)
    (hv : value < 2 ^ shift) (fits : IsU64 (value + g * 2 ^ shift)) where
  last_read : read_uleb_loop (g ∷ rest) value shift ≡ some (value + g * 2 ^ shift, rest)
  unfolding read_uleb_loop
  last_read = rw (add_group-eq value g g shift (omega arith) hs hv fits) (ground (arith, top_bit g))

  next_read :
      read_uleb_loop ((g + 128) ∷ rest) value shift
      ≡ read_uleb_loop rest (value + g * 2 ^ shift) (shift + 7)
  unfolding read_uleb_loop
  next_read =
      rw (add_group-eq value (g + 128) g shift (omega arith) hs hv fits)
        (ground (arith, top_bit (g + 128)))

-- What a round of the reader does to the value read and the shift.
module _ (w value shift : ℕ) (big : 128 ≤ w) (hv : value < 2 ^ shift)
    (fits : IsU64 (value + w * 2 ^ shift)) where
  split_word : w * 2 ^ shift ≡ w % 128 * 2 ^ shift + w / 128 * 2 ^ (shift + 7)
  split_word = omega (
    arith,
    ap (λ (t : ℕ). t * 2 ^ shift) (div-add-mod w 128),
    ap (λ (t : ℕ). w / 128 * t) (two_pow-add shift 7),
  )

  total : value + w % 128 * 2 ^ shift + w / 128 * 2 ^ (shift + 7) ≡ value + w * 2 ^ shift
  total = omega (arith, split_word)

  value_below : value + w % 128 * 2 ^ shift < 2 ^ (shift + 7)
  value_below = rw (two_pow-add shift 7) (grind (arith, mod-lt w {m = 128} (omega arith)))

  shift_below : shift + 7 < 64
  shift_below = exponent-lt (shift + 7) 64 (omega (arith, at_least, total))
    where
      at_least : 2 ^ (shift + 7) ≤ w / 128 * 2 ^ (shift + 7)
      at_least = grind arith

read_uleb_loop-groups :
    (k w value shift : ℕ) (rest : List ℕ)
    → w < 128 ^ suc k
    → shift < 64
    → value < 2 ^ shift
    → IsU64 (value + w * 2 ^ shift)
    → read_uleb_loop (groups k w ++ rest) value shift ≡ some (value + w * 2 ^ shift, rest)
unfolding groups
read_uleb_loop-groups zero w value shift rest h hs hv fits =
    last_read w value shift rest h hs hv fits
read_uleb_loop-groups (suc k) w value shift rest h hs hv fits = elim (Bool-cases (ltb w 128)) [
  | inl small ↦ rw small (last_read w value shift rest (ltb→lt _ _ small) hs hv fits)
  | inr large ↦
      let big = ltb→ge w 128 large in
      let sum = total w value shift big hv fits in
      rw large (
        next_read (w % 128) value shift (groups k (w / 128) ++ rest) (omega arith) hs hv
          (omega (arith, sum))
        ∙ read_uleb_loop-groups k (w / 128) (value + w % 128 * 2 ^ shift) (shift + 7) rest
            (omega arith) (shift_below w value shift big hv fits)
            (value_below w value shift big hv fits) (omega (arith, sum))
        ∙ ap (λ (v : ℕ). some (v, rest)) sum)
]

read_uleb-groups :
    (value : ℕ) (rest : List ℕ)
    → IsU64 value
    → read_uleb (groups 9 value ++ rest) ≡ some (value, rest)
unfolding read_uleb
read_uleb-groups value rest h =
    read_uleb_loop-groups 9 value 0 0 rest (omega arith) (omega arith) (omega arith) (omega arith)
    ∙ ap (λ (v : ℕ). some (v, rest)) (omega arith)

-- `read_uleb` reads back the u64 that `encode_uleb` appended to an empty buffer, and advances
-- past it, whatever bytes follow.
pub read_uleb-encode_uleb :
    (value : ℕ) (rest : List ℕ)
    → IsU64 value
    → read_uleb (encode_uleb [] value ++ rest) ≡ some (value, rest)
read_uleb-encode_uleb value rest h =
    rw (encode_uleb-groups 9 [] value (omega arith)) (read_uleb-groups value rest h)

-- `write_uleb` and `encode_uleb` write the same bytes, and `uleb_size` counts them: on a buffer with
-- room `write_uleb` overwrites just that many bytes, and on a shorter one it panics.
pub write_uleb-encode_uleb :
    (buf : List ℕ) (value : ℕ)
    → IsU64 value
    → (length (encode_uleb [] value) ≡ uleb_size value)
      × (write_uleb buf value ≡ (
          if leb (uleb_size value) (length buf)
          then some (encode_uleb [] value ++ drop (uleb_size value) buf, uleb_size value)
          else none))
write_uleb-encode_uleb buf value h =
    rw
      (
        encode_uleb-groups 9 [] value (omega arith),
        uleb_size-groups 9 value (omega arith),
        write_uleb-groups buf value (omega arith),
      )
      (refl, ground arith)

-- ===== src/Util/Leb.antt =====
-- The unsigned and signed LEB128 functions of macho/util/mod.rs, and the reader of
-- macho/dwarf.rs. A byte buffer is a list of numbers, and `none` stands for a panic.
pub mod Unsigned
pub mod SignedEncoding
pub mod Signed
pub mod Encoding
use mathlib.Core.Logic.{dite}
use mathlib.Core.WellFounded.{Acc}
use mold_macho.Prelude.{
  ℕ, zero, suc, ◌+◌, ◌-◌, ◌*◌, ◌/◌, ◌%◌, ◌^◌, ◌≤◌, ◌<◌, bit_and, bit_or, Bool, true, false, not,
  ◌&&◌, ◌||◌, ◌==◌, ltb, leb, if◌then◌else◌, Option, none, some, List, [], ◌∷◌, ◌++◌, length, set,
  dec_lt, dec_le, arith,
}
use mold_macho.Prelude.Int.{ℤ, pos, negsuc, asr, as_u64, as_i64}
use mold_macho.Prelude.Order.{lt_wf}

drops : (value : ℕ) → 0 < value / 2 ^ 7 → value / 2 ^ 7 < value
drops value h = omega arith

-- The loop ends as the value falls at each shift.
encode_uleb_loop : List ℕ → (value : ℕ) → Acc ◌<◌ value → List ℕ
encode_uleb_loop out value (Acc.intro _ smaller) =
    let byte = bit_and value 0x7f in
    dite (dec_lt 0 (value / 2 ^ 7))
      (λ more.
        encode_uleb_loop (out ++ bit_or byte 0x80 ∷ []) (value / 2 ^ 7)
          (smaller _ (drops value more)))
      (λ _. out ++ byte ∷ [])

unfoldable pub encode_uleb : List ℕ → ℕ → List ℕ
unfolding encode_uleb_loop lt_wf dec_lt drops
encode_uleb out value = encode_uleb_loop out value (lt_wf.apply value)

-- `write_uleb(buf, value)`, which overwrites bytes of `buf`; `none` is a write out of bounds.
-- A round takes seven bits of a u64, so ten rounds are enough.
write_uleb_loop : ℕ → List ℕ → ℕ → ℕ → Option (List ℕ × ℕ)
write_uleb_loop zero buf i value = none
write_uleb_loop (suc fuel) buf i value =
    let low = bit_and value 0x7f in
    let value' = value / 2 ^ 7 in
    let byte = if value' == 0 then low else bit_or low 0x80 in
    let buf' = set buf i byte in
    let more = write_uleb_loop fuel buf' (i + 1) value' in
    if ltb i (length buf) then (if value' == 0 then some (buf', i + 1) else more) else none

unfoldable pub write_uleb : List ℕ → ℕ → Option (List ℕ × ℕ)
unfolding write_uleb_loop
write_uleb buf value = write_uleb_loop 10 buf 0 value

large_drops : (value : ℕ) → 0x80 ≤ value → value / 2 ^ 7 < value
large_drops value h = omega arith

uleb_size_loop : ℕ → (value : ℕ) → Acc ◌<◌ value → ℕ
uleb_size_loop len value (Acc.intro _ smaller) =
    dite (dec_le 0x80 value)
      (λ more. uleb_size_loop (len + 1) (value / 2 ^ 7) (smaller _ (large_drops value more)))
      (λ _. len)

unfoldable pub uleb_size : ℕ → ℕ
unfolding uleb_size_loop lt_wf dec_le large_drops
uleb_size value = uleb_size_loop 1 value (lt_wf.apply value)

-- `value |= ((byte & 0x7f) as u64) << shift`, for a shift below 64.
unfoldable pub add_group : ℕ → ℕ → ℕ → ℕ
add_group value byte shift =
    if ltb shift 64 then bit_or value (bit_and byte 0x7f * 2 ^ shift % 2 ^ 64) else value

-- The value read and the bytes behind it.
unfoldable pub read_uleb_loop : List ℕ → ℕ → ℕ → Option (ℕ × List ℕ)
unfolding add_group
read_uleb_loop [] value shift = none
read_uleb_loop (byte ∷ rest) value shift =
    let value' = add_group value byte shift in
    let more = read_uleb_loop rest value' (shift + 7) in
    if bit_and byte 0x80 == 0 then some (value', rest) else more

unfoldable pub read_uleb : List ℕ → Option (ℕ × List ℕ)
unfolding read_uleb_loop
read_uleb bytes = read_uleb_loop bytes 0 0

-- `encode_sleb`: the low seven bits of a two's complement number, and the loop, whose value
-- comes to 0 or -1. A round takes seven bits of an i64, so ten rounds are enough.
abbrev pub low7 : ℤ → ℕ
low7 value = bit_and (as_u64 value) 0x7f

abbrev pub sleb_done : ℤ → Bool → Bool
sleb_done (pos n) negative = n == 0 && not negative
sleb_done (negsuc n) negative = n == 0 && negative

unfoldable pub encode_sleb_loop : ℕ → List ℕ → ℤ → Option (List ℕ)
encode_sleb_loop zero out value = none
encode_sleb_loop (suc fuel) out value =
    let byte = low7 value in
    let value' = asr value 7 in
    let negative = not (bit_and byte 0x40 == 0) in
    let more = encode_sleb_loop fuel (out ++ bit_or byte 0x80 ∷ []) value' in
    if sleb_done value' negative then some (out ++ byte ∷ []) else more

unfoldable pub encode_sleb : List ℕ → ℤ → Option (List ℕ)
unfolding encode_sleb_loop
encode_sleb out value = encode_sleb_loop 10 out value

-- `Reader::sleb` of macho/dwarf.rs. The value is kept as its 64-bit pattern.
unfoldable pub sign_bits : ℕ → ℕ → ℕ → ℕ
sign_bits val b shift =
    if ltb shift 64 && not (bit_and b 0x40 == 0) then bit_or val (2 ^ 64 - 2 ^ shift) else val

unfoldable pub sleb_loop : List ℕ → ℕ → ℕ → Option (ℤ × List ℕ)
unfolding add_group sign_bits
sleb_loop [] val shift = none
sleb_loop (b ∷ rest) val shift =
    let val' = add_group val b shift in
    let more = sleb_loop rest val' (shift + 7) in
    if bit_and b 0x80 == 0 then some (as_i64 (sign_bits val' b (shift + 7)), rest) else more

unfoldable pub sleb : List ℕ → Option (ℤ × List ℕ)
unfolding sleb_loop
sleb bytes = sleb_loop bytes 0 0

-- ===== src/Arch/Arm64.antt =====
-- Instruction immediates of macho/arch/arm64.rs, and write32 of macho/util/mod.rs. `none` is the
-- panic of a slice that is too short.
pub mod Masks
pub mod Ldst
pub mod Adrp
use mold_macho.Prelude.{
  ℕ, ◌+◌, ◌*◌, length, ◌-◌, ◌^◌, Bool, not, Option, drop, ◌==◌, none, false, bit_or, ltb, ◌++◌,
  if◌then◌else◌, bit_and, true, ◌%◌, ◌/◌, List, some, leb, ◌&&◌, ◌||◌, take, ◌∷◌, [],
}
use mold_macho.Prelude.Fallible.{◌>>=◌}
use mold_macho.Prelude.Int.{as_u64}
use mold_macho.Util.Align.{sign_extend, bits}
use mold_macho.Util.Words.{to_le_bytes, read32}

unfoldable pub write32 : List ℕ → ℕ → Option (List ℕ)
unfolding to_le_bytes
write32 loc val = if leb 4 (length loc) then some (to_le_bytes 4 val ++ drop 4 loc) else none

-- `!0xfff` on 64 bits.
unfoldable pub page : ℕ → ℕ
page val = bit_and val (2 ^ 64 - 1 - 0xfff)

unfoldable pub adrp_offset : ℕ → ℕ → ℕ
unfolding page bits
adrp_offset hi lo =
    let val = (page hi + 2 ^ 64 - page lo) % 2 ^ 64 in
    bit_or (bits val 13 12 * 2 ^ 29) (bits val 32 14 * 2 ^ 5) % 2 ^ 32

-- `!ADRP_IMM` on 32 bits.
unfoldable pub write_adrp : List ℕ → ℕ → ℕ → Option (List ℕ)
unfolding read32 write32 adrp_offset
write_adrp loc hi lo =
    read32 loc
    >>= (λ insn. write32 loc (bit_or (bit_and insn (2 ^ 32 - 1 - 0x60ff_ffe0)) (adrp_offset hi lo)))

-- The difference of the pages as an i64, from -2^32 to below 2^32.
unfoldable pub adrp_reaches : ℕ → ℕ → Bool
unfolding page
adrp_reaches hi lo =
    let delta = (page hi + 2 ^ 64 - page lo) % 2 ^ 64 in
    ltb delta (2 ^ 32) || leb (2 ^ 64 - 2 ^ 32) delta

unfoldable pub is_ldr_imm : ℕ → Bool
is_ldr_imm insn = bit_and insn 0xbfc0_0000 == 0xb940_0000

unfoldable pub is_adrp : ℕ → Bool
is_adrp insn = bit_and insn 0x9f00_0000 == 0x9000_0000

-- The page an adrp at `pc` puts in its register; `<< 12` on the i64's 64-bit pattern.
unfoldable pub adrp_page : ℕ → ℕ → ℕ
unfolding page bits sign_extend
adrp_page insn pc =
    let imm = bit_or (bits insn 30 29) (bits insn 23 5 * 2 ^ 2) in
    (page pc + as_u64 (sign_extend imm 21) * 2 ^ 12 % 2 ^ 64) % 2 ^ 64

-- `write32(&mut buf[at..], val)`.
unfoldable pub write32_at : List ℕ → ℕ → ℕ → Option (List ℕ)
unfolding write32
write32_at buf at val =
    if leb at (length buf)
    then write32 (drop at buf) val >>= (λ rest. some (take at buf ++ rest))
    else none

-- The entries of a thunk from `buf[at..]` on, for the branch targets of its symbols.
unfoldable pub write_thunk : ℕ → List ℕ → List ℕ → ℕ → Option (List ℕ)
unfolding write32_at adrp_offset bits
write_thunk addr [] buf at = some buf
write_thunk addr (target ∷ targets) buf at =
    write32_at buf at (bit_or 0x9000_0010 (adrp_offset target (addr + at))) >>= (λ buf1.
      write32_at buf1 (at + 4) (bit_or 0x9100_0210 (bits target 11 0 * 2 ^ 10 % 2 ^ 32))
      >>= (λ buf2.
          write32_at buf2 (at + 8) 0xd61f_0200
          >>= (λ buf3. write_thunk addr targets buf3 (at + 12))))

-- The binary logarithm of the access size.
unfoldable pub ldst_scale : ℕ → ℕ
unfolding bits
ldst_scale insn =
    let scale = bits insn 31 30 in
    if bit_and insn 0x3b00_0000 == 0x3900_0000
    then (if scale == 0 && bit_and insn 0x0480_0000 == 0x0480_0000 then 4 else scale)
    else 0

-- The buffer written, or the access size that does not divide the target.
pub data Written : Type 0 where
  wrote : List ℕ → Written
  misaligned : ℕ → Written

-- `(insn & !IMM12) | imm`.
unfoldable pub with_imm12 : ℕ → ℕ → ℕ
with_imm12 insn imm = bit_or (bit_and insn (2 ^ 32 - 1 - 0x003f_fc00)) imm

unfoldable pub write_add_ldst : List ℕ → ℕ → Option Written
unfolding read32 write32 ldst_scale bits with_imm12
write_add_ldst loc val = read32 loc >>= (λ insn.
    let scale = ldst_scale insn in
    let buf = write32 loc (with_imm12 insn (bits val 11 scale * 2 ^ 10 % 2 ^ 32)) in
    if ltb 0 scale && not (bit_and val (2 ^ scale - 1) == 0)
    then some (misaligned (2 ^ scale))
    else buf >>= (λ b. some (wrote b)))

pub record Add : Type 0 where
  pub rd : ℕ
  pub rn : ℕ
  pub imm : ℕ

unfoldable pub parse_add : ℕ → Option Add
unfolding bits
parse_add insn =
    if bit_and insn 0xffc0_0000 == 0x9100_0000
    then some
        (record { rd = bit_and insn 0x1f; rn = bit_and (insn / 2 ^ 5) 0x1f; imm = bits insn 21 10 })
    else none

pub record LoadStore : Type 0 where
  pub insn : ℕ
  pub reg : ℕ
  pub base : ℕ
  pub offset : ℕ
  pub size : ℕ
  pub is_store : Bool
  pub is_float : Bool
  pub is_ldrsw : Bool

-- The size and whether it is a store, by the size and opc fields: `c` is `insn & 0xc0c0_0000`.
unfoldable pub ldst_kind : ℕ → Bool → Option (ℕ × Bool)
ldst_kind c is_float =
    if c == 0
    then some (1, true)
    else if c == 0x0040_0000
    then some (1, false)
    else if c == 0x0080_0000 && is_float
    then some (16, true)
    else if c == 0x00c0_0000 && is_float
    then some (16, false)
    else if c == 0x0080_0000 || c == 0x00c0_0000
    then some (1, false)
    else if c == 0x4000_0000
    then some (2, true)
    else if c == 0x4040_0000 || (c == 0x4080_0000 || c == 0x40c0_0000)
    then some (2, false)
    else if c == 0x8000_0000
    then some (4, true)
    else if c == 0x8040_0000 || c == 0x8080_0000
    then some (4, false)
    else if c == 0xc000_0000
    then some (8, true)
    else if c == 0xc040_0000
    then some (8, false)
    else none

unfoldable pub parse_ldst : ℕ → Option LoadStore
unfolding ldst_kind bits
parse_ldst insn =
    let is_float = not (bit_and insn 0x0400_0000 == 0) in
    let parsed = ldst_kind (bit_and insn 0xc0c0_0000) is_float >>= (λ (size, is_store).
      some (record {
        insn = insn;
        reg = bit_and insn 0x1f;
        base = bit_and (insn / 2 ^ 5) 0x1f;
        offset = bits insn 21 10 * size;
        size = size;
        is_store = is_store;
        is_float = is_float;
        is_ldrsw = bit_and insn 0xc0c0_0000 == 0x8080_0000;
      })) in
    if bit_and insn 0x3b00_0000 == 0x3900_0000 then parsed else none

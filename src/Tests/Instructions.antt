-- ===== src/Tests/Instructions.antt =====
-- Runs of the definitions of Arch, and its theorems at concrete inputs.
use mold_macho.Arch.Arm64.{
  misaligned, wrote, page, ldst_kind, write_add_ldst, adrp_reaches, write_adrp, is_adrp, parse_ldst,
  adrp_page, LoadStore,
}
use mold_macho.Arch.Arm64.Adrp.{write_adrp-adrp_page}
use mold_macho.Arch.Arm64.Ldst.{write_add_ldst-parse_ldst}
use mold_macho.Prelude.{ℕ, List, [], ◌∷◌, some, true, refl, arith, ◌≡◌, ◌%◌, ◌^◌, ◌≢◌, false}
use mold_macho.Util.Align.{bits}
use mold_macho.Util.Words.{read32}

-- `ldr x0, [x1]`.
abbrev ldr_bytes : List ℕ
ldr_bytes = 0x20 ∷ 0x00 ∷ 0x40 ∷ 0xf9 ∷ []

abbrev ldr : LoadStore
ldr = record {
  insn = 0xf940_0020;
  reg = 0;
  base = 1;
  offset = 0;
  size = 8;
  is_store = false;
  is_float = false;
  is_ldrsw = false;
}

ldr-read : read32 ldr_bytes ≡ some 0xf940_0020
unfolding read32
ldr-read = refl

ldr-parsed : parse_ldst 0xf940_0020 ≡ some ldr
unfolding parse_ldst ldst_kind bits
ldr-parsed = refl

write_add_ldst-parse_ldst_example :
    (0x1008 % 8 ≢ 0 → write_add_ldst ldr_bytes 0x1008 ≡ some (misaligned 8))
    × (0x1008 % 8 ≡ 0
        → (buf : List ℕ) × (insn' : ℕ) × (write_add_ldst ldr_bytes 0x1008 ≡ some (wrote buf))
          × (read32 buf ≡ some insn')
          × (parse_ldst insn' ≡ some (record ldr { insn = insn'; offset = 0x1008 % 2 ^ 12 })))
write_add_ldst-parse_ldst_example =
    write_add_ldst-parse_ldst ldr_bytes 0xf940_0020 0x1008 ldr ldr-read (omega arith) ldr-parsed

-- `adrp x0, 0`.
abbrev adrp_bytes : List ℕ
adrp_bytes = 0x00 ∷ 0x00 ∷ 0x00 ∷ 0x90 ∷ []

adrp-read : read32 adrp_bytes ≡ some 0x9000_0000
unfolding read32
adrp-read = refl

adrp-IsAdrp : is_adrp 0x9000_0000 ≡ true
unfolding is_adrp
adrp-IsAdrp = refl

adrp-reaches : adrp_reaches 0x1_0000_5010 0x1_0000_1004 ≡ true
unfolding adrp_reaches page
adrp-reaches = refl

write_adrp-adrp_page_example :
    (buf : List ℕ) × (insn' : ℕ) × (write_adrp adrp_bytes 0x1_0000_5010 0x1_0000_1004 ≡ some buf)
    × (read32 buf ≡ some insn')
    × (is_adrp insn' ≡ true)
    × (insn' % 2 ^ 5 ≡ 0x9000_0000 % 2 ^ 5)
    × (adrp_page insn' 0x1_0000_1004 ≡ page 0x1_0000_5010)
write_adrp-adrp_page_example =
    write_adrp-adrp_page adrp_bytes 0x9000_0000 0x1_0000_5010 0x1_0000_1004 adrp-read adrp-IsAdrp
      (omega arith) (omega arith) adrp-reaches

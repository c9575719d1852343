-- ===== src/Arch/Arm64/Ldst.antt =====
-- write_add_ldst and parse_ldst of macho/arch/arm64.rs agree on the instructions that load or store.
use mold_macho.Arch.Arm64.{
  ldst_kind, ldst_scale, LoadStore, parse_ldst, misaligned, write_add_ldst, wrote, with_imm12,
  write32,
}
use mold_macho.Arch.Arm64.Masks.{high, bit_and-high, with_imm12-eq}
use mold_macho.Chunks.Unwind.Encode.Arrays.{read_le-here}
use mold_macho.Prelude.{
  bit_and, ℕ, ◌≡◌, true, ◌==◌, ◌*◌, arith, ◌^◌, refl, some, dec_lt, none, suc, ◌||◌, Bool, ◌<◌, not,
  zero, ◌&&◌, Bool-cases, inr, ◌%◌, ◌≤◌, ◌/◌, inl, ap, sym, ◌∙◌, ap₂, List, ◌+◌, leb, ◌≢◌, length,
  ltb, false, ◌++◌, ◌-◌, drop,
}
use mold_macho.Prelude.Bits.{bit_and_low}
use mold_macho.Prelude.Fallible.{some_inj, >>=-eq-some}
use mold_macho.Util.Align.{bits}
use mold_macho.Util.Align.Laws.{bits-eq}
use mold_macho.Util.Words.{read32, to_le_bytes}
use native.Mathlib.Nat.{mod-eq_of_lt}

-- A test of each number below `n`.
abbrev all_below : ℕ → (ℕ → Bool) → Bool
all_below zero test = true
all_below (suc n) test = test n && all_below n test

all_below-at : (n : ℕ) (test : ℕ → Bool) (i : ℕ) → all_below n test ≡ true → i < n → test i ≡ true
all_below-at zero test i h lt = absurd (omega arith)
all_below-at (suc n) test i h lt = elim (dec_lt i n) [
  | yes l ↦ all_below-at n test i (ground (arith, h)) l
  | no g ↦ let same : i ≡ n = omega arith in rw same (ground (arith, h))
]

-- The scale of an instruction with the high bits `hi` is the logarithm of the size that is parsed.
unfoldable scale_fits : ℕ → Bool
unfolding ldst_kind ldst_scale
scale_fits hi =
    let insn = hi * 2 ^ 22 in
    let is_float = not (bit_and insn 0x0400_0000 == 0) in
    elim (ldst_kind (bit_and insn 0xc0c0_0000) is_float) [
      | none ↦ true
      | some (size, is_store) ↦
          not (bit_and insn 0x3b00_0000 == 0x3900_0000) || size == 2 ^ ldst_scale insn
    ]

scales_fit : all_below 1024 scale_fits ≡ true
unfolding scale_fits bits
scales_fit = refl

-- What a mask of high bits sees does not depend on the others.
same_mask :
    (m insn insn' : ℕ)
    → high insn' ≡ high insn
    → bit_and insn' (m * 2 ^ 22) ≡ bit_and insn (m * 2 ^ 22)
same_mask m insn insn' e =
    bit_and-high m insn' ∙ (ap (λ (n : ℕ). bit_and n (m * 2 ^ 22)) e ∙ sym (bit_and-high m insn))

ldst_scale-high : (insn insn' : ℕ) → high insn' ≡ high insn → ldst_scale insn' ≡ ldst_scale insn
unfolding ldst_scale
ldst_scale-high insn insn' e =
    let kind : bit_and insn' 0x3b00_0000 ≡ bit_and insn 0x3b00_0000 = same_mask 236 insn insn' e in
    let wide : bit_and insn' 0x0480_0000 ≡ bit_and insn 0x0480_0000 = same_mask 18 insn insn' e in
    let shift : insn' / 2 ^ 30 ≡ insn / 2 ^ 30 = omega arith in
    let size : bits insn' 31 30 ≡ bits insn 31 30 =
      bits-eq insn' 31 30 ∙ (ap (λ (n : ℕ). n % 4) shift ∙ sym (bits-eq insn 31 30)) in
    rw (kind, wide, size) refl

ldst_scale-le : (insn : ℕ) → ldst_scale insn ≤ 4
unfolding ldst_scale
ldst_scale-le insn = ground (arith, bits-eq insn 31 30)

-- What an instruction that is parsed as a load or store is.
parse_ldst-some :
    (insn : ℕ) (ls : LoadStore)
    → parse_ldst insn ≡ some ls
    → (bit_and insn 0x3b00_0000 == 0x3900_0000 ≡ true)
      × (ldst_kind (bit_and insn 0xc0c0_0000) ls.is_float ≡ some (ls.size, ls.is_store))
      × (ls.is_float ≡ not (bit_and insn 0x0400_0000 == 0))
      × (ls.reg ≡ bit_and insn 0x1f)
      × (ls.base ≡ bit_and (insn / 2 ^ 5) 0x1f)
      × (ls.is_ldrsw ≡ (bit_and insn 0xc0c0_0000 == 0x8080_0000))
unfolding parse_ldst
parse_ldst-some insn ls h = elim (Bool-cases (bit_and insn 0x3b00_0000 == 0x3900_0000)) [
  | inl yes_ldst ↦
      let h' = rw yes_ldst at h in
      let ((size, is_store), kind, made) =
        >>=-eq-some (ldst_kind (bit_and insn 0xc0c0_0000) (not (bit_and insn 0x0400_0000 == 0))) _
          h' in
      let same = some_inj made in
      (
        yes_ldst,
        ap (λ (l : LoadStore). ldst_kind (bit_and insn 0xc0c0_0000) l.is_float) (sym same)
            ∙ (kind ∙ ap (λ (l : LoadStore). some (l.size, l.is_store)) same),
        ap (λ (l : LoadStore). l.is_float) (sym same),
        ap (λ (l : LoadStore). l.reg) (sym same),
        ap (λ (l : LoadStore). l.base) (sym same),
        ap (λ (l : LoadStore). l.is_ldrsw) (sym same),
      )
  | inr not_ldst ↦ let h' : none ≡ some ls = rw not_ldst at h in absurd cc
]

fitted :
    (insn size : ℕ) (is_store : Bool)
    → ldst_kind (bit_and insn 0xc0c0_0000) (not (bit_and insn 0x0400_0000 == 0))
      ≡ some (size, is_store)
    → (bit_and insn 0x3b00_0000 == 0x3900_0000) ≡ true
    → elim (ldst_kind (bit_and insn 0xc0c0_0000) (not (bit_and insn 0x0400_0000 == 0)))
        as (λ k. Bool) [
          | none ↦ true
          | some (size', is_store') ↦
              not (bit_and insn 0x3b00_0000 == 0x3900_0000) || size' == 2 ^ ldst_scale insn
        ]
      ≡ true
    → size ≡ 2 ^ ldst_scale insn
fitted insn size is_store kind is_ldst fits =
    let fits' = rw (kind, is_ldst) at fits in ground (arith, fits')

-- The size that is parsed is two to the scale that the writer takes.
size-scale :
    (insn : ℕ) (ls : LoadStore)
    → insn < 2 ^ 32
    → parse_ldst insn ≡ some ls
    → ls.size ≡ 2 ^ ldst_scale insn
unfolding scale_fits
size-scale insn ls h parsed =
    let (is_ldst, kind, float, reg, base, ldrsw) = parse_ldst-some insn ls parsed in
    let fits = all_below-at 1024 scale_fits (insn / 2 ^ 22) scales_fit (omega arith) in
    let top = high insn in
    let same : high top ≡ top = omega arith in
    let kind_mask : bit_and top 0xc0c0_0000 ≡ bit_and insn 0xc0c0_0000 =
      same_mask 771 insn top same in
    let float_mask : bit_and top 0x0400_0000 ≡ bit_and insn 0x0400_0000 =
      same_mask 16 insn top same in
    let ldst_mask : bit_and top 0x3b00_0000 ≡ bit_and insn 0x3b00_0000 =
      same_mask 236 insn top same in
    let kind_top : ldst_kind (bit_and top 0xc0c0_0000) (not (bit_and top 0x0400_0000 == 0))
        ≡ some (ls.size, ls.is_store) =
      ap₂ ldst_kind kind_mask (ap (λ (n : ℕ). not (n == 0)) float_mask ∙ sym float) ∙ kind in
    let ldst_top : (bit_and top 0x3b00_0000 == 0x3900_0000) ≡ true =
      ap (λ (n : ℕ). n == 0x3900_0000) ldst_mask ∙ is_ldst in
    fitted top ls.size ls.is_store kind_top ldst_top fits
    ∙ ap (λ (n : ℕ). 2 ^ n) (ldst_scale-high insn top same)

-- The immediate that is written, and the part of the target that it stands for.
imm_offset :
    (scale val : ℕ)
    → scale ≤ 4
    → val % 2 ^ scale ≡ 0
    → (bits val 11 scale < 2 ^ 12) × (bits val 11 scale * 2 ^ scale ≡ val % 2 ^ 12)
imm_offset zero val h e = rw (bits-eq val 11 0) (omega arith, omega arith)
imm_offset (suc zero) val h e = rw (bits-eq val 11 1) (omega arith, omega arith)
imm_offset (suc (suc zero)) val h e = rw (bits-eq val 11 2) (omega arith, omega arith)
imm_offset (suc (suc (suc zero))) val h e = rw (bits-eq val 11 3) (omega arith, omega arith)
imm_offset (suc (suc (suc (suc zero)))) val h e = rw (bits-eq val 11 4) (omega arith, omega arith)
imm_offset (suc (suc (suc (suc (suc n))))) val h e = absurd (omega arith)

pub read32-some : (loc : List ℕ) (insn : ℕ) → read32 loc ≡ some insn → leb 4 (length loc) ≡ true
unfolding read32
read32-some loc insn h = elim (Bool-cases (leb 4 (length loc))) [
  | inl fits ↦ fits
  | inr short ↦ let h' : none ≡ some insn = rw short at h in absurd cc
]

-- The load or store with another offset.
with_offset : LoadStore → ℕ → ℕ → LoadStore
with_offset ls insn offset = record ls { insn = insn; offset = offset }

parse_ldst-with_imm12 :
    (insn imm offset insn' : ℕ) (ls : LoadStore)
    → insn' ≡ high insn + imm * 2 ^ 10 + insn % 2 ^ 10
    → imm < 2 ^ 12
    → imm * ls.size ≡ offset
    → parse_ldst insn ≡ some ls
    → parse_ldst insn' ≡ some (with_offset ls insn' offset)
unfolding parse_ldst with_offset
parse_ldst-with_imm12 insn imm offset insn' ls made small scaled parsed =
    let (is_ldst, kind, float, reg, base, ldrsw) = parse_ldst-some insn ls parsed in
    let same : high insn' ≡ high insn = omega arith in
    let kind_mask : bit_and insn' 0xc0c0_0000 ≡ bit_and insn 0xc0c0_0000 =
      same_mask 771 insn insn' same in
    let float_mask : bit_and insn' 0x0400_0000 ≡ bit_and insn 0x0400_0000 =
      same_mask 16 insn insn' same in
    let ldst_mask : bit_and insn' 0x3b00_0000 ≡ bit_and insn 0x3b00_0000 =
      same_mask 236 insn insn' same in
    let kind' : ldst_kind (bit_and insn 0xc0c0_0000) (not (bit_and insn 0x0400_0000 == 0))
        ≡ some (ls.size, ls.is_store) =
      ap (ldst_kind (bit_and insn 0xc0c0_0000)) (sym float) ∙ kind in
    let reg' : bit_and insn' 0x1f ≡ ls.reg =
      bit_and_low 5 insn' ∙ (omega arith ∙ (sym (bit_and_low 5 insn) ∙ sym reg)) in
    let base' : bit_and (insn' / 2 ^ 5) 0x1f ≡ ls.base =
      bit_and_low 5 (insn' / 2 ^ 5)
      ∙ (omega arith ∙ (sym (bit_and_low 5 (insn / 2 ^ 5)) ∙ sym base)) in
    let field : bits insn' 21 10 ≡ imm = bits-eq insn' 21 10 ∙ omega arith in
    let offset' : bits insn' 21 10 * ls.size ≡ offset =
      ap (λ (n : ℕ). n * ls.size) field ∙ scaled in
    rw (ldst_mask, is_ldst, kind_mask, float_mask, kind')
      (ap₂
        (λ (r : ℕ × ℕ × ℕ) (b : Bool × Bool). some (record {
          insn = insn';
          reg = r.0;
          base = r.1;
          offset = r.2;
          size = ls.size;
          is_store = ls.is_store;
          is_float = b.0;
          is_ldrsw = b.1;
        }))
        (λ i. (reg' i, base' i, offset' i)) (λ i. (sym float i, sym ldrsw i)))

unaligned :
    (scale val size : ℕ)
    → size ≡ 2 ^ scale
    → val % size ≢ 0
    → (ltb 0 scale && not (bit_and val (2 ^ scale - 1) == 0)) ≡ true
unaligned zero val size e odd = absurd (odd (rw e (omega arith)))
unaligned (suc k) val size e odd =
    let odd' : val % 2 ^ suc k ≢ 0 = λ z. odd (rw e z) in rw bit_and_low (ground (arith, odd'))

aligned :
    (scale val : ℕ)
    → val % 2 ^ scale ≡ 0
    → (ltb 0 scale && not (bit_and val (2 ^ scale - 1) == 0)) ≡ false
aligned zero val e = refl
aligned (suc k) val e = rw (bit_and_low (suc k) val, e) (ground arith)

-- Of a load or store that parse_ldst takes apart: if its access size does not divide the target,
-- write_add_ldst gives that size as the error, and nothing is written; if it does, the instruction
-- is written, and parse_ldst finds the same access in it but for the offset, which is the target's
-- place in its 4 KiB page.
pub write_add_ldst-parse_ldst :
    (loc : List ℕ) (insn val : ℕ) (ls : LoadStore)
    → read32 loc ≡ some insn
    → insn < 2 ^ 32
    → parse_ldst insn ≡ some ls
    → (val % ls.size ≢ 0 → write_add_ldst loc val ≡ some (misaligned ls.size))
      × (val % ls.size ≡ 0
          → (buf : List ℕ) × (insn' : ℕ) × (write_add_ldst loc val ≡ some (wrote buf))
            × (read32 buf ≡ some insn')
            × (parse_ldst insn' ≡ some (record ls { insn = insn'; offset = val % 2 ^ 12 })))
unfolding write_add_ldst
write_add_ldst-parse_ldst loc insn val ls read h parsed =
    let scale = ldst_scale insn in
    let size = size-scale insn ls h parsed in
    let fits = read32-some loc insn read in
    (
      (λ odd.
          rw (read, unaligned scale val ls.size size odd)
            (ap (λ (n : ℕ). some (misaligned n)) (sym size))),
      (λ even.
          let even' : val % 2 ^ scale ≡ 0 = ap (λ (n : ℕ). val % n) (sym size) ∙ even in
          let imm = bits val 11 scale in
          let (small, scaled) = imm_offset scale val (ldst_scale-le insn) even' in
          let insn' = with_imm12 insn (imm * 2 ^ 10 % 2 ^ 32) in
          let made = with_imm12-eq insn imm h small in
          let word : insn' % 256 ^ 4 ≡ insn' = mod-eq_of_lt (omega (arith, made)) in
          let buf = to_le_bytes 4 insn' ++ drop 4 loc in
          let wrote_it : write32 loc insn' ≡ some buf = unfold write32 in rw fits refl in
          (
            buf,
            insn',
            rw (read, aligned scale val even', wrote_it) refl,
            unfold read32 in read_le-here 4 insn' (drop 4 loc) ∙ ap some word,
            unfold with_offset in
                parse_ldst-with_imm12 insn imm (val % 2 ^ 12) insn' ls made small
                  (ap (λ (n : ℕ). imm * n) size ∙ scaled) parsed,
          )),
    )

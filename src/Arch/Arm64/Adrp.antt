-- ===== src/Arch/Arm64/Adrp.antt =====
-- write_adrp and adrp_page of macho/arch/arm64.rs: the page that an adrp is made to reach is the one
-- it puts in its register.
use mold_macho.Arch.Arm64.{adrp_offset, page, adrp_page, is_adrp, write32, write_adrp, adrp_reaches}
use mold_macho.Arch.Arm64.Ldst.{read32-some}
use mold_macho.Arch.Arm64.Masks.{split_and, split_or, bit_and_shifted}
use mold_macho.Chunks.Unwind.Encode.Arrays.{read_le-here}
use mold_macho.Prelude.{
  ◌<◌, zero, bit_or, arith, bit_and, ◌≡◌, ◌-◌, ◌*◌, ◌^◌, ap, ap₂, ◌%◌, ◌+◌, refl, ◌/◌, suc, ℕ, true,
  ◌∙◌, some, ltb, ◌≤◌, List, ◌||◌, inr, ◌++◌, Bool-cases, leb, inl, drop,
}
use mold_macho.Prelude.Bits.{bit_and_high, bit_or_disjoint, bit_and_low}
use mold_macho.Prelude.Int.{as_u64, ℤ, pos, negsuc}
use mold_macho.Util.Align.{bits, sign_extend}
use mold_macho.Util.Align.Laws.{bits-eq, sign_extend-eq}
use mold_macho.Util.Words.{read32, to_le_bytes}
use native.Mathlib.Nat.{mod-eq_of_lt}

page-eq : (x : ℕ) → x < 2 ^ 64 → page x ≡ x / 2 ^ 12 * 2 ^ 12
unfolding page
page-eq x h = bit_and_high 12 52 x (omega arith)

or_zero : (x : ℕ) → x < 2 ^ 64 → bit_or x 0 ≡ x
or_zero x h = bit_or_disjoint 64 x 0 h ∙ omega arith

zero_or : (x : ℕ) → bit_or 0 x ≡ x
zero_or x =
    let e : x ≡ x * 2 ^ 0 = omega arith in
    ap (bit_or 0) e ∙ (bit_or_disjoint 0 0 x (omega arith) ∙ omega arith)

abbrev delta : ℕ → ℕ → ℕ
delta hi lo = (page hi + 2 ^ 64 - page lo) % 2 ^ 64

-- The fields of an adrp's immediate, high and low.
fields_or :
    (a b : ℕ) → a < 4 → b < 2 ^ 19 → bit_or (a * 2 ^ 29) (b * 2 ^ 5) ≡ a * 2 ^ 29 + b * 2 ^ 5
fields_or a b ha hb =
    let e : a * 2 ^ 29 / 2 ^ 24 ≡ a * 32 = omega arith in
    let f : b * 2 ^ 5 / 2 ^ 24 ≡ 0 = omega arith in
    let g : a * 2 ^ 29 % 2 ^ 24 ≡ 0 = omega arith in
    let k : b * 2 ^ 5 % 2 ^ 24 ≡ b * 2 ^ 5 = omega arith in
    split_or 24 (a * 2 ^ 29) (b * 2 ^ 5)
    ∙ ap₂ (λ (m n : ℕ). m * 2 ^ 24 + n) (ap₂ bit_or e f ∙ or_zero (a * 32) (omega arith))
        (ap₂ bit_or g k ∙ zero_or (b * 2 ^ 5))
    ∙ omega arith

adrp_offset-eq :
    (hi lo : ℕ)
    → adrp_offset hi lo ≡ delta hi lo / 2 ^ 12 % 4 * 2 ^ 29 + delta hi lo / 2 ^ 14 % 2 ^ 19 * 2 ^ 5
unfolding adrp_offset
adrp_offset-eq hi lo =
    let val = delta hi lo in
    let a = val / 2 ^ 12 % 4 in
    let b = val / 2 ^ 14 % 2 ^ 19 in
    ap₂ (λ (m n : ℕ). bit_or (m * 2 ^ 29) (n * 2 ^ 5) % 2 ^ 32) (bits-eq val 13 12)
      (bits-eq val 32 14)
    ∙ (ap (λ (n : ℕ). n % 2 ^ 32) (fields_or a b (omega arith) (omega arith))
        ∙ mod-eq_of_lt (omega arith))

top_or : (a : ℕ) → a < 4 → bit_or 0x90 (a * 32) ≡ 0x90 + a * 32
top_or zero h = refl
top_or (suc zero) h = refl
top_or (suc (suc zero)) h = refl
top_or (suc (suc (suc zero))) h = refl
top_or (suc (suc (suc (suc n)))) h = absurd (omega arith)

top_and : (a : ℕ) → a < 4 → bit_and (0x90 + a * 32) 0x9f ≡ 0x90
top_and zero h = refl
top_and (suc zero) h = refl
top_and (suc (suc zero)) h = refl
top_and (suc (suc (suc zero))) h = refl
top_and (suc (suc (suc (suc n)))) h = absurd (omega arith)

adrp_top : (insn : ℕ) → is_adrp insn ≡ true → bit_and (insn / 2 ^ 24) 0x9f ≡ 0x90
unfolding is_adrp
adrp_top insn adrp =
    let same : bit_and insn 0x9f00_0000 ≡ 0x9000_0000 = ground (arith, adrp) in
    omega (arith, bit_and_shifted 24 0x9f insn, same)

-- An adrp with another immediate.
adrp_word :
    (insn a b : ℕ)
    → is_adrp insn ≡ true
    → a < 4
    → b < 2 ^ 19
    → bit_or (bit_and insn (2 ^ 32 - 1 - 0x60ff_ffe0)) (a * 2 ^ 29 + b * 2 ^ 5)
      ≡ (0x90 + a * 32) * 2 ^ 24 + (insn % 2 ^ 5 + b * 2 ^ 5)
adrp_word insn a b adrp ha hb =
    let r = insn % 2 ^ 5 in
    let kept : bit_and insn 0x9f00_001f ≡ 0x90 * 2 ^ 24 + r =
      split_and 24 insn 0x9f00_001f
      ∙ ap₂ (λ (m n : ℕ). m * 2 ^ 24 + n) (adrp_top insn adrp)
          (bit_and_low 5 (insn % 2 ^ 24) ∙ omega arith) in
    let imm = a * 2 ^ 29 + b * 2 ^ 5 in
    let e : (0x90 * 2 ^ 24 + r) / 2 ^ 24 ≡ 0x90 = omega arith in
    let f : imm / 2 ^ 24 ≡ a * 32 = omega arith in
    let g : (0x90 * 2 ^ 24 + r) % 2 ^ 24 ≡ r = omega arith in
    let k : imm % 2 ^ 24 ≡ b * 2 ^ 5 = omega arith in
    ap (λ (n : ℕ). bit_or n imm) kept
    ∙ (split_or 24 (0x90 * 2 ^ 24 + r) imm
        ∙ ap₂ (λ (m n : ℕ). m * 2 ^ 24 + n) (ap₂ bit_or e f ∙ top_or a ha)
            (ap₂ bit_or g k ∙ bit_or_disjoint 5 r b (omega arith)))

-- The page that an adrp with these fields gives.
adrp_page-fields :
    (insn a b r pc : ℕ)
    → insn ≡ (0x90 + a * 32) * 2 ^ 24 + (r + b * 2 ^ 5)
    → a < 4
    → b < 2 ^ 19
    → r < 2 ^ 5
    → adrp_page insn pc ≡ (page pc + as_u64 (sign_extend (a + b * 4) 21) * 2 ^ 12 % 2 ^ 64) % 2 ^ 64
unfolding adrp_page
adrp_page-fields insn a b r pc e ha hb hr =
    let low : bits insn 30 29 ≡ a = bits-eq insn 30 29 ∙ omega arith in
    let mid : bits insn 23 5 ≡ b = bits-eq insn 23 5 ∙ omega arith in
    let imm : bit_or (bits insn 30 29) (bits insn 23 5 * 2 ^ 2) ≡ a + b * 4 =
      ap₂ (λ (m n : ℕ). bit_or m (n * 2 ^ 2)) low mid ∙ bit_or_disjoint 2 a b ha in
    ap (λ (n : ℕ). (page pc + as_u64 (sign_extend n 21) * 2 ^ 12 % 2 ^ 64) % 2 ^ 64) imm

-- The signed immediate, as pages, is the difference of the pages.
page_reached :
    (val n : ℕ)
    → val < 2 ^ 64
    → val ≡ val / 2 ^ 12 * 2 ^ 12
    → n ≡ val / 2 ^ 12 % 2 ^ 21
    → (ltb val (2 ^ 32) || leb (2 ^ 64 - 2 ^ 32) val) ≡ true
    → as_u64 (sign_extend n 21) * 2 ^ 12 % 2 ^ 64 ≡ val
page_reached val n small whole e reach =
    let same : n % 2 ^ 21 ≡ n = omega arith in
    let signed = sign_extend-eq n 20 (omega arith) in
    elim (Bool-cases (ltb (n % 2 ^ 21) (2 ^ 20))) [
      | inl low ↦
          let up : val < 2 ^ 32 = ground (arith, reach, low) in
          let s : sign_extend n 21 ≡ pos (n % 2 ^ 21) = signed ∙ rw low refl in
          ap (λ (z : ℤ). as_u64 z * 2 ^ 12 % 2 ^ 64) s ∙ omega arith
      | inr high_bit ↦
          let down : 2 ^ 64 - 2 ^ 32 ≤ val = ground (arith, reach, high_bit) in
          let s : sign_extend n 21 ≡ negsuc (2 ^ 21 - 1 - n % 2 ^ 21) = signed ∙ rw high_bit refl in
          ap (λ (z : ℤ). as_u64 z * 2 ^ 12 % 2 ^ 64) s ∙ omega arith
    ]

whole_pages : (hi lo : ℕ) → hi < 2 ^ 64 → lo < 2 ^ 64 → delta hi lo ≡ delta hi lo / 2 ^ 12 * 2 ^ 12
whole_pages hi lo h k = rw (page-eq hi h, page-eq lo k) (omega arith)

back_again : (hi lo : ℕ) → hi < 2 ^ 64 → lo < 2 ^ 64 → (page lo + delta hi lo) % 2 ^ 64 ≡ page hi
back_again hi lo h k = rw (page-eq hi h, page-eq lo k) (omega arith)

-- If the page of `hi` is in reach of the adrp at `lo`, write_adrp leaves an adrp to the same
-- register, and adrp_page reads the page of `hi` from it.
pub write_adrp-adrp_page :
    (loc : List ℕ) (insn hi lo : ℕ)
    → read32 loc ≡ some insn
    → is_adrp insn ≡ true
    → hi < 2 ^ 64
    → lo < 2 ^ 64
    → adrp_reaches hi lo ≡ true
    → (buf : List ℕ) × (insn' : ℕ) × (write_adrp loc hi lo ≡ some buf)
      × (read32 buf ≡ some insn')
      × (is_adrp insn' ≡ true)
      × (insn' % 2 ^ 5 ≡ insn % 2 ^ 5)
      × (adrp_page insn' lo ≡ page hi)
unfolding write_adrp adrp_reaches
write_adrp-adrp_page loc insn hi lo read adrp h k reach =
    let val = delta hi lo in
    let a = val / 2 ^ 12 % 4 in
    let b = val / 2 ^ 14 % 2 ^ 19 in
    let r = insn % 2 ^ 5 in
    let insn' = bit_or (bit_and insn (2 ^ 32 - 1 - 0x60ff_ffe0)) (adrp_offset hi lo) in
    let word : insn' ≡ (0x90 + a * 32) * 2 ^ 24 + (r + b * 2 ^ 5) =
      ap (bit_or (bit_and insn (2 ^ 32 - 1 - 0x60ff_ffe0))) (adrp_offset-eq hi lo)
      ∙ adrp_word insn a b adrp (omega arith) (omega arith) in
    let fits = read32-some loc insn read in
    let buf = to_le_bytes 4 insn' ++ drop 4 loc in
    let wrote_it : write32 loc insn' ≡ some buf = unfold write32 in rw fits refl in
    let small : insn' % 256 ^ 4 ≡ insn' = mod-eq_of_lt (omega (arith, word)) in
    let top : insn' / 2 ^ 24 ≡ 0x90 + a * 32 = omega (arith, word) in
    let opcode : bit_and insn' 0x9f00_0000 ≡ 0x9000_0000 =
      bit_and_shifted 24 0x9f insn'
      ∙ ap (λ (n : ℕ). n * 2 ^ 24) (ap (λ (n : ℕ). bit_and n 0x9f) top ∙ top_and a (omega arith)) in
    let pages : val ≡ val / 2 ^ 12 * 2 ^ 12 = whole_pages hi lo h k in
    (
      buf,
      insn',
      rw read wrote_it,
      unfold read32 in read_le-here 4 insn' (drop 4 loc) ∙ ap some small,
      unfold is_adrp in rw opcode refl,
      omega (arith, word),
      adrp_page-fields insn' a b r lo word (omega arith) (omega arith) (omega arith)
          ∙ (ap (λ (n : ℕ). (page lo + n) % 2 ^ 64)
                (page_reached val (a + b * 4) (omega arith) pages (omega arith) reach)
              ∙ back_again hi lo h k),
    )

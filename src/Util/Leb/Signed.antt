-- ===== src/Util/Leb/Signed.antt =====
-- Signed LEB128: `encode_sleb` of macho/util/mod.rs is read back by `Reader::sleb` of
-- macho/dwarf.rs, for every i64.
use mold_macho.Prelude.{
  ◌^◌, ◌≡◌, List, ◌%◌, ℕ, ltb→lt, arith, inr, refl, Bool, ◌+◌, inl, ap, ◌∷◌, some, suc, ltb, ltb→ge,
  ◌/◌, ◌++◌, zero, ◌∙◌, ◌*◌, [], dec_lt, ◌≤◌, ◌<◌, ◌-◌, false, true, Bool-cases,
}
use mold_macho.Prelude.Bits.{
  two_pow-split, bit_or_disjoint, two_pow-add, two_pow-pos, exponent-lt, minus_one,
}
use mold_macho.Prelude.Int.{ℤ, as_i64, pos, negsuc}
use mold_macho.Util.Leb.{sleb_loop, add_group, sign_bits, encode_sleb, sleb}
use mold_macho.Util.Leb.Encoding.{low_group}
use mold_macho.Util.Leb.SignedEncoding.{
  signed_groups, sign_bit, digit, signed, encode_sleb_loop-groups,
}
use mold_macho.Util.Leb.Unsigned.{add_group-eq, top_bit}
use native.Mathlib.Nat.{pow-le-pow_right, pow-suc, div-add-mod, mod-lt}

-- The part of the value that the bytes before bit `s` hold: the low bits, or their complement.
abbrev prefix : Bool → ℕ → ℕ → ℕ
prefix true s low = 2 ^ s - 1 - low
prefix false s low = low

prefix-lt : (neg : Bool) (s low : ℕ) → low < 2 ^ s → prefix neg s low < 2 ^ s
prefix-lt true s low h = omega arith
prefix-lt false s low h = h

joined :
    (neg : Bool) (s low w : ℕ)
    → low < 2 ^ s
    → prefix neg s low + digit neg w * 2 ^ s ≡ prefix neg (s + 7) (low + w % 128 * 2 ^ s)
joined true s low w hl = omega (arith, two_pow-add s 7, complement)
  where
    parts : 127 - w % 128 + w % 128 ≡ 127
    parts = omega arith

    complement : (127 - w % 128) * 2 ^ s + w % 128 * 2 ^ s ≡ 127 * 2 ^ s
    complement = omega (arith, ap (λ (t : ℕ). t * 2 ^ s) parts)
joined false s low w hl = refl

joined-lt : (s low w : ℕ) → low < 2 ^ s → low + w % 128 * 2 ^ s < 2 ^ (s + 7)
joined-lt s low w hl = rw (two_pow-add s 7) (grind (arith, mod-lt w {m = 128} (omega arith)))

-- One group below bit 63, and the last one of a long encoding.
add_digit :
    (neg : Bool) (b s low w : ℕ)
    → b % 128 ≡ digit neg w
    → s + 7 < 64
    → low < 2 ^ s
    → add_group (prefix neg s low) b s ≡ prefix neg (s + 7) (low + w % 128 * 2 ^ s)
add_digit neg b s low w e hs hl =
    add_group-eq (prefix neg s low) b (digit neg w) s e (omega arith) (prefix-lt neg s low hl) fits
    ∙ joined neg s low w hl
  where
    fits : prefix neg s low + digit neg w * 2 ^ s < 2 ^ 64
    fits = rw (joined neg s low w hl) (
        omega (
          arith,
          prefix-lt neg (s + 7) (low + w % 128 * 2 ^ s) (joined-lt s low w hl),
          pow-le-pow_right {n = 2} (omega arith) {i = s + 7} {j = 63} (omega arith),
        ))

add_last :
    (neg : Bool) (b low : ℕ)
    → b % 128 ≡ digit neg 0
    → low < 2 ^ 63
    → add_group (prefix neg 63 low) b 63 ≡ prefix neg 64 low
unfolding add_group
add_last true b low e hl =
    rw (low_group b ∙ e) (bit_or_disjoint 63 (2 ^ 63 - 1 - low) 1 (omega arith) ∙ omega arith)
add_last false b low e hl = rw (low_group b ∙ e) (bit_or_disjoint 63 low 0 hl ∙ omega arith)

-- The sign is extended above bit `t`, and a full word is left alone.
sign_bits-eq :
    (neg : Bool) (t low w : ℕ)
    → t < 64
    → w < 64
    → low < 2 ^ t
    → sign_bits (prefix neg t low) (digit neg w) t ≡ prefix neg 64 low
unfolding sign_bits
sign_bits-eq true t low w ht hw hl = ground (
  arith,
  sign_bit (127 - w % 128) (omega arith),
  bit_or_disjoint t (2 ^ t - 1 - low) (2 ^ (64 - t) - 1) (omega arith),
  two_pow-split t 64 (omega arith),
  minus_one (2 ^ (64 - t)) (2 ^ t) (two_pow-pos (64 - t)),
  pow-le-pow_right {n = 2} (omega arith) {i = t} {j = 64} (omega arith),
)
sign_bits-eq false t low w ht hw hl = ground (arith, sign_bit (w % 128) (omega arith))

sign_bits_full : (val b t : ℕ) → 64 ≤ t → sign_bits val b t ≡ val
unfolding sign_bits
sign_bits_full val b t ht = ground arith

as_i64-prefix : (neg : Bool) (low : ℕ) → low < 2 ^ 63 → as_i64 (prefix neg 64 low) ≡ signed neg low
as_i64-prefix true low h = ground arith
as_i64-prefix false low h = ground arith

digit-lt : (neg : Bool) (w : ℕ) → digit neg w < 128
digit-lt true w = omega arith
digit-lt false w = omega arith

digit-mod : (neg : Bool) (w : ℕ) → digit neg w % 128 ≡ digit neg w
digit-mod neg w = omega (arith, digit-lt neg w)

-- The last byte of an encoding, and one before it.
module _ (neg : Bool) (s low w : ℕ) (rest : List ℕ) (hl : low < 2 ^ s)
    (fits : low + w * 2 ^ s < 2 ^ 63) where
  last_read :
      s + 7 < 64
      → w < 64
      → sleb_loop (digit neg w ∷ rest) (prefix neg s low) s
        ≡ some (signed neg (low + w * 2 ^ s), rest)
  unfolding sleb_loop
  last_read hs hw =
      let e : w % 128 ≡ w = omega arith in
      let below : low + w * 2 ^ s < 2 ^ (s + 7) = rw e at (joined-lt s low w hl) in
      let added : add_group (prefix neg s low) (digit neg w) s
          ≡ prefix neg (s + 7) (low + w * 2 ^ s) =
        rw e at (add_digit neg (digit neg w) s low w (digit-mod neg w) hs hl) in
      ground (
        arith,
        added,
        top_bit (digit neg w) (omega (arith, digit-lt neg w)),
        digit-lt neg w,
        sign_bits-eq neg (s + 7) (low + w * 2 ^ s) w hs hw below,
        as_i64-prefix neg (low + w * 2 ^ s) fits,
      )

  next_read :
      s + 7 < 64
      → sleb_loop ((digit neg w + 128) ∷ rest) (prefix neg s low) s
        ≡ sleb_loop rest (prefix neg (s + 7) (low + w % 128 * 2 ^ s)) (s + 7)
  unfolding sleb_loop
  next_read hs = ground (
    arith,
    digit-lt neg w,
    top_bit (digit neg w + 128) (omega (arith, digit-lt neg w)),
    add_digit neg (digit neg w + 128) s low w (omega (arith, digit-lt neg w)) hs hl,
  )

last_full_read :
    (neg : Bool) (low : ℕ) (rest : List ℕ)
    → low < 2 ^ 63
    → sleb_loop (digit neg 0 ∷ rest) (prefix neg 63 low) 63 ≡ some (signed neg low, rest)
unfolding sleb_loop
last_full_read neg low rest h = ground (
  arith,
  digit-lt neg 0,
  top_bit (digit neg 0) (omega (arith, digit-lt neg 0)),
  add_last neg (digit neg 0) low (digit-mod neg 0) h,
  sign_bits_full (prefix neg 64 low) (digit neg 0) 70 (omega arith),
  as_i64-prefix neg low h,
)

-- A last byte at bit 63, the tenth one.
tenth_read :
    (neg : Bool) (s low w : ℕ) (rest : List ℕ)
    → s ≡ 63
    → low + w * 2 ^ s < 2 ^ 63
    → sleb_loop (digit neg w ∷ rest) (prefix neg s low) s
      ≡ some (signed neg (low + w * 2 ^ s), rest)
tenth_read neg s low w rest e h =
    rw (e, none_left, low-eq) (last_full_read neg low rest (omega (arith, h')))
  where
    h' : low + w * 2 ^ 63 < 2 ^ 63
    h' = rw e at h

    none_left : w ≡ 0
    none_left = omega (arith, h')

    low-eq : low + 0 ≡ low
    low-eq = omega arith

split_word : (w s : ℕ) → w * 2 ^ s ≡ w % 128 * 2 ^ s + w / 128 * 2 ^ (s + 7)
split_word w s =
    let whole = ap (λ (v : ℕ). v * 2 ^ s) (div-add-mod w 128) in
    let high = ap (λ (v : ℕ). w / 128 * v) (two_pow-add s 7) in omega (arith, high, whole)

-- A byte that is not the last one lies below bit 57.
room : (w s low : ℕ) → 64 ≤ w → low + w * 2 ^ s < 2 ^ 63 → s + 6 < 63
room w s low hw h = exponent-lt (s + 6) 63 (omega (arith, two_pow-add s 6, at_least))
  where
    at_least : 64 * 2 ^ s ≤ w * 2 ^ s
    at_least = grind arith

final_read :
    (neg : Bool) (j w s low : ℕ) (rest : List ℕ)
    → s ≡ 7 * j
    → s < 64
    → w < 64
    → low < 2 ^ s
    → low + w * 2 ^ s < 2 ^ 63
    → sleb_loop (digit neg w ∷ rest) (prefix neg s low) s
      ≡ some (signed neg (low + w * 2 ^ s), rest)
final_read neg j w s low rest e hs hw hl fits = elim (dec_lt (s + 7) 64) [
  | yes p ↦ last_read neg s low w rest hl fits p hw
  | no p ↦ tenth_read neg s low w rest (omega arith) fits
]

sleb_loop-groups :
    (k : ℕ) (neg : Bool) (j w s low : ℕ) (rest : List ℕ)
    → s ≡ 7 * j
    → s < 64
    → w < 64 * 128 ^ k
    → low < 2 ^ s
    → low + w * 2 ^ s < 2 ^ 63
    → sleb_loop (signed_groups k neg w ++ rest) (prefix neg s low) s
      ≡ some (signed neg (low + w * 2 ^ s), rest)
unfolding signed_groups
sleb_loop-groups zero neg j w s low rest e hs hk hl fits =
    final_read neg j w s low rest e hs (omega arith) hl fits
sleb_loop-groups (suc k) neg j w s low rest e hs hk hl fits = elim (Bool-cases (ltb w 64)) [
  | inl small ↦ rw small (final_read neg j w s low rest e hs (ltb→lt _ _ small) hl fits)
  | inr large ↦
      let more = room w s low (ltb→ge w 64 large) fits in
      let sum : low + w % 128 * 2 ^ s + w / 128 * 2 ^ (s + 7) ≡ low + w * 2 ^ s =
        omega (arith, split_word w s) in
      rw large (
        next_read neg s low w (signed_groups k neg (w / 128) ++ rest) hl fits (omega arith)
        ∙ sleb_loop-groups k neg (j + 1) (w / 128) (s + 7) (low + w % 128 * 2 ^ s) rest
            (omega arith) (omega arith) (omega (arith, pow-suc 128 k)) (joined-lt s low w hl)
            (omega (arith, sum))
        ∙ ap (λ (v : ℕ). some (signed neg v, rest)) sum)
]

abbrev pub IsI64 : ℤ → Type 0
IsI64 (pos n) = n < 2 ^ 63
IsI64 (negsuc n) = n < 2 ^ 63

-- The groups that an i64 is encoded in.
pub sleb_groups : ℤ → List ℕ
sleb_groups (pos n) = signed_groups 9 false n
sleb_groups (negsuc n) = signed_groups 9 true n

pub encode_sleb-groups :
    (buf : List ℕ) (value : ℤ)
    → IsI64 value
    → encode_sleb buf value ≡ some (buf ++ sleb_groups value)
unfolding encode_sleb sleb_groups
encode_sleb-groups buf (pos n) h = encode_sleb_loop-groups 9 buf false n h (omega arith)
encode_sleb-groups buf (negsuc n) h = encode_sleb_loop-groups 9 buf true n h (omega arith)

pub sleb-groups :
    (value : ℤ) (rest : List ℕ)
    → IsI64 value
    → sleb (sleb_groups value ++ rest) ≡ some (value, rest)
unfolding sleb sleb_groups
sleb-groups (pos n) rest h =
    sleb_loop-groups 9 false 0 n 0 0 rest (omega arith) (omega arith) (omega arith) (omega arith)
      (omega arith)
    ∙ ap (λ (v : ℕ). some (pos v, rest)) (omega arith)
sleb-groups (negsuc n) rest h =
    sleb_loop-groups 9 true 0 n 0 0 rest (omega arith) (omega arith) (omega arith) (omega arith)
      (omega arith)
    ∙ ap (λ (v : ℕ). some (negsuc v, rest)) (omega arith)

-- Every i64 is encoded in at most ten bytes (the loop's fuel), and the reader of the DWARF code
-- reads it back, whatever bytes follow.
pub sleb-encode_sleb :
    (value : ℤ) (rest : List ℕ)
    → IsI64 value
    → (code : List ℕ) × (encode_sleb [] value ≡ some code)
      × (sleb (code ++ rest) ≡ some (value, rest))
sleb-encode_sleb value rest h =
    (sleb_groups value, encode_sleb-groups [] value h, sleb-groups value rest h)

-- ===== src/Util/Leb/SignedEncoding.antt =====
-- What `encode_sleb` of macho/util/mod.rs writes, in plain arithmetic.
use mold_macho.Prelude.{
  ◌++◌, ltb, ◌<◌, append_assoc, ◌*◌, [], ◌^◌, ◌/◌, arith, false, inr, Bool, bit_or, suc, zero,
  bit_and, ℕ, true, Bool-cases, refl, ◌≡◌, lt→ltb, not, some, ◌+◌, if◌then◌else◌, inl, ◌∙◌, List,
  ◌∷◌, ◌%◌, ◌-◌, ap, ◌==◌,
}
use mold_macho.Prelude.Bits.{bit_or_disjoint, bit_and_high}
use mold_macho.Prelude.Int.{asr, ℤ, pos, negsuc}
use mold_macho.Util.Leb.{low7, encode_sleb_loop, sleb_done}
use mold_macho.Util.Leb.Encoding.{low_group}
use native.Mathlib.Nat.{pow-suc}

-- The lowest group of a number or, if it is negative, of its complement.
abbrev pub digit : Bool → ℕ → ℕ
digit true w = 127 - w % 128
digit false w = w % 128

-- The i64 with the magnitude bits `w`, and what encodes it in at most k + 1 groups.
abbrev pub signed : Bool → ℕ → ℤ
signed true w = negsuc w
signed false w = pos w

unfoldable pub signed_groups : ℕ → Bool → ℕ → List ℕ
signed_groups zero neg w = digit neg w ∷ []
signed_groups (suc k) neg w =
    let rest = signed_groups k neg (w / 128) in
    if ltb w 64 then digit neg w ∷ [] else (digit neg w + 128) ∷ rest

low7-signed : (neg : Bool) (w : ℕ) → w < 2 ^ 63 → low7 (signed neg w) ≡ digit neg w
low7-signed true w h = rw low_group (omega arith)
low7-signed false w h = low_group w

pub sign_bit : (b : ℕ) → b < 128 → bit_and b 0x40 ≡ b / 64 * 64
sign_bit b h = bit_and_high 6 1 b (omega arith)

marked_digit : (neg : Bool) (w : ℕ) → bit_or (digit neg w) 0x80 ≡ digit neg w + 128
marked_digit true w = bit_or_disjoint 7 (127 - w % 128) 1 (omega arith)
marked_digit false w = bit_or_disjoint 7 (w % 128) 1 (omega arith)

-- The loop's test is whether the digit holds the last bits and shows the sign.
done-eq :
    (neg : Bool) (w : ℕ)
    → sleb_done (asr (signed neg w) 7) (not (bit_and (digit neg w) 0x40 == 0)) ≡ ltb w 64
done-eq true w = ground (arith, sign_bit (127 - w % 128) (omega arith))
done-eq false w = ground (arith, sign_bit (w % 128) (omega arith))

asr-signed : (neg : Bool) (w : ℕ) → asr (signed neg w) 7 ≡ signed neg (w / 128)
asr-signed true w = refl
asr-signed false w = refl

module _ (f : ℕ) (out : List ℕ) (neg : Bool) (w : ℕ) (h : w < 2 ^ 63) where
  encode_step : encode_sleb_loop (suc f) out (signed neg w) ≡ (
      if ltb w 64
      then some (out ++ digit neg w ∷ [])
      else encode_sleb_loop f (out ++ (digit neg w + 128) ∷ []) (signed neg (w / 128)))
  unfolding encode_sleb_loop
  encode_step = rw (low7-signed neg w h, marked_digit neg w, done-eq neg w, asr-signed neg w)

pub encode_sleb_loop-groups :
    (k : ℕ) (out : List ℕ) (neg : Bool) (w : ℕ)
    → w < 2 ^ 63
    → w < 64 * 128 ^ k
    → encode_sleb_loop (suc k) out (signed neg w) ≡ some (out ++ signed_groups k neg w)
unfolding signed_groups
encode_sleb_loop-groups zero out neg w h hk =
    rw (encode_step zero out neg w h, lt→ltb w 64 (omega arith))
encode_sleb_loop-groups (suc k) out neg w h hk = elim (Bool-cases (ltb w 64)) [
  | inl small ↦ rw (encode_step (suc k) out neg w h, small)
  | inr large ↦
      rw (encode_step (suc k) out neg w h, large)
        (encode_sleb_loop-groups k (out ++ (digit neg w + 128) ∷ []) neg (w / 128) (omega arith)
            (omega (arith, pow-suc 128 k))
          ∙ ap some (append_assoc out ((digit neg w + 128) ∷ []) (signed_groups k neg (w / 128))))
]

-- ===== src/Thunks/Offsets.antt =====
-- The offsets that macho/thunks.rs gives the members: what aligning and appending do to them.
use mold_macho.Prelude.{
  ℕ, ◌≤◌, refl, zero, suc, drop, length, ◌^◌, ◌++◌, ◌+◌, [], ◌≡◌, ◌<◌, ◌∷◌, List, arith, ◌*◌, ◌/◌,
  ◌-◌, ◌%◌, inr, Bool-cases, inl, ap, bit_and, dec_le, ◌∙◌, sym,
}
use mold_macho.Prelude.Bits.{two_pow-pos, bit_and_low}
use mold_macho.Prelude.Slices.{drop-nil}
use mold_macho.Thunks.Data.{size_at, Isec, align_offset, offset_at, unplaced}
use mold_macho.Util.Align.{align_to, align_to_mod}
use mold_macho.Util.Align.Laws.{align_to_least, align_to_mod_least}
use native.Mathlib.Nat.{mod-lt, div-add-mod, pow-le-pow_right}

pub align_to-near :
    (k v : ℕ)
    → k < 64
    → v + 2 ^ k ≤ 2 ^ 64
    → (v ≤ align_to v (2 ^ k)) × (align_to v (2 ^ k) ≤ v + 2 ^ k)
align_to-near k v hk h =
    let (le, aligned, least) = align_to_least k v (v / 2 ^ k + 1) hk h in
    (
      le,
      omega (
        arith,
        least (omega (arith, div-add-mod v (2 ^ k), mod-lt v (two_pow-pos k))),
        div-add-mod v (2 ^ k),
      ),
    )

align_to_mod-near :
    (k v m : ℕ)
    → k < 64
    → v + 2 ^ k ≤ 2 ^ 64
    → m < 2 ^ k
    → (v ≤ align_to_mod v (2 ^ k) m) × (align_to_mod v (2 ^ k) m ≤ v + 2 ^ k)
align_to_mod-near k v m hk h hm =
    let q = (v - m) / 2 ^ k + 1 in
    let e : 2 ^ k * ((v - m) / 2 ^ k) + (v - m) % 2 ^ k ≡ v - m = div-add-mod (v - m) (2 ^ k) in
    let (le, aligned, least) = align_to_mod_least k v m q hk h hm in
    let (le', aligned', least') = align_to_mod_least k v m 0 hk h hm in
    (
      le,
      elim (dec_le v m) [
        | yes small ↦ omega (arith, least' (omega arith))
        | no large ↦ omega (arith, least (omega (arith, e, mod-lt (v - m) (two_pow-pos k))), e)
      ],
    )

pub align_offset-near :
    (isec : Isec) (off : ℕ)
    → isec.p2align ≤ 15
    → off < 2 ^ 33
    → (off ≤ align_offset isec off) × (align_offset isec off ≤ off + 2 ^ isec.p2align)
unfolding align_offset
align_offset-near isec off hk h =
    let p32 : 2 ^ isec.p2align ≤ 2 ^ 15 = pow-le-pow_right {n = 2} (omega arith) hk in
    elim (Bool-cases isec.no_modulus) [
      | inl e ↦ rw e (align_to-near isec.p2align off (omega arith) (omega arith))
      | inr e ↦ rw e (
          align_to_mod-near isec.p2align off (bit_and isec.input_addr (2 ^ isec.p2align - 1))
            (omega arith) (omega arith)
            (rw (bit_and_low isec.p2align isec.input_addr)
              (mod-lt isec.input_addr (two_pow-pos isec.p2align))))
    ]

pub offset_at-append :
    (starts more : List ℕ) (i : ℕ)
    → i < length starts
    → offset_at (starts ++ more) i ≡ offset_at starts i
unfolding offset_at
offset_at-append [] more i h = absurd (omega arith)
offset_at-append (x ∷ starts) more zero h = refl
offset_at-append (x ∷ starts) more (suc i) h = offset_at-append starts more i (omega arith)

pub offset_at-last : (starts : List ℕ) (x : ℕ) → offset_at (starts ++ x ∷ []) (length starts) ≡ x
unfolding offset_at
offset_at-last [] x = refl
offset_at-last (y ∷ starts) x = offset_at-last starts x

pub offset_at-beyond : (starts : List ℕ) (i : ℕ) → length starts ≤ i → offset_at starts i ≡ unplaced
unfolding offset_at
offset_at-beyond [] i h = refl
offset_at-beyond (y ∷ starts) zero h = absurd (omega arith)
offset_at-beyond (y ∷ starts) (suc i) h = offset_at-beyond starts i (omega arith)

pub size_at-drop :
    (members : List Isec) (d : ℕ) (isec : Isec) (rest : List Isec)
    → drop d members ≡ isec ∷ rest
    → (size_at members d ≡ isec.size) × (drop (suc d) members ≡ rest)
unfolding size_at
size_at-drop [] d isec rest h = let h' : [] ≡ isec ∷ rest = sym (drop-nil d) ∙ h in absurd cc
size_at-drop (x ∷ members) zero isec rest h =
    let e : x ≡ isec = cc in (ap (λ (i : Isec). i.size) e, cc)
size_at-drop (x ∷ members) (suc d) isec rest h = size_at-drop members d isec rest h

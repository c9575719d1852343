-- ===== src/Thunks/Batch.antt =====
-- The bounds of a batch of macho/thunks.rs: its end, C, and A.
use mathlib.Core.Path.{subst}
use mold_macho.Prelude.{
  ◌<◌, suc, ltb→ge, ℕ, Bool, ◌≤◌, inr, ◌≡◌, true, ◌==◌, arith, ◌+◌, dec_lt, List, zero,
  if◌then◌else◌, ltb, Bool-cases, length, false, ◌-◌, inl,
}
use mold_macho.Thunks.{batch_end, offset_of_c, next_a, Placed}
use mold_macho.Thunks.Data.{size_at, offset_at, Isec, batch_size, partition_point}
use mold_macho.Thunks.Layout.{IsLaid}
use mold_macho.Thunks.Scan.{distance}

partition_point_le : (test : ℕ → Bool) (i len : ℕ) → partition_point test i len ≤ len
unfolding partition_point
partition_point_le test i zero = omega arith
partition_point_le test i (suc len) = ground (arith, partition_point_le test (suc i) len)

partition_point_stop :
    (test : ℕ → Bool) (i len : ℕ)
    → partition_point test i len < len
    → test (i + partition_point test i len) ≡ false
unfolding partition_point
partition_point_stop test i zero h = absurd (omega arith)
partition_point_stop test i (suc len) h = elim (Bool-cases (test i)) [
  | inl e ↦
      let h' : suc (partition_point test (suc i) len) < suc len =
        subst (λ (r : Bool). (if r then suc (partition_point test (suc i) len) else 0) < suc len) e
          h in
      let e' : i + suc (partition_point test (suc i) len)
          ≡ suc i + partition_point test (suc i) len =
        omega arith in
      rw (e, e') (partition_point_stop test (suc i) len (omega arith))
  | inr e ↦ let e' : i + 0 ≡ i = omega arith in rw (e, e') e
]

module _ (members : List Isec) (starts : List ℕ) (b d : ℕ) where
  pub batch_end-within :
      b < d → (b < batch_end members starts b d) × (batch_end members starts b d ≤ d)
  unfolding batch_end
  batch_end-within h =
      let test =
        λ (i : ℕ). ltb (offset_at starts i + size_at members i) (offset_at starts b + batch_size) in
      omega (arith, partition_point_le test (b + 1) (d - (b + 1)))

  pub batch_end-full :
      batch_end members starts b d < d
      → offset_at starts b + batch_size
        ≤ offset_at starts (batch_end members starts b d)
          + size_at members (batch_end members starts b d)
  unfolding batch_end
  batch_end-full h =
      let test =
        λ (i : ℕ). ltb (offset_at starts i + size_at members i) (offset_at starts b + batch_size) in
      ltb→ge _ _ (partition_point_stop test (b + 1) (d - (b + 1)) (omega arith))

pub offset_of_c-bounds :
    (members : List Isec) (placed : Placed) (c : ℕ)
    → IsLaid members placed.starts placed.offset
    → c ≤ length placed.starts
    → (offset_of_c placed c ≤ placed.offset)
      × ((i : ℕ) → i < c → offset_at placed.starts i + size_at members i ≤ offset_of_c placed c)
unfolding offset_of_c
offset_of_c-bounds members placed c laid h = elim (dec_lt c (length placed.starts)) [
  | yes before ↦
      let e : (c == length placed.starts) ≡ false = ground arith in
      rw e (omega (arith, laid.ends c before), λ i lt. laid.ordered i c lt before)
  | no last ↦
      let e : (c == length placed.starts) ≡ true = ground arith in
      rw e (omega arith, λ i lt. laid.ends i (omega arith))
]

module _ (branch_range : ℕ) (starts : List ℕ) (a b c_offset : ℕ) where
  pub next_a-bounds :
      a ≤ b
      → c_offset ≤ offset_at starts b + distance branch_range
      → (next_a branch_range starts a b c_offset ≤ b)
        × (c_offset
            ≤ offset_at starts (next_a branch_range starts a b c_offset) + distance branch_range)
  unfolding next_a
  next_a-bounds le near =
      let test = λ (i : ℕ). ltb (offset_at starts i) (c_offset - distance branch_range) in
      let within = partition_point_le test a (b - a) in
      (
        omega arith,
        elim (dec_lt (partition_point test a (b - a)) (b - a)) [
          | yes before ↦ omega (arith, ltb→ge _ _ (partition_point_stop test a (b - a) before))
          | no last ↦ let e : a + partition_point test a (b - a) ≡ b = omega arith in rw e near
        ],
      )

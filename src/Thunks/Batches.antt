-- ===== src/Thunks/Batches.antt =====
-- The count of the batches that are left, of macho/thunks.rs.
use mold_macho.Prelude.{
  lt→ltb, leb, length, arith, ◌+◌, zero, refl, ℕ, ◌<◌, ◌≤◌, ◌*◌, ◌==◌, some, List, dec_lt, suc, ◌≡◌,
  ge→ltb, ◌-◌, ◌&&◌,
}
use mold_macho.Thunks.{batches_left, batch_end, Placed, aim}
use mold_macho.Thunks.Batch.{batch_end-within}
use mold_macho.Thunks.Data.{offset_at, Isec, thunk_align, max_thunk_size, Reach}
use mold_macho.Thunks.Hop.{c_offset}
use mold_macho.Thunks.Scan.{distance}

module _ (members : List Isec) (starts : List ℕ) where
  -- From member `i` on, the members are taken in so many batches.
  pub data Batches : ℕ → ℕ → Type 0 where
    none_left : {i : ℕ} → length members ≤ i → Batches i 0
    one_more :
        {i n : ℕ}
        → i < length members
        → Batches (batch_end members starts i (length members)) n
        → Batches i (suc n)

  batches_left-Batches :
      (fuel i : ℕ) → length members ≤ i + fuel → Batches i (batches_left fuel members starts i)
  unfolding batches_left
  batches_left-Batches zero i h = none_left (omega arith)
  batches_left-Batches (suc fuel) i h = elim (dec_lt i (length members)) [
    | yes more ↦
        let within = batch_end-within members starts i (length members) more in
        rw (lt→ltb i (length members) more) (
          one_more more
            (batches_left-Batches fuel (batch_end members starts i (length members)) (omega arith)))
    | no none_more ↦ rw (ge→ltb i (length members) (omega arith)) (none_left (omega arith))
  ]

-- The forward flag counts every batch that is left.
aim-Batches :
    (branch_range : ℕ) (members : List Isec) (reach : Reach) (placed : Placed) (b c_offset room : ℕ)
    → reach.after_room ≡ some room
    → (n : ℕ) × Batches members placed.starts b n
      × ((aim branch_range members reach placed b c_offset).forward ≡ (
          length placed.starts == length members
          && leb
              (placed.offset
                + n * (max_thunk_size + thunk_align)
                + room
                - offset_at placed.starts b)
              (distance branch_range)))
unfolding aim
aim-Batches branch_range members reach placed b c_offset room after = (
  batches_left (length members) members placed.starts b,
  batches_left-Batches members placed.starts (length members) b (omega arith),
  rw after refl,
)

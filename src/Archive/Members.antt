-- ===== src/Archive/Members.antt =====
-- The iterator over an archive's members never goes out of range, and yields what the archive holds.
use mold_macho.Archive.{ArHeader, members_loop, parse, visit, header_size, after_pad}
use mold_macho.Prelude.{
  lt→ltb, ℕ, arith, length, ◌-◌, refl, min, ◌≡◌, suc, ◌<◌, Option, drop, ◌++◌, some, [], take,
  ge→ltb, ◌+◌, List, ◌≤◌,
}
use mold_macho.Prelude.Fallible.{◌>>=◌}

module _ (memmem_find : List ℕ → List ℕ → Option ℕ) where
  pub after_pad_near : (at : ℕ) → (at ≤ after_pad at) × (after_pad at ≤ at + 1)
  unfolding after_pad
  after_pad_near at = ground arith

  -- A round that reads a header, at an even place.
  pub members_loop_step :
      (fuel : ℕ) (data_bytes : List ℕ) (at : ℕ) (strtab : List ℕ) (hdr : ArHeader)
      → at + 2 ≤ length data_bytes
      → after_pad at + header_size ≤ length data_bytes
      → parse (drop (after_pad at) data_bytes) ≡ some hdr
      → members_loop memmem_find (suc fuel) data_bytes at strtab ≡ (
          members_loop memmem_find fuel data_bytes
            (min (after_pad at + header_size + hdr.size) (length data_bytes))
            (visit memmem_find hdr strtab (
              take
                (min (after_pad at + header_size + hdr.size) (length data_bytes)
                  - (after_pad at + header_size))
                (drop (after_pad at + header_size) data_bytes))).0
          >>= (λ rest. some (
              (visit memmem_find hdr strtab (
                take
                  (min (after_pad at + header_size + hdr.size) (length data_bytes)
                    - (after_pad at + header_size))
                  (drop (after_pad at + header_size) data_bytes))).1
              ++ rest)))
  unfolding members_loop
  members_loop_step fuel data_bytes at strtab hdr room fits read =
      let t1 = ge→ltb (length data_bytes) at (omega arith) in
      let t2 = ge→ltb (length data_bytes - at) 2 (omega arith) in
      let t3 =
        ge→ltb (min (after_pad at + header_size + hdr.size) (length data_bytes))
          (after_pad at + header_size) (omega arith) in
      let t4 = ge→ltb (length data_bytes) (after_pad at) (omega arith) in
      rw (t1, t2, t4, read, t3) refl

  pub members_loop_end :
      (fuel : ℕ) (data_bytes : List ℕ) (at : ℕ) (strtab : List ℕ)
      → at ≤ length data_bytes
      → length data_bytes - at < 2
      → members_loop memmem_find (suc fuel) data_bytes at strtab ≡ some []
  unfolding members_loop
  members_loop_end fuel data_bytes at strtab le small =
      rw (ge→ltb (length data_bytes) at le, lt→ltb (length data_bytes - at) 2 small) refl

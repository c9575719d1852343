-- ===== src/Chunks/Rebase/Construct.antt =====
-- The whole of `construct`: the loader slides exactly the locations gathered, once each and in
-- ascending order.
use mathlib.Core.Path.{subst}
use mold_macho.Chunks.Rebase.{
  Op, move_to, Cursor, enter_segment, rebase, encode_ops, rebase_ops_loop, run_length, add_addr,
  rebase_ops, construct,
}
use mold_macho.Chunks.Rebase.Machine.{slid, slid_stream}
use mold_macho.Chunks.Rebase.Ops.{run_length-bound, IsSlot, rebase_ops-slid}
use mold_macho.Chunks.Rebase.Stream.{
  IsOp, encode_ops-codes, codes_of, read_ops-codes, length-codes_of,
}
use mold_macho.Chunks.Segments.{segment_and_offset, Segment, segment_and_offset-Locates}
use mold_macho.Prelude.{
  [], ◌≡◌, ◌∷◌, zero, ◌<◌, suc, length, ℕ, some, arith, ◌^◌, List, ◌≤◌, get_elem?, drop, inr,
  Option, ◌*◌, ◌-◌, ◌||◌, leb, ◌++◌, ◌==◌, ltb, ◌+◌, bit_or, inl, ◌%◌, Bool-cases, refl, ◌∙◌, false,
  length-append, append_assoc, ap,
}
use mold_macho.Prelude.Bytes.{All, All-drop, pad_to, All-append}
use mold_macho.Prelude.Fallible.{>>=-eq-some, some_inj}
use mold_macho.Prelude.Sort.{sort, All-sort}

pub get_elem?-lt {ℓ} :
    {A : Type ℓ} (xs : List A) (i : ℕ) {a : A} → get_elem? xs i ≡ some a → i < length xs
get_elem?-lt [] i h = cc
get_elem?-lt (x ∷ xs) zero h = omega arith
get_elem?-lt (x ∷ xs) (suc i) h = omega (arith, get_elem?-lt xs i h)

module _ (segs : List Segment) (few : length segs ≤ 16) where
  enter_segment-IsOp :
      (addr : ℕ) (move : List Op) (s e : ℕ)
      → addr < 2 ^ 64
      → enter_segment segs addr ≡ some (move, s, e)
      → All IsOp move
  unfolding enter_segment
  enter_segment-IsOp addr move s e ha h =
      let ((i, off), found, h') = >>=-eq-some (segment_and_offset segs addr) _ h in
      let (seg, at, h'') = >>=-eq-some (get_elem? segs i) _ h' in
      let (seg', at', sum, inside) = segment_and_offset-Locates segs addr i off found in
      ground (arith, get_elem?-lt segs i at)

  move_to-IsOp :
      (c : Cursor) (addr : ℕ) (move : List Op) (s e : ℕ)
      → addr < 2 ^ 64
      → move_to segs c addr ≡ some (move, s, e)
      → All IsOp move
  unfolding move_to
  move_to-IsOp c addr move s e ha h =
      elim (Bool-cases (ltb addr c.seg_start || leb c.seg_end addr)) [
        | inl out ↦ enter_segment-IsOp addr move s e ha (rw out at h)
        | inr inside ↦ elim (Bool-cases (addr == c.cur_addr)) [
          | inl same ↦
              let e' : ◌≡◌ {A = Option (List Op × ℕ × ℕ)} (some ([], c.seg_start, c.seg_end))
                  (some (move, s, e)) =
                rw (inside, same) at h in
              ground arith
          | inr other ↦
              let e' : ◌≡◌ {A = Option (List Op × ℕ × ℕ)}
                  (some
                    (add_addr ((addr + 2 ^ 64 - c.cur_addr) % 2 ^ 64) ∷ [], c.seg_start, c.seg_end))
                  (some (move, s, e)) =
                rw (inside, other) at h in
              ground arith
        ]
      ]

  rebase_ops_loop-IsOp :
      (fuel : ℕ) (c : Cursor) (locs : List ℕ) (ops : List Op)
      → All (IsSlot segs) locs
      → rebase_ops_loop fuel segs c locs ≡ some ops
      → All IsOp ops
  unfolding rebase_ops_loop
  rebase_ops_loop-IsOp fuel c [] ops h e = ground arith
  rebase_ops_loop-IsOp zero c (addr ∷ locs) ops h e = cc
  rebase_ops_loop-IsOp (suc fuel) c (addr ∷ locs) ops (h, hs) e =
      let ((move, s, e'), moved, more) = >>=-eq-some (move_to segs c addr) _ e in
      let n = run_length e' (addr + 8) locs in
      let c' : Cursor = record { seg_start = s; seg_end = e'; cur_addr = addr + suc n * 8 } in
      let (ops', rest, last) = >>=-eq-some (rebase_ops_loop fuel segs c' (drop n locs)) _ more in
      let tail =
        rebase_ops_loop-IsOp fuel c' (drop n locs) ops' (All-drop (IsSlot segs) n locs hs) rest in
      let count : IsOp (rebase (suc n)) =
        omega (arith, run_length-bound segs locs e' (addr + 8) hs h.1) in
      let all =
        All-append IsOp move (rebase (suc n) ∷ ops')
          (move_to-IsOp c addr move s e' (omega (arith, h.1)) moved) (count, tail) in
      subst (All IsOp) (some_inj last) all

  rebase_ops-IsOp :
      (locs : List ℕ) (ops : List Op)
      → All (IsSlot segs) locs
      → rebase_ops segs locs ≡ some ops
      → All IsOp ops
  unfolding rebase_ops
  rebase_ops-IsOp locs ops h e = rebase_ops_loop-IsOp (length locs) _ locs ops h e

-- The stream's first byte sets the type; the rest holds a byte for each opcode at least.
read_stream :
    (segs : List Segment) (ops : List Op) (zeros : List ℕ)
    → All IsOp ops
    → slid_stream segs (0x11 ∷ (codes_of ops ++ 0 ∷ zeros)) ≡ slid segs 0 0 0 ops
unfolding slid_stream
read_stream segs ops zeros h =
    rw (read_ops-codes ops (length (codes_of ops ++ 0 ∷ zeros)) zeros h enough) refl
  where
    enough : length ops < length (codes_of ops ++ 0 ∷ zeros)
    enough = omega (arith, length-codes_of ops, length-append (codes_of ops) (0 ∷ zeros))

read_construct :
    (segs : List Segment) (ops : List Op)
    → All IsOp ops
    → slid_stream segs (pad_to 8 (encode_ops (bit_or 0x10 1 ∷ []) ops ++ 0 ∷ []))
      ≡ slid segs 0 0 0 ops
unfolding pad_to
read_construct segs ops h = rw (encode_ops-codes (bit_or 0x10 1 ∷ []) ops h) (
    ap (λ l. slid_stream segs (0x11 ∷ l)) (append_assoc (codes_of ops) (0 ∷ []) _)
    ∙ read_stream segs ops _ h)

-- For an image that may be slid, with at most 16 segments, whose pointers all lie in a segment and
-- inside the address space, the stream is built, and the loader, which refuses a slot outside the
-- segment that it stands in, slides by it exactly the gathered locations, sorted.
pub construct-slid :
    (segs : List Segment) (locs : List ℕ)
    → length segs ≤ 16
    → All (IsSlot segs) locs
    → (bytes : List ℕ) × (construct false segs locs ≡ some bytes)
      × (slid_stream segs bytes ≡ some (sort locs))
unfolding construct
construct-slid segs [] few h = ([], refl, unfold slid_stream sort in refl)
construct-slid segs (loc ∷ rest) few h =
    let slots = All-sort (IsSlot segs) (loc ∷ rest) h in
    let (ops, built, runs) = rebase_ops-slid segs (sort (loc ∷ rest)) slots in
    (
      _,
      rw built refl,
      read_construct segs ops (rebase_ops-IsOp segs few (sort (loc ∷ rest)) ops slots built) ∙ runs,
    )

-- ===== src/Thunks.antt =====
-- macho/thunks.rs: the layout of a code section with range-extension thunks. Its subsections and
-- symbols are in Data, the scan of a batch's branches in Scan.
--
-- A member of the section goes by its position among the members, so the offsets of the members are
-- a list that grows by one for each member placed: its length is the loop's `d`, and the members
-- beyond have the offset UNPLACED. The marks of the symbols are the list of the marked ones.
pub mod Data
pub mod Scan
pub mod Offsets
pub mod Layout
pub mod Batch
pub mod Batches
pub mod Marks
pub mod Prune
pub mod Claims
pub mod Valid
pub mod Hop
pub mod Round
pub mod Reached
pub mod Loop
pub mod Span
pub mod Correct
use mold_macho.Prelude.{
  zero, ℕ, suc, ◌^◌, [], ◌*◌, none, ◌==◌, take, List, Option, not, leb, length, ◌-◌, ◌∷◌, ◌&&◌,
  if◌then◌else◌, ◌+◌, false, drop, some, ◌++◌, ◌%◌, ltb,
}
use mold_macho.Prelude.Fallible.{◌>>=◌}
use mold_macho.Thunks.Data.{
  Thunk, Isec, Symbol, Reach, align_offset, partition_point, offset_at, size_at, prune,
  unmark_thunks, max_thunk_size, batch_size, thunk_align,
}
use mold_macho.Thunks.Scan.{distance, scan_batch}
use mold_macho.Util.Align.{align_to}

-- One round's offsets of members and the offset after the last.
pub record Placed : Type 0 where
  pub starts : List ℕ
  pub offset : ℕ

-- The variables of the loop of `create_thunks`, all but the number of offsets, `d`.
pub record State : Type 0 where
  pub starts : List ℕ
  pub offset : ℕ
  pub thunks : List Thunk
  pub marks : List ℕ
  pub a : ℕ
  pub b : ℕ
  pub t : ℕ

-- The thunk of the batch that ends at `c`, if a symbol needs an entry, and the next batch.
unfoldable pub add_thunk : ℕ → Placed → List Thunk → List ℕ → List ℕ → ℕ → ℕ → ℕ → State
add_thunk thunk_size placed thunks [] marks a c t = record {
  starts = placed.starts;
  offset = placed.offset;
  thunks = thunks;
  marks = marks;
  a = a;
  b = c;
  t = t;
}
add_thunk thunk_size placed thunks (id ∷ syms) marks a c t =
    let offset = align_to placed.offset thunk_align in
    record {
      starts = placed.starts;
      offset = offset + length (id ∷ syms) * thunk_size;
      thunks = thunks ++ record { offset = offset; syms = id ∷ syms } ∷ [];
      marks = marks;
      a = a;
      b = c;
      t = t;
    }

unfoldable pub batch_end : List Isec → List ℕ → ℕ → ℕ → ℕ
unfolding partition_point offset_at size_at
batch_end members starts b d =
    let limit = offset_at starts b + batch_size in
    b
    + 1
    + partition_point (λ i. ltb (offset_at starts i + size_at members i) limit) (b + 1)
        (d - (b + 1))

-- A batch takes a member at least, so as many rounds as there are members left are enough.
unfoldable pub batches_left : ℕ → List Isec → List ℕ → ℕ → ℕ
unfolding batch_end
batches_left zero members starts i = 0
batches_left (suc fuel) members starts i =
    let rest = batches_left fuel members starts (batch_end members starts i (length members)) in
    if ltb i (length members) then suc rest else 0

-- The offset of C.
unfoldable pub offset_of_c : Placed → ℕ → ℕ
unfolding offset_at
offset_of_c placed c =
    if c == length placed.starts then placed.offset else offset_at placed.starts c

module _ (branch_range : ℕ) where
  -- The loop that moves D forward, on the members from D on.
  unfoldable pub place_members : ℕ → List Isec → Placed → Placed
  unfolding align_offset offset_at
  place_members b [] s = s
  place_members b (isec ∷ rest) s =
      let start = align_offset isec s.offset in
      let end = start + isec.size in
      let more =
        place_members b rest (record { starts = s.starts ++ start % 2 ^ 32 ∷ []; offset = end }) in
      if not (b == length s.starts)
        && ltb (offset_at s.starts b + distance branch_range)
            (align_to end thunk_align + max_thunk_size)
      then s
      else more

  unfoldable pub next_a : List ℕ → ℕ → ℕ → ℕ → ℕ
  unfolding partition_point offset_at
  next_a starts a b c_offset =
      a
      + partition_point (λ i. ltb (offset_at starts i) (c_offset - distance branch_range)) a (b - a)

  -- The two flags of the batch that starts at `b`.
  unfoldable pub aim : List Isec → Reach → Placed → ℕ → ℕ → Reach
  unfolding batches_left offset_at
  aim members reach placed b c_offset = record {
    sides = reach.sides;
    stubs = reach.stubs;
    objc_stubs = reach.objc_stubs;
    before_room = reach.before_room;
    after_room = reach.after_room;
    backward = elim reach.before_room [
      | none ↦ false
      | some room ↦ leb (room + c_offset) (distance branch_range)
    ];
    forward = length placed.starts == length members && elim reach.after_room [
      | none ↦ false
      | some room ↦
          let batches = batches_left (length members) members placed.starts b in
          leb
            (placed.offset
              + batches * (max_thunk_size + thunk_align)
              + room
              - offset_at placed.starts b)
            (distance branch_range)
    ];
  }

  module _ (thunk_size : ℕ) (symbols : ℕ → Symbol) where
    -- The body of the loop of `create_thunks`, after D has moved.
    unfoldable pub scan_from : List Isec → Reach → State → Placed → State
    unfolding batch_end offset_of_c next_a prune aim scan_batch add_thunk
    scan_from members reach s placed =
        let c = batch_end members placed.starts s.b (length placed.starts) in
        let c_offset = offset_of_c placed c in
        let a = next_a placed.starts s.a s.b c_offset in
        let (marks, t) = prune (offset_at placed.starts a) (drop s.t s.thunks) s.marks s.t in
        let batch = take (c - s.b) (drop s.b members) in
        let found =
          scan_batch branch_range symbols placed.starts (aim members reach placed s.b c_offset) s.b
            batch marks in
        add_thunk thunk_size placed s.thunks found.1 found.0 a c t

    unfoldable pub step : List Isec → Reach → State → State
    unfolding place_members scan_from
    step members reach s = scan_from members reach s (
        place_members s.b (drop (length s.starts) members)
          (record { starts = s.starts; offset = s.offset }))

    -- The loop; a round takes a member at least. `none` is a loop that has not ended.
    unfoldable pub create_loop : ℕ → List Isec → Reach → State → Option State
    unfolding step
    create_loop zero members reach s = if ltb s.b (length members) then none else some s
    create_loop (suc fuel) members reach s =
        let more = create_loop fuel members reach (step members reach s) in
        if ltb s.b (length members) then more else some s

    -- What is left at the end: the offsets, the size, the thunks and the marks.
    unfoldable pub create_thunks : List Isec → Reach → List ℕ → Option State
    unfolding create_loop unmark_thunks
    create_thunks members reach marks =
        create_loop (length members) members reach
          (record { starts = []; offset = 0; thunks = []; marks = marks; a = 0; b = 0; t = 0 })
        >>= (λ s. some (record {
          starts = s.starts;
          offset = s.offset;
          thunks = s.thunks;
          marks = unmark_thunks (drop s.t s.thunks) s.marks;
          a = s.a;
          b = s.b;
          t = s.t;
        }))

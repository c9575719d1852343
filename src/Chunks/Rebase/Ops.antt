-- ===== src/Chunks/Rebase/Ops.antt =====
-- The opcodes of `rebase_ops` slide exactly the locations that it was given, in their order.
use mold_macho.Chunks.Rebase.{
  Op, Cursor, run_length, move_to, enter_segment, add_addr, seg_offset, rebase_ops, rebase_ops_loop,
  rebase,
}
use mold_macho.Chunks.Rebase.Machine.{slid, slots, slide}
use mold_macho.Chunks.Segments.{Segment, IsMapped, segment_and_offset-Locates, segment_and_offset}
use mold_macho.Prelude.{
  ◌≡◌, ◌+◌, ℕ, ◌∷◌, some, refl, ◌++◌, drop, ◌≤◌, [], ◌^◌, List, Bool-cases, ◌<◌, ◌%◌, inl, ◌||◌,
  leb, inr, arith, ◌==◌, ltb, ◌-◌, sym, ap, ==_iff, zero, ◌∙◌, length-drop, suc, ◌*◌, length,
  lt→ltb, le→leb, true,
}
use mold_macho.Prelude.Bytes.{All, All-drop}
use mold_macho.Prelude.Fallible.{some_of_ne}

run_length-slots :
    (locs : List ℕ) (seg_end next : ℕ)
    → slots next (run_length seg_end next locs) ++ drop (run_length seg_end next locs) locs ≡ locs
unfolding run_length slots
run_length-slots [] seg_end next = refl
run_length-slots (loc ∷ locs) seg_end next =
    ground (arith, run_length-slots locs seg_end (next + 8))

-- A location that the stream can name: mapped, with its slot inside the address space.
abbrev pub IsSlot : List Segment → ℕ → Type 0
IsSlot segs addr = IsMapped segs addr × (addr + 8 ≤ 2 ^ 64)

-- A run stays inside the segment.
run_length-slide :
    (locs : List ℕ) (lo hi next : ℕ)
    → lo ≤ next
    → slide lo hi next (run_length hi next locs) ≡ some (slots next (run_length hi next locs))
unfolding run_length slide slots
run_length-slide [] lo hi next h = refl
run_length-slide (loc ∷ locs) lo hi next h =
    ground (arith, run_length-slide locs lo hi (next + 8) (omega arith))

-- The machine at the cursor's address and in its segment, once it has executed the move, stands at
-- `addr`, in the segment that the move gives, which has the address.
abbrev Moves : List Segment → Cursor → ℕ → List Op × ℕ × ℕ → Type 0
Moves segs c addr (move, seg_start, seg_end) =
    ((ops : List Op)
      → slid segs c.seg_start c.seg_end c.cur_addr (move ++ ops)
        ≡ slid segs seg_start seg_end addr ops)
    × (seg_start ≤ addr)
    × (addr < seg_end)

enter_segment-Moves :
    (segs : List Segment) (c : Cursor) (addr : ℕ)
    → IsMapped segs addr
    → (r : List Op × ℕ × ℕ) × (enter_segment segs addr ≡ some r) × Moves segs c addr r
unfolding enter_segment slid
enter_segment-Moves segs c addr h =
    let ((i, off), found) = some_of_ne (segment_and_offset segs addr) h in
    let (seg, at, sum, inside) = segment_and_offset-Locates segs addr i off found in
    let base : addr - off ≡ seg.vmaddr = omega arith in
    (
      (seg_offset i off ∷ [], addr - off, addr - off + seg.vmsize),
      rw (found, at) refl,
      (λ ops. rw (at, sum, base) refl, omega arith, omega arith),
    )

pub wraps :
    (addr cur : ℕ)
    → addr < 2 ^ 64
    → cur ≤ 2 ^ 64
    → (cur + (addr + 2 ^ 64 - cur) % 2 ^ 64) % 2 ^ 64 ≡ addr
wraps addr cur h hc = omega arith

move_to-Moves :
    (segs : List Segment) (c : Cursor) (addr : ℕ)
    → IsSlot segs addr
    → c.cur_addr ≤ 2 ^ 64
    → (r : List Op × ℕ × ℕ) × (move_to segs c addr ≡ some r) × Moves segs c addr r
unfolding move_to
move_to-Moves segs c addr (mapped, fits) hc =
    elim (Bool-cases (ltb addr c.seg_start || leb c.seg_end addr)) [
      | inl out ↦ rw out (enter_segment-Moves segs c addr mapped)
      | inr inside ↦ rw inside (elim (Bool-cases (addr == c.cur_addr)) [
        | inl same ↦ rw same (
          ([], c.seg_start, c.seg_end),
          refl,
          (
            λ ops. ap (λ a. slid segs c.seg_start c.seg_end a ops) (sym ((==_iff _ _).0 same)),
            ground (arith, inside),
            ground (arith, inside),
          ),
        )
        | inr other ↦ rw other (
          (add_addr ((addr + 2 ^ 64 - c.cur_addr) % 2 ^ 64) ∷ [], c.seg_start, c.seg_end),
          refl,
          (
            λ ops.
                unfold slid in
                ap (λ a. slid segs c.seg_start c.seg_end a ops)
                  (wraps addr c.cur_addr (omega arith) hc),
            ground (arith, inside),
            ground (arith, inside),
          ),
        )
      ])
    ]

pub run_length-bound :
    (segs : List Segment) (locs : List ℕ) (seg_end next : ℕ)
    → All (IsSlot segs) locs
    → next ≤ 2 ^ 64
    → next + run_length seg_end next locs * 8 ≤ 2 ^ 64
unfolding run_length
run_length-bound segs [] seg_end next h hn = omega arith
run_length-bound segs (loc ∷ locs) seg_end next (h, hs) hn =
    ground (arith, h.1, run_length-bound segs locs seg_end (next + 8) hs)

slid-rebase :
    (segs : List Segment) (lo hi addr n : ℕ) (ops : List Op) {here rest : List ℕ}
    → lo ≤ addr
    → addr < hi
    → slide lo hi (addr + 8) n ≡ some here
    → slid segs lo hi (addr + suc n * 8) ops ≡ some rest
    → slid segs lo hi addr (rebase (suc n) ∷ ops) ≡ some (addr ∷ (here ++ rest))
unfolding slid slide
slid-rebase segs lo hi addr n ops low high now h =
    let low' : leb lo addr ≡ true = le→leb lo addr low in
    let high' : ltb addr hi ≡ true = lt→ltb addr hi high in rw (low', high', now, h) refl

rebase_ops_loop-slid :
    (fuel : ℕ) (segs : List Segment) (c : Cursor) (locs : List ℕ)
    → length locs ≤ fuel
    → c.cur_addr ≤ 2 ^ 64
    → All (IsSlot segs) locs
    → (ops : List Op) × (rebase_ops_loop fuel segs c locs ≡ some ops)
      × (slid segs c.seg_start c.seg_end c.cur_addr ops ≡ some locs)
unfolding rebase_ops_loop
rebase_ops_loop-slid fuel segs c [] hf hc h = ([], refl, unfold slid in refl)
rebase_ops_loop-slid zero segs c (addr ∷ locs) hf hc h = absurd (omega arith)
rebase_ops_loop-slid (suc fuel) segs c (addr ∷ locs) hf hc (h, hs) =
    let ((move, seg_start, seg_end), moved, steps) = move_to-Moves segs c addr h hc in
    let (moves, low, high) = steps in
    let n = run_length seg_end (addr + 8) locs in
    let bound = run_length-bound segs locs seg_end (addr + 8) hs h.1 in
    let (ops, done, rest) =
      rebase_ops_loop-slid fuel segs
        (record { seg_start = seg_start; seg_end = seg_end; cur_addr = addr + suc n * 8 })
        (drop n locs) (omega (arith, length-drop n locs)) (omega arith)
        (All-drop (IsSlot segs) n locs hs) in
    (
      move ++ rebase (suc n) ∷ ops,
      rw (moved, done) refl,
      moves (rebase (suc n) ∷ ops)
          ∙ slid-rebase segs seg_start seg_end addr n ops low high
              (run_length-slide locs seg_start seg_end (addr + 8) (omega arith)) rest
          ∙ ap (λ l. some (addr ∷ l)) (run_length-slots locs seg_end (addr + 8)),
    )

-- The opcodes of `rebase_ops` exist for any locations that segments hold, and the loader slides
-- exactly those locations by them, in their order.
pub rebase_ops-slid :
    (segs : List Segment) (locs : List ℕ)
    → All (IsSlot segs) locs
    → (ops : List Op) × (rebase_ops segs locs ≡ some ops) × (slid segs 0 0 0 ops ≡ some locs)
unfolding rebase_ops
rebase_ops-slid segs locs h =
    rebase_ops_loop-slid (length locs) segs _ locs (omega arith) (omega arith) h
